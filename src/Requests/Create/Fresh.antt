-- ===== src/Requests/Create/Fresh.antt =====
-- What `generate_request_from_change_model_array` makes, if it makes a request.
use consoleme.Base.{
  String, Bool, true, false, Option, none, some, List, [], ◌∷◌, ◌++◌, map, if◌then◌else◌,
}
use consoleme.Models.{Detail, inline_policy, Change, Arn, AwsPrincipal}
use consoleme.Requests.World.{Failure, Env, Work, Result, ok, raised, escape, chain}
use consoleme.Requests.Pairs.{Pairs}
use consoleme.Requests.Old.Kept.{Kept, Kept-detail, Kept-refl, all_Kept}
use consoleme.Requests.Drafts.{Draft, Groups, ungroup}
use consoleme.Requests.Stubs.Foreign.{Returns}
use consoleme.Requests.Checks.{
  Naming, named, named_group, check_groups, check_role, check_against, check_managed_policy,
  check_drafts, invalid,
}
use consoleme.Requests.Create.Sound.{change_of}

abbrev changes_of : Groups → List Change
changes_of g = map change_of (ungroup g)

module _ (e : Env) (n : Naming) (requester : String) where
  named-Kept : (d : Draft) (x : Detail) → Kept d.change (named e n requester d x).change
  unfolding named
  named-Kept d (inline_policy ch) = Kept-detail d.change _
  named-Kept d _ = Kept-refl d.change

  all_named :
      (ds : List Draft) (rest : List Draft)
      → Pairs Kept
          (map change_of (ds ++ rest))
          (map change_of (map (λ (d : Draft). named e n requester d d.change.detail) ds ++ rest))
  all_named [] rest = all_Kept (map change_of rest)
  all_named (d ∷ ds) rest = (named-Kept d d.change.detail, all_named ds rest)

  -- The check keeps the changes, but for the names of inline policies.
  abbrev pub Checks : Groups → Result Groups → Type 0
  Checks g r = Returns (λ (g' : Groups). Pairs Kept (changes_of g) (changes_of g')) r

  named-Checks : (g : Groups) → Checks g (ok (named_group e n requester g))
  unfolding ungroup
  named-Checks g = all_named g.inline _

  same-Checks : (g : Groups) → Checks g (ok g)
  same-Checks g = all_Kept (changes_of g)

  chain-Checks :
      (g g' : Groups) (c : Result (Unit {0})) → Checks g (ok g') → Checks g (chain c (λ _. ok g'))
  chain-Checks g g' (ok _) h = h
  chain-Checks g g' (raised err) h = tt

  invalid-Checks : (g : Groups) (s : String) → Checks g (invalid s)
  invalid-Checks g s = tt

  check_groups-Checks :
      (a : Arn) (g : Groups) (p : Option AwsPrincipal) → Checks g (check_groups e n requester a g p)
  unfolding check_groups
  check_groups-Checks a g none = tt
  check_groups-Checks a g (some p) = chain-Checks g (named_group e n requester g) _ (named-Checks g)

  -- Of a result with the work.
  abbrev pub ChecksW : Groups → Result Groups × Work → Type 0
  ChecksW g q = Checks g q.0

  if-Checks :
      (g : Groups) (b : Bool) (x y : Result Groups × Work)
      → ChecksW g x
      → ChecksW g y
      → ChecksW g (if b then x else y)
  if-Checks g true x y h k = h
  if-Checks g false x y h k = k

  escape-Checks :
      (g : Groups) (p : Option Failure × Work) (k : Work → Result Groups × Work)
      → ((w : Work) → ChecksW g (k w))
      → ChecksW g (escape p k)
  escape-Checks g (none, w) k h = h w
  escape-Checks g (some f, w) k h = tt

  pure-Checks : (g : Groups) (r : Result Groups) (w : Work) → Checks g r → ChecksW g (r, w)
  pure-Checks g r w h = h

  ruleset check_rules = (
    if-Checks, escape-Checks, invalid-Checks, chain-Checks, same-Checks, check_groups-Checks,
    pure-Checks,
  )

  check_role-Checks :
      (arn : String) (a : Arn) (g : Groups) (w : Work)
      → ChecksW g (check_role e n requester arn a g w)
  unfolding check_role
  check_role-Checks arn a g w = search check_rules depth 12

  check_against-Checks :
      (arn : String) (a : Arn) (g : Groups) (p : Option Failure × Work)
      → ChecksW g (check_against e n requester arn a g p)
  unfolding check_against
  check_against-Checks arn a g (none, w) = chain-Checks g g _ (same-Checks g)
  check_against-Checks arn a g (some f, w) = search check_rules depth 12

  check_managed_policy-Checks :
      (arn : String) (a : Arn) (g : Groups) (w : Work)
      → ChecksW g (check_managed_policy e n requester arn a g w)
  unfolding check_managed_policy
  check_managed_policy-Checks arn a g w = search (check_rules, check_against-Checks) depth 12

  pub check_drafts-Checks :
      (arn : String) (g : Groups) (w : Work) → ChecksW g (check_drafts e n requester arn g w)
  unfolding check_drafts
  check_drafts-Checks arn g w =
      search (check_rules, check_managed_policy-Checks, check_role-Checks) depth 12
