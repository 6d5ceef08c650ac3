-- ===== src/Requests/Old/Kept.antt =====
-- `populate_old_policies` and `populate_old_managed_policies` write the details of the changes, and nothing
-- else of them.
use consoleme.Base.{String, ◌≡◌, refl, Option, none, some, List, [], ◌∷◌, if-holds}
use consoleme.Json.{Json}
use consoleme.Models.{
  Principal, aws_resource, honeybee, Detail, inline_policy, assume_role_policy,
  managed_policy_resource, Change, AwsPrincipal, InlineChange, is_applied,
}
use consoleme.Requests.World.{Kind, Failure, Env, Work, Result, ok, raised}
use consoleme.Requests.Pairs.{Pairs, Pairs-refl}
use consoleme.Requests.Old.{
  step_each, each, keep_inline, populate_detail, populate_one, populate_found, populate_from,
  populate_arn, populate_old_policies, keep_managed, populate_managed_one, populate_managed_each,
  populate_managed_from, populate_old_managed_policies,
}

-- All but the detail is as before.
pub record Kept (c d : Change) : Type 0 where
  pub id : d.id ≡ c.id
  pub status : d.status ≡ c.status
  pub principal : d.principal ≡ c.principal
  pub autogenerated : d.autogenerated ≡ c.autogenerated

pub Kept-refl : (c : Change) → Kept c c
Kept-refl c = record { id = refl; status = refl; principal = refl; autogenerated = refl }

pub Kept-detail : (c : Change) (d : Detail) → Kept c (record c { detail = d })
Kept-detail c d = record { id = refl; status = refl; principal = refl; autogenerated = refl }

pub all_Kept : (cs : List Change) → Pairs Kept cs cs
all_Kept cs = Pairs-refl Kept Kept-refl cs

abbrev KeepsOne : Change → Result Change → Type 0
KeepsOne c (ok d) = Kept c d
KeepsOne c (raised err) = Unit

step_each-Kept :
    (c : Change) (cs : List Change) (r : Result Change) (p : Result (Unit {0}) × List Change)
    → KeepsOne c r
    → Pairs Kept cs p.1
    → Pairs Kept (c ∷ cs) (step_each c cs r p).1
unfolding step_each
step_each-Kept c cs (ok d) (r, ds) h hs = (h, hs)
step_each-Kept c cs (raised err) p h hs = all_Kept (c ∷ cs)

each-Kept :
    (f : Change → Result Change)
    → ((c : Change) → KeepsOne c (f c))
    → (cs : List Change) → Pairs Kept cs (each f cs).1
unfolding each
each-Kept f h [] = tt
each-Kept f h (c ∷ cs) = step_each-Kept c cs (f c) (each f cs) (h c) (each-Kept f h cs)

module _ (e : Env) where
  keep_inline-Kept :
      (c : Change) (ch : InlineChange) (doc : Option Json) → Kept c (keep_inline e c ch doc)
  unfolding keep_inline
  keep_inline-Kept c ch none = Kept-refl c
  keep_inline-Kept c ch (some doc) = Kept-detail c _

  populate_detail-Kept :
      (p : Option AwsPrincipal) (c : Change) (d : Detail) → KeepsOne c (populate_detail e p c d)
  unfolding populate_detail
  populate_detail-Kept none c (assume_role_policy ch) = tt
  populate_detail-Kept (some p) c (assume_role_policy ch) = Kept-detail c _
  populate_detail-Kept none c (inline_policy ch) = if-holds (KeepsOne c) ch.new _ _ (Kept-refl c) tt
  populate_detail-Kept (some p) c (inline_policy ch) =
      if-holds (KeepsOne c) ch.new _ _ (Kept-refl c) (keep_inline-Kept c ch _)
  populate_detail-Kept none c _ = Kept-refl c
  populate_detail-Kept (some p) c _ = Kept-refl c

  populate_one-Kept : (p : Option AwsPrincipal) (c : Change) → KeepsOne c (populate_one e p c)
  unfolding populate_one
  populate_one-Kept p c =
      if-holds (KeepsOne c) (is_applied c.status) (ok c) _ (Kept-refl c)
        (populate_detail-Kept p c c.detail)

  populate_found-Kept :
      (k : Kind) (account name : String) (cs : List Change) (p : Option Failure × Work)
      → Pairs Kept cs (populate_found e k account name cs p).1
  unfolding populate_found
  populate_found-Kept k account name cs (some f, w) = all_Kept cs
  populate_found-Kept k account name cs (none, w) = each-Kept _ (populate_one-Kept _) cs

  populate_from-Kept :
      (k : Kind) (account name : String) (cs : List Change) (w : Work)
      → Pairs Kept cs (populate_from e k account name cs w).1
  unfolding populate_from
  populate_from-Kept k account name cs w = populate_found-Kept k account name cs _

  pub populate_old_policies-Kept :
      (p : Principal) (cs : List Change) (w : Work)
      → Pairs Kept cs (populate_old_policies e p cs w).1
  unfolding populate_old_policies populate_arn
  populate_old_policies-Kept (aws_resource arn) cs w =
      if-holds (λ (x : Result (Unit {0}) × List Change × Work). Pairs Kept cs x.1) _ _ _
        (populate_from-Kept _ _ _ cs w) (all_Kept cs)
  populate_old_policies-Kept (honeybee _ _ _) cs w = each-Kept _ (populate_one-Kept none) cs

  keep_managed-Kept : (doc : Json) (c : Change) (d : Detail) → Kept c (keep_managed e doc c d)
  unfolding keep_managed
  keep_managed-Kept doc c (managed_policy_resource m) =
      if-holds (Kept c) _ _ _ (Kept-refl c) (Kept-detail c _)
  keep_managed-Kept doc c _ = Kept-refl c

  populate_managed_each-Kept :
      (doc : Json) (cs : List Change) → Pairs Kept cs (populate_managed_each e doc cs)
  unfolding populate_managed_each populate_managed_one
  populate_managed_each-Kept doc [] = tt
  populate_managed_each-Kept doc (c ∷ cs) = (
    if-holds (Kept c) _ _ _ (Kept-refl c)
        (if-holds (Kept c) _ _ _ (keep_managed-Kept doc c c.detail) (Kept-refl c)),
    populate_managed_each-Kept doc cs,
  )

  populate_managed_from-Kept :
      (arn : String) (cs : List Change) (p : Option Failure × Work)
      → Pairs Kept cs (populate_managed_from e arn cs p).1
  unfolding populate_managed_from
  populate_managed_from-Kept arn cs (some f, w) =
      if-holds (λ (x : Result (Unit {0}) × List Change × Work). Pairs Kept cs x.1) _ _ _
        (all_Kept cs) (all_Kept cs)
  populate_managed_from-Kept arn cs (none, w) = populate_managed_each-Kept _ cs

  pub populate_old_managed_policies-Kept :
      (p : Principal) (cs : List Change) (w : Work)
      → Pairs Kept cs (populate_old_managed_policies e p cs w).1
  unfolding populate_old_managed_policies
  populate_old_managed_policies-Kept (aws_resource arn) cs w =
      if-holds (λ (x : Result (Unit {0}) × List Change × Work). Pairs Kept cs x.1) _ _ _
        (populate_managed_from-Kept arn cs _) (all_Kept cs)
  populate_old_managed_policies-Kept (honeybee _ _ _) cs w = all_Kept cs
