-- ===== src/Requests/Create/Made.antt =====
-- What a request is when it has just been made.
use mathlib.Core.Path.{subst}
use consoleme.Base.{
  All-map, ℕ, String, ◌≡◌, ◌≢◌, refl, sym, ◌∙◌, Bool, true, false, List, [], ◌∷◌, ◌++◌, map, All,
  fstring, decimal, if◌then◌else◌,
}
use consoleme.Aws.{get_resource_account}
use consoleme.Models.{Principal, aws_resource, RequestStatus, Change, Request}
use consoleme.Requests.World.{Env, Work, Result, ok, raised}
use consoleme.Requests.Pairs.{Pairs}
use consoleme.Requests.Old.{populate_old_policies, populate_old_managed_policies}
use consoleme.Requests.Old.Kept.{
  Kept, populate_old_policies-Kept, populate_old_managed_policies-Kept,
}
use consoleme.Requests.Drafts.{Draft, Groups, no_groups, ungroup}
use consoleme.Requests.Drafts.Numbered.{Ends, Good, group_drafts-Ends, no_groups-Good}
use consoleme.Requests.Stubs.{Sources, generate_resource_policies}
use consoleme.Requests.Stubs.Foreign.{Returns, Returns-map, Stubs}
use consoleme.Requests.Stubs.Extended.{Extended, extended, generate_resource_policies-Extended}
use consoleme.Requests.Checks.{Naming}
use consoleme.Requests.Create.{
  Creation, created_of, with_changes, then_step, fill_old, add_policies, fill_managed,
  complete_request, create_checked, create_grouped, create_for, create_for_first,
  generate_request_from_change_model_array,
}
use consoleme.Requests.Create.Sound.{
  AllDiffer, IsOpen, IsOwn, change_of, All-Kept, All-both, AllDiffer-Kept, IsOpen-Kept, IsOwn-Kept,
  Good→Own, AllDiffer-append, Stubs-IsOpen, Stubs-AllDiffer, IsOwn-Stubs,
}
use consoleme.Requests.Create.Fresh.{Checks, check_drafts-Checks}

-- Pending, with changes that are not applied, all of the request's principal, and with different ids.
pub record IsNew (uuid : String) (p : Principal) (r : Request) : Type 0 where
  pub id : r.id ≡ uuid
  pub is_pending : r.request_status ≡ RequestStatus.pending
  pub principal : r.principal ≡ p
  pub are_open : All (IsOpen p) r.changes
  pub differ : AllDiffer r.changes

module _ (e : Env) (s : Sources) (fresh_inj : (i j : ℕ) → s.fresh i ≡ s.fresh j → i ≡ j)
    (fresh_new : (i n : ℕ) → s.fresh i ≢ fstring (e.new_id ∷ decimal n ∷ [])) (arn : String) where
  abbrev p : Principal
  p = aws_resource arn

  abbrev New : Request → Type 0
  New r = IsNew e.new_id p r

  abbrev ReturnsNew : Result Request × Work → Type 0
  ReturnsNew q = Returns New q.0

  -- Before the generation, the changes are those that were asked for.
  pub record IsMade (r : Request) : Type 0 where
    pub is_new : New r
    pub own : All (IsOwn e.new_id p) r.changes

  New-changes :
      (r : Request) (q : Result (Unit {0}) × List Change × Work)
      → New r
      → Pairs Kept r.changes q.1
      → ReturnsNew (with_changes r q)
  New-changes r (ok _, cs, w) h k = record {
    id = h.id;
    is_pending = h.is_pending;
    principal = h.principal;
    are_open = All-Kept (IsOpen p) (IsOpen-Kept p) r.changes cs k h.are_open;
    differ = AllDiffer-Kept r.changes cs k h.differ;
  }
  New-changes r (raised err, cs, w) h k = tt

  IsMade-changes :
      (r : Request) (q : Result (Unit {0}) × List Change × Work)
      → IsMade r
      → Pairs Kept r.changes q.1
      → Returns IsMade (with_changes r q).0
  IsMade-changes r (ok x, cs, w) h k = record {
    is_new = New-changes r (ok x, cs, w) h.is_new k;
    own = All-Kept (IsOwn e.new_id p) (IsOwn-Kept e.new_id p) r.changes cs k h.own;
  }
  IsMade-changes r (raised err, cs, w) h k = tt

  All-AllDiffer :
      (own stubs inlines : List Change) (p0 : Principal) (account : String)
      → p0 ≡ p
      → All (IsOwn e.new_id p) own
      → All (IsOpen p) own
      → AllDiffer own
      → Stubs e s p0 account inlines 0 stubs
      → All (IsOpen p) (own ++ stubs) × AllDiffer (own ++ stubs)
  All-AllDiffer own stubs inlines p0 account same mine are_open differ are =
      let are' : Stubs e s p account inlines 0 stubs = rw same at are in
      (
        All-both (IsOpen p) own stubs are_open (Stubs-IsOpen e s p account inlines 0 stubs are'),
        AllDiffer-append own stubs differ
            (Stubs-AllDiffer e s p account inlines fresh_inj 0 stubs are')
            (IsOwn-Stubs e s p account inlines e.new_id fresh_new own stubs mine are'),
      )

  Extended-New : (r q : Request) → IsMade r → Extended e s r arn q → New q
  Extended-New r q h (extended _ stubs cs status principal id crossing are) =
      let both =
        All-AllDiffer r.changes stubs r.changes r.principal (get_resource_account e.lookups arn)
          h.is_new.principal h.own h.is_new.are_open h.is_new.differ are in
      record {
        id = id ∙ h.is_new.id;
        is_pending = status ∙ h.is_new.is_pending;
        principal = principal ∙ h.is_new.principal;
        are_open = subst (All (IsOpen p)) (sym cs) both.0;
        differ = subst AllDiffer (sym cs) both.1;
      }

  then_new :
      (P : Request → Type 0) (q : Result Request × Work)
      (k : Request → Work → Result Request × Work)
      → Returns P q.0
      → ((r : Request) (w : Work) → P r → ReturnsNew (k r w))
      → ReturnsNew (then_step q k)
  then_new P (ok r, w) k h f = f r w h
  then_new P (raised err, w) k h f = tt

  generated_new :
      (r : Request) (w : Work) → IsMade r → ReturnsNew (generate_resource_policies e s r, w)
  generated_new r w h =
      Returns-map (Extended e s r arn) New (generate_resource_policies e s r)
        (λ q x. Extended-New r q h x)
        (generate_resource_policies-Extended e s arn r h.is_new.principal)

  if-New :
      (b : Bool) (x y : Result Request × Work)
      → ReturnsNew x
      → ReturnsNew y
      → ReturnsNew (if b then x else y)
  if-New true x y h k = h
  if-New false x y h k = k

  complete_request-New :
      (n : Naming) (b : Bool) (r : Request) (w : Work)
      → IsMade r
      → ReturnsNew (complete_request e n s b r w)
  unfolding complete_request
  complete_request-New n b r w h =
      then_new IsMade (fill_old e n s r w)
        (λ r1 w1. then_step (add_policies e n s r1 w1) (fill_managed e n s b))
        (IsMade-changes r (populate_old_policies e r.principal r.changes w) h
          (populate_old_policies-Kept e r.principal r.changes w))
        (λ r1 w1 h1.
          then_new New (add_policies e n s r1 w1) (fill_managed e n s b) (generated_new r1 w1 h1)
            (λ r2 w2 h2.
              if-New b
                (with_changes r2 (populate_old_managed_policies e r2.principal r2.changes w2))
                (ok r2, w2)
                (New-changes r2 (populate_old_managed_policies e r2.principal r2.changes w2) h2
                  (populate_old_managed_policies-Kept e r2.principal r2.changes w2))
                h2))

  module _ (n : Naming) (admin : Bool) (requester : String) where
    created_of-IsMade :
        (g g' : Groups) (k : ℕ)
        → Good e.new_id p k (ungroup g)
        → Pairs Kept (map change_of (ungroup g)) (map change_of (ungroup g'))
        → IsMade (created_of e n s admin p requester g')
    created_of-IsMade g g' k good kept =
        let own = Good→Own e.new_id p k (ungroup g) good in
        let own' = All-Kept (IsOwn e.new_id p) (IsOwn-Kept e.new_id p) _ _ kept own.0 in
        record {
          is_new = record {
            id = refl;
            is_pending = refl;
            principal = refl;
            are_open = All-map (IsOwn e.new_id p) (IsOpen p) (λ c o. o.is_open) _ own';
            differ = AllDiffer-Kept _ _ kept own.1;
          };
          own = own';
        }

    create_checked-New :
        (g : Groups) (k : ℕ) (q : Result Groups × Work)
        → Good e.new_id p k (ungroup g)
        → Checks e n requester g q.0
        → ReturnsNew (create_checked e n s admin p requester q)
    unfolding create_checked
    create_checked-New g k (raised err, w) good h = tt
    create_checked-New g k (ok g', w) good h =
        complete_request-New n _ _ w (created_of-IsMade g g' k good h)

  module _ (n : Naming) (hb : Creation → String → Work → Result Request × Work) (c : Creation)
      (requester : String) (w : Work) where
    create_grouped-New :
        (shortened : String) (r : Result Groups)
        → Ends e.new_id p r
        → ReturnsNew (create_grouped e n s hb c p shortened r w)
    unfolding create_grouped
    create_grouped-New shortened (ok g) (k, good) =
        create_checked-New n c.admin_auto_approve shortened g k _ good
          (check_drafts-Checks e n shortened arn g w)
    create_grouped-New shortened (raised err) h = tt

    create_for-New : (q : Principal) → q ≡ p → ReturnsNew (create_for e n s hb c requester q w)
    unfolding create_for
    create_for-New q h = rw h (
        create_grouped-New _ _ (
          group_drafts-Ends e.new_id p e.lookups e.config.supported_resource_types 0 c.drafts
            no_groups (no_groups-Good e.new_id p)))

    create_for_first-New :
        (d : Draft) (ds rest : List Draft)
        → ds ≡ d ∷ rest
        → d.change.principal ≡ p
        → ReturnsNew (create_for_first e n s hb c requester ds w)
    unfolding create_for_first
    create_for_first-New d ds rest h i = rw h (create_for-New d.change.principal i)

    -- If a request is made of changes to an AWS resource, it is pending and has the fresh id; its changes, the
    -- generated ones included, are not applied, are all of that resource's principal, and have different
    -- ids, provided that the ids that are drawn for generated changes differ from each other and from the
    -- request's own with a number behind it.
    pub generate_request_from_change_model_array-New :
        (d : Draft) (rest : List Draft)
        → c.drafts ≡ d ∷ rest
        → d.change.principal ≡ p
        → ReturnsNew (generate_request_from_change_model_array e n s hb c requester w)
    unfolding generate_request_from_change_model_array
    generate_request_from_change_model_array-New d rest h i =
        create_for_first-New d c.drafts rest h i
