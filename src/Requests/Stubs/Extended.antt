-- ===== src/Requests/Stubs/Extended.antt =====
-- What `generate_resource_policies` makes of a request.
use mathlib.Core.List.{append-nil}
use consoleme.Base.{
  All-map, String, ◌≡◌, refl, sym, inl, inr, Bool, true, false, ◌||◌, List, [], ◌∷◌, ◌++◌, length,
  ltb, arith, All, Some, if◌then◌else◌,
}
use consoleme.Aws.{get_resource_account}
use consoleme.Models.{Principal, aws_resource, Change, Request}
use consoleme.Requests.World.{Env, Result, ok, chain}
use consoleme.Requests.Stubs.{
  Sources, stubs_of_all, with_stubs, generate_for_arn, generate_for_principal,
  generate_resource_policies,
}
use consoleme.Requests.Stubs.Foreign.{is_inline, Returns, Returns-chain, Stubs, stubs_of_all-Fine}

names_itself :
    (cs : List Change)
    → All
        (λ (c : Change).
          is_inline c.detail ≡ true
          → Some (λ (i : Change). (i.id ≡ c.id) × (is_inline i.detail ≡ true)) cs)
        cs
names_itself [] = tt
names_itself (c ∷ cs) = (λ h. inl (refl, h), All-map _ _ (λ x f h. inr (f h)) cs (names_itself cs))

-- The request as it was, with the added changes behind its own.
pub data Extended (e : Env) (s : Sources) (r : Request) (arn : String) : Request → Type 0 where
  extended :
      (q : Request) (stubs : List Change)
      → q.changes ≡ r.changes ++ stubs
      → q.request_status ≡ r.request_status
      → q.principal ≡ r.principal
      → q.id ≡ r.id
      → q.cross_account ≡ (r.cross_account || ltb 0 (length stubs))
      → Stubs e s r.principal (get_resource_account e.lookups arn) r.changes 0 stubs
      → Extended e s r arn q

module _ (e : Env) (s : Sources) where
  Extended-self : (arn : String) (r : Request) → Extended e s r arn r
  Extended-self arn r = extended r [] (sym (append-nil r.changes)) refl refl refl (ground arith) tt

  if-Extended :
      (arn : String) (r : Request) (b : Bool) (x y : Result Request)
      → Returns (Extended e s r arn) x
      → Returns (Extended e s r arn) y
      → Returns (Extended e s r arn) (if b then x else y)
  if-Extended arn r true x y h k = h
  if-Extended arn r false x y h k = k

  left_alone : (arn : String) (r : Request) → Returns (Extended e s r arn) (ok r)
  left_alone arn r = Extended-self arn r

  with_all :
      (arn : String) (r : Request)
      → Returns (Extended e s r arn) (
          chain
            (stubs_of_all e s r.principal (get_resource_account e.lookups arn) r.changes [])
            (λ cs. ok (with_stubs e s r cs)))
  with_all arn r =
      Returns-chain (Stubs e s r.principal (get_resource_account e.lookups arn) r.changes 0)
        (Extended e s r arn) _ _
        (stubs_of_all-Fine e s r.principal (get_resource_account e.lookups arn) r.changes r.changes
          [] (names_itself r.changes) tt)
        (λ stubs h. extended _ stubs refl refl refl refl refl h)

  for_principal :
      (arn : String) (r : Request) (p : Principal)
      → p ≡ aws_resource arn
      → Returns (Extended e s r arn) (generate_for_principal e s p r)
  unfolding generate_for_principal generate_for_arn
  for_principal arn r p h = rw h (search (if-Extended, left_alone, with_all))

  -- The generation of resource policies leaves the request as it is, but for changes that it adds behind
  -- the request's own: not applied, marked as generated, with fresh ids, each for a resource in another
  -- account, and each with the id of an inline policy of the request as its source. The request is marked
  -- as one that crosses accounts if there is one.
  pub generate_resource_policies-Extended :
      (arn : String) (r : Request)
      → r.principal ≡ aws_resource arn
      → Returns (Extended e s r arn) (generate_resource_policies e s r)
  unfolding generate_resource_policies
  generate_resource_policies-Extended arn r h = for_principal arn r r.principal h
