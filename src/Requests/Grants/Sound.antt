-- ===== src/Requests/Grants/Sound.antt =====
-- What is gathered for the new statement of a policy is sound: IsFor and IsGiven hold of its actions.
use consoleme.Base.{
  String, ◌≡◌, refl, ap, sym, inl, inr, Bool, true, false, Option, none, some, List, [], ◌∷◌, ◌++◌,
  All, Bool-cases, All-map, ◌&&◌, arith, eq_iff, or_true_iff, contains, fstring, starts_with,
  str_eq, if◌then◌else◌,
}
use consoleme.Json.{Json, Items, Fields, nil, cons, get}
use consoleme.Models.{PolicyModel, Detail, inline_policy, Change}
use consoleme.Requests.World.{Result, ok, raised, chain}
use consoleme.Statements.{statements, is_in, listed_under}
use consoleme.Requests.Stubs.Foreign.{Returns, Returns-chain, Returns-map}
use consoleme.Requests.Grants.{
  is_wanted, wanted, Grant, joined, grant_of, if_named, grants, grants_of_policy, grants_of,
  grants_of_all, resource_arns_of, resources_with, characters_with,
}
use consoleme.Requests.Grants.Given.{IsFor, IsItem, InStatements, InPolicy, InDetail, IsGiven}

is_wanted-IsFor :
    (perms : List String) (service : String) (is_trust : Bool) (action : String)
    → is_wanted perms service is_trust action ≡ true
    → IsFor perms service is_trust action
unfolding is_wanted
is_wanted-IsFor perms service is_trust action h = (
  elim ((or_true_iff (starts_with action (fstring (service ∷ ":" ∷ [])))
        (str_eq service "iam" && starts_with action "sts")).0
      (ground (arith, h))) [
        | inl x ↦ inl x
        | inr x ↦ inr ((eq_iff service "iam").0 (ground (arith, x)), ground (arith, x))
      ],
  elim (Bool-cases is_trust) [ inl t ↦ inr (ground (arith, rw t at h)) | inr f ↦ inl f ],
)

All-append : (P : String → Type 0) (xs ys : List String) → All P xs → All P ys → All P (xs ++ ys)
All-append P [] ys h k = k
All-append P (x ∷ xs) ys h k = (h.0, All-append P xs ys h.1 k)

Returns-joined :
    {A : Type 0} (P Q R : A → Type 0) (join : A → A → A) (q r : Result A)
    → ((a b : A) → P a → Q b → R (join a b))
    → Returns P q
    → Returns Q r
    → Returns R (chain q (λ a. chain r (λ b. ok (join a b))))
Returns-joined P Q R join (ok a) (ok b) f h k = f a b h k
Returns-joined P Q R join (ok a) (raised err) f h k = tt
Returns-joined P Q R join (raised err) r f h k = tt

module _ (perms : List String) (service : String) (is_trust : Bool) (arn : String) where
  -- The actions are for the service, and come from somewhere; the resources have the arn in them.
  abbrev pub Sound : (String → Type 0) → Grant perms service is_trust → Type 0
  Sound From g =
      All (λ (a : String). IsFor perms service is_trust a × From a) g.0
      × All (λ (r : String). contains arn r ≡ true) g.1

  Sound-map :
      (From To : String → Type 0) (g : Grant perms service is_trust)
      → ((a : String) → From a → To a)
      → Sound From g
      → Sound To g
  Sound-map From To g f h = (All-map _ _ (λ a k. (k.0, f a k.1)) g.0 h.0, h.1)

  joined-Sound :
      (From More To : String → Type 0) (q r : Result (Grant perms service is_trust))
      → ((a : String) → From a → To a)
      → ((a : String) → More a → To a)
      → Returns (Sound From) q
      → Returns (Sound More) r
      → Returns
          (Sound To)
          (chain q (λ g. chain r (λ rest. ok (joined perms service is_trust g rest))))
  joined-Sound From More To q r f k =
      Returns-joined (Sound From) (Sound More) (Sound To) (joined perms service is_trust) q r
        (λ g rest h l.
          let h' = Sound-map From To g f h in
          let l' = Sound-map More To rest k l in
          (All-append _ g.0 rest.0 h'.0 l'.0, All-append _ g.1 rest.1 h'.1 l'.1))

  if-wanted :
      (a : String) (rest : List String) (xs : Items)
      → All (λ (b : String). IsFor perms service is_trust b × IsItem b xs) rest
      → All
          (λ (b : String). IsFor perms service is_trust b × IsItem b (cons (Json.text a) xs))
          (if is_wanted perms service is_trust a then a ∷ rest else rest)
  if-wanted a rest xs h =
      let later = All-map _ _ (λ b k. (k.0, inr k.1)) rest h in
      elim (Bool-cases (is_wanted perms service is_trust a)) [
        | inl asked ↦ rw asked ((is_wanted-IsFor perms service is_trust a asked, inl refl), later)
        | inr other ↦ rw other later
      ]

  wanted-Sound :
      (xs : Items)
      → Returns
          (All (λ (b : String). IsFor perms service is_trust b × IsItem b xs))
          (wanted perms service is_trust xs)
  unfolding wanted
  wanted-Sound nil = tt
  wanted-Sound (cons (Json.text a) xs) =
      Returns-chain _ _ (wanted perms service is_trust xs) _ (wanted-Sound xs)
        (λ rest h. if-wanted a rest xs h)
  wanted-Sound (cons Json.null xs) = tt
  wanted-Sound (cons (Json.boolean b) xs) = tt
  wanted-Sound (cons (Json.number n) xs) = tt
  wanted-Sound (cons (Json.array ys) xs) = tt
  wanted-Sound (cons (Json.object gs) xs) = tt

  abbrev pub Named : List String → Type 0
  Named = All (λ (r : String). contains arn r ≡ true)

  if-Named :
      (t : String) (rest : List String)
      → Named rest
      → Named (if contains arn t then t ∷ rest else rest)
  if-Named t rest h = elim (Bool-cases (contains arn t)) [
    | inl has ↦ rw has (has, h)
    | inr other ↦ rw other h
  ]

  resources_with-Named : (xs : Items) → Returns Named (resources_with arn xs)
  unfolding resources_with
  resources_with-Named nil = tt
  resources_with-Named (cons (Json.text t) xs) =
      Returns-chain Named Named (resources_with arn xs) _ (resources_with-Named xs) (if-Named t)
  resources_with-Named (cons Json.null xs) = tt
  resources_with-Named (cons (Json.boolean b) xs) = tt
  resources_with-Named (cons (Json.number n) xs) = tt
  resources_with-Named (cons (Json.array ys) xs) = tt
  resources_with-Named (cons (Json.object gs) xs) = tt

  characters_with-Named : (s : String) → Named (characters_with arn s)
  unfolding characters_with
  characters_with-Named String.[] = tt
  characters_with-Named (String.◌∷◌ c s) =
      if-Named (String.◌∷◌ c String.[]) (characters_with arn s) (characters_with-Named s)

  resource_arns_of-Named : (o : Option Json) → Returns Named (resource_arns_of arn o)
  unfolding resource_arns_of
  resource_arns_of-Named (some (Json.array xs)) = resources_with-Named xs
  resource_arns_of-Named (some (Json.text t)) = characters_with-Named t
  resource_arns_of-Named none = tt
  resource_arns_of-Named (some Json.null) = tt
  resource_arns_of-Named (some (Json.boolean b)) = tt
  resource_arns_of-Named (some (Json.number n)) = tt
  resource_arns_of-Named (some (Json.object fs)) = tt

  grant_of-Sound :
      (fs : Fields)
      → Returns
          (Sound (λ a. IsItem a (listed_under "Action" fs)))
          (grant_of perms service is_trust arn fs)
  unfolding grant_of
  grant_of-Sound fs =
      let items : Items = listed_under "Action" fs in
      Returns-chain (All (λ (b : String). IsFor perms service is_trust b × IsItem b items))
        (Sound (λ a. IsItem a items)) (wanted perms service is_trust items) _ (wanted-Sound items)
        (λ actions h.
          Returns-chain Named (Sound (λ a. IsItem a items))
            (resource_arns_of arn (get "Resource" fs)) _
            (resource_arns_of-Named (get "Resource" fs)) (λ arns k. (h, k)))

  if_named-Sound :
      (b : Result Bool) (fs : Fields) (g : Result (Grant perms service is_trust))
      → Returns (Sound (λ a. IsItem a (listed_under "Action" fs))) g
      → Returns
          (Sound (λ a. (b ≡ ok true) × IsItem a (listed_under "Action" fs)))
          (if_named perms service is_trust b g)
  if_named-Sound (ok true) fs g h =
      Returns-map _ _ g (λ x k. Sound-map _ _ x (λ a l. (refl, l)) k) h
  if_named-Sound (ok false) fs g h = (tt, tt)
  if_named-Sound (raised err) fs g h = tt

  grants-Sound :
      (xs : Items)
      → Returns (Sound (λ a. InStatements arn a xs)) (grants perms service is_trust arn xs)
  unfolding grants
  grants-Sound nil = (tt, tt)
  grants-Sound (cons (Json.object fs) xs) =
      joined-Sound _ _ _
        (if_named perms service is_trust (is_in arn (get "Resource" fs))
          (grant_of perms service is_trust arn fs))
        (grants perms service is_trust arn xs) (λ a k. inl k) (λ a k. inr k)
        (if_named-Sound _ fs _ (grant_of-Sound fs)) (grants-Sound xs)
  grants-Sound (cons Json.null xs) = tt
  grants-Sound (cons (Json.boolean b) xs) = tt
  grants-Sound (cons (Json.number n) xs) = tt
  grants-Sound (cons (Json.array ys) xs) = tt
  grants-Sound (cons (Json.text t) xs) = tt

  from_statements :
      (m : PolicyModel) (r : Result Items)
      → statements m.policy_document ≡ r
      → Returns (Sound (λ a. InPolicy arn a (some m))) (chain r (grants perms service is_trust arn))
  from_statements m (ok xs) h =
      Returns-map _ _ (grants perms service is_trust arn xs)
        (λ g k. Sound-map _ _ g (λ a l. (xs, h, l)) k) (grants-Sound xs)
  from_statements m (raised err) h = tt

  grants_of_policy-Sound :
      (m : Option PolicyModel)
      → Returns (Sound (λ a. InPolicy arn a m)) (grants_of_policy perms service is_trust arn m)
  unfolding grants_of_policy
  grants_of_policy-Sound none = tt
  grants_of_policy-Sound (some m) = from_statements m (statements m.policy_document) refl

  abbrev Of : Option String → Change → Detail → String → Type 0
  Of source c d a = (source ≡ some c.id) × InDetail arn a d

  grants_of-Sound :
      (source : Option String) (c : Change) (d : Detail)
      → Returns (Sound (Of source c d)) (grants_of perms service is_trust arn source c d)
  unfolding grants_of
  grants_of-Sound (some source) c (inline_policy ch) = elim (Bool-cases (str_eq c.id source)) [
    | inl same ↦ rw same (
        Returns-map _ _ (grants_of_policy perms service is_trust arn ch.policy)
          (λ g k. Sound-map _ _ g (λ a l. (ap some (sym ((eq_iff c.id source).0 same)), l)) k)
          (grants_of_policy-Sound ch.policy))
    | inr other ↦ rw other (tt, tt)
  ]
  grants_of-Sound (some source) c _ = (tt, tt)
  grants_of-Sound none c d = (tt, tt)

  -- Every action is for the service, and a statement of the source that names the resource has it; every
  -- resource has the arn in it.
  pub grants_of_all-Sound :
      (source : Option String) (cs : List Change)
      → Returns
          (Sound (λ a. IsGiven arn a source cs))
          (grants_of_all perms service is_trust arn source cs)
  unfolding grants_of_all
  grants_of_all-Sound source [] = (tt, tt)
  grants_of_all-Sound source (c ∷ cs) =
      joined-Sound _ _ _ _ _ (λ a k. inl k) (λ a k. inr k) (grants_of-Sound source c c.detail)
        (grants_of_all-Sound source cs)
