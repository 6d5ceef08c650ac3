-- ===== src/Organization/Chains.antt =====
-- Where an account or a unit lies in its organization, and that the search of lib/aws.py finds it.
use consoleme.Base.{
  String, ◌≡◌, Bool, true, false, List, [], ◌∷◌, str_eq, eq_iff, inl, inr, Bool-cases,
  if◌then◌else◌,
}
use consoleme.Organization.{
  Ou, node, Children, nil, cons, id_of, type_of, is_member_of_ou, search_children,
}

-- The units on a way down from this one to the account or unit `x`, the topmost first. The way goes on
-- only through what is an organizational unit.
mutual
  pub data Chain : String → Ou → List String → Type 0 where
    down :
        {x id type : String} {cs : Children} {p : List String}
        → Below x cs p
        → Chain x (node id type cs) (id ∷ p)

  pub data Below : String → Children → List String → Type 0 where
    child : {x : String} {c : Ou} {cs : Children} → id_of c ≡ x → Below x (cons c cs) []
    within :
        {x : String} {c : Ou} {cs : Children} {p : List String}
        → type_of c ≡ "ORGANIZATIONAL_UNIT"
        → Chain x c p
        → Below x (cons c cs) p
    later :
        {x : String} {c : Ou} {cs : Children} {p : List String}
        → Below x cs p
        → Below x (cons c cs) p

pub data Lies (x : String) (o : Ou) : Type 0 where
  lies : {p : List String} → Chain x o p → Lies x o

-- What a search of the unit may answer: the units of a way down to `x`, or, if there is none, no units.
pub data Placed (x : String) (o : Ou) : Bool × List String → Type 0 where
  found : {p : List String} → Chain x o p → Placed x o (true, p)
  absent : ¬ Lies x o → Placed x o (false, [])

module _ {x id type : String} {c : Ou} {cs : Children} where
  later_Lies : Lies x (node id type cs) → Lies x (node id type (cons c cs))
  later_Lies (lies (down b)) = lies (down (later b))

  skipped :
      (r : Bool × List String)
      → ¬ (id_of c ≡ x)
      → ¬ (type_of c ≡ "ORGANIZATIONAL_UNIT" × Lies x c)
      → Placed x (node id type cs) r
      → Placed x (node id type (cons c cs)) r
  skipped (true, _) h k (found (down b)) = found (down (later b))
  skipped (false, _) h k (absent not_below) = absent (go h k not_below)
    where
      go :
          ¬ (id_of c ≡ x)
          → ¬ (type_of c ≡ "ORGANIZATIONAL_UNIT" × Lies x c)
          → ¬ Lies x (node id type cs)
          → ¬ Lies x (node id type (cons c cs))
      go h k not_below (lies (down (child e))) = h e
      go h k not_below (lies (down (within t d))) = k (t, lies d)
      go h k not_below (lies (down (later b))) = not_below (lies (down b))

  entered :
      (r : Bool × List String)
      → ¬ (id_of c ≡ x)
      → type_of c ≡ "ORGANIZATIONAL_UNIT"
      → Placed x c r
      → Placed x (node id type cs) (search_children x id [] cs)
      → Placed x
          (node id type (cons c cs))
          (if r.0 then (true, id ∷ r.1) else search_children x id r.1 cs)
  entered (true, _) h t (found d) rest = found (down (within t d))
  entered (false, _) h t (absent not_below) rest = skipped _ h (λ k. not_below k.1) rest

not_equal : {s t : String} → str_eq s t ≡ false → ¬ (s ≡ t)
not_equal {s} {t} h e = cc (h, (eq_iff s t).1 e)

mutual
  unfolding is_member_of_ou search_children

  place_of : (x : String) (o : Ou) → Placed x o (is_member_of_ou x o)
  place_of x (node id type cs) = place_among x id type cs

  place_among :
      (x id type : String) (cs : Children) → Placed x (node id type cs) (search_children x id [] cs)
  place_among x id type nil = absent (λ l. elim l [ lies (down b) ↦ elim b [ ] ])
  place_among x id type (cons c cs) = elim (Bool-cases (str_eq (id_of c) x)) [
    | inl e ↦ rw e (found (down (child ((eq_iff _ _).0 e))))
    | inr e ↦ elim (Bool-cases (str_eq (type_of c) "ORGANIZATIONAL_UNIT")) [
      | inl t ↦
          rw (e, t)
            (entered (is_member_of_ou x c) (not_equal e) ((eq_iff _ _).0 t) (place_of x c)
              (place_among x id type cs))
      | inr t ↦
          rw (e, t) (skipped _ (not_equal e) (λ k. not_equal t k.0) (place_among x id type cs))
    ]
  ]

-- The search finds an account or unit exactly if there is a way down to it, and then it answers with the units
-- on one such way. If there is none, it answers with no units.
pub is_member_of_ou-Placed : (x : String) (o : Ou) → Placed x o (is_member_of_ou x o)
is_member_of_ou-Placed x o = place_of x o
