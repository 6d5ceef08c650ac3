-- ===== src/Dynamo/RoundTrip.antt =====
-- Reading back what was written.
use mathlib.Core.Path.{ap₂}
use consoleme.Base.{
  suc, ◌*◌, String, ◌≡◌, refl, sym, ap, arith, inl, inr, Bool, true, false, not, ◌&&◌, str_eq,
  eq_iff, Bool-cases,
}
use consoleme.Dynamo.{
  ℤ, pos, negsuc, Value, null, boolean, text, int, float, datetime, decimal, bytes, binary, array,
  dict, Values, nil, cons, Entries, end, entry, empty_string, is_replication_key, decimal_of,
  int_of, data_to_dynamo_replace, values_to_dynamo, entries_to_dynamo, data_from_dynamo_replace,
  values_from_dynamo, entries_from_dynamo,
}

-- No number but an int, no `Binary`, no placeholder, and no key of the replication. What is no such value is
-- read back as another one.
unfoldable mutual
  pub is_plain : Value → Bool
  is_plain (text s) = not (str_eq s empty_string)
  is_plain (float d) = false
  is_plain (datetime d) = false
  is_plain (decimal d) = false
  is_plain (binary b) = false
  is_plain (array vs) = are_plain vs
  is_plain (dict es) = has_plain es
  is_plain v = true

  pub are_plain : Values → Bool
  are_plain nil = true
  are_plain (cons v vs) = is_plain v && are_plain vs

  pub has_plain : Entries → Bool
  has_plain end = true
  has_plain (entry k v es) = not (is_replication_key k) && (is_plain v && has_plain es)

int_of-decimal_of : (n : ℤ) → int_of (decimal_of n) ≡ n
unfolding int_of decimal_of
int_of-decimal_of (pos n) = ap pos (omega arith)
int_of-decimal_of (negsuc n) = let same : suc n * 1 ≡ suc n = omega arith in rw same refl

both : (a b : Bool) → (a && b) ≡ true → (a ≡ true) × (b ≡ true)
both a b h = (ground (arith, h), ground (arith, h))

text_back :
    (s : String)
    → str_eq s empty_string ≡ false
    → data_from_dynamo_replace (data_to_dynamo_replace (text s)) ≡ text s
unfolding data_to_dynamo_replace data_from_dynamo_replace
text_back s h = elim (Bool-cases (str_eq s "")) [
  | inl is_empty ↦ rw is_empty (ap text (sym ((eq_iff s "").0 is_empty)))
  | inr is_text ↦ rw (is_text, h) refl
]

mutual
  unfolding is_plain are_plain has_plain data_to_dynamo_replace values_to_dynamo entries_to_dynamo
      data_from_dynamo_replace values_from_dynamo entries_from_dynamo

  back : (v : Value) → is_plain v ≡ true → data_from_dynamo_replace (data_to_dynamo_replace v) ≡ v
  back (text s) h = text_back s (ground (arith, h))
  back (int n) h = ap int (int_of-decimal_of n)
  back (array vs) h = ap array (all_back vs h)
  back (dict es) h = ap dict (back_in es h)
  back null h = refl
  back (boolean b) h = refl
  back (bytes b) h = refl
  back (float d) h = cc
  back (datetime d) h = cc
  back (decimal d) h = cc
  back (binary b) h = cc

  all_back : (vs : Values) → are_plain vs ≡ true → values_from_dynamo (values_to_dynamo vs) ≡ vs
  all_back nil h = refl
  all_back (cons v vs) h =
      let parts = both (is_plain v) (are_plain vs) h in
      ap₂ cons (back v parts.0) (all_back vs parts.1)

  back_in : (es : Entries) → has_plain es ≡ true → entries_from_dynamo (entries_to_dynamo es) ≡ es
  back_in end h = refl
  back_in (entry k v es) h =
      let own = both (not (is_replication_key k)) (is_plain v && has_plain es) h in
      let parts = both (is_plain v) (has_plain es) own.1 in
      let other : is_replication_key k ≡ false = ground (arith, own.0) in
      rw (other, other) (ap₂ (entry k) (back v parts.0) (back_in es parts.1))

-- A value that has no number but ints, no Binary, no text that is the placeholder, and no key of the
-- replication, however deep, is read back from the database as it was written.
pub data_from_dynamo_replace-data_to_dynamo_replace :
    (v : Value) → is_plain v ≡ true → data_from_dynamo_replace (data_to_dynamo_replace v) ≡ v
data_from_dynamo_replace-data_to_dynamo_replace v h = back v h
