-- ===== src/Dynamo/Storable.antt =====
-- What is written to the database.
use consoleme.Base.{String, ◌≡◌, refl, inl, inr, Bool, true, false, not, ◌&&◌, str_eq, Bool-cases}
use consoleme.Dynamo.{
  Value, null, boolean, text, int, float, datetime, decimal, bytes, binary, array, dict, Values,
  nil, cons, Entries, end, entry, is_replication_key, data_to_dynamo_replace, values_to_dynamo,
  entries_to_dynamo,
}

-- No empty text, no number but decimals, and no key of the replication: DynamoDB takes no others.
unfoldable mutual
  pub is_storable : Value → Bool
  is_storable (text s) = not (str_eq s "")
  is_storable (int n) = false
  is_storable (float d) = false
  is_storable (datetime d) = false
  is_storable (array vs) = are_storable vs
  is_storable (dict es) = has_storable es
  is_storable v = true

  pub are_storable : Values → Bool
  are_storable nil = true
  are_storable (cons v vs) = is_storable v && are_storable vs

  pub has_storable : Entries → Bool
  has_storable end = true
  has_storable (entry k v es) = not (is_replication_key k) && (is_storable v && has_storable es)

text_stored : (s : String) → is_storable (data_to_dynamo_replace (text s)) ≡ true
unfolding is_storable data_to_dynamo_replace
text_stored s = elim (Bool-cases (str_eq s "")) [
  | inl is_empty ↦ rw is_empty refl
  | inr is_text ↦ rw (is_text, is_text) refl
]

mutual
  unfolding is_storable are_storable has_storable data_to_dynamo_replace values_to_dynamo
      entries_to_dynamo

  stored : (v : Value) → is_storable (data_to_dynamo_replace v) ≡ true
  stored (text s) = text_stored s
  stored (array vs) = all_stored vs
  stored (dict es) = stored_in es
  stored (int n) = refl
  stored null = refl
  stored (boolean b) = refl
  stored (bytes b) = refl
  stored (float d) = refl
  stored (datetime d) = refl
  stored (decimal d) = refl
  stored (binary b) = refl

  all_stored : (vs : Values) → are_storable (values_to_dynamo vs) ≡ true
  all_stored nil = refl
  all_stored (cons v vs) = rw (stored v) (all_stored vs)

  stored_in : (es : Entries) → has_storable (entries_to_dynamo es) ≡ true
  stored_in end = refl
  stored_in (entry k v es) = elim (Bool-cases (is_replication_key k)) [
    | inl foreign ↦ rw foreign (stored_in es)
    | inr own ↦ rw (own, own, stored v) (stored_in es)
  ]

-- Whatever is handed over, what is written has no empty text, no number but decimals, and no key of the
-- replication, however deep.
pub is_storable-data_to_dynamo_replace : (v : Value) → is_storable (data_to_dynamo_replace v) ≡ true
is_storable-data_to_dynamo_replace v = stored v
