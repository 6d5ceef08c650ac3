-- ===== src/Dynamo/Tests.antt =====
-- Values on their way to the database and back, on a concrete one.
use consoleme.Base.{ℕ, ◌<◌, ◌≡◌, refl, true, Option, none, some, arith}
use consoleme.Dynamo.{
  Values, empty_string, values_from_dynamo, pos, negsuc, tenths, Value, text, int, decimal, array,
  dict, nil, cons, end, entry, data_to_dynamo_replace, data_from_dynamo_replace, int_of, signed,
  is_replication_key,
}
use consoleme.Dynamo.RoundTrip.{is_plain, data_from_dynamo_replace-data_to_dynamo_replace}
use consoleme.Dynamo.Scan.{
  Page, extend, scan_rest, scan_segment, scan_segments, parallel_scan_table, IsWhole,
  parallel_scan_table-IsWhole,
}
use consoleme.Dynamo.Storable.{is_storable, is_storable-data_to_dynamo_replace}

abbrev value : Value
value = dict (
    entry "justification" (text "") (
      entry "request_time" (int (pos 1700000000))
        (entry "resources" (array (cons (text "a") (cons (int (negsuc 0)) nil))) end)))

-- Half of the number three, below zero, is cut off to -1.
cut_off :
    data_from_dynamo_replace
      (decimal (record { is_negative = true; coefficient = 15; exponent = tenths 1 }))
    ≡ int (negsuc 0)
unfolding data_from_dynamo_replace int_of signed
cut_off = refl

-- A text that is the placeholder is read back as the empty text.
placeholder :
    data_from_dynamo_replace (data_to_dynamo_replace (text "---DYNAMO-EMPTY-STRING---")) ≡ text ""
unfolding data_from_dynamo_replace data_to_dynamo_replace
placeholder = refl

value_is_plain : is_plain value ≡ true
unfolding is_plain is_replication_key
value_is_plain = refl

data_from_dynamo_replace-data_to_dynamo_replace_example :
    data_from_dynamo_replace (data_to_dynamo_replace value) ≡ value
data_from_dynamo_replace-data_to_dynamo_replace_example =
    data_from_dynamo_replace-data_to_dynamo_replace value value_is_plain

is_storable-data_to_dynamo_replace_example : is_storable (data_to_dynamo_replace value) ≡ true
is_storable-data_to_dynamo_replace_example = is_storable-data_to_dynamo_replace value

-- A table of two pages, each with one text; its empty text is stored as the placeholder.
abbrev pages : ℕ → Option ℕ → Page ℕ
pages segment none = record { items = cons (text empty_string) nil; last_evaluated_key = some 1 }
pages segment (some key) = record {
  items = cons (text empty_string) nil;
  last_evaluated_key = none;
}

abbrev left : ℕ → Option ℕ → ℕ
left segment none = 1
left segment (some key) = 0

advances :
    (segment : ℕ) (start : Option ℕ) (key : ℕ)
    → (pages segment start).last_evaluated_key ≡ some key
    → left segment (some key) < left segment start
advances segment none key h = omega arith
advances segment (some k) key h = absurd (ground (arith, h))

-- The placeholder stays on the first page, and becomes the empty text on the second.
first_page_raw :
    parallel_scan_table pages 2 1 ≡ some (cons (text empty_string) (cons (text "") nil))
unfolding parallel_scan_table scan_segments scan_segment scan_rest extend values_from_dynamo
    data_from_dynamo_replace
first_page_raw = refl

parallel_scan_table-IsWhole_example :
    (items : Values) × (parallel_scan_table pages 2 3 ≡ some items) × IsWhole pages 3 0 items
parallel_scan_table-IsWhole_example =
    parallel_scan_table-IsWhole pages left advances 2 3 (λ segment. omega arith)
