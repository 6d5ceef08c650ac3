-- ===== src/Dynamo/Scan.antt =====
-- lib/dynamo.py: the loops that read a whole table, page by page (parallel_scan_table,
-- parallel_scan_table_async, get_all_api_health_alerts).
use consoleme.Base.{ℕ, zero, suc, ◌<◌, ◌≡◌, refl, Option, none, some, arith}
use consoleme.Dynamo.{Values, nil, cons, values_from_dynamo}

-- An answer of `table.scan`.
pub record Page (Key : Type 0) : Type 0 where
  pub items : Values
  pub last_evaluated_key : Option Key

-- `items.extend(more)`
unfoldable pub extend : Values → Values → Values
extend nil more = more
extend (cons v vs) more = cons v (extend vs more)

abbrev pub extend_result : Values → Option Values → Option Values
extend_result vs none = none
extend_result vs (some more) = some (extend vs more)

-- `while "LastEvaluatedKey" in response`
abbrev pub follow : {Key : Type 0} → (Key → Option Values) → Option Key → Option Values
follow next none = some nil
follow next (some key) = next key

-- `table.scan` of a segment, from a key on or from the start.
module _ {Key : Type 0} (scan : (segment : ℕ) → Option Key → Page Key) where
  -- The loop behind a page. The number bounds its rounds; there is no result if it is too small.
  unfoldable pub scan_rest : ℕ → (segment : ℕ) → Page Key → Option Values
  scan_rest zero segment page = none
  scan_rest (suc n) segment page =
      follow
        (λ key.
          extend_result (values_from_dynamo (scan segment (some key)).items)
            (scan_rest n segment (scan segment (some key))))
        page.last_evaluated_key

  -- The items of the first page are as they come.
  unfoldable pub scan_segment : ℕ → (segment : ℕ) → Option Values
  unfolding scan_rest extend
  scan_segment n segment =
      extend_result (scan segment none).items (scan_rest n segment (scan segment none))

  abbrev pub joined : Option Values → Option Values → Option Values
  joined none rest = none
  joined (some vs) rest = extend_result vs rest

  -- The results of this many segments, from this one on.
  unfoldable pub scan_segments : ℕ → (total segment : ℕ) → Option Values
  unfolding scan_segment
  scan_segments n zero segment = some nil
  scan_segments n (suc total) segment =
      joined (scan_segment n segment) (scan_segments n total (suc segment))

  unfoldable pub parallel_scan_table : ℕ → (total_threads : ℕ) → Option Values
  unfolding scan_segments
  parallel_scan_table n total_threads = scan_segments n total_threads 0

  -- What the pages behind this one have, one page after another.
  pub data IsRest (segment : ℕ) : Page Key → Values → Type 0 where
    at_end : (page : Page Key) → page.last_evaluated_key ≡ none → IsRest segment page nil
    behind :
        (page : Page Key) (key : Key) (rest : Values)
        → page.last_evaluated_key ≡ some key
        → IsRest segment (scan segment (some key)) rest
        → IsRest segment page (extend (values_from_dynamo (scan segment (some key)).items) rest)

  -- The items of the segments, one segment after another.
  pub data IsWhole : (total segment : ℕ) → Values → Type 0 where
    no_segment : {segment : ℕ} → IsWhole 0 segment nil
    one_more :
        {total segment : ℕ} (rest others : Values)
        → IsRest segment (scan segment none) rest
        → IsWhole total (suc segment) others
        → IsWhole (suc total) segment (extend (extend (scan segment none).items rest) others)

  module _ (left : (segment : ℕ) → Option Key → ℕ)
      (advances : (segment : ℕ) (start : Option Key) (key : Key)
        → (scan segment start).last_evaluated_key ≡ some key
        → left segment (some key) < left segment start) where
    scan_rest-IsRest :
        (n segment : ℕ) (start : Option Key) (o : Option Key)
        → left segment start < n
        → (scan segment start).last_evaluated_key ≡ o
        → (rest : Values) × (scan_rest n segment (scan segment start) ≡ some rest)
          × IsRest segment (scan segment start) rest
    unfolding scan_rest
    scan_rest-IsRest zero segment start o h same = absurd (omega (arith, h))
    scan_rest-IsRest (suc n) segment start none h same =
        (nil, rw same refl, at_end (scan segment start) same)
    scan_rest-IsRest (suc n) segment start (some key) h same =
        let more =
          scan_rest-IsRest n segment (some key) _
            (omega (arith, h, advances segment start key same)) refl in
        (
          extend (values_from_dynamo (scan segment (some key)).items) more.0,
          rw (same, more.1) refl,
          behind (scan segment start) key more.0 same more.2,
        )

    scan_segments-IsWhole :
        (n total segment : ℕ)
        → ((s : ℕ) → left s none < n)
        → (items : Values) × (scan_segments n total segment ≡ some items)
          × IsWhole total segment items
    unfolding scan_segments scan_segment
    scan_segments-IsWhole n zero segment h = (nil, refl, no_segment)
    scan_segments-IsWhole n (suc total) segment h =
        let rest = scan_rest-IsRest n segment none _ (h segment) refl in
        let others = scan_segments-IsWhole n total (suc segment) h in
        (_, rw (rest.1, others.1) refl, one_more rest.0 others.0 rest.2 others.2)

    -- If the keys of each segment get nearer to its end, the loops end, within as many rounds as there are
    -- steps from the start to the end, and the result has the items of all pages of all segments in their
    -- order: those of first pages as they come, those of the others as they are read back.
    pub parallel_scan_table-IsWhole :
        (n total_threads : ℕ)
        → ((segment : ℕ) → left segment none < n)
        → (items : Values) × (parallel_scan_table n total_threads ≡ some items)
          × IsWhole total_threads 0 items
    unfolding parallel_scan_table
    parallel_scan_table-IsWhole n total_threads h = scan_segments-IsWhole n total_threads 0 h
