-- ===== src/Requests/Drafts/Bounds.antt =====
-- How long the address of a requester is, behind `shorten_requester`.
use package.text.Mathlib.TextLemmas.{length-append, length-cons}
use Prim.Native.String
use Prim.Native.String.{count}
use consoleme.Base.{ℕ, zero, suc, ◌+◌, ◌-◌, ◌≤◌, ◌<◌, String, arith, split, last}
use consoleme.Requests.Drafts.{take_text, cut_by, first_of, shorten_requester}

count-take_text : (n : ℕ) (s : String) → count (take_text n s) ≤ n
unfolding take_text
count-take_text zero s = omega arith
count-take_text (suc n) String.[] = omega arith
count-take_text (suc n) (String.◌∷◌ c s) =
    omega (arith, length-cons c (take_text n s), count-take_text n s)

count-cut_by : (n : ℕ) (s : String) → n ≤ 64 → count (cut_by n s) ≤ 64 - n
unfolding cut_by
count-cut_by n s h = ground (arith, h, count-take_text (64 - n) s)

-- If what is behind the last @ has fewer than 64 characters, the requester's name in a request has at
-- most 64.
count-shorten_requester :
    (user : String) → count (last (split b'@' user)) < 64 → count (shorten_requester user) ≤ 64
unfolding shorten_requester
count-shorten_requester user h =
    let domain = last (split b'@' user) in
    let name = cut_by (count domain + 1) (first_of (split b'@' user)) in
    ground (
      arith,
      h,
      length-append name (String.◌++◌ "@" domain),
      length-append "@" domain,
      count-cut_by (count domain + 1) (first_of (split b'@' user)),
    )
