-- ===== src/Base/Text.antt =====
-- What the program does with texts: parts of f-strings, `split`, `in`, `lower`, prefixes.
use Prim.Native.Nat.{ℕ, zero, suc, ◌+◌, ◌-◌}
use Prim.Native.Char.{Char, code}
use Prim.Native.String
use Prim.Native.String.{String, find, len, count}
use mathlib.Core.Bool.{Bool, true, false}
use mathlib.Core.Option.{Option, none, some}
use mathlib.Core.List.{List, [], ◌∷◌}
use consoleme.Base.Tests.{◌==◌, ltb, if◌then◌else◌}
pub use text.Mathlib.Text.{◌==◌ as str_eq, starts_with}

-- The value of an f-string, from its parts.
unfoldable pub fstring : List String → String
fstring [] = String.[]
fstring (s ∷ rest) = String.◌++◌ s (fstring rest)

-- How an f-string prints a text that may be `None`.
unfoldable pub shown : Option String → String
shown none = "None"
shown (some s) = s

-- `part in s`: the position that `find` gives is past the end where there is none.
unfoldable pub contains : String → String → Bool
contains part s = ltb (find s part) (len s + 1)

-- Whether a text counts as true: it is there and is not empty.
abbrev pub truthy_text : Option String → Bool
truthy_text none = false
truthy_text (some String.[]) = false
truthy_text (some (String.◌∷◌ c s)) = true

cons_first : Char → List String → List String
cons_first c [] = String.◌∷◌ c String.[] ∷ []
cons_first c (s ∷ rest) = String.◌∷◌ c s ∷ rest

-- `s.split(sep)`, for a separator of one character with this code.
unfoldable pub split : ℕ → String → List String
unfolding cons_first
split sep String.[] = String.[] ∷ []
split sep (String.◌∷◌ c s) =
    let rest = split sep s in if code c == sep then String.[] ∷ rest else cons_first c rest

-- `parts[-1]` of a list with a last item.
unfoldable pub last : List String → String
last [] = String.[]
last (s ∷ []) = s
last (s ∷ t ∷ rest) = last (t ∷ rest)

-- What stands in `s` behind the prefix.
unfoldable pub drop_prefix : String → String → Option String
drop_prefix String.[] s = some s
drop_prefix (String.◌∷◌ c p) String.[] = none
drop_prefix (String.◌∷◌ c p) (String.◌∷◌ d s) =
    let rest = drop_prefix p s in if code c == code d then rest else none

abbrev is_there : Option String → Bool
is_there none = false
is_there (some s) = true

-- `s.replace(part, "")`, for a part that is not empty; the number counts the characters still to drop.
unfoldable pub remove_from : String → ℕ → String → String
remove_from part k String.[] = String.[]
remove_from part (suc k) (String.◌∷◌ c s) = remove_from part k s
remove_from part zero (String.◌∷◌ c s) =
    let hit = is_there (drop_prefix part (String.◌∷◌ c s)) in
    let rest = remove_from part (if hit then count part - 1 else 0) s in
    if hit then rest else String.◌∷◌ c rest

-- The character at a position of a text, or another one.
nth : ℕ → String → Char → Char
nth n String.[] default = default
nth zero (String.◌∷◌ c s) default = c
nth (suc n) (String.◌∷◌ c s) default = nth n s default

-- `s.lower()`, for the letters A to Z.
unfoldable pub lower : String → String
unfolding nth
lower String.[] = String.[]
lower (String.◌∷◌ c s) =
    String.◌∷◌
      (if ltb 64 (code c)
        then if ltb (code c) 91 then nth (code c - 65) "abcdefghijklmnopqrstuvwxyz" c else c
        else c)
      (lower s)

-- `s < t`, by the numbers of the characters.
unfoldable pub str_lt : String → String → Bool
str_lt String.[] String.[] = false
str_lt String.[] (String.◌∷◌ d t) = true
str_lt (String.◌∷◌ c s) String.[] = false
str_lt (String.◌∷◌ c s) (String.◌∷◌ d t) =
    let rest = str_lt s t in
    if ltb (code c) (code d) then true else if code c == code d then rest else false
