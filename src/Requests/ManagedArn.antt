-- ===== src/Requests/ManagedArn.antt =====
-- The arns of managed policies that an account owns: `^arn:aws:iam::\d{12}:policy/.+`.
use consoleme.Base.{
  ℕ, zero, suc, String, Bool, false, not, ◌&&◌, Option, none, some, drop_prefix, ltb, ◌==◌,
  if◌then◌else◌,
}
use Prim.Native.Char.{code}

-- What stands behind this many digits.
unfoldable pub drop_digits : ℕ → String → Option String
drop_digits zero s = some s
drop_digits (suc n) String.[] = none
drop_digits (suc n) (String.◌∷◌ c s) =
    let rest = drop_digits n s in
    if not (ltb (code c) b'0') && not (ltb b'9' (code c)) then rest else none

-- `.` matches any character but a line feed.
begins_with_any : String → Bool
begins_with_any String.[] = false
begins_with_any (String.◌∷◌ c s) = not (code c == 10)

behind_digits : Option String → Bool
behind_digits none = false
behind_digits (some s) = elim (drop_prefix ":policy/" s) [
  | none ↦ false
  | some rest ↦ begins_with_any rest
]

unfoldable pub is_managed_policy_arn : String → Bool
unfolding drop_prefix drop_digits begins_with_any behind_digits
is_managed_policy_arn arn = elim (drop_prefix "arn:aws:iam::" arn) [
  | none ↦ false
  | some s ↦ behind_digits (drop_digits 12 s)
]
