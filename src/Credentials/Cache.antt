-- ===== src/Credentials/Cache.antt =====
-- The copies that `CredentialAuthorizationMapping` keeps of the mapping, of its reverse and of the list of roles,
-- and when it loads them again. That the stored mapping is itself as recent as was asked is up to the store.
pub mod Age
use consoleme.Base.{
  ℕ, ◌-◌, Bool, true, false, ◌||◌, Option, none, some, List, [], ◌∷◌, String, Dict, ltb, length,
  if◌then◌else◌,
}
use consoleme.Credentials.{Roles, Mapping}

-- A copy, and the time at which it was loaded.
pub record Copy (A : Type 0) : Type 0 where
  pub kept : List A
  pub last_update : ℕ

-- `CredentialAuthorizationMapping.__init__`
abbrev pub nothing_kept : {A : Type 0} → Copy A
nothing_kept = record { kept = []; last_update = 0 }

abbrev is_empty : {A : Type 0} → List A → Bool
is_empty [] = true
is_empty (x ∷ xs) = false

-- The copy is missing or too old.
unfoldable pub is_due : {A : Type 0} → (limit now : ℕ) → Copy A → Bool
is_due limit now c = is_empty c.kept || ltb limit (now - c.last_update)

-- What is loaded becomes the copy; if loading raises, the answer is empty and the copy stays.
unfoldable pub load : {A : Type 0} → (now : ℕ) → Option (List A) → Copy A → List A × Copy A
load now none c = ([], c)
load now (some loaded) c = (loaded, record { kept = loaded; last_update = now })

-- `loaded` is what the store would give now, unless it raises.
unfoldable pub retrieve :
    {A : Type 0} → (limit now : ℕ) → (loaded : Option (List A)) → Copy A → List A × Copy A
unfolding is_due load
retrieve limit now loaded c = if is_due limit now c then load now loaded c else (c.kept, c)

unfoldable pub retrieve_credential_authorization_mapping :
    (now : ℕ) → Option Mapping → Copy (String × Roles) → Mapping × Copy (String × Roles)
unfolding retrieve
retrieve_credential_authorization_mapping = retrieve 60

unfoldable pub retrieve_reverse_authorization_mapping :
    (now : ℕ)
    → Option (Dict (List String))
    → Copy (String × List String)
    → Dict (List String) × Copy (String × List String)
unfolding retrieve
retrieve_reverse_authorization_mapping = retrieve 60

unfoldable pub retrieve_all_roles :
    (now : ℕ) → Option (List String) → Copy String → List String × Copy String
unfolding retrieve
retrieve_all_roles = retrieve 600
