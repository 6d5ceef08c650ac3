-- ===== src/Requests/Drafts.antt =====
-- `generate_request_from_change_model_array`, its first part: the changes that a user asks for are numbered
-- and sorted by type, and the requester's address is shortened.
mod Bounds
pub mod Numbered
use consoleme.Base.{
  ℕ, zero, suc, ◌+◌, ◌-◌, String, Bool, true, false, not, ◌&&◌, Option, none, some, List, [], ◌∷◌,
  ◌++◌, ltb, str_eq, elem, fstring, split, last, decimal, if◌then◌else◌,
}
use Prim.Native.String
use Prim.Native.String.{count}
use consoleme.Aws.{Lookups}
use consoleme.Models.{
  Principal, aws_resource, honeybee, Status, ResourceChange, Detail, inline_policy, managed_policy,
  permissions_boundary, resource_policy, sts_resource_policy, assume_role_policy, resource_tag,
  generic_file, managed_policy_resource, Change,
}
use consoleme.Requests.World.{
  Error, invalid_request_parameter, unsupported_change_type, Result, ok, raised, chain,
}

-- A change as it is asked for. The date only goes into the name of an inline policy.
pub record Draft : Type 0 where
  pub change : Change
  pub expiration_date : Option ℕ

-- `s[:n]`
unfoldable pub take_text : ℕ → String → String
take_text zero s = String.[]
take_text (suc n) String.[] = String.[]
take_text (suc n) (String.◌∷◌ c s) = String.◌∷◌ c (take_text n s)

-- `s[: 64 - n]`: a bound below 0 counts from the end of the text.
unfoldable pub cut_by : ℕ → String → String
unfolding take_text
cut_by n s = if ltb 64 n then take_text (count s - (n - 64)) s else take_text (64 - n) s

-- `split_items[0]`
abbrev pub first_of : List String → String
first_of [] = ""
first_of (s ∷ rest) = s

-- "Make sure the requester is only ever 64 chars with domain"
unfoldable pub shorten_requester : String → String
unfolding cut_by
shorten_requester user =
    let domain = last (split b'@' user) in
    if ltb 64 (count user)
    then String.◌++◌ (cut_by (count domain + 1) (first_of (split b'@' user)))
        (String.◌++◌ "@" domain)
    else user

-- `a == b`, of two principals.
unfoldable pub same_principal : Principal → Principal → Bool
same_principal (aws_resource a) (aws_resource b) = str_eq a b
same_principal (honeybee r i u) (honeybee s j v) = str_eq r s && (str_eq i j && str_eq u v)
same_principal _ _ = false

-- The lists of changes, one for each type. Changes of the type `generic_file` are in none.
pub record Groups : Type 0 where
  pub inline : List Draft
  pub managed : List Draft
  pub resource : List Draft
  pub assume : List Draft
  pub tags : List Draft
  pub boundary : List Draft
  pub managed_resource : List Draft

abbrev pub no_groups : Groups
no_groups = record {
  inline = [];
  managed = [];
  resource = [];
  assume = [];
  tags = [];
  boundary = [];
  managed_resource = [];
}

-- The order in which the request has them.
unfoldable pub ungroup : Groups → List Draft
ungroup g =
    g.inline
    ++ (g.managed ++ (g.resource ++ (g.assume ++ (g.tags ++ (g.boundary ++ g.managed_resource)))))

-- A resource policy that a user asks for is not generated, and is supported for some services.
unfoldable pub as_asked : (supported : Bool) → Change → ResourceChange → Change
as_asked supported c rc = record c {
  autogenerated = false;
  detail = resource_policy (record rc { source_change_id = none; supported = some supported });
}

-- The message goes on with the fields of the change.
abbrev pub invalid_type : String
invalid_type = "Invalid `change_type` for change: "

-- Not applied, and with an id: that of the request, and the place among the changes.
unfoldable pub numbered : (uuid : String) → ℕ → Draft → Draft
numbered uuid n d = record d {
  change = record d.change { status = Status.not_applied; id = fstring (uuid ∷ decimal n ∷ []) };
}

abbrev pub single_principal : Error
single_principal =
    invalid_request_parameter
      "We only support making changes to a single principal ARN per request."

module _ (l : Lookups) (supported : List String) where
  unfoldable pub put_draft : Draft → Detail → Groups → Result Groups
  unfolding as_asked
  put_draft d (inline_policy _) g = ok (record g { inline = g.inline ++ d ∷ [] })
  put_draft d (managed_policy _ _) g = ok (record g { managed = g.managed ++ d ∷ [] })
  put_draft d (managed_policy_resource _) g =
      ok (record g { managed_resource = g.managed_resource ++ d ∷ [] })
  put_draft d (resource_policy rc) g = ok (record g {
    resource =
        g.resource
        ++ record d { change = as_asked (elem (l.parse_arn rc.arn).service supported) d.change rc }
          ∷ [];
  })
  put_draft d (assume_role_policy _) g = ok (record g { assume = g.assume ++ d ∷ [] })
  put_draft d (resource_tag _) g = ok (record g { tags = g.tags ++ d ∷ [] })
  put_draft d (permissions_boundary _ _) g = ok (record g { boundary = g.boundary ++ d ∷ [] })
  put_draft d generic_file g = ok g
  put_draft d (sts_resource_policy rc) g = raised (unsupported_change_type invalid_type)

  -- The loop over the changes, from this number on, with the lists so far.
  unfoldable pub group_drafts :
      (uuid : String) → Principal → ℕ → List Draft → Groups → Result Groups
  group_drafts uuid p n [] g = ok g
  group_drafts uuid p n (d ∷ ds) g =
      if same_principal p d.change.principal
      then chain (put_draft (numbered uuid n d) d.change.detail g) (group_drafts uuid p (suc n) ds)
      else raised single_principal
