-- ===== src/Credentials/Tests.antt =====
-- The credential mapping of a small site, and the cases in which its theorems apply.
use consoleme.Base.{
  some, String, ◌≡◌, refl, true, false, ◌&&◌, ◌||◌, none, List, [], ◌∷◌, any, elem, split, lower,
  str_lt, fstring,
}
use consoleme.Json.{null}
use consoleme.Credentials.{
  Roles, Mapping, Role, Settings, full, cli_only, add_to, add_role, grant, grant_groups, grant_tag,
  grant_tags, is_trusted, role_tag_mapping, dynamic_config_mapping, add_all, merge_roles,
  generate_mapping, append_each, reverse_from, reverse_mapping, determine_role_authorized_groups,
  insert_sorted, insert_all, roles_of, determine_users_authorized_roles,
}
use consoleme.Credentials.Offers.{configured, determine_users_authorized_roles_lem}
use consoleme.Credentials.Cache.{Copy, nothing_kept, retrieve, is_due, load}
use consoleme.Credentials.Cache.Age.{History, fresh, again, IsRecent, retrieve-IsRecent}
use consoleme.Credentials.Reverse.{holds, determine_role_authorized_groups_lem}

abbrev app : String
app = "arn:aws:iam::123456789012:role/App"

abbrev ops : String
ops = "arn:aws:iam::123456789012:role/Ops"

abbrev roles : List Role
roles =
    record { arn = ops; tags = ("groups", "ops:admins") ∷ []; trust_policy = null }
    ∷ record {
      arn = app;
      tags = ("groups", "Devs:ops") ∷ ("cli-groups", "qa") ∷ [];
      trust_policy = null;
    }
    ∷ []

abbrev settings : Settings
settings = record {
  role_tags_enabled = true;
  dynamic_config_enabled = true;
  internal_plugin_enabled = false;
  required_trust_policy_entity = none;
  authorized_groups_tags = "groups" ∷ [];
  authorized_groups_cli_only_tags = "cli-groups" ∷ [];
  force_groups_lowercase = true;
  group_mapping =
      ("qa", record { authorized_roles = ops ∷ []; authorized_roles_cli_only = [] }) ∷ [];
  dumps = λ doc. "";
  plugin = λ m. m;
}

-- The letters of the group count as small ones, and the roles come in order.
roles_of_devs_and_ops :
    determine_users_authorized_roles
      (generate_mapping settings roles)
      "ann"
      ("ops" ∷ "devs" ∷ [])
      false
    ≡ app ∷ ops ∷ []
unfolding determine_users_authorized_roles generate_mapping role_tag_mapping dynamic_config_mapping
    grant_tags grant_tag grant_groups grant add_role add_to is_trusted merge_roles add_all roles_of
    insert_all insert_sorted str_lt lower split
roles_of_devs_and_ops = refl

-- A role that is for the command line only is offered there only.
cli_of_qa :
    determine_users_authorized_roles (generate_mapping settings roles) "ann" ("qa" ∷ []) true
    ≡ app ∷ ops ∷ []
unfolding determine_users_authorized_roles generate_mapping role_tag_mapping dynamic_config_mapping
    grant_tags grant_tag grant_groups grant add_role add_to is_trusted merge_roles add_all roles_of
    insert_all insert_sorted str_lt lower split
cli_of_qa = refl

determine_users_authorized_roles_lem_example :
    elem app
      (determine_users_authorized_roles (generate_mapping settings roles) "ann" ("qa" ∷ []) true)
    ≡ any
        (λ identity.
          configured settings roles app full identity
          || (true && configured settings roles app cli_only identity))
        ("ann" ∷ "qa" ∷ [])
determine_users_authorized_roles_lem_example =
    determine_users_authorized_roles_lem settings roles "ann" ("qa" ∷ []) true app refl

abbrev mapping : Mapping
mapping = ("devs", record { authorized_roles = app ∷ []; authorized_roles_cli_only = [] }) ∷ []

groups_of_app :
    determine_role_authorized_groups (reverse_mapping mapping) "123456789012" "APP" ≡ "devs" ∷ []
unfolding determine_role_authorized_groups reverse_mapping reverse_from append_each lower fstring
groups_of_app = refl

determine_role_authorized_groups_lem_example :
    elem "devs" (determine_role_authorized_groups (reverse_mapping mapping) "123456789012" "APP")
    ≡ any
        (holds (fstring ("arn:aws:iam::" ∷ "123456789012" ∷ ":role/" ∷ lower "APP" ∷ [])) "devs")
        mapping
determine_role_authorized_groups_lem_example =
    determine_role_authorized_groups_lem mapping "123456789012" "APP" "devs"

-- A copy that was loaded at 100, and could not be loaded again at 161.
too_old : (retrieve 60 161 none (record { kept = mapping; last_update = 100 })).0 ≡ []
unfolding retrieve is_due load
too_old = refl

abbrev given : History (String × Roles)
given = (100, mapping) ∷ []

abbrev copy : Copy (String × Roles)
copy = (retrieve 60 100 (some mapping) nothing_kept).1

retrieve-IsRecent_example : IsRecent 60 150 given copy none (retrieve 60 150 none copy).0
retrieve-IsRecent_example =
    retrieve-IsRecent 60 given copy 150 none (again fresh 100 (some mapping))
