-- ===== src/Requests/Tests/Create.antt =====
-- The making of requests, on concrete changes.
use package.text.Mathlib.TextLemmas.{cons-append, append_cancel_left, append-nil}
use consoleme.Base.{
  ℕ, ◌≤◌, String, ◌≡◌, ◌≢◌, refl, sym, ◌∙◌, true, false, none, some, [], ◌∷◌, length, fstring,
  decimal, decimal_inj, arith, last, split, ap,
}
use consoleme.Json.{Fields, object, array, text, nil, cons, field, end}
use consoleme.Models.{
  Action, aws_resource, Status, cancel_request, RequestStatus, inline_policy, Request,
}
use consoleme.Requests.World.{Env, Work, Result, raised, unsupported_change_type}
use consoleme.Requests.Drafts.{
  Draft, Groups, no_groups, take_text, cut_by, shorten_requester, group_drafts, put_draft,
  same_principal, numbered, single_principal,
}
use consoleme.Requests.Stubs.{Sources, generate_resource_policies}
use consoleme.Requests.Stubs.Foreign.{Returns}
use consoleme.Requests.Stubs.Extended.{Extended, generate_resource_policies-Extended}
use consoleme.Requests.Checks.{Naming, check_drafts}
use consoleme.Requests.Create.{
  Creation, create_for_first, create_for, create_grouped, generate_request_from_change_model_array,
}
use consoleme.Requests.Create.Made.{IsNew, generate_request_from_change_model_array-New}
use consoleme.Requests.Create.Ways.{Admitted}
use consoleme.Requests.Create.Admitted.{check_drafts-Admitted}
use Prim.Native.Char.{code}
use consoleme.Requests.Modify.{parse_and_apply_policy_request_modification}
use consoleme.Requests.Pairs.{Pairs, Preserved}
use consoleme.Requests.Closed.Steps.{IsHonoured}
use consoleme.Requests.Closed.Settled.{unchanged, then_command}
use consoleme.Requests.Create.Sound.{AllDiffer}
use consoleme.Requests.Create.Life.{IsNew-Becomes}
use consoleme.Requests.Tests.{role_arn, policy, inline_change, request, start, calm, lookups}

-- The bucket is in another account.
abbrev env : Env
env = record calm { lookups = record lookups { config_cache = λ arn. some "210987654321" } }

abbrev statement : Fields
statement = field "Action" (text "s3:GetObject") (field "Resource" (text "arn:aws:s3:::logs") end)

abbrev reads_logs : Draft
reads_logs = record {
  change = record (inline_change "" Status.applied) {
    detail = inline_policy (record {
      policy_name = none;
      new = true;
      action = some Action.attach;
      policy = some (record policy {
        policy_document = object (field "Statement" (array (cons (object statement) nil)) end);
      });
      old_policy = none;
    });
  };
  expiration_date = none;
}

abbrev creation : Creation
creation = record { drafts = reads_logs ∷ []; admin_auto_approve = false }

abbrev naming : Naming
naming = record { temp_policy_prefix = "cm_delete-on"; random = λ id. "rndm" }

abbrev sources : Sources
sources = record {
  trust_permissions = "sts:AssumeRole" ∷ [];
  service_of = λ action. "s3";
  fresh = λ i. fstring ("stub-" ∷ decimal i ∷ []);
}

abbrev no_honeybee : Creation → String → Work → Result Request × Work
no_honeybee c requester w = (raised (unsupported_change_type "honeybee"), w)

abbrev made : Result Request × Work
made =
    generate_request_from_change_model_array env naming sources no_honeybee creation
      "ann@example.com" start

-- What the ids of generated changes begin with tells them from those of the request's own.
first_code : String → ℕ
first_code String.[] = 0
first_code (String.◌∷◌ c s) = code c

fresh_inj : (i j : ℕ) → sources.fresh i ≡ sources.fresh j → i ≡ j
unfolding fstring
fresh_inj i j h =
    decimal_inj i j (sym (append-nil _) ∙ append_cancel_left "stub-" _ _ h ∙ append-nil _)

fresh_new : (i n : ℕ) → sources.fresh i ≢ fstring (env.new_id ∷ decimal n ∷ [])
unfolding fstring first_code
fresh_new i n h =
    let same : 115 ≡ 99 =
      sym (ap first_code (cons-append "s" "tub-" (fstring (decimal i ∷ []))))
      ∙ ap first_code h
      ∙ ap first_code (cons-append "c" "omment-1" (fstring (decimal n ∷ []))) in
    omega (arith, same)

generate_request_from_change_model_array-New_example :
    Returns
      (IsNew "comment-1" (aws_resource role_arn))
      (generate_request_from_change_model_array env naming sources no_honeybee creation
        "ann@example.com" start).0
generate_request_from_change_model_array-New_example =
    generate_request_from_change_model_array-New env sources fresh_inj fresh_new role_arn naming
      no_honeybee creation "ann@example.com" start reads_logs [] refl refl

generate_resource_policies-Extended_example :
    Returns
      (Extended env sources (request RequestStatus.pending (reads_logs.change ∷ [])) role_arn)
      (generate_resource_policies env sources
        (request RequestStatus.pending (reads_logs.change ∷ [])))
generate_resource_policies-Extended_example =
    generate_resource_policies-Extended env sources role_arn
      (request RequestStatus.pending (reads_logs.change ∷ [])) refl

abbrev asked : Groups
asked = record no_groups { inline = reads_logs ∷ [] }

check_drafts-Admitted_example :
    Returns
      (λ g.
        (length asked.assume ≤ 1) × Admitted env naming "ann@example.com" role_arn asked start g)
      (check_drafts env naming "ann@example.com" role_arn asked start).0
check_drafts-Admitted_example =
    check_drafts-Admitted env naming "ann@example.com" role_arn asked start

abbrev long_user : String
long_user = "a.requester.with.a.very.long.name.indeed.and.still.more.of.it@example.com"

shortened :
    shorten_requester long_user ≡ "a.requester.with.a.very.long.name.indeed.and.still.m@example.com"
unfolding shorten_requester cut_by take_text last split
shortened = refl

abbrev new_request : Request
new_request = request RequestStatus.pending (inline_change "a" Status.not_applied ∷ [])

new_request-IsNew : IsNew "request-1" (aws_resource role_arn) new_request
new_request-IsNew = record {
  id = refl;
  is_pending = refl;
  principal = refl;
  are_open = ((refl, refl), tt);
  differ = (tt, tt);
}

abbrev cancelled : Request
cancelled =
    (parse_and_apply_policy_request_modification calm cancel_request "ann@example.com" [] 0 false
      (record { request = new_request; work = start })).1.request

IsNew-Becomes_example :
    IsHonoured cancelled
    × AllDiffer cancelled.changes
    × Pairs Preserved new_request.changes cancelled.changes
IsNew-Becomes_example =
    IsNew-Becomes "request-1" (aws_resource role_arn) new_request cancelled new_request-IsNew
      (then_command unchanged calm cancel_request "ann@example.com" [] 0 false start)

-- Two changes, of different principals.
two_principals :
    (generate_request_from_change_model_array env naming sources no_honeybee
      (record creation {
        drafts =
            reads_logs
            ∷ record reads_logs {
              change = record reads_logs.change {
                principal = aws_resource "arn:aws:iam::123456789012:role/b";
              };
            }
            ∷ [];
      })
      "ann@example.com"
      start).0
    ≡ raised single_principal
unfolding generate_request_from_change_model_array create_for_first create_for create_grouped
    shorten_requester group_drafts put_draft same_principal numbered
two_principals = refl
