-- ===== src/Tests/GrantRuns.antt =====
-- The policy grants at the positive case of conformance/workspace-trust-policy-grant-v1.
use curator_spec.Prelude.{
  List, Result, String, [], err, false, if◌then◌else◌, none, ok, pos, refl, str_eq, true, ℤ, ◌∷◌,
  ◌≡◌,
}
use curator_spec.Json.{Value, Fields, bool, str, arr, obj, member, bare, item, no_items, int}
use curator_spec.PolicyGrant.{Environment}
use curator_spec.PolicyGrant.Launch.{decision, admit, refuse}
use curator_spec.PolicyGrant.Authorized.{IsAuthorized, decision-IsAuthorized}
use curator_spec.WorkspaceTrust.Paths.{posix}

abbrev one : Value → Value
one v = arr (item v no_items)

-- the instants of the case, in hours
abbrev instant : Value → Result ℤ
instant (str s) =
    if str_eq s "2026-10-27T08:00:00Z"
    then ok (pos 8)
    else if str_eq s "2026-10-27T09:00:00Z"
    then ok (pos 9)
    else if str_eq s "2026-10-27T10:00:00Z"
    then ok (pos 10)
    else if str_eq s "2026-11-27T08:00:00Z"
    then ok (pos 752)
    else err "ValueError"
instant _ = err "TypeError"

abbrev env : Environment
env = record {
  floats = record { equals_int = λ s n. false; equals_float = str_eq };
  paths = record { windows = posix; urlsplit = λ s. none };
  is_valid = λ v. elim v [ obj d ↦ true | _ ↦ false ];
  timestamp = instant;
  dumps = λ v. ok [];
  sha256 = λ bytes. "8f63f7b4";
}

abbrev actor : Value
actor = obj (member "kind" (str "keeper") (member "principal_ref" (str "principal:keeper") bare))

abbrev issuer : Value
issuer = obj (member "role" (str "operator") (member "actor" actor bare))

abbrev destination : Value
destination = obj (
    member "transport" (str "ssh") (
      member "host" (str "code.example") (
        member "port" (int (pos 22))
          (member "repository_path" (str "/team/project.git") (member "user" (str "git") bare)))))

abbrev spelling : String
spelling = "ssh://git@code.example/team/project.git"

abbrev repository : Value
repository = obj (
    member "root" (str "/work/project")
      (member "primary_remote" (str spelling) (member "root_commit" (str "1111") bare)))

abbrev hook : String → Value
hook hash = obj (member "hook_id" (str "pre-start") (member "sha256" (str hash) bare))

abbrev grant : String → Value
grant status = obj (
    member "grant_id" (str "grant:build") (
      member "policy"
        (obj (member "entry_id" (str "project-lanes") (member "sha256" (str "8f63f7b4") bare)))
        (member "subject"
          (obj (
            member "checkout_id" (str "checkout:project") (
              member "registration_sha256" (str "cccc") (
                member "path" (str "/work/project") (
                  member "repository" repository
                    (member "canonical_destination" destination bare))))))
          (member "identity"
            (obj (
              member "root_identity" (str "dddd") (
                member "environment" (str "codex_cli") (member "lane_id" (str "lane:build") bare))))
            (member "surfaces"
              (obj (member "project_trust" (bool true) (member "hooks" (one (hook "bbbb")) bare)))
              (member "issuer" issuer (
                member "time" (str "2026-10-27T09:00:00Z") (
                  member "review_by" (str "2026-11-27T08:00:00Z") (
                    member "state"
                      (obj (
                        member "status" (str status)
                          (member "time" (str "2026-10-27T09:00:00Z") (member "by" issuer bare))))
                      (member "state_history" (arr no_items) bare))))))))))

abbrev policy : Value
policy = obj (
    member "entry_id" (str "project-lanes") (
      member "root_commit" (str "1111") (
        member "canonical_destination" destination (
          member "remote_spellings" (one (str spelling)) (
            member "environments" (one (str "codex_cli")) (
              member "lanes" (one (str "lane:build")) (
                member "project_trust" (bool true) (
                  member "hooks" (one (hook "bbbb")) (
                    member "issuer" issuer (
                      member "time" (str "2026-10-27T08:00:00Z")
                        (member "review_by" (str "2026-11-27T08:00:00Z") bare)))))))))))

abbrev registration : Value
registration = obj (
    member "checkout_id" (str "checkout:project") (
      member "sha256" (str "cccc")
        (member "path" (str "/work/project") (member "root_identity" (str "dddd") bare))))

-- facts that hold as they stand
abbrev flags : List String → Fields → Fields
flags [] rest = rest
flags (key ∷ keys) rest = member key (bool true) (flags keys rest)

abbrev facts : String → Value
facts hash = obj (
    flags
      ("policy_readable" ∷ "ledger_readable" ∷ "journal_readable" ∷ "authenticated_approval"
        ∷ "nofollow_identity_matches" ∷ "destination_verified" ∷ "ssh_pins_match"
        ∷ "command_free_routing" ∷ "adapter_qualified" ∷ "hook_state_readable" ∷ [])
      (member "approval_source" (str "keeper-command") (
        member "approved_issuer" issuer (
          member "policy" policy (
            member "registration" registration (
              member "repository" repository (
                member "remote_spelling" (str spelling) (
                  member "environment" (str "codex_cli") (
                    member "lane_id" (str "lane:build") (
                      member "now" (str "2026-10-27T10:00:00Z") (
                        member "revoked_ids" (arr no_items) (
                          member "effective_hooks" (one (hook hash))
                            (member "native_hook_approvals" (arr no_items) bare)))))))))))))

abbrev surfaces : Value
surfaces = obj (member "project_trust" (bool true) (member "hooks" (one (hook "bbbb")) bare))

positive : decision env (grant "active") (facts "bbbb") ≡ ok (admit surfaces)
unfolding decision
positive = refl

refused :
    (decision env (grant "active") (facts "beef") ≡ ok (refuse "workspace_trust_hook_digest"))
    × (decision env (grant "revoked") (facts "bbbb")
        ≡ ok (refuse "workspace_trust_ledger_unreadable"))
unfolding decision
refused = (refl, refl)

decision-IsAuthorized_example : IsAuthorized env (grant "active") (facts "bbbb")
decision-IsAuthorized_example =
    decision-IsAuthorized env (grant "active") (facts "bbbb") (admit surfaces) refl positive
