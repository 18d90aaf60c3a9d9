-- ===== src/PolicyGrant/Launch.antt =====
-- The decision over a record and the facts of a launch, `decision` of
-- tools/workspace_policy_grant.py.
use curator_spec.Prelude.{
  Bool, List, Option, Result, String, [], err, false, none, ok, some, true, ◌++◌, ◌>>=◌, ◌∷◌,
}
use curator_spec.Text.{codes}
use curator_spec.Json.{Value, Items, no_items, item, str, arr, obj, bare, member}
use curator_spec.Json.Read.{
  ◌!◌, holds, either, both, negated, is_text, is_none, equals_codes, list_of, any_of, Refusal,
  first_refusal,
}
use curator_spec.Canonical.{ccj1_bytes}
use curator_spec.PolicyGrant.{
  Environment, differs, is_in_list, is_before, is_at_most, reading, unreadable,
}
use curator_spec.PolicyGrant.Remote.{is_remote, text_of}
use curator_spec.PolicyGrant.Shape.{record_error}

-- `a + b` of two lists
abbrev pub joined : Items → Items → Items
joined no_items ys = ys
joined (item v xs) ys = item v (joined xs ys)

abbrev pub concat : Value → Value → Result Value
concat (arr xs) (arr ys) = ok (arr (joined xs ys))
concat _ _ = err "TypeError"

pub record Decision : Type 0 where
  pub diagnostic : Option String
  pub admitted : Bool
  pub event : Option String
  pub surfaces : Option Value

abbrev pub refuse : String → Decision
refuse code = record { diagnostic = some code; admitted = false; event = none; surfaces = none }

abbrev pub admit : Value → Decision
admit surfaces = record {
  diagnostic = none;
  admitted = true;
  event = some "policy-grant";
  surfaces = some surfaces;
}

module _ (env : Environment) where
  -- `ccj1_sha256(policy)[7:]`
  abbrev digest : Value → Result String
  digest v = do b ← ccj1_bytes env.dumps v; ok (env.sha256 b)

  -- `{'entry_id': …, 'sha256': …}`
  abbrev pub policy_reference : Result Value → Result Value
  policy_reference policy = do
    p ← policy
    entry ← policy ! "entry_id"
    hash ← digest p
    ok (obj (member "entry_id" entry (member "sha256" (str hash) bare)))

  -- `issuer['actor']['kind'] + '-command'`
  abbrev is_command : Result Value → Result Value → Result Bool
  is_command source kind = do
    s ← source
    k ← kind
    t ← text_of k
    ok (equals_codes s (t ++ codes "-command"))

  -- each hook of the first list is in the second
  abbrev pub some_outside : Result Value → Result Value → Result Bool
  some_outside hooks allowed = do
    hs ← hooks >>= list_of
    any_of (λ h. negated (is_in_list env (ok h) allowed)) hs

  module _ (grant facts : Value) where
    abbrev pub of_grant : String → Result Value
    of_grant key = ok grant ! key

    abbrev pub fact : String → Result Value
    fact key = ok facts ! key

    abbrev pub unreadable_facts : Result Bool
    unreadable_facts = negated (
        both (holds (fact "policy_readable"))
          (both (holds (fact "ledger_readable")) (holds (fact "journal_readable"))))

    abbrev pub unauthorized : Result Bool
    unauthorized = reading (of_grant "issuer") (
        either
          (negated (
            either (is_text (fact "approval_source") "operator-command")
              (is_text (fact "approval_source") "keeper-command")))
          (either (negated (holds (fact "authenticated_approval"))) (
            either (differs env (fact "approved_issuer") (of_grant "issuer")) (
              negated
                (is_command (fact "approval_source") (of_grant "issuer" ! "actor" ! "kind"))))))

    abbrev pub unknown_project : Result Bool
    unknown_project = reading (fact "policy") (
        reading (fact "registration")
          (either (is_none (fact "policy")) (is_none (fact "registration"))))

    abbrev pub other_digest : Result Bool
    other_digest = differs env (of_grant "policy") (policy_reference (fact "policy"))

    abbrev pub revoked : Result Bool
    revoked =
        either (is_text (of_grant "state" ! "status") "revoked")
          (is_in_list env (of_grant "grant_id") (fact "revoked_ids"))

    abbrev pub out_of_time : Result Bool
    out_of_time = either (is_text (of_grant "state" ! "status") "lapsed") (
        either (differs env (of_grant "review_by") (fact "policy" ! "review_by")) (
          either (is_at_most env (of_grant "review_by") (fact "now")) (
            either (is_before env (of_grant "time") (fact "policy" ! "time")) (
              either (is_before env (fact "now") (of_grant "time"))
                (is_before env (fact "now") (of_grant "state" ! "time"))))))

    abbrev pub other_repository : Result Bool
    other_repository =
        let subject = of_grant "subject" in
        let registration = fact "registration" in
        reading subject (
          reading (of_grant "identity") (
            either (differs env (subject ! "checkout_id") (registration ! "checkout_id")) (
              either (differs env (subject ! "registration_sha256") (registration ! "sha256")) (
                either (differs env (subject ! "path") (registration ! "path")) (
                  either
                    (differs env (of_grant "identity" ! "root_identity")
                      (registration ! "root_identity"))
                    (either (differs env (subject ! "repository") (fact "repository")) (
                      either (negated (holds (fact "nofollow_identity_matches"))) (
                        differs env (subject ! "repository" ! "root_commit")
                          (fact "policy" ! "root_commit")))))))))

    abbrev pub other_destination : Result Bool
    other_destination =
        let destination = of_grant "subject" ! "canonical_destination" in
        either (differs env destination (fact "policy" ! "canonical_destination")) (
          either (negated (holds (fact "destination_verified"))) (
            either (negated (holds (fact "ssh_pins_match"))) (
              either (negated (holds (fact "command_free_routing"))) (
                either (negated (is_remote (fact "remote_spelling") destination)) (
                  negated (
                    is_in_list env (fact "remote_spelling")
                      (fact "policy" ! "remote_spellings")))))))

    abbrev pub outside_policy : Result Bool
    outside_policy =
        let identity = of_grant "identity" in
        let policy = fact "policy" in
        either (differs env (identity ! "environment") (fact "environment")) (
          either (differs env (identity ! "lane_id") (fact "lane_id")) (
            either (negated (is_in_list env (identity ! "environment") (policy ! "environments"))) (
              either (negated (is_in_list env (identity ! "lane_id") (policy ! "lanes"))) (
                either (differs env (policy ! "issuer") (of_grant "issuer")) (
                  both (holds (of_grant "surfaces" ! "project_trust"))
                    (negated (holds (policy ! "project_trust"))))))))

    -- `facts['effective_hooks'] + facts['native_hook_approvals']`
    abbrev pub effective_hooks : Result Value
    effective_hooks = do a ← fact "effective_hooks"; b ← fact "native_hook_approvals"; concat a b

    abbrev pub other_hooks : Result Bool
    other_hooks =
        let granted = of_grant "surfaces" ! "hooks" in
        reading (fact "policy" ! "hooks") (
          reading granted (
            either (negated (holds (fact "hook_state_readable"))) (
              either (some_outside granted (fact "policy" ! "hooks"))
                (some_outside effective_hooks granted))))

    -- the refusals behind record_error, in their order
    abbrev pub refusals : List Refusal
    refusals =
        (unreadable_facts, unreadable)
        ∷ (unauthorized, "workspace_trust_policy_authority")
        ∷ (unknown_project, "workspace_untrusted")
        ∷ (other_digest, "workspace_trust_policy_digest")
        ∷ (revoked, "workspace_trust_grant_revoked")
        ∷ (out_of_time, "workspace_untrusted")
        ∷ (other_repository, "workspace_trust_repository_changed")
        ∷ (other_destination, "workspace_trust_destination_mismatch")
        ∷ (outside_policy, "workspace_untrusted")
        ∷ (negated (holds (fact "adapter_qualified")), "workspace_trust_adapter_unqualified")
        ∷ (other_hooks, "workspace_trust_hook_digest")
        ∷ []

    abbrev pub answer : Option String → Result Decision
    answer (some code) = ok (refuse code)
    answer none = of_grant "surfaces" >>= λ s. ok (admit s)

    unfoldable pub decision : Result Decision
    unfolding record_error ccj1_bytes both
    decision = do
      error ← record_error env grant
      (elim error [ some code ↦ ok (refuse code) | none ↦ first_refusal refusals >>= answer ])
