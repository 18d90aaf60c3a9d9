-- ===== src/PolicyGrant/Shape.antt =====
-- The shape of a record, `record_error` of tools/workspace_policy_grant.py.
use curator_spec.Prelude.{
  Bool, List, Option, Result, String, [], any, err, false, if◌then◌else◌, int_gt, ltb, none, not,
  ok, same_int, some, sort_by, true, ℤ, ◌&&◌, ◌++◌, ◌>>=◌, ◌||◌, ◌∷◌,
}
use curator_spec.Text.{Text, codes}
use curator_spec.Json.{Value, str, is_str}
use curator_spec.Json.Equal.{same_value}
use curator_spec.Json.Read.{
  ◌!◌, either, negated, is_text, is_none, list_of, any_of, equal, contained, first_refusal,
}
use curator_spec.Sources.Git.{encoded_length}
use curator_spec.WorkspaceTrust.Paths.{exact_path}
use curator_spec.PolicyGrant.{Environment, differs, time_of, is_at_most, reading, each, unreadable}
use curator_spec.PolicyGrant.Remote.{is_remote, text_of, canonical_remote}

abbrev pub text_or_none : Value → Option Text
text_or_none (str s) = some (codes s)
text_or_none _ = none

-- `len(path.encode('utf-8')) > 4096`
abbrev pub is_long : Result Value → Result Bool
is_long v = do w ← v; t ← text_of w; ok (ltb 4096 (encoded_length t))

-- a list of states, and the last one
abbrev pub states_of : Value → Result (List Value)
states_of grant = do
  history ← ok grant ! "state_history" >>= list_of
  state ← ok grant ! "state"
  ok (history ++ state ∷ [])

abbrev pub statuses : List (List String)
statuses =
    ("active" ∷ [])
    ∷ ("active" ∷ "revoked" ∷ [])
    ∷ ("active" ∷ "lapsed" ∷ [])
    ∷ ("active" ∷ "lapsed" ∷ "revoked" ∷ [])
    ∷ []

-- `tuple(…) == (…)`
abbrev pub are_texts : List Value → List String → Bool
are_texts [] [] = true
are_texts (v ∷ vs) (s ∷ ss) = is_str v s && are_texts vs ss
are_texts _ _ = false

abbrev same_times : List ℤ → List ℤ → Bool
same_times [] [] = true
same_times (i ∷ is) (j ∷ js) = same_int i j && same_times is js
same_times _ _ = false

-- `states[0]`
abbrev pub first : List Value → Result Value
first [] = err "IndexError"
first (v ∷ vs) = ok v

-- `(by is None) != (status == 'lapsed')`
abbrev pub is_unattributed : Value → Result Bool
is_unattributed s = do
  nobody ← is_none (ok s ! "by")
  lapsed ← is_text (ok s ! "status") "lapsed"
  ok (if nobody then not lapsed else lapsed)

module _ (env : Environment) where
  -- `len({h['hook_id'] for h in hooks}) != len(hooks)`
  abbrev repeats : List Value → Bool
  repeats [] = false
  repeats (v ∷ vs) = any (same_value env.floats v) vs || repeats vs

  abbrev pub repeats_hook : Result Value → Result Bool
  repeats_hook hooks = do
    hs ← hooks >>= list_of
    ids ← each (λ h. ok h ! "hook_id") hs
    ok (repeats ids)

  abbrev pub bad_subject : Value → Result Bool
  bad_subject grant =
      let subject = ok grant ! "subject" in
      either (do p ← subject ! "path"; ok (not (exact_path env.paths (text_or_none p))))
        (either (differs env (subject ! "path") (subject ! "repository" ! "root")) (
          either
            (negated (
              is_remote (subject ! "repository" ! "primary_remote")
                (subject ! "canonical_destination")))
            (is_long (subject ! "path"))))

  abbrev pub times_of : List Value → Result (List ℤ)
  times_of states = each (λ s. time_of env (ok s ! "time")) states

  -- the states in an order that is none of the four
  abbrev pub bad_statuses : List Value → Result Bool
  bad_statuses states = do
    ss ← each (λ s. ok s ! "status") states
    ok (not (any (are_texts ss) statuses))

  abbrev pub bad_order : List Value → Result Bool
  bad_order states = do ts ← times_of states; ok (not (same_times ts (sort_by int_gt ts)))

  abbrev pub bad_states : Value → Result Bool
  bad_states grant = do
    states ← states_of grant
    reading (times_of states) (
        either (bad_statuses states) (
          either (bad_order states) (
            either (differs env (first states ! "time") (ok grant ! "time")) (
              either (differs env (first states ! "by") (ok grant ! "issuer")) (
                either (is_at_most env (ok grant ! "review_by") (ok grant ! "time"))
                  (any_of is_unattributed states))))))

  unfoldable pub record_error : Value → Result (Option String)
  unfolding ◌!◌ either equal contained any_of first_refusal canonical_remote is_remote exact_path
      sort_by encoded_length same_int
  record_error grant = first_refusal (
      (ok (not (env.is_valid grant)), unreadable)
      ∷ (bad_subject grant, unreadable)
      ∷ (repeats_hook (ok grant ! "surfaces" ! "hooks"), unreadable)
      ∷ (bad_states grant, unreadable)
      ∷ [])
