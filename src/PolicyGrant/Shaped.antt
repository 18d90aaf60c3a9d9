-- ===== src/PolicyGrant/Shaped.antt =====
-- What the shape of an admitted record is, by record_error of tools/workspace_policy_grant.py.
use curator_spec.Prelude.{
  >>=-eq-ok, Bool, Elem, List, Result, String, [], any-Elem, ap, arith, err, false, inl, inr,
  length, length-append, map, none, not, not-eq-false, ok, ok-eq, refl, sym, true, ◌++◌, ◌>>=◌, ◌∙◌,
  ◌∷◌, ◌≡◌,
}
use curator_spec.Json.{Value, null, str, is_str, is_str-eq}
use curator_spec.Json.Read.{◌!◌, is_text, list_of}
use curator_spec.Json.Stops.{either-eq-false, negated-eq-false, first_refusal-None}
use curator_spec.PolicyGrant.{Environment, same, is_at_most, reading, each, unreadable}
use curator_spec.PolicyGrant.Shape.{
  states_of, statuses, are_texts, bad_subject, repeats_hook, bad_states, record_error,
}
use curator_spec.PolicyGrant.Spelled.{IsSpelling, remote-IsSpelling}

pub reading-eq-ok :
    {A : Type 0} (v : Result A) (c : Result Bool) {b : Bool} → reading v c ≡ ok b → c ≡ ok b
reading-eq-ok (ok v) c h = h
reading-eq-ok (err e) c h = absurd (cc)

-- A record that is valid, of one root, whose primary remote spells its destination and whose review
-- is after its time, and which is active since it was made.
pub record IsShaped (env : Environment) (grant : Value) : Type 0 where
  pub valid : env.is_valid grant ≡ true
  pub root :
      same env (ok grant ! "subject" ! "path") (ok grant ! "subject" ! "repository" ! "root")
      ≡ ok true
  pub primary :
      (v : Value) × (ok grant ! "subject" ! "repository" ! "primary_remote" ≡ ok v)
      × IsSpelling v (ok grant ! "subject" ! "canonical_destination")
  pub reviewed : is_at_most env (ok grant ! "review_by") (ok grant ! "time") ≡ ok false
  pub no_history : (ok grant ! "state_history" >>= list_of) ≡ ok []
  pub active : ok grant ! "state" ! "status" ≡ ok (str "active")

abbrev last_of : List Value → Value
last_of [] = null
last_of (v ∷ []) = v
last_of (v ∷ w ∷ vs) = last_of (w ∷ vs)

last_of-append : (vs : List Value) (v : Value) → last_of (vs ++ v ∷ []) ≡ v
last_of-append [] v = refl
last_of-append (w ∷ []) v = refl
last_of-append (w ∷ x ∷ vs) v = last_of-append (x ∷ vs) v

are_texts-eq :
    (vs : List Value) (names : List String) → are_texts vs names ≡ true → vs ≡ map str names
are_texts-eq [] [] h = refl
are_texts-eq [] (n ∷ names) h = absurd (ground arith)
are_texts-eq (v ∷ vs) [] h = absurd (ground arith)
are_texts-eq (v ∷ vs) (n ∷ names) h =
    ap (λ x. x ∷ vs) (is_str-eq v n (ground arith))
    ∙ ap (λ xs. str n ∷ xs) (are_texts-eq vs names (ground arith))

-- what is read of states, and of the last one
each-append :
    (f : Value → Result Value) (history : List Value) (state : Value) (found : List Value)
    → each f (history ++ state ∷ []) ≡ ok found
    → (read : List Value) × (last : Value) × (each f history ≡ ok read)
      × (f state ≡ ok last)
      × (read ++ last ∷ [] ≡ found)
each-append f [] state found h =
    let (last, e, h1) = >>=-eq-ok (f state) _ h in ([], last, refl, e, ok-eq h1)
each-append f (s ∷ history) state found h =
    let (v, e, h1) = >>=-eq-ok (f s) _ h in
    let (rest, g, h2) = >>=-eq-ok (each f (history ++ state ∷ [])) _ h1 in
    let (read, last, k, l, m) = each-append f history state rest g in
    (
      v ∷ read,
      last,
      ap (λ x. x >>= λ w. each f history >>= λ ws. ok (w ∷ ws)) e
          ∙ ap (λ x. x >>= λ ws. ok (v ∷ ws)) k,
      l,
      ap (λ xs. v ∷ xs) m ∙ ok-eq h2,
    )

each-Nothing :
    (f : Value → Result Value) (history : List Value) → each f history ≡ ok [] → history ≡ []
each-Nothing f [] h = refl
each-Nothing f (s ∷ history) h =
    let (v, e, h1) = >>=-eq-ok (f s) _ h in
    let (rest, g, h2) = >>=-eq-ok (each f history) _ h1 in
    absurd (let q = ap length (ok-eq h2) in ground arith)

short : (read : List Value) (last v : Value) → read ++ last ∷ [] ≡ v ∷ [] → read ≡ []
short [] last v h = refl
short (x ∷ read) last v h =
    absurd (let q = ap length h in ground (arith, length-append read (last ∷ [])))

-- of the four orders, the one that ends neither revoked nor lapsed
only_active :
    (names : List String) (read : List Value) (last : Value)
    → Elem names statuses
    → read ++ last ∷ [] ≡ map str names
    → is_str last "revoked" ≡ false
    → is_str last "lapsed" ≡ false
    → (read ≡ []) × (last ≡ str "active")
only_active names read last m h r l =
    let ends : last ≡ last_of (map str names) = sym (last_of-append read last) ∙ ap last_of h in
    elim m [
      | inl e ↦
          let q : read ++ last ∷ [] ≡ str "active" ∷ [] = h ∙ ap (map str) e in
          (short read last (str "active") q, ends ∙ ap (λ ns. last_of (map str ns)) e)
      | inr (inl e) ↦ absurd (
          let q = ap (λ v. is_str v "revoked") (ends ∙ ap (λ ns. last_of (map str ns)) e) in
          ground (arith, q, r))
      | inr (inr (inl e)) ↦ absurd (
          let q = ap (λ v. is_str v "lapsed") (ends ∙ ap (λ ns. last_of (map str ns)) e) in
          ground (arith, q, l))
      | inr (inr (inr (inl e))) ↦ absurd (
          let q = ap (λ v. is_str v "revoked") (ends ∙ ap (λ ns. last_of (map str ns)) e) in
          ground (arith, q, r))
      | inr (inr (inr (inr n))) ↦ absurd n
    ]

-- what was false of a value that was read
not_text :
    (v : Result Value) (w : Value) (s : String)
    → v ≡ ok w
    → is_text v s ≡ ok false
    → is_str w s ≡ false
not_text v w s e h = ok-eq (ap (λ x. is_text x s) (sym e) ∙ h)

module _ (env : Environment) (grant : Value) where
  active_only :
      bad_states env grant ≡ ok false
      → is_text (ok grant ! "state" ! "status") "revoked" ≡ ok false
      → is_text (ok grant ! "state" ! "status") "lapsed" ≡ ok false
      → (is_at_most env (ok grant ! "review_by") (ok grant ! "time") ≡ ok false)
        × ((ok grant ! "state_history" >>= list_of) ≡ ok [])
        × (ok grant ! "state" ! "status" ≡ ok (str "active"))
  active_only h r l =
      let (states, e, h1) = >>=-eq-ok (states_of grant) _ h in
      let (history, f, h2) = >>=-eq-ok (ok grant ! "state_history" >>= list_of) _ e in
      let (state, g, h3) = >>=-eq-ok (ok grant ! "state") _ h2 in
      let (bad, k) = either-eq-false _ _ (reading-eq-ok _ _ h1) in
      let reviewed =
        (either-eq-false _ _
          (either-eq-false _ _ (either-eq-false _ _ (either-eq-false _ _ k).1).1).1).0 in
      let (found, m, n) = >>=-eq-ok (each (λ s. ok s ! "status") states) _ bad in
      let (names, o, p) = any-Elem (are_texts found) statuses (not-eq-false _ (ok-eq n)) in
      let read_all : each (λ s. ok s ! "status") (history ++ state ∷ []) ≡ ok found =
        ap (each (λ s. ok s ! "status")) (ok-eq h3) ∙ m in
      let (read, last, a, b, c) = each-append (λ s. ok s ! "status") history state found read_all in
      let status : ok grant ! "state" ! "status" ≡ ok last = ap (λ v. v ! "status") g ∙ b in
      let (none_read, is_active) =
        only_active names read last o (c ∙ are_texts-eq found names p)
          (not_text _ last "revoked" status r) (not_text _ last "lapsed" status l) in
      (reviewed, f ∙ ap ok (each-Nothing _ history (a ∙ ap ok none_read)), status ∙ ap ok is_active)

  -- a record without an error, which is neither revoked nor lapsed
  pub record_error-IsShaped :
      record_error env grant ≡ ok none
      → is_text (ok grant ! "state" ! "status") "revoked" ≡ ok false
      → is_text (ok grant ! "state" ! "status") "lapsed" ≡ ok false
      → IsShaped env grant
  unfolding record_error
  record_error-IsShaped h r l =
      let checks =
        first_refusal-None
          ((ok (not (env.is_valid grant)), unreadable)
            ∷ (bad_subject env grant, unreadable)
            ∷ (repeats_hook env (ok grant ! "surfaces" ! "hooks"), unreadable)
            ∷ (bad_states env grant, unreadable)
            ∷ [])
          h in
      let subject = checks.1.0 in
      let (root, more) = either-eq-false _ _ (either-eq-false _ _ subject).1 in
      let (reviewed, no_history, active) = active_only checks.1.1.1.0 r l in
      record {
        valid = not-eq-false _ (ok-eq checks.0);
        root = negated-eq-false _ root;
        primary = remote-IsSpelling _ _ (negated-eq-false _ (either-eq-false _ _ more).0);
        reviewed = reviewed;
        no_history = no_history;
        active = active;
      }
