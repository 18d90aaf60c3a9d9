-- ===== src/PolicyGrant/Authorized.antt =====
-- What an admitted decision of tools/workspace_policy_grant.py rests on.
use mathlib.Core.Path.{transport}
use curator_spec.Prelude.{
  >>=-eq-ok, All, Elem, List, Option, Result, String, ap, append-Elem, arith, false, inl, inr, none,
  ok, ok-eq, refl, some, sym, true, ◌++◌, ◌>>=◌, ◌∙◌, ◌∷◌, ◌≡◌,
}
use curator_spec.Json.{Value, Items, no_items, item, values, str, arr, obj, bare, member}
use curator_spec.Json.Read.{negated, holds, any_of, equal, ◌!◌, list_of, first_refusal}
use curator_spec.Json.Stops.{either-eq-false, negated-eq-false, any_of-Elem, first_refusal-None}
use curator_spec.PolicyGrant.{Environment, same, is_in_list, is_at_most}
use curator_spec.PolicyGrant.Shape.{record_error}
use curator_spec.PolicyGrant.Spelled.{IsSpelling, remote-IsSpelling}
use curator_spec.PolicyGrant.Shaped.{IsShaped, reading-eq-ok, record_error-IsShaped}
use curator_spec.Text.{Text}
use curator_spec.Canonical.{ccj1_bytes}
use curator_spec.PolicyGrant.Launch.{
  Decision, refuse, of_grant, fact, decision, refusals, policy_reference, some_outside, answer,
  joined, concat,
}

-- a value in a hook list, each of which is in another
abbrev AreIn : (env : Environment) → Result Value → Result Value → Type 0
AreIn env hooks allowed =
    (hs : List Value) (h : Value)
    → (hooks >>= list_of) ≡ ok hs
    → Elem h hs
    → is_in_list env (ok h) allowed ≡ ok true

module _ (env : Environment) (grant facts : Value) where
  abbrev of : String → Result Value
  of key = of_grant env grant facts key

  abbrev given : String → Result Value
  given key = fact env grant facts key

  -- The record names the policy that is given by its entry and by the digest of its canonical bytes.
  pub record NamesPolicy : Type 0 where
    pub policy : Value
    pub entry : Value
    pub bytes : Text
    pub is_given : given "policy" ≡ ok policy
    pub is_entry : given "policy" ! "entry_id" ≡ ok entry
    pub are_bytes : ccj1_bytes env.dumps policy ≡ ok bytes
    pub named :
        same env
          (of "policy")
          (ok (obj (member "entry_id" entry (member "sha256" (str (env.sha256 bytes)) bare))))
        ≡ ok true

  pub record IsAuthorized : Type 0 where
    pub shape : IsShaped env grant
    pub approval : holds (given "authenticated_approval") ≡ ok true
    pub issuer : same env (given "approved_issuer") (of "issuer") ≡ ok true
    pub policy : NamesPolicy
    pub unrevoked : is_in_list env (of "grant_id") (given "revoked_ids") ≡ ok false
    pub unexpired : is_at_most env (of "review_by") (given "now") ≡ ok false
    pub repository : same env (of "subject" ! "repository") (given "repository") ≡ ok true
    pub remote :
        (v : Value) × (given "remote_spelling" ≡ ok v)
        × IsSpelling v (of "subject" ! "canonical_destination")
    pub listed :
        is_in_list env (given "remote_spelling") (given "policy" ! "remote_spellings") ≡ ok true
    pub allowed : AreIn env (of "surfaces" ! "hooks") (given "policy" ! "hooks")
    pub effective : AreIn env (given "effective_hooks") (of "surfaces" ! "hooks")
    pub native : AreIn env (given "native_hook_approvals") (of "surfaces" ! "hooks")

answer-Admitted :
    (env : Environment) (grant facts : Value) (code : Option String) (d : Decision)
    → d.admitted ≡ true
    → answer env grant facts code ≡ ok d
    → code ≡ none
answer-Admitted env grant facts none d a h = refl
answer-Admitted env grant facts (some code) d a h =
    absurd (ground (arith, ap Decision.admitted (ok-eq h)))

-- the two stages of an admitted decision
decision-Stages :
    (env : Environment) (grant facts : Value) (error : Option String) (d : Decision)
    → d.admitted ≡ true
    → elim error [
      | some code ↦ ok (refuse code)
      | none ↦ first_refusal (refusals env grant facts) >>= answer env grant facts
    ]
      ≡ ok d
    → (error ≡ none) × (first_refusal (refusals env grant facts) ≡ ok none)
decision-Stages env grant facts (some code) d a h =
    absurd (ground (arith, ap Decision.admitted (ok-eq h)))
decision-Stages env grant facts none d a h =
    let (code, e, f) =
      >>=-eq-ok (first_refusal (refusals env grant facts)) (answer env grant facts) h in
    (refl, e ∙ ap ok (answer-Admitted env grant facts code d a f))

some_outside-AreIn :
    (env : Environment) (hooks allowed : Result Value)
    → some_outside env hooks allowed ≡ ok false
    → AreIn env hooks allowed
some_outside-AreIn env hooks allowed n hs h e m =
    let (gs, f, k) =
      >>=-eq-ok (hooks >>= list_of) (any_of (λ g. negated (is_in_list env (ok g) allowed))) n in
    negated-eq-false (is_in_list env (ok h) allowed) (
      any_of-Elem (λ g. negated (is_in_list env (ok g) allowed)) h gs k
        (transport (ap (λ xs. Elem h xs) (ok-eq (sym e ∙ f))) m))

values-joined : (xs ys : Items) → values (joined xs ys) ≡ values xs ++ values ys
values-joined no_items ys = refl
values-joined (item v xs) ys = ap (λ vs. v ∷ vs) (values-joined xs ys)

concat-Lists :
    (a b v : Value) (hs : List Value)
    → concat a b ≡ ok v
    → list_of v ≡ ok hs
    → (xs : List Value) × (ys : List Value) × (list_of a ≡ ok xs)
      × (list_of b ≡ ok ys)
      × (hs ≡ xs ++ ys)
concat-Lists (arr xs) (arr ys) v hs h k = (
  values xs,
  values ys,
  refl,
  refl,
  ok-eq (sym k ∙ ap list_of (sym (ok-eq h))) ∙ values-joined xs ys,
)
concat-Lists _ _ v hs h k = absurd (cc)

-- two lists that are joined are in a third, if their whole is
joined-AreIn :
    (env : Environment) (first second allowed : Result Value)
    → some_outside env (do a ← first; b ← second; concat a b) allowed ≡ ok false
    → AreIn env first allowed × AreIn env second allowed
joined-AreIn env first second allowed n =
    let (hs, f, _) =
      >>=-eq-ok ((do a ← first; b ← second; concat a b) >>= list_of)
        (any_of (λ g. negated (is_in_list env (ok g) allowed))) n in
    let (v, f1, f2) = >>=-eq-ok (do a ← first; b ← second; concat a b) list_of f in
    let (a, g, f3) = >>=-eq-ok first _ f1 in
    let (b, k, f4) = >>=-eq-ok second _ f3 in
    let (xs, ys, p, q, r) = concat-Lists a b v hs f4 f2 in
    let whole = some_outside-AreIn env (do a ← first; b ← second; concat a b) allowed n hs in
    (
      λ gs h e m.
          let same_list : gs ≡ xs = ok-eq (sym e ∙ ap (λ x. x >>= list_of) g ∙ p) in
          whole h f (
            transport (ap (Elem h) (sym r))
              (append-Elem h xs ys (inl (transport (ap (Elem h) same_list) m)))),
      λ gs h e m.
          let same_list : gs ≡ ys = ok-eq (sym e ∙ ap (λ x. x >>= list_of) k ∙ q) in
          whole h f (
            transport (ap (Elem h) (sym r))
              (append-Elem h xs ys (inr (transport (ap (Elem h) same_list) m)))),
    )

policy-NamesPolicy :
    (env : Environment) (grant facts : Value)
    → same env
        (of_grant env grant facts "policy")
        (policy_reference env (fact env grant facts "policy"))
      ≡ ok true
    → NamesPolicy env grant facts
unfolding equal
policy-NamesPolicy env grant facts h =
    let (x, e, h1) = >>=-eq-ok (of_grant env grant facts "policy") _ h in
    let (y, f, h2) = >>=-eq-ok (policy_reference env (fact env grant facts "policy")) _ h1 in
    let (p, g, f1) = >>=-eq-ok (fact env grant facts "policy") _ f in
    let (entry, k, f2) = >>=-eq-ok (fact env grant facts "policy" ! "entry_id") _ f1 in
    let (hash, l, f3) = >>=-eq-ok (do b ← ccj1_bytes env.dumps p; ok (env.sha256 b)) _ f2 in
    let (bytes, m, l1) = >>=-eq-ok (ccj1_bytes env.dumps p) _ l in
    record {
      policy = p;
      entry = entry;
      bytes = bytes;
      is_given = g;
      is_entry = k;
      are_bytes = m;
      named =
          ap
            (λ t.
              same env (of_grant env grant facts "policy")
                (ok (obj (member "entry_id" entry (member "sha256" (str t) bare)))))
            (ok-eq l1)
          ∙ ap (same env (of_grant env grant facts "policy")) f3
          ∙ ap (same env (of_grant env grant facts "policy")) (sym f)
          ∙ h;
    }

-- The conditions of a record on which no refusal applies.
refusals-IsAuthorized :
    (env : Environment) (grant facts : Value)
    → record_error env grant ≡ ok none
    → All (λ r. r.0 ≡ ok false) (refusals env grant facts)
    → IsAuthorized env grant facts
refusals-IsAuthorized env grant facts e h =
    let who = reading-eq-ok (of_grant env grant facts "issuer") _ h.1.0 in
    let (approval, who') = either-eq-false _ _ (either-eq-false _ _ who).1 in
    let time = (either-eq-false _ _ (either-eq-false _ _ h.1.1.1.1.1.0).1).1 in
    let place = reading-eq-ok (of_grant env grant facts "subject") _ h.1.1.1.1.1.1.0 in
    let place' = reading-eq-ok (of_grant env grant facts "identity") _ place in
    let path = (either-eq-false _ _ (either-eq-false _ _ place').1).1 in
    let tree = (either-eq-false _ _ (either-eq-false _ _ path).1).1 in
    let routes = (either-eq-false _ _ (either-eq-false _ _ h.1.1.1.1.1.1.1.0).1).1 in
    let spelling = (either-eq-false _ _ (either-eq-false _ _ routes).1).1 in
    let hooks =
      reading-eq-ok (of_grant env grant facts "surfaces" ! "hooks") _
        (reading-eq-ok (fact env grant facts "policy" ! "hooks") _ h.1.1.1.1.1.1.1.1.1.1.0) in
    let (granted, given) = either-eq-false _ _ (either-eq-false _ _ hooks).1 in
    let (effective, native) =
      joined-AreIn env (fact env grant facts "effective_hooks")
        (fact env grant facts "native_hook_approvals")
        (of_grant env grant facts "surfaces" ! "hooks") given in
    let (revoked, unrevoked) = either-eq-false _ _ h.1.1.1.1.0 in
    let lapsed = (either-eq-false _ _ h.1.1.1.1.1.0).0 in
    let (spelled, listed) = either-eq-false _ _ spelling in
    record {
      shape = record_error-IsShaped env grant e revoked lapsed;
      approval = negated-eq-false _ approval;
      issuer = negated-eq-false _ (either-eq-false _ _ who').0;
      policy = policy-NamesPolicy env grant facts (negated-eq-false _ h.1.1.1.0);
      unrevoked = unrevoked;
      unexpired = (either-eq-false _ _ time).0;
      repository = negated-eq-false _ (either-eq-false _ _ tree).0;
      remote = remote-IsSpelling _ _ (negated-eq-false _ spelled);
      listed = negated-eq-false _ listed;
      allowed = some_outside-AreIn env _ _ granted;
      effective = effective;
      native = native;
    }

-- A decision that admits authorizes only what was approved. The record is valid, is active without a
-- former state, has its review after its time and the root of its repository as its path, and its
-- primary remote, if it is not null, spells its
-- destination: the transport, the user under ssh, the host, a port other than the default one, and a
-- path of a repository. The approval is authenticated and by the issuer of the record, which names the
-- entry and the digest of the policy; the grant is not among the revoked ones and not past its review;
-- the repository is that of the record; the remote is listed in the policy and, if it is not null,
-- spells the destination too; each granted hook is in the policy, and each hook in effect and each
-- native approval of a hook is granted.
pub decision-IsAuthorized :
    (env : Environment) (grant facts : Value) (d : Decision)
    → d.admitted ≡ true
    → decision env grant facts ≡ ok d
    → IsAuthorized env grant facts
unfolding decision
decision-IsAuthorized env grant facts d a h =
    let (error, e, f) = >>=-eq-ok (record_error env grant) _ h in
    let (g, k) = decision-Stages env grant facts error d a f in
    refusals-IsAuthorized env grant facts (e ∙ ap ok g)
      (first_refusal-None (refusals env grant facts) k)
