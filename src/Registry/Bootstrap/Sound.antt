-- ===== src/Registry/Bootstrap/Sound.antt =====
-- The bootstrap gate over a client suite, and the verdicts that its names promise.
use curator_spec.Cases.{require_named_cases-IsNamed, require_named_cases, cases}
use curator_spec.Registry.Bootstrap.Gate.{
  bootstrap_cases, matches, validate_registry_bootstrap_vectors, check_recorded,
  check_bootstrap_case,
}
use curator_spec.Registry.Bootstrap.Promises.{
  rebootstrap_decided, first_use_decided, Decides, divergence_decided, rebootstrap_promises,
  DecidesClosed, first_use_promises, divergence_promises, is_closed, Promise,
}
use curator_spec.Prelude.{
  >>-eq-ok, >>=-eq-ok, All-Elem, Bool, Elem, Elem-append, Elem-map, List, String, all-Elem, arith,
  for_each, for_each-Elem, inl, inr, not, not-eq-false, ok, raise_if, raise_if-eq-ok, refl, sym,
  true, ◌&&◌, ◌++◌, ◌∙◌, ◌≡◌,
}
use curator_spec.Json.{one_of, Fields, str, get, is_str, is_str-eq}
use curator_spec.Registry.Bootstrap.{
  Verdict, expected_bootstrap_verdict, compare_phase, bootstrap_phase, rebootstrap_phase,
}
use curator_spec.Registry.Bootstrap.Scenario.{
  divergence_names, divergence_names, rebootstrap_names, bootstrap_names,
  require_bootstrap_scenario, first_use_scenario, rebootstrap_scenario, divergence_scenario,
}

first_use-phase :
    (c : Fields) → first_use_scenario c ≡ ok tt → is_str (get c "phase") "bootstrap" ≡ true
unfolding first_use_scenario
first_use-phase c h = ground arith

rebootstrap-phase :
    (c : Fields) → rebootstrap_scenario c ≡ ok tt → is_str (get c "phase") "rebootstrap" ≡ true
unfolding rebootstrap_scenario
rebootstrap-phase c h = ground arith

divergence-phase :
    (c : Fields) → divergence_scenario c ≡ ok tt → is_str (get c "phase") "compare" ≡ true
unfolding divergence_scenario
divergence-phase c h = ground arith

expected-bootstrap :
    (c : Fields)
    → get c "phase" ≡ str "bootstrap"
    → expected_bootstrap_verdict c ≡ bootstrap_phase c
unfolding expected_bootstrap_verdict
expected-bootstrap c h = rw h

expected-rebootstrap :
    (c : Fields)
    → get c "phase" ≡ str "rebootstrap"
    → expected_bootstrap_verdict c ≡ rebootstrap_phase c
unfolding expected_bootstrap_verdict
expected-rebootstrap c h = rw h

expected-compare :
    (c : Fields) → get c "phase" ≡ str "compare" → expected_bootstrap_verdict c ≡ compare_phase c
unfolding expected_bootstrap_verdict
expected-compare c h = rw h

abbrev pub all_promises : List Promise
all_promises = first_use_promises ++ (rebootstrap_promises ++ divergence_promises)

-- the names of each group, as the source tests them one group after the other
abbrev first_use_test : Promise → Bool
first_use_test p = one_of (str p.0) bootstrap_names

abbrev rebootstrap_test : Promise → Bool
rebootstrap_test p = not (one_of (str p.0) bootstrap_names) && one_of (str p.0) rebootstrap_names

abbrev divergence_test : Promise → Bool
divergence_test p =
    not (one_of (str p.0) bootstrap_names)
    && (not (one_of (str p.0) rebootstrap_names) && one_of (str p.0) divergence_names)

-- which scenario check a name runs
first_use-dispatch :
    (c : Fields) (name : String)
    → one_of (str name) bootstrap_names ≡ true
    → get c "name" ≡ str name
    → require_bootstrap_scenario c ≡ first_use_scenario c
unfolding require_bootstrap_scenario
first_use-dispatch c name h n = ground arith

rebootstrap-dispatch :
    (c : Fields) (name : String)
    → (not (one_of (str name) bootstrap_names) && one_of (str name) rebootstrap_names) ≡ true
    → get c "name" ≡ str name
    → require_bootstrap_scenario c ≡ rebootstrap_scenario c
unfolding require_bootstrap_scenario
rebootstrap-dispatch c name h n = ground arith

divergence-dispatch :
    (c : Fields) (name : String)
    → (not (one_of (str name) bootstrap_names)
        && (not (one_of (str name) rebootstrap_names) && one_of (str name) divergence_names))
      ≡ true
    → get c "name" ≡ str name
    → require_bootstrap_scenario c ≡ divergence_scenario c
unfolding require_bootstrap_scenario
divergence-dispatch c name h n = ground arith

-- A comparison that returns a verdict has a closed policy.
compare_phase-is_closed : (c : Fields) (v : Verdict) → compare_phase c ≡ ok v → is_closed c ≡ true
unfolding compare_phase
compare_phase-is_closed c v h = ground arith

-- the first-use and re-bootstrap cases
pub first_use-promised :
    (c : Fields) (p : Promise)
    → Elem p first_use_promises
    → get c "name" ≡ str p.0
    → require_bootstrap_scenario c ≡ ok tt
    → expected_bootstrap_verdict c ≡ ok p.1
first_use-promised c p m n h =
    let s =
      sym (first_use-dispatch c p.0 (all-Elem first_use_test p first_use_promises refl m) n) ∙ h in
    expected-bootstrap c (is_str-eq (get c "phase") "bootstrap" (first_use-phase c s))
    ∙ All-Elem (Decides first_use_scenario bootstrap_phase) p first_use_promises first_use_decided m
        c n s

pub rebootstrap-promised :
    (c : Fields) (p : Promise)
    → Elem p rebootstrap_promises
    → get c "name" ≡ str p.0
    → require_bootstrap_scenario c ≡ ok tt
    → expected_bootstrap_verdict c ≡ ok p.1
rebootstrap-promised c p m n h =
    let s =
      sym (rebootstrap-dispatch c p.0 (all-Elem rebootstrap_test p rebootstrap_promises refl m) n)
      ∙ h in
    expected-rebootstrap c (is_str-eq (get c "phase") "rebootstrap" (rebootstrap-phase c s))
    ∙ All-Elem (Decides rebootstrap_scenario rebootstrap_phase) p rebootstrap_promises
        rebootstrap_decided m c n s

-- A comparison returns its verdict if the policy is one of the two that there are.
pub divergence-promised :
    (c : Fields) (p : Promise)
    → Elem p divergence_promises
    → get c "name" ≡ str p.0
    → require_bootstrap_scenario c ≡ ok tt
    → is_closed c ≡ true
    → expected_bootstrap_verdict c ≡ ok p.1
divergence-promised c p m n h closed =
    let s =
      sym (divergence-dispatch c p.0 (all-Elem divergence_test p divergence_promises refl m) n)
      ∙ h in
    expected-compare c (is_str-eq (get c "phase") "compare" (divergence-phase c s))
    ∙ All-Elem DecidesClosed p divergence_promises divergence_decided m c n s closed

-- a comparison that has returned has the promised verdict
divergence-returned :
    (c : Fields) (p : Promise) (v : Verdict)
    → Elem p divergence_promises
    → get c "name" ≡ str p.0
    → require_bootstrap_scenario c ≡ ok tt
    → expected_bootstrap_verdict c ≡ ok v
    → expected_bootstrap_verdict c ≡ ok p.1
divergence-returned c p v m n h e =
    let s =
      sym (divergence-dispatch c p.0 (all-Elem divergence_test p divergence_promises refl m) n)
      ∙ h in
    let phase = is_str-eq (get c "phase") "compare" (divergence-phase c s) in
    divergence-promised c p m n h (compare_phase-is_closed c v (sym (expected-compare c phase) ∙ e))

returned-promised :
    (c : Fields) (p : Promise) (v : Verdict)
    → Elem p all_promises
    → get c "name" ≡ str p.0
    → require_bootstrap_scenario c ≡ ok tt
    → expected_bootstrap_verdict c ≡ ok v
    → expected_bootstrap_verdict c ≡ ok p.1
returned-promised c p v m n h e =
    elim (Elem-append p first_use_promises (rebootstrap_promises ++ divergence_promises) m) [
      | inl first ↦ first_use-promised c p first n h
      | inr rest ↦ elim (Elem-append p rebootstrap_promises divergence_promises rest) [
        | inl again ↦ rebootstrap-promised c p again n h
        | inr other ↦ divergence-returned c p v other n h e
      ]
    ]

check_recorded-matches :
    (c : Fields) (v : Verdict) → check_recorded c v ≡ ok tt → matches c v ≡ true
unfolding check_recorded
check_recorded-matches c v h = not-eq-false (matches c v) (
    raise_if-eq-ok (not (matches c v)) "carries another output"
      (>>-eq-ok (raise_if (not (matches c v)) "carries another output") _ h).0)

check_case-matches :
    (c : Fields) (p : Promise)
    → Elem p all_promises
    → get c "name" ≡ str p.0
    → check_bootstrap_case c ≡ ok tt
    → matches c p.1 ≡ true
unfolding check_bootstrap_case
check_case-matches c p m n h =
    let (scenario, rest) = >>-eq-ok (require_bootstrap_scenario c) _ h in
    let (v, e, r) = >>=-eq-ok (expected_bootstrap_verdict c) (check_recorded c) rest in
    check_recorded-matches c p.1 (cc (e, r, returned-promised c p v m n scenario e))

-- If the bootstrap gate passes, then for each of the fifteen required names the suite holds a case
-- of that name whose nine outputs equal, as Python compares them, the verdict that the registry
-- protocol promises for that name.
pub bootstrap_gate_sound :
    (client behavior : Fields) (p : Promise)
    → validate_registry_bootstrap_vectors client behavior ≡ ok tt
    → Elem p all_promises
    → (c : Fields) × Elem c (cases (get client "bootstrap_cases"))
      × (get c "name" ≡ str p.0)
      × (matches c p.1 ≡ true)
unfolding validate_registry_bootstrap_vectors
bootstrap_gate_sound client behavior p h m =
    let suite = get client "bootstrap_cases" in
    let (named, rest) = >>-eq-ok (require_named_cases suite bootstrap_cases) _ h in
    let (loop, _) = >>-eq-ok (for_each (cases suite) check_bootstrap_case) _ rest in
    let (c, mc, n) =
      (require_named_cases-IsNamed suite bootstrap_cases named).found p.0
        (Elem-map (λ q. q.0) p all_promises m) in
    (
      c,
      mc,
      n,
      check_case-matches c p m n (for_each-Elem (cases suite) check_bootstrap_case c loop mc),
    )
