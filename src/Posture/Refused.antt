-- ===== src/Posture/Refused.antt =====
-- When an install is refused under a posture of tools/validate.py.
use curator_spec.Posture.{object_of-eq, object_of, Resolved, is_two}
use curator_spec.Prelude.{
  >>-eq-ok, >>=-eq-ok, Bool, List, Result, String, any, ap, arith, false, if-false, if-true,
  if◌then◌else◌, not, ok, ok-eq, raise_if, refl, str_eq, sym, true, ◌&&◌, ◌>>=◌, ◌||◌, ◌↔◌, ◌∙◌,
  ◌≡◌, ◌⊎◌,
}
use mathlib.Core.Path.{transport}
use curator_spec.Json.{str, is_str, truthy, obj, Value, Fields, bare, get}
use curator_spec.Json.Names.{or_iff}
use curator_spec.Posture.Conditions.{
  NoSources, Unreachable, NoPackages, NullNames, sources_iff, names_iff, unreachable_iff,
  lacks_packages_iff,
}
use curator_spec.Posture.Diagnostics.{
  outcome_of, lacks_packages, schema2_of, posture_outcome, posture_diagnostics, check_operation,
  is_permissive, is_unbounded, is_install, is_hardened, lacks_sources, found_of, operation_of,
  found_if, severity, in_order, diagnostic_order, is_error,
}

-- which of five entries are errors: of the first the severity is a warning
errors_of :
    (p l m u n : Bool) (sm sn : String) (ep el em eu en : Fields)
    → any is_error (
        in_order
          (found_if p "security_posture_permissive" (severity "warning" ep) (
            found_if l "source_allowlist_empty" (severity "error" el) (
              found_if m "mcp_package_allowlist_empty" (severity sm em) (
                found_if u "passable_env_names_unbounded_refused"
                  (severity "error" eu)
                  (found_if n "registry_unreachable_during_install" (severity sn en) bare)))))
          diagnostic_order)
      ≡ (l || (m && str_eq sm "error" || (u || n && str_eq sn "error")))
unfolding get
errors_of p l m u n sm sn ep el em eu en = ground arith

-- the operation that was checked is the one of the case
operation_of-Case :
    (c operation : Fields) → operation_of c ≡ ok operation → get c "operation" ≡ obj operation
operation_of-Case c operation h =
    let (o, e, h1) =
      >>=-eq-ok (object_of (get c "operation") "operation is not the closed four-member shape") _
        h in
    let (_, h2) = >>-eq-ok (check_operation o) _ h1 in
    object_of-eq (get c "operation") _ o e ∙ ap obj (ok-eq h2)

picks_error : (d : Bool) → str_eq (if d then "error" else "warning") "error" ≡ d
picks_error true = refl
picks_error false = refl

picks_warning : (p : Bool) → str_eq (if p then "warning" else "error") "error" ≡ not p
picks_warning true = refl
picks_warning false = refl

-- the entries of an operation are errors where this says so
blend :
    (l m d u n p : Bool)
    → (l
        || (m && str_eq (if d then "error" else "warning") "error"
            || (u || n && str_eq (if p then "warning" else "error") "error")))
      ≡ (l || (m && d || (u || n && not p)))
blend l m d u n p = ground (arith, picks_error d, picks_warning p)

-- whether an install of this kind is refused, where `packages` says that it has no allowed packages
abbrev pub must_refuse : (kind declared unreachable : Value) → Resolved → Bool → Bool
must_refuse kind declared unreachable r packages =
    lacks_sources r kind
    || (packages && (is_hardened r && truthy declared)
        || (is_unbounded r kind || truthy unreachable && is_install kind && not (is_permissive r)))

found_of-Refused :
    (operation : Fields) (r : Resolved) (packages : Bool)
    → any is_error (in_order (found_of operation r packages) diagnostic_order)
      ≡ must_refuse
          (get operation "kind")
          (get operation "mcp_declarations_present")
          (get operation "unreachable_trusted_registries")
          r
          packages
found_of-Refused operation r packages =
    let kind = get operation "kind" in
    let declared = truthy (get operation "mcp_declarations_present") in
    let unreachable = truthy (get operation "unreachable_trusted_registries") && is_install kind in
    errors_of (is_permissive r) (lacks_sources r kind) packages (is_unbounded r kind) unreachable
      (if is_hardened r && declared then "error" else "warning")
      (if is_permissive r then "warning" else "error") _ _ _ _ _
    ∙ blend (lacks_sources r kind) packages (is_hardened r && declared) (is_unbounded r kind)
        unreachable (is_permissive r)

-- An outcome is a refusal exactly under the condition.
abbrev pub RefusedIf : Type 0 → Result String → Type 0
RefusedIf P outcome = (P → outcome ≡ ok "refused") × (¬ P → outcome ≡ ok "proceeds")

-- The outcome of an installation, and of the installation of a profile, whose diagnostics were
-- derived.
pub record IsJudged (c : Fields) (r : Resolved) (ds : List Value) : Type 0 where
  pub operation : Fields
  pub machine : Fields
  pub is_operation : get c "operation" ≡ obj operation
  pub is_machine : get c "machine" ≡ obj machine
  pub install :
      get operation "kind" ≡ str "install"
      → RefusedIf (NoSources r ⊎ Unreachable operation r) (posture_outcome c r ds)
  pub profile_install :
      get operation "kind" ≡ str "profile-install"
      → RefusedIf
          ((NoSources r ⊎ Unreachable operation r) ⊎ (NoPackages machine operation r ⊎ NullNames r))
          (posture_outcome c r ds)

refused_if :
    (P : Type 0) (b : Bool) (outcome : Result String)
    → outcome ≡ ok (if b then "refused" else "proceeds")
    → (b ≡ true) ↔ P
    → RefusedIf P outcome
refused_if P true outcome h e = (λ p. h, λ n. absurd (n (e.0 refl)))
refused_if P false outcome h e = (λ p. absurd (let q = e.1 p in ground arith), λ n. h)

install_test :
    (declared unreachable : Value) (r : Resolved)
    → must_refuse (str "install") declared unreachable r false ≡ (
        (is_hardened r && not (truthy r.allowed_sources.value))
        || (truthy unreachable && not (is_permissive r)))
install_test declared unreachable r = ground arith

profile_test :
    (declared unreachable : Value) (r : Resolved) (packages : Bool)
    → must_refuse (str "profile-install") declared unreachable r packages ≡ (
        ((is_hardened r && not (truthy r.allowed_sources.value))
          || (truthy unreachable && not (is_permissive r)))
        || ((packages && (is_hardened r && truthy declared))
            || (is_hardened r && r.passable_env_null_explicit)))
profile_test declared unreachable r packages = ground arith

lacks_install : (schema2 : Bool) → (schema2 && is_str (str "install") "profile-install") ≡ false
lacks_install schema2 = ground arith

outcome-Install :
    (c operation : Fields) (r : Resolved) (ds : List Value)
    → get c "operation" ≡ obj operation
    → is_install (get operation "kind") ≡ true
    → posture_outcome c r ds ≡ ok (if any is_error ds then "refused" else "proceeds")
unfolding posture_outcome
outcome-Install c operation r ds e k =
    ap (λ v. object_of v "TypeError" >>= outcome_of c r ds) e ∙ if-true _ _ k

schema2_of-Machine :
    (c : Fields) (b : Bool)
    → schema2_of c ≡ ok b
    → (machine : Fields) × (get c "machine" ≡ obj machine)
      × (is_two (get machine "schema_version") ≡ b)
schema2_of-Machine c b h =
    let (machine, e, h1) = >>=-eq-ok (object_of (get c "machine") "AttributeError") _ h in
    (machine, object_of-eq (get c "machine") _ machine e, ok-eq h1)

-- Where the diagnostics of an operation were derived, an operation of kind install is refused exactly
-- if the profile is hardened and no source is allowed, or if trusted registries are unreachable and
-- the profile is not the permissive one. One of kind profile-install is refused exactly in these cases
-- and if the profile is hardened and either a machine of schema 2 allows no packages for declared
-- servers or the passable names are an explicit null. Where they are not refused, both proceed.
pub posture_diagnostics-IsJudged :
    (c : Fields) (r : Resolved) (ds : List Value)
    → posture_diagnostics c r ≡ ok ds
    → IsJudged c r ds
unfolding posture_diagnostics
posture_diagnostics-IsJudged c r ds h =
    let (operation, o, h1) = >>=-eq-ok (operation_of c) _ h in
    let (schema2, s, h2) = >>=-eq-ok (schema2_of c) _ h1 in
    let (_, h3) =
      >>-eq-ok (raise_if (not schema2 && truthy (get operation "mcp_declarations_present")) _) _
        h2 in
    let (packages, p, h4) = >>=-eq-ok (lacks_packages schema2 (get operation "kind") r) _ h3 in
    let (machine, m, two) = schema2_of-Machine c schema2 s in
    let kind = get operation "kind" in
    let declared = get operation "mcp_declarations_present" in
    let unreachable = get operation "unreachable_trusted_registries" in
    let e = operation_of-Case c operation o in
    let refused : any is_error ds ≡ must_refuse kind declared unreachable r packages =
      sym (ap (any is_error) (ok-eq h4)) ∙ found_of-Refused operation r packages in
    record {
      operation = operation;
      machine = machine;
      is_operation = e;
      is_machine = m;
      install = λ k.
          let none_lacking : false ≡ packages = ok-eq (
            sym (if-false _ _ (lacks_install schema2))
            ∙ ap (λ v. lacks_packages schema2 v r) (sym k)
            ∙ p) in
          refused_if _ (any is_error ds) _ (outcome-Install c operation r ds e (ap is_install k)) (
            transport
              (ap (λ b. (b ≡ true) ↔ (NoSources r ⊎ Unreachable operation r))
                (sym (
                  refused
                  ∙ ap (λ v. must_refuse v declared unreachable r packages) k
                  ∙ ap (must_refuse (str "install") declared unreachable r) (sym none_lacking)
                  ∙ install_test declared unreachable r)))
              (or_iff _ _ _ _ (sources_iff r) (unreachable_iff operation r)));
      profile_install = λ k.
          let lacking = lacks_packages_iff machine operation r packages (
            ap (λ b. lacks_packages b (str "profile-install") r) two
            ∙ ap (λ v. lacks_packages schema2 v r) (sym k)
            ∙ p) in
          refused_if _ (any is_error ds) _ (outcome-Install c operation r ds e (ap is_install k)) (
            transport
              (ap
                (λ b. (b ≡ true) ↔ (
                  (NoSources r ⊎ Unreachable operation r)
                  ⊎ (NoPackages machine operation r ⊎ NullNames r)))
                (sym (
                  refused
                  ∙ ap (λ v. must_refuse v declared unreachable r packages) k
                  ∙ profile_test declared unreachable r packages)))
              (or_iff _ _ _ _ (or_iff _ _ _ _ (sources_iff r) (unreachable_iff operation r))
                (or_iff _ _ _ _ lacking (names_iff r))));
    }
