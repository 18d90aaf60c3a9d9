-- ===== src/Posture/Locked.antt =====
-- What a lock of the system decides in a posture of tools/validate.py.
use curator_spec.Prelude.{
  >>-eq-ok, >>=-eq-ok, Bool, Bool-cases, List, String, [], ap, arith, false, if-false, if-true, inl,
  inr, not, ok, ok-eq, raise_if, raise_if-eq-ok, some, sym, true, ◌∙◌, ◌∷◌, ◌≡◌,
}
use curator_spec.Json.{one_of, Fields, get, is_in, is_str, is_str-eq, arr, no_items}
use curator_spec.Cases.{name_text}
use curator_spec.Posture.{
  object_of, posture_defaults, EnvironmentSettings, Resolved, has_key, object_at, is_list,
}
use curator_spec.Posture.Resolve.{
  shipped_of, locks_of, machine_of, posture_settings, posture_resolve, posture_inputs, Inputs,
  is_schema2, is_softened, resolve, posture_profile, environments_part,
}
use curator_spec.Posture.Locks.{locked_by, resolve-Locked, AreLocked, environments_part-AreLocked}

-- What the locks of a case decide: the posture is the hardened one, and a locked value is the
-- system's, with its source. A case of schema 1 has no locked posture and no environments.
pub record IsLocked (i : Inputs) (r : Resolved) : Type 0 where
  pub posture :
      is_schema2 i ≡ true
      → is_in "security_posture" i.locked ≡ true
      → (r.profile ≡ "hardened") × (r.profile_source ≡ "lock")
  pub audit :
      is_in "audit" i.locked ≡ true
      → (system : Fields) × (object_at i.system "audit" "audit member is not an object" ≡ ok system)
        × (r.audit_mode ≡ locked_by system "mode")
        × (r.audit_registry_policy ≡ locked_by system "registry_policy")
  pub sources :
      is_in "allowed_sources" i.locked ≡ true
      → r.allowed_sources ≡ locked_by i.system "allowed_sources"
  pub environments :
      (e : EnvironmentSettings)
      → r.environments ≡ some e
      → (system : Fields) × (object_at i.system "environments"
            "environments member is not an object"
          ≡ ok system)
        × AreLocked i.locked system e

posture_profile-Locked :
    (schema2 : Bool) (locked : List String) (machine system : Fields) (revision : String)
    (p : String × String)
    → is_softened system ≡ false
    → schema2 ≡ true
    → is_in "security_posture" locked ≡ true
    → posture_profile schema2 locked machine system revision ≡ ok p
    → p ≡ ("hardened", "lock")
unfolding posture_profile
posture_profile-Locked schema2 locked machine system revision p f two l h =
    let h1 = sym (if-true _ _ l) ∙ sym (if-false _ _ (ap not two)) ∙ h in
    elim (Bool-cases (has_key system "security_posture")) [
      | inr e ↦ absurd (let g = sym (if-true _ _ (ap not e)) ∙ h1 in cc)
      | inl e ↦
          let t : is_str (get system "security_posture") "hardened" ≡ true = ground arith in
          sym (ok-eq (sym (if-false _ _ (ap not e)) ∙ h1))
          ∙ ap (λ v. (name_text v, "lock")) (is_str-eq (get system "security_posture") "hardened" t)
    ]

posture_settings-IsLocked :
    (i : Inputs) (r : Resolved)
    → is_softened i.system ≡ false
    → posture_settings i ≡ ok r
    → IsLocked i r
unfolding posture_settings
posture_settings-IsLocked i r f h =
    let (profile, p, h1) =
      >>=-eq-ok (posture_profile (is_schema2 i) i.locked i.machine i.system i.revision) _ h in
    let (machine_audit, _, h2) =
      >>=-eq-ok (object_at i.machine "audit" "audit member is not an object") _ h1 in
    let (system_audit, a, h3) =
      >>=-eq-ok (object_at i.system "audit" "audit member is not an object") _ h2 in
    let defaults = posture_defaults profile.0 in
    let (mode, m, h4) =
      >>=-eq-ok
        (resolve i.locked "audit" machine_audit system_audit "mode" (get defaults "audit_mode")) _
        h3 in
    let (policy, n, h5) =
      >>=-eq-ok
        (resolve i.locked "audit" machine_audit system_audit "registry_policy"
          (get defaults "audit_registry_policy"))
        _ h4 in
    let (sources, s, h6) =
      >>=-eq-ok
        (resolve i.locked "allowed_sources" i.machine i.system "allowed_sources" (arr no_items)) _
        h5 in
    let (_, h7) = >>-eq-ok (raise_if (not (is_list sources.value)) _) _ h6 in
    let (environments, v, h8) =
      >>=-eq-ok
        (environments_part (is_schema2 i) i.locked i.machine i.system
          (get i.shipped "env_passthrough") defaults)
        _ h7 in
    let same = sym (ok-eq h8) in
    record {
      posture = λ two l.
          let q =
            posture_profile-Locked (is_schema2 i) i.locked i.machine i.system i.revision profile f
              two l p in
          (
            ap Resolved.profile same ∙ ap (λ x. x.0) q,
            ap Resolved.profile_source same ∙ ap (λ x. x.1) q,
          );
      audit = λ l. (
        system_audit,
        a,
        ap Resolved.audit_mode same
            ∙ resolve-Locked i.locked "audit" machine_audit system_audit "mode"
                (get defaults "audit_mode") mode l m,
        ap Resolved.audit_registry_policy same
            ∙ resolve-Locked i.locked "audit" machine_audit system_audit "registry_policy"
                (get defaults "audit_registry_policy") policy l n,
      );
      sources = λ l.
          ap Resolved.allowed_sources same
          ∙ resolve-Locked i.locked "allowed_sources" i.machine i.system "allowed_sources"
              (arr no_items) sources l s;
      environments = λ e g.
          environments_part-AreLocked (is_schema2 i) i.locked i.machine i.system
            (get i.shipped "env_passthrough") defaults environments e
            (sym (ap Resolved.environments same) ∙ g) v;
    }

inputs-Hardened : (c : Fields) (i : Inputs) → posture_inputs c ≡ ok i → is_softened i.system ≡ false
unfolding posture_inputs
inputs-Hardened c i h =
    let (_, h1) =
      >>-eq-ok (raise_if (not (one_of (get c "rollout_revision") ("A" ∷ "B" ∷ []))) _) _ h in
    let (machine, _, h2) = >>=-eq-ok (machine_of c) _ h1 in
    let (system, _, h3) = >>=-eq-ok (object_of (get c "system") "system is not an object") _ h2 in
    let (locked, _, h4) = >>=-eq-ok (locks_of system) _ h3 in
    let (f, h5) = >>-eq-ok (raise_if (is_softened system) _) _ h4 in
    let (shipped, _, h6) = >>=-eq-ok (shipped_of (get c "shipped_revisions")) _ h5 in
    sym (ap (λ j. is_softened (Inputs.system j)) (ok-eq h6)) ∙ raise_if-eq-ok _ _ f

-- A lock decides, whatever the machine says: where a posture was resolved, a locked posture is the
-- hardened one, a locked value is the one that the system states, and the source of each is the
-- lock. This holds of the posture on a machine of schema 2, of the two values that `audit` locks, of
-- the sources, and of the four settings of environments, each under its own lock.
pub posture_resolve-IsLocked :
    (c : Fields) (r : Resolved)
    → posture_resolve c ≡ ok r
    → (i : Inputs) × (posture_inputs c ≡ ok i) × IsLocked i r
unfolding posture_resolve
posture_resolve-IsLocked c r h =
    let (i, e, h1) = >>=-eq-ok (posture_inputs c) posture_settings h in
    (i, e, posture_settings-IsLocked i r (inputs-Hardened c i e) h1)
