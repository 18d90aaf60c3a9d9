-- ===== src/Posture/Locks.antt =====
-- The settings of a posture that a lock decides, of tools/validate.py.
use curator_spec.Prelude.{
  >>-eq-ok, >>=-eq-ok, Bool, Bool-cases, List, Option, String, ap, false, if-false, if-true,
  if◌then◌else◌, inl, inr, not, ok, ok-eq, raise_if, some, sym, true, ◌&&◌, ◌∙◌, ◌≡◌,
}
use curator_spec.Json.{is_null, Value, Fields, get, is_in, is_str, arr, no_items, null}
use curator_spec.Posture.{Setting, EnvironmentSettings, has_key, object_at, is_list}
use curator_spec.Posture.Resolve.{resolve, environments_part, environment_settings}

-- the value that the system locks
abbrev pub locked_by : Fields → String → Setting
locked_by system key = record { value = get system key; source = "lock" }

some-eq : {A : Type 0} {a b : A} → some a ≡ some b → a ≡ b
some-eq h = cc

pub resolve-Locked :
    (locked : List String) (lock_key : String) (machine system : Fields) (key : String)
    (default : Value) (s : Setting)
    → is_in lock_key locked ≡ true
    → resolve locked lock_key machine system key default ≡ ok s
    → s ≡ locked_by system key
unfolding resolve
resolve-Locked locked lock_key machine system key default s h e =
    let e' = sym (if-true _ _ h) ∙ e in
    elim (Bool-cases (has_key system key)) [
      | inl f ↦ ok-eq (sym e' ∙ if-false _ _ (ap not f))
      | inr f ↦ absurd (let g = sym e' ∙ if-true _ _ (ap not f) in cc)
    ]

-- the locked settings of environments, where this is what the system says of them
pub record AreLocked (locked : List String) (system : Fields) (e : EnvironmentSettings)
    : Type 0 where
  pub packages :
      is_in "environments.mcp_package_allowlist" locked ≡ true
      → e.mcp_package_allowlist ≡ locked_by system "mcp_package_allowlist"
  pub names :
      is_in "environments.passable_env_names" locked ≡ true
      → e.passable_env_names ≡ locked_by system "passable_env_names"
  pub modules :
      is_in "environments.transitive_system_modules" locked ≡ true
      → e.transitive_system_modules ≡ locked_by system "transitive_system_modules"
  pub signers :
      is_in "environments.require_source_signers" locked ≡ true
      → e.require_source_signers ≡ locked_by system "require_source_signers"

environment_settings-AreLocked :
    (locked : List String) (machine system : Fields) (passthrough : Value) (defaults : Fields)
    (e : EnvironmentSettings)
    → environment_settings locked machine system passthrough defaults ≡ ok e
    → AreLocked locked system e
environment_settings-AreLocked locked machine system passthrough defaults e h =
    let passing = if is_str passthrough "s4-enforce" then arr no_items else null in
    let (packages, p, h1) =
      >>=-eq-ok
        (resolve locked "environments.mcp_package_allowlist" machine system "mcp_package_allowlist"
          (arr no_items))
        _ h in
    let (_, h2) = >>-eq-ok (raise_if (not (is_list packages.value)) _) _ h1 in
    let (names, n, h3) =
      >>=-eq-ok
        (resolve locked "environments.passable_env_names" machine system "passable_env_names"
          passing)
        _ h2 in
    let (_, h4) =
      >>-eq-ok (raise_if (not (is_null names.value) && not (is_list names.value)) _) _ h3 in
    let (modules, m, h5) =
      >>=-eq-ok
        (resolve locked "environments.transitive_system_modules" machine system
          "transitive_system_modules" (get defaults "transitive_system_modules"))
        _ h4 in
    let (signers, g, h6) =
      >>=-eq-ok
        (resolve locked "environments.require_source_signers" machine system
          "require_source_signers" (get defaults "require_source_signers"))
        _ h5 in
    let same = sym (ok-eq h6) in
    record {
      packages = λ l.
          ap EnvironmentSettings.mcp_package_allowlist same
          ∙ resolve-Locked locked _ machine system _ _ packages l p;
      names = λ l.
          ap EnvironmentSettings.passable_env_names same
          ∙ resolve-Locked locked _ machine system _ _ names l n;
      modules = λ l.
          ap EnvironmentSettings.transitive_system_modules same
          ∙ resolve-Locked locked _ machine system _ _ modules l m;
      signers = λ l.
          ap EnvironmentSettings.require_source_signers same
          ∙ resolve-Locked locked _ machine system _ _ signers l g;
    }

pub environments_part-AreLocked :
    (schema2 : Bool) (locked : List String) (machine system : Fields) (passthrough : Value)
    (defaults : Fields) (o : Option EnvironmentSettings) (e : EnvironmentSettings)
    → o ≡ some e
    → environments_part schema2 locked machine system passthrough defaults ≡ ok o
    → (inner : Fields) × (object_at system "environments" "environments member is not an object"
        ≡ ok inner)
      × AreLocked locked inner e
environments_part-AreLocked false locked machine system passthrough defaults o e p h =
    absurd (let q = ok-eq h ∙ p in cc)
environments_part-AreLocked true locked machine system passthrough defaults o e p h =
    let (machine_env, _, h1) =
      >>=-eq-ok (object_at machine "environments" "environments member is not an object") _ h in
    let (inner, q, h2) =
      >>=-eq-ok (object_at system "environments" "environments member is not an object") _ h1 in
    let (settings, g, h3) =
      >>=-eq-ok (environment_settings locked machine_env inner passthrough defaults) _ h2 in
    (
      inner,
      q,
      environment_settings-AreLocked locked machine_env inner passthrough defaults e
          (g ∙ ap ok (some-eq (ok-eq h3 ∙ p))),
    )
