-- ===== src/Posture/Resolve.antt =====
-- The resolution of a posture, `_posture_resolve` of tools/validate.py: a lock, then an explicit value
-- of the machine, then the default of the profile.
use curator_spec.Prelude.{
  Bool, List, Option, Result, String, [], all, err, false, if◌then◌else◌, none, not, ok, raise_if,
  some, true, ◌&&◌, ◌>>=◌, ◌>>◌, ◌||◌, ◌∷◌,
}
use curator_spec.Json.{
  Value, Fields, null, str, arr, no_items, get, values, is_str, is_null, is_in, one_of, has_exactly,
}
use curator_spec.Cases.{name_text}
use curator_spec.Posture.{
  Setting, EnvironmentSettings, Resolved, has_key, object_of, object_at, is_list, is_one, is_two,
  revision_default, posture_defaults,
}

abbrev pub known_locks : List String
known_locks =
    "audit" ∷ "allowed_sources" ∷ "security_posture" ∷ "environments.mcp_package_allowlist"
    ∷ "environments.passable_env_names" ∷ "environments.transitive_system_modules"
    ∷ "environments.require_source_signers" ∷ []

-- the texts of a list that holds nothing else
abbrev texts_of : List Value → Result (List String)
texts_of [] = ok []
texts_of (str s ∷ vs) = do ss ← texts_of vs; ok (s ∷ ss)
texts_of (_ ∷ vs) = err "system locked is not a string list"

abbrev locks_in : Value → Result (List String)
locks_in (arr items) = texts_of (values items)
locks_in _ = err "system locked is not a string list"

-- `system.get("locked", [])`, checked
abbrev pub locks_of : Fields → Result (List String)
locks_of system = do
  locked ← (if has_key system "locked" then locks_in (get system "locked") else ok [])
  raise_if (not (all (λ k. is_in k known_locks) locked)) "system locks an unknown key"
  ok locked

abbrev pub machine_of : Fields → Result Fields
machine_of c = do
  machine ← object_of (get c "machine") "machine names no known schema_version"
  raise_if (not (is_one (get machine "schema_version") || is_two (get machine "schema_version")))
      "machine names no known schema_version"
  raise_if (not (is_two (get machine "schema_version")) && has_key machine "security_posture")
      "schema-1 machine carries a posture knob"
  raise_if
      (has_key machine "security_posture"
        && not (one_of (get machine "security_posture") ("permissive" ∷ "hardened" ∷ [])))
      "machine posture is not a closed value"
  ok machine

abbrev pub shipped_of : Value → Result Fields
shipped_of v = do
  shipped ← object_of v "shipped revisions are not the closed five-gate set"
  raise_if
      (not (
        has_exactly shipped (
          "hook_trust" ∷ "env_passthrough" ∷ "provider_trust_roots" ∷ "update_confirmation"
          ∷ "codex_seed" ∷ [])))
      "shipped revisions are not the closed five-gate set"
  raise_if (not (one_of (get shipped "hook_trust") ("A-warning" ∷ "B-enforcing" ∷ [])))
      "hook-trust revision is not closed"
  raise_if (not (one_of (get shipped "env_passthrough") ("s4-warn" ∷ "s4-enforce" ∷ [])))
      "passthrough profile is not closed"
  raise_if (not (one_of (get shipped "provider_trust_roots") ("revision-A" ∷ "revision-B" ∷ [])))
      "provider-trust-roots revision is not closed"
  raise_if (not (one_of (get shipped "update_confirmation") ("A-warning" ∷ "B-flip" ∷ [])))
      "update-confirmation revision is not closed"
  raise_if (not (one_of (get shipped "codex_seed") ("A" ∷ "B" ∷ [])))
      "codex-seed revision is not closed"
  ok shipped

-- the profile and its source
unfoldable pub posture_profile :
    Bool → List String → Fields → Fields → String → Result (String × String)
unfolding get
posture_profile schema2 locked machine system revision =
    if not schema2
    then ok ("permissive", "profile")
    else if is_in "security_posture" locked
    then (if not (has_key system "security_posture")
        then err "locks security_posture without a system value"
        else ok (name_text (get system "security_posture"), "lock"))
    else if has_key machine "security_posture"
    then ok (name_text (get machine "security_posture"), "explicit")
    else ok (revision_default revision, "profile")

-- one value: its lock, the dicts of the machine and of the system, its key there, its default
unfoldable pub resolve : List String → String → Fields → Fields → String → Value → Result Setting
unfolding get
resolve locked lock_key machine system key default =
    if is_in lock_key locked
    then (if not (has_key system key)
        then err "locks a key without a system value"
        else ok (record { value = get system key; source = "lock" }))
    else if has_key machine key
    then ok (record { value = get machine key; source = "explicit" })
    else ok (record { value = default; source = "profile" })

abbrev pub environment_settings :
    List String → Fields → Fields → Value → Fields → Result EnvironmentSettings
environment_settings locked machine system passthrough defaults = do
  allowlist ←
      resolve locked "environments.mcp_package_allowlist" machine system "mcp_package_allowlist"
        (arr no_items)
  raise_if (not (is_list allowlist.value)) "effective mcp_package_allowlist is not a list"
  names ←
      resolve locked "environments.passable_env_names" machine system "passable_env_names"
        (if is_str passthrough "s4-enforce" then arr no_items else null)
  raise_if (not (is_null names.value) && not (is_list names.value))
      "effective passable_env_names is not a list or null"
  modules ←
      resolve locked "environments.transitive_system_modules" machine system
        "transitive_system_modules" (get defaults "transitive_system_modules")
  signers ←
      resolve locked "environments.require_source_signers" machine system "require_source_signers"
        (get defaults "require_source_signers")
  ok (record {
    mcp_package_allowlist = allowlist;
    passable_env_names = names;
    transitive_system_modules = modules;
    require_source_signers = signers;
  })

abbrev pub environments_part :
    Bool → List String → Fields → Fields → Value → Fields → Result (Option EnvironmentSettings)
environments_part false locked machine system passthrough defaults = ok none
environments_part true locked machine system passthrough defaults = do
  machine_env ← object_at machine "environments" "environments member is not an object"
  system_env ← object_at system "environments" "environments member is not an object"
  settings ← environment_settings locked machine_env system_env passthrough defaults
  ok (some settings)

-- a null that someone wrote, as against one that nobody did
abbrev pub null_explicit : Option EnvironmentSettings → Bool
null_explicit none = false
null_explicit (some e) =
    is_null e.passable_env_names.value
    && is_in e.passable_env_names.source ("explicit" ∷ "lock" ∷ [])

-- the members of a case that the resolution reads, checked
pub record Inputs : Type 0 where
  pub revision : String
  pub machine : Fields
  pub system : Fields
  pub locked : List String
  pub shipped : Fields

-- `"security_posture" in system and system["security_posture"] != "hardened"`
abbrev pub is_softened : Fields → Bool
is_softened system =
    has_key system "security_posture" && not (is_str (get system "security_posture") "hardened")

unfoldable pub posture_inputs : Fields → Result Inputs
unfolding get
posture_inputs c = do
  raise_if (not (one_of (get c "rollout_revision") ("A" ∷ "B" ∷ [])))
      "names an unknown rollout revision"
  machine ← machine_of c
  system ← object_of (get c "system") "system is not an object"
  locked ← locks_of system
  raise_if (is_softened system) "system posture is not the hardened direction"
  shipped ← shipped_of (get c "shipped_revisions")
  ok (record {
    revision = name_text (get c "rollout_revision");
    machine = machine;
    system = system;
    locked = locked;
    shipped = shipped;
  })

abbrev pub is_schema2 : Inputs → Bool
is_schema2 i = is_two (get i.machine "schema_version")

unfoldable pub posture_settings : Inputs → Result Resolved
unfolding posture_profile resolve get
posture_settings i = do
  profile ← posture_profile (is_schema2 i) i.locked i.machine i.system i.revision
  machine_audit ← object_at i.machine "audit" "audit member is not an object"
  system_audit ← object_at i.system "audit" "audit member is not an object"
  mode ←
      resolve i.locked "audit" machine_audit system_audit "mode"
        (get (posture_defaults profile.0) "audit_mode")
  policy ←
      resolve i.locked "audit" machine_audit system_audit "registry_policy"
        (get (posture_defaults profile.0) "audit_registry_policy")
  sources ← resolve i.locked "allowed_sources" i.machine i.system "allowed_sources" (arr no_items)
  raise_if (not (is_list sources.value)) "effective allowed_sources is not a list"
  environments ←
      environments_part (is_schema2 i) i.locked i.machine i.system (get i.shipped "env_passthrough")
        (posture_defaults profile.0)
  ok (record {
    profile = profile.0;
    profile_source = profile.1;
    audit_mode = mode;
    audit_registry_policy = policy;
    allowed_sources = sources;
    environments = environments;
    passable_env_null_explicit = null_explicit environments;
  })

unfoldable pub posture_resolve : Fields → Result Resolved
unfolding posture_inputs posture_settings
posture_resolve c = do i ← posture_inputs c; posture_settings i
