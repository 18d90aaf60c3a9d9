-- ===== src/Posture/Rows.antt =====
-- The rows of the status commands, `_posture_status_rows` of tools/validate.py.
use curator_spec.Prelude.{
  Bool, List, Option, Result, String, [], err, false, if◌then◌else◌, length, none, ok, pos, some,
  true, ℕ, ◌++◌, ◌>>=◌, ◌∷◌,
}
use curator_spec.Json.{Value, Fields, int, str, arr, obj, bare, member, get, values, truthy}
use curator_spec.Posture.{Setting, EnvironmentSettings, Resolved, object_of, is_one}

abbrev pub status_gates : List String
status_gates =
    "hook-trust" ∷ "registry-policy" ∷ "audit-mode" ∷ "source-allowlist" ∷ "env-passthrough"
    ∷ "transitive-system-modules" ∷ "provider-trust-roots" ∷ "source-signers"
    ∷ "update-confirmation" ∷ "codex-seed" ∷ "store-boundary" ∷ "write-discipline"
    ∷ "mcp-package-allowlist" ∷ []

abbrev pub schema1_gates : List String
schema1_gates = "hook-trust" ∷ "registry-policy" ∷ "audit-mode" ∷ "source-allowlist" ∷ []

pub record Row : Type 0 where
  pub gate : String
  pub value : Value
  pub source : String

abbrev pub row : String → Value → String → Row
row gate value source = record { gate = gate; value = value; source = source }

abbrev pub row_dict : Row → Value
row_dict r =
    obj (member "gate" (str r.gate) (member "value" r.value (member "source" (str r.source) bare)))

abbrev pub set_row : String → Setting → Row
set_row gate s = row gate s.value s.source

abbrev pub shipped_row : Fields → String → String → Row
shipped_row shipped gate key = row gate (get shipped key) "shipped"

-- `len(v)` of a list
abbrev pub length_of : Value → Result ℕ
length_of (arr items) = ok (length (values items))
length_of _ = err "TypeError"

abbrev pub count_row : String → Setting → Result Row
count_row gate s = do n ← length_of s.value; ok (row gate (int (pos n)) s.source)

abbrev pub environments_rows : Fields → Option EnvironmentSettings → Result (List Row)
environments_rows shipped none = err "KeyError"
environments_rows shipped (some e) = do
  packages ← count_row "mcp-package-allowlist" e.mcp_package_allowlist
  ok (
      shipped_row shipped "env-passthrough" "env_passthrough"
      ∷ set_row "transitive-system-modules" e.transitive_system_modules
      ∷ shipped_row shipped "provider-trust-roots" "provider_trust_roots"
      ∷ row "source-signers"
          (str (if truthy e.require_source_signers.value then "true" else "false"))
          e.require_source_signers.source
      ∷ shipped_row shipped "update-confirmation" "update_confirmation"
      ∷ shipped_row shipped "codex-seed" "codex_seed"
      ∷ row "store-boundary" (str "enforced") "shipped"
      ∷ row "write-discipline" (str "enforced") "shipped"
      ∷ packages
      ∷ [])

abbrev pub manager_rows : Fields → Resolved → Row → List Row
manager_rows shipped r sources =
    row "security_posture" (str r.profile) r.profile_source
    ∷ shipped_row shipped "hook-trust" "hook_trust"
    ∷ set_row "registry-policy" r.audit_registry_policy
    ∷ set_row "audit-mode" r.audit_mode
    ∷ sources
    ∷ []

abbrev pub status_sections :
    Bool → Fields → Resolved → List Row → Result (List Row × Option (List Row))
status_sections true shipped r manager = ok (manager, none)
status_sections false shipped r manager = do
  rest ← environments_rows shipped r.environments
  ok (manager ++ rest, some (manager ++ rest))

-- the rows of `curator status`, and of `env status` if there is such a section
unfoldable pub posture_status_rows : Fields → Resolved → Result (List Row × Option (List Row))
unfolding get
posture_status_rows c r = do
  shipped ← object_of (get c "shipped_revisions") "TypeError"
  sources ← count_row "source-allowlist" r.allowed_sources
  machine ← object_of (get c "machine") "AttributeError"
  status_sections (is_one (get machine "schema_version")) shipped r (manager_rows shipped r sources)
