-- ===== src/Posture/Inventory.antt =====
-- The gates that the status rows of tools/validate.py name.
use curator_spec.Prelude.{
  >>=-eq-ok, Bool, List, Option, String, [], ap, drop, false, map, none, ok, ok-eq, refl, some, sym,
  take, true, ◌++◌, ◌∙◌, ◌∷◌, ◌≡◌,
}
use mathlib.Core.Path.{transport}
use curator_spec.Json.{Fields, get}
use curator_spec.Posture.{Setting, EnvironmentSettings, Resolved, object_of, is_one}
use curator_spec.Posture.Rows.{
  length_of, Row, count_row, environments_rows, posture_status_rows, manager_rows, status_sections,
  status_gates, schema1_gates,
}

count_row-Gate : (gate : String) (s : Setting) (r : Row) → count_row gate s ≡ ok r → r.gate ≡ gate
count_row-Gate gate s r h =
    let (n, _, e) = >>=-eq-ok (length_of s.value) _ h in sym (ap Row.gate (ok-eq e))

abbrev gates : List Row → List String
gates = map Row.gate

-- The rows of a machine with environments, after those of the manager.
abbrev environment_gates : List String
environment_gates = drop 4 status_gates

environments_rows-Gates :
    (shipped : Fields) (o : Option EnvironmentSettings) (rows : List Row)
    → environments_rows shipped o ≡ ok rows
    → gates rows ≡ environment_gates
environments_rows-Gates shipped none rows h = absurd (cc)
environments_rows-Gates shipped (some e) rows h =
    let (packages, p, h1) =
      >>=-eq-ok (count_row "mcp-package-allowlist" e.mcp_package_allowlist) _ h in
    sym (ap gates (ok-eq h1))
    ∙ ap (λ g. take 8 environment_gates ++ g ∷ [])
        (count_row-Gate "mcp-package-allowlist" e.mcp_package_allowlist packages p)

-- the two inventories: the manager's alone, or the one that both commands carry
abbrev IsInventory : List Row → Option (List Row) → Type 0
IsInventory curator none = gates curator ≡ "security_posture" ∷ schema1_gates
IsInventory curator (some env) =
    (gates curator ≡ "security_posture" ∷ status_gates) × (env ≡ curator)

gates-append : (xs ys : List Row) → gates (xs ++ ys) ≡ gates xs ++ gates ys
gates-append [] ys = refl
gates-append (x ∷ xs) ys = ap (λ gs. x.gate ∷ gs) (gates-append xs ys)

status_sections-IsInventory :
    (schema1 : Bool) (shipped : Fields) (r : Resolved) (manager curator : List Row)
    (env : Option (List Row))
    → gates manager ≡ "security_posture" ∷ schema1_gates
    → status_sections schema1 shipped r manager ≡ ok (curator, env)
    → IsInventory curator env
status_sections-IsInventory true shipped r manager curator env g h =
    transport (ap (λ x. IsInventory x.0 x.1) (ok-eq h)) g
status_sections-IsInventory false shipped r manager curator env g h =
    let (rest, e, h1) = >>=-eq-ok (environments_rows shipped r.environments) _ h in
    transport (ap (λ x. IsInventory x.0 x.1) (ok-eq h1)) (
      gates-append manager rest
          ∙ ap (λ gs. gs ++ gates rest) g
          ∙ ap (λ gs. "security_posture" ∷ schema1_gates ++ gs)
              (environments_rows-Gates shipped r.environments rest e),
      refl,
    )

-- The rows of the status commands are the closed inventory in its order: the header and the four
-- gates of the manager where there is no section for environments, and otherwise the header and all
-- thirteen gates, the same rows in both commands.
posture_status_rows-IsInventory :
    (c : Fields) (r : Resolved) (curator : List Row) (env : Option (List Row))
    → posture_status_rows c r ≡ ok (curator, env)
    → IsInventory curator env
unfolding posture_status_rows
posture_status_rows-IsInventory c r curator env h =
    let (shipped, _, h1) = >>=-eq-ok (object_of (get c "shipped_revisions") "TypeError") _ h in
    let (sources, s, h2) = >>=-eq-ok (count_row "source-allowlist" r.allowed_sources) _ h1 in
    let (machine, _, h3) = >>=-eq-ok (object_of (get c "machine") "AttributeError") _ h2 in
    status_sections-IsInventory (is_one (get machine "schema_version")) shipped r
      (manager_rows shipped r sources) curator env
      (ap (λ g. take 4 ("security_posture" ∷ schema1_gates) ++ g ∷ [])
        (count_row-Gate "source-allowlist" r.allowed_sources sources s))
      h3
