-- ===== src/Posture/Conditions.antt =====
-- The conditions under which an install is refused by tools/validate.py, and their tests.
use curator_spec.Prelude.{
  Bool, Option, ap, arith, eq_iff, false, if◌then◌else◌, none, not, ok, ok-eq, refl, some, sym,
  true, ◌&&◌, ◌>>=◌, ◌↔◌, ◌∙◌, ◌≡◌, ◌≢◌,
}
use curator_spec.Json.{str, is_str, truthy, Fields, get}
use curator_spec.Json.Names.{str_ne}
use curator_spec.Posture.{Resolved, EnvironmentSettings, is_two}
use curator_spec.Posture.Diagnostics.{lacks_packages, allowlist_of, is_permissive, is_hardened}

-- The profile is hardened, and no source is allowed.
abbrev pub NoSources : Resolved → Type 0
NoSources r = (r.profile ≡ "hardened") × (truthy r.allowed_sources.value ≡ false)

-- Trusted registries are unreachable, and the profile is not the permissive one.
abbrev pub Unreachable : Fields → Resolved → Type 0
Unreachable operation r =
    (truthy (get operation "unreachable_trusted_registries") ≡ true) × (r.profile ≢ "permissive")

-- The profile is hardened, and the machine, of schema 2, allows no package, although the operation
-- has MCP declarations.
abbrev pub NoPackages : Fields → Fields → Resolved → Type 0
NoPackages machine operation r =
    (r.profile ≡ "hardened")
    × (is_two (get machine "schema_version") ≡ true)
    × (truthy (get operation "mcp_declarations_present") ≡ true)
    × ((e : EnvironmentSettings) × (r.environments ≡ some e)
        × (truthy e.mcp_package_allowlist.value ≡ false))

-- The profile is hardened, and the passable names are an explicit null.
abbrev pub NullNames : Resolved → Type 0
NullNames r = (r.profile ≡ "hardened") × (r.passable_env_null_explicit ≡ true)

-- the conditions as tests
pub sources_iff :
    (r : Resolved) → ((is_hardened r && not (truthy r.allowed_sources.value)) ≡ true) ↔ NoSources r
sources_iff r = (
  λ h. ((eq_iff r.profile "hardened").0 (ground arith), ground arith),
  λ (p, q). let e = (eq_iff r.profile "hardened").1 p in ground (arith, e, q),
)

pub names_iff :
    (r : Resolved) → ((is_hardened r && r.passable_env_null_explicit) ≡ true) ↔ NullNames r
names_iff r = (
  λ h. ((eq_iff r.profile "hardened").0 (ground arith), ground arith),
  λ (p, q). let e = (eq_iff r.profile "hardened").1 p in ground (arith, e, q),
)

pub unreachable_iff :
    (operation : Fields) (r : Resolved)
    → ((truthy (get operation "unreachable_trusted_registries") && not (is_permissive r)) ≡ true)
      ↔ Unreachable operation r
unreachable_iff operation r =
    let found = truthy (get operation "unreachable_trusted_registries") in
    (
      λ h. (
        ground arith,
        λ e. absurd (let q = (eq_iff r.profile "permissive").1 e in ground (arith, h, q)),
      ),
      λ (t, n). let e = str_ne r.profile "permissive" n in ground (arith, e, t),
    )

-- no package is allowed, by the settings that a machine of schema 2 has
lacking_iff :
    (schema2 : Bool) (o : Option EnvironmentSettings) (packages : Bool)
    → (if schema2 then (allowlist_of o >>= λ v. ok (not (truthy v))) else ok false) ≡ ok packages
    → (packages ≡ true) ↔ (
        (schema2 ≡ true)
        × (e : EnvironmentSettings) × (o ≡ some e)
        × (truthy e.mcp_package_allowlist.value ≡ false))
lacking_iff false o packages h =
    let q = ok-eq h in (λ e. absurd (ground arith), λ (e, _, _, _). absurd (ground arith))
lacking_iff true none packages h = absurd (cc)
lacking_iff true (some s) packages h =
    let q = ok-eq h in
    (
      λ e. (refl, s, refl, ground arith),
      λ (_, e, p, n).
          let m =
            ap (λ o. elim o [ none ↦ true | some x ↦ truthy x.mcp_package_allowlist.value ]) p in
          ground (arith, m, n, q),
    )

both_iff : (a b c : Bool) → ((a && (b && c)) ≡ true) ↔ ((a ≡ true) × (b ≡ true) × (c ≡ true))
both_iff a b c = (λ h. (ground arith, ground arith, ground arith), λ (x, y, z). ground arith)

pub lacks_packages_iff :
    (machine operation : Fields) (r : Resolved) (packages : Bool)
    → lacks_packages (is_two (get machine "schema_version")) (str "profile-install") r ≡ ok packages
    → ((packages && (is_hardened r && truthy (get operation "mcp_declarations_present"))) ≡ true)
      ↔ NoPackages machine operation r
lacks_packages_iff machine operation r packages h =
    let two = is_two (get machine "schema_version") in
    let declared = truthy (get operation "mcp_declarations_present") in
    let same : (two && is_str (str "profile-install") "profile-install") ≡ two = ground arith in
    let (f, g) = lacking_iff two r.environments packages (
      ap (λ b. if b then (allowlist_of r.environments >>= λ v. ok (not (truthy v))) else ok false)
        (sym same)
      ∙ h) in
    let (k, l) = both_iff packages (is_hardened r) declared in
    (
      λ t.
          let (x, y, z) = k t in
          let (a, s, b, d) = f x in ((eq_iff r.profile "hardened").0 y, a, z, (s, b, d)),
      λ (p, a, t, (s, b, d)). l (g (a, s, b, d), (eq_iff r.profile "hardened").1 p, t),
    )
