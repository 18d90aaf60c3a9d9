-- ===== src/Tests/EnvironmentRuns.antt =====
-- A lock of two contexts and a skill, and a quoted text.
use curator_spec.Prelude.{
  Elem, List, String, [], arith, false, if◌then◌else◌, inl, inr, none, ok, pos, refl, some, str_eq,
  ℕ, ℤ, ◌++◌, ◌<◌, ◌∷◌, ◌≡◌,
}
use mathlib.Core.Path.{transport}
use curator_spec.Resolution.Members.{Member}
use curator_spec.Json.{Value, obj, str, member, bare}
use curator_spec.Text.{codes}
use curator_spec.Environment.Order.{
  contexts_from, Lock, environment_emitted_order, environment_precedence, names_of, contexts_of,
  requires_of,
}
use curator_spec.Environment.Emitted.{
  IsPrecedence, IsEmittedOrder, environment_emitted_order-IsEmittedOrder, emitted_order_returns,
}
use curator_spec.Environment.Modules.{PackageModule, Admission, environment_system_prompt_admission}
use curator_spec.Environment.Admission.{IsDivided, environment_system_prompt_admission-IsDivided}
use curator_spec.Environment.Toml.{toml_basic_string}
use curator_spec.Environment.TomlReader.{read_quoted, read_quoted-toml_basic_string}

abbrev make : String → String → ℤ → List String → Member
make kind name weight required_by = record {
  kind = kind;
  name = name;
  weight = weight;
  required_by = required_by;
  overlay = false;
  state_sha256 = none;
  source = none;
  commit = some "c1";
  directory = none;
  version = none;
}

abbrev base : Member
base = make "context" "base" (pos 3) []

abbrev style : Member
style = make "context" "style" (pos 7) ("base" ∷ [])

abbrev tools : Member
tools = make "skill" "tools" (pos 0) ("base" ∷ [])

abbrev lock : Lock
lock = record { root = "base"; members = base ∷ style ∷ tools ∷ [] }

abbrev precedence : Value
precedence =
    obj (member "winner" (str "higher-weight") (member "placement" (str "winner-last") bare))

emits_upwards : environment_emitted_order lock precedence ≡ ok (base ∷ style ∷ [])
unfolding environment_emitted_order
emits_upwards = refl

reads_precedence : environment_precedence precedence ≡ ok ("higher-weight", "winner-last")
unfolding environment_precedence
reads_precedence = refl

environment_emitted_order-IsEmittedOrder_example :
    (winner : String) × (placement : String) × IsPrecedence precedence winner placement
    × IsEmittedOrder lock winner placement (base ∷ style ∷ [])
environment_emitted_order-IsEmittedOrder_example =
    environment_emitted_order-IsEmittedOrder lock precedence (base ∷ style ∷ []) emits_upwards

abbrev rank : String → ℕ
rank n = if str_eq n "base" then 1 else 0

needs_base : requires_of (contexts_of lock) "base" ≡ "style" ∷ []
unfolding requires_of contexts_from
needs_base = refl

needs_style : requires_of (contexts_of lock) "style" ≡ []
unfolding requires_of contexts_from
needs_style = refl

two_contexts : names_of (contexts_of lock) ≡ "base" ∷ "style" ∷ []
unfolding contexts_from
two_contexts = refl

is_ranked :
    (n q : String)
    → Elem n (names_of (contexts_of lock))
    → Elem q (requires_of (contexts_of lock) n)
    → rank q < rank n
is_ranked n q named required = elim (transport (λ i. Elem n (two_contexts i)) named) [
  | inl e ↦
      let r : Elem q ("style" ∷ []) =
        transport (λ i. Elem q (needs_base i))
          (transport (λ i. Elem q (requires_of (contexts_of lock) (e i))) required) in
      elim r [ inl f ↦ rw (e, f) (omega arith) | inr g ↦ absurd g ]
  | inr (inl e) ↦ absurd (
      transport (λ i. Elem q (needs_style i))
        (transport (λ i. Elem q (requires_of (contexts_of lock) (e i))) required))
  | inr (inr g) ↦ absurd g
]

emitted_order_returns_example :
    (ms : List Member) × (environment_emitted_order lock precedence ≡ ok ms)
emitted_order_returns_example =
    emitted_order_returns lock precedence "higher-weight" "winner-last" rank reads_precedence
      is_ranked

read_quoted-toml_basic_string_example :
    read_quoted 6 (toml_basic_string (codes "a\"\\\n~") ++ codes " = 1")
    ≡ some (codes "a\"\\\n~", codes " = 1")
read_quoted-toml_basic_string_example =
    read_quoted-toml_basic_string (codes "a\"\\\n~") (codes " = 1")

abbrev system_module : String → PackageModule
system_module path = record { module_class = "system"; environments = none; path = path }

abbrev packages : List (String × List PackageModule)
packages =
    ("base", system_module "base.md" ∷ [])
    ∷ ("far", system_module "far.md" ∷ [])
    ∷ ("style", [])
    ∷ []

abbrev far : Member
far = make "context" "far" (pos 9) ("style" ∷ [])

abbrev deep_lock : Lock
deep_lock = record { root = "base"; members = base ∷ style ∷ far ∷ [] }

abbrev admission : Admission
admission = record {
  mode = "drop";
  admitted = ("base", "base.md") ∷ [];
  dropped = ("far", "far.md") ∷ [];
}

drops_far_module :
    environment_system_prompt_admission packages "pi" deep_lock precedence bare ≡ ok admission
unfolding environment_system_prompt_admission environment_emitted_order
drops_far_module = refl

environment_system_prompt_admission-IsDivided_example :
    IsDivided packages "pi" deep_lock precedence bare admission
environment_system_prompt_admission-IsDivided_example =
    environment_system_prompt_admission-IsDivided packages "pi" deep_lock precedence bare admission
      drops_far_module
