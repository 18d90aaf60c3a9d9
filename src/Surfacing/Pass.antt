-- ===== src/Surfacing/Pass.antt =====
-- s4_effective_passable and s4_expected_passthrough of tools/validate.py.

-- the knob passable_env_names: absent, an explicit null, or a list
use curator_spec.Cases.{Elem-any_eq, any_eq-Elem}
use curator_spec.Json.{is_in}
use curator_spec.Prelude.{
  Bool, Elem, List, Option, String, [], false, if-false, if◌then◌else◌, keep, keep-Elem, none, not,
  refl, some, str_eq, sym, true, ◌↔◌, ◌∙◌, ◌∷◌, ◌≡◌,
}

pub data Knob : Type 0 where
  absent : Knob
  explicit_null : Knob
  listed : List String → Knob

-- the names that may pass: all, or those of a list
pub data Passable : Type 0 where
  unbounded : Passable
  only : List String → Passable

abbrev pub is_warn : String → Bool
is_warn profile = str_eq profile "s4-warn"

unfoldable pub s4_effective_passable : Knob → String → Passable
s4_effective_passable absent profile = if is_warn profile then unbounded else only []
s4_effective_passable explicit_null profile = unbounded
s4_effective_passable (listed names) profile = only names

unfoldable pub passed : Passable → List String → List String
unfolding keep
passed unbounded requested = requested
passed (only names) requested = keep (λ n. is_in n names) requested

unfoldable pub dropped : Passable → List String → List String
unfolding keep
dropped unbounded requested = []
dropped (only names) requested = keep (λ n. not (is_in n names)) requested

abbrev pub unless_empty : List String → String → Option String
unless_empty [] s = none
unless_empty (n ∷ ns) s = some s

abbrev warning : Knob → List String → Option String
warning absent names = unless_empty names "mcp_env_passthrough_unlisted"
warning _ names = none

-- the names that pass, the names that are dropped, and the diagnostic
unfoldable pub s4_expected_passthrough :
    Knob → String → List String → List String × List String × Option String
unfolding s4_effective_passable passed dropped
s4_expected_passthrough knob profile requested =
    let effective = s4_effective_passable knob profile in
    (
      passed effective requested,
      dropped effective requested,
      if is_warn profile
          then warning knob (passed effective requested)
          else unless_empty (dropped effective requested) "mcp_env_passthrough_dropped",
    )

-- the names that a knob lets pass when it is enforced
abbrev pub Allows : Knob → String → Type 0
Allows absent n = ⊥
Allows explicit_null n = Unit
Allows (listed names) n = Elem n names

none_of : {A : Type 0} {B : Type 0} → A ↔ (B × (false ≡ true)) → A → ⊥
none_of k a = let e = (k.0 a).1 in cc

silent : (names : List String) (s : String) → unless_empty names s ≡ none → names ≡ []
silent [] s h = refl
silent (n ∷ ns) s h = cc

passed-Allows :
    (knob : Knob) (profile : String) (requested : List String) (n : String)
    → is_warn profile ≡ false
    → Elem n (passed (s4_effective_passable knob profile) requested)
      ↔ (Elem n requested × Allows knob n)
unfolding passed s4_effective_passable
passed-Allows absent profile requested n h =
    rw h (λ m. absurd (none_of (keep-Elem (λ n. is_in n []) n requested) m), λ p. absurd p.1)
passed-Allows explicit_null profile requested n h = (λ m. (m, tt), λ p. p.0)
passed-Allows (listed names) profile requested n h =
    let k = keep-Elem (λ n. is_in n names) n requested in
    (λ m. ((k.0 m).0, any_eq-Elem n names (k.0 m).1), λ p. k.1 (p.0, Elem-any_eq n names p.1))

-- Under a profile other than s4-warn, the names that pass are the requested ones that the knob
-- allows, none if it is absent, and without a diagnostic no name is dropped.
pub s4_expected_passthrough-Allows :
    (knob : Knob) (profile : String) (requested : List String) (n : String)
    → is_warn profile ≡ false
    → (Elem n (s4_expected_passthrough knob profile requested).0
        ↔ (Elem n requested × Allows knob n))
      × ((s4_expected_passthrough knob profile requested).2 ≡ none
          → (s4_expected_passthrough knob profile requested).1 ≡ [])
unfolding s4_expected_passthrough
s4_expected_passthrough-Allows knob profile requested n h = (
  passed-Allows knob profile requested n h,
  λ e. silent _ "mcp_env_passthrough_dropped" (sym (if-false _ _ h) ∙ e),
)
