-- ===== src/Resolution.antt =====
-- The data of resolve_closure of tools/validate.py: the input, the constraints and the selections.
-- An exception is the `err` of its diagnostic, or of its class where it has none.
pub mod Candidates
pub mod Select
pub mod Loop
pub mod Highest
pub mod Satisfied
pub mod Members
use curator_spec.Prelude.{
  List, Option, Result, String, [], err, if◌then◌else◌, none, ok, some, str_eq, ℤ, ◌∷◌,
}
use curator_spec.Text.{Text}
use curator_spec.SemVer.{Version}

-- `_requirement_form`: the forms in the order in which the source looks for them
pub data Form : Type 0 where
  range : Text → Form
  tag : String → Form
  revision : String → Form
  path : Form

pub record Requirement : Type 0 where
  pub name : String
  pub kind : String
  pub form : Form
  pub weight : Option ℤ
  pub directory : Option String

pub record Manifest : Type 0 where
  pub version : Text
  pub weight : Option ℤ
  pub weights : List (String × ℤ)
  pub requires : List Requirement

-- an overlay; `local` is its `path` member, with the manifest and the state
pub record Overlay : Type 0 where
  pub name : String
  pub form : Form
  pub weight : Option ℤ
  pub directory : Option String
  pub local : Option (Manifest × String)

-- a package: its tags, and the manifests of the commits that have one
pub record Package : Type 0 where
  pub source : String
  pub tags : List (String × String)
  pub commits : List (String × Manifest)

pub record Input : Type 0 where
  pub install : Requirement
  pub packages : List (String × Package)
  pub overlays : List Overlay
  pub overlay_default_weight : Option ℤ

pub record Constraint : Type 0 where
  pub name : String
  pub kind : String
  pub requirer : Text
  pub requirer_of : String
  pub form : Form
  pub weight : Option ℤ
  pub directory : Option String
  pub overlay : Option Overlay

pub record Selection : Type 0 where
  pub kind : String
  pub version : Option Version
  pub commit : Option String
  pub state : Option String
  pub source : Option String
  pub directory : Option String
  pub manifest : Option Manifest
  pub overlay : Option Overlay

pub record Resolver : Type 0 where
  pub constraints : List Constraint
  pub selected : List (String × Selection)
  pub ceiling : List (String × Version)
  pub pending : List String

-- a dict: `d.get(key)`, `d[key] = value` and `d.pop(key, None)`
unfoldable pub find {ℓ} : {A : Type ℓ} → String → List (String × A) → Option A
find key [] = none
find key ((k, a) ∷ d) = if str_eq k key then some a else find key d

unfoldable pub remove_key {ℓ} : {A : Type ℓ} → String → List (String × A) → List (String × A)
remove_key key [] = []
remove_key key ((k, a) ∷ d) =
    let rest = remove_key key d in if str_eq k key then rest else (k, a) ∷ rest

unfoldable pub put {ℓ} : {A : Type ℓ} → String → A → List (String × A) → List (String × A)
unfolding remove_key
put key a d = (key, a) ∷ remove_key key d

-- `d[key]`
unfoldable pub index {ℓ} : {A : Type ℓ} → String → List (String × A) → Result A
unfolding find
index key d = elim (find key d) [ none ↦ err "KeyError" | some a ↦ ok a ]
