-- ===== src/Resolution/Members.antt =====
-- The second half of resolve_closure: the weights and the members of the lock.
use curator_spec.Prelude.{
  Bool, Check, List, Option, Ordering, Result, String, [], any, err, false, for_each, if◌then◌else◌,
  map, none, not, ok, pos, raise_if, same_int, some, sorted, str_eq, true, unique, ℕ, ℤ, ◌&&◌,
  ◌>>=◌, ◌>>◌, ◌||◌, ◌∷◌,
}
use Prim.Native.String.{compare as compare_strings}
use curator_spec.Text.{Text}
use curator_spec.SemVer.{semver_text}
use curator_spec.Resolution.{
  Manifest, Overlay, Input, Constraint, Selection, Resolver, find, put, index,
}
use curator_spec.Resolution.Loop.{resolve_constraints}

abbrev pub is_context : Selection → Bool
is_context sel = str_eq sel.kind "context"

abbrev pub weights_of : Option Manifest → List (String × ℤ)
weights_of none = []
weights_of (some m) = m.weights

abbrev keys {ℓ} : {A : Type ℓ} → List (String × A) → List String
keys = map (λ p. p.0)

abbrev has_key {ℓ} : {A : Type ℓ} → String → List (String × A) → Bool
has_key key = any (λ p. str_eq p.0 key)

abbrev no_entries : List (String × ℤ) → Bool
no_entries [] = true
no_entries (p ∷ ps) = false

-- a selection of another context than the root has no weights
unfoldable pub check_not_root : Resolver → String → String → Check
unfolding index find
check_not_root st root name = index name st.selected >>= λ sel.
    raise_if
      (not (str_eq name root) && (is_context sel && not (no_entries (weights_of sel.manifest))))
      "context_weights_not_root"

-- the weights of the root and of its edges
unfoldable pub root_map_of :
    String → List (String × ℤ) → List Constraint → List (String × ℤ) → Result (List (String × ℤ))
unfolding put
root_map_of root root_weights [] root_map = ok root_map
root_map_of root root_weights (c ∷ cs) root_map = elim c.weight [
  | none ↦ root_map_of root root_weights cs root_map
  | some w ↦
      if not (str_eq c.requirer_of root)
      then root_map_of root root_weights cs root_map
      else if has_key c.name root_weights
      then err "context_weights_duplicate"
      else root_map_of root root_weights cs (put c.name w root_map)
]

unfoldable pub check_known : Resolver → String → Check
unfolding find
check_known st key = elim (find key st.selected) [
  | none ↦ err "context_weight_unknown"
  | some sel ↦ raise_if (not (is_context sel)) "context_weight_unknown"
]

-- the weights of the edges to a name that do not come from the root
unfoldable pub edge_weights : String → String → List Constraint → List ℤ
edge_weights root name [] = []
edge_weights root name (c ∷ cs) =
    let rest = edge_weights root name cs in
    elim c.weight [
      | none ↦ rest
      | some w ↦
          if str_eq c.name name && not (str_eq c.requirer_of "" || str_eq c.requirer_of root)
          then w ∷ rest
          else rest
    ]

-- a weight, and whether a warning of a conflict goes with it
unfoldable pub edge_weight : Bool → ℤ → List ℤ → Result (ℤ × Bool)
unfolding same_int
edge_weight in_root_map own [] = ok (own, false)
edge_weight in_root_map own (w ∷ ws) =
    if any (λ v. not (same_int v w)) ws
    then (if in_root_map then ok (own, true) else err "context_weight_conflict")
    else ok (w, false)

abbrev pub or_int : Option ℤ → ℤ → ℤ
or_int none d = d
or_int (some w) d = w

abbrev own_weight : Option Manifest → ℤ
own_weight none = pos 0
own_weight (some m) = or_int m.weight (pos 0)

-- the root's map wins over the edges, and an overlay over both
abbrev pub final_weight : ℤ → Option ℤ → Option Overlay → Option ℤ → ℤ
final_weight edge in_root none default = or_int in_root edge
final_weight edge in_root (some o) default = or_int o.weight (or_int default (pos 1000))

unfoldable pub weight_of :
    Input → String → List (String × ℤ) → Resolver → String → Selection → Result (ℤ × Bool)
unfolding edge_weight edge_weights find
weight_of inp root root_map st name sel = if not (is_context sel) then ok (pos 0, false) else do
  (edge, warned) ←
      edge_weight (has_key name root_map) (own_weight sel.manifest)
        (edge_weights root name st.constraints)
  ok (final_weight edge (find name root_map) sel.overlay inp.overlay_default_weight, warned)

-- a member of the lock; it has a state, or a source with a commit and a directory
pub record Member : Type 0 where
  pub kind : String
  pub name : String
  pub weight : ℤ
  pub required_by : List String
  pub overlay : Bool
  pub state_sha256 : Option String
  pub source : Option String
  pub commit : Option String
  pub directory : Option String
  pub version : Option Text

unfoldable pub requirers : String → List Constraint → List String
requirers name [] = []
requirers name (c ∷ cs) =
    let rest = requirers name cs in
    if str_eq c.name name && not (str_eq c.requirer_of "") then c.requirer_of ∷ rest else rest

-- `if sel["directory"]`: an empty text is left out
abbrev shown_directory : Option String → Option String
shown_directory none = none
shown_directory (some d) = if str_eq d "" then none else some d

abbrev unless_stated : Option String → Option String → Option String
unless_stated none v = v
unless_stated (some sha) v = none

unfoldable pub member_of : Resolver → String → Selection → ℤ → Member
unfolding requirers sorted unique semver_text
member_of st name sel weight = record {
  kind = sel.kind;
  name = name;
  weight = weight;
  required_by = sorted (unique (requirers name st.constraints));
  overlay = elim sel.overlay [ none ↦ false | some o ↦ true ];
  state_sha256 = sel.state;
  source = unless_stated sel.state sel.source;
  commit = unless_stated sel.state sel.commit;
  directory = unless_stated sel.state (shown_directory sel.directory);
  version = elim sel.version [ none ↦ none | some v ↦ some (semver_text v) ];
}

-- the order of the members, by kind and then by name
abbrev pub member_after : Member → Member → Bool
member_after a b = elim (compare_strings a.kind b.kind) [
  | Ordering.lt ↦ false
  | Ordering.gt ↦ true
  | Ordering.eq ↦ elim (compare_strings a.name b.name) [ Ordering.gt ↦ true | _ ↦ false ]
]

unfoldable pub insert_member : Member → List Member → List Member
insert_member m [] = m ∷ []
insert_member m (n ∷ ms) =
    let rest = insert_member m ms in if member_after m n then n ∷ rest else m ∷ n ∷ ms

-- the members of the names, and the names with a warning
unfoldable pub members_of :
    Input → String → List (String × ℤ) → Resolver → List String → Result (List Member × List String)
unfolding index find weight_of member_of insert_member
members_of inp root root_map st [] = ok ([], [])
members_of inp root root_map st (name ∷ names) = do
  sel ← index name st.selected
  (weight, warned) ← weight_of inp root root_map st name sel
  (members, warnings) ← members_of inp root root_map st names
  ok (
    insert_member (member_of st name sel weight) members,
    if warned then name ∷ warnings else warnings,
  )

-- `manifest.get(…)` of a manifest that may be None
abbrev or_raise_attribute : Option Manifest → Result Manifest
or_raise_attribute none = err "AttributeError"
or_raise_attribute (some m) = ok m

unfoldable pub lock_of : Input → Resolver → Result (List Member × List String)
unfolding index find check_not_root root_map_of check_known members_of sorted
lock_of inp st =
    let root = inp.install.name in
    let names = sorted (keys st.selected) in
    do
      root_sel ← index root st.selected
      manifest ← or_raise_attribute root_sel.manifest
      let root_weights = manifest.weights
      for_each names (check_not_root st root)
      root_map ← root_map_of root root_weights st.constraints root_weights
      for_each (sorted (keys root_weights)) (check_known st)
      members_of inp root root_map st names

-- `resolve_closure(case_input)`: the members of the lock and the warnings
unfoldable pub resolve_closure : ℕ → Input → Option (Result (List Member × List String))
unfolding resolve_constraints lock_of
resolve_closure fuel inp = elim (resolve_constraints fuel inp) [
  | none ↦ none
  | some (err diagnostic) ↦ some (err diagnostic)
  | some (ok st) ↦ some (lock_of inp st)
]
