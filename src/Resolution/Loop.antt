-- ===== src/Resolution/Loop.antt =====
-- The loop of resolve_closure, and the final checks of its constraints.
use curator_spec.Prelude.{
  Bool, Check, List, Option, Ordering, Result, String, [], any, err, false, for_each, if◌then◌else◌,
  none, not, ok, raise_if, some, str_eq, suc, true, zero, ℕ, ◌&&◌, ◌++◌, ◌>>=◌, ◌>>◌, ◌∷◌,
}
use Prim.Native.String.{compare as compare_strings}
use curator_spec.Text.{Text, codes, text_eq}
use curator_spec.SemVer.{Version, semver_text}
use curator_spec.Range.{Comparator, range_parse, range_satisfies}
use curator_spec.Resolution.{
  Form, range, Requirement, Overlay, Input, Constraint, Selection, Resolver, find, put, remove_key,
}
use curator_spec.Resolution.Select.{next_selection}

-- `pending.add(name)`
unfoldable pub add_pending : String → List String → List String
add_pending name pending = if any (λ p. str_eq p name) pending then pending else name ∷ pending

abbrev pub remove_name : String → List String → List String
remove_name name [] = []
remove_name name (p ∷ ps) = if str_eq p name then remove_name name ps else p ∷ remove_name name ps

unfoldable pub add : Constraint → Resolver → Resolver
unfolding add_pending
add c st = record st {
  constraints = st.constraints ++ c ∷ [];
  pending = add_pending c.name st.pending;
}

-- `label(name, version)`
unfoldable pub label : String → Option Version → Text
unfolding semver_text
label name none = codes name
label name (some v) = codes name ++ b'@' ∷ semver_text v

abbrev kept_constraints : Text → List Constraint → List Constraint
kept_constraints requirer [] = []
kept_constraints requirer (c ∷ cs) =
    if text_eq c.requirer requirer
    then kept_constraints requirer cs
    else c ∷ kept_constraints requirer cs

dropped_names : Text → List Constraint → List String → List String
unfolding text_eq add_pending
dropped_names requirer [] pending = pending
dropped_names requirer (c ∷ cs) pending =
    dropped_names requirer cs
      (if text_eq c.requirer requirer then add_pending c.name pending else pending)

unfoldable pub drop_attributed : Text → Resolver → Resolver
unfolding dropped_names text_eq
drop_attributed requirer st = record st {
  constraints = kept_constraints requirer st.constraints;
  pending = dropped_names requirer st.constraints st.pending;
}

unfoldable pub constraints_on : String → List Constraint → List Constraint
constraints_on name [] = []
constraints_on name (c ∷ cs) =
    let rest = constraints_on name cs in if str_eq c.name name then c ∷ rest else rest

-- `min(pending)`
unfoldable pub least : String → List String → String
least p [] = p
least p (q ∷ qs) = elim (compare_strings q p) [ Ordering.lt ↦ least q qs | _ ↦ least p qs ]

-- the requirements of a manifest, added for `name`
unfoldable pub add_all : Text → String → List Requirement → Resolver → Resolver
unfolding add
add_all requirer name [] st = st
add_all requirer name (r ∷ rs) st = add_all requirer name rs (
    add
      (record {
        name = r.name;
        kind = r.kind;
        requirer = requirer;
        requirer_of = name;
        form = r.form;
        weight = r.weight;
        directory = r.directory;
        overlay = none;
      })
      st)

unfoldable pub same_option : Option String → Option String → Bool
same_option none none = true
same_option (some s) (some t) = str_eq s t
same_option _ _ = false

-- what was selected of the name is the same commit and state
abbrev unchanged : Option Selection → Selection → Bool
unchanged none nxt = false
unchanged (some current) nxt =
    same_option current.commit nxt.commit && same_option current.state nxt.state

abbrev without_former : String → Option Selection → Resolver → Resolver
without_former name none st = st
without_former name (some current) st = drop_attributed (label name current.version) st

-- `selected[name] = nxt`, the ceiling and the requirements
unfoldable pub install_selection : String → Selection → Resolver → Resolver
unfolding put add_all label
install_selection name nxt st =
    let st' = record st {
      selected = put name nxt st.selected;
      ceiling = elim nxt.version [ none ↦ st.ceiling | some v ↦ put name v st.ceiling ];
    } in
    elim nxt.manifest [ none ↦ st' | some m ↦ add_all (label name nxt.version) name m.requires st' ]

-- one iteration of `while pending`, for a name that is no longer pending
unfoldable pub resolve_name : Input → String → Resolver → Result Resolver
unfolding constraints_on find remove_key next_selection drop_attributed label install_selection
    same_option
resolve_name inp name st = elim (constraints_on name st.constraints) [
  | [] ↦ ok (
      without_former name (find name st.selected)
        (record st { selected = remove_key name st.selected }))
  | first ∷ cs ↦ next_selection inp (find name st.ceiling) name first (first ∷ cs) >>= λ nxt.
      if unchanged (find name st.selected) nxt
      then ok st
      else ok (install_selection name nxt (without_former name (find name st.selected) st))
]

-- the loop; `none` is a fuel that was too small
unfoldable pub resolve_pending : ℕ → Input → Resolver → Option (Result Resolver)
unfolding resolve_name least
resolve_pending zero inp st = none
resolve_pending (suc fuel) inp st = elim st.pending [
  | [] ↦ some (ok st)
  | p ∷ ps ↦
      elim (resolve_name inp (least p ps)
        (record st { pending = remove_name (least p ps) st.pending })) [
          | err diagnostic ↦ some (err diagnostic)
          | ok st' ↦ resolve_pending fuel inp st'
        ]
]

-- the check of one constraint behind the loop, which reads its range again
unfoldable pub check_parsed : Option (List (List Comparator)) → Version → Check
unfolding range_satisfies
check_parsed none v = err "RangeInvalid"
check_parsed (some r) v = raise_if (not (range_satisfies r v)) "context_range_conflict"

unfoldable pub check_range : Text → Option Version → Check
unfolding check_parsed range_parse
check_range text none = err "context_range_conflict"
check_range text (some v) = check_parsed (range_parse text) v

unfoldable pub check_form : Form → Option Selection → Check
unfolding check_range
check_form form none = err "context_range_conflict"
check_form (range text) (some sel) = check_range text sel.version
check_form _ (some sel) = ok tt

unfoldable pub check_constraint : Resolver → Constraint → Check
unfolding find check_form
check_constraint st c = check_form c.form (find c.name st.selected)

unfoldable pub add_overlays : List String → List Overlay → Resolver → Result Resolver
unfolding add
add_overlays seen [] st = ok st
add_overlays seen (o ∷ os) st =
    if any (λ s. str_eq s o.name) seen
    then err "environment_composition_invalid"
    else add_overlays (o.name ∷ seen) os (
        add
          (record {
            name = o.name;
            kind = "context";
            requirer = codes "machine";
            requirer_of = "";
            form = o.form;
            weight = none;
            directory = o.directory;
            overlay = some o;
          })
          st)

abbrev pub root_constraint : Requirement → Constraint
root_constraint r = record {
  name = r.name;
  kind = "context";
  requirer = codes "machine";
  requirer_of = "";
  form = r.form;
  weight = none;
  directory = r.directory;
  overlay = none;
}

unfoldable pub start : Input → Result Resolver
unfolding add add_overlays
start inp = add_overlays (inp.install.name ∷ []) inp.overlays (
    add (root_constraint inp.install)
      (record { constraints = []; selected = []; ceiling = []; pending = [] }))

-- a state without pending names, whose constraints are then checked
unfoldable pub finish : Result Resolver → Result Resolver
unfolding check_constraint
finish (err diagnostic) = err diagnostic
finish (ok st) = for_each st.constraints (check_constraint st) >> ok st

-- the first half of `resolve_closure`, up to the weights
unfoldable pub resolve_constraints : ℕ → Input → Option (Result Resolver)
unfolding start resolve_pending finish
resolve_constraints fuel inp = elim (start inp) [
  | err diagnostic ↦ some (err diagnostic)
  | ok st ↦ elim (resolve_pending fuel inp st) [ none ↦ none | some r ↦ some (finish r) ]
]
