-- ===== src/Resolution/Satisfied.antt =====
-- The final check of resolve_closure of tools/validate.py, and what it asks of a constraint.
use curator_spec.Resolution.Loop.{
  remove_name, least, start, resolve_name, resolve_pending, resolve_constraints, finish,
  check_parsed, check_range, check_form, check_constraint,
}
use curator_spec.Text.{Text}
use mathlib.Core.Path.{transport}
use curator_spec.Prelude.{
  Check, Elem, List, Option, Result, String, [], arith, err, for_each, for_each-Elem, none, ok,
  refl, some, suc, true, zero, ℕ, ◌>>◌, ◌∷◌, ◌≡◌,
}
use curator_spec.SemVer.{Version}
use curator_spec.Range.{Comparator, range_parse, range_satisfies}
use curator_spec.Resolution.{
  Input, tag, revision, path, Form, range, Constraint, Selection, Resolver, find,
}

-- the version of a selection is in the range
pub record InRange (text : Text) (sel : Selection) : Type 0 where
  pub version : Version
  pub is_version : sel.version ≡ some version
  pub sets : List (List Comparator)
  pub parsed : range_parse text ≡ some sets
  pub satisfied : range_satisfies sets version ≡ true

abbrev pub Meets : Form → Selection → Type 0
Meets (range text) sel = InRange text sel
Meets _ sel = Unit

-- a constraint holds of the selection of its name
pub record IsMet (st : Resolver) (c : Constraint) : Type 0 where
  pub selection : Selection
  pub selected : find c.name st.selected ≡ some selection
  pub meets : Meets c.form selection

check_range-InRange :
    (text : Text) (sel : Selection) (o : Option Version) (p : Option (List (List Comparator)))
    → sel.version ≡ o
    → range_parse text ≡ p
    → check_range text o ≡ ok tt
    → InRange text sel
unfolding check_range check_parsed
check_range-InRange text sel none p e k h = cc
check_range-InRange text sel (some v) none e k h = ground arith
check_range-InRange text sel (some v) (some sets) e k h = record {
  version = v;
  is_version = e;
  sets = sets;
  parsed = k;
  satisfied = ground arith;
}

check_form-Meets : (f : Form) (sel : Selection) → check_form f (some sel) ≡ ok tt → Meets f sel
unfolding check_form
check_form-Meets (range text) sel h =
    check_range-InRange text sel sel.version (range_parse text) refl refl h
check_form-Meets (tag t) sel h = tt
check_form-Meets (revision t) sel h = tt
check_form-Meets path sel h = tt

found-IsMet :
    (st : Resolver) (c : Constraint) (o : Option Selection)
    → find c.name st.selected ≡ o
    → check_form c.form o ≡ ok tt
    → IsMet st c
unfolding check_form
found-IsMet st c none e h = ground arith
found-IsMet st c (some sel) e h = record {
  selection = sel;
  selected = e;
  meets = check_form-Meets c.form sel h;
}

check_constraint-IsMet :
    (st : Resolver) (c : Constraint) → check_constraint st c ≡ ok tt → IsMet st c
unfolding check_constraint
check_constraint-IsMet st c h = found-IsMet st c (find c.name st.selected) refl h

-- what a resolution that returned has
abbrev pub IsResolved : Resolver → Type 0
IsResolved st = (st.pending ≡ []) × ((c : Constraint) → Elem c st.constraints → IsMet st c)

-- the loop ends with nothing pending
abbrev Settled : Option (Result Resolver) → Type 0
Settled (some (ok st)) = st.pending ≡ []
Settled _ = Unit

Settled-next :
    (fuel : ℕ) (inp : Input)
    → ((st : Resolver) → Settled (resolve_pending fuel inp st))
    → (r : Result Resolver)
    → Settled
        (elim r [ err diagnostic ↦ some (err diagnostic) | ok st ↦ resolve_pending fuel inp st ])
Settled-next fuel inp h (err diagnostic) = tt
Settled-next fuel inp h (ok st) = h st

pending_by :
    (fuel : ℕ) (inp : Input) (st : Resolver) (pending : List String)
    → ((st : Resolver) → Settled (resolve_pending fuel inp st))
    → st.pending ≡ pending
    → Settled (elim pending [
      | [] ↦ some (ok st)
      | p ∷ ps ↦
          elim (resolve_name inp
            (least p ps)
            (record st { pending = remove_name (least p ps) st.pending })) [
              | err diagnostic ↦ some (err diagnostic)
              | ok st' ↦ resolve_pending fuel inp st'
            ]
    ])
pending_by fuel inp st [] h e = e
pending_by fuel inp st (p ∷ ps) h e = Settled-next fuel inp h _

resolve_pending-Settled :
    (fuel : ℕ) (inp : Input) (st : Resolver) → Settled (resolve_pending fuel inp st)
unfolding resolve_pending
resolve_pending-Settled zero inp st = tt
resolve_pending-Settled (suc fuel) inp st =
    pending_by fuel inp st st.pending (resolve_pending-Settled fuel inp) refl

-- what an optional resolution has, if it returned
abbrev IsResolvedIf : Option (Result Resolver) → Type 0
IsResolvedIf (some (ok st)) = IsResolved st
IsResolvedIf _ = Unit

checked-IsResolved :
    (st : Resolver) (r : Check)
    → st.pending ≡ []
    → for_each st.constraints (check_constraint st) ≡ r
    → IsResolvedIf (some (r >> ok st))
checked-IsResolved st (err message) h e = tt
checked-IsResolved st (ok tt) h e = (
  h,
  λ c m. check_constraint-IsMet st c (for_each-Elem st.constraints (check_constraint st) c e m),
)

-- `finish` returns the state that it checked
finish-IsResolved : (r : Result Resolver) → Settled (some r) → IsResolvedIf (some (finish r))
unfolding finish
finish-IsResolved (err diagnostic) h = tt
finish-IsResolved (ok st) h =
    checked-IsResolved st (for_each st.constraints (check_constraint st)) h refl

finished-IsResolved :
    (o : Option (Result Resolver))
    → Settled o
    → IsResolvedIf (elim o [ none ↦ none | some r ↦ some (finish r) ])
finished-IsResolved none h = tt
finished-IsResolved (some r) h = finish-IsResolved r h

started-IsResolved :
    (fuel : ℕ) (inp : Input) (r : Result Resolver)
    → IsResolvedIf (elim r [
      | err diagnostic ↦ some (err diagnostic)
      | ok st ↦ elim (resolve_pending fuel inp st) [ none ↦ none | some r ↦ some (finish r) ]
    ])
started-IsResolved fuel inp (err diagnostic) = tt
started-IsResolved fuel inp (ok st) =
    finished-IsResolved (resolve_pending fuel inp st) (resolve_pending-Settled fuel inp st)

resolve-IsResolved : (fuel : ℕ) (inp : Input) → IsResolvedIf (resolve_constraints fuel inp)
unfolding resolve_constraints
resolve-IsResolved fuel inp = started-IsResolved fuel inp (start inp)

-- A resolution that returns has no pending name, and each of its constraints has a selection of its
-- name, whose version, if the constraint is a range, is in the range.
pub resolved-IsMet :
    (fuel : ℕ) (inp : Input) (st : Resolver)
    → resolve_constraints fuel inp ≡ some (ok st)
    → (st.pending ≡ []) × ((c : Constraint) → Elem c st.constraints → IsMet st c)
resolved-IsMet fuel inp st h = transport (λ i. IsResolvedIf (h i)) (resolve-IsResolved fuel inp)
