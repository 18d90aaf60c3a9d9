-- ===== src/Signers/Merge.antt =====
-- e1_expected_merge of tools/validate.py: the effective allowlists of a machine, where a dict is its
-- members in order.
use curator_spec.Prelude.{
  >>=-eq-ok, Bool, Bool-cases, List, Option, Result, String, [], ap, arith, eq_iff, err, false,
  if-false, if-true, if◌then◌else◌, inl, inr, keep, none, ok, ok-eq, refl, some, sorted, str_eq,
  sym, true, ◌>>=◌, ◌||◌, ◌∙◌, ◌≡◌,
}
use curator_spec.Json.{
  int, float, str, arr, Value, Fields, null, bool, obj, bare, member, get, is_in, field_names,
}

pub record Merge : Type 0 where
  pub effective : Fields
  pub warnings : List String

-- `d[key] = v` for a key that `d` does not have
abbrev pub append : Fields → String → Value → Fields
append bare key v = member key v bare
append (member k w rest) key v = member k w (append rest key v)

-- `if source not in effective: effective[source] = entries`, for each machine entry
unfoldable pub add_missing : Fields → Fields → Fields
add_missing effective bare = effective
add_missing effective (member k v rest) =
    add_missing (if is_in k (field_names effective) then effective else append effective k v) rest

-- the locked sources that the machine names too
unfoldable pub overlap : Fields → Fields → List String
unfolding sorted keep
overlap system machine = keep (λ s. is_in s (field_names system)) (sorted (field_names machine))

-- the machine's dict, which may be None
abbrev pub machine_of : Value → Result (Option Fields)
machine_of null = ok none
machine_of (obj fields) = ok (some fields)
machine_of _ = err "system must be an object and machine an object or null"

abbrev pub system_of : Value → Result Fields
system_of (obj fields) = ok fields
system_of _ = err "system must be an object and machine an object or null"

abbrev pub locked_of : Value → Result Bool
locked_of (bool b) = ok b
locked_of _ = err "locked must be a boolean"

unfoldable pub merge : Bool → Fields → Option Fields → Merge
unfolding add_missing overlap
merge true system none = record { effective = system; warnings = [] }
merge true system (some machine) = record {
  effective = add_missing system machine;
  warnings = overlap system machine;
}
merge false system none = record { effective = system; warnings = [] }
merge false system (some machine) = record { effective = machine; warnings = [] }

unfoldable pub e1_expected_merge : Fields → Result Merge
unfolding merge get
e1_expected_merge d = do
  locked ← locked_of (get d "locked")
  system ← system_of (get d "system")
  machine ← machine_of (get d "machine")
  ok (merge locked system machine)

eq_comm : (s t : String) → str_eq s t ≡ str_eq t s
eq_comm s t = elim (Bool-cases (str_eq s t)) [
  | inl e ↦ let p = (eq_iff s t).0 e in ap (str_eq s) (sym p) ∙ ap (λ x. str_eq x s) p
  | inr e ↦ elim (Bool-cases (str_eq t s)) [
    | inl f ↦
        let p = (eq_iff t s).0 f in
        absurd (ground (arith, e, sym (ap (λ x. str_eq x t) p) ∙ ap (str_eq t) p))
    | inr f ↦ e ∙ sym f
  ]
]

is_in-append :
    (s k : String) (v : Value) (d : Fields)
    → is_in s (field_names (append d k v)) ≡ (is_in s (field_names d) || str_eq s k)
is_in-append s k v bare = ground arith
is_in-append s k v (member l w rest) = ground (arith, is_in-append s k v rest)

-- a key that was there keeps its value, another has the appended one
get-append_old :
    (s k : String) (v : Value) (d : Fields)
    → is_in s (field_names d) ≡ true
    → get (append d k v) s ≡ get d s
unfolding get
get-append_old s k v bare e = cc
get-append_old s k v (member l w rest) e = ground (arith, eq_comm s l, get-append_old s k v rest)

get-append_new :
    (s k : String) (v : Value) (d : Fields)
    → is_in s (field_names d) ≡ false
    → get (append d k v) s ≡ get (member k v bare) s
unfolding get
get-append_new s k v bare e = refl
get-append_new s k v (member l w rest) e = ground (arith, eq_comm s l, get-append_new s k v rest)

get-missing : (s : String) (d : Fields) → is_in s (field_names d) ≡ false → get d s ≡ null
unfolding get
get-missing s bare e = refl
get-missing s (member l w rest) e = ground (arith, eq_comm s l, get-missing s rest)

-- whose entry a source has: the first dict's, if it has one
abbrev pub first_of : Fields → Fields → String → Value
first_of first second s = if is_in s (field_names first) then get first s else get second s

add_missing-step :
    (s k : String) (v : Value) (effective rest : Fields) (b c : Bool)
    → is_in k (field_names effective) ≡ b
    → is_in s (field_names effective) ≡ c
    → first_of (if b then effective else append effective k v) rest s
      ≡ first_of effective (member k v rest) s
unfolding get
add_missing-step s k v effective rest true true e f = rw f refl
add_missing-step s k v effective rest true false e f = elim (Bool-cases (str_eq k s)) [
  | inl same ↦
      let p : k ≡ s = (eq_iff k s).0 same in
      let q : false ≡ true = sym f ∙ ap (λ x. is_in x (field_names effective)) (sym p) ∙ e in cc
  | inr other ↦ ground (arith, f, other)
]
add_missing-step s k v effective rest false true e f =
    ground (arith, f, is_in-append s k v effective, get-append_old s k v effective f)
add_missing-step s k v effective rest false false e f =
    ground (arith, f, eq_comm s k, is_in-append s k v effective, get-append_new s k v effective f)

get-add_missing :
    (effective machine : Fields) (s : String)
    → get (add_missing effective machine) s ≡ first_of effective machine s
unfolding add_missing get
get-add_missing effective bare s = elim (Bool-cases (is_in s (field_names effective))) [
  | inl e ↦ sym (if-true (get effective s) null e)
  | inr e ↦ get-missing s effective e ∙ sym (if-false (get effective s) null e)
]
get-add_missing effective (member k v rest) s =
    get-add_missing (if is_in k (field_names effective) then effective else append effective k v)
      rest s
    ∙ add_missing-step s k v effective rest (is_in k (field_names effective))
        (is_in s (field_names effective)) refl refl

-- the entry that a source has by the rule of the merge
abbrev pub rule : Bool → Fields → Option Fields → String → Value
rule true system none s = get system s
rule true system (some machine) s = first_of system machine s
rule false system none s = get system s
rule false system (some machine) s = get machine s

merge-rule :
    (locked : Bool) (system : Fields) (machine : Option Fields) (s : String)
    → get (merge locked system machine).effective s ≡ rule locked system machine s
unfolding merge
merge-rule true system none s = refl
merge-rule true system (some machine) s = get-add_missing system machine s
merge-rule false system none s = refl
merge-rule false system (some machine) s = refl

locked_of-eq : (v : Value) (b : Bool) → locked_of v ≡ ok b → v ≡ bool b
locked_of-eq (bool b) c h = ap bool (ok-eq h)
locked_of-eq null c h = cc
locked_of-eq (int n) c h = cc
locked_of-eq (float t) c h = cc
locked_of-eq (str t) c h = cc
locked_of-eq (arr items) c h = cc
locked_of-eq (obj d) c h = cc

system_of-eq : (v : Value) (d : Fields) → system_of v ≡ ok d → v ≡ obj d
system_of-eq (obj d) e h = ap obj (ok-eq h)
system_of-eq null e h = cc
system_of-eq (bool b) e h = cc
system_of-eq (int n) e h = cc
system_of-eq (float t) e h = cc
system_of-eq (str t) e h = cc
system_of-eq (arr items) e h = cc

-- Under a locked system map, a source has the system's entry if it is in that map, otherwise the
-- machine's; under an unlocked one, the machine's map, if it is given, replaces the system's whole.
e1_expected_merge-rule :
    (d : Fields) (m : Merge)
    → e1_expected_merge d ≡ ok m
    → (locked : Bool) × (system : Fields) × (machine : Option Fields) × (get d "locked"
        ≡ bool locked)
      × (get d "system" ≡ obj system)
      × (machine_of (get d "machine") ≡ ok machine)
      × ((s : String) → get m.effective s ≡ rule locked system machine s)
unfolding e1_expected_merge
e1_expected_merge-rule d m h =
    let (locked, e, h1) = >>=-eq-ok (locked_of (get d "locked")) _ h in
    let (system, f, h2) = >>=-eq-ok (system_of (get d "system")) _ h1 in
    let (machine, g, h3) = >>=-eq-ok (machine_of (get d "machine")) _ h2 in
    (
      locked,
      system,
      machine,
      locked_of-eq (get d "locked") locked e,
      system_of-eq (get d "system") system f,
      g,
      λ s. ap (λ m. get m.effective s) (sym (ok-eq h3)) ∙ merge-rule locked system machine s,
    )
