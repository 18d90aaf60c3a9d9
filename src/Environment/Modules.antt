-- ===== src/Environment/Modules.antt =====
-- The modules of packages in tools/validate.py: environment_module_error, environment_applicable,
-- environment_machine_policy, environment_direct_packages and environment_system_prompt_admission.
use curator_spec.Text.{has, Text, ends_with}
use curator_spec.Resolution.{index}
use curator_spec.Prelude.{
  Bool, List, Option, Result, String, [], all, any, err, false, if◌then◌else◌, keep, map, none, not,
  ok, some, str_eq, true, ◌&&◌, ◌++◌, ◌>>=◌, ◌||◌, ◌∷◌,
}
use curator_spec.Json.{
  values, Value, Fields, arr, obj, bare, get, is_in, field_names, truthy, is_str,
}
use curator_spec.Resolution.Members.{Member}
use curator_spec.Environment.Order.{Lock, contexts_of, names_of, environment_emitted_order}

-- the error of a module's text, by code points
unfoldable pub environment_module_error : Text → Option String
unfolding ends_with
environment_module_error content =
    if has 13 content
    then some "module carries a non-LF line ending"
    else if not (ends_with content (10 ∷ [])) || ends_with content (10 ∷ 10 ∷ [])
    then some "module must end with exactly one trailing LF"
    else none

pub record PackageModule : Type 0 where
  pub module_class : String
  pub environments : Option (List String)
  pub path : String

-- no selector, or one with the environment
abbrev pub selects : String → Option (List String) → Bool
selects environment none = true
selects environment (some names) = is_in environment names

unfoldable pub environment_applicable : List PackageModule → String → String → List PackageModule
unfolding keep
environment_applicable modules environment module_class =
    keep (λ m. str_eq m.module_class module_class && selects environment m.environments) modules

abbrev pub fields_of : Value → Result Fields
fields_of (obj fields) = ok fields
fields_of _ = err "AttributeError"

-- `d.get(key, {})` of a dict
abbrev pub dict_at : Fields → String → Result Fields
dict_at d key = if is_in key (field_names d) then fields_of (get d key) else ok bare

abbrev pub is_waiver : Value → Bool
is_waiver (obj d) = truthy (get d "package") && truthy (get d "reason")
is_waiver _ = false

abbrev pub waived_package : Value → Value
waived_package (obj d) = get d "package"
waived_package v = v

-- a list of waivers
abbrev pub waivers_in : Value → Result (List Value)
waivers_in (arr items) =
    if all is_waiver (values items)
    then ok (map waived_package (values items))
    else err "malformed system_module_waivers"
waivers_in _ = err "malformed system_module_waivers"

abbrev pub waivers_of : Fields → Result (List Value)
waivers_of policy =
    if not (is_in "system_module_waivers" (field_names policy))
    then ok []
    else waivers_in (get policy "system_module_waivers")

abbrev pub mode_of : Fields → Result String
mode_of policy =
    if not (is_in "transitive_system_modules" (field_names policy))
    then ok "drop"
    else if is_str (get policy "transitive_system_modules") "drop"
    then ok "drop"
    else if is_str (get policy "transitive_system_modules") "error"
    then ok "error"
    else err "unknown admission mode"

-- the mode and the waived packages
unfoldable pub environment_machine_policy : Fields → Result (String × List Value)
unfolding get
environment_machine_policy case = do
  policy ← dict_at case "machine_policy"
  mode ← mode_of policy
  waived ← waivers_of policy
  ok (mode, waived)

-- the root, the active overlays, and what one of them requires
unfoldable pub environment_direct_packages : Lock → List String
unfolding keep
environment_direct_packages lock =
    let contexts = contexts_of lock in
    let overlays = names_of (keep (λ p. p.1.overlay) contexts) in
    let required =
      keep (λ p. any (λ r. str_eq r lock.root || is_in r overlays) p.1.required_by) contexts in
    lock.root ∷ overlays ++ names_of required

-- a package and the path of a module
abbrev pub Entry : Type 0
Entry = String × String

abbrev pub entries_of : String → List PackageModule → List Entry
entries_of name modules = map (λ m. (name, m.path)) modules

-- `name in direct or name in waived`
abbrev pub is_admitted : List String → List Value → String → Bool
is_admitted direct waived name = is_in name direct || any (λ v. is_str v name) waived

pub record Admission : Type 0 where
  pub mode : String
  pub admitted : List Entry
  pub dropped : List Entry

-- entries to the admitted or to the dropped ones
abbrev pub put_entries : Bool → List Entry → List Entry × List Entry → List Entry × List Entry
put_entries true es (admitted, dropped) = (es ++ admitted, dropped)
put_entries false es (admitted, dropped) = (admitted, es ++ dropped)

module _ (packages : List (String × List PackageModule)) (environment : String) where
  -- the loop over the members in emitted order: the admitted and the dropped entries
  unfoldable pub admit_members : (String → Bool) → List Member → Result (List Entry × List Entry)
  unfolding environment_applicable index
  admit_members admits [] = ok ([], [])
  admit_members admits (m ∷ ms) = do
    modules ← index m.name packages
    let entries = entries_of m.name (environment_applicable modules environment "system")
    rest ← admit_members admits ms
    ok (put_entries (admits m.name) entries rest)

  unfoldable pub environment_system_prompt_admission : Lock → Value → Fields → Result Admission
  unfolding admit_members environment_machine_policy environment_direct_packages
  environment_system_prompt_admission lock precedence case = do
    (mode, waived) ← environment_machine_policy case
    order ← environment_emitted_order lock precedence
    (admitted, dropped) ←
        admit_members (is_admitted (environment_direct_packages lock) waived) order
    ok (record { mode = mode; admitted = admitted; dropped = dropped })
