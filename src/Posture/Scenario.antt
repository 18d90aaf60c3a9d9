-- ===== src/Posture/Scenario.antt =====
-- The scenario pins of the posture cases: `_posture_lookup` and `_posture_check_scenario` of
-- tools/validate.py. How floats compare is a parameter.
use curator_spec.Prelude.{
  Bool, Check, List, Option, String, [], any, err, false, for_each, if◌then◌else◌, none, not,
  raise_if, some, str_eq, true, ◌||◌, ◌∷◌,
}
use curator_spec.Text.{Text, codes, text_eq}
use curator_spec.Text.Split.{split}
use curator_spec.Json.{
  Value, Fields, str, arr, obj, bare, get, member, truthy, is_bool, is_str, values,
}
use curator_spec.Json.Equal.{Floats, same_value}
use curator_spec.Posture.{has_key, is_list}
use curator_spec.Posture.Scenarios.{Pin, scenarios}

-- a member whose key is this text
abbrev pub at_segment : Text → Fields → Option Value
at_segment segment bare = none
at_segment segment (member k v rest) =
    if text_eq (codes k) segment then some v else at_segment segment rest

abbrev pub follow : List Text → Value → Option Value
follow [] node = some node
follow (segment ∷ path) (obj d) = elim (at_segment segment d) [
  | none ↦ none
  | some v ↦ follow path v
]
follow (segment ∷ path) _ = none

-- `none` if the path is not there
unfoldable pub posture_lookup : Fields → String → Option Value
unfolding split text_eq
posture_lookup c path = follow (split b'.' (codes path)) (obj c)

-- `SECURITY_POSTURE_SCENARIOS.get(name)`
abbrev pub pins_of : String → List (String × List Pin) → Option (List Pin)
pins_of name [] = none
pins_of name ((s, pins) ∷ rest) = if str_eq s name then some pins else pins_of name rest

module _ (floats : Floats) where
  abbrev pub differs : Value → Value → Bool
  differs v w = not (same_value floats v w)

  -- `want in value` of a list
  abbrev is_element : Value → Value → Bool
  is_element want (arr items) = any (same_value floats want) (values items)
  is_element want _ = false

  -- what is found against a pin that is not "<absent>"
  abbrev pub fails : Option Value → Value → Bool
  fails none want = true
  fails (some v) (obj d) =
      if has_key d "contains"
      then not (is_element (get d "contains") v)
      else if is_bool (get d "nonempty") true
      then not (is_list v) || not (truthy v)
      else if has_key d "present"
      then differs v (get d "present")
      else differs v (obj d)
  fails (some v) want = differs v want

  abbrev is_some : Option Value → Bool
  is_some none = false
  is_some (some v) = true

  abbrev pub check_pin : Fields → String → String → Pin → Check
  check_pin c profile profile_source (path, want) =
      if str_eq path "effective.profile"
      then raise_if (differs (str profile) want) "must resolve the profile"
      else if str_eq path "effective.profile_source"
      then raise_if (differs (str profile_source) want) "must resolve the source of the profile"
      else if is_str want "<absent>"
      then raise_if (is_some (posture_lookup c path)) "must leave the path absent"
      else raise_if (fails (posture_lookup c path) want) "must carry the path as it is pinned"

  unfoldable pub posture_check_scenario : String → Fields → String → String → Check
  unfolding posture_lookup same_value get
  posture_check_scenario name c profile profile_source = elim (pins_of name scenarios) [
    | none ↦ err "has no scenario pin"
    | some pins ↦ for_each pins (check_pin c profile profile_source)
  ]
