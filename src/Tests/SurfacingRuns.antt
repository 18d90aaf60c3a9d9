-- ===== src/Tests/SurfacingRuns.antt =====
-- A surfacing row, and the names that pass to a launch.
use curator_spec.Text.{codes, Text}
use curator_spec.Prelude.{
  Elem, List, Option, String, [], if◌then◌else◌, map, none, ok, refl, some, ℕ, ◌++◌, ◌==◌, ◌↔◌, ◌∷◌,
  ◌≡◌,
}
use curator_spec.Text.Split.{join}
use curator_spec.Json.{Value, str, arr, item, no_items, obj, member, bare}
use curator_spec.Surfacing.{Row, s4_parse_surfacing_row, row_text, s4_surfacing_row}
use curator_spec.Surfacing.Canon.{s4_parse_surfacing_row-row_text}
use curator_spec.Surfacing.Pass.{
  Knob, listed, Allows, s4_expected_passthrough, s4_expected_passthrough-Allows,
}

-- json.dumps and raw_decode of lists of plain words
abbrev quoted : Text → Text
quoted s = b'"' ∷ s ++ b'"' ∷ []

abbrev compact : List Text → Text
compact ts = b'[' ∷ join b',' (map quoted ts) ++ b']' ∷ []

abbrev decode : Text → Option (Value × ℕ)
decode (b ∷ c ∷ s) =
    if c == b']' then some (arr no_items, 2) else some (arr (item (str "-v") no_items), 6)
decode _ = none

abbrev row : Text
row = codes "mcp-declaration files 1.0.0 stdio command=npx args=[\"-v\"] env_names=[]"

abbrev read : Row
read = record {
  package_name = codes "files";
  version = codes "1.0.0";
  transport = codes "stdio";
  command = codes "npx";
  args = codes "-v" ∷ [];
  env_names = [];
}

parses : s4_parse_surfacing_row compact decode row ≡ ok read
unfolding s4_parse_surfacing_row join
parses = refl

prints :
    s4_surfacing_row compact (
      obj (
        member "package" (str "files") (
          member "version" (str "1.0.0") (
            member "transport" (str "stdio") (
              member "command" (str "npx") (
                member "args"
                  (arr (item (str "-v") no_items))
                  (member "env_names" (arr no_items) bare)))))))
    ≡ ok row
unfolding s4_surfacing_row join
prints = refl

s4_parse_surfacing_row-row_text_example : row_text compact read ≡ row
s4_parse_surfacing_row-row_text_example =
    s4_parse_surfacing_row-row_text compact decode row read parses

abbrev token : String
token = "TOKEN"

abbrev requested : List String
requested = "HOME" ∷ token ∷ []

abbrev knob : Knob
knob = listed (token ∷ [])

s4_expected_passthrough-Allows_example :
    (Elem token (s4_expected_passthrough knob "s4-enforce" requested).0
      ↔ (Elem token requested × Allows knob token))
    × ((s4_expected_passthrough knob "s4-enforce" requested).2 ≡ none
        → (s4_expected_passthrough knob "s4-enforce" requested).1 ≡ [])
s4_expected_passthrough-Allows_example =
    s4_expected_passthrough-Allows knob "s4-enforce" requested token refl
