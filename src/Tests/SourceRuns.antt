-- ===== src/Tests/SourceRuns.antt =====
-- An effective source that is the declared one at the locked commit.
use curator_spec.Prelude.{false, none, refl, some, str_eq, ◌≡◌}
use curator_spec.Json.{Value, Fields, bool, str, obj, member, bare}
use curator_spec.Json.Equal.{Floats}
use curator_spec.Text.Split.{before, after}
use curator_spec.Sources.Effective.{validate_effective_source}
use curator_spec.Sources.Kept.{IsKept, validate_effective_source-IsKept}

abbrev floats : Floats
floats = record { equals_int = λ s n. false; equals_float = str_eq }

abbrev identity : Value
identity =
    obj (member "kind" (str "network-git") (member "value" (str "example.com/team/app") bare))

abbrev commit : Value
commit = str "0123456789abcdef0123456789abcdef01234567"

abbrev declared : Fields
declared = member "identity" identity (
    member "transport" (str "https") (
      member "tag" (str "v1.2.0") (
        member "locked_commit"
          (obj (member "object_format" (str "sha1") (member "hex" commit bare))) bare)))

abbrev effective : Value → Fields
effective hex = member "identity" identity (
    member "transport" (str "https") (
      member "object_format" (str "sha1")
        (member "commit" hex (member "substituted" (bool false) bare))))

accepted : validate_effective_source floats declared (effective commit) ≡ none
unfolding validate_effective_source before after
accepted = refl

moved :
    (validate_effective_source floats declared
        (effective (str "ffffffffffffffffffffffffffffffffffffffff"))
      ≡ some "unsubstituted effective source must equal declared source and lock")
    × (validate_effective_source floats declared (effective (str "0123"))
        ≡ some "effective commit width must match object format")
unfolding validate_effective_source before after
moved = (refl, refl)

validate_effective_source-IsKept_example : IsKept floats declared (effective commit)
validate_effective_source-IsKept_example =
    validate_effective_source-IsKept floats declared (effective commit) accepted
