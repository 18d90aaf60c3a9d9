-- ===== src/Tests/UmbrellaRuns.antt =====
-- A provider that the PATH and a trust root share.
use curator_spec.Text.{codes, Text}
use curator_spec.Prelude.{List, String, [], ok, refl, true, ◌∷◌, ◌≡◌}
use curator_spec.Json.{Value, Items, Fields, str, arr, obj, bool, item, no_items, member, bare}
use curator_spec.Text.{text_eq}
use curator_spec.Umbrella.{
  base_name, umbrella_executables, umbrella_expected, resolved, untrusted, outside_trust_roots,
}
use curator_spec.Umbrella.Found.{IsTrusted, umbrella_expected-IsTrusted}
use curator_spec.Umbrella.Flip.{IsKept, umbrella_expected-IsKept}

abbrev nothing : Value → Text
nothing v = []

abbrev list : List String → Items
list [] = no_items
list (s ∷ ss) = item (str s) (list ss)

abbrev file : String → Value
file path = obj (member "path" (str path) (member "executable" (bool true) bare))

abbrev case : List String → List String → List String → Fields
case path_entries unreadable managed = member "executable_name" (str "curator-lint") (
    member "install_dir" (str "/opt/curator/bin") (
      member "provider_directories" (arr (list ("/srv/tools/" ∷ []))) (
        member "path_entries" (arr (list path_entries)) (
          member "unreadable_dirs" (arr (list unreadable)) (
            member "managed_dirs" (arr (list managed)) (
              member "present"
                (arr (
                  item (file "/srv/tools/curator-lint")
                    (item (file "/home/u/bin/curator-lint") no_items)))
                bare))))))

abbrev listed_root : Fields
listed_root = case ("/home/u/bin" ∷ []) [] []

abbrev roots : List Text
roots = codes "/opt/curator/bin" ∷ codes "/srv/tools/" ∷ []

runs_listed :
    umbrella_expected nothing listed_root
    ≡ ok (
      outside_trust_roots (codes "/home/u/bin/curator-lint") (codes "/home/u/bin") roots,
      resolved (codes "/srv/tools/curator-lint"),
    )
unfolding umbrella_expected umbrella_executables text_eq base_name
runs_listed = refl

umbrella_expected-IsTrusted_example :
    IsTrusted nothing listed_root (codes "/srv/tools/curator-lint")
umbrella_expected-IsTrusted_example =
    umbrella_expected-IsTrusted nothing listed_root
      (outside_trust_roots (codes "/home/u/bin/curator-lint") (codes "/home/u/bin") roots)
      (codes "/srv/tools/curator-lint") runs_listed

abbrev on_path : Fields
on_path = member "executable_name" (str "curator-lint") (
    member "install_dir" (str "/opt/bin") (
      member "path_entries" (arr (list ("/opt/bin/" ∷ [])))
        (member "present" (arr (item (file "/opt/bin/curator-lint") no_items)) bare)))

runs_on_path :
    umbrella_expected nothing on_path
    ≡ ok (resolved (codes "/opt/bin/curator-lint"), resolved (codes "/opt/bin/curator-lint"))
unfolding umbrella_expected umbrella_executables text_eq base_name
runs_on_path = refl

umbrella_expected-IsKept_example : IsKept nothing on_path (resolved (codes "/opt/bin/curator-lint"))
umbrella_expected-IsKept_example =
    umbrella_expected-IsKept nothing on_path (codes "/opt/bin/curator-lint")
      (resolved (codes "/opt/bin/curator-lint")) runs_on_path

managed_is_refused :
    umbrella_expected nothing (case ("/home/u/bin" ∷ []) [] ("/srv" ∷ []))
    ≡ ok (
      outside_trust_roots (codes "/home/u/bin/curator-lint") (codes "/home/u/bin") roots,
      untrusted (codes "/srv/tools/curator-lint") roots,
    )
unfolding umbrella_expected umbrella_executables text_eq base_name
managed_is_refused = refl

-- A trust root with a slash at its end: revision A warns of the provider that revision B resolves.
root_with_slash :
    umbrella_expected nothing (case ("/srv/tools" ∷ []) [] [])
    ≡ ok (
      outside_trust_roots (codes "/srv/tools/curator-lint") (codes "/srv/tools") roots,
      resolved (codes "/srv/tools/curator-lint"),
    )
unfolding umbrella_expected umbrella_executables text_eq base_name
root_with_slash = refl
