-- ===== src/Umbrella.antt =====
-- The umbrella's subcommand providers in tools/validate.py: where the dispatcher finds a provider
-- under revisions A and B. A path is a list of code points; what a case gives is read as Python
-- reads it, with the built-in `str` of a value that is no text as the parameter `str_of`.
pub mod Found
pub mod Dirname
pub mod Executables
pub mod Flip
use curator_spec.Text.Split.{before, after}
use curator_spec.Text.{is_empty, codes, text_eq, has, starts_with, Text}
use curator_spec.Json.{values, is_bool, str, arr, obj, field_names, get, Value, Fields}
use curator_spec.Prelude.{
  Bool, Check, List, Option, Result, String, [], all, any, err, false, if◌then◌else◌, map, none,
  not, ok, raise_if, reverse, some, str_eq, true, ◌&&◌, ◌++◌, ◌==◌, ◌>>=◌, ◌>>◌, ◌∷◌,
}

-- `path.rsplit("/", 1)[-1]`
unfoldable pub base_name : Text → Text
unfolding before
base_name path = reverse (before b'/' (reverse path))

-- `path.rsplit("/", 1)[0]`, if there is a slash
unfoldable pub head_name : Text → Text
unfolding after
head_name path = reverse (after b'/' (reverse path))

unfoldable pub umbrella_dirname : Text → Text
unfolding head_name
umbrella_dirname path =
    if not (has b'/' path)
    then codes "."
    else if is_empty (head_name path)
    then codes "/"
    else head_name path

abbrev pub drop_slashes : Text → Text
drop_slashes [] = []
drop_slashes (c ∷ s) = let rest = drop_slashes s in if c == b'/' then rest else c ∷ s

-- `entry.rstrip("/") + "/" + name`
unfoldable pub below : Text → Text → Text
below entry name = reverse (drop_slashes (reverse entry)) ++ b'/' ∷ name

-- `path.startswith(entry.rstrip("/") + "/")` for one of the entries; an entry that is no text has no
-- `rstrip`
unfoldable pub umbrella_inside_forbidden : Text → List Value → Result Bool
unfolding below starts_with
umbrella_inside_forbidden path [] = ok false
umbrella_inside_forbidden path (str entry ∷ entries) =
    let rest = umbrella_inside_forbidden path entries in
    if starts_with path (below (codes entry) []) then ok true else rest
umbrella_inside_forbidden path (entry ∷ entries) = err "AttributeError"

-- `v == s` for a text
abbrev pub equals : Value → Text → Bool
equals (str s) t = text_eq (codes s) t
equals _ t = false

-- the texts of a list
abbrev pub texts : List Value → List Text
texts [] = []
texts (str s ∷ vs) = codes s ∷ texts vs
texts (v ∷ vs) = texts vs

-- `isinstance(v, list)` and its elements, otherwise nothing
abbrev pub elements : Value → List Value
elements (arr items) = values items
elements _ = []

-- the path of an executable file with the provider's name
abbrev pub named : Value → Value → Value → Option Text
named name flag (str path) =
    if is_bool flag true && equals name (base_name (codes path)) then some (codes path) else none
named name flag _ = none

abbrev pub executable : Value → Value → Option Text
executable name (obj d) = named name (get d "executable") (get d "path")
executable name _ = none

-- `found.add(path)`
abbrev pub put : Option Text → List Text → List Text
put none ps = ps
put (some p) ps = p ∷ ps

abbrev pub executables_in : Value → List Value → List Text
executables_in name [] = []
executables_in name (v ∷ vs) = put (executable name v) (executables_in name vs)

unfoldable pub umbrella_executables : Fields → List Text
unfolding get
umbrella_executables d = executables_in (get d "executable_name") (elements (get d "present"))

-- `path in paths`
abbrev pub is_among : Text → List Text → Bool
is_among path paths = any (λ p. text_eq path p) paths

-- the first entry with an executable directly inside
unfoldable pub first_inside : Text → List Text → List Text → Option Text
unfolding below
first_inside name executables [] = none
first_inside name executables (entry ∷ entries) =
    let rest = first_inside name executables entries in
    if is_among (below entry name) executables then some (below entry name) else rest

unfoldable pub umbrella_trust_roots : Fields → List Text
unfolding get
umbrella_trust_roots d = texts (get d "install_dir" ∷ elements (get d "provider_directories"))

-- what the search of the trust roots comes to
pub data Search : Type 0 where
  found : Text → Search
  failed : Text → Search
  absent : Search

unfoldable pub search_roots : Text → List Text → List Text → List Text → Search
search_roots name executables unreadable [] = absent
search_roots name executables unreadable (root ∷ roots) =
    let rest = search_roots name executables unreadable roots in
    if is_among root unreadable
    then failed root
    else if is_among (below root name) executables
    then found (below root name)
    else rest

-- the characters of a text
abbrev characters : String → List Value
characters String.[] = []
characters (String.◌∷◌ c s) = str (String.◌∷◌ c String.[]) ∷ characters s

-- `list(v)`
abbrev list_of : Value → Result (List Value)
list_of (arr items) = ok (values items)
list_of (obj fields) = ok (map str (field_names fields))
list_of (str s) = ok (characters s)
list_of _ = err "TypeError"

-- `list(d.get(key, []))`
unfoldable pub listed : Fields → String → Result (List Value)
unfolding get
listed d key = if any (λ k. str_eq k key) (field_names d) then list_of (get d key) else ok []

unfoldable pub forbidden_dirs : Fields → Result (List Value)
unfolding listed
forbidden_dirs d = do
  published ← listed d "published_dirs"
  managed ← listed d "managed_dirs"
  ok (published ++ managed)

-- what a revision expects, with the details of its diagnostic
pub data Outcome : Type 0 where
  resolved : Text → Outcome
  outside_trust_roots : Text → Text → List Text → Outcome
  untrusted : Text → List Text → Outcome
  root_unreadable : Text → List Text → Outcome
  missing : List Text → Outcome

abbrev pub diagnostic : Outcome → Option String
diagnostic (resolved p) = none
diagnostic (outside_trust_roots p hint roots) = some "subcommand_provider_outside_trust_roots"
diagnostic (untrusted p roots) = some "subcommand_provider_untrusted"
diagnostic (root_unreadable p roots) = some "subcommand_provider_root_unreadable"
diagnostic (missing roots) = some "subcommand_provider_missing"

-- the first root that cannot be read
abbrev pub first_unreadable : List Text → List Text → Option Text
first_unreadable unreadable [] = none
first_unreadable unreadable (root ∷ roots) =
    let rest = first_unreadable unreadable roots in
    if is_among root unreadable then some root else rest

-- a match that is not refused
unfoldable pub select_path : List Text → Option Text → Option Text → Outcome
unfolding umbrella_dirname
select_path roots (some root) path_match = root_unreadable root roots
select_path roots none none = missing roots
select_path roots none (some path) =
    if is_among (umbrella_dirname path) roots
    then resolved path
    else outside_trust_roots path (umbrella_dirname path) roots

unfoldable pub revision_a : List Text → List Value → Option Text → Option Text → Result Outcome
unfolding select_path umbrella_inside_forbidden
revision_a roots forbidden unreadable none = ok (select_path roots unreadable none)
revision_a roots forbidden unreadable (some path) = do
  inside ← umbrella_inside_forbidden path forbidden
  ok (if inside then untrusted path roots else select_path roots unreadable (some path))

unfoldable pub revision_b : List Text → List Value → Search → Option Text → Result Outcome
unfolding umbrella_inside_forbidden
revision_b roots forbidden (failed root) path_match = ok (root_unreadable root roots)
revision_b roots forbidden (found path) path_match = do
  inside ← umbrella_inside_forbidden path forbidden
  ok (if inside then untrusted path roots else resolved path)
revision_b roots forbidden absent (some path) = ok (untrusted path roots)
revision_b roots forbidden absent none = ok (missing roots)

-- a value that is a trust root
abbrev is_root : List Text → Value → Bool
is_root roots (str s) = is_among (codes s) roots
is_root roots _ = false

abbrev pub unreadable_of : Fields → List Text
unreadable_of d = texts (elements (get d "unreadable_dirs"))

unfoldable pub check_unreadable : Fields → Check
unfolding umbrella_trust_roots
check_unreadable d =
    raise_if (not (all (is_root (umbrella_trust_roots d)) (elements (get d "unreadable_dirs"))))
      "marks non-root unreadable"

module _ (str_of : Value → Text) where
  -- `str(executable_name)`
  abbrev pub shown : Value → Text
  shown (str s) = codes s
  shown v = str_of v

  abbrev pub name_of : Fields → Text
  name_of d = shown (get d "executable_name")

  unfoldable pub umbrella_path_search : Fields → Option Text
  unfolding first_inside
  umbrella_path_search d =
      first_inside (name_of d) (umbrella_executables d) (texts (elements (get d "path_entries")))

  unfoldable pub umbrella_search : Fields → Search
  unfolding search_roots umbrella_trust_roots
  umbrella_search d =
      search_roots (name_of d) (umbrella_executables d) (unreadable_of d) (umbrella_trust_roots d)

  unfoldable pub expected_a : Fields → List Value → Result Outcome
  unfolding revision_a umbrella_path_search
  expected_a d forbidden =
      revision_a (umbrella_trust_roots d) forbidden
        (first_unreadable (unreadable_of d) (umbrella_trust_roots d)) (umbrella_path_search d)

  unfoldable pub expected_b : Fields → List Value → Result Outcome
  unfolding revision_b umbrella_path_search umbrella_search
  expected_b d forbidden =
      revision_b (umbrella_trust_roots d) forbidden (umbrella_search d) (umbrella_path_search d)

  unfoldable pub umbrella_expected : Fields → Result (Outcome × Outcome)
  unfolding check_unreadable forbidden_dirs expected_a expected_b
  umbrella_expected d = do
    _ ← check_unreadable d
    forbidden ← forbidden_dirs d
    a ← expected_a d forbidden
    b ← expected_b d forbidden
    ok (a, b)
