-- ===== src/Signers/Delta.antt =====
-- The lock members, their pins and snapshots, and the delta of an update: e1_member_pin,
-- e1_check_lock_members, e1_expected_delta and e1_revision_outcomes of tools/validate.py.
use curator_spec.Text.Split.{join}
use curator_spec.Text.{codes, Text}
use curator_spec.Prelude.{
  Bool, List, Option, Result, String, [], all, any, err, false, if◌then◌else◌, leb, length, map,
  none, ok, raise_if, some, sort_by, str_eq, text_after, true, ℕ, ◌&&◌, ◌++◌, ◌==◌, ◌>>=◌, ◌||◌,
  ◌∷◌,
}
use curator_spec.Json.{values, is_in, Value, Fields, null, str, arr, obj, get}

pub data Pin : Type 0 where
  commit : String → Pin
  state : String → Pin

-- the hex of a pin
abbrev pub hex_of : Pin → String
hex_of (commit h) = h
hex_of (state h) = h

-- `==` on pins
abbrev pub same_pin : Pin → Pin → Bool
same_pin (commit g) (commit h) = str_eq g h
same_pin (state g) (state h) = str_eq g h
same_pin _ _ = false

abbrev is_hex : ℕ → Bool
is_hex c = (leb b'0' c && leb c b'9') || (leb b'a' c && leb c b'f')

-- `[0-9a-f]{n}`
abbrev is_hex_text : ℕ → String → Bool
is_hex_text n s = length (codes s) == n && all is_hex (codes s)

abbrev text_at : Fields → String → Option String
text_at d key = elim (get d key) [ str s ↦ some s | _ ↦ none ]

abbrev pin_of : Option String → Option String → Result Pin
pin_of (some h) none =
    if is_hex_text 40 h then ok (commit h) else err "a commit pin is 40 lowercase hex"
pin_of none (some h) =
    if is_hex_text 64 h then ok (state h) else err "a state pin is 64 lowercase hex"
pin_of _ _ = err "a member carries exactly one of commit or state_sha256"

unfoldable pub e1_member_pin : Fields → Result Pin
unfolding get
e1_member_pin d = pin_of (text_at d "commit") (text_at d "state_sha256")

pub record LockMember : Type 0 where
  pub kind : String
  pub name : String
  pub version : Option String
  pub pin : Pin

abbrev member_kinds : List String
member_kinds = "context" ∷ "mcp" ∷ "skill" ∷ []

-- None or a text
abbrev checked_version : Value → Result (Option String)
checked_version null = ok none
checked_version (str s) = ok (some s)
checked_version _ = err "a member version must be a string or null"

abbrev checked_name : Value → Result String
checked_name (str s) = ok s
checked_name _ = err "a member carries a name"

abbrev checked_kind : Value → Result String
checked_kind (str s) =
    if is_in s member_kinds then ok s else err "a member carries a kind of context, mcp, or skill"
checked_kind _ = err "a member carries a kind of context, mcp, or skill"

unfoldable pub check_member : Value → Result LockMember
unfolding e1_member_pin
check_member (obj d) = do
  kind ← checked_kind (get d "kind")
  name ← checked_name (get d "name")
  version ← checked_version (get d "version")
  pin ← e1_member_pin d
  ok (record { kind = kind; name = name; version = version; pin = pin })
check_member _ = err "a member carries a kind of context, mcp, or skill"

-- `(kind, name)`
abbrev pub Key : Type 0
Key = String × String

abbrev pub member_key : LockMember → Key
member_key m = (m.kind, m.name)

abbrev pub same_key : Key → Key → Bool
same_key (k, n) (l, o) = str_eq k l && str_eq n o

abbrev pub has_key : Key → List LockMember → Bool
has_key k ms = any (λ m. same_key k (member_key m)) ms

-- the members behind those that were checked before, each key once
unfoldable pub check_members : List LockMember → List Value → Result (List LockMember)
unfolding check_member
check_members ms [] = ok ms
check_members ms (v ∷ vs) = do
  m ← check_member v
  _ ← raise_if (has_key (member_key m) ms) "a lock names one member per kind and name"
  check_members (ms ++ m ∷ []) vs

unfoldable pub e1_check_lock_members : Value → Result (List LockMember)
unfolding check_members
e1_check_lock_members (arr items) = check_members [] (values items)
e1_check_lock_members _ = err "lock members must be an array"

-- `members.get(key)`
unfoldable pub member_at : Key → List LockMember → Option LockMember
member_at k [] = none
member_at k (m ∷ ms) =
    let rest = member_at k ms in if same_key k (member_key m) then some m else rest

-- `>` on keys
abbrev pub key_after : Key → Key → Bool
key_after (k, n) (l, o) = if str_eq k l then text_after n o else text_after k l

-- `sorted(set(old) | set(new))`
abbrev pub distinct_keys : List Key → List Key
distinct_keys [] = []
distinct_keys (k ∷ ks) =
    let rest = distinct_keys ks in if any (same_key k) ks then rest else k ∷ rest

unfoldable pub all_keys : List LockMember → List LockMember → List Key
unfolding sort_by
all_keys old new = sort_by key_after (distinct_keys (map member_key old ++ map member_key new))

-- a line of the delta, before it is printed
pub data Line : Type 0 where
  added : LockMember → Line
  removed : LockMember → Line
  moved : LockMember → LockMember → Line

abbrev pub same_version : Option String → Option String → Bool
same_version none none = true
same_version (some v) (some w) = str_eq v w
same_version _ _ = false

-- the same version and pin
abbrev pub unmoved : LockMember → LockMember → Bool
unmoved before after = same_version before.version after.version && same_pin before.pin after.pin

-- the line of a key, if there is one
unfoldable pub line_of : Option LockMember → Option LockMember → List Line
line_of none none = []
line_of none (some m) = added m ∷ []
line_of (some m) none = removed m ∷ []
line_of (some before) (some after) = if unmoved before after then [] else moved before after ∷ []

unfoldable pub lines_for : List LockMember → List LockMember → List Key → List Line
unfolding line_of member_at
lines_for old new [] = []
lines_for old new (k ∷ ks) = line_of (member_at k old) (member_at k new) ++ lines_for old new ks

unfoldable pub delta_lines : List LockMember → List LockMember → List Line
unfolding lines_for all_keys
delta_lines old new = lines_for old new (all_keys old new)

-- how a line is printed
abbrev version_text : Option String → Text
version_text none = codes "-"
version_text (some v) = codes v

abbrev pin_text : Pin → Text
pin_text (commit h) = codes "commit:" ++ codes h
pin_text (state h) = codes "state:" ++ codes h

abbrev line_text : List Text → Text
line_text parts = join b' ' parts

unfoldable pub print_line : Line → Text
unfolding join
print_line (added m) = line_text (
    codes "lock-delta"
    ∷ codes "added"
    ∷ codes m.kind
    ∷ codes m.name
    ∷ version_text m.version
    ∷ pin_text m.pin
    ∷ [])
print_line (removed m) = line_text (
    codes "lock-delta"
    ∷ codes "removed"
    ∷ codes m.kind
    ∷ codes m.name
    ∷ version_text m.version
    ∷ pin_text m.pin
    ∷ [])
print_line (moved m n) = line_text (
    codes "lock-delta"
    ∷ codes "moved"
    ∷ codes n.kind
    ∷ codes n.name
    ∷ version_text m.version
    ∷ codes "→"
    ∷ version_text n.version
    ∷ pin_text m.pin
    ∷ codes "→"
    ∷ pin_text n.pin
    ∷ [])
