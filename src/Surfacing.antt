-- ===== src/Surfacing.antt =====
-- The S4 part of tools/validate.py: the names that pass to an environment, and the rows in which
-- declarations of MCP servers surface, as a printer and a parser. The parameters are json: `compact`
-- is json.dumps of a list of texts without white space, and `decode` is raw_decode of a text from an
-- index on, as the value and the number of the characters that it takes. None is an error.
pub mod Canon
pub mod Pass
use curator_spec.Text.Split.{after, before}
use curator_spec.Text.{is_empty, text_eq, has, codes, Text}
use curator_spec.Prelude.{
  Bool, Check, List, Option, Result, String, [], drop, err, false, if◌then◌else◌, none, not, ok,
  raise_if, some, str_eq, take, true, ℕ, ◌&&◌, ◌++◌, ◌>>=◌, ◌>>◌, ◌||◌, ◌∷◌,
}
use curator_spec.Text.Split.{without}
use curator_spec.Json.{
  no_items, is_str, obj, field_names, is_in, Fields, get, values, Value, str, arr,
}

pub record Row : Type 0 where
  pub package_name : Text
  pub version : Text
  pub transport : Text
  pub command : Text
  pub args : List Text
  pub env_names : List Text

-- S4_SURFACING_TRANSPORTS
abbrev pub is_transport : Text → Bool
is_transport t = text_eq t (codes "stdio") || text_eq t (codes "http")

abbrev pub is_http : Text → Bool
is_http t = text_eq t (codes "http")

-- what stands before and behind the first space
abbrev pub cut : Text → Result (Text × Text)
cut s = if has b' ' s then ok (before b' ' s, after b' ' s) else err "None"

abbrev pub remaining : Option Text → Result Text
remaining none = err "None"
remaining (some rest) = ok rest

-- what stands behind a prefix
abbrev pub behind : Text → Text → Result Text
behind p s = remaining (without s p)

-- a list of texts
abbrev pub texts_of : List Value → Result (List Text)
texts_of [] = ok []
texts_of (str s ∷ vs) = do ts ← texts_of vs; ok (codes s ∷ ts)
texts_of (v ∷ vs) = err "None"

abbrev pub array_of : Value → Result (List Text)
array_of (arr items) = texts_of (values items)
array_of _ = err "None"

abbrev pub is_nil : List Text → Bool
is_nil [] = true
is_nil (t ∷ ts) = false

abbrev pub check_lines : Text → Check
check_lines row = raise_if (has 10 row || has 13 row) "None"

abbrev pub check_head : Text → Text → Text → Check
check_head marker name version =
    raise_if (not (text_eq marker (codes "mcp-declaration")) || (is_empty name || is_empty version))
      "None"

abbrev pub check_transport : Text → Check
check_transport transport = raise_if (not (is_transport transport)) "None"

abbrev pub check_command : Text → Text → Check
check_command transport command =
    raise_if (is_empty command || (is_http transport && not (text_eq command (codes "-")))) "None"

abbrev pub check_end : Text → List Text → Text → Check
check_end transport args rest =
    raise_if (not (is_empty rest) || (is_http transport && not (is_nil args))) "None"

-- the row of a declaration, without the line feed, and its columns behind the transport
abbrev pub column_text : (List Text → Text) → Row → Text
column_text compact r =
    codes "command="
    ++ (r.command
        ++ b' '
          ∷ (codes "args=" ++ (compact r.args ++ (codes " env_names=" ++ compact r.env_names))))

unfoldable pub row_text : (List Text → Text) → Row → Text
row_text compact r =
    codes "mcp-declaration"
    ++ b' '
      ∷ (r.package_name
          ++ b' ' ∷ (r.version ++ b' ' ∷ (r.transport ++ b' ' ∷ column_text compact r)))

module _ (compact : List Text → Text) (decode : Text → Option (Value × ℕ)) where
  -- the decoded array, if it is compact, and what follows it
  abbrev pub array_at : Text → Option (Value × ℕ) → Result (List Text × Text)
  array_at s none = err "None"
  array_at s (some (v, n)) = do
    ts ← array_of v
    _ ← raise_if (not (text_eq (compact ts) (take n s))) "None"
    ok (ts, drop n s)

  -- a compact array of texts at the start of a text
  unfoldable pub read_array : Text → Result (List Text × Text)
  unfolding text_eq
  read_array s = array_at s (decode s)

  -- the columns behind the transport
  unfoldable pub read_columns : Text → Text → Text → Text → Result Row
  unfolding read_array without before after
  read_columns name version transport s = do
    s1 ← behind (codes "command=") s
    (command, s2) ← cut s1
    _ ← check_command transport command
    s3 ← behind (codes "args=") s2
    (args, s4) ← read_array s3
    s5 ← behind (codes " env_names=") s4
    (env_names, s6) ← read_array s5
    _ ← check_end transport args s6
    ok (record {
      package_name = name;
      version = version;
      transport = transport;
      command = command;
      args = args;
      env_names = env_names;
    })

  unfoldable pub s4_parse_surfacing_row : Text → Result Row
  unfolding read_columns
  s4_parse_surfacing_row row = do
    _ ← check_lines row
    (marker, r1) ← cut row
    (name, r2) ← cut r1
    (version, r3) ← cut r2
    (transport, r4) ← cut r3
    _ ← check_head marker name version
    _ ← check_transport transport
    read_columns name version transport r4

-- an array of texts, or the error of the message
abbrev array_or : String → Value → Result (List Text)
array_or message v = elim (array_of v) [ ok ts ↦ ok ts | err e ↦ err message ]

-- a text that is not empty
abbrev text_or : String → Value → Result Text
text_or message (str s) = if str_eq s "" then err message else ok (codes s)
text_or message _ = err message

abbrev is_no_items : Value → Bool
is_no_items (arr no_items) = true
is_no_items _ = false

-- the command and the arguments of the row
unfoldable pub command_of : Fields → Text → Result (Text × List Text)
unfolding get text_eq
command_of d transport =
    if is_http transport
    then (if is_in "command" (field_names d) && not (is_str (get d "command") "-")
        then err "http rows carry command=-"
        else if is_in "args" (field_names d) && not (is_no_items (get d "args"))
        then err "http rows carry args=[]"
        else ok (codes "-", []))
    else (do
      command ← text_or "stdio needs a command" (get d "command")
      args ← array_or "stdio args must be a string array" (get d "args")
      ok (command, args))

unfoldable pub check_declaration : Value → Result Row
unfolding command_of
check_declaration (obj d) = do
  name ← text_or "surfacing declaration needs a package name" (get d "package")
  version ← text_or "needs a version" (get d "version")
  transport ← text_or "transport must be stdio or http" (get d "transport")
  _ ← raise_if (not (is_transport transport)) "transport must be stdio or http"
  env_names ← array_or "env_names must be a string array" (get d "env_names")
  (command, args) ← command_of d transport
  ok (record {
    package_name = name;
    version = version;
    transport = transport;
    command = command;
    args = args;
    env_names = env_names;
  })
check_declaration _ = err "surfacing declaration must be an object"

unfoldable pub s4_surfacing_row : (List Text → Text) → Value → Result Text
unfolding check_declaration row_text
s4_surfacing_row compact v = do r ← check_declaration v; ok (row_text compact r)
