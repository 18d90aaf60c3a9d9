-- ===== src/Signers/Posture.antt =====
-- The signer rows of a lock, `e1_expected_posture` of tools/validate.py.
use curator_spec.Prelude.{
  Bool, List, Result, String, [], all, any, err, false, if◌then◌else◌, not, ok, raise_if, sorted,
  true, unique, ◌&&◌, ◌++◌, ◌>>=◌, ◌>>◌, ◌||◌, ◌∷◌,
}
use curator_spec.Json.{
  Value, Fields, null, bool, str, arr, obj, get, is_in, is_str, one_of, values, field_names,
}
use curator_spec.Json.Read.{list_of}
use curator_spec.Signers.{Signer, check_signer_shape, signer_identity, same_signer}

pub record SignerRow : Type 0 where
  pub source : String
  pub state : String
  pub signer : Value
  pub current : Bool

abbrev pub signer_row : String → String → Value → Bool → SignerRow
signer_row source state signer current = record {
  source = source;
  state = state;
  signer = signer;
  current = current;
}

-- the source of a member, if it has one
abbrev pub source_in : Value → Result (List String)
source_in null = ok []
source_in (str s) = ok (s ∷ [])
source_in _ = err "a member source must be a string or null"

abbrev pub member_source : Value → Result (List String)
member_source (obj d) =
    if not (one_of (get d "kind") ("context" ∷ "mcp" ∷ "skill" ∷ []))
    then err "a member carries a kind of context, mcp, or skill"
    else elim (get d "name") [
      | str name ↦ source_in (get d "source")
      | _ ↦ err "a member carries a name"
    ]
member_source _ = err "a member carries a kind of context, mcp, or skill"

abbrev pub member_sources : List Value → Result (List String)
member_sources [] = ok []
member_sources (v ∷ vs) = do s ← member_source v; rest ← member_sources vs; ok (s ++ rest)

abbrev pub shapes : List Value → Result (List Signer)
shapes [] = ok []
shapes (v ∷ vs) = do s ← check_signer_shape v; rest ← shapes vs; ok (s ∷ rest)

-- a verified signer, which must be in the allowlist
abbrev pub verified_row : String → Value → Value → Result SignerRow
verified_row source signer entries = do
  s ← check_signer_shape signer
  allowed ← list_of entries >>= shapes
  (if any (λ a. same_signer (signer_identity s) (signer_identity a)) allowed
      then ok (signer_row source "enforced" signer true)
      else err "the verified signer must sit in the source allowlist")

-- the row of a source with an allowlist, by its local re-verification
abbrev pub enforced_row : String → Value → Value → Result SignerRow
enforced_row source (obj d) entries =
    if is_str (get d "verdict") "verified"
    then verified_row source (get d "signer") entries
    else if is_str (get d "verdict") "unknown"
    then ok (signer_row source "enforced" (str "unknown") true)
    else if is_str (get d "verdict") "fails"
    then ok (signer_row source "enforced" (str "unknown") false)
    else err "a local verdict must be verified, unknown, or fails"
enforced_row source _ entries = err "a local verdict must be verified, unknown, or fails"

unfoldable pub row_of : Fields → Fields → Bool → String → Result SignerRow
unfolding check_signer_shape signer_identity get
row_of allowlists local require source =
    if is_in source (field_names allowlists)
    then (if is_in source (field_names local)
        then enforced_row source (get local source) (get allowlists source)
        else err "an enforced source needs its local re-verification")
    else if require
    then ok (signer_row source "required-missing" null true)
    else ok (signer_row source "unconfigured" null true)

abbrev pub rows_of : Fields → Fields → Bool → List String → Result (List SignerRow)
rows_of allowlists local require [] = ok []
rows_of allowlists local require (source ∷ sources) = do
  row ← row_of allowlists local require source
  rest ← rows_of allowlists local require sources
  ok (row ∷ rest)

abbrev pub dict_of : Value → String → Result Fields
dict_of (obj d) message = ok d
dict_of _ message = err message

abbrev pub bool_of : Value → Result Bool
bool_of (bool b) = ok b
bool_of _ = err "require_source_signers must be a boolean"

-- `isinstance(members, list) and members`
abbrev pub members_in : Value → Result (List Value)
members_in (arr items) = elim (values items) [
  | [] ↦ err "members must be a non-empty array"
  | v ∷ vs ↦ ok (v ∷ vs)
]
members_in _ = err "members must be a non-empty array"

-- `set(local) == {source for source in sources if source in allowlists}`
abbrev pub covers_enforced : Fields → Fields → List String → Bool
covers_enforced allowlists local sources =
    all (λ s. is_in s sources && is_in s (field_names allowlists)) (field_names local)
    && all (λ s. not (is_in s (field_names allowlists)) || is_in s (field_names local)) sources

unfoldable pub e1_expected_posture : Fields → Result (List SignerRow × Bool)
unfolding row_of get sorted unique
e1_expected_posture c = do
  members ← members_in (get c "members")
  sources ← member_sources members
  allowlists ← dict_of (get c "allowlists") "allowlists must be an object"
  require ← bool_of (get c "require_source_signers")
  local ← dict_of (get c "local") "local must be an object"
  rows ← rows_of allowlists local require (sorted (unique sources))
  raise_if (not (covers_enforced allowlists local sources))
      "local covers exactly the enforced sources"
  ok (rows, require)
