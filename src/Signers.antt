-- ===== src/Signers.antt =====
-- Signers of sources in tools/validate.py: the shape and the identity of a signer, the signatures of
-- a candidate, and the verdict on the top candidate of a source. What the code reads from a checked
-- dict again is read once here, into a record.
pub mod Authentic
pub mod Comment
pub mod Merge
pub mod Delta
pub mod Keys
pub mod Lines
pub mod Trigger
pub mod Quiet
pub mod Posture
pub mod Rows
use curator_spec.Text.Space.{words}
use curator_spec.Text.{codes, text_eq, Text}
use curator_spec.Prelude.{
  Bool, Check, List, Option, Ordering, Result, String, [], any, err, false, if◌then◌else◌, map,
  none, not, ok, raise_if, some, sort_by, true, ◌&&◌, ◌++◌, ◌>>=◌, ◌>>◌, ◌||◌, ◌∷◌,
}
use curator_spec.Text.Order.{compare_text}
use curator_spec.Json.{
  values, bool, is_null, one_of, is_str, Value, Fields, Items, null, str, arr, obj, get,
  has_exactly, item, no_items,
}

pub data Signer : Type 0 where
  ssh : String → Signer
  gpg : String → Signer

-- a signer with the text under its one key
abbrev signer_with : (String → Signer) → String → Fields → String → Result Signer
signer_with make key d message = elim (get d key) [
  | str s ↦ if has_exactly d ("type" ∷ key ∷ []) then ok (make s) else err message
  | _ ↦ err message
]

unfoldable pub check_signer_shape : Value → Result Signer
unfolding get
check_signer_shape (obj d) =
    if is_str (get d "type") "ssh"
    then signer_with ssh "key" d "an ssh signer is exactly { type, key }"
    else if is_str (get d "type") "gpg"
    then signer_with gpg "fingerprint" d "a gpg signer is exactly { type, fingerprint }"
    else err "a signer type must be ssh or gpg"
check_signer_shape _ = err "a signer must be an object"

pub data Identity : Type 0 where
  ssh_key : Text → Identity
  fingerprint : Text → Identity

-- `f"{fields[0]} {fields[1]}"`, if there are two fields
abbrev pub key_of : Text → List Text → Text
key_of key (a ∷ b ∷ fields) = a ++ b' ' ∷ b
key_of key fields = key

unfoldable pub signer_identity : Signer → Identity
unfolding words
signer_identity (ssh key) = ssh_key (key_of (codes key) (words (codes key)))
signer_identity (gpg print) = fingerprint (codes print)

-- `==` on identities
abbrev pub same_signer : Identity → Identity → Bool
same_signer (ssh_key s) (ssh_key t) = text_eq s t
same_signer (fingerprint s) (fingerprint t) = text_eq s t
same_signer _ _ = false

abbrev is_after : Ordering → Bool
is_after Ordering.gt = true
is_after _ = false

-- `>` on identities, which are pairs of a kind and a text
abbrev pub identity_after : Identity → Identity → Bool
identity_after (ssh_key s) (ssh_key t) = is_after (compare_text s t)
identity_after (fingerprint s) (fingerprint t) = is_after (compare_text s t)
identity_after (ssh_key s) (fingerprint t) = true
identity_after (fingerprint s) (ssh_key t) = false

pub record Signature : Type 0 where
  pub signer : Signer
  pub valid : Bool

abbrev signature_of : Signer → Value → Result (List Signature)
signature_of s (bool b) = ok (record { signer = s; valid = b } ∷ [])
signature_of s _ = err "a signature valid flag must be a boolean"

-- the signature, or nothing for None
unfoldable pub check_signature : Value → Result (List Signature)
unfolding check_signer_shape
check_signature null = ok []
check_signature (obj d) =
    if has_exactly d ("signer" ∷ "valid" ∷ [])
    then (do s ← check_signer_shape (get d "signer"); signature_of s (get d "valid"))
    else err "a signature is exactly { signer, valid }"
check_signature _ = err "a signature must be an object or null"

pub record Candidate : Type 0 where
  pub version : String
  pub signatures : List Signature

abbrev is_text : Value → Bool
is_text (str s) = true
is_text _ = false

-- what the form of a candidate asks of its tag and commit
unfoldable pub check_form : Fields → Check
unfolding get
check_form d =
    if not (one_of (get d "form") ("range" ∷ "tag" ∷ "revision" ∷ "path" ∷ []))
    then err "a candidate form must be range, tag, revision, or path"
    else if is_str (get d "form") "path"
    then raise_if (not (is_null (get d "tag")) || not (is_null (get d "commit")))
        "a path candidate carries no tag or commit"
    else if is_str (get d "form") "revision"
    then raise_if (not (is_null (get d "tag")) || not (is_text (get d "commit")))
        "a revision candidate carries a commit and no tag"
      >> raise_if (not (is_null (get d "tag_signature")))
          "tag-only signature evidence cannot satisfy the check"
    else raise_if (not (is_text (get d "tag")) || not (is_text (get d "commit")))
        "a range or tag candidate carries a tag and a commit"

unfoldable pub check_candidate : Value → Result Candidate
unfolding check_form check_signature
check_candidate (obj d) = elim (get d "version") [
  | str version ↦ do
    _ ← check_form d
    tag ← check_signature (get d "tag_signature")
    commit ← check_signature (get d "commit_signature")
    ok (record { version = version; signatures = tag ++ commit })
  | _ ↦ err "a candidate carries a version string"
]
check_candidate _ = err "a candidate carries a version string"

-- a check of every element, which keeps what it returns
abbrev pub map_each : {A : Type 0} → (Value → Result A) → List Value → Result (List A)
map_each check [] = ok []
map_each check (v ∷ vs) = do a ← check v; rest ← map_each check vs; ok (a ∷ rest)

-- `sorted({…})`
abbrev distinct_signers : List Identity → List Identity
distinct_signers [] = []
distinct_signers (i ∷ is) =
    let rest = distinct_signers is in if any (same_signer i) is then rest else i ∷ rest

unfoldable pub signers_of : List Signature → List Identity
unfolding sort_by signer_identity
signers_of ss = sort_by identity_after (distinct_signers (map (λ s. signer_identity s.signer) ss))

pub record Verification : Type 0 where
  pub verdict : String
  pub diagnostic : Option String
  pub selected : Option String
  pub lock_written : Bool
  pub signers_seen : List Identity

abbrev pub accept : Candidate → List Identity → Verification
accept top seen = record {
  verdict = "accepted";
  diagnostic = none;
  selected = some top.version;
  lock_written = true;
  signers_seen = seen;
}

abbrev pub refuse : String → List Identity → Verification
refuse d seen = record {
  verdict = "refused";
  diagnostic = some d;
  selected = none;
  lock_written = false;
  signers_seen = seen;
}

abbrev pub no_signatures : List Signature → Bool
no_signatures [] = true
no_signatures (s ∷ ss) = false

-- a valid signature of an allowed signer
abbrev pub is_allowed : List Signer → Signature → Bool
is_allowed allowed s =
    s.valid && any (λ a. same_signer (signer_identity s.signer) (signer_identity a)) allowed

-- the verdict under an allowlist
unfoldable pub verify_allowed : List Signer → Candidate → Verification
unfolding signers_of
verify_allowed allowed top =
    if no_signatures top.signatures
    then refuse "context_source_unsigned" (signers_of top.signatures)
    else if any (is_allowed allowed) top.signatures
    then accept top (signers_of top.signatures)
    else refuse "context_source_signer_rejected" (signers_of top.signatures)

-- the verdict on the top candidate of a repository
unfoldable pub verify_git : Option Items → Bool → Candidate → Result Verification
unfolding verify_allowed check_signer_shape
verify_git (some entries) require top = do
  allowed ← map_each check_signer_shape (values entries)
  ok (verify_allowed allowed top)
verify_git none true top = ok (refuse "context_source_signers_missing" (signers_of top.signatures))
verify_git none false top = ok (accept top (signers_of top.signatures))

unfoldable pub verify_path : Value → Option Items → Candidate → Result Verification
verify_path source none top =
    if is_null source
    then ok (accept top [])
    else err "a path source carries no source identity and no allowlist"
verify_path source (some entries) top =
    err "a path source carries no source identity and no allowlist"

-- `v is not None and not isinstance(v, list)`, and otherwise the list or nothing
abbrev pub allowlist_of : Value → Result (Option Items)
allowlist_of null = ok none
allowlist_of (arr entries) = ok (some entries)
allowlist_of _ = err "allowlist must be an array or null"

-- `v is not True and v is not False`, and otherwise the bool
abbrev pub require_of : Value → Result Bool
require_of (bool b) = ok b
require_of _ = err "require_source_signers must be a boolean"

-- the checked candidates, of which only the first is consulted
abbrev pub top_of : Value → Result Candidate
top_of (arr (item v rest)) = do
  top ← check_candidate v
  _ ← map_each check_candidate (values rest)
  ok top
top_of _ = err "candidates must be a non-empty array"

unfoldable pub check_kind : Fields → Check
unfolding get
check_kind d =
    raise_if (not (one_of (get d "source_kind") ("git" ∷ "path" ∷ [])))
      "source_kind must be git or path"

unfoldable pub verify : Fields → Option Items → Bool → Candidate → Result Verification
unfolding verify_path verify_git get
verify d allowlist require top =
    if is_str (get d "source_kind") "path"
    then verify_path (get d "source") allowlist top
    else verify_git allowlist require top

unfoldable pub e1_expected_verification : Fields → Result Verification
unfolding verify check_kind check_candidate
e1_expected_verification d = do
  _ ← check_kind d
  allowlist ← allowlist_of (get d "allowlist")
  require ← require_of (get d "require_source_signers")
  top ← top_of (get d "candidates")
  verify d allowlist require top
