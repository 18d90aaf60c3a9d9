-- ===== src/Sources/Accepted.antt =====
-- The Git sources that validate_repository_git of tools/validate.py matches.
use curator_spec.Prelude.{
  Bool, Option, Option-cases, String, [], all, any, ap, arith, false, if◌then◌else◌, inl, inr,
  length, ltb, none, refl, some, true, ℕ, ◌++◌, ◌∷◌, ◌≡◌, ◌≤◌,
}
use mathlib.Core.Path.{transport}
use curator_spec.Text.{is_empty, Text, codes, has}
use curator_spec.Text.Split.{
  without, without-eq, without-append, before-after, before, Lacks, before-append, after-append,
}
use curator_spec.Text.Space.{is_space}
use curator_spec.Sources.Git.{
  first_match, check_match, is_host_char, is_host, is_authority, path_after, https_path,
  ssh_uri_path, ssh_scp_path, match_repository, validate_repository_path, validate_repository_git,
  is_forbidden,
}

-- a text in two parts around a separator
pub record IsParts (test : Text → Bool) (sep : ℕ) (s path : Text) : Type 0 where
  pub front : Text
  pub passes : test front ≡ true
  pub whole : s ≡ front ++ sep ∷ path

path_after-IsParts :
    (test : Text → Bool) (sep : ℕ) (s path : Text)
    → path_after test sep s ≡ some path
    → IsParts test sep s path
unfolding path_after
path_after-IsParts test sep s path h =
    let split_here = before-after sep s in
    record { front = before sep s; passes = ground arith; whole = ground (arith, split_here) }

-- the three forms of a source, with its path and whether it is an SSH source
pub data IsSource (s : Text) : Text → Bool → Type 0 where
  https :
      (rest path : Text)
      → s ≡ codes "https://" ++ rest
      → IsParts is_host b'/' rest path
      → IsSource s path false
  ssh_uri :
      (rest path : Text)
      → s ≡ codes "ssh://" ++ rest
      → IsParts is_authority b'/' rest path
      → IsSource s path true
  ssh_scp : (path : Text) → IsParts is_authority b':' s path → IsSource s path true

https_path-IsParts :
    (s path : Text)
    → https_path s ≡ some path
    → (rest : Text) × (s ≡ codes "https://" ++ rest) × IsParts is_host b'/' rest path
unfolding https_path
https_path-IsParts s path h = elim (Option-cases (without s (codes "https://"))) [
  | inl e ↦ ground arith
  | inr (rest, e) ↦ (
    rest,
    without-eq s (codes "https://") rest e,
    path_after-IsParts is_host b'/' rest path (ground arith),
  )
]

ssh_uri_path-IsParts :
    (s path : Text)
    → ssh_uri_path s ≡ some path
    → (rest : Text) × (s ≡ codes "ssh://" ++ rest) × IsParts is_authority b'/' rest path
unfolding ssh_uri_path
ssh_uri_path-IsParts s path h = elim (Option-cases (without s (codes "ssh://"))) [
  | inl e ↦ ground arith
  | inr (rest, e) ↦ (
    rest,
    without-eq s (codes "ssh://") rest e,
    path_after-IsParts is_authority b'/' rest path (ground arith),
  )
]

IsSource-eq :
    (s p path : Text) (b ssh : Bool)
    → ◌≡◌ {A = Option (Text × Bool)} (some (p, b)) (some (path, ssh))
    → IsSource s p b
    → IsSource s path ssh
IsSource-eq s p path b ssh h source =
    let ep : p ≡ path = cc in
    let eb : b ≡ ssh = cc in transport (λ i. IsSource s (ep i) (eb i)) source

-- by the results of the three patterns
by_pattern-IsSource :
    (s path : Text) (ssh : Bool) (a b c : Option Text)
    → ((p : Text) → a ≡ some p → IsSource s p false)
    → ((p : Text) → b ≡ some p → IsSource s p true)
    → ((p : Text) → c ≡ some p → IsSource s p true)
    → first_match a b c ≡ some (path, ssh)
    → IsSource s path ssh
by_pattern-IsSource s path ssh (some p) b c ha hb hc h =
    IsSource-eq s p path false ssh h (ha p refl)
by_pattern-IsSource s path ssh none (some p) c ha hb hc h =
    IsSource-eq s p path true ssh h (hb p refl)
by_pattern-IsSource s path ssh none none (some p) ha hb hc h =
    IsSource-eq s p path true ssh h (hc p refl)
by_pattern-IsSource s path ssh none none none ha hb hc h = ground arith

match_repository-IsSource :
    (s path : Text) (ssh : Bool) → match_repository s ≡ some (path, ssh) → IsSource s path ssh
unfolding match_repository ssh_scp_path
match_repository-IsSource s path ssh h =
    by_pattern-IsSource s path ssh (https_path s) (ssh_uri_path s) (ssh_scp_path s)
      (λ p e. let (rest, k, parts) = https_path-IsParts s p e in https rest p k parts)
      (λ p e. let (rest, k, parts) = ssh_uri_path-IsParts s p e in ssh_uri rest p k parts)
      (λ p e. ssh_scp p (path_after-IsParts is_authority b':' s p e)) h

-- what an accepted source is
pub record IsAccepted (s : Text) : Type 0 where
  pub short : length s ≤ 4096
  pub path : Text
  pub ssh : Bool
  pub source : IsSource s path ssh
  pub path_ok : validate_repository_path path ssh ≡ none

not_refused :
    (b : Bool) (message : String) (rest : Option String)
    → (if b then some message else rest) ≡ none
    → (b ≡ false) × (rest ≡ none)
not_refused true message rest h = ground arith
not_refused false message rest h = (refl, h)

accept_match :
    (s : Text) (found : Option (Text × Bool))
    → length s ≤ 4096
    → match_repository s ≡ found
    → check_match found ≡ none
    → IsAccepted s
unfolding check_match
accept_match s none short e h = ground arith
accept_match s (some (path, ssh)) short e h = record {
  short = short;
  path = path;
  ssh = ssh;
  source = match_repository-IsSource s path ssh e;
  path_ok = h;
}

-- If a text is accepted as a Git source, it has at most 4096 characters and is "https://", a host,
-- "/" and a path, or "ssh://", a host with a user or without, "/" and a path, or such a host, ":"
-- and a path, where the path is one that is accepted for that form.
pub git-IsAccepted : (s : Text) → validate_repository_git (some s) ≡ none → IsAccepted s
unfolding validate_repository_git
git-IsAccepted s h =
    let (short, rest) = not_refused (ltb 4096 (length s)) _ _ h in
    accept_match s (match_repository s) (ground (arith, short)) refl rest

-- a character that no host has
host-Lacks : (c : ℕ) (s : Text) → is_host_char c ≡ false → all is_host_char s ≡ true → Lacks c s
host-Lacks c [] h k = refl
host-Lacks c (d ∷ s) h k = ground (arith, host-Lacks c s)

is_host-Lacks : (s : Text) → is_host s ≡ true → Lacks b'/' s
unfolding is_host
is_host-Lacks [] h = refl
is_host-Lacks (d ∷ s) h = ground (arith, host-Lacks b'/' s)

has-between : (c : ℕ) (s t : Text) → has c (s ++ c ∷ t) ≡ true
has-between c [] t = ground arith
has-between c (d ∷ s) t = ground (arith, has-between c s t)

no_line_feed : (s : Text) → any is_forbidden s ≡ false → has 10 s ≡ false
unfolding is_space
no_line_feed [] h = refl
no_line_feed (c ∷ s) h = ground (arith, no_line_feed s)

accepted_path-IsLine :
    (s : Text) (ssh : Bool)
    → validate_repository_path s ssh ≡ none
    → (is_empty s ≡ false) × (has 10 s ≡ false)
unfolding validate_repository_path
accepted_path-IsLine s ssh h = (ground arith, no_line_feed s (ground arith))

path_after-host :
    (host path : Text)
    → is_host host ≡ true
    → validate_repository_path path false ≡ none
    → path_after is_host b'/' (host ++ b'/' ∷ path) ≡ some path
unfolding path_after
path_after-host host path h k =
    let lacks = is_host-Lacks host h in
    let (filled, line) = accepted_path-IsLine path false k in
    ground (
      arith,
      has-between b'/' host path,
      before-append b'/' host path lacks,
      after-append b'/' host path lacks,
      ap is_host (before-append b'/' host path lacks),
      ap is_empty (after-append b'/' host path lacks),
      ap (has 10) (after-append b'/' host path lacks),
    )

-- Every text of "https://", a host, "/" and an accepted path is an accepted Git source, if it has
-- at most 4096 characters.
git-https :
    (host path : Text)
    → is_host host ≡ true
    → validate_repository_path path false ≡ none
    → length (codes "https://" ++ host ++ b'/' ∷ path) ≤ 4096
    → validate_repository_git (some (codes "https://" ++ host ++ b'/' ∷ path)) ≡ none
unfolding validate_repository_git match_repository https_path check_match
git-https host path h k n =
    ground (
      arith,
      without-append (codes "https://") (host ++ b'/' ∷ path),
      path_after-host host path h k,
    )
