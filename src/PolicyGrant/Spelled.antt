-- ===== src/PolicyGrant/Spelled.antt =====
-- The spelling of a remote that canonical_remote of tools/workspace_policy_grant.py gives.
use mathlib.Core.Path.{transport}
use curator_spec.Prelude.{
  ==_iff, >>=-eq-ok, Bool, Bool-cases, Elem, Option, Result, String, [], any, any-No, ap, arith,
  false, if-false, if-true, if◌then◌else◌, inl, inr, ltb, none, not, ok, ok-eq, pos, refl, same_int,
  some, sym, true, ||-false, ℕ, ◌&&◌, ◌++◌, ◌==◌, ◌>>=◌, ◌||◌, ◌∙◌, ◌∷◌, ◌≡◌, ◌≢◌, ◌≤◌, ◌⊎◌,
}
use curator_spec.Text.{text_eq-eq, Text, codes, has, starts_with, is_empty, text_eq, text_eq_refl}
use curator_spec.Text.Split.{split}
use curator_spec.Text.Space.{is_space}
use curator_spec.Text.Decimal.{decimal}
use curator_spec.Json.{Value, null, int, str, is_str}
use curator_spec.Json.Names.{str_eq_iff}
use curator_spec.Json.Read.{is_text, equals_codes, ◌!◌}
use curator_spec.PolicyGrant.Remote.{
  equals_remote, port_part, is_remote, canonical_remote, text_of, is_dotted, is_refused,
  is_repository_path, user_part,
}

-- A path of a repository: absolute, with components that are names, and without a character that
-- an address gives another sense.
pub record IsRepositoryPath (path : Text) : Type 0 where
  pub rest : Text
  pub absolute : path ≡ b'/' ∷ rest
  pub names :
      (part : Text)
      → Elem part (split b'/' rest)
      → (part ≢ []) × (part ≢ codes ".") × (part ≢ codes "..")
  pub plain : (c : ℕ) → Elem c path → ¬ Elem c (codes "%?#\\") × (is_space c ≡ false) × (32 ≤ c)

-- The user in front of the host, in an address of SSH only.
abbrev pub HasUser : Result Value → String → Text → Type 0
HasUser destination scheme user =
    (scheme ≡ "ssh"
      → (u : String) × (destination ! "user" ≡ ok (str u)) × (user ≡ codes u ++ b'@' ∷ []))
    × (scheme ≢ "ssh" → user ≡ [])

-- A port behind the host, if it is an integer: none is written for the default port.
abbrev pub HasPort : Result Value → String → Text → Type 0
HasPort destination scheme port =
    (n : ℕ)
    → destination ! "port" ≡ ok (int (pos n))
    → (scheme ≡ "ssh" → n ≡ 22 → port ≡ [])
      × (scheme ≢ "ssh" → n ≡ 443 → port ≡ [])
      × (scheme ≡ "ssh" → n ≢ 22 → port ≡ b':' ∷ decimal n)
      × (scheme ≢ "ssh" → n ≢ 443 → port ≡ b':' ∷ decimal n)

-- A text spells a destination: transport, user, host, port and path in their order.
pub record Spells (destination : Result Value) (text : Text) : Type 0 where
  pub scheme : String
  pub host : String
  pub path : String
  pub user : Text
  pub port : Text
  pub has_scheme : destination ! "transport" ≡ ok (str scheme)
  pub has_host : destination ! "host" ≡ ok (str host)
  pub has_path : destination ! "repository_path" ≡ ok (str path)
  pub good_path : IsRepositoryPath (codes path)
  pub has_user : HasUser destination scheme user
  pub has_port : HasPort destination scheme port
  pub whole : text ≡ codes scheme ++ codes "://" ++ user ++ codes host ++ port ++ codes path

-- A value is the spelling of a destination, or it is null.
abbrev pub IsSpelling : Value → Result Value → Type 0
IsSpelling v destination = (v ≡ null) ⊎ ((s : String) × (v ≡ str s) × Spells destination (codes s))

text_of-str : (v : Value) (t : Text) → text_of v ≡ ok t → (s : String) × (v ≡ str s) × (t ≡ codes s)
text_of-str (str s) t h = (s, refl, sym (ok-eq h))
text_of-str _ t h = absurd (cc)

differs_from : (s t : Text) → text_eq s t ≡ false → s ≢ t
differs_from s t h e =
    let q : text_eq s t ≡ true = ap (λ x. text_eq x t) e ∙ text_eq_refl t in
    absurd (ground (arith, h, q))

good_name : (s : Text) → is_dotted s ≡ false → (s ≢ []) × (s ≢ codes ".") × (s ≢ codes "..")
good_name s h =
    let (a, h1) = ||-false (is_empty s) _ h in
    let (b, c) = ||-false (text_eq s (codes ".")) (text_eq s (codes "..")) h1 in
    (
      (λ e. absurd (let q = ap is_empty e in ground (arith, a, q))),
      differs_from s (codes ".") b,
      differs_from s (codes "..") c,
    )

is_plain :
    (c : ℕ) → is_refused c ≡ false → ¬ Elem c (codes "%?#\\") × (is_space c ≡ false) × (32 ≤ c)
is_plain c h =
    let (a, h1) = ||-false (has c (codes "%?#\\")) (is_space c || ltb c 32) h in
    let (b, d) = ||-false (is_space c) (ltb c 32) h1 in
    (
      (λ m. absurd (let q = any-No (λ x. x == c) (codes "%?#\\") a c m in ground arith)),
      b,
      ground arith,
    )

repository_path : (path : Text) → is_repository_path path ≡ true → IsRepositoryPath path
unfolding is_repository_path starts_with
repository_path [] h = absurd (ground arith)
repository_path (c ∷ rest) h =
    let bad = any is_dotted (split b'/' rest) in
    let refused = any is_refused (c ∷ rest) in
    let (a, b, d) = path_tests (c == b'/') bad refused h in
    record {
      rest = rest;
      absolute = ap (λ x. x ∷ rest) ((==_iff c b'/').0 a);
      names = λ part m. good_name part (any-No is_dotted (split b'/' rest) b part m);
      plain = λ x m. is_plain x (any-No is_refused (c ∷ rest) d x m);
    }
  where
    path_tests :
        (a b c : Bool)
        → ((a && true) && (not b && not c)) ≡ true
        → (a ≡ true) × (b ≡ false) × (c ≡ false)
    path_tests a b c h = (ground arith, ground arith, ground arith)

user_part-HasUser :
    (destination : Result Value) (scheme : String) (ssh : Bool) (user : Text)
    → is_str (str scheme) "ssh" ≡ ssh
    → user_part ssh (destination ! "user") ≡ ok user
    → HasUser destination scheme user
user_part-HasUser destination scheme true user e h =
    let (v, f, h1) = >>=-eq-ok (destination ! "user") _ h in
    let (t, g, h2) = >>=-eq-ok (text_of v) _ h1 in
    let (u, p, q) = text_of-str v t g in
    (
      λ _. (u, f ∙ ap ok p, sym (ok-eq h2) ∙ ap (λ x. x ++ b'@' ∷ []) q),
      λ n. absurd (n ((str_eq_iff scheme "ssh").0 e)),
    )
user_part-HasUser destination scheme false user e h = (
  λ s. absurd (let q = (str_eq_iff scheme "ssh").1 s in ground (arith, e, q)),
  λ _. sym (ok-eq h),
)

some-eq : {a b : Text} → some a ≡ some b → a ≡ b
some-eq h = ap (λ o. elim o [ none ↦ [] | some x ↦ x ]) h

not_equal : (m n : ℕ) → m ≢ n → (m == n) ≡ false
not_equal m n h = elim (Bool-cases (m == n)) [ inl e ↦ absurd (h ((==_iff m n).0 e)) | inr e ↦ e ]

port_by :
    (ssh d : Bool) (n : ℕ) (port : Text)
    → (if d then ok [] else ok (b':' ∷ decimal n)) ≡ ok port
    → (d ≡ true → port ≡ []) × (d ≡ false → port ≡ b':' ∷ decimal n)
port_by ssh true n port h = (λ _. sym (ok-eq h), λ e. absurd (ground arith))
port_by ssh false n port h = (λ e. absurd (ground arith), λ _. sym (ok-eq h))

port_part-HasPort :
    (destination : Result Value) (scheme : String) (ssh : Bool) (port : Text)
    → is_str (str scheme) "ssh" ≡ ssh
    → (destination ! "port" >>= port_part ssh) ≡ ok port
    → HasPort destination scheme port
unfolding same_int
port_part-HasPort destination scheme true port e h n p =
    let q : port_part true (int (pos n)) ≡ ok port = ap (λ x. x >>= port_part true) (sym p) ∙ h in
    let (a, b) = port_by true (n == 22) n port q in
    (
      (λ s m. a ((==_iff n 22).1 m)),
      (λ s m. absurd (s ((str_eq_iff scheme "ssh").0 e))),
      (λ s m. b (not_equal n 22 m)),
      λ s m. absurd (s ((str_eq_iff scheme "ssh").0 e)),
    )
port_part-HasPort destination scheme false port e h n p =
    let q : port_part false (int (pos n)) ≡ ok port = ap (λ x. x >>= port_part false) (sym p) ∙ h in
    let (a, b) = port_by false (n == 443) n port q in
    let other : scheme ≢ "ssh" =
      λ s. absurd (let r = (str_eq_iff scheme "ssh").1 s in ground (arith, e, r)) in
    (
      (λ s m. absurd (other s)),
      (λ s m. a ((==_iff n 443).1 m)),
      (λ s m. absurd (other s)),
      λ s m. b (not_equal n 443 m),
    )

whole_of :
    (scheme host path : String) (way user name port place text : Text)
    → ok (some (way ++ codes "://" ++ user ++ name ++ port ++ place)) ≡ ok (some text)
    → way ≡ codes scheme
    → name ≡ codes host
    → place ≡ codes path
    → text ≡ codes scheme ++ codes "://" ++ user ++ codes host ++ port ++ codes path
whole_of scheme host path way user name port place text h w o p =
    sym (some-eq (ok-eq h))
    ∙ ap (λ x. x ++ codes "://" ++ user ++ name ++ port ++ place) w
    ∙ ap (λ x. codes scheme ++ codes "://" ++ user ++ x ++ port ++ place) o
    ∙ ap (λ x. codes scheme ++ codes "://" ++ user ++ codes host ++ port ++ x) p

canonical-Spells :
    (destination : Result Value) (text : Text)
    → canonical_remote destination ≡ ok (some text)
    → Spells destination text
unfolding canonical_remote
canonical-Spells destination text h =
    let (path, e, h1) = >>=-eq-ok (destination ! "repository_path" >>= text_of) _ h in
    let (pv, e1, e2) = >>=-eq-ok (destination ! "repository_path") text_of e in
    let (ps, pe, pt) = text_of-str pv path e2 in
    elim (Bool-cases (is_repository_path path)) [
      | inr f ↦ absurd (let q = sym (if-true _ _ (ap not f)) ∙ h1 in cc)
      | inl t ↦
          let h2 = sym (if-false _ _ (ap not t)) ∙ h1 in
          let (ssh, s, h3) = >>=-eq-ok (is_text (destination ! "transport") "ssh") _ h2 in
          let (user, u, h4) = >>=-eq-ok (user_part ssh (destination ! "user")) _ h3 in
          let (host, o, h5) = >>=-eq-ok (destination ! "host" >>= text_of) _ h4 in
          let (hv, o1, o2) = >>=-eq-ok (destination ! "host") text_of o in
          let (hs, he, ht) = text_of-str hv host o2 in
          let (port, p, h6) = >>=-eq-ok (destination ! "port" >>= port_part ssh) _ h5 in
          let (way, w, h7) = >>=-eq-ok (destination ! "transport" >>= text_of) _ h6 in
          let (wv, w1, w2) = >>=-eq-ok (destination ! "transport") text_of w in
          let (ws, we, wt) = text_of-str wv way w2 in
          let is_ssh : is_str (str ws) "ssh" ≡ ssh =
            ok-eq (ap (λ x. is_text x "ssh") (sym (w1 ∙ ap ok we)) ∙ s) in
          record {
            scheme = ws;
            host = hs;
            path = ps;
            user = user;
            port = port;
            has_scheme = w1 ∙ ap ok we;
            has_host = o1 ∙ ap ok he;
            has_path = e1 ∙ ap ok pe;
            good_path = transport (ap IsRepositoryPath pt) (repository_path path t);
            has_user = user_part-HasUser destination ws ssh user is_ssh u;
            has_port = port_part-HasPort destination ws ssh port is_ssh p;
            whole = whole_of ws hs ps way user host port path text h7 wt ht pt;
          }
    ]

equals_codes-str :
    (v : Value) (t : Text) → equals_codes v t ≡ true → (s : String) × (v ≡ str s) × (codes s ≡ t)
equals_codes-str (str s) t h = (s, refl, text_eq-eq (codes s) t h)
equals_codes-str _ t h = absurd (ground arith)

equals_remote-IsSpelling :
    (v : Value) (found : Option Text) (destination : Result Value)
    → canonical_remote destination ≡ ok found
    → equals_remote v found ≡ true
    → IsSpelling v destination
equals_remote-IsSpelling null none destination e h = inl refl
equals_remote-IsSpelling v (some t) destination e h =
    let (s, p, q) = equals_codes-str v t h in
    inr (s, p, transport (ap (Spells destination) (sym q)) (canonical-Spells destination t e))
equals_remote-IsSpelling _ none destination e h = absurd (ground arith)

pub remote-IsSpelling :
    (spelling destination : Result Value)
    → is_remote spelling destination ≡ ok true
    → (v : Value) × (spelling ≡ ok v) × IsSpelling v destination
unfolding is_remote
remote-IsSpelling spelling destination h =
    let (v, e, h1) = >>=-eq-ok spelling _ h in
    let (found, f, h2) = >>=-eq-ok (canonical_remote destination) _ h1 in
    (v, e, equals_remote-IsSpelling v found destination f (ok-eq h2))
