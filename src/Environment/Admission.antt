-- ===== src/Environment/Admission.antt =====
-- The admission of system modules, as a choice among the entries of a lock in emitted order.
use mathlib.Core.Path.{transport}
use curator_spec.Prelude.{
  >>=-eq-ok, Bool, Bool-cases, Elem, List, String, [], all, ap, arith, false, if◌then◌else◌, inl,
  inr, keep, keep-Elem, not, ok, ok-eq, refl, sym, true, ◌++◌, ◌>>=◌, ◌↔◌, ◌∙◌, ◌∷◌, ◌≡◌, ◌⊎◌,
}
use curator_spec.Json.{Value, Fields}
use curator_spec.Resolution.{index}
use curator_spec.Resolution.Members.{Member}
use curator_spec.Environment.Order.{Lock, environment_emitted_order}
use curator_spec.Environment.Offers.{all_entries, Offers, entries_iff}
use curator_spec.Environment.Direct.{
  HasWaivers, IsDirect, IsWaived, policy-HasWaivers, admitted_iff,
}
use curator_spec.Environment.Modules.{
  put_entries, PackageModule, Entry, entries_of, environment_applicable, is_admitted, Admission,
  admit_members, environment_machine_policy, environment_direct_packages,
  environment_system_prompt_admission,
}

keep-append_by :
    {A : Type 0} (b : Bool) (x : A) (all some_kept others : List A)
    → all ≡ some_kept ++ others
    → elim b [ true ↦ x ∷ all | false ↦ all ]
      ≡ elim b [ true ↦ x ∷ some_kept | false ↦ some_kept ] ++ others
keep-append_by true x all some_kept others h = ap (λ r. x ∷ r) h
keep-append_by false x all some_kept others h = h

keep-append :
    {A : Type 0} (test : A → Bool) (xs ys : List A)
    → keep test (xs ++ ys) ≡ keep test xs ++ keep test ys
unfolding keep
keep-append test [] ys = refl
keep-append test (x ∷ xs) ys =
    keep-append_by (test x) x (keep test (xs ++ ys)) (keep test xs) (keep test ys)
      (keep-append test xs ys)

-- entries of one package are kept or left together
keep-entries_of :
    (test : String → Bool) (name : String) (modules : List PackageModule) (b : Bool)
    → test name ≡ b
    → keep (λ e. test e.0) (entries_of name modules) ≡ (if b then entries_of name modules else [])
unfolding keep
keep-entries_of test name [] true h = refl
keep-entries_of test name [] false h = refl
keep-entries_of test name (m ∷ ms) true h =
    rw h (ap (λ r. (name, m.path) ∷ r) (keep-entries_of test name ms true h))
keep-entries_of test name (m ∷ ms) false h = rw h (keep-entries_of test name ms false h)

module _ (packages : List (String × List PackageModule)) (environment : String) where
  record IsSplit (admits : String → Bool) (ms : List Member) (admitted dropped : List Entry)
      : Type 0 where
    pub entries : List Entry
    pub are_entries : all_entries packages environment ms ≡ ok entries
    pub are_admitted : admitted ≡ keep (λ e. admits e.0) entries
    pub are_dropped : dropped ≡ keep (λ e. not (admits e.0)) entries

  keep-package :
      (test : String → Bool) (name : String) (modules : List PackageModule) (rest : List Entry)
      (b : Bool)
      → test name ≡ b
      → keep (λ e. test e.0) (entries_of name modules ++ rest)
        ≡ (if b then entries_of name modules else []) ++ keep (λ e. test e.0) rest
  keep-package test name modules rest b h =
      keep-append (λ e. test e.0) (entries_of name modules) rest
      ∙ ap (λ r. r ++ keep (λ e. test e.0) rest) (keep-entries_of test name modules b h)

  put_entries-keep :
      (admits : String → Bool) (name : String) (modules : List PackageModule) (b : Bool)
      (a d rest : List Entry)
      → admits name ≡ b
      → a ≡ keep (λ e. admits e.0) rest
      → d ≡ keep (λ e. not (admits e.0)) rest
      → ((put_entries b (entries_of name modules) (a, d)).0
          ≡ keep (λ e. admits e.0) (entries_of name modules ++ rest))
        × ((put_entries b (entries_of name modules) (a, d)).1
            ≡ keep (λ e. not (admits e.0)) (entries_of name modules ++ rest))
  put_entries-keep admits name modules true a d rest h p q = (
    ap (λ r. entries_of name modules ++ r) p ∙ sym (keep-package admits name modules rest true h),
    q ∙ sym (keep-package (λ n. not (admits n)) name modules rest false (ap not h)),
  )
  put_entries-keep admits name modules false a d rest h p q = (
    p ∙ sym (keep-package admits name modules rest false h),
    ap (λ r. entries_of name modules ++ r) q
        ∙ sym (keep-package (λ n. not (admits n)) name modules rest true (ap not h)),
  )

  admit_members-IsSplit :
      (admits : String → Bool) (ms : List Member) (a d : List Entry)
      → admit_members packages environment admits ms ≡ ok (a, d)
      → IsSplit admits ms a d
  unfolding admit_members all_entries keep
  admit_members-IsSplit admits [] a d h =
      let same = ok-eq h in
      record {
        entries = [];
        are_entries = refl;
        are_admitted = sym (ap (λ p. p.0) same);
        are_dropped = sym (ap (λ p. p.1) same);
      }
  admit_members-IsSplit admits (m ∷ ms) a d h =
      let (modules, e, h1) = >>=-eq-ok (index m.name packages) _ h in
      let ((a', d'), f, h2) = >>=-eq-ok (admit_members packages environment admits ms) _ h1 in
      let later = admit_members-IsSplit admits ms a' d' f in
      let chosen = environment_applicable modules environment "system" in
      let (p, q) =
        put_entries-keep admits m.name chosen (admits m.name) a' d' later.entries refl
          later.are_admitted later.are_dropped in
      record {
        entries = entries_of m.name chosen ++ later.entries;
        are_entries =
            ap
              (λ o. o >>= λ modules. all_entries packages environment ms >>= λ rest.
                ok
                  (entries_of m.name (environment_applicable modules environment "system") ++ rest))
              e
            ∙ ap (λ o. o >>= λ rest. ok (entries_of m.name chosen ++ rest)) later.are_entries;
        are_admitted = sym (ap (λ p. p.0) (ok-eq h2)) ∙ p;
        are_dropped = sym (ap (λ p. p.1) (ok-eq h2)) ∙ q;
      }

  -- What the admission of system modules returns: which of the modules that are offered are admitted,
  -- and which are dropped.
  pub record IsDivided (lock : Lock) (precedence : Value) (case : Fields) (r : Admission)
      : Type 0 where
    pub order : List Member
    pub is_order : environment_emitted_order lock precedence ≡ ok order
    pub waivers : List Value
    pub are_waivers : HasWaivers case waivers
    pub admitted :
        (name path : String)
        → Elem (name, path) r.admitted ↔ (
            Offers packages environment order name path
            × (IsDirect lock name ⊎ IsWaived waivers name))
    pub dropped :
        (name path : String)
        → Elem (name, path) r.dropped ↔ (
            Offers packages environment order name path
            × ¬ (IsDirect lock name ⊎ IsWaived waivers name))

  -- The admission of system modules divides the modules of class system that the packages of the
  -- emitted members offer to the environment. A module is admitted exactly if its package is the root,
  -- an overlay, required by the root or an overlay, or waived by the policy of the machine, and it is
  -- dropped exactly if its package is none of these.
  pub environment_system_prompt_admission-IsDivided :
      (lock : Lock) (precedence : Value) (case : Fields) (r : Admission)
      → environment_system_prompt_admission packages environment lock precedence case ≡ ok r
      → IsDivided lock precedence case r
  unfolding environment_system_prompt_admission
  environment_system_prompt_admission-IsDivided lock precedence case r h =
      let ((mode, waived), e, h1) = >>=-eq-ok (environment_machine_policy case) _ h in
      let (order, f, h2) = >>=-eq-ok (environment_emitted_order lock precedence) _ h1 in
      let admits = is_admitted (environment_direct_packages lock) waived in
      let ((a, d), g, h3) = >>=-eq-ok (admit_members packages environment admits order) _ h2 in
      let same = ok-eq h3 in
      let split = admit_members-IsSplit admits order a d g in
      let (waivers, has, are) = policy-HasWaivers case mode waived e in
      let chosen : (name : String)
          → (admits name ≡ true) ↔ (IsDirect lock name ⊎ IsWaived waivers name) =
        λ name. admitted_iff lock waivers waived name are in
      let offered : (name path : String)
          → Elem (name, path) split.entries ↔ Offers packages environment order name path =
        λ name path.
          entries_iff packages environment order split.entries name path split.are_entries in
      record {
        order = order;
        is_order = f;
        waivers = waivers;
        are_waivers = has;
        admitted = λ name path. (
          λ m.
              let m1 =
                transport
                  (ap (Elem (name, path)) (sym (ap Admission.admitted same) ∙ split.are_admitted))
                  m in
              let (k, t) = (keep-Elem (λ e. admits e.0) (name, path) split.entries).0 m1 in
              ((offered name path).0 k, (chosen name).0 t),
          λ (o, c).
              transport
                (ap (Elem (name, path))
                  (sym (sym (ap Admission.admitted same) ∙ split.are_admitted)))
                ((keep-Elem (λ e. admits e.0) (name, path) split.entries).1
                  ((offered name path).1 o, (chosen name).1 c)),
        );
        dropped = λ name path. (
          λ m.
              let m1 =
                transport
                  (ap (Elem (name, path)) (sym (ap Admission.dropped same) ∙ split.are_dropped))
                  m in
              let (k, t) = (keep-Elem (λ e. not (admits e.0)) (name, path) split.entries).0 m1 in
              ((offered name path).0 k, λ c. absurd (let q = (chosen name).1 c in ground arith)),
          λ (o, n).
              let left : admits name ≡ false = elim (Bool-cases (admits name)) [
                | inl t ↦ absurd (n ((chosen name).0 t))
                | inr t ↦ t
              ] in
              transport
                (ap (Elem (name, path)) (sym (sym (ap Admission.dropped same) ∙ split.are_dropped)))
                ((keep-Elem (λ e. not (admits e.0)) (name, path) split.entries).1
                  ((offered name path).1 o, ap not left)),
        );
      }
