-- ===== src/Environment/Offers.antt =====
-- The system modules that the members of a lock offer to an environment in tools/validate.py.
use mathlib.Core.Path.{transport}
use curator_spec.Prelude.{
  >>=-eq-ok, Bool, Elem, Elem-append, Elem-map, Elem-of_map, List, Option, Result, String, [], ap,
  append-Elem, arith, inl, inr, keep, keep-Elem, map, none, ok, ok-eq, refl, some, str_eq, sym,
  true, ◌&&◌, ◌++◌, ◌>>=◌, ◌↔◌, ◌∙◌, ◌∷◌, ◌≡◌, ◌⊎◌,
}
use curator_spec.Resolution.{index}
use curator_spec.Resolution.Members.{Member}
use curator_spec.Json.Names.{is_in_iff, str_eq_iff}
use curator_spec.Environment.Modules.{
  PackageModule, Entry, entries_of, environment_applicable, selects,
}

&&-true : (a b : Bool) → (a && b) ≡ true → (a ≡ true) × (b ≡ true)
&&-true a b h = (ground arith, ground arith)

true-&& : (a b : Bool) → a ≡ true → b ≡ true → (a && b) ≡ true
true-&& a b h k = ground arith

module _ (packages : List (String × List PackageModule)) (environment : String) where
  -- the entries of the applicable system modules, in the order of the members
  unfoldable pub all_entries : List Member → Result (List Entry)
  unfolding environment_applicable index
  all_entries [] = ok []
  all_entries (m ∷ ms) = do
    modules ← index m.name packages
    rest ← all_entries ms
    ok (entries_of m.name (environment_applicable modules environment "system") ++ rest)

  -- no selector, or one that has the environment
  abbrev pub Selects : Option (List String) → Type 0
  Selects names =
      (names ≡ none) ⊎ ((found : List String) × (names ≡ some found) × Elem environment found)

  -- The members offer a system module of this path: the package of one of them has it, for the
  -- environment.
  abbrev pub Offers : List Member → String → String → Type 0
  Offers ms name path =
      (m : Member) × (modules : List PackageModule) × (p : PackageModule) × Elem m ms
      × (m.name ≡ name)
      × (index name packages ≡ ok modules)
      × Elem p modules
      × (p.module_class ≡ "system")
      × Selects p.environments
      × (p.path ≡ path)

  selects_iff : (o : Option (List String)) → (selects environment o ≡ true) ↔ Selects o
  selects_iff none = (λ h. inl refl, λ x. refl)
  selects_iff (some names) =
      let (f, g) = is_in_iff environment names in
      (
        λ h. inr (names, refl, f h),
        λ x. elim x [
          | inl e ↦ absurd (cc)
          | inr (found, e, m) ↦ ap (selects environment) e ∙ (is_in_iff environment found).1 m
        ],
      )

  applicable_iff :
      (name path : String) (n : String) (modules : List PackageModule)
      → Elem (name, path) (entries_of n (environment_applicable modules environment "system")) ↔ (
          (n ≡ name)
          × ((p : PackageModule) × Elem p modules
              × (p.module_class ≡ "system")
              × Selects p.environments
              × (p.path ≡ path)))
  unfolding environment_applicable
  applicable_iff name path n modules =
      let test : PackageModule → Bool =
        λ m. str_eq m.module_class "system" && selects environment m.environments in
      (
        λ h.
            let (p, k, e) = Elem-of_map (λ m. (n, m.path)) (name, path) (keep test modules) h in
            let (m, t) = (keep-Elem test p modules).0 k in
            let (a, b) =
              &&-true (str_eq p.module_class "system") (selects environment p.environments) t in
            (
              sym (ap (λ x. x.0) e),
              (
                p,
                m,
                (str_eq_iff p.module_class "system").0 a,
                (selects_iff p.environments).0 b,
                sym (ap (λ x. x.1) e),
              ),
            ),
        λ (q, (p, m, c, s, e)).
            let a = (str_eq_iff p.module_class "system").1 c in
            let b = (selects_iff p.environments).1 s in
            transport
              (ap (λ x. Elem x (map (λ m. (n, m.path)) (keep test modules)))
                (ap (λ x. (x, p.path)) q ∙ ap (λ x. (name, x)) e))
              (Elem-map (λ m. (n, m.path)) p (keep test modules)
                ((keep-Elem test p modules).1 (
                  m,
                  true-&& (str_eq p.module_class "system") (selects environment p.environments) a b,
                ))),
      )

  pub entries_iff :
      (ms : List Member) (entries : List Entry) (name path : String)
      → all_entries ms ≡ ok entries
      → Elem (name, path) entries ↔ Offers ms name path
  unfolding all_entries
  entries_iff [] entries name path h =
      let q = ok-eq h in
      (
        λ m. absurd (transport (ap (Elem (name, path)) (sym q)) m),
        λ (_, _, _, m, _, _, _, _, _, _). absurd m,
      )
  entries_iff (m ∷ ms) entries name path h =
      let (modules, e, h1) = >>=-eq-ok (index m.name packages) _ h in
      let (rest, f, h2) = >>=-eq-ok (all_entries ms) _ h1 in
      let here = entries_of m.name (environment_applicable modules environment "system") in
      let same : here ++ rest ≡ entries = ok-eq h2 in
      let (u, v) = applicable_iff name path m.name modules in
      let (x, y) = entries_iff ms rest name path f in
      (
        λ k.
            elim (Elem-append (name, path) here rest
              (transport (ap (Elem (name, path)) (sym same)) k)) [
                | inl a ↦
                    let (q, (p, k, c, s, r)) = u a in
                    (m, modules, p, inl refl, q, ap (λ z. index z packages) (sym q) ∙ e, k, c, s, r)
                | inr a ↦
                    let (n, l, p, k, q, i, j, c, s, r) = x a in (n, l, p, inr k, q, i, j, c, s, r)
              ],
        λ (n, l, p, k, q, i, j, c, s, r). transport (ap (Elem (name, path)) same) (
            append-Elem (name, path) here rest
              (elim k [
                | inl a ↦
                    let named : m.name ≡ name = sym (ap Member.name a) ∙ q in
                    let found : l ≡ modules =
                      ok-eq (sym i ∙ ap (λ z. index z packages) (sym named) ∙ e) in
                    inl (v (named, (p, transport (ap (Elem p) found) j, c, s, r)))
                | inr a ↦ inr (y (n, l, p, a, q, i, j, c, s, r))
              ])),
      )
