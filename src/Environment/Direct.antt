-- ===== src/Environment/Direct.antt =====
-- The packages whose system modules tools/validate.py admits: the direct and the waived ones.
use curator_spec.Prelude.{
  >>=-eq-ok, Bool, Bool-cases, Elem, Elem-any, Elem-append, Elem-map, Elem-of_map, List, String, [],
  all, all-Elem, any, any-Elem, ap, append-Elem, arith, false, if-false, if-true, inl, inr, keep,
  keep-Elem, map, not, ok, ok-eq, refl, str_eq, sym, true, ◌++◌, ◌||◌, ◌↔◌, ◌∙◌, ◌∷◌, ◌≡◌, ◌⊎◌,
}
use mathlib.Core.Path.{transport}
use curator_spec.Json.{
  values, Value, Items, Fields, arr, obj, bare, str, get, is_in, field_names, is_str, is_str-eq,
}
use curator_spec.Json.Names.{is_in_iff, or_iff, str_eq_iff}
use curator_spec.Resolution.Members.{Member}
use curator_spec.Environment.Order.{Lock, contexts_of, names_of}
use curator_spec.Environment.Modules.{
  fields_of, dict_at, is_waiver, waived_package, waivers_in, waivers_of, mode_of, is_admitted,
  environment_machine_policy, environment_direct_packages,
}

-- A context of a lock that is an overlay.
abbrev pub IsOverlay : Lock → String → Type 0
IsOverlay lock name = (m : Member) × Elem (name, m) (contexts_of lock) × (m.overlay ≡ true)

-- A package is direct: the root, an overlay, or a context that the root or an overlay requires.
abbrev pub IsDirect : Lock → String → Type 0
IsDirect lock name =
    (name ≡ lock.root)
    ⊎ (IsOverlay lock name
        ⊎ ((m : Member) × Elem (name, m) (contexts_of lock)
            × ((r : String) × Elem r m.required_by × ((r ≡ lock.root) ⊎ IsOverlay lock r))))

-- The policy of a case, which may be missing, and the waivers of a policy, which may be, too.
pub record HasWaivers (case : Fields) (waivers : List Value) : Type 0 where
  pub policy : Fields
  pub given :
      is_in "machine_policy" (field_names case) ≡ true → get case "machine_policy" ≡ obj policy
  pub missing : is_in "machine_policy" (field_names case) ≡ false → policy ≡ bare
  pub listed :
      is_in "system_module_waivers" (field_names policy) ≡ true
      → (items : Items) × (get policy "system_module_waivers" ≡ arr items)
        × (waivers ≡ values items)
  pub unlisted : is_in "system_module_waivers" (field_names policy) ≡ false → waivers ≡ []

-- A waiver names the package.
abbrev pub IsWaived : List Value → String → Type 0
IsWaived waivers name = (w : Fields) × Elem (obj w) waivers × (get w "package" ≡ str name)

-- a name among those of the entries that pass a test
named_iff :
    (test : String × Member → Bool) (d : List (String × Member)) (x : String)
    → Elem x (names_of (keep test d)) ↔ ((m : Member) × Elem (x, m) d × (test (x, m) ≡ true))
named_iff test d x = (
  λ h.
      let (p, k, e) = Elem-of_map (λ p. p.0) x (keep test d) h in
      let (n, t) = (keep-Elem test p d).0 k in
      (p.1, transport (ap (λ y. Elem (y, p.1) d) (sym e)) n, ap (λ y. test (y, p.1)) e ∙ t),
  λ (m, n, t). Elem-map (λ p. p.0) (x, m) (keep test d) ((keep-Elem test (x, m) d).1 (n, t)),
)

module _ (lock : Lock) where
  abbrev overlays : List String
  overlays = names_of (keep (λ p. p.1.overlay) (contexts_of lock))

  IsOverlay-iff : (x : String) → (is_in x overlays ≡ true) ↔ IsOverlay lock x
  IsOverlay-iff x =
      let (f, g) = is_in_iff x overlays in
      let (k, l) = named_iff (λ p. p.1.overlay) (contexts_of lock) x in (λ h. k (f h), λ o. g (l o))

  abbrev asks : String → Bool
  asks r = str_eq r lock.root || is_in r overlays

  asks_iff : (r : String) → (asks r ≡ true) ↔ ((r ≡ lock.root) ⊎ IsOverlay lock r)
  asks_iff r = or_iff _ _ _ _ (str_eq_iff r lock.root) (IsOverlay-iff r)

  pub direct_iff :
      (name : String) → (is_in name (environment_direct_packages lock) ≡ true) ↔ IsDirect lock name
  unfolding environment_direct_packages
  direct_iff name =
      let needed = names_of (keep (λ p. any asks p.1.required_by) (contexts_of lock)) in
      let (f, g) = is_in_iff name (lock.root ∷ overlays ++ needed) in
      let (k, l) = named_iff (λ p. p.1.overlay) (contexts_of lock) name in
      let (u, v) = named_iff (λ p. any asks p.1.required_by) (contexts_of lock) name in
      (
        λ h. elim (f h) [
          | inl e ↦ inl e
          | inr m ↦ elim (Elem-append name overlays needed m) [
            | inl o ↦ inr (inl (k o))
            | inr n ↦
                let (x, y, z) = u n in
                let (r, s, t) = any-Elem asks x.required_by z in
                inr (inr (x, y, (r, s, (asks_iff r).0 t)))
          ]
        ],
        λ d. g (elim d [
          | inl e ↦ inl e
          | inr (inl o) ↦ inr (append-Elem name overlays needed (inl (l o)))
          | inr (inr (x, y, (r, s, t))) ↦ inr (
              append-Elem name overlays needed
                (inr (v (x, y, Elem-any asks r x.required_by s ((asks_iff r).1 t)))))
        ]),
      )

waiver-Fields : (v : Value) → is_waiver v ≡ true → (w : Fields) × (v ≡ obj w)
waiver-Fields (obj d) h = (d, refl)
waiver-Fields _ h = absurd (ground arith)

fields_of-eq : (v : Value) (d : Fields) → fields_of v ≡ ok d → v ≡ obj d
fields_of-eq (obj e) d h = ap obj (ok-eq h)
fields_of-eq _ d h = absurd (cc)

-- a list of waivers, and their packages
pub record AreWaived (waivers waived : List Value) : Type 0 where
  pub all_waivers : all is_waiver waivers ≡ true
  pub packages : waived ≡ map waived_package waivers

waivers_in-Items :
    (v : Value) (waived : List Value)
    → waivers_in v ≡ ok waived
    → (items : Items) × (v ≡ arr items) × AreWaived (values items) waived
waivers_in-Items (arr items) waived h = elim (Bool-cases (all is_waiver (values items))) [
  | inl a ↦
      (items, refl, record { all_waivers = a; packages = sym (ok-eq (sym (if-true _ _ a) ∙ h)) })
  | inr a ↦ absurd (let q = sym (if-false _ _ a) ∙ h in cc)
]
waivers_in-Items _ waived h = absurd (cc)

pub policy-HasWaivers :
    (case : Fields) (mode : String) (waived : List Value)
    → environment_machine_policy case ≡ ok (mode, waived)
    → (waivers : List Value) × HasWaivers case waivers × AreWaived waivers waived
unfolding environment_machine_policy
policy-HasWaivers case mode waived h =
    let (policy, e, h1) = >>=-eq-ok (dict_at case "machine_policy") _ h in
    let (m, f, h2) = >>=-eq-ok (mode_of policy) _ h1 in
    let (ws, g, h3) = >>=-eq-ok (waivers_of policy) _ h2 in
    let same : ws ≡ waived = ap (λ x. x.1) (ok-eq h3) in
    let given : is_in "machine_policy" (field_names case) ≡ true
        → get case "machine_policy" ≡ obj policy =
      λ i. fields_of-eq _ policy (sym (if-true _ _ i) ∙ e) in
    let missing : is_in "machine_policy" (field_names case) ≡ false → policy ≡ bare =
      λ i. sym (ok-eq (sym (if-false _ _ i) ∙ e)) in
    elim (Bool-cases (is_in "system_module_waivers" (field_names policy))) [
      | inl i ↦
          let (items, p, a) =
            waivers_in-Items (get policy "system_module_waivers") ws
              (sym (if-false _ _ (ap not i)) ∙ g) in
          (
            values items,
            record {
              policy = policy;
              given = given;
              missing = missing;
              listed = λ _. (items, p, refl);
              unlisted = λ j. absurd (ground arith);
            },
            transport (ap (AreWaived (values items)) same) a,
          )
      | inr i ↦
          let none_waived : ws ≡ [] = sym (ok-eq (sym (if-true _ _ (ap not i)) ∙ g)) in
          (
            [],
            record {
              policy = policy;
              given = given;
              missing = missing;
              listed = λ j. absurd (ground arith);
              unlisted = λ _. refl;
            },
            record { all_waivers = refl; packages = sym same ∙ none_waived },
          )
    ]

waived_iff :
    (waivers waived : List Value) (name : String)
    → AreWaived waivers waived
    → (any (λ v. is_str v name) waived ≡ true) ↔ IsWaived waivers name
waived_iff waivers waived name a =
    let packages = map waived_package waivers in
    (
      λ h.
          let (v, m, t) =
            any-Elem (λ v. is_str v name) packages
              (ap (any (λ v. is_str v name)) (sym a.packages) ∙ h) in
          let (x, k, e) = Elem-of_map waived_package v waivers m in
          let (w, p) = waiver-Fields x (all-Elem is_waiver x waivers a.all_waivers k) in
          (
            w,
            transport (ap (λ y. Elem y waivers) p) k,
            sym (e ∙ ap waived_package p) ∙ is_str-eq v name t,
          ),
      λ (w, m, e).
          ap (any (λ v. is_str v name)) a.packages
          ∙ Elem-any (λ v. is_str v name) (get w "package") packages
              (Elem-map waived_package (obj w) waivers m)
              (ap (λ v. is_str v name) e ∙ (str_eq_iff name name).1 refl),
    )

-- a package is admitted, if it is direct or waived
pub admitted_iff :
    (lock : Lock) (waivers waived : List Value) (name : String)
    → AreWaived waivers waived
    → (is_admitted (environment_direct_packages lock) waived name ≡ true)
      ↔ (IsDirect lock name ⊎ IsWaived waivers name)
admitted_iff lock waivers waived name a =
    or_iff _ _ _ _ (direct_iff lock name) (waived_iff waivers waived name a)
