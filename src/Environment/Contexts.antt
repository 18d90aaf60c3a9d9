-- ===== src/Environment/Contexts.antt =====
-- The contexts of a lock in environment_emitted_order of tools/validate.py: their names, what they
-- require, and the contexts of names.
use mathlib.Core.Path.{transport}
use curator_spec.Prelude.{
  >>=-eq-ok, Bool, Bool-cases, Elem, Elem-map, Elem-of_map, List, String, [], ap, arith, eq_iff,
  false, if-holds, if◌then◌else◌, inl, inr, keep, keep-Elem, length, ok, ok-eq, refl, str_eq, sym,
  true, ◌++◌, ◌∙◌, ◌∷◌, ◌≡◌, ◌⊎◌,
}
use curator_spec.Json.{is_in}
use curator_spec.Json.Names.{is_in_iff}
use curator_spec.Cases.{AllDistinct}
use curator_spec.Resolution.{index, find}
use curator_spec.Resolution.Members.{Member}
use curator_spec.Environment.Kahn.{IsOrdered}
use curator_spec.Environment.Order.{
  Lock, contexts_of, contexts_from, set_item, names_of, requires_of, members_of,
}

-- Names that are emitted behind `done`: each is the name of a context, none comes twice, and the
-- contexts that it requires, which are required by it, come before it.
abbrev pub IsEmittedBehind : List (String × Member) → List String → List String → Type 0
IsEmittedBehind contexts done [] = Unit
IsEmittedBehind contexts done (n ∷ rest) =
    Elem n (names_of contexts)
    × (Elem n done → ⊥)
    × ((q : String) (m : Member) → Elem (q, m) contexts → Elem n m.required_by → Elem q done)
    × IsEmittedBehind contexts (done ++ n ∷ []) rest

-- The contexts of names, in the same order.
abbrev pub AreContexts : List (String × Member) → List String → List Member → Type 0
AreContexts contexts [] [] = Unit
AreContexts contexts (n ∷ ns) (m ∷ ms) = Elem (n, m) contexts × AreContexts contexts ns ms
AreContexts contexts _ _ = ⊥

-- what is required by a name is among what it needs
required-Elem :
    (contexts : List (String × Member)) (n q : String) (m : Member)
    → Elem (q, m) contexts
    → Elem n m.required_by
    → Elem q (requires_of contexts n)
unfolding requires_of
required-Elem contexts n q m k r =
    Elem-map (λ p. p.0) (q, m) (keep (λ p. is_in n p.1.required_by) contexts)
      ((keep-Elem (λ p. is_in n p.1.required_by) (q, m) contexts).1
        (k, (is_in_iff n m.required_by).1 r))

pub ordered-Behind :
    (contexts : List (String × Member)) (done es : List String)
    → IsOrdered (requires_of contexts) (names_of contexts) done es
    → IsEmittedBehind contexts done es
ordered-Behind contexts done [] h = tt
ordered-Behind contexts done (n ∷ es) (named, fresh, served, h) = (
  named,
  fresh,
  (λ q m k r. served q (required-Elem contexts n q m k r)),
  ordered-Behind contexts (done ++ n ∷ []) es h,
)

-- what a key has is there
index-Elem :
    (contexts : List (String × Member)) (n : String) (m : Member)
    → index n contexts ≡ ok m
    → Elem (n, m) contexts
unfolding index find
index-Elem [] n m h = absurd (cc)
index-Elem ((k, x) ∷ d) n m h = elim (Bool-cases (str_eq k n)) [
  | inl e ↦ inl (
      let q : x ≡ m = ground (arith, e) in
      ap (λ a. (a, m)) (sym ((eq_iff k n).0 e)) ∙ ap (λ y. (k, y)) (sym q))
  | inr e ↦ inr (index-Elem d n m (ground (arith, e)))
]

pub members_of-AreContexts :
    (contexts : List (String × Member)) (ns : List String) (ms : List Member)
    → members_of contexts ns ≡ ok ms
    → AreContexts contexts ns ms
unfolding members_of
members_of-AreContexts contexts [] ms h = transport (ap (AreContexts contexts []) (ok-eq h)) tt
members_of-AreContexts contexts (n ∷ ns) ms h =
    let (m, e, h1) = >>=-eq-ok (index n contexts) _ h in
    let (rest, f, h2) = >>=-eq-ok (members_of contexts ns) _ h1 in
    transport (ap (AreContexts contexts (n ∷ ns)) (ok-eq h2))
      (index-Elem contexts n m e, members_of-AreContexts contexts ns rest f)

-- a key has a value
index-ok :
    (contexts : List (String × Member)) (n : String)
    → Elem n (names_of contexts)
    → (m : Member) × (index n contexts ≡ ok m)
unfolding index find
index-ok [] n h = absurd h
index-ok ((k, m) ∷ d) n h = elim (Bool-cases (str_eq k n)) [
  | inl e ↦ (m, ground (arith, e))
  | inr e ↦
      let rest : Elem n (names_of d) = elim h [
        | inl q ↦ absurd (ground (arith, eq_iff k n, sym q))
        | inr r ↦ r
      ] in
      let (x, q) = index-ok d n rest in (x, ground (arith, q))
]

-- emitted names have members
pub members_of-ok :
    (lock : Lock) (done es : List String)
    → IsOrdered (requires_of (contexts_of lock)) (names_of (contexts_of lock)) done es
    → (ms : List Member) × (members_of (contexts_of lock) es ≡ ok ms)
unfolding members_of
members_of-ok lock done [] h = ([], refl)
members_of-ok lock done (n ∷ es) (named, fresh, served, h) =
    let (m, e) = index-ok (contexts_of lock) n named in
    let (ms, k) = members_of-ok lock (done ++ n ∷ []) es h in (m ∷ ms, cc)

set_item_by-Elem :
    (b : Bool) (x key k : String) (m n : Member) (d : List (String × Member))
    → (Elem x (names_of (set_item key m d)) → (x ≡ key) ⊎ Elem x (names_of d))
    → Elem x (names_of (elim b [ true ↦ (k, m) ∷ d | false ↦ (k, n) ∷ set_item key m d ]))
    → (x ≡ key) ⊎ Elem x (k ∷ names_of d)
set_item_by-Elem true x key k m n d f h = inr h
set_item_by-Elem false x key k m n d f (inl e) = inr (inl e)
set_item_by-Elem false x key k m n d f (inr r) = elim (f r) [ inl e ↦ inl e | inr q ↦ inr (inr q) ]

-- the keys behind an assignment
set_item-Elem :
    (x key : String) (m : Member) (d : List (String × Member))
    → Elem x (names_of (set_item key m d))
    → (x ≡ key) ⊎ Elem x (names_of d)
set_item-Elem x key m [] h = elim h [ inl e ↦ inl e | inr n ↦ absurd n ]
set_item-Elem x key m ((k, n) ∷ d) h =
    set_item_by-Elem (str_eq k key) x key k m n d (set_item-Elem x key m d) h

set_item_by-AllDistinct :
    (b : Bool) (key k : String) (m n : Member) (d : List (String × Member))
    → str_eq k key ≡ b
    → AllDistinct (k ∷ names_of d)
    → AllDistinct (names_of (set_item key m d))
    → AllDistinct (names_of (elim b [ true ↦ (k, m) ∷ d | false ↦ (k, n) ∷ set_item key m d ]))
set_item_by-AllDistinct true key k m n d e h rest = h
set_item_by-AllDistinct false key k m n d e (fresh, h) rest = (
  λ r. elim (set_item-Elem k key m d r) [
    | inl q ↦ absurd (ground (arith, eq_iff k key, q))
    | inr q ↦ fresh q
  ],
  rest,
)

set_item-AllDistinct :
    (key : String) (m : Member) (d : List (String × Member))
    → AllDistinct (names_of d)
    → AllDistinct (names_of (set_item key m d))
set_item-AllDistinct key m [] h = (λ r. absurd r, tt)
set_item-AllDistinct key m ((k, n) ∷ d) h =
    set_item_by-AllDistinct (str_eq k key) key k m n d refl h (set_item-AllDistinct key m d h.1)

pub contexts_from-AllDistinct :
    (d : List (String × Member)) (ms : List Member)
    → AllDistinct (names_of d)
    → AllDistinct (names_of (contexts_from d ms))
unfolding contexts_from
contexts_from-AllDistinct d [] h = h
contexts_from-AllDistinct d (m ∷ ms) h =
    contexts_from-AllDistinct (if str_eq m.kind "context" then set_item m.name m d else d) ms (
      if-holds (λ d. AllDistinct (names_of d)) (str_eq m.kind "context")
        (set_item-AllDistinct m.name m d h) h)

-- what a context requires is a context
pub requires_of-Elem :
    (contexts : List (String × Member)) (n q : String)
    → Elem q (requires_of contexts n)
    → Elem q (names_of contexts)
unfolding requires_of
requires_of-Elem contexts n q m =
    let (p, k, e) = Elem-of_map (λ p. p.0) q (keep (λ p. is_in n p.1.required_by) contexts) m in
    let named =
      Elem-map (λ p. p.0) p contexts
        ((keep-Elem (λ p. is_in n p.1.required_by) p contexts).0 k).0 in
    transport (λ i. Elem ((sym e) i) (names_of contexts)) named

pub length-map_names : (d : List (String × Member)) → length (names_of d) ≡ length d
length-map_names [] = refl
length-map_names (p ∷ d) = ground (arith, length-map_names d)
