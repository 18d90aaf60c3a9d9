-- ===== src/Environment/Emitted.antt =====
-- The emitted order of a lock: the loop's order, sorted by weight.
use mathlib.Core.Path.{transport}
use curator_spec.Prelude.{
  >>=-eq-ok, Bool-cases, Elem, List, String, [], ap, arith, if-false, if-true, inl, inr, keep,
  keep-sort_by, length, not, not-eq-false, ok, ok-eq, refl, sort_by, sort_by-Elem, sort_by-IsSorted,
  sym, true, ||-false, ℕ, ℤ, ◌<◌, ◌||◌, ◌↔◌, ◌∙◌, ◌∷◌, ◌≡◌, ◌⊎◌,
}
use curator_spec.Json.{Value, Fields, obj, str, get, one_of, has_exactly, is_str, is_str-eq}
use curator_spec.Resolution.Members.{Member}
use curator_spec.Environment.Kahn.{emit, IsOrdered, IsEmission, emit-IsEmission}
use curator_spec.Environment.Acyclic.{emit-ok}
use curator_spec.Environment.Order.{
  Lock, environment_precedence, environment_emitted_order, contexts_of, names_of, requires_of,
  members_of, is_ascending, weighs_after, text_or, winners, placements,
}
use curator_spec.Environment.Weights.{
  weighs, NeverFall, NeverRise, weighs_after-IsWeak, weighs-IsLevel, upwards, downwards,
}
use curator_spec.Environment.Contexts.{
  IsEmittedBehind, AreContexts, ordered-Behind, members_of-AreContexts, members_of-ok,
  contexts_from-AllDistinct, requires_of-Elem, length-map_names,
}

-- What the emitted order of a lock is, by the winner and its place.
pub record IsEmittedOrder (lock : Lock) (winner placement : String) (ms : List Member)
    : Type 0 where
  pub emitted : List String
  pub ordered : IsEmittedBehind (contexts_of lock) [] emitted
  pub complete : length emitted ≡ length (contexts_of lock)
  pub found : List Member
  pub are_found : AreContexts (contexts_of lock) emitted found
  pub higher_last : winner ≡ "higher-weight" → placement ≡ "winner-last" → NeverFall ms
  pub lower_first : winner ≡ "lower-weight" → placement ≡ "winner-first" → NeverFall ms
  pub higher_first : winner ≡ "higher-weight" → placement ≡ "winner-first" → NeverRise ms
  pub lower_last : winner ≡ "lower-weight" → placement ≡ "winner-last" → NeverRise ms
  pub stable : (w : ℤ) → keep (weighs w) ms ≡ keep (weighs w) found
  pub same_members : (m : Member) → Elem m ms ↔ Elem m found

sorted-IsEmittedOrder :
    (lock : Lock) (winner placement : String) (emitted : List String) (found : List Member)
    → IsEmission
        (requires_of (contexts_of lock))
        (names_of (contexts_of lock))
        (length (contexts_of lock))
        []
        emitted
    → members_of (contexts_of lock) emitted ≡ ok found
    → IsEmittedOrder lock winner placement
        (sort_by (weighs_after (is_ascending winner placement)) found)
sorted-IsEmittedOrder lock winner placement emitted found e f =
    let b = is_ascending winner placement in
    let ms = sort_by (weighs_after b) found in
    let s = sort_by-IsSorted (weighs_after b) (weighs_after-IsWeak b) found in
    record {
      emitted = e.rest;
      ordered = ordered-Behind (contexts_of lock) [] e.rest e.ordered;
      complete = e.size;
      found = found;
      are_found =
          members_of-AreContexts (contexts_of lock) e.rest found
            (transport (λ i. members_of (contexts_of lock) (e.whole i) ≡ ok found) f);
      higher_last = λ w p.
          upwards b ms s
            (ap (λ x. is_ascending x placement) w ∙ ap (is_ascending "higher-weight") p);
      lower_first = λ w p.
          upwards b ms s
            (ap (λ x. is_ascending x placement) w ∙ ap (is_ascending "lower-weight") p);
      higher_first = λ w p.
          downwards b ms s
            (ap (λ x. is_ascending x placement) w ∙ ap (is_ascending "higher-weight") p);
      lower_last = λ w p.
          downwards b ms s
            (ap (λ x. is_ascending x placement) w ∙ ap (is_ascending "lower-weight") p);
      stable = λ w. keep-sort_by (weighs_after b) (weighs w) (weighs-IsLevel b w) found;
      same_members = λ m. sort_by-Elem (weighs_after b) m found;
    }

-- A precedence: its winner, the higher or the lower weight, and its place, last or first.
pub record IsPrecedence (precedence : Value) (winner placement : String) : Type 0 where
  pub members : Fields
  pub is_members : precedence ≡ obj members
  pub winner_of : get members "winner" ≡ str winner
  pub placement_of : get members "placement" ≡ str placement
  pub two_winners : (winner ≡ "higher-weight") ⊎ (winner ≡ "lower-weight")
  pub two_placements : (placement ≡ "winner-last") ⊎ (placement ≡ "winner-first")

one_of_two :
    (v : Value) (a b : String)
    → one_of v (a ∷ b ∷ []) ≡ true
    → (v ≡ str (text_or v)) × ((text_or v ≡ a) ⊎ (text_or v ≡ b))
one_of_two v a b h = elim (Bool-cases (is_str v a)) [
  | inl e ↦ let p = is_str-eq v a e in (p ∙ ap str (sym (ap text_or p)), inl (ap text_or p))
  | inr e ↦
      let p = is_str-eq v b (ground (arith, e)) in
      (p ∙ ap str (sym (ap text_or p)), inr (ap text_or p))
]

environment_precedence-IsPrecedence :
    (precedence : Value) (winner placement : String)
    → environment_precedence precedence ≡ ok (winner, placement)
    → IsPrecedence precedence winner placement
unfolding environment_precedence
environment_precedence-IsPrecedence (obj p) winner placement h =
    let w = get p "winner" in
    let q = get p "placement" in
    let fails =
      not (has_exactly p ("winner" ∷ "placement" ∷ []))
      || (not (one_of w winners) || not (one_of q placements)) in
    elim (Bool-cases fails) [
      | inl f ↦ absurd (let e = sym (if-true _ _ f) ∙ h in cc)
      | inr f ↦
          let same = ok-eq (sym (if-false _ _ f) ∙ h) in
          let (_, f1) = ||-false (not (has_exactly p ("winner" ∷ "placement" ∷ []))) _ f in
          let (f2, f3) = ||-false (not (one_of w winners)) (not (one_of q placements)) f1 in
          let (a, b) = one_of_two w _ _ (not-eq-false _ f2) in
          let (c, d) = one_of_two q _ _ (not-eq-false _ f3) in
          let e1 = ap (λ x. x.0) same in
          let e2 = ap (λ x. x.1) same in
          record {
            members = p;
            is_members = refl;
            winner_of = a ∙ ap str e1;
            placement_of = c ∙ ap str e2;
            two_winners = transport (ap (λ x. (x ≡ "higher-weight") ⊎ (x ≡ "lower-weight")) e1) b;
            two_placements = transport (ap (λ x. (x ≡ "winner-last") ⊎ (x ≡ "winner-first")) e2) d;
          }
    ]
environment_precedence-IsPrecedence _ winner placement h = absurd (cc)

-- If a lock has an emitted order, the precedence names the higher or the lower weight as the winner
-- and puts it last or first. The contexts of the lock are emitted each once, behind every context
-- that they require, and then sorted by weight: the weights never fall if the higher weight wins and
-- stands last or the lower one wins and stands first, and never rise otherwise, where contexts of the
-- same weight keep the order in which they were emitted.
pub environment_emitted_order-IsEmittedOrder :
    (lock : Lock) (precedence : Value) (ms : List Member)
    → environment_emitted_order lock precedence ≡ ok ms
    → (winner : String) × (placement : String) × IsPrecedence precedence winner placement
      × IsEmittedOrder lock winner placement ms
unfolding environment_emitted_order
environment_emitted_order-IsEmittedOrder lock precedence ms h =
    let (p, e1, h1) = >>=-eq-ok (environment_precedence precedence) _ h in
    let (emitted, e2, h2) =
      >>=-eq-ok
        (emit (requires_of (contexts_of lock)) (names_of (contexts_of lock))
          (length (contexts_of lock)) [])
        _ h1 in
    let (found, e3, h3) = >>=-eq-ok (members_of (contexts_of lock) emitted) _ h2 in
    let same : sort_by (weighs_after (is_ascending p.0 p.1)) found ≡ ms = cc in
    (
      p.0,
      p.1,
      environment_precedence-IsPrecedence precedence p.0 p.1 e1,
      transport (λ i. IsEmittedOrder lock p.0 p.1 (same i))
          (sorted-IsEmittedOrder lock p.0 p.1 emitted found
            (emit-IsEmission (requires_of (contexts_of lock)) (names_of (contexts_of lock))
              (length (contexts_of lock)) [] emitted e2)
            e3),
    )

-- A lock whose contexts have ranks, so that what a context requires has a lower rank, has an
-- emitted order under every valid precedence.
pub emitted_order_returns :
    (lock : Lock) (precedence : Value) (winner placement : String) (rank : String → ℕ)
    → environment_precedence precedence ≡ ok (winner, placement)
    → ((n q : String)
        → Elem n (names_of (contexts_of lock))
        → Elem q (requires_of (contexts_of lock) n)
        → rank q < rank n)
    → (ms : List Member) × (environment_emitted_order lock precedence ≡ ok ms)
unfolding environment_emitted_order
emitted_order_returns lock precedence winner placement rank valid lower =
    let needs = requires_of (contexts_of lock) in
    let names = names_of (contexts_of lock) in
    let (emitted, e) =
      emit-ok needs names rank
        (record { closed = λ n q _ m. requires_of-Elem (contexts_of lock) n q m; lower = lower })
        (contexts_from-AllDistinct [] lock.members tt) (length (contexts_of lock)) []
        (omega (arith, length-map_names (contexts_of lock))) in
    let emission = emit-IsEmission needs names (length (contexts_of lock)) [] emitted e in
    let (found, f) =
      members_of-ok lock [] emitted
        (transport (λ i. IsOrdered needs names [] ((sym emission.whole) i)) emission.ordered) in
    (sort_by (weighs_after (is_ascending winner placement)) found, rw valid (rw e (rw f refl)))
