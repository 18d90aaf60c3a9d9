-- ===== src/Signers/Quiet.antt =====
-- What an update without a trigger leaves as it was.
use curator_spec.Text.{text_eq, text_eq-eq, Text}
use mathlib.Core.Path.{transport}
use curator_spec.Prelude.{
  >>=-eq-ok, Bool, Bool-cases, Elem, Elem-map, List, Option, Result, String, [], ap, arith, eq_iff,
  false, if-false, if-true, inl, inr, map, none, not-eq-false, ok, ok-eq, refl, some, sort_by,
  sort_by-Elem, str_eq, sym, true, ◌∙◌, ◌∷◌, ◌≡◌,
}
use curator_spec.Json.{Value}
use curator_spec.Canonical.{ccj1_bytes}
use curator_spec.Signers.Delta.{LockMember, Key, member_key, member_at, key_after, unmoved}
use curator_spec.Signers.Keys.{unmoved-eq, member_at-key}
use curator_spec.Signers.Trigger.{
  compare_snapshots, compare_pins, SystemModule, Snapshot, same_texts, same_module, same_inventory,
  e1_system_inventory, snapshot_of, triggers_added, with_key, e1_mcp_changed, triggers_moved,
  triggers_at, trigger_keys, e1_trigger, e1_revision_outcomes,
}

same_texts-eq : (ss ts : List String) → same_texts ss ts ≡ true → ss ≡ ts
same_texts-eq [] [] h = refl
same_texts-eq (s ∷ ss) (t ∷ ts) h =
    let p : s ≡ t = (eq_iff s t).0 (ground arith) in
    let q = same_texts-eq ss ts (ground arith) in λ i. p i ∷ q i
same_texts-eq [] (t ∷ ts) h = cc
same_texts-eq (s ∷ ss) [] h = cc

same_module-eq : (m n : SystemModule) → same_module m n ≡ true → m ≡ n
same_module-eq m n h =
    let p : m.path ≡ n.path = (eq_iff m.path n.path).0 (ground arith) in
    let q = same_texts-eq m.environments n.environments (ground arith) in
    let r : m.bytes ≡ n.bytes = (eq_iff m.bytes n.bytes).0 (ground arith) in
    λ i. record { path = p i; environments = q i; bytes = r i }

same_inventory-eq : (ms ns : List SystemModule) → same_inventory ms ns ≡ true → ms ≡ ns
same_inventory-eq [] [] h = refl
same_inventory-eq (m ∷ ms) (n ∷ ns) h =
    let p = same_module-eq m n (ground arith) in
    let q = same_inventory-eq ms ns (ground arith) in λ i. p i ∷ q i
same_inventory-eq [] (n ∷ ns) h = cc
same_inventory-eq (m ∷ ms) [] h = cc

quiet_modules :
    (kind : String) (ms : List SystemModule)
    → triggers_added kind ms ≡ false
    → kind ≡ "context"
    → ms ≡ []
quiet_modules kind [] h k = refl
quiet_modules kind (m ∷ ms) h k =
    let e : str_eq kind "context" ≡ true = ap (λ s. str_eq s "context") k in
    absurd (ground (arith, e))

quiet_kind :
    (kind : String) (ms : List SystemModule) → triggers_added kind ms ≡ false → kind ≡ "mcp" → ⊥
quiet_kind kind [] h k = let e : str_eq kind "mcp" ≡ true = ap (λ s. str_eq s "mcp") k in cc
quiet_kind kind (m ∷ ms) h k =
    let e : str_eq kind "mcp" ≡ true = ap (λ s. str_eq s "mcp") k in ground (arith, e)

with_key-nil : (b : Bool) (k : Key) (ks : List Key) → with_key b k ks ≡ [] → (b ≡ false) × (ks ≡ [])
with_key-nil true k ks h = cc
with_key-nil false k ks h = (refl, h)

published-eq :
    (trigger : List String)
    → (e1_revision_outcomes trigger false).1.lock_published ≡ true
    → trigger ≡ []
unfolding e1_revision_outcomes
published-eq [] h = refl
published-eq (t ∷ ts) h = cc

sorted_nil : (keys : List Key) → map (λ k. k.1) (sort_by key_after keys) ≡ [] → keys ≡ []
sorted_nil [] h = refl
sorted_nil (k ∷ ks) h =
    let m : Elem k (sort_by key_after (k ∷ ks)) =
      (sort_by-Elem key_after k (k ∷ ks)).1 (inl refl) in
    absurd (transport (λ i. Elem k.1 (h i)) (Elem-map (λ k. k.1) k (sort_by key_after (k ∷ ks)) m))

module _ (dumps : Value → Result Text) (snapshots : List (String × Snapshot)) where
  -- A member of which an update changes nothing that a person must confirm, by the old member of its
  -- key and its own snapshot.
  abbrev pub IsQuiet : Option LockMember → LockMember → Snapshot → Type 0
  IsQuiet none m s = (m.kind ≡ "mcp" → ⊥) × (m.kind ≡ "context" → s.system_modules ≡ [])
  IsQuiet (some b) m s =
      (t : Snapshot)
      → snapshot_of b.pin snapshots ≡ ok t
      → (m.kind ≡ "context" → e1_system_inventory t ≡ e1_system_inventory s)
        × (m.kind ≡ "mcp" → ccj1_bytes dumps t.mcp ≡ ccj1_bytes dumps s.mcp)

  added-IsQuiet :
      (m : LockMember) (s : Snapshot)
      → snapshot_of m.pin snapshots ≡ ok s
      → triggers_at dumps snapshots none m ≡ ok false
      → IsQuiet none m s
  unfolding triggers_at
  added-IsQuiet m s e h =
      let (t, f, k) = >>=-eq-ok (snapshot_of m.pin snapshots) _ h in
      let same : t ≡ s = ok-eq (sym f ∙ e) in
      let quiet : triggers_added m.kind s.system_modules ≡ false =
        ap (λ t. triggers_added m.kind t.system_modules) (sym same) ∙ ok-eq k in
      (quiet_kind m.kind s.system_modules quiet, quiet_modules m.kind s.system_modules quiet)

  e1_mcp_changed-eq :
      (v w : Value) → e1_mcp_changed dumps v w ≡ ok false → ccj1_bytes dumps v ≡ ccj1_bytes dumps w
  unfolding e1_mcp_changed
  e1_mcp_changed-eq v w h =
      let (a, e, h1) = >>=-eq-ok (ccj1_bytes dumps v) _ h in
      let (b, f, h2) = >>=-eq-ok (ccj1_bytes dumps w) _ h1 in
      e ∙ ap ok (text_eq-eq a b (not-eq-false (text_eq a b) (ok-eq h2))) ∙ sym f

  same_snapshot :
      (b m : LockMember) (s t : Snapshot)
      → b ≡ m
      → snapshot_of m.pin snapshots ≡ ok s
      → snapshot_of b.pin snapshots ≡ ok t
      → t ≡ s
  same_snapshot b m s t p e f = ok-eq (sym f ∙ ap (λ x. snapshot_of x.pin snapshots) p ∙ e)

  compared-same :
      (kind : String) (s t : Snapshot)
      → compare_snapshots dumps kind s t ≡ ok false
      → (kind ≡ "context" → e1_system_inventory s ≡ e1_system_inventory t)
        × (kind ≡ "mcp" → ccj1_bytes dumps s.mcp ≡ ccj1_bytes dumps t.mcp)
  unfolding compare_snapshots
  compared-same kind s t h = (
    λ k.
        let e : str_eq kind "context" ≡ true = ap (λ s. str_eq s "context") k in
        let test = same_inventory (e1_system_inventory s) (e1_system_inventory t) in
        same_inventory-eq (e1_system_inventory s) (e1_system_inventory t)
          (not-eq-false test (ok-eq (sym (if-true _ _ e) ∙ h))),
    λ k.
        let e : str_eq kind "context" ≡ false = ap (λ s. str_eq s "context") k in
        let f : str_eq kind "mcp" ≡ true = ap (λ s. str_eq s "mcp") k in
        e1_mcp_changed-eq s.mcp t.mcp (sym (if-false _ _ e ∙ if-true _ _ f) ∙ h),
  )

  moved-IsQuiet :
      (b m : LockMember) (s : Snapshot)
      → member_key b ≡ member_key m
      → snapshot_of m.pin snapshots ≡ ok s
      → triggers_at dumps snapshots (some b) m ≡ ok false
      → IsQuiet (some b) m s
  unfolding triggers_at triggers_moved compare_pins
  moved-IsQuiet b m s k e h t f = elim (Bool-cases (unmoved b m)) [
    | inl u ↦
        let same = same_snapshot b m s t (unmoved-eq b m k u) e f in
        (λ _. ap e1_system_inventory same, λ _. ap (λ x. ccj1_bytes dumps x.mcp) same)
    | inr u ↦
        let (t', g, h1) = >>=-eq-ok (snapshot_of b.pin snapshots) _ (sym (if-false _ _ u) ∙ h) in
        let (s', g', h2) = >>=-eq-ok (snapshot_of m.pin snapshots) _ h1 in
        let p : t' ≡ t = ok-eq (sym g ∙ f) in
        let q : s' ≡ s = ok-eq (sym g' ∙ e) in
        compared-same m.kind t s
          (transport (λ i. compare_snapshots dumps m.kind (p i) (q i) ≡ ok false) h2)
  ]

  at-IsQuiet :
      (o : Option LockMember) (m : LockMember) (s : Snapshot)
      → ((b : LockMember) → o ≡ some b → member_key b ≡ member_key m)
      → snapshot_of m.pin snapshots ≡ ok s
      → triggers_at dumps snapshots o m ≡ ok false
      → IsQuiet o m s
  at-IsQuiet none m s k e h = added-IsQuiet m s e h
  at-IsQuiet (some b) m s k e h = moved-IsQuiet b m s (k b refl) e h

  trigger_keys-IsQuiet :
      (old new : List LockMember) (m : LockMember) (s : Snapshot)
      → trigger_keys dumps snapshots old new ≡ ok []
      → Elem m new
      → snapshot_of m.pin snapshots ≡ ok s
      → IsQuiet (member_at (member_key m) old) m s
  unfolding trigger_keys
  trigger_keys-IsQuiet old [] m s h k e = absurd k
  trigger_keys-IsQuiet old (n ∷ ns) m s h k e =
      let (b, f, h1) =
        >>=-eq-ok (triggers_at dumps snapshots (member_at (member_key n) old) n) _ h in
      let (keys, g, h2) = >>=-eq-ok (trigger_keys dumps snapshots old ns) _ h1 in
      let (p, q) = with_key-nil b (member_key n) keys (ok-eq h2) in
      elim k [
        | inl same ↦
            at-IsQuiet (member_at (member_key m) old) m s
              (λ b r. member_at-key (member_key m) old b r) e
              (ap (λ x. triggers_at dumps snapshots (member_at (member_key x) old) x) same
                ∙ f
                ∙ ap ok p)
        | inr rest ↦ trigger_keys-IsQuiet old ns m s (g ∙ ap ok q) rest e
      ]

  -- If revision B publishes the lock of an update without the confirmation, each member of the new
  -- lock with a snapshot is quiet: an added one is no server and, as a context, has no system
  -- modules; another one has, as a context, the system modules of the old member of its key, and, as
  -- a server, a declaration of the same canonical bytes.
  pub e1_trigger-IsQuiet :
      (old new : List LockMember) (trigger : List String) (m : LockMember) (s : Snapshot)
      → e1_trigger dumps snapshots old new ≡ ok trigger
      → (e1_revision_outcomes trigger false).1.lock_published ≡ true
      → Elem m new
      → snapshot_of m.pin snapshots ≡ ok s
      → IsQuiet (member_at (member_key m) old) m s
  unfolding e1_trigger
  e1_trigger-IsQuiet old new trigger m s h p k e =
      let (keys, f, h1) = >>=-eq-ok (trigger_keys dumps snapshots old new) _ h in
      let none_sorted : map (λ k. k.1) (sort_by key_after keys) ≡ [] =
        ok-eq h1 ∙ published-eq trigger p in
      trigger_keys-IsQuiet old new m s (f ∙ ap ok (sorted_nil keys none_sorted)) k e
