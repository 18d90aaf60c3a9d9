-- ===== src/Environment/Order.antt =====
-- environment_precedence and environment_emitted_order of tools/validate.py, over the members that
-- resolve_closure puts into a lock.
use curator_spec.Prelude.{
  Bool, List, Result, String, [], err, false, if◌then◌else◌, int_gt, keep, length, map, negate, not,
  ok, sort_by, str_eq, true, ◌>>=◌, ◌||◌, ◌∷◌,
}
use curator_spec.Json.{is_in, has_exactly, Value, obj, get, one_of, str}
use curator_spec.Resolution.{index}
use curator_spec.Resolution.Members.{Member}
use curator_spec.Environment.Kahn.{emit}

pub record Lock : Type 0 where
  pub root : String
  pub members : List Member

abbrev pub winners : List String
winners = "higher-weight" ∷ "lower-weight" ∷ []

abbrev pub placements : List String
placements = "winner-last" ∷ "winner-first" ∷ []

abbrev pub text_or : Value → String
text_or (str s) = s
text_or _ = ""

-- the winner and the placement
unfoldable pub environment_precedence : Value → Result (String × String)
unfolding get
environment_precedence (obj p) =
    if not (has_exactly p ("winner" ∷ "placement" ∷ []))
      || (not (one_of (get p "winner") winners) || not (one_of (get p "placement") placements))
    then err "environment case declares an invalid precedence policy"
    else ok (text_or (get p "winner"), text_or (get p "placement"))
environment_precedence _ = err "environment case declares an invalid precedence policy"

-- `d[key] = value`: a key that is there keeps its place
abbrev pub set_item : String → Member → List (String × Member) → List (String × Member)
set_item key m [] = (key, m) ∷ []
set_item key m ((k, n) ∷ d) = elim (str_eq k key) [
  | true ↦ (k, m) ∷ d
  | false ↦ (k, n) ∷ set_item key m d
]

-- `{member["name"]: member for member in … if member["kind"] == "context"}`, behind `d`
unfoldable pub contexts_from : List (String × Member) → List Member → List (String × Member)
contexts_from d [] = d
contexts_from d (m ∷ ms) =
    contexts_from (if str_eq m.kind "context" then set_item m.name m d else d) ms

abbrev pub names_of : List (String × Member) → List String
names_of = map (λ p. p.0)

-- `requires[name]`: the contexts that `name` requires
unfoldable pub requires_of : List (String × Member) → String → List String
unfolding keep
requires_of contexts name = names_of (keep (λ p. is_in name p.1.required_by) contexts)

-- `[contexts[name] for name in emitted]`
unfoldable pub members_of : List (String × Member) → List String → Result (List Member)
unfolding index
members_of contexts [] = ok []
members_of contexts (n ∷ ns) = do m ← index n contexts; ms ← members_of contexts ns; ok (m ∷ ms)

-- `(winner == "higher-weight") == (placement == "winner-last")`
abbrev pub is_ascending : String → String → Bool
is_ascending winner placement =
    if str_eq winner "higher-weight"
    then str_eq placement "winner-last"
    else not (str_eq placement "winner-last")

-- the comparison of the sort's keys
abbrev pub weighs_after : Bool → Member → Member → Bool
weighs_after true m n = int_gt m.weight n.weight
weighs_after false m n = int_gt (negate m.weight) (negate n.weight)

abbrev pub contexts_of : Lock → List (String × Member)
contexts_of lock = contexts_from [] lock.members

unfoldable pub environment_emitted_order : Lock → Value → Result (List Member)
unfolding environment_precedence contexts_from emit requires_of members_of sort_by
environment_emitted_order lock precedence = do
  (winner, placement) ← environment_precedence precedence
  let contexts = contexts_of lock
  emitted ← emit (requires_of contexts) (names_of contexts) (length contexts) []
  ordered ← members_of contexts emitted
  ok (sort_by (weighs_after (is_ascending winner placement)) ordered)
