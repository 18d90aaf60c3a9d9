-- ===== src/PolicyGrant.antt =====
-- The policy grants of tools/workspace_policy_grant.py: what the shape of a record and the decision
-- share. JSON Schema validation, datetime, SHA-256 and json.dumps are parameters; an instant is an
-- integer, and a value that Python cannot hash is in no set of texts.
pub mod Remote
pub mod Shape
pub mod Spelled
pub mod Shaped
pub mod Launch
pub mod Authorized
pub mod Revoke
pub mod Cleaned
pub mod Revoked
use curator_spec.Prelude.{Bool, List, Result, String, [], int_gt, not, ok, ℤ, ◌>>=◌, ◌>>◌, ◌∷◌}
use curator_spec.Text.{Text, codes, has, starts_with, is_empty, text_eq}
use curator_spec.Text.Split.{split}
use curator_spec.Text.Space.{is_space}
use curator_spec.Text.Decimal.{decimal}
use curator_spec.Json.{Value, Items, no_items, item, null, int, str, arr, obj, bare, member, is_str}
use curator_spec.Json.Equal.{Floats, same_value}
use curator_spec.Json.Read.{
  ◌!◌, holds, either, both, negated, is_text, is_none, equals_codes, list_of, any_of, equal, differ,
  contained, Refusal, first_refusal,
}
use curator_spec.Canonical.{ccj1_bytes}
use curator_spec.Sources.Git.{encoded_length}
use curator_spec.WorkspaceTrust.Paths.{Library, exact_path}

-- a name bound to a value before a condition is read
abbrev pub reading : {A : Type 0} → Result A → Result Bool → Result Bool
reading v condition = v >>= λ _. condition

-- a loop that collects what it reads
abbrev pub each : {A : Type 0} → (Value → Result A) → List Value → Result (List A)
each f [] = ok []
each f (v ∷ vs) = do a ← f v; rest ← each f vs; ok (a ∷ rest)

-- the parameters of the decision
pub record Environment : Type 0 where
  pub floats : Floats
  pub paths : Library
  pub is_valid : Value → Bool
  pub timestamp : Value → Result ℤ
  pub dumps : Value → Result Text
  pub sha256 : Text → String

abbrev pub unreadable : String
unreadable = "workspace_trust_ledger_unreadable"

module _ (env : Environment) where
  abbrev pub same : Result Value → Result Value → Result Bool
  same a b = equal env.floats a b

  abbrev pub differs : Result Value → Result Value → Result Bool
  differs a b = differ env.floats a b

  abbrev pub is_in_list : Result Value → Result Value → Result Bool
  is_in_list v vs = contained env.floats v vs

  abbrev pub time_of : Result Value → Result ℤ
  time_of v = v >>= env.timestamp

  -- `a < b` and `a <= b` on instants
  abbrev pub is_before : Result Value → Result Value → Result Bool
  is_before a b = do i ← time_of a; j ← time_of b; ok (int_gt j i)

  abbrev pub is_at_most : Result Value → Result Value → Result Bool
  is_at_most a b = do i ← time_of a; j ← time_of b; ok (not (int_gt i j))
