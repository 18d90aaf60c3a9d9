-- ===== src/PolicyGrant/Revoke.antt =====
-- The revocation of the grants of a policy entry, `revoke` of tools/workspace_policy_grant.py: the
-- records of the ledger, and the keys of the journal that were set for grants. A record holds what
-- the revocation reads and writes, and its other members in `rest`.
use curator_spec.Prelude.{
  Bool, List, String, [], any, false, if◌then◌else◌, keep, map, not, str_eq, true, ◌&&◌, ◌++◌, ◌∷◌,
}
use curator_spec.Json.{is_in, Value}

pub record Status : Type 0 where
  pub status : String
  pub time : Value
  pub reason : Value
  pub by : Value

pub record Grant : Type 0 where
  pub grant_id : String
  pub entry_id : String
  pub state : Status
  pub state_history : List Status
  pub rest : Value

pub record Key : Type 0 where
  pub grant_ids : List String
  pub owned_unchanged : Bool
  pub readable : Bool
  pub present : Bool
  pub pending_cleanup : Bool
  pub rest : Value

abbrev pub is_revoked : Grant → Bool
is_revoked g = str_eq g.state.status "revoked"

abbrev pub is_active : Grant → Bool
is_active g = str_eq g.state.status "active"

abbrev pub is_of : String → Grant → Bool
is_of entry_id g = str_eq g.entry_id entry_id

-- the state that a revocation records
abbrev pub revocation : Value → Value → Value → Status
revocation issuer time reason = record {
  status = "revoked";
  time = time;
  reason = reason;
  by = issuer;
}

-- a record, where the revocation sets this state
abbrev pub revoke_grant : String → Status → Grant → Grant
revoke_grant entry_id new g =
    if is_of entry_id g && not (is_revoked g)
    then record {
      grant_id = g.grant_id;
      entry_id = g.entry_id;
      state = new;
      state_history = g.state_history ++ g.state ∷ [];
      rest = g.rest;
    }
    else g

abbrev pub affected : String → List Grant → List String
affected entry_id grants = map Grant.grant_id (keep (is_of entry_id) grants)

abbrev pub active : List Grant → List String
active grants = map Grant.grant_id (keep is_active grants)

-- `ids.intersection(key['grant_ids'])` is not empty
abbrev pub meets : List String → Key → Bool
meets ids key = any (λ i. is_in i key.grant_ids) ids

abbrev pub clean : Key → Key
clean key =
    if key.owned_unchanged && key.readable
    then record {
      grant_ids = key.grant_ids;
      owned_unchanged = key.owned_unchanged;
      readable = key.readable;
      present = false;
      pending_cleanup = false;
      rest = key.rest;
    }
    else record {
      grant_ids = key.grant_ids;
      owned_unchanged = key.owned_unchanged;
      readable = key.readable;
      present = key.present;
      pending_cleanup = true;
      rest = key.rest;
    }

abbrev pub clean_key : List String → List String → Key → Key
clean_key revoked running key =
    if not (meets revoked key) then key else if meets running key then key else clean key

unfoldable pub revoke :
    List Grant → List Key → String → Value → Value → Value → List Grant × List Key
unfolding keep
revoke grants journal entry_id issuer time reason =
    let changed = map (revoke_grant entry_id (revocation issuer time reason)) grants in
    (changed, map (clean_key (affected entry_id grants) (active changed)) journal)
