-- ===== src/Tests/RevokeRuns.antt =====
-- A revocation of the grants of one policy entry, with a key that another grant still needs.
use curator_spec.Prelude.{Bool, List, String, [], false, refl, true, ◌∷◌, ◌≡◌}
use curator_spec.Json.{null, str}
use curator_spec.PolicyGrant.Revoke.{Status, Grant, Key, revoke}
use curator_spec.PolicyGrant.Revoked.{IsRevocation, revoke-Twice, revoke-IsRevocation}

abbrev running : Status
running = record {
  status = "active";
  time = str "09:00";
  reason = str "consent";
  by = str "keeper";
}

abbrev gone : Status
gone = record { status = "revoked"; time = str "10:00"; reason = str "stale"; by = str "operator" }

abbrev grant : String → String → Grant
grant grant_id entry_id = record {
  grant_id = grant_id;
  entry_id = entry_id;
  state = running;
  state_history = [];
  rest = null;
}

abbrev key : List String → Bool → Key
key grant_ids readable = record {
  grant_ids = grant_ids;
  owned_unchanged = true;
  readable = readable;
  present = true;
  pending_cleanup = false;
  rest = null;
}

abbrev grants : List Grant
grants = grant "g1" "lanes" ∷ grant "g2" "other" ∷ []

abbrev shared : Key
shared = key ("g1" ∷ "g2" ∷ []) true

abbrev journal : List Key
journal = key ("g1" ∷ []) true ∷ key ("g1" ∷ []) false ∷ shared ∷ []

run : revoke grants journal "lanes" (str "operator") (str "10:00") (str "stale") ≡ (
  record (grant "g1" "lanes") { state = gone; state_history = running ∷ [] }
      ∷ grant "g2" "other"
      ∷ [],
  record (key ("g1" ∷ []) true) { present = false }
      ∷ record (key ("g1" ∷ []) false) { pending_cleanup = true }
      ∷ shared
      ∷ [],
)
unfolding revoke
run = refl

revoke-IsRevocation_example :
    let (grants', journal') =
      revoke grants journal "lanes" (str "operator") (str "10:00") (str "stale") in
    IsRevocation "lanes"
      (str "operator")
      (str "10:00")
      (str "stale")
      grants
      journal
      grants'
      journal'
revoke-IsRevocation_example =
    revoke-IsRevocation grants journal "lanes" (str "operator") (str "10:00") (str "stale")

revoke-Twice_example :
    (let (grants', journal') =
        revoke grants journal "lanes" (str "operator") (str "10:00") (str "stale") in
      revoke grants' journal' "lanes" (str "keeper") (str "11:00") (str "again"))
    ≡ revoke grants journal "lanes" (str "operator") (str "10:00") (str "stale")
revoke-Twice_example =
    revoke-Twice grants journal "lanes" (str "operator") (str "10:00") (str "stale") (str "keeper")
      (str "11:00") (str "again")
