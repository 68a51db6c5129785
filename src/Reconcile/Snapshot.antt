-- ===== src/Reconcile/Snapshot.antt =====
-- internal/reconcile/snapshot.go: the last known desired state. The deep copies are values here, so
-- that a copy is what it was made from.
use plexd.Base.{String, List, [], ◌∷◌, ◌==◌, Option, none, if◌then◌else◌}
use plexd.Base.GoMap.{GoMap}
use plexd.Api.Types.{Peer, Policy, SigningKeys, DataEntry, SecretRef, StateResponse}
use plexd.Reconcile.Diff.{no_state}

pub record StateSnapshot : Type 0 where
  pub peers : List Peer
  pub policies : List Policy
  pub signing_keys : Option SigningKeys
  pub metadata : GoMap String
  pub entries : List DataEntry
  pub secret_refs : List SecretRef

unfoldable pub new_state_snapshot : StateSnapshot
new_state_snapshot = record {
  peers = [];
  policies = [];
  signing_keys = none;
  metadata = [];
  entries = [];
  secret_refs = [];
}

unfoldable pub get : StateSnapshot → StateResponse
get s = record no_state {
  peers = s.peers;
  policies = s.policies;
  signing_keys = s.signing_keys;
  metadata = s.metadata;
  entries = s.entries;
  secret_refs = s.secret_refs;
}

unfoldable pub update : StateSnapshot → StateResponse → StateSnapshot
update s desired = record {
  peers = desired.peers;
  policies = desired.policies;
  signing_keys = desired.signing_keys;
  metadata = desired.metadata;
  entries = desired.entries;
  secret_refs = desired.secret_refs;
}

-- The `switch` of `UpdatePartial`.
unfoldable pub update_category : StateSnapshot → StateResponse → String → StateSnapshot
update_category s desired cat =
    if cat == "peers"
    then record s { peers = desired.peers }
    else if cat == "policies"
    then record s { policies = desired.policies }
    else if cat == "signing_keys"
    then record s { signing_keys = desired.signing_keys }
    else if cat == "metadata"
    then record s { metadata = desired.metadata }
    else if cat == "data"
    then record s { entries = desired.entries }
    else if cat == "secret_refs"
    then record s { secret_refs = desired.secret_refs }
    else s

unfoldable pub update_partial : StateSnapshot → StateResponse → List String → StateSnapshot
update_partial s desired [] = s
update_partial s desired (cat ∷ cats) = update_partial (update_category s desired cat) desired cats
