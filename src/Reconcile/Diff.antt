-- ===== src/Reconcile/Diff.antt =====
-- internal/reconcile/diff.go: the drift between the desired and the current state.
pub mod Peers
pub mod Maps
pub mod Empty
pub mod Stages
pub mod Agree
mod Tests
use Prim.Native.String.{compare}
use text.Mathlib.Text.{is_le}
use plexd.Base.{
  ℕ, String, List, [], ◌∷◌, ◌++◌, Bool, true, false, not, ◌&&◌, ◌||◌, ◌==◌, eqb, Option, none, some,
  length, if◌then◌else◌, map,
}
use plexd.Base.GoMap.{GoMap, find, has, store}
use plexd.Base.Int.{ℤ, eqb_ℤ}
use plexd.Api.Types.{Peer, Policy, SigningKeys, DataEntry, SecretRef, StateResponse}

pub record StateDiff : Type 0 where
  pub peers_to_add : List Peer
  pub peers_to_remove : List String
  pub peers_to_update : List Peer
  pub policies_to_add : List Policy
  pub policies_to_remove : List String
  pub signing_keys_changed : Bool
  pub new_signing_keys : Option SigningKeys
  pub metadata_changed : Bool
  pub data_changed : Bool
  pub secret_refs_changed : Bool

-- `var diff StateDiff`
abbrev pub zero_diff : StateDiff
zero_diff = record {
  peers_to_add = [];
  peers_to_remove = [];
  peers_to_update = [];
  policies_to_add = [];
  policies_to_remove = [];
  signing_keys_changed = false;
  new_signing_keys = none;
  metadata_changed = false;
  data_changed = false;
  secret_refs_changed = false;
}

unfoldable pub is_empty : StateDiff → Bool
is_empty d =
    eqb (length d.peers_to_add) 0
    && (eqb (length d.peers_to_remove) 0
        && (eqb (length d.peers_to_update) 0
            && (eqb (length d.policies_to_add) 0
                && (eqb (length d.policies_to_remove) 0
                    && (not d.signing_keys_changed
                        && (not d.metadata_changed
                            && (not d.data_changed && not d.secret_refs_changed)))))))

-- `sort.Strings`, as an insertion sort by the order of the bytes.
unfoldable pub insert_string : String → List String → List String
insert_string s [] = s ∷ []
insert_string s (t ∷ ts) = if is_le (compare s t) then s ∷ t ∷ ts else t ∷ insert_string s ts

unfoldable pub sort_strings : List String → List String
sort_strings [] = []
sort_strings (s ∷ ss) = insert_string s (sort_strings ss)

-- The loop over two slices of one length; one that ends earlier is a difference.
unfoldable pub strings_equal : List String → List String → Bool
strings_equal [] [] = true
strings_equal (a ∷ as') (b ∷ bs) = a == b && strings_equal as' bs
strings_equal _ _ = false

unfoldable pub sorted_strings_equal : List String → List String → Bool
sorted_strings_equal a b =
    if not (eqb (length a) (length b))
    then false
    else strings_equal (sort_strings a) (sort_strings b)

unfoldable pub peer_changed : Peer → Peer → Bool
peer_changed d c =
    if not (d.public_key == c.public_key)
      || (not (d.mesh_ip == c.mesh_ip) || (not (d.endpoint == c.endpoint) || not (d.psk == c.psk)))
    then true
    else not (sorted_strings_equal d.allowed_ips c.allowed_ips)

-- `currentByID[p.ID] = p` over a slice.
unfoldable pub peers_by_id : List Peer → GoMap Peer → GoMap Peer
peers_by_id [] m = m
peers_by_id (p ∷ ps) m = peers_by_id ps (store p.id p m)

unfoldable pub peer_ids : List Peer → List String
peer_ids [] = []
peer_ids (p ∷ ps) = p.id ∷ peer_ids ps

-- `byID[id] = struct{}{}` over a slice.
unfoldable pub id_set : List String → GoMap (Unit {0}) → GoMap (Unit {0})
id_set [] m = m
id_set (i ∷ is) m = id_set is (store i tt m)

-- One round of the loop over the desired peers.
unfoldable pub note_desired_peer : GoMap Peer → Peer → StateDiff → StateDiff
note_desired_peer current p d = elim (find p.id current) [
  | none ↦ record d { peers_to_add = d.peers_to_add ++ p ∷ [] }
  | some c ↦
      if peer_changed p c then record d { peers_to_update = d.peers_to_update ++ p ∷ [] } else d
]

unfoldable pub note_desired_peers : GoMap Peer → List Peer → StateDiff → StateDiff
note_desired_peers current [] d = d
note_desired_peers current (p ∷ ps) d =
    note_desired_peers current ps (note_desired_peer current p d)

unfoldable pub note_removed_peers : GoMap (Unit {0}) → List Peer → StateDiff → StateDiff
note_removed_peers desired [] d = d
note_removed_peers desired (c ∷ cs) d =
    note_removed_peers desired cs (
      if has c.id desired then d else record d { peers_to_remove = d.peers_to_remove ++ c.id ∷ [] })

unfoldable pub diff_peers : List Peer → List Peer → StateDiff → StateDiff
diff_peers desired current d =
    note_removed_peers (id_set (peer_ids desired) []) current
      (note_desired_peers (peers_by_id current []) desired d)

unfoldable pub policy_ids : List Policy → List String
policy_ids [] = []
policy_ids (p ∷ ps) = p.id ∷ policy_ids ps

unfoldable pub note_desired_policies : GoMap (Unit {0}) → List Policy → StateDiff → StateDiff
note_desired_policies current [] d = d
note_desired_policies current (p ∷ ps) d =
    note_desired_policies current ps
      (if has p.id current then d else record d { policies_to_add = d.policies_to_add ++ p ∷ [] })

unfoldable pub note_removed_policies : GoMap (Unit {0}) → List Policy → StateDiff → StateDiff
note_removed_policies desired [] d = d
note_removed_policies desired (c ∷ cs) d = note_removed_policies desired cs (
    if has c.id desired
    then d
    else record d { policies_to_remove = d.policies_to_remove ++ c.id ∷ [] })

unfoldable pub diff_policies : List Policy → List Policy → StateDiff → StateDiff
diff_policies desired current d =
    note_removed_policies (id_set (policy_ids desired) []) current
      (note_desired_policies (id_set (policy_ids current) []) desired d)

unfoldable pub diff_signing_keys : Option SigningKeys → Option SigningKeys → StateDiff → StateDiff
diff_signing_keys none none d = d
diff_signing_keys none (some c) d = record d {
  signing_keys_changed = true;
  new_signing_keys = none;
}
diff_signing_keys (some k) none d = record d {
  signing_keys_changed = true;
  new_signing_keys = some k;
}
diff_signing_keys (some k) (some c) d =
    if not (k.current == c.current) || not (k.previous == c.previous)
    then record d { signing_keys_changed = true; new_signing_keys = some k }
    else d

-- `maps.Equal`: as many entries, and each of the first is in the second.
unfoldable pub entries_in : GoMap String → GoMap String → Bool
entries_in [] n = true
entries_in ((k, v) ∷ m) n = elim (find k n) [ none ↦ false | some w ↦ v == w ] && entries_in m n

unfoldable pub maps_equal : GoMap String → GoMap String → Bool
maps_equal m n = eqb (length m) (length n) && entries_in m n

unfoldable pub diff_metadata : GoMap String → GoMap String → StateDiff → StateDiff
diff_metadata desired current d =
    if maps_equal desired current then d else record d { metadata_changed = true }

-- The versions by key, of data entries and of secret references.
unfoldable pub data_versions : List DataEntry → GoMap ℤ → GoMap ℤ
data_versions [] m = m
data_versions (e ∷ es) m = data_versions es (store e.key e.version m)

unfoldable pub secret_versions : List SecretRef → GoMap ℤ → GoMap ℤ
secret_versions [] m = m
secret_versions (s ∷ ss) m = secret_versions ss (store s.key s.version m)

-- The first loop: a key that is missing or has another version.
unfoldable pub version_missing : GoMap ℤ → GoMap ℤ → Bool
version_missing [] n = false
version_missing ((k, v) ∷ m) n =
    elim (find k n) [ none ↦ true | some w ↦ not (eqb_ℤ v w) ] || version_missing m n

-- The second loop: a key that is no longer desired.
unfoldable pub key_missing : GoMap ℤ → GoMap ℤ → Bool
key_missing [] n = false
key_missing ((k, v) ∷ m) n = not (has k n) || key_missing m n

unfoldable pub versions_differ : GoMap ℤ → GoMap ℤ → Bool
versions_differ desired current = version_missing desired current || key_missing current desired

unfoldable pub diff_data : List DataEntry → List DataEntry → StateDiff → StateDiff
diff_data desired current d =
    if versions_differ (data_versions desired []) (data_versions current [])
    then record d { data_changed = true }
    else d

unfoldable pub diff_secret_refs : List SecretRef → List SecretRef → StateDiff → StateDiff
diff_secret_refs desired current d =
    if versions_differ (secret_versions desired []) (secret_versions current [])
    then record d { secret_refs_changed = true }
    else d

-- `&api.StateResponse{}`
abbrev pub no_state : StateResponse
no_state = record {
  peers = [];
  policies = [];
  signing_keys = none;
  metadata = [];
  bridge_config = none;
  relay_config = none;
  user_access_config = none;
  ingress_config = none;
  site_to_site_config = none;
  entries = [];
  secret_refs = [];
}

abbrev pub or_no_state : Option StateResponse → StateResponse
or_no_state none = no_state
or_no_state (some s) = s

unfoldable pub diff_states : StateResponse → StateResponse → StateDiff
diff_states d c = diff_secret_refs d.secret_refs c.secret_refs (
    diff_data d.entries c.entries (
      diff_metadata d.metadata c.metadata (
        diff_signing_keys d.signing_keys c.signing_keys
          (diff_policies d.policies c.policies (diff_peers d.peers c.peers zero_diff)))))

unfoldable pub compute_diff : Option StateResponse → Option StateResponse → StateDiff
compute_diff none current = zero_diff
compute_diff (some d) current = diff_states d (or_no_state current)
