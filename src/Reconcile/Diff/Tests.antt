-- ===== src/Reconcile/Diff/Tests.antt =====
-- internal/reconcile/diff.go: runs at concrete states.
use plexd.Base.{String, List, [], ◌∷◌, true, ◌≡◌, ◌↔◌, refl}
use plexd.Base.GoMap.{find, has, store, delete}
use plexd.Api.Types.{Peer, StateResponse}
use plexd.Reconcile.Diff.{
  zero_diff, no_state, is_empty, peer_changed, sorted_strings_equal, strings_equal, sort_strings,
  insert_string, peers_by_id, peer_ids, id_set, note_desired_peer, note_desired_peers,
  note_removed_peers, diff_peers, diff_states,
}
use plexd.Reconcile.Diff.Peers.{apply_peers, planned, diff_peers-apply}
use plexd.Reconcile.Diff.Agree.{Agree, is_empty_iff}
use plexd.Reconcile.Diff.Stages.{IsWellFormed}

abbrev peer : String → String → List String → Peer
peer id key ips = record {
  id = id;
  public_key = key;
  mesh_ip = "10.0.0.1";
  endpoint = "";
  allowed_ips = ips;
  psk = "";
}

abbrev current : List Peer
current = peer "a" "k1" ("x" ∷ "y" ∷ []) ∷ peer "b" "k2" [] ∷ peer "c" "k3" [] ∷ []

abbrev desired : List Peer
desired = peer "a" "k1" ("y" ∷ "x" ∷ []) ∷ peer "b" "k9" [] ∷ peer "d" "k4" [] ∷ []

program : Unit {0}
unfolding diff_peers note_removed_peers note_desired_peers note_desired_peer id_set peer_ids
    peers_by_id peer_changed sorted_strings_equal strings_equal sort_strings insert_string find has
    store delete
program = tt

-- The order of the allowed addresses does not count.
diff_example : diff_peers desired current zero_diff ≡ record zero_diff {
  peers_to_add = peer "d" "k4" [] ∷ [];
  peers_to_update = peer "b" "k9" [] ∷ [];
  peers_to_remove = "c" ∷ [];
}
unfolding program
diff_example = refl

diff_peers-apply_example :
    find "b" (apply_peers (diff_peers desired current zero_diff) (peers_by_id current []))
    ≡ planned (find "b" (peers_by_id desired [])) (find "b" (peers_by_id current []))
diff_peers-apply_example =
    diff_peers-apply desired current "b" (unfold program in (refl, (refl, (refl, tt))))

abbrev state : StateResponse
state = record no_state { peers = desired; metadata = ("zone", "eu") ∷ [] }

state-IsWellFormed : IsWellFormed state
unfolding program
state-IsWellFormed = record { peers = (refl, (refl, (refl, tt))); metadata = (refl, tt) }

is_empty_iff_example : (is_empty (diff_states state state) ≡ true) ↔ Agree state state
is_empty_iff_example = is_empty_iff state state state-IsWellFormed state-IsWellFormed
