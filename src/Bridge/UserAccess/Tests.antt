-- ===== src/Bridge/UserAccess/Tests.antt =====
-- internal/bridge/user_access.go and user_access_handler.go: runs with one tracked client.
use plexd.Base.{String, [], ◌∷◌, true, false, none, some, ◌≡◌, refl, contains}
use plexd.Base.GoMap.{has, store, delete, keys}
use plexd.Base.Int.{pos}
use plexd.Api.Types.{UserAccessPeer}
use plexd.Bridge.Config.{Config}
use plexd.Bridge.Controllers.{
  Env, peer, attempt, run, acquired, released, interface, enable_forwarding,
}
use plexd.Bridge.UserAccess.{
  UserAccessManager, max_peers_reached, new_user_access_manager, setup, teardown_peers, teardown,
  add_peer, drop_peer, handle_peer_revoked, public_keys, peer_public_keys, remove_stale,
  add_missing, reconcile_peers,
}
use plexd.Bridge.UserAccess.Peers.{reconciled_peers, tracked_peer_not_configured}

abbrev config : Config
config = record {
  enabled = true;
  access_interface = "eth1";
  access_subnets = "10.0.0.0/24" ∷ [];
  enable_nat = none;
  relay_enabled = false;
  relay_listen_port = pos 0;
  max_relay_sessions = pos 0;
  session_ttl = pos 0;
  user_access_enabled = true;
  user_access_interface_name = "wg-access";
  user_access_listen_port = pos 51822;
  max_access_peers = pos 2;
  ingress_enabled = false;
  max_ingress_rules = pos 0;
  ingress_dial_timeout = pos 0;
  site_to_site_enabled = false;
  site_to_site_interface_prefix = "";
  site_to_site_listen_port = pos 0;
  max_site_to_site_tunnels = pos 0;
}

abbrev works : Env
works log c = false

abbrev no_forwarding : Env
no_forwarding log (enable_forwarding a b) = true
no_forwarding log c = false

abbrev client : String → String → UserAccessPeer
client key psk = record { public_key = key; allowed_ips = []; psk = psk; label = "" }

abbrev one_client : UserAccessManager
one_client = record { cfg = config; active = true; active_peers = ("a", tt) ∷ [] }

program : Unit {0}
unfolding new_user_access_manager setup teardown_peers teardown add_peer drop_peer
    handle_peer_revoked public_keys peer_public_keys remove_stale add_missing reconcile_peers has
    store delete keys attempt run acquired released
program = tt

-- A setup that cannot enable forwarding removes the interface again.
interface_removed :
    released (interface "wg-access") (setup no_forwarding (new_user_access_manager config) []).0.1
    ≡ 1
unfolding program
interface_removed = refl

third_refused :
    let two = (add_peer works (client "b" "") one_client []).0.0 in
    (add_peer works (client "c" "") two []).1 ≡ some max_peers_reached
unfolding program
third_refused = refl

revoked : (handle_peer_revoked works (some "a") one_client []).0.0.active_peers ≡ []
unfolding program
revoked = refl

-- The handlers and the loops may add a client before the manager is set up.
added_inactive :
    (add_peer works (client "a" "") (new_user_access_manager config) []).0.0.active_peers
    ≡ ("a", tt) ∷ []
unfolding program
added_inactive = refl

reconciled_peers_example :
    has "a" (reconcile_peers works (client "b" "" ∷ []) one_client []).0.0.active_peers
    ≡ contains "a" (public_keys (client "b" "" ∷ []))
reconciled_peers_example =
    reconciled_peers works "a" (client "b" "" ∷ []) one_client [] (λ log i k. refl)
      (unfold program in refl)

-- The preshared key of the client has changed.
tracked_peer_not_configured_example :
    acquired
      (peer "wg-access" "a")
      (reconcile_peers works (client "a" "new" ∷ []) one_client []).0.1
    ≡ acquired (peer "wg-access" "a") []
tracked_peer_not_configured_example =
    tracked_peer_not_configured works "wg-access" "a" (client "a" "new" ∷ []) one_client []
      (unfold program in refl)
