-- ===== src/Bridge/Manager/Tests.antt =====
-- internal/bridge/manager.go and config.go: runs of a bridge node with two subnets.
use plexd.Base.{
  ◌+◌, String, [], ◌∷◌, Bool, true, false, none, some, ◌≡◌, ◌≢◌, refl, NoRepeats, arith,
}
use plexd.Base.GoMap.{has, store, delete, keys}
use plexd.Base.Int.{pos}
use plexd.Bridge.Config.{Config, apply_defaults, nat_enabled}
use plexd.Bridge.Controllers.{
  Env, attempt, run, route, acquired, released, failed_releases, add_nat_masquerade,
}
use plexd.Bridge.Manager.{
  Manager, SetupError, add_nat_failed, new_manager, track, rollback_routes, rollback_setup,
  setup_routes, setup_nat, setup_forwarded, setup, teardown_routes, teardown_nat, stop_relay,
  teardown, remove_stale, add_missing, update_routes, bridge_status,
}
use plexd.Bridge.Manager.Rollback.{failed_setup_releases}

abbrev given : Config
given = record {
  enabled = true;
  access_interface = "eth1";
  access_subnets = "10.0.0.0/24" ∷ "10.0.1.0/24" ∷ [];
  enable_nat = none;
  relay_enabled = false;
  relay_listen_port = pos 0;
  max_relay_sessions = pos 0;
  session_ttl = pos 0;
  user_access_enabled = false;
  user_access_interface_name = "";
  user_access_listen_port = pos 0;
  max_access_peers = pos 0;
  ingress_enabled = true;
  max_ingress_rules = pos 0;
  ingress_dial_timeout = pos 0;
  site_to_site_enabled = false;
  site_to_site_interface_prefix = "";
  site_to_site_listen_port = pos 0;
  max_site_to_site_tunnels = pos 0;
}

abbrev works : Env
works log c = false

-- The masquerade cannot be added.
abbrev no_nat : Env
no_nat log (add_nat_masquerade i) = true
no_nat log c = false

abbrev fresh : Manager
fresh = record {
  cfg = given;
  relay = none;
  active = false;
  mesh_iface = "";
  active_routes = [];
  nat_configured = false;
}

program : Unit {0}
unfolding new_manager apply_defaults nat_enabled track rollback_routes rollback_setup setup_routes
    setup_nat setup_forwarded setup teardown_routes teardown_nat stop_relay teardown remove_stale
    add_missing update_routes bridge_status has store delete keys attempt run acquired released
program = tt

configured_active : (setup works "wg0" (new_manager given) []).0.0.active ≡ true
unfolding program
configured_active = refl

-- A route is kept until its removal, and teardown releases what setup acquired.
torn_down :
    let up = setup works "wg0" fresh [] in
    released (route "10.0.1.0/24" "eth1") (teardown works up.0.0 up.0.1).0.1 ≡ 1
unfolding program
torn_down = refl

masquerade_fails : (setup no_nat "wg0" fresh []).1 ≡ some add_nat_failed
unfolding program
masquerade_fails = refl

some_not_none : (e : SetupError) → some e ≢ none
some_not_none e h = (ground arith)

subnets_differ : NoRepeats given.access_subnets
subnets_differ = (refl, (refl, tt))

failed_setup_releases_example :
    acquired (route "10.0.0.0/24" "eth1") (setup no_nat "wg0" fresh []).0.1
      + (released (route "10.0.0.0/24" "eth1") [] + failed_releases (route "10.0.0.0/24" "eth1") [])
    ≡ released (route "10.0.0.0/24" "eth1") (setup no_nat "wg0" fresh []).0.1
      + failed_releases (route "10.0.0.0/24" "eth1") (setup no_nat "wg0" fresh []).0.1
      + acquired (route "10.0.0.0/24" "eth1") []
failed_setup_releases_example =
    failed_setup_releases (route "10.0.0.0/24" "eth1") no_nat "wg0" fresh [] subnets_differ refl
      (unfold program in some_not_none add_nat_failed)

abbrev any_cidr : String → Bool
any_cidr s = true
