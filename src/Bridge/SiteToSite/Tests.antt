-- ===== src/Bridge/SiteToSite/Tests.antt =====
-- internal/bridge/site_to_site.go: runs with one tunnel.
use plexd.Base.{◌+◌, [], ◌∷◌, true, false, none, some, ◌≡◌, ◌≢◌, refl, arith, ◌==◌}
use plexd.Base.GoMap.{find, has, store, delete, keys}
use plexd.Base.Int.{pos}
use plexd.Api.Types.{SiteToSiteTunnel}
use plexd.Bridge.Controllers.{
  Env, interface, acquired, released, failed_releases, attempt, run, add_route,
}
use plexd.Bridge.SiteToSite.{
  SiteToSiteManager, TunnelError, add_route_failed, new_site_to_site_manager, get_tunnel,
  tunnel_ids, add_tunnel, remove_tunnel, establish, route_tunnel, add_routes, remove_routes,
  undo_interface, undo_peer, undo_forwarding, dismantle,
}
use plexd.Bridge.Resync.{without, desired_items, settle, settle_all, add_absent, resync}
use plexd.Bridge.Resync.Refines.{last_of}
use plexd.Bridge.SiteToSite.Handlers.{tunnels, reconciled_tunnels}
use plexd.Bridge.SiteToSite.Balance.{failed_add_releases}
use plexd.Bridge.SiteToSite.Tunnels.{
  HoldsTunnels, start, add, remove, tunnel_calls, reachable-HoldsTunnels,
}

abbrev tunnel : SiteToSiteTunnel
tunnel = record {
  tunnel_id = "t";
  remote_endpoint = "192.0.2.1:51820";
  remote_public_key = "k";
  local_subnets = [];
  remote_subnets = "10.1.0.0/16" ∷ "10.2.0.0/16" ∷ [];
  psk = "";
  interface_name = "wg-s2s-0";
  listen_port = pos 51823;
}

abbrev manager : SiteToSiteManager
manager = record {
  site_to_site_enabled = true;
  max_site_to_site_tunnels = 1;
  active = true;
  mesh_iface = "wg0";
  active_tunnels = [];
}

-- Every call works.
abbrev works : Env
works log c = false

-- The second route is refused.
abbrev refuses : Env
refuses log (add_route s i) = s == "10.2.0.0/16"
refuses log c = false

program : Unit {0}
unfolding add_tunnel remove_tunnel establish route_tunnel add_routes remove_routes undo_interface
    undo_peer undo_forwarding dismantle tunnel_ids get_tunnel without desired_items settle
    settle_all add_absent resync keys attempt run acquired released find has store delete
program = tt

refused_example : (add_tunnel refuses tunnel manager []).1 ≡ some add_route_failed
unfolding program
refused_example = refl

some_not_none : (e : TunnelError) → some e ≢ none
some_not_none e h = (ground arith)

failed_add_releases_example :
    acquired (interface "wg-s2s-0") (add_tunnel refuses tunnel manager []).0.1
      + (released (interface "wg-s2s-0") [] + failed_releases (interface "wg-s2s-0") [])
    ≡ released (interface "wg-s2s-0") (add_tunnel refuses tunnel manager []).0.1
      + failed_releases (interface "wg-s2s-0") (add_tunnel refuses tunnel manager []).0.1
      + acquired (interface "wg-s2s-0") []
failed_add_releases_example =
    failed_add_releases (interface "wg-s2s-0") refuses tunnel manager []
      (unfold program in some_not_none add_route_failed)

reachable-HoldsTunnels_example :
    HoldsTunnels
      (tunnel_calls works
        (start "wg0" ∷ add tunnel ∷ add tunnel ∷ remove "t" ∷ [])
        (new_site_to_site_manager true 1, [])).0
reachable-HoldsTunnels_example =
    reachable-HoldsTunnels works (start "wg0" ∷ add tunnel ∷ add tunnel ∷ remove "t" ∷ []) true 1

manager-HoldsTunnels : HoldsTunnels manager
unfolding find
manager-HoldsTunnels = record {
  keyed = λ id at e. absurd (ground arith);
  distinct = tt;
  bounded = omega arith;
  inactive = λ e. refl;
}

reconciled_tunnels_example :
    get_tunnel "t" (resync (tunnels works) (tunnel ∷ []) (manager, [])).0.0
    ≡ last_of (tunnels works) "t" (tunnel ∷ []) none
reconciled_tunnels_example =
    reconciled_tunnels works (tunnel ∷ []) (manager, []) "t" manager-HoldsTunnels
      (unfold program in refl)
