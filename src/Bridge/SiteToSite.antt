-- ===== src/Bridge/SiteToSite.antt =====
-- internal/bridge/site_to_site.go: the tunnels to other networks.
pub mod Calls
pub mod Establish
pub mod Balance
pub mod Tunnels
pub mod Handlers
mod Tests
use plexd.Base.{
  ℕ, String, List, [], ◌∷◌, ◌++◌, Bool, true, false, not, ◌==◌, leb, Option, none, some,
  if◌then◌else◌, length, contains,
}
use plexd.Base.GoMap.{GoMap, find, has, store, delete, keys}
use plexd.Api.Types.{SiteToSiteTunnel, SiteToSiteConfig}
use plexd.Bridge.Controllers.{
  Call, Log, Env, attempt, run, create_tunnel_interface, remove_tunnel_interface,
  configure_tunnel_peer, remove_tunnel_peer, enable_forwarding, disable_forwarding, add_route,
  remove_route,
}

pub record ActiveTunnel : Type 0 where
  pub tunnel : SiteToSiteTunnel
  pub iface : String

-- The manager; of the configuration, what the manager reads.
pub record SiteToSiteManager : Type 0 where
  pub site_to_site_enabled : Bool
  pub max_site_to_site_tunnels : ℕ
  pub active : Bool
  pub mesh_iface : String
  pub active_tunnels : GoMap ActiveTunnel

pub data TunnelError : Type 0 where
  not_active tunnel_exists max_tunnels_reached create_interface_failed configure_peer_failed
        enable_forwarding_failed add_route_failed :
      TunnelError

unfoldable pub new_site_to_site_manager : Bool → ℕ → SiteToSiteManager
new_site_to_site_manager enabled max_tunnels = record {
  site_to_site_enabled = enabled;
  max_site_to_site_tunnels = max_tunnels;
  active = false;
  mesh_iface = "";
  active_tunnels = [];
}

unfoldable pub setup : String → SiteToSiteManager → SiteToSiteManager
setup mesh_iface m =
    if not m.site_to_site_enabled then m else record m { active = true; mesh_iface = mesh_iface }

unfoldable pub get_tunnel : String → SiteToSiteManager → Option SiteToSiteTunnel
get_tunnel id m = elim (find id m.active_tunnels) [ none ↦ none | some at ↦ some at.tunnel ]

unfoldable pub tunnel_ids : SiteToSiteManager → List String
tunnel_ids m = keys m.active_tunnels

module _ (env : Env) where
  -- The loop that removes the routes of a list of subnets, whatever the calls report.
  unfoldable pub remove_routes : List String → String → Log → Log
  remove_routes [] iface log = log
  remove_routes (s ∷ ss) iface log = remove_routes ss iface (run env (remove_route s iface) log)

  -- The loop that adds routes; when one fails it gives the subnets added before it.
  unfoldable pub add_routes : List String → String → List String → Log → Log × Option (List String)
  add_routes [] iface added log = (log, none)
  add_routes (s ∷ ss) iface added log =
      let (log₁, failed) = attempt env (add_route s iface) log in
      let rest = add_routes ss iface (added ++ s ∷ []) log₁ in
      if failed then (log₁, some added) else rest

  -- The calls that undo what is there once the interface exists, once the peer is configured, and
  -- once forwarding is enabled.
  unfoldable pub undo_interface : SiteToSiteTunnel → Log → Log
  undo_interface t log = run env (remove_tunnel_interface t.interface_name) log

  unfoldable pub undo_peer : SiteToSiteTunnel → Log → Log
  undo_peer t log =
      undo_interface t (run env (remove_tunnel_peer t.interface_name t.remote_public_key) log)

  unfoldable pub undo_forwarding : SiteToSiteTunnel → String → Log → Log
  undo_forwarding t mesh_iface log =
      undo_peer t (run env (disable_forwarding t.interface_name mesh_iface) log)

  -- The last step of `AddTunnel`: the routes.
  unfoldable pub route_tunnel : SiteToSiteTunnel → String → Log → Log × Option TunnelError
  route_tunnel t mesh_iface log =
      let (log₁, failed) = add_routes t.remote_subnets t.interface_name [] log in
      elim failed [
        | none ↦ (log₁, none)
        | some added ↦ (
          undo_forwarding t mesh_iface (remove_routes added t.interface_name log₁),
          some add_route_failed,
        )
      ]

  -- The calls of `AddTunnel`, from the interface to the routes.
  unfoldable pub establish : SiteToSiteTunnel → String → Log → Log × Option TunnelError
  establish t mesh_iface log =
      let (log₁, e₁) = attempt env (create_tunnel_interface t.interface_name t.listen_port) log in
      if e₁
      then (log₁, some create_interface_failed)
      else (let (log₂, e₂) =
            attempt env
              (configure_tunnel_peer t.interface_name t.remote_public_key t.remote_subnets
                t.remote_endpoint t.psk)
              log₁ in
          if e₂
          then (undo_interface t log₂, some configure_peer_failed)
          else (let (log₃, e₃) = attempt env (enable_forwarding t.interface_name mesh_iface) log₂ in
              if e₃
              then (undo_peer t log₃, some enable_forwarding_failed)
              else route_tunnel t mesh_iface log₃))

  unfoldable pub add_tunnel :
      SiteToSiteTunnel → SiteToSiteManager → Log → (SiteToSiteManager × Log) × Option TunnelError
  add_tunnel t m log =
      if not m.active
      then ((m, log), some not_active)
      else if has t.tunnel_id m.active_tunnels
      then ((m, log), some tunnel_exists)
      else if leb m.max_site_to_site_tunnels (length m.active_tunnels)
      then ((m, log), some max_tunnels_reached)
      else (let (log₁, err) = establish t m.mesh_iface log in
          elim err [
            | some e ↦ ((m, log₁), some e)
            | none ↦ (
              (
                record m {
                  active_tunnels =
                      store t.tunnel_id (record { tunnel = t; iface = t.interface_name })
                        m.active_tunnels;
                },
                log₁,
              ),
              none,
            )
          ])

  -- The calls of `RemoveTunnel`.
  unfoldable pub dismantle : ActiveTunnel → String → Log → Log
  dismantle at mesh_iface log = run env (remove_tunnel_interface at.iface) (
      run env (remove_tunnel_peer at.iface at.tunnel.remote_public_key) (
        run env (disable_forwarding at.iface mesh_iface)
          (remove_routes at.tunnel.remote_subnets at.iface log)))

  unfoldable pub remove_tunnel : String → SiteToSiteManager → Log → SiteToSiteManager × Log
  remove_tunnel id m log = if not m.active then (m, log) else (elim (find id m.active_tunnels) [
    | none ↦ (m, log)
    | some at ↦
        (record m { active_tunnels = delete id m.active_tunnels }, dismantle at m.mesh_iface log)
  ])

  -- The calls of `Teardown` for one tunnel, with whether one of them fails.
  unfoldable pub teardown_routes : List String → String → Log → Log × Bool
  teardown_routes [] iface log = (log, false)
  teardown_routes (s ∷ ss) iface log =
      let (log₁, failed) = attempt env (remove_route s iface) log in
      let (log₂, more) = teardown_routes ss iface log₁ in (log₂, if failed then true else more)

  unfoldable pub teardown_tunnels : GoMap ActiveTunnel → String → Log → Log × Bool
  teardown_tunnels [] mesh_iface log = (log, false)
  teardown_tunnels ((id, at) ∷ m) mesh_iface log =
      let (log₁, e₁) = teardown_routes at.tunnel.remote_subnets at.iface log in
      let (log₂, e₂) = attempt env (disable_forwarding at.iface mesh_iface) log₁ in
      let (log₃, e₃) = attempt env (remove_tunnel_interface at.iface) log₂ in
      let (log₄, more) = teardown_tunnels m mesh_iface log₃ in
      (log₄, if e₁ then true else if e₂ then true else if e₃ then true else more)

  unfoldable pub teardown : SiteToSiteManager → Log → (SiteToSiteManager × Log) × Bool
  teardown m log =
      if not m.active
      then ((m, log), false)
      else (let (log₁, failed) = teardown_tunnels m.active_tunnels m.mesh_iface log in
          ((record m { active = false; active_tunnels = [] }, log₁), failed))
