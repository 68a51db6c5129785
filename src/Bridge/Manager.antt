-- ===== src/Bridge/Manager.antt =====
-- internal/bridge/manager.go and handler.go: the routes, the forwarding and the masquerade of a
-- bridge node, with its relay. A set of subnets is a Go map with no values.
pub mod Tracking
pub mod Rollback
pub mod Routes
mod Tests
use plexd.Base.{
  ℕ, String, List, [], ◌∷◌, ◌++◌, Bool, true, false, not, ◌||◌, Option, none, some, if◌then◌else◌,
  length,
}
use plexd.Base.GoMap.{GoMap, has, store, delete, keys}
use plexd.Base.Int.{ℤ, pos, negsuc}
use plexd.Api.Types.{StateResponse}
use plexd.Bridge.Config.{Config, apply_defaults, nat_enabled}
use plexd.Bridge.Controllers.{
  Log, Env, attempt, run, enable_forwarding, disable_forwarding, add_route, remove_route,
  add_nat_masquerade, remove_nat_masquerade,
}
use plexd.Bridge.Relay
use plexd.Bridge.Relay.{Relay}

abbrev pub SubnetSet : Type 0
SubnetSet = GoMap (Unit {0})

pub record Manager : Type 0 where
  pub cfg : Config
  pub relay : Option Relay
  pub active : Bool
  pub mesh_iface : String
  pub active_routes : SubnetSet
  pub nat_configured : Bool

pub data SetupError : Type 0 where
  enable_forwarding_failed add_nat_failed : SetupError
  add_route_failed : String → SetupError

-- A limit or a duration that is negative acts in the relay as 0 does.
abbrev pub to_nat : ℤ → ℕ
to_nat (pos n) = n
to_nat (negsuc n) = 0

unfoldable pub new_manager : Config → Manager
new_manager given =
    let cfg = apply_defaults given in
    record {
      cfg = cfg;
      relay =
          if cfg.relay_enabled
          then some (Relay.new_relay (to_nat cfg.max_relay_sessions) (to_nat cfg.session_ttl))
          else none;
      active = false;
      mesh_iface = "";
      active_routes = [];
      nat_configured = false;
    }

-- `for _, subnet := range added { m.activeRoutes[subnet] = struct{}{} }`
unfoldable pub track : List String → SubnetSet → SubnetSet
track [] routes = routes
track (s ∷ ss) routes = track ss (store s tt routes)

-- `Stop` of a relay reports no error.
unfoldable pub stop_relay : Option Relay → Option Relay
stop_relay none = none
stop_relay (some r) = some (Relay.stop r)

module _ (env : Env) where
  -- The loop of `rollbackSetup`, over the subnets from the last to the first.
  unfoldable pub rollback_routes : List String → String → Log → Log
  rollback_routes [] iface log = log
  rollback_routes (s ∷ ss) iface log = run env (remove_route s iface) (rollback_routes ss iface log)

  unfoldable pub rollback_setup : List String → String → String → Log → Log
  rollback_setup subnets mesh iface log =
      run env (disable_forwarding mesh iface) (rollback_routes subnets iface log)

  -- The loop that adds the routes; when one fails, that subnet and those added before it.
  unfoldable pub setup_routes :
      List String → String → List String → Log → Log × Option (String × List String)
  setup_routes [] iface added log = (log, none)
  setup_routes (s ∷ ss) iface added log =
      let (log₁, failed) = attempt env (add_route s iface) log in
      let rest = setup_routes ss iface (added ++ s ∷ []) log₁ in
      if failed then (log₁, some (s, added)) else rest

  -- `Setup` from the masquerade on.
  unfoldable pub setup_nat : Manager → Log → (Manager × Log) × Option SetupError
  setup_nat m log =
      if not (nat_enabled m.cfg)
      then ((record m { active = true }, log), none)
      else (let (log₁, failed) = attempt env (add_nat_masquerade m.cfg.access_interface) log in
          if failed
          then (
            (
              record m { active_routes = [] },
              rollback_setup (keys m.active_routes) m.mesh_iface m.cfg.access_interface log₁,
            ),
            some add_nat_failed,
          )
          else ((record m { nat_configured = true; active = true }, log₁), none))

  -- `Setup` once forwarding is enabled.
  unfoldable pub setup_forwarded : Manager → Log → (Manager × Log) × Option SetupError
  setup_forwarded m log =
      let (log₁, failed) = setup_routes m.cfg.access_subnets m.cfg.access_interface [] log in
      elim failed [
        | some (s, added) ↦ (
          (m, rollback_setup added m.mesh_iface m.cfg.access_interface log₁),
          some (add_route_failed s),
        )
        | none ↦
            setup_nat (record m { active_routes = track m.cfg.access_subnets m.active_routes }) log₁
      ]

  unfoldable pub setup : String → Manager → Log → (Manager × Log) × Option SetupError
  setup mesh m log =
      if not m.cfg.enabled
      then ((m, log), none)
      else (let (log₁, failed) = attempt env (enable_forwarding mesh m.cfg.access_interface) log in
          if failed
          then ((record m { mesh_iface = mesh }, log₁), some enable_forwarding_failed)
          else setup_forwarded (record m { mesh_iface = mesh }) log₁)

  -- The loop of `Teardown` over the active routes, with whether one fails.
  unfoldable pub teardown_routes : SubnetSet → String → Log → Log × Bool
  teardown_routes [] iface log = (log, false)
  teardown_routes ((s, _) ∷ routes) iface log =
      let (log₁, failed) = attempt env (remove_route s iface) log in
      let (log₂, more) = teardown_routes routes iface log₁ in (log₂, failed || more)

  -- Removing the masquerade, if it is configured.
  unfoldable pub teardown_nat : Manager → Log → Log × Bool
  teardown_nat m log =
      if m.nat_configured
      then attempt env (remove_nat_masquerade m.cfg.access_interface) log
      else (log, false)

  -- The result is the state and whether an error is reported.
  unfoldable pub teardown : Manager → Log → (Manager × Log) × Bool
  teardown m log =
      if not m.active
      then ((m, log), false)
      else (let (log₁, e₁) = teardown_routes m.active_routes m.cfg.access_interface log in
          let (log₂, e₂) = teardown_nat m log₁ in
          let (log₃, e₃) =
            attempt env (disable_forwarding m.mesh_iface m.cfg.access_interface) log₂ in
          (
            (
              record m {
                active_routes = [];
                nat_configured = false;
                relay = stop_relay m.relay;
                active = false;
              },
              log₃,
            ),
            e₁ || e₂ || e₃,
          ))

  -- The loop of `UpdateRoutes` that removes what is not desired: the routes that it ranges over, and
  -- the set that it deletes from.
  unfoldable pub remove_stale :
      SubnetSet → SubnetSet → String → SubnetSet → Log → (SubnetSet × Log) × Bool
  remove_stale [] desired iface routes log = ((routes, log), false)
  remove_stale ((s, _) ∷ rest) desired iface routes log =
      if has s desired
      then (let out = remove_stale rest desired iface routes log in out)
      else (let (log₁, failed) = attempt env (remove_route s iface) log in
          let ((routes', log₂), more) =
            remove_stale rest desired iface (if failed then routes else delete s routes) log₁ in
          ((routes', log₂), failed || more))

  unfoldable pub add_missing : List String → String → SubnetSet → Log → (SubnetSet × Log) × Bool
  add_missing [] iface routes log = ((routes, log), false)
  add_missing (s ∷ ss) iface routes log =
      if has s routes
      then (let out = add_missing ss iface routes log in out)
      else (let (log₁, failed) = attempt env (add_route s iface) log in
          let ((routes', log₂), more) =
            add_missing ss iface (if failed then routes else store s tt routes) log₁ in
          ((routes', log₂), failed || more))

  unfoldable pub update_routes : List String → Manager → Log → (Manager × Log) × Bool
  update_routes subnets m log =
      let ((kept, log₁), e₁) =
        remove_stale m.active_routes (track subnets []) m.cfg.access_interface m.active_routes
          log in
      let ((routes, log₂), e₂) = add_missing subnets m.cfg.access_interface kept log₁ in
      ((record m { active_routes = routes }, log₂), e₁ || e₂)

  -- `ReconcileHandler`; no desired state or no bridge configuration changes nothing.
  unfoldable pub reconcile_handler : Option StateResponse → Manager → Log → (Manager × Log) × Bool
  reconcile_handler none m log = ((m, log), false)
  reconcile_handler (some desired) m log = elim desired.bridge_config [
    | none ↦ ((m, log), false)
    | some config ↦ update_routes config.access_subnets m log
  ]

unfoldable pub start_relay : Option ℕ → Manager → Option Manager
start_relay socket m = elim m.relay [
  | none ↦ some m
  | some r ↦ elim (Relay.start socket r) [
    | none ↦ none
    | some r' ↦ some (record m { relay = some r' })
  ]
]

-- What the heartbeat reports of the bridge.
pub record BridgeInfo : Type 0 where
  pub enabled : Bool
  pub access_interface : String
  pub active_routes : ℕ
  pub relay_enabled : Bool
  pub active_relay_sessions : ℕ
  pub ingress_enabled : Bool
  pub active_ingress_rules : ℕ
  pub site_to_site_enabled : Bool
  pub active_site_to_site_tunnels : ℕ

unfoldable pub bridge_status : Manager → Option BridgeInfo
bridge_status m =
    if not m.active
    then none
    else some (record {
      enabled = true;
      access_interface = m.cfg.access_interface;
      active_routes = length m.active_routes;
      relay_enabled = elim m.relay [ none ↦ false | some _ ↦ true ];
      active_relay_sessions = elim m.relay [ none ↦ 0 | some r ↦ length r.sessions ];
      ingress_enabled = false;
      active_ingress_rules = 0;
      site_to_site_enabled = false;
      active_site_to_site_tunnels = 0;
    })
