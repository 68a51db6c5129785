-- ===== src/Bridge/UserAccess.antt =====
-- internal/bridge/user_access.go and user_access_handler.go: the external clients of a bridge node.
-- The configuration is the manager's; NewUserAccessManager applies no defaults to it.
pub mod Peers
mod Tests
use plexd.Base.{
  ℕ, String, List, [], ◌∷◌, Bool, true, false, not, ◌||◌, Option, none, some, if◌then◌else◌, length,
  contains,
}
use plexd.Base.GoMap.{GoMap, has, store, delete, keys}
use plexd.Base.Int.{ℤ, leb_ℤ}
use plexd.Api.Types.{UserAccessPeer, UserAccessConfig, StateResponse}
use plexd.Bridge.Config.{Config}
use plexd.Bridge.Controllers.{
  Log, Env, attempt, run, create_interface, remove_interface, configure_peer, remove_peer,
  enable_forwarding, disable_forwarding,
}

pub record UserAccessManager : Type 0 where
  pub cfg : Config
  pub active : Bool
  -- Keyed by public key.
  pub active_peers : GoMap (Unit {0})

pub data UserAccessError : Type 0 where
  create_interface_failed enable_forwarding_failed peer_exists max_peers_reached
        configure_peer_failed bad_payload :
      UserAccessError

unfoldable pub new_user_access_manager : Config → UserAccessManager
new_user_access_manager cfg = record { cfg = cfg; active = false; active_peers = [] }

unfoldable pub peer_public_keys : UserAccessManager → List String
peer_public_keys m = keys m.active_peers

-- The keys of the desired set.
unfoldable pub public_keys : List UserAccessPeer → List String
public_keys [] = []
public_keys (p ∷ ps) = p.public_key ∷ public_keys ps

module _ (env : Env) where
  unfoldable pub setup :
      UserAccessManager → Log → (UserAccessManager × Log) × Option UserAccessError
  setup m log =
      if not m.cfg.user_access_enabled
      then ((m, log), none)
      else (let (log₁, e₁) =
            attempt env
              (create_interface m.cfg.user_access_interface_name m.cfg.user_access_listen_port)
              log in
          if e₁
          then ((m, log₁), some create_interface_failed)
          else (let (log₂, e₂) =
                attempt env
                  (enable_forwarding m.cfg.user_access_interface_name m.cfg.access_interface)
                  log₁ in
              if e₂
              then (
                (m, run env (remove_interface m.cfg.user_access_interface_name) log₂),
                some enable_forwarding_failed,
              )
              else ((record m { active = true }, log₂), none)))

  -- The loop of `Teardown`, with whether a call fails.
  unfoldable pub teardown_peers : GoMap (Unit {0}) → String → Log → Log × Bool
  teardown_peers [] iface log = (log, false)
  teardown_peers ((k, _) ∷ peers) iface log =
      let (log₁, failed) = attempt env (remove_peer iface k) log in
      let (log₂, more) = teardown_peers peers iface log₁ in (log₂, failed || more)

  unfoldable pub teardown : UserAccessManager → Log → (UserAccessManager × Log) × Bool
  teardown m log =
      if not m.active
      then ((m, log), false)
      else (let iface = m.cfg.user_access_interface_name in
          let (log₁, e₁) = teardown_peers m.active_peers iface log in
          let (log₂, e₂) = attempt env (disable_forwarding iface m.cfg.access_interface) log₁ in
          let (log₃, e₃) = attempt env (remove_interface iface) log₂ in
          ((record m { active = false; active_peers = [] }, log₃), e₁ || e₂ || e₃))

  unfoldable pub add_peer :
      UserAccessPeer → UserAccessManager → Log → (UserAccessManager × Log) × Option UserAccessError
  add_peer peer m log =
      if has peer.public_key m.active_peers
      then ((m, log), some peer_exists)
      else if leb_ℤ m.cfg.max_access_peers (length m.active_peers)
      then ((m, log), some max_peers_reached)
      else (let (log₁, failed) =
            attempt env
              (configure_peer m.cfg.user_access_interface_name peer.public_key peer.allowed_ips
                peer.psk)
              log in
          if failed
          then ((m, log₁), some configure_peer_failed)
          else ((record m { active_peers = store peer.public_key tt m.active_peers }, log₁), none))

  unfoldable pub drop_peer : String → UserAccessManager → Log → UserAccessManager × Log
  drop_peer public_key m log =
      if not (has public_key m.active_peers)
      then (m, log)
      else (let (log₁, failed) =
            attempt env (remove_peer m.cfg.user_access_interface_name public_key) log in
          if failed
          then (m, log₁)
          else (record m { active_peers = delete public_key m.active_peers }, log₁))

  -- The payload as json.Unmarshal reads it; `none` is a payload that it refuses.
  unfoldable pub handle_peer_assigned :
      Option UserAccessPeer
      → UserAccessManager
      → Log
      → (UserAccessManager × Log) × Option UserAccessError
  handle_peer_assigned none m log = ((m, log), some bad_payload)
  handle_peer_assigned (some peer) m log = add_peer peer m log

  unfoldable pub handle_peer_revoked :
      Option String → UserAccessManager → Log → (UserAccessManager × Log) × Option UserAccessError
  handle_peer_revoked none m log = ((m, log), some bad_payload)
  handle_peer_revoked (some public_key) m log = (drop_peer public_key m log, none)

  unfoldable pub remove_stale :
      List String → List String → UserAccessManager → Log → UserAccessManager × Log
  remove_stale [] desired m log = (m, log)
  remove_stale (k ∷ ks) desired m log =
      if contains k desired
      then (let out = remove_stale ks desired m log in out)
      else (let (m', log') = drop_peer k m log in remove_stale ks desired m' log')

  unfoldable pub add_missing :
      List UserAccessPeer → List String → UserAccessManager → Log → (UserAccessManager × Log) × Bool
  add_missing [] current m log = ((m, log), false)
  add_missing (p ∷ ps) current m log =
      if contains p.public_key current
      then (let out = add_missing ps current m log in out)
      else (let ((m', log'), err) = add_peer p m log in
          let (out, more) = add_missing ps current m' log' in
          (out, elim err [ none ↦ more | some e ↦ true ]))

  unfoldable pub reconcile_peers :
      List UserAccessPeer → UserAccessManager → Log → (UserAccessManager × Log) × Bool
  reconcile_peers peers m log =
      let current = peer_public_keys m in
      let (m', log') = remove_stale current (public_keys peers) m log in
      add_missing peers current m' log'

  unfoldable pub user_access_reconcile_handler :
      Option StateResponse → UserAccessManager → Log → (UserAccessManager × Log) × Bool
  user_access_reconcile_handler none m log = ((m, log), false)
  user_access_reconcile_handler (some desired) m log = elim desired.user_access_config [
    | none ↦ ((m, log), false)
    | some config ↦ reconcile_peers config.peers m log
  ]

-- What the heartbeat reports.
pub record UserAccessInfo : Type 0 where
  pub enabled : Bool
  pub interface_name : String
  pub peer_count : ℕ
  pub listen_port : ℤ

unfoldable pub user_access_status : UserAccessManager → Option UserAccessInfo
user_access_status m =
    if not m.active
    then none
    else some (record {
      enabled = true;
      interface_name = m.cfg.user_access_interface_name;
      peer_count = length m.active_peers;
      listen_port = m.cfg.user_access_listen_port;
    })
