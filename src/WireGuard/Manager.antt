-- ===== src/WireGuard/Manager.antt =====
-- internal/wireguard/index.go, controller.go, manager.go and handler.go: the peer index, the manager
-- over any controller, and the handlers. The peer index is a map from peer ids to keys in base64.
use plexd.Base.{
  ℕ, String, List, [], ◌∷◌, ◌++◌, Bool, true, false, ◌==◌, Option, none, some, if◌then◌else◌,
}
use plexd.Base.GoMap.{GoMap, find, store, delete}
use plexd.Base.Int.{ℤ, leb_ℤ}
use plexd.Api.Envelope.{Bytes}
use plexd.Api.Types.{Peer}
use plexd.Reconcile.Diff.{StateDiff}

pub record PeerConfig : Type 0 where
  pub public_key : Bytes
  pub endpoint : String
  pub allowed_ips : List String
  pub psk : Bytes
  pub persistent_keepalive : ℕ

-- The Go interface WGController, over the world that it acts on; `true` is an error.
pub record WgController (W : Type 0) : Type 0 where
  pub create_interface : W → String → Bytes → ℤ → W × Bool
  pub delete_interface : W → String → W × Bool
  pub configure_address : W → String → String → W × Bool
  pub set_interface_up : W → String → W × Bool
  pub set_mtu : W → String → ℤ → W × Bool
  pub add_peer : W → String → PeerConfig → W × Bool
  pub remove_peer : W → String → Bytes → W × Bool

pub record Manager : Type 0 where
  pub interface_name : String
  pub listen_port : ℤ
  pub mtu : ℤ
  pub peers : GoMap String

pub data WgError : Type 0 where
  decode_public_key decode_psk controller_failed unknown_peer_id : WgError

unfoldable pub load_from_peers : List Peer → GoMap String → GoMap String
load_from_peers [] m = m
load_from_peers (p ∷ ps) m = load_from_peers ps (store p.id p.public_key m)

module _ (decode : String → Option Bytes) where
  -- `decode` is base64.StdEncoding.DecodeString.
  unfoldable pub decode_psk_of : String → Option Bytes
  decode_psk_of psk = if psk == "" then some [] else decode psk

  unfoldable pub peer_config_from_api : Peer → PeerConfig × Option WgError
  peer_config_from_api p =
      let empty : PeerConfig = record {
        public_key = [];
        endpoint = "";
        allowed_ips = [];
        psk = [];
        persistent_keepalive = 0;
      } in
      elim (decode p.public_key) [
        | none ↦ (empty, some decode_public_key)
        | some key ↦ elim (decode_psk_of p.psk) [
          | none ↦ (empty, some decode_psk)
          | some psk ↦ (
            record {
              public_key = key;
              endpoint = p.endpoint;
              allowed_ips = p.allowed_ips;
              psk = psk;
              persistent_keepalive = 0;
            },
            none,
          )
        ]
      ]

  module _ {W : Type 0} (ctrl : WgController W) where
    -- The calls that set up the interface, each only if those before it succeed; `address` is the mesh
    -- address with the suffix /32.
    unfoldable pub setup : Manager → Bytes → String → W → W × Bool
    setup m private_key address w =
        let (w₁, e₁) = ctrl.create_interface w m.interface_name private_key m.listen_port in
        if e₁
        then (w₁, true)
        else (let (w₂, e₂) = ctrl.configure_address w₁ m.interface_name address in
            if e₂
            then (w₂, true)
            else (let (w₃, e₃) : W × Bool =
                  if leb_ℤ m.mtu 0 then (w₂, false) else ctrl.set_mtu w₂ m.interface_name m.mtu in
                if e₃ then (w₃, true) else ctrl.set_interface_up w₃ m.interface_name))

    unfoldable pub teardown : Manager → W → W × Bool
    teardown m w = ctrl.delete_interface w m.interface_name

    -- `AddPeer`, and `UpdatePeer`, which is the same but for its log lines.
    unfoldable pub add_peer : Peer → Manager → W → (Manager × W) × Option WgError
    add_peer p m w =
        let (cfg, err) = peer_config_from_api p in
        elim err [
          | some e ↦ ((m, w), some e)
          | none ↦
              (let (w₁, failed) = ctrl.add_peer w m.interface_name cfg in
                if failed
                then ((m, w₁), some controller_failed)
                else ((record m { peers = store p.id p.public_key m.peers }, w₁), none))
        ]

    unfoldable pub update_peer : Peer → Manager → W → (Manager × W) × Option WgError
    update_peer p m w = add_peer p m w

    unfoldable pub remove_peer_by_id : String → Manager → W → (Manager × W) × Option WgError
    remove_peer_by_id id m w = elim (find id m.peers) [
      | none ↦ ((m, w), some unknown_peer_id)
      | some key ↦ elim (decode key) [
        | none ↦ ((m, w), some decode_public_key)
        | some k ↦
            (let (w₁, failed) = ctrl.remove_peer w m.interface_name k in
              if failed
              then ((m, w₁), some controller_failed)
              else ((record m { peers = delete id m.peers }, w₁), none))
      ]
    ]

    -- The loop of `ConfigurePeers`, while the context is not done; errors are only logged.
    unfoldable pub configure_each : List Peer → String → W → W
    configure_each [] iface w = w
    configure_each (p ∷ ps) iface w =
        let (cfg, err) = peer_config_from_api p in
        elim err [
          | some e ↦ configure_each ps iface w
          | none ↦ configure_each ps iface (ctrl.add_peer w iface cfg).0
        ]

    unfoldable pub configure_peers : List Peer → Manager → W → Manager × W
    configure_peers ps m w =
        (record m { peers = load_from_peers ps [] }, configure_each ps m.interface_name w)

    -- A loop of the reconcile handler: every element is tried, and the errors are collected.
    unfoldable pub try_each :
        {A : Type 0}
        → (A → Manager → W → (Manager × W) × Option WgError)
        → List A
        → Manager × W
        → (Manager × W) × List WgError
    try_each f [] s = (s, [])
    try_each f (a ∷ xs) (m, w) =
        let (s₁, err) = f a m w in
        let (s₂, errs) = try_each f xs s₁ in (s₂, elim err [ none ↦ errs | some e ↦ e ∷ errs ])

    -- Removes first, then updates, then adds.
    unfoldable pub reconcile_handler : StateDiff → Manager → W → (Manager × W) × List WgError
    reconcile_handler diff m w =
        let (s₁, removes) = try_each remove_peer_by_id diff.peers_to_remove (m, w) in
        let (s₂, updates) = try_each update_peer diff.peers_to_update s₁ in
        let (s₃, adds) = try_each add_peer diff.peers_to_add s₂ in
        (s₃, removes ++ (updates ++ adds))

    -- The handlers of the events, from what json.Unmarshal makes of the payload; `true` is an error.
    abbrev pub reported : (Manager × W) × Option WgError → (Manager × W) × Bool
    reported (s, none) = (s, false)
    reported (s, some e) = (s, true)

    unfoldable pub handle_peer_added : Option Peer → Manager → W → (Manager × W) × Bool
    handle_peer_added none m w = ((m, w), true)
    handle_peer_added (some p) m w = reported (add_peer p m w)

    unfoldable pub handle_peer_removed : Option String → Manager → W → (Manager × W) × Bool
    handle_peer_removed none m w = ((m, w), true)
    handle_peer_removed (some id) m w = reported (remove_peer_by_id id m w)

    -- An error of the removal is only logged.
    unfoldable pub handle_peer_key_rotated : Option Peer → Manager → W → (Manager × W) × Bool
    handle_peer_key_rotated none m w = ((m, w), true)
    handle_peer_key_rotated (some p) m w =
        let ((m₁, w₁), ignored) = remove_peer_by_id p.id m w in reported (add_peer p m₁ w₁)

    unfoldable pub handle_peer_endpoint_changed : Option Peer → Manager → W → (Manager × W) × Bool
    handle_peer_endpoint_changed none m w = ((m, w), true)
    handle_peer_endpoint_changed (some p) m w = reported (update_peer p m w)
