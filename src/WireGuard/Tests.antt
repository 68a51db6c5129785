-- ===== src/WireGuard/Tests.antt =====
-- internal/wireguard: a small interface, and runs with it.
use plexd.Base.{
  ℕ, eqb_iff, String, List, [], ◌∷◌, Bool, true, false, not, ◌&&◌, ◌||◌, ◌==◌, Option, none, some,
  if◌then◌else◌, arith, ◌≡◌, refl, ap, inl, inr, Bool-cases, ◌∙◌,
}
use plexd.Base.GoMap.{find, store, delete}
use plexd.Base.Int.{pos}
use plexd.Api.Envelope.{Bytes, same_bytes}
use plexd.Api.Types.{Peer}
use plexd.WireGuard.Manager.{
  WgController, Manager, decode_psk_of, peer_config_from_api, add_peer, update_peer,
  remove_peer_by_id, handle_peer_key_rotated,
}
use plexd.WireGuard.Keys.{KeepsKeys, rotated_keys}

same_bytes_eq : (a b : Bytes) → same_bytes a b ≡ true → a ≡ b
same_bytes_eq [] [] h = refl
same_bytes_eq [] (y ∷ b) h = absurd (ground arith)
same_bytes_eq (x ∷ a) [] h = absurd (ground arith)
same_bytes_eq (x ∷ a) (y ∷ b) h =
    let tail = same_bytes_eq a b (ground arith) in
    let head : x ≡ y = (ground (arith, eqb_iff x y)) in
    ap (λ (z : ℕ). z ∷ a) head ∙ ap (λ (c : Bytes). y ∷ c) tail

-- The keys that the interface accepts.
abbrev Device : Type 0
Device = List Bytes

abbrev has_key : Bytes → Device → Bool
has_key k [] = false
has_key k (x ∷ d) = same_bytes k x || has_key k d

abbrev without : Bytes → Device → Device
without key [] = []
without key (x ∷ d) = let rest = without key d in if same_bytes x key then rest else x ∷ rest

has_key-without :
    (key k : Bytes) (d : Device)
    → has_key k (without key d) ≡ (not (same_bytes k key) && has_key k d)
has_key-without key k [] = ground arith
has_key-without key k (x ∷ d) = elim (Bool-cases (same_bytes x key)) [
  | inl e ↦ rw e (
      has_key-without key k d
      ∙ ground (arith, ap (λ (y : Bytes). same_bytes k y) (same_bytes_eq x key e)))
  | inr e ↦ rw e (elim (Bool-cases (same_bytes k x)) [
    | inl f ↦
        ground (
          arith,
          has_key-without key k d,
          ap (λ (y : Bytes). same_bytes y key) (same_bytes_eq k x f),
        )
    | inr f ↦ ground (arith, has_key-without key k d)
  ])
]

abbrev device : WgController Device
device = record {
  create_interface = λ d i k p. (d, false);
  delete_interface = λ d i. ([], false);
  configure_address = λ d i a. (d, false);
  set_interface_up = λ d i. (d, false);
  set_mtu = λ d i n. (d, false);
  add_peer = λ d i cfg. (cfg.public_key ∷ d, false);
  remove_peer = λ d i key. (without key d, false);
}

device-KeepsKeys : KeepsKeys device
device-KeepsKeys = record {
  accepts = has_key;
  accepts-add = λ d i cfg k. refl;
  accepts-remove = λ d i key k. has_key-without key k d;
}

-- Two keys.
abbrev decode : String → Option Bytes
decode s = if s == "old" then some (1 ∷ []) else if s == "new" then some (2 ∷ []) else none

abbrev peer : Peer
peer = record {
  id = "p";
  public_key = "new";
  mesh_ip = "";
  endpoint = "";
  allowed_ips = [];
  psk = "";
}

abbrev manager : Manager
manager = record {
  interface_name = "wg0";
  listen_port = pos 51820;
  mtu = pos 0;
  peers = ("p", "old") ∷ [];
}

program : Unit {0}
unfolding decode_psk_of peer_config_from_api add_peer update_peer remove_peer_by_id
    handle_peer_key_rotated find store delete
program = tt

survives_example :
    (update_peer decode device peer manager ((1 ∷ []) ∷ [])).0.1 ≡ (2 ∷ []) ∷ (1 ∷ []) ∷ []
unfolding program
survives_example = refl

rotated_keys_example :
    (has_key
        (1 ∷ [])
        (handle_peer_key_rotated decode device (some peer) manager ((1 ∷ []) ∷ [])).0.1
      ≡ (same_bytes (1 ∷ []) (2 ∷ [])
          || (not (same_bytes (1 ∷ []) (1 ∷ [])) && has_key (1 ∷ []) ((1 ∷ []) ∷ []))))
    × (find "p"
          (handle_peer_key_rotated decode device (some peer) manager ((1 ∷ []) ∷ [])).0.0.peers
        ≡ some "new")
unfolding device-KeepsKeys handle_peer_key_rotated
rotated_keys_example =
    rotated_keys decode device device-KeepsKeys peer "old" (2 ∷ []) (1 ∷ []) (1 ∷ []) manager
      ((1 ∷ []) ∷ []) refl (unfold program in refl) refl (unfold program in refl)
      (unfold program in refl)
