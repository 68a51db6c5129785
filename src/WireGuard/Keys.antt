-- ===== src/WireGuard/Keys.antt =====
-- internal/wireguard/manager.go and handler.go: which public keys the interface accepts.
use plexd.Base.{
  String, Bool, true, false, not, ◌&&◌, ◌||◌, Option, none, some, if◌then◌else◌, arith, ◌≡◌, refl,
  ap, sym, ◌∙◌, inl, inr, Option-cases,
}
use plexd.Base.GoMap.{find, store, delete, find-store_self}
use plexd.Api.Envelope.{Bytes, same_bytes}
use plexd.Api.Types.{Peer}
use plexd.WireGuard.Manager.{
  PeerConfig, WgController, Manager, WgError, decode_psk_of, peer_config_from_api, add_peer,
  update_peer, remove_peer_by_id, handle_peer_key_rotated, reported, controller_failed,
}

-- What the manager relies on: the interface has the keys of the peers that were added and not removed
-- since, and a call that fails changes none.
pub record KeepsKeys {W : Type 0} (ctrl : WgController W) : Type 0 where
  pub accepts : Bytes → W → Bool
  pub accepts-add :
      (w : W) (iface : String) (cfg : PeerConfig) (k : Bytes)
      → accepts k (ctrl.add_peer w iface cfg).0
        ≡ ((not (ctrl.add_peer w iface cfg).1 && same_bytes k cfg.public_key) || accepts k w)
  pub accepts-remove :
      (w : W) (iface : String) (key k : Bytes)
      → accepts k (ctrl.remove_peer w iface key).0
        ≡ (((ctrl.remove_peer w iface key).1 || not (same_bytes k key)) && accepts k w)

module _ (decode : String → Option Bytes) {W : Type 0} (ctrl : WgController W)
    (keeps : KeepsKeys ctrl) where
  config_key :
      (p : Peer) (key : Bytes)
      → decode p.public_key ≡ some key
      → (peer_config_from_api decode p).1 ≡ none
      → (peer_config_from_api decode p).0.public_key ≡ key
  unfolding peer_config_from_api
  config_key p key e ok = elim (Option-cases (decode_psk_of decode p.psk)) [
    | inl f ↦ absurd (let g = rw (e, f, peer_config_from_api) at ok in ground arith)
    | inr (psk, f) ↦ rw (e, f, peer_config_from_api) refl
  ]

  -- What an `add_peer` that reports no error does to the keys and to the index.
  added_keys :
      (p : Peer) (m : Manager) (w : W) (key : Bytes)
      → decode p.public_key ≡ some key
      → (add_peer decode ctrl p m w).1 ≡ none
      → ((k : Bytes)
          → keeps.accepts k (add_peer decode ctrl p m w).0.1
            ≡ (same_bytes k key || keeps.accepts k w))
        × ((add_peer decode ctrl p m w).0.0 ≡ record m { peers = store p.id p.public_key m.peers })
  unfolding add_peer
  added_keys p m w key e ok = go (peer_config_from_api decode p) refl ok
    where
      go :
          (c : PeerConfig × Option WgError)
          → peer_config_from_api decode p ≡ c
          → let out : (Manager × W) × Option WgError = elim c.1 [
            | some x ↦ ((m, w), some x)
            | none ↦
                (let (w₁, failed) = ctrl.add_peer w m.interface_name c.0 in
                  if failed
                  then ((m, w₁), some controller_failed)
                  else ((record m { peers = store p.id p.public_key m.peers }, w₁), none))
          ] in
            out.1 ≡ none
            → ((k : Bytes) → keeps.accepts k out.0.1 ≡ (same_bytes k key || keeps.accepts k w))
              × (out.0.0 ≡ record m { peers = store p.id p.public_key m.peers })
      go (c, some x) f h = absurd (ground arith)
      go (c, none) f h = done (ctrl.add_peer w m.interface_name c) refl h
        where
          same : c.public_key ≡ key
          same =
              ap (λ (x : PeerConfig × Option WgError). x.0.public_key) (sym f)
              ∙ config_key p key e (ap (λ (x : PeerConfig × Option WgError). x.1) f)

          done :
              (r : W × Bool)
              → ctrl.add_peer w m.interface_name c ≡ r
              → let out : (Manager × W) × Option WgError =
                  (if r.1
                    then ((m, r.0), some controller_failed)
                    else ((record m { peers = store p.id p.public_key m.peers }, r.0), none)) in
                out.1 ≡ none
                → ((k : Bytes) → keeps.accepts k out.0.1 ≡ (same_bytes k key || keeps.accepts k w))
                  × (out.0.0 ≡ record m { peers = store p.id p.public_key m.peers })
          done (w₁, true) g h = absurd (ground arith)
          done (w₁, false) g h = (
            λ k.
                ap (λ (x : W × Bool). keeps.accepts k x.0) (sym g)
                ∙ keeps.accepts-add w m.interface_name c k
                ∙ ap (λ (x : W × Bool). (not x.1 && same_bytes k c.public_key) || keeps.accepts k w)
                    g
                ∙ ap (λ (x : Bytes). same_bytes k x || keeps.accepts k w) same,
            refl,
          )

  -- What a removal that reports no error does, of a peer whose key is in the index.
  removed_keys :
      (id key64 : String) (key : Bytes) (m : Manager) (w : W)
      → find id m.peers ≡ some key64
      → decode key64 ≡ some key
      → (remove_peer_by_id decode ctrl id m w).1 ≡ none
      → ((k : Bytes)
          → keeps.accepts k (remove_peer_by_id decode ctrl id m w).0.1
            ≡ (not (same_bytes k key) && keeps.accepts k w))
        × ((remove_peer_by_id decode ctrl id m w).0.0 ≡ record m { peers = delete id m.peers })
  unfolding remove_peer_by_id
  removed_keys id key64 key m w e d ok =
      rw (e, d, remove_peer_by_id)
        (done (ctrl.remove_peer w m.interface_name key) refl (rw (e, d, remove_peer_by_id) at ok))
    where
      done :
          (r : W × Bool)
          → ctrl.remove_peer w m.interface_name key ≡ r
          → let out : (Manager × W) × Option WgError =
              (if r.1
                then ((m, r.0), some controller_failed)
                else ((record m { peers = delete id m.peers }, r.0), none)) in
            out.1 ≡ none
            → ((k : Bytes)
                → keeps.accepts k out.0.1 ≡ (not (same_bytes k key) && keeps.accepts k w))
              × (out.0.0 ≡ record m { peers = delete id m.peers })
      done (w₁, true) g h = absurd (ground arith)
      done (w₁, false) g h = (
        λ k.
            ap (λ (x : W × Bool). keeps.accepts k x.0) (sym g)
            ∙ keeps.accepts-remove w m.interface_name key k
            ∙ ap (λ (x : W × Bool). (x.1 || not (same_bytes k key)) && keeps.accepts k w) g,
        refl,
      )

  -- An update of a peer with a new key leaves the old key on the interface, and the index forgets it:
  -- after a later removal of the peer the interface still accepts the old key, when both calls report
  -- no error.
  pub updated_key_survives :
      (p : Peer) (key old : Bytes) (m : Manager) (w : W)
      → decode p.public_key ≡ some key
      → same_bytes old key ≡ false
      → keeps.accepts old w ≡ true
      → (update_peer decode ctrl p m w).1 ≡ none
      → (remove_peer_by_id decode ctrl p.id
          (update_peer decode ctrl p m w).0.0
          (update_peer decode ctrl p m w).0.1).1
        ≡ none
      → keeps.accepts old
          (remove_peer_by_id decode ctrl p.id
            (update_peer decode ctrl p m w).0.0
            (update_peer decode ctrl p m w).0.1).0.1
        ≡ true
  unfolding update_peer
  updated_key_survives p key old m w d differ there added removed =
      let (has_key, index) = added_keys p m w key d added in
      let m₁ = (add_peer decode ctrl p m w).0.0 in
      let w₁ = (add_peer decode ctrl p m w).0.1 in
      let at : find p.id m₁.peers ≡ some p.public_key =
        ap (λ (x : Manager). find p.id x.peers) index ∙ find-store_self p.id p.public_key m.peers in
      let gone = removed_keys p.id p.public_key key m₁ w₁ at d removed in
      gone.0 old ∙ ground (arith, has_key old)

  -- The event of a rotated key takes the old key off the interface: when neither the removal nor the
  -- addition fails, exactly the new key and the keys other than the old one that were accepted are
  -- accepted after it, and the index has the new key.
  pub rotated_keys :
      (p : Peer) (old64 : String) (key old k : Bytes) (m : Manager) (w : W)
      → decode p.public_key ≡ some key
      → find p.id m.peers ≡ some old64
      → decode old64 ≡ some old
      → (remove_peer_by_id decode ctrl p.id m w).1 ≡ none
      → (handle_peer_key_rotated decode ctrl (some p) m w).1 ≡ false
      → (keeps.accepts k (handle_peer_key_rotated decode ctrl (some p) m w).0.1
          ≡ (same_bytes k key || (not (same_bytes k old) && keeps.accepts k w)))
        × (find p.id (handle_peer_key_rotated decode ctrl (some p) m w).0.0.peers
            ≡ some p.public_key)
  unfolding handle_peer_key_rotated
  rotated_keys p old64 key old k m w d at e removed ok = go (add_peer decode ctrl p m₁ w₁) refl ok
    where
      m₁ : Manager
      m₁ = (remove_peer_by_id decode ctrl p.id m w).0.0

      w₁ : W
      w₁ = (remove_peer_by_id decode ctrl p.id m w).0.1

      go :
          (out : (Manager × W) × Option WgError)
          → add_peer decode ctrl p m₁ w₁ ≡ out
          → (reported decode ctrl out).1 ≡ false
          → (keeps.accepts k (reported decode ctrl out).0.1
              ≡ (same_bytes k key || (not (same_bytes k old) && keeps.accepts k w)))
            × (find p.id (reported decode ctrl out).0.0.peers ≡ some p.public_key)
      go (s, some x) f h = absurd (ground arith)
      go ((m₂, w₂), none) f h =
          let (has_key, index) =
            added_keys p m₁ w₁ key d (ap (λ (o : (Manager × W) × Option WgError). o.1) f) in
          let gone = removed_keys p.id old64 old m w at e removed in
          (
            ap (λ (o : (Manager × W) × Option WgError). keeps.accepts k o.0.1) (sym f)
                ∙ has_key k
                ∙ ap (λ (b : Bool). same_bytes k key || b) (gone.0 k),
            ap (λ (o : (Manager × W) × Option WgError). find p.id o.0.0.peers) (sym f)
                ∙ ap (λ (x : Manager). find p.id x.peers) index
                ∙ find-store_self p.id p.public_key m₁.peers,
          )
