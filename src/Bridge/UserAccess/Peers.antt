-- ===== src/Bridge/UserAccess/Peers.antt =====
-- internal/bridge/user_access_handler.go: which peers a reconciliation leaves and configures.
use plexd.Base.{
  ℕ, String, List, [], ◌∷◌, true, false, not, ◌&&◌, ◌||◌, ◌==◌, Option, none, contains, arith, ◌≡◌,
  refl, ap, inl, inr, Bool-cases, String-cases,
}
use plexd.Base.GoMap.{has, keys, has-store, has-delete, contains-keys}
use plexd.Api.Types.{UserAccessPeer}
use plexd.Bridge.Controllers.{
  Call, Log, Env, peer, acquires, counts, attempt, acquired, acquired-failed, acquired-succeeded,
  remove_peer, configure_peer,
}
use plexd.Bridge.UserAccess.{
  UserAccessManager, UserAccessError, peer_public_keys, public_keys, add_peer, drop_peer,
  remove_stale, add_missing, reconcile_peers,
}

module _ (env : Env) (s : String) where
  abbrev Result : Type 0
  Result = (UserAccessManager × Log) × Option UserAccessError

  add_peer-has :
      (p : UserAccessPeer) (m : UserAccessManager) (log : Log)
      → (add_peer env p m log).1 ≡ none
      → has s (add_peer env p m log).0.0.active_peers ≡ (p.public_key == s || has s m.active_peers)
  unfolding add_peer
  add_peer-has p m log h = ground (arith, has-store p.public_key s tt m.active_peers)

  drop_peer-has :
      (k : String) (m : UserAccessManager) (log : Log)
      → env log (remove_peer m.cfg.user_access_interface_name k) ≡ false
      → has s (drop_peer env k m log).0.active_peers ≡ (not (k == s) && has s m.active_peers)
  unfolding drop_peer attempt
  drop_peer-has k m log works = elim (String-cases k s) [
    | inl (same, e) ↦
        ground (arith, has-delete k s m.active_peers, ap (λ (x : String). has x m.active_peers) e)
    | inr (other, n) ↦ ground (arith, has-delete k s m.active_peers)
  ]

  remove_stale-has :
      (works : (log : Log) (i k : String) → env log (remove_peer i k) ≡ false)
      (ks desired : List String) (m : UserAccessManager) (log : Log)
      → has s (remove_stale env ks desired m log).0.active_peers
        ≡ (has s m.active_peers && (contains s desired || not (contains s ks)))
  unfolding remove_stale
  remove_stale-has works [] desired m log = ground arith
  remove_stale-has works (k ∷ ks) desired m log = elim (Bool-cases (contains k desired)) [
    | inl wanted ↦ elim (String-cases k s) [
      | inl (same, e) ↦ ground (
        arith,
        remove_stale-has works ks desired m log,
        ap (λ (x : String). contains x desired) e,
      )
      | inr (other, n) ↦ ground (arith, remove_stale-has works ks desired m log)
    ]
    | inr stale ↦
        let out = drop_peer env k m log in
        elim (String-cases k s) [
          | inl (same, e) ↦ ground (
            arith,
            remove_stale-has works ks desired out.0 out.1,
            drop_peer-has k m log (works log m.cfg.user_access_interface_name k),
            ap (λ (x : String). contains x desired) e,
          )
          | inr (other, n) ↦ ground (
            arith,
            remove_stale-has works ks desired out.0 out.1,
            drop_peer-has k m log (works log m.cfg.user_access_interface_name k),
          )
        ]
  ]

  -- The loop that adds: what is there already, and the peers whose keys are not current.
  add_missing-has :
      (ps : List UserAccessPeer) (current : List String) (m : UserAccessManager) (log : Log)
      → (add_missing env ps current m log).1 ≡ false
      → has s (add_missing env ps current m log).0.0.active_peers
        ≡ (has s m.active_peers || (contains s (public_keys ps) && not (contains s current)))
  unfolding add_missing public_keys
  add_missing-has [] current m log h = ground arith
  add_missing-has (p ∷ ps) current m log h = elim (Bool-cases (contains p.public_key current)) [
    | inl there ↦ elim (String-cases p.public_key s) [
      | inl (same, e) ↦
          ground
            (arith, add_missing-has ps current m log, ap (λ (x : String). contains x current) e)
      | inr (other, n) ↦ ground (arith, add_missing-has ps current m log)
    ]
    | inr absent ↦
        let out = add_peer env p m log in
        elim (String-cases p.public_key s) [
          | inl (same, e) ↦ ground (
            arith,
            add_missing-has ps current out.0.0 out.0.1,
            add_peer-has p m log,
            ap (λ (x : String). contains x current) e,
          )
          | inr (other, n) ↦
              ground (arith, add_missing-has ps current out.0.0 out.0.1, add_peer-has p m log)
        ]
  ]

-- A reconciliation that reports no error leaves exactly the desired peers, by public key, if no
-- removal of a peer fails.
pub reconciled_peers :
    (env : Env) (s : String) (peers : List UserAccessPeer) (m : UserAccessManager) (log : Log)
    → ((log' : Log) (i k : String) → env log' (remove_peer i k) ≡ false)
    → (reconcile_peers env peers m log).1 ≡ false
    → has s (reconcile_peers env peers m log).0.0.active_peers ≡ contains s (public_keys peers)
unfolding reconcile_peers peer_public_keys
reconciled_peers env s peers m log works h =
    let current = keys m.active_peers in
    let out = remove_stale env current (public_keys peers) m log in
    ground (
      arith,
      remove_stale-has env s works current (public_keys peers) m log,
      add_missing-has env s peers current out.0 out.1,
      contains-keys s m.active_peers,
    )

-- The calls of a reconciliation for one peer.
module _ (env : Env) (iface k : String) where
  abbrev configured : Log → ℕ
  configured log = acquired (peer iface k) log

  -- A call that acquires something else.
  configured-attempt :
      (c : Call) (log : Log)
      → counts (peer iface k) (acquires c) ≡ 0
      → configured (attempt env c log).0 ≡ configured log
  configured-attempt c log other = elim (Bool-cases (env log c)) [
    | inl e ↦ acquired-failed (peer iface k) env c log e
    | inr e ↦ omega (arith, acquired-succeeded (peer iface k) env c log e, other)
  ]

  drop_peer-configured :
      (j : String) (m : UserAccessManager) (log : Log)
      → configured (drop_peer env j m log).1 ≡ configured log
  unfolding drop_peer
  drop_peer-configured j m log =
      let c = remove_peer m.cfg.user_access_interface_name j in
      ground (arith, configured-attempt c log refl)

  remove_stale-configured :
      (ks desired : List String) (m : UserAccessManager) (log : Log)
      → configured (remove_stale env ks desired m log).1 ≡ configured log
  unfolding remove_stale
  remove_stale-configured [] desired m log = refl
  remove_stale-configured (j ∷ ks) desired m log =
      let out = drop_peer env j m log in
      ground (
        arith,
        remove_stale-configured ks desired m log,
        remove_stale-configured ks desired out.0 out.1,
        drop_peer-configured j m log,
      )

  add_peer-configured :
      (p : UserAccessPeer) (m : UserAccessManager) (log : Log)
      → (p.public_key == k) ≡ false
      → configured (add_peer env p m log).0.1 ≡ configured log
  unfolding add_peer
  add_peer-configured p m log other =
      let i = m.cfg.user_access_interface_name in
      let c = configure_peer i p.public_key p.allowed_ips p.psk in
      ground (arith, configured-attempt c log (rw (other, ◌&&◌) (ground arith)))

  add_missing-configured :
      (ps : List UserAccessPeer) (current : List String) (m : UserAccessManager) (log : Log)
      → contains k current ≡ true
      → configured (add_missing env ps current m log).0.1 ≡ configured log
  unfolding add_missing
  add_missing-configured [] current m log there = refl
  add_missing-configured (p ∷ ps) current m log there =
      elim (Bool-cases (contains p.public_key current)) [
        | inl known ↦ ground (arith, add_missing-configured ps current m log)
        | inr new ↦
            let out = add_peer env p m log in
            elim (String-cases p.public_key k) [
              | inl (same, e) ↦ absurd (ground (arith, ap (λ (x : String). contains x current) e))
              | inr (other, n) ↦ ground (
                arith,
                add_missing-configured ps current out.0.0 out.0.1,
                add_peer-configured p m log other,
              )
            ]
      ]

-- A reconciliation makes no successful call that configures a peer which is tracked already, whatever
-- the desired state says of the allowed addresses and the preshared key of the peer.
pub tracked_peer_not_configured :
    (env : Env) (iface k : String) (peers : List UserAccessPeer) (m : UserAccessManager) (log : Log)
    → has k m.active_peers ≡ true
    → acquired (peer iface k) (reconcile_peers env peers m log).0.1 ≡ acquired (peer iface k) log
unfolding reconcile_peers peer_public_keys
tracked_peer_not_configured env iface k peers m log tracked =
    let current = keys m.active_peers in
    let out = remove_stale env current (public_keys peers) m log in
    ground (
      arith,
      remove_stale-configured env iface k current (public_keys peers) m log,
      add_missing-configured env iface k peers current out.0 out.1,
      contains-keys k m.active_peers,
    )
