-- ===== src/Bridge/Relay/Forwarding.antt =====
-- internal/bridge/relay.go: which datagrams the relay forwards, and to whom.
use plexd.Base.{
  ℕ, String, List, [], ◌∷◌, Option, none, some, arith, ◌≡◌, ◌⊎◌, inl, inr, refl, ap, sym,
  Bool-cases, Option-cases, String-cases,
}
use plexd.Base.GoMap.{find}
use plexd.Api.Envelope.{Bytes}
use plexd.Api.Types.{RelaySessionAssignment}
use plexd.Bridge.Relay.{
  RelaySession, Relay, Datagram, is_closed, new_relay, start, remove_session, stop, add_session,
  write_to, forward, dispatch,
}
use plexd.Bridge.Relay.Index.{IsWellFormed, new_relay-IsWellFormed, add_session-IsWellFormed}
use plexd.Bridge.Relay.Removal.{remove_session-IsWellFormed, stop-IsWellFormed, start-IsWellFormed}

-- The calls that change a relay. A timer that fires calls RemoveSession.
pub data Call : Type 0 where
  add : RelaySessionAssignment → ℕ → Call
  remove : String → Call
  listen : Option ℕ → Call
  halt : Call

module _ (resolve : String → Option String) where
  abbrev pub call : Call → Relay → Relay
  call (add a now) r = (add_session resolve a now r).0
  call (remove id) r = remove_session id r
  call (listen socket) r = elim (start socket r) [ none ↦ r | some s ↦ s ]
  call halt r = stop r

  abbrev pub calls : List Call → Relay → Relay
  calls [] r = r
  calls (c ∷ cs) r = calls cs (call c r)

  call-IsWellFormed : (c : Call) (r : Relay) → IsWellFormed r → IsWellFormed (call c r)
  call-IsWellFormed (add a now) r w = add_session-IsWellFormed resolve a now r w
  call-IsWellFormed (remove id) r w = remove_session-IsWellFormed id r w
  call-IsWellFormed (listen socket) r w =
      go (start socket r) (λ s e. start-IsWellFormed socket r s w e)
    where
      go :
          (o : Option Relay)
          → ((s : Relay) → o ≡ some s → IsWellFormed s)
          → IsWellFormed (elim o [ none ↦ r | some s ↦ s ])
      go none h = w
      go (some s) h = h s refl
  call-IsWellFormed halt r w = stop-IsWellFormed r w

  calls-IsWellFormed : (cs : List Call) (r : Relay) → IsWellFormed r → IsWellFormed (calls cs r)
  calls-IsWellFormed [] r w = w
  calls-IsWellFormed (c ∷ cs) r w = calls-IsWellFormed cs (call c r) (call-IsWellFormed c r w)

  -- After any calls on a new relay its maps agree: an address leads to a registered session that has
  -- it, a registered session is not closed, every session has a timer and every timer a session, and
  -- there are no more sessions than the maximum.
  pub reachable-IsWellFormed :
      (cs : List Call) (max ttl : ℕ) → IsWellFormed (calls cs (new_relay max ttl))
  reachable-IsWellFormed cs max ttl =
      calls-IsWellFormed cs (new_relay max ttl) (new_relay-IsWellFormed max ttl)

-- The two addresses are those of the session.
abbrev pub Between : RelaySession → String → String → Type 0
Between s src dst =
    ((s.peer_a_addr ≡ src) × (s.peer_b_addr ≡ dst))
    ⊎ ((s.peer_b_addr ≡ src) × (s.peer_a_addr ≡ dst))

write_to_inv :
    (conn : Option ℕ) (dst : String) (payload : Bytes) (d : Datagram)
    → write_to conn dst payload ≡ some d
    → (conn ≡ some d.socket) × (dst ≡ d.dst) × (payload ≡ d.payload)
unfolding write_to
write_to_inv none dst payload d h = absurd (ground arith)
write_to_inv (some k) dst payload d h =
    let e = inj h in
    (
      ap (λ (x : Datagram). some x.socket) e,
      ap (λ (x : Datagram). x.dst) e,
      ap (λ (x : Datagram). x.payload) e,
    )
  where
    inj : {x y : Datagram} → some x ≡ some y → x ≡ y
    inj e = cc

forward_inv :
    (closed : List ℕ) (s : RelaySession) (src : String) (payload : Bytes) (d : Datagram)
    → forward closed s src payload ≡ some d
    → Between s src d.dst × (s.conn ≡ some d.socket) × (payload ≡ d.payload)
unfolding forward
forward_inv closed s src payload d h = elim (Bool-cases (is_closed s.ref closed)) [
  | inl e ↦ absurd (ground arith)
  | inr open_ ↦ elim (String-cases src s.peer_a_addr) [
    | inl (e, from_a) ↦
        (let (c, dst, p) = write_to_inv s.conn s.peer_b_addr payload d (ground arith) in
          (inl (sym from_a, dst), c, p))
    | inr (e, _) ↦ elim (String-cases src s.peer_b_addr) [
      | inl (f, from_b) ↦
          (let (c, dst, p) = write_to_inv s.conn s.peer_a_addr payload d (ground arith) in
            (inr (sym from_b, dst), c, p))
      | inr (f, _) ↦ absurd (ground arith)
    ]
  ]
]

-- In a relay whose maps agree, a datagram is only ever written from one address of a registered
-- session to its other address, with the payload that was received, over the socket that the session
-- was made with.
pub dispatch_sound :
    (r : Relay) (src : String) (payload : Bytes) (d : Datagram)
    → IsWellFormed r
    → dispatch r src payload ≡ some d
    → (s : RelaySession) × (find s.session_id r.sessions ≡ some s)
      × Between s src d.dst
      × (s.conn ≡ some d.socket)
      × (payload ≡ d.payload)
unfolding dispatch
dispatch_sound r src payload d w h = elim (Option-cases (find src r.addr_index)) [
  | inl e ↦ absurd (let g = rw (e, dispatch) at h in ground arith)
  | inr (s, at) ↦
      (let g : forward r.closed s src payload ≡ some d = rw (at, dispatch) at h in
        let (b, c, p) = forward_inv r.closed s src payload d g in
        (s, (w.indexed src s at).0, b, c, p))
]
