-- ===== src/Bridge/Relay/Added.antt =====
-- internal/bridge/relay.go: what the relay forwards after a session is added or removed.
use plexd.Base.{
  ℕ, suc, ◌+◌, String, List, false, ◌==◌, eq_iff, eq_refl, Option, none, some, arith, ◌≡◌, ◌≢◌, inl,
  inr, refl, ap, sym, ◌∙◌, Bool-cases, leb, length,
}
use plexd.Base.GoMap.{
  find, has, store, delete, find-store_self, find-store_other, find-delete, find-delete_other,
}
use plexd.Api.Envelope.{Bytes}
use plexd.Api.Types.{RelaySessionAssignment}
use plexd.Bridge.Relay.{
  RelaySession, Relay, is_closed, register, remove_session, add_session, write_to, forward,
  dispatch, ttl_of,
}
use plexd.Bridge.Relay.Index.{HasAddr, IsWellFormed, add_session-Adds, fresh}

forward-open :
    (closed : List ℕ) (s : RelaySession) (k : ℕ) (payload : Bytes)
    → is_closed s.ref closed ≡ false
    → s.conn ≡ some k
    → s.peer_a_addr ≢ s.peer_b_addr
    → (forward closed s s.peer_a_addr payload
        ≡ some (record { socket = k; dst = s.peer_b_addr; payload = payload }))
      × (forward closed s s.peer_b_addr payload
          ≡ some (record { socket = k; dst = s.peer_a_addr; payload = payload }))
unfolding forward write_to
forward-open closed s k payload open_ conn differ =
    (rw (open_, eq_refl, conn, write_to) refl, rw (open_, other, eq_refl, conn, write_to) refl)
  where
    other : (s.peer_b_addr == s.peer_a_addr) ≡ false
    other = (ground (arith, eq_iff s.peer_b_addr s.peer_a_addr))

dispatch-open :
    (r : Relay) (s : RelaySession) (a : String) (payload : Bytes)
    → find a r.addr_index ≡ some s
    → dispatch r a payload ≡ forward r.closed s a payload
unfolding dispatch
dispatch-open r s a payload at = rw (at, dispatch) refl

module _ (r : Relay) (w : IsWellFormed r) (a : RelaySessionAssignment) (x y : String)
    (now k : ℕ) where
  -- After a session is registered, its two addresses lead to it.
  registered_forwards :
      (payload : Bytes)
      → (register a x y now r).1 ≡ none
      → r.conn ≡ some k
      → x ≢ y
      → (dispatch (register a x y now r).0 x payload
          ≡ some (record { socket = k; dst = y; payload = payload }))
        × (dispatch (register a x y now r).0 y payload
            ≡ some (record { socket = k; dst = x; payload = payload }))
  unfolding register
  registered_forwards payload ok conn differ = elim (Bool-cases (has a.session_id r.sessions)) [
    | inl e ↦ absurd (ground arith)
    | inr new ↦ elim (Bool-cases (leb r.max_sessions (length r.sessions))) [
      | inl e ↦ absurd (ground arith)
      | inr room ↦
          rw (new, room, register)
            (
              dispatch-open after s x payload at_x ∙ both.0,
              dispatch-open after s y payload at_y ∙ both.1,
            )
    ]
  ]
    where
      s : RelaySession
      s = record {
        ref = r.next_ref;
        session_id = a.session_id;
        peer_a_addr = x;
        peer_b_addr = y;
        conn = r.conn;
      }

      after : Relay
      after = record r {
        sessions = store a.session_id s r.sessions;
        addr_index = store y s (store x s r.addr_index);
        timers = store a.session_id (now + ttl_of r.session_ttl a.expires_at now) r.timers;
        next_ref = suc r.next_ref;
      }

      at_y : find y after.addr_index ≡ some s
      at_y = find-store_self y s (store x s r.addr_index)

      at_x : find x after.addr_index ≡ some s
      at_x =
          find-store_other y x s (store x s r.addr_index) (ground (arith, eq_iff y x))
          ∙ find-store_self x s r.addr_index

      both :
          (forward after.closed s x payload
            ≡ some (record { socket = k; dst = y; payload = payload }))
          × (forward after.closed s y payload
              ≡ some (record { socket = k; dst = x; payload = payload }))
      both = forward-open r.closed s k payload (fresh r w r.next_ref (omega arith)) conn differ

-- A session that is added to a relay that listens and whose maps agree forwards at once, in both
-- directions: a datagram from the address of one endpoint is written to the address of the other.
pub added_forwards :
    (resolve : String → Option String) (r : Relay) (a : RelaySessionAssignment) (x y : String)
    (now k : ℕ) (payload : Bytes)
    → IsWellFormed r
    → resolve a.peer_a_endpoint ≡ some x
    → resolve a.peer_b_endpoint ≡ some y
    → r.conn ≡ some k
    → (add_session resolve a now r).1 ≡ none
    → (dispatch (add_session resolve a now r).0 x payload
        ≡ some (record { socket = k; dst = y; payload = payload }))
      × (dispatch (add_session resolve a now r).0 y payload
          ≡ some (record { socket = k; dst = x; payload = payload }))
added_forwards resolve r a x y now k payload w ex ey conn ok =
    elim (add_session-Adds resolve a now r) [
      | inl (_, err) ↦ absurd (err ok)
      | inr (u, v, eu, ev, differ, _, e) ↦
          (let ux : u ≡ x = some_inj (sym eu ∙ ex) in
            let vy : v ≡ y = some_inj (sym ev ∙ ey) in
            rw
              (e
                ∙ ap (λ (z : String). register a z v now r) ux
                ∙ ap (λ (z : String). register a x z now r) vy)
              (registered_forwards r w a x y now k payload
                (rw
                  (sym (
                    e
                    ∙ ap (λ (z : String). register a z v now r) ux
                    ∙ ap (λ (z : String). register a x z now r) vy))
                  ok)
                conn (λ same. differ (ux ∙ same ∙ sym vy))))
    ]
  where
    some_inj : {p q : String} → some p ≡ some q → p ≡ q
    some_inj e = cc

-- After a session is removed, a datagram from an address of it is dropped, also when another session
-- that stays registered has that address.
pub removed_cuts_off :
    (r : Relay) (i j addr : String) (s t : RelaySession) (payload : Bytes)
    → find i r.sessions ≡ some s
    → find j r.sessions ≡ some t
    → (i == j) ≡ false
    → HasAddr s addr
    → HasAddr t addr
    → (find j (remove_session i r).sessions ≡ some t)
      × (dispatch (remove_session i r) addr payload ≡ none)
unfolding remove_session dispatch
removed_cuts_off r i j addr s t payload at other differ has_s has_t =
    rw (at, remove_session)
      (find-delete_other i j r.sessions differ ∙ other, rw (gone, dispatch) refl)
  where
    gone : find addr (delete s.peer_b_addr (delete s.peer_a_addr r.addr_index)) ≡ none
    gone = ground (
      arith,
      eq_iff s.peer_a_addr addr,
      eq_iff s.peer_b_addr addr,
      find-delete s.peer_b_addr addr (delete s.peer_a_addr r.addr_index),
      find-delete s.peer_a_addr addr r.addr_index,
    )
