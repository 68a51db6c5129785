-- ===== src/Bridge/Relay.antt =====
-- internal/bridge/relay.go and relay_handler.go: the UDP relay. A session object is shared by the maps
-- and its closed flag changes, so an object has a number, `ref`, and the relay keeps the numbers of
-- the closed objects. Addresses are those that net.ResolveUDPAddr resolves, as UDPAddr.String prints
-- them. A time is in nanoseconds, the zero time is 0, and each call has its reading of the clock.
pub mod Index
pub mod Removal
pub mod Forwarding
pub mod Added
pub mod Expiry
pub mod Sync
use plexd.Base.{
  ℕ, suc, ◌+◌, ◌-◌, String, List, [], ◌∷◌, Bool, true, false, not, ◌&&◌, ◌||◌, ◌==◌, eqb, ltb, leb,
  Option, none, some, if◌then◌else◌, length, contains,
}
use plexd.Base.GoMap.{GoMap, find, has, store, delete, keys}
use plexd.Api.Envelope.{Bytes}
use plexd.Api.Types.{RelaySessionAssignment, RelayConfig}

pub record RelaySession : Type 0 where
  pub ref : ℕ
  pub session_id : String
  pub peer_a_addr : String
  pub peer_b_addr : String
  -- The socket of the relay when the session was made.
  pub conn : Option ℕ

pub record Relay : Type 0 where
  pub max_sessions : ℕ
  pub session_ttl : ℕ
  pub conn : Option ℕ
  pub sessions : GoMap RelaySession
  pub addr_index : GoMap RelaySession
  -- When each timer fires.
  pub timers : GoMap ℕ
  pub active : Bool
  pub closed : List ℕ
  pub next_ref : ℕ

pub data RelayError : Type 0 where
  empty_session_id unresolved_peer_a unresolved_peer_b same_endpoints duplicate_session
        max_sessions_reached :
      RelayError

-- A datagram that a session writes: to which socket, to whom, and what.
pub record Datagram : Type 0 where
  pub socket : ℕ
  pub dst : String
  pub payload : Bytes

unfoldable pub new_relay : ℕ → ℕ → Relay
new_relay max_sessions session_ttl = record {
  max_sessions = max_sessions;
  session_ttl = session_ttl;
  conn = none;
  sessions = [];
  addr_index = [];
  timers = [];
  active = false;
  closed = [];
  next_ref = 0;
}

abbrev pub is_closed : ℕ → List ℕ → Bool
is_closed ref [] = false
is_closed ref (c ∷ cs) = eqb c ref || is_closed ref cs

-- `Close` of a session object.
unfoldable pub close : RelaySession → List ℕ → List ℕ
close s closed = if is_closed s.ref closed then closed else s.ref ∷ closed

unfoldable pub write_to : Option ℕ → String → Bytes → Option Datagram
write_to none dst payload = none
write_to (some socket) dst payload = some (record { socket = socket; dst = dst; payload = payload })

-- The datagram that `Forward` writes, if it writes one.
unfoldable pub forward : List ℕ → RelaySession → String → Bytes → Option Datagram
forward closed s src payload =
    if is_closed s.ref closed
    then none
    else if src == s.peer_a_addr
    then write_to s.conn s.peer_b_addr payload
    else if src == s.peer_b_addr
    then write_to s.conn s.peer_a_addr payload
    else none

-- What `dispatchLoop` does with a datagram.
unfoldable pub dispatch : Relay → String → Bytes → Option Datagram
dispatch r src payload = elim (find src r.addr_index) [
  | none ↦ none
  | some s ↦ forward r.closed s src payload
]

-- `none` is a port that cannot be listened on.
unfoldable pub start : Option ℕ → Relay → Option Relay
start none r = none
start (some socket) r = some (record r { conn = some socket; active = true })

-- How long a session may live.
unfoldable pub ttl_of : ℕ → ℕ → ℕ → ℕ
ttl_of ttl expires_at now =
    if not (eqb expires_at 0) && (ltb now expires_at && ltb (expires_at - now) ttl)
    then expires_at - now
    else ttl

-- The part of `AddSession` under the lock.
unfoldable pub register :
    RelaySessionAssignment → String → String → ℕ → Relay → Relay × Option RelayError
register a peer_a peer_b now r =
    if has a.session_id r.sessions
    then (r, some duplicate_session)
    else if leb r.max_sessions (length r.sessions)
    then (r, some max_sessions_reached)
    else (let s : RelaySession = record {
      ref = r.next_ref;
      session_id = a.session_id;
      peer_a_addr = peer_a;
      peer_b_addr = peer_b;
      conn = r.conn;
    } in
        (
          record r {
            sessions = store a.session_id s r.sessions;
            addr_index = store peer_b s (store peer_a s r.addr_index);
            timers = store a.session_id (now + ttl_of r.session_ttl a.expires_at now) r.timers;
            next_ref = suc r.next_ref;
          },
          none,
        ))

unfoldable pub remove_session : String → Relay → Relay
remove_session id r = elim (find id r.sessions) [
  | none ↦ r
  | some s ↦ record r {
    timers = delete id r.timers;
    addr_index = delete s.peer_b_addr (delete s.peer_a_addr r.addr_index);
    sessions = delete id r.sessions;
    closed = close s r.closed;
  }
]

unfoldable pub close_all : GoMap RelaySession → List ℕ → List ℕ
close_all [] closed = closed
close_all ((id, s) ∷ m) closed = close_all m (close s closed)

unfoldable pub stop : Relay → Relay
stop r = if not r.active then r else record r {
  active = false;
  timers = [];
  sessions = [];
  addr_index = [];
  conn = none;
  closed = close_all r.sessions r.closed;
}

unfoldable pub desired_set :
    List RelaySessionAssignment → GoMap RelaySessionAssignment → GoMap RelaySessionAssignment
desired_set [] m = m
desired_set (a ∷ rest) m = desired_set rest (store a.session_id a m)

unfoldable pub remove_stale : List String → GoMap RelaySessionAssignment → Relay → Relay
remove_stale [] desired r = r
remove_stale (id ∷ ids) desired r =
    remove_stale ids desired (if has id desired then r else remove_session id r)

module _ (resolve : String → Option String) where
  unfoldable pub add_session : RelaySessionAssignment → ℕ → Relay → Relay × Option RelayError
  add_session a now r =
      if a.session_id == "" then (r, some empty_session_id) else (elim (resolve a.peer_a_endpoint) [
        | none ↦ (r, some unresolved_peer_a)
        | some peer_a ↦ elim (resolve a.peer_b_endpoint) [
          | none ↦ (r, some unresolved_peer_b)
          | some peer_b ↦
              if peer_a == peer_b then (r, some same_endpoints) else register a peer_a peer_b now r
        ]
      ])

  -- The loop that adds sessions; `now` has the reading of the clock in each call.
  unfoldable pub add_missing :
      GoMap RelaySessionAssignment → List String → (String → ℕ) → Relay → Relay × List RelayError
  add_missing [] current now r = (r, [])
  add_missing ((id, a) ∷ m) current now r =
      if contains id current
      then add_missing m current now r
      else (let (r₁, err) = add_session a (now id) r in
          let (r₂, errs) = add_missing m current now r₁ in
          (r₂, elim err [ none ↦ errs | some e ↦ e ∷ errs ]))

  unfoldable pub reconcile_sessions : RelayConfig → (String → ℕ) → Relay → Relay × List RelayError
  reconcile_sessions config now r =
      let desired = desired_set config.sessions [] in
      let current = keys r.sessions in
      add_missing desired current now (remove_stale current desired r)

  -- The handler of the reconciler; without a relay configuration it leaves the sessions.
  unfoldable pub relay_reconcile_handler :
      Option RelayConfig → (String → ℕ) → Relay → Relay × List RelayError
  relay_reconcile_handler none now r = (r, [])
  relay_reconcile_handler (some config) now r = reconcile_sessions config now r

  -- The handlers of the events, from what json.Unmarshal makes of the payload.
  unfoldable pub handle_relay_session_assigned :
      Option RelaySessionAssignment → ℕ → Relay → Relay × Bool
  handle_relay_session_assigned none now r = (r, true)
  handle_relay_session_assigned (some a) now r =
      let (r₁, err) = add_session a now r in (r₁, elim err [ none ↦ false | some e ↦ true ])

unfoldable pub handle_relay_session_revoked : Option String → Relay → Relay × Bool
handle_relay_session_revoked none r = (r, true)
handle_relay_session_revoked (some id) r = (remove_session id r, false)
