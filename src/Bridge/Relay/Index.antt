-- ===== src/Bridge/Relay/Index.antt =====
-- internal/bridge/relay.go: the agreement of the maps of the relay.
use mathlib.Core.Path.{subst}
use plexd.Base.{
  ◌+◌, ℕ, suc, ◌≤◌, ◌<◌, String, true, false, ◌==◌, leb, Option, none, some, if◌then◌else◌, length,
  arith, ◌≡◌, ◌≢◌, ◌⊎◌, inl, inr, refl, ap, sym, ◌∙◌, Bool-cases, String-cases,
}
use plexd.Base.GoMap.{
  GoMap, find, has, store, Distinct, has-store, find-store_cases, find-store_other, find-store_self,
  store-Distinct, has_of_find, length-store_new,
}
use plexd.Api.Types.{RelaySessionAssignment}
use plexd.Bridge.Relay.{
  RelaySession, Relay, RelayError, is_closed, new_relay, register, add_session, ttl_of,
  same_endpoints, unresolved_peer_a, unresolved_peer_b,
}

-- One of the two addresses of a session.
abbrev pub HasAddr : RelaySession → String → Type 0
HasAddr s a = (s.peer_a_addr ≡ a) ⊎ (s.peer_b_addr ≡ a)

pub record IsWellFormed (r : Relay) : Type 0 where
  -- An address leads to a session that is registered and has the address.
  pub indexed :
      (a : String) (s : RelaySession)
      → find a r.addr_index ≡ some s
      → (find s.session_id r.sessions ≡ some s) × HasAddr s a
  -- A registered session stands under its own id, is not closed, and was made before the next one.
  pub live :
      (id : String) (s : RelaySession)
      → find id r.sessions ≡ some s
      → (s.session_id ≡ id) × (is_closed s.ref r.closed ≡ false) × (s.ref < r.next_ref)
  -- Two registered sessions are two objects.
  pub apart :
      (i j : String) (s t : RelaySession)
      → find i r.sessions ≡ some s
      → find j r.sessions ≡ some t
      → s.ref ≡ t.ref
      → i ≡ j
  -- Only objects that were made are closed.
  pub made : (ref : ℕ) → is_closed ref r.closed ≡ true → ref < r.next_ref
  pub timed : (id : String) → has id r.timers ≡ has id r.sessions
  pub distinct : Distinct r.sessions
  pub bounded : length r.sessions ≤ r.max_sessions

pub new_relay-IsWellFormed : (max ttl : ℕ) → IsWellFormed (new_relay max ttl)
unfolding new_relay find has
new_relay-IsWellFormed max ttl = record {
  indexed = λ a s h. absurd (ground arith);
  live = λ id s h. absurd (ground arith);
  apart = λ i j s t h k e. absurd (ground arith);
  made = λ ref h. absurd (ground arith);
  timed = λ id. refl;
  distinct = tt;
  bounded = omega arith;
}

pub fresh :
    (r : Relay) → IsWellFormed r → (ref : ℕ) → r.next_ref ≤ ref → is_closed ref r.closed ≡ false
fresh r w ref le = elim (Bool-cases (is_closed ref r.closed)) [
  | inl e ↦ absurd (let lt = w.made ref e in omega arith)
  | inr e ↦ e
]

-- Two different keys of a map that hold a value each.
has-find_other :
    {V : Type 0} (k j : String) (v : V) (m : GoMap V)
    → has k m ≡ false
    → find j m ≡ some v
    → (k == j) ≡ false
has-find_other k j v m new h = elim (String-cases k j) [
  | inl (same, e) ↦
      absurd (let y = has_of_find j m v h in ground (arith, ap (λ (s : String). has s m) e))
  | inr (other, n) ↦ other
]

module _ (r : Relay) (w : IsWellFormed r) (id a b : String) (deadline : ℕ) where
  -- The session that `register` makes, and the relay with it.
  abbrev made_session : RelaySession
  made_session = record {
    ref = r.next_ref;
    session_id = id;
    peer_a_addr = a;
    peer_b_addr = b;
    conn = r.conn;
  }

  abbrev with_session : Relay
  with_session = record r {
    sessions = store id made_session r.sessions;
    addr_index = store b made_session (store a made_session r.addr_index);
    timers = store id deadline r.timers;
    next_ref = suc r.next_ref;
  }

  with_session-indexed :
      has id r.sessions ≡ false
      → (x : String) (s : RelaySession) → find x with_session.addr_index ≡ some s
      → (find s.session_id with_session.sessions ≡ some s) × HasAddr s x
  with_session-indexed new x s h =
      elim (find-store_cases b x made_session s (store a made_session r.addr_index) h) [
        | inl (e, v) ↦ own v (inr e)
        | inr (_, h₁) ↦ elim (find-store_cases a x made_session s r.addr_index h₁) [
          | inl (e, v) ↦ own v (inl e)
          | inr (_, h₂) ↦
              (let (at, addr) = w.indexed x s h₂ in
                (
                  find-store_other id s.session_id made_session r.sessions
                        (has-find_other id s.session_id s r.sessions new at)
                      ∙ at,
                  addr,
                ))
        ]
      ]
    where
      own :
          made_session ≡ s
          → HasAddr made_session x
          → (find s.session_id with_session.sessions ≡ some s) × HasAddr s x
      own v addr =
          subst (λ t. (find t.session_id with_session.sessions ≡ some t) × HasAddr t x) v
            (find-store_self id made_session r.sessions, addr)

  with_session-live :
      (i : String) (s : RelaySession)
      → find i with_session.sessions ≡ some s
      → (s.session_id ≡ i) × (is_closed s.ref r.closed ≡ false) × (s.ref < with_session.next_ref)
  with_session-live i s h = elim (find-store_cases id i made_session s r.sessions h) [
    | inl (e, v) ↦
        subst
          (λ t.
            (t.session_id ≡ i)
            × (is_closed t.ref r.closed ≡ false)
            × (t.ref < with_session.next_ref))
          v (e, fresh r w r.next_ref (omega arith), (omega arith))
    | inr (_, old) ↦ (let (same, open_, lt) = w.live i s old in (same, open_, omega arith))
  ]

  with_session-apart :
      (i j : String) (s t : RelaySession)
      → find i with_session.sessions ≡ some s
      → find j with_session.sessions ≡ some t
      → s.ref ≡ t.ref
      → i ≡ j
  with_session-apart i j s t hs ht e = elim (find-store_cases id i made_session s r.sessions hs) [
    | inl (ei, vi) ↦ elim (find-store_cases id j made_session t r.sessions ht) [
      | inl (ej, vj) ↦ sym ei ∙ ej
      | inr (_, old) ↦ absurd (clash s t j vi old e)
    ]
    | inr (_, oi) ↦ elim (find-store_cases id j made_session t r.sessions ht) [
      | inl (ej, vj) ↦ absurd (clash t s i vj oi (sym e))
      | inr (_, oj) ↦ w.apart i j s t oi oj e
    ]
  ]
    where
      clash :
          (x y : RelaySession) (k : String)
          → made_session ≡ x
          → find k r.sessions ≡ some y
          → x.ref ≡ y.ref
          → ⊥
      clash x y k v old e =
          let (_, _, lt) = w.live k y old in
          let at : r.next_ref ≡ x.ref = ap (λ (z : RelaySession). z.ref) v in omega arith

  with_session-IsWellFormed :
      has id r.sessions ≡ false
      → leb r.max_sessions (length r.sessions) ≡ false
      → IsWellFormed with_session
  with_session-IsWellFormed new room = record {
    indexed = with_session-indexed new;
    live = with_session-live;
    apart = with_session-apart;
    made = λ ref h. (let lt = w.made ref h in omega arith);
    timed = λ i. ground (
      arith,
      has-store id i deadline r.timers,
      has-store id i made_session r.sessions,
      w.timed i,
    );
    distinct = store-Distinct id made_session r.sessions w.distinct;
    bounded = (let n = length-store_new id made_session r.sessions new in ground arith);
  }

-- A new session keeps the relay well formed, whatever the outcome.
pub register-IsWellFormed :
    (a : RelaySessionAssignment) (peer_a peer_b : String) (now : ℕ) (r : Relay)
    → IsWellFormed r
    → IsWellFormed (register a peer_a peer_b now r).0
unfolding register
register-IsWellFormed a peer_a peer_b now r w = elim (Bool-cases (has a.session_id r.sessions)) [
  | inl e ↦ rw (e, register) w
  | inr new ↦ elim (Bool-cases (leb r.max_sessions (length r.sessions))) [
    | inl e ↦ rw (new, e, register) w
    | inr room ↦
        rw (new, room, register)
          (with_session-IsWellFormed r w a.session_id peer_a peer_b
            (now + ttl_of r.session_ttl a.expires_at now) new room)
  ]
]

-- What `add_session` does: it reports an error and leaves the relay, or it registers the session under
-- the two different addresses of its endpoints.
abbrev pub Adds :
    (String → Option String)
    → RelaySessionAssignment
    → ℕ
    → Relay
    → Relay × Option RelayError
    → Type 0
Adds resolve a now r out =
    ((out.0 ≡ r) × (out.1 ≢ none))
    ⊎ ((peer_a : String) × (peer_b : String) × (resolve a.peer_a_endpoint ≡ some peer_a)
        × (resolve a.peer_b_endpoint ≡ some peer_b)
        × (peer_a ≢ peer_b)
        × (a.session_id ≢ "")
        × (out ≡ register a peer_a peer_b now r))

pub add_session-Adds :
    (resolve : String → Option String) (a : RelaySessionAssignment) (now : ℕ) (r : Relay)
    → Adds resolve a now r (add_session resolve a now r)
unfolding add_session
add_session-Adds resolve a now r = elim (String-cases a.session_id "") [
  | inl (e, _) ↦ rw (e, add_session) (inl (refl, λ h. ground arith))
  | inr (e, named) ↦
      rw (e, add_session)
        (ends named (resolve a.peer_a_endpoint) (resolve a.peer_b_endpoint) refl refl)
]
  where
    both :
        a.session_id ≢ ""
        → (x y : String) → resolve a.peer_a_endpoint ≡ some x
        → resolve a.peer_b_endpoint ≡ some y
        → Adds resolve a now r (if x == y then (r, some same_endpoints) else register a x y now r)
    both named x y ex ey = elim (String-cases x y) [
      | inl (e, _) ↦ rw e (inl (refl, λ h. ground arith))
      | inr (e, differ) ↦ rw e (inr (x, y, ex, ey, differ, named, refl))
    ]

    ends :
        a.session_id ≢ ""
        → (x y : Option String) → resolve a.peer_a_endpoint ≡ x
        → resolve a.peer_b_endpoint ≡ y
        → Adds resolve a now r (elim x [
          | none ↦ (r, some unresolved_peer_a)
          | some peer_a ↦ elim y [
            | none ↦ (r, some unresolved_peer_b)
            | some peer_b ↦
                if peer_a == peer_b
                then (r, some same_endpoints)
                else register a peer_a peer_b now r
          ]
        ])
    ends named none y ex ey = inl (refl, λ h. ground arith)
    ends named (some x) none ex ey = inl (refl, λ h. ground arith)
    ends named (some x) (some y) ex ey = both named x y ex ey

pub add_session-IsWellFormed :
    (resolve : String → Option String) (a : RelaySessionAssignment) (now : ℕ) (r : Relay)
    → IsWellFormed r
    → IsWellFormed (add_session resolve a now r).0
add_session-IsWellFormed resolve a now r w = elim (add_session-Adds resolve a now r) [
  | inl (same, _) ↦ rw same w
  | inr (x, y, _, _, _, _, e) ↦ rw e (register-IsWellFormed a x y now r w)
]
