-- ===== src/Tunnel/Expiry.antt =====
-- internal/tunnel/manager.go: when the timers close sessions.
use plexd.Base.{
  ℕ, ◌+◌, ◌≤◌, ◌<◌, String, List, [], ◌∷◌, Bool, true, false, not, ◌&&◌, ◌||◌, ◌==◌, eq_iff,
  eq_refl, ltb, leb, Option, none, some, if◌then◌else◌, length, contains, arith, ◌≡◌, refl, ap, ◌∙◌,
  inl, inr, Option-cases, ◌⊎◌,
}
use plexd.Base.GoMap.{find, has, has-store, has-delete, has_of_none}
use plexd.Tunnel.Sessions.{
  SessionSetup, Timer, SessionManager, Created, created, refused, Readings, valid_setup,
  capped_expiry, start_timer, register, create_session, close_session, close_all, due, pending,
  fire, disabled, invalid_setup, already_expired, duplicate_session_id, max_sessions_reached,
  listen_failed,
}

has-close_session :
    (id j : String) (now : ℕ) (m : SessionManager)
    → has j (close_session id now m).0.sessions ≡ (if id == j then false else has j m.sessions)
unfolding close_session
has-close_session id j now m = elim (Option-cases (find id m.sessions)) [
  | inl e ↦
      rw (e, close_session)
        (ground
          (arith, eq_iff id j, has_of_none id m.sessions e, ap (λ (k : String). has k m.sessions)))
  | inr (s, e) ↦ rw (e, close_session) (has-delete id j m.sessions)
]

has-close_all :
    (ids : List String) (j : String) (now : ℕ) (m : SessionManager)
    → has j (close_all ids now m).sessions ≡ (if contains j ids then false else has j m.sessions)
unfolding close_all
has-close_all [] j now m = refl
has-close_all (id ∷ ids) j now m =
    has-close_all ids j now (close_session id now m).0
    ∙ ground (arith, has-close_session id j now m)

-- Some timer for the session is due at the time.
abbrev pub timer_due : ℕ → String → List Timer → Bool
timer_due now id [] = false
timer_due now id (t ∷ ts) = (leb t.fires_at now && t.session_id == id) || timer_due now id ts

contains-due :
    (now : ℕ) (id : String) (ts : List Timer) → contains id (due now ts) ≡ timer_due now id ts
unfolding due
contains-due now id [] = refl
contains-due now id (t ∷ ts) = ground (arith, contains-due now id ts)

has-fire :
    (now : ℕ) (id : String) (m : SessionManager)
    → has id (fire now m).sessions
      ≡ (if timer_due now id m.timers then false else has id m.sessions)
unfolding fire
has-fire now id m =
    has-close_all (due now m.timers) id now (record m { timers = pending now m.timers })
    ∙ ground (arith, contains-due now id m.timers)

-- What a creation that reports an address has done.
created_inv :
    (s : SessionSetup) (r : Readings) (listens : Option String) (m : SessionManager) (addr : String)
    → (create_session s r listens m).1 ≡ created addr
    → ((create_session s r listens m).0
        ≡ register s (capped_expiry s.expires_at r.now m.default_timeout) r m)
      × (has s.session_id m.sessions ≡ false)
      × (leb m.max_sessions (length m.sessions) ≡ false)
unfolding create_session
created_inv s r listens m addr =
    go m.enabled (valid_setup s) (ltb s.expires_at r.now) (has s.session_id m.sessions)
      (leb m.max_sessions (length m.sessions)) listens refl refl
  where
    after : SessionManager
    after = register s (capped_expiry s.expires_at r.now m.default_timeout) r m

    go :
        (a b c d e : Bool) (l : Option String)
        → has s.session_id m.sessions ≡ d
        → leb m.max_sessions (length m.sessions) ≡ e
        → let out : SessionManager × Created =
            (if not a
              then (m, refused disabled)
              else if not b
              then (m, refused invalid_setup)
              else if c
              then (m, refused already_expired)
              else if d
              then (m, refused duplicate_session_id)
              else if e
              then (m, refused max_sessions_reached)
              else elim l [ none ↦ (m, refused listen_failed) | some x ↦ (after, created x) ]) in
          out.1 ≡ created addr
          → (out.0 ≡ after)
            × (has s.session_id m.sessions ≡ false)
            × (leb m.max_sessions (length m.sessions) ≡ false)
    go false b c d e l hd he h = absurd (ground arith)
    go true false c d e l hd he h = absurd (ground arith)
    go true true true d e l hd he h = absurd (ground arith)
    go true true false true e l hd he h = absurd (ground arith)
    go true true false false true l hd he h = absurd (ground arith)
    go true true false false false none hd he h = absurd (ground arith)
    go true true false false false (some x) hd he h = (refl, hd, he)

has-register :
    (s : SessionSetup) (expires_at : ℕ) (r : Readings) (m : SessionManager)
    → has s.session_id (register s expires_at r m).sessions ≡ true
unfolding register
has-register s expires_at r m = has-store s.session_id s.session_id _ m.sessions ∙ rw eq_refl refl

timer_due-start_timer :
    (t expires_at now : ℕ) (id : String) (ts : List Timer)
    → timer_due t id (start_timer expires_at now id ts)
      ≡ ((ltb now expires_at && leb expires_at t) || timer_due t id ts)
unfolding start_timer
timer_due-start_timer t expires_at now id ts = ground (arith, eq_refl id)

timers-register :
    (s : SessionSetup) (expires_at t : ℕ) (r : Readings) (m : SessionManager)
    → timer_due t s.session_id (register s expires_at r m).timers
      ≡ ((ltb r.until_now expires_at && leb expires_at t) || timer_due t s.session_id m.timers)
unfolding register
timers-register s expires_at t r m =
    timer_due-start_timer t expires_at r.until_now s.session_id m.timers

-- A session that was created does not outlive its end: if the end still lies ahead when the timer is
-- started, then from the end of the setup on, and from the longest time that is allowed on, the timers
-- that fire have closed it.
pub created_session_ends :
    (s : SessionSetup) (r : Readings) (listens : Option String) (m : SessionManager) (addr : String)
    (t : ℕ)
    → (create_session s r listens m).1 ≡ created addr
    → r.until_now < s.expires_at
    → r.until_now < r.now + m.default_timeout
    → (s.expires_at ≤ t) ⊎ (r.now + m.default_timeout ≤ t)
    → has s.session_id (fire t (create_session s r listens m).0).sessions ≡ false
unfolding capped_expiry
created_session_ends s r listens m addr t ok ahead allowed over =
    let (is, new, room) = created_inv s r listens m addr ok in
    let e = capped_expiry s.expires_at r.now m.default_timeout in
    has-fire t s.session_id (create_session s r listens m).0
    ∙ rw (is, timers-register s e t r m) (rest (timer_due t s.session_id m.timers))
  where
    late :
        (ltb r.until_now (capped_expiry s.expires_at r.now m.default_timeout)
          && leb (capped_expiry s.expires_at r.now m.default_timeout) t)
        ≡ true
    late = ground arith

    rest :
        (d : Bool)
        → (if (ltb r.until_now (capped_expiry s.expires_at r.now m.default_timeout)
                && leb (capped_expiry s.expires_at r.now m.default_timeout) t)
              || d
            then false
            else has s.session_id
                (register s (capped_expiry s.expires_at r.now m.default_timeout) r m).sessions)
          ≡ false
    rest d = rw late refl

timers-close_session :
    (id : String) (now : ℕ) (m : SessionManager) → (close_session id now m).0.timers ≡ m.timers
unfolding close_session
timers-close_session id now m = elim (Option-cases (find id m.sessions)) [
  | inl e ↦ rw (e, close_session) refl
  | inr (x, e) ↦ rw (e, close_session) refl
]

-- The timer of a session that was closed closes a later session with the same id: when a timer for the
-- id is due at some time, a session that is created after the old one is closed is gone at that time,
-- also if its own end lies after it.
pub stale_timer_closes :
    (s : SessionSetup) (r : Readings) (listens : Option String) (m : SessionManager) (addr : String)
    (closed_at t : ℕ)
    → timer_due t s.session_id m.timers ≡ true
    → (create_session s r listens (close_session s.session_id closed_at m).0).1 ≡ created addr
    → has s.session_id
        (fire t (create_session s r listens (close_session s.session_id closed_at m).0).0).sessions
      ≡ false
stale_timer_closes s r listens m addr closed_at t stale ok =
    let m₁ = (close_session s.session_id closed_at m).0 in
    let e = capped_expiry s.expires_at r.now m₁.default_timeout in
    let (is, new, room) = created_inv s r listens m₁ addr ok in
    has-fire t s.session_id (create_session s r listens m₁).0
    ∙ rw (is, timers-register s e t r m₁, timers-close_session s.session_id closed_at m, stale)
        (ground arith)

-- A session whose end has passed when the timer is to be started gets no timer: unless an old timer for
-- its id is due, no timer ever closes it.
pub missed_timer :
    (s : SessionSetup) (r : Readings) (listens : Option String) (m : SessionManager) (addr : String)
    (t : ℕ)
    → (create_session s r listens m).1 ≡ created addr
    → s.expires_at ≤ r.until_now
    → timer_due t s.session_id m.timers ≡ false
    → has s.session_id (fire t (create_session s r listens m).0).sessions ≡ true
unfolding capped_expiry
missed_timer s r listens m addr t ok passed none_due =
    let (is, new, room) = created_inv s r listens m addr ok in
    let e = capped_expiry s.expires_at r.now m.default_timeout in
    has-fire t s.session_id (create_session s r listens m).0
    ∙ rw (is, timers-register s e t r m, none_due, has-register s e r m, not_ahead) refl
  where
    not_ahead : ltb r.until_now (capped_expiry s.expires_at r.now m.default_timeout) ≡ false
    not_ahead = ground arith
