-- ===== src/Tunnel/Sessions.antt =====
-- internal/tunnel/manager.go: the session manager. A timer is the time at which it fires and the id of
-- the session that it closes; nothing stops one. The address that a session listens on comes from the
-- system, `none` for an error. The connections of a session are not modelled.
use plexd.Base.{
  ℕ, ◌+◌, ◌-◌, String, List, [], ◌∷◌, Bool, not, ◌||◌, ◌==◌, ltb, leb, Option, none, some,
  if◌then◌else◌, length,
}
use plexd.Base.GoMap.{GoMap, find, has, store, delete, keys}
use plexd.Base.Int.{ℤ, leb_ℤ}

-- api.SSHSessionSetup
pub record SessionSetup : Type 0 where
  pub session_id : String
  pub target_host : String
  pub target_port : ℤ
  pub expires_at : ℕ

pub record Session : Type 0 where
  pub session_id : String
  pub target_host : String
  pub target_port : ℤ
  pub mesh_ip : String
  pub expires_at : ℕ
  pub start_time : ℕ

pub record Timer : Type 0 where
  pub fires_at : ℕ
  pub session_id : String

pub record SessionManager : Type 0 where
  pub enabled : Bool
  pub max_sessions : ℕ
  pub default_timeout : ℕ
  pub mesh_ip : String
  pub sessions : GoMap Session
  pub timers : List Timer

pub data SessionError : Type 0 where
  disabled invalid_setup already_expired duplicate_session_id max_sessions_reached listen_failed :
      SessionError

pub data Created : Type 0 where
  created : String → Created
  refused : SessionError → Created

-- The readings of the clock in CreateSession: at the test of the expiry, at the start of the session,
-- and for the timer.
pub record Readings : Type 0 where
  pub now : ℕ
  pub start_now : ℕ
  pub until_now : ℕ

unfoldable pub valid_setup : SessionSetup → Bool
valid_setup s = not (
    s.session_id == ""
    || (s.target_host == "" || (leb_ℤ s.target_port 0 || not (leb_ℤ s.target_port 65535))))

-- The end of the session: that of the setup, or the longest that is allowed.
unfoldable pub capped_expiry : ℕ → ℕ → ℕ → ℕ
capped_expiry expires_at now timeout =
    if ltb (now + timeout) expires_at then now + timeout else expires_at

-- A timer is started only if the end lies ahead.
unfoldable pub start_timer : ℕ → ℕ → String → List Timer → List Timer
start_timer expires_at now id timers =
    if ltb now expires_at
    then record { fires_at = expires_at; session_id = id } ∷ timers
    else timers

unfoldable pub register : SessionSetup → ℕ → Readings → SessionManager → SessionManager
register s expires_at r m = record m {
  sessions =
      store s.session_id
        (record {
          session_id = s.session_id;
          target_host = s.target_host;
          target_port = s.target_port;
          mesh_ip = m.mesh_ip;
          expires_at = expires_at;
          start_time = r.start_now;
        })
        m.sessions;
  timers = start_timer expires_at r.until_now s.session_id m.timers;
}

unfoldable pub create_session :
    SessionSetup → Readings → Option String → SessionManager → SessionManager × Created
create_session s r listens m =
    if not m.enabled
    then (m, refused disabled)
    else if not (valid_setup s)
    then (m, refused invalid_setup)
    else if ltb s.expires_at r.now
    then (m, refused already_expired)
    else if has s.session_id m.sessions
    then (m, refused duplicate_session_id)
    else if leb m.max_sessions (length m.sessions)
    then (m, refused max_sessions_reached)
    else (elim listens [
      | none ↦ (m, refused listen_failed)
      | some addr ↦
          (register s (capped_expiry s.expires_at r.now m.default_timeout) r m, created addr)
    ])

-- The duration that is reported; `none` when there is no such session.
unfoldable pub close_session : String → ℕ → SessionManager → SessionManager × Option ℕ
close_session id now m = elim (find id m.sessions) [
  | none ↦ (m, none)
  | some s ↦ (record m { sessions = delete id m.sessions }, some (now - s.start_time))
]

unfoldable pub close_all : List String → ℕ → SessionManager → SessionManager
close_all [] now m = m
close_all (id ∷ ids) now m = close_all ids now (close_session id now m).0

unfoldable pub shutdown : ℕ → SessionManager → SessionManager
shutdown now m = close_all (keys m.sessions) now m

-- The timers that are due close their sessions; the others stay.
unfoldable pub due : ℕ → List Timer → List String
due now [] = []
due now (t ∷ ts) = let rest = due now ts in if leb t.fires_at now then t.session_id ∷ rest else rest

unfoldable pub pending : ℕ → List Timer → List Timer
pending now [] = []
pending now (t ∷ ts) = let rest = pending now ts in if leb t.fires_at now then rest else t ∷ rest

unfoldable pub fire : ℕ → SessionManager → SessionManager
fire now m = close_all (due now m.timers) now (record m { timers = pending now m.timers })
