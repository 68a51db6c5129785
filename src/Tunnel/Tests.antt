-- ===== src/Tunnel/Tests.antt =====
-- internal/tunnel/manager.go: runs of a manager of one session.
use plexd.Base.{ℕ, String, [], true, false, some, ◌≡◌, refl, inl, arith}
use plexd.Base.GoMap.{find, has, store, delete, keys}
use plexd.Base.Int.{pos}
use plexd.Tunnel.Sessions.{
  SessionSetup, SessionManager, Readings, refused, max_sessions_reached, valid_setup, capped_expiry,
  start_timer, register, create_session, close_session, close_all, shutdown, due, pending, fire,
}
use plexd.Tunnel.Expiry.{created_session_ends}

abbrev setup : String → ℕ → SessionSetup
setup id expires = record {
  session_id = id;
  target_host = "h";
  target_port = pos 22;
  expires_at = expires;
}

abbrev at : ℕ → Readings
at now = record { now = now; start_now = now; until_now = now }

abbrev manager : SessionManager
manager = record {
  enabled = true;
  max_sessions = 1;
  default_timeout = 100;
  mesh_ip = "10.0.0.1";
  sessions = [];
  timers = [];
}

-- With a session that ends at 20.
abbrev busy : SessionManager
busy = (create_session (setup "s" 20) (at 10) (some "10.0.0.1:4000") manager).0

program : Unit {0}
unfolding valid_setup capped_expiry start_timer register create_session close_session close_all
    shutdown due pending fire find has store delete keys
program = tt

full_example :
    (create_session (setup "t" 20) (at 10) (some "10.0.0.1:4001") busy).1
    ≡ refused max_sessions_reached
unfolding program
full_example = refl

shutdown_example : (shutdown 15 busy).sessions ≡ []
unfolding program
shutdown_example = refl

created_session_ends_example :
    has "s"
      (fire 20 (create_session (setup "s" 20) (at 10) (some "10.0.0.1:4000") manager).0).sessions
    ≡ false
created_session_ends_example =
    created_session_ends (setup "s" 20) (at 10) (some "10.0.0.1:4000") manager "10.0.0.1:4000" 20
      (unfold program in refl) (omega arith) (omega arith) (inl (omega arith))
