-- ===== src/Bridge/Tests.antt =====
-- internal/bridge: runs of a small relay.
use plexd.Api.Envelope.{Bytes}
use plexd.Base.{ℕ, String, [], ◌∷◌, Option, some, ◌≡◌, refl}
use plexd.Base.GoMap.{find, has, store, delete, keys}
use plexd.Api.Types.{RelaySessionAssignment, RelayConfig}
use plexd.Bridge.Relay.{
  RelaySession, Relay, new_relay, start, register, ttl_of, close, add_session, remove_session,
  dispatch, forward, write_to, desired_set, remove_stale, add_missing, reconcile_sessions,
}
use plexd.Bridge.Relay.Index.{IsWellFormed}
use plexd.Bridge.Relay.Forwarding.{
  add, listen, calls, Between, reachable-IsWellFormed, dispatch_sound,
}
use plexd.Bridge.Relay.Sync.{assigned, reconciled_ids}

abbrev session : String → String → String → ℕ → RelaySessionAssignment
session id a b expires = record {
  session_id = id;
  peer_a_id = "pa";
  peer_a_endpoint = a;
  peer_b_id = "pb";
  peer_b_endpoint = b;
  expires_at = expires;
}

abbrev packet : Bytes
packet = 1 ∷ []

-- Every endpoint is an address already.
abbrev resolve : String → Option String
resolve s = some s

-- Two sessions that share an endpoint.
abbrev relay : Relay
relay =
    calls resolve
      (listen (some 7) ∷ add (session "s" "a" "b" 0) 10 ∷ add (session "t" "b" "c" 0) 11 ∷ [])
      (new_relay 3 100)

program : Unit {0}
unfolding new_relay start register ttl_of close add_session remove_session dispatch forward write_to
    desired_set remove_stale add_missing reconcile_sessions find has store delete keys
program = tt

reachable-IsWellFormed_example : IsWellFormed relay
reachable-IsWellFormed_example =
    reachable-IsWellFormed resolve
      (listen (some 7) ∷ add (session "s" "a" "b" 0) 10 ∷ add (session "t" "b" "c" 0) 11 ∷ []) 3 100

-- The address that two sessions share leads to the later one.
shared_example :
    dispatch relay "b" packet ≡ some (record { socket = 7; dst = "c"; payload = packet })
unfolding program
shared_example = refl

dispatch_sound_example :
    (s : RelaySession) × (find s.session_id relay.sessions ≡ some s)
    × Between s "a" "b"
    × (s.conn ≡ some 7)
    × (packet ≡ packet)
dispatch_sound_example =
    dispatch_sound relay "a" packet (record { socket = 7; dst = "b"; payload = packet })
      (reachable-IsWellFormed_example) (unfold program in refl)

-- The session of an assignment that ended at 5 lives for the whole time to live.
expired_example :
    find "u" (add_session resolve (session "u" "d" "e" 5) 12 relay).0.timers ≡ some 112
unfolding program
expired_example = refl

abbrev config : RelayConfig
config = record { sessions = session "t" "x" "y" 0 ∷ session "v" "d" "e" 0 ∷ [] }

reconciled_ids_example :
    has "v" (reconcile_sessions resolve config (λ id. 20) relay).0.sessions
    ≡ assigned "v" config.sessions
reconciled_ids_example = reconciled_ids resolve config (λ id. 20) relay "v" (unfold program in refl)
