-- ===== src/Api/Reconnect/Tests.antt =====
-- internal/api/reconnect.go: runs of the loop.
use plexd.Base.{◌++◌, ◌+◌, ℕ, ◌*◌, ◌<◌, List, [], ◌∷◌, false, ◌≡◌, refl, arith}
use plexd.Base.Int.{pos}
use plexd.Api.Errors.{matches_status, CallError, api_error, other_error}
use plexd.Api.Reconnect.{
  Outcome, dropped, failed, Turn, PollTurn, waited, auth_failure, going, second,
  new_reconnect_engine, set_intervals, set_base_interval, set_polling_fallback_config,
  classify_error, jitter, reset_backoff, increment_interval, mark_failing, wait, after_poll,
  poll_turn, run_polling_fallback, handle_auth_failure, handle_rate_limit, handle_transient_error,
  handle_connect_error, turn, run_turns, run,
}
use plexd.Api.Reconnect.Backoff.{
  doubled, at_most, BacksOff, backed_off, polls, FailsLate, old_failure_polls,
}
use plexd.Api.Reconnect.Stops.{IsFinal, gives_up_finally}

abbrev answer : ℕ → CallError
answer code =
    api_error (record { status_code = code; message = []; retry_after = pos (7 * second) })

-- A connection that ends so, at the time `now`, with nothing cancelled.
abbrev ends : Outcome → ℕ → List PollTurn → Turn
ends o now ps = record {
  cancelled_before = false;
  outcome = o;
  cancelled_after = false;
  failed_now = now;
  check_now = now;
  rand = 4_503_599_627_370_496;
  cancelled_waiting = false;
  polls = ps;
}

abbrev reconnects : PollTurn
reconnects = record {
  cancelled_before = false;
  poll_fails = false;
  cancelled_polling = false;
  cancelled_waiting = false;
  outcome = dropped;
  cancelled_after = false;
}

program : Unit {0}
unfolding new_reconnect_engine set_intervals set_base_interval set_polling_fallback_config
    classify_error matches_status jitter reset_backoff increment_interval mark_failing wait
    after_poll poll_turn run_polling_fallback handle_auth_failure handle_rate_limit
    handle_transient_error handle_connect_error turn run_turns run
program = tt

-- The server's delay is kept, and a 503 answer backs off.
limited :
    (run
      (ends (failed (answer 429)) second [] ∷ ends (failed (answer 503)) second [] ∷ [])
      new_reconnect_engine).0.1
    ≡ waited second ∷ waited (7 * second) ∷ []
unfolding program
limited = refl

refused :
    (run (ends (failed (answer 401)) second [] ∷ []) new_reconnect_engine).0.1 ≡ auth_failure ∷ []
unfolding program
refused = refl

gives_up_finally_example : IsFinal (answer 403)
gives_up_finally_example =
    gives_up_finally (ends dropped second [] ∷ ends (failed (answer 403)) second [] ∷ [])
      new_reconnect_engine (answer 403) (unfold program in refl)

other_BacksOff : BacksOff (301 * second) (ends (failed other_error) second [])
unfolding classify_error
other_BacksOff = record {
  error = other_error;
  starts = refl;
  fails = refl;
  lives = refl;
  transient = refl;
  early = omega arith;
  waits = refl;
}

backed_off_example :
    ((run
        (ends (failed other_error) second [] ∷ ends (failed other_error) second [] ∷ [])
        new_reconnect_engine).1
      ≡ going)
    × ((run
          (ends (failed other_error) second [] ∷ ends (failed other_error) second [] ∷ [])
          new_reconnect_engine).0.0.current_interval
        ≡ at_most (doubled 2 second) (60 * second))
unfolding new_reconnect_engine
backed_off_example =
    backed_off (ends (failed other_error) second []) (ends (failed other_error) second [] ∷ [])
      new_reconnect_engine (omega arith) (other_BacksOff, (other_BacksOff, tt)) (omega arith)

-- One failure in the first second, and a connection that falls idle an hour later.
abbrev an_hour_later : Turn
an_hour_later = ends (failed other_error) (3600 * second) (reconnects ∷ [])

late : FailsLate (second + new_reconnect_engine.polling_fallback) an_hour_later
unfolding program
late = record {
  error = other_error;
  starts = refl;
  fails = refl;
  lives = refl;
  transient = refl;
  late = omega arith;
  poll = reconnects;
  more = [];
  polls_of = refl;
  poll_starts = refl;
}

early_BacksOff :
    BacksOff (second + new_reconnect_engine.polling_fallback) (ends (failed other_error) second [])
unfolding program
early_BacksOff = record {
  error = other_error;
  starts = refl;
  fails = refl;
  lives = refl;
  transient = refl;
  early = omega arith;
  waits = refl;
}

old_failure_polls_example :
    0
    < polls
        (run
          (ends (failed other_error) second [] ∷ [] ++ an_hour_later ∷ [])
          new_reconnect_engine).0.1
old_failure_polls_example =
    old_failure_polls (ends (failed other_error) second []) [] an_hour_later new_reconnect_engine
      (omega arith) (early_BacksOff, tt) late
