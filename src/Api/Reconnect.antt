-- ===== src/Api/Reconnect.antt =====
-- internal/api/reconnect.go: the loop that keeps the event stream connected. The connections, the
-- polls, the clock, the random numbers and the cancellation of the context are inputs, one record for
-- each turn of a loop; a run over finitely many turns ends in the state that the loop is then in.
-- Times and durations are nanoseconds, and the zero time is 0. The intervals are below 2^53, where
-- float64 doubles them exactly; the multiplier and the jitter fraction are the constants of
-- NewReconnectEngine.
pub mod Backoff
pub mod Stops
mod Tests
use plexd.Base.{
  ℕ, ◌+◌, ◌-◌, ◌*◌, ◌/◌, List, [], ◌∷◌, Bool, true, false, not, ◌&&◌, ◌||◌, eqb, ltb, leb, Option,
  none, some, if◌then◌else◌,
}
use plexd.Base.Int.{ℤ, pos, negsuc}
use plexd.Api.Errors.{ApiError, matches_status, CallError, api_error, other_error}

pub data FailureAction : Type 0 where
  retry_transient retry_auth respect_server permanent_failure : FailureAction

unfoldable pub classify_error : CallError → FailureAction
classify_error other_error = retry_transient
classify_error (api_error e) =
    if matches_status e 401
    then retry_auth
    else if matches_status e 429
    then respect_server
    else if matches_status e 403 || matches_status e 404
    then permanent_failure
    else retry_transient

pub record ReconnectEngine : Type 0 where
  pub base_interval : ℕ
  pub max_interval : ℕ
  pub polling_fallback : ℕ
  pub poll_interval : ℕ
  pub current_interval : ℕ
  pub failing_since : ℕ

abbrev pub second : ℕ
second = 1_000_000_000

unfoldable pub new_reconnect_engine : ReconnectEngine
new_reconnect_engine = record {
  base_interval = second;
  max_interval = 60 * second;
  polling_fallback = 300 * second;
  poll_interval = 60 * second;
  current_interval = second;
  failing_since = 0;
}

unfoldable pub set_intervals : ℕ → ℕ → ReconnectEngine → ReconnectEngine
set_intervals base max r = record r {
  base_interval = base;
  max_interval = max;
  current_interval = base;
}

unfoldable pub set_base_interval : ℕ → ReconnectEngine → ReconnectEngine
set_base_interval d r = record r { base_interval = d }

unfoldable pub set_polling_fallback_config : ℕ → ℕ → ReconnectEngine → ReconnectEngine
set_polling_fallback_config fallback_after poll r = record r {
  polling_fallback = fallback_after;
  poll_interval = poll;
}

-- rand.Float64 gives k / 2^53 for a k below 2^53; the sum is that of the reals, not of float64.
abbrev pub rand_range : ℕ
rand_range = 9_007_199_254_740_992

unfoldable pub jitter : ℕ → ℕ → ℕ
jitter d k = (d * (3 * rand_range + 2 * k)) / (4 * rand_range)

unfoldable pub reset_backoff : ReconnectEngine → ReconnectEngine
reset_backoff r = record r { current_interval = r.base_interval; failing_since = 0 }

unfoldable pub increment_interval : ReconnectEngine → ReconnectEngine
increment_interval r = record r {
  current_interval =
      if ltb (r.current_interval * 2) r.max_interval
      then r.current_interval * 2
      else r.max_interval;
}

-- What a connection ends with: nil when the stream drops, or an error.
pub data Outcome : Type 0 where
  dropped : Outcome
  failed : CallError → Outcome

-- What the loops do that is seen from outside.
pub data Action : Type 0 where
  waited : ℕ → Action
  polled auth_failure : Action

-- One turn of the polling loop.
pub record PollTurn : Type 0 where
  pub cancelled_before : Bool
  pub poll_fails : Bool
  pub cancelled_polling : Bool
  pub cancelled_waiting : Bool
  pub outcome : Outcome
  pub cancelled_after : Bool

-- One turn of the main loop.
pub record Turn : Type 0 where
  pub cancelled_before : Bool
  pub outcome : Outcome
  pub cancelled_after : Bool
  -- The readings of the clock in `handleTransientError`.
  pub failed_now : ℕ
  pub check_now : ℕ
  pub rand : ℕ
  pub cancelled_waiting : Bool
  pub polls : List PollTurn

-- Where a loop is after the turns that it is given.
pub data Progress : Type 0 where
  going : Progress
  cancelled : Progress
  gave_up : CallError → Progress
  -- The polling loop has connected again, or goes on.
  reconnected polling : Progress

-- `wait`
unfoldable pub wait : ℕ → Bool → List Action → List Action × Progress
wait d interrupted log = if interrupted then (log, cancelled) else (waited d ∷ log, going)

-- The end of a turn of `runPollingFallback`, once the poll and the wait are over.
unfoldable pub after_poll : PollTurn → Progress
after_poll t = elim t.outcome [
  | dropped ↦ reconnected
  | failed e ↦ if t.cancelled_after then cancelled else (elim (classify_error e) [
    | permanent_failure ↦ gave_up e
    | retry_auth ↦ gave_up e
    | _ ↦ going
  ])
]

unfoldable pub poll_turn : ℕ → PollTurn → List Action → List Action × Progress
poll_turn interval t log =
    if t.cancelled_before
    then (log, cancelled)
    else if t.poll_fails && t.cancelled_polling
    then (polled ∷ log, cancelled)
    else if t.cancelled_waiting
    then (polled ∷ log, cancelled)
    else (waited interval ∷ polled ∷ log, after_poll t)

unfoldable pub run_polling_fallback : ℕ → List PollTurn → List Action → List Action × Progress
run_polling_fallback interval [] log = (log, polling)
run_polling_fallback interval (t ∷ ts) log =
    let (log', p) = poll_turn interval t log in
    elim p [ going ↦ run_polling_fallback interval ts log' | q ↦ (log', q) ]

unfoldable pub handle_auth_failure : CallError → List Action → List Action × Progress
handle_auth_failure e log = (auth_failure ∷ log, gave_up e)

abbrev pub delay_of : CallError → ℕ → ℕ
delay_of other_error d = d
delay_of (api_error e) d = elim e.retry_after [ pos n ↦ (if ltb 0 n then n else d) | negsuc n ↦ d ]

unfoldable pub handle_rate_limit :
    CallError → Bool → ReconnectEngine → List Action → List Action × Progress
handle_rate_limit e interrupted r log = wait (delay_of e r.current_interval) interrupted log

unfoldable pub mark_failing : ℕ → ReconnectEngine → ReconnectEngine
mark_failing now r = if eqb r.failing_since 0 then record r { failing_since = now } else r

-- `going` is nil, which lets the main loop go on.
unfoldable pub handle_transient_error :
    Turn → ReconnectEngine → List Action → (ReconnectEngine × List Action) × Progress
handle_transient_error t r₀ log =
    let r = mark_failing t.failed_now r₀ in
    if leb (r.failing_since + r.polling_fallback) t.check_now
    then (let (log', p) = run_polling_fallback r.poll_interval t.polls log in
        elim p [ reconnected ↦ ((reset_backoff r, log'), going) | q ↦ ((r, log'), q) ])
    else (let (log', p) = wait (jitter r.current_interval t.rand) t.cancelled_waiting log in
        elim p [ going ↦ ((increment_interval r, log'), going) | q ↦ ((r, log'), q) ])

unfoldable pub handle_connect_error :
    Turn → CallError → ReconnectEngine → List Action → (ReconnectEngine × List Action) × Progress
handle_connect_error t e r log = elim (classify_error e) [
  | permanent_failure ↦ ((r, log), gave_up e)
  | retry_auth ↦ (let (log', p) = handle_auth_failure e log in ((r, log'), p))
  | respect_server ↦
      (let (log', p) = handle_rate_limit e t.cancelled_waiting r log in ((r, log'), p))
  | retry_transient ↦ handle_transient_error t r log
]

-- One turn of the loop of `Run`.
unfoldable pub turn :
    Turn → ReconnectEngine → List Action → (ReconnectEngine × List Action) × Progress
turn t r log = if t.cancelled_before then ((r, log), cancelled) else (elim t.outcome [
  | dropped ↦ ((reset_backoff r, log), going)
  | failed e ↦ if t.cancelled_after then ((r, log), cancelled) else handle_connect_error t e r log
])

unfoldable pub run_turns :
    List Turn → ReconnectEngine → List Action → (ReconnectEngine × List Action) × Progress
run_turns [] r log = ((r, log), going)
run_turns (t ∷ ts) r log =
    let ((r', log'), p) = turn t r log in
    elim p [ going ↦ run_turns ts r' log' | q ↦ ((r', log'), q) ]

unfoldable pub run : List Turn → ReconnectEngine → (ReconnectEngine × List Action) × Progress
run ts r = run_turns ts (reset_backoff r) []
