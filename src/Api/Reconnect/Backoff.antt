-- ===== src/Api/Reconnect/Backoff.antt =====
-- internal/api/reconnect.go: how long the engine waits, and when it polls.
use plexd.Base.{
  ℕ, zero, suc, ◌+◌, ◌*◌, ◌≤◌, ◌<◌, List, [], ◌∷◌, ◌++◌, false, ltb, if◌then◌else◌, All, length,
  arith, ◌≡◌, ◌≢◌, refl, ap, ◌∙◌, inl, inr, Bool-cases,
}
use plexd.Api.Errors.{CallError}
use plexd.Api.Reconnect.{
  ReconnectEngine, failed, Turn, PollTurn, Action, waited, polled, Progress, going, cancelled,
  gave_up, reconnected, polling, retry_transient, classify_error, rand_range, jitter, reset_backoff,
  increment_interval, mark_failing, wait, run_polling_fallback, poll_turn, handle_transient_error,
  handle_connect_error, turn, run_turns, run,
}

-- Doubled so many times, and never above a bound.
abbrev pub doubled : ℕ → ℕ → ℕ
doubled zero d = d
doubled (suc n) d = doubled n (d * 2)

abbrev pub at_most : ℕ → ℕ → ℕ
at_most a b = if ltb a b then a else b

doubled_mono : (n a b : ℕ) → a ≤ b → doubled n a ≤ doubled n b
doubled_mono zero a b h = h
doubled_mono (suc n) a b h = doubled_mono n (a * 2) (b * 2) (omega arith)

doubled-ge : (n a : ℕ) → a ≤ doubled n a
doubled-ge zero a = omega arith
doubled-ge (suc n) a = omega (arith, doubled-ge n (a * 2))

-- Capping before the doublings does not change what is capped after them.
doubled-capped : (n a m : ℕ) → at_most (doubled n (at_most a m)) m ≡ at_most (doubled n a) m
doubled-capped n a m = elim (Bool-cases (ltb a m)) [
  | inl below ↦ rw below refl
  | inr above ↦ rw above (ground (arith, doubled-ge n m, doubled-ge n a))
]

-- A turn that fails with a transient error before the limit is reached.
pub record BacksOff (limit : ℕ) (t : Turn) : Type 0 where
  pub error : CallError
  pub starts : t.cancelled_before ≡ false
  pub fails : t.outcome ≡ failed error
  pub lives : t.cancelled_after ≡ false
  pub transient : classify_error error ≡ retry_transient
  pub early : t.check_now < limit
  pub waits : t.cancelled_waiting ≡ false

-- What such a turn makes of an engine.
backs_off :
    (t : Turn) (r : ReconnectEngine) (log : List Action)
    → BacksOff ((mark_failing t.failed_now r).failing_since + r.polling_fallback) t
    → turn t r log ≡ (
      (
        increment_interval (mark_failing t.failed_now r),
        waited (jitter r.current_interval t.rand) ∷ log,
      ),
      going,
    )
unfolding turn handle_connect_error handle_transient_error mark_failing wait
backs_off t r log b = ground arith

marked_before : (now : ℕ) (r : ReconnectEngine) → r.failing_since ≢ 0 → mark_failing now r ≡ r
unfolding mark_failing
marked_before now r failing = ground arith

-- The same for an engine that has been failing.
BacksOff-again :
    (t : Turn) (r : ReconnectEngine) (log : List Action)
    → r.failing_since ≢ 0
    → BacksOff (r.failing_since + r.polling_fallback) t
    → turn t r log
      ≡ ((increment_interval r, waited (jitter r.current_interval t.rand) ∷ log), going)
BacksOff-again t r log failing b =
    let marked = marked_before t.failed_now r failing in
    backs_off t r log (rw marked b) ∙ rw marked refl

runs_on :
    (t : Turn) (ts : List Turn) (r r' : ReconnectEngine) (log log' : List Action)
    → turn t r log ≡ ((r', log'), going)
    → run_turns (t ∷ ts) r log ≡ run_turns ts r' log'
unfolding run_turns
runs_on t ts r r' log log' e = ap then_run e
  where
    then_run :
        (ReconnectEngine × List Action) × Progress → (ReconnectEngine × List Action) × Progress
    then_run x = elim x.1 [ going ↦ run_turns ts x.0.0 x.0.1 | q ↦ ((x.0.0, x.0.1), q) ]

-- The turns of an engine that fails since `since`.
fails_on :
    (ts : List Turn) (r : ReconnectEngine) (log : List Action)
    → r.failing_since ≢ 0
    → All (BacksOff (r.failing_since + r.polling_fallback)) ts
    → r.current_interval ≤ r.max_interval
    → ((run_turns ts r log).1 ≡ going)
      × ((run_turns ts r log).0.0.current_interval
          ≡ at_most (doubled (length ts) r.current_interval) r.max_interval)
unfolding run_turns increment_interval
fails_on [] r log failing all small = (refl, ground arith)
fails_on (t ∷ ts) r log failing all small =
    let next = increment_interval r in
    let log' = waited (jitter r.current_interval t.rand) ∷ log in
    let ih = fails_on ts next log' failing all.1 (ground arith) in
    rw (runs_on t ts r next log log' (BacksOff-again t r log failing all.0))
      (ih.0, ih.1 ∙ doubled-capped (length ts) (r.current_interval * 2) r.max_interval)

-- While every connection fails with a transient error, nothing is cancelled and the polling fallback
-- is not reached, counted from the first failure, the engine goes on, and after n failures its
-- interval is the base interval doubled n times, or the maximum if that is less, if the base interval
-- is not above the maximum and the clock does not read the zero time at the first failure.
pub backed_off :
    (t : Turn) (ts : List Turn) (r : ReconnectEngine)
    → t.failed_now ≢ 0
    → All (BacksOff (t.failed_now + r.polling_fallback)) (t ∷ ts)
    → r.base_interval ≤ r.max_interval
    → ((run (t ∷ ts) r).1 ≡ going)
      × ((run (t ∷ ts) r).0.0.current_interval
          ≡ at_most (doubled (length (t ∷ ts)) r.base_interval) r.max_interval)
unfolding run reset_backoff increment_interval mark_failing
backed_off t ts r started all small =
    let r₀ = reset_backoff r in
    let first = record r₀ { failing_since = t.failed_now } in
    let next = increment_interval first in
    let log' = waited (jitter r.base_interval t.rand) ∷ [] in
    let ih = fails_on ts next log' started all.1 (ground arith) in
    rw (runs_on t ts r₀ next [] log' (backs_off t r₀ [] all.0))
      (ih.0, ih.1 ∙ doubled-capped (length ts) (r.base_interval * 2) r.max_interval)

scaled : (d k : ℕ) → k < rand_range → d * (3 * rand_range + 2 * k) ≤ d * (5 * rand_range)
scaled zero k h = omega arith
scaled (suc d) k h = omega (arith, scaled d k h)

scaled_up : (d k : ℕ) → d * (3 * rand_range) ≤ d * (3 * rand_range + 2 * k)
scaled_up zero k = omega arith
scaled_up (suc d) k = omega (arith, scaled_up d k)

-- The jitter stays within a quarter of the interval, above and below.
pub jitter_bounds :
    (d k : ℕ) → k < rand_range → (3 * d ≤ 4 * jitter d k + 3) × (4 * jitter d k ≤ 5 * d)
unfolding jitter
jitter_bounds d k h = grind (arith, scaled d k h, scaled_up d k)

-- How often the engine has polled.
abbrev pub polls : List Action → ℕ
polls [] = 0
polls (polled ∷ log) = suc (polls log)
polls (a ∷ log) = polls log

polls-poll_turn :
    (i : ℕ) (p : PollTurn) (log : List Action) → polls log ≤ polls (poll_turn i p log).0
unfolding poll_turn
polls-poll_turn i p log = ground arith

polls-run_polling_fallback :
    (i : ℕ) (ps : List PollTurn) (log : List Action)
    → polls log ≤ polls (run_polling_fallback i ps log).0
unfolding run_polling_fallback
polls-run_polling_fallback i [] log = omega arith
polls-run_polling_fallback i (p ∷ ps) log =
    let out = poll_turn i p log in
    ground (arith, polls-poll_turn i p log, polls-run_polling_fallback i ps out.0)

polls_first :
    (i : ℕ) (p : PollTurn) (ps : List PollTurn) (log : List Action)
    → p.cancelled_before ≡ false
    → polls log < polls (run_polling_fallback i (p ∷ ps) log).0
unfolding run_polling_fallback
polls_first i p ps log starts =
    let out = poll_turn i p log in
    ground (arith, first starts, polls-run_polling_fallback i ps out.0)
  where
    first : p.cancelled_before ≡ false → polls log < polls (poll_turn i p log).0
    first s = unfold poll_turn in ground arith

-- A turn whose connection ends with a transient error at a time, and that is not cancelled until the first
-- poll of its polling fallback.
pub record FailsLate (limit : ℕ) (t : Turn) : Type 0 where
  pub error : CallError
  pub starts : t.cancelled_before ≡ false
  pub fails : t.outcome ≡ failed error
  pub lives : t.cancelled_after ≡ false
  pub transient : classify_error error ≡ retry_transient
  pub late : limit ≤ t.check_now
  pub poll : PollTurn
  pub more : List PollTurn
  pub polls_of : t.polls ≡ poll ∷ more
  pub poll_starts : poll.cancelled_before ≡ false

polls-turn :
    (t : Turn) (r : ReconnectEngine) (log : List Action)
    → r.failing_since ≢ 0
    → FailsLate (r.failing_since + r.polling_fallback) t
    → polls log < polls (turn t r log).0.1
unfolding turn handle_connect_error handle_transient_error mark_failing
polls-turn t r log failing f = ground (
  arith,
  f.starts,
  f.fails,
  f.lives,
  f.transient,
  f.late,
  f.polls_of,
  polls_first r.poll_interval f.poll f.more log f.poll_starts,
)

-- What a run of one turn has done is what the turn has done.
log-run_turns :
    (t : Turn) (r : ReconnectEngine) (log : List Action)
    → (run_turns (t ∷ []) r log).0.1 ≡ (turn t r log).0.1
unfolding run_turns
log-run_turns t r log = go (turn t r log)
  where
    go :
        (x : (ReconnectEngine × List Action) × Progress)
        → let y : (ReconnectEngine × List Action) × Progress = (elim x.1 [
          | going ↦ run_turns [] x.0.0 x.0.1
          | q ↦ ((x.0.0, x.0.1), q)
        ]) in
          y.0.1 ≡ x.0.1
    go ((r', l), going) = refl
    go ((r', l), cancelled) = refl
    go ((r', l), gave_up e) = refl
    go ((r', l), reconnected) = refl
    go ((r', l), polling) = refl

polls-run_turns :
    (ts : List Turn) (u : Turn) (r : ReconnectEngine) (log : List Action)
    → r.failing_since ≢ 0
    → All (BacksOff (r.failing_since + r.polling_fallback)) ts
    → FailsLate (r.failing_since + r.polling_fallback) u
    → polls log < polls (run_turns (ts ++ u ∷ []) r log).0.1
unfolding increment_interval
polls-run_turns [] u r log failing all late =
    rw (log-run_turns u r log) (polls-turn u r log failing late)
polls-run_turns (t ∷ ts) u r log failing all late =
    let next = increment_interval r in
    let log' = waited (jitter r.current_interval t.rand) ∷ log in
    rw (runs_on t (ts ++ u ∷ []) r next log log' (BacksOff-again t r log failing all.0))
      (polls-run_turns ts u next log' failing all.1 late)

-- An engine polls once a connection ends with a transient error as late as the polling fallback after the
-- first failure of its run, if every connection until then has ended with a transient error before
-- that time and nothing is cancelled: the time of the first failure counts, also when the later
-- connections were up for long before they ended.
pub old_failure_polls :
    (t : Turn) (ts : List Turn) (u : Turn) (r : ReconnectEngine)
    → t.failed_now ≢ 0
    → All (BacksOff (t.failed_now + r.polling_fallback)) (t ∷ ts)
    → FailsLate (t.failed_now + r.polling_fallback) u
    → 0 < polls (run (t ∷ ts ++ u ∷ []) r).0.1
unfolding run reset_backoff increment_interval mark_failing
old_failure_polls t ts u r started all late =
    let r₀ = reset_backoff r in
    let next = increment_interval (record r₀ { failing_since = t.failed_now }) in
    let log' = waited (jitter r.base_interval t.rand) ∷ [] in
    rw (runs_on t (ts ++ u ∷ []) r₀ next [] log' (backs_off t r₀ [] all.0))
      (polls-run_turns ts u next log' started all.1 late)
