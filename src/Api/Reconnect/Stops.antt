-- ===== src/Api/Reconnect/Stops.antt =====
-- internal/api/reconnect.go: which errors end the loop.
use mathlib.Core.Path.{subst}
use plexd.Base.{
  ℕ, ◌+◌, List, [], ◌∷◌, Bool, true, false, eqb, leb, ◌&&◌, if◌then◌else◌, arith, ◌≡◌, ◌⊎◌, inl,
  inr, refl, Bool-cases,
}
use plexd.Api.Errors.{matches_status, CallError, api_error, other_error}
use plexd.Api.Reconnect.{
  ReconnectEngine, Outcome, dropped, failed, Turn, PollTurn, Action, waited, polled, auth_failure,
  delay_of, jitter, reset_backoff, increment_interval, Progress, going, cancelled, gave_up,
  reconnected, polling, FailureAction, retry_transient, retry_auth, respect_server,
  permanent_failure, classify_error, wait, after_poll, poll_turn, run_polling_fallback,
  handle_auth_failure, handle_rate_limit, handle_transient_error, handle_connect_error, turn,
  run_turns, run, mark_failing,
}

-- An answer that the program cannot recover from: 401, 403 or 404.
abbrev pub IsFinal : CallError → Type 0
IsFinal other_error = ⊥
IsFinal (api_error e) = (e.status_code ≡ 401) ⊎ (e.status_code ≡ 403) ⊎ (e.status_code ≡ 404)

-- A loop that gives up does so with such an answer.
abbrev pub GivesUpFinally : Progress → Type 0
GivesUpFinally (gave_up e) = IsFinal e
GivesUpFinally _ = Unit

-- Just these answers are not tried again.
class_of_IsFinal :
    (e : CallError)
    → ((classify_error e ≡ retry_auth) ⊎ (classify_error e ≡ permanent_failure))
    → IsFinal e
unfolding classify_error matches_status
class_of_IsFinal other_error h = ground arith
class_of_IsFinal (api_error e) h = elim (Bool-cases (eqb e.status_code 401)) [
  | inl a ↦ inl (ground arith)
  | inr b ↦ elim (Bool-cases (eqb e.status_code 403)) [
    | inl c ↦ inr (inl (ground arith))
    | inr d ↦ elim (Bool-cases (eqb e.status_code 404)) [
      | inl f ↦ inr (inr (ground arith))
      | inr g ↦ absurd (ground arith)
    ]
  ]
]

after_poll-Final : (t : PollTurn) → GivesUpFinally (after_poll t)
unfolding after_poll
after_poll-Final t = go t.outcome t.cancelled_after
  where
    by_class :
        (e : CallError) (a : FailureAction)
        → classify_error e ≡ a
        → GivesUpFinally
            (elim a [ permanent_failure ↦ gave_up e | retry_auth ↦ gave_up e | _ ↦ going ])
    by_class e retry_transient h = tt
    by_class e respect_server h = tt
    by_class e retry_auth h = class_of_IsFinal e (inl h)
    by_class e permanent_failure h = class_of_IsFinal e (inr h)

    go :
        (o : Outcome) (c : Bool)
        → GivesUpFinally (elim o [
          | dropped ↦ reconnected
          | failed e ↦ if c then cancelled else (elim (classify_error e) [
            | permanent_failure ↦ gave_up e
            | retry_auth ↦ gave_up e
            | _ ↦ going
          ])
        ])
    go dropped c = tt
    go (failed e) true = tt
    go (failed e) false = by_class e (classify_error e) refl

poll_turn-Final : (i : ℕ) (t : PollTurn) (log : List Action) → GivesUpFinally (poll_turn i t log).1
unfolding poll_turn
poll_turn-Final i t log =
    go t.cancelled_before (t.poll_fails && t.cancelled_polling) t.cancelled_waiting
  where
    go :
        (a b c : Bool)
        → let x : List Action × Progress =
            (if a
              then (log, cancelled)
              else if b
              then (polled ∷ log, cancelled)
              else if c
              then (polled ∷ log, cancelled)
              else (waited i ∷ polled ∷ log, after_poll t)) in
          GivesUpFinally x.1
    go true b c = tt
    go false true c = tt
    go false false true = tt
    go false false false = after_poll-Final t

run_polling_fallback-Final :
    (i : ℕ) (ts : List PollTurn) (log : List Action)
    → GivesUpFinally (run_polling_fallback i ts log).1
unfolding run_polling_fallback
run_polling_fallback-Final i [] log = tt
run_polling_fallback-Final i (t ∷ ts) log =
    go (poll_turn i t log) (poll_turn-Final i t log)
      (run_polling_fallback-Final i ts (poll_turn i t log).0)
  where
    go :
        (out : List Action × Progress)
        → GivesUpFinally out.1
        → GivesUpFinally (run_polling_fallback i ts out.0).1
        → let x : List Action × Progress = elim out.1 [
          | going ↦ run_polling_fallback i ts out.0
          | q ↦ (out.0, q)
        ] in
          GivesUpFinally x.1
    go (l, going) h ih = ih
    go (l, cancelled) h ih = h
    go (l, gave_up e) h ih = h
    go (l, reconnected) h ih = h
    go (l, polling) h ih = h

transient-Final :
    (t : Turn) (r : ReconnectEngine) (log : List Action)
    → GivesUpFinally (handle_transient_error t r log).1
unfolding handle_transient_error wait
transient-Final t r log =
    go (leb (m.failing_since + m.polling_fallback) t.check_now) t.cancelled_waiting
  where
    m : ReconnectEngine
    m = mark_failing t.failed_now r

    after_polling :
        (out : List Action × Progress)
        → GivesUpFinally out.1
        → let x : (ReconnectEngine × List Action) × Progress = elim out.1 [
          | reconnected ↦ ((reset_backoff m, out.0), going)
          | q ↦ ((m, out.0), q)
        ] in
          GivesUpFinally x.1
    after_polling (l, going) h = tt
    after_polling (l, cancelled) h = tt
    after_polling (l, gave_up e) h = h
    after_polling (l, reconnected) h = tt
    after_polling (l, polling) h = tt

    go :
        (late interrupted : Bool)
        → let p : List Action × Progress =
            (if interrupted
              then (log, cancelled)
              else (waited (jitter m.current_interval t.rand) ∷ log, going)) in
          let x : (ReconnectEngine × List Action) × Progress =
            (if late
              then (let out = run_polling_fallback m.poll_interval t.polls log in
                  elim out.1 [
                    | reconnected ↦ ((reset_backoff m, out.0), going)
                    | q ↦ ((m, out.0), q)
                  ])
              else (elim p.1 [
                | going ↦ ((increment_interval m, p.0), going)
                | q ↦ ((m, p.0), q)
              ])) in
          GivesUpFinally x.1
    go true i =
        after_polling (run_polling_fallback m.poll_interval t.polls log)
          (run_polling_fallback-Final m.poll_interval t.polls log)
    go false true = tt
    go false false = tt

connect_error-Final :
    (t : Turn) (e : CallError) (r : ReconnectEngine) (log : List Action)
    → GivesUpFinally (handle_connect_error t e r log).1
unfolding handle_connect_error handle_auth_failure handle_rate_limit wait
connect_error-Final t e r log = go (classify_error e) refl t.cancelled_waiting
  where
    go :
        (a : FailureAction)
        → classify_error e ≡ a
        → (interrupted : Bool)
        → let p : List Action × Progress =
            (if interrupted
              then (log, cancelled)
              else (waited (delay_of e r.current_interval) ∷ log, going)) in
          let x : (ReconnectEngine × List Action) × Progress = elim a [
            | permanent_failure ↦ ((r, log), gave_up e)
            | retry_auth ↦ ((r, auth_failure ∷ log), gave_up e)
            | respect_server ↦ ((r, p.0), p.1)
            | retry_transient ↦ handle_transient_error t r log
          ] in
          GivesUpFinally x.1
    go retry_transient h i = transient-Final t r log
    go retry_auth h i = class_of_IsFinal e (inl h)
    go respect_server h true = tt
    go respect_server h false = tt
    go permanent_failure h i = class_of_IsFinal e (inr h)

turn-Final : (t : Turn) (r : ReconnectEngine) (log : List Action) → GivesUpFinally (turn t r log).1
unfolding turn
turn-Final t r log = go t.cancelled_before t.outcome t.cancelled_after
  where
    go :
        (a : Bool) (o : Outcome) (c : Bool)
        → let x : (ReconnectEngine × List Action) × Progress =
            (if a then ((r, log), cancelled) else (elim o [
              | dropped ↦ ((reset_backoff r, log), going)
              | failed e ↦ if c then ((r, log), cancelled) else handle_connect_error t e r log
            ])) in
          GivesUpFinally x.1
    go true o c = tt
    go false dropped c = tt
    go false (failed e) true = tt
    go false (failed e) false = connect_error-Final t e r log

run_turns-Final :
    (ts : List Turn) (r : ReconnectEngine) (log : List Action)
    → GivesUpFinally (run_turns ts r log).1
unfolding run_turns
run_turns-Final [] r log = tt
run_turns-Final (t ∷ ts) r log =
    go (turn t r log) (turn-Final t r log)
      (run_turns-Final ts (turn t r log).0.0 (turn t r log).0.1)
  where
    go :
        (out : (ReconnectEngine × List Action) × Progress)
        → GivesUpFinally out.1
        → GivesUpFinally (run_turns ts out.0.0 out.0.1).1
        → let x : (ReconnectEngine × List Action) × Progress = elim out.1 [
          | going ↦ run_turns ts out.0.0 out.0.1
          | q ↦ ((out.0.0, out.0.1), q)
        ] in
          GivesUpFinally x.1
    go (s, going) h ih = ih
    go (s, cancelled) h ih = tt
    go (s, gave_up e) h ih = h
    go (s, reconnected) h ih = tt
    go (s, polling) h ih = tt

-- The engine only gives up with a 401, 403 or 404 answer: whatever the connections, the polls and the
-- clock do, any other error is tried again.
pub gives_up_finally :
    (ts : List Turn) (r : ReconnectEngine) (e : CallError) → (run ts r).1 ≡ gave_up e → IsFinal e
unfolding run
gives_up_finally ts r e h = subst GivesUpFinally h (run_turns-Final ts (reset_backoff r) [])
