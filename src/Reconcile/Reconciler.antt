-- ===== src/Reconcile/Reconciler.antt =====
-- internal/reconcile/reconciler.go: one cycle of the loop, over an abstract world that the client and
-- the handlers act on.
pub mod Cycle
mod Tests
use plexd.Base.{
  ℕ, String, List, [], ◌∷◌, ◌++◌, Bool, true, false, ◌||◌, Option, none, some, if◌then◌else◌,
}
use plexd.Api.Types.{StateResponse, DriftReport}
use plexd.Reconcile.Diff.{StateDiff, is_empty, compute_diff}
use plexd.Reconcile.Drift.{build_drift_report}
use plexd.Reconcile.Snapshot.{StateSnapshot, get, update, new_state_snapshot}

-- What `FetchState` gives: an error, or a pointer, which may be nil.
pub data FetchResult : Type 0 where
  fetch_failed : FetchResult
  fetched : Option StateResponse → FetchResult

pub data HandlerResult : Type 0 where
  returned_nil returned_error panicked : HandlerResult

-- The client, the clock and the world they act on. The Go interface is StateFetcher.
pub record Client (W : Type 0) : Type 0 where
  pub fetch_state : W → W × FetchResult
  pub report_drift : W → DriftReport → W × Bool
  pub now : W → ℕ

abbrev pub Handler : Type 0 → Type 0
Handler W = W → StateResponse → StateDiff → W × HandlerResult

pub record Reconciler (W : Type 0) : Type 0 where
  pub snapshot : StateSnapshot
  pub handlers : List (Handler W)
  -- A trigger waits in the channel, which holds one.
  pub triggered : Bool

-- A wake-up of the loop of `Run`: the ticker, or the trigger, which it takes from the channel.
pub data Wake : Type 0 where
  tick trigger : Wake

module _ {W : Type 0} where
  unfoldable pub register_handler : Reconciler W → Handler W → Reconciler W
  register_handler r h = record r { handlers = r.handlers ++ h ∷ [] }

  unfoldable pub trigger_reconcile : Reconciler W → Reconciler W
  trigger_reconcile r = if r.triggered then r else record r { triggered = true }

  -- `safeInvoke`: a panic is recovered and becomes an error. `true` is an error.
  unfoldable pub safe_invoke : Handler W → W → StateResponse → StateDiff → W × Bool
  safe_invoke h w desired diff =
      let (w', res) = h w desired diff in
      (w', elim res [ returned_nil ↦ false | returned_error ↦ true | panicked ↦ true ])

  unfoldable pub invoke_handlers :
      List (Handler W) → W → StateResponse → StateDiff → Bool → W × Bool
  invoke_handlers [] w desired diff failed = (w, failed)
  invoke_handlers (h ∷ hs) w desired diff failed =
      let (w', err) = safe_invoke h w desired diff in
      invoke_handlers hs w' desired diff (if err then true else failed)

  module _ (client : Client W) where
    open client use {fetch_state, report_drift, now}

    -- The part of `runCycle` after a diff that is not empty.
    unfoldable pub correct : Reconciler W → W → StateResponse → StateDiff → Reconciler W × W
    correct r w desired diff =
        let (w₁, handler_failed) = invoke_handlers r.handlers w desired diff false in
        let (w₂, _) = report_drift w₁ (build_drift_report diff (now w₁)) in
        (if handler_failed then r else record r { snapshot = update r.snapshot desired }, w₂)

    unfoldable pub after_fetch : Reconciler W → W → FetchResult → Reconciler W × W
    after_fetch r w fetch_failed = (r, w)
    after_fetch r w (fetched none) = (r, w)
    after_fetch r w (fetched (some desired)) =
        let diff = compute_diff (some desired) (some (get r.snapshot)) in
        if is_empty diff then (r, w) else correct r w desired diff

    unfoldable pub run_cycle : Reconciler W → W → Reconciler W × W
    run_cycle r w = let (w₁, res) = fetch_state w in after_fetch r w₁ res

    unfoldable pub wake : Wake → Reconciler W → W → Reconciler W × W
    wake tick r w = run_cycle r w
    wake trigger r w = if r.triggered then run_cycle (record r { triggered = false }) w else (r, w)
