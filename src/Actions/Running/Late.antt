-- ===== src/Actions/Running/Late.antt =====
-- internal/actions/executor.go: Shutdown between the two parts of Execute.
use plexd.Base.{String, [], ◌∷◌, true, Option, none, some, ◌≡◌, refl, ap, ◌∙◌}
use plexd.Actions.{ActionRequest, Executor, admit, begin_shutdown}
use plexd.Actions.Running.{World, execute, launch, shut_down, Step, launches}
use plexd.Actions.Running.Accounts.{after_admit, execute-after_admit}

executed_admitted :
    (req : ActionRequest) (w : World)
    → (admit req w.executor).1 ≡ none
    → ((execute req w).admitted ≡ req ∷ w.admitted) × ((execute req w).running ≡ w.running)
executed_admitted req w ok = rw (execute-after_admit req w) (go (admit req w.executor) ok)
  where
    go :
        (x : Executor × Option String)
        → x.1 ≡ none
        → ((after_admit req w x).admitted ≡ req ∷ w.admitted)
          × ((after_admit req w x).running ≡ w.running)
    go (e, none) ok = (refl, refl)
    go (e, some r) ok = absurd cc

-- If Shutdown is called between the admission of a request and the counting of its goroutine, while
-- no other action runs, then the wait group counts nothing, so that Shutdown returns, and the action
-- is started afterwards.
pub admitted_outlives_shutdown :
    (req : ActionRequest) (w : World)
    → w.running ≡ []
    → (admit req w.executor).1 ≡ none
    → let stopped = shut_down (execute req w) in
      let later = launch [] req w.admitted stopped in
      (stopped.running ≡ [])
      × Step stopped later
      × (stopped.executor.shutting_down ≡ true)
      × (later.running ≡ req ∷ [])
unfolding launch shut_down begin_shutdown
admitted_outlives_shutdown req w idle ok =
    let (pending, runs) = executed_admitted req w ok in
    let same = runs ∙ idle in (same, launches [] w.admitted req _ pending, refl, ap (◌∷◌ req) same)
