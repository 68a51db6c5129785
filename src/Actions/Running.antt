-- ===== src/Actions/Running.antt =====
-- internal/actions/executor.go and handler.go: the calls of Execute and Shutdown, and the goroutines
-- of the actions, as steps. Execute releases its lock before it acknowledges the request and counts
-- the goroutine, so other steps come between.
pub mod Counts
pub mod Accounts
pub mod Late
use plexd.Base.{
  ℕ, String, List, [], ◌∷◌, ◌++◌, Bool, true, false, not, ◌==◌, Option, none, some, if◌then◌else◌,
  ◌≡◌,
}
use plexd.Actions.{
  Config, ActionRequest, Executor, new_executor, register_builtin, set_hooks, admit, begin_shutdown,
  release,
}

pub data Ack : Type 0 where
  accepted : String → Ack
  rejected : String → String → Ack

-- The requests that were admitted and whose goroutines are not counted yet, those of the goroutines
-- that the wait group counts, the acknowledgements, and the ids of the results, the latest first.
pub record World : Type 0 where
  pub executor : Executor
  pub admitted : List ActionRequest
  pub running : List ActionRequest
  pub acks : List Ack
  pub results : List String

unfoldable pub start : Config → World
start cfg = record {
  executor = new_executor cfg;
  admitted = [];
  running = [];
  acks = [];
  results = [];
}

-- `Execute` up to the unlocking, with the rejection.
unfoldable pub execute : ActionRequest → World → World
execute req w =
    let (e, reason) = admit req w.executor in
    elim reason [
      | some r ↦ record w { executor = e; acks = rejected req.execution_id r ∷ w.acks }
      | none ↦ record w { executor = e; admitted = req ∷ w.admitted }
    ]

-- The rest of `Execute`; `before` and `after` are the others that are admitted.
unfoldable pub launch : List ActionRequest → ActionRequest → List ActionRequest → World → World
launch before req after w = record w {
  admitted = before ++ after;
  running = req ∷ w.running;
  acks = accepted req.execution_id ∷ w.acks;
}

-- The end of `runAction`, which reports a result also after a panic.
unfoldable pub finish : List ActionRequest → ActionRequest → List ActionRequest → World → World
finish before req after w = record w {
  executor = release req.execution_id w.executor;
  running = before ++ after;
  results = req.execution_id ∷ w.results;
}

unfoldable pub shut_down : World → World
shut_down w = record w { executor = begin_shutdown w.executor }

-- The handler of an event: the request, or `none` if the payload cannot be parsed; the result is
-- whether the handler reports an error.
unfoldable pub handle_action_request : Option ActionRequest → World → World × Bool
handle_action_request none w = (w, true)
handle_action_request (some req) w =
    if req.execution_id == ""
    then (w, true)
    else if not w.executor.cfg.enabled
    then (record w { acks = rejected req.execution_id "actions_disabled" ∷ w.acks }, false)
    else (execute req w, false)

pub data Step : World → World → Type 0 where
  handles :
      (payload : Option ActionRequest) (w : World) → Step w (handle_action_request payload w).0
  launches :
      (before after : List ActionRequest) (req : ActionRequest) (w : World)
      → w.admitted ≡ before ++ req ∷ after
      → Step w (launch before req after w)
  finishes :
      (before after : List ActionRequest) (req : ActionRequest) (w : World)
      → w.running ≡ before ++ req ∷ after
      → Step w (finish before req after w)
  shuts_down : (w : World) → Step w (shut_down w)
  registers :
      (name : String) (w : World)
      → Step w (record w { executor = register_builtin name w.executor })
  discovers :
      (hooks : List String) (w : World)
      → Step w (record w { executor = set_hooks hooks w.executor })

pub data Reachable (cfg : Config) : World → Type 0 where
  starts : Reachable cfg (start cfg)
  goes_on : {w w' : World} → Reachable cfg w → Step w w' → Reachable cfg w'
