-- ===== src/Actions/Running/Accounts.antt =====
-- internal/actions/executor.go: which executions are active, running, and reported.
use mathlib.Core.Path.{subst}
use plexd.Base.{
  one_if, ℕ, ◌+◌, ◌≤◌, String, List, ◌∷◌, ◌++◌, Bool, true, false, not, ◌&&◌, ◌==◌, Option, none,
  some, if◌then◌else◌, length, contains, arith, ◌≡◌, ◌≢◌, ◌⊎◌, inl, inr, refl, sym, ap, ◌∙◌,
  String-cases,
}
use plexd.Base.Int.{ℤ, pos, leb_ℤ}
use plexd.Base.GoMap.{
  has, find, store, find-delete, has-store, has-delete, length-store_new, length-delete-le,
}
use plexd.Actions.{
  Config, ActionRequest, Executor, new_executor, register_builtin, set_hooks, admit, begin_shutdown,
  release,
}
use plexd.Actions.Running.{
  rejected, World, start, execute, launch, finish, shut_down, handle_action_request, Step, handles,
  launches, finishes, shuts_down, registers, discovers, Reachable, starts, goes_on,
}
use plexd.Actions.Running.Counts.{
  requests_of, results_of, accepted_as, requests_of-split, has-cancel_all, find-cancel_all,
  length-cancel_all,
}

pub record IsAccounted (w : World) : Type 0 where
  -- An id is active exactly while one request of it is admitted or running.
  pub active_once :
      (id : String)
      → one_if (has id w.executor.active) ≡ requests_of id w.admitted + requests_of id w.running
  -- Each accepted execution runs, or has its result.
  pub answered :
      (id : String) → accepted_as id w.acks ≡ requests_of id w.running + results_of id w.results
  pub bounded : (n : ℕ) → w.executor.cfg.max_concurrent ≡ pos n → length w.executor.active ≤ n
  -- After a shutdown each active execution is cancelled.
  pub all_cancelled :
      w.executor.shutting_down ≡ true → (id : String) → find id w.executor.active ≢ some false

admit-cases :
    (req : ActionRequest) (e : Executor)
    → ((r : String) × (admit req e ≡ (e, some r)))
      ⊎ ((e.shutting_down ≡ false)
          × (has req.execution_id e.active ≡ false)
          × (leb_ℤ e.cfg.max_concurrent (length e.active) ≡ false)
          × (admit req e ≡ (record e { active = store req.execution_id false e.active }, none)))
unfolding admit
admit-cases req e =
    go e.shutting_down (has req.execution_id e.active)
      (leb_ℤ e.cfg.max_concurrent (length e.active))
      (not (contains req.action e.builtins) && not (contains req.action e.hooks)) refl refl refl
  where
    go :
        (a b c d : Bool)
        → e.shutting_down ≡ a
        → has req.execution_id e.active ≡ b
        → leb_ℤ e.cfg.max_concurrent (length e.active) ≡ c
        → let x : Executor × Option String =
            (if a
              then (e, some "shutting_down")
              else if b
              then (e, some "duplicate_execution_id")
              else if c
              then (e, some "max_concurrent_reached")
              else if d
              then (e, some "unknown_action")
              else (record e { active = store req.execution_id false e.active }, none)) in
          ((r : String) × (x ≡ (e, some r)))
          ⊎ ((e.shutting_down ≡ false)
              × (has req.execution_id e.active ≡ false)
              × (leb_ℤ e.cfg.max_concurrent (length e.active) ≡ false)
              × (x ≡ (record e { active = store req.execution_id false e.active }, none)))
    go true b c d ea eb ec = inl ("shutting_down", refl)
    go false true c d ea eb ec = inl ("duplicate_execution_id", refl)
    go false false true d ea eb ec = inl ("max_concurrent_reached", refl)
    go false false false true ea eb ec = inl ("unknown_action", refl)
    go false false false false ea eb ec = inr (ea, eb, ec, refl)

-- `execute` once the lock is released.
abbrev pub after_admit : ActionRequest → World → Executor × Option String → World
after_admit req w (e, some r) = record w {
  executor = e;
  acks = rejected req.execution_id r ∷ w.acks;
}
after_admit req w (e, none) = record w { executor = e; admitted = req ∷ w.admitted }

pub execute-after_admit :
    (req : ActionRequest) (w : World) → execute req w ≡ after_admit req w (admit req w.executor)
unfolding execute
execute-after_admit req w = go (admit req w.executor)
  where
    go :
        (x : Executor × Option String)
        → (elim x.1 [
          | some r ↦ record w { executor = x.0; acks = rejected req.execution_id r ∷ w.acks }
          | none ↦ record w { executor = x.0; admitted = req ∷ w.admitted }
        ])
          ≡ after_admit req w x
    go (e, some r) = refl
    go (e, none) = refl

IsAccounted-after :
    (req : ActionRequest) (w : World) (x : Executor × Option String)
    → admit req w.executor ≡ x
    → IsAccounted (after_admit req w x)
    → IsAccounted (execute req w)
IsAccounted-after req w x e s =
    subst IsAccounted (sym (execute-after_admit req w ∙ ap (after_admit req w) e)) s

execute-IsAccounted :
    (req : ActionRequest) (w : World) → IsAccounted w → IsAccounted (execute req w)
unfolding requests_of accepted_as
execute-IsAccounted req w s = elim (admit-cases req w.executor) [
  | inl (r, e) ↦ IsAccounted-after req w _ e record {
    active_once = s.active_once;
    answered = s.answered;
    bounded = s.bounded;
    all_cancelled = s.all_cancelled;
  }
  | inr (up, new, room, e) ↦ IsAccounted-after req w _ e record {
    active_once = λ id. ground (
      arith,
      has-store req.execution_id id false w.executor.active,
      s.active_once id,
      String-cases req.execution_id id,
      ap (λ (k : String). has k w.executor.active),
    );
    answered = s.answered;
    bounded = λ n eq. ground (
      arith,
      length-store_new req.execution_id false w.executor.active,
      ap (λ (m : ℤ). leb_ℤ m (length w.executor.active)) eq,
    );
    all_cancelled = λ down. absurd (ground arith);
  }
]

launch-IsAccounted :
    (before after : List ActionRequest) (req : ActionRequest) (w : World)
    → w.admitted ≡ before ++ req ∷ after
    → IsAccounted w
    → IsAccounted (launch before req after w)
unfolding launch requests_of accepted_as
launch-IsAccounted before after req w e s = record {
  active_once = λ id.
      omega (arith, s.active_once id, requests_of-split id before after req, ap (requests_of id) e);
  answered = λ id. omega (arith, s.answered id);
  bounded = s.bounded;
  all_cancelled = s.all_cancelled;
}

finish-IsAccounted :
    (before after : List ActionRequest) (req : ActionRequest) (w : World)
    → w.running ≡ before ++ req ∷ after
    → IsAccounted w
    → IsAccounted (finish before req after w)
unfolding finish release results_of
finish-IsAccounted before after req w e s = record {
  active_once = λ id. ground (
    arith,
    has-delete req.execution_id id w.executor.active,
    s.active_once id,
    requests_of-split id before after req,
    ap (requests_of id) e,
  );
  answered = λ id.
      omega (arith, s.answered id, requests_of-split id before after req, ap (requests_of id) e);
  bounded =
      λ n eq. omega (arith, length-delete-le req.execution_id w.executor.active, s.bounded n eq);
  all_cancelled = λ down id found.
      s.all_cancelled down id
        (ground (arith, find-delete req.execution_id id w.executor.active, found));
}

shut_down-IsAccounted : (w : World) → IsAccounted w → IsAccounted (shut_down w)
unfolding shut_down begin_shutdown
shut_down-IsAccounted w s = record {
  active_once = λ id. rw (has-cancel_all id w.executor.active) (s.active_once id);
  answered = s.answered;
  bounded = λ n eq. rw (length-cancel_all w.executor.active) (s.bounded n eq);
  all_cancelled = λ down id. find-cancel_all id w.executor.active;
}

handle-IsAccounted :
    (payload : Option ActionRequest) (w : World)
    → IsAccounted w
    → IsAccounted (handle_action_request payload w).0
unfolding handle_action_request accepted_as
handle-IsAccounted none w s = s
handle-IsAccounted (some req) w s = go (req.execution_id == "") (not w.executor.cfg.enabled)
  where
    go :
        (missing disabled : Bool)
        → let x : World × Bool =
            (if missing
              then (w, true)
              else if disabled
              then (
                record w { acks = rejected req.execution_id "actions_disabled" ∷ w.acks },
                false,
              )
              else (execute req w, false)) in
          IsAccounted x.0
    go true disabled = s
    go false true = record {
      active_once = s.active_once;
      answered = s.answered;
      bounded = s.bounded;
      all_cancelled = s.all_cancelled;
    }
    go false false = execute-IsAccounted req w s

Step-IsAccounted : {w w' : World} → Step w w' → IsAccounted w → IsAccounted w'
unfolding register_builtin set_hooks
Step-IsAccounted (handles payload w) s = handle-IsAccounted payload w s
Step-IsAccounted (launches before after req w e) s = launch-IsAccounted before after req w e s
Step-IsAccounted (finishes before after req w e) s = finish-IsAccounted before after req w e s
Step-IsAccounted (shuts_down w) s = shut_down-IsAccounted w s
Step-IsAccounted (registers name w) s = record {
  active_once = s.active_once;
  answered = s.answered;
  bounded = s.bounded;
  all_cancelled = s.all_cancelled;
}
Step-IsAccounted (discovers hooks w) s = record {
  active_once = s.active_once;
  answered = s.answered;
  bounded = s.bounded;
  all_cancelled = s.all_cancelled;
}

-- Whatever calls of the handler, of Shutdown and of the registrations, and whatever parts of the
-- actions follow each other on a new executor: an execution id is active exactly while one request of
-- it is admitted or running; each accepted execution is running or has a result, as often as it was
-- accepted; no more executions are active than the configured maximum; and once Shutdown was called
-- each active execution is cancelled.
pub Reachable-IsAccounted : (cfg : Config) (w : World) → Reachable cfg w → IsAccounted w
unfolding start new_executor requests_of results_of accepted_as has find
Reachable-IsAccounted cfg w starts = record {
  active_once = λ id. refl;
  answered = λ id. refl;
  bounded = λ n eq. omega arith;
  all_cancelled = λ down. absurd cc;
}
Reachable-IsAccounted cfg w (goes_on r step) = Step-IsAccounted step (Reachable-IsAccounted cfg _ r)
