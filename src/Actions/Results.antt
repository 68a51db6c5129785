-- ===== src/Actions/Results.antt =====
-- internal/actions/executor.go: runAction, from its timeout to the result that it reports.
use plexd.Base.{
  ℕ, String, List, [], ◌∷◌, Bool, true, false, not, ◌&&◌, ◌==◌, Option, if◌then◌else◌, contains,
  ◌≡◌, refl,
}
use plexd.Base.Int.{ℤ, pos}
use plexd.Integrity.{Verifier}
use plexd.Actions.{Config, ActionRequest, ContextError, determine_status, timeout_of}
use plexd.Actions.Hooks.{Process, HookFile, Ran, is_started, run_hook, has_hash, run_hook-started}
use plexd.Actions.Hooks.Names.{is_hook_name}

-- What a built-in action does: it returns, or panics, with the text that is reported.
pub data Outcome : Type 0 where
  returned : Ran → Outcome
  panicked : List ℕ → Outcome

-- What a run depends on: the library's filepath.Join and time.ParseDuration, the built-in action and
-- the process under a timeout, the file of the hook, and the errors of the two contexts afterwards.
pub record Surroundings : Type 0 where
  pub join : String → String → String
  pub parse_duration : String → Option ℤ
  pub builtin : ℤ → Outcome
  pub process : ℤ → Process
  pub file : HookFile
  pub timed : Option ContextError
  pub parent : Option ContextError

pub record ExecutionResult : Type 0 where
  pub execution_id : String
  pub status : String
  pub exit_code : ℤ
  pub stdout : List ℕ
  pub stderr : List ℕ

-- The result after a return, and the one that the recovery from a panic reports.
unfoldable pub result_of : ActionRequest → Surroundings → Ran → ExecutionResult
result_of req x ran = record {
  execution_id = req.execution_id;
  status = determine_status ran.failure ran.exit_code x.timed x.parent;
  exit_code = ran.exit_code;
  stdout = ran.stdout;
  stderr = ran.stderr;
}

unfoldable pub builtin_result : ActionRequest → Surroundings → Outcome → ExecutionResult
builtin_result req x (returned ran) = result_of req x ran
builtin_result req x (panicked message) = record {
  execution_id = req.execution_id;
  status = "error";
  exit_code = pos 0;
  stdout = [];
  stderr = message;
}

-- `max` is the limit of the output; a hook neither panics itself nor makes the agent panic.
unfoldable pub run_action :
    Config
    → ℕ
    → List String
    → ActionRequest
    → Surroundings
    → Verifier × List String
    → (Verifier × List String) × ExecutionResult
run_action cfg max builtins req x s =
    let timeout = timeout_of x.parse_duration req cfg in
    if contains req.action builtins
    then (s, builtin_result req x (x.builtin timeout))
    else (let (s', ran) = run_hook x.join cfg max req x.file (x.process timeout) s in
        (s', result_of req x ran))

-- An action starts a process, once, exactly if it is no built-in action, its name is a proper name of a
-- hook, the hook exists, its file has the hash that the request gives, which is not empty, and the
-- system starts the process under the timeout of the action; otherwise it starts none.
pub run_action-started :
    (cfg : Config) (max : ℕ) (builtins : List String) (req : ActionRequest) (x : Surroundings)
    (v : Verifier) (started : List String)
    → (run_action cfg max builtins req x (v, started)).0.1 ≡ (
        if not (contains req.action builtins)
          && is_hook_name req.action
          && not x.file.missing
          && not (req.checksum == "")
          && has_hash x.file.hash req.checksum
          && is_started (x.process (timeout_of x.parse_duration req cfg))
        then x.join cfg.hooks_dir req.action ∷ started
        else started)
unfolding run_action
run_action-started cfg max builtins req x v started = go (contains req.action builtins)
  where
    go :
        (is_builtin : Bool)
        → let timeout = timeout_of x.parse_duration req cfg in
          let out : (Verifier × List String) × ExecutionResult =
            (if is_builtin
              then ((v, started), builtin_result req x (x.builtin timeout))
              else (let (s', ran) =
                    run_hook x.join cfg max req x.file (x.process timeout) (v, started) in
                  (s', result_of req x ran))) in
          out.0.1 ≡ (
            if not is_builtin
              && is_hook_name req.action
              && not x.file.missing
              && not (req.checksum == "")
              && has_hash x.file.hash req.checksum
              && is_started (x.process (timeout_of x.parse_duration req cfg))
            then x.join cfg.hooks_dir req.action ∷ started
            else started)
    go true = refl
    go false =
        run_hook-started x.join cfg max req x.file (x.process (timeout_of x.parse_duration req cfg))
          v started
