-- ===== src/Actions.antt =====
-- internal/actions: the configuration, the admission of requests, and the status of a result.
pub mod Output
pub mod Hooks
pub mod Running
pub mod Results
mod Tests
use plexd.Base.{
  ℕ, String, List, [], ◌∷◌, Bool, true, false, not, ◌&&◌, ◌||◌, ◌==◌, Option, none, some,
  if◌then◌else◌, length, contains, leb,
}
use plexd.Base.Int.{ℤ, pos, negsuc, eqb_ℤ, ltb_ℤ, leb_ℤ}
use plexd.Base.GoMap.{GoMap, has, store, delete}

pub record Config : Type 0 where
  pub enabled : Bool
  pub hooks_dir : String
  pub max_concurrent : ℤ
  pub max_action_timeout : ℤ
  pub max_output_bytes : ℤ

-- A duration is in nanoseconds: ten minutes, and ten seconds.
unfoldable pub apply_defaults : Config → Config
apply_defaults c = record c {
  enabled =
      (eqb_ℤ c.max_concurrent (pos 0)
        && eqb_ℤ c.max_action_timeout (pos 0)
        && eqb_ℤ c.max_output_bytes (pos 0))
      || c.enabled;
  max_concurrent = if eqb_ℤ c.max_concurrent (pos 0) then pos 5 else c.max_concurrent;
  max_action_timeout =
      if eqb_ℤ c.max_action_timeout (pos 0) then pos 600_000_000_000 else c.max_action_timeout;
  max_output_bytes = if eqb_ℤ c.max_output_bytes (pos 0) then pos 1_048_576 else c.max_output_bytes;
}

pub data ConfigError : Type 0 where
  bad_max_concurrent bad_max_action_timeout bad_max_output_bytes : ConfigError

unfoldable pub validate : Config → Option ConfigError
validate c =
    if not c.enabled
    then none
    else if ltb_ℤ c.max_concurrent 1
    then some bad_max_concurrent
    else if ltb_ℤ c.max_action_timeout 10_000_000_000
    then some bad_max_action_timeout
    else if ltb_ℤ c.max_output_bytes 1024
    then some bad_max_output_bytes
    else none

pub record ActionRequest : Type 0 where
  pub execution_id : String
  pub action : String
  pub timeout : String
  pub checksum : String

-- An active execution has a context; the flag is whether it has been cancelled. Of the built-in
-- actions and the hooks the names count here.
pub record Executor : Type 0 where
  pub cfg : Config
  pub active : GoMap Bool
  pub builtins : List String
  pub hooks : List String
  pub shutting_down : Bool

unfoldable pub new_executor : Config → Executor
new_executor cfg = record {
  cfg = cfg;
  active = [];
  builtins = [];
  hooks = [];
  shutting_down = false;
}

unfoldable pub register_builtin : String → Executor → Executor
register_builtin name e = record e {
  builtins = if contains name e.builtins then e.builtins else name ∷ e.builtins;
}

unfoldable pub set_hooks : List String → Executor → Executor
set_hooks hooks e = record e { hooks = hooks }

unfoldable pub active_count : Executor → ℕ
active_count e = length e.active

-- `Execute` as far as it holds the lock: the reason of a rejection, or the new execution.
unfoldable pub admit : ActionRequest → Executor → Executor × Option String
admit req e =
    if e.shutting_down
    then (e, some "shutting_down")
    else if has req.execution_id e.active
    then (e, some "duplicate_execution_id")
    else if leb_ℤ e.cfg.max_concurrent (length e.active)
    then (e, some "max_concurrent_reached")
    else if not (contains req.action e.builtins) && not (contains req.action e.hooks)
    then (e, some "unknown_action")
    else (record e { active = store req.execution_id false e.active }, none)

unfoldable pub cancel_all : GoMap Bool → GoMap Bool
cancel_all [] = []
cancel_all ((id, cancelled) ∷ active) = (id, true) ∷ cancel_all active

-- `Shutdown` up to its wait for the running actions.
unfoldable pub begin_shutdown : Executor → Executor
begin_shutdown e = record e { shutting_down = true; active = cancel_all e.active }

-- What runAction does in the end.
unfoldable pub release : String → Executor → Executor
release id e = record e { active = delete id e.active }

pub data ContextError : Type 0 where
  cancelled deadline_exceeded : ContextError

pub data RunError : Type 0 where
  exit_error other_error : RunError

unfoldable pub determine_status :
    Option RunError → ℤ → Option ContextError → Option ContextError → String
determine_status none exit_code timed parent =
    if eqb_ℤ exit_code (pos 0) then "success" else "failed"
determine_status (some e) exit_code (some deadline_exceeded) parent = "timeout"
determine_status (some e) exit_code timed (some cancelled) = "cancelled"
determine_status (some exit_error) exit_code timed parent = "failed"
determine_status (some other_error) exit_code timed parent = "error"

abbrev pub min_ℤ : ℤ → ℤ → ℤ
min_ℤ (pos a) (pos b) = if leb a b then pos a else pos b
min_ℤ (pos a) (negsuc b) = negsuc b
min_ℤ (negsuc a) (pos b) = negsuc a
min_ℤ (negsuc a) (negsuc b) = if leb a b then negsuc b else negsuc a

-- The timeout of a request, clamped to the configured maximum. `parse_duration` is the library's.
unfoldable pub timeout_of : (String → Option ℤ) → ActionRequest → Config → ℤ
timeout_of parse_duration req c =
    if req.timeout == "" then c.max_action_timeout else (elim (parse_duration req.timeout) [
      | none ↦ c.max_action_timeout
      | some parsed ↦ min_ℤ parsed c.max_action_timeout
    ])
