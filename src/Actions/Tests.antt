-- ===== src/Actions/Tests.antt =====
-- internal/actions: runs with two hooks.
use plexd.Base.{
  contains, ℕ, String, List, [], ◌∷◌, ◌++◌, true, false, not, ◌&&◌, ◌==◌, none, some, ◌≡◌, refl,
  ltb, if◌then◌else◌, length,
}
use plexd.Base.Int.{pos}
use plexd.Base.GoMap.{has, find, store, delete}
use plexd.Integrity.{Verifier, new_verifier, new_store, verify_file, verify_hook}
use plexd.Actions.{
  Config, apply_defaults, validate, ActionRequest, new_executor, register_builtin, set_hooks,
  active_count, admit, cancel_all, begin_shutdown, release, cancelled, deadline_exceeded,
  exit_error, determine_status, timeout_of,
}
use plexd.Actions.Output.{
  new_limited_writer, write, truncated, collect_output, write_all, truncation_suffix,
  collect-write_all,
}
use plexd.Forwarding.{take}
use plexd.Forwarding.Delivery.{concat}
use plexd.Actions.Hooks.{
  succeeded, Process, ran, not_started, note_started, refused, end_of, run_process, run_hook,
  has_hash,
}
use plexd.Actions.Results.{
  Surroundings, panicked, result_of, builtin_result, run_action, run_action-started,
}
use plexd.Actions.Hooks.Names.{has_separator, has_two_dots, is_empty_name, is_hook_name}
use plexd.Actions.Running.{
  rejected, World, start, execute, launch, finish, shut_down, handle_action_request, handles,
  launches, discovers, Reachable, starts, goes_on,
}
use plexd.Actions.Running.Accounts.{IsAccounted, Reachable-IsAccounted}

program : Unit {0}
unfolding apply_defaults validate new_executor register_builtin set_hooks active_count admit
    cancel_all begin_shutdown release determine_status timeout_of new_limited_writer write truncated
    collect_output write_all end_of run_process note_started run_hook result_of builtin_result
    run_action has_separator has_two_dots is_empty_name is_hook_name start execute launch finish
    shut_down handle_action_request has find store delete new_verifier new_store verify_file
    verify_hook refused
program = tt

abbrev config : Config
config = record {
  enabled = true;
  hooks_dir = "/hooks";
  max_concurrent = pos 1;
  max_action_timeout = pos 0;
  max_output_bytes = pos 0;
}

defaults_accepted : validate (apply_defaults config) ≡ none
unfolding program
defaults_accepted = refl

names :
    (is_hook_name "backup.sh" ≡ true)
    × (is_hook_name "../x" ≡ false)
    × (is_hook_name "a..b" ≡ false)
    × (is_hook_name "a\\b" ≡ false)
    × (is_hook_name "" ≡ false)
unfolding program
names = (refl, refl, refl, refl, refl)

-- The longest output that fits is marked as truncated.
full_output : length (collect_output (write_all ((1 ∷ 2 ∷ []) ∷ []) (new_limited_writer 2))) ≡ 17
unfolding program
full_output = refl

timed_out : determine_status (some exit_error) (pos 1) (some deadline_exceeded) none ≡ "timeout"
unfolding program
timed_out = refl

was_cancelled :
    determine_status (some exit_error) (pos 1) (some cancelled) (some cancelled) ≡ "cancelled"
unfolding program
was_cancelled = refl

clamped :
    timeout_of
      (λ s. some (pos 900))
      (record { execution_id = "e"; action = "a"; timeout = "900ns"; checksum = "" })
      (record config { max_action_timeout = pos 600 })
    ≡ pos 600
unfolding program
clamped = refl

abbrev req : ActionRequest
req = record { execution_id = "e1"; action = "backup"; timeout = ""; checksum = "aa" }

abbrev join : String → String → String
join dir name = "/hooks/backup"

abbrev process : Process
process = ran [] [] succeeded

abbrev fresh : Verifier
fresh =
    new_verifier
      (record {
        enabled = true;
        binary_path = "/bin/plexd";
        hooks_dir = "/hooks";
        verify_interval = pos 0;
      })
      (new_store [])

run_once :
    (run_hook join config 8 req
      (record { missing = false; hash = some "aa" })
      process
      (fresh, [])).0.1
    ≡ "/hooks/backup" ∷ []
unfolding program
run_once = refl

tampered_not_run :
    (run_hook join config 8 req
      (record { missing = false; hash = some "bb" })
      process
      (fresh, [])).0.1
    ≡ []
unfolding program
tampered_not_run = refl

-- A hook whose process cannot be started is not counted.
cannot_start :
    (run_hook join config 8 req
      (record { missing = false; hash = some "aa" })
      not_started
      (fresh, [])).0.1
    ≡ []
unfolding program
cannot_start = refl

abbrev known : World
known = record (start config) { executor = set_hooks ("backup" ∷ []) (new_executor config) }

-- A second request waits for no place.
abbrev other : ActionRequest
other = record req { execution_id = "e2" }

full : (execute other (execute req known)).acks ≡ rejected "e2" "max_concurrent_reached" ∷ []
unfolding program
full = refl

abbrev asked : World
asked = (handle_action_request (some req) known).0

asked_accepted : (asked.admitted ≡ req ∷ []) × (asked.acks ≡ [])
unfolding program
asked_accepted = (refl, refl)

running_once : Reachable config (launch [] req [] asked)
unfolding program
running_once =
    goes_on
      (goes_on (goes_on starts (discovers ("backup" ∷ []) (start config)))
        (handles (some req) known))
      (launches [] [] req asked refl)

Reachable-IsAccounted_example : IsAccounted (launch [] req [] asked)
Reachable-IsAccounted_example = Reachable-IsAccounted config (launch [] req [] asked) running_once

abbrev around : Surroundings
around = record {
  join = join;
  parse_duration = λ s. none;
  builtin = λ timeout. panicked [];
  process = λ timeout. process;
  file = record { missing = false; hash = some "aa" };
  timed = none;
  parent = none;
}

reported : (run_action config 8 [] req around (fresh, [])).1.status ≡ "success"
unfolding program
reported = refl

panic_reported : (run_action config 8 ("backup" ∷ []) req around (fresh, [])).1.status ≡ "error"
unfolding program
panic_reported = refl

run_action-started_example : (run_action config 8 ("df" ∷ []) req around (fresh, [])).0.1 ≡ (
    if not (contains "backup" ("df" ∷ []))
      && is_hook_name "backup"
      && not false
      && not ("aa" == "")
      && has_hash (some "aa") "aa"
      && true
    then "/hooks/backup" ∷ []
    else [])
run_action-started_example = run_action-started config 8 ("df" ∷ []) req around fresh []

abbrev parts : List (List ℕ)
parts = (1 ∷ 2 ∷ []) ∷ (3 ∷ []) ∷ []

collect-write_all_example : collect_output (write_all parts (new_limited_writer 2)) ≡ (
    if ltb (length (concat parts)) 2
    then concat parts
    else take 2 (concat parts) ++ truncation_suffix)
collect-write_all_example = collect-write_all parts 2
