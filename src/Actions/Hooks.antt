-- ===== src/Actions/Hooks.antt =====
-- internal/actions/executor.go: runHook, and the check of a hook's name. What the file system and the
-- process give are inputs; the processes that were started are kept, the latest first. The hash is
-- that of the file as it was when it was read to verify it.
pub mod Names
use plexd.Base.{
  ℕ, String, List, [], ◌∷◌, Bool, true, false, not, ◌&&◌, ◌==◌, Option, none, some, if◌then◌else◌,
  arith, ◌≡◌, refl, sym,
}
use plexd.Base.Int.{ℤ, pos}
use plexd.Integrity.{verify_file, Verifier, HookResult, safe, unsafe, unverified, verify_hook}
use plexd.Actions.{Config, ActionRequest, RunError, exit_error, other_error}
use plexd.Actions.Output.{new_limited_writer, write_all, collect_output}
use plexd.Actions.Hooks.Names.{is_hook_name}

-- How a process that was started ends; the wait for it can fail otherwise than by its exit code.
pub data Exit : Type 0 where
  succeeded : Exit
  exited : ℤ → Exit
  wait_failed : Exit

-- What `cmd.Run` comes to: the process is not started, as when the context is done or the file cannot be
-- executed, or it is started, writes to its two outputs and ends.
pub data Process : Type 0 where
  not_started : Process
  ran : List (List ℕ) → List (List ℕ) → Exit → Process

abbrev pub is_started : Process → Bool
is_started not_started = false
is_started (ran out err exit) = true

-- What the file system says of the hook: whether it does not exist, and its hash.
pub record HookFile : Type 0 where
  pub missing : Bool
  pub hash : Option String

pub record Ran : Type 0 where
  pub stdout : List ℕ
  pub stderr : List ℕ
  pub exit_code : ℤ
  pub failure : Option RunError

unfoldable pub refused : Ran
refused = record { stdout = []; stderr = []; exit_code = pos 1; failure = some other_error }

unfoldable pub end_of : Exit → ℤ × Option RunError
end_of succeeded = (pos 0, none)
end_of (exited code) = (code, some exit_error)
end_of wait_failed = (pos 1, some other_error)

-- `max` is the limit of the output.
unfoldable pub run_process : ℕ → Process → Ran
run_process max not_started = record {
  stdout = collect_output (new_limited_writer max);
  stderr = collect_output (new_limited_writer max);
  exit_code = pos 1;
  failure = some other_error;
}
run_process max (ran out err exit) =
    let (code, failure) = end_of exit in
    record {
      stdout = collect_output (write_all out (new_limited_writer max));
      stderr = collect_output (write_all err (new_limited_writer max));
      exit_code = code;
      failure = failure;
    }

-- The processes that were started, once `cmd.Run` is over.
unfoldable pub note_started : Process → String → List String → List String
note_started p path started = if is_started p then path ∷ started else started

abbrev pub has_hash : Option String → String → Bool
has_hash none expected = false
has_hash (some actual) expected = actual == expected

abbrev is_safe : HookResult → Bool
is_safe safe = true
is_safe unsafe = false
is_safe (unverified e) = false

verified :
    (hash : Option String) (path expected : String) (v : Verifier)
    → is_safe (verify_hook hash path expected v).1
      ≡ (not (expected == "") && has_hash hash expected)
unfolding verify_hook verify_file
verified none path expected v = ground arith
verified (some actual) path expected v = ground arith

-- The path is given by `join`, the library's filepath.Join.
module _ (join : String → String → String) where
  unfoldable pub run_hook :
      Config
      → ℕ
      → ActionRequest
      → HookFile
      → Process
      → Verifier × List String
      → (Verifier × List String) × Ran
  run_hook cfg max req file p (v, started) =
      let path = join cfg.hooks_dir req.action in
      let (v', result) = verify_hook file.hash path req.checksum v in
      if not (is_hook_name req.action)
      then ((v, started), refused)
      else if file.missing
      then ((v, started), refused)
      else (elim result [
        | unverified e ↦ ((v', started), refused)
        | unsafe ↦ ((v', started), refused)
        | safe ↦ ((v', note_started p path started), run_process max p)
      ])

  -- A process is started, once, exactly if the action is a proper name, the hook exists, its file has
  -- the hash that the request gives, which is not empty, and the system starts it; otherwise none is.
  pub run_hook-started :
      (cfg : Config) (max : ℕ) (req : ActionRequest) (file : HookFile) (p : Process) (v : Verifier)
      (started : List String)
      → (run_hook cfg max req file p (v, started)).0.1 ≡ (
          if is_hook_name req.action
            && not file.missing
            && not (req.checksum == "")
            && has_hash file.hash req.checksum
            && is_started p
          then join cfg.hooks_dir req.action ∷ started
          else started)
  unfolding run_hook note_started
  run_hook-started cfg max req file p v started =
      go (is_hook_name req.action) file.missing
        (verify_hook file.hash (join cfg.hooks_dir req.action) req.checksum v)
        (verified file.hash (join cfg.hooks_dir req.action) req.checksum v)
    where
      go :
          (named gone : Bool) (r : Verifier × HookResult)
          → is_safe r.1 ≡ (not (req.checksum == "") && has_hash file.hash req.checksum)
          → let path = join cfg.hooks_dir req.action in
            let x : (Verifier × List String) × Ran =
              (if not named
                then ((v, started), refused)
                else if gone
                then ((v, started), refused)
                else (elim r.1 [
                  | unverified e ↦ ((r.0, started), refused)
                  | unsafe ↦ ((r.0, started), refused)
                  | safe ↦ ((r.0, note_started p path started), run_process max p)
                ])) in
            x.0.1 ≡ (
              if named
                && not gone
                && not (req.checksum == "")
                && has_hash file.hash req.checksum
                && is_started p
              then path ∷ started
              else started)
      go false gone r e = refl
      go true true r e = refl
      go true false (v', safe) e = ground (arith, e)
      go true false (v', unsafe) e = ground (arith, e)
      go true false (v', unverified w) e = ground (arith, e)
