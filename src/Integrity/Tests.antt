-- ===== src/Integrity/Tests.antt =====
-- internal/integrity: runs with one binary.
use plexd.Base.{◌+◌, [], ◌∷◌, true, false, some, ◌≡◌, refl, length}
use plexd.Base.GoMap.{find, store, delete}
use plexd.Base.Int.{pos}
use plexd.Integrity.{
  Config, apply_defaults, refuses, checksum_required, get, persist, set, remove, new_store,
  Verifier, new_verifier, verify_file, compare_binary, verify_binary, unverified, verify_hook,
  Check, run_checks, run,
}
use plexd.Integrity.Baseline.{differing, baseline_stays}

abbrev config : Config
config = record {
  enabled = true;
  binary_path = "/bin/plexd";
  hooks_dir = "";
  verify_interval = pos 0;
}

program : Unit {0}
unfolding apply_defaults refuses get persist set remove new_store new_verifier verify_file
    compare_binary verify_binary verify_hook run_checks run find store delete
program = tt

abbrev fresh : Verifier
fresh = record {
  cfg = config;
  checksums = record { checksums = []; written = [] };
  binary_checksum = "";
  violations = [];
}

defaults_accepted : refuses (apply_defaults config) ≡ false
unfolding program
defaults_accepted = refl

forgotten :
    get "/bin/plexd" (remove false "/bin/plexd" (set false "/bin/plexd" "aa" (new_store [])).0).0
    ≡ ""
unfolding program
forgotten = refl

-- A hook needs a checksum.
unchecked :
    (verify_hook (some "aa") "/hooks/h" "" (new_verifier config (new_store []))).1
    ≡ unverified checksum_required
unfolding program
unchecked = refl

tampered : length (verify_hook (some "bb") "/hooks/h" "aa" fresh).0.violations ≡ 1
unfolding program
tampered = refl

abbrev later : Check
later = record { hash = some "bb"; write_fails = false }

baseline_stays_example :
    let after = run (record { hash = some "aa"; write_fails = true } ∷ later ∷ later ∷ []) fresh in
    (get "/bin/plexd" after.checksums ≡ "aa")
    × (length after.violations ≡ differing "aa" (later ∷ later ∷ []) + length fresh.violations)
baseline_stays_example =
    baseline_stays "aa" true (later ∷ later ∷ []) fresh refl (unfold program in refl) refl
