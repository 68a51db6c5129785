-- ===== src/Integrity/Baseline.antt =====
-- internal/integrity: the baseline of the binary and the reports, over the turns of the ticker.
use plexd.Base.{
  ℕ, ◌+◌, String, List, [], ◌∷◌, Bool, true, false, ◌==◌, Option, none, some, if◌then◌else◌, length,
  arith, ◌≡◌, ◌↔◌, refl, sym, ap, ◌∙◌, inl, inr, Bool-cases, eq_iff,
}
use plexd.Base.GoMap.{find-store_self}
use plexd.Integrity.{
  Config, verify_file, Store, get, set, persist, Verifier, compare_binary, verify_binary, safe,
  verify_hook, Check, run_checks, run,
}

-- A hook may run exactly when a checksum is given and hashing the file gives that checksum.
pub verify_hook-safe_iff :
    (hash : Option String) (path expected : String) (v : Verifier)
    → ((verify_hook hash path expected v).1 ≡ safe)
      ↔ (((expected == "") ≡ false) × (hash ≡ some expected))
unfolding verify_hook verify_file
verify_hook-safe_iff none path expected v = ground arith
verify_hook-safe_iff (some actual) path expected v = ground (arith, eq_iff actual expected)

-- How many of the hashes differ from the baseline; a file that cannot be hashed counts as none.
abbrev pub differs : String → Option String → ℕ
differs base none = 0
differs base (some h) = if h == base then 0 else 1

abbrev pub differing : String → List Check → ℕ
differing base [] = 0
differing base (c ∷ cs) = differs base c.hash + differing base cs

-- A check against a baseline.
checked_once :
    (hash : Option String) (write_fails : Bool) (v : Verifier) (base : String)
    → get v.cfg.binary_path v.checksums ≡ base
    → (base == "") ≡ false
    → let v' = (verify_binary hash write_fails v).0 in
      (v'.cfg ≡ v.cfg)
      × (v'.checksums ≡ v.checksums)
      × (length v'.violations ≡ differs base hash + length v.violations)
unfolding verify_binary compare_binary
checked_once none write_fails v base held given = (refl, refl, omega arith)
checked_once (some h) write_fails v base held given = elim (Bool-cases (h == base)) [
  | inl same ↦ rw (held, compare_binary, given, same, differs) (refl, refl, omega arith)
  | inr other ↦ rw (held, compare_binary, given, other, differs) (refl, refl, omega arith)
]

cfg-verify_binary :
    (hash : Option String) (write_fails : Bool) (v : Verifier)
    → (verify_binary hash write_fails v).0.cfg ≡ v.cfg
unfolding verify_binary compare_binary
cfg-verify_binary none write_fails v = refl
cfg-verify_binary (some h) write_fails v = ground arith

cfg-run_checks : (cs : List Check) (v : Verifier) → (run_checks cs v).cfg ≡ v.cfg
unfolding run_checks
cfg-run_checks [] v = refl
cfg-run_checks (c ∷ cs) v =
    cfg-run_checks cs (verify_binary c.hash c.write_fails v).0
    ∙ cfg-verify_binary c.hash c.write_fails v

checks-differing :
    (cs : List Check) (v : Verifier) (base : String)
    → get v.cfg.binary_path v.checksums ≡ base
    → (base == "") ≡ false
    → (get (run_checks cs v).cfg.binary_path (run_checks cs v).checksums ≡ base)
      × (length (run_checks cs v).violations ≡ differing base cs + length v.violations)
unfolding run_checks
checks-differing [] v base held given = (held, omega arith)
checks-differing (c ∷ cs) v base held given =
    let v' = (verify_binary c.hash c.write_fails v).0 in
    let once = checked_once c.hash c.write_fails v base held given in
    let ih = checks-differing cs v' base (rw (once.0, once.1) held) given in
    (ih.0, omega (arith, ih.1, once.2))

get-set :
    (write_fails : Bool) (path c : String) (s : Store) → get path (set write_fails path c s).0 ≡ c
unfolding get set persist
get-set true path c s = rw (find-store_self, get) refl
get-set false path c s = rw (find-store_self, get) refl

-- The verifier that the first check leaves.
abbrev established : String → Bool → Verifier → Verifier
established h write_fails v = record v {
  binary_checksum = h;
  checksums = (set write_fails v.cfg.binary_path h v.checksums).0;
}

first_check :
    (h : String) (write_fails : Bool) (v : Verifier)
    → (get v.cfg.binary_path v.checksums == "") ≡ true
    → (verify_binary (some h) write_fails v).0 ≡ established h write_fails v
unfolding verify_binary compare_binary
first_check h write_fails v fresh = rw (fresh, compare_binary) refl

run-run_checks :
    (cs : List Check) (v : Verifier) → v.cfg.enabled ≡ true → run cs v ≡ run_checks cs v
unfolding run
run-run_checks cs v enabled = rw (enabled, run) refl

-- From the first check on, which makes the hash of an enabled verifier without a baseline its baseline,
-- the baseline stays, and there is one report for each later check whose hash differs from it, whether
-- or not the store can be written to the disk.
pub baseline_stays :
    (h : String) (write_fails : Bool) (cs : List Check) (v : Verifier)
    → v.cfg.enabled ≡ true
    → (get v.cfg.binary_path v.checksums == "") ≡ true
    → (h == "") ≡ false
    → let after = run (record { hash = some h; write_fails = write_fails } ∷ cs) v in
      (get v.cfg.binary_path after.checksums ≡ h)
      × (length after.violations ≡ differing h cs + length v.violations)
unfolding run_checks
baseline_stays h write_fails cs v enabled fresh given =
    let c : Check = record { hash = some h; write_fails = write_fails } in
    let first = established h write_fails v in
    let held = get-set write_fails v.cfg.binary_path h v.checksums in
    let e : run (c ∷ cs) v ≡ run_checks cs first =
      run-run_checks (c ∷ cs) v enabled ∙ ap (run_checks cs) (first_check h write_fails v fresh) in
    let ih = checks-differing cs first h held given in
    let moved =
      ap (λ (x : Config). get x.binary_path (run_checks cs first).checksums)
        (sym (cfg-run_checks cs first)) in
    rw e (moved ∙ ih.0, ih.1)
