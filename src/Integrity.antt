-- ===== src/Integrity.antt =====
-- internal/integrity: the checksums of the agent's binary and of hook scripts. What hashing a file
-- gives, and whether a write of the store succeeds, are inputs of a call; the reports that are made to
-- the control plane are kept, the latest first. NewStore reads the map that was last written.
pub mod Baseline
mod Tests
use plexd.Base.{
  ℕ, String, List, [], ◌∷◌, Bool, true, false, not, ◌&&◌, ◌==◌, Option, none, some, if◌then◌else◌,
}
use plexd.Base.Int.{ℤ, pos, eqb_ℤ, ltb_ℤ}
use plexd.Base.GoMap.{GoMap, find, store, delete}

pub record Config : Type 0 where
  pub enabled : Bool
  pub binary_path : String
  pub hooks_dir : String
  pub verify_interval : ℤ

-- A duration is in nanoseconds: five minutes, and 30 seconds.
unfoldable pub apply_defaults : Config → Config
apply_defaults c =
    if eqb_ℤ c.verify_interval (pos 0)
    then record c { enabled = true; verify_interval = pos 300_000_000_000 }
    else c

-- Whether the configuration is refused.
unfoldable pub refuses : Config → Bool
refuses c = if not c.enabled then false else ltb_ℤ c.verify_interval 30_000_000_000

pub record CheckResult : Type 0 where
  pub path : String
  pub expected : String
  pub actual : String
  pub ok : Bool

pub data IntegrityError : Type 0 where
  checksum_required hash_failed write_failed : IntegrityError

pub data FileResult : Type 0 where
  checked : CheckResult → FileResult
  failed : IntegrityError → FileResult

-- The hash of the file as it is when it is read; `none` if it cannot be read.
unfoldable pub verify_file : Option String → String → String → Bool → FileResult
verify_file hash path expected required =
    if expected == "" && required then failed checksum_required else (elim hash [
      | none ↦ failed hash_failed
      | some actual ↦
          if expected == ""
          then checked (record { path = path; expected = ""; actual = actual; ok = true })
          else checked (record {
            path = path;
            expected = expected;
            actual = actual;
            ok = actual == expected;
          })
    ])

-- The map in memory, and the one that was last written to the disk.
pub record Store : Type 0 where
  pub checksums : GoMap String
  pub written : GoMap String

unfoldable pub new_store : GoMap String → Store
new_store written = record { checksums = written; written = written }

-- A missing key gives the empty string.
unfoldable pub get : String → Store → String
get path s = elim (find path s.checksums) [ none ↦ "" | some c ↦ c ]

unfoldable pub persist : Bool → Store → Store × Option IntegrityError
persist write_fails s =
    if write_fails then (s, some write_failed) else (record s { written = s.checksums }, none)

unfoldable pub set : Bool → String → String → Store → Store × Option IntegrityError
set write_fails path checksum s =
    persist write_fails (record s { checksums = store path checksum s.checksums })

unfoldable pub remove : Bool → String → Store → Store × Option IntegrityError
remove write_fails path s = persist write_fails (record s { checksums = delete path s.checksums })

pub data ViolationType : Type 0 where
  binary hook : ViolationType

pub record Violation : Type 0 where
  pub type : ViolationType
  pub path : String
  pub expected_checksum : String
  pub actual_checksum : String

pub record Verifier : Type 0 where
  pub cfg : Config
  pub checksums : Store
  pub binary_checksum : String
  pub violations : List Violation

unfoldable pub new_verifier : Config → Store → Verifier
new_verifier cfg s = record { cfg = cfg; checksums = s; binary_checksum = ""; violations = [] }

-- `VerifyBinary` once the hash is known.
unfoldable pub compare_binary : Bool → String → Verifier → Verifier × Option IntegrityError
compare_binary write_fails actual v =
    let expected = get v.cfg.binary_path v.checksums in
    if expected == ""
    then (let (s, err) = set write_fails v.cfg.binary_path actual v.checksums in
        (record v { checksums = s }, err))
    else if actual == expected
    then (v, none)
    else (
      record v {
        violations =
            record {
              type = binary;
              path = v.cfg.binary_path;
              expected_checksum = expected;
              actual_checksum = actual;
            }
            ∷ v.violations;
      },
      none,
    )

unfoldable pub verify_binary : Option String → Bool → Verifier → Verifier × Option IntegrityError
verify_binary hash write_fails v = elim hash [
  | none ↦ (v, some hash_failed)
  | some actual ↦ compare_binary write_fails actual (record v { binary_checksum = actual })
]

-- The result is whether the hook may run.
pub data HookResult : Type 0 where
  safe unsafe : HookResult
  unverified : IntegrityError → HookResult

unfoldable pub verify_hook : Option String → String → String → Verifier → Verifier × HookResult
verify_hook hash path expected v = elim (verify_file hash path expected true) [
  | failed e ↦ (v, unverified e)
  | checked r ↦ if r.ok then (v, safe) else (
    record v {
      violations =
          record {
            type = hook;
            path = path;
            expected_checksum = r.expected;
            actual_checksum = r.actual;
          }
          ∷ v.violations;
    },
    unsafe,
  )
]

-- One turn of the ticker: what hashing gives, and whether a write fails.
pub record Check : Type 0 where
  pub hash : Option String
  pub write_fails : Bool

-- `Run`, over the turns of its ticker until the context ends. Errors are only logged.
unfoldable pub run_checks : List Check → Verifier → Verifier
run_checks [] v = v
run_checks (c ∷ cs) v = run_checks cs (verify_binary c.hash c.write_fails v).0

unfoldable pub run : List Check → Verifier → Verifier
run cs v = if not v.cfg.enabled then v else run_checks cs v
