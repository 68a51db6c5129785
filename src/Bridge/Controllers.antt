-- ===== src/Bridge/Controllers.antt =====
-- internal/bridge/route.go, access_controller.go and vpn_controller.go: the controllers of the
-- operating system as the calls that are made of them. An environment says of each call, from the
-- calls before it, whether it fails; the calls are kept with their outcomes, the latest first.
use plexd.Base.{
  one_if, ℕ, ◌+◌, String, List, [], ◌∷◌, Bool, true, false, ◌&&◌, ◌==◌, Option, none, some,
  if◌then◌else◌, arith, ◌≡◌, refl, inl, inr, Bool-cases,
}
use plexd.Base.Int.{ℤ}

pub data Call : Type 0 where
  create_tunnel_interface create_interface : String → ℤ → Call
  remove_tunnel_interface remove_interface : String → Call
  configure_tunnel_peer : String → String → List String → String → String → Call
  configure_peer : String → String → List String → String → Call
  remove_tunnel_peer remove_peer : String → String → Call
  enable_forwarding disable_forwarding : String → String → Call
  add_route remove_route : String → String → Call
  add_nat_masquerade remove_nat_masquerade : String → Call

pub record Done : Type 0 where
  pub call : Call
  pub failed : Bool

abbrev pub Log : Type 0
Log = List Done

abbrev pub Env : Type 0
Env = Log → Call → Bool

-- A call, with whether it fails.
unfoldable pub attempt : Env → Call → Log → Log × Bool
attempt env c log = (record { call = c; failed = env log c } ∷ log, env log c)

-- A call whose error is ignored or only logged.
unfoldable pub run : Env → Call → Log → Log
run env c log = (attempt env c log).0

-- What the calls acquire from the operating system and release to it.
pub data Resource : Type 0 where
  interface masquerade : String → Resource
  peer forwarding route : String → String → Resource

abbrev pub acquires : Call → Option Resource
acquires (create_tunnel_interface i p) = some (interface i)
acquires (create_interface i p) = some (interface i)
acquires (configure_tunnel_peer i k ips e psk) = some (peer i k)
acquires (configure_peer i k ips psk) = some (peer i k)
acquires (enable_forwarding a b) = some (forwarding a b)
acquires (add_route s i) = some (route s i)
acquires (add_nat_masquerade i) = some (masquerade i)
acquires c = none

abbrev pub releases : Call → Option Resource
releases (remove_tunnel_interface i) = some (interface i)
releases (remove_interface i) = some (interface i)
releases (remove_tunnel_peer i k) = some (peer i k)
releases (remove_peer i k) = some (peer i k)
releases (disable_forwarding a b) = some (forwarding a b)
releases (remove_route s i) = some (route s i)
releases (remove_nat_masquerade i) = some (masquerade i)
releases c = none

abbrev pub same : Resource → Resource → Bool
same (interface i) (interface j) = i == j
same (masquerade i) (masquerade j) = i == j
same (peer i k) (peer j l) = i == j && k == l
same (forwarding a b) (forwarding c d) = a == c && b == d
same (route s i) (route t j) = s == t && i == j
same q r = false

abbrev pub counts : Resource → Option Resource → ℕ
counts r none = 0
counts r (some q) = one_if (same q r)

-- How many calls acquired the resource. A call that fails acquires nothing.
unfoldable pub acquired : Resource → Log → ℕ
acquired r [] = 0
acquired r (d ∷ log) = (if d.failed then 0 else counts r (acquires d.call)) + acquired r log

-- How many calls were made to release the resource.
unfoldable pub release_calls : Resource → Log → ℕ
release_calls r [] = 0
release_calls r (d ∷ log) = counts r (releases d.call) + release_calls r log

-- How many of these calls released it, and how many failed.
unfoldable pub released : Resource → Log → ℕ
released r [] = 0
released r (d ∷ log) = (if d.failed then 0 else counts r (releases d.call)) + released r log

unfoldable pub failed_releases : Resource → Log → ℕ
failed_releases r [] = 0
failed_releases r (d ∷ log) =
    (if d.failed then counts r (releases d.call) else 0) + failed_releases r log

pub release_calls-split :
    (r : Resource) (log : Log) → release_calls r log ≡ released r log + failed_releases r log
unfolding release_calls released failed_releases
release_calls-split r [] = omega arith
release_calls-split r (d ∷ log) = elim (Bool-cases d.failed) [
  | inl e ↦ rw e (omega (arith, release_calls-split r log))
  | inr e ↦ rw e (omega (arith, release_calls-split r log))
]

-- How often the resource stands in the list.
unfoldable pub count : Resource → List Resource → ℕ
count r [] = 0
count r (q ∷ qs) = one_if (same q r) + count r qs

module _ (r : Resource) (env : Env) (c : Call) (log : Log) where
  pub acquired-failed : env log c ≡ true → acquired r (attempt env c log).0 ≡ acquired r log
  unfolding attempt acquired
  acquired-failed e = rw e (omega arith)

  pub acquired-succeeded :
      env log c ≡ false → acquired r (attempt env c log).0 ≡ counts r (acquires c) + acquired r log
  unfolding attempt acquired
  acquired-succeeded e = rw e refl

  pub release_calls-attempt :
      release_calls r (attempt env c log).0 ≡ counts r (releases c) + release_calls r log
  unfolding attempt release_calls
  release_calls-attempt = refl
