-- ===== src/Bridge/Manager/Rollback.antt =====
-- internal/bridge/manager.go: what Setup acquires, and what a failing Setup releases again.
use plexd.Base.{
  one_if, ◌+◌, String, List, [], ◌∷◌, ◌++◌, Bool, true, false, not, Option, none, some,
  if◌then◌else◌, NoRepeats, arith, ◌≡◌, ◌≢◌, refl,
}
use plexd.Base.GoMap.{keys}
use plexd.Bridge.Controllers.{
  Call, Log, Env, Resource, forwarding, route, attempt, same, acquired, release_calls, released,
  failed_releases, release_calls-split, count, acquired-failed, acquired-succeeded,
  release_calls-attempt, enable_forwarding, disable_forwarding, add_route, remove_route,
  add_nat_masquerade,
}
use plexd.Bridge.Config.{nat_enabled}
use plexd.Bridge.Manager.{
  Manager, SetupError, enable_forwarding_failed, add_nat_failed, add_route_failed, track,
  rollback_routes, rollback_setup, setup_routes, setup_nat, setup_forwarded, setup,
}
use plexd.Bridge.SiteToSite.Calls.{routes, Delta, Delta-run}
use plexd.Bridge.Manager.Tracking.{tracked_fresh}

module _ (r : Resource) (env : Env) where
  Delta-rollback_routes :
      (ss : List String) (iface : String) (log : Log)
      → Delta r env 0 (count r (routes ss iface)) log (rollback_routes env ss iface log)
  unfolding rollback_routes count
  Delta-rollback_routes [] iface log = (omega arith, omega arith)
  Delta-rollback_routes (s ∷ ss) iface log =
      let rest = rollback_routes env ss iface log in
      let last = Delta-run r env (remove_route s iface) rest refl in
      let ih = Delta-rollback_routes ss iface log in
      (omega (arith, last.0, ih.0), omega (arith, last.1, ih.1))

  Delta-rollback_setup :
      (ss : List String) (mesh iface : String) (log : Log)
      → Delta r env 0
          (count r (forwarding mesh iface ∷ routes ss iface))
          log
          (rollback_setup env ss mesh iface log)
  unfolding rollback_setup count
  Delta-rollback_setup ss mesh iface log =
      let rest = rollback_routes env ss iface log in
      let last = Delta-run r env (disable_forwarding mesh iface) rest refl in
      let ih = Delta-rollback_routes ss iface log in
      (omega (arith, last.0, ih.0), omega (arith, last.1, ih.1))

  count_snoc :
      (ss : List String) (s iface : String)
      → count r (routes (ss ++ s ∷ []) iface)
        ≡ count r (routes ss iface) + one_if (same (route s iface) r)
  unfolding count
  count_snoc [] s iface = omega arith
  count_snoc (q ∷ ss) s iface = omega (arith, count_snoc ss s iface)

  -- What `setup_routes` acquires: all routes, or those that it reports as added.
  abbrev AddsRoutes :
      List String → String → List String → Log → Log × Option (String × List String) → Type 0
  AddsRoutes ss iface added log (log', none) = Delta r env (count r (routes ss iface)) 0 log log'
  AddsRoutes ss iface added log (log', some (s, all)) =
      (acquired r log' + count r (routes added iface) ≡ count r (routes all iface) + acquired r log)
      × (release_calls r log' ≡ release_calls r log)

  setup_routes-AddsRoutes :
      (ss : List String) (iface : String) (added : List String) (log : Log)
      → AddsRoutes ss iface added log (setup_routes env ss iface added log)
  unfolding setup_routes count attempt
  setup_routes-AddsRoutes [] iface added log = (omega arith, omega arith)
  setup_routes-AddsRoutes (s ∷ ss) iface added log =
      go (env log (add_route s iface)) refl (setup_routes env ss iface (added ++ s ∷ []) after)
        (setup_routes-AddsRoutes ss iface (added ++ s ∷ []) after)
    where
      after : Log
      after = (attempt env (add_route s iface) log).0

      go :
          (b : Bool)
          → env log (add_route s iface) ≡ b
          → (out : Log × Option (String × List String))
          → AddsRoutes ss iface (added ++ s ∷ []) after out
          → AddsRoutes (s ∷ ss) iface added log (if b then (after, some (s, added)) else out)
      go true e out h = (
        omega (arith, acquired-failed r env (add_route s iface) log e),
        omega (arith, release_calls-attempt r env (add_route s iface) log),
      )
      go false e (log', none) h = (
        omega (arith, h.0, acquired-succeeded r env (add_route s iface) log e),
        omega (arith, h.1, release_calls-attempt r env (add_route s iface) log),
      )
      go false e (log', some (t, all)) h = (
        omega (
          arith,
          h.0,
          acquired-succeeded r env (add_route s iface) log e,
          count_snoc added s iface,
        ),
        omega (arith, h.1, release_calls-attempt r env (add_route s iface) log),
      )

  -- A failure leaves nothing held.
  abbrev Undoes : Log → (Manager × Log) × Option SetupError → Type 0
  Undoes log ((m, log'), none) = Unit {0}
  Undoes log ((m, log'), some e) =
      acquired r log' + release_calls r log ≡ release_calls r log' + acquired r log

  -- The masquerade, when the forwarding and the tracked routes are held since `log`.
  setup_nat-Undoes :
      (m : Manager) (log log₁ : Log)
      → Delta r env
          (count r (
            forwarding m.mesh_iface m.cfg.access_interface
            ∷ routes (keys m.active_routes) m.cfg.access_interface))
          0
          log
          log₁
      → Undoes log (setup_nat env m log₁)
  unfolding setup_nat attempt
  setup_nat-Undoes m log log₁ held = go (nat_enabled m.cfg) (env log₁ c) refl
    where
      c : Call
      c = add_nat_masquerade m.cfg.access_interface

      go :
          (nat failed : Bool)
          → env log₁ c ≡ failed
          → Undoes log (
              if not nat
              then ((record m { active = true }, log₁), none)
              else if failed
              then (
                (
                  record m { active_routes = [] },
                  rollback_setup env
                      (keys m.active_routes)
                      m.mesh_iface
                      m.cfg.access_interface
                      (attempt env c log₁).0,
                ),
                some add_nat_failed,
              )
              else (
                (record m { nat_configured = true; active = true }, (attempt env c log₁).0),
                none,
              ))
      go false failed e = tt
      go true false e = tt
      go true true e =
          let undone =
            Delta-rollback_setup (keys m.active_routes) m.mesh_iface m.cfg.access_interface
              (attempt env c log₁).0 in
          omega (
            arith,
            held.0,
            held.1,
            undone.0,
            undone.1,
            acquired-failed r env c log₁ e,
            release_calls-attempt r env c log₁,
          )

  setup_forwarded-Undoes :
      (m : Manager) (log log₁ : Log)
      → NoRepeats m.cfg.access_subnets
      → m.active_routes ≡ []
      → Delta r env (one_if (same (forwarding m.mesh_iface m.cfg.access_interface) r)) 0 log log₁
      → Undoes log (setup_forwarded env m log₁)
  unfolding setup_forwarded count
  setup_forwarded-Undoes m log log₁ distinct fresh held =
      go (setup_routes env m.cfg.access_subnets m.cfg.access_interface [] log₁)
        (setup_routes-AddsRoutes m.cfg.access_subnets m.cfg.access_interface [] log₁)
    where
      tracks : Manager
      tracks = record m { active_routes = track m.cfg.access_subnets m.active_routes }

      go :
          (out : Log × Option (String × List String))
          → AddsRoutes m.cfg.access_subnets m.cfg.access_interface [] log₁ out
          → Undoes log (elim out.1 [
            | some (s, added) ↦ (
              (m, rollback_setup env added m.mesh_iface m.cfg.access_interface out.0),
              some (add_route_failed s),
            )
            | none ↦ setup_nat env tracks out.0
          ])
      go (l, none) h = setup_nat-Undoes tracks log l (
        omega (arith, h.0, held.0, tracked_fresh r m.cfg.access_interface m distinct fresh),
        omega (arith, h.1, held.1),
      )
      go (l, some (s, added)) h =
          let undone = Delta-rollback_setup added m.mesh_iface m.cfg.access_interface l in
          omega (arith, h.0, h.1, held.0, held.1, undone.0, undone.1)

setup-Undoes :
    (r : Resource) (env : Env) (mesh : String) (m : Manager) (log : Log)
    → NoRepeats m.cfg.access_subnets
    → m.active_routes ≡ []
    → Undoes r env log (setup env mesh m log)
unfolding setup attempt
setup-Undoes r env mesh m log distinct fresh = go m.cfg.enabled (env log c) refl
  where
    c : Call
    c = enable_forwarding mesh m.cfg.access_interface

    go :
        (enabled failed : Bool)
        → env log c ≡ failed
        → Undoes r env log (
            if not enabled
            then ((m, log), none)
            else if failed
            then (
              (record m { mesh_iface = mesh }, (attempt env c log).0),
              some enable_forwarding_failed,
            )
            else setup_forwarded env (record m { mesh_iface = mesh }) (attempt env c log).0)
    go false failed e = tt
    go true true e = omega (arith, acquired-failed r env c log e, release_calls-attempt r env c log)
    go true false e =
        setup_forwarded-Undoes r env (record m { mesh_iface = mesh }) log (attempt env c log).0
          distinct fresh (acquired-succeeded r env c log e, release_calls-attempt r env c log)

-- A setup that fails releases what it acquired, or its call to release it fails as well: from a manager
-- that tracks no route, with a configuration that repeats no subnet, the successful acquisitions of
-- each resource in the call are as many as its releases and failed releases together, whichever
-- controller calls fail.
pub failed_setup_releases :
    (r : Resource) (env : Env) (mesh : String) (m : Manager) (log : Log)
    → NoRepeats m.cfg.access_subnets
    → m.active_routes ≡ []
    → (setup env mesh m log).1 ≢ none
    → acquired r (setup env mesh m log).0.1 + (released r log + failed_releases r log)
      ≡ released r (setup env mesh m log).0.1
        + failed_releases r (setup env mesh m log).0.1
        + acquired r log
failed_setup_releases r env mesh m log distinct fresh failed =
    let after = (setup env mesh m log).0.1 in
    omega (
      arith,
      balanced (setup env mesh m log) (setup-Undoes r env mesh m log distinct fresh) failed,
      release_calls-split r log,
      release_calls-split r after,
    )
  where
    balanced :
        (out : (Manager × Log) × Option SetupError)
        → Undoes r env log out
        → out.1 ≢ none
        → acquired r out.0.1 + release_calls r log ≡ release_calls r out.0.1 + acquired r log
    balanced ((m', l), none) h f = absurd (f refl)
    balanced ((m', l), some e) h f = h
