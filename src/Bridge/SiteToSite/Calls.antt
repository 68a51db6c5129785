-- ===== src/Bridge/SiteToSite/Calls.antt =====
-- internal/bridge/site_to_site.go: what the controller calls for routes acquire and release.
use plexd.Base.{
  one_if, ℕ, ◌+◌, String, List, [], ◌∷◌, ◌++◌, Bool, true, false, Option, none, some, if◌then◌else◌,
  arith, ◌≡◌, inl, inr, refl, ◌∙◌, Bool-cases,
}
use plexd.Api.Types.{SiteToSiteTunnel}
use plexd.Bridge.Controllers.{
  Call, Log, Env, Resource, interface, peer, forwarding, route, attempt, run, acquires, releases,
  counts, same, acquired, release_calls, count, acquired-failed, acquired-succeeded,
  release_calls-attempt, add_route, remove_route,
}
use plexd.Bridge.SiteToSite.{remove_routes, add_routes}

-- The routes of a tunnel, and all that a tunnel holds.
abbrev pub routes : List String → String → List Resource
routes [] iface = []
routes (s ∷ ss) iface = route s iface ∷ routes ss iface

abbrev pub tunnel_resources : SiteToSiteTunnel → String → List Resource
tunnel_resources t mesh_iface =
    interface t.interface_name
    ∷ peer t.interface_name t.remote_public_key
    ∷ forwarding t.interface_name mesh_iface
    ∷ routes t.remote_subnets t.interface_name

module _ (r : Resource) (env : Env) where
  -- Between two logs, so many acquisitions and so many releases of the resource.
  abbrev pub Delta : ℕ → ℕ → Log → Log → Type 0
  Delta a b log log' =
      (acquired r log' ≡ a + acquired r log) × (release_calls r log' ≡ b + release_calls r log)

  Delta-trans :
      (a b c d : ℕ) (l₁ l₂ l₃ : Log)
      → Delta a b l₁ l₂
      → Delta c d l₂ l₃
      → Delta (a + c) (b + d) l₁ l₃
  Delta-trans a b c d l₁ l₂ l₃ p q = (omega (arith, p.0, q.0), omega (arith, p.1, q.1))

  -- A call that acquires nothing.
  pub Delta-run :
      (c : Call) (log : Log)
      → acquires c ≡ none
      → Delta 0 (counts r (releases c)) log (run env c log)
  unfolding run
  Delta-run c log nothing = (
    elim (Bool-cases (env log c)) [
      | inl e ↦ omega (arith, acquired-failed r env c log e)
      | inr e ↦ acquired-succeeded r env c log e ∙ rw nothing refl
    ],
    release_calls-attempt r env c log,
  )

  pub Delta-remove_routes :
      (ss : List String) (iface : String) (log : Log)
      → Delta 0 (count r (routes ss iface)) log (remove_routes env ss iface log)
  unfolding remove_routes count
  Delta-remove_routes [] iface log = (omega arith, omega arith)
  Delta-remove_routes (s ∷ ss) iface log =
      Delta-trans 0 (one_if (same (route s iface) r)) 0 (count r (routes ss iface)) log
        (run env (remove_route s iface) log)
        (remove_routes env ss iface (run env (remove_route s iface) log))
        (Delta-run (remove_route s iface) log refl)
        (Delta-remove_routes ss iface (run env (remove_route s iface) log))

  count_snoc :
      (ss : List String) (s iface : String)
      → count r (routes (ss ++ s ∷ []) iface)
        ≡ count r (routes ss iface) + one_if (same (route s iface) r)
  unfolding count
  count_snoc [] s iface = omega arith
  count_snoc (q ∷ ss) s iface = omega (arith, count_snoc ss s iface)

  -- What `add_routes` acquires: all routes, or those that it reports as added.
  abbrev pub AddsRoutes :
      List String → String → List String → Log → Log × Option (List String) → Type 0
  AddsRoutes ss iface added log (log', none) = Delta (count r (routes ss iface)) 0 log log'
  AddsRoutes ss iface added log (log', some all) =
      (acquired r log' + count r (routes added iface) ≡ count r (routes all iface) + acquired r log)
      × (release_calls r log' ≡ release_calls r log)

  pub add_routes-AddsRoutes :
      (ss : List String) (iface : String) (added : List String) (log : Log)
      → AddsRoutes ss iface added log (add_routes env ss iface added log)
  unfolding add_routes count attempt
  add_routes-AddsRoutes [] iface added log = (omega arith, omega arith)
  add_routes-AddsRoutes (s ∷ ss) iface added log =
      go (env log (add_route s iface)) refl (add_routes env ss iface (added ++ s ∷ []) after)
        (add_routes-AddsRoutes ss iface (added ++ s ∷ []) after)
    where
      after : Log
      after = (attempt env (add_route s iface) log).0

      go :
          (b : Bool)
          → env log (add_route s iface) ≡ b
          → (out : Log × Option (List String)) → AddsRoutes ss iface (added ++ s ∷ []) after out
          → AddsRoutes (s ∷ ss) iface added log (if b then (after, some added) else out)
      go true e out h = (
        omega (arith, acquired-failed r env (add_route s iface) log e),
        omega (arith, release_calls-attempt r env (add_route s iface) log),
      )
      go false e (log', none) h = (
        omega (arith, h.0, acquired-succeeded r env (add_route s iface) log e),
        omega (arith, h.1, release_calls-attempt r env (add_route s iface) log),
      )
      go false e (log', some all) h = (
        omega (
          arith,
          h.0,
          acquired-succeeded r env (add_route s iface) log e,
          count_snoc added s iface,
        ),
        omega (arith, h.1, release_calls-attempt r env (add_route s iface) log),
      )
