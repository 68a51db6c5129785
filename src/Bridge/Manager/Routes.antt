-- ===== src/Bridge/Manager/Routes.antt =====
-- internal/bridge/manager.go: which routes UpdateRoutes leaves.
use plexd.Base.{
  String, List, [], ◌∷◌, Bool, false, not, ◌&&◌, ◌||◌, contains, arith, ◌≡◌, refl, ap, inl, inr,
  Bool-cases, String-cases,
}
use plexd.Base.GoMap.{has, store, delete, has-store, has-delete}
use plexd.Bridge.Controllers.{Log, Env, attempt, add_route, remove_route}
use plexd.Bridge.Manager.{SubnetSet, Manager, track, remove_stale, add_missing, update_routes}

has-track :
    (s : String) (ss : List String) (m : SubnetSet)
    → has s (track ss m) ≡ (contains s ss || has s m)
unfolding track
has-track s [] m = refl
has-track s (t ∷ ss) m = ground (arith, has-track s ss (store t tt m), has-store t s tt m)

module _ (env : Env) (iface : String) (s : String) where
  -- The result of a loop that reports no error has `s` just if `b`.
  abbrev Leaves : Bool → (SubnetSet × Log) × Bool → Type 0
  Leaves b ((routes, log), failed) = failed ≡ false → has s routes ≡ b

  remove_stale-Leaves :
      (rest desired routes : SubnetSet) (log : Log)
      → Leaves
          (has s routes && (has s desired || not (has s rest)))
          (remove_stale env rest desired iface routes log)
  unfolding remove_stale has attempt
  remove_stale-Leaves [] desired routes log h = ground arith
  remove_stale-Leaves ((t, u) ∷ rest) desired routes log h = elim (String-cases t s) [
    | inl (same, e) ↦ elim (Bool-cases (has t desired)) [
      | inl wanted ↦
          ground (
            arith,
            remove_stale-Leaves rest desired routes log,
            ap (λ (x : String). has x desired) e,
          )
      | inr stale ↦ ground (
        arith,
        remove_stale-Leaves rest desired (delete t routes)
            (attempt env (remove_route t iface) log).0,
        has-delete t s routes,
        ap (λ (x : String). has x desired) e,
      )
    ]
    | inr (other, n) ↦ elim (Bool-cases (has t desired)) [
      | inl wanted ↦ ground (arith, remove_stale-Leaves rest desired routes log)
      | inr stale ↦ ground (
        arith,
        remove_stale-Leaves rest desired (delete t routes)
            (attempt env (remove_route t iface) log).0,
        has-delete t s routes,
      )
    ]
  ]

  add_missing-Leaves :
      (ss : List String) (routes : SubnetSet) (log : Log)
      → Leaves (contains s ss || has s routes) (add_missing env ss iface routes log)
  unfolding add_missing attempt
  add_missing-Leaves [] routes log h = refl
  add_missing-Leaves (t ∷ ss) routes log h = elim (Bool-cases (has t routes)) [
    | inl there ↦ elim (String-cases t s) [
      | inl (same, e) ↦
          ground (arith, add_missing-Leaves ss routes log, ap (λ (x : String). has x routes) e)
      | inr (other, n) ↦ ground (arith, add_missing-Leaves ss routes log)
    ]
    | inr absent ↦ ground (
      arith,
      add_missing-Leaves ss (store t tt routes) (attempt env (add_route t iface) log).0,
      has-store t s tt routes,
    )
  ]

-- An update that reports no error leaves exactly the desired subnets routed.
pub updated_routes :
    (env : Env) (subnets : List String) (m : Manager) (log : Log) (s : String)
    → (update_routes env subnets m log).1 ≡ false
    → has s (update_routes env subnets m log).0.0.active_routes ≡ contains s subnets
unfolding update_routes has
updated_routes env subnets m log s h =
    let iface = m.cfg.access_interface in
    let desired = track subnets [] in
    let kept = remove_stale env m.active_routes desired iface m.active_routes log in
    ground (
      arith,
      has-track s subnets [],
      remove_stale-Leaves env iface s m.active_routes desired m.active_routes log,
      add_missing-Leaves env iface s subnets kept.0.0 kept.0.1,
    )
