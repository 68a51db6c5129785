-- ===== src/Bridge/Manager/Tracking.antt =====
-- internal/bridge/manager.go: the routes that a setup adds, and those that the manager tracks.
use plexd.Base.{
  one_if, ℕ, ◌+◌, String, List, [], ◌∷◌, false, All, NoRepeats, contains, arith, ◌≡◌, refl, eq_iff,
}
use plexd.Base.GoMap.{has, store, keys, has-store}
use plexd.Bridge.Controllers.{Resource, route, same, count}
use plexd.Bridge.Manager.{SubnetSet, Manager, track}
use plexd.Bridge.SiteToSite.Calls.{routes}

module _ (r : Resource) (iface : String) where
  -- How often the resource stands among the routes of the set.
  abbrev tracked : SubnetSet → ℕ
  tracked m = count r (routes (keys m) iface)

  tracked-store :
      (s : String) (m : SubnetSet)
      → has s m ≡ false
      → tracked (store s tt m) ≡ one_if (same (route s iface) r) + tracked m
  unfolding store keys count has
  tracked-store s [] h = refl
  tracked-store s ((t, u) ∷ m) h = ground (arith, tracked-store s m)

  stays_absent :
      (s : String) (ss : List String) (m : SubnetSet)
      → contains s ss ≡ false
      → All (λ t. has t m ≡ false) ss
      → All (λ t. has t (store s tt m) ≡ false) ss
  stays_absent s [] m h a = tt
  stays_absent s (t ∷ ss) m h a = (
    ground (arith, has-store s t tt m, eq_iff s t, eq_iff t s),
    stays_absent s ss m (ground arith) a.1,
  )

  -- The set that Setup tracks has each subnet once.
  tracked-track :
      (ss : List String) (m : SubnetSet)
      → NoRepeats ss
      → All (λ s. has s m ≡ false) ss
      → tracked (track ss m) ≡ count r (routes ss iface) + tracked m
  unfolding track count
  tracked-track [] m d a = omega arith
  tracked-track (s ∷ ss) m d a = omega (
    arith,
    tracked-track ss (store s tt m) d.1 (stays_absent s ss m d.0 a.1),
    tracked-store s m a.0,
  )

-- A manager that tracked nothing tracks each subnet of its configuration once.
pub tracked_fresh :
    (r : Resource) (iface : String) (m : Manager)
    → NoRepeats m.cfg.access_subnets
    → m.active_routes ≡ []
    → count r (routes (keys (track m.cfg.access_subnets m.active_routes)) iface)
      ≡ count r (routes m.cfg.access_subnets iface)
unfolding count has keys
tracked_fresh r iface m distinct fresh = rw fresh (
    omega
      (arith, tracked-track r iface m.cfg.access_subnets [] distinct (absent m.cfg.access_subnets)))
  where
    absent : (ss : List String) → All (λ s. has {V = Unit {0}} s [] ≡ false) ss
    absent [] = tt
    absent (s ∷ ss) = (refl, absent ss)
