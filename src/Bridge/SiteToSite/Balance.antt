-- ===== src/Bridge/SiteToSite/Balance.antt =====
-- internal/bridge/site_to_site.go: what AddTunnel acquires, and the calls that release it.
use plexd.Base.{
  ◌+◌, String, Bool, true, false, not, Option, none, some, if◌then◌else◌, arith, ◌≡◌, ◌≢◌, refl, ap,
  ◌∙◌, leb, length,
}
use plexd.Base.GoMap.{has, find, store}
use plexd.Api.Types.{SiteToSiteTunnel}
use plexd.Bridge.Controllers.{
  Log, Env, Resource, run, acquired, release_calls, released, failed_releases, release_calls-split,
  count, remove_tunnel_interface, remove_tunnel_peer, disable_forwarding,
}
use plexd.Bridge.SiteToSite.Establish.{Establishes, establish-Establishes}
use plexd.Bridge.SiteToSite.Calls.{tunnel_resources, Delta-run, Delta-remove_routes}
use plexd.Bridge.SiteToSite.{
  ActiveTunnel, SiteToSiteManager, TunnelError, remove_routes, establish, add_tunnel, dismantle,
  remove_tunnel, not_active, tunnel_exists, max_tunnels_reached,
}

module _ (r : Resource) (env : Env) where
  -- What a call of `add_tunnel` leaves of the resource.
  abbrev Leaves :
      SiteToSiteTunnel
      → SiteToSiteManager
      → Log
      → (SiteToSiteManager × Log) × Option TunnelError
      → Type 0
  Leaves t m log ((m', log'), none) =
      (acquired r log' ≡ count r (tunnel_resources t m.mesh_iface) + acquired r log)
      × (release_calls r log' ≡ release_calls r log)
  Leaves t m log ((m', log'), some e) =
      acquired r log' + release_calls r log ≡ release_calls r log' + acquired r log

  add_tunnel-Leaves :
      (t : SiteToSiteTunnel) (m : SiteToSiteManager) (log : Log)
      → Leaves t m log (add_tunnel env t m log)
  unfolding add_tunnel
  add_tunnel-Leaves t m log =
      go m.active (has t.tunnel_id m.active_tunnels)
        (leb m.max_site_to_site_tunnels (length m.active_tunnels))
    where
      made :
          (out : Log × Option TunnelError)
          → Establishes r env t m.mesh_iface log out
          → Leaves t m log (elim out.1 [
            | some e ↦ ((m, out.0), some e)
            | none ↦ (
              (
                record m {
                  active_tunnels =
                      store t.tunnel_id
                        (record { tunnel = t; iface = t.interface_name })
                        m.active_tunnels;
                },
                out.0,
              ),
              none,
            )
          ])
      made (l, none) h = (h.0, omega (arith, h.1))
      made (l, some e) h = h

      go :
          (a b c : Bool)
          → Leaves t m log (
              if not a
              then ((m, log), some not_active)
              else if b
              then ((m, log), some tunnel_exists)
              else if c
              then ((m, log), some max_tunnels_reached)
              else (let (l, err) = establish env t m.mesh_iface log in
                  elim err [
                    | some e ↦ ((m, l), some e)
                    | none ↦ (
                      (
                        record m {
                          active_tunnels =
                              store t.tunnel_id
                                (record { tunnel = t; iface = t.interface_name })
                                m.active_tunnels;
                        },
                        l,
                      ),
                      none,
                    )
                  ]))
      go false b c = omega arith
      go true true c = omega arith
      go true false true = omega arith
      go true false false =
          made (establish env t m.mesh_iface log) (establish-Establishes r env t m.mesh_iface log)

  -- A tunnel that cannot be added releases what it acquired, or the call to release it fails as well:
  -- the successful acquisitions of each resource in the call are as many as its releases and failed
  -- releases together, whichever controller calls fail.
  pub failed_add_releases :
      (t : SiteToSiteTunnel) (m : SiteToSiteManager) (log : Log)
      → (add_tunnel env t m log).1 ≢ none
      → acquired r (add_tunnel env t m log).0.1 + (released r log + failed_releases r log)
        ≡ released r (add_tunnel env t m log).0.1
          + failed_releases r (add_tunnel env t m log).0.1
          + acquired r log
  failed_add_releases t m log failed = omega (
    arith,
    go (add_tunnel env t m log) (add_tunnel-Leaves t m log) failed,
    release_calls-split r log,
    release_calls-split r (add_tunnel env t m log).0.1,
  )
    where
      go :
          (out : (SiteToSiteManager × Log) × Option TunnelError)
          → Leaves t m log out
          → out.1 ≢ none
          → acquired r out.0.1 + release_calls r log ≡ release_calls r out.0.1 + acquired r log
      go ((m', l), none) h f = absurd (f refl)
      go ((m', l), some e) h f = h

  -- The tunnel as `add_tunnel` records it.
  abbrev as_added : SiteToSiteTunnel → ActiveTunnel
  as_added t = record { tunnel = t; iface = t.interface_name }

  dismantle_releases :
      (t : SiteToSiteTunnel) (mesh : String) (log : Log)
      → release_calls r (dismantle env (as_added t) mesh log)
        ≡ count r (tunnel_resources t mesh) + release_calls r log
  unfolding dismantle count
  dismantle_releases t mesh log =
      let l₁ = remove_routes env t.remote_subnets t.interface_name log in
      let c₁ = disable_forwarding t.interface_name mesh in
      let l₂ = run env c₁ l₁ in
      let c₂ = remove_tunnel_peer t.interface_name t.remote_public_key in
      let l₃ = run env c₂ l₂ in
      omega (
        arith,
        (Delta-remove_routes r env t.remote_subnets t.interface_name log).1,
        (Delta-run r env c₁ l₁ refl).1,
        (Delta-run r env c₂ l₂ refl).1,
        (Delta-run r env (remove_tunnel_interface t.interface_name) l₃ refl).1,
      )

  remove_tunnel_releases :
      (t : SiteToSiteTunnel) (m : SiteToSiteManager) (log : Log)
      → m.active ≡ true
      → find t.tunnel_id m.active_tunnels ≡ some (as_added t)
      → release_calls r (remove_tunnel env t.tunnel_id m log).1
        ≡ count r (tunnel_resources t m.mesh_iface) + release_calls r log
  unfolding remove_tunnel
  remove_tunnel_releases t m log active there =
      rw (active, there, remove_tunnel) (dismantle_releases t m.mesh_iface log)

  -- Removing a tunnel calls for the release of what adding it acquired: over a successful `add_tunnel`
  -- and a later removal of the tunnel from a manager that has it on the same mesh interface, whatever
  -- the controller calls of the removal report, the two numbers are the same for each resource.
  pub removed_releases_added :
      (t : SiteToSiteTunnel) (m n : SiteToSiteManager) (log later : Log)
      → (add_tunnel env t m log).1 ≡ none
      → n.active ≡ true
      → n.mesh_iface ≡ m.mesh_iface
      → find t.tunnel_id n.active_tunnels ≡ some (record { tunnel = t; iface = t.interface_name })
      → release_calls r (remove_tunnel env t.tunnel_id n later).1 + acquired r log
        ≡ acquired r (add_tunnel env t m log).0.1 + release_calls r later
  removed_releases_added t m n log later ok active mesh there =
      go (add_tunnel env t m log) (add_tunnel-Leaves t m log) ok
    where
      removal :
          release_calls r (remove_tunnel env t.tunnel_id n later).1
          ≡ count r (tunnel_resources t m.mesh_iface) + release_calls r later
      removal =
          remove_tunnel_releases t n later active there
          ∙ ap (λ (i : String). count r (tunnel_resources t i) + release_calls r later) mesh

      go :
          (out : (SiteToSiteManager × Log) × Option TunnelError)
          → Leaves t m log out
          → out.1 ≡ none
          → release_calls r (remove_tunnel env t.tunnel_id n later).1 + acquired r log
            ≡ acquired r out.0.1 + release_calls r later
      go ((m', l), none) h f = omega (arith, removal, h.0)
      go ((m', l), some e) h f = absurd (ground arith)
