-- ===== src/Bridge/SiteToSite/Tunnels.antt =====
-- internal/bridge/site_to_site.go: the tunnels that a manager holds after any calls.
use mathlib.Core.Path.{subst}
use plexd.Base.{
  ℕ, ◌≤◌, String, List, [], ◌∷◌, Bool, true, false, not, leb, Option, none, some, if◌then◌else◌,
  length, arith, ◌≡◌, inl, inr, refl, sym, ap, Bool-cases, Option-cases,
}
use plexd.Base.GoMap.{
  has, find, store, Distinct, find-store_cases, find-delete_cases, store-Distinct, delete-Distinct,
  length-store_new, length-delete-le,
}
use plexd.Api.Types.{SiteToSiteTunnel}
use plexd.Bridge.Controllers.{Log, Env}
use plexd.Bridge.SiteToSite.{
  ActiveTunnel, SiteToSiteManager, TunnelError, new_site_to_site_manager, setup, establish,
  add_tunnel, remove_tunnel, teardown, not_active, tunnel_exists, max_tunnels_reached,
  teardown_tunnels,
}

pub record HoldsTunnels (m : SiteToSiteManager) : Type 0 where
  -- A tunnel stands under its own id, on its own interface.
  pub keyed :
      (id : String) (at : ActiveTunnel)
      → find id m.active_tunnels ≡ some at
      → (at.tunnel.tunnel_id ≡ id) × (at.iface ≡ at.tunnel.interface_name)
  pub distinct : Distinct m.active_tunnels
  pub bounded : length m.active_tunnels ≤ m.max_site_to_site_tunnels
  -- Only an active manager holds tunnels.
  pub inactive : m.active ≡ false → m.active_tunnels ≡ []

pub data TunnelCall : Type 0 where
  start : String → TunnelCall
  add : SiteToSiteTunnel → TunnelCall
  remove : String → TunnelCall
  stop : TunnelCall

module _ (env : Env) where
  abbrev pub tunnel_call : TunnelCall → SiteToSiteManager × Log → SiteToSiteManager × Log
  tunnel_call (start mesh) (m, log) = (setup mesh m, log)
  tunnel_call (add t) (m, log) = (add_tunnel env t m log).0
  tunnel_call (remove id) (m, log) = remove_tunnel env id m log
  tunnel_call stop (m, log) = (teardown env m log).0

  abbrev pub tunnel_calls : List TunnelCall → SiteToSiteManager × Log → SiteToSiteManager × Log
  tunnel_calls [] s = s
  tunnel_calls (c ∷ cs) s = tunnel_calls cs (tunnel_call c s)

  start-HoldsTunnels :
      (mesh : String) (m : SiteToSiteManager) → HoldsTunnels m → HoldsTunnels (setup mesh m)
  unfolding setup
  start-HoldsTunnels mesh m h = go m.site_to_site_enabled
    where
      go :
          (b : Bool)
          → HoldsTunnels (if not b then m else record m { active = true; mesh_iface = mesh })
      go false = h
      go true = record {
        keyed = h.keyed;
        distinct = h.distinct;
        bounded = h.bounded;
        inactive = λ e. absurd (ground arith);
      }

  pub add-HoldsTunnels :
      (t : SiteToSiteTunnel) (m : SiteToSiteManager) (log : Log)
      → HoldsTunnels m
      → HoldsTunnels (add_tunnel env t m log).0.0
  unfolding add_tunnel
  add-HoldsTunnels t m log h =
      go m.active (has t.tunnel_id m.active_tunnels)
        (leb m.max_site_to_site_tunnels (length m.active_tunnels)) refl refl refl
    where
      added : ActiveTunnel
      added = record { tunnel = t; iface = t.interface_name }

      with_tunnel : SiteToSiteManager
      with_tunnel = record m { active_tunnels = store t.tunnel_id added m.active_tunnels }

      made :
          m.active ≡ true
          → has t.tunnel_id m.active_tunnels ≡ false
          → leb m.max_site_to_site_tunnels (length m.active_tunnels) ≡ false
          → HoldsTunnels with_tunnel
      made active new room = record {
        keyed = λ id at e. elim (find-store_cases t.tunnel_id id added at m.active_tunnels e) [
          | inl (k, v) ↦
              subst (λ x. (x.tunnel.tunnel_id ≡ id) × (x.iface ≡ x.tunnel.interface_name)) v
                (k, refl)
          | inr (_, old) ↦ h.keyed id at old
        ];
        distinct = store-Distinct t.tunnel_id added m.active_tunnels h.distinct;
        bounded = (let n = length-store_new t.tunnel_id added m.active_tunnels new in ground arith);
        inactive = λ e. absurd (ground arith);
      }

      result :
          (out : Log × Option TunnelError)
          → HoldsTunnels with_tunnel
          → let x : (SiteToSiteManager × Log) × Option TunnelError = elim out.1 [
            | some e ↦ ((m, out.0), some e)
            | none ↦ ((with_tunnel, out.0), none)
          ] in
            HoldsTunnels x.0.0
      result (l, none) w = w
      result (l, some e) w = h

      go :
          (a b c : Bool)
          → m.active ≡ a
          → has t.tunnel_id m.active_tunnels ≡ b
          → leb m.max_site_to_site_tunnels (length m.active_tunnels) ≡ c
          → let x : (SiteToSiteManager × Log) × Option TunnelError =
              (if not a
                then ((m, log), some not_active)
                else if b
                then ((m, log), some tunnel_exists)
                else if c
                then ((m, log), some max_tunnels_reached)
                else (let (l, err) = establish env t m.mesh_iface log in
                    elim err [ some e ↦ ((m, l), some e) | none ↦ ((with_tunnel, l), none) ])) in
            HoldsTunnels x.0.0
      go false b c ea eb ec = h
      go true true c ea eb ec = h
      go true false true ea eb ec = h
      go true false false ea eb ec = result (establish env t m.mesh_iface log) (made ea eb ec)

  pub remove-HoldsTunnels :
      (id : String) (m : SiteToSiteManager) (log : Log)
      → HoldsTunnels m
      → HoldsTunnels (remove_tunnel env id m log).0
  unfolding remove_tunnel
  remove-HoldsTunnels id m log h = elim (Bool-cases m.active) [
    | inr off ↦ subst HoldsTunnels (sym (ap (λ (x : SiteToSiteManager × Log). x.0) (idle off))) h
    | inl active ↦ elim (Option-cases (find id m.active_tunnels)) [
      | inl e ↦ rw (active, e, remove_tunnel) h
      | inr (at, e) ↦
          rw (active, e, remove_tunnel)
            (record {
              keyed = λ j x f. h.keyed j x (find-delete_cases id j x m.active_tunnels f).1;
              distinct = delete-Distinct id m.active_tunnels h.distinct;
              bounded =
                  (let n = length-delete-le id m.active_tunnels in
                    let b = h.bounded in omega arith);
              inactive = λ f. absurd (ground arith);
            })
    ]
  ]
    where
      idle : m.active ≡ false → remove_tunnel env id m log ≡ (m, log)
      idle off = rw (off, remove_tunnel) refl

  stop-HoldsTunnels :
      (m : SiteToSiteManager) (log : Log) → HoldsTunnels m → HoldsTunnels (teardown env m log).0.0
  unfolding teardown find
  stop-HoldsTunnels m log h = go m.active
    where
      empty : HoldsTunnels (record m { active = false; active_tunnels = [] })
      empty = record {
        keyed = λ id at e. absurd (ground arith);
        distinct = tt;
        bounded = omega arith;
        inactive = λ e. refl;
      }

      go :
          (b : Bool)
          → let x : (SiteToSiteManager × Log) × Bool =
              (if not b then ((m, log), false) else (
                (
                  record m { active = false; active_tunnels = [] },
                  (teardown_tunnels env m.active_tunnels m.mesh_iface log).0,
                ),
                (teardown_tunnels env m.active_tunnels m.mesh_iface log).1,
              )) in
            HoldsTunnels x.0.0
      go false = h
      go true = empty

  calls-HoldsTunnels :
      (cs : List TunnelCall) (s : SiteToSiteManager × Log)
      → HoldsTunnels s.0
      → HoldsTunnels (tunnel_calls cs s).0
  calls-HoldsTunnels [] s h = h
  calls-HoldsTunnels (start mesh ∷ cs) (m, log) h =
      calls-HoldsTunnels cs (setup mesh m, log) (start-HoldsTunnels mesh m h)
  calls-HoldsTunnels (add t ∷ cs) (m, log) h =
      calls-HoldsTunnels cs (add_tunnel env t m log).0 (add-HoldsTunnels t m log h)
  calls-HoldsTunnels (remove id ∷ cs) (m, log) h =
      calls-HoldsTunnels cs (remove_tunnel env id m log) (remove-HoldsTunnels id m log h)
  calls-HoldsTunnels (stop ∷ cs) (m, log) h =
      calls-HoldsTunnels cs (teardown env m log).0 (stop-HoldsTunnels m log h)

  -- After any calls on a new manager, whatever the controllers report, each tunnel stands under its
  -- own id and on its own interface, no id stands twice, there are no more tunnels than the maximum,
  -- and a manager that is not active holds none.
  pub reachable-HoldsTunnels :
      (cs : List TunnelCall) (enabled : Bool) (max_tunnels : ℕ)
      → HoldsTunnels (tunnel_calls cs (new_site_to_site_manager enabled max_tunnels, [])).0
  unfolding new_site_to_site_manager find
  reachable-HoldsTunnels cs enabled max_tunnels =
      calls-HoldsTunnels cs (new_site_to_site_manager enabled max_tunnels, [])
        (record {
          keyed = λ id at e. absurd (ground arith);
          distinct = tt;
          bounded = omega arith;
          inactive = λ e. refl;
        })
