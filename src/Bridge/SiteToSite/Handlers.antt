-- ===== src/Bridge/SiteToSite/Handlers.antt =====
-- internal/bridge/site_to_site_handler.go: the events and the reconciliation of the tunnels. Slices
-- are lists here, so reflect.DeepEqual, which tells a nil slice from an empty one, is their equality.
use plexd.Base.{
  String, List, [], ◌∷◌, Bool, true, false, ◌&&◌, ◌==◌, Option, none, some, if◌then◌else◌, contains,
  arith, ◌≡◌, ◌↔◌, inl, inr, refl, ap, ◌∙◌, sym, Bool-cases, Option-cases, String-cases, IsSome,
  eq_iff,
}
use plexd.Base.GoMap.{find, find-store, find-delete, contains-keys, has-true, has-false}
use plexd.Base.Int.{eqb_ℤ, eqb_ℤ_iff}
use plexd.Api.Types.{SiteToSiteTunnel, StateResponse}
use plexd.Bridge.Controllers.{Log, Env}
use plexd.Bridge.Resync.{Managed, resync}
use plexd.Bridge.Resync.Refines.{IsLawful, last_of, resync_get}
use plexd.Bridge.SiteToSite.{
  ActiveTunnel, SiteToSiteManager, TunnelError, get_tunnel, tunnel_ids, add_tunnel, remove_tunnel,
}
use plexd.Bridge.SiteToSite.Tunnels.{HoldsTunnels, add-HoldsTunnels, remove-HoldsTunnels}

pub data TunnelEventError : Type 0 where
  bad_payload : TunnelEventError
  not_added : TunnelError → TunnelEventError

abbrev same_strings : List String → List String → Bool
same_strings [] [] = true
same_strings (a ∷ as') (b ∷ bs) = a == b && same_strings as' bs
same_strings _ _ = false

-- `reflect.DeepEqual(currentTunnel, desiredTunnel)`
abbrev pub same_tunnel : SiteToSiteTunnel → SiteToSiteTunnel → Bool
same_tunnel a b =
    a.tunnel_id == b.tunnel_id
    && a.remote_endpoint == b.remote_endpoint
    && a.remote_public_key == b.remote_public_key
    && same_strings a.local_subnets b.local_subnets
    && same_strings a.remote_subnets b.remote_subnets
    && a.psk == b.psk
    && a.interface_name == b.interface_name
    && eqb_ℤ a.listen_port b.listen_port

abbrev failed_with : Option TunnelError → Bool
failed_with none = false
failed_with (some e) = true

module _ (env : Env) where
  -- The payload as json.Unmarshal reads it; `none` is a payload that it refuses.
  unfoldable pub handle_tunnel_assigned :
      Option SiteToSiteTunnel
      → SiteToSiteManager
      → Log
      → (SiteToSiteManager × Log) × Option TunnelEventError
  handle_tunnel_assigned none m log = ((m, log), some bad_payload)
  handle_tunnel_assigned (some t) m log =
      let (s, err) = add_tunnel env t m log in
      (s, elim err [ none ↦ none | some e ↦ some (not_added e) ])

  unfoldable pub handle_tunnel_revoked :
      Option String → SiteToSiteManager → Log → (SiteToSiteManager × Log) × Option TunnelEventError
  handle_tunnel_revoked none m log = ((m, log), some bad_payload)
  handle_tunnel_revoked (some id) m log = (remove_tunnel env id m log, none)

  -- The manager with its controllers, as the reconciliation uses it.
  abbrev pub tunnels : Managed (SiteToSiteManager × Log) SiteToSiteTunnel
  tunnels = record {
    id_of = λ t. t.tunnel_id;
    ids = λ s. tunnel_ids s.0;
    get = λ id s. get_tunnel id s.0;
    remove = λ id s. remove_tunnel env id s.0 s.1;
    add = λ t s. ((add_tunnel env t s.0 s.1).0, failed_with (add_tunnel env t s.0 s.1).1);
    equal = same_tunnel;
  }

  unfoldable pub site_to_site_reconcile_handler :
      Option StateResponse → SiteToSiteManager × Log → (SiteToSiteManager × Log) × Bool
  site_to_site_reconcile_handler none s = (s, false)
  site_to_site_reconcile_handler (some desired) s = elim desired.site_to_site_config [
    | none ↦ (s, false)
    | some config ↦ resync tunnels config.tunnels s
  ]

same_strings_iff : (xs ys : List String) → (same_strings xs ys ≡ true) ↔ (xs ≡ ys)
same_strings_iff [] [] = ground arith
same_strings_iff [] (y ∷ ys) = ground arith
same_strings_iff (x ∷ xs) [] = ground arith
same_strings_iff (x ∷ xs) (y ∷ ys) = ground (arith, eq_iff x y, same_strings_iff xs ys)

same_tunnel_iff : (a b : SiteToSiteTunnel) → (same_tunnel a b ≡ true) ↔ (a ≡ b)
same_tunnel_iff a b = ground (
  arith,
  eq_iff a.tunnel_id b.tunnel_id,
  eq_iff a.remote_endpoint b.remote_endpoint,
  eq_iff a.remote_public_key b.remote_public_key,
  same_strings_iff a.local_subnets b.local_subnets,
  same_strings_iff a.remote_subnets b.remote_subnets,
  eq_iff a.psk b.psk,
  eq_iff a.interface_name b.interface_name,
  eqb_ℤ_iff a.listen_port b.listen_port,
)

listed :
    (j : String) (m : SiteToSiteManager)
    → contains j (tunnel_ids m) ≡ true
    → IsSome (get_tunnel j m)
unfolding tunnel_ids get_tunnel
listed j m h =
    let (at, found) = has-true j m.active_tunnels (sym (contains-keys j m.active_tunnels) ∙ h) in
    rw (found, get_tunnel) tt

not_listed :
    (j : String) (m : SiteToSiteManager) → contains j (tunnel_ids m) ≡ false → get_tunnel j m ≡ none
unfolding tunnel_ids get_tunnel
not_listed j m h =
    let absent = has-false j m.active_tunnels (sym (contains-keys j m.active_tunnels) ∙ h) in
    rw (absent, get_tunnel) refl

module _ (env : Env) (j : String) where
  find-removed :
      (k : String) (m : SiteToSiteManager) (log : Log)
      → HoldsTunnels m
      → find j (remove_tunnel env k m log).0.active_tunnels
        ≡ (if k == j then none else find j m.active_tunnels)
  unfolding remove_tunnel
  find-removed k m log h = elim (Bool-cases m.active) [
    | inr off ↦ ground (arith, h.inactive off, ap (find j) (h.inactive off), find-none)
    | inl on ↦ elim (Option-cases (find k m.active_tunnels)) [
      | inl gone ↦ elim (String-cases k j) [
        | inl (same, e) ↦ ground (arith, ap (λ (x : String). find x m.active_tunnels) e)
        | inr (other, n) ↦ ground arith
      ]
      | inr (at, found) ↦ ground (arith, find-delete k j m.active_tunnels)
    ]
  ]
    where
      find-none : find {V = ActiveTunnel} j [] ≡ none
      find-none = unfold find in refl

  get-removed :
      (k : String) (m : SiteToSiteManager) (log : Log)
      → HoldsTunnels m
      → get_tunnel j (remove_tunnel env k m log).0 ≡ (if k == j then none else get_tunnel j m)
  unfolding get_tunnel
  get-removed k m log h = ground (arith, find-removed k m log h)

  get-added :
      (t : SiteToSiteTunnel) (m : SiteToSiteManager) (log : Log)
      → failed_with (add_tunnel env t m log).1 ≡ false
      → get_tunnel j (add_tunnel env t m log).0.0
        ≡ (if t.tunnel_id == j then some t else get_tunnel j m)
  unfolding get_tunnel add_tunnel
  get-added t m log h = ground (
    arith,
    find-store t.tunnel_id j (record { tunnel = t; iface = t.interface_name }) m.active_tunnels,
  )

tunnels-IsLawful : (env : Env) → IsLawful (tunnels env) (λ s. HoldsTunnels s.0)
tunnels-IsLawful env = record {
  equal_iff = same_tunnel_iff;
  ids_get = λ j s h. listed j s.0;
  get_ids = λ j s h. not_listed j s.0;
  remove_keeps = λ k s h. remove-HoldsTunnels env k s.0 s.1 h;
  get_remove = λ k j s h. get-removed env j k s.0 s.1 h;
  add_keeps = λ x s h. add-HoldsTunnels env x s.0 s.1 h;
  get_add = λ x j s h ok. get-added env j x s.0 s.1 ok;
}

-- A reconciliation of a manager in a reachable state that reports no error leaves under each id the
-- last tunnel of the desired state that has the id, as it is desired, and none under any other id.
pub reconciled_tunnels :
    (env : Env) (items : List SiteToSiteTunnel) (s : SiteToSiteManager × Log) (j : String)
    → HoldsTunnels s.0
    → (resync (tunnels env) items s).1 ≡ false
    → get_tunnel j (resync (tunnels env) items s).0.0 ≡ last_of (tunnels env) j items none
reconciled_tunnels env items s j h =
    resync_get (tunnels env) (λ x. HoldsTunnels x.0) (tunnels-IsLawful env) j items s h
