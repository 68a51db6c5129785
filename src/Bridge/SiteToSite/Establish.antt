-- ===== src/Bridge/SiteToSite/Establish.antt =====
-- internal/bridge/site_to_site.go: the controller calls of AddTunnel, and those that undo them.
use plexd.Base.{
  one_if, ◌+◌, String, List, [], Bool, true, false, Option, none, some, if◌then◌else◌, arith, ◌≡◌,
  refl,
}
use plexd.Api.Types.{SiteToSiteTunnel}
use plexd.Bridge.Controllers.{
  Call, Log, Env, Resource, interface, peer, forwarding, attempt, run, same, acquired,
  release_calls, count, acquired-failed, acquired-succeeded, release_calls-attempt,
  create_tunnel_interface, remove_tunnel_interface, configure_tunnel_peer, remove_tunnel_peer,
  enable_forwarding, disable_forwarding,
}
use plexd.Bridge.SiteToSite.Calls.{
  tunnel_resources, Delta, AddsRoutes, Delta-run, Delta-remove_routes, add_routes-AddsRoutes,
}
use plexd.Bridge.SiteToSite.{
  TunnelError, remove_routes, add_routes, undo_interface, undo_peer, undo_forwarding, route_tunnel,
  establish, add_route_failed, create_interface_failed, configure_peer_failed,
  enable_forwarding_failed,
}

module _ (r : Resource) (env : Env) where
  -- What `establish` leaves: on success it holds the resources of the tunnel and made no call to release one;
  -- on failure it made as many calls to release as it acquired.
  abbrev pub Establishes : SiteToSiteTunnel → String → Log → Log × Option TunnelError → Type 0
  Establishes t mesh log (log', none) = Delta r env (count r (tunnel_resources t mesh)) 0 log log'
  Establishes t mesh log (log', some e) =
      acquired r log' + release_calls r log ≡ release_calls r log' + acquired r log

  -- The undoing calls release what they name and acquire nothing.
  Delta-undo_interface :
      (t : SiteToSiteTunnel) (log : Log)
      → Delta r env 0 (one_if (same (interface t.interface_name) r)) log (undo_interface env t log)
  unfolding undo_interface
  Delta-undo_interface t log = Delta-run r env (remove_tunnel_interface t.interface_name) log refl

  Delta-undo_peer :
      (t : SiteToSiteTunnel) (log : Log)
      → Delta r env 0
          (one_if (same (peer t.interface_name t.remote_public_key) r)
            + one_if (same (interface t.interface_name) r))
          log
          (undo_peer env t log)
  unfolding undo_peer
  Delta-undo_peer t log =
      let c = remove_tunnel_peer t.interface_name t.remote_public_key in
      let d = Delta-run r env c log refl in
      let e = Delta-undo_interface t (run env c log) in
      (omega (arith, d.0, e.0), omega (arith, d.1, e.1))

  Delta-undo_forwarding :
      (t : SiteToSiteTunnel) (mesh : String) (log : Log)
      → Delta r env 0
          (one_if (same (forwarding t.interface_name mesh) r)
            + (one_if (same (peer t.interface_name t.remote_public_key) r)
                + one_if (same (interface t.interface_name) r)))
          log
          (undo_forwarding env t mesh log)
  unfolding undo_forwarding
  Delta-undo_forwarding t mesh log =
      let c = disable_forwarding t.interface_name mesh in
      let d = Delta-run r env c log refl in
      let e = Delta-undo_peer t (run env c log) in
      (omega (arith, d.0, e.0), omega (arith, d.1, e.1))

  -- The routes, when the rest of the tunnel is held since `log`.
  route_tunnel-Establishes :
      (t : SiteToSiteTunnel) (mesh : String) (log log₃ : Log)
      → Delta r env
          (one_if (same (interface t.interface_name) r)
            + (one_if (same (peer t.interface_name t.remote_public_key) r)
                + one_if (same (forwarding t.interface_name mesh) r)))
          0
          log
          log₃
      → Establishes t mesh log (route_tunnel env t mesh log₃)
  unfolding route_tunnel count
  route_tunnel-Establishes t mesh log log₃ held =
      go (add_routes env t.remote_subnets t.interface_name [] log₃)
        (add_routes-AddsRoutes r env t.remote_subnets t.interface_name [] log₃)
    where
      go :
          (out : Log × Option (List String))
          → AddsRoutes r env t.remote_subnets t.interface_name [] log₃ out
          → Establishes t mesh log (elim out.1 [
            | none ↦ (out.0, none)
            | some added ↦ (
              undo_forwarding env t mesh (remove_routes env added t.interface_name out.0),
              some add_route_failed,
            )
          ])
      go (l, none) h = (omega (arith, h.0, held.0), omega (arith, h.1, held.1))
      go (l, some all) h =
          let d = Delta-remove_routes r env all t.interface_name l in
          let e = Delta-undo_forwarding t mesh (remove_routes env all t.interface_name l) in
          omega (arith, h.0, h.1, d.0, d.1, e.0, e.1, held.0, held.1)

  pub establish-Establishes :
      (t : SiteToSiteTunnel) (mesh : String) (log : Log)
      → Establishes t mesh log (establish env t mesh log)
  unfolding establish attempt
  establish-Establishes t mesh log = go₁ (env log c₁) refl
    where
      c₁ : Call
      c₁ = create_tunnel_interface t.interface_name t.listen_port

      c₂ : Call
      c₂ =
          configure_tunnel_peer t.interface_name t.remote_public_key t.remote_subnets
            t.remote_endpoint t.psk

      c₃ : Call
      c₃ = enable_forwarding t.interface_name mesh

      l₁ : Log
      l₁ = (attempt env c₁ log).0

      l₂ : Log
      l₂ = (attempt env c₂ l₁).0

      l₃ : Log
      l₃ = (attempt env c₃ l₂).0

      go₃ :
          (b : Bool)
          → env l₂ c₃ ≡ b
          → Delta r env
              (one_if (same (interface t.interface_name) r)
                + one_if (same (peer t.interface_name t.remote_public_key) r))
              0
              log
              l₂
          → Establishes t mesh log (
              if b
              then (undo_peer env t l₃, some enable_forwarding_failed)
              else route_tunnel env t mesh l₃)
      go₃ true e h =
          let d = Delta-undo_peer t l₃ in
          omega (
            arith,
            h.0,
            h.1,
            acquired-failed r env c₃ l₂ e,
            release_calls-attempt r env c₃ l₂,
            d.0,
            d.1,
          )
      go₃ false e h = route_tunnel-Establishes t mesh log l₃ (
        omega (arith, h.0, acquired-succeeded r env c₃ l₂ e),
        omega (arith, h.1, release_calls-attempt r env c₃ l₂),
      )

      go₂ :
          (b : Bool)
          → env l₁ c₂ ≡ b
          → Delta r env (one_if (same (interface t.interface_name) r)) 0 log l₁
          → Establishes t mesh log (
              if b
              then (undo_interface env t l₂, some configure_peer_failed)
              else if env l₂ c₃
              then (undo_peer env t l₃, some enable_forwarding_failed)
              else route_tunnel env t mesh l₃)
      go₂ true e h =
          let d = Delta-undo_interface t l₂ in
          omega (
            arith,
            h.0,
            h.1,
            acquired-failed r env c₂ l₁ e,
            release_calls-attempt r env c₂ l₁,
            d.0,
            d.1,
          )
      go₂ false e h = go₃ (env l₂ c₃) refl (
        omega (arith, h.0, acquired-succeeded r env c₂ l₁ e),
        omega (arith, h.1, release_calls-attempt r env c₂ l₁),
      )

      go₁ :
          (b : Bool)
          → env log c₁ ≡ b
          → Establishes t mesh log (
              if b
              then (l₁, some create_interface_failed)
              else if env l₁ c₂
              then (undo_interface env t l₂, some configure_peer_failed)
              else if env l₂ c₃
              then (undo_peer env t l₃, some enable_forwarding_failed)
              else route_tunnel env t mesh l₃)
      go₁ true e = omega (arith, acquired-failed r env c₁ log e, release_calls-attempt r env c₁ log)
      go₁ false e = go₂ (env l₁ c₂) refl (
        omega (arith, acquired-succeeded r env c₁ log e),
        omega (arith, release_calls-attempt r env c₁ log),
      )
