-- ===== src/Policy/Enforcer.antt =====
-- internal/policy/enforcer.go: the engine and a firewall together.
pub mod Denies
use plexd.Base.{String, List, [], Bool, true, false, not, ◌==◌, Option, none, some, if◌then◌else◌}
use plexd.Base.GoMap.{GoMap}
use plexd.Api.Types.{Peer, Policy}
use plexd.Policy.Firewall.{FirewallRule}
use plexd.Policy.Engine
use plexd.Policy.Engine.{build_firewall_rules}
use plexd.Policy.Settings.{Config, apply_defaults}

-- The Go interface FirewallController, over the world that it acts on. `true` is an error.
pub record FirewallController (W : Type 0) : Type 0 where
  pub ensure_chain : W → String → W × Bool
  pub apply_rules : W → String → List FirewallRule → W × Bool
  pub flush_chain : W → String → W × Bool
  pub delete_chain : W → String → W × Bool

pub record Enforcer (W : Type 0) : Type 0 where
  pub firewall : Option (FirewallController W)
  pub cfg : Config

module _ {W : Type 0} where
  unfoldable pub new_enforcer : Option (FirewallController W) → Config → Enforcer W
  new_enforcer firewall cfg = record { firewall = firewall; cfg = apply_defaults cfg }

  unfoldable pub filter_peers : Enforcer W → List Peer → List Policy → String → List Peer
  filter_peers e peers policies local =
      if not e.cfg.enabled then peers else Engine.filter_peers peers policies local

  -- `true` is an error.
  unfoldable pub install : FirewallController W → String → List FirewallRule → W → W × Bool
  install fw chain rules w =
      let (w₁, ensure_err) = fw.ensure_chain w chain in
      if ensure_err then (w₁, true) else fw.apply_rules w₁ chain rules

  unfoldable pub apply_firewall_rules :
      Enforcer W → W → List Policy → String → String → GoMap String → W × Bool
  apply_firewall_rules e w policies local iface peers_by_id =
      if not e.cfg.enabled then (w, false) else (elim e.firewall [
        | none ↦ (w, false)
        | some fw ↦
            install fw e.cfg.chain_name (build_firewall_rules policies local iface peers_by_id) w
      ])

  unfoldable pub teardown : Enforcer W → W → W × Bool
  teardown e w = elim e.firewall [
    | none ↦ (w, false)
    | some fw ↦
        (let (w₁, flush_err) = fw.flush_chain w e.cfg.chain_name in
          if flush_err then (w₁, true) else fw.delete_chain w₁ e.cfg.chain_name)
  ]
