-- ===== src/Bridge/Ingress/Tests.antt =====
-- internal/bridge/ingress.go and ingress_handler.go: runs with two rules.
use plexd.Base.{ℕ, ◌+◌, String, [], ◌∷◌, true, false, none, some, ◌≡◌, refl}
use plexd.Base.GoMap.{find, has, store, delete, keys}
use plexd.Base.Int.{pos}
use plexd.Api.Types.{IngressRule}
use plexd.Bridge.Config.{Config}
use plexd.Bridge.Resync.{without, desired_items, settle, settle_all, add_absent, resync}
use plexd.Bridge.Resync.Refines.{last_of}
use plexd.Bridge.Ingress.{
  Events, Controller, IngressManager, max_rules_reached, bad_certificate, new_ingress_manager,
  setup, get_rule, rule_ids, accept, end_proxy, close, teardown_rules, teardown, open_rule,
  add_rule, remove_rule, handle_rule_revoked, rules, ingress_status,
}
use plexd.Bridge.Ingress.Listeners.{
  HoldsListeners, start, stop, add, remove, ingress_calls, reachable-HoldsListeners,
}
use plexd.Bridge.Ingress.Counts.{opened, closings, held}
use plexd.Bridge.Ingress.Sync.{reconciled_rules}

abbrev config : Config
config = record {
  enabled = true;
  access_interface = "eth1";
  access_subnets = "10.0.0.0/24" ∷ [];
  enable_nat = none;
  relay_enabled = false;
  relay_listen_port = pos 0;
  max_relay_sessions = pos 0;
  session_ttl = pos 0;
  user_access_enabled = false;
  user_access_interface_name = "";
  user_access_listen_port = pos 0;
  max_access_peers = pos 0;
  ingress_enabled = true;
  max_ingress_rules = pos 1;
  ingress_dial_timeout = pos 10000000000;
  site_to_site_enabled = false;
  site_to_site_interface_prefix = "";
  site_to_site_listen_port = pos 0;
  max_site_to_site_tunnels = pos 0;
}

-- Each listener has the number of events before it, and no key pair is accepted.
abbrev number : Events → ℕ
number [] = 0
number (e ∷ log) = 1 + number log

abbrev controller : Controller
controller = record {
  listen = λ log port tls. some (number log);
  close_fails = λ log ln. false;
  is_key_pair = λ cert key. false;
}

abbrev rule : String → String → String → IngressRule
rule id target mode = record {
  rule_id = id;
  listen_port = pos 443;
  target_addr = target;
  mode = mode;
  cert_pem = "";
  key_pem = "";
}

program : Unit {0}
unfolding new_ingress_manager setup get_rule rule_ids accept end_proxy close teardown_rules teardown
    open_rule add_rule remove_rule handle_rule_revoked ingress_status without desired_items settle
    settle_all add_absent resync opened closings held find has store delete keys
program = tt

abbrev one_rule : IngressManager × Events
one_rule =
    ingress_calls controller (start ∷ add (rule "r" "10.0.0.1:80" "passthrough") ∷ [])
      (new_ingress_manager config, [])

second_refused :
    (add_rule controller (rule "s" "t" "passthrough") one_rule.0 one_rule.1).1
    ≡ some max_rules_reached
unfolding program
second_refused = refl

certificate_refused :
    let m = setup (new_ingress_manager config) in
    (add_rule controller (rule "s" "t" "terminate") m []).1 ≡ some bad_certificate
unfolding program
certificate_refused = refl

one_HoldsListeners : HoldsListeners one_rule
one_HoldsListeners =
    reachable-HoldsListeners controller (start ∷ add (rule "r" "10.0.0.1:80" "passthrough") ∷ [])
      config

reachable-HoldsListeners_example : HoldsListeners (
    ingress_calls controller
      (start ∷ add (rule "r" "10.0.0.1:80" "passthrough") ∷ remove "r" ∷ stop ∷ [])
      (new_ingress_manager config, []))
reachable-HoldsListeners_example =
    reachable-HoldsListeners controller
      (start ∷ add (rule "r" "10.0.0.1:80" "passthrough") ∷ remove "r" ∷ stop ∷ []) config

-- The target of the rule has changed: the rule is restarted.
restarted :
    closings 0 (resync (rules controller) (rule "r" "10.0.0.2:80" "passthrough" ∷ []) one_rule).0.1
    ≡ 1
unfolding program
restarted = refl

reconciled_rules_example :
    get_rule "r"
      (resync (rules controller) (rule "r" "10.0.0.2:80" "passthrough" ∷ []) one_rule).0.0
    ≡ last_of (rules controller) "r" (rule "r" "10.0.0.2:80" "passthrough" ∷ []) none
reconciled_rules_example =
    reconciled_rules controller (rule "r" "10.0.0.2:80" "passthrough" ∷ []) one_rule "r"
      one_HoldsListeners (unfold program in refl)
