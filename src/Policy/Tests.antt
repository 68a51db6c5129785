-- ===== src/Policy/Tests.antt =====
-- internal/policy: runs at concrete policies.
use plexd.Base.{
  String, List, [], ◌∷◌, true, false, none, some, ◌==◌, if◌then◌else◌, ◌≡◌, ◌↔◌, refl, ◌≢◌, arith,
  ◌⊎◌, eq_iff,
}
use plexd.Base.GoMap.{GoMap, find, has, store, delete}
use plexd.Base.Int.{pos}
use plexd.Api.Types.{Peer, Policy, PolicyRule}
use plexd.Policy.Engine.{
  rule_allows, some_rule_allows, peer_allowed, filter_allowed, filter_peers, is_valid_protocol,
  resolve_ip, resolve_wildcard, rule_ips, firewall_rule, rules_of, policy_rules, default_deny,
  build_firewall_rules,
}
use plexd.Policy.Engine.Visible.{Among, Connects, SomePolicy, Among-filter_peers}
use plexd.Policy.Engine.Rules.{AmongRules, Yields, made, AmongRules-policy_rules}
use plexd.Policy.Nftables
use plexd.Policy.Nftables.{
  Cidr, Host, Built, built, failed, Netlink, Kernel, all_built, iface_name_bytes, port_bytes,
  protocol_number, match_network, build_ip_match_exprs, interface_match, address_match,
  protocol_match, port_match, verdict, build_rule_exprs, build_rules, commit,
}
use plexd.Policy.Nftables.Apply.{Compiled, SomeRefused, apply_rules_replaces}
use plexd.Policy.Firewall.{FirewallRule}
use plexd.Policy.Settings.{apply_defaults}
use plexd.Policy.Enforcer.{Enforcer, new_enforcer, install, apply_firewall_rules}
use plexd.Policy.Enforcer.Denies.{nftables, EndsWithDrop, applied-EndsWithDrop}

abbrev peer : String → String → Peer
peer id ip = record {
  id = id;
  public_key = "k";
  mesh_ip = ip;
  endpoint = "";
  allowed_ips = [];
  psk = "";
}

abbrev allow : String → String → PolicyRule
allow src dst = record { src = src; dst = dst; port = pos 22; protocol = "tcp"; action = "allow" }

abbrev ssh : Policy
ssh = record { id = "ssh"; rules = allow "a" "b" ∷ allow "ghost" "a" ∷ [] }

abbrev ips : GoMap String
ips = ("a", "10.0.0.1") ∷ ("b", "10.0.0.2") ∷ []

-- Every address is 10.0.0.9 or is refused, and every name has the bytes 1 and 2.
abbrev host : Host
host = record {
  parse_cidr = λ s. none;
  parse_ip = λ s. if s == "" then none else some (some (10 ∷ 0 ∷ 0 ∷ 9 ∷ []));
  bytes_of = λ s. 1 ∷ 2 ∷ [];
}

abbrev working : Netlink
working = record { opens = true; lists = true; commits = true }

apart : (a b : String) → (a == b) ≡ false → a ≢ b
apart a b h e = (let t = (eq_iff a b).1 e in ground arith)

program : Unit {0}
unfolding peer_allowed some_rule_allows rule_allows filter_peers filter_allowed rule_ips resolve_ip
    resolve_wildcard firewall_rule rules_of policy_rules is_valid_protocol default_deny
    build_firewall_rules iface_name_bytes port_bytes protocol_number match_network
    build_ip_match_exprs interface_match address_match protocol_match port_match verdict
    build_rule_exprs build_rules commit Nftables.ensure_chain Nftables.apply_rules new_enforcer
    install apply_firewall_rules apply_defaults find has store delete
program = tt

-- A node sees the peer that a rule connects it with.
visible_example :
    filter_peers (peer "b" "10.0.0.2" ∷ peer "c" "10.0.0.3" ∷ []) (ssh ∷ []) "a"
    ≡ peer "b" "10.0.0.2" ∷ []
unfolding program
visible_example = refl

Among-filter_peers_example :
    Among
      (peer "b" "10.0.0.2")
      (filter_peers (peer "b" "10.0.0.2" ∷ peer "c" "10.0.0.3" ∷ []) (ssh ∷ []) "a")
    ↔ (Among (peer "b" "10.0.0.2") (peer "b" "10.0.0.2" ∷ peer "c" "10.0.0.3" ∷ [])
        × ¬ ((peer "b" "10.0.0.2").id ≡ "a")
        × SomePolicy (Connects "a" "b") (ssh ∷ []))
Among-filter_peers_example =
    Among-filter_peers (peer "b" "10.0.0.2") (peer "b" "10.0.0.2" ∷ peer "c" "10.0.0.3" ∷ [])
      (ssh ∷ []) "a"

-- The rule from an unknown node has an empty source address.
unknown_example :
    (firewall_rule (allow "ghost" "a") "a" "wg0" ips)
    ≡ some (record {
      interface = "wg0";
      src_ip = "";
      dst_ip = "10.0.0.1";
      port = pos 22;
      protocol = "tcp";
      action = "allow";
    })
unfolding program
unknown_example = refl

AmongRules-policy_rules_example :
    AmongRules "a" "wg0" ips
      (made "a" "wg0" ips (allow "a" "b"))
      (policy_rules (ssh ∷ []) "a" "wg0" ips)
    ↔ SomePolicy (Yields "a" "wg0" ips (made "a" "wg0" ips (allow "a" "b"))) (ssh ∷ [])
AmongRules-policy_rules_example =
    AmongRules-policy_rules "a" "wg0" ips (made "a" "wg0" ips (allow "a" "b")) (ssh ∷ [])

abbrev enforcer : Enforcer Kernel
enforcer = record {
  firewall = some (nftables host working working working working);
  cfg = record { enabled = true; chain_name = "mesh" };
}

abbrev chains : Kernel
chains = ("mesh", []) ∷ ("other", []) ∷ []

abbrev two_rules : List FirewallRule
two_rules = made "a" "wg0" ips (allow "a" "b") ∷ default_deny "wg0" ∷ []

apply_rules_replaces_example :
    let r = Nftables.apply_rules host working chains "mesh" two_rules in
    ((working.opens ≡ true)
      × (working.commits ≡ true)
      × (r.1 ≡ none)
      × ((ess : List (List Nftables.Expr)) × Compiled host two_rules ess
          × ((c : String) → find c r.0 ≡ (if "mesh" == c then some ess else find c chains))))
    ⊎ (((working.opens ≡ false) ⊎ ((working.commits ≡ false) ⊎ SomeRefused host two_rules))
        × (r.1 ≢ none)
        × (r.0 ≡ chains))
apply_rules_replaces_example = apply_rules_replaces host working chains "mesh" two_rules

applied-EndsWithDrop_example :
    (ess : List (List Nftables.Expr)) × (find "mesh"
        (apply_firewall_rules enforcer [] (ssh ∷ []) "a" "wg0" ips).0
      ≡ some ess)
    × EndsWithDrop host "wg0" ess
applied-EndsWithDrop_example =
    applied-EndsWithDrop host working working working working enforcer [] (ssh ∷ []) "a" "wg0" ips
      refl refl (unfold program in refl)
