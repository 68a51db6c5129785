-- ===== src/Policy/Engine.antt =====
-- internal/policy/engine.go: which peers a node may see, and the firewall rules of its policies.
pub mod Visible
pub mod Rules
use plexd.Base.{
  String, List, [], ◌∷◌, ◌++◌, Bool, true, false, not, ◌&&◌, ◌||◌, ◌==◌, Option, none, some,
  if◌then◌else◌,
}
use plexd.Base.GoMap.{GoMap, find}
use plexd.Base.Int.{pos}
use plexd.Api.Types.{Peer, Policy, PolicyRule}
use plexd.Policy.Firewall.{FirewallRule}

-- `r.Src == id || r.Src == "*"`
abbrev pub matches : String → String → Bool
matches pattern id = pattern == id || pattern == "*"

-- The body of the inner loop of `peerAllowed`.
unfoldable pub rule_allows : String → String → PolicyRule → Bool
rule_allows peer local r =
    if not (r.action == "allow")
    then false
    else if matches r.src local && matches r.dst peer
    then true
    else matches r.src peer && matches r.dst local

unfoldable pub some_rule_allows : String → String → List PolicyRule → Bool
some_rule_allows peer local [] = false
some_rule_allows peer local (r ∷ rs) = rule_allows peer local r || some_rule_allows peer local rs

unfoldable pub peer_allowed : String → String → List Policy → Bool
peer_allowed peer local [] = false
peer_allowed peer local (p ∷ ps) = some_rule_allows peer local p.rules || peer_allowed peer local ps

-- The loop of `FilterPeers`.
unfoldable pub filter_allowed : List Peer → List Policy → String → List Peer
filter_allowed [] policies local = []
filter_allowed (p ∷ ps) policies local =
    let rest = filter_allowed ps policies local in
    if p.id == local then rest else if peer_allowed p.id local policies then p ∷ rest else rest

unfoldable pub filter_peers : List Peer → List Policy → String → List Peer
filter_peers peers [] local = []
filter_peers peers (p ∷ ps) local = filter_allowed peers (p ∷ ps) local

unfoldable pub is_valid_protocol : String → Bool
is_valid_protocol proto = proto == "" || (proto == "tcp" || proto == "udp")

-- A read of a missing key gives the empty string.
abbrev pub string_at : String → GoMap String → String
string_at k m = elim (find k m) [ none ↦ "" | some v ↦ v ]

unfoldable pub resolve_ip : String → GoMap String → String
resolve_ip id peers_by_id = if id == "*" then "0.0.0.0/0" else string_at id peers_by_id

unfoldable pub resolve_wildcard : String → String → String
resolve_wildcard id fallback = if id == "*" then "0.0.0.0/0" else fallback

-- The pair of addresses that a rule gets, which depends on the sides that match the local node.
unfoldable pub rule_ips : PolicyRule → String → GoMap String → String × String
rule_ips r local peers_by_id =
    let local_ip = string_at local peers_by_id in
    if matches r.src local && not (matches r.dst local)
    then (local_ip, resolve_ip r.dst peers_by_id)
    else if matches r.dst local && not (matches r.src local)
    then (resolve_ip r.src peers_by_id, local_ip)
    else (resolve_wildcard r.src local_ip, resolve_wildcard r.dst local_ip)

-- The body of the inner loop of `BuildFirewallRules`; `none` where the loop continues.
unfoldable pub firewall_rule : PolicyRule → String → String → GoMap String → Option FirewallRule
firewall_rule r local iface peers_by_id =
    if not (is_valid_protocol r.protocol)
    then none
    else if not (matches r.src local) && not (matches r.dst local)
    then none
    else some (record {
      interface = iface;
      src_ip = (rule_ips r local peers_by_id).0;
      dst_ip = (rule_ips r local peers_by_id).1;
      port = r.port;
      protocol = r.protocol;
      action = r.action;
    })

unfoldable pub rules_of : List PolicyRule → String → String → GoMap String → List FirewallRule
rules_of [] local iface peers_by_id = []
rules_of (r ∷ rs) local iface peers_by_id =
    let rest = rules_of rs local iface peers_by_id in
    elim (firewall_rule r local iface peers_by_id) [ none ↦ rest | some f ↦ f ∷ rest ]

unfoldable pub policy_rules : List Policy → String → String → GoMap String → List FirewallRule
policy_rules [] local iface peers_by_id = []
policy_rules (p ∷ ps) local iface peers_by_id =
    rules_of p.rules local iface peers_by_id ++ policy_rules ps local iface peers_by_id

unfoldable pub default_deny : String → FirewallRule
default_deny iface = record {
  interface = iface;
  src_ip = "0.0.0.0/0";
  dst_ip = "0.0.0.0/0";
  port = pos 0;
  protocol = "";
  action = "deny";
}

unfoldable pub build_firewall_rules :
    List Policy → String → String → GoMap String → List FirewallRule
build_firewall_rules policies local iface peers_by_id =
    policy_rules policies local iface peers_by_id ++ default_deny iface ∷ []
