-- ===== src/Policy/Nftables/Compile.antt =====
-- internal/policy: the expressions of a policy rule, from engine.go's addresses to nftables_linux.go.
use plexd.Base.{
  String, Bool, true, false, eq_iff, ◌&&◌, Option, none, some, arith, ◌≡◌, ◌≢◌, refl, ap, not,
  if◌then◌else◌,
}
use plexd.Base.GoMap.{GoMap, find}
use plexd.Api.Types.{PolicyRule}
use plexd.Policy.Firewall.{FirewallRule}
use plexd.Policy.Engine.{
  is_valid_protocol, resolve_ip, resolve_wildcard, rule_ips, firewall_rule, string_at, matches,
}
use plexd.Policy.Nftables.{Host, Built, address_match, build_rule_exprs}

-- The expressions that a policy rule comes to on a node, if it is a rule for the node.
unfoldable pub compile : Host → PolicyRule → String → String → GoMap String → Option Built
compile host r local iface peers = elim (firewall_rule r local iface peers) [
  | none ↦ none
  | some f ↦ some (build_rule_exprs host f)
]

-- The rule with its two addresses.
abbrev with_ips : PolicyRule → String → String → String → FirewallRule
with_ips r iface src dst = record {
  interface = iface;
  src_ip = src;
  dst_ip = dst;
  port = r.port;
  protocol = r.protocol;
  action = r.action;
}

-- An empty address and the wildcard address both match everything.
no_source :
    (host : Host) (r : PolicyRule) (iface dst : String)
    → build_rule_exprs host (with_ips r iface "" dst)
      ≡ build_rule_exprs host (with_ips r iface "0.0.0.0/0" dst)
unfolding build_rule_exprs address_match
no_source host r iface dst = refl

module _ (r : PolicyRule) (local iface : String) (peers : GoMap String) where
  unknown_source_ips :
      r.dst ≡ local
      → r.src ≢ local
      → r.src ≢ "*"
      → find r.src peers ≡ none
      → rule_ips r local peers ≡ ("", string_at local peers)
  unfolding rule_ips resolve_ip
  unknown_source_ips to_local not_local not_any unknown =
      ground (arith, eq_iff r.src local, eq_iff r.src "*", eq_iff r.dst local, eq_iff r.dst "*")

  any_source_ips :
      r.dst ≡ local
      → local ≢ "*"
      → rule_ips (record r { src = "*" }) local peers ≡ ("0.0.0.0/0", string_at local peers)
  unfolding rule_ips resolve_wildcard
  any_source_ips to_local named =
      ground (arith, eq_iff r.dst local, eq_iff r.dst "*", eq_iff local "*", eq_iff "*" local)

  inbound :
      (a b : String)
      → r.dst ≡ local
      → rule_ips r local peers ≡ (a, b)
      → firewall_rule r local iface peers
        ≡ (if is_valid_protocol r.protocol then some (with_ips r iface a b) else none)
  unfolding firewall_rule
  inbound a b to_local e =
      rw ((eq_iff r.dst local).1 to_local, e)
        (cases (is_valid_protocol r.protocol) (matches r.src local))
    where
      cases :
          (p q : Bool)
          → (if not p then none else if not q && false then none else some (with_ips r iface a b))
            ≡ (if p then some (with_ips r iface a b) else none)
      cases true true = refl
      cases true false = refl
      cases false q = refl

module _ (host : Host) (r : PolicyRule) (local iface : String) (peers : GoMap String) where
  -- An inbound rule whose source is a node that the peer map does not hold comes to the same
  -- expressions as the rule with the wildcard for its source: it applies to packets from anywhere.
  pub unknown_source_is_wildcard :
      r.dst ≡ local
      → r.src ≢ local
      → r.src ≢ "*"
      → local ≢ "*"
      → find r.src peers ≡ none
      → compile host r local iface peers ≡ compile host (record r { src = "*" }) local iface peers
  unfolding compile
  unknown_source_is_wildcard to_local not_local not_any named unknown =
      let lip = string_at local peers in
      rw
        (
          inbound r local iface peers "" lip to_local
              (unknown_source_ips r local iface peers to_local not_local not_any unknown),
          inbound (record r { src = "*" }) local iface peers "0.0.0.0/0" lip to_local
              (any_source_ips r local iface peers to_local named),
          compile,
        )
        (cases (is_valid_protocol r.protocol))
    where
      cases :
          (p : Bool)
          → elim (if p then some (with_ips r iface "" (string_at local peers)) else none) [
            | none ↦ none
            | some f ↦ some (build_rule_exprs host f)
          ]
            ≡ elim (if p
                then some (with_ips r iface "0.0.0.0/0" (string_at local peers))
                else none) [ none ↦ none | some f ↦ some (build_rule_exprs host f) ]
      cases true = ap some (no_source host r iface (string_at local peers))
      cases false = refl
