-- ===== src/Policy/Engine/Rules.antt =====
-- internal/policy/engine.go: the rules that BuildFirewallRules makes.
use plexd.Base.{
  String, List, [], ◌∷◌, ◌++◌, Bool, true, false, not, ◌&&◌, eq_iff, Option, none, some,
  if◌then◌else◌, arith, ◌≡◌, ◌↔◌, ◌⊎◌, inl, inr, refl, ap, sym, ◌∙◌, ◌==◌,
}
use plexd.Base.GoMap.{GoMap, find}
use plexd.Api.Types.{Policy, PolicyRule}
use plexd.Policy.Firewall.{FirewallRule}
use plexd.Policy.Engine.{
  firewall_rule, rules_of, policy_rules, rule_ips, resolve_ip, resolve_wildcard, matches,
  is_valid_protocol,
}
use plexd.Policy.Engine.Visible.{Matches, SomeRule, SomePolicy}

guarded :
    {A : Type 0} (p a b : Bool) (x f : A)
    → ((if not p then none else if not a && not b then none else some x) ≡ some f)
      ↔ ((p ≡ true) × ((a ≡ true) ⊎ (b ≡ true)) × (x ≡ f))
guarded true true b x f = (λ h. (refl, inl refl, cc), λ h. ap some h.2)
guarded true false true x f = (λ h. (refl, inr refl, cc), λ h. ap some h.2)
guarded true false false x f = (λ h. cc, λ h. ground arith)
guarded false a b x f = (λ h. cc, λ h. cc)

matches_iff : (pattern id : String) → (matches pattern id ≡ true) ↔ Matches pattern id
matches_iff pattern id = (
  λ h. ground (arith, eq_iff pattern id, eq_iff pattern "*"),
  λ h. ground (arith, eq_iff pattern id, eq_iff pattern "*"),
)

is_valid_protocol_iff :
    (p : String) → (is_valid_protocol p ≡ true) ↔ ((p ≡ "") ⊎ ((p ≡ "tcp") ⊎ (p ≡ "udp")))
unfolding is_valid_protocol
is_valid_protocol_iff p = (
  λ h. ground (arith, eq_iff p "", eq_iff p "tcp", eq_iff p "udp"),
  λ h. ground (arith, eq_iff p "", eq_iff p "tcp", eq_iff p "udp"),
)

module _ (local iface : String) (peers_by_id : GoMap String) where
  abbrev pub ip_of : String → String
  ip_of id = elim (find id peers_by_id) [ none ↦ "" | some ip ↦ ip ]

  -- The address of a side of a rule, beside the other side: a node stands for its address, or for the
  -- empty text if it has none. The wildcard stands for all addresses if the node itself is on the
  -- other side, by its id or also by the wildcard, and for the node's own address if it is not.
  abbrev pub address : String → String → String
  address side other =
      if side == "*" then (if matches other local then "0.0.0.0/0" else ip_of local) else ip_of side

  -- The firewall rule with the addresses of the two sides.
  abbrev pub made : PolicyRule → FirewallRule
  made r = record {
    interface = iface;
    src_ip = address r.src r.dst;
    dst_ip = address r.dst r.src;
    port = r.port;
    protocol = r.protocol;
    action = r.action;
  }

  -- The same with the addresses that the code computes.
  abbrev computed : PolicyRule → FirewallRule
  computed r = record {
    interface = iface;
    src_ip = (rule_ips r local peers_by_id).0;
    dst_ip = (rule_ips r local peers_by_id).1;
    port = r.port;
    protocol = r.protocol;
    action = r.action;
  }

  src_address :
      (r : PolicyRule)
      → (matches r.src local ≡ true) ⊎ (matches r.dst local ≡ true)
      → (rule_ips r local peers_by_id).0 ≡ address r.src r.dst
  unfolding rule_ips resolve_ip resolve_wildcard
  src_address r m = ground (
    arith,
    m,
    eq_iff r.src local,
    eq_iff r.src "*",
    eq_iff r.dst local,
    eq_iff r.dst "*",
    ap ip_of,
  )

  dst_address :
      (r : PolicyRule)
      → (matches r.src local ≡ true) ⊎ (matches r.dst local ≡ true)
      → (rule_ips r local peers_by_id).1 ≡ address r.dst r.src
  unfolding rule_ips resolve_ip resolve_wildcard
  dst_address r m = ground (
    arith,
    m,
    eq_iff r.src local,
    eq_iff r.src "*",
    eq_iff r.dst local,
    eq_iff r.dst "*",
    ap ip_of,
  )

  computed-made :
      (r : PolicyRule)
      → (matches r.src local ≡ true) ⊎ (matches r.dst local ≡ true)
      → computed r ≡ made r
  computed-made r m = rw (src_address r m, dst_address r m) refl

  -- A policy rule that is for the node, and the firewall rule that it comes to.
  abbrev pub Yields : FirewallRule → PolicyRule → Type 0
  Yields f r =
      ((r.protocol ≡ "") ⊎ ((r.protocol ≡ "tcp") ⊎ (r.protocol ≡ "udp")))
      × (Matches r.src local ⊎ Matches r.dst local)
      × (made r ≡ f)

  abbrev pub AmongRules : FirewallRule → List FirewallRule → Type 0
  AmongRules f [] = ⊥
  AmongRules f (g ∷ gs) = (g ≡ f) ⊎ AmongRules f gs

  AmongRules-append :
      (f : FirewallRule) (fs gs : List FirewallRule)
      → AmongRules f (fs ++ gs) ↔ (AmongRules f fs ⊎ AmongRules f gs)
  AmongRules-append f [] gs = (λ h. inr h, λ h. elim h [ inl a ↦ absurd a | inr b ↦ b ])
  AmongRules-append f (g ∷ fs) gs =
      let ih = AmongRules-append f fs gs in
      (
        λ h. elim h [
          | inl e ↦ inl (inl e)
          | inr m ↦ elim (ih.0 m) [ inl a ↦ inl (inr a) | inr b ↦ inr b ]
        ],
        λ h. elim h [
          | inl a ↦ elim a [ inl e ↦ inl e | inr m ↦ inr (ih.1 (inl m)) ]
          | inr b ↦ inr (ih.1 (inr b))
        ],
      )

  firewall_rule-Yields :
      (f : FirewallRule) (r : PolicyRule)
      → (firewall_rule r local iface peers_by_id ≡ some f) ↔ Yields f r
  unfolding firewall_rule
  firewall_rule-Yields f r =
      let g =
        guarded (is_valid_protocol r.protocol) (matches r.src local) (matches r.dst local)
          (computed r) f in
      let v = is_valid_protocol_iff r.protocol in
      let s = matches_iff r.src local in
      let d = matches_iff r.dst local in
      (
        λ h.
            (let (p, ab, e) = g.0 h in
              (
                v.0 p,
                elim ab [ inl a ↦ inl (s.0 a) | inr b ↦ inr (d.0 b) ],
                sym (computed-made r ab) ∙ e,
              )),
        λ h.
            (let ab : (matches r.src local ≡ true) ⊎ (matches r.dst local ≡ true) = elim h.1 [
              | inl a ↦ inl (s.1 a)
              | inr b ↦ inr (d.1 b)
            ] in
              g.1 (v.1 h.0, ab, computed-made r ab ∙ h.2)),
      )

  AmongRules-rules_of :
      (f : FirewallRule) (rs : List PolicyRule)
      → AmongRules f (rules_of rs local iface peers_by_id) ↔ SomeRule (Yields f) rs
  unfolding rules_of
  AmongRules-rules_of f [] = (λ h. h, λ h. h)
  AmongRules-rules_of f (r ∷ rs) =
      step (AmongRules-rules_of f rs) (firewall_rule r local iface peers_by_id)
        (firewall_rule-Yields f r)
    where
      step :
          AmongRules f (rules_of rs local iface peers_by_id) ↔ SomeRule (Yields f) rs
          → (o : Option FirewallRule) → (o ≡ some f) ↔ Yields f r
          → AmongRules f (elim o [
            | none ↦ rules_of rs local iface peers_by_id
            | some g ↦ g ∷ rules_of rs local iface peers_by_id
          ])
            ↔ SomeRule (Yields f) (r ∷ rs)
      step ih none y = (
        λ h. inr (ih.0 h),
        λ h. elim h [ inl a ↦ absurd (let e = y.1 a in ground arith) | inr b ↦ ih.1 b ],
      )
      step ih (some g) y = (
        λ h. elim h [ inl e ↦ inl (y.0 (ap some e)) | inr m ↦ inr (ih.0 m) ],
        λ h. elim h [ inl a ↦ (let e = y.1 a in inl cc) | inr b ↦ inr (ih.1 b) ],
      )

  -- A rule is among those that `policy_rules` makes exactly when some rule of some policy yields it:
  -- its protocol is tcp, udp or none, the node is on one of its two sides, by id or by the wildcard,
  -- and the rule has its port, protocol and action and the addresses of its two sides: that of a node
  -- by its id, and for the wildcard all addresses, or the node's own if the other side is not for it.
  pub AmongRules-policy_rules :
      (f : FirewallRule) (ps : List Policy)
      → AmongRules f (policy_rules ps local iface peers_by_id) ↔ SomePolicy (Yields f) ps
  unfolding policy_rules
  AmongRules-policy_rules f [] = (λ h. h, λ h. h)
  AmongRules-policy_rules f (p ∷ ps) =
      let rs = rules_of p.rules local iface peers_by_id in
      let app = AmongRules-append f rs (policy_rules ps local iface peers_by_id) in
      let one = AmongRules-rules_of f p.rules in
      let ih = AmongRules-policy_rules f ps in
      (
        λ h. elim (app.0 h) [ inl a ↦ inl (one.0 a) | inr b ↦ inr (ih.0 b) ],
        λ h. app.1 (elim h [ inl a ↦ inl (one.1 a) | inr b ↦ inr (ih.1 b) ]),
      )
