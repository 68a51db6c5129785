-- ===== src/Policy/Enforcer/Denies.antt =====
-- internal/policy: the enforcer over the nftables controller.
use plexd.Base.{
  String, List, [], ◌∷◌, ◌++◌, Bool, true, false, Option, none, some, arith, ◌≡◌, refl, ap, ◌∙◌,
  Bool-cases, inl, inr, eq_refl,
}
use plexd.Base.GoMap.{GoMap, find}
use plexd.Api.Types.{Policy}
use plexd.Policy.Firewall.{FirewallRule}
use plexd.Policy.Engine.{default_deny, policy_rules, build_firewall_rules}
use plexd.Policy.Nftables
use plexd.Policy.Nftables.{
  Host, Expr, Built, built, failed, counter, verdict_drop, Kernel, Netlink, NftError, all_built,
  build_rules, build_rule_exprs, interface_match, address_match, protocol_match, port_match,
  verdict, ◌>>=◌,
}
use plexd.Policy.Nftables.Apply.{EndsWith, Compiled, Compiled-last, apply_rules_replaces}
use plexd.Policy.Enforcer.{FirewallController, Enforcer, install, apply_firewall_rules}

abbrev failed? : Option NftError → Bool
failed? none = false
failed? (some e) = true

abbrev report : Kernel × Option NftError → Kernel × Bool
report r = (r.0, failed? r.1)

-- NftablesController as the enforcer's firewall; each operation has a connection of its own.
abbrev pub nftables : Host → Netlink → Netlink → Netlink → Netlink → FirewallController Kernel
nftables host ensures applies flushes deletes = record {
  ensure_chain = λ k chain. report (Nftables.ensure_chain ensures k chain);
  apply_rules = λ k chain rules. report (Nftables.apply_rules host applies k chain rules);
  flush_chain = λ k chain. report (Nftables.flush_chain flushes k chain);
  delete_chain = λ k chain. report (Nftables.delete_chain deletes k chain);
}

-- The shape of the last rule of a chain: it drops whatever arrives on the interface.
abbrev pub EndsWithDrop : Host → String → List (List Expr) → Type 0
EndsWithDrop host iface ess =
    (front : List (List Expr)) × (match_iface : List Expr) × (interface_match host iface
      ≡ built match_iface)
    × (ess ≡ front ++ (match_iface ++ counter ∷ verdict_drop ∷ []) ∷ [])

deny_exprs :
    (host : Host) (iface : String) (es : List Expr)
    → build_rule_exprs host (default_deny iface) ≡ built es
    → (m : List Expr) × (interface_match host iface ≡ built m)
      × (es ≡ m ++ counter ∷ verdict_drop ∷ [])
unfolding build_rule_exprs default_deny address_match protocol_match port_match verdict
deny_exprs host iface es h = go (interface_match host iface) refl h
  where
    go :
        (b : Built)
        → interface_match host iface ≡ b
        → (b >>= λ m. built (m ++ counter ∷ verdict_drop ∷ [])) ≡ built es
        → (m : List Expr) × (interface_match host iface ≡ built m)
          × (es ≡ m ++ counter ∷ verdict_drop ∷ [])
    go (built m) e h = (m, e, ground arith)
    go (failed x) e h = cc

drop_last :
    (host : Host) (iface : String) (ess : List (List Expr))
    → EndsWith host (default_deny iface) ess
    → EndsWithDrop host iface ess
drop_last host iface ess (es, front, is_last, split) =
    let (m, is_match, shape) = deny_exprs host iface es is_last in
    (front, m, is_match, split ∙ ap (λ (x : List Expr). front ++ x ∷ []) shape)

module _ (host : Host) (ensures applies flushes deletes : Netlink) where
  applied :
      (chain : String) (rules : List FirewallRule) (k : Kernel)
      → failed? (Nftables.apply_rules host applies k chain rules).1 ≡ false
      → (ess : List (List Expr)) × Compiled host rules ess
        × (find chain (Nftables.apply_rules host applies k chain rules).0 ≡ some ess)
  applied chain rules k ok = elim (apply_rules_replaces host applies k chain rules) [
    | inl (_, _, none_, (ess, all, at)) ↦ (ess, all, at chain ∙ rw eq_refl)
    | inr (_, err, _) ↦
        absurd (err (no_error (Nftables.apply_rules host applies k chain rules).1 ok))
  ]
    where
      no_error : (o : Option NftError) → failed? o ≡ false → o ≡ none
      no_error none h = refl
      no_error (some e) h = cc

  installed :
      (chain : String) (rules : List FirewallRule) (k : Kernel)
      → (install (nftables host ensures applies flushes deletes) chain rules k).1 ≡ false
      → (ess : List (List Expr)) × Compiled host rules ess
        × (find chain (install (nftables host ensures applies flushes deletes) chain rules k).0
            ≡ some ess)
  unfolding install
  installed chain rules k ok =
      elim (Bool-cases (failed? (Nftables.ensure_chain ensures k chain).1)) [
        | inl err ↦ absurd (ground arith)
        | inr fine ↦
            rw (fine, install)
              (applied chain rules (Nftables.ensure_chain ensures k chain).0 (ground arith))
      ]

  -- When the enforcer is enabled, has the nftables controller and reports no error, the kernel's chain
  -- ends with a rule that drops whatever arrives on the interface.
  pub applied-EndsWithDrop :
      (e : Enforcer Kernel) (k : Kernel) (policies : List Policy) (local iface : String)
      (peers_by_id : GoMap String)
      → e.cfg.enabled ≡ true
      → e.firewall ≡ some (nftables host ensures applies flushes deletes)
      → (apply_firewall_rules e k policies local iface peers_by_id).1 ≡ false
      → (ess : List (List Expr)) × (find e.cfg.chain_name
            (apply_firewall_rules e k policies local iface peers_by_id).0
          ≡ some ess)
        × EndsWithDrop host iface ess
  unfolding apply_firewall_rules build_firewall_rules
  applied-EndsWithDrop e k policies local iface peers_by_id on fw ok =
      rw (on, fw, apply_firewall_rules)
        (let rules = policy_rules policies local iface peers_by_id in
          let (ess, all, at) =
            installed e.cfg.chain_name (rules ++ default_deny iface ∷ []) k
              (rw (on, fw, apply_firewall_rules) at ok) in
          (
            ess,
            at,
            drop_last host iface ess (Compiled-last host rules (default_deny iface) ess all),
          ))
