-- ===== src/Bridge/Ingress/Sync.antt =====
-- internal/bridge/ingress_handler.go: what a reconciliation leaves of the rules.
use plexd.Base.{
  String, List, [], true, false, ◌==◌, none, some, if◌then◌else◌, contains, arith, ◌≡◌, ◌↔◌, inl,
  inr, refl, ap, ◌∙◌, sym, Bool-cases, Option-cases, String-cases, IsSome, eq_iff,
}
use plexd.Base.GoMap.{find, find-store, find-delete, contains-keys, has-true, has-false}
use plexd.Base.Int.{eqb_ℤ_iff}
use plexd.Api.Types.{IngressRule}
use plexd.Bridge.Ingress.{
  ActiveRule, Events, Controller, IngressManager, get_rule, rule_ids, add_rule, remove_rule,
  same_rule, rules, failed_with,
}
use plexd.Bridge.Ingress.Listeners.{
  HoldsListeners, add_rule-cases, open_rule-cases, added-HoldsListeners, removed-HoldsListeners,
}
use plexd.Bridge.Resync.{resync}
use plexd.Bridge.Resync.Refines.{IsLawful, last_of, resync_get}

same_rule_iff : (a b : IngressRule) → (same_rule a b ≡ true) ↔ (a ≡ b)
same_rule_iff a b = ground (
  arith,
  eq_iff a.rule_id b.rule_id,
  eqb_ℤ_iff a.listen_port b.listen_port,
  eq_iff a.target_addr b.target_addr,
  eq_iff a.mode b.mode,
  eq_iff a.cert_pem b.cert_pem,
  eq_iff a.key_pem b.key_pem,
)

listed : (j : String) (m : IngressManager) → contains j (rule_ids m) ≡ true → IsSome (get_rule j m)
unfolding rule_ids get_rule
listed j m h =
    let (ar, found) = has-true j m.active_rules (sym (contains-keys j m.active_rules) ∙ h) in
    rw (found, get_rule) tt

not_listed :
    (j : String) (m : IngressManager) → contains j (rule_ids m) ≡ false → get_rule j m ≡ none
unfolding rule_ids get_rule
not_listed j m h =
    let absent = has-false j m.active_rules (sym (contains-keys j m.active_rules) ∙ h) in
    rw (absent, get_rule) refl

-- What the reconciliation asks of the operations.
module _ (ctrl : Controller) (j : String) where
  find-removed :
      (k : String) (m : IngressManager) (log : Events)
      → HoldsListeners (m, log)
      → find j (remove_rule ctrl k m log).0.active_rules
        ≡ (if k == j then none else find j m.active_rules)
  unfolding remove_rule
  find-removed k m log h = elim (Bool-cases m.active) [
    | inr off ↦ ground (arith, h.inactive off, ap (find j) (h.inactive off), find-none)
    | inl on ↦ elim (Option-cases (find k m.active_rules)) [
      | inl gone ↦ elim (String-cases k j) [
        | inl (same, e) ↦ ground (arith, ap (λ (x : String). find x m.active_rules) e)
        | inr (other, n) ↦ ground arith
      ]
      | inr (ar, found) ↦ ground (arith, find-delete k j m.active_rules)
    ]
  ]
    where
      find-none : find {V = ActiveRule} j [] ≡ none
      find-none = unfold find in refl

  get-removed :
      (k : String) (m : IngressManager) (log : Events)
      → HoldsListeners (m, log)
      → get_rule j (remove_rule ctrl k m log).0 ≡ (if k == j then none else get_rule j m)
  unfolding get_rule
  get-removed k m log h = ground (arith, find-removed k m log h)

  get-added :
      (x : IngressRule) (m : IngressManager) (log : Events)
      → failed_with (add_rule ctrl x m log).1 ≡ false
      → get_rule j (add_rule ctrl x m log).0.0 ≡ (if x.rule_id == j then some x else get_rule j m)
  unfolding get_rule
  get-added x m log h = elim (add_rule-cases ctrl x m log) [
    | inl (e, eq) ↦ absurd (ground (arith, eq))
    | inr (on, new, eq) ↦ elim (open_rule-cases ctrl x m log) [
      | inl fails ↦ absurd (ground (arith, eq, fails))
      | inr (ln, opens) ↦
          let ar : ActiveRule = record { rule = x; listener = ln } in
          rw (eq, opens) (ground (arith, find-store x.rule_id j ar m.active_rules))
    ]
  ]

rules-IsLawful : (ctrl : Controller) → IsLawful (rules ctrl) HoldsListeners
rules-IsLawful ctrl = record {
  equal_iff = same_rule_iff;
  ids_get = λ j s h. listed j s.0;
  get_ids = λ j s h. not_listed j s.0;
  remove_keeps = λ k s h. removed-HoldsListeners ctrl k s.0 s.1 h;
  get_remove = λ k j s h. get-removed ctrl j k s.0 s.1 h;
  add_keeps = λ x s h. added-HoldsListeners ctrl x s.0 s.1 h;
  get_add = λ x j s h ok. get-added ctrl j x s.0 s.1 ok;
}

-- A reconciliation of a reachable manager that reports no error leaves under each id the last rule
-- of the desired state that has the id, as it is desired, and no rule under any other id.
pub reconciled_rules :
    (ctrl : Controller) (items : List IngressRule) (s : IngressManager × Events) (j : String)
    → HoldsListeners s
    → (resync (rules ctrl) items s).1 ≡ false
    → get_rule j (resync (rules ctrl) items s).0.0 ≡ last_of (rules ctrl) j items none
reconciled_rules ctrl items s j h =
    resync_get (rules ctrl) HoldsListeners (rules-IsLawful ctrl) j items s h
