-- ===== src/Bridge/Ingress/Listeners.antt =====
-- internal/bridge/ingress.go: the open listeners and the active rules.
use mathlib.Core.Path.{subst}
use plexd.Base.{
  ℕ, ◌+◌, String, List, [], ◌∷◌, Bool, true, false, not, ◌&&◌, ◌==◌, Option, none, some,
  if◌then◌else◌, length, arith, ◌≡◌, ◌⊎◌, inl, inr, refl, sym, ap, Bool-cases, Option-cases,
}
use plexd.Base.GoMap.{
  GoMap, has, find, store, Distinct, find-store_cases, find-delete_cases, store-Distinct,
  delete-Distinct,
}
use plexd.Base.Int.{leb_ℤ}
use plexd.Api.Types.{IngressRule}
use plexd.Bridge.Config.{Config}
use plexd.Bridge.Ingress.{
  ActiveRule, Events, listened, Controller, IngressManager, IngressError, not_active, rule_exists,
  max_rules_reached, bad_certificate, listen_failed, new_ingress_manager, setup, close,
  teardown_rules, teardown, open_rule, add_rule, remove_rule,
}
use plexd.Bridge.Ingress.Counts.{opened, closings, held, held-store, held-delete}

pub record HoldsListeners (s : IngressManager × Events) : Type 0 where
  pub keyed :
      (id : String) (ar : ActiveRule) → find id s.0.active_rules ≡ some ar → ar.rule.rule_id ≡ id
  pub distinct : Distinct s.0.active_rules
  pub inactive : s.0.active ≡ false → s.0.active_rules ≡ []
  -- A listener that was opened is closed, or held by a rule.
  pub balanced : (ln : ℕ) → opened ln s.1 ≡ closings ln s.1 + held ln s.0.active_rules

module _ (ctrl : Controller) where
  pub add_rule-cases :
      (rule : IngressRule) (m : IngressManager) (log : Events)
      → ((e : IngressError) × (add_rule ctrl rule m log ≡ ((m, log), some e)))
        ⊎ ((m.active ≡ true)
            × (has rule.rule_id m.active_rules ≡ false)
            × (add_rule ctrl rule m log ≡ open_rule ctrl rule m log))
  unfolding add_rule
  add_rule-cases rule m log =
      go m.active (has rule.rule_id m.active_rules)
        (leb_ℤ m.cfg.max_ingress_rules (length m.active_rules))
        (rule.mode == "terminate" && not (ctrl.is_key_pair rule.cert_pem rule.key_pem)) refl refl
    where
      go :
          (a b c d : Bool)
          → m.active ≡ a
          → has rule.rule_id m.active_rules ≡ b
          → let x : (IngressManager × Events) × Option IngressError =
              (if not a
                then ((m, log), some not_active)
                else if b
                then ((m, log), some rule_exists)
                else if c
                then ((m, log), some max_rules_reached)
                else if d
                then ((m, log), some bad_certificate)
                else open_rule ctrl rule m log) in
            ((e : IngressError) × (x ≡ ((m, log), some e)))
            ⊎ ((m.active ≡ true)
                × (has rule.rule_id m.active_rules ≡ false)
                × (x ≡ open_rule ctrl rule m log))
      go false b c d ea eb = inl (not_active, refl)
      go true true c d ea eb = inl (rule_exists, refl)
      go true false true d ea eb = inl (max_rules_reached, refl)
      go true false false true ea eb = inl (bad_certificate, refl)
      go true false false false ea eb = inr (ea, eb, refl)

  -- The manager with the rule on a listener, and the events once Listen has given `got`.
  abbrev pub with_rule : IngressRule → IngressManager → ℕ → IngressManager
  with_rule rule m ln = record m {
    active_rules = store rule.rule_id (record { rule = rule; listener = ln }) m.active_rules;
  }

  abbrev pub after : IngressRule → Events → Option ℕ → Events
  after rule log got = listened rule.listen_port (rule.mode == "terminate") got ∷ log

  -- Listen either fails, or the rule holds the listener that it gives.
  pub open_rule-cases :
      (rule : IngressRule) (m : IngressManager) (log : Events)
      → (open_rule ctrl rule m log ≡ ((m, after rule log none), some listen_failed))
        ⊎ ((ln : ℕ) × (open_rule ctrl rule m log
              ≡ ((with_rule rule m ln, after rule log (some ln)), none)))
  unfolding open_rule
  open_rule-cases rule m log =
      let got = ctrl.listen log rule.listen_port (rule.mode == "terminate") in
      go got (after rule log got) refl
    where
      go :
          (got : Option ℕ) (l : Events)
          → l ≡ after rule log got
          → let x : (IngressManager × Events) × Option IngressError = elim got [
            | none ↦ ((m, l), some listen_failed)
            | some ln ↦ ((with_rule rule m ln, l), none)
          ] in
            (x ≡ ((m, after rule log none), some listen_failed))
            ⊎ ((ln : ℕ) × (x ≡ ((with_rule rule m ln, after rule log (some ln)), none)))
      go none l e = inl (ap (λ (y : Events). ((m, y), some listen_failed)) e)
      go (some ln) l e = inr (ln, ap (λ (y : Events). ((with_rule rule m ln, y), none)) e)

  opened-HoldsListeners :
      (rule : IngressRule) (m : IngressManager) (log : Events)
      → HoldsListeners (m, log)
      → m.active ≡ true
      → has rule.rule_id m.active_rules ≡ false
      → HoldsListeners (open_rule ctrl rule m log).0
  unfolding opened closings
  opened-HoldsListeners rule m log h active new = elim (open_rule-cases rule m log) [
    | inl eq ↦ rw eq (record {
      keyed = h.keyed;
      distinct = h.distinct;
      inactive = h.inactive;
      balanced = λ ln. omega (arith, h.balanced ln);
    })
    | inr (k, eq) ↦
        let ar : ActiveRule = record { rule = rule; listener = k } in
        rw eq (record {
          keyed = λ id x f. elim (find-store_cases rule.rule_id id ar x m.active_rules f) [
            | inl (same, v) ↦ subst (λ y. y.rule.rule_id ≡ id) v same
            | inr (_, old) ↦ h.keyed id x old
          ];
          distinct = store-Distinct rule.rule_id ar m.active_rules h.distinct;
          inactive = λ f. absurd (ground arith);
          balanced =
              λ ln. omega (arith, h.balanced ln, held-store ln rule.rule_id ar m.active_rules new);
        })
  ]

  pub added-HoldsListeners :
      (rule : IngressRule) (m : IngressManager) (log : Events)
      → HoldsListeners (m, log)
      → HoldsListeners (add_rule ctrl rule m log).0
  added-HoldsListeners rule m log h = elim (add_rule-cases rule m log) [
    | inl (e, eq) ↦ rw eq h
    | inr (active, new, eq) ↦ rw eq (opened-HoldsListeners rule m log h active new)
  ]

  pub removed-HoldsListeners :
      (id : String) (m : IngressManager) (log : Events)
      → HoldsListeners (m, log)
      → HoldsListeners (remove_rule ctrl id m log)
  unfolding remove_rule close opened closings
  removed-HoldsListeners id m log h = elim (Bool-cases m.active) [
    | inr off ↦ subst HoldsListeners (sym (idle off)) h
    | inl active ↦ elim (Option-cases (find id m.active_rules)) [
      | inl e ↦ rw (active, e, remove_rule) h
      | inr (ar, e) ↦
          rw (active, e, remove_rule)
            (record {
              keyed = λ j x f. h.keyed j x (find-delete_cases id j x m.active_rules f).1;
              distinct = delete-Distinct id m.active_rules h.distinct;
              inactive = λ f. absurd (ground arith);
              balanced = λ ln.
                  omega (arith, h.balanced ln, held-delete ln id ar m.active_rules h.distinct e);
            })
    ]
  ]
    where
      idle : m.active ≡ false → remove_rule ctrl id m log ≡ (m, log)
      idle off = rw (off, remove_rule) refl

  -- Tearing down closes what the rules hold.
  closings-teardown_rules :
      (ln : ℕ) (rules : GoMap ActiveRule) (log : Events)
      → (closings ln (teardown_rules ctrl rules log).0 ≡ held ln rules + closings ln log)
        × (opened ln (teardown_rules ctrl rules log).0 ≡ opened ln log)
  unfolding teardown_rules close opened closings held
  closings-teardown_rules ln [] log = (omega arith, refl)
  closings-teardown_rules ln ((id, ar) ∷ rules) log =
      let ih = closings-teardown_rules ln rules (close ctrl ar.listener log).0 in
      (omega (arith, ih.0), ih.1)

  stopped-HoldsListeners :
      (m : IngressManager) (log : Events)
      → HoldsListeners (m, log)
      → HoldsListeners (teardown ctrl m log).0
  unfolding teardown held find
  stopped-HoldsListeners m log h = elim (Bool-cases m.active) [
    | inr off ↦
        subst (λ (x : (IngressManager × Events) × Bool). HoldsListeners x.0) (sym (idle off)) h
    | inl on ↦
        rw (on, teardown)
          (record {
            keyed = λ id ar f. absurd (ground arith);
            distinct = tt;
            inactive = λ f. refl;
            balanced = λ ln. omega (
              arith,
              h.balanced ln,
              (closings-teardown_rules ln m.active_rules log).0,
              (closings-teardown_rules ln m.active_rules log).1,
            );
          })
  ]
    where
      idle : m.active ≡ false → teardown ctrl m log ≡ ((m, log), false)
      idle off = rw (off, teardown) refl

  started-HoldsListeners :
      (m : IngressManager) (log : Events) → HoldsListeners (m, log) → HoldsListeners (setup m, log)
  unfolding setup
  started-HoldsListeners m log h = elim (Bool-cases m.cfg.ingress_enabled) [
    | inr off ↦ subst (λ x. HoldsListeners (x, log)) (sym (idle off)) h
    | inl on ↦
        rw (on, setup)
          (record {
            keyed = h.keyed;
            distinct = h.distinct;
            inactive = λ f. absurd (ground arith);
            balanced = h.balanced;
          })
  ]
    where
      idle : m.cfg.ingress_enabled ≡ false → setup m ≡ m
      idle off = rw (off, setup) refl

-- The calls of an ingress manager.
pub data IngressCall : Type 0 where
  start stop : IngressCall
  add : IngressRule → IngressCall
  remove : String → IngressCall

module _ (ctrl : Controller) where
  abbrev pub ingress_call : IngressCall → IngressManager × Events → IngressManager × Events
  ingress_call start (m, log) = (setup m, log)
  ingress_call stop (m, log) = (teardown ctrl m log).0
  ingress_call (add rule) (m, log) = (add_rule ctrl rule m log).0
  ingress_call (remove id) (m, log) = remove_rule ctrl id m log

  abbrev pub ingress_calls : List IngressCall → IngressManager × Events → IngressManager × Events
  ingress_calls [] s = s
  ingress_calls (c ∷ cs) s = ingress_calls cs (ingress_call c s)

  call-HoldsListeners :
      (c : IngressCall) (s : IngressManager × Events)
      → HoldsListeners s
      → HoldsListeners (ingress_call c s)
  call-HoldsListeners start (m, log) h = started-HoldsListeners ctrl m log h
  call-HoldsListeners stop (m, log) h = stopped-HoldsListeners ctrl m log h
  call-HoldsListeners (add rule) (m, log) h = added-HoldsListeners ctrl rule m log h
  call-HoldsListeners (remove id) (m, log) h = removed-HoldsListeners ctrl id m log h

  calls-HoldsListeners :
      (cs : List IngressCall) (s : IngressManager × Events)
      → HoldsListeners s
      → HoldsListeners (ingress_calls cs s)
  calls-HoldsListeners [] s h = h
  calls-HoldsListeners (c ∷ cs) s h =
      calls-HoldsListeners cs (ingress_call c s) (call-HoldsListeners c s h)

  -- After any calls on a new manager, whatever the controller reports, each listener that was opened
  -- has been closed or is held by an active rule, as often as it was opened; a rule stands under its
  -- own id, no id stands twice, and a manager that is not active holds no rule.
  pub reachable-HoldsListeners :
      (cs : List IngressCall) (cfg : Config)
      → HoldsListeners (ingress_calls cs (new_ingress_manager cfg, []))
  unfolding new_ingress_manager find opened closings held
  reachable-HoldsListeners cs cfg =
      calls-HoldsListeners cs (new_ingress_manager cfg, [])
        (record {
          keyed = λ id ar f. absurd (ground arith);
          distinct = tt;
          inactive = λ f. refl;
          balanced = λ ln. omega arith;
        })
