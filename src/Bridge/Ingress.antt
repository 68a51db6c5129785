-- ===== src/Bridge/Ingress.antt =====
-- internal/bridge/ingress.go, ingress_controller.go and ingress_handler.go: the public TCP listeners
-- of a bridge node. A listener is a number; the calls of the controller are kept, the latest first.
-- The address that a rule listens on is known by its port.
pub mod Counts
pub mod Listeners
pub mod Sync
mod Tests
use plexd.Base.{
  ℕ, suc, ◌+◌, ◌-◌, String, List, [], ◌∷◌, Bool, true, false, not, ◌&&◌, ◌||◌, ◌==◌, Option, none,
  some, if◌then◌else◌, length, eqb,
}
use plexd.Base.GoMap.{GoMap, find, has, store, delete, keys}
use plexd.Base.Int.{ℤ, leb_ℤ, eqb_ℤ}
use plexd.Api.Types.{IngressRule, IngressConfig, StateResponse}
use plexd.Bridge.Config.{Config}
use plexd.Bridge.Resync.{Managed, resync}

pub record ActiveRule : Type 0 where
  pub rule : IngressRule
  pub listener : ℕ

-- `tls` says whether the listener has a TLS configuration.
pub data Event : Type 0 where
  listened : (port : ℤ) (tls : Bool) (listener : Option ℕ) → Event
  closed : (listener : ℕ) (failed : Bool) → Event

abbrev pub Events : Type 0
Events = List Event

-- The controller: which listener a call of Listen gives, if any, and whether a call of Close fails;
-- and which certificates and keys tls.X509KeyPair accepts.
pub record Controller : Type 0 where
  pub listen : Events → ℤ → Bool → Option ℕ
  pub close_fails : Events → ℕ → Bool
  pub is_key_pair : String → String → Bool

pub record IngressManager : Type 0 where
  pub cfg : Config
  pub active : Bool
  pub active_rules : GoMap ActiveRule
  pub conn_count : ℕ

pub data IngressError : Type 0 where
  not_active rule_exists max_rules_reached bad_certificate listen_failed bad_payload : IngressError

unfoldable pub new_ingress_manager : Config → IngressManager
new_ingress_manager cfg = record { cfg = cfg; active = false; active_rules = []; conn_count = 0 }

unfoldable pub setup : IngressManager → IngressManager
setup m = if not m.cfg.ingress_enabled then m else record m { active = true }

unfoldable pub get_rule : String → IngressManager → Option IngressRule
get_rule id m = elim (find id m.active_rules) [ none ↦ none | some ar ↦ some ar.rule ]

unfoldable pub rule_ids : IngressManager → List String
rule_ids m = keys m.active_rules

-- One turn of `acceptLoop`, and the end of a `proxyConnection`.
unfoldable pub accept : IngressManager → IngressManager
accept m = record m { conn_count = m.conn_count + 1 }

unfoldable pub end_proxy : IngressManager → IngressManager
end_proxy m = record m { conn_count = m.conn_count - 1 }

abbrev pub failed_with : Option IngressError → Bool
failed_with none = false
failed_with (some e) = true

-- `currentRule != desiredRule`, negated.
abbrev pub same_rule : IngressRule → IngressRule → Bool
same_rule a b =
    a.rule_id == b.rule_id
    && eqb_ℤ a.listen_port b.listen_port
    && a.target_addr == b.target_addr
    && a.mode == b.mode
    && a.cert_pem == b.cert_pem
    && a.key_pem == b.key_pem

module _ (ctrl : Controller) where
  -- A call of Close, with whether it fails.
  unfoldable pub close : ℕ → Events → Events × Bool
  close listener log =
      (closed listener (ctrl.close_fails log listener) ∷ log, ctrl.close_fails log listener)

  unfoldable pub teardown_rules : GoMap ActiveRule → Events → Events × Bool
  teardown_rules [] log = (log, false)
  teardown_rules ((id, ar) ∷ rules) log =
      let (log₁, failed) = close ar.listener log in
      let (log₂, more) = teardown_rules rules log₁ in (log₂, failed || more)

  unfoldable pub teardown : IngressManager → Events → (IngressManager × Events) × Bool
  teardown m log =
      if not m.active
      then ((m, log), false)
      else (let (log₁, failed) = teardown_rules m.active_rules log in
          ((record m { active = false; active_rules = [] }, log₁), failed))

  -- `AddRule` from the call of Listen on.
  unfoldable pub open_rule :
      IngressRule → IngressManager → Events → (IngressManager × Events) × Option IngressError
  open_rule rule m log =
      let tls = rule.mode == "terminate" in
      let got = ctrl.listen log rule.listen_port tls in
      let log₁ : Events = listened rule.listen_port tls got ∷ log in
      elim got [
        | none ↦ ((m, log₁), some listen_failed)
        | some ln ↦ (
          (
            record m {
              active_rules =
                  store rule.rule_id (record { rule = rule; listener = ln }) m.active_rules;
            },
            log₁,
          ),
          none,
        )
      ]

  unfoldable pub add_rule :
      IngressRule → IngressManager → Events → (IngressManager × Events) × Option IngressError
  add_rule rule m log =
      if not m.active
      then ((m, log), some not_active)
      else if has rule.rule_id m.active_rules
      then ((m, log), some rule_exists)
      else if leb_ℤ m.cfg.max_ingress_rules (length m.active_rules)
      then ((m, log), some max_rules_reached)
      else if rule.mode == "terminate" && not (ctrl.is_key_pair rule.cert_pem rule.key_pem)
      then ((m, log), some bad_certificate)
      else open_rule rule m log

  unfoldable pub remove_rule : String → IngressManager → Events → IngressManager × Events
  remove_rule id m log = if not m.active then (m, log) else (elim (find id m.active_rules) [
    | none ↦ (m, log)
    | some ar ↦ (record m { active_rules = delete id m.active_rules }, (close ar.listener log).0)
  ])

  unfoldable pub handle_rule_assigned :
      Option IngressRule → IngressManager → Events → (IngressManager × Events) × Option IngressError
  handle_rule_assigned none m log = ((m, log), some bad_payload)
  handle_rule_assigned (some rule) m log = add_rule rule m log

  unfoldable pub handle_rule_revoked :
      Option String → IngressManager → Events → (IngressManager × Events) × Option IngressError
  handle_rule_revoked none m log = ((m, log), some bad_payload)
  handle_rule_revoked (some id) m log = (remove_rule id m log, none)

  -- The manager with its controller, as the reconciliation uses it.
  abbrev pub rules : Managed (IngressManager × Events) IngressRule
  rules = record {
    id_of = λ x. x.rule_id;
    ids = λ s. rule_ids s.0;
    get = λ id s. get_rule id s.0;
    remove = λ id s. remove_rule id s.0 s.1;
    add = λ x s. ((add_rule x s.0 s.1).0, failed_with (add_rule x s.0 s.1).1);
    equal = same_rule;
  }

  unfoldable pub ingress_reconcile_handler :
      Option StateResponse → IngressManager × Events → (IngressManager × Events) × Bool
  ingress_reconcile_handler none s = (s, false)
  ingress_reconcile_handler (some desired) s = elim desired.ingress_config [
    | none ↦ (s, false)
    | some config ↦ resync rules config.rules s
  ]

-- What the heartbeat reports.
pub record IngressInfo : Type 0 where
  pub enabled : Bool
  pub rule_count : ℕ
  pub connection_count : ℕ

unfoldable pub ingress_status : IngressManager → Option IngressInfo
ingress_status m =
    if not m.active
    then none
    else some (record {
      enabled = true;
      rule_count = length m.active_rules;
      connection_count = m.conn_count;
    })
