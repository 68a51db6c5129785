-- ===== src/Policy/Nftables/Apply.antt =====
-- internal/policy/nftables_linux.go: the chains after ApplyRules.
use plexd.Base.{
  String, List, [], ◌∷◌, ◌++◌, Bool, true, false, not, ◌==◌, Option, none, some, ◌≡◌, ◌≢◌, refl, ap,
  if◌then◌else◌, inl, inr, ◌⊎◌,
}
use plexd.Base.GoMap.{find, store, find-store}
use plexd.Policy.Firewall.{FirewallRule}
use plexd.Policy.Nftables.{
  Host, BuildError, Expr, Built, built, failed, BuiltRules, all_built, one_failed, build_rule_exprs,
  build_rules, Kernel, NftError, Netlink, commit, apply_rules, no_connection, build_failed,
  flush_failed,
}

module _ (host : Host) where
  abbrev pub EndsWith : FirewallRule → List (List Expr) → Type 0
  EndsWith r ess =
      (es : List Expr) × (front : List (List Expr)) × (build_rule_exprs host r ≡ built es)
      × (ess ≡ front ++ es ∷ [])

  -- Each rule with its expressions, in order.
  abbrev pub Compiled : List FirewallRule → List (List Expr) → Type 0
  Compiled [] [] = Unit
  Compiled [] (es ∷ ess) = ⊥
  Compiled (r ∷ rs) [] = ⊥
  Compiled (r ∷ rs) (es ∷ ess) = (build_rule_exprs host r ≡ built es) × Compiled rs ess

  -- A compiled chain ends with the expressions of its last rule.
  pub Compiled-last :
      (rs : List FirewallRule) (r : FirewallRule) (ess : List (List Expr))
      → Compiled (rs ++ r ∷ []) ess
      → EndsWith r ess
  Compiled-last [] r [] h = absurd h
  Compiled-last [] r (es ∷ []) h = (es, [], h.0, refl)
  Compiled-last [] r (es ∷ fs ∷ ess) h = absurd h.1
  Compiled-last (q ∷ rs) r [] h = absurd h
  Compiled-last (q ∷ rs) r (es ∷ ess) h =
      let (last, front, is_last, split) = Compiled-last rs r ess h.1 in
      (last, es ∷ front, is_last, ap (◌∷◌ es) split)

  abbrev pub SomeRefused : List FirewallRule → Type 0
  SomeRefused [] = ⊥
  SomeRefused (r ∷ rs) = ((e : BuildError) × (build_rule_exprs host r ≡ failed e)) ⊎ SomeRefused rs

  -- What the loop over the rules gives.
  abbrev Builds : List FirewallRule → BuiltRules → Type 0
  Builds rs (all_built ess) = Compiled rs ess
  Builds rs (one_failed e) = SomeRefused rs

  build_rules-Builds : (rs : List FirewallRule) → Builds rs (build_rules host rs)
  unfolding build_rules
  build_rules-Builds [] = tt
  build_rules-Builds (r ∷ rs) =
      go (build_rule_exprs host r) (build_rules host rs) refl (build_rules-Builds rs)
    where
      go :
          (b : Built) (rest : BuiltRules)
          → build_rule_exprs host r ≡ b
          → Builds rs rest
          → Builds (r ∷ rs) (elim b [
            | failed e ↦ one_failed e
            | built es ↦ elim rest [
              | all_built ess ↦ all_built (es ∷ ess)
              | one_failed e ↦ one_failed e
            ]
          ])
      go (failed x) rest e h = inl (x, e)
      go (built es) (all_built ess) e h = (e, h)
      go (built es) (one_failed x) e h = inr h

  -- A call succeeds exactly if the connection opens, the batch is taken and no rule is refused; then
  -- the chain holds the expressions of each of the rules, in their order and none besides, and every
  -- other chain is as before. A call that fails leaves all chains as they were.
  pub apply_rules_replaces :
      (n : Netlink) (k : Kernel) (chain : String) (rules : List FirewallRule)
      → ((n.opens ≡ true)
          × (n.commits ≡ true)
          × ((apply_rules host n k chain rules).1 ≡ none)
          × ((ess : List (List Expr)) × Compiled rules ess
              × ((c : String)
                  → find c (apply_rules host n k chain rules).0
                    ≡ (if chain == c then some ess else find c k))))
        ⊎ (((n.opens ≡ false) ⊎ ((n.commits ≡ false) ⊎ SomeRefused rules))
            × ((apply_rules host n k chain rules).1 ≢ none)
            × ((apply_rules host n k chain rules).0 ≡ k))
  unfolding apply_rules commit
  apply_rules_replaces n k chain rules =
      cases n.opens n.commits (build_rules host rules) refl refl (build_rules-Builds rules)
    where
      cases :
          (o c : Bool) (b : BuiltRules)
          → n.opens ≡ o
          → n.commits ≡ c
          → Builds rules b
          → let r : Kernel × Option NftError =
              (if not o then (k, some no_connection) else elim b [
                | one_failed e ↦ (k, some (build_failed e))
                | all_built ess ↦ (if c then (store chain ess k, none) else (k, some flush_failed))
              ]) in
            ((n.opens ≡ true)
              × (n.commits ≡ true)
              × (r.1 ≡ none)
              × ((ess : List (List Expr)) × Compiled rules ess
                  × ((c : String) → find c r.0 ≡ (if chain == c then some ess else find c k))))
            ⊎ (((n.opens ≡ false) ⊎ ((n.commits ≡ false) ⊎ SomeRefused rules))
                × (r.1 ≢ none)
                × (r.0 ≡ k))
      cases false c b eo ec h = inr (inl eo, λ p. cc, refl)
      cases true c (one_failed x) eo ec h = inr (inr (inr h), λ p. cc, refl)
      cases true false (all_built ess) eo ec h = inr (inr (inl ec), λ p. cc, refl)
      cases true true (all_built ess) eo ec h =
          inl (eo, ec, refl, (ess, h, λ d. find-store chain d ess k))
