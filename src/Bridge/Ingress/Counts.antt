-- ===== src/Bridge/Ingress/Counts.antt =====
-- internal/bridge/ingress.go: how often a listener was opened, closed, and is held by a rule.
use plexd.Base.{
  one_if, ℕ, ◌+◌, String, [], ◌∷◌, false, eqb, Option, none, some, arith, ◌≡◌, inl, inr, refl, ap,
  String-cases,
}
use plexd.Base.GoMap.{GoMap, has, find, store, delete, Distinct, delete_absent}
use plexd.Bridge.Ingress.{ActiveRule, Events, listened, closed}

abbrev counts : ℕ → Option ℕ → ℕ
counts ln none = 0
counts ln (some k) = one_if (eqb k ln)

-- How often the listener was given by Listen, handed to Close, and is held by a rule.
unfoldable pub opened : ℕ → Events → ℕ
opened ln [] = 0
opened ln (listened p t o ∷ log) = counts ln o + opened ln log
opened ln (closed k f ∷ log) = opened ln log

unfoldable pub closings : ℕ → Events → ℕ
closings ln [] = 0
closings ln (listened p t o ∷ log) = closings ln log
closings ln (closed k f ∷ log) = one_if (eqb k ln) + closings ln log

unfoldable pub held : ℕ → GoMap ActiveRule → ℕ
held ln [] = 0
held ln ((id, ar) ∷ rules) = one_if (eqb ar.listener ln) + held ln rules

pub held-store :
    (ln : ℕ) (id : String) (ar : ActiveRule) (rules : GoMap ActiveRule)
    → has id rules ≡ false
    → held ln (store id ar rules) ≡ one_if (eqb ar.listener ln) + held ln rules
unfolding held store has
held-store ln id ar [] h = refl
held-store ln id ar ((j, x) ∷ rules) h = ground (arith, held-store ln id ar rules)

pub held-delete :
    (ln : ℕ) (id : String) (ar : ActiveRule) (rules : GoMap ActiveRule)
    → Distinct rules
    → find id rules ≡ some ar
    → held ln rules ≡ one_if (eqb ar.listener ln) + held ln (delete id rules)
unfolding held delete find
held-delete ln id ar [] d h = cc
held-delete ln id ar ((j, x) ∷ rules) d h = elim (String-cases j id) [
  | inl (same, e) ↦ ground (arith, delete_absent id rules, ap (λ (k : String). has k rules) e)
  | inr (other, n) ↦ ground (arith, held-delete ln id ar rules d.1)
]
