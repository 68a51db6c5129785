-- ===== src/Actions/Running/Counts.antt =====
-- internal/actions/executor.go: how often an id stands in a list, and what cancelling all keeps.
use plexd.Base.{
  one_if, ℕ, suc, ◌+◌, String, List, [], ◌∷◌, ◌++◌, Bool, false, ◌==◌, some, length, arith, ◌≡◌,
  ◌≢◌, inl, inr, refl, ap, Bool-cases,
}
use plexd.Base.GoMap.{GoMap, has, find}
use plexd.Actions.{ActionRequest, cancel_all}
use plexd.Actions.Running.{Ack, accepted, rejected}

-- How often the id is that of a request, of a result, or is accepted.
unfoldable pub requests_of : String → List ActionRequest → ℕ
requests_of id [] = 0
requests_of id (req ∷ reqs) = one_if (req.execution_id == id) + requests_of id reqs

unfoldable pub results_of : String → List String → ℕ
results_of id [] = 0
results_of id (r ∷ rs) = one_if (r == id) + results_of id rs

unfoldable pub accepted_as : String → List Ack → ℕ
accepted_as id [] = 0
accepted_as id (accepted j ∷ acks) = one_if (j == id) + accepted_as id acks
accepted_as id (rejected j r ∷ acks) = accepted_as id acks

pub requests_of-split :
    (id : String) (before after : List ActionRequest) (req : ActionRequest)
    → requests_of id (before ++ req ∷ after)
      ≡ one_if (req.execution_id == id) + requests_of id (before ++ after)
unfolding requests_of
requests_of-split id [] after req = refl
requests_of-split id (r ∷ before) after req = omega (arith, requests_of-split id before after req)

pub has-cancel_all :
    (id : String) (active : GoMap Bool) → has id (cancel_all active) ≡ has id active
unfolding has cancel_all
has-cancel_all id [] = refl
has-cancel_all id ((j, b) ∷ active) = ground (arith, has-cancel_all id active)

pub find-cancel_all : (id : String) (active : GoMap Bool) → find id (cancel_all active) ≢ some false
unfolding find cancel_all
find-cancel_all id [] e = absurd cc
find-cancel_all id ((j, b) ∷ active) e = elim (Bool-cases (j == id)) [
  | inl same ↦ absurd (ground arith)
  | inr other ↦ find-cancel_all id active (ground arith)
]

pub length-cancel_all : (active : GoMap Bool) → length (cancel_all active) ≡ length active
unfolding cancel_all
length-cancel_all [] = refl
length-cancel_all ((j, b) ∷ active) = ap suc (length-cancel_all active)
