-- ===== src/Forwarding/Tests.antt =====
-- internal/logfwd/forwarder.go: runs with batches of two entries.
use plexd.Base.{
  ℕ, ◌*◌, ◌≤◌, List, [], ◌∷◌, ◌++◌, Bool, true, false, Option, none, some, ◌≡◌, refl, length, leb,
}
use plexd.Forwarding.{
  Forwarder, collecting, reporting, new_forwarder, enforce_capacity, collect, send, flush, on_tick,
  ticks, run,
}
use plexd.Forwarding.Delivery.{concat, Within, collected, run-Within}
use plexd.Forwarding.Capacity.{length-ticks-le}

-- The second report fails.
abbrev second_fails : List (List ℕ) → List ℕ → Bool
second_fails sent chunk = leb 1 (length sent)

abbrev never : List (List ℕ) → List ℕ → Bool
never sent chunk = false

abbrev holding : Forwarder ℕ
holding = record { enabled = true; batch_size = 2; buffer = 1 ∷ 2 ∷ 3 ∷ [] }

abbrev first : List (Option (List ℕ))
first = some (1 ∷ 2 ∷ 3 ∷ []) ∷ none ∷ some (4 ∷ 5 ∷ []) ∷ []

program : Unit {0}
unfolding new_forwarder enforce_capacity collect send flush on_tick ticks run
program = tt

oldest_dropped : (collect first (new_forwarder true 2)).buffer ≡ 2 ∷ 3 ∷ 4 ∷ 5 ∷ []
unfolding program
oldest_dropped = refl

rest_kept :
    flush second_fails holding []
    ≡ (record { enabled = true; batch_size = 2; buffer = 3 ∷ [] }, (1 ∷ 2 ∷ []) ∷ [])
unfolding program
rest_kept = refl

disabled : (run never first [] (new_forwarder false 2, [])).1 ≡ []
unfolding program
disabled = refl

run-Within_example :
    let (f, sent) =
      run second_fails first (reporting ∷ collecting first ∷ []) (new_forwarder true 2, []) in
    Within
      (concat sent ++ f.buffer)
      (collected (collecting first ∷ reporting ∷ collecting first ∷ []))
run-Within_example = run-Within second_fails true 2 first (reporting ∷ collecting first ∷ [])

length-ticks-le_example :
    length
      (ticks second_fails (collecting first ∷ reporting ∷ []) (new_forwarder true 2, [])).0.buffer
    ≤ 2 * 2
length-ticks-le_example = length-ticks-le second_fails true 2 (collecting first ∷ reporting ∷ [])
