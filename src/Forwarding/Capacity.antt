-- ===== src/Forwarding/Capacity.antt =====
-- internal/logfwd/forwarder.go: how much a forwarder holds.
use plexd.Base.{
  ℕ, ◌-◌, ◌*◌, ◌≤◌, List, [], ◌∷◌, ◌++◌, Bool, ltb, Option, none, some, length, arith, ◌≡◌, refl,
  inl, inr, Bool-cases,
}
use plexd.Forwarding.{
  Sent, Forwarder, Tick, collecting, reporting, new_forwarder, enforce_capacity, collect, send,
  flush, on_tick, ticks,
}
use plexd.Forwarding.Delivery.{length-drop}

module _ {A : Type 0} (size : ℕ) where
  -- A buffer of at most two batches.
  abbrev IsSmall : Forwarder A → Type 0
  IsSmall f = (f.batch_size ≡ size) × (length f.buffer ≤ 2 * size)

  enforced-IsSmall : (f : Forwarder A) → f.batch_size ≡ size → IsSmall (enforce_capacity f)
  unfolding enforce_capacity
  enforced-IsSmall f e = elim (Bool-cases (ltb (2 * f.batch_size) (length f.buffer))) [
    | inl over ↦
        rw over (e, omega (arith, length-drop (length f.buffer - 2 * f.batch_size) f.buffer, e))
    | inr small ↦ rw small (e, ground arith)
  ]

  collected-IsSmall :
      (sources : List (Option (List A))) (f : Forwarder A) → IsSmall f → IsSmall (collect sources f)
  unfolding collect
  collected-IsSmall [] f h = h
  collected-IsSmall (none ∷ sources) f h = collected-IsSmall sources f h
  collected-IsSmall (some entries ∷ sources) f h =
      let g : Forwarder A = record f { buffer = f.buffer ++ entries } in
      collected-IsSmall sources (enforce_capacity g) (enforced-IsSmall g h.0)

  module _ (fails : List (List A) → List A → Bool) where
    flushed-IsSmall : (f : Forwarder A) (sent : Sent A) → IsSmall f → IsSmall (flush fails f sent).0
    unfolding flush
    flushed-IsSmall f sent h = go (send fails (length f.buffer) f.batch_size f.buffer sent)
      where
        go :
            (out : List A × Sent A)
            → let x : Forwarder A × Sent A = elim out.0 [
              | [] ↦ (record f { buffer = [] }, out.1)
              | y ∷ ys ↦ (enforce_capacity (record f { buffer = y ∷ ys }), out.1)
            ] in
              IsSmall x.0
        go ([], s) = (h.0, omega arith)
        go (y ∷ ys, s) = enforced-IsSmall (record f { buffer = y ∷ ys }) h.0

    ticks-IsSmall :
        (ts : List (Tick A)) (f : Forwarder A) (sent : Sent A)
        → IsSmall f
        → IsSmall (ticks fails ts (f, sent)).0
    unfolding ticks on_tick
    ticks-IsSmall [] f sent h = h
    ticks-IsSmall (collecting sources ∷ ts) f sent h =
        ticks-IsSmall ts (collect sources f) sent (collected-IsSmall sources f h)
    ticks-IsSmall (reporting ∷ ts) f sent h =
        ticks-IsSmall ts (flush fails f sent).0 (flush fails f sent).1 (flushed-IsSmall f sent h)

-- After any ticks a new forwarder holds at most two batches, whatever the sources give and whichever
-- reports fail.
pub length-ticks-le :
    {A : Type 0} (fails : List (List A) → List A → Bool) (enabled : Bool) (size : ℕ)
    (ts : List (Tick A))
    → length (ticks fails ts (new_forwarder enabled size, [])).0.buffer ≤ 2 * size
unfolding new_forwarder
length-ticks-le fails enabled size ts =
    (ticks-IsSmall size fails ts (new_forwarder enabled size) [] (refl, omega arith)).1
