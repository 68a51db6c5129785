-- ===== src/Forwarding/Delivery.antt =====
-- internal/logfwd/forwarder.go: what a forwarder sends, and in which order.
use mathlib.Core.Path.{subst}
use mathlib.Core.List.{append_assoc, append-nil}
use plexd.Base.{
  ℕ, zero, suc, ◌-◌, ◌*◌, ◌≤◌, ◌<◌, List, [], ◌∷◌, ◌++◌, Bool, true, false, ltb, Option, none, some,
  if◌then◌else◌, length, arith, ◌≡◌, refl, sym, ap, ◌∙◌, inl, inr, Bool-cases,
}
use plexd.Forwarding.{
  take, drop, Sent, Forwarder, Tick, collecting, reporting, new_forwarder, enforce_capacity,
  collect, send, flush, on_tick, ticks, run,
}

take-drop : {A : Type 0} (n : ℕ) (xs : List A) → take n xs ++ drop n xs ≡ xs
take-drop zero xs = refl
take-drop (suc n) [] = refl
take-drop (suc n) (x ∷ xs) = ap (◌∷◌ x) (take-drop n xs)

pub length-drop : {A : Type 0} (n : ℕ) (xs : List A) → length (drop n xs) ≡ length xs - n
length-drop zero xs = omega arith
length-drop (suc n) [] = omega arith
length-drop (suc n) (x ∷ xs) = omega (arith, length-drop n xs)

-- All that was sent, in order.
abbrev pub concat : {A : Type 0} → Sent A → List A
concat [] = []
concat (c ∷ cs) = c ++ concat cs

concat-snoc : {A : Type 0} (cs : Sent A) (c : List A) → concat (cs ++ c ∷ []) ≡ concat cs ++ c
concat-snoc [] c = append-nil c
concat-snoc (d ∷ cs) c = ap (◌++◌ d) (concat-snoc cs c) ∙ sym (append_assoc d (concat cs) c)

module _ {A : Type 0} (fails : List (List A) → List A → Bool) where
  -- What is sent, followed by what is left, is what was sent before, followed by the batch.
  send-concat :
      (fuel size : ℕ) (batch : List A) (sent : Sent A)
      → let (left, sent') = send fails fuel size batch sent in
        concat sent' ++ left ≡ concat sent ++ batch
  unfolding send
  send-concat zero size batch sent = refl
  send-concat (suc fuel) size [] sent = refl
  send-concat (suc fuel) size (x ∷ batch) sent =
      elim (Bool-cases (fails sent (take size (x ∷ batch)))) [
        | inl failed ↦ rw failed refl
        | inr accepted ↦ rw accepted (
            send-concat fuel size (drop size (x ∷ batch)) (sent ++ take size (x ∷ batch) ∷ [])
            ∙ ap (λ (y : List A). y ++ drop size (x ∷ batch))
                (concat-snoc sent (take size (x ∷ batch)))
            ∙ append_assoc (concat sent) (take size (x ∷ batch)) (drop size (x ∷ batch))
            ∙ ap (◌++◌ (concat sent)) (take-drop size (x ∷ batch)))
      ]

  -- With fuel for each entry, the loop ends with an empty batch or at a report that fails.
  send_all :
      (fuel size : ℕ) (batch : List A) (sent : Sent A)
      → length batch ≤ fuel
      → 0 < size
      → ((s : Sent A) (c : List A) → fails s c ≡ false)
      → (send fails fuel size batch sent).0 ≡ []
  unfolding send
  send_all zero size [] sent enough positive works = refl
  send_all zero size (x ∷ batch) sent enough positive works = absurd (omega arith)
  send_all (suc fuel) size [] sent enough positive works = refl
  send_all (suc fuel) size (x ∷ batch) sent enough positive works =
      rw (works sent (take size (x ∷ batch))) (
        send_all fuel size (drop size (x ∷ batch)) (sent ++ take size (x ∷ batch) ∷ [])
          (omega (arith, length-drop size (x ∷ batch))) positive works)

  -- If no report fails, a flush sends the whole buffer, in order, and leaves it empty.
  pub flushed :
      (f : Forwarder A) (sent : Sent A)
      → 0 < f.batch_size
      → ((s : Sent A) (c : List A) → fails s c ≡ false)
      → ((flush fails f sent).0.buffer ≡ [])
        × (concat (flush fails f sent).1 ≡ concat sent ++ f.buffer)
  unfolding flush
  flushed f sent positive works =
      go (send fails (length f.buffer) f.batch_size f.buffer sent)
        (send_all (length f.buffer) f.batch_size f.buffer sent (omega arith) positive works)
        (send-concat (length f.buffer) f.batch_size f.buffer sent)
    where
      go :
          (out : List A × Sent A)
          → out.0 ≡ []
          → concat out.1 ++ out.0 ≡ concat sent ++ f.buffer
          → let x : Forwarder A × Sent A = elim out.0 [
            | [] ↦ (record f { buffer = [] }, out.1)
            | y ∷ ys ↦ (enforce_capacity (record f { buffer = y ∷ ys }), out.1)
          ] in
            (x.0.buffer ≡ []) × (concat x.1 ≡ concat sent ++ f.buffer)
      go ([], s) e c = (refl, sym (append-nil (concat s)) ∙ c)
      go (y ∷ ys, s) e c = absurd (ground arith)

-- The first list is the second with some entries left out.
pub data Within {A : Type 0} : List A → List A → Type 0 where
  done : Within [] []
  keep : {x : A} {xs ys : List A} → Within xs ys → Within (x ∷ xs) (x ∷ ys)
  skip : {x : A} {xs ys : List A} → Within xs ys → Within xs (x ∷ ys)

Within-refl : {A : Type 0} (xs : List A) → Within xs xs
Within-refl [] = done
Within-refl (x ∷ xs) = keep (Within-refl xs)

Within-trans : {A : Type 0} {xs ys zs : List A} → Within xs ys → Within ys zs → Within xs zs
Within-trans h done = h
Within-trans (keep h) (keep k) = keep (Within-trans h k)
Within-trans (skip h) (keep k) = skip (Within-trans h k)
Within-trans h (skip k) = skip (Within-trans h k)

-- Dropping entries after a prefix.
Within-drop : {A : Type 0} (xs : List A) (n : ℕ) (ys : List A) → Within (xs ++ drop n ys) (xs ++ ys)
Within-drop (x ∷ xs) n ys = keep (Within-drop xs n ys)
Within-drop [] zero ys = Within-refl ys
Within-drop [] (suc n) [] = done
Within-drop [] (suc n) (y ∷ ys) = skip (Within-drop [] n ys)

Within-append :
    {A : Type 0} {xs ys : List A} (zs : List A) → Within xs ys → Within (xs ++ zs) (ys ++ zs)
Within-append zs done = Within-refl zs
Within-append zs (keep h) = keep (Within-append zs h)
Within-append zs (skip h) = skip (Within-append zs h)

Within-nil : {A : Type 0} (ys : List A) → Within [] ys
Within-nil [] = done
Within-nil (y ∷ ys) = skip (Within-nil ys)

-- What the sources have given, in order.
abbrev pub entries_of : {A : Type 0} → List (Option (List A)) → List A
entries_of [] = []
entries_of (none ∷ sources) = entries_of sources
entries_of (some entries ∷ sources) = entries ++ entries_of sources

abbrev pub collected : {A : Type 0} → List (Tick A) → List A
collected [] = []
collected (collecting sources ∷ ts) = entries_of sources ++ collected ts
collected (reporting ∷ ts) = collected ts

module _ {A : Type 0} where
  enforce_capacity-Within :
      (before : List A) (f : Forwarder A)
      → Within (before ++ (enforce_capacity f).buffer) (before ++ f.buffer)
  unfolding enforce_capacity
  enforce_capacity-Within before f = go (ltb (2 * f.batch_size) (length f.buffer))
    where
      go :
          (b : Bool)
          → let x : Forwarder A =
              (if b
                then record f { buffer = drop (length f.buffer - 2 * f.batch_size) f.buffer }
                else f) in
            Within (before ++ x.buffer) (before ++ f.buffer)
      go true = Within-drop before (length f.buffer - 2 * f.batch_size) f.buffer
      go false = Within-refl (before ++ f.buffer)

  collect-Within :
      (sources : List (Option (List A))) (before : List A) (f : Forwarder A)
      → Within (before ++ (collect sources f).buffer) ((before ++ f.buffer) ++ entries_of sources)
  unfolding collect
  collect-Within [] before f =
      subst (Within (before ++ f.buffer)) (sym (append-nil (before ++ f.buffer)))
        (Within-refl (before ++ f.buffer))
  collect-Within (none ∷ sources) before f = collect-Within sources before f
  collect-Within (some entries ∷ sources) before f =
      let g : Forwarder A = record f { buffer = f.buffer ++ entries } in
      Within-trans (collect-Within sources before (enforce_capacity g)) (
        subst (Within ((before ++ (enforce_capacity g).buffer) ++ entries_of sources))
          (ap (λ (y : List A). y ++ entries_of sources) (sym (append_assoc before f.buffer entries))
            ∙ append_assoc (before ++ f.buffer) entries (entries_of sources))
          (Within-append (entries_of sources) (enforce_capacity-Within before g)))

module _ {A : Type 0} (fails : List (List A) → List A → Bool) where
  flush-Within :
      (f : Forwarder A) (sent : Sent A)
      → let (f', sent') = flush fails f sent in
        Within (concat sent' ++ f'.buffer) (concat sent ++ f.buffer)
  unfolding flush
  flush-Within f sent =
      go (send fails (length f.buffer) f.batch_size f.buffer sent)
        (send-concat fails (length f.buffer) f.batch_size f.buffer sent)
    where
      go :
          (out : List A × Sent A)
          → concat out.1 ++ out.0 ≡ concat sent ++ f.buffer
          → let x : Forwarder A × Sent A = elim out.0 [
            | [] ↦ (record f { buffer = [] }, out.1)
            | y ∷ ys ↦ (enforce_capacity (record f { buffer = y ∷ ys }), out.1)
          ] in
            Within (concat x.1 ++ x.0.buffer) (concat sent ++ f.buffer)
      go ([], s) e = subst (Within (concat s ++ [])) e (Within-refl (concat s ++ []))
      go (y ∷ ys, s) e =
          subst (Within (concat s ++ (enforce_capacity (record f { buffer = y ∷ ys })).buffer)) e
            (enforce_capacity-Within (concat s) (record f { buffer = y ∷ ys }))

  ticks-Within :
      (ts : List (Tick A)) (f : Forwarder A) (sent : Sent A)
      → let (f', sent') = ticks fails ts (f, sent) in
        Within (concat sent' ++ f'.buffer) ((concat sent ++ f.buffer) ++ collected ts)
  unfolding ticks on_tick
  ticks-Within [] f sent =
      subst (Within (concat sent ++ f.buffer)) (sym (append-nil (concat sent ++ f.buffer)))
        (Within-refl (concat sent ++ f.buffer))
  ticks-Within (collecting sources ∷ ts) f sent =
      Within-trans (ticks-Within ts (collect sources f) sent) (
        subst (Within ((concat sent ++ (collect sources f).buffer) ++ collected ts))
          (append_assoc (concat sent ++ f.buffer) (entries_of sources) (collected ts))
          (Within-append (collected ts) (collect-Within sources (concat sent) f)))
  ticks-Within (reporting ∷ ts) f sent =
      Within-trans (ticks-Within ts (flush fails f sent).0 (flush fails f sent).1)
        (Within-append (collected ts) (flush-Within f sent))

  -- Whatever the sources give and whichever reports fail, what a new forwarder has sent, followed by
  -- what it still holds, is what it collected with some entries left out: no entry is sent twice or
  -- both sent and held, and none before an earlier one.
  pub run-Within :
      (enabled : Bool) (size : ℕ) (first : List (Option (List A))) (ts : List (Tick A))
      → let (f, sent) = run fails first ts (new_forwarder enabled size, []) in
        Within (concat sent ++ f.buffer) (collected (collecting first ∷ ts))
  unfolding run new_forwarder ticks on_tick
  run-Within false size first ts = Within-nil (entries_of first ++ collected ts)
  run-Within true size first ts =
      let f : Forwarder A = record { enabled = true; batch_size = size; buffer = [] } in
      let s = ticks fails ts (collect first f, []) in
      Within-trans (flush-Within s.0 s.1) (ticks-Within (collecting first ∷ ts) f [])
