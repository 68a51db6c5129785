-- ===== src/Api/Verifier/Replay.antt =====
-- internal/api/verifier.go: envelopes that were accepted before.
use plexd.Base.{
  ℕ, ◌+◌, ◌-◌, ◌≤◌, ◌<◌, String, List, [], ◌∷◌, true, false, leb, arith, eq_iff, none, some, ◌≡◌,
  ◌≢◌, ◌⊎◌, inl, inr, Bool-cases, Option-cases,
}
use plexd.Base.GoMap.{GoMap, find, has, store, find-store, find-store_self, has_of_find}
use plexd.Api.Envelope.{SignedEnvelope}
use plexd.Api.Verifier.{
  NonceStore, Verifier, duplicate_nonce, Readings, Crypto, nonce_ttl, staleness_window,
  nonce_cleanup_interval, Op, check, change_keys, set_keys, drop_expired, cleanup, add, precheck,
  check_signature, verify, step, run, sweep, remember,
}

-- The readings of a call do not go back, and start at `t` or later.
pub record Ordered (t : ℕ) (r : Readings) : Type 0 where
  pub starts : t ≤ r.stale_now
  pub future : r.stale_now ≤ r.future_now
  pub key : r.future_now ≤ r.key_now
  pub since : r.key_now ≤ r.since_now
  pub cutoff : r.since_now ≤ r.cutoff_now
  pub cleaned : r.cutoff_now ≤ r.cleaned_now

-- The clock does not go back over a sequence of operations that starts at `t`.
abbrev pub InOrder : ℕ → List Op → Type 0
InOrder t [] = Unit
InOrder t (check r env ∷ ops) = Ordered t r × InOrder r.cleaned_now ops
InOrder t (change_keys _ _ _ ∷ ops) = InOrder t ops

abbrev pub end_time : ℕ → List Op → ℕ
end_time t [] = t
end_time t (check r env ∷ ops) = end_time r.cleaned_now ops
end_time t (change_keys _ _ _ ∷ ops) = end_time t ops

-- The nonce is stored with this time, or so old at `t` that staleness keeps the envelope out.
abbrev pub Remembers : NonceStore → String → ℕ → ℕ → Type 0
Remembers s nonce issued t = (find nonce s.seen ≡ some issued) ⊎ (issued + nonce_ttl < t)

find-drop_expired :
    (k : String) (c : ℕ) (m : GoMap ℕ) (v : ℕ)
    → find k m ≡ some v
    → (find k (drop_expired c m) ≡ some v) ⊎ (v < c)
unfolding find drop_expired
find-drop_expired k c [] v h = absurd (ground arith)
find-drop_expired k c ((j, w) ∷ m) v h = ground (arith, eq_iff j k, find-drop_expired k c m v)

Remembers-cleanup :
    (s : NonceStore) (r : Readings) (nonce : String) (issued t : ℕ)
    → Ordered t r
    → Remembers s nonce issued t
    → Remembers (cleanup s r) nonce issued r.cutoff_now
unfolding cleanup
Remembers-cleanup s r nonce issued t o (inl stored) =
    elim (find-drop_expired nonce (r.cutoff_now - nonce_ttl) s.seen issued stored) [
      | inl kept ↦ inl kept
      | inr old ↦ inr (omega arith)
    ]
Remembers-cleanup s r nonce issued t o (inr old) = inr (omega arith)

Remembers-store :
    (s : NonceStore) (nonce m : String) (issued j t : ℕ)
    → has m s.seen ≡ false
    → Remembers s nonce issued t
    → Remembers (record s { seen = store m j s.seen }) nonce issued t
Remembers-store s nonce m issued j t fresh (inl stored) = inl (
    ground
      (arith, find-store m nonce j s.seen, eq_iff m nonce, has_of_find nonce s.seen issued stored))
Remembers-store s nonce m issued j t fresh (inr old) = inr old

Remembers-later :
    (s : NonceStore) (nonce : String) (issued t u : ℕ)
    → t ≤ u
    → Remembers s nonce issued t
    → Remembers s nonce issued u
Remembers-later s nonce issued t u le (inl stored) = inl stored
Remembers-later s nonce issued t u le (inr old) = inr (omega arith)

Remembers-sweep :
    (s : NonceStore) (r : Readings) (nonce : String) (issued t : ℕ)
    → Ordered t r
    → Remembers s nonce issued t
    → Remembers (sweep s r) nonce issued r.cutoff_now
unfolding sweep
Remembers-sweep s r nonce issued t o h =
    elim (Bool-cases (leb (s.last_cleanup + nonce_cleanup_interval) r.since_now)) [
      | inl due ↦ rw due (Remembers-cleanup s r nonce issued t o h)
      | inr early ↦ rw early (Remembers-later s nonce issued t _ (omega arith) h)
    ]

Remembers-remember :
    (s : NonceStore) (nonce m : String) (issued j t : ℕ)
    → Remembers s nonce issued t
    → Remembers (remember s m j).0 nonce issued t
unfolding remember
Remembers-remember s nonce m issued j t h = elim (Bool-cases (has m s.seen)) [
  | inl dup ↦ rw dup h
  | inr fresh ↦ rw fresh (Remembers-store s nonce m issued j t fresh h)
]

Remembers-add :
    (s : NonceStore) (r : Readings) (nonce m : String) (issued j t : ℕ)
    → Ordered t r
    → Remembers s nonce issued t
    → Remembers (add s r m j).0 nonce issued r.cleaned_now
unfolding add
Remembers-add s r nonce m issued j t o h =
    Remembers-remember (sweep s r) nonce m issued j r.cleaned_now (
      Remembers-later (sweep s r) nonce issued r.cutoff_now _ o.cleaned
        (Remembers-sweep s r nonce issued t o h))

-- A call of `Add` that reports no error has stored the nonce.
stored-add :
    (s : NonceStore) (r : Readings) (nonce : String) (issued : ℕ)
    → (add s r nonce issued).1 ≡ none
    → find nonce (add s r nonce issued).0.seen ≡ some issued
unfolding add remember
stored-add s r nonce issued h = ground (arith, find-store_self nonce issued (sweep s r).seen)

-- What is stored after the sweep is a duplicate.
add-duplicate :
    (s : NonceStore) (r : Readings) (nonce : String) (issued j : ℕ)
    → find nonce (sweep s r).seen ≡ some j
    → (add s r nonce issued).1 ≡ some duplicate_nonce
unfolding add remember
add-duplicate s r nonce issued j h = rw (has_of_find nonce (sweep s r).seen j h)

-- Between the staleness test of a call and the cutoff of its clean-up the clock does not pass the
-- end of the envelope's window.
abbrev pub NotCrossed : Readings → ℕ → Type 0
NotCrossed r issued =
    (r.cutoff_now ≤ issued + staleness_window) ⊎ (issued + staleness_window < r.stale_now)

fresh_not_old :
    (r : Readings) (env : SignedEnvelope)
    → precheck r env ≡ none
    → NotCrossed r env.issued_at
    → env.issued_at + nonce_ttl < r.cutoff_now
    → ⊥
unfolding precheck
fresh_not_old r env passed n old = ground arith

module _ (crypto : Crypto) where
  pub Remembers-verify :
      (v : Verifier) (r : Readings) (env : SignedEnvelope) (nonce : String) (issued t : ℕ)
      → Ordered t r
      → Remembers v.nonces nonce issued t
      → Remembers (verify crypto v r env).0.nonces nonce issued r.cleaned_now
  unfolding verify
  Remembers-verify v r env nonce issued t o h = elim (Option-cases (precheck r env)) [
    | inr (e, refused) ↦
        rw (refused, verify) (Remembers-later v.nonces nonce issued t _ (omega arith) h)
    | inl passed ↦ elim (Bool-cases (check_signature crypto v r env)) [
      | inl signed ↦
          rw (passed, verify, signed)
            (Remembers-add v.nonces r nonce env.nonce issued env.issued_at t o h)
      | inr forged ↦
          rw (passed, verify, forged) (Remembers-later v.nonces nonce issued t _ (omega arith) h)
    ]
  ]

  Remembers-run :
      (ops : List Op) (v : Verifier) (nonce : String) (issued t : ℕ)
      → InOrder t ops
      → Remembers v.nonces nonce issued t
      → Remembers (run crypto v ops).nonces nonce issued (end_time t ops)
  unfolding run step set_keys
  Remembers-run [] v nonce issued t o h = h
  Remembers-run (check r env ∷ ops) v nonce issued t o h =
      Remembers-run ops (verify crypto v r env).0 nonce issued r.cleaned_now o.1
        (Remembers-verify v r env nonce issued t o.0 h)
  Remembers-run (change_keys a b c ∷ ops) v nonce issued t o h =
      Remembers-run ops (set_keys v a b c) nonce issued t o h

  -- An accepted envelope passed every test before the signature, and its nonce was not there.
  accepted_parts :
      (v : Verifier) (r : Readings) (env : SignedEnvelope)
      → (verify crypto v r env).1 ≡ none
      → (precheck r env ≡ none)
        × (check_signature crypto v r env ≡ true)
        × ((add v.nonces r env.nonce env.issued_at).1 ≡ none)
  unfolding verify
  accepted_parts v r env h = ground arith

  -- A remembered nonce is refused.
  pub refused_remembered :
      (v : Verifier) (r : Readings) (env : SignedEnvelope) (t : ℕ)
      → Ordered t r
      → NotCrossed r env.issued_at
      → Remembers v.nonces env.nonce env.issued_at t
      → (verify crypto v r env).1 ≢ none
  refused_remembered v r env t o n h accepted =
      let (fresh, _, new) = accepted_parts v r env accepted in
      elim (Remembers-sweep v.nonces r env.nonce env.issued_at t o h) [
        | inl stored ↦ cc (add-duplicate v.nonces r env.nonce env.issued_at env.issued_at stored)
        | inr old ↦ fresh_not_old r env fresh n old
      ]

  pub accepted-Remembers :
      (v : Verifier) (r : Readings) (env : SignedEnvelope) (t : ℕ)
      → (verify crypto v r env).1 ≡ none
      → Remembers (verify crypto v r env).0.nonces env.nonce env.issued_at t
  unfolding verify
  accepted-Remembers v r env t h =
      let (fresh, signed, new) = accepted_parts v r env h in
      inl (rw (fresh, verify, signed) (stored-add v.nonces r env.nonce env.issued_at new))

  -- After `verify` has accepted an envelope, and after any later calls of `verify` and changes of
  -- keys, with a clock that does not go back, an envelope with the same nonce and the same time of
  -- issue is refused. It is assumed that within that last call the clock does not pass the end of
  -- the envelope's window between the staleness test and the clean-up.
  pub replay_refused :
      (v : Verifier) (r : Readings) (env : SignedEnvelope) (ops : List Op) (r' : Readings)
      (again : SignedEnvelope)
      → (verify crypto v r env).1 ≡ none
      → InOrder r.cleaned_now ops
      → Ordered (end_time r.cleaned_now ops) r'
      → again.nonce ≡ env.nonce
      → again.issued_at ≡ env.issued_at
      → NotCrossed r' again.issued_at
      → (verify crypto (run crypto (verify crypto v r env).0 ops) r' again).1 ≢ none
  replay_refused v r env ops r' again accepted o o' same_nonce same_time n =
      refused_remembered (run crypto (verify crypto v r env).0 ops) r' again
        (end_time r.cleaned_now ops) o' n
        (rw (same_nonce, same_time)
          (Remembers-run ops (verify crypto v r env).0 env.nonce env.issued_at r.cleaned_now o
            (accepted-Remembers v r env r.cleaned_now accepted)))
