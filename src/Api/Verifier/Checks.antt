-- ===== src/Api/Verifier/Checks.antt =====
-- internal/api/verifier.go: what acceptance means, and what a refusal leaves behind.
use plexd.Base.{
  ℕ, ◌+◌, ◌≤◌, ◌<◌, true, false, arith, eq_iff, none, some, ◌≡◌, ◌≢◌, ◌↔◌, ◌⊎◌, length, inl, inr,
}
use plexd.Base.GoMap.{has}
use plexd.Api.Envelope.{Bytes, SignedEnvelope}
use plexd.Api.Verifier.{
  Verifier, VerifyError, duplicate_nonce, Readings, Crypto, staleness_window, precheck, signed_by,
  check_signature, verify, add, sweep, remember, canonical,
}

-- The envelope is complete, and its time of issue lies within five minutes of the clock.
pub record IsFresh (r : Readings) (env : SignedEnvelope) : Type 0 where
  pub has_signature : env.signature ≢ ""
  pub has_nonce : env.nonce ≢ ""
  pub has_time : 0 < env.issued_at
  pub not_stale : r.stale_now ≤ env.issued_at + staleness_window
  pub not_future : env.issued_at ≤ r.future_now + staleness_window

precheck-IsFresh : (r : Readings) (env : SignedEnvelope) → precheck r env ≡ none → IsFresh r env
unfolding precheck
precheck-IsFresh r env h = ground (arith, eq_iff env.signature "", eq_iff env.nonce "")

IsFresh-precheck : (r : Readings) (env : SignedEnvelope) → IsFresh r env → precheck r env ≡ none
unfolding precheck
IsFresh-precheck r env h = ground (arith, eq_iff env.signature "", eq_iff env.nonce "")

module _ (crypto : Crypto) where
  -- The signature holds for the canonical form under the current key, or under a previous key
  -- whose transition has not expired.
  pub data Authentic (v : Verifier) (now : ℕ) (env : SignedEnvelope) : Type 0 where
    by_current :
        (sig message : Bytes)
        → crypto.decode_string env.signature ≡ some sig
        → crypto.marshal (canonical env) ≡ some message
        → crypto.verify v.current_key message sig ≡ true
        → Authentic v now env
    by_previous :
        (sig message : Bytes)
        → crypto.decode_string env.signature ≡ some sig
        → crypto.marshal (canonical env) ≡ some message
        → 0 < length v.previous_key
        → now < v.transition_expires
        → crypto.verify v.previous_key message sig ≡ true
        → Authentic v now env

  signed_by_cases :
      (v : Verifier) (now : ℕ) (message sig : Bytes)
      → signed_by crypto v now message sig ≡ true
      → (crypto.verify v.current_key message sig ≡ true)
        ⊎ ((0 < length v.previous_key)
            × (now < v.transition_expires)
            × (crypto.verify v.previous_key message sig ≡ true))
  unfolding signed_by
  signed_by_cases v now message sig h = ground arith

  check_signature_parts :
      (v : Verifier) (r : Readings) (env : SignedEnvelope)
      → check_signature crypto v r env ≡ true
      → (sig : Bytes) × (message : Bytes) × (crypto.decode_string env.signature ≡ some sig)
        × (crypto.marshal (canonical env) ≡ some message)
        × (signed_by crypto v r.key_now message sig ≡ true)
  unfolding check_signature
  check_signature_parts v r env h = ground arith

  check_signature-Authentic :
      (v : Verifier) (r : Readings) (env : SignedEnvelope)
      → check_signature crypto v r env ≡ true
      → Authentic v r.key_now env
  check_signature-Authentic v r env h =
      let (sig, message, d, m, ok) = check_signature_parts v r env h in
      elim (signed_by_cases v r.key_now message sig ok) [
        | inl c ↦ by_current sig message d m c
        | inr p ↦ by_previous sig message d m p.0 p.1 p.2
      ]

  Authentic-check_signature :
      (v : Verifier) (r : Readings) (env : SignedEnvelope)
      → Authentic v r.key_now env
      → check_signature crypto v r env ≡ true
  unfolding check_signature signed_by
  Authentic-check_signature v r env (by_current sig message d m ok) = ground arith
  Authentic-check_signature v r env (by_previous sig message d m k t ok) = ground arith

  accepts :
      (v : Verifier) (r : Readings) (env : SignedEnvelope)
      → precheck r env ≡ none
      → check_signature crypto v r env ≡ true
      → has env.nonce (sweep v.nonces r).seen ≡ false
      → (verify crypto v r env).1 ≡ none
  unfolding verify add remember
  accepts v r env p c n = ground arith

  accepted :
      (v : Verifier) (r : Readings) (env : SignedEnvelope)
      → (verify crypto v r env).1 ≡ none
      → (precheck r env ≡ none)
        × (check_signature crypto v r env ≡ true)
        × (has env.nonce (sweep v.nonces r).seen ≡ false)
  unfolding verify add remember
  accepted v r env h = ground arith

  -- `verify` accepts exactly the envelopes that are complete and within the window, that the
  -- current key or a previous key in transition has signed, and whose nonce is not stored after
  -- the clean-up that the call may make.
  pub verify_accepts_iff :
      (v : Verifier) (r : Readings) (env : SignedEnvelope)
      → ((verify crypto v r env).1 ≡ none) ↔ (
          IsFresh r env
          × Authentic v r.key_now env
          × (has env.nonce (sweep v.nonces r).seen ≡ false))
  verify_accepts_iff v r env = (
    λ h.
        (let (p, c, n) = accepted v r env h in
          (precheck-IsFresh r env p, check_signature-Authentic v r env c, n)),
    λ h. accepts v r env (IsFresh-precheck r env h.0) (Authentic-check_signature v r env h.1) h.2,
  )

  -- An envelope that is refused for any reason but its nonce leaves the verifier as it was, so that
  -- forged envelopes do not fill the nonce store.
  pub refused_unchanged :
      (v : Verifier) (r : Readings) (env : SignedEnvelope) (e : VerifyError)
      → (verify crypto v r env).1 ≡ some e
      → e ≢ duplicate_nonce
      → (verify crypto v r env).0 ≡ v
  unfolding verify add remember
  refused_unchanged v r env e h n = ground arith
