-- ===== src/Api/Verifier/Boundary.antt =====
-- internal/api/verifier.go: the clock is read anew for the clean-up, so an envelope that is fresh at
-- the staleness test may already be expired at the clean-up of the same call.
use plexd.Base.{ℕ, ◌+◌, ◌-◌, ◌≤◌, ◌<◌, String, false, arith, eq_iff, none, some, ◌≡◌, refl, [], ◌∷◌}
use plexd.Base.GoMap.{GoMap, Distinct, find, has}
use plexd.Api.Envelope.{SignedEnvelope}
use plexd.Api.Verifier.{
  Verifier, Readings, Crypto, staleness_window, nonce_ttl, nonce_cleanup_interval, drop_expired,
  cleanup, sweep, verify,
}
use plexd.Api.Verifier.Checks.{IsFresh, Authentic, verify_accepts_iff}

has-drop_expired :
    (k : String) (c : ℕ) (m : GoMap ℕ) → has k m ≡ false → has k (drop_expired c m) ≡ false
unfolding has drop_expired
has-drop_expired k c [] h = refl
has-drop_expired k c ((j, w) ∷ m) h = ground (arith, has-drop_expired k c m)

dropped :
    (k : String) (c : ℕ) (m : GoMap ℕ) (v : ℕ)
    → Distinct m
    → find k m ≡ some v
    → v < c
    → has k (drop_expired c m) ≡ false
unfolding find has drop_expired
dropped k c [] v d h lt = refl
dropped k c ((j, w) ∷ m) v d h lt =
    ground (arith, eq_iff j k, dropped k c m v d.1, has-drop_expired k c m)

-- An authentic envelope whose nonce is already stored is accepted once more when the clean-up of
-- the call is due and the clock passes the end of its window between the staleness test and the
-- reading from which the clean-up computes its cutoff.
pub replay_across_boundary :
    (crypto : Crypto) (v : Verifier) (r : Readings) (env : SignedEnvelope)
    → Distinct v.nonces.seen
    → find env.nonce v.nonces.seen ≡ some env.issued_at
    → IsFresh r env
    → Authentic crypto v r.key_now env
    → v.nonces.last_cleanup + nonce_cleanup_interval ≤ r.since_now
    → env.issued_at + staleness_window < r.cutoff_now
    → (verify crypto v r env).1 ≡ none
unfolding sweep cleanup
replay_across_boundary crypto v r env d stored fresh signed due late =
    (verify_accepts_iff crypto v r env).1 (
      fresh,
      signed,
      ground (
        arith,
        dropped env.nonce (r.cutoff_now - nonce_ttl) v.nonces.seen env.issued_at d stored,
      ),
    )
