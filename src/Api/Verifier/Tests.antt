-- ===== src/Api/Verifier/Tests.antt =====
-- internal/api/verifier.go: runs at concrete envelopes.
use plexd.Base.{
  ℕ, ◌+◌, ◌*◌, true, false, ◌==◌, arith, eq_iff, none, some, ◌≡◌, ◌≢◌, ◌↔◌, refl, [], ◌∷◌, List,
  inl, if◌then◌else◌, ltb,
}
use plexd.Base.GoMap.{find, has, store}
use plexd.Api.Envelope.{Bytes, SignedEnvelope}
use plexd.Api.Verifier.{
  Verifier, duplicate_nonce, event_stale, Readings, Crypto, canonical, second, drop_expired,
  cleanup, sweep, precheck, check_signature, signed_by, verify, add, remember, run, Op, check,
  set_keys, step,
}
use plexd.Api.Verifier.Checks.{IsFresh, Authentic, by_current, verify_accepts_iff}
use plexd.Api.Verifier.Replay.{replay_refused}
use plexd.Api.Verifier.Boundary.{replay_across_boundary}

-- Stand-ins: a signature is right if it begins with the key's first byte.
abbrev first : Bytes → ℕ
first [] = 0
first (b ∷ _) = b

abbrev toy : Crypto
toy = record {
  decode_string = λ s. (if s == "good" then some (7 ∷ []) else some (8 ∷ []));
  marshal = λ c. some [];
  verify = λ key message sig.
      (if ltb (first key) (first sig)
        then false
        else (if ltb (first sig) (first key) then false else true));
}

abbrev start : Verifier
start = record {
  current_key = 7 ∷ [];
  previous_key = [];
  transition_expires = 0;
  nonces = record { seen = []; last_cleanup = 1000 * second };
}

abbrev at : ℕ → Readings
at t = record {
  stale_now = t;
  future_now = t;
  key_now = t;
  since_now = t;
  cutoff_now = t;
  cleaned_now = t;
}

abbrev event : SignedEnvelope
event = record {
  event_type = "peer_added";
  event_id = "e1";
  issued_at = 1000 * second;
  nonce = "n1";
  payload = [];
  signature = "good";
}

abbrev after : Verifier
after = record start {
  nonces = record { seen = ("n1", 1000 * second) ∷ []; last_cleanup = 1000 * second };
}

program : Unit {0}
unfolding verify add remember sweep cleanup drop_expired precheck check_signature signed_by find has
    store run step set_keys canonical
program = tt

accepts_event : verify toy start (at (1001 * second)) event ≡ (after, none)
unfolding program
accepts_event = refl

refuses_again : (verify toy after (at (1002 * second)) event).1 ≡ some duplicate_nonce
unfolding program
refuses_again = refl

stale_after_cleanup : (verify toy after (at (1301 * second)) event).1 ≡ some event_stale
unfolding program
stale_after_cleanup = refl

-- One second later a second envelope arrives, and then the first once more.
abbrev other : SignedEnvelope
other = record event { nonce = "n2" }

verify_accepts_iff_example : ((verify toy start (at (1001 * second)) event).1 ≡ none) ↔ (
    IsFresh (at (1001 * second)) event
    × Authentic toy start (1001 * second) event
    × (has "n1" (sweep start.nonces (at (1001 * second))).seen ≡ false))
verify_accepts_iff_example = verify_accepts_iff toy start (at (1001 * second)) event

abbrev later : List Op
later = check (at (1002 * second)) other ∷ []

replay_refused_example :
    (verify toy
      (run toy (verify toy start (at (1001 * second)) event).0 later)
      (at (1003 * second))
      event).1
    ≢ none
unfolding program
replay_refused_example =
    replay_refused toy start (at (1001 * second)) event later (at (1003 * second)) event refl
      (omega arith) (omega arith) refl refl (inl (omega arith))

-- The staleness test reads the clock at the very end of the window, the clean-up a moment later.
abbrev crossing : Readings
crossing = record (at (1300 * second)) {
  since_now = 1300 * second + 1;
  cutoff_now = 1300 * second + 1;
  cleaned_now = 1300 * second + 1;
}

replay_across_boundary_example : (verify toy after crossing event).1 ≡ none
unfolding program
replay_across_boundary_example =
    replay_across_boundary toy after crossing event (refl, tt) refl
      (record {
        has_signature = λ e. ground (arith, eq_iff "good" "");
        has_nonce = λ e. ground (arith, eq_iff "n1" "");
        has_time = omega arith;
        not_stale = omega arith;
        not_future = omega arith;
      })
      (by_current (7 ∷ []) [] refl refl refl) (omega arith) (omega arith)
