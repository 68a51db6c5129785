-- ===== src/Api/Verifier.antt =====
-- internal/api/verifier.go: signature, freshness and replay checks of event envelopes.
-- Each reading of the clock during a call is an input of its own, since the code calls time.Now()
-- and time.Since() anew at each place.
pub mod Replay
pub mod Checks
pub mod Boundary
mod Tests
use plexd.Api.Envelope.{Bytes, SignedEnvelope}
use plexd.Base.{
  ℕ, ◌+◌, ◌-◌, ◌*◌, ◌≤◌, ◌<◌, String, List, [], ◌∷◌, Bool, true, false, not, ◌&&◌, ◌||◌, ◌==◌, eqb,
  ltb, leb, Option, none, some, length, if◌then◌else◌, ◌⊎◌,
}
use plexd.Base.GoMap.{GoMap, has, store}

abbrev pub second : ℕ
second = 1_000_000_000

abbrev pub staleness_window : ℕ
staleness_window = 300 * second

abbrev pub nonce_ttl : ℕ
nonce_ttl = 300 * second

abbrev pub nonce_cleanup_interval : ℕ
nonce_cleanup_interval = 60 * second

pub record NonceStore : Type 0 where
  pub seen : GoMap ℕ
  pub last_cleanup : ℕ

pub record Verifier : Type 0 where
  pub current_key : Bytes
  pub previous_key : Bytes
  pub transition_expires : ℕ
  pub nonces : NonceStore

pub data VerifyError : Type 0 where
  missing_signature missing_nonce missing_issued_at event_stale event_in_future : VerifyError
  signature_failed duplicate_nonce : VerifyError

-- The clock readings of one call, in the order in which the code makes them.
pub record Readings : Type 0 where
  pub stale_now : ℕ
  pub future_now : ℕ
  pub key_now : ℕ
  pub since_now : ℕ
  pub cutoff_now : ℕ
  pub cleaned_now : ℕ

pub record CanonicalEnvelope : Type 0 where
  pub event_type : String
  pub event_id : String
  pub issued_at : ℕ
  pub nonce : String
  pub payload : Bytes

-- What the code takes from encoding/base64, encoding/json and crypto/ed25519.
pub record Crypto : Type 0 where
  pub decode_string : String → Option Bytes
  pub marshal : CanonicalEnvelope → Option Bytes
  pub verify : Bytes → Bytes → Bytes → Bool

-- `NewNonceStore` and `NewEd25519Verifier`, at the time `now`.
unfoldable pub new_verifier : Bytes → ℕ → Verifier
new_verifier key now = record {
  current_key = key;
  previous_key = [];
  transition_expires = 0;
  nonces = record { seen = []; last_cleanup = now };
}

unfoldable pub set_keys : Verifier → Bytes → Bytes → ℕ → Verifier
set_keys v current previous expires = record v {
  current_key = current;
  previous_key = previous;
  transition_expires = expires;
}

-- The loop of `cleanup`: what is not before the cutoff stays.
unfoldable pub drop_expired : ℕ → GoMap ℕ → GoMap ℕ
drop_expired cutoff [] = []
drop_expired cutoff ((k, v) ∷ m) =
    let rest = drop_expired cutoff m in if ltb v cutoff then rest else (k, v) ∷ rest

-- `now - nonce_ttl` stops at 0, the zero time, before which no time of an entry lies.
unfoldable pub cleanup : NonceStore → Readings → NonceStore
cleanup s r = record {
  seen = drop_expired (r.cutoff_now - nonce_ttl) s.seen;
  last_cleanup = r.cleaned_now;
}

-- The clean-up that `Add` makes when the last one is long enough ago.
unfoldable pub sweep : NonceStore → Readings → NonceStore
sweep s r = if leb (s.last_cleanup + nonce_cleanup_interval) r.since_now then cleanup s r else s

-- The rest of `Add`: a nonce that is there is a duplicate, any other is stored.
unfoldable pub remember : NonceStore → String → ℕ → NonceStore × Option VerifyError
remember s nonce issued =
    if has nonce s.seen
    then (s, some duplicate_nonce)
    else (record s { seen = store nonce issued s.seen }, none)

unfoldable pub add : NonceStore → Readings → String → ℕ → NonceStore × Option VerifyError
add s r nonce issued = remember (sweep s r) nonce issued

unfoldable pub canonical : SignedEnvelope → CanonicalEnvelope
canonical env = record {
  event_type = env.event_type;
  event_id = env.event_id;
  issued_at = env.issued_at;
  nonce = env.nonce;
  payload = env.payload;
}

-- The tests of `Verify` that come before the signature.
unfoldable pub precheck : Readings → SignedEnvelope → Option VerifyError
precheck r env =
    if env.signature == ""
    then some missing_signature
    else if env.nonce == ""
    then some missing_nonce
    else if eqb env.issued_at 0
    then some missing_issued_at
    else if ltb (env.issued_at + staleness_window) r.stale_now
    then some event_stale
    else if ltb (r.future_now + staleness_window) env.issued_at
    then some event_in_future
    else none

-- What may happen to a verifier between two events: other envelopes and key changes.
pub data Op : Type 0 where
  check : Readings → SignedEnvelope → Op
  change_keys : Bytes → Bytes → ℕ → Op

module _ (crypto : Crypto) where
  open crypto use {decode_string, marshal, verify as ed25519_verify}

  -- The current key, or the previous one until its transition expires.
  unfoldable pub signed_by : Verifier → ℕ → Bytes → Bytes → Bool
  signed_by v now message sig =
      let current = ed25519_verify v.current_key message sig in
      if not current && (ltb 0 (length v.previous_key) && ltb now v.transition_expires)
      then ed25519_verify v.previous_key message sig
      else current

  -- The part of `Verify` from the base64 decoding to the signature test.
  unfoldable pub check_signature : Verifier → Readings → SignedEnvelope → Bool
  check_signature v r env = elim (decode_string env.signature) [
    | none ↦ false
    | some sig ↦ elim (marshal (canonical env)) [
      | none ↦ false
      | some message ↦ signed_by v r.key_now message sig
    ]
  ]

  unfoldable pub verify : Verifier → Readings → SignedEnvelope → Verifier × Option VerifyError
  verify v r env = elim (precheck r env) [
    | some e ↦ (v, some e)
    | none ↦
        if check_signature v r env
        then (let (s, err) = add v.nonces r env.nonce env.issued_at in
            (record v { nonces = s }, err))
        else (v, some signature_failed)
  ]

  unfoldable pub step : Verifier → Op → Verifier
  step v (check r env) = (verify v r env).0
  step v (change_keys current previous expires) = set_keys v current previous expires

  unfoldable pub run : Verifier → List Op → Verifier
  run v [] = v
  run v (op ∷ ops) = run (step v op) ops
