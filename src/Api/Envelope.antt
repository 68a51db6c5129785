-- ===== src/Api/Envelope.antt =====
-- internal/api/envelope.go: the signed event envelope. Times are nanoseconds since the zero time of
-- package time, byte slices are lists of numbers.
use plexd.Base.{
  ℕ, eqb, String, List, [], ◌∷◌, Bool, true, false, ◌&&◌, ◌==◌, Option, none, some, if◌then◌else◌,
}

abbrev pub Bytes : Type 0
Bytes = List ℕ

abbrev pub same_bytes : Bytes → Bytes → Bool
same_bytes [] [] = true
same_bytes (a ∷ as₁) (b ∷ bs) = eqb a b && same_bytes as₁ bs
same_bytes as₁ bs = false

pub record SignedEnvelope : Type 0 where
  pub event_type : String
  pub event_id : String
  pub issued_at : ℕ
  pub nonce : String
  pub payload : Bytes
  pub signature : String

pub data EnvelopeError : Type 0 where
  unmarshal_failed missing_event_type missing_event_id : EnvelopeError

pub data ParseResult : Type 0 where
  parsed : SignedEnvelope → ParseResult
  failed : EnvelopeError → ParseResult

-- `unmarshal` is encoding/json's decoder at this type.
unfoldable pub parse_envelope : (Bytes → Option SignedEnvelope) → Bytes → ParseResult
parse_envelope unmarshal bytes = elim (unmarshal bytes) [
  | none ↦ failed unmarshal_failed
  | some env ↦
      if env.event_type == ""
      then failed missing_event_type
      else if env.event_id == ""
      then failed missing_event_id
      else parsed env
]
