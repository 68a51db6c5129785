-- ===== src/Api/Errors.antt =====
-- internal/api/errors.go: the errors of the control plane, by their HTTP status. A duration is in
-- nanoseconds.
use plexd.Base.{ℕ, zero, suc, [], ◌∷◌, Bool, true, ◌&&◌, eqb, leb, ltb, none, some, if◌then◌else◌}
use plexd.Base.Int.{ℤ, pos}
use plexd.Base.Words.{atoi, wrap64, times}
use plexd.Api.Envelope.{Bytes}

pub record ApiError : Type 0 where
  pub status_code : ℕ
  pub message : Bytes
  -- Only set for 429.
  pub retry_after : ℤ

-- `errors.Is` against the sentinel with this status: that of the server matches any 5xx.
unfoldable pub matches_status : ApiError → ℕ → Bool
matches_status e code =
    if eqb code 500 && (leb 500 e.status_code && ltb e.status_code 600)
    then true
    else eqb e.status_code code

abbrev pub max_error_body : ℕ
max_error_body = 4096

-- `io.LimitReader`
unfoldable pub limited : ℕ → Bytes → Bytes
limited zero bs = []
limited (suc n) [] = []
limited (suc n) (b ∷ bs) = b ∷ limited n bs

-- The status, the body as far as it is read, and the Retry-After header, empty if it is not there.
unfoldable pub error_from_response : ℕ → Bytes → Bytes → ApiError
error_from_response status body retry_header = record {
  status_code = status;
  message = limited max_error_body body;
  retry_after =
      if eqb status 429
      then (elim (atoi retry_header) [
        | none ↦ pos 0
        | some seconds ↦ wrap64 (times seconds 1_000_000_000)
      ])
      else pos 0;
}

-- What a call of the control plane may fail with: an answer of the server, or anything else (the
-- network, an idle stream).
pub data CallError : Type 0 where
  api_error : ApiError → CallError
  other_error : CallError
