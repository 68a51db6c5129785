-- ===== src/Api/Sse/Tests.antt =====
-- internal/api/sse.go: events as they stand in a stream.
use plexd.Base.{ℕ, ◌≢◌, [], ◌∷◌, none, some, ◌≡◌, refl, arith, List}
use plexd.Base.Int.{pos, negsuc}
use plexd.Base.Words.{atoi, digits, wrap64}
use plexd.Api.Envelope.{Bytes}
use plexd.Api.Errors.{limited, error_from_response}
use plexd.Api.Sse.{
  scan, drop_cr, new_sse_parser, set_retry_callback, cut, trim_space, join, set_field, field_line,
  event_of, next_from, next,
}
use plexd.Api.Sse.RoundTrip.{Message, IsPrintable, lines_of, written, after, event, printed_event}

program : Unit {0}
unfolding scan drop_cr new_sse_parser set_retry_callback cut trim_space join set_field field_line
    event_of next_from next atoi digits wrap64 limited error_from_response
program = tt

-- A comment, "retry: -5" and a line of data.
abbrev retrying : Bytes
retrying =
    b':' ∷ b'\n' ∷ b'r' ∷ b'e' ∷ b't' ∷ b'r' ∷ b'y' ∷ b':' ∷ b' ' ∷ b'-' ∷ b'5' ∷ b'\n' ∷ b'd'
    ∷ b'a' ∷ b't' ∷ b'a' ∷ b'\n' ∷ b'\n' ∷ []

-- The interval is only handed on where a callback is set.
unheard : (next (new_sse_parser retrying)).0.retries ≡ []
unfolding program
unheard = refl

heard : (next (set_retry_callback (new_sse_parser retrying))).0.retries ≡ negsuc 4 ∷ []
unfolding program
heard = refl

-- An event that the end of the stream cuts off is dropped.
cut_off : (next (new_sse_parser (b'd' ∷ b'a' ∷ b't' ∷ b'a' ∷ b':' ∷ b'1' ∷ b'\n' ∷ []))).1 ≡ none
unfolding program
cut_off = refl

delayed : (error_from_response 429 (1 ∷ []) (b'1' ∷ b'2' ∷ [])).retry_after ≡ pos 12_000_000_000
unfolding program
delayed = refl

abbrev message : Message
message = record { type = b'x' ∷ []; id = b'7' ∷ []; first = b'a' ∷ []; more = (b'b' ∷ []) ∷ [] }

not_empty : (b : ℕ) (bs : List ℕ) → b ∷ bs ≢ []
not_empty b bs e = (ground arith)

message_IsPrintable : IsPrintable message
message_IsPrintable = record {
  typed = not_empty b'x' [];
  type_line = (((refl, refl), tt), omega arith);
  id_line = (((refl, refl), tt), omega arith);
  first_line = (((refl, refl), tt), omega arith);
  more_lines = ((((refl, refl), tt), omega arith), tt);
}

printed_event_example :
    next (new_sse_parser (written (lines_of message) retrying))
    ≡ (after message retrying, some (event message))
printed_event_example = printed_event message retrying message_IsPrintable
