-- ===== src/Api/Stream.antt =====
-- internal/api/sse.go, SSEStream: a connection to the event stream, from the bytes of its body to the
-- envelopes that are handed to the dispatcher. The connection succeeds; what the context and the clock
-- give is an input, one record for each turn of the loop.
pub mod Replays
mod Tests
use plexd.Base.{List, [], ◌∷◌, Bool, true, false, Option, none, some, if◌then◌else◌}
use plexd.Api.Envelope.{
  Bytes, SignedEnvelope, EnvelopeError, ParseResult, parsed, failed, parse_envelope,
}
use plexd.Api.Verifier.{Verifier, VerifyError, Readings, Crypto, verify}
use plexd.Api.Sse.{SseEvent, SseParser, new_sse_parser, is_empty, next}

-- `idle_timeout` is ErrSSEIdleTimeout; `still_open` is a loop whose turns are not over.
pub data End : Type 0 where
  ended idle_timeout cancelled still_open : End

pub record StreamTurn : Type 0 where
  pub is_cancelled : Bool
  pub readings : Readings

pub record SseStream : Type 0 where
  pub last_event_id : Bytes
  pub verifier : Verifier
  -- The envelopes that have been handed to the dispatcher, the latest first.
  pub dispatched : List SignedEnvelope

-- A connection: the body as it arrives until it ends, and whether the idle timer ends it.
pub record Connection : Type 0 where
  pub body : Bytes
  pub goes_idle : Bool
  pub turns : List StreamTurn

unfoldable pub new_sse_stream : Verifier → SseStream
new_sse_stream v = record { last_event_id = []; verifier = v; dispatched = [] }

unfoldable pub note_id : SseEvent → SseStream → SseStream
note_id e s = if is_empty e.id then s else record s { last_event_id = e.id }

module _ (crypto : Crypto) where
  -- The verification of an envelope and its dispatch.
  unfoldable pub check_and_dispatch : Readings → SignedEnvelope → SseStream → SseStream
  check_and_dispatch r envelope s =
      let (v, err) = verify crypto s.verifier r envelope in
      elim err [
        | some e ↦ record s { verifier = v }
        | none ↦ record s { verifier = v; dispatched = envelope ∷ s.dispatched }
      ]

module _ (crypto : Crypto) (unmarshal : Bytes → Option SignedEnvelope) where
  -- A turn of the loop, once there is an event.
  unfoldable pub handle_event : Readings → SseEvent → SseStream → SseStream
  handle_event r e s = elim (parse_envelope unmarshal e.content) [
    | failed err ↦ note_id e s
    | parsed envelope ↦ check_and_dispatch crypto r envelope (note_id e s)
  ]

  unfoldable pub connect_loop : List StreamTurn → Bool → SseParser → SseStream → SseStream × End
  connect_loop [] idle p s = (s, still_open)
  connect_loop (t ∷ ts) idle p s =
      let (p', event) = next p in
      let rest = elim event as (λ _. SseStream × End) [
        | none ↦ (s, if idle then idle_timeout else ended)
        | some e ↦ connect_loop ts idle p' (handle_event t.readings e s)
      ] in
      if t.is_cancelled then (s, cancelled) else rest

  unfoldable pub connect : Connection → SseStream → SseStream × End
  connect c s = connect_loop c.turns c.goes_idle (new_sse_parser c.body) s

  -- The connections that the reconnection makes, one after the other, on one stream.
  unfoldable pub connect_all : List Connection → SseStream → SseStream
  connect_all [] s = s
  connect_all (c ∷ cs) s = connect_all cs (connect c s).0
