-- ===== src/Api/Stream/Tests.antt =====
-- internal/api/sse.go and dispatcher.go: a stream that carries one event twice.
use plexd.Base.{
  ℕ, ◌+◌, ◌*◌, ◌≤◌, ◌++◌, [], ◌∷◌, true, false, Option, none, some, ◌≡◌, inl, refl, arith,
}
use plexd.Base.GoMap.{find, has, store}
use plexd.Api.Dispatcher.{new_event_dispatcher, registered, register, call_all, dispatch}
use plexd.Api.Envelope.{Bytes, SignedEnvelope, parse_envelope}
use plexd.Api.Verifier.{
  Crypto, canonical, second, drop_expired, cleanup, sweep, precheck, check_signature, signed_by,
  verify, add, remember, new_verifier,
}
use plexd.Api.Verifier.Replay.{Ordered}
use plexd.Api.Sse.{
  scan, drop_cr, new_sse_parser, set_retry_callback, cut, trim_space, join, set_field, field_line,
  event_of, next_from, next,
}
use plexd.Api.Stream.{
  StreamTurn, SseStream, Connection, ended, new_sse_stream, note_id, check_and_dispatch,
  handle_event, connect_loop, connect, connect_all,
}
use plexd.Api.Stream.Replays.{NoReplay, ConnectionsInOrder, never_replayed}

-- Every signature is right.
abbrev toy : Crypto
toy = record {
  decode_string = λ s. some [];
  marshal = λ c. some [];
  verify = λ key message sig. true;
}

abbrev envelope : SignedEnvelope
envelope = record {
  event_type = "peer_added";
  event_id = "e1";
  issued_at = 1000 * second;
  nonce = "n1";
  payload = [];
  signature = "good";
}

abbrev unmarshal : Bytes → Option SignedEnvelope
unmarshal bytes = some envelope

-- "id:7", "data:{}" and an empty line.
abbrev one_event : Bytes
one_event =
    b'i' ∷ b'd' ∷ b':' ∷ b'7' ∷ b'\n' ∷ b'd' ∷ b'a' ∷ b't' ∷ b'a' ∷ b':' ∷ b'{' ∷ b'}' ∷ b'\r'
    ∷ b'\n' ∷ b'\n' ∷ []

abbrev at : ℕ → StreamTurn
at t = record {
  is_cancelled = false;
  readings = record {
    stale_now = t;
    future_now = t + 1;
    key_now = t + 2;
    since_now = t + 3;
    cutoff_now = t + 4;
    cleaned_now = t + 5;
  };
}

abbrev twice : Connection
twice = record {
  body = one_event ++ one_event;
  goes_idle = false;
  turns = at (1001 * second) ∷ at (1002 * second) ∷ at (1003 * second) ∷ [];
}

program : Unit {0}
unfolding scan drop_cr new_sse_parser set_retry_callback cut trim_space join set_field field_line
    event_of next_from next parse_envelope new_sse_stream note_id check_and_dispatch handle_event
    connect_loop connect connect_all new_verifier verify add remember sweep cleanup drop_expired
    precheck check_signature signed_by canonical find has store new_event_dispatcher registered
    register call_all dispatch
program = tt

stream : SseStream
stream = (connect toy unmarshal twice (new_sse_stream (new_verifier [] (1000 * second)))).0

dispatched_once : stream.dispatched ≡ envelope ∷ []
unfolding program stream
dispatched_once = refl

id_kept : stream.last_event_id ≡ b'7' ∷ []
unfolding program stream
id_kept = refl

stream_ends :
    (connect toy unmarshal twice (new_sse_stream (new_verifier [] (1000 * second)))).1 ≡ ended
unfolding program
stream_ends = refl

-- A retry field reaches the callback of a parser that has one.
retried :
    (next (
      set_retry_callback
        (new_sse_parser (b'r' ∷ b'e' ∷ b't' ∷ b'r' ∷ b'y' ∷ b':' ∷ b'5' ∷ b'\n' ∷ [])))).1
    ≡ none
unfolding program
retried = refl

called_in_order :
    dispatch (register "peer_added" 2 (register "peer_added" 1 new_event_dispatcher)) envelope
    ≡ (1, envelope) ∷ (2, envelope) ∷ []
unfolding program
called_in_order = refl

still : (t u : ℕ) → t ≤ u → Ordered t (at u).readings
still t u h = record {
  starts = h;
  future = omega arith;
  key = omega arith;
  since = omega arith;
  cutoff = omega arith;
  cleaned = omega arith;
}

twice_in_order : ConnectionsInOrder unmarshal 0 (twice ∷ [])
unfolding program
twice_in_order = (
  (
    still 0 (1001 * second) (omega arith),
    inl (omega arith),
    (
      still (1001 * second + 5) (1002 * second) (omega arith),
      inl (omega arith),
      (still (1002 * second + 5) (1003 * second) (omega arith), tt, tt),
    ),
  ),
  tt,
)

never_replayed_example :
    let s =
      connect_all toy unmarshal (twice ∷ []) (new_sse_stream (new_verifier [] (1000 * second))) in
    NoReplay s.dispatched
never_replayed_example =
    never_replayed toy unmarshal (new_verifier [] (1000 * second)) (twice ∷ []) 0 twice_in_order
