-- ===== src/Api/Stream/Replays.antt =====
-- internal/api/sse.go: the envelopes that are dispatched over all connections of a stream.
use plexd.Base.{
  ℕ, ◌≤◌, List, [], ◌∷◌, Bool, true, false, Option, none, some, if◌then◌else◌, All, arith, ◌≡◌, inl,
  inr, refl,
}
use plexd.Api.Envelope.{Bytes, SignedEnvelope, ParseResult, parsed, failed, parse_envelope}
use plexd.Api.Verifier.{Verifier, VerifyError, Readings, Crypto, NonceStore, verify}
use plexd.Api.Verifier.Replay.{
  Ordered, Remembers, NotCrossed, Remembers-verify, refused_remembered, accepted-Remembers,
}
use plexd.Api.Sse.{SseEvent, SseParser, new_sse_parser, is_empty, next}
use plexd.Api.Stream.{
  End, StreamTurn, SseStream, Connection, idle_timeout, ended, cancelled, new_sse_stream, note_id,
  check_and_dispatch, handle_event, connect_loop, connect, connect_all,
}

-- Two envelopes that differ in the nonce or in the time of issue.
abbrev pub Differs : SignedEnvelope → SignedEnvelope → Type 0
Differs a b = ¬ ((a.nonce ≡ b.nonce) × (a.issued_at ≡ b.issued_at))

abbrev pub NoReplay : List SignedEnvelope → Type 0
NoReplay [] = Unit
NoReplay (e ∷ es) = All (Differs e) es × NoReplay es

abbrev pub last_time : ℕ → List StreamTurn → ℕ
last_time t [] = t
last_time t (x ∷ xs) = last_time x.readings.cleaned_now xs

module _ (unmarshal : Bytes → Option SignedEnvelope) where
  -- The clock does not pass the end of the window of the envelope that the event carries, if it carries
  -- one, between the staleness test and the clean-up.
  abbrev pub InWindow : Readings → ParseResult → Type 0
  InWindow r (failed err) = Unit {0}
  InWindow r (parsed envelope) = NotCrossed r envelope.issued_at

  abbrev pub EventInWindow : Readings → Option SseEvent → Type 0
  EventInWindow r none = Unit {0}
  EventInWindow r (some e) = InWindow r (parse_envelope unmarshal e.content)

  -- Over the turns from `t` on and the stream that is left, the clock does not go back, and each turn
  -- is so for the event that it handles.
  abbrev pub TurnsInOrder : ℕ → List StreamTurn → SseParser → Type 0
  TurnsInOrder t [] p = Unit
  TurnsInOrder t (x ∷ xs) p =
      Ordered t x.readings
      × EventInWindow x.readings (next p).1
      × TurnsInOrder x.readings.cleaned_now xs (next p).0

  abbrev pub ConnectionsInOrder : ℕ → List Connection → Type 0
  ConnectionsInOrder t [] = Unit
  ConnectionsInOrder t (c ∷ cs) =
      TurnsInOrder t c.turns (new_sse_parser c.body) × ConnectionsInOrder (last_time t c.turns) cs

-- What is dispatched is remembered at the time `t`, and no two of them are the same.
record Held (t : ℕ) (s : SseStream) : Type 0 where
  remembered : All (λ e. Remembers s.verifier.nonces e.nonce e.issued_at t) s.dispatched
  distinct : NoReplay s.dispatched

Remembers-later :
    (n : NonceStore) (t u : ℕ) (es : List SignedEnvelope)
    → t ≤ u
    → All (λ e. Remembers n e.nonce e.issued_at t) es
    → All (λ e. Remembers n e.nonce e.issued_at u) es
Remembers-later n t u [] le h = tt
Remembers-later n t u (e ∷ es) le (inl stored, h) = (inl stored, Remembers-later n t u es le h)
Remembers-later n t u (e ∷ es) le (inr old, h) = (inr (omega arith), Remembers-later n t u es le h)

module _ (crypto : Crypto) where
  remembered-verify :
      (v : Verifier) (r : Readings) (envelope : SignedEnvelope) (t : ℕ) (es : List SignedEnvelope)
      → Ordered t r
      → All (λ e. Remembers v.nonces e.nonce e.issued_at t) es
      → All
          (λ e. Remembers (verify crypto v r envelope).0.nonces e.nonce e.issued_at r.cleaned_now)
          es
  remembered-verify v r envelope t [] o h = tt
  remembered-verify v r envelope t (e ∷ es) o h = (
    Remembers-verify crypto v r envelope e.nonce e.issued_at t o h.0,
    remembered-verify v r envelope t es o h.1,
  )

  -- An accepted envelope differs from all that are remembered.
  accepted-Differs :
      (v : Verifier) (r : Readings) (envelope : SignedEnvelope) (t : ℕ) (es : List SignedEnvelope)
      → Ordered t r
      → NotCrossed r envelope.issued_at
      → (verify crypto v r envelope).1 ≡ none
      → All (λ e. Remembers v.nonces e.nonce e.issued_at t) es
      → All (Differs envelope) es
  accepted-Differs v r envelope t [] o n accepted h = tt
  accepted-Differs v r envelope t (e ∷ es) o n accepted h = (
    λ same. refused_remembered crypto v r envelope t o n (rw (same.0, same.1) h.0) accepted,
    accepted-Differs v r envelope t es o n accepted h.1,
  )

  Held-check_and_dispatch :
      (r : Readings) (envelope : SignedEnvelope) (s : SseStream) (t : ℕ)
      → Ordered t r
      → NotCrossed r envelope.issued_at
      → Held t s
      → Held r.cleaned_now (check_and_dispatch crypto r envelope s)
  unfolding check_and_dispatch
  Held-check_and_dispatch r envelope s t o n h = go (verify crypto s.verifier r envelope).1 refl
    where
      v : Verifier
      v = (verify crypto s.verifier r envelope).0

      kept : All (λ e. Remembers v.nonces e.nonce e.issued_at r.cleaned_now) s.dispatched
      kept = remembered-verify s.verifier r envelope t s.dispatched o h.remembered

      go :
          (err : Option VerifyError)
          → (verify crypto s.verifier r envelope).1 ≡ err
          → Held r.cleaned_now (elim err [
            | some e ↦ record s { verifier = v }
            | none ↦ record s { verifier = v; dispatched = envelope ∷ s.dispatched }
          ])
      go (some e) refused = record { remembered = kept; distinct = h.distinct }
      go none accepted = record {
        remembered = (accepted-Remembers crypto s.verifier r envelope r.cleaned_now accepted, kept);
        distinct = (
          accepted-Differs s.verifier r envelope t s.dispatched o n accepted h.remembered,
          h.distinct,
        );
      }

Held-later : (t u : ℕ) (s : SseStream) → t ≤ u → Held t s → Held u s
Held-later t u s le h = record {
  remembered = Remembers-later s.verifier.nonces t u s.dispatched le h.remembered;
  distinct = h.distinct;
}

Held-note_id : (t : ℕ) (e : SseEvent) (s : SseStream) → Held t s → Held t (note_id e s)
unfolding note_id
Held-note_id t e s h = go (is_empty e.id)
  where
    go : (b : Bool) → Held t (if b then s else record s { last_event_id = e.id })
    go true = h
    go false = record { remembered = h.remembered; distinct = h.distinct }

last_time-ge :
    (unmarshal : Bytes → Option SignedEnvelope) (t : ℕ) (ts : List StreamTurn) (p : SseParser)
    → TurnsInOrder unmarshal t ts p
    → t ≤ last_time t ts
last_time-ge unmarshal t [] p o = omega arith
last_time-ge unmarshal t (x ∷ xs) p (o, _, more) =
    omega (arith, last_time-ge unmarshal x.readings.cleaned_now xs (next p).0 more)

module _ (crypto : Crypto) (unmarshal : Bytes → Option SignedEnvelope) where
  Held-handle_event :
      (r : Readings) (e : SseEvent) (s : SseStream) (t : ℕ)
      → Ordered t r
      → InWindow unmarshal r (parse_envelope unmarshal e.content)
      → Held t s
      → Held r.cleaned_now (handle_event crypto unmarshal r e s)
  unfolding handle_event
  Held-handle_event r e s t o n h = go (parse_envelope unmarshal e.content) n
    where
      go :
          (p : ParseResult)
          → InWindow unmarshal r p
          → Held r.cleaned_now (elim p [
            | failed err ↦ note_id e s
            | parsed envelope ↦ check_and_dispatch crypto r envelope (note_id e s)
          ])
      go (failed err) n =
          Held-later t r.cleaned_now (note_id e s) (omega arith) (Held-note_id t e s h)
      go (parsed envelope) n =
          Held-check_and_dispatch crypto r envelope (note_id e s) t o n (Held-note_id t e s h)

  Held-connect_loop :
      (ts : List StreamTurn) (idle : Bool) (p : SseParser) (s : SseStream) (t : ℕ)
      → TurnsInOrder unmarshal t ts p
      → Held t s
      → Held (last_time t ts) (connect_loop crypto unmarshal ts idle p s).0
  unfolding connect_loop
  Held-connect_loop [] idle p s t o h = h
  Held-connect_loop (x ∷ xs) idle p s t o h = go x.is_cancelled (next p).1 o.1 (λ e n.
      Held-connect_loop xs idle (next p).0 (handle_event crypto unmarshal x.readings e s)
        x.readings.cleaned_now o.2 (Held-handle_event x.readings e s t o.0 n h))
    where
      out : SseEvent → SseStream × End
      out e =
          connect_loop crypto unmarshal xs idle (next p).0
            (handle_event crypto unmarshal x.readings e s)

      later : Held (last_time x.readings.cleaned_now xs) s
      later =
          Held-later t (last_time x.readings.cleaned_now xs) s
            (last_time-ge unmarshal t (x ∷ xs) p o) h

      go :
          (c : Bool) (event : Option SseEvent)
          → EventInWindow unmarshal x.readings event
          → ((e : SseEvent)
              → InWindow unmarshal x.readings (parse_envelope unmarshal e.content)
              → Held (last_time x.readings.cleaned_now xs) (out e).0)
          → let y : SseStream × End =
              (if c then (s, cancelled) else (elim event [
                | none ↦ (s, if idle then idle_timeout else ended)
                | some e ↦ out e
              ])) in
            Held (last_time x.readings.cleaned_now xs) y.0
      go true event n ih = later
      go false none n ih = later
      go false (some e) n ih = ih e n

  Held-connect_all :
      (cs : List Connection) (s : SseStream) (t : ℕ)
      → ConnectionsInOrder unmarshal t cs
      → Held t s
      → NoReplay (connect_all crypto unmarshal cs s).dispatched
  unfolding connect_all connect
  Held-connect_all [] s t o h = h.distinct
  Held-connect_all (c ∷ cs) s t o h =
      Held-connect_all cs (connect crypto unmarshal c s).0 (last_time t c.turns) o.1
        (Held-connect_loop c.turns c.goes_idle (new_sse_parser c.body) s t o.0 h)

-- Over all connections of a stream, whatever bytes arrive, no two envelopes with the same nonce and the
-- same time of issue are handed to the dispatcher, with a clock that does not go back and that in the
-- turn of an envelope does not pass the end of that envelope's window between the staleness test and
-- the clean-up.
pub never_replayed :
    (crypto : Crypto) (unmarshal : Bytes → Option SignedEnvelope) (v : Verifier)
    (cs : List Connection) (t : ℕ)
    → ConnectionsInOrder unmarshal t cs
    → NoReplay (connect_all crypto unmarshal cs (new_sse_stream v)).dispatched
unfolding new_sse_stream
never_replayed crypto unmarshal v cs t o =
    Held-connect_all crypto unmarshal cs (new_sse_stream v) t o
      (record { remembered = tt; distinct = tt })
