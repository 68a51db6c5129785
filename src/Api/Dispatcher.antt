-- ===== src/Api/Dispatcher.antt =====
-- internal/api/dispatcher.go: the handlers of the events. A handler is known by a number; what it
-- returns is only logged, so a dispatch is the calls that it makes, in order.
use plexd.Base.{
  ℕ, String, List, [], ◌∷◌, ◌++◌, ◌==◌, none, some, if◌then◌else◌, ◌≡◌, arith, ap, refl, ◌∙◌, inl,
  inr, String-cases,
}
use plexd.Base.GoMap.{GoMap, find, store, find-store}
use plexd.Api.Envelope.{SignedEnvelope}

pub record EventDispatcher : Type 0 where
  pub handlers : GoMap (List ℕ)

unfoldable pub new_event_dispatcher : EventDispatcher
new_event_dispatcher = record { handlers = [] }

-- What indexing the map gives; a missing key gives no handlers.
unfoldable pub registered : String → EventDispatcher → List ℕ
registered event_type d = elim (find event_type d.handlers) [ none ↦ [] | some hs ↦ hs ]

unfoldable pub register : String → ℕ → EventDispatcher → EventDispatcher
register event_type handler d = record {
  handlers = store event_type (registered event_type d ++ handler ∷ []) d.handlers;
}

unfoldable pub call_all : List ℕ → SignedEnvelope → List (ℕ × SignedEnvelope)
call_all [] envelope = []
call_all (h ∷ hs) envelope = (h, envelope) ∷ call_all hs envelope

unfoldable pub dispatch : EventDispatcher → SignedEnvelope → List (ℕ × SignedEnvelope)
dispatch d envelope = call_all (registered envelope.event_type d) envelope

call_all-append :
    (xs ys : List ℕ) (envelope : SignedEnvelope)
    → call_all (xs ++ ys) envelope ≡ call_all xs envelope ++ call_all ys envelope
unfolding call_all
call_all-append [] ys envelope = refl
call_all-append (x ∷ xs) ys envelope = ap (◌∷◌ (x, envelope)) (call_all-append xs ys envelope)

registered-register :
    (t j : String) (h : ℕ) (d : EventDispatcher)
    → registered j (register t h d) ≡ (if t == j then registered t d ++ h ∷ [] else registered j d)
unfolding registered register
registered-register t j h d = ground (arith, find-store t j (registered t d ++ h ∷ []) d.handlers)

-- A handler that is registered is called last for the events of its type, after those that were
-- registered before it, and not for any other event.
pub dispatch-register :
    (event_type : String) (h : ℕ) (d : EventDispatcher) (envelope : SignedEnvelope)
    → dispatch (register event_type h d) envelope ≡ (
        if event_type == envelope.event_type
        then dispatch d envelope ++ (h, envelope) ∷ []
        else dispatch d envelope)
unfolding dispatch call_all
dispatch-register event_type h d envelope = elim (String-cases event_type envelope.event_type) [
  | inl (same, e) ↦
      rw (registered-register, same)
        (call_all-append (registered event_type d) (h ∷ []) envelope
          ∙ ap (λ (t : String). call_all (registered t d) envelope ++ (h, envelope) ∷ []) e)
  | inr (other, n) ↦ rw (registered-register, other) refl
]
