-- ===== src/Forwarding.antt =====
-- internal/logfwd/forwarder.go, internal/auditfwd/forwarder.go and internal/metrics/manager.go: the
-- buffer between sources and the control plane, which the three keep by the same code, for log
-- entries, audit entries and metric points. The loop of Run makes one call at a time.
pub mod Delivery
pub mod Capacity
mod Tests
use plexd.Base.{
  ℕ, zero, suc, ◌+◌, ◌-◌, ◌*◌, List, [], ◌∷◌, ◌++◌, Bool, true, false, not, ltb, Option, none, some,
  if◌then◌else◌, length,
}

abbrev pub take {ℓ} : {A : Type ℓ} → ℕ → List A → List A
take zero xs = []
take (suc n) [] = []
take (suc n) (x ∷ xs) = x ∷ take n xs

abbrev pub drop {ℓ} : {A : Type ℓ} → ℕ → List A → List A
drop zero xs = xs
drop (suc n) [] = []
drop (suc n) (x ∷ xs) = drop n xs

-- The chunks that the reporter has accepted, in order.
abbrev pub Sent : Type 0 → Type 0
Sent A = List (List A)

pub record Forwarder (A : Type 0) : Type 0 where
  pub enabled : Bool
  pub batch_size : ℕ
  pub buffer : List A

-- What the tickers make happen. A source gives entries, or `none` where it fails or panics.
pub data Tick (A : Type 0) : Type 0 where
  collecting : List (Option (List A)) → Tick A
  reporting : Tick A

module _ {A : Type 0} where
  unfoldable pub new_forwarder : Bool → ℕ → Forwarder A
  new_forwarder enabled batch_size = record {
    enabled = enabled;
    batch_size = batch_size;
    buffer = [];
  }

  unfoldable pub enforce_capacity : Forwarder A → Forwarder A
  enforce_capacity f =
      let limit = 2 * f.batch_size in
      if ltb limit (length f.buffer)
      then record f { buffer = drop (length f.buffer - limit) f.buffer }
      else f

  -- What the sources give, in order: `none` is a source that fails or panics.
  unfoldable pub collect : List (Option (List A)) → Forwarder A → Forwarder A
  collect [] f = f
  collect (none ∷ sources) f = collect sources f
  collect (some entries ∷ sources) f =
      collect sources (enforce_capacity (record f { buffer = f.buffer ++ entries }))

  -- Which reports fail, from those that were accepted before.
  module _ (fails : List (List A) → List A → Bool) where
    -- The loop of `flush`, on fuel: what is left of the batch when it ends.
    unfoldable pub send : ℕ → ℕ → List A → Sent A → List A × Sent A
    send zero size batch sent = (batch, sent)
    send (suc fuel) size [] sent = ([], sent)
    send (suc fuel) size (x ∷ batch) sent =
        let chunk = take size (x ∷ batch) in
        let rest = send fuel size (drop size (x ∷ batch)) (sent ++ chunk ∷ []) in
        if fails sent chunk then (x ∷ batch, sent) else rest

    unfoldable pub flush : Forwarder A → Sent A → Forwarder A × Sent A
    flush f sent =
        let (left, sent') = send (length f.buffer) f.batch_size f.buffer sent in
        elim left [
          | [] ↦ (record f { buffer = [] }, sent')
          | x ∷ xs ↦ (enforce_capacity (record f { buffer = x ∷ xs }), sent')
        ]

    unfoldable pub on_tick : Tick A → Forwarder A × Sent A → Forwarder A × Sent A
    on_tick (collecting sources) (f, sent) = (collect sources f, sent)
    on_tick reporting (f, sent) = flush f sent

    unfoldable pub ticks : List (Tick A) → Forwarder A × Sent A → Forwarder A × Sent A
    ticks [] s = s
    ticks (t ∷ ts) s = ticks ts (on_tick t s)

    -- `Run`: a first collection, the ticks, and a last flush when the context ends.
    unfoldable pub run :
        List (Option (List A)) → List (Tick A) → Forwarder A × Sent A → Forwarder A × Sent A
    run first ts (f, sent) =
        if not f.enabled
        then (f, sent)
        else (let s = ticks ts (collect first f, sent) in flush s.0 s.1)
