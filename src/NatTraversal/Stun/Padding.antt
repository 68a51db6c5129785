-- ===== src/NatTraversal/Stun/Padding.antt =====
-- internal/nat/stun.go: the loop when the padding of an attribute is missing.
use plexd.Base.{
  ℕ, suc, ◌+◌, ◌-◌, ◌/◌, ◌%◌, ◌<◌, [], ◌∷◌, ◌++◌, Bool, true, false, not, eqb, eqb_iff, ltb, Option,
  none, some, if◌then◌else◌, length, length-append, arith, ◌≡◌, ◌≢◌, refl, ap, sym, ◌∙◌,
}
use mathlib.Core.List.{append-nil}
use plexd.Api.Envelope.{Bytes, same_bytes}
use plexd.NatTraversal.Stun.{
  MappedAddress, failed, panics, out_of_fuel, response_too_short, invalid_magic_cookie,
  transaction_id_mismatch, unexpected_message_type, body_too_short, take, drop, slice, byte_at,
  uint16_at, stun_magic_cookie, padded_length, parse_attributes, parse_binding_response,
}
use plexd.NatTraversal.Stun.Attributes.{length-take-le, slice_exact, take-append, drop-append}
use plexd.NatTraversal.Stun.Fuel.{parse_attributes-fuel}
use plexd.NatTraversal.Stun.Responses.{accepted}

-- The fuel is enough for every message.
pub parse-fuel :
    (msg transaction_id : Bytes) → parse_binding_response msg transaction_id ≢ out_of_fuel
unfolding parse_binding_response
parse-fuel msg transaction_id =
    go (ltb (length msg) 20) (same_bytes (take 4 (drop 4 msg)) stun_magic_cookie)
      (same_bytes (take 12 (drop 8 msg)) transaction_id) (eqb (uint16_at 0 msg) 257)
      (ltb (length (drop 20 msg)) (uint16_at 2 msg)) refl
  where
    go :
        (a b c d e : Bool)
        → ltb (length (drop 20 msg)) (uint16_at 2 msg) ≡ e
        → (if a
            then failed response_too_short
            else if not b
            then failed invalid_magic_cookie
            else if not c
            then failed transaction_id_mismatch
            else if not d
            then failed unexpected_message_type
            else if e
            then failed body_too_short
            else parse_attributes
                (suc (length (drop 20 msg)))
                (take (uint16_at 2 msg) (drop 20 msg))
                none)
          ≢ out_of_fuel
    go true b c d e h = λ k. ground arith
    go false false c d e h = λ k. ground arith
    go false true false d e h = λ k. ground arith
    go false true true false e h = λ k. ground arith
    go false true true true true h = λ k. ground arith
    go false true true true false h =
        parse_attributes-fuel (suc (length (drop 20 msg))) (take (uint16_at 2 msg) (drop 20 msg))
          none (ground (arith, length-take-le (uint16_at 2 msg) (drop 20 msg)))

-- A response with one attribute whose padding is left out.
abbrev pub unpadded : ℕ → Bytes → Bytes
unpadded t val = t / 256 ∷ t % 256 ∷ length val / 256 ∷ length val % 256 ∷ val

abbrev pub unpadded_response : Bytes → ℕ → Bytes → Bytes
unpadded_response transaction_id t val =
    let body = unpadded t val in
    1 ∷ 1 ∷ length body / 256 ∷ length body % 256 ∷ (stun_magic_cookie ++ (transaction_id ++ body))

-- One round that is followed by a slice expression out of range.
last_round :
    (fuel t n : ℕ) (attrs val : Bytes) (seen : Option MappedAddress)
    → ltb (length attrs) 4 ≡ false
    → uint16_at 0 attrs ≡ t
    → uint16_at 2 attrs ≡ n
    → ltb (length attrs - 4) n ≡ false
    → slice 4 ((4 + n) % 65536) attrs ≡ some val
    → eqb t 32 ≡ false
    → eqb t 1 ≡ false
    → slice (4 + padded_length n) (length attrs) attrs ≡ none
    → parse_attributes (suc fuel) attrs seen ≡ panics
unfolding parse_attributes
last_round fuel t n attrs val seen long type_is length_is fits value_is not_xor not_mapped rest_is =
    rw (parse_attributes, long, length_is, fits, value_is, type_is, not_xor, not_mapped)
      (ap
        (λ (next : Option Bytes). elim next [
          | none ↦ panics
          | some r ↦ parse_attributes fuel r seen
        ])
        (ap (λ (k : ℕ). slice (4 + padded_length k) (length attrs) attrs) length_is ∙ rest_is))

beyond_end : (lo hi : ℕ) (bs : Bytes) → hi < lo → slice lo hi bs ≡ none
unfolding slice
beyond_end lo hi bs h = ground arith

padded_longer : (n : ℕ) → n % 4 ≢ 0 → n < padded_length n
unfolding padded_length
padded_longer n h = ground (arith, eqb_iff (n % 4) 0)

-- A response to the transaction whose only attribute is no address and has a length that is no multiple
-- of four, without the padding, makes the parser slice out of range, which panics.
pub missing_padding_panics :
    (transaction_id : Bytes) (t : ℕ) (val : Bytes)
    → length transaction_id ≡ 12
    → t < 65536
    → t ≢ 32
    → t ≢ 1
    → length val < 65532
    → length val % 4 ≢ 0
    → parse_binding_response (unpadded_response transaction_id t val) transaction_id ≡ panics
unfolding take drop byte_at
missing_padding_panics transaction_id t val twelve ht not_xor not_mapped short odd =
    accepted (unpadded_response transaction_id t val) transaction_id body
      (ground (arith, twelve, length-append transaction_id body)) refl
      (ap (λ (k : ℕ). take k (transaction_id ++ body)) (sym twelve)
        ∙ take-append transaction_id body)
      refl (omega (arith, short)) (drop-append 12 transaction_id body twelve)
    ∙ last_round (length body) t n body val none (ground arith) (omega (arith, ht))
        (omega (arith, short)) (ground arith) value_is (ground (arith, eqb_iff t 32))
        (ground (arith, eqb_iff t 1)) beyond
  where
    n : ℕ
    n = length val

    body : Bytes
    body = unpadded t val

    small : (4 + n) % 65536 ≡ 4 + n
    small = omega (arith, short)

    value_is : slice 4 ((4 + n) % 65536) body ≡ some val
    value_is =
        ap (λ (k : ℕ). slice 4 k body) small
        ∙ ap (λ (u : Bytes). slice 4 (4 + n) (t / 256 ∷ t % 256 ∷ n / 256 ∷ n % 256 ∷ u))
            (sym (append-nil val))
        ∙ slice_exact 4 n (t / 256 ∷ t % 256 ∷ n / 256 ∷ n % 256 ∷ []) val [] refl refl

    beyond : slice (4 + padded_length n) (length body) body ≡ none
    beyond =
        beyond_end (4 + padded_length n) (length body) body
          (let m = padded_longer n odd in omega (arith, m))
