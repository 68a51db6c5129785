-- ===== src/NatTraversal/Stun.antt =====
-- internal/nat/stun.go: STUN messages. A byte is a number below 256. The loop over the attributes runs
-- on fuel, the number of bytes that are left and one more, and each round takes four bytes at least.
pub mod Xor
pub mod Attributes
pub mod Fuel
pub mod Responses
pub mod Addresses
pub mod Padding
mod Tests
use plexd.Base.{
  ℕ, zero, suc, ◌+◌, ◌*◌, ◌-◌, ◌/◌, ◌%◌, List, [], ◌∷◌, ◌++◌, Bool, true, false, not, ◌&&◌, eqb,
  ltb, leb, Option, none, some, if◌then◌else◌, length,
}
use plexd.Api.Envelope.{Bytes, same_bytes}

pub record MappedAddress : Type 0 where
  pub ip : Bytes
  pub port : ℕ

pub data StunError : Type 0 where
  response_too_short invalid_magic_cookie transaction_id_mismatch unexpected_message_type
        body_too_short attribute_too_short unsupported_family no_address :
      StunError

pub data Parsed : Type 0 where
  mapped : MappedAddress → Parsed
  failed : StunError → Parsed
  -- A slice expression out of range.
  panics : Parsed
  out_of_fuel : Parsed

unfoldable pub take : ℕ → Bytes → Bytes
take zero bs = []
take (suc n) [] = []
take (suc n) (b ∷ bs) = b ∷ take n bs

unfoldable pub drop : ℕ → Bytes → Bytes
drop zero bs = bs
drop (suc n) [] = []
drop (suc n) (b ∷ bs) = drop n bs

-- `bs[lo:hi]`
unfoldable pub slice : ℕ → ℕ → Bytes → Option Bytes
slice lo hi bs =
    if leb lo hi && leb hi (length bs) then some (take (hi - lo) (drop lo bs)) else none

-- `bs[i]`, where the code has tested that there are enough bytes.
unfoldable pub byte_at : ℕ → Bytes → ℕ
byte_at i [] = 0
byte_at zero (b ∷ bs) = b
byte_at (suc i) (b ∷ bs) = byte_at i bs

-- `binary.BigEndian.Uint16(bs[i:i+2])`
abbrev pub uint16_at : ℕ → Bytes → ℕ
uint16_at i bs = byte_at i bs * 256 + byte_at (suc i) bs

-- The exclusive or of the lowest bits of two numbers.
unfoldable pub xor : ℕ → ℕ → ℕ → ℕ
xor zero a b = 0
xor (suc w) a b = (a % 2 + b % 2) % 2 + 2 * xor w (a / 2) (b / 2)

abbrev pub stun_magic_cookie : Bytes
stun_magic_cookie = 33 ∷ 18 ∷ 164 ∷ 66 ∷ []

unfoldable pub build_binding_request : Bytes → Bytes
build_binding_request transaction_id = 0 ∷ 1 ∷ 0 ∷ 0 ∷ (stun_magic_cookie ++ transaction_id)

unfoldable pub parse_xor_mapped_address : Bytes → Parsed
parse_xor_mapped_address val =
    if ltb (length val) 8
    then failed attribute_too_short
    else if not (eqb (byte_at 1 val) 1)
    then failed unsupported_family
    else mapped (record {
      ip =
          xor 8 (byte_at 4 val) 33
          ∷ xor 8 (byte_at 5 val) 18
          ∷ xor 8 (byte_at 6 val) 164
          ∷ xor 8 (byte_at 7 val) 66
          ∷ [];
      port = xor 16 (uint16_at 2 val) 8466;
    })

unfoldable pub parse_mapped_address : Bytes → Parsed
parse_mapped_address val =
    if ltb (length val) 8
    then failed attribute_too_short
    else if not (eqb (byte_at 1 val) 1)
    then failed unsupported_family
    else mapped (record { ip = take 4 (drop 4 val); port = uint16_at 2 val })

-- The length of an attribute up to the next multiple of four.
unfoldable pub padded_length : ℕ → ℕ
padded_length n = if eqb (n % 4) 0 then n else n + (4 - n % 4)

-- After the loop.
unfoldable pub no_more : Option MappedAddress → Parsed
no_more none = failed no_address
no_more (some a) = mapped a

-- The loop over the attributes, with the address of a MAPPED-ADDRESS that was seen. The end of the
-- value is computed as an uint16.
unfoldable pub parse_attributes : ℕ → Bytes → Option MappedAddress → Parsed
parse_attributes zero attrs seen = out_of_fuel
parse_attributes (suc fuel) attrs seen =
    if ltb (length attrs) 4
    then no_more seen
    else (let attr_type = uint16_at 0 attrs in
        let attr_len = uint16_at 2 attrs in
        if ltb (length attrs - 4) attr_len
        then no_more seen
        else (elim (slice 4 ((4 + attr_len) % 65536) attrs) [
          | none ↦ panics
          | some val ↦
              if eqb attr_type 32
              then parse_xor_mapped_address val
              else if eqb attr_type 1
              then (elim (parse_mapped_address val) [
                | mapped a ↦ elim (slice (4 + padded_length attr_len) (length attrs) attrs) [
                  | none ↦ panics
                  | some rest ↦ parse_attributes fuel rest (some a)
                ]
                | failed e ↦ failed e
                | panics ↦ panics
                | out_of_fuel ↦ out_of_fuel
              ])
              else (elim (slice (4 + padded_length attr_len) (length attrs) attrs) [
                | none ↦ panics
                | some rest ↦ parse_attributes fuel rest seen
              ])
        ]))

unfoldable pub parse_binding_response : Bytes → Bytes → Parsed
parse_binding_response msg transaction_id =
    if ltb (length msg) 20
    then failed response_too_short
    else if not (same_bytes (take 4 (drop 4 msg)) stun_magic_cookie)
    then failed invalid_magic_cookie
    else if not (same_bytes (take 12 (drop 8 msg)) transaction_id)
    then failed transaction_id_mismatch
    else if not (eqb (uint16_at 0 msg) 257)
    then failed unexpected_message_type
    else (let attrs = drop 20 msg in
        let msg_len = uint16_at 2 msg in
        if ltb (length attrs) msg_len
        then failed body_too_short
        else parse_attributes (suc (length attrs)) (take msg_len attrs) none)
