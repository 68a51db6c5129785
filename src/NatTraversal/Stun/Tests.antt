-- ===== src/NatTraversal/Stun/Tests.antt =====
-- internal/nat/stun.go: runs at concrete messages.
use plexd.Base.{ℕ, List, [], ◌∷◌, ◌++◌, false, eqb, eqb_iff, none, arith, ◌≡◌, ◌≢◌, refl}
use plexd.Api.Envelope.{Bytes}
use plexd.NatTraversal.Stun.{
  mapped, take, drop, slice, byte_at, xor, build_binding_request, parse_xor_mapped_address,
  parse_mapped_address, padded_length, no_more, parse_attributes, parse_binding_response,
}
use plexd.NatTraversal.Stun.Responses.{response, address_of, parse-response}
use plexd.NatTraversal.Stun.Addresses.{xor_value, mapped_address_read}

abbrev transaction : Bytes
transaction = 1 ∷ 2 ∷ 3 ∷ 4 ∷ 5 ∷ 6 ∷ 7 ∷ 8 ∷ 9 ∷ 10 ∷ 11 ∷ 12 ∷ []

program : Unit {0}
unfolding take drop slice byte_at xor build_binding_request parse_xor_mapped_address
    parse_mapped_address padded_length no_more parse_attributes parse_binding_response
program = tt

request_example :
    build_binding_request transaction
    ≡ 0 ∷ 1 ∷ 0 ∷ 0 ∷ 33 ∷ 18 ∷ 164 ∷ 66 ∷ 1 ∷ 2 ∷ 3 ∷ 4 ∷ 5 ∷ 6 ∷ 7 ∷ 8 ∷ 9 ∷ 10 ∷ 11 ∷ 12 ∷ []
unfolding program
request_example = refl

-- A SOFTWARE attribute of five bytes stands before a MAPPED-ADDRESS of 192.0.2.1:40000.
abbrev software : List (ℕ × Bytes)
software = (32802, 112 ∷ 108 ∷ 101 ∷ 120 ∷ 100 ∷ []) ∷ []

abbrev address : List (ℕ × Bytes)
address = (1, 0 ∷ 1 ∷ 156 ∷ 64 ∷ 192 ∷ 0 ∷ 2 ∷ 1 ∷ []) ∷ []

response_example :
    parse_binding_response (response transaction (software ++ address)) transaction
    ≡ mapped (record { ip = 192 ∷ 0 ∷ 2 ∷ 1 ∷ []; port = 40000 })
unfolding program
response_example = refl

parse-response_example :
    parse_binding_response (response transaction (software ++ address)) transaction
    ≡ address_of (software ++ address) none
parse-response_example =
    parse-response transaction (software ++ address) refl
      (unfold program in ((omega arith, omega arith), ((omega arith, omega arith), tt)))
      (unfold program in omega arith)

distinct : (a b : ℕ) → eqb a b ≡ false → a ≢ b
distinct a b h e = (let t = (eqb_iff a b).1 e in ground arith)

mapped_address_read_example :
    parse_binding_response
      (response transaction (software ++ (32, xor_value 192 0 2 1 40000) ∷ address))
      transaction
    ≡ mapped (record { ip = 192 ∷ 0 ∷ 2 ∷ 1 ∷ []; port = 40000 })
mapped_address_read_example =
    mapped_address_read transaction software address 192 0 2 1 40000 refl (omega arith)
      (omega arith) (omega arith) (omega arith) (omega arith)
      ((distinct 32802 32 refl, distinct 32802 1 refl), tt) ((omega arith, omega arith), tt)
      ((omega arith, omega arith), tt) (unfold program in omega arith)
