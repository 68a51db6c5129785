-- ===== src/NatTraversal/Stun/Addresses.antt =====
-- internal/nat/stun.go: the addresses in an attribute.
use plexd.Base.{
  sym, ℕ, ◌+◌, ◌*◌, ◌/◌, ◌%◌, ◌<◌, List, [], ◌∷◌, ◌++◌, false, eqb, eqb_iff, Option, none, length,
  All, All-append, arith, ◌≡◌, ◌≢◌, refl, ◌∙◌,
}
use plexd.Api.Envelope.{Bytes}
use plexd.NatTraversal.Stun.{
  MappedAddress, mapped, byte_at, xor, parse_xor_mapped_address, parse_binding_response,
}
use plexd.NatTraversal.Stun.Xor.{xor_twice, Fits-byte, Fits-port}
use plexd.NatTraversal.Stun.Responses.{
  encode_attributes, response, address_of, IsAttribute, parse_xor_mapped_address_lem,
  parse-response,
}

-- The value of a XOR-MAPPED-ADDRESS, as a server makes it.
abbrev pub xor_value : ℕ → ℕ → ℕ → ℕ → ℕ → Bytes
xor_value a b c d port =
    let p = xor 16 port 8466 in
    0 ∷ 1 ∷ p / 256 ∷ p % 256 ∷ xor 8 a 33 ∷ xor 8 b 18 ∷ xor 8 c 164 ∷ xor 8 d 66 ∷ []

parse_xor_value :
    (a b c d port : ℕ)
    → a < 256
    → b < 256
    → c < 256
    → d < 256
    → port < 65536
    → parse_xor_mapped_address (xor_value a b c d port)
      ≡ mapped (record { ip = a ∷ b ∷ c ∷ d ∷ []; port = port })
unfolding parse_xor_mapped_address byte_at
parse_xor_value a b c d port ha hb hc hd hp =
    rw
      (
        whole,
        xor_twice 8 a 33 (Fits-byte a ha),
        xor_twice 8 b 18 (Fits-byte b hb),
        xor_twice 8 c 164 (Fits-byte c hc),
        xor_twice 8 d 66 (Fits-byte d hd),
        xor_twice 16 port 8466 (Fits-port port hp),
      )
      refl
  where
    whole : xor 16 port 8466 / 256 * 256 + xor 16 port 8466 % 256 ≡ xor 16 port 8466
    whole = omega arith

-- An attribute that says nothing about the address.
abbrev pub SaysNothing : ℕ × Bytes → Type 0
SaysNothing (t, val) = (t ≢ 32) × (t ≢ 1)

address_of-skips :
    (others more : List (ℕ × Bytes)) (seen : Option MappedAddress)
    → All SaysNothing others
    → address_of (others ++ more) seen ≡ address_of more seen
address_of-skips [] more seen quiet = refl
address_of-skips ((t, val) ∷ others) more seen quiet =
    rw (isnt 32 quiet.0.0, isnt 1 quiet.0.1) (address_of-skips others more seen quiet.1)
  where
    isnt : (k : ℕ) → t ≢ k → eqb t k ≡ false
    isnt k n = ground (arith, eqb_iff t k)

-- The address that a server puts, hidden by the exclusive or, into a response to the transaction is
-- the address that is read from it, whatever attributes that are no addresses come before and whatever
-- attributes come after.
pub mapped_address_read :
    (transaction_id : Bytes) (others more : List (ℕ × Bytes)) (a b c d port : ℕ)
    → length transaction_id ≡ 12
    → a < 256
    → b < 256
    → c < 256
    → d < 256
    → port < 65536
    → All SaysNothing others
    → All IsAttribute others
    → All IsAttribute more
    → length (encode_attributes (others ++ (32, xor_value a b c d port) ∷ more)) < 65536
    → parse_binding_response
        (response transaction_id (others ++ (32, xor_value a b c d port) ∷ more))
        transaction_id
      ≡ mapped (record { ip = a ∷ b ∷ c ∷ d ∷ []; port = port })
mapped_address_read transaction_id others more a b c d port twelve ha hb hc hd hp quiet ok ok_more
      short =
    parse-response transaction_id (others ++ (32, xor_value a b c d port) ∷ more) twelve
      (All-append IsAttribute others ((32, xor_value a b c d port) ∷ more) ok
        ((omega arith, omega arith), ok_more))
      short
    ∙ address_of-skips others ((32, xor_value a b c d port) ∷ more) none quiet
    ∙ sym (parse_xor_mapped_address_lem (xor_value a b c d port))
    ∙ parse_xor_value a b c d port ha hb hc hd hp
