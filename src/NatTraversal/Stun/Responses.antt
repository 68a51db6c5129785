-- ===== src/NatTraversal/Stun/Responses.antt =====
-- internal/nat/stun.go: what parseBindingResponse makes of a response that is a list of attributes.
use plexd.Base.{
  ℕ, zero, suc, ◌+◌, ◌-◌, ◌*◌, ◌/◌, ◌%◌, ◌<◌, List, [], ◌∷◌, ◌++◌, Bool, true, false, eqb, eqb_iff,
  ltb, Option, none, some, if◌then◌else◌, length, length-append, All, arith, ◌≡◌, refl, ap, sym,
  ◌∙◌,
}
use plexd.Api.Envelope.{Bytes, same_bytes}
use plexd.NatTraversal.Stun.{
  MappedAddress, Parsed, unsupported_family, attribute_too_short, no_address, xor, mapped, failed,
  panics, out_of_fuel, take, drop, slice, byte_at, uint16_at, stun_magic_cookie,
  parse_xor_mapped_address, parse_mapped_address, padded_length, no_more, parse_attributes,
  parse_binding_response,
}
use plexd.NatTraversal.Stun.Attributes.{
  encode_attribute, length-encode, type_read, length_read, value_read, rest_read, padded_more,
  take_all, take-append, drop-append,
}

-- A response of a server: the head of a success response, and its attributes.
abbrev pub encode_attributes : List (ℕ × Bytes) → Bytes
encode_attributes [] = []
encode_attributes ((t, val) ∷ attrs) = encode_attribute t val (encode_attributes attrs)

abbrev pub response : Bytes → List (ℕ × Bytes) → Bytes
response transaction_id attrs =
    let body = encode_attributes attrs in
    1 ∷ 1 ∷ length body / 256 ∷ length body % 256 ∷ (stun_magic_cookie ++ (transaction_id ++ body))

-- What the value of a MAPPED-ADDRESS says: a byte, the family, two bytes of the port and four of the address.
abbrev pub mapped_says : Bytes → Parsed
mapped_says (z ∷ family ∷ p ∷ q ∷ a ∷ b ∷ c ∷ d ∷ more) =
    if eqb family 1
    then mapped (record { ip = a ∷ b ∷ c ∷ d ∷ []; port = p * 256 + q })
    else failed unsupported_family
mapped_says val = failed attribute_too_short

-- The same for an XOR-MAPPED-ADDRESS, with the exclusive or by the magic cookie undone.
abbrev pub xor_says : Bytes → Parsed
xor_says (z ∷ family ∷ p ∷ q ∷ a ∷ b ∷ c ∷ d ∷ more) =
    if eqb family 1
    then mapped (record {
      ip = xor 8 a 33 ∷ xor 8 b 18 ∷ xor 8 c 164 ∷ xor 8 d 66 ∷ [];
      port = xor 16 (p * 256 + q) 8466;
    })
    else failed unsupported_family
xor_says val = failed attribute_too_short

parse_mapped_address_lem : (val : Bytes) → parse_mapped_address val ≡ mapped_says val
unfolding parse_mapped_address byte_at take drop
parse_mapped_address_lem [] = refl
parse_mapped_address_lem (z ∷ []) = ground arith
parse_mapped_address_lem (z ∷ f ∷ []) = ground arith
parse_mapped_address_lem (z ∷ f ∷ p ∷ []) = ground arith
parse_mapped_address_lem (z ∷ f ∷ p ∷ q ∷ []) = ground arith
parse_mapped_address_lem (z ∷ f ∷ p ∷ q ∷ a ∷ []) = ground arith
parse_mapped_address_lem (z ∷ f ∷ p ∷ q ∷ a ∷ b ∷ []) = ground arith
parse_mapped_address_lem (z ∷ f ∷ p ∷ q ∷ a ∷ b ∷ c ∷ []) = ground arith
parse_mapped_address_lem (z ∷ f ∷ p ∷ q ∷ a ∷ b ∷ c ∷ d ∷ more) = ground arith

pub parse_xor_mapped_address_lem : (val : Bytes) → parse_xor_mapped_address val ≡ xor_says val
unfolding parse_xor_mapped_address byte_at
parse_xor_mapped_address_lem [] = refl
parse_xor_mapped_address_lem (z ∷ []) = ground arith
parse_xor_mapped_address_lem (z ∷ f ∷ []) = ground arith
parse_xor_mapped_address_lem (z ∷ f ∷ p ∷ []) = ground arith
parse_xor_mapped_address_lem (z ∷ f ∷ p ∷ q ∷ []) = ground arith
parse_xor_mapped_address_lem (z ∷ f ∷ p ∷ q ∷ a ∷ []) = ground arith
parse_xor_mapped_address_lem (z ∷ f ∷ p ∷ q ∷ a ∷ b ∷ []) = ground arith
parse_xor_mapped_address_lem (z ∷ f ∷ p ∷ q ∷ a ∷ b ∷ c ∷ []) = ground arith
parse_xor_mapped_address_lem (z ∷ f ∷ p ∷ q ∷ a ∷ b ∷ c ∷ d ∷ more) = ground arith

-- What the attributes say: the first XOR-MAPPED-ADDRESS, or else the last MAPPED-ADDRESS; a malformed
-- address attribute that comes before is an error.
abbrev pub address_of : List (ℕ × Bytes) → Option MappedAddress → Parsed
address_of [] none = failed no_address
address_of [] (some a) = mapped a
address_of ((t, val) ∷ attrs) seen =
    if eqb t 32
    then xor_says val
    else if eqb t 1
    then (elim (mapped_says val) [
      | mapped a ↦ address_of attrs (some a)
      | failed e ↦ failed e
      | panics ↦ panics
      | out_of_fuel ↦ out_of_fuel
    ])
    else address_of attrs seen

-- A type of two bytes, and a value that a message can hold.
abbrev pub IsAttribute : ℕ × Bytes → Type 0
IsAttribute (t, val) = (t < 65536) × (length val < 65532)

-- One round of the loop, at bytes whose parts are known.
one_round :
    (fuel t n : ℕ) (attrs val rest : Bytes) (seen : Option MappedAddress)
    → ltb (length attrs) 4 ≡ false
    → uint16_at 0 attrs ≡ t
    → uint16_at 2 attrs ≡ n
    → ltb (length attrs - 4) n ≡ false
    → slice 4 ((4 + n) % 65536) attrs ≡ some val
    → slice (4 + padded_length n) (length attrs) attrs ≡ some rest
    → parse_attributes (suc fuel) attrs seen ≡ (
        if eqb t 32
        then parse_xor_mapped_address val
        else if eqb t 1
        then elim (parse_mapped_address val) [
          | mapped a ↦ parse_attributes fuel rest (some a)
          | failed e ↦ failed e
          | panics ↦ panics
          | out_of_fuel ↦ out_of_fuel
        ]
        else parse_attributes fuel rest seen)
unfolding parse_attributes
one_round fuel t n attrs val rest seen long type_is length_is fits value_is rest_is =
    rw (parse_attributes, long, length_is, fits, value_is, type_is)
      (ap continue
        (ap (λ (k : ℕ). slice (4 + padded_length k) (length attrs) attrs) length_is ∙ rest_is))
  where
    continue : Option Bytes → Parsed
    continue next =
        if eqb t 32
        then parse_xor_mapped_address val
        else if eqb t 1
        then elim (parse_mapped_address val) [
          | mapped a ↦ elim next [ none ↦ panics | some r ↦ parse_attributes fuel r (some a) ]
          | failed e ↦ failed e
          | panics ↦ panics
          | out_of_fuel ↦ out_of_fuel
        ]
        else elim next [ none ↦ panics | some r ↦ parse_attributes fuel r seen ]

parse_attributes-address_of :
    (attrs : List (ℕ × Bytes)) (fuel : ℕ) (seen : Option MappedAddress)
    → All IsAttribute attrs
    → length (encode_attributes attrs) < fuel
    → parse_attributes fuel (encode_attributes attrs) seen ≡ address_of attrs seen
unfolding parse_attributes no_more
parse_attributes-address_of attrs zero seen ok le = absurd (omega (arith, le))
parse_attributes-address_of [] (suc fuel) none ok le = refl
parse_attributes-address_of [] (suc fuel) (some a) ok le = refl
parse_attributes-address_of ((t, val) ∷ attrs) (suc fuel) seen ok le =
    one_round fuel t (length val) bytes val body seen long (type_read t val body ok.0.0)
      (length_read t val body (omega (arith, ok.0.1))) fits (value_read t val body ok.0.1)
      (rest_read t val body)
    ∙ then_rest
        (λ s.
          parse_attributes-address_of attrs fuel s ok.1
            (omega (arith, le, length-encode t val body)))
        (eqb t 32) (eqb t 1) (parse_mapped_address val) (mapped_says val)
        (parse_mapped_address_lem val)
  where
    body : Bytes
    body = encode_attributes attrs

    bytes : Bytes
    bytes = encode_attribute t val body

    long : ltb (length bytes) 4 ≡ false
    long = ground (arith, length-encode t val body)

    fits : ltb (length bytes - 4) (length val) ≡ false
    fits = ground (arith, length-encode t val body, padded_more (length val))

    then_rest :
        ((s : Option MappedAddress) → parse_attributes fuel body s ≡ address_of attrs s)
        → (x y : Bool) (p s : Parsed) → p ≡ s
        → (if x
            then parse_xor_mapped_address val
            else if y
            then elim p [
              | mapped a ↦ parse_attributes fuel body (some a)
              | failed e ↦ failed e
              | panics ↦ panics
              | out_of_fuel ↦ out_of_fuel
            ]
            else parse_attributes fuel body seen)
          ≡ (if x
              then xor_says val
              else if y
              then elim s [
                | mapped a ↦ address_of attrs (some a)
                | failed e ↦ failed e
                | panics ↦ panics
                | out_of_fuel ↦ out_of_fuel
              ]
              else address_of attrs seen)
    then_rest ih true y p s e = parse_xor_mapped_address_lem val
    then_rest ih false true p (mapped a) e = rw e (ih (some a))
    then_rest ih false true p (failed err) e = rw e refl
    then_rest ih false true p panics e = rw e refl
    then_rest ih false true p out_of_fuel e = rw e refl
    then_rest ih false false p s e = ih seen

pub same_bytes_refl : (bs : Bytes) → same_bytes bs bs ≡ true
same_bytes_refl [] = refl
same_bytes_refl (b ∷ bs) = ground (arith, eqb_iff b b, same_bytes_refl bs)

-- A message whose head is as it should be.
pub accepted :
    (msg transaction_id body : Bytes)
    → ltb (length msg) 20 ≡ false
    → same_bytes (take 4 (drop 4 msg)) stun_magic_cookie ≡ true
    → take 12 (drop 8 msg) ≡ transaction_id
    → uint16_at 0 msg ≡ 257
    → uint16_at 2 msg ≡ length body
    → drop 20 msg ≡ body
    → parse_binding_response msg transaction_id ≡ parse_attributes (suc (length body)) body none
unfolding parse_binding_response
accepted msg transaction_id body long cookie asked success size rest =
    rw
      (
        parse_binding_response,
        long,
        cookie,
        asked,
        same_bytes_refl,
        success,
        size,
        rest,
        not_less (length body),
        take_all body,
      )
      refl
  where
    not_less : (n : ℕ) → ltb n n ≡ false
    not_less n = ground arith

-- The parse of a response of any attributes, one after the other and each padded to a multiple of four
-- bytes, gives the address that they say, if the transaction is the one that was asked and the message
-- is short enough for its length field.
pub parse-response :
    (transaction_id : Bytes) (attrs : List (ℕ × Bytes))
    → length transaction_id ≡ 12
    → All IsAttribute attrs
    → length (encode_attributes attrs) < 65536
    → parse_binding_response (response transaction_id attrs) transaction_id ≡ address_of attrs none
unfolding take drop byte_at
parse-response transaction_id attrs twelve ok short =
    accepted (response transaction_id attrs) transaction_id body
      (ground (arith, twelve, length-append transaction_id body)) refl
      (ap (λ (k : ℕ). take k (transaction_id ++ body)) (sym twelve)
        ∙ take-append transaction_id body)
      refl (omega (arith, short)) (drop-append 12 transaction_id body twelve)
    ∙ parse_attributes-address_of attrs (suc (length body)) none ok (omega arith)
  where
    body : Bytes
    body = encode_attributes attrs
