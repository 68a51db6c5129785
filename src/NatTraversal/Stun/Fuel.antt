-- ===== src/NatTraversal/Stun/Fuel.antt =====
-- internal/nat/stun.go: the fuel of the loop over the attributes.
use plexd.Base.{
  ℕ, zero, suc, ◌+◌, ◌-◌, ◌%◌, ◌<◌, Bool, true, false, eqb, ltb, Option, none, some, if◌then◌else◌,
  length, arith, ◌≡◌, ◌≢◌, refl, sym,
}
use plexd.Api.Envelope.{Bytes}
use plexd.NatTraversal.Stun.{
  MappedAddress, Parsed, mapped, failed, panics, out_of_fuel, slice, uint16_at,
  parse_xor_mapped_address, parse_mapped_address, padded_length, no_more, parse_attributes,
}
use plexd.NatTraversal.Stun.Attributes.{slice_shrinks}

parse_xor-fuel : (val : Bytes) → parse_xor_mapped_address val ≢ out_of_fuel
unfolding parse_xor_mapped_address
parse_xor-fuel val h = ground arith

parse_mapped-fuel : (val : Bytes) → parse_mapped_address val ≢ out_of_fuel
unfolding parse_mapped_address
parse_mapped-fuel val h = ground arith

no_more-fuel : (seen : Option MappedAddress) → no_more seen ≢ out_of_fuel
unfolding no_more
no_more-fuel none h = ground arith
no_more-fuel (some a) h = ground arith

pub parse_attributes-fuel :
    (fuel : ℕ) (attrs : Bytes) (seen : Option MappedAddress)
    → length attrs < fuel
    → parse_attributes fuel attrs seen ≢ out_of_fuel
unfolding parse_attributes
parse_attributes-fuel zero attrs seen le = absurd (omega (arith, le))
parse_attributes-fuel (suc fuel) attrs seen le =
    whole (λ rest s k. parse_attributes-fuel fuel rest s k) (ltb (length attrs) 4)
      (ltb (length attrs - 4) n) (slice 4 ((4 + n) % 65536) attrs)
  where
    IH : Type 0
    IH =
        (rest : Bytes) (s : Option MappedAddress)
        → length rest < fuel
        → parse_attributes fuel rest s ≢ out_of_fuel

    n : ℕ
    n = uint16_at 2 attrs

    next : Option Bytes
    next = slice (4 + padded_length n) (length attrs) attrs

    continues :
        IH
        → (o : Option Bytes) → o ≡ next
        → (s : Option MappedAddress)
        → elim o [ none ↦ panics | some rest ↦ parse_attributes fuel rest s ] ≢ out_of_fuel
    continues ih none e s = λ h. ground arith
    continues ih (some rest) e s =
        ih rest s
          (let k = slice_shrinks (4 + padded_length n) attrs rest (sym e) in omega (arith, k, le))

    plain :
        IH
        → (p : Parsed) → p ≢ out_of_fuel
        → elim p [
          | mapped a ↦ elim next [ none ↦ panics | some rest ↦ parse_attributes fuel rest (some a) ]
          | failed e ↦ failed e
          | panics ↦ panics
          | out_of_fuel ↦ out_of_fuel
        ]
          ≢ out_of_fuel
    plain ih (mapped a) f = continues ih next refl (some a)
    plain ih (failed e) f = λ h. ground arith
    plain ih panics f = λ h. ground arith
    plain ih out_of_fuel f = f

    by_type :
        IH
        → (x y : Bool) (val : Bytes)
        → (if x
            then parse_xor_mapped_address val
            else if y
            then elim (parse_mapped_address val) [
              | mapped a ↦ elim next [
                | none ↦ panics
                | some rest ↦ parse_attributes fuel rest (some a)
              ]
              | failed e ↦ failed e
              | panics ↦ panics
              | out_of_fuel ↦ out_of_fuel
            ]
            else elim next [ none ↦ panics | some rest ↦ parse_attributes fuel rest seen ])
          ≢ out_of_fuel
    by_type ih true y val = parse_xor-fuel val
    by_type ih false true val = plain ih (parse_mapped_address val) (parse_mapped-fuel val)
    by_type ih false false val = continues ih next refl seen

    whole :
        IH
        → (x y : Bool) (v : Option Bytes)
        → (if x then no_more seen else if y then no_more seen else elim v [
          | none ↦ panics
          | some val ↦
              if eqb (uint16_at 0 attrs) 32
              then parse_xor_mapped_address val
              else if eqb (uint16_at 0 attrs) 1
              then elim (parse_mapped_address val) [
                | mapped a ↦ elim next [
                  | none ↦ panics
                  | some rest ↦ parse_attributes fuel rest (some a)
                ]
                | failed e ↦ failed e
                | panics ↦ panics
                | out_of_fuel ↦ out_of_fuel
              ]
              else elim next [ none ↦ panics | some rest ↦ parse_attributes fuel rest seen ]
        ])
          ≢ out_of_fuel
    whole ih true y v = no_more-fuel seen
    whole ih false true v = no_more-fuel seen
    whole ih false false none = λ h. ground arith
    whole ih false false (some val) =
        by_type ih (eqb (uint16_at 0 attrs) 32) (eqb (uint16_at 0 attrs) 1) val
