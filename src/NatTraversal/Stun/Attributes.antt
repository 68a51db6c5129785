-- ===== src/NatTraversal/Stun/Attributes.antt =====
-- internal/nat/stun.go: the bytes of attributes, and one round of the loop that reads them.
use mathlib.Core.List.{append_assoc, append-nil}
use plexd.Base.{
  eqb_iff, ℕ, zero, suc, ◌+◌, ◌-◌, ◌/◌, ◌%◌, ◌<◌, ◌≤◌, [], ◌∷◌, ◌++◌, true, ◌&&◌, leb, some, length,
  length-append, arith, ◌≡◌, refl, ap, sym, ◌∙◌, inl, inr, Bool-cases,
}
use plexd.Api.Envelope.{Bytes}
use plexd.NatTraversal.Stun.{take, drop, slice, byte_at, uint16_at, padded_length}

abbrev pub zeros : ℕ → Bytes
zeros zero = []
zeros (suc n) = 0 ∷ zeros n

-- How many zeros follow a value of the length.
abbrev pub padding : ℕ → ℕ
padding n = (4 - n % 4) % 4

-- The bytes of an attribute: type, length, value, and zeros up to a multiple of four.
abbrev pub encode_attribute : ℕ → Bytes → Bytes → Bytes
encode_attribute t val rest =
    t / 256
    ∷ t % 256
    ∷ length val / 256
    ∷ length val % 256
    ∷ (val ++ (zeros (padding (length val)) ++ rest))

pub length-zeros : (n : ℕ) → length (zeros n) ≡ n
length-zeros zero = refl
length-zeros (suc n) = ap suc (length-zeros n)

pub take-append : (u w : Bytes) → take (length u) (u ++ w) ≡ u
unfolding take
take-append [] w = refl
take-append (b ∷ u) w = ap (λ (t : Bytes). b ∷ t) (take-append u w)

pub take_all : (u : Bytes) → take (length u) u ≡ u
unfolding take
take_all [] = refl
take_all (b ∷ u) = ap (λ (t : Bytes). b ∷ t) (take_all u)

pub drop-append : (n : ℕ) (u w : Bytes) → length u ≡ n → drop n (u ++ w) ≡ w
unfolding drop
drop-append zero [] w e = refl
drop-append zero (b ∷ u) w e = absurd (ground arith)
drop-append (suc n) [] w e = absurd (ground arith)
drop-append (suc n) (b ∷ u) w e = drop-append n u w (omega (arith, e))

pub length-take-le : (n : ℕ) (u : Bytes) → length (take n u) ≤ n
unfolding take
length-take-le zero u = omega arith
length-take-le (suc n) [] = omega arith
length-take-le (suc n) (b ∷ u) = omega (arith, length-take-le n u)

-- What is cut from a list.
pub slice_exact :
    (lo n : ℕ) (front mid back : Bytes)
    → length front ≡ lo
    → length mid ≡ n
    → slice lo (lo + n) (front ++ (mid ++ back)) ≡ some mid
unfolding slice
slice_exact lo n front mid back el en = rw (inside) (
    ap some (
      rw (drop-append lo front (mid ++ back) el)
        (ap (λ (k : ℕ). take k (mid ++ back)) same ∙ take-append mid back)))
  where
    inside : (leb lo (lo + n) && leb (lo + n) (length (front ++ (mid ++ back)))) ≡ true
    inside = ground (arith, length-append front (mid ++ back), length-append mid back)

    same : lo + n - lo ≡ length mid
    same = omega (arith, en)

pub slice_shrinks :
    (lo : ℕ) (bs rest : Bytes) → slice lo (length bs) bs ≡ some rest → length rest + lo ≤ length bs
unfolding slice
slice_shrinks lo bs rest h = elim (Bool-cases (leb lo (length bs) && leb (length bs) (length bs))) [
  | inl e ↦
      (let k = inj (rw (e, slice) at h) in
        let m = length-take-le (length bs - lo) (drop lo bs) in
        let l = ap (λ (u : Bytes). length u) k in ground arith)
  | inr e ↦ absurd (ground arith)
]
  where
    inj : {u v : Bytes} → some u ≡ some v → u ≡ v
    inj e = cc

padded_length_lem : (n : ℕ) → padded_length n ≡ n + padding n
unfolding padded_length
padded_length_lem n = ground (arith, eqb_iff (n % 4) 0)

pub padded_more : (n : ℕ) → n ≤ padded_length n
padded_more n = omega (arith, padded_length_lem n)

module _ (t : ℕ) (val rest : Bytes) where
  -- The parts that one round of the loop reads.
  pub length-encode :
      length (encode_attribute t val rest) ≡ 4 + (padded_length (length val) + length rest)
  length-encode =
      let n = length val in
      let p = padded_length n in
      let m = padded_length_lem n in
      omega (
        arith,
        length-append val (zeros (padding n) ++ rest),
        length-append (zeros (padding n)) rest,
        length-zeros (padding n),
        m,
      )

  pub type_read : t < 65536 → uint16_at 0 (encode_attribute t val rest) ≡ t
  unfolding byte_at
  type_read h = omega arith

  pub length_read : length val < 65536 → uint16_at 2 (encode_attribute t val rest) ≡ length val
  unfolding byte_at
  length_read h = omega arith

  pub value_read :
      length val < 65532
      → slice 4 ((4 + length val) % 65536) (encode_attribute t val rest) ≡ some val
  value_read h =
      let n = length val in
      ap (λ (k : ℕ). slice 4 k (encode_attribute t val rest)) small
      ∙ slice_exact 4 n (t / 256 ∷ t % 256 ∷ n / 256 ∷ n % 256 ∷ []) val (zeros (padding n) ++ rest)
          refl refl
    where
      small : (4 + length val) % 65536 ≡ 4 + length val
      small = omega (arith, h)

  pub rest_read :
      slice
        (4 + padded_length (length val))
        (length (encode_attribute t val rest))
        (encode_attribute t val rest)
      ≡ some rest
  rest_read =
      let n = length val in
      let p = padded_length n in
      let front : Bytes = t / 256 ∷ t % 256 ∷ n / 256 ∷ n % 256 ∷ (val ++ zeros (padding n)) in
      let size : length front ≡ 4 + p =
        (let m = padded_length_lem n in
          omega (arith, length-append val (zeros (padding n)), length-zeros (padding n), m)) in
      let whole : encode_attribute t val rest ≡ front ++ (rest ++ []) =
        ap (λ (u : Bytes). t / 256 ∷ t % 256 ∷ n / 256 ∷ n % 256 ∷ u)
          (sym (append_assoc val (zeros (padding n)) rest)
            ∙ ap (λ (u : Bytes). (val ++ zeros (padding n)) ++ u) (sym (append-nil rest))) in
      let len : length (encode_attribute t val rest) ≡ 4 + p + length rest =
        (omega (arith, length-encode)) in
      ap (λ (k : ℕ). slice (4 + p) k (encode_attribute t val rest)) len
      ∙ ap (λ (u : Bytes). slice (4 + p) (4 + p + length rest) u) whole
      ∙ slice_exact (4 + p) (length rest) front rest [] size refl
