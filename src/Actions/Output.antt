-- ===== src/Actions/Output.antt =====
-- internal/actions/executor.go: limitedWriter and collectOutput. A limit is at least 1024 in a
-- configuration that is accepted, hence not negative here.
use mathlib.Core.List.{append_assoc, append-nil}
use plexd.Base.{
  ℕ, zero, suc, ◌-◌, ◌≤◌, List, [], ◌∷◌, ◌++◌, Bool, true, false, ltb, leb, if◌then◌else◌, length,
  arith, ◌≡◌, refl, sym, ap, ◌∙◌, inl, inr, Bool-cases,
}
use plexd.Forwarding.{take}
use plexd.Forwarding.Delivery.{concat}

pub record LimitedWriter : Type 0 where
  pub buf : List ℕ
  pub max : ℕ

unfoldable pub new_limited_writer : ℕ → LimitedWriter
new_limited_writer max = record { buf = []; max = max }

-- The writer always reports that all bytes were written.
unfoldable pub write : List ℕ → LimitedWriter → LimitedWriter
write p w =
    let remaining = w.max - length w.buf in
    if ltb 0 remaining
    then record w {
      buf = w.buf ++ take (if ltb remaining (length p) then remaining else length p) p;
    }
    else w

unfoldable pub truncated : LimitedWriter → Bool
truncated w = leb w.max (length w.buf)

abbrev pub truncation_suffix : List ℕ
truncation_suffix =
    b'\n' ∷ b'.' ∷ b'.' ∷ b'.' ∷ b'[' ∷ b't' ∷ b'r' ∷ b'u' ∷ b'n' ∷ b'c' ∷ b'a' ∷ b't' ∷ b'e' ∷ b'd'
    ∷ b']' ∷ []

unfoldable pub collect_output : LimitedWriter → List ℕ
collect_output w = if truncated w then w.buf ++ truncation_suffix else w.buf

-- The writes of a process, in order.
unfoldable pub write_all : List (List ℕ) → LimitedWriter → LimitedWriter
write_all [] w = w
write_all (p ∷ ps) w = write_all ps (write p w)

take_all : (n : ℕ) (xs : List ℕ) → length xs ≤ n → take n xs ≡ xs
take_all zero [] h = refl
take_all zero (x ∷ xs) h = absurd (omega arith)
take_all (suc n) [] h = refl
take_all (suc n) (x ∷ xs) h = ap (◌∷◌ x) (take_all n xs (omega arith))

length-take :
    (n : ℕ) (xs : List ℕ) → length (take n xs) ≡ (if ltb n (length xs) then n else length xs)
length-take zero xs = ground arith
length-take (suc n) [] = ground arith
length-take (suc n) (x ∷ xs) = ground (arith, length-take n xs)

take-append : (n : ℕ) (xs ys : List ℕ) → take n (xs ++ ys) ≡ take n xs ++ take (n - length xs) ys
take-append zero [] ys = refl
take-append zero (x ∷ xs) ys =
    let none_left : 0 - suc (length xs) ≡ 0 = omega arith in rw none_left refl
take-append (suc n) [] ys = let all : suc n - 0 ≡ suc n = omega arith in rw all refl
take-append (suc n) (x ∷ xs) ys =
    let left : suc n - suc (length xs) ≡ n - length xs = omega arith in
    rw left (ap (◌∷◌ x) (take-append n xs ys))

take-min : (n : ℕ) (p : List ℕ) → take (if ltb n (length p) then n else length p) p ≡ take n p
take-min n p = elim (Bool-cases (ltb n (length p))) [
  | inl less ↦ rw less refl
  | inr enough ↦ rw enough (take_all (length p) p (omega arith) ∙ sym (take_all n p (ground arith)))
]

-- The writer that has been given the bytes `xs`.
abbrev pub given : List ℕ → ℕ → LimitedWriter
given xs max = record { buf = take max xs; max = max }

abbrev given_buffer : List ℕ → ℕ → LimitedWriter
given_buffer b max = record { buf = b; max = max }

write-given : (xs p : List ℕ) (max : ℕ) → write p (given xs max) ≡ given (xs ++ p) max
unfolding write
write-given xs p max = elim (Bool-cases (ltb (length xs) max)) [
  | inl room ↦
      let left : ltb 0 (max - length xs) ≡ true = ground arith in
      rw (take-append max xs p, take_all max xs (ground arith), take-min (max - length xs) p, left)
        refl
  | inr full ↦
      let taken : length (take max xs) ≡ max = ground (arith, length-take max xs) in
      let left : ltb 0 (max - length (take max xs)) ≡ false = ground arith in
      let nothing : max - length xs ≡ 0 = ground arith in
      rw (left, take-append max xs p, nothing)
        (ap (λ (b : List ℕ). given_buffer b max) (sym (append-nil (take max xs))))
]

write_all-given :
    (ps : List (List ℕ)) (xs : List ℕ) (max : ℕ)
    → write_all ps (given xs max) ≡ given (xs ++ concat ps) max
unfolding write_all
write_all-given [] xs max = ap (λ (b : List ℕ). given b max) (sym (append-nil xs))
write_all-given (p ∷ ps) xs max = rw (write-given xs p max) (
    write_all-given ps (xs ++ p) max
    ∙ ap (λ (b : List ℕ). given b max) (append_assoc xs p (concat ps)))

new-given : (max : ℕ) → new_limited_writer max ≡ given [] max
unfolding new_limited_writer
new-given zero = refl
new-given (suc n) = refl

-- However a process splits its output into writes, the result has what the limit leaves of all of it,
-- and the suffix exactly if the output is as long as the limit or longer.
pub collect-write_all :
    (ps : List (List ℕ)) (max : ℕ)
    → collect_output (write_all ps (new_limited_writer max)) ≡ (
        if ltb (length (concat ps)) max
        then concat ps
        else take max (concat ps) ++ truncation_suffix)
unfolding collect_output truncated
collect-write_all ps max =
    rw (new-given max, write_all-given ps [] max)
      (elim (Bool-cases (ltb (length (concat ps)) max)) [
        | inl fits ↦
            let whole = take_all max (concat ps) (ground arith) in
            let short : leb max (length (concat ps)) ≡ false = ground arith in
            rw (fits, whole, short) refl
        | inr long ↦
            let cut : leb max (length (take max (concat ps))) ≡ true =
              ground (arith, length-take max (concat ps)) in
            rw (long, cut) refl
      ])
