-- ===== src/NatTraversal/Stun/Xor.antt =====
-- internal/nat/stun.go: the exclusive or that hides an address.
use plexd.Base.{ℕ, zero, suc, ◌+◌, ◌*◌, ◌/◌, ◌%◌, ◌<◌, arith, ◌≡◌}
use plexd.NatTraversal.Stun.{xor}

-- A number of so many bits.
abbrev pub Fits : ℕ → ℕ → Type 0
Fits zero a = a ≡ 0
Fits (suc w) a = Fits w (a / 2)

bit_sum : (a b : ℕ) → ((a % 2 + b % 2) % 2 + b % 2) % 2 ≡ a % 2
bit_sum a b = omega arith

low_bit : (x y : ℕ) → x < 2 → (x + 2 * y) % 2 ≡ x
low_bit x y h = omega arith

high_bits : (x y : ℕ) → x < 2 → (x + 2 * y) / 2 ≡ y
high_bits x y h = omega arith

-- Taking the exclusive or with the same number twice gives a number back that has so many bits.
pub xor_twice : (w a b : ℕ) → Fits w a → xor w (xor w a b) b ≡ a
unfolding xor
xor_twice zero a b fits = omega arith
xor_twice (suc w) a b fits =
    let x = (a % 2 + b % 2) % 2 in
    let y = xor w (a / 2) (b / 2) in
    let small : x < 2 = (omega arith) in
    rw (low_bit x y small, high_bits x y small, xor_twice w (a / 2) (b / 2) fits, bit_sum a b)
      (omega arith)

pub Fits-byte : (a : ℕ) → a < 256 → Fits 8 a
Fits-byte a h = omega arith

pub Fits-port : (a : ℕ) → a < 65536 → Fits 16 a
Fits-port a h = omega arith

-- The exclusive or of two bytes is a byte.
pub xor_bound : (w a b : ℕ) → Fits w (xor w a b)
unfolding xor
xor_bound zero a b = omega arith
xor_bound (suc w) a b =
    let x = (a % 2 + b % 2) % 2 in
    let y = xor w (a / 2) (b / 2) in rw (high_bits x y (omega arith)) (xor_bound w (a / 2) (b / 2))
