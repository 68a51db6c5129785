-- ===== src/Base/Words.antt =====
-- Go's strconv.Atoi on bytes, and the product of two 64-bit integers.
use Prim.Native.Nat.{ℕ, ◌+◌, ◌-◌, ◌*◌, ◌%◌, ◌^◌}
use mathlib.Core.Bool.{Bool, true, false, ◌&&◌}
use mathlib.Core.Option.{Option, none, some}
use mathlib.Core.List.{List, [], ◌∷◌}
use plexd.Base.Tests.{if◌then◌else◌, ltb, leb, eqb}
use plexd.Base.Int.{ℤ, pos, negsuc}

-- An integer as an int64 holds it.
unfoldable pub wrap64 : ℤ → ℤ
wrap64 (pos n) = let m = n % 2 ^ 64 in if ltb m (2 ^ 63) then pos m else negsuc (2 ^ 64 - m - 1)
wrap64 (negsuc n) = let m = n % 2 ^ 64 in if ltb m (2 ^ 63) then negsuc m else pos (2 ^ 64 - m - 1)

-- The product of an integer and a positive constant.
abbrev pub times : ℤ → ℕ → ℤ
times (pos n) k = pos (n * k)
times (negsuc n) k = negsuc ((n + 1) * k - 1)

unfoldable pub digits : List ℕ → ℕ → Option ℕ
digits [] acc = some acc
digits (c ∷ cs) acc =
    let rest = digits cs (acc * 10 + (c - b'0')) in if leb b'0' c && leb c b'9' then rest else none

abbrev signed : Bool → Option ℕ → Option ℤ
signed negative none = none
signed false (some n) = if ltb n (2 ^ 63) then some (pos n) else none
signed true (some n) =
    if eqb n 0 then some (pos 0) else if leb n (2 ^ 63) then some (negsuc (n - 1)) else none

-- An empty number is refused.
abbrev number : List ℕ → Option ℕ
number [] = none
number (c ∷ cs) = digits (c ∷ cs) 0

unfoldable pub atoi : List ℕ → Option ℤ
atoi [] = none
atoi (c ∷ cs) =
    if eqb c b'-'
    then signed true (number cs)
    else if eqb c b'+'
    then signed false (number cs)
    else signed false (number (c ∷ cs))
