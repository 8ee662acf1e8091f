-- ===== src/Float.antt =====
-- Python's floats, exactly: every finite double is a whole multiple of 2^-1074, so a finite value
-- is the integer of those ticks. 0.0 and -0.0 are one value here. The program compares floats,
-- tests them for zero, takes minima, adds them and converts integers; no other arithmetic is
-- modelled.
use Prim.Native.Nat.{ℕ, zero, suc, ◌+◌, ◌-◌, ◌*◌, ◌/◌, ◌%◌, ◌^◌}
use termiclaw.Prelude.{
  Bool, true, false, Option, none, some, ℤ, pos, negsuc, pos_part, neg_part, ◌+ℤ◌, ltb, leb, ◌==◌,
  ◌||◌, ◌&&◌, if◌then◌else◌, not,
}

pub data Float : Type 0 where
  nan neg_inf inf : Float
  finite : ℤ → Float

-- The ticks of a second.
unfoldable pub ticks : ℕ
ticks = 2 ^ 1074

-- Python's `a < b`
unfoldable pub ltb_float : Float → Float → Bool
ltb_float nan b = false
ltb_float a nan = false
ltb_float neg_inf neg_inf = false
ltb_float neg_inf b = true
ltb_float inf b = false
ltb_float a neg_inf = false
ltb_float (finite x) inf = true
ltb_float (finite x) (finite y) = ltb (pos_part x + neg_part y) (pos_part y + neg_part x)

-- Python's `min(a, b)`: the first, unless the second is less.
unfoldable pub min_float : Float → Float → Float
unfolding ltb_float
min_float a b = if ltb_float b a then b else a

abbrev int_nonzero : ℤ → Bool
int_nonzero (pos n) = not (n == 0)
int_nonzero (negsuc n) = true

-- `bool(x)`
unfoldable pub float_bool : Float → Bool
float_bool (finite z) = int_nonzero z
float_bool x = true

-- The least k ≥ `k` with n < 2 ^ k, where n / 2 ^ k is given.
bits_on : ℕ → ℕ → ℕ → ℕ
bits_on zero n k = k
bits_on (suc fuel) n k = let rest = bits_on fuel (n / 2) (k + 1) in if n == 0 then k else rest

-- n rounded to 53 significant bits, ties to even, as the C conversion to double rounds.
unfoldable pub round_53 : ℕ → ℕ
unfolding bits_on
round_53 n =
    let step = 2 ^ (bits_on (suc n) n 0 - 53) in
    let q = n / step in
    let r = n % step in
    if ltb step (2 * r) || (2 * r == step) && (q % 2 == 1) then (q + 1) * step else q * step

-- `float(z)` of an int: `none` is OverflowError, for magnitudes that round to 2^1024 or more.
unfoldable pub float_of_int : ℤ → Option Float
unfolding round_53 ticks
float_of_int z =
    let m = round_53 (pos_part z + neg_part z) in
    if leb (2 ^ 1024) m
    then none
    else some (finite (elim z [ pos _ ↦ pos (m * ticks) | negsuc _ ↦ negsuc (m * ticks - 1) ]))

-- `int(x)` of a finite float: towards zero.
unfoldable pub truncate : ℤ → ℤ
unfolding ticks
truncate (pos n) = pos (n / ticks)
truncate (negsuc n) = elim (suc n / ticks) [ zero ↦ pos 0 | suc q ↦ negsuc q ]

-- The double nearest to a number of ticks: a magnitude that rounds to 2^1024 or more is infinite.
unfoldable pub nearest : ℤ → Float
unfolding round_53 ticks
nearest z =
    let m = round_53 (pos_part z + neg_part z) in
    elim z [
      | pos _ ↦ (if leb (2 ^ 1024 * ticks) m then inf else finite (pos m))
      | negsuc _ ↦ (if leb (2 ^ 1024 * ticks) m then neg_inf else finite (negsuc (m - 1)))
    ]

-- Python's `a + b`
unfoldable pub add_float : Float → Float → Float
unfolding nearest ◌+ℤ◌
add_float nan b = nan
add_float a nan = nan
add_float inf neg_inf = nan
add_float neg_inf inf = nan
add_float inf b = inf
add_float neg_inf b = neg_inf
add_float a inf = inf
add_float a neg_inf = neg_inf
add_float (finite x) (finite y) = nearest (x +ℤ y)
