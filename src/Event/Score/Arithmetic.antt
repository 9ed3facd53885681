-- ===== src/Event/Score/Arithmetic.antt =====
-- IEEE 754 addition and division of doubles, rounded to nearest with ties to even: what the code's
-- `+`, `/` and `clamp` on f64 do. A divisor of 0 is +0.0, the only zero that the program divides by.
use tree_ring_memory.Prelude.{
  ℕ, zero, suc, ◌≡◌, arith, ◌+◌, ◌-◌, ◌*◌, ◌/◌, ◌%◌, ◌^◌, Bool, true, false, ◌&&◌, ◌||◌, ltb, leb,
  eqb, if◌then◌else◌,
}
use tree_ring_memory.Event.Score.{F64, nan, pos_inf, neg_inf, nonneg, negative, one_units, le, lt}

-- the multiple of `scale` nearest to num / den; of two, the one of an even factor
unfoldable pub nearest : ℕ → ℕ → ℕ → ℕ
nearest scale num den =
    let unit = scale * den in
    let q = num / unit in
    let r = num % unit in
    (if ltb unit (2 * r) || eqb (2 * r) unit && eqb (q % 2) 1 then q + 1 else q) * scale

-- num / den rounded to 53 bits: at the least scale where 53 bits hold it
unfoldable pub round_at : ℕ → ℕ → ℕ → ℕ → ℕ
unfolding nearest
round_at zero scale num den = nearest scale num den
round_at (suc fuel) scale num den =
    let rest = round_at fuel (2 * scale) num den in
    if ltb num (2 ^ 53 * scale * den) then nearest scale num den else rest

-- The scales of finite doubles are 2^0 to 2^2046 units; from 2^2098 units on a double is infinite.
unfoldable pub rounded : ℕ → ℕ → F64
unfolding round_at
rounded num den = let n = round_at 2046 1 num den in if ltb n (2 ^ 2098) then nonneg n else pos_inf

unfoldable pub opposite : F64 → F64
opposite nan = nan
opposite pos_inf = neg_inf
opposite neg_inf = pos_inf
opposite (nonneg zero) = nonneg zero
opposite (nonneg (suc n)) = negative n
opposite (negative n) = nonneg (suc n)

-- m - n for two magnitudes
unfoldable pub difference : ℕ → ℕ → F64
unfolding rounded opposite
difference m n = if leb n m then rounded (m - n) 1 else opposite (rounded (n - m) 1)

unfoldable pub add : F64 → F64 → F64
unfolding difference
add nan b = nan
add a nan = nan
add pos_inf neg_inf = nan
add neg_inf pos_inf = nan
add pos_inf b = pos_inf
add neg_inf b = neg_inf
add a pos_inf = pos_inf
add a neg_inf = neg_inf
add (nonneg m) (nonneg n) = rounded (m + n) 1
add (nonneg m) (negative n) = difference m (suc n)
add (negative m) (nonneg n) = difference n (suc m)
add (negative m) (negative n) = opposite (rounded (suc m + suc n) 1)

-- the quotient of two magnitudes
unfoldable pub quotient : ℕ → ℕ → F64
unfolding rounded
quotient zero zero = nan
quotient (suc m) zero = pos_inf
quotient m (suc n) = rounded (m * one_units) (suc n)

unfoldable pub div : F64 → F64 → F64
unfolding quotient opposite one_units
div nan b = nan
div a nan = nan
div pos_inf (nonneg n) = pos_inf
div pos_inf (negative n) = neg_inf
div neg_inf (nonneg n) = neg_inf
div neg_inf (negative n) = pos_inf
div (nonneg m) (nonneg n) = quotient m n
div (nonneg m) (negative n) = opposite (quotient m (suc n))
div (negative m) (nonneg n) = opposite (quotient (suc m) n)
div (negative m) (negative n) = quotient (suc m) (suc n)
div pos_inf b = nan
div neg_inf b = nan
div a b = nonneg zero

-- the product of two magnitudes
unfoldable pub product : ℕ → ℕ → F64
unfolding rounded one_units
product m n = rounded (m * n) one_units

unfoldable pub mul : F64 → F64 → F64
unfolding product opposite
mul nan b = nan
mul a nan = nan
mul (nonneg zero) (nonneg n) = nonneg zero
mul (nonneg m) (nonneg zero) = nonneg zero
mul (nonneg zero) (negative n) = nonneg zero
mul (negative m) (nonneg zero) = nonneg zero
mul (nonneg m) (nonneg n) = product m n
mul (nonneg m) (negative n) = opposite (product m (suc n))
mul (negative m) (nonneg n) = opposite (product (suc m) n)
mul (negative m) (negative n) = product (suc m) (suc n)
mul (nonneg zero) b = nan
mul a (nonneg zero) = nan
mul pos_inf b = if lt b (nonneg 0) then neg_inf else pos_inf
mul neg_inf b = if lt b (nonneg 0) then pos_inf else neg_inf
mul a pos_inf = if lt a (nonneg 0) then neg_inf else pos_inf
mul a neg_inf = if lt a (nonneg 0) then pos_inf else neg_inf

-- `n as f64`
unfoldable pub of_nat : ℕ → F64
unfolding rounded one_units
of_nat n = rounded (n * one_units) 1

-- the literal of the fraction m / n
unfoldable pub fraction : ℕ → ℕ → F64
unfolding rounded one_units
fraction m n = rounded (m * one_units) n

-- `a.total_cmp(&b)` is less: NaN, of the sign that operations give it, is above all other values
unfoldable pub total_lt : F64 → F64 → Bool
unfolding lt
total_lt nan b = false
total_lt a nan = true
total_lt a b = lt a b

-- `a == b`
unfoldable pub eq : F64 → F64 → Bool
unfolding le
eq a b = le a b && le b a

-- `value.clamp(0.0, 1.0)`: NaN stays NaN
unfoldable pub clamp_unit : F64 → F64
unfolding lt one_units
clamp_unit v =
    let raised = if lt v (nonneg 0) then nonneg 0 else v in
    if lt (nonneg one_units) raised then nonneg one_units else raised

-- Of two values at most one is below the other.
pub total_lt_asym : (a b : F64) → total_lt a b ≡ true → total_lt b a ≡ false
unfolding total_lt lt
total_lt_asym nan nan h = ground arith
total_lt_asym nan pos_inf h = ground arith
total_lt_asym nan neg_inf h = ground arith
total_lt_asym nan (nonneg n) h = ground arith
total_lt_asym nan (negative n) h = ground arith
total_lt_asym pos_inf nan h = ground arith
total_lt_asym pos_inf pos_inf h = ground arith
total_lt_asym pos_inf neg_inf h = ground arith
total_lt_asym pos_inf (nonneg n) h = ground arith
total_lt_asym pos_inf (negative n) h = ground arith
total_lt_asym neg_inf nan h = ground arith
total_lt_asym neg_inf pos_inf h = ground arith
total_lt_asym neg_inf neg_inf h = ground arith
total_lt_asym neg_inf (nonneg n) h = ground arith
total_lt_asym neg_inf (negative n) h = ground arith
total_lt_asym (nonneg m) nan h = ground arith
total_lt_asym (nonneg m) pos_inf h = ground arith
total_lt_asym (nonneg m) neg_inf h = ground arith
total_lt_asym (nonneg m) (nonneg n) h = ground arith
total_lt_asym (nonneg m) (negative n) h = ground arith
total_lt_asym (negative m) nan h = ground arith
total_lt_asym (negative m) pos_inf h = ground arith
total_lt_asym (negative m) neg_inf h = ground arith
total_lt_asym (negative m) (nonneg n) h = ground arith
total_lt_asym (negative m) (negative n) h = ground arith
