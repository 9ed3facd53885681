-- ===== src/Event/Score.antt =====
-- `f64` as the program uses it for salience and confidence. A finite double is a whole multiple
-- of 2^-1074, so a finite value is its magnitude in that unit, and the comparisons are exact.
-- 0.0 and -0.0, which Rust's comparisons do not tell apart, are one value here.
pub mod Arithmetic
use tree_ring_memory.Prelude.{ℕ, ◌^◌, Bool, true, false, ◌&&◌, ltb, leb}

pub data F64 : Type 0 where
  nan pos_inf neg_inf : F64
  -- a finite value that is at least 0, in units of 2^-1074
  nonneg : ℕ → F64
  -- a finite value below 0: `negative n` is -(n + 1) units
  negative : ℕ → F64

-- The units of the double 1.0.
unfoldable pub one_units : ℕ
one_units = 2 ^ 1074

-- 0.5
unfoldable pub half : F64
half = nonneg (2 ^ 1073)

-- `value.is_finite()`
unfoldable pub is_finite : F64 → Bool
is_finite (nonneg n) = true
is_finite (negative n) = true
is_finite _ = false

-- `a <= b` on doubles: false as soon as one is not a number
unfoldable pub le : F64 → F64 → Bool
le nan b = false
le a nan = false
le neg_inf b = true
le a pos_inf = true
le pos_inf b = false
le a neg_inf = false
le (nonneg m) (nonneg n) = leb m n
le (nonneg m) (negative n) = false
le (negative m) (nonneg n) = true
le (negative m) (negative n) = leb n m

-- `a < b` on doubles
unfoldable pub lt : F64 → F64 → Bool
lt nan b = false
lt a nan = false
lt a neg_inf = false
lt pos_inf b = false
lt neg_inf b = true
lt a pos_inf = true
lt (nonneg m) (nonneg n) = ltb m n
lt (nonneg m) (negative n) = false
lt (negative m) (nonneg n) = true
lt (negative m) (negative n) = ltb n m

-- `value.is_finite() && (0.0..=1.0).contains(&value)`
unfoldable pub in_unit : F64 → Bool
unfolding is_finite le
in_unit v = is_finite v && (le (nonneg 0) v && le v (nonneg one_units))
