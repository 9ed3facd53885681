-- ===== src/Prelude/Decimal.antt =====
-- A number as `format!` prints it.
use Prim.Native.Nat.{ℕ, zero, suc, ◌/◌, ◌%◌, ◌<◌}
use Prim.Native.String.{String, ◌++◌ as append}
use mathlib.Core.Path.{◌≡◌, refl}
use mathlib.Core.Logic.{inl, inr}
use native.Mathlib.Omega.{arith}
use tree_ring_memory.Prelude.Tests.{ltb, if◌then◌else◌, Bool-cases}

abbrev digit : ℕ → String
digit zero = "0"
digit (suc zero) = "1"
digit (suc (suc zero)) = "2"
digit (suc (suc (suc zero))) = "3"
digit (suc (suc (suc (suc zero)))) = "4"
digit (suc (suc (suc (suc (suc zero))))) = "5"
digit (suc (suc (suc (suc (suc (suc zero)))))) = "6"
digit (suc (suc (suc (suc (suc (suc (suc zero))))))) = "7"
digit (suc (suc (suc (suc (suc (suc (suc (suc zero)))))))) = "8"
digit _ = "9"

-- The digits of `n` in front of `rest`, in at most `fuel` rounds.
unfoldable pub digits : ℕ → ℕ → String → String
digits zero n rest = rest
digits (suc fuel) n rest =
    let more = digits fuel (n / 10) (append (digit (n % 10)) rest) in
    if ltb n 10 then append (digit n) rest else more

unfoldable pub decimal : ℕ → String
unfolding digits
decimal n = digits (suc n) n ""

-- More rounds than the number change nothing: the fuel of `decimal` is enough.
pub digits_enough : (f g n : ℕ) (rest : String) → n < f → n < g → digits f n rest ≡ digits g n rest
unfolding digits
digits_enough zero g n rest p q = elim p [ ]
digits_enough (suc f) zero n rest p q = elim q [ ]
digits_enough (suc f) (suc g) n rest p q = elim (Bool-cases (ltb n 10)) [
  | inl small ↦ rw small refl
  | inr large ↦ rw large (digits_enough f g (n / 10) _ (ground arith) (ground arith))
]
