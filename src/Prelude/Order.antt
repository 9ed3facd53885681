-- ===== src/Prelude/Order.antt =====
-- The order of texts, code point by code point, as SQLite's BINARY collation has it.
use Prim.Native.Nat.{ℕ, Ordering, compare as compare_ℕ}
use Prim.Native.Char.{Char, code}
use Prim.Native.String.{String, [], ◌∷◌, then, compare}
use Prim.Native.String.compare
use mathlib.Core.Path.{◌≡◌, refl, sym, ap, ◌∙◌}
use mathlib.Core.Bool.{Bool, true, false, ◌&&◌, ◌||◌}
use native.Mathlib.Omega.{arith}
use text.Mathlib.Text.{is_lt}
use tree_ring_memory.Prelude.Tests.{ltb, eqb}

lt-then :
    (m n : ℕ) (o : Ordering) → is_lt (then (compare_ℕ m n) o) ≡ (ltb m n || eqb m n && is_lt o)
lt-then m n o = by_order (compare_ℕ m n)
  where
    by_order :
        (p : Ordering)
        → is_lt (then p o) ≡ (
            (elim p [ Ordering.lt ↦ true | _ ↦ false ])
            || (elim p [ Ordering.eq ↦ true | _ ↦ false ]) && is_lt o)
    by_order Ordering.lt = refl
    by_order Ordering.eq = refl
    by_order Ordering.gt = refl

lt-cons :
    (c d : Char) (s t : String)
    → is_lt (compare (c ∷ s) (d ∷ t))
      ≡ (ltb (code c) (code d) || eqb (code c) (code d) && is_lt (compare s t))
lt-cons c d s t = ap is_lt (compare.cons-cons c d s t) ∙ lt-then (code c) (code d) (compare s t)

heads :
    (a b c : ℕ) (x y z : Bool)
    → (x ≡ false → y ≡ false → z ≡ false)
    → (ltb a b || eqb a b && x) ≡ false
    → (ltb b c || eqb b c && y) ≡ false
    → (ltb a c || eqb a c && z) ≡ false
heads a b c x y z rest ab bc = ground (arith, rest)

-- A text that is not before a second one that is not before a third is not before the third.
pub late_trans :
    (r s t : String)
    → is_lt (compare r s) ≡ false
    → is_lt (compare s t) ≡ false
    → is_lt (compare r t) ≡ false
late_trans [] s [] rs st = ap is_lt compare.nil-nil
late_trans (b ∷ r) s [] rs st = ap is_lt (compare.cons-nil b r)
late_trans [] [] (d ∷ t) rs st = st
late_trans [] (c ∷ s) (d ∷ t) rs st = cc (sym (ap is_lt (compare.nil-cons c s)) ∙ rs)
late_trans (b ∷ r) [] (d ∷ t) rs st = cc (sym (ap is_lt (compare.nil-cons d t)) ∙ st)
late_trans (b ∷ r) (c ∷ s) (d ∷ t) rs st = rw (lt-cons b d r t) (
    heads (code b) (code c) (code d) (is_lt (compare r s)) (is_lt (compare s t))
      (is_lt (compare r t)) (late_trans r s t) (rw (lt-cons b c r s) at rs)
      (rw (lt-cons c d s t) at st))

heads_asym :
    (a b : ℕ) (x y : Bool)
    → (x ≡ true → y ≡ false)
    → (ltb a b || eqb a b && x) ≡ true
    → (ltb b a || eqb b a && y) ≡ false
heads_asym a b x y rest ab = ground (arith, rest)

-- Of two texts, not each is before the other.
pub lt_asym : (s t : String) → is_lt (compare s t) ≡ true → is_lt (compare t s) ≡ false
lt_asym s [] st = last s st
  where
    last : (s : String) → is_lt (compare s []) ≡ true → is_lt (compare [] s) ≡ false
    last [] h = ap is_lt compare.nil-nil
    last (b ∷ r) h = cc (sym (ap is_lt (compare.cons-nil b r)) ∙ h)
lt_asym [] (d ∷ t) st = ap is_lt (compare.cons-nil d t)
lt_asym (c ∷ s) (d ∷ t) st = rw (lt-cons d c t s) (
    heads_asym (code c) (code d) (is_lt (compare s t)) (is_lt (compare t s)) (lt_asym s t)
      (rw (lt-cons c d s t) at st))
