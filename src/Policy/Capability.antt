-- ===== src/Policy/Capability.antt =====
-- `constant_time_eq` decides equality of byte strings of one length.
use tree_ring_memory.Prelude.{
  ℕ, zero, suc, ◌/◌, ◌%◌, ◌≤◌, ◌≡◌, refl, sym, ap, ◌∙◌, ◌↔◌, true, List, [], ◌∷◌, arith, length,
}
use tree_ring_memory.Policy.{difference, constant_time_eq}
use Prim.Native.Nat.{bit_or, bit_xor, bit_or-bitwise, bit_xor-bitwise, digits, differ, max}

differ-zero : (x y : ℕ) → differ x y ≡ 0 → x ≡ y
differ-zero zero y h = omega arith
differ-zero (suc x) zero h = absurd (omega arith)
differ-zero (suc x) (suc y) h = ap suc (differ-zero x y h)

differ_self : (x : ℕ) → differ x x ≡ 0
differ_self zero = refl
differ_self (suc x) = differ_self x

max-zero : (x y : ℕ) → max x y ≡ 0 → (x ≡ 0) × (y ≡ 0)
max-zero x y h = (omega arith, omega arith)

or_digits-zero : (n a b : ℕ) → a ≤ n → digits (λ z. z) max n a b ≡ 0 → (a ≡ 0) × (b ≡ 0)
or_digits-zero zero a b l h = (omega arith, h)
or_digits-zero (suc n) zero b l h = (refl, h)
or_digits-zero (suc n) (suc a) b l h =
    let high = or_digits-zero n (suc a / 2) (b / 2) (omega arith) (omega arith) in
    let low = max-zero (suc a % 2) (b % 2) (omega arith) in absurd (omega (arith, high.0, low.0))

xor_digits-zero : (n a b : ℕ) → a ≤ n → digits (λ z. z) differ n a b ≡ 0 → a ≡ b
xor_digits-zero zero a b l h = omega arith
xor_digits-zero (suc n) zero b l h = sym h
xor_digits-zero (suc n) (suc a) b l h =
    let high = xor_digits-zero n (suc a / 2) (b / 2) (omega arith) (omega arith) in
    let low = differ-zero (suc a % 2) (b % 2) (omega arith) in omega (arith, high, low)

xor_digits_self : (n a : ℕ) → a ≤ n → digits (λ z. z) differ n a a ≡ 0
xor_digits_self zero a l = omega arith
xor_digits_self (suc n) zero l = refl
xor_digits_self (suc n) (suc a) l =
    let high = xor_digits_self n (suc a / 2) (omega arith) in
    omega (arith, high, differ_self (suc a % 2))

pub bit_or-zero : (a b : ℕ) → bit_or a b ≡ 0 → (a ≡ 0) × (b ≡ 0)
bit_or-zero a b h = or_digits-zero a a b (omega arith) (sym (bit_or-bitwise a b) ∙ h)

pub bit_xor-zero : (a b : ℕ) → bit_xor a b ≡ 0 → a ≡ b
bit_xor-zero a b h = xor_digits-zero a a b (omega arith) (sym (bit_xor-bitwise a b) ∙ h)

pub bit_xor_self : (a : ℕ) → bit_xor a a ≡ 0
bit_xor_self a = bit_xor-bitwise a a ∙ xor_digits_self a a (omega arith)

difference_self : (xs : List ℕ) → difference 0 xs xs ≡ 0
unfolding difference
difference_self [] = refl
difference_self (x ∷ xs) = rw (bit_xor_self x) (difference_self xs)

difference-zero :
    (d : ℕ) (xs ys : List ℕ) → length xs ≡ length ys → difference d xs ys ≡ 0 → (d ≡ 0) × (xs ≡ ys)
unfolding difference
difference-zero d [] [] l h = (h, refl)
difference-zero d [] (y ∷ ys) l h = absurd (omega arith)
difference-zero d (x ∷ xs) [] l h = absurd (omega arith)
difference-zero d (x ∷ xs) (y ∷ ys) l h =
    let rest = difference-zero (bit_or d (bit_xor x y)) xs ys (omega arith) h in
    let bits = bit_or-zero d (bit_xor x y) rest.0 in (bits.0, cc (bit_xor-zero x y bits.1, rest.1))

-- On byte strings of one length, such as two digests, the test that reads every byte decides
-- equality.
pub constant_time_eq_iff :
    (left right : List ℕ)
    → length left ≡ length right
    → (constant_time_eq left right ≡ true) ↔ (left ≡ right)
unfolding constant_time_eq
constant_time_eq_iff left right l = (
  λ h. (difference-zero 0 left right l (ground arith)).1,
  λ h. rw h (rw (difference_self right) refl),
)
