-- ===== src/Prelude/Results.antt =====
-- `TreeRingResult`, its errors (crates/tree-ring-memory-core/src/models.rs) and its `?` as a
-- monad, with the inversion lemmas that proofs about chains of checks use.
use Prim.Native.String.{String}
use mathlib.Core.Path.{◌≡◌, refl}
use mathlib.Core.Logic.{◌⊎◌, inl, inr}
use mathlib.Core.Bool.{Bool, true, false}

pub data TreeRingError : Type 0 where
  validation : String → TreeRingError
  sensitive_memory_blocked : TreeRingError
  authorization_denied : String → TreeRingError
  storage_locked : String → TreeRingError
  storage : String → TreeRingError
  json : String → TreeRingError

pub data Result {ℓ} (Value : Type ℓ) : Type ℓ where
  ok : Value → Result Value
  err : TreeRingError → Result Value

-- `if !test { return Err(error); }`
abbrev pub ensure : Bool → TreeRingError → Result (Unit {0})
ensure false error = err error
ensure true error = ok tt

pub ensure-ok : (test : Bool) (error : TreeRingError) → test ≡ true → ensure test error ≡ ok tt
ensure-ok false error passes = cc
ensure-ok true error passes = refl

pub ensure-eq-ok : (test : Bool) (error : TreeRingError) → ensure test error ≡ ok tt → test ≡ true
ensure-eq-ok false error passes = cc
ensure-eq-ok true error passes = refl

pub ok-injective {ℓ} : {Value : Type ℓ} {x y : Value} → ok x ≡ ok y → x ≡ y
ok-injective same = cc

pub Result-cases {ℓ} :
    {Value : Type ℓ} (r : Result Value)
    → ((x : Value) × (r ≡ ok x)) ⊎ ((error : TreeRingError) × (r ≡ err error))
Result-cases (err error) = inr (error, refl)
Result-cases (ok x) = inl (x, refl)

-- The `?` that passes a value on, and the one whose value is not used.
module _ {ℓ κ} {Value : Type ℓ} {Next : Type κ} where
  infixl 5 ◌>>=◌
  abbrev pub ◌>>=◌ : Result Value → (Value → Result Next) → Result Next
  err error >>= next = err error
  ok x >>= next = next x

  pub >>=-eq-ok :
      (first : Result Value) (next : Value → Result Next) {y : Next}
      → (first >>= next) ≡ ok y
      → (x : Value) × (first ≡ ok x) × (next x ≡ ok y)
  >>=-eq-ok (err error) next passes = cc
  >>=-eq-ok (ok x) next passes = (x, refl, passes)

module _ {ℓ} {Next : Type ℓ} where
  infixl 5 ◌>>◌
  abbrev pub ◌>>◌ : Result (Unit {0}) → Result Next → Result Next
  check >> rest = check >>= λ _. rest

  pub >>-eq-ok :
      (check : Result (Unit {0})) (rest : Result Next) {y : Next}
      → (check >> rest) ≡ ok y
      → (check ≡ ok tt) × (rest ≡ ok y)
  >>-eq-ok (err error) rest passes = cc
  >>-eq-ok (ok tt) rest passes = (refl, passes)

  pub >>-ok :
      (check : Result (Unit {0})) (rest : Result Next) {y : Next}
      → check ≡ ok tt
      → rest ≡ ok y
      → (check >> rest) ≡ ok y
  >>-ok (err error) rest passes found = cc
  >>-ok (ok tt) rest passes found = found
