-- ===== src/Prelude/Outcome.antt =====
-- What a C++ call comes to: a value, an exception, or undefined behaviour.
use Prim.Native.Nat.{ℕ}
use mathlib.Core.Path.{◌≡◌, refl}
use mathlib.Core.Bool.{Bool, true, false}

-- The standard exceptions that the library throws, and `boost::system::system_error` with its code.
pub data Exception : Type 0 where
  overflow_error invalid_argument runtime_error length_error : Exception
  system_error : ℕ → Exception

-- `undefined` stands for undefined behaviour: a write or read outside an object, or a shift by
-- at least the width of its operand.
pub data Result {ℓ} (A : Type ℓ) : Type ℓ where
  undefined : Result A
  throw : Exception → Result A
  ok : A → Result A

module _ {ℓ κ} {A : Type ℓ} {B : Type κ} where
  infixl 5 ◌>>=◌
  abbrev pub ◌>>=◌ : Result A → (A → Result B) → Result B
  undefined >>= next = undefined
  throw exception >>= next = throw exception
  ok value >>= next = next value

  -- The first part of a chain that returned.
  pub first_returned :
      {b : B} (next : A → Result B) (first : Result A)
      → (first >>= next) ≡ ok b
      → (value : A) × (first ≡ ok value) × (next value ≡ ok b)
  first_returned next undefined returned = cc
  first_returned next (throw exception) returned = cc
  first_returned next (ok value) returned = (value, refl, returned)

-- `if (!test) throw exception;`
abbrev pub require : Bool → Exception → Result (Unit {0})
require test exception = elim test [ true ↦ ok tt | false ↦ throw exception ]

-- An operation whose behaviour is defined only where the test holds.
abbrev pub defined_if : Bool → Result (Unit {0})
defined_if test = elim test [ true ↦ ok tt | false ↦ undefined ]

pub ok-injective {ℓ} : {A : Type ℓ} {a b : A} → ok a ≡ ok b → a ≡ b
ok-injective e = cc
