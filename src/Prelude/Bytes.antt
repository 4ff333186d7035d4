-- ===== src/Prelude/Bytes.antt =====
-- utils/utils.h, and masks over one byte as arithmetic, checked over all its values.
use Prim.Native.Nat.{ℕ, zero, suc, ◌+◌, ◌-◌, ◌*◌, ◌/◌, ◌%◌, ◌^◌, ◌<◌, bit_and, bit_or}
use mathlib.Core.Path.{◌≡◌, refl}
use mathlib.Core.Bool.{Bool, true, ◌&&◌}
use native.Mathlib.Omega.{arith}
use h2pp.Prelude.Tests.{ltb, ◌==◌, ==_iff, if◌then◌else◌}

abbrev pub IsByte : ℕ → Type 0
IsByte b = b < 256

-- `make_mask<T>(n)` for a T of `w` bits.
unfoldable pub make_mask : ℕ → ℕ → ℕ
make_mask w n = ((if ltb (w - 1) n then 0 else 1) * 2 ^ n + (2 ^ w - 1)) % 2 ^ w

-- Whether a test holds of every number below `n`.
unfoldable pub all_below : ℕ → (ℕ → Bool) → Bool
all_below zero p = true
all_below (suc n) p = p n && all_below n p

pub all_below-true : (n : ℕ) (p : ℕ → Bool) (x : ℕ) → all_below n p ≡ true → x < n → p x ≡ true
unfolding all_below
all_below-true zero p x h lt = absurd (omega arith)
all_below-true (suc n) p x h lt = ground (arith, all_below-true n p x)

-- Two functions that agree below `n` by evaluation.
pub agree_below :
    (n : ℕ) (f g : ℕ → ℕ) → all_below n (λ x. f x == g x) ≡ true → (x : ℕ) → x < n → f x ≡ g x
agree_below n f g t x h = (==_iff (f x) (g x)).0 (all_below-true n _ x t h)

pub and_0x7f : (x : ℕ) → x < 256 → bit_and x 0x7f ≡ x % 128
unfolding all_below
and_0x7f = agree_below 256 _ _ refl

pub and_0x80 : (x : ℕ) → x < 256 → bit_and x 0x80 ≡ x / 128 * 128
unfolding all_below
and_0x80 = agree_below 256 _ _ refl

pub or_0x80 : (x : ℕ) → x < 128 → bit_or x 0x80 ≡ x + 128
unfolding all_below
or_0x80 = agree_below 128 _ _ refl
