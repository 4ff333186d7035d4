-- ===== src/Prelude/Bits/Masks.antt =====
-- `&` with a mask and `|` behind a shift, as cuts of a list of bits.
use Prim.Native.Nat.{min, max, digits, bit_and-bitwise, bit_or-bitwise}
use h2pp.Prelude.{
  ℕ, zero, suc, ◌+◌, ◌-◌, ◌*◌, ◌/◌, ◌%◌, ◌^◌, ◌<◌, ◌≤◌, ◌≡◌, refl, sym, ap, ◌∙◌, bit_and, bit_or,
  arith,
}
use h2pp.Prelude.Bits.{pow_suc, pow_pos}

-- The law for the lowest digit of each operation, from the digit recursion that it stands for.
digits_fuel :
    (rest : ℕ → ℕ) (op : ℕ → ℕ → ℕ) (n m a b : ℕ)
    → a ≤ n
    → a ≤ m
    → digits rest op n a b ≡ digits rest op m a b
digits_fuel rest op zero zero a b p q = refl
digits_fuel rest op zero (suc m) zero b p q = refl
digits_fuel rest op zero (suc m) (suc a) b p q = absurd (omega arith)
digits_fuel rest op (suc n) zero zero b p q = refl
digits_fuel rest op (suc n) zero (suc a) b p q = absurd (omega arith)
digits_fuel rest op (suc n) (suc m) zero b p q = refl
digits_fuel rest op (suc n) (suc m) (suc a) b p q =
    omega (arith, digits_fuel rest op n m (suc a / 2) (b / 2) (omega arith) (omega arith))

zero-bit_and : (b : ℕ) → bit_and 0 b ≡ 0
zero-bit_and b = bit_and-bitwise 0 b

zero-bit_or : (b : ℕ) → bit_or 0 b ≡ b
zero-bit_or b = bit_or-bitwise 0 b

and_digit : (a b : ℕ) → bit_and a b ≡ bit_and (a / 2) (b / 2) * 2 + min (a % 2) (b % 2)
and_digit zero b = omega (arith, zero-bit_and b, zero-bit_and (b / 2))
and_digit (suc a) b = omega (
  arith,
  bit_and-bitwise (suc a) b,
  bit_and-bitwise (suc a / 2) (b / 2),
  digits_fuel (λ b. zero) min a (suc a / 2) (suc a / 2) (b / 2) (omega arith) (omega arith),
)

or_digit : (a b : ℕ) → bit_or a b ≡ bit_or (a / 2) (b / 2) * 2 + max (a % 2) (b % 2)
or_digit zero b = omega (arith, zero-bit_or b, zero-bit_or (b / 2))
or_digit (suc a) b = omega (
  arith,
  bit_or-bitwise (suc a) b,
  bit_or-bitwise (suc a / 2) (b / 2),
  digits_fuel (λ b. b) max a (suc a / 2) (suc a / 2) (b / 2) (omega arith) (omega arith),
)

bit_and-zero : (n a : ℕ) → a ≤ n → bit_and a 0 ≡ 0
bit_and-zero n zero h = zero-bit_and 0
bit_and-zero zero (suc a) h = absurd (omega arith)
bit_and-zero (suc n) (suc a) h =
    omega (arith, and_digit (suc a) 0, bit_and-zero n (suc a / 2) (omega arith))

bit_or-zero : (n a : ℕ) → a ≤ n → bit_or a 0 ≡ a
bit_or-zero n zero h = zero-bit_or 0
bit_or-zero zero (suc a) h = absurd (omega arith)
bit_or-zero (suc n) (suc a) h =
    omega (arith, or_digit (suc a) 0, bit_or-zero n (suc a / 2) (omega arith))

half : (a a' r : ℕ) → a ≡ 2 * a' + r → r < 2 → a / 2 ≡ a'
half a a' r e h = omega (arith, e)

low : (a a' r : ℕ) → a ≡ 2 * a' + r → r < 2 → a % 2 ≡ r
low a a' r e h = omega (arith, e)

and_halves :
    (a b a' b' r s : ℕ)
    → a ≡ 2 * a' + r
    → r < 2
    → b ≡ 2 * b' + s
    → s < 2
    → bit_and a b ≡ bit_and a' b' * 2 + min r s
and_halves a b a' b' r s ea hr eb hs =
    and_digit a b
    ∙ rw (half a a' r ea hr, half b b' s eb hs, low a a' r ea hr, low b b' s eb hs) refl

or_halves :
    (a b a' b' r s : ℕ)
    → a ≡ 2 * a' + r
    → r < 2
    → b ≡ 2 * b' + s
    → s < 2
    → bit_or a b ≡ bit_or a' b' * 2 + max r s
or_halves a b a' b' r s ea hr eb hs =
    or_digit a b
    ∙ rw (half a a' r ea hr, half b b' s eb hs, low a a' r ea hr, low b b' s eb hs) refl

double : (x n : ℕ) → x * 2 ^ suc n ≡ 2 * (x * 2 ^ n)
double x n = ap (λ (t : ℕ). x * t) (pow_suc n) ∙ swap x (2 ^ n)
  where
    swap : (x t : ℕ) → x * (2 * t) ≡ 2 * (x * t)
    swap x t = grind arith

-- A mask of ones takes the low bits.
pub bit_and_ones : (n x m : ℕ) → m < 2 ^ n → bit_and (x * 2 ^ n + m) (2 ^ n - 1) ≡ m
bit_and_ones zero x m h = omega (arith, bit_and-zero (x * 1 + m) (x * 1 + m) (omega arith))
bit_and_ones (suc n) x m h = omega (
  arith,
  and_halves (x * 2 ^ suc n + m) (2 ^ suc n - 1) (x * 2 ^ n + m / 2) (2 ^ n - 1) (m % 2) 1
      (omega (arith, double x n)) (omega arith) (omega (arith, pow_suc n, pow_pos n)) (omega arith),
  bit_and_ones n x (m / 2) (omega (arith, pow_suc n)),
)

-- The low bits play no part under a mask that is shifted.
pub bit_and_shifted :
    (g x q m : ℕ) → q < 2 ^ g → bit_and (x * 2 ^ g + q) (m * 2 ^ g) ≡ bit_and x m * 2 ^ g
bit_and_shifted zero x q m h = zero_shift x q m (omega (arith, h))
  where
    zero_shift : (x q m : ℕ) → q ≡ 0 → bit_and (x * 1 + q) (m * 1) ≡ bit_and x m * 1
    zero_shift x q m e = rw (plain x q e, times m) (sym (times (bit_and x m)))
      where
        plain : (x q : ℕ) → q ≡ 0 → x * 1 + q ≡ x
        plain x q e = omega (arith, e)

        times : (m : ℕ) → m * 1 ≡ m
        times m = omega arith
bit_and_shifted (suc g) x q m h = omega (
  arith,
  and_halves (x * 2 ^ suc g + q) (m * 2 ^ suc g) (x * 2 ^ g + q / 2) (m * 2 ^ g) (q % 2) 0
      (omega (arith, double x g)) (omega arith) (omega (arith, double m g)) (omega arith),
  bit_and_shifted g x (q / 2) m (omega (arith, pow_suc g)),
  double (bit_and x m) g,
)

-- Low bits are added to a number that is shifted.
pub bit_or_shifted : (g x q : ℕ) → q < 2 ^ g → bit_or (x * 2 ^ g) q ≡ x * 2 ^ g + q
bit_or_shifted zero x q h =
    omega (arith, ap (bit_or (x * 1)) (zero_q h), bit_or-zero (x * 1) (x * 1) (omega arith))
  where
    zero_q : {q : ℕ} → q < 1 → q ≡ 0
    zero_q h = omega arith
bit_or_shifted (suc g) x q h = omega (
  arith,
  or_halves (x * 2 ^ suc g) q (x * 2 ^ g) (q / 2) 0 (q % 2) (omega (arith, double x g))
      (omega arith) (omega arith) (omega arith),
  bit_or_shifted g x (q / 2) (omega (arith, pow_suc g)),
  double x g,
)
