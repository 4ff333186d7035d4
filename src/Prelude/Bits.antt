-- ===== src/Prelude/Bits.antt =====
-- Words as lists of bits, the most significant first, and the masks of the code on them.
pub mod Masks
use h2pp.Prelude.{
  ℕ, zero, suc, ◌+◌, ◌-◌, ◌*◌, ◌/◌, ◌%◌, ◌^◌, ◌<◌, ◌≤◌, List, [], ◌∷◌, ◌++◌, Bool, true, false, ◌≡◌,
  refl, sym, ap, subst, ◌∙◌, length, length-append, ◌==◌, append_assoc, append-nil, take, drop,
  arith, All,
}
use native.Mathlib.Nat.{pow-succ'}
use h2pp.Prelude.Bytes.{IsByte, all_below, agree_below}

abbrev pub bit : Bool → ℕ
bit false = 0
bit true = 1

-- The number that bits stand for.
unfoldable pub value : List Bool → ℕ
value [] = 0
value (b ∷ bs) = bit b * 2 ^ length bs + value bs

-- The eight bits of a byte.
abbrev pub byte_bits : ℕ → List Bool
byte_bits b =
    (b / 128 % 2 == 1)
    ∷ (b / 64 % 2 == 1)
    ∷ (b / 32 % 2 == 1)
    ∷ (b / 16 % 2 == 1)
    ∷ (b / 8 % 2 == 1)
    ∷ (b / 4 % 2 == 1)
    ∷ (b / 2 % 2 == 1)
    ∷ (b % 2 == 1)
    ∷ []

unfoldable pub bits : List ℕ → List Bool
bits [] = []
bits (b ∷ bs) = byte_bits b ++ bits bs

-- The number that bytes stand for, the most significant first, and the last `n` bytes of a number.
unfoldable pub be_value : List ℕ → ℕ
be_value [] = 0
be_value (b ∷ bs) = b * 2 ^ (8 * length bs) + be_value bs

unfoldable pub be_bytes : ℕ → ℕ → List ℕ
be_bytes zero x = []
be_bytes (suc n) x = be_bytes n (x / 256) ++ (x % 256 ∷ [])

pub pow_suc : (n : ℕ) → 2 ^ suc n ≡ 2 * 2 ^ n
pow_suc n = pow-succ' 2 n

pub pow_add : (m n : ℕ) → 2 ^ (m + n) ≡ 2 ^ m * 2 ^ n
pow_add zero n = omega (arith, ap (λ (k : ℕ). 2 ^ k) (zero_add n))
  where
    zero_add : (n : ℕ) → 0 + n ≡ n
    zero_add n = omega arith
pow_add (suc m) n =
    ap (λ (k : ℕ). 2 ^ k) (suc_add m n) ∙ pow_suc (m + n) ∙ grind (arith, pow_add m n, pow_suc m)
  where
    suc_add : (m n : ℕ) → suc m + n ≡ suc (m + n)
    suc_add m n = omega arith

pub pow_pos : (n : ℕ) → 0 < 2 ^ n
pow_pos zero = omega arith
pow_pos (suc n) = omega (arith, pow_suc n, pow_pos n)

pub value-lt : (bs : List Bool) → value bs < 2 ^ length bs
unfolding value
value-lt [] = omega arith
value-lt (true ∷ bs) = omega (arith, pow_suc (length bs), value-lt bs)
value-lt (false ∷ bs) = omega (arith, pow_suc (length bs), value-lt bs)

pub value-append : (xs ys : List Bool) → value (xs ++ ys) ≡ value xs * 2 ^ length ys + value ys
unfolding value
value-append [] ys = omega arith
value-append (x ∷ xs) ys =
    rw (length-append xs ys, pow_add (length xs) (length ys), value-append xs ys) (grind arith)

tails : {m n : ℕ} → suc m ≡ suc n → m ≡ n
tails e = omega (arith, e)

-- Bits are those of their number.
pub value-injective : (xs ys : List Bool) → length xs ≡ length ys → value xs ≡ value ys → xs ≡ ys
unfolding value
value-injective [] [] n e = refl
value-injective [] (y ∷ ys) n e = absurd (omega (arith, n))
value-injective (x ∷ xs) [] n e = absurd (omega (arith, n))
value-injective (true ∷ xs) (true ∷ ys) n e =
    ap (◌∷◌ true)
      (value-injective xs ys (tails n) (omega (arith, e, ap (λ (k : ℕ). 2 ^ k) (tails n))))
value-injective (true ∷ xs) (false ∷ ys) n e =
    absurd (omega (arith, e, ap (λ (k : ℕ). 2 ^ k) (tails n), value-lt ys))
value-injective (false ∷ xs) (true ∷ ys) n e =
    absurd (omega (arith, e, ap (λ (k : ℕ). 2 ^ k) (tails n), value-lt xs))
value-injective (false ∷ xs) (false ∷ ys) n e =
    ap (◌∷◌ false)
      (value-injective xs ys (tails n) (omega (arith, e, ap (λ (k : ℕ). 2 ^ k) (tails n))))

pub value-byte_bits : (b : ℕ) → b < 256 → value (byte_bits b) ≡ b
unfolding value all_below
value-byte_bits = agree_below 256 (λ b. value (byte_bits b)) (λ b. b) refl

pub length-bits : (bs : List ℕ) → length (bits bs) ≡ 8 * length bs
unfolding bits
length-bits [] = omega arith
length-bits (b ∷ bs) = omega (arith, length-bits bs)

pub bits-append : (xs ys : List ℕ) → bits (xs ++ ys) ≡ bits xs ++ bits ys
unfolding bits
bits-append [] ys = refl
bits-append (x ∷ xs) ys = ap (λ r. byte_bits x ++ r) (bits-append xs ys)

pub value-bits : (bs : List ℕ) → All IsByte bs → value (bits bs) ≡ be_value bs
unfolding bits be_value value
value-bits [] all = refl
value-bits (b ∷ bs) (h, all) =
    value-append (byte_bits b) (bits bs)
    ∙ rw (value-byte_bits b h, length-bits bs, value-bits bs all) refl

pub length-be_bytes : (n x : ℕ) → length (be_bytes n x) ≡ n
unfolding be_bytes
length-be_bytes zero x = refl
length-be_bytes (suc n) x =
    omega (arith, length-append (be_bytes n (x / 256)) (x % 256 ∷ []), length-be_bytes n (x / 256))

value-snoc :
    (n x : ℕ)
    → value (bits (be_bytes n (x / 256))) ≡ x / 256
    → value (bits (be_bytes n (x / 256) ++ (x % 256 ∷ []))) ≡ x
unfolding bits
value-snoc n x e =
    ap value (bits-append (be_bytes n (x / 256)) (x % 256 ∷ []))
    ∙ value-append (bits (be_bytes n (x / 256))) (byte_bits (x % 256) ++ [])
    ∙ rw (e, append-nil (byte_bits (x % 256)), value-byte_bits (x % 256) (omega arith))
        (omega arith)

-- The last bytes of a number that fits them have its value.
pub value-be_bytes : (n x : ℕ) → x < 2 ^ (8 * n) → value (bits (be_bytes n x)) ≡ x
unfolding be_bytes bits value
value-be_bytes zero x h = omega arith
value-be_bytes (suc n) x h =
    value-snoc n x (value-be_bytes n (x / 256) (omega (arith, h', pow_add (8 * n) 8)))
  where
    eight : (n : ℕ) → 8 * suc n ≡ 8 * n + 8
    eight n = omega arith

    h' : x < 2 ^ (8 * n + 8)
    h' = subst (λ (k : ℕ). x < 2 ^ k) (eight n) h

-- A word of whole bytes, written and read bit by bit.
pub bits-be_bytes : (n : ℕ) (xs : List Bool) → length xs ≡ 8 * n → bits (be_bytes n (value xs)) ≡ xs
bits-be_bytes n xs len =
    value-injective (bits (be_bytes n (value xs))) xs
      (omega (arith, length-bits (be_bytes n (value xs)), length-be_bytes n (value xs), len))
      (value-be_bytes n (value xs) (subst (λ (k : ℕ). value xs < 2 ^ k) len (value-lt xs)))

pub head_eq {ℓ} : {A : Type ℓ} {x y : A} {xs ys : List A} → x ∷ xs ≡ y ∷ ys → x ≡ y
head_eq e = cc

pub tail_eq {ℓ} : {A : Type ℓ} {x y : A} {xs ys : List A} → x ∷ xs ≡ y ∷ ys → xs ≡ ys
tail_eq e = cc

-- Two ways to cut a list.
pub cut {ℓ} :
    {A : Type ℓ} (xs ys zs ws : List A)
    → xs ++ ys ≡ zs ++ ws
    → length xs ≤ length zs
    → (t : List A) × (zs ≡ xs ++ t) × (ys ≡ t ++ ws)
cut [] ys zs ws e h = (zs, refl, e)
cut (x ∷ xs) ys [] ws e h = absurd (omega (arith, h))
cut (x ∷ xs) ys (z ∷ zs) ws e h =
    let (t, front, back) = cut xs ys zs ws (tail_eq e) (omega (arith, h)) in
    (t, ap (λ a. a ∷ zs) (sym (head_eq e)) ∙ ap (◌∷◌ x) front, back)

-- The last `n` bits of a number.
unfoldable pub word_bits : ℕ → ℕ → List Bool
word_bits zero x = []
word_bits (suc n) x = word_bits n (x / 2) ++ ((x % 2 == 1) ∷ [])

pub length-word_bits : (n x : ℕ) → length (word_bits n x) ≡ n
unfolding word_bits
length-word_bits zero x = refl
length-word_bits (suc n) x =
    omega
      (arith, length-append (word_bits n (x / 2)) ((x % 2 == 1) ∷ []), length-word_bits n (x / 2))

pub value-word_bits : (n x : ℕ) → x < 2 ^ n → value (word_bits n x) ≡ x
unfolding word_bits value
value-word_bits zero x h = omega arith
value-word_bits (suc n) x h =
    value-append (word_bits n (x / 2)) ((x % 2 == 1) ∷ [])
    ∙ rw (value-word_bits n (x / 2) (omega (arith, pow_suc n))) (ground arith)
