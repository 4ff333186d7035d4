-- ===== src/Hpack/EncoderStream/Pack.antt =====
-- `encode_string` of lib/hpack/encoder_stream.cpp against the bits of the codes, one after another.
pub mod Loop
pub mod Ready
pub mod Pushed
use h2pp.Prelude.{
  ℕ, zero, suc, ◌+◌, ◌-◌, ◌*◌, ◌/◌, ◌%◌, ◌^◌, ◌<◌, ◌≤◌, List, [], ◌∷◌, ◌++◌, append_assoc,
  append-nil, Bool, true, false, Bool-cases, Option, none, some, ◌≡◌, ◌⊎◌, inl, inr, refl, sym, ap,
  subst, ◌∙◌, length, length-append, length-take, length-drop, length-replicate, take, drop,
  replicate, take-append-drop, All, bit_or, bit_and, ltb, leb, ◌==◌, ==_iff, if◌then◌else◌, arith,
}
use h2pp.Prelude.Bytes.{IsByte, make_mask, all_below, all_below-true}
use h2pp.Prelude.Bits.{
  value, bits, be_bytes, value-lt, value-append, value-injective, bits-append, length-bits,
  length-be_bytes, bits-be_bytes, pow_add, pow_pos, pow_suc, cut, word_bits, length-word_bits,
  value-word_bits, head_eq, tail_eq,
}
use h2pp.Prelude.Bits.Masks.{bit_or_shifted}
use h2pp.Utils.Streambuf.{ceil_order2}
use h2pp.Hpack.Huffman.Codes.{HuffmanCode}
use h2pp.Hpack.Huffman.{encode}
use h2pp.Hpack.EncoderStream.{code_of, tail_bytes, ready, encode_loop, encode_string}

-- The bits of a code, and of the codes of a text.
unfoldable pub code_bits : HuffmanCode → List Bool
code_bits c = word_bits c.bit_length (c.huffman_code / 2 ^ (32 - c.bit_length))

unfoldable pub text_bits : List ℕ → List Bool
text_bits [] = []
text_bits (b ∷ bs) = code_bits (code_of (encode b)) ++ text_bits bs

-- The ones that fill up the last byte.
abbrev pub padding : ℕ → List Bool
padding n = replicate ((8 - n % 8) % 8) true

-- Lists with fronts of one length.
pub front_eq {ℓ} :
    {A : Type ℓ} (xs ys zs ws : List A)
    → xs ++ ys ≡ zs ++ ws
    → length xs ≡ length zs
    → (xs ≡ zs) × (ys ≡ ws)
front_eq [] ys [] ws e h = (refl, e)
front_eq [] ys (z ∷ zs) ws e h = absurd (omega (arith, h))
front_eq (x ∷ xs) ys [] ws e h = absurd (omega (arith, h))
front_eq (x ∷ xs) ys (z ∷ zs) ws e h =
    let (fronts, backs) = front_eq xs ys zs ws (tail_eq e) (omega (arith, h)) in
    (ap (λ a. a ∷ xs) (head_eq e) ∙ ap (◌∷◌ z) fronts, backs)

pub bits_of_take :
    (n : ℕ) (bytes : List ℕ) (xs ys : List Bool)
    → bits bytes ≡ xs ++ ys
    → length xs ≡ 8 * n
    → n ≤ length bytes
    → bits (take n bytes) ≡ xs
bits_of_take n bytes xs ys e len fits =
    (front_eq (bits (take n bytes)) (bits (drop n bytes)) xs ys
      (sym (bits-append (take n bytes) (drop n bytes)) ∙ ap bits (take-append-drop n bytes) ∙ e)
      (omega (arith, length-bits (take n bytes), length-take n bytes, len))).0

pub value-ones : (n : ℕ) → value (replicate n true) ≡ 2 ^ n - 1
unfolding value
value-ones zero = refl
value-ones (suc n) = omega (
  arith,
  value-ones n,
  length-replicate n true,
  ap (λ (k : ℕ). 2 ^ k) (length-replicate n true),
  pow_suc n,
  pow_pos n,
)

value-zeros : (n : ℕ) → value (replicate n false) ≡ 0
unfolding value
value-zeros zero = refl
value-zeros (suc n) = omega (arith, value-zeros n)

-- A word of 64 bits shifted to the left loses its first bits.
shifted_out :
    (xs ys : List Bool)
    → length xs + length ys ≡ 64
    → value (xs ++ ys) * 2 ^ length xs % 2 ^ 64 ≡ value ys * 2 ^ length xs
shifted_out xs ys len = omega (arith, product, small)
  where
    whole : length ys + length xs ≡ 64
    whole = omega (arith, len)

    all_bits : 2 ^ length ys * 2 ^ length xs ≡ 2 ^ 64
    all_bits = sym (pow_add (length ys) (length xs)) ∙ ap (λ (k : ℕ). 2 ^ k) whole

    product : value (xs ++ ys) * 2 ^ length xs ≡ value xs * 2 ^ 64 + value ys * 2 ^ length xs
    product =
        ap (λ (t : ℕ). t * 2 ^ length xs) (value-append xs ys)
        ∙ expand (value xs) (2 ^ length ys) (value ys) (2 ^ length xs)
        ∙ ap (λ (t : ℕ). value xs * t + value ys * 2 ^ length xs) all_bits
      where
        expand : (a b c d : ℕ) → (a * b + c) * d ≡ a * (b * d) + c * d
        expand a b c d = grind arith

    small : value ys * 2 ^ length xs < 2 ^ 64
    small =
        subst (λ (t : ℕ). value ys * 2 ^ length xs < t) all_bits
          (times (value ys) (2 ^ length ys) (2 ^ length xs) (value-lt ys) (pow_pos (length xs)))
      where
        times : (a b c : ℕ) → a < b → 0 < c → a * c < b * c
        times a b c h k = grind arith

-- A code's bits are appended to the bits that stay.
pub appended :
    (xs ys : List Bool) (l c : ℕ)
    → length xs + length ys ≡ 64
    → length xs ≡ l
    → c < 2 ^ l
    → bit_or (value (xs ++ ys) * 2 ^ l % 2 ^ 64) c ≡ value (ys ++ word_bits l c)
appended xs ys l c len of_l small =
    ap (λ (t : ℕ). bit_or t c)
      (subst (λ (k : ℕ). value (xs ++ ys) * 2 ^ k % 2 ^ 64 ≡ value ys * 2 ^ k) of_l
        (shifted_out xs ys len))
    ∙ bit_or_shifted l (value ys) c small
    ∙ sym (
        value-append ys (word_bits l c) ∙ rw (length-word_bits l c, value-word_bits l c small) refl)

-- The bits in use, moved to the front of the word and filled up.
pub front_bits :
    (xs ys : List Bool)
    → length xs + length ys ≡ 64
    → bits (be_bytes 8 (value (xs ++ ys) * 2 ^ length xs % 2 ^ 64))
      ≡ ys ++ replicate (length xs) false
front_bits xs ys len =
    ap (λ (v : ℕ). bits (be_bytes 8 v))
      (shifted_out xs ys len
        ∙ sym (
            value-append ys (replicate (length xs) false)
            ∙ rw (length-replicate (length xs) false, value-zeros (length xs)) (omega arith)))
    ∙ bits-be_bytes 8 (ys ++ replicate (length xs) false) (
        omega (
          arith,
          length-append ys (replicate (length xs) false),
          length-replicate (length xs) false,
          len,
        ))

pub filled_bits :
    (xs ys : List Bool)
    → length xs + length ys ≡ 64
    → bits (be_bytes 8 (bit_or (value (xs ++ ys) * 2 ^ length xs % 2 ^ 64) (2 ^ length xs - 1)))
      ≡ ys ++ replicate (length xs) true
filled_bits xs ys len =
    ap (λ (v : ℕ). bits (be_bytes 8 v))
      (ap (λ (t : ℕ). bit_or t (2 ^ length xs - 1)) (shifted_out xs ys len)
        ∙ bit_or_shifted (length xs) (value ys) (2 ^ length xs - 1)
            (omega (arith, pow_pos (length xs)))
        ∙ sym (
            value-append ys (replicate (length xs) true)
            ∙ rw (length-replicate (length xs) true, value-ones (length xs)) refl))
    ∙ bits-be_bytes 8 (ys ++ replicate (length xs) true) (
        omega (
          arith,
          length-append ys (replicate (length xs) true),
          length-replicate (length xs) true,
          len,
        ))
