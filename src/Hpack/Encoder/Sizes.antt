-- ===== src/Hpack/Encoder/Sizes.antt =====
-- `estimate_string_size` of lib/hpack/encoder.cpp against what the encoder_stream stores.
use h2pp.Prelude.{
  ℕ, ◌+◌, ◌-◌, ◌*◌, ◌/◌, ◌%◌, ◌^◌, ◌<◌, ◌≤◌, List, [], ◌∷◌, Bool, true, false, ◌&&◌, ◌||◌, Option,
  none, some, ◌≡◌, refl, sym, ap, ◌∙◌, length, length-append, length-replicate, All, bit_and, ltb,
  leb, if◌then◌else◌, arith,
}
use h2pp.Prelude.Bytes.{IsByte, make_mask, all_below, all_below-true}
use h2pp.Prelude.Bits.{length-bits, length-word_bits}
use h2pp.Prelude.Bits.Masks.{bit_and_ones, bit_and_shifted}
use h2pp.Utils.Streambuf.{ceil_order2}
use h2pp.Hpack.Huffman.{encode, bits_of, estimate_len}
use h2pp.Hpack.Huffman.Codes.{HuffmanCode, huffman_table}
use h2pp.Hpack.EncoderStream.{code_of, encode_string, StringFlag, inplace, encoded}
use h2pp.Hpack.EncoderStream.Pack.{code_bits, text_bits, padding}
use h2pp.Hpack.EncoderStream.Pack.Loop.{encode_string-bits}
use h2pp.Hpack.Encoder.{EncoderConfig, estimate_string_size}

ceil_order2_bytes : (v : ℕ) → v < 2 ^ 63 → ceil_order2 v 3 / 8 ≡ (v + 7) / 8
unfolding ceil_order2 make_mask
ceil_order2_bytes v h = omega (arith, parts, ap (λ (x : ℕ). bit_and x (2 ^ 64 - 8)) whole, low)
  where
    q : ℕ
    q = (v + 7) / 8

    whole : q * 2 ^ 3 + (v + 7) % 8 ≡ (v + 7) % 2 ^ 64
    whole = omega (arith, h)

    parts :
        bit_and (q * 2 ^ 3 + (v + 7) % 8) ((2 ^ 61 - 1) * 2 ^ 3) ≡ bit_and q (2 ^ 61 - 1) * 2 ^ 3
    parts = bit_and_shifted 3 q ((v + 7) % 8) (2 ^ 61 - 1) (omega arith)

    low : bit_and q (2 ^ 61 - 1) ≡ q
    low =
        ap (λ (x : ℕ). bit_and x (2 ^ 61 - 1)) (no_high q) ∙ bit_and_ones 61 0 q (omega (arith, h))
      where
        no_high : (q : ℕ) → q ≡ 0 * 2 ^ 61 + q
        no_high q = omega arith

bits_of-code : (o : Option HuffmanCode) → bits_of o ≡ (code_of o).bit_length
bits_of-code none = refl
bits_of-code (some c) = refl

short_codes : all_below 256 (λ b. leb (bits_of (encode b)) 30) ≡ true
unfolding all_below encode huffman_table
short_codes = refl

-- The length that is estimated is the number of bits of the codes.
length-text_bits : (src : List ℕ) → length (text_bits src) ≡ estimate_len src
unfolding text_bits estimate_len code_bits
length-text_bits [] = refl
length-text_bits (b ∷ src) = omega (
  arith,
  length-append (code_bits (code_of (encode b))) (text_bits src),
  length-text_bits src,
  length-word_bits (code_of (encode b)).bit_length
      ((code_of (encode b)).huffman_code / 2 ^ (32 - (code_of (encode b)).bit_length)),
  bits_of-code (encode b),
)

estimate_len-le : (src : List ℕ) → All IsByte src → estimate_len src ≤ 30 * length src
unfolding estimate_len
estimate_len-le [] all = omega arith
estimate_len-le (b ∷ src) (h, all) = ground (
  arith,
  all_below-true 256 (λ k. leb (bits_of (encode k)) 30) b short_codes h,
  estimate_len-le src all,
)

-- The Huffman form of fewer than 2 ^ 32 bits is as long as the estimate.
pub length-encode_string :
    (src : List ℕ)
    → All IsByte src
    → length src < 2 ^ 25
    → length (encode_string src) ≡ ceil_order2 (estimate_len src) 3 / 8 % 2 ^ 32
length-encode_string src all h = omega (
  arith,
  ceil_order2_bytes (estimate_len src) (omega (arith, few, h)),
  few,
  length-text_bits src,
  length-bits (encode_string src),
  ap length (encode_string-bits src all),
  length-append (text_bits src) (padding (length (text_bits src))),
  length-replicate ((8 - length (text_bits src) % 8) % 8) true,
)
  where
    few : estimate_len src ≤ 30 * length src
    few = estimate_len-le src all

-- The bytes of a string as `write_string` stores it behind its size.
abbrev pub payload : StringFlag → List ℕ → List ℕ
payload inplace src = src
payload encoded src = encode_string src

-- `estimate_string_size` gives the number of bytes that `write_string` stores for the flag that it
-- chooses, and never more bytes than the string has.
pub estimate_string_size-payload :
    (config : EncoderConfig) (src : List ℕ)
    → All IsByte src
    → length src < 2 ^ 25
    → ((estimate_string_size config src).0
        ≡ length (payload (estimate_string_size config src).1 src))
      × ((estimate_string_size config src).0 ≤ length src)
unfolding estimate_string_size
estimate_string_size-payload config src all h =
    chosen
      (ltb (ceil_order2 (estimate_len src) 3 / 8 % 2 ^ 32) (length src)
        && (ltb (length src) 10
            || leb (100 * (ceil_order2 (estimate_len src) 3 / 8 % 2 ^ 32) / length src)
                config.min_huffman_rate))
      (ceil_order2 (estimate_len src) 3 / 8 % 2 ^ 32, encoded) (length src % 2 ^ 32, inplace)
      (λ e. (sym (length-encode_string src all h), ground (arith, e)))
      (omega (arith, h), omega arith)
  where
    chosen :
        (t : Bool) (x y : ℕ × StringFlag)
        → (t ≡ true → (x.0 ≡ length (payload x.1 src)) × (x.0 ≤ length src))
        → (y.0 ≡ length (payload y.1 src)) × (y.0 ≤ length src)
        → ((if t then x else y).0 ≡ length (payload (if t then x else y).1 src))
          × ((if t then x else y).0 ≤ length src)
    chosen true x y h k = h refl
    chosen false x y h k = k
