-- ===== src/Hpack/EncoderStream/Pack/Ready.antt =====
-- The bytes that `encode_string` of lib/hpack/encoder_stream.cpp takes off `val`, in the loop and behind it.
use h2pp.Prelude.{
  ℕ, zero, suc, ◌+◌, ◌-◌, ◌*◌, ◌/◌, ◌%◌, ◌^◌, ◌<◌, ◌≤◌, List, [], ◌∷◌, ◌++◌, append_assoc, Bool,
  true, false, Bool-cases, ◌&&◌, ◌≡◌, inl, inr, refl, sym, ap, ◌∙◌, length, length-append,
  length-take, length-drop, length-replicate, take, drop, replicate, take-append-drop, bit_or, ltb,
  leb, arith,
}
use h2pp.Prelude.Bytes.{IsByte, make_mask, all_below, all_below-true, agree_below}
use h2pp.Prelude.Bits.{value, bits, be_bytes, length-be_bytes}
use h2pp.Utils.Streambuf.{ceil_order2}
use h2pp.Hpack.Huffman.Codes.{HuffmanCode, huffman_table}
use h2pp.Hpack.Huffman.{encode}
use h2pp.Hpack.EncoderStream.{code_of, tail_bytes, ready}
use h2pp.Hpack.EncoderStream.Pack.{padding, bits_of_take, front_bits, filled_bits}

-- What the table has of the codes of the bytes.
abbrev code_test : HuffmanCode → Bool
code_test c =
    leb c.bit_length 30
    && (ltb 4 c.bit_length && ltb (c.huffman_code / 2 ^ (32 - c.bit_length)) (2 ^ c.bit_length))

code_tests : all_below 256 (λ b. code_test (code_of (encode b))) ≡ true
unfolding all_below encode huffman_table
code_tests = refl

pub record Fits (c : HuffmanCode) : Type 0 where
  pub short : c.bit_length ≤ 30
  pub long : 4 < c.bit_length
  pub small : c.huffman_code / 2 ^ (32 - c.bit_length) < 2 ^ c.bit_length

Fits-of_test : (c : HuffmanCode) → code_test c ≡ true → Fits c
Fits-of_test c h = record { short = ground arith; long = ground arith; small = ground arith }

pub code-Fits : (b : ℕ) → IsByte b → Fits (code_of (encode b))
code-Fits b h =
    Fits-of_test (code_of (encode b))
      (all_below-true 256 (λ k. code_test (code_of (encode k))) b code_tests h)

whole_bytes : (len : ℕ) → len < 65 → ceil_order2 len 3 / 8 ≡ (len + 7) / 8
unfolding all_below ceil_order2 make_mask
whole_bytes = agree_below 65 (λ len. ceil_order2 len 3 / 8) (λ len. (len + 7) / 8) refl

ones : (n : ℕ) → n < 64 → make_mask 64 n ≡ 2 ^ n - 1
unfolding all_below make_mask
ones = agree_below 64 (make_mask 64) (λ n. 2 ^ n - 1) refl

replicate-append : (m n : ℕ) → replicate (m + n) true ≡ replicate m true ++ replicate n true
replicate-append zero n = ap (λ k. replicate k true) zero_add
  where
    zero_add : 0 + n ≡ n
    zero_add = omega arith
replicate-append (suc m) n =
    ap (λ k. replicate k true) suc_add ∙ ap (◌∷◌ true) (replicate-append m n)
  where
    suc_add : suc m + n ≡ suc (m + n)
    suc_add = omega arith

pub tail-bits :
    (xs ys : List Bool) (len : ℕ)
    → length ys ≡ len
    → length xs + length ys ≡ 64
    → bits (tail_bytes (value (xs ++ ys)) len) ≡ ys ++ padding len
unfolding tail_bytes bits
tail-bits xs [] len of_len total = rw (none_left) refl
  where
    none_left : len ≡ 0
    none_left = omega (arith, of_len)
tail-bits xs (y ∷ ys) len of_len total =
    rw (positive, sym at_front, ones (length xs) few, whole_bytes len fits)
      (bits_of_take ((len + 7) / 8) (be_bytes 8 filled) ((y ∷ ys) ++ padding len)
        (replicate rest true)
        (filled_bits xs (y ∷ ys) total
          ∙ ap (λ t. (y ∷ ys) ++ t)
              (ap (λ k. replicate k true) padded ∙ replicate-append ((8 - len % 8) % 8) rest)
          ∙ sym (append_assoc (y ∷ ys) (padding len) (replicate rest true)))
        (omega (
          arith,
          of_len,
          length-append (y ∷ ys) (padding len),
          length-replicate ((8 - len % 8) % 8) true,
        ))
        (omega (arith, length-be_bytes 8 filled, fits)))
  where
    filled : ℕ
    filled = bit_or (value (xs ++ (y ∷ ys)) * 2 ^ length xs % 2 ^ 64) (2 ^ length xs - 1)

    rest : ℕ
    rest = length xs - (8 - len % 8) % 8

    fits : len < 65
    fits = omega (arith, of_len, total)

    few : length xs < 64
    few = omega (arith, total)

    at_front : length xs ≡ 64 - len
    at_front = omega (arith, total, of_len)

    padded : length xs ≡ (8 - len % 8) % 8 + rest
    padded = omega (arith, total, of_len)

    positive : ltb 0 len ≡ true
    positive = ground (arith, of_len)

-- The bits that are pushed, and those that stay.
pub record Split (ys : List Bool) (pushed : List ℕ) (len l : ℕ) : Type 0 where
  pub out : List Bool
  pub stay : List Bool
  pub parts : ys ≡ out ++ stay
  pub bits_out : bits pushed ≡ out
  pub at_stay : length stay ≡ len
  pub room : len + l ≤ 64

pub ready-Split :
    (xs ys : List Bool) (len l : ℕ)
    → length ys ≡ len
    → length xs + length ys ≡ 64
    → l ≤ 30
    → Split ys (ready (value (xs ++ ys)) len l).0 (ready (value (xs ++ ys)) len l).1 l
unfolding ready bits
ready-Split xs ys len l of_len total short = elim (Bool-cases (ltb (64 - len) l)) [
  | inl full ↦ ready-full full
  | inr fits ↦ rw (fits) (record {
    out = [];
    stay = ys;
    parts = refl;
    bits_out = refl;
    at_stay = of_len;
    room = ground arith;
  })
]
  where
    n : ℕ
    n = len / 8

    at_front : length xs ≡ 64 - len
    at_front = omega (arith, total, of_len)

    word : ℕ
    word = value (xs ++ ys) * 2 ^ length xs % 2 ^ 64

    front : bits (take n (be_bytes 8 word)) ≡ take (8 * n) ys
    front =
        bits_of_take n (be_bytes 8 word) (take (8 * n) ys)
          (drop (8 * n) ys ++ replicate (length xs) false)
          (front_bits xs ys total
            ∙ ap (λ t. t ++ replicate (length xs) false) (sym (take-append-drop (8 * n) ys))
            ∙ append_assoc (take (8 * n) ys) (drop (8 * n) ys) (replicate (length xs) false))
          (omega (arith, length-take (8 * n) ys, of_len))
          (omega (arith, length-be_bytes 8 word, of_len, total))

    ready-full :
        ltb (64 - len) l ≡ true
        → Split ys (ready (value (xs ++ ys)) len l).0 (ready (value (xs ++ ys)) len l).1 l
    ready-full full =
        rw (full, sym at_front)
          (record {
            out = take (8 * n) ys;
            stay = drop (8 * n) ys;
            parts = sym (take-append-drop (8 * n) ys);
            bits_out = front;
            at_stay = omega (arith, length-drop (8 * n) ys, of_len);
            room = omega (arith, short);
          })
