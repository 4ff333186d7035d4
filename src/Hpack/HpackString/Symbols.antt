-- ===== src/Hpack/HpackString/Symbols.antt =====
-- One symbol of a Huffman string: the lengths that are too short find nothing, and the right one the
-- symbol; the check of the padding takes no symbol for padding.
use h2pp.Prelude.{
  ℕ, ◌+◌, ◌-◌, ◌*◌, ◌/◌, ◌^◌, ◌<◌, ◌≤◌, List, [], ◌∷◌, ◌++◌, append_assoc, Bool, true, Bool-cases,
  ◌&&◌, ◌||◌, none, some, ok, ◌≡◌, inl, inr, refl, sym, ap, subst, ◌∙◌, length, length-take,
  length-drop, take, drop, take-append-drop, All, ltb, ◌==◌, ==_iff, arith,
}
use native.Mathlib.Nat.{mul-add-div_right, div-eq_of_lt}
use h2pp.Prelude.Bytes.{IsByte, all_below, all_below-true}
use h2pp.Prelude.Bits.{
  value, bits, value-lt, value-append, word_bits, length-word_bits, value-word_bits, pow_add,
  pow_pos,
}
use h2pp.Hpack.Bitstream.{Span, take_bits}
use h2pp.Hpack.Bitstream.Take.{take_bits-cut}
use h2pp.Hpack.Huffman.{encode, decode}
use h2pp.Hpack.Huffman.Codes.{HuffmanCode, code, huffman_table}
use h2pp.Hpack.Huffman.Hash.{code_len_array}
use h2pp.Hpack.Huffman.Codec.{
  truncated, no_prefix, no_prefix-missing, is_member, IsCodeOf, encode_total, encode-IsCodeOf,
}
use h2pp.Hpack.EncoderStream.{code_of}
use h2pp.Hpack.EncoderStream.Pack.{code_bits}
use h2pp.Hpack.HpackString.{find_symbol}

quotient : (k t r : ℕ) → r < k → (t * k + r) / k ≡ t
quotient k t r h = omega (arith, mul-add-div_right positive t r, div-eq_of_lt h)
  where
    positive : 0 < k
    positive = omega (arith, h)

-- The first bits of a code are those of its word.
truncated-take :
    (xs : List Bool) (h l len : ℕ)
    → length xs ≡ l
    → l ≤ 32
    → len ≤ l
    → h ≡ value xs * 2 ^ (32 - l)
    → truncated h len ≡ value (take len xs) * 2 ^ (32 - len)
truncated-take xs h l len of_l short less e =
    ap (λ (q : ℕ). q * 2 ^ (32 - len))
      (ap (λ (t : ℕ). t / 2 ^ (32 - len)) parts
        ∙ quotient (2 ^ (32 - len)) (value (take len xs)) (value (drop len xs) * 2 ^ (32 - l))
            small)
  where
    gap : length (drop len xs) + (32 - l) ≡ 32 - len
    gap = omega (arith, length-drop len xs, of_l, less, short)

    whole : 2 ^ length (drop len xs) * 2 ^ (32 - l) ≡ 2 ^ (32 - len)
    whole = sym (pow_add (length (drop len xs)) (32 - l)) ∙ ap (λ (k : ℕ). 2 ^ k) gap

    expand : (a b c d : ℕ) → (a * b + c) * d ≡ a * (b * d) + c * d
    expand a b c d = grind arith

    times : (a b c : ℕ) → a < b → 0 < c → a * c < b * c
    times a b c h k = grind arith

    parts : h ≡ value (take len xs) * 2 ^ (32 - len) + value (drop len xs) * 2 ^ (32 - l)
    parts =
        e
        ∙ ap (λ (t : ℕ). t * 2 ^ (32 - l))
            (ap value (sym (take-append-drop len xs)) ∙ value-append (take len xs) (drop len xs))
        ∙ expand (value (take len xs)) (2 ^ length (drop len xs)) (value (drop len xs))
            (2 ^ (32 - l))
        ∙ ap (λ (t : ℕ). value (take len xs) * t + value (drop len xs) * 2 ^ (32 - l)) whole

    small : value (drop len xs) * 2 ^ (32 - l) < 2 ^ (32 - len)
    small =
        subst (λ (t : ℕ). value (drop len xs) * 2 ^ (32 - l) < t) whole
          (times _ _ _ (value-lt (drop len xs)) (pow_pos (32 - l)))

-- A place in a stream where the code of `c` starts.
pub record At (s : Span) (pos : ℕ) (mid : List Bool) : Type 0 where
  pub front : List Bool
  pub rest : List Bool
  pub parts : bits s.memory ≡ front ++ (mid ++ rest)
  pub bytes : All IsByte s.memory
  pub at_front : length front ≡ 8 * s.first + pos
  pub room_before : 7 ≤ s.first
  pub room_behind : s.first + (pos + length mid) / 8 < length s.memory

-- The code's first bits are read at every length up to its own, of 24 bits at most.
take_bits-prefix :
    (s : Span) (pos : ℕ) (c : HuffmanCode) (v len : ℕ)
    → IsCodeOf c v
    → At s pos (code_bits c)
    → length (code_bits c) ≡ c.bit_length
    → c.bit_length ≤ 24
    → len ≤ c.bit_length
    → c.huffman_code ≡ value (code_bits c) * 2 ^ (32 - c.bit_length)
    → take_bits s pos len ≡ ok (truncated c.huffman_code len)
take_bits-prefix s pos c v len f place of_code short less whole =
    subst (λ n. take_bits s pos n ≡ ok (truncated c.huffman_code len)) of_mid
      (take_bits-cut s pos place.front mid (drop len (code_bits c) ++ place.rest)
          (place.parts
            ∙ ap (λ t. place.front ++ t)
                (ap (λ t. t ++ place.rest) (sym (take-append-drop len (code_bits c)))
                  ∙ append_assoc mid (drop len (code_bits c)) place.rest))
          place.bytes place.at_front (omega (arith, place.room_before))
          (omega (arith, place.room_behind, of_mid, less, of_code))
          (omega (arith, of_mid, less, short))
        ∙ ap ok (
            ap (λ (n : ℕ). value mid * 2 ^ (32 - n)) of_mid
            ∙ sym (
                truncated-take (code_bits c) c.huffman_code c.bit_length len of_code
                  (omega (arith, short)) less whole)))
  where
    mid : List Bool
    mid = take len (code_bits c)

    of_mid : length mid ≡ len
    of_mid = omega (arith, length-take len (code_bits c), of_code, less)

ascending : List ℕ → Bool
ascending [] = true
ascending (x ∷ []) = true
ascending (x ∷ y ∷ ys) = ltb x y && ascending (y ∷ ys)

above_head : (x y : ℕ) (ys : List ℕ) → ascending (x ∷ ys) ≡ true → is_member y ys ≡ true → x < y
unfolding ascending
above_head x y [] a m = cc
above_head x y (z ∷ ys) a m = ground (arith, above_head z y ys)

ascending_tail : (x : ℕ) (xs : List ℕ) → ascending (x ∷ xs) ≡ true → ascending xs ≡ true
unfolding ascending
ascending_tail x [] a = refl
ascending_tail x (y ∷ ys) a = ground arith

module _ (s : Span) (pos len w : ℕ) (lens : List ℕ) (read : take_bits s pos len ≡ ok w) where
  found_step :
      {v : ℕ} → decode (code w len) ≡ some v → find_symbol (len ∷ lens) s pos ≡ ok (some (v, len))
  unfolding find_symbol
  found_step e = rw (read, e) refl

  missing_step :
      decode (code w len) ≡ none → find_symbol (len ∷ lens) s pos ≡ find_symbol lens s pos
  unfolding find_symbol
  missing_step e = rw (read, e) refl

-- What the loop over the lengths finds at a code.
find_symbol-at :
    (lens : List ℕ) (s : Span) (pos : ℕ) (c : HuffmanCode) (v : ℕ)
    → IsCodeOf c v
    → ((len : ℕ) → len ≤ c.bit_length → take_bits s pos len ≡ ok (truncated c.huffman_code len))
    → ascending lens ≡ true
    → no_prefix lens c ≡ true
    → is_member c.bit_length lens ≡ true
    → find_symbol lens s pos ≡ ok (some (v, c.bit_length))
find_symbol-at [] s pos c v f taken sorted missing member = cc
find_symbol-at (len ∷ lens) s pos c v f taken sorted missing member =
    elim (Bool-cases (c.bit_length == len)) [
      | inl same ↦
          subst (λ n. find_symbol (n ∷ lens) s pos ≡ ok (some (v, c.bit_length)))
            ((==_iff _ _).0 same)
            (found_step s pos c.bit_length c.huffman_code lens
              (taken c.bit_length (omega arith) ∙ ap ok f.aligned) f.decodes)
      | inr other ↦
          let deeper : is_member c.bit_length lens ≡ true = ground arith in
          let shorter : len < c.bit_length = above_head len c.bit_length lens sorted deeper in
          missing_step s pos len (truncated c.huffman_code len) lens
            (taken len (omega (arith, shorter)))
            (no_prefix-missing (len ∷ lens) c len missing (ground arith) shorter)
          ∙ find_symbol-at lens s pos c v f taken (ascending_tail len lens sorted) (ground arith)
              deeper
    ]

abbrev code_test : HuffmanCode → Bool
code_test c =
    ltb 0 c.bit_length
    && ((c.huffman_code == c.huffman_code / 2 ^ (32 - c.bit_length) * 2 ^ (32 - c.bit_length))
        && (ltb (c.huffman_code / 2 ^ (32 - c.bit_length)) (2 ^ c.bit_length)
            && (ltb 7 c.bit_length
                || ltb (c.huffman_code / 2 ^ (32 - c.bit_length) + 1) (2 ^ c.bit_length))))

code_tests : all_below 256 (λ b. code_test (code_of (encode b))) ≡ true
unfolding all_below encode huffman_table
code_tests = refl

lens_ascending : ascending code_len_array ≡ true
unfolding ascending code_len_array
lens_ascending = refl

-- What the reader needs of the code of a byte.
pub record Readable (b : ℕ) (c : HuffmanCode) : Type 0 where
  pub code_of_byte : IsCodeOf c b
  pub whole : c.huffman_code ≡ value (code_bits c) * 2 ^ (32 - c.bit_length)
  pub of_code : length (code_bits c) ≡ c.bit_length
  pub no_padding : c.bit_length ≤ 7 → value (code_bits c) + 1 < 2 ^ c.bit_length
  pub some_bits : 0 < c.bit_length

Readable-of_test : (b : ℕ) (c : HuffmanCode) → IsCodeOf c b → code_test c ≡ true → Readable b c
unfolding code_bits
Readable-of_test b c f h = record {
  code_of_byte = f;
  whole = rw (v) (ground arith);
  of_code = length-word_bits c.bit_length (c.huffman_code / 2 ^ (32 - c.bit_length));
  no_padding = λ short. rw (v) (ground arith);
  some_bits = ground arith;
}
  where
    v :
        value (word_bits c.bit_length (c.huffman_code / 2 ^ (32 - c.bit_length)))
        ≡ c.huffman_code / 2 ^ (32 - c.bit_length)
    v = value-word_bits c.bit_length (c.huffman_code / 2 ^ (32 - c.bit_length)) (ground arith)

pub code-Readable : (b : ℕ) → IsByte b → Readable b (code_of (encode b))
code-Readable b h =
    let (c, e) = encode_total b (omega (arith, h)) in
    subst (λ o. Readable b (code_of o)) (sym e)
      (Readable-of_test b c (encode-IsCodeOf b c e) (
        subst (λ o. code_test (code_of o) ≡ true) e
          (all_below-true 256 (λ k. code_test (code_of (encode k))) b code_tests h)))

-- A byte's symbol is found where its code of 24 bits at most stands.
pub find_symbol-code :
    (s : Span) (pos b : ℕ) (c : HuffmanCode)
    → Readable b c
    → c.bit_length ≤ 24
    → At s pos (code_bits c)
    → find_symbol code_len_array s pos ≡ ok (some (b, c.bit_length))
find_symbol-code s pos b c r short place =
    find_symbol-at code_len_array s pos c b f
      (λ len less. take_bits-prefix s pos c b len f place r.of_code short less r.whole)
      lens_ascending f.no_shorter f.allowed
  where
    f : IsCodeOf c b
    f = r.code_of_byte
