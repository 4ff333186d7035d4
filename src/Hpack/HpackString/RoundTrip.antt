-- ===== src/Hpack/HpackString/RoundTrip.antt =====
-- The reader of lib/hpack/string.cpp on what the encoder_stream writes.
use h2pp.Prelude.{
  ℕ, zero, suc, ◌+◌, ◌-◌, ◌*◌, ◌%◌, ◌^◌, ◌<◌, ◌≤◌, List, [], ◌∷◌, ◌++◌, append_assoc, Bool, true,
  false, Bool-cases, some, ok, undefined, ◌≡◌, inl, inr, refl, sym, ap, subst, ◌∙◌, length,
  length-append, length-replicate, replicate, All, leb, ◌==◌, ==_iff, arith,
}
use native.Mathlib.Nat.{mul-le-mul_right}
use h2pp.Prelude.Bytes.{IsByte}
use h2pp.Prelude.Bits.{value, bits, value-lt, value-append, pow_add, pow_pos}
use h2pp.Hpack.Bitstream.{Span, commit_bits}
use h2pp.Hpack.Huffman.{encode, eos}
use h2pp.Hpack.Huffman.Codes.{HuffmanCode}
use h2pp.Hpack.Huffman.Hash.{code_len_array}
use h2pp.Hpack.EncoderStream.{code_of}
use h2pp.Hpack.EncoderStream.Pack.{code_bits, text_bits, value-ones}
use h2pp.Hpack.HpackString.{is_padding, find_symbol, read_loop}
use h2pp.Hpack.HpackString.Symbols.{At, Readable, code-Readable, find_symbol-code}
use h2pp.Hpack.HpackString.Padding.{is_padding-left, is_padding-long}

-- The bytes whose code has at most 24 bits.
abbrev pub HasShortCode : ℕ → Type 0
HasShortCode b = (code_of (encode b)).bit_length ≤ 24

-- What is left to read: a text, and ones up to the end of the span.
pub record Left (s : Span) (pos : ℕ) (text : List Bool) (ones : ℕ) : Type 0 where
  pub front : List Bool
  pub behind : List Bool
  pub parts : bits s.memory ≡ front ++ (text ++ (replicate ones true ++ behind))
  pub bytes : All IsByte s.memory
  pub at_front : length front ≡ 8 * s.first + pos
  pub ends : pos + (length text + ones) ≡ 8 * s.count
  pub few : ones < 8
  pub room_before : 7 ≤ s.first
  pub room_behind : s.first + s.count < length s.memory

-- A turn that ends the loop.
stops :
    (s : Span) (pos ones fuel : ℕ)
    → Left s pos [] ones
    → read_loop undefined (suc fuel) s pos ≡ ok []
unfolding read_loop
stops s pos ones fuel l = elim (Bool-cases (pos == s.count * 8)) [
  | inl over ↦ rw (over) refl
  | inr open_end ↦ rw (open_end, padded (ground (arith, l.ends))) refl
]
  where
    padded : 0 < ones → is_padding s pos ≡ true
    padded h =
        is_padding-left s pos l.front (replicate ones true) l.behind l.parts l.bytes l.at_front
          (omega (arith, l.ends, length-replicate ones true))
          (omega (arith, l.few, length-replicate ones true)) (omega (arith, l.ends, h))
          (omega (arith, l.room_behind))
        ∙ (==_iff (2 ^ length (replicate ones true) - 1) (value (replicate ones true))).1
            (rw (value-ones ones, length-replicate ones true) refl)

-- The code of a byte is not taken for padding.
goes_on :
    (s : Span) (pos ones b : ℕ) (c : HuffmanCode) (text : List Bool)
    → Readable b c
    → Left s pos (code_bits c ++ text) ones
    → is_padding s pos ≡ false
goes_on s pos ones b c text r l = elim (Bool-cases (leb 8 (s.count * 8 - pos))) [
  | inl many ↦ is_padding-long s pos (ground arith)
  | inr few ↦
      is_padding-left s pos l.front rest l.behind at l.bytes l.at_front ends (ground (arith, ends))
        (omega (arith, ends, r.of_code, r.some_bits, of_rest)) (omega (arith, l.room_behind))
      ∙ no_ones (ground (arith, ends, of_rest, r.of_code))
]
  where
    tail : List Bool
    tail = text ++ replicate ones true

    rest : List Bool
    rest = code_bits c ++ tail

    of_rest : length rest ≡ length (code_bits c) + length tail
    of_rest = length-append (code_bits c) tail

    ends : pos + length rest ≡ 8 * s.count
    ends = omega (
      arith,
      l.ends,
      of_rest,
      length-append text (replicate ones true),
      length-replicate ones true,
      length-append (code_bits c) text,
    )

    at : bits s.memory ≡ l.front ++ (rest ++ l.behind)
    at =
        l.parts
        ∙ ap (λ t. l.front ++ t)
            (sym (append_assoc (code_bits c ++ text) (replicate ones true) l.behind)
              ∙ ap (λ t. t ++ l.behind) (append_assoc (code_bits c) text (replicate ones true)))

    no_ones : c.bit_length ≤ 7 → (2 ^ length rest - 1 == value rest) ≡ false
    no_ones short = differ (2 ^ length rest - 1) (value rest) (
        omega (
          arith,
          value-append (code_bits c) tail,
          below (value (code_bits c)) (2 ^ c.bit_length) (2 ^ length tail) (r.no_padding short),
          value-lt tail,
          pow_pos (length tail),
          pow_add c.bit_length (length tail),
          ap (λ (k : ℕ). 2 ^ k) (of_rest ∙ ap (λ (k : ℕ). k + length tail) r.of_code),
        ))
      where
        below : (v m t : ℕ) → v + 1 < m → v * t + t ≤ m * t - t
        below v m t h = omega (arith, mul-le-mul_right t h', expand v t)
          where
            h' : v + 2 ≤ m
            h' = omega (arith, h)

            expand : (v t : ℕ) → (v + 2) * t ≡ v * t + t + t
            expand v t = grind arith

        differ : (x y : ℕ) → y < x → (x == y) ≡ false
        differ x y h = ground arith

turn :
    (fuel : ℕ) (s : Span) (pos b l : ℕ) (src : List ℕ)
    → (pos == s.count * 8) ≡ false
    → is_padding s pos ≡ false
    → find_symbol code_len_array s pos ≡ ok (some (b, l))
    → IsByte b
    → read_loop undefined fuel s (commit_bits s pos l) ≡ ok src
    → read_loop undefined (suc fuel) s pos ≡ ok (b ∷ src)
unfolding read_loop
turn fuel s pos b l src open_end no_padding found h more =
    rw (open_end, no_padding, found, no_eos, more) (ap (λ (w : ℕ). ok (w ∷ src)) whole)
  where
    no_eos : (b == eos) ≡ false
    no_eos = ground (arith, h)

    whole : b % 2 ^ 8 ≡ b
    whole = omega (arith, h)

pub read_loop-text :
    (src : List ℕ) (fuel : ℕ) (s : Span) (pos ones : ℕ)
    → All IsByte src
    → All HasShortCode src
    → Left s pos (text_bits src) ones
    → 8 * s.count < fuel + pos
    → read_loop undefined fuel s pos ≡ ok src
unfolding text_bits commit_bits
read_loop-text src zero s pos ones all short l enough = absurd (omega (arith, l.ends, enough))
read_loop-text [] (suc fuel) s pos ones all short l enough = stops s pos ones fuel l
read_loop-text (b ∷ src) (suc fuel) s pos ones (h, all) (k, short) l enough =
    turn fuel s pos b c.bit_length src (ground (arith, l.ends, of_text, r.of_code, r.some_bits))
      (goes_on s pos ones b c (text_bits src) r l) (find_symbol-code s pos b c r k place) h
      (read_loop-text src fuel s (commit_bits s pos c.bit_length) ones all short
        (subst (λ p. Left s p (text_bits src) ones) (sym forward) next)
        (omega (arith, forward, enough, r.some_bits)))
  where
    c : HuffmanCode
    c = code_of (encode b)

    r : Readable b c
    r = code-Readable b h

    of_text : length (code_bits c ++ text_bits src) ≡ length (code_bits c) + length (text_bits src)
    of_text = length-append (code_bits c) (text_bits src)

    rest : List Bool
    rest = text_bits src ++ (replicate ones true ++ l.behind)

    at : bits s.memory ≡ l.front ++ (code_bits c ++ rest)
    at =
        l.parts
        ∙ ap (λ t. l.front ++ t)
            (append_assoc (code_bits c) (text_bits src) (replicate ones true ++ l.behind))

    place : At s pos (code_bits c)
    place = record {
      front = l.front;
      rest = rest;
      parts = at;
      bytes = l.bytes;
      at_front = l.at_front;
      room_before = l.room_before;
      room_behind = omega (arith, l.room_behind, l.ends, of_text);
    }

    forward : commit_bits s pos c.bit_length ≡ pos + c.bit_length
    forward = ground (arith, l.ends, of_text, r.of_code)

    next : Left s (pos + c.bit_length) (text_bits src) ones
    next = record {
      front = l.front ++ code_bits c;
      behind = l.behind;
      parts = at ∙ sym (append_assoc l.front (code_bits c) rest);
      bytes = l.bytes;
      at_front = omega (arith, length-append l.front (code_bits c), l.at_front, r.of_code);
      ends = omega (arith, l.ends, of_text, r.of_code);
      few = l.few;
      room_before = l.room_before;
      room_behind = l.room_behind;
    }
