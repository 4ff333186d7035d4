-- ===== src/Hpack/HpackString/Padding.antt =====
-- The check of the padding in `read_huffman_str`, for fewer than eight bits that are left.
use h2pp.Prelude.{
  ℕ, zero, suc, ◌+◌, ◌-◌, ◌*◌, ◌^◌, ◌<◌, ◌≤◌, List, [], ◌∷◌, ◌++◌, append_assoc, Bool, true, false,
  ◌≡◌, refl, sym, ap, ◌∙◌, length, length-append, All, get_or, ltb, ◌==◌, arith,
}
use h2pp.Prelude.Bytes.{IsByte, make_mask, all_below, agree_below}
use h2pp.Prelude.Bits.{value, bits, byte_bits, value-lt, value-append, value-byte_bits, cut}
use h2pp.Prelude.Bits.Masks.{bit_and_ones}
use h2pp.Hpack.Bitstream.{Span}
use h2pp.Hpack.EncoderStream.Pack.{front_eq}
use h2pp.Hpack.HpackString.{is_padding}

-- The last bits of a byte in a memory.
last_bits :
    (memory : List ℕ) (k : ℕ) (front left behind : List Bool)
    → bits memory ≡ front ++ (left ++ behind)
    → All IsByte memory
    → length front + length left ≡ 8 * k + 8
    → length left ≤ 8
    → k < length memory
    → (t : ℕ) × (get_or memory k 0 ≡ t * 2 ^ length left + value left)
unfolding bits
last_bits [] k front left behind e all len small inside = absurd (omega (arith, inside))
last_bits (b ∷ memory) zero front left behind e (h, all) len small inside =
    (value front, sym (value-byte_bits b h) ∙ ap value parts ∙ value-append front left)
  where
    parts : byte_bits b ≡ front ++ left
    parts =
        (front_eq (byte_bits b) (bits memory) (front ++ left) behind
          (e ∙ sym (append_assoc front left behind))
          (omega (arith, length-append front left, len))).0
last_bits (b ∷ memory) (suc k) front left behind e (h, all) len small inside =
    let (t, at_front, more) =
      cut (byte_bits b) (bits memory) front (left ++ behind) e (omega (arith, len, small)) in
    last_bits memory k t left behind more all
      (omega (arith, ap length at_front, length-append (byte_bits b) t, len)) small
      (omega (arith, inside))

small_masks : (n : ℕ) → n < 8 → make_mask 8 n ≡ 2 ^ n - 1
unfolding all_below make_mask
small_masks = agree_below 8 (make_mask 8) (λ n. 2 ^ n - 1) refl

-- Where fewer than eight bits are left, the check asks whether they are ones.
pub is_padding-left :
    (s : Span) (pos : ℕ) (front left behind : List Bool)
    → bits s.memory ≡ front ++ (left ++ behind)
    → All IsByte s.memory
    → length front ≡ 8 * s.first + pos
    → pos + length left ≡ 8 * s.count
    → length left < 8
    → 0 < s.count
    → s.first + s.count ≤ length s.memory
    → is_padding s pos ≡ (2 ^ length left - 1 == value left)
unfolding is_padding
is_padding-left s pos front left behind e all at_front ends small some_bytes inside =
    rw
      (
        sym of_left,
        positive,
        small_masks (length left) small,
        last.1,
        bit_and_ones (length left) last.0 (value left) (value-lt left),
      )
      refl
  where
    of_left : length left ≡ s.count * 8 - pos
    of_left = omega (arith, ends)

    positive : ltb (length left) 8 ≡ true
    positive = ground (arith, small)

    last : (t : ℕ) × (get_or s.memory (s.first + s.count - 1) 0 ≡ t * 2 ^ length left + value left)
    last =
        last_bits s.memory (s.first + s.count - 1) front left behind e all
          (omega (arith, at_front, ends, some_bytes)) (omega (arith, small))
          (omega (arith, inside, some_bytes))

pub is_padding-long : (s : Span) (pos : ℕ) → 8 ≤ s.count * 8 - pos → is_padding s pos ≡ false
unfolding is_padding
is_padding-long s pos h = ground (arith, h)
