-- ===== src/Hpack/Bitstream/Take.antt =====
-- `take_bits` of lib/hpack/bitstream.cpp as a cut of the memory's bits.
use h2pp.Prelude.{
  ℕ, zero, suc, ◌+◌, ◌-◌, ◌*◌, ◌/◌, ◌%◌, ◌^◌, ◌<◌, ◌≤◌, List, [], ◌∷◌, ◌++◌, append_assoc, Bool,
  false, ok, ◌≡◌, sym, ap, subst, ◌∙◌, length, length-append, length-take, length-drop, take, drop,
  take-append-drop, All, bit_and, ltb, leb, if◌then◌else◌, arith,
}
use native.Mathlib.Nat.{pow-le-pow_right}
use h2pp.Prelude.Bytes.{IsByte, make_mask}
use h2pp.Prelude.Bits.{
  value, bits, be_value, value-lt, value-append, value-bits, bits-append, length-bits, pow_add,
  pow_pos, cut,
}
use h2pp.Prelude.Bits.Masks.{bit_and_ones, bit_and_shifted}
use h2pp.Hpack.Bitstream.{Span, read64, take_shift, cut_word, take_bits}

-- The word of 64 bits around a cut, masked.
masked :
    (xs mid ys : List Bool)
    → bit_and (value (xs ++ (mid ++ ys))) ((2 ^ length mid - 1) * 2 ^ length ys)
      ≡ value mid * 2 ^ length ys
masked xs mid ys =
    ap (λ (w : ℕ). bit_and w ((2 ^ length mid - 1) * 2 ^ length ys)) word
    ∙ bit_and_shifted (length ys) (value xs * 2 ^ length mid + value mid) (value ys)
        (2 ^ length mid - 1) (value-lt ys)
    ∙ ap (λ (t : ℕ). t * 2 ^ length ys)
        (bit_and_ones (length mid) (value xs) (value mid) (value-lt mid))
  where
    word :
        value (xs ++ (mid ++ ys))
        ≡ (value xs * 2 ^ length mid + value mid) * 2 ^ length ys + value ys
    word =
        ap value (sym (append_assoc xs mid ys))
        ∙ value-append (xs ++ mid) ys
        ∙ ap (λ (t : ℕ). t * 2 ^ length ys + value ys) (value-append xs mid)

pub All-take : (n : ℕ) (xs : List ℕ) → All IsByte xs → All IsByte (take n xs)
All-take zero xs all = tt
All-take (suc n) [] all = tt
All-take (suc n) (x ∷ xs) (h, all) = (h, All-take n xs all)

All-drop : (n : ℕ) (xs : List ℕ) → All IsByte xs → All IsByte (drop n xs)
All-drop zero xs all = all
All-drop (suc n) [] all = tt
All-drop (suc n) (x ∷ xs) (h, all) = All-drop n xs all

-- Eight bytes of a memory, as a stretch of its bits.
record Window (memory : List ℕ) (at : ℕ) (word : ℕ) : Type 0 where
  before : List Bool
  within : List Bool
  behind : List Bool
  parts : bits memory ≡ before ++ (within ++ behind)
  at_before : length before ≡ 8 * at
  of_word : length within ≡ 64
  its_value : word ≡ value within

window :
    (memory : List ℕ) (at : ℕ)
    → All IsByte memory
    → at + 8 ≤ length memory
    → Window memory at (be_value (take 8 (drop at memory)))
window memory at all fits = record {
  before = bits (take at memory);
  within = bits (take 8 (drop at memory));
  behind = bits (drop 8 (drop at memory));
  parts =
      ap bits (sym (take-append-drop at memory))
      ∙ bits-append (take at memory) (drop at memory)
      ∙ ap (λ r. bits (take at memory) ++ r)
          (ap bits (sym (take-append-drop 8 (drop at memory)))
            ∙ bits-append (take 8 (drop at memory)) (drop 8 (drop at memory)));
  at_before = omega (arith, length-bits (take at memory), length-take at memory);
  of_word = omega (
    arith,
    length-bits (take 8 (drop at memory)),
    length-take 8 (drop at memory),
    length-drop at memory,
  );
  its_value =
      sym (
        value-bits (take 8 (drop at memory))
          (All-take 8 (drop at memory) (All-drop at memory all)));
}

-- A cut that lies in a window splits it in three.
inside :
    (front mid rest before within behind : List Bool)
    → before ++ (within ++ behind) ≡ front ++ (mid ++ rest)
    → length before ≤ length front
    → length front + length mid ≤ length before + length within
    → (xs : List Bool) × (ys : List Bool) × (within ≡ xs ++ (mid ++ ys))
      × (length before + length xs ≡ length front)
inside front mid rest before within behind e h k =
    let (xs, front_eq, tail) = cut before (within ++ behind) front (mid ++ rest) e h in
    let sizes = ap length front_eq in
    let (ys, within_eq, rest_eq) =
      cut (xs ++ mid) rest within behind (append_assoc xs mid rest ∙ sym tail)
        (omega (arith, sizes, length-append before xs, length-append xs mid)) in
    (xs, ys, within_eq ∙ append_assoc xs mid ys, omega (arith, sizes, length-append before xs))

pow_le : (m n : ℕ) → m ≤ n → 2 ^ m ≤ 2 ^ n
pow_le m n h = pow-le-pow_right (omega arith) h

-- The mask of `take_bits` for at most 24 bits is not cut off.
mask_lem : (len g : ℕ) → len + g ≤ 32 → make_mask 64 len * 2 ^ g % 2 ^ 64 ≡ (2 ^ len - 1) * 2 ^ g
unfolding make_mask
mask_lem len g h = ap (λ (m : ℕ). m * 2 ^ g % 2 ^ 64) ones ∙ small
  where
    ones : ((if ltb 63 len then 0 else 1) * 2 ^ len + (2 ^ 64 - 1)) % 2 ^ 64 ≡ 2 ^ len - 1
    ones = ground (arith, pow_le len 32 (omega arith), pow_pos len)

    bound : (2 ^ len - 1) * 2 ^ g ≤ 2 ^ 32
    bound = grind (arith, pow_add len g, pow_le (len + g) 32 h, pow_pos len, pow_pos g)

    small : (2 ^ len - 1) * 2 ^ g % 2 ^ 64 ≡ (2 ^ len - 1) * 2 ^ g
    small = omega (arith, bound)

shift_lem :
    (offset len : ℕ)
    → len + (8 - (offset + len) % 8) ≤ 32
    → take_shift ((offset + len) / 8 - offset / 8 + 1) (offset % 8)
      ≡ 32 - (len + (8 - (offset + len) % 8))
shift_lem offset len h = omega arith

-- Shifted to the left of 32 bits, a value of `len` bits is not cut off.
aligned :
    (v len g : ℕ)
    → v < 2 ^ len
    → len + g ≤ 32
    → v * 2 ^ g * 2 ^ (32 - (len + g)) % 2 ^ 64 % 2 ^ 32 ≡ v * 2 ^ (32 - len)
aligned v len g h fits = omega (arith, joined, bound)
  where
    s : ℕ
    s = 32 - (len + g)

    gaps : g + s ≡ 32 - len
    gaps = omega arith

    joined : v * 2 ^ g * 2 ^ s ≡ v * 2 ^ (32 - len)
    joined =
        assoc v (2 ^ g) (2 ^ s)
        ∙ ap (λ (t : ℕ). v * t) (sym (pow_add g s) ∙ ap (λ (k : ℕ). 2 ^ k) gaps)
      where
        assoc : (a b c : ℕ) → a * b * c ≡ a * (b * c)
        assoc a b c = grind arith

    whole : len + (32 - len) ≡ 32
    whole = omega arith

    bound : v * 2 ^ (32 - len) < 2 ^ 32
    bound =
        subst (λ (t : ℕ). v * 2 ^ (32 - len) < t)
          (sym (pow_add len (32 - len)) ∙ ap (λ (k : ℕ). 2 ^ k) whole)
          (times v (2 ^ len) (2 ^ (32 - len)) h (pow_pos (32 - len)))
      where
        times : (a b c : ℕ) → a < b → 0 < c → a * c < b * c
        times a b c h k = grind arith

read64-window :
    (memory : List ℕ) (first : ℕ)
    → 7 ≤ first
    → first < length memory
    → read64 memory first 7 ≡ ok (be_value (take 8 (drop (first - 7) memory)))
unfolding read64
read64-window memory first h k = ground arith

cut_word-window :
    (xs mid ys : List Bool) (word gap : ℕ)
    → word ≡ value (xs ++ (mid ++ ys))
    → length ys ≡ gap
    → length mid + gap ≤ 32
    → cut_word word (length mid) gap (32 - (length mid + gap))
      ≡ ok (value mid * 2 ^ (32 - length mid))
unfolding cut_word
cut_word-window xs mid ys word gap its_value of_gap fits =
    rw
      (
        no_shift (length mid) gap,
        mask_lem (length mid) gap fits,
        its_value,
        sym of_gap,
        masked xs mid ys,
      )
      (ap ok (aligned (value mid) (length mid) (length ys) (value-lt mid) (omega (arith, of_gap))))
  where
    no_shift : (len g : ℕ) → leb 64 (32 - (len + g)) ≡ false
    no_shift len g = ground arith

-- Where a memory of bytes has the bits `mid` at an offset of the span, the byte that `last_ind` names
-- and seven in front of it are in the memory, and the bits with the gap behind them in that byte are
-- 32 at most, `take_bits` gives them left-aligned in 32 bits.
pub take_bits-cut :
    (s : Span) (offset : ℕ) (front mid rest : List Bool)
    → bits s.memory ≡ front ++ (mid ++ rest)
    → All IsByte s.memory
    → length front ≡ 8 * s.first + offset
    → 7 ≤ s.first + (offset + length mid) / 8
    → s.first + (offset + length mid) / 8 < length s.memory
    → length mid + (8 - (offset + length mid) % 8) ≤ 32
    → take_bits s offset (length mid) ≡ ok (value mid * 2 ^ (32 - length mid))
unfolding take_bits
take_bits-cut s offset front mid rest e all at_front before behind fits =
    rw
      (
        read64-window s.memory (s.first + (offset + length mid) / 8) before behind,
        shift_lem offset (length mid) fits,
      )
      (cut_word-window split.0 mid split.1 (be_value (take 8 (drop at s.memory)))
        (8 - (offset + length mid) % 8) (w.its_value ∙ ap value split.2)
        (omega (
          arith,
          split.3,
          at_front,
          w.at_before,
          w.of_word,
          ap length split.2,
          length-append split.0 (mid ++ split.1),
          length-append mid split.1,
        ))
        fits)
  where
    at : ℕ
    at = s.first + (offset + length mid) / 8 - 7

    w : Window s.memory at (be_value (take 8 (drop at s.memory)))
    w = window s.memory at all (omega (arith, before, behind))

    split :
        (xs : List Bool) × (ys : List Bool) × (w.within ≡ xs ++ (mid ++ ys))
        × (length w.before + length xs ≡ length front)
    split =
        inside front mid rest w.before w.within w.behind (sym w.parts ∙ e)
          (omega (arith, w.at_before, at_front, before))
          (omega (arith, w.at_before, at_front, w.of_word, before))
