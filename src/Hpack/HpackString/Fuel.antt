-- ===== src/Hpack/HpackString/Fuel.antt =====
-- The loop of `read_huffman_str` of lib/hpack/string.cpp comes to an end.
use h2pp.Prelude.{
  ℕ, zero, suc, ◌+◌, ◌*◌, ◌%◌, ◌^◌, ◌<◌, ◌≤◌, List, [], ◌∷◌, Option, none, some, Result, ok, throw,
  undefined, ◌>>=◌, first_returned, All, ◌≡◌, refl, ap, subst, Bool, true, false, ◌==◌,
  if◌then◌else◌, arith,
}
use h2pp.Hpack.Bitstream.{Span, take_bits, commit_bits}
use h2pp.Hpack.Huffman as Huffman
use h2pp.Hpack.Huffman.{eos}
use h2pp.Hpack.Huffman.Codes.{code}
use h2pp.Hpack.Huffman.Hash.{code_len_array}
use h2pp.Hpack.HpackString.{
  is_padding, symbol_or, find_symbol, with_symbol, read_loop, read_huffman_str,
}

abbrev IsPositive : ℕ → Type 0
IsPositive n = 0 < n

lengths-IsPositive : All IsPositive code_len_array
unfolding code_len_array
lengths-IsPositive = ground arith

length_of :
    {v l w m : ℕ} → ◌≡◌ {A = Result (Option (ℕ × ℕ))} (ok (some (v, l))) (ok (some (w, m))) → l ≡ m
length_of e = cc

symbol_or-positive :
    (o : Option ℕ) (bit_len : ℕ) (more : Result (Option (ℕ × ℕ))) (v l : ℕ)
    → 0 < bit_len
    → (more ≡ ok (some (v, l)) → 0 < l)
    → symbol_or o bit_len more ≡ ok (some (v, l))
    → 0 < l
symbol_or-positive none bit_len more v l h k e = k e
symbol_or-positive (some index) bit_len more v l h k e = subst IsPositive (length_of e) h

find_symbol-positive :
    (lens : List ℕ) (s : Span) (pos v l : ℕ)
    → All IsPositive lens
    → find_symbol lens s pos ≡ ok (some (v, l))
    → 0 < l
unfolding find_symbol
find_symbol-positive [] s pos v l all e = cc
find_symbol-positive (len ∷ lens) s pos v l (h, all) e =
    let (hcode, taken, e1) = first_returned _ (take_bits s pos len) e in
    symbol_or-positive (Huffman.decode (code hcode len)) len (find_symbol lens s pos) v l h
      (find_symbol-positive lens s pos v l all) e1

same_symbol :
    (index : Option (ℕ × ℕ)) (f g : ℕ → Result (List ℕ))
    → ((v l : ℕ) → index ≡ some (v, l) → f l ≡ g l)
    → with_symbol index f ≡ with_symbol index g
same_symbol none f g h = refl
same_symbol (some (v, l)) f g h =
    ap (λ r. if v == eos then ok [] else (do result ← r; ok (v % 2 ^ 8 ∷ result))) (h v l refl)

same_found :
    (r : Result (Option (ℕ × ℕ))) (f g : ℕ → Result (List ℕ))
    → ((v l : ℕ) → r ≡ ok (some (v, l)) → f l ≡ g l)
    → (r >>= λ (index : Option (ℕ × ℕ)). with_symbol index f)
      ≡ (r >>= λ (index : Option (ℕ × ℕ)). with_symbol index g)
same_found undefined f g h = refl
same_found (throw e) f g h = refl
same_found (ok index) f g h = same_symbol index f g (λ v l e. h v l (ap ok e))

if_same :
    (t : Bool) (a x y : Result (List ℕ))
    → (t ≡ false → x ≡ y)
    → (if t then a else x) ≡ (if t then a else y)
if_same true a x y h = refl
if_same false a x y h = h refl

read_loop_fuel :
    (exhausted other : Result (List ℕ)) (m n : ℕ) (s : Span) (pos : ℕ)
    → pos ≤ s.count * 8
    → s.count * 8 < m + pos
    → s.count * 8 < n + pos
    → read_loop exhausted m s pos ≡ read_loop other n s pos
unfolding read_loop commit_bits
read_loop_fuel x y zero n s pos inside h k = absurd (omega (arith, h, inside))
read_loop_fuel x y (suc m) zero s pos inside h k = absurd (omega (arith, k, inside))
read_loop_fuel x y (suc m) (suc n) s pos inside h k =
    if_same (pos == s.count * 8) (ok []) _ _ (λ open_end.
      if_same (is_padding s pos) (ok []) _ _ (λ no_padding.
        same_found (find_symbol code_len_array s pos) _ _ (λ v l found.
          let some_bits : 0 < l =
            find_symbol-positive code_len_array s pos v l lengths-IsPositive found in
          let ahead : pos < s.count * 8 = ground (arith, open_end, inside) in
          read_loop_fuel x y m n s (commit_bits s pos l) (omega arith)
            (omega (arith, h, some_bits, ahead)) (omega (arith, k, some_bits, ahead)))))

-- The loop of `read_huffman_str` ends before any fuel above the number of bits of the span is used
-- up: whatever a run that uses it up would give, the loop gives what `read_huffman_str` gives.
pub read_huffman_str-ends :
    (exhausted : Result (List ℕ)) (fuel : ℕ) (src : Span)
    → src.count * 8 < fuel
    → read_loop exhausted fuel src 0 ≡ read_huffman_str src
unfolding read_huffman_str
read_huffman_str-ends exhausted fuel src h =
    read_loop_fuel exhausted undefined fuel (src.count * 8 + 1) src 0 (omega arith)
      (omega (arith, h)) (omega arith)
