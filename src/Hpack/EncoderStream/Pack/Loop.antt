-- ===== src/Hpack/EncoderStream/Pack/Loop.antt =====
-- The loop of `encode_string`: what it has pushed and what `val` still holds are the bits of the codes.
use h2pp.Prelude.{
  ℕ, ◌+◌, ◌-◌, ◌*◌, ◌/◌, ◌%◌, ◌^◌, ◌<◌, ◌≤◌, List, [], ◌∷◌, ◌++◌, append_assoc, Bool, true, false,
  ◌≡◌, refl, sym, ap, subst, ◌∙◌, length, length-append, length-take, length-drop, length-replicate,
  take, drop, replicate, take-append-drop, All, bit_or, arith,
}
use h2pp.Prelude.Bytes.{IsByte}
use h2pp.Prelude.Bits.{value, bits, bits-append, length-bits, word_bits, length-word_bits}
use h2pp.Hpack.Huffman.Codes.{HuffmanCode}
use h2pp.Hpack.Huffman.{encode}
use h2pp.Hpack.EncoderStream.{code_of, tail_bytes, ready, encode_loop, encode_string}
use h2pp.Hpack.EncoderStream.Pack.{code_bits, text_bits, padding, appended}
use h2pp.Hpack.EncoderStream.Pack.Ready.{Fits, code-Fits, tail-bits, Split, ready-Split}

-- One turn of the loop on the bits.
next-bits :
    (xs ys out stay : List Bool) (len l c : ℕ)
    → ys ≡ out ++ stay
    → length stay ≡ len
    → length xs + length ys ≡ 64
    → len + l ≤ 64
    → c < 2 ^ l
    → (xs' : List Bool) × (length xs' + length (stay ++ word_bits l c) ≡ 64)
      × (bit_or (value (xs ++ ys) * 2 ^ l % 2 ^ 64) c ≡ value (xs' ++ (stay ++ word_bits l c)))
next-bits xs ys out stay len l c parts at_stay total room small = (
  drop l (xs ++ out),
  omega (
    arith,
    length-drop l (xs ++ out),
    length-append xs out,
    ap length parts,
    length-append out stay,
    length-append stay (word_bits l c),
    length-word_bits l c,
    total,
    at_stay,
  ),
  ap (λ t. bit_or (value t * 2 ^ l % 2 ^ 64) c) cut_at
      ∙ appended (take l (xs ++ out)) (drop l (xs ++ out) ++ stay) l c
          (omega (
            arith,
            length-take l (xs ++ out),
            length-drop l (xs ++ out),
            length-append xs out,
            ap length parts,
            length-append out stay,
            length-append (drop l (xs ++ out)) stay,
            total,
            at_stay,
          ))
          (omega (
            arith,
            length-take l (xs ++ out),
            length-append xs out,
            ap length parts,
            length-append out stay,
            total,
            at_stay,
          ))
          small
      ∙ ap value (append_assoc (drop l (xs ++ out)) stay (word_bits l c)),
)
  where
    cut_at : xs ++ ys ≡ take l (xs ++ out) ++ (drop l (xs ++ out) ++ stay)
    cut_at =
        ap (λ t. xs ++ t) parts
        ∙ sym (append_assoc xs out stay)
        ∙ ap (λ t. t ++ stay) (sym (take-append-drop l (xs ++ out)))
        ∙ append_assoc (take l (xs ++ out)) (drop l (xs ++ out)) stay

same_padding : (m n k : ℕ) → n ≡ 8 * k + m → padding m ≡ padding n
same_padding m n k e = ap (λ i. replicate i true) both
  where
    both : (8 - m % 8) % 8 ≡ (8 - n % 8) % 8
    both = omega (arith, e)

joined :
    (pushed rest : List ℕ) (ys out stay this text : List Bool) (len stays l : ℕ)
    → bits pushed ≡ out
    → bits rest ≡ (stay ++ this) ++ (text ++ padding (stays + l + length text))
    → ys ≡ out ++ stay
    → length stay ≡ stays
    → length ys ≡ len
    → length this ≡ l
    → bits (pushed ++ rest) ≡ ys ++ ((this ++ text) ++ padding (len + length (this ++ text)))
joined pushed rest ys out stay this text len stays l first others parts at_stay of_len of_l =
    bits-append pushed rest
    ∙ rw (first, others, parts)
        (sym (
          append_assoc out stay ((this ++ text) ++ padding (len + length (this ++ text)))
          ∙ ap (λ t. out ++ t) inner))
  where
    inner :
        stay ++ ((this ++ text) ++ padding (len + length (this ++ text)))
        ≡ (stay ++ this) ++ (text ++ padding (stays + l + length text))
    inner =
        ap (λ t. stay ++ t) (append_assoc this text (padding (len + length (this ++ text))))
        ∙ sym (append_assoc stay this (text ++ padding (len + length (this ++ text))))
        ∙ ap (λ t. (stay ++ this) ++ (text ++ t))
            (sym (
              same_padding (stays + l + length text) (len + length (this ++ text)) (length pushed) (
                omega (
                  arith,
                  length-bits pushed,
                  ap length first,
                  ap length parts,
                  length-append out stay,
                  length-append this text,
                  at_stay,
                  of_len,
                  of_l,
                ))))

encode_loop-bits :
    (src : List ℕ) (xs ys : List Bool) (val len : ℕ)
    → All IsByte src
    → val ≡ value (xs ++ ys)
    → length ys ≡ len
    → length xs + length ys ≡ 64
    → bits (encode_loop src val len)
      ≡ ys ++ (text_bits src ++ padding (len + length (text_bits src)))
unfolding encode_loop text_bits code_bits
encode_loop-bits [] xs ys val len all e of_len total =
    ap (λ v. bits (tail_bytes v len)) e
    ∙ tail-bits xs ys len of_len total
    ∙ ap (λ n. ys ++ padding n) no_more
  where
    no_more : len ≡ len + 0
    no_more = omega arith
encode_loop-bits (b ∷ src) xs ys val len (h, all) e of_len total =
    joined (ready val len l).0 rest ys split.out split.stay (code_bits c) (text_bits src) len
      (ready val len l).1 l split.bits_out
      (encode_loop-bits src turn.0 (split.stay ++ code_bits c) _ ((ready val len l).1 + l) all
        (ap (λ v. bit_or (v * 2 ^ l % 2 ^ 64) (c.huffman_code / 2 ^ (32 - l))) e ∙ turn.2)
        (omega (
          arith,
          length-append split.stay (code_bits c),
          split.at_stay,
          length-word_bits l (c.huffman_code / 2 ^ (32 - l)),
        ))
        turn.1)
      split.parts split.at_stay of_len (length-word_bits l (c.huffman_code / 2 ^ (32 - l)))
  where
    c : HuffmanCode
    c = code_of (encode b)

    l : ℕ
    l = c.bit_length

    f : Fits c
    f = code-Fits b h

    rest : List ℕ
    rest =
        encode_loop src (bit_or (val * 2 ^ l % 2 ^ 64) (c.huffman_code / 2 ^ (32 - l)))
          ((ready val len l).1 + l)

    split : Split ys (ready val len l).0 (ready val len l).1 l
    split =
        subst (λ v. Split ys (ready v len l).0 (ready v len l).1 l) (sym e)
          (ready-Split xs ys len l of_len total f.short)

    turn :
        (xs' : List Bool) × (length xs' + length (split.stay ++ code_bits c) ≡ 64)
        × (bit_or (value (xs ++ ys) * 2 ^ l % 2 ^ 64) (c.huffman_code / 2 ^ (32 - l))
            ≡ value (xs' ++ (split.stay ++ code_bits c)))
    turn =
        next-bits xs ys split.out split.stay (ready val len l).1 l (c.huffman_code / 2 ^ (32 - l))
          split.parts split.at_stay total split.room f.small

-- What `encode_string` pushes is the codes of the bytes, one after another, filled up with ones to a
-- whole byte.
pub encode_string-bits :
    (src : List ℕ)
    → All IsByte src
    → bits (encode_string src) ≡ text_bits src ++ padding (length (text_bits src))
unfolding value
encode_string-bits src all =
    encode_loop-bits src (replicate 64 false) [] 0 0 all refl refl
      (omega (arith, length-replicate 64 false))
    ∙ ap (λ n. text_bits src ++ padding n) no_start
  where
    no_start : 0 + length (text_bits src) ≡ length (text_bits src)
    no_start = omega arith
