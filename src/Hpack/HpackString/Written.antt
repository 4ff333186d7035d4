-- ===== src/Hpack/HpackString/Written.antt =====
-- `string::decode` on what `encoder_stream::write_string` stores.
use mathlib.Core.Path.{ap₂}
use h2pp.Prelude.{
  ℕ, zero, suc, ◌+◌, ◌-◌, ◌*◌, ◌%◌, ◌<◌, ◌≤◌, List, [], ◌∷◌, ◌++◌, append_assoc, true, ok, ◌≡◌,
  refl, sym, ap, subst, ◌∙◌, length, length-append, length-replicate, take, drop, All, All-append,
  arith,
}
use h2pp.Prelude.Bytes.{IsByte}
use h2pp.Prelude.Bits.{bits, bits-append, length-bits}
use h2pp.Hpack.Integer as Integer
use h2pp.Hpack.Integer.{max_hpack_int}
use h2pp.Hpack.Bitstream.{Span, subspan}
use h2pp.Hpack.EncoderStream.{
  EncoderStream, StringFlag, inplace, encoded, write_string, encode_string,
}
use h2pp.Hpack.EncoderStream.Pack.{text_bits, padding}
use h2pp.Hpack.EncoderStream.Pack.Loop.{encode_string-bits}
use h2pp.Hpack.HpackString.{read_huffman_str, read_value, decode}
use h2pp.Hpack.HpackString.RoundTrip.{HasShortCode, Left, read_loop-text}
use h2pp.Hpack.HpackString.Prefixed.{size_lem, decode-size}
use h2pp.Hpack.EncoderStream.Pack.Pushed.{encode_loop-IsByte}

drop-front : (xs ys : List ℕ) → drop (length xs) (xs ++ ys) ≡ ys
drop-front [] ys = refl
drop-front (x ∷ xs) ys = drop-front xs ys

take-front :
    (xs ys : List ℕ) (n : ℕ) → length xs ≤ n → take n (xs ++ ys) ≡ xs ++ take (n - length xs) ys
take-front [] ys n h = ap (λ k. take k ys) all_left
  where
    all_left : n ≡ n - 0
    all_left = omega arith
take-front (x ∷ xs) ys zero h = absurd (omega (arith, h))
take-front (x ∷ xs) ys (suc n) h =
    ap (◌∷◌ x)
      (take-front xs ys n (omega (arith, h)) ∙ ap (λ k. xs ++ take k ys) (same_left n (length xs)))
  where
    same_left : (n m : ℕ) → n - m ≡ suc n - suc m
    same_left n m = omega arith

-- The memory of a stream that a string was written to, and the span from the string on.
abbrev pub span_of : EncoderStream → StringFlag → List ℕ → List ℕ → List ℕ → ℕ → Span
span_of out flag size src after count = record {
  memory = (write_string out flag size src).stream ++ after;
  first = length out.stream;
  count = count;
}

bytes_of_span :
    (front size text after : List ℕ) (count : ℕ)
    → length size ≤ count
    → take count (drop (length front) ((front ++ (size ++ text)) ++ after))
      ≡ size ++ take (count - length size) (text ++ after)
bytes_of_span front size text after count h =
    ap (λ m. take count (drop (length front) m)) (append_assoc front (size ++ text) after)
    ∙ ap (take count) (drop-front front ((size ++ text) ++ after) ∙ append_assoc size text after)
    ∙ take-front size (text ++ after) count h

-- What `encode_string` stores is read back as the text, by a reader that has the seven bytes in front
-- of the span and one behind it.
read-encode_string :
    (src front after : List ℕ)
    → All IsByte src
    → All HasShortCode src
    → All IsByte front
    → All IsByte after
    → 7 ≤ length front
    → 0 < length after
    → read_huffman_str (record {
      memory = front ++ (encode_string src ++ after);
      first = length front;
      count = length (encode_string src);
    })
      ≡ ok src
unfolding read_huffman_str
read-encode_string src front after all short front_bytes after_bytes before behind =
    read_loop-text src (length text * 8 + 1) s 0 ones all short left (omega arith)
  where
    text : List ℕ
    text = encode_string src

    s : Span
    s = record { memory = front ++ (text ++ after); first = length front; count = length text }

    ones : ℕ
    ones = (8 - length (text_bits src) % 8) % 8

    stored : bits text ≡ text_bits src ++ padding (length (text_bits src))
    stored = encode_string-bits src all

    left : Left s 0 (text_bits src) ones
    left = record {
      front = bits front;
      behind = bits after;
      parts =
          bits-append front (text ++ after)
          ∙ ap (λ t. bits front ++ t)
              (bits-append text after
                ∙ ap (λ t. t ++ bits after) stored
                ∙ append_assoc (text_bits src) (padding (length (text_bits src))) (bits after));
      bytes =
          All-append IsByte front (text ++ after) front_bytes
            (All-append IsByte text after (encode_loop-IsByte src 0 0) after_bytes);
      at_front = omega (arith, length-bits front);
      ends = omega (
        arith,
        length-bits text,
        ap length stored,
        length-append (text_bits src) (padding (length (text_bits src))),
        length-replicate ones true,
      );
      few = omega arith;
      room_before = before;
      room_behind =
          omega (arith, length-append front (text ++ after), length-append text after, behind);
    }

-- A Huffman string that is written to a stream behind seven bytes or more, and followed by one at
-- least, is decoded to the text, for bytes whose code has 24 bits at most and a size that
-- `integer::encode` took.
pub decode-write_string :
    (out : EncoderStream) (size src after : List ℕ) (count : ℕ)
    → All IsByte src
    → All HasShortCode src
    → All IsByte out.stream
    → All IsByte after
    → 7 ≤ length out.stream
    → 0 < length after
    → Integer.encode 0x80 1 (length (encode_string src)) ≡ ok size
    → length size + length (encode_string src) ≤ count
    → decode (span_of out encoded size src after count)
      ≡ ok (record { used_bytes = length size + length (encode_string src); value = src })
unfolding write_string read_value
decode-write_string out size src after count all short front_bytes after_bytes before behind e
      fits =
    decode-size (span_of out encoded size src after count) 0x80 n size
      (take (count - length size) (text ++ after)) src
      (bytes_of_span out.stream size text after count (omega (arith, fits))) fits (omega arith)
      (omega arith) e read
  where
    text : List ℕ
    text = encode_string src

    n : ℕ
    n = length text

    placed : (out.stream ++ size) ++ (text ++ after) ≡ (out.stream ++ (size ++ text)) ++ after
    placed =
        append_assoc out.stream size (text ++ after)
        ∙ ap (λ t. out.stream ++ t) (sym (append_assoc size text after))
        ∙ sym (append_assoc out.stream (size ++ text) after)

    read :
        read_value true (subspan (span_of out encoded size src after count) (length size)) n
        ≡ ok src
    read =
        subst
          (λ (p : List ℕ × ℕ).
            read_huffman_str (record { memory = p.0; first = p.1; count = n }) ≡ ok src)
          (ap₂ (λ (m : List ℕ) (f : ℕ). (m, f)) placed (length-append out.stream size))
          (read-encode_string src (out.stream ++ size) after all short
            (All-append IsByte out.stream size front_bytes
              (size_lem 0x80 n size (omega arith) (omega arith) e).3)
            after_bytes (omega (arith, length-append out.stream size, before)) behind)

-- A string that is written as it is, with a size that `integer::encode` took, is decoded to itself
-- from any span that is long enough.
pub decode-write_inplace :
    (out : EncoderStream) (size src after : List ℕ) (count : ℕ)
    → Integer.encode 0x00 1 (length src) ≡ ok size
    → length size + length src ≤ count
    → decode (span_of out inplace size src after count)
      ≡ ok (record { used_bytes = length size + length src; value = src })
unfolding write_string read_value
decode-write_inplace out size src after count e fits =
    decode-size (span_of out inplace size src after count) 0 (length src) size
      (take (count - length size) (src ++ after)) src
      (bytes_of_span out.stream size src after count (omega (arith, fits))) fits (omega arith)
      (omega arith) e (ap ok text)
  where
    beyond : length out.stream + length size ≡ length (out.stream ++ size)
    beyond = omega (arith, length-append out.stream size)

    placed : (out.stream ++ (size ++ src)) ++ after ≡ (out.stream ++ size) ++ (src ++ after)
    placed =
        append_assoc out.stream (size ++ src) after
        ∙ ap (λ t. out.stream ++ t) (append_assoc size src after)
        ∙ sym (append_assoc out.stream size (src ++ after))

    take-take : (xs ys : List ℕ) (n : ℕ) → length xs ≤ n → take (length xs) (take n (xs ++ ys)) ≡ xs
    take-take [] ys n h = refl
    take-take (x ∷ xs) ys zero h = absurd (omega (arith, h))
    take-take (x ∷ xs) ys (suc n) h = ap (◌∷◌ x) (take-take xs ys n (omega (arith, h)))

    text :
        take (length src) (
          take
            (count - length size)
            (drop (length out.stream + length size) ((out.stream ++ (size ++ src)) ++ after)))
        ≡ src
    text =
        ap (λ m. take (length src) (take (count - length size) m))
          (ap₂ drop beyond placed ∙ drop-front (out.stream ++ size) (src ++ after))
        ∙ take-take src after (count - length size) (omega (arith, fits))
