-- ===== src/Hpack/Integer/Examples.antt =====
-- Runs of the integer coding, among them those of RFC 7541, appendix C.1, and the theorems at such
-- inputs.
use h2pp.Prelude.{
  ℕ, ◌≤◌, ◌≡◌, refl, arith, List, [], ◌∷◌, ◌++◌, length, ok, throw, undefined, overflow_error, All,
  replicate,
}
use h2pp.Prelude.Bytes.{IsByte}
use h2pp.Hpack.Integer.{encode, encode_groups, decode, decode_groups, Decoded, prefix_mask}
use h2pp.Hpack.Integer.Encode.{encode_total}
use h2pp.Hpack.Integer.Decode.{decode-append, decode_padding_undefined}
use h2pp.Hpack.Integer.RoundTrip.{decode-encode}

-- 1337 behind a prefix of five bits.
abbrev encoded_1337 : List ℕ
encoded_1337 = 0x1f ∷ 0x9a ∷ 0x0a ∷ []

abbrev decoded : ℕ → ℕ → Decoded
decoded used value = record { used_bytes = used; value = value }

encode_1337 : encode 0 3 1337 ≡ ok encoded_1337
unfolding encode encode_groups prefix_mask
encode_1337 = refl

encode_too_big : encode 0x80 1 (16777216) ≡ throw overflow_error
unfolding encode
encode_too_big = refl

decode_1337 : decode 3 (encoded_1337 ++ 7 ∷ []) ≡ ok (decoded 3 1337)
unfolding decode decode_groups prefix_mask
decode_1337 = refl

encode_total_example :
    (bs : List ℕ) × (encode 0 3 1337 ≡ ok bs) × All IsByte bs × (1 ≤ length bs) × (length bs ≤ 5)
encode_total_example =
    encode_total 0 3 1337 (omega arith) (omega arith) (omega arith) (omega arith) (omega arith)

decode-encode_example : decode 3 (encoded_1337 ++ 7 ∷ []) ≡ ok (decoded 3 1337)
decode-encode_example =
    decode-encode 0 3 1337 encoded_1337 (7 ∷ []) (omega arith) (omega arith) (omega arith)
      (omega arith) encode_1337

decode-append_example : decode 3 (encoded_1337 ++ 7 ∷ 8 ∷ []) ≡ ok (decoded 3 1337)
decode-append_example =
    decode-append 3 (encoded_1337 ++ 7 ∷ []) (8 ∷ []) (decoded 3 1337) decode_1337

decode_padding_undefined_example : decode 1 (0xff ∷ replicate 10 0x80 ++ 0 ∷ []) ≡ undefined
unfolding prefix_mask
decode_padding_undefined_example =
    decode_padding_undefined 0xff 1 0 [] (omega arith) (omega arith) refl
