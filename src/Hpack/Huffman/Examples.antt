-- ===== src/Hpack/Huffman/Examples.antt =====
-- Runs of the code tables, and the theorems about them at such inputs.
use h2pp.Prelude.{◌≡◌, ◌↔◌, refl, some, none, [], ◌∷◌}
use h2pp.Hpack.Huffman.{encode, decode, estimate_len}
use h2pp.Hpack.Huffman.Codes.{code, huffman_table}
use h2pp.Hpack.Huffman.Hash.{find}
use h2pp.Hpack.Huffman.Codec.{decode-encode_iff}

encode_letter : encode b'a' ≡ some (code 0x18000000 5)
unfolding encode huffman_table
encode_letter = refl

decode_letter : decode (code 0x18000000 5) ≡ some b'a'
unfolding decode huffman_table find
decode_letter = refl

decode_gap : decode (code 0x18000000 6) ≡ none
unfolding decode huffman_table find
decode_gap = refl

-- "www.example.com" takes 89 bits (RFC 7541, appendix C.4.1).
estimate_host :
    estimate_len (
      0x77 ∷ 0x77 ∷ 0x77 ∷ 0x2e ∷ 0x65 ∷ 0x78 ∷ 0x61 ∷ 0x6d ∷ 0x70 ∷ 0x6c ∷ 0x65 ∷ 0x2e ∷ 0x63
      ∷ 0x6f ∷ 0x6d ∷ [])
    ≡ 89
unfolding estimate_len encode huffman_table
estimate_host = refl

decode-encode_iff_example :
    (decode (code 0x18000000 5) ≡ some b'a') ↔ (encode b'a' ≡ some (code 0x18000000 5))
decode-encode_iff_example = decode-encode_iff (code 0x18000000 5) b'a'
