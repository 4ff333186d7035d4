-- ===== src/Hpack/EncoderStream/Examples.antt =====
-- The Huffman form of "www.example.com" (RFC 7541, appendix C.4.1).
use h2pp.Prelude.{ℕ, List, [], ◌∷◌, ◌++◌, ◌≡◌, refl, arith, length}
use h2pp.Prelude.Bytes.{make_mask}
use h2pp.Prelude.Bits.{bits, be_bytes}
use h2pp.Utils.Streambuf.{ceil_order2}
use h2pp.Hpack.Huffman.{encode}
use h2pp.Hpack.Huffman.Codes.{huffman_table}
use h2pp.Hpack.EncoderStream.{tail_bytes, ready, encode_loop, encode_string}
use h2pp.Hpack.EncoderStream.Pack.{text_bits, padding}
use h2pp.Hpack.EncoderStream.Pack.Loop.{encode_string-bits}

abbrev host : List ℕ
host =
    b'w' ∷ b'w' ∷ b'w' ∷ b'.' ∷ b'e' ∷ b'x' ∷ b'a' ∷ b'm' ∷ b'p' ∷ b'l' ∷ b'e' ∷ b'.' ∷ b'c' ∷ b'o'
    ∷ b'm' ∷ []

encoded_host :
    encode_string host
    ≡ 0xf1 ∷ 0xe3 ∷ 0xc2 ∷ 0xe5 ∷ 0xf2 ∷ 0x3a ∷ 0x6b ∷ 0xa0 ∷ 0xab ∷ 0x90 ∷ 0xf4 ∷ 0xff ∷ []
unfolding encode_loop tail_bytes ready encode huffman_table be_bytes make_mask ceil_order2
encoded_host = refl

encode_string-bits_example :
    bits (encode_string host) ≡ text_bits host ++ padding (length (text_bits host))
encode_string-bits_example = encode_string-bits host (ground arith)
