-- ===== src/Hpack/HpackString/Examples.antt =====
-- Strings as the encoder_stream writes them, and read back.
use h2pp.Prelude.{ℕ, List, [], ◌∷◌, ◌+◌, ok, ◌≡◌, refl, arith, All, length}
use h2pp.Prelude.Bytes.{make_mask}
use h2pp.Prelude.Bits.{be_bytes}
use h2pp.Utils.Streambuf.{ceil_order2}
use h2pp.Hpack.Integer as Integer
use h2pp.Hpack.Integer.{prefix_mask}
use h2pp.Hpack.Bitstream.{Span}
use h2pp.Hpack.Huffman as Huffman
use h2pp.Hpack.Huffman.Codes.{huffman_table}
use h2pp.Hpack.EncoderStream.{EncoderStream, encoded, tail_bytes, ready, encode_loop, encode_string}
use h2pp.Hpack.HpackString.{read_loop, read_huffman_str, decode}
use h2pp.Hpack.HpackString.Fuel.{read_huffman_str-ends}
use h2pp.Hpack.HpackString.RoundTrip.{HasShortCode}
use h2pp.Hpack.HpackString.Written.{span_of, decode-write_string}

-- The header of a frame in front of the string.
abbrev out : EncoderStream
out = record { stream = 0 ∷ 0 ∷ 9 ∷ 1 ∷ 4 ∷ 0 ∷ 0 ∷ 0 ∷ 1 ∷ []; max_size = 100; left = 100 }

abbrev host : List ℕ
host = b'w' ∷ b'w' ∷ b'w' ∷ b'.' ∷ b'c' ∷ b'o' ∷ b'm' ∷ []

encoded_size : Integer.encode 0x80 1 (length (encode_string host)) ≡ ok (0x86 ∷ [])
unfolding Integer.encode encode_loop tail_bytes ready Huffman.encode huffman_table be_bytes
    make_mask ceil_order2 prefix_mask
encoded_size = refl

short_codes : All HasShortCode host
unfolding Huffman.encode huffman_table
short_codes = ground arith

enough : 1 + length (encode_string host) ≡ 7
unfolding encode_loop tail_bytes ready Huffman.encode huffman_table be_bytes make_mask ceil_order2
enough = refl

decode-write_string_example :
    decode (span_of out encoded (0x86 ∷ []) host (0 ∷ []) 7)
    ≡ ok (record { used_bytes = 1 + length (encode_string host); value = host })
decode-write_string_example =
    decode-write_string out (0x86 ∷ []) host (0 ∷ []) 7 (ground arith) short_codes (ground arith)
      (omega arith, tt) (omega arith) (omega arith) encoded_size (omega (arith, enough))

-- The seven letters of `host` without their size.
abbrev letters : Span
letters = record {
  memory = 0 ∷ 0 ∷ 9 ∷ 1 ∷ 4 ∷ 0 ∷ 0 ∷ 0 ∷ 1 ∷ 0xf1 ∷ 0xe3 ∷ 0xc2 ∷ 0xe4 ∷ 0x79 ∷ 0x29 ∷ 0 ∷ [];
  first = 9;
  count = 6;
}

-- A run of a hundred turns, which would give the one letter `!` if it used them up.
read_huffman_str-ends_example : read_loop (ok (b'!' ∷ [])) 100 letters 0 ≡ read_huffman_str letters
read_huffman_str-ends_example = read_huffman_str-ends (ok (b'!' ∷ [])) 100 letters (omega arith)
