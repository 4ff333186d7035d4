-- ===== src/Hpack/EncoderStream.antt =====
-- lib/hpack/encoder_stream.h and encoder_stream.cpp. The `streambuf` is the list of the bytes that it
-- stores, which `push_back` of lib/utils/streambuf.cpp extends at its end.
pub mod Pack
mod Examples
use h2pp.Prelude.{
  ℕ, ◌+◌, ◌-◌, ◌*◌, ◌/◌, ◌%◌, ◌^◌, List, [], ◌∷◌, ◌++◌, Bool, true, false, Option, none, some,
  length, take, bit_or, ltb, leb, if◌then◌else◌,
}
use h2pp.Prelude.Bytes.{make_mask}
use h2pp.Prelude.Bits.{be_bytes}
use h2pp.Utils.Streambuf.{ceil_order2}
use h2pp.Hpack.Huffman.Codes.{HuffmanCode, code}
use h2pp.Hpack.Huffman.{encode}

pub record EncoderStream : Type 0 where
  pub stream : List ℕ
  pub max_size : ℕ
  pub left : ℕ

unfoldable pub encoder_stream : ℕ → EncoderStream
encoder_stream max = record { stream = []; max_size = max; left = max }

unfoldable pub push_back : EncoderStream → List ℕ → EncoderStream × Bool
push_back s src =
    if leb (length src) s.left
    then (record s { left = s.left - length src; stream = s.stream ++ src }, true)
    else (s, false)

-- `huffman::encode` of a byte, which is always in the table.
abbrev pub code_of : Option HuffmanCode → HuffmanCode
code_of none = code 0 0
code_of (some c) = c

-- The tail of `encode_string`: the bits left in `val`, filled up with ones.
unfoldable pub tail_bytes : ℕ → ℕ → List ℕ
tail_bytes val len =
    let bites_left = 64 - len in
    let filled = bit_or (val * 2 ^ bites_left % 2 ^ 64) (make_mask 64 bites_left) in
    if ltb 0 len then take (ceil_order2 len 3 / 8) (be_bytes 8 filled) else []

-- The bytes that are ready, and the bits of `val` that are left, when a code of `bit_length` bits
-- does not fit any more.
unfoldable pub ready : ℕ → ℕ → ℕ → List ℕ × ℕ
ready val len bit_length =
    let bites_left = 64 - len in
    if ltb bites_left bit_length
    then (take (len / 8) (be_bytes 8 (val * 2 ^ bites_left % 2 ^ 64)), len - len / 8 * 8)
    else ([], len)

-- The loop of `encode_string` over `val` and `len`: the bytes that it pushes.
unfoldable pub encode_loop : List ℕ → ℕ → ℕ → List ℕ
unfolding tail_bytes ready
encode_loop [] val len = tail_bytes val len
encode_loop (byte ∷ src) val len =
    let c = code_of (encode byte) in
    let (pushed, len') = ready val len c.bit_length in
    let val' =
      bit_or (val * 2 ^ c.bit_length % 2 ^ 64) (c.huffman_code / 2 ^ (32 - c.bit_length)) in
    pushed ++ encode_loop src val' (len' + c.bit_length)

abbrev pub encode_string : List ℕ → List ℕ
encode_string src = encode_loop src 0 0

-- `constants::string_flag`
pub data StringFlag : Type 0 where
  inplace encoded : StringFlag

unfoldable pub write_string : EncoderStream → StringFlag → List ℕ → List ℕ → EncoderStream
write_string s flag encoded_size src = elim flag [
  | encoded ↦ record s { stream = s.stream ++ (encoded_size ++ encode_string src) }
  | inplace ↦ record s { stream = s.stream ++ (encoded_size ++ src) }
]

-- The bytes stored, and the stream after it.
unfoldable pub flush : EncoderStream → List ℕ × EncoderStream
flush s = (s.stream, record s { left = s.max_size; stream = [] })
