-- ===== src/Hpack/Huffman.antt =====
-- lib/hpack/huffman.h and huffman.cpp.
pub mod Codes
pub mod Hash
pub mod Codec
mod Examples
use h2pp.Prelude.{
  ℕ, ◌+◌, List, [], ◌∷◌, Option, none, some, Result, ok, undefined, get_elem?, ◌==◌, ◌&&◌, Bool,
  false, if◌then◌else◌,
}
use Codes.{HuffmanCode, code, huffman_table}
use Hash.{find}

-- EOS
abbrev pub eos : ℕ
eos = 256

-- Whether `huffman_table[index]` is the given code.
abbrev pub is_code : Option HuffmanCode → HuffmanCode → Bool
is_code none c = false
is_code (some entry) c =
    (entry.huffman_code == c.huffman_code) && (c.bit_length == entry.bit_length)

abbrev pub checked : Option ℕ → HuffmanCode → Option ℕ
checked none c = none
checked (some index) c = if is_code (get_elem? huffman_table index) c then some index else none

unfoldable pub decode : HuffmanCode → Option ℕ
decode c = checked (find c.huffman_code) c

-- `huffman_table[value]`
unfoldable pub encode : ℕ → Option HuffmanCode
encode value = get_elem? huffman_table value

abbrev pub bits_of : Option HuffmanCode → ℕ
bits_of none = 0
bits_of (some c) = c.bit_length

-- The length of the encoded bytes, in bits.
unfoldable pub estimate_len : List ℕ → ℕ
estimate_len [] = 0
estimate_len (b ∷ bs) = bits_of (encode b) + estimate_len bs
