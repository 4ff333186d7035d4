-- ===== src/Hpack/HpackString.antt =====
-- lib/hpack/string.h and string.cpp: strings, as they are or in the Huffman code. The namespace
-- `string` is the module HpackString.
pub mod Symbols
mod Examples
pub mod Fuel
pub mod Written
pub mod Prefixed
pub mod RoundTrip
pub mod Padding
use h2pp.Prelude.{
  ℕ, zero, suc, ◌+◌, ◌-◌, ◌*◌, ◌%◌, ◌^◌, List, [], ◌∷◌, Bool, true, false, ◌&&◌, not, Option, none,
  some, Result, ok, throw, undefined, ◌>>=◌, invalid_argument, require, length, take, get_or,
  bit_and, ltb, leb, ◌==◌, if◌then◌else◌,
}
use h2pp.Prelude.Bytes.{make_mask}
use h2pp.Hpack.Integer as Integer
use h2pp.Hpack.Huffman as Huffman
use h2pp.Hpack.Huffman.{eos}
use h2pp.Hpack.Huffman.Codes.{code}
use h2pp.Hpack.Huffman.Hash.{code_len_array}
use h2pp.Hpack.Bitstream.{Span, bytes_of, subspan, take_bits, commit_bits}

-- The check of the padding, for fewer than eight bits that are left.
unfoldable pub is_padding : Span → ℕ → Bool
is_padding src pos =
    let left = src.count * 8 - pos in
    let mask = make_mask 8 left in
    ltb left 8 && (mask == bit_and (get_or src.memory (src.first + src.count - 1) 0) mask)

-- The body of the `for` loop over the lengths: `break` with the symbol and its length, or the rest.
abbrev pub symbol_or : Option ℕ → ℕ → Result (Option (ℕ × ℕ)) → Result (Option (ℕ × ℕ))
symbol_or none bit_len more = more
symbol_or (some index) bit_len more = ok (some (index, bit_len))

unfoldable pub find_symbol : List ℕ → Span → ℕ → Result (Option (ℕ × ℕ))
find_symbol [] src pos = ok none
find_symbol (bit_len ∷ lengths) src pos = do
  hcode ← take_bits src pos bit_len
  symbol_or (Huffman.decode (code hcode bit_len)) bit_len (find_symbol lengths src pos)

-- What the loop does with the symbol; `more` is the rest of the loop after so many bits.
abbrev pub with_symbol : Option (ℕ × ℕ) → (ℕ → Result (List ℕ)) → Result (List ℕ)
with_symbol none more = throw invalid_argument
with_symbol (some (index, code_len)) more =
    if index == eos then ok [] else (do result ← more code_len; ok (index % 2 ^ 8 ∷ result))

-- The `while` loop of `read_huffman_str`, on fuel; `exhausted` is what a run that uses it up gives.
unfoldable pub read_loop : Result (List ℕ) → ℕ → Span → ℕ → Result (List ℕ)
read_loop exhausted zero src pos = exhausted
read_loop exhausted (suc fuel) src pos =
    let more : ℕ → Result (List ℕ) =
      λ code_len. read_loop exhausted fuel src (commit_bits src pos code_len) in
    if pos == src.count * 8
    then ok []
    else if is_padding src pos
    then ok []
    else (do index ← find_symbol code_len_array src pos; with_symbol index more)

-- A turn of the loop commits at least one bit.
unfoldable pub read_huffman_str : Span → Result (List ℕ)
read_huffman_str src = read_loop undefined (src.count * 8 + 1) src 0

pub record DecodedString : Type 0 where
  pub used_bytes : ℕ
  pub value : List ℕ

-- The value of a string of `size` bytes at the front of `src`.
unfoldable pub read_value : Bool → Span → ℕ → Result (List ℕ)
read_value is_huffman src size =
    if is_huffman
    then read_huffman_str (record src { count = size })
    else ok (take size (bytes_of src))

unfoldable pub decode : Span → Result DecodedString
decode src = do
  done ← require (not (src.count == 0)) invalid_argument
  str_length ← Integer.decode 1 (bytes_of src)
  let is_huffman = not (bit_and (get_or (bytes_of src) 0 0) 0x80 == 0)
  let rest = subspan src str_length.used_bytes
  done ← require (leb str_length.value rest.count) invalid_argument
  value ← read_value is_huffman rest str_length.value
  ok (record { used_bytes = (str_length.used_bytes + str_length.value) % 2 ^ 32; value = value })
