-- ===== src/Hpack/Integer.antt =====
-- lib/hpack/integer.h and integer.cpp: integers with a prefix of 1 to 7 bits and groups of seven.
-- Spans are lists of bytes; `value[5]` of an encoded result is the list of the bytes written so
-- far, and a write behind its end is `undefined`.
pub mod Prefix
pub mod Encode
pub mod Decode
pub mod RoundTrip
mod Examples
use h2pp.Prelude.{
  ℕ, zero, suc, ◌+◌, ◌-◌, ◌*◌, ◌/◌, ◌%◌, ◌^◌, ◌<◌, bit_and, bit_or, Bool, true, false, ◌||◌, List,
  [], ◌∷◌, ◌++◌, Result, ok, throw, undefined, ◌>>=◌, Exception, overflow_error, invalid_argument,
  require, ltb, leb, ◌==◌, if◌then◌else◌, not,
}
use h2pp.Prelude.Bytes.{make_mask}

-- MAX_HPACK_INT
abbrev pub max_hpack_int : ℕ
max_hpack_int = 2 ^ 24 - 16

-- `utils::make_mask<uint8_t>(8 - bitlen)`, the difference taken in `unsigned`.
unfoldable pub prefix_mask : ℕ → ℕ
unfolding make_mask
prefix_mask bitlen = make_mask 8 ((8 + 2 ^ 32 - bitlen) % 2 ^ 32)

-- The loop of `encode` with `slots` bytes of `value[5]` left, and the byte written behind it.
unfoldable pub encode_groups : ℕ → ℕ → Result (List ℕ)
encode_groups zero v = undefined
encode_groups (suc slots) v =
    let rest = encode_groups slots (v / 128) in
    if leb 0x80 v
    then (do groups ← rest; ok (bit_or (bit_and (v % 256) 0x7f) 0x80 ∷ groups))
    else ok (bit_and (v % 256) 0x7f ∷ [])

unfoldable pub encode : ℕ → ℕ → ℕ → Result (List ℕ)
encode init bitlen src_value =
    let mask = prefix_mask bitlen in
    if ltb max_hpack_int src_value
    then throw overflow_error
    else if ltb src_value mask
    then ok (bit_or init (bit_and (src_value % 256) mask) ∷ [])
    else (do groups ← encode_groups 4 (src_value - mask); ok (bit_or init mask ∷ groups))

pub record Decoded : Type 0 where
  pub used_bytes : ℕ
  pub value : ℕ

-- The `do` loop of `decode` on what follows the first byte; `m` is the shift, `read` the bytes
-- that are behind. A shift of a `uint64_t` by 64 or more is undefined.
pub decode_groups : List ℕ → ℕ → ℕ → ℕ → Result Decoded
decode_groups [] value m read = throw invalid_argument
decode_groups (b ∷ src) value m read =
    let value' = (value + bit_and b 0x7f * 2 ^ m % 2 ^ 64) % 2 ^ 64 in
    let more = decode_groups src value' (m + 7) (read + 1) in
    if leb 64 m
    then undefined
    else if ltb max_hpack_int value'
    then throw overflow_error
    else if bit_and b 0x80 == 0
    then ok (record { used_bytes = read + 1; value = value' % 2 ^ 32 })
    else more

-- `init_src.front()` of a span that is not empty.
unfoldable pub decode : ℕ → List ℕ → Result Decoded
decode bit_suffix_len [] = throw invalid_argument
decode bit_suffix_len (first ∷ src) =
    let mask = prefix_mask bit_suffix_len in
    if ltb 4 bit_suffix_len || (bit_suffix_len == 0)
    then throw invalid_argument
    else if ltb (bit_and first mask) mask
    then ok (record { used_bytes = 1; value = bit_and first mask % 2 ^ 32 })
    else decode_groups src (bit_and first mask) 0 1
