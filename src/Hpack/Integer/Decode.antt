-- ===== src/Hpack/Integer/Decode.antt =====
-- `decode` on any input, well formed or not.
use h2pp.Prelude.{
  ℕ, zero, suc, ◌+◌, ◌*◌, ◌%◌, ◌^◌, ◌≤◌, ◌≡◌, ◌≢◌, arith, List, [], ◌∷◌, ◌++◌, length, ok,
  undefined, bit_and, replicate,
}
use h2pp.Hpack.Integer.{decode, decode_groups, max_hpack_int, prefix_mask, Decoded}
use h2pp.Hpack.Integer.Prefix.{prefix_mask-lt}

decode_groups_takes :
    (src : List ℕ) (value m read : ℕ) (d : Decoded)
    → decode_groups src value m read ≡ ok d
    → (d.value ≤ max_hpack_int) × (read + 1 ≤ d.used_bytes) × (d.used_bytes ≤ read + length src)
unfolding decode_groups
decode_groups_takes [] value m read d e = cc
decode_groups_takes (b ∷ src) value m read d e = ground (
  arith,
  decode_groups_takes src ((value + bit_and b 0x7f * 2 ^ m % 2 ^ 64) % 2 ^ 64) (m + 7) (read + 1) d,
)

-- The value that `decode` returns is one that HPACK allows, and it has read at least one byte and
-- none behind the source.
pub decode_takes :
    (bit_suffix_len : ℕ) (src : List ℕ) (d : Decoded)
    → decode bit_suffix_len src ≡ ok d
    → (d.value ≤ max_hpack_int) × (1 ≤ d.used_bytes) × (d.used_bytes ≤ length src)
unfolding decode
decode_takes n [] d e = cc
decode_takes n (first ∷ src) d e =
    ground (arith, prefix_mask-lt n, decode_groups_takes src (bit_and first (prefix_mask n)) 0 1 d)

decode_groups-append :
    (src more : List ℕ) (value m read : ℕ) (d : Decoded)
    → decode_groups src value m read ≡ ok d
    → decode_groups (src ++ more) value m read ≡ ok d
unfolding decode_groups
decode_groups-append [] more value m read d e = cc
decode_groups-append (b ∷ src) more value m read d e = ground (
  arith,
  decode_groups-append src more ((value + bit_and b 0x7f * 2 ^ m % 2 ^ 64) % 2 ^ 64) (m + 7)
      (read + 1) d,
)

-- `decode` does not look past the integer: bytes added behind the source change nothing.
pub decode-append :
    (bit_suffix_len : ℕ) (src more : List ℕ) (d : Decoded)
    → decode bit_suffix_len src ≡ ok d
    → decode bit_suffix_len (src ++ more) ≡ ok d
unfolding decode
decode-append n [] more d e = cc
decode-append n (first ∷ src) more d e =
    ground (arith, decode_groups-append src more (bit_and first (prefix_mask n)) 0 1 d)

decode_groups-ne-undefined :
    (src : List ℕ) (value m read : ℕ)
    → m + 7 * length src ≤ 70
    → decode_groups src value m read ≢ undefined
unfolding decode_groups
decode_groups-ne-undefined [] value m read h = λ e. cc
decode_groups-ne-undefined (b ∷ src) value m read h = ground (
  arith,
  decode_groups-ne-undefined src ((value + bit_and b 0x7f * 2 ^ m % 2 ^ 64) % 2 ^ 64) (m + 7)
      (read + 1),
)

-- On a source of at most eleven bytes `decode` has no undefined behaviour.
pub decode-ne-undefined :
    (bit_suffix_len : ℕ) (src : List ℕ) → length src ≤ 11 → decode bit_suffix_len src ≢ undefined
unfolding decode
decode-ne-undefined n [] h = λ e. cc
decode-ne-undefined n (first ∷ src) h =
    ground (arith, decode_groups-ne-undefined src (bit_and first (prefix_mask n)) 0 1)

decode_groups_padded :
    (k : ℕ) (rest : List ℕ) (value m read : ℕ)
    → value ≤ max_hpack_int
    → m + 7 * k ≤ 70
    → decode_groups (replicate k 0x80 ++ rest) value m read
      ≡ decode_groups rest value (m + 7 * k) (read + k)
unfolding decode_groups
decode_groups_padded zero rest value m read h hm = ground arith
decode_groups_padded (suc k) rest value m read h hm =
    ground (arith, decode_groups_padded k rest value (m + 7) (read + 1))

shifted_out :
    (b value m read : ℕ) (rest : List ℕ)
    → 64 ≤ m
    → decode_groups (b ∷ rest) value m read ≡ undefined
unfolding decode_groups
shifted_out b value m read rest h = ground arith

-- A full prefix followed by ten bytes 0x80 brings `decode` to a shift of a 64-bit word by 70.
pub decode_padding_undefined :
    (init bit_suffix_len b : ℕ) (rest : List ℕ)
    → 1 ≤ bit_suffix_len
    → bit_suffix_len ≤ 4
    → bit_and init (prefix_mask bit_suffix_len) ≡ prefix_mask bit_suffix_len
    → decode bit_suffix_len (init ∷ replicate 10 0x80 ++ b ∷ rest) ≡ undefined
unfolding decode
decode_padding_undefined init n b rest lo hi full = ground (
  arith,
  prefix_mask-lt n,
  decode_groups_padded 10 (b ∷ rest) (prefix_mask n) 0 1,
  shifted_out b (prefix_mask n) 70 11 rest,
)
