-- ===== src/Hpack/Integer/RoundTrip.antt =====
-- `decode` reads back what `encode` wrote.
use native.Mathlib.Nat.{div-add-mod}
use native.Mathlib.Numerals.{towards_suc}
use h2pp.Prelude.{
  ℕ, zero, suc, ◌+◌, ◌-◌, ◌*◌, ◌/◌, ◌%◌, ◌^◌, ◌≤◌, ◌<◌, ◌≡◌, ap, ◌∙◌, arith, List, ◌∷◌, ◌++◌,
  length, ok, inl, inr, bit_and,
}
use h2pp.Prelude.Bytes.{and_0x7f, and_0x80}
use h2pp.Hpack.Integer.{encode_groups, encode, decode, decode_groups, max_hpack_int}
use h2pp.Hpack.Integer.Prefix.{IsPrefix, prefix_of}
use h2pp.Hpack.Integer.Encode.{encode_groups_inv, encode_inv}

shift_seven : (m : ℕ) → 2 ^ (m + 7) ≡ 128 * 2 ^ m
shift_seven m = simp towards_suc (omega arith)

-- The value below `2 ^ m` and the groups above it.
split_group : (v m : ℕ) → v * 2 ^ m ≡ v % 128 * 2 ^ m + v / 128 * 2 ^ (m + 7)
split_group v m = omega (
  arith,
  ap (λ (t : ℕ). t * 2 ^ m) (div-add-mod v 128),
  ap (λ (t : ℕ). v / 128 * t) (shift_seven m),
)

pub decode_groups_last :
    (w value m read : ℕ) (rest : List ℕ)
    → w < 128
    → m < 64
    → value + w * 2 ^ m ≤ max_hpack_int
    → decode_groups (w ∷ rest) value m read
      ≡ ok (record { used_bytes = read + 1; value = value + w * 2 ^ m })
unfolding decode_groups
decode_groups_last w value m read rest hw hm fits = ground (arith, and_0x7f w, and_0x80 w)

pub decode_groups_more :
    (w value m read : ℕ) (rest : List ℕ)
    → w < 128
    → m < 64
    → value + w * 2 ^ m ≤ max_hpack_int
    → decode_groups ((w + 128) ∷ rest) value m read
      ≡ decode_groups rest (value + w * 2 ^ m) (m + 7) (read + 1)
unfolding decode_groups
decode_groups_more w value m read rest hw hm fits =
    ground (arith, and_0x7f (w + 128), and_0x80 (w + 128))

-- The loop of `decode` on what the loop of `encode` wrote.
decode_groups-encode_groups :
    (k v value m read : ℕ) (gs rest : List ℕ)
    → encode_groups k v ≡ ok gs
    → m + 7 * k < 71
    → value + v * 2 ^ m ≤ max_hpack_int
    → decode_groups (gs ++ rest) value m read
      ≡ ok (record { used_bytes = read + length gs; value = value + v * 2 ^ m })
unfolding encode_groups
decode_groups-encode_groups zero v value m read gs rest e hm fits = cc
decode_groups-encode_groups (suc k) v value m read gs rest e hm fits =
    elim (encode_groups_inv k v gs e) [
      | inl (small, e') ↦ rw e' (decode_groups_last v value m read rest small (omega arith) fits)
      | inr (gs', f, e') ↦ rw e' (
          decode_groups_more (v % 128) value m read (gs' ++ rest) (omega arith) (omega arith)
            (omega (arith, split_group v m))
          ∙ decode_groups-encode_groups k (v / 128) (value + v % 128 * 2 ^ m) (m + 7) (read + 1) gs'
              rest f (omega arith) (omega (arith, split_group v m))
          ∙ ground (arith, split_group v m))
    ]

module _ {bitlen m : ℕ} (p : IsPrefix bitlen m) (init : ℕ) (h : init < 256) (z : init % m ≡ 0) where
  first_byte : (x : ℕ) → x < m → bit_and (init + x) (m - 1) ≡ x
  first_byte x hx = ground (arith, p.low (init + x), p.room init, p.strip init x)

  decode_short :
      (v : ℕ) (rest : List ℕ)
      → v < m - 1
      → decode bitlen ((init + v) ∷ rest) ≡ ok (record { used_bytes = 1; value = v })
  unfolding decode
  decode_short v rest hv = ground (arith, p.mask, p.size, p.allowed, first_byte v)

  decode_long :
      (rest : List ℕ) → decode bitlen ((init + (m - 1)) ∷ rest) ≡ decode_groups rest (m - 1) 0 1
  unfolding decode
  decode_long rest = ground (arith, p.mask, p.size, p.allowed, first_byte (m - 1))

-- On every allowed prefix and value, `decode` returns the value that was encoded and the number of
-- its bytes, whatever follows them.
pub decode-encode :
    (init bitlen v : ℕ) (bs rest : List ℕ)
    → init < 256
    → 1 ≤ bitlen
    → bitlen ≤ 4
    → init % 2 ^ (8 - bitlen) ≡ 0
    → encode init bitlen v ≡ ok bs
    → decode bitlen (bs ++ rest) ≡ ok (record { used_bytes = length bs; value = v })
decode-encode init bitlen v bs rest hi lo up z e =
    let (m, p) = prefix_of bitlen lo up in
    let z' : init % m ≡ 0 = rw p.power z in
    let (fits, cases) = encode_inv p init v bs hi z' e in
    elim cases [
      | inl (short, e') ↦ rw e' (decode_short p init hi z' v rest short)
      | inr (gs, long, f, e') ↦ rw e' (
          decode_long p init hi z' (gs ++ rest)
          ∙ decode_groups-encode_groups 4 (v - (m - 1)) (m - 1) 0 1 gs rest f (omega arith)
              (omega arith)
          ∙ ground (arith, p.size))
    ]
