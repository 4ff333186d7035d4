-- ===== src/Hpack/HpackString/Prefixed.antt =====
-- The flag and the size in front of a string, in lib/hpack/string.cpp.
use h2pp.Prelude.{
  ℕ, ◌+◌, ◌-◌, ◌/◌, ◌%◌, ◌^◌, ◌<◌, ◌≤◌, List, ◌++◌, true, false, not, ok, ok-injective, ◌≡◌, inl,
  inr, refl, sym, ap, subst, ◌∙◌, length, All, bit_and, get_or, leb, ◌==◌, arith,
}
use h2pp.Prelude.Bytes.{IsByte, and_0x80}
use h2pp.Prelude.Bits.{value}
use h2pp.Hpack.Integer as Integer
use h2pp.Hpack.Integer.{max_hpack_int}
use h2pp.Hpack.Integer.Prefix.{one_bit}
use h2pp.Hpack.Integer.Encode.{encode_inv, encode_total}
use h2pp.Hpack.Integer.RoundTrip.{decode-encode}
use h2pp.Hpack.Bitstream.{Span, bytes_of, subspan}
use h2pp.Hpack.HpackString.{read_value, decode}

-- The first byte of an encoded size keeps the flag.
pub flag_lem :
    (init n : ℕ) (size rest : List ℕ)
    → init < 256
    → init % 128 ≡ 0
    → Integer.encode init 1 n ≡ ok size
    → not (bit_and (get_or (size ++ rest) 0 0) 0x80 == 0) ≡ leb 128 init
flag_lem init n size rest h z e =
    let (fits, cases) = encode_inv one_bit init n size h z e in
    elim cases [
      | inl (small, at) ↦
          rw (at) (of_first (init + n) (omega (arith, h, z)) (omega (arith, small, z)))
      | inr (gs, large, more, at) ↦
          rw (at) (of_first (init + 127) (omega (arith, h, z)) (omega (arith, z)))
    ]
  where
    of_first : (b : ℕ) → b < 256 → b / 128 ≡ init / 128 → not (bit_and b 0x80 == 0) ≡ leb 128 init
    of_first b small same = ground (arith, and_0x80 b small, same, h, z)

pub size_lem :
    (init n : ℕ) (size : List ℕ)
    → init < 256
    → init % 128 ≡ 0
    → Integer.encode init 1 n ≡ ok size
    → (1 ≤ length size) × (length size ≤ 5) × (n ≤ max_hpack_int) × All IsByte size
size_lem init n size h z e =
    let small = (encode_inv one_bit init n size h z e).0 in
    let (bs, f, all, lo, up) =
      encode_total init 1 n h (omega arith) (omega arith) (omega (arith, z)) small in
    let same : bs ≡ size = ok-injective (sym f ∙ e) in
    (
      omega (arith, ap length same, lo),
      omega (arith, ap length same, up),
      small,
      subst (All IsByte) same all,
    )

pub decode-size :
    (s : Span) (init n : ℕ) (size rest value : List ℕ)
    → bytes_of s ≡ size ++ rest
    → length size + n ≤ s.count
    → init < 256
    → init % 128 ≡ 0
    → Integer.encode init 1 n ≡ ok size
    → read_value (leb 128 init) (subspan s (length size)) n ≡ ok value
    → decode s ≡ ok (record { used_bytes = length size + n; value = value })
unfolding decode
decode-size s init n size rest value at fits h z e read =
    rw
      (
        some_bytes,
        at,
        decode-encode init 1 n size rest h (omega arith) (omega arith) (omega (arith, z)) e,
        has_room,
        flag_lem init n size rest h z e,
        read,
        no_wrap,
      )
      refl
  where
    written : (1 ≤ length size) × (length size ≤ 5) × (n ≤ max_hpack_int) × All IsByte size
    written = size_lem init n size h z e

    some_bytes : (s.count == 0) ≡ false
    some_bytes = ground (arith, fits, written.0)

    has_room : leb n (s.count - length size) ≡ true
    has_room = ground (arith, fits)

    no_wrap : (length size + n) % 2 ^ 32 ≡ length size + n
    no_wrap = omega (arith, written.1, written.2)
