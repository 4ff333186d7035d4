-- ===== src/Hpack/Bitstream/Examples.antt =====
-- `take_bits` on nine bytes.
use h2pp.Prelude.{List, [], ◌∷◌, ◌++◌, Bool, true, false, ok, ◌≡◌, refl, arith, ◌*◌, ◌^◌, ◌-◌}
use h2pp.Prelude.Bits.{bits, value}
use h2pp.Hpack.Bitstream.{Span, take_bits, commit_bits}
use h2pp.Hpack.Bitstream.Take.{take_bits-cut}

-- The last of the nine bytes.
abbrev last_byte : Span
last_byte = record { memory = 0 ∷ 0 ∷ 0 ∷ 0 ∷ 0 ∷ 0 ∷ 0 ∷ 0xa5 ∷ 0x3c ∷ []; first = 7; count = 1 }

commit_end : commit_bits last_byte 5 7 ≡ 8
unfolding commit_bits
commit_end = refl

abbrev front : List Bool
front = bits (0 ∷ 0 ∷ 0 ∷ 0 ∷ 0 ∷ 0 ∷ 0 ∷ []) ++ (true ∷ [])

take_bits-cut_example :
    take_bits last_byte 1 3 ≡ ok (value (false ∷ true ∷ false ∷ []) * 2 ^ (32 - 3))
unfolding bits
take_bits-cut_example =
    take_bits-cut last_byte 1 front (false ∷ true ∷ false ∷ [])
      (false ∷ true ∷ false ∷ true ∷ bits (0x3c ∷ [])) refl (ground arith) refl (omega arith)
      (omega arith) (omega arith)
