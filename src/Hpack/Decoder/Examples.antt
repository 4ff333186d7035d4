-- ===== src/Hpack/Decoder/Examples.antt =====
-- A block of RFC 7541, appendix C.4.1, decoded by a new decoder.
use h2pp.Prelude.{[], ◌∷◌, ok, ◌≡◌, arith}
use h2pp.Hpack.Bitstream.{Span}
use h2pp.Hpack.Decoder.{decoder, decode_loop, decode}
use h2pp.Hpack.Decoder.Runs.{Traced, decode-ends, decode-Traced}

-- `:method GET`, `:scheme http`, `:path /`, and `:authority www.example.com`, which is inserted.
abbrev request : Span
request = record {
  memory =
      0 ∷ 0 ∷ 9 ∷ 1 ∷ 4 ∷ 0 ∷ 0 ∷ 0 ∷ 1 ∷ 0x82 ∷ 0x86 ∷ 0x84 ∷ 0x41 ∷ 0x8c ∷ 0xf1 ∷ 0xe3 ∷ 0xc2
      ∷ 0xe5 ∷ 0xf2 ∷ 0x3a ∷ 0x6b ∷ 0xa0 ∷ 0xab ∷ 0x90 ∷ 0xf4 ∷ 0xff ∷ 0 ∷ [];
  first = 9;
  count = 17;
}

-- A run of a hundred turns, which would give no fields if it used them up.
decode-ends_example : decode_loop (ok []) 100 decoder request [] ≡ decode decoder request
decode-ends_example = decode-ends (ok []) 100 decoder request (omega arith)

decode-Traced_example : Traced decoder [] (decode decoder request)
decode-Traced_example = decode-Traced decoder request
