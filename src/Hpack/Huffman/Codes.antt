-- ===== src/Hpack/Huffman/Codes.antt =====
-- The static code of RFC 7541, appendix B, as lib/hpack/huffman.cpp spells it: `huffman_table`, whose
-- index is the byte, in two halves.
use h2pp.Prelude.{ℕ, List, [], ◌∷◌, ◌++◌}

-- `huffman_code`: the code left-aligned in 32 bits, and its length.
pub record HuffmanCode : Type 0 where
  pub huffman_code : ℕ
  pub bit_length : ℕ

abbrev pub code : ℕ → ℕ → HuffmanCode
code huffman_code bit_length = record { huffman_code = huffman_code; bit_length = bit_length }

-- The codes of the bytes 0 to 127.
unfoldable pub ascii_codes : List HuffmanCode
ascii_codes =
    code 0xffc00000 13
    ∷ code 0xffffb000 23
    ∷ code 0xfffffe20 28
    ∷ code 0xfffffe30 28
    ∷ code 0xfffffe40 28
    ∷ code 0xfffffe50 28
    ∷ code 0xfffffe60 28
    ∷ code 0xfffffe70 28
    ∷ code 0xfffffe80 28
    ∷ code 0xffffea00 24
    ∷ code 0xfffffff0 30
    ∷ code 0xfffffe90 28
    ∷ code 0xfffffea0 28
    ∷ code 0xfffffff4 30
    ∷ code 0xfffffeb0 28
    ∷ code 0xfffffec0 28
    ∷ code 0xfffffed0 28
    ∷ code 0xfffffee0 28
    ∷ code 0xfffffef0 28
    ∷ code 0xffffff00 28
    ∷ code 0xffffff10 28
    ∷ code 0xffffff20 28
    ∷ code 0xfffffff8 30
    ∷ code 0xffffff30 28
    ∷ code 0xffffff40 28
    ∷ code 0xffffff50 28
    ∷ code 0xffffff60 28
    ∷ code 0xffffff70 28
    ∷ code 0xffffff80 28
    ∷ code 0xffffff90 28
    ∷ code 0xffffffa0 28
    ∷ code 0xffffffb0 28
    ∷ code 0x50000000 6
    ∷ code 0xfe000000 10
    ∷ code 0xfe400000 10
    ∷ code 0xffa00000 12
    ∷ code 0xffc80000 13
    ∷ code 0x54000000 6
    ∷ code 0xf8000000 8
    ∷ code 0xff400000 11
    ∷ code 0xfe800000 10
    ∷ code 0xfec00000 10
    ∷ code 0xf9000000 8
    ∷ code 0xff600000 11
    ∷ code 0xfa000000 8
    ∷ code 0x58000000 6
    ∷ code 0x5c000000 6
    ∷ code 0x60000000 6
    ∷ code 0x00000000 5
    ∷ code 0x08000000 5
    ∷ code 0x10000000 5
    ∷ code 0x64000000 6
    ∷ code 0x68000000 6
    ∷ code 0x6c000000 6
    ∷ code 0x70000000 6
    ∷ code 0x74000000 6
    ∷ code 0x78000000 6
    ∷ code 0x7c000000 6
    ∷ code 0xb8000000 7
    ∷ code 0xfb000000 8
    ∷ code 0xfff80000 15
    ∷ code 0x80000000 6
    ∷ code 0xffb00000 12
    ∷ code 0xff000000 10
    ∷ code 0xffd00000 13
    ∷ code 0x84000000 6
    ∷ code 0xba000000 7
    ∷ code 0xbc000000 7
    ∷ code 0xbe000000 7
    ∷ code 0xc0000000 7
    ∷ code 0xc2000000 7
    ∷ code 0xc4000000 7
    ∷ code 0xc6000000 7
    ∷ code 0xc8000000 7
    ∷ code 0xca000000 7
    ∷ code 0xcc000000 7
    ∷ code 0xce000000 7
    ∷ code 0xd0000000 7
    ∷ code 0xd2000000 7
    ∷ code 0xd4000000 7
    ∷ code 0xd6000000 7
    ∷ code 0xd8000000 7
    ∷ code 0xda000000 7
    ∷ code 0xdc000000 7
    ∷ code 0xde000000 7
    ∷ code 0xe0000000 7
    ∷ code 0xe2000000 7
    ∷ code 0xe4000000 7
    ∷ code 0xfc000000 8
    ∷ code 0xe6000000 7
    ∷ code 0xfd000000 8
    ∷ code 0xffd80000 13
    ∷ code 0xfffe0000 19
    ∷ code 0xffe00000 13
    ∷ code 0xfff00000 14
    ∷ code 0x88000000 6
    ∷ code 0xfffa0000 15
    ∷ code 0x18000000 5
    ∷ code 0x8c000000 6
    ∷ code 0x20000000 5
    ∷ code 0x90000000 6
    ∷ code 0x28000000 5
    ∷ code 0x94000000 6
    ∷ code 0x98000000 6
    ∷ code 0x9c000000 6
    ∷ code 0x30000000 5
    ∷ code 0xe8000000 7
    ∷ code 0xea000000 7
    ∷ code 0xa0000000 6
    ∷ code 0xa4000000 6
    ∷ code 0xa8000000 6
    ∷ code 0x38000000 5
    ∷ code 0xac000000 6
    ∷ code 0xec000000 7
    ∷ code 0xb0000000 6
    ∷ code 0x40000000 5
    ∷ code 0x48000000 5
    ∷ code 0xb4000000 6
    ∷ code 0xee000000 7
    ∷ code 0xf0000000 7
    ∷ code 0xf2000000 7
    ∷ code 0xf4000000 7
    ∷ code 0xf6000000 7
    ∷ code 0xfffc0000 15
    ∷ code 0xff800000 11
    ∷ code 0xfff40000 14
    ∷ code 0xffe80000 13
    ∷ code 0xffffffc0 28
    ∷ []

-- The codes of the bytes 128 to 255, and of EOS.
unfoldable pub high_codes : List HuffmanCode
high_codes =
    code 0xfffe6000 20
    ∷ code 0xffff4800 22
    ∷ code 0xfffe7000 20
    ∷ code 0xfffe8000 20
    ∷ code 0xffff4c00 22
    ∷ code 0xffff5000 22
    ∷ code 0xffff5400 22
    ∷ code 0xffffb200 23
    ∷ code 0xffff5800 22
    ∷ code 0xffffb400 23
    ∷ code 0xffffb600 23
    ∷ code 0xffffb800 23
    ∷ code 0xffffba00 23
    ∷ code 0xffffbc00 23
    ∷ code 0xffffeb00 24
    ∷ code 0xffffbe00 23
    ∷ code 0xffffec00 24
    ∷ code 0xffffed00 24
    ∷ code 0xffff5c00 22
    ∷ code 0xffffc000 23
    ∷ code 0xffffee00 24
    ∷ code 0xffffc200 23
    ∷ code 0xffffc400 23
    ∷ code 0xffffc600 23
    ∷ code 0xffffc800 23
    ∷ code 0xfffee000 21
    ∷ code 0xffff6000 22
    ∷ code 0xffffca00 23
    ∷ code 0xffff6400 22
    ∷ code 0xffffcc00 23
    ∷ code 0xffffce00 23
    ∷ code 0xffffef00 24
    ∷ code 0xffff6800 22
    ∷ code 0xfffee800 21
    ∷ code 0xfffe9000 20
    ∷ code 0xffff6c00 22
    ∷ code 0xffff7000 22
    ∷ code 0xffffd000 23
    ∷ code 0xffffd200 23
    ∷ code 0xfffef000 21
    ∷ code 0xffffd400 23
    ∷ code 0xffff7400 22
    ∷ code 0xffff7800 22
    ∷ code 0xfffff000 24
    ∷ code 0xfffef800 21
    ∷ code 0xffff7c00 22
    ∷ code 0xffffd600 23
    ∷ code 0xffffd800 23
    ∷ code 0xffff0000 21
    ∷ code 0xffff0800 21
    ∷ code 0xffff8000 22
    ∷ code 0xffff1000 21
    ∷ code 0xffffda00 23
    ∷ code 0xffff8400 22
    ∷ code 0xffffdc00 23
    ∷ code 0xffffde00 23
    ∷ code 0xfffea000 20
    ∷ code 0xffff8800 22
    ∷ code 0xffff8c00 22
    ∷ code 0xffff9000 22
    ∷ code 0xffffe000 23
    ∷ code 0xffff9400 22
    ∷ code 0xffff9800 22
    ∷ code 0xffffe200 23
    ∷ code 0xfffff800 26
    ∷ code 0xfffff840 26
    ∷ code 0xfffeb000 20
    ∷ code 0xfffe2000 19
    ∷ code 0xffff9c00 22
    ∷ code 0xffffe400 23
    ∷ code 0xffffa000 22
    ∷ code 0xfffff600 25
    ∷ code 0xfffff880 26
    ∷ code 0xfffff8c0 26
    ∷ code 0xfffff900 26
    ∷ code 0xfffffbc0 27
    ∷ code 0xfffffbe0 27
    ∷ code 0xfffff940 26
    ∷ code 0xfffff100 24
    ∷ code 0xfffff680 25
    ∷ code 0xfffe4000 19
    ∷ code 0xffff1800 21
    ∷ code 0xfffff980 26
    ∷ code 0xfffffc00 27
    ∷ code 0xfffffc20 27
    ∷ code 0xfffff9c0 26
    ∷ code 0xfffffc40 27
    ∷ code 0xfffff200 24
    ∷ code 0xffff2000 21
    ∷ code 0xffff2800 21
    ∷ code 0xfffffa00 26
    ∷ code 0xfffffa40 26
    ∷ code 0xffffffd0 28
    ∷ code 0xfffffc60 27
    ∷ code 0xfffffc80 27
    ∷ code 0xfffffca0 27
    ∷ code 0xfffec000 20
    ∷ code 0xfffff300 24
    ∷ code 0xfffed000 20
    ∷ code 0xffff3000 21
    ∷ code 0xffffa400 22
    ∷ code 0xffff3800 21
    ∷ code 0xffff4000 21
    ∷ code 0xffffe600 23
    ∷ code 0xffffa800 22
    ∷ code 0xffffac00 22
    ∷ code 0xfffff700 25
    ∷ code 0xfffff780 25
    ∷ code 0xfffff400 24
    ∷ code 0xfffff500 24
    ∷ code 0xfffffa80 26
    ∷ code 0xffffe800 23
    ∷ code 0xfffffac0 26
    ∷ code 0xfffffcc0 27
    ∷ code 0xfffffb00 26
    ∷ code 0xfffffb40 26
    ∷ code 0xfffffce0 27
    ∷ code 0xfffffd00 27
    ∷ code 0xfffffd20 27
    ∷ code 0xfffffd40 27
    ∷ code 0xfffffd60 27
    ∷ code 0xffffffe0 28
    ∷ code 0xfffffd80 27
    ∷ code 0xfffffda0 27
    ∷ code 0xfffffdc0 27
    ∷ code 0xfffffde0 27
    ∷ code 0xfffffe00 27
    ∷ code 0xfffffb80 26
    ∷ code 0xfffffffc 30
    ∷ []

unfoldable pub huffman_table : List HuffmanCode
unfolding ascii_codes high_codes
huffman_table = ascii_codes ++ high_codes
