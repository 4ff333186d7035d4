-- ===== src/Hpack/EncoderStream/Pack/Pushed.antt =====
-- What `encode_string` of lib/hpack/encoder_stream.cpp pushes are bytes.
use h2pp.Prelude.{
  ℕ, zero, suc, ◌-◌, ◌*◌, ◌/◌, ◌%◌, ◌^◌, List, [], ◌∷◌, Bool, true, false, Bool-cases, inl, inr,
  All, All-append, ltb, if◌then◌else◌, arith,
}
use h2pp.Prelude.Bytes.{IsByte}
use h2pp.Prelude.Bits.{be_bytes}
use h2pp.Hpack.Huffman as Huffman
use h2pp.Hpack.Bitstream.Take.{All-take}
use h2pp.Hpack.EncoderStream.{code_of, tail_bytes, ready, encode_loop}

All-be_bytes : (n x : ℕ) → All IsByte (be_bytes n x)
unfolding be_bytes
All-be_bytes zero x = tt
All-be_bytes (suc n) x =
    All-append IsByte (be_bytes n (x / 256)) (x % 256 ∷ []) (All-be_bytes n (x / 256))
      (omega arith, tt)

All-if : (t : Bool) (xs : List ℕ) → All IsByte xs → All IsByte (if t then xs else [])
All-if true xs all = all
All-if false xs all = tt

ready-IsByte : (val len l : ℕ) → All IsByte (ready val len l).0
unfolding ready
ready-IsByte val len l = elim (Bool-cases (ltb (64 - len) l)) [
  | inl full ↦ rw (full) (All-take (len / 8) _ (All-be_bytes 8 (val * 2 ^ (64 - len) % 2 ^ 64)))
  | inr fits ↦ rw (fits) tt
]

pub encode_loop-IsByte : (src : List ℕ) (val len : ℕ) → All IsByte (encode_loop src val len)
unfolding encode_loop tail_bytes
encode_loop-IsByte [] val len = All-if (ltb 0 len) _ (All-take _ _ (All-be_bytes 8 _))
encode_loop-IsByte (b ∷ src) val len =
    All-append IsByte (ready val len (code_of (Huffman.encode b)).bit_length).0 _
      (ready-IsByte val len (code_of (Huffman.encode b)).bit_length) (encode_loop-IsByte src _ _)
