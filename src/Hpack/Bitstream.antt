-- ===== src/Hpack/Bitstream.antt =====
-- lib/hpack/bitstream.h and bitstream.cpp. A span is a place in a memory: `take_bits` reads up to
-- seven bytes in front of the span, and one behind it.
pub mod Take
mod Examples
use h2pp.Prelude.{
  ℕ, ◌+◌, ◌-◌, ◌*◌, ◌/◌, ◌%◌, ◌^◌, ◌||◌, List, Bool, Result, ok, undefined, ◌>>=◌, length, take,
  drop, min, bit_and, ltb, leb, ◌==◌, if◌then◌else◌,
}
use h2pp.Prelude.Bytes.{make_mask}
use h2pp.Prelude.Bits.{be_value}

pub record Span : Type 0 where
  pub memory : List ℕ
  pub first : ℕ
  pub count : ℕ

-- The bytes of a span.
abbrev pub bytes_of : Span → List ℕ
bytes_of s = take s.count (drop s.first s.memory)

-- `subspan(n)`, for an `n` up to the size.
abbrev pub subspan : Span → ℕ → Span
subspan s n = record s { first = s.first + n; count = s.count - n }

-- The eight bytes from `first` on as a big-endian number, read where the memory has them; `behind` is
-- how far `first` is moved back.
unfoldable pub read64 : List ℕ → ℕ → ℕ → Result ℕ
read64 memory first behind =
    if ltb first behind || ltb (length memory) (first - behind + 8)
    then undefined
    else ok (be_value (take 8 (drop (first - behind) memory)))

-- The shift of `take_bits`, in `size_t`.
abbrev pub take_shift : ℕ → ℕ → ℕ
take_shift bytes_len first_gap = (32 + 2 ^ 64 - bytes_len * 8 + first_gap) % 2 ^ 64

-- What `take_bits` makes of the word; a shift by 64 or more is undefined.
pub cut_word : ℕ → ℕ → ℕ → ℕ → Result ℕ
cut_word word len last_gap shift =
    let bits = bit_and word (make_mask 64 len * 2 ^ last_gap % 2 ^ 64) in
    if leb 64 shift then undefined else ok (bits * 2 ^ shift % 2 ^ 64 % 2 ^ 32)

pub take_bits : Span → ℕ → ℕ → Result ℕ
take_bits span offset len = do
  let last_ind = (offset + len) / 8
  let last_gap = 8 - (offset + len) % 8
  word ← read64 span.memory (span.first + last_ind) 7
  cut_word word len last_gap (take_shift (last_ind - offset / 8 + 1) (offset % 8))

-- The new `offset` after `commit_bits`.
unfoldable pub commit_bits : Span → ℕ → ℕ → ℕ
commit_bits span offset bit_len = min (offset + bit_len) (span.count * 8)
