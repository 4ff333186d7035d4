-- ===== src/Utils/Streambuf.antt =====
-- lib/utils/streambuf.h and streambuf.cpp. The deque of buffers is a list, its back first.
pub mod Stored
mod Examples
use h2pp.Prelude.{
  ℕ, zero, suc, ◌+◌, ◌-◌, ◌*◌, ◌/◌, ◌%◌, ◌^◌, List, [], ◌∷◌, ◌++◌, length, take, drop, min, max,
  bit_and, Option, none, some, ltb, ◌==◌, if◌then◌else◌,
}
use h2pp.Prelude.Bytes.{make_mask}
use h2pp.Utils.Buffer.{Buffer, buffer, prepared, commit, write}

-- `utils::ceil_order2` of lib/utils/utils.h.
unfoldable pub ceil_order2 : ℕ → ℕ → ℕ
unfolding make_mask
ceil_order2 value order =
    bit_and ((value + make_mask 64 order) % 2 ^ 64) (2 ^ 64 - 1 - make_mask 64 order)

abbrev pub min_buffer_size : ℕ
min_buffer_size = 64

abbrev pub max_buffer_size : ℕ
max_buffer_size = 4096

pub align_size : ℕ → ℕ
align_size size = if ltb max_buffer_size size then ceil_order2 size 12 else ceil_order2 size 6

pub check_size : (ℕ → List ℕ) → List Buffer → ℕ → List Buffer
unfolding align_size
check_size fresh [] sz = buffer fresh (max (align_size sz) min_buffer_size) ∷ []
check_size fresh (last ∷ buffers) sz =
    let next_size = min (last.maxsize * 2) max_buffer_size in
    if prepared last == 0
    then buffer fresh (max (align_size sz) next_size) ∷ last ∷ buffers
    else last ∷ buffers

-- The body of the loop of `push_back` behind `check_size`: `memcpy` into the last buffer and its
-- `commit`, and the bytes that are left. There is always a last buffer.
pub fill : List Buffer → List ℕ → List Buffer × List ℕ
fill [] src = ([], src)
fill (last ∷ buffers) src =
    let n = min (length src) (prepared last) in
    let written = record last { memory = write last.offset (take n src) last.memory } in
    ((commit written n).0 ∷ buffers, drop n src)

-- The loop of `push_back`, `none` where the fuel runs out.
pub push_loop : ℕ → (ℕ → List ℕ) → List Buffer → List ℕ → Option (List Buffer)
push_loop fuel fresh buffers [] = some buffers
push_loop zero fresh buffers (b ∷ src) = none
push_loop (suc fuel) fresh buffers (b ∷ src) =
    let (buffers', left) = fill (check_size fresh buffers (length (b ∷ src))) (b ∷ src) in
    push_loop fuel fresh buffers' left

-- Each turn stores a byte at least, so the length is fuel enough.
pub push_back : (ℕ → List ℕ) → List Buffer → List ℕ → Option (List Buffer)
push_back fresh buffers src = push_loop (length src) fresh buffers src

-- The buffers, and those of the `streambuf` after it.
pub flush : List Buffer → List Buffer × List Buffer
flush buffers = (buffers, [])
