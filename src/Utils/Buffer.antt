-- ===== src/Utils/Buffer.antt =====
-- lib/utils/buffer.h. `memory` is the list of all bytes of the slice; what a new one holds is the
-- parameter `fresh`.
pub mod View
use h2pp.Prelude.{
  ℕ, zero, suc, ◌+◌, ◌-◌, List, [], ◌∷◌, ◌++◌, length, take, drop, min, Bool, ◌&&◌, not, ltb, ◌==◌,
  if◌then◌else◌,
}

pub record Buffer : Type 0 where
  pub offset : ℕ
  pub maxsize : ℕ
  pub memory : List ℕ

unfoldable pub buffer : (ℕ → List ℕ) → ℕ → Buffer
buffer fresh size = record { offset = 0; maxsize = size; memory = fresh size }

-- `prepare().size_bytes()`
abbrev pub prepared : Buffer → ℕ
prepared b = b.maxsize - b.offset

-- These bytes written at a position of the memory.
abbrev pub write : ℕ → List ℕ → List ℕ → List ℕ
write at src memory = take at memory ++ (src ++ drop (at + length src) memory)

-- `commit(std::size_t)`: the buffer, and the count.
unfoldable pub commit : Buffer → ℕ → Buffer × ℕ
commit b count =
    let delta = min (prepared b) count in (record b { offset = b.offset + delta }, delta)

-- `commit(std::span<const uint8_t>)`
unfoldable pub commit_span : Buffer → List ℕ → Buffer × ℕ
commit_span b span =
    let to_copy = min (prepared b) (length span) in
    (
      record b {
        memory = write b.offset (take to_copy span) b.memory;
        offset = b.offset + to_copy;
      },
      to_copy,
    )

unfoldable pub data_view : Buffer → List ℕ
data_view b = take b.offset b.memory

unfoldable pub consume : Buffer → ℕ → Buffer
consume b count =
    let n = min b.offset count in
    let moved = write 0 (take (b.offset - n) (drop n b.memory)) b.memory in
    record b {
      memory = if not (n == 0) && ltb n b.offset then moved else b.memory;
      offset = b.offset - n;
    }
