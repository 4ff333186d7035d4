-- ===== src/Http2/Frame.antt =====
-- lib/frame.h and frame.cpp: the analyzer of received frames, and lib/frame_builder.cpp below it.
pub mod Builder
pub mod Parse
pub mod Padding
mod Examples
use h2pp.Prelude.{
  ℕ, zero, suc, ◌+◌, ◌-◌, ◌*◌, ◌/◌, ◌%◌, ◌^◌, List, [], ◌∷◌, Bool, true, false, Result, ok, throw,
  undefined, ◌>>=◌, length_error, system_error, runtime_error, length, take, drop, min, ltb, leb,
  ◌==◌, if◌then◌else◌,
}
use h2pp.Http2.Protocol.{
  FrameType, type_code, has_flag, padded, priority, ErrorCode, error_value, protocol_error,
  frame_size_error,
}

-- `struct header`; `stream_id` is the number that a little-endian host reads in its four bytes.
pub record Header : Type 0 where
  pub payload_size : ℕ
  pub type : ℕ
  pub flags : ℕ
  pub stream_id : ℕ

-- sizeof(struct header)
abbrev pub header_size : ℕ
header_size = 9

-- The header that a frame begins with; reading it takes nine bytes.
unfoldable pub read_header : List ℕ → Result Header
read_header (a ∷ b ∷ c ∷ t ∷ f ∷ i ∷ j ∷ k ∷ l ∷ rest) = ok (record {
  payload_size = a * 65536 + b * 256 + c;
  type = t;
  flags = f;
  stream_id = i + j * 256 + k * 65536 + l * 16777216;
})
read_header _ = undefined

-- A `frame_analyzer`: its `buffer`, and the header that stands there.
pub record Analyzer : Type 0 where
  pub buffer : List ℕ
  pub frame_header : Header

abbrev pub size : Analyzer → ℕ
size a = header_size + a.frame_header.payload_size

unfoldable pub from_buffer : List ℕ → Result Analyzer
from_buffer bytes = if ltb (length bytes) header_size then throw length_error else (do
  h ← read_header bytes
  ok (record {
    buffer = take (min (header_size + h.payload_size) (length bytes)) bytes;
    frame_header = h;
  }))

unfoldable pub is_complete : Analyzer → Bool
is_complete a = leb (size a) (length a.buffer)

-- `check`; the functions of `check_table` are all empty.
unfoldable pub check : Analyzer → ℕ → Result (Unit {0})
check a max_frame_size =
    if ltb 9 a.frame_header.type
    then throw (system_error (error_value protocol_error))
    else if ltb max_frame_size a.frame_header.payload_size
    then throw (system_error (error_value frame_size_error))
    else ok tt

unfoldable pub get_frame : FrameType → Analyzer → Result Header
get_frame type a =
    if a.frame_header.type == type_code type then ok a.frame_header else throw runtime_error

abbrev pub sub64 : ℕ → ℕ → ℕ
sub64 a b = (a + 2 ^ 64 - b) % 2 ^ 64

-- A span of `count` bytes from the offset `first` of the bytes; a span that reaches behind them is
-- undefined to read.
unfoldable pub read_span : List ℕ → ℕ → ℕ → Result (List ℕ)
read_span bytes first count =
    if leb (first + count) (length bytes) then ok (take count (drop first bytes)) else undefined

-- `*begin`
unfoldable pub front : List ℕ → Result ℕ
front [] = undefined
front (b ∷ bs) = ok b

-- The length of the padding, which stands behind the header.
unfoldable pub pad_length : List ℕ → ℕ → Result ℕ
pad_length bytes flags = if has_flag flags padded then front (drop header_size bytes) else ok 0

-- `header_frame::header_block` and `data_frame::data` of a whole frame, the span read.
unfoldable pub block : List ℕ → Header → ℕ → Result (List ℕ)
block bytes h offset = do
  pad ← pad_length bytes h.flags
  read_span bytes (header_size + offset) (sub64 (sub64 h.payload_size offset) pad)

abbrev pub pad_offset : ℕ → ℕ
pad_offset flags = if has_flag flags padded then 1 else 0

abbrev pub priority_offset : ℕ → ℕ
priority_offset flags = if has_flag flags priority then 5 else 0

pub header_block : List ℕ → Header → Result (List ℕ)
unfolding block
header_block bytes h = block bytes h (pad_offset h.flags + priority_offset h.flags)

unfoldable pub frame_data : List ℕ → Header → Result (List ℕ)
unfolding block
frame_data bytes h = block bytes h (pad_offset h.flags)

-- `struct settings_item`; its numbers are those that a little-endian host reads.
pub record SettingsItem : Type 0 where
  pub setting : ℕ
  pub value : ℕ

-- `settings_frame::items`, the span read.
pub read_items : ℕ → List ℕ → Result (List SettingsItem)
read_items (suc n) (a ∷ b ∷ i ∷ j ∷ k ∷ l ∷ bytes) = do
  items ← read_items n bytes
  ok (record { setting = a + b * 256; value = i + j * 256 + k * 65536 + l * 16777216 } ∷ items)
read_items (suc n) _ = undefined
read_items zero bytes = ok []

pub items : List ℕ → Header → Result (List SettingsItem)
unfolding read_items
items bytes h = read_items (h.payload_size / 6) (drop header_size bytes)

-- `goaway_frame::additional`, the span read.
pub additional : List ℕ → Header → Result (List ℕ)
additional bytes h = read_span bytes 17 (sub64 (h.payload_size + 9) 17)

-- `continuation_frame::header_block`
pub continuation_block : List ℕ → Header → Result (List ℕ)
continuation_block bytes h = read_span bytes header_size h.payload_size
