-- ===== src/Http2/Frame/Examples.antt =====
-- Frames built and read at concrete inputs.
use h2pp.Prelude.{ℕ, List, [], ◌∷◌, ◌++◌, ok, undefined, ◌≡◌, refl, replicate, arith, ◌+◌}
use h2pp.Http2.Protocol.{settings_type, headers_type, data_type}
use h2pp.Http2.Frame.{
  SettingsItem, Header, from_buffer, items, header_block, frame_data, pad_length, front, read_span,
  pad_offset, priority_offset, check,
}
use h2pp.Http2.Frame.Builder.{settings, settings_item}
use h2pp.Http2.Frame.Parse.{header_of, whole, parse-settings}
use h2pp.Http2.Frame.Padding.{Spans, header_block-Spans}

-- SETTINGS_INITIAL_WINDOW_SIZE and SETTINGS_MAX_FRAME_SIZE.
abbrev two_items : List SettingsItem
two_items = settings_item 0x0400 65535 ∷ settings_item 0x0500 16384 ∷ []

abbrev zeros : ℕ → List ℕ
zeros n = replicate n 0

settings_test :
    settings two_items
    ≡ 0 ∷ 0 ∷ 12 ∷ 4 ∷ 0 ∷ 0 ∷ 0 ∷ 0 ∷ 0 ∷ 0 ∷ 4 ∷ 0 ∷ 0 ∷ 255 ∷ 255 ∷ 0 ∷ 5 ∷ 0 ∷ 0 ∷ 64 ∷ 0 ∷ []
settings_test = refl

parse-settings_example :
    (from_buffer (settings two_items ++ (7 ∷ []))
      ≡ ok (whole (settings two_items) (header_of 12 settings_type 0 0)))
    × (items (settings two_items) (header_of 12 settings_type 0 0) ≡ ok two_items)
parse-settings_example =
    parse-settings two_items (7 ∷ []) ((omega arith, omega arith), ((omega arith, omega arith), tt))
      (omega arith)

-- A padded HEADERS frame of three bytes: the length of the padding, 1; a byte; the padding.
abbrev padded_header : Header
padded_header = header_of 3 headers_type 0x8 1

abbrev padded_bytes : List ℕ
padded_bytes = 0 ∷ 0 ∷ 3 ∷ 1 ∷ 8 ∷ 1 ∷ 0 ∷ 0 ∷ 0 ∷ 1 ∷ 130 ∷ 0 ∷ []

padded_test : header_block padded_bytes padded_header ≡ ok (130 ∷ [])
unfolding header_block pad_length front read_span
padded_test = refl

header_block-Spans_example :
    Spans padded_bytes 3
      (pad_offset 0x8 + priority_offset 0x8)
      1
      (header_block padded_bytes padded_header)
unfolding pad_length front
header_block-Spans_example =
    header_block-Spans padded_bytes padded_header 1 refl (omega arith) (omega arith) refl

-- A DATA frame whose padding of 200 bytes is longer than its payload of three.
abbrev overpadded_header : Header
overpadded_header = header_of 3 data_type 0x8 1

abbrev overpadded_bytes : List ℕ
overpadded_bytes = 0 ∷ 0 ∷ 3 ∷ 0 ∷ 8 ∷ 1 ∷ 0 ∷ 0 ∷ 0 ∷ 200 ∷ 130 ∷ 0 ∷ []

overpadded_test :
    (check (whole overpadded_bytes overpadded_header) 16384 ≡ ok tt)
    × (frame_data overpadded_bytes overpadded_header ≡ undefined)
unfolding check frame_data pad_length front read_span
overpadded_test = (refl, refl)
