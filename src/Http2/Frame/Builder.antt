-- ===== src/Http2/Frame/Builder.antt =====
-- lib/frame_builder.cpp. A builder's buffer is the list of its bytes; `fresh` is what the memory of
-- a new buffer holds. A `big_uint32_t` argument is its value, stored as a number of the host.
use h2pp.Prelude.{ℕ, ◌+◌, ◌*◌, ◌/◌, ◌%◌, List, [], ◌∷◌, ◌++◌, length, take, drop, min}
use h2pp.Http2.Protocol.{
  le32, be32, be24, native_to_big, FrameType, type_code, data_type, headers_type, rst_stream_type,
  settings_type, ping_type, goaway_type, window_update_type, continuation_type, ack, ErrorCode,
  error_value,
}
use h2pp.Http2.Frame.{SettingsItem, pad_offset, priority_offset, header_size}

-- The nine bytes of a header with these fields.
abbrev pub header_bytes : ℕ → FrameType → ℕ → ℕ → List ℕ
header_bytes payload_size type flags stream_id =
    be24 payload_size ++ (type_code type ∷ flags ∷ le32 stream_id)

-- `settings_item(settings_type t, uint32_t v)`
abbrev pub settings_item : ℕ → ℕ → SettingsItem
settings_item t v = record { setting = t; value = native_to_big v }

abbrev pub goaway : ErrorCode → ℕ → List ℕ → List ℕ
goaway err last_stream_id extra =
    header_bytes (8 + length extra) goaway_type 0 0
    ++ (le32 last_stream_id ++ (le32 (error_value err) ++ extra))

abbrev pub ping : (ℕ → List ℕ) → List ℕ → List ℕ
ping fresh extra =
    header_bytes 8 ping_type 0 0 ++ (take 8 extra ++ drop (9 + min (length extra) 8) (fresh 17))

abbrev pub reset : ErrorCode → ℕ → List ℕ
reset err stream_id =
    header_bytes 4 rst_stream_type 0 stream_id ++ le32 (native_to_big (error_value err))

abbrev pub update_window : ℕ → ℕ → List ℕ
update_window size stream_id = header_bytes 4 window_update_type 0 stream_id ++ be32 size

-- The memory of a vector of items.
abbrev pub item_bytes : List SettingsItem → List ℕ
item_bytes [] = []
item_bytes (i ∷ is) = i.setting % 256 ∷ i.setting / 256 % 256 ∷ (le32 i.value ++ item_bytes is)

abbrev pub settings : List SettingsItem → List ℕ
settings fields = header_bytes (6 * length fields) settings_type 0 0 ++ item_bytes fields

abbrev pub settings_ack : List ℕ
settings_ack = header_bytes 0 settings_type ack 0

abbrev pub headers : (ℕ → List ℕ) → ℕ → ℕ → ℕ → List ℕ
headers fresh stream_id flags payload_size =
    header_bytes payload_size headers_type flags stream_id
    ++ drop header_size (fresh (header_size + pad_offset flags + priority_offset flags))

abbrev pub continuation : ℕ → ℕ → ℕ → List ℕ
continuation stream_id flags payload_size =
    header_bytes payload_size continuation_type flags stream_id

-- `data`, whose span is the last `payload_size` of these bytes.
abbrev pub data_frame : (ℕ → List ℕ) → ℕ → ℕ → ℕ → List ℕ
data_frame fresh stream_id flags payload_size =
    header_bytes payload_size data_type flags stream_id
    ++ drop header_size (fresh (header_size + pad_offset flags + payload_size))
