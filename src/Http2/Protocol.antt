-- ===== src/Http2/Protocol.antt =====
-- lib/protocol.h and the codes of lib/error.h. Numbers are those on a little-endian host.
use h2pp.Prelude.{ℕ, ◌+◌, ◌*◌, ◌/◌, ◌%◌, List, [], ◌∷◌, Bool, not, bit_and, ◌==◌}

-- The bytes of a `uint32_t` in memory, and of a `big_uint32_t`, `big_uint24_t` with this value.
abbrev pub le32 : ℕ → List ℕ
le32 x = x % 256 ∷ x / 256 % 256 ∷ x / 65536 % 256 ∷ x / 16777216 % 256 ∷ []

abbrev pub be32 : ℕ → List ℕ
be32 x = x / 16777216 % 256 ∷ x / 65536 % 256 ∷ x / 256 % 256 ∷ x % 256 ∷ []

abbrev pub be24 : ℕ → List ℕ
be24 x = x / 65536 % 256 ∷ x / 256 % 256 ∷ x % 256 ∷ []

abbrev pub be16 : ℕ → List ℕ
be16 x = x / 256 % 256 ∷ x % 256 ∷ []

-- `boost::endian::native_to_big` of a `uint32_t`: the bytes in the other order.
abbrev pub native_to_big : ℕ → ℕ
native_to_big x =
    x % 256 * 16777216 + x / 256 % 256 * 65536 + x / 65536 % 256 * 256 + x / 16777216 % 256

-- INITIAL_WINDOW_SIZE
abbrev pub initial_window : ℕ
initial_window = 65535

pub data FrameType : Type 0 where
  data_type headers_type priority_type rst_stream_type settings_type : FrameType
  push_promise_type ping_type goaway_type window_update_type continuation_type : FrameType

-- The values of `enum class frame_type`.
abbrev pub type_code : FrameType → ℕ
type_code data_type = 0
type_code headers_type = 1
type_code priority_type = 2
type_code rst_stream_type = 3
type_code settings_type = 4
type_code push_promise_type = 5
type_code ping_type = 6
type_code goaway_type = 7
type_code window_update_type = 8
type_code continuation_type = 9

-- `namespace flags`
abbrev pub end_stream : ℕ
end_stream = 0x1

abbrev pub ack : ℕ
ack = 0x1

abbrev pub end_headers : ℕ
end_headers = 0x4

abbrev pub padded : ℕ
padded = 0x8

abbrev pub priority : ℕ
priority = 0x20

-- `flags & mask` as a condition
abbrev pub has_flag : ℕ → ℕ → Bool
has_flag flags mask = not (bit_and flags mask == 0)

pub data ErrorCode : Type 0 where
  is_ok protocol_error internal_error flow_control_error settings_timeout : ErrorCode
  stream_closed frame_size_error refused_stream cancel compression_error : ErrorCode
  connect_error enhance_your_calm inadequate_security http_1_1_required : ErrorCode

abbrev pub error_number : ErrorCode → ℕ
error_number is_ok = 0
error_number protocol_error = 1
error_number internal_error = 2
error_number flow_control_error = 3
error_number settings_timeout = 4
error_number stream_closed = 5
error_number frame_size_error = 6
error_number refused_stream = 7
error_number cancel = 8
error_number compression_error = 9
error_number connect_error = 10
error_number enhance_your_calm = 11
error_number inadequate_security = 12
error_number http_1_1_required = 13

-- The values of `enum class error_code`, in the order of bytes of the network.
abbrev pub error_value : ErrorCode → ℕ
error_value e = native_to_big (error_number e)
