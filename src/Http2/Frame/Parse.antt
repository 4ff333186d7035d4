-- ===== src/Http2/Frame/Parse.antt =====
-- What the analyzer of lib/frame.cpp reads from the frames of lib/frame_builder.cpp.
use h2pp.Prelude.{
  All, append-nil, ℕ, ◌+◌, ◌*◌, ◌/◌, ◌%◌, ◌^◌, ◌<◌, min, List, [], ◌∷◌, ◌++◌, ok, ◌≡◌, refl, sym,
  subst, length, take, drop, length-append, take-append, drop-append, ltb, leb, arith, true, false,
}
use h2pp.Http2.Protocol.{
  le32, be32, native_to_big, FrameType, type_code, settings_type, goaway_type, ErrorCode, is_ok,
  protocol_error, internal_error, flow_control_error, settings_timeout, stream_closed,
  frame_size_error, refused_stream, cancel, compression_error, connect_error, enhance_your_calm,
  inadequate_security, http_1_1_required, error_value, error_number,
}
use h2pp.Http2.Frame.{
  Header, Analyzer, read_header, from_buffer, SettingsItem, read_items, items, additional,
  read_span, sub64, size,
}
use h2pp.Http2.Frame.Builder.{header_bytes, goaway, reset, item_bytes, settings}

-- The header that stands for these fields.
abbrev pub header_of : ℕ → FrameType → ℕ → ℕ → Header
header_of size type flags stream_id = record {
  payload_size = size;
  type = type_code type;
  flags = flags;
  stream_id = stream_id;
}

-- The analyzer of a frame that is all there.
abbrev pub whole : List ℕ → Header → Analyzer
whole bytes h = record { buffer = bytes; frame_header = h }

be24_lem : (x : ℕ) → x < 2 ^ 24 → x / 65536 % 256 * 65536 + x / 256 % 256 * 256 + x % 256 ≡ x
be24_lem x h = omega arith

le32_lem :
    (x : ℕ)
    → x < 2 ^ 32
    → x % 256 + x / 256 % 256 * 256 + x / 65536 % 256 * 65536 + x / 16777216 % 256 * 16777216 ≡ x
le32_lem x h = omega arith

pub read-header_bytes :
    (n : ℕ) (type : FrameType) (flags stream_id : ℕ) (rest : List ℕ)
    → n < 2 ^ 24
    → stream_id < 2 ^ 32
    → read_header (header_bytes n type flags stream_id ++ rest)
      ≡ ok (header_of n type flags stream_id)
unfolding read_header
read-header_bytes n type flags stream_id rest hn hs = rw (be24_lem n hn, le32_lem stream_id hs)

enough : (n k : ℕ) → ltb (9 + n + k) 9 ≡ false
enough n k = ground arith

take-frame :
    (frame rest : List ℕ) (n : ℕ)
    → length frame ≡ n
    → take (min n (n + length rest)) (frame ++ rest) ≡ frame
take-frame frame rest n e = rw (min_lem n (length rest), sym e, take-append frame rest)
  where
    min_lem : (n k : ℕ) → min n (n + k) ≡ n
    min_lem n k = omega arith

from_buffer-whole :
    (frame rest : List ℕ) (h : Header)
    → read_header (frame ++ rest) ≡ ok h
    → length frame ≡ 9 + h.payload_size
    → from_buffer (frame ++ rest) ≡ ok (whole frame h)
unfolding from_buffer
from_buffer-whole frame rest h read len = rw (
  read,
  length-append frame rest,
  len,
  enough h.payload_size (length rest),
  take-frame frame rest (9 + h.payload_size) len,
)

pub from_buffer-framed :
    (n : ℕ) (type : FrameType) (flags stream_id : ℕ) (payload rest : List ℕ)
    → n < 2 ^ 24
    → stream_id < 2 ^ 32
    → length payload ≡ n
    → from_buffer (header_bytes n type flags stream_id ++ (payload ++ rest))
      ≡ ok (
          whole (header_bytes n type flags stream_id ++ payload) (header_of n type flags stream_id))
from_buffer-framed n type flags stream_id payload rest hn hs hp =
    from_buffer-whole (header_bytes n type flags stream_id ++ payload) rest
      (header_of n type flags stream_id)
      (read-header_bytes n type flags stream_id (payload ++ rest) hn hs) (omega (arith, hp))

length-item_bytes : (is : List SettingsItem) → length (item_bytes is) ≡ 6 * length is
length-item_bytes [] = refl
length-item_bytes (i ∷ is) = omega (arith, length-item_bytes is)

-- The fields of an item have their widths.
abbrev pub FitsItem : SettingsItem → Type 0
FitsItem i = (i.setting < 2 ^ 16) × (i.value < 2 ^ 32)

le16_lem : (x : ℕ) → x < 2 ^ 16 → x % 256 + x / 256 % 256 * 256 ≡ x
le16_lem x h = omega arith

read_items-item_bytes :
    (is : List SettingsItem) → All FitsItem is → read_items (length is) (item_bytes is) ≡ ok is
unfolding read_items
read_items-item_bytes [] fits = refl
read_items-item_bytes (i ∷ is) ((hs, hv), fits) =
    rw (read_items-item_bytes is fits, le16_lem i.setting hs, le32_lem i.value hv)

-- A list of settings items of less than 2^24 bytes, its numbers within their widths, comes back
-- from the frame that `settings` builds from it: `from_buffer` cuts off the whole frame whatever
-- follows, and `items` reads the list.
pub parse-settings :
    (fields : List SettingsItem) (rest : List ℕ)
    → All FitsItem fields
    → 6 * length fields < 2 ^ 24
    → (from_buffer (settings fields ++ rest)
        ≡ ok (whole (settings fields) (header_of (6 * length fields) settings_type 0 0)))
      × (items (settings fields) (header_of (6 * length fields) settings_type 0 0) ≡ ok fields)
unfolding items
parse-settings fields rest fits small = (
  from_buffer-framed (6 * length fields) settings_type 0 0 (item_bytes fields) rest small
      (omega arith) (length-item_bytes fields),
  rw (count_lem (length fields), read_items-item_bytes fields fits),
)
  where
    count_lem : (n : ℕ) → 6 * n / 6 ≡ n
    count_lem n = omega arith

pub read_span-within :
    (head middle tail : List ℕ) (first count : ℕ)
    → first ≡ length head
    → count ≡ length middle
    → read_span (head ++ (middle ++ tail)) first count ≡ ok middle
unfolding read_span
read_span-within head middle tail first count ef ec = rw (
  ef,
  ec,
  drop-append head (middle ++ tail),
  take-append middle tail,
  length-append head (middle ++ tail),
  length-append middle tail,
  fits (length head) (length middle) (length tail),
)
  where
    fits : (h m t : ℕ) → leb (h + m) (h + (m + t)) ≡ true
    fits h m t = ground arith

pub read_span-behind :
    (head tail : List ℕ) (first count : ℕ)
    → first ≡ length head
    → count ≡ length tail
    → read_span (head ++ tail) first count ≡ ok tail
read_span-behind head tail first count ef ec =
    subst (λ t. read_span (head ++ t) first count ≡ ok tail) (append-nil tail)
      (read_span-within head tail [] first count ef ec)

-- The bytes of an error's value, and of that value with its bytes swapped once more.
error_value-bytes :
    (err : ErrorCode)
    → (le32 (error_value err) ≡ be32 (error_number err))
      × (le32 (native_to_big (error_value err)) ≡ le32 (error_number err))
error_value-bytes is_ok = (refl, refl)
error_value-bytes protocol_error = (refl, refl)
error_value-bytes internal_error = (refl, refl)
error_value-bytes flow_control_error = (refl, refl)
error_value-bytes settings_timeout = (refl, refl)
error_value-bytes stream_closed = (refl, refl)
error_value-bytes frame_size_error = (refl, refl)
error_value-bytes refused_stream = (refl, refl)
error_value-bytes cancel = (refl, refl)
error_value-bytes compression_error = (refl, refl)
error_value-bytes connect_error = (refl, refl)
error_value-bytes enhance_your_calm = (refl, refl)
error_value-bytes inadequate_security = (refl, refl)
error_value-bytes http_1_1_required = (refl, refl)

additional_size : (n : ℕ) → 8 + n < 2 ^ 24 → sub64 (8 + n + 9) 17 ≡ n
additional_size n h = omega arith

-- The additional data of at most 2^24 - 9 bytes come back from the frame that `goaway` builds, whose
-- error has the order of bytes of the network and whose last stream has that of the host.
pub parse-goaway :
    (err : ErrorCode) (last_stream_id : ℕ) (extra rest : List ℕ)
    → 8 + length extra < 2 ^ 24
    → (from_buffer (goaway err last_stream_id extra ++ rest)
        ≡ ok (
            whole (goaway err last_stream_id extra) (header_of (8 + length extra) goaway_type 0 0)))
      × (additional (goaway err last_stream_id extra) (header_of (8 + length extra) goaway_type 0 0)
          ≡ ok extra)
      × (take 4 (drop 13 (goaway err last_stream_id extra)) ≡ be32 (error_number err))
      × (take 4 (drop 9 (goaway err last_stream_id extra)) ≡ le32 last_stream_id)
unfolding additional
parse-goaway err last_stream_id extra rest small = (
  from_buffer-framed (8 + length extra) goaway_type 0 0
      (le32 last_stream_id ++ (le32 (error_value err) ++ extra)) rest small (omega arith)
      (omega arith),
  read_span-behind (take 17 (goaway err last_stream_id extra)) extra 17 _ refl
      (additional_size (length extra) small),
  (error_value-bytes err).0,
  refl,
)

-- The error number that `reset` writes stands with its least significant byte first.
pub reset-error_order :
    (err : ErrorCode) (stream_id : ℕ) → drop 9 (reset err stream_id) ≡ le32 (error_number err)
reset-error_order err stream_id = (error_value-bytes err).1
