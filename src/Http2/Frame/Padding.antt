-- ===== src/Http2/Frame/Padding.antt =====
-- The spans that lib/frame.cpp takes out of HEADERS and DATA frames, and what guards them.
use h2pp.Prelude.{
  ℕ, ◌+◌, ◌-◌, ◌^◌, ◌<◌, ◌≤◌, List, ◌++◌, Bool, false, le-or-lt, Result, ok, undefined, ◌≡◌, inl,
  inr, refl, sym, subst, ap, ◌∙◌, length, take, drop, append-nil, drop-all, if◌then◌else◌, arith,
}
use h2pp.Http2.Protocol.{headers_type, has_flag, padded, priority}
use h2pp.Http2.Frame.{
  Header, from_buffer, block, header_block, frame_data, pad_length, pad_offset, priority_offset,
  read_span, sub64,
}
use h2pp.Http2.Frame.Builder.{header_bytes, headers}
use h2pp.Http2.Frame.Parse.{header_of, whole, from_buffer-framed, read_span-behind}

-- The span of a block inside its payload, and of one that its padding and offset exceed.
pub data Spans (bytes : List ℕ) (size offset pad : ℕ) : Result (List ℕ) → Type 0 where
  inside :
      offset + pad ≤ size
      → Spans bytes size offset pad (ok (take (size - offset - pad) (drop (9 + offset) bytes)))
  beyond : size < offset + pad → Spans bytes size offset pad undefined

sub64_inside :
    (size offset pad : ℕ)
    → size < 2 ^ 24
    → offset + pad ≤ size
    → sub64 (sub64 size offset) pad ≡ size - offset - pad
sub64_inside size offset pad h fits = omega arith

sub64_beyond :
    (size offset pad : ℕ)
    → offset ≤ 6
    → pad < 256
    → size < offset + pad
    → size < 2 ^ 24
    → 9 + size < 9 + offset + sub64 (sub64 size offset) pad
sub64_beyond size offset pad ho hp h fits = omega arith

read_span_inside :
    (bytes : List ℕ) (first count : ℕ)
    → first + count ≤ length bytes
    → read_span bytes first count ≡ ok (take count (drop first bytes))
unfolding read_span
read_span_inside bytes first count h = ground arith

read_span_beyond :
    (bytes : List ℕ) (first count : ℕ)
    → length bytes < first + count
    → read_span bytes first count ≡ undefined
unfolding read_span
read_span_beyond bytes first count h = ground arith

module _ (bytes : List ℕ) (h : Header) (offset pad : ℕ) (len : length bytes ≡ 9 + h.payload_size)
    (small : h.payload_size < 2 ^ 24) (padding : pad_length bytes h.flags ≡ ok pad) where
  block_inside :
      offset + pad ≤ h.payload_size
      → block bytes h offset ≡ ok (take (h.payload_size - offset - pad) (drop (9 + offset) bytes))
  unfolding block
  block_inside fits =
      rw (padding, sub64_inside h.payload_size offset pad small fits)
        (read_span_inside bytes (9 + offset) _ (omega (arith, len)))

  block_beyond :
      offset ≤ 6 → pad < 256 → h.payload_size < offset + pad → block bytes h offset ≡ undefined
  unfolding block
  block_beyond ho hp over = rw padding (
      read_span_beyond bytes (9 + offset) _
        (omega (arith, sub64_beyond h.payload_size offset pad ho hp over small, len)))

  block-Spans :
      offset ≤ 6 → pad < 256 → Spans bytes h.payload_size offset pad (block bytes h offset)
  block-Spans ho hp = elim (le-or-lt (offset + pad) h.payload_size) [
    | inl fits ↦
        subst (Spans bytes h.payload_size offset pad) (sym (block_inside fits)) (inside fits)
    | inr over ↦
        subst (Spans bytes h.payload_size offset pad) (sym (block_beyond ho hp over)) (beyond over)
  ]

-- On a whole HEADERS frame, of a payload under 2^24 bytes and with a padding under 256,
-- `header_block` is the payload without the length of the padding, the priority and the padding
-- where those fit the payload; where they do not, its span reaches out of the frame.
pub header_block-Spans :
    (bytes : List ℕ) (h : Header) (pad : ℕ)
    → length bytes ≡ 9 + h.payload_size
    → h.payload_size < 2 ^ 24
    → pad < 256
    → pad_length bytes h.flags ≡ ok pad
    → Spans bytes h.payload_size
        (pad_offset h.flags + priority_offset h.flags)
        pad
        (header_block bytes h)
unfolding header_block
header_block-Spans bytes h pad len small hp padding =
    block-Spans bytes h _ pad len small padding
      (offset_lem (has_flag h.flags padded) (has_flag h.flags priority)) hp
  where
    offset_lem : (p q : Bool) → (if p then 1 else 0) + (if q then 5 else 0) ≤ 6
    offset_lem p q = ground arith

-- On a whole DATA frame, of a payload under 2^24 bytes and with a padding under 256, `data` is the
-- payload without the length of the padding and the padding where those fit the payload; where
-- they do not, its span reaches out of the frame.
pub frame_data-Spans :
    (bytes : List ℕ) (h : Header) (pad : ℕ)
    → length bytes ≡ 9 + h.payload_size
    → h.payload_size < 2 ^ 24
    → pad < 256
    → pad_length bytes h.flags ≡ ok pad
    → Spans bytes h.payload_size (pad_offset h.flags) pad (frame_data bytes h)
unfolding frame_data
frame_data-Spans bytes h pad len small hp padding =
    block-Spans bytes h _ pad len small padding (offset_lem (has_flag h.flags padded)) hp
  where
    offset_lem : (p : Bool) → (if p then 1 else 0) ≤ 6
    offset_lem p = ground arith

headers-plain :
    (fresh : ℕ → List ℕ) (stream_id flags n : ℕ)
    → length (fresh 9) ≡ 9
    → has_flag flags padded ≡ false
    → has_flag flags priority ≡ false
    → headers fresh stream_id flags n ≡ header_bytes n headers_type flags stream_id
headers-plain fresh stream_id flags n hf hp hq =
    ap (λ bytes. header_bytes n headers_type flags stream_id ++ bytes)
      (ap (λ size. drop 9 (fresh size)) no_more ∙ drop-all (fresh 9) 9 hf)
    ∙ append-nil (header_bytes n headers_type flags stream_id)
  where
    no_more : 9 + pad_offset flags + priority_offset flags ≡ 9
    no_more = rw (hp, hq)

header_block-plain :
    (stream_id flags : ℕ) (fragment : List ℕ)
    → length fragment < 2 ^ 24
    → has_flag flags padded ≡ false
    → has_flag flags priority ≡ false
    → header_block
        (header_bytes (length fragment) headers_type flags stream_id ++ fragment)
        (header_of (length fragment) headers_type flags stream_id)
      ≡ ok fragment
unfolding header_block block pad_length
header_block-plain stream_id flags fragment small hp hq =
    rw (hp, hq)
      (read_span-behind (header_bytes (length fragment) headers_type flags stream_id) fragment 9 _
        refl (sub64_lem (length fragment) small))
  where
    sub64_lem : (n : ℕ) → n < 2 ^ 24 → sub64 (sub64 n 0) 0 ≡ n
    sub64_lem n h = omega arith

-- What the analyzer reads of a frame that `start` begins and `fragment` ends.
abbrev Parses : List ℕ → List ℕ → ℕ → ℕ → List ℕ → Type 0
Parses fragment rest flags stream_id start =
    (from_buffer (start ++ (fragment ++ rest)) ≡ ok (whole (start ++ fragment) h))
    × (header_block (start ++ fragment) h ≡ ok fragment)
  where
    h : Header
    h = header_of (length fragment) headers_type flags stream_id

-- A header block of less than 2^24 bytes comes back from a HEADERS frame, without padding and
-- priority and with a stream id of 32 bits, that `headers` starts and the block ends, where a new
-- buffer of nine bytes has nine bytes.
pub parse-headers :
    (fresh : ℕ → List ℕ) (stream_id flags : ℕ) (fragment rest : List ℕ)
    → length (fresh 9) ≡ 9
    → stream_id < 2 ^ 32
    → length fragment < 2 ^ 24
    → has_flag flags padded ≡ false
    → has_flag flags priority ≡ false
    → (from_buffer (headers fresh stream_id flags (length fragment) ++ (fragment ++ rest))
        ≡ ok (
            whole
              (headers fresh stream_id flags (length fragment) ++ fragment)
              (header_of (length fragment) headers_type flags stream_id)))
      × (header_block
            (headers fresh stream_id flags (length fragment) ++ fragment)
            (header_of (length fragment) headers_type flags stream_id)
          ≡ ok fragment)
parse-headers fresh stream_id flags fragment rest hf hs small hp hq =
    subst (Parses fragment rest flags stream_id)
      (sym (headers-plain fresh stream_id flags (length fragment) hf hp hq))
      (
        from_buffer-framed (length fragment) headers_type flags stream_id fragment rest small hs
            refl,
        header_block-plain stream_id flags fragment small hp hq,
      )
