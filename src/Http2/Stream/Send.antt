-- ===== src/Http2/Stream/Send.antt =====
-- `prepare_headers`, `prepare_body` and `get_tx_data` of lib/stream.cpp. The encoder's buffers stand in
-- `out` as one. A buffer that was moved from has no bytes.
use h2pp.Prelude.{
  ℕ, ◌+◌, ◌-◌, ◌*◌, List, [], ◌∷◌, ◌++◌, false, not, ◌&&◌, Option, none, some, Result, ok,
  undefined, bit_or, min, length, take, drop, ltb, leb, ◌==◌, if◌then◌else◌,
}
use h2pp.Prelude.Exec.{Exec, pure, lift, gets, modify, ◌>>=◌, ◌>>◌}
use h2pp.Http2.Protocol.{is_ok, end_stream, end_headers}
use h2pp.Http2.Window.{DummyWindow, update}
use h2pp.Http2.Frame.{header_size, sub64}
use h2pp.Http2.Frame.Builder as Builder
use h2pp.Http2.Request.{Request, Block, is_empty, body_size, timeout, commit_headers}
use h2pp.Http2.Stream.{Stream, opened, closed, is_half_closed}
use h2pp.Hpack.IndexedTable.{IndexedTable, OrderedSet}
use h2pp.Hpack.Encoder.{EncoderConfig, encode}

-- A stream that sends, with the encoder's table and the buffers to send.
pub record Sending : Type 0 where
  pub stream : Stream
  pub table : IndexedTable
  pub out : List (List ℕ)

abbrev pub emplace_back : List ℕ → Sending → Sending
emplace_back b s = record s { out = s.out ++ (b ∷ []) }

abbrev pub with_request : Request → Sending → Sending
with_request r s = record s { stream = record s.stream { request = r } }

-- The members that the loop of `prepare_body` moves along, and what it wrote to the payload.
pub record Copied : Type 0 where
  pub payload : List ℕ
  pub offset : ℕ
  pub blocks : List Block
  pub spans : List (List ℕ)

abbrev pub behind : List ℕ → Result Copied → Result Copied
behind chunk undefined = undefined
behind chunk (Result.throw exception) = Result.throw exception
behind chunk (ok c) = ok (record c { payload = chunk ++ c.payload })

-- The loop, over the spans, with the bytes of the payload that are left; a turn that does not
-- remove the span has no bytes left.
unfoldable pub copy_loop : List (List ℕ) → List Block → ℕ → ℕ → Result Copied
copy_loop [] blocks offset left = undefined
copy_loop (s ∷ spans) [] offset left = undefined
copy_loop (s ∷ spans) (b ∷ blocks) offset left =
    let to_copy = min left (length s - offset) in
    let chunk = take to_copy (drop offset s) in
    let rest = behind chunk (copy_loop spans blocks 0 (left - to_copy)) in
    if ltb (length s) offset
    then undefined
    else if offset + to_copy == length s
    then (if left - to_copy == 0
        then ok (record { payload = chunk; offset = 0; blocks = blocks; spans = spans })
        else rest)
    else ok (record {
      payload = chunk;
      offset = offset + to_copy;
      blocks = b ∷ blocks;
      spans = s ∷ spans;
    })

-- `left_size`, and the payload's size.
abbrev pub left_size : Stream → ℕ
left_size s = sub64 (body_size s.request) s.send_body_offset

abbrev pub payload_size : Stream → ℕ → ℕ
payload_size s limit = min (sub64 limit header_size) (left_size s)

abbrev pub commit_body : Copied → Stream → Stream
commit_body c s = record s {
  send_body_offset = c.offset;
  request = record s.request { body_list = c.blocks; span_list = c.spans };
}

abbrev pub headers_flags : Request → ℕ
headers_flags r = if is_empty r.header_list then end_headers else 0

-- The frames of an open stream.
abbrev pub sent_window : Option (List ℕ) × DummyWindow → Sending → Sending × Result ℕ
sent_window (none, window) t =
    (record t { stream = record t.stream { local_window = window } }, ok 0)
sent_window (some frame, window) t = (
  emplace_back frame (record t { stream = record t.stream { local_window = window } }),
  ok (length frame),
)

unfoldable pub window_frame : Exec Sending ℕ
window_frame t = sent_window (update t.stream.local_window t.stream.http_id) t

abbrev pub unscheduled : Sending → Sending
unscheduled t = record t { stream = record t.stream { is_scheduled = false } }

-- The last frame of a stream that the server has closed.
abbrev pub send_reset : Exec Sending ℕ
send_reset t =
    let frame = Builder.reset is_ok t.stream.http_id in
    (
      emplace_back frame (record t { stream = record t.stream { http_state = closed } }),
      ok (length frame),
    )

module _ (fresh : ℕ → List ℕ) where
  unfoldable pub data_bytes : ℕ → ℕ → ℕ → List ℕ → List ℕ
  data_bytes id flags payload_size payload =
      take header_size (Builder.data_frame fresh id flags payload_size) ++ payload

  -- It gives the size of the frame's buffer after that was moved.
  unfoldable pub prepare_body : ℕ → Exec Sending ℕ
  prepare_body limit = do
    s ← gets (λ (t : Sending). t.stream)
    let size = payload_size s limit
    let flags = if size == left_size s then end_stream else 0
    c ← lift (copy_loop s.request.span_list s.request.body_list s.send_body_offset size)
    modify (λ (t : Sending). record t { stream = commit_body c t.stream })
    modify (emplace_back (data_bytes s.http_id flags size c.payload))
    pure 0

  -- The frame's header, of the first frame or of one that goes on.
  unfoldable pub frame_header : ℕ → Exec Sending ℕ
  frame_header size t =
      let s = t.stream in
      let r = s.request in
      let flags = headers_flags r in
      let first_flags = if is_empty r.body_list then bit_or flags end_stream else flags in
      let first = Builder.headers fresh s.http_id first_flags size in
      let next = Builder.continuation s.http_id flags size in
      if s.is_continuation then (emplace_back next t, ok (length next)) else (
        emplace_back first (record t {
          stream = record s {
            is_continuation = not (is_empty r.header_list);
            timer = some (timeout r);
          };
        }),
        ok (length first),
      )

  -- The empty DATA frame behind the last frame of headers.
  unfoldable pub last_frame : Exec Sending (Unit {0})
  last_frame t =
      let s = t.stream in
      let r = s.request in
      if s.is_continuation && (is_empty r.header_list && is_empty r.body_list)
      then (emplace_back (data_bytes s.http_id end_stream 0 []) t, ok tt)
      else (t, ok tt)

  unfoldable pub body_frame : ℕ → Exec Sending ℕ
  body_frame limit t =
      let r = t.stream.request in
      if is_empty r.header_list && (not (body_size r == 0) && leb (2 * header_size) limit)
      then prepare_body limit t
      else (t, ok 0)

  -- The block that was encoded, with the count of its fields, in its frame.
  unfoldable pub put_headers : List ℕ × ℕ → Exec Sending ℕ
  put_headers (buffers, count) = if count == 0 then pure 0 else (do
    r ← gets (λ (t : Sending). t.stream.request)
    r' ← lift (commit_headers r count)
    modify (with_request r')
    used ← frame_header (length buffers)
    modify (emplace_back buffers)
    last_frame
    pure (used + length buffers))

module _ (set : OrderedSet) (config : EncoderConfig) where
  -- `encoder.encode`
  unfoldable pub encode_headers : ℕ → Exec Sending (List ℕ × ℕ)
  encode_headers limit t =
      let (table, r) = encode set config t.table t.stream.request.header_list limit in
      (record t { table = table }, r)

module _ (fresh : ℕ → List ℕ) (set : OrderedSet) (config : EncoderConfig) where
  unfoldable pub prepare_headers : ℕ → Exec Sending ℕ
  prepare_headers limit = do
    is_continuation ← gets (λ (t : Sending). t.stream.is_continuation)
    encoded ←
        encode_headers set config
          (if is_continuation then sub64 limit (2 * header_size) else sub64 limit header_size)
    put_headers fresh encoded

  unfoldable pub headers_frame : ℕ → Exec Sending ℕ
  headers_frame limit t =
      if is_empty t.stream.request.header_list then (t, ok 0) else prepare_headers limit t

  unfoldable pub send_frames : ℕ → Exec Sending ℕ
  send_frames limit = do
    modify (λ (t : Sending). record t { stream = record t.stream { http_state = opened } })
    update_bytes ← window_frame
    header_bytes ← headers_frame limit
    body_bytes ← body_frame fresh (sub64 limit (update_bytes + header_bytes))
    let used = update_bytes + header_bytes + body_bytes
    modify (λ (t : Sending). record t {
      stream = record t.stream { remote_window = sub64 t.stream.remote_window used };
    })
    pure used

  unfoldable pub get_tx_data : ℕ → Exec Sending ℕ
  get_tx_data limit t =
      let t' = unscheduled t in
      let allowed = min limit t'.stream.remote_window in
      if is_half_closed t'.stream.http_state
      then send_reset t'
      else if leb allowed 16
      then (t', ok 0)
      else send_frames allowed t'
