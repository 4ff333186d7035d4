-- ===== src/Http2/Stream/Ends.antt =====
-- The ends of a stream of lib/stream.cpp: the server's END_STREAM, and what is sent after the body.
use h2pp.Prelude.{
  ℕ, ◌+◌, ◌%◌, ◌^◌, ◌<◌, ◌≤◌, List, [], ◌∷◌, ◌++◌, true, false, none, some, Result, ok, undefined,
  ◌≡◌, refl, ap, length, min, leb, ◌==◌, arith, if◌then◌else◌,
}
use h2pp.Prelude.Exec.{Exec, and_then}
use h2pp.Http2.Protocol.{end_stream, has_flag, is_ok}
use h2pp.Http2.Frame.{Analyzer, from_buffer, sub64}
use h2pp.Http2.Frame.Builder as Builder
use h2pp.Http2.Window.{dec, need_update}
use h2pp.Http2.Window.Credit.{update-some}
use h2pp.Http2.Response.{Response, data_of, body_as}
use h2pp.Http2.Response.Body.{IsSized, joined, insert_body-body_as}
use h2pp.Http2.Request.{is_empty}
use h2pp.Http2.Stream.{
  Stream, half_closed, closed, is_half_closed, has_tx_data, finished, on_end_stream, insert_data,
  on_receive_data,
}
use h2pp.Http2.Stream.Send.{
  Sending, emplace_back, sent_window, copy_loop, prepare_body, headers_frame, body_frame,
  window_frame, unscheduled, prepare_headers, send_frames, get_tx_data,
}
use h2pp.Http2.Stream.Whole.{now_open}
use h2pp.Hpack.IndexedTable.{IndexedTable, OrderedSet}
use h2pp.Hpack.Encoder.{EncoderConfig}

-- A stream that waits for nothing but what the server sends.
pub record IsSent (s : Stream) : Type 0 where
  pub not_closing : is_half_closed s.http_state ≡ false
  pub no_headers : s.request.header_list ≡ []
  pub no_spans : s.request.span_list ≡ []

module _ (fresh : ℕ → List ℕ) (set : OrderedSet) (config : EncoderConfig) where
  body_frame_sent :
      (limit : ℕ) (t : Sending)
      → IsSent t.stream
      → (t.stream.request.size == 0) ≡ false
      → leb 18 limit ≡ true
      → (body_frame fresh limit t).1 ≡ undefined
  unfolding body_frame prepare_body copy_loop
  body_frame_sent limit t sent some_body room =
      rw (sent.no_headers, some_body, room, sent.no_spans) refl

  and_then_undefined :
      {A B : Type 0} (first : Sending × Result A) (next : A → Exec Sending B)
      → first.1 ≡ undefined
      → (and_then first next).1 ≡ undefined
  and_then_undefined (t, undefined) next e = refl
  and_then_undefined (t, ok a) next e = cc
  and_then_undefined (t, Result.throw exception) next e = cc

  send_frames-undefined :
      (limit : ℕ) (t t1 t2 : Sending) (u h : ℕ)
      → window_frame (now_open t) ≡ (t1, ok u)
      → headers_frame fresh set config limit t1 ≡ (t2, ok h)
      → (body_frame fresh (sub64 limit (u + h)) t2).1 ≡ undefined
      → (send_frames fresh set config limit t).1 ≡ undefined
  unfolding send_frames
  send_frames-undefined limit t t1 t2 u h eu eh eb =
      rw (eu, eh) (and_then_undefined (body_frame fresh (sub64 limit (u + h)) t2) _ eb)

  headers_frame-none :
      (limit : ℕ) (t : Sending)
      → t.stream.request.header_list ≡ []
      → headers_frame fresh set config limit t ≡ (t, ok 0)
  unfolding headers_frame
  headers_frame-none limit t e =
      ap (λ b. if b then (t, ok 0) else prepare_headers fresh set config limit t) (ap is_empty e)

  -- Once a request with a body was sent, a window update that is due makes the stream count as one
  -- with data to send, and the call for them, with room for the update and two headers, reads the
  -- front of an empty list of spans.
  pub get_tx_data_sent :
      (limit : ℕ) (t : Sending)
      → IsSent t.stream
      → (t.stream.request.size == 0) ≡ false
      → need_update t.stream.local_window ≡ true
      → 31 ≤ min limit t.stream.remote_window
      → limit < 2 ^ 64
      → (has_tx_data t.stream ≡ true) × ((get_tx_data fresh set config limit t).1 ≡ undefined)
  unfolding has_tx_data get_tx_data window_frame
  get_tx_data_sent limit t sent some_body due room small =
      let (frame, window, e, size) = update-some t.stream.local_window t.stream.http_id due in
      let t1 = now_open (unscheduled t) in
      let t2 =
        emplace_back frame (record t1 { stream = record t1.stream { local_window = window } }) in
      let allowed = min limit t.stream.remote_window in
      (
        rw (sent.not_closing, due) refl,
        rw (sent.not_closing, more)
            (send_frames-undefined allowed (unscheduled t) t2 t2 (length frame) 0
              (ap (λ p. sent_window p t1) e) (headers_frame-none allowed t2 sent.no_headers)
              (body_frame_sent (sub64 allowed (length frame + 0)) t2
                (record {
                  not_closing = refl;
                  no_headers = sent.no_headers;
                  no_spans = sent.no_spans;
                })
                some_body (enough (length frame) size))),
      )
    where
      more : leb (min limit t.stream.remote_window) 16 ≡ false
      more = ground (arith, room)

      enough : (n : ℕ) → n ≡ 13 → leb 18 (sub64 (min limit t.stream.remote_window) (n + 0)) ≡ true
      enough n e = ground (arith, room, small, e)

-- A DATA frame with END_STREAM and a payload, for a response whose size is that of its blocks and fits
-- 64 bits with the frame's data, where a handler waits: the handler is called with no error and the
-- response with the frame's data at the end of its body, and what the stream sends next, whatever the
-- limit, is RST_STREAM with no error, which closes it.
pub on_receive_data-get_tx_data :
    (taken : Response → Response) (fresh : ℕ → List ℕ) (set : OrderedSet) (config : EncoderConfig)
    (s : Stream) (h : ℕ) (b data_bytes : List ℕ) (a : Analyzer) (table : IndexedTable)
    (out : List (List ℕ)) (limit : ℕ)
    → s.response_handler ≡ some h
    → IsSized s.response
    → from_buffer b ≡ ok a
    → (a.frame_header.payload_size == 0) ≡ false
    → has_flag a.frame_header.flags end_stream ≡ true
    → data_of b ≡ ok data_bytes
    → length (joined s.response.body_blocks) + length data_bytes < 2 ^ 64
    → (s' : Stream) × (answer : Response) × (on_receive_data taken b s
        ≡ (s', ok (some (record { handler = h; code = 0; answer = answer }))))
      × (body_as answer ≡ joined s.response.body_blocks ++ data_bytes)
      × (s'.response_handler ≡ none)
      × (get_tx_data fresh set config limit (record { stream = s'; table = table; out = out }) ≡ (
        record {
          stream = record s' { is_scheduled = false; http_state = closed };
          table = table;
          out = out ++ (Builder.reset is_ok s.http_id ∷ []);
        },
        ok 13,
      ))
unfolding on_receive_data insert_data on_end_stream finished get_tx_data
on_receive_data-get_tx_data taken fresh set config s h b data_bytes a table out limit waits sized
      whole some_data ends e fits =
    let (r', inserted, still, blocks, body) =
      insert_body-body_as s.response b data_bytes sized e fits in
    (
      record s {
        timer = none;
        local_window = dec s.local_window (length b % 2 ^ 32);
        http_state = half_closed;
        response = taken r';
        response_handler = none;
      },
      r',
      rw (whole, some_data, inserted, ends, waits) refl,
      body,
      refl,
      refl,
    )
