-- ===== src/Http2/Stream/Whole.antt =====
-- `get_tx_data` of lib/stream.cpp for a request that is sent at once, and once it was sent.
use h2pp.Prelude.{
  ℕ, ◌+◌, ◌-◌, ◌*◌, ◌^◌, ◌<◌, ◌≤◌, List, [], ◌∷◌, ◌++◌, true, false, some, not, ◌&&◌, ok, ◌≡◌, refl,
  sym, ap, ◌∙◌, length, length-append, length-drop, drop, drop-all, min, max, leb, ◌==◌, arith,
}
use h2pp.Http2.Protocol.{end_stream, end_headers}
use h2pp.Http2.Frame.{header_size, sub64}
use h2pp.Http2.Frame.Builder as Builder
use h2pp.Http2.Window.{need_update}
use h2pp.Http2.Response.Body.{joined}
use h2pp.Http2.Request.{Request, is_empty, commit_headers}
use h2pp.Http2.Request.Slices.{commit_headers-drop}
use h2pp.Http2.Stream.{Stream, opened, is_half_closed}
use h2pp.Http2.Stream.Send.{
  Sending, Copied, data_bytes, encode_headers, put_headers, frame_header, last_frame,
  prepare_headers, headers_frame, body_frame, sent_window, window_frame, send_frames, get_tx_data,
  unscheduled, commit_body,
}
use h2pp.Http2.Window.Credit.{update-none}
use h2pp.Http2.Stream.Body.{take-all}
use h2pp.Http2.Stream.Sends.{IsSending, prepare_body-Sends}
use h2pp.Hpack.HeaderField.{HeaderField}
use h2pp.Hpack.IndexedTable.{IndexedTable, OrderedSet}
use h2pp.Hpack.Encoder.{EncoderConfig, encode}

-- The request without its header fields.
abbrev pub after_headers : Sending → IndexedTable → List ℕ → List ℕ → Sending
after_headers t table frame bytes = record {
  stream = record t.stream {
    request = record t.stream.request { header_list = [] };
    is_continuation = false;
    timer = some t.stream.request.timeout_value;
  };
  table = table;
  out = (t.out ++ (frame ∷ [])) ++ (bytes ∷ []);
}

abbrev pub now_open : Sending → Sending
now_open t = record t { stream = record t.stream { http_state = opened } }

commit-all :
    (r : Request) → commit_headers r (length r.header_list) ≡ ok (record r { header_list = [] })
commit-all r =
    commit_headers-drop r r.header_list (length r.header_list) (omega arith)
    ∙ ap (λ xs. ok (record r { header_list = xs })) (drop-all r.header_list _ refl)

-- A change of other members leaves what is to be sent.
still-IsSending :
    (s s' : Stream) (rest : List ℕ)
    → s'.request.span_list ≡ s.request.span_list
    → s'.request.body_list ≡ s.request.body_list
    → s'.request.size ≡ s.request.size
    → s'.send_body_offset ≡ s.send_body_offset
    → IsSending s rest
    → IsSending s' rest
still-IsSending s s' rest spans blocks size offset h = record {
  span = h.span;
  spans = h.spans;
  block = h.block;
  blocks = h.blocks;
  span_list = spans ∙ h.span_list;
  body_list = blocks ∙ h.body_list;
  steps = h.steps;
  sized = size ∙ h.sized;
  fits = omega (arith, size, h.fits);
  within = omega (arith, offset, h.within);
  unsent = h.unsent ∙ ap (λ o. drop o (joined (h.span ∷ h.spans))) (sym offset);
}

module _ (fresh : ℕ → List ℕ) (set : OrderedSet) (config : EncoderConfig) where
  prepare_headers-all :
      (limit : ℕ) (t : Sending) (table : IndexedTable) (bytes : List ℕ)
      → t.stream.is_continuation ≡ false
      → is_empty t.stream.request.body_list ≡ false
      → (length t.stream.request.header_list == 0) ≡ false
      → encode set config t.table t.stream.request.header_list (sub64 limit header_size)
        ≡ (table, ok (bytes, length t.stream.request.header_list))
      → let frame = Builder.headers fresh t.stream.http_id end_headers (length bytes) in
        prepare_headers fresh set config limit t
        ≡ (after_headers t table frame bytes, ok (length frame + length bytes))
  unfolding prepare_headers put_headers encode_headers frame_header last_frame
  prepare_headers-all limit t table bytes first has_body has_fields e =
      rw (first, e, has_fields, commit-all t.stream.request, has_body) refl

  headers_frame-all :
      (limit : ℕ) (t : Sending) (rest : List ℕ) (table : IndexedTable) (bytes : List ℕ)
      → IsSending t.stream rest
      → t.stream.is_continuation ≡ false
      → 0 < length t.stream.request.header_list
      → encode set config t.table t.stream.request.header_list (sub64 limit header_size)
        ≡ (table, ok (bytes, length t.stream.request.header_list))
      → ((n : ℕ) → length (fresh n) ≡ n)
      → headers_frame fresh set config limit t ≡ (
        after_headers t table
            (Builder.headers fresh t.stream.http_id end_headers (length bytes))
            bytes,
        ok (header_size + length bytes),
      )
  unfolding headers_frame
  headers_frame-all limit t rest table bytes sending first some_fields e new =
      rw (nonempty t.stream.request.header_list some_fields) (
        prepare_headers-all limit t table bytes first (ap is_empty sending.body_list)
          (ground (arith, some_fields)) e
        ∙ ap
            (λ n. (
              after_headers t table
                  (Builder.headers fresh t.stream.http_id end_headers (length bytes)) bytes,
              ok (n + length bytes),
            ))
            frame_size)
    where
      nonempty : (xs : List HeaderField) → 0 < length xs → is_empty xs ≡ false
      nonempty [] h = absurd (omega (arith, h))
      nonempty (x ∷ xs) h = refl

      frame_size :
          length (Builder.headers fresh t.stream.http_id end_headers (length bytes)) ≡ header_size
      frame_size = omega (arith, length-drop header_size (fresh 9), new 9)

  body_frame-all :
      (limit : ℕ) (t : Sending) (rest : List ℕ)
      → IsSending t.stream rest
      → is_empty t.stream.request.header_list ≡ true
      → 0 < length rest
      → header_size + length rest ≤ limit
      → 18 ≤ limit
      → limit < 2 ^ 64
      → (c : Copied) × (body_frame fresh limit t ≡ (
        record t {
          stream = commit_body c t.stream;
          out = t.out ++ (data_bytes fresh t.stream.http_id end_stream (length rest) rest ∷ []);
        },
        ok 0,
      ))
        × (drop c.offset (joined c.spans) ≡ [])
  unfolding body_frame
  body_frame-all limit t rest sending none_left some_body fits room small =
      let (c, e, left, steps) =
        prepare_body-Sends fresh limit t rest sending (omega (arith, room)) small in
      (
        c,
        rw (sends) (e ∙ rw (all_of, last, take-all rest (length rest) (omega arith)) refl),
        left ∙ drop-all rest _ (sym all_of),
      )
    where
      has_size : (t.stream.request.size == 0) ≡ false
      has_size = ground (
        arith,
        sending.sized,
        some_body,
        ap length sending.unsent,
        length-drop t.stream.send_body_offset (joined (sending.span ∷ sending.spans)),
        length-append sending.span (joined sending.spans),
      )

      enough : leb (2 * header_size) limit ≡ true
      enough = ground (arith, room)

      sends :
          is_empty t.stream.request.header_list
            && (not (t.stream.request.size == 0) && leb (2 * header_size) limit)
          ≡ true
      sends = rw (none_left, has_size, enough) refl

      all_of : min (limit - header_size) (length rest) ≡ length rest
      all_of = omega (arith, fits)

      last : (length rest == length rest) ≡ true
      last = ground arith

  abbrev shrunk : Sending → ℕ → Sending
  shrunk t used = record t {
    stream = record t.stream { remote_window = sub64 t.stream.remote_window used };
  }

  -- The three kinds of frames, one after another.
  send_frames-steps :
      (limit : ℕ) (t t1 t2 t3 : Sending) (u h b : ℕ)
      → window_frame (now_open t) ≡ (t1, ok u)
      → headers_frame fresh set config limit t1 ≡ (t2, ok h)
      → body_frame fresh (sub64 limit (u + h)) t2 ≡ (t3, ok b)
      → send_frames fresh set config limit t ≡ (shrunk t3 (u + h + b), ok (u + h + b))
  unfolding send_frames
  send_frames-steps limit t t1 t2 t3 u h b eu eh eb = rw (eu, eh, eb) refl

  window_frame-none :
      (t : Sending) → need_update t.stream.local_window ≡ false → window_frame t ≡ (t, ok 0)
  unfolding window_frame
  window_frame-none t h =
      ap (λ p. sent_window p t) (update-none t.stream.local_window t.stream.http_id h)

  -- A request with header fields and a body of which no block was removed, on a stream that is not
  -- half closed, sent no header yet and owes no window update, is sent by one call where its whole
  -- header block and what is unsent of its body fit the limit and the stream's window: a HEADERS frame
  -- with END_HEADERS and the block, then one DATA frame with END_STREAM and the body. The window
  -- shrinks by the HEADERS frame alone. A new buffer has as many bytes as asked for.
  pub get_tx_data-Whole :
      (limit : ℕ) (t : Sending) (rest : List ℕ) (table : IndexedTable) (bytes : List ℕ)
      → IsSending t.stream rest
      → is_half_closed t.stream.http_state ≡ false
      → t.stream.is_continuation ≡ false
      → need_update t.stream.local_window ≡ false
      → 0 < length t.stream.request.header_list
      → 0 < length rest
      → encode set config t.table t.stream.request.header_list
          (sub64 (min limit t.stream.remote_window) header_size)
        ≡ (table, ok (bytes, length t.stream.request.header_list))
      → ((n : ℕ) → length (fresh n) ≡ n)
      → 18 + length bytes + max 9 (length rest) ≤ min limit t.stream.remote_window
      → limit < 2 ^ 64
      → t.stream.remote_window < 2 ^ 64
      → (t' : Sending) × (get_tx_data fresh set config limit t
          ≡ (t', ok (header_size + length bytes)))
        × (t'.out
            ≡ t.out
              ++ (Builder.headers fresh t.stream.http_id end_headers (length bytes)
                  ∷ bytes
                  ∷ data_bytes fresh t.stream.http_id end_stream (length rest) rest
                  ∷ []))
        × (t'.stream.remote_window ≡ t.stream.remote_window - (header_size + length bytes))
        × (t'.stream.request.header_list ≡ [])
        × (drop t'.stream.send_body_offset (joined t'.stream.request.span_list) ≡ [])
  unfolding get_tx_data
  get_tx_data-Whole limit t rest table bytes sending state first window some_fields some_body e new
        fits small small' =
      let allowed = min limit t.stream.remote_window in
      let t1 = now_open (unscheduled t) in
      let frame = Builder.headers fresh t.stream.http_id end_headers (length bytes) in
      let t2 = after_headers t1 table frame bytes in
      let (c, eb, left) =
        body_frame-all (sub64 allowed (0 + (header_size + length bytes))) t2 rest
          (still-IsSending t.stream t2.stream rest refl refl refl refl sending) refl some_body
          (omega (arith, fits)) (omega (arith, fits)) (omega (arith, fits)) in
      let t3 = record t2 {
        stream = commit_body c t2.stream;
        out = t2.out ++ (data_bytes fresh t.stream.http_id end_stream (length rest) rest ∷ []);
      } in
      (
        shrunk t3 (0 + (header_size + length bytes) + 0),
        rw (state, room)
            (send_frames-steps allowed (unscheduled t) t1 t2 t3 0 (header_size + length bytes) 0
                (window_frame-none t1 window)
                (headers_frame-all allowed t1 rest table bytes
                  (still-IsSending t.stream t1.stream rest refl refl refl refl sending) first
                  some_fields e new)
                eb
              ∙ ap (λ n. (shrunk t3 (0 + (header_size + length bytes) + 0), ok n)) (omega arith)),
        three_frames t.out frame bytes _,
        omega (arith, fits, small'),
        refl,
        left,
      )
    where
      room : leb (min limit t.stream.remote_window) 16 ≡ false
      room = ground (arith, fits)

      three_frames :
          (out : List (List ℕ)) (x y z : List ℕ)
          → ((out ++ (x ∷ [])) ++ (y ∷ [])) ++ (z ∷ []) ≡ out ++ (x ∷ y ∷ z ∷ [])
      three_frames [] x y z = refl
      three_frames (w ∷ out) x y z = ap (◌∷◌ w) (three_frames out x y z)
