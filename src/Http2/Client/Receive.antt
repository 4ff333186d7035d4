-- ===== src/Http2/Client/Receive.antt =====
-- The frame handlers of lib/base_client.cpp. A frame that is read in place is a span of the input
-- buffer's memory. What is read behind a frame's bytes is `undefined`.
use h2pp.Prelude.{
  ℕ, ◌+◌, ◌*◌, ◌%◌, ◌^◌, List, [], ◌∷◌, Bool, true, false, Option, none, some, Result, ok, throw,
  undefined, system_error, bit_or, length, drop, ◌==◌, if◌then◌else◌,
}
use h2pp.Prelude.Exec.{Exec, pure, lift, gets, modify, ◌>>=◌, ◌>>◌}
use h2pp.Http2.Protocol.{
  data_type, headers_type, rst_stream_type, ping_type, window_update_type, continuation_type, ack,
  has_flag, error_value, protocol_error, internal_error, compression_error,
}
use h2pp.Http2.Window.{dec, update}
use h2pp.Http2.Frame.{
  header_size, from_buffer, get_frame, header_block, continuation_block, pad_offset,
  priority_offset,
}
use h2pp.Http2.Frame.Builder as Builder
use h2pp.Http2.Settings as Settings
use h2pp.Http2.Response.{Response}
use h2pp.Http2.Stream as Stream
use h2pp.Http2.Stream.{Stream, Call, check_tx_data, is_finished}
use h2pp.Http2.Registry.{Registry, deref, get_stream, enqueue, erase}
use h2pp.Http2.Registry.Serve.{store}
use h2pp.Http2.Client.{
  Client, init_write, response_call, ping_call, effect, send_command, settings_called,
}
use h2pp.Hpack.Bitstream.{Span, bytes_of}
use h2pp.Hpack.DynamicTable.{DynamicTable}
use h2pp.Hpack.Decoder.{decode}
use h2pp.Hpack.HeaderField.{HeaderField}

abbrev pub put_registry : Registry → Client → Client
put_registry r c = record c { registry = r }

-- A stream's call within the client, with the call of its handler.
abbrev pub stepped : ℕ → Client → Stream × Result (Option Call) → Client × Result (Unit {0})
stepped p c (s, ok (some call)) =
    (effect (response_call call) (put_registry (store p s c.registry) c), ok tt)
stepped p c (s, ok none) = (put_registry (store p s c.registry) c, ok tt)
stepped p c (s, throw exception) = (put_registry (store p s c.registry) c, throw exception)
stepped p c (s, undefined) = (put_registry (store p s c.registry) c, undefined)

abbrev pub requeued : ℕ → Bool × Stream → Registry → Registry
requeued p (true, s) r = enqueue (store p s r) p
requeued p (false, s) r = store p s r

-- What follows the stream's method.
unfoldable pub after_step : ℕ → ℕ → Exec Client (Unit {0})
after_step stream_id p = do
  r ← gets (λ (c : Client). c.registry)
  s ← lift (deref r.streams p)
  if is_finished s
      then (do r' ← lift (erase r stream_id); modify (put_registry r'))
      else modify (put_registry (requeued p (check_tx_data s) r))

abbrev pub invoke_at : ℕ → Exec Stream (Option Call) → Option ℕ → Exec Client (Unit {0})
invoke_at stream_id method none = pure tt
invoke_at stream_id method (some p) = do
  r ← gets (λ (c : Client). c.registry)
  s ← lift (deref r.streams p)
  (λ (c : Client). stepped p c (method s))
  after_step stream_id p

unfoldable pub invoke_for_stream : ℕ → Exec Stream (Option Call) → Exec Client (Unit {0})
invoke_for_stream stream_id method c =
    invoke_at stream_id method (get_stream c.registry stream_id) c

-- The numbers in the four bytes behind a frame's header.
abbrev pub little : List ℕ → Result ℕ
little (i ∷ j ∷ k ∷ l ∷ bytes) = ok (i + j * 256 + k * 65536 + l * 16777216)
little _ = undefined

abbrev pub big : List ℕ → Result ℕ
big (i ∷ j ∷ k ∷ l ∷ bytes) = ok (i * 16777216 + j * 65536 + k * 256 + l)
big _ = undefined

-- `catch (const std::exception &)` around the decoder.
abbrev pub caught :
    Client → DynamicTable × Result (List HeaderField) → Client × Result (List HeaderField)
caught c (table, ok fields) = (record c { decoder_table = table }, ok fields)
caught c (table, throw exception) =
    (record c { decoder_table = table }, throw (system_error (error_value compression_error)))
caught c (table, undefined) = (record c { decoder_table = table }, undefined)

-- The block's bytes as a place in the memory, decoded.
abbrev pub decode_at : Span → ℕ → Result (List ℕ) → Exec Client (List HeaderField)
decode_at span offset (ok block) c = caught c (
    decode c.decoder_table (record {
      memory = span.memory;
      first = span.first + header_size + offset;
      count = length block;
    }))
decode_at span offset (throw exception) c =
    (c, throw (system_error (error_value compression_error)))
decode_at span offset undefined c = (c, undefined)

module _ (taken : Response → Response) where
  unfoldable pub on_receive_data : List ℕ → Exec Client (Unit {0})
  on_receive_data buff = do
    analyzer ← lift (from_buffer buff)
    frame ← lift (get_frame data_type analyzer)
    invoke_for_stream frame.stream_id (Stream.on_receive_data taken buff)

  unfoldable pub on_receive_headers : Span → Exec Client (Unit {0})
  on_receive_headers span = do
    analyzer ← lift (from_buffer (bytes_of span))
    frame ← lift (get_frame headers_type analyzer)
    fields ←
        decode_at span (pad_offset frame.flags + priority_offset frame.flags)
          (header_block analyzer.buffer frame)
    invoke_for_stream frame.stream_id
        (Stream.on_receive_headers taken fields frame.flags span.count)

  unfoldable pub on_receive_continuation : Span → Exec Client (Unit {0})
  on_receive_continuation span = do
    analyzer ← lift (from_buffer (bytes_of span))
    frame ← lift (get_frame continuation_type analyzer)
    fields ← decode_at span 0 (continuation_block analyzer.buffer frame)
    invoke_for_stream frame.stream_id
        (Stream.on_receive_continuation taken fields frame.flags span.count)

  unfoldable pub on_receive_reset : List ℕ → Exec Client (Unit {0})
  on_receive_reset bytes = do
    analyzer ← lift (from_buffer bytes)
    frame ← lift (get_frame rst_stream_type analyzer)
    code ← lift (little (drop header_size bytes))
    invoke_for_stream frame.stream_id (Stream.on_receive_reset taken code)

unfoldable pub on_receive_data_not_reachable : Exec Client (Unit {0})
on_receive_data_not_reachable = lift (throw (system_error (error_value internal_error)))

unfoldable pub on_receive_priority : Exec Client (Unit {0})
on_receive_priority = pure tt

unfoldable pub reply_if : Option (List ℕ) → Client → Client
reply_if none c = c
reply_if (some buff) c = send_command buff c

unfoldable pub on_receive_settings : List ℕ → Exec Client (Unit {0})
on_receive_settings bytes = do
  settings ← gets (λ (c : Client). c.settings)
  reaction ← lift (Settings.on_settings_frame settings bytes)
  modify (λ (c : Client). settings_called reaction.call (record c { settings = reaction.manager }))
  modify (reply_if reaction.reply)

-- The timer of an exchange of settings, which calls the same handler.
unfoldable pub on_settings_timeout : Client → Client
on_settings_timeout c =
    let (call, manager) = Settings.on_timeout c.settings in
    settings_called call (record c { settings = manager })

unfoldable pub on_receive_push : Exec Client (Unit {0})
on_receive_push =
    modify (λ (c : Client). effect init_write (send_command (Builder.goaway protocol_error 1 []) c))

-- The frame with the flag ACK added in its header.
abbrev pub with_ack : List ℕ → List ℕ
with_ack (a ∷ b ∷ c ∷ t ∷ flags ∷ rest) = a ∷ b ∷ c ∷ t ∷ bit_or flags ack ∷ rest
with_ack bytes = bytes

abbrev pub ping_answered : Client → Client
ping_answered c = elim c.ping_handler [
  | none ↦ c
  | some h ↦ effect (ping_call h 0) (record c { ping_handler = none })
]

unfoldable pub on_receive_ping : List ℕ → Exec Client (Unit {0})
on_receive_ping bytes = do
  analyzer ← lift (from_buffer bytes)
  ping ← lift (get_frame ping_type analyzer)
  modify (λ (c : Client).
      if has_flag ping.flags ack then ping_answered c else send_command (with_ack bytes) c)

unfoldable pub on_receive_goaway : Exec Client (Unit {0})
on_receive_goaway = pure tt

unfoldable pub on_receive_window_update : List ℕ → Exec Client (Unit {0})
on_receive_window_update bytes = do
  analyzer ← lift (from_buffer bytes)
  frame ← lift (get_frame window_update_type analyzer)
  increment ← lift (big (drop header_size bytes))
  if frame.stream_id == 0
      then modify (λ (c : Client). record c {
        server_window_size = (c.server_window_size + increment) % 2 ^ 64;
      })
      else invoke_for_stream frame.stream_id (Stream.on_receive_window_update increment)

-- What the connection's window says once bytes came.
unfoldable pub receive_bytes : ℕ → Client → Client
receive_bytes n c =
    let (frame, window) = update (dec c.local_window (n % 2 ^ 32)) 0 in
    reply_if frame (record c { local_window = window })

module _ (taken : Response → Response) where
  -- `frame_handlers`, by the frame's type; a number behind the table is read out of bounds.
  unfoldable pub frame_handlers : ℕ → Span → Exec Client (Unit {0})
  frame_handlers type span =
      if type == 0
      then on_receive_data_not_reachable
      else if type == 1
      then on_receive_headers taken span
      else if type == 2
      then on_receive_priority
      else if type == 3
      then on_receive_reset taken (bytes_of span)
      else if type == 4
      then on_receive_settings (bytes_of span)
      else if type == 5
      then on_receive_push
      else if type == 6
      then on_receive_ping (bytes_of span)
      else if type == 7
      then on_receive_goaway
      else if type == 8
      then on_receive_window_update (bytes_of span)
      else if type == 9
      then on_receive_continuation taken span
      else lift undefined

  unfoldable pub on_receive_frame : Span → Exec Client (Unit {0})
  on_receive_frame span = do
    modify (receive_bytes span.count)
    analyzer ← lift (from_buffer (bytes_of span))
    frame_handlers analyzer.frame_header.type span

  unfoldable pub on_receive_data_frame : List ℕ → Exec Client (Unit {0})
  on_receive_data_frame buff = do modify (receive_bytes (length buff)); on_receive_data taken buff
