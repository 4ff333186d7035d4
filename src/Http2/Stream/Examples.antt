-- ===== src/Http2/Stream/Examples.antt =====
-- A request with one header field and a body of three bytes, sent and answered.
use h2pp.Prelude.{
  ℕ, ◌-◌, List, [], ◌∷◌, ◌++◌, true, false, none, some, ok, undefined, ◌≡◌, refl, replicate,
  length-replicate, drop, arith,
}
use h2pp.Prelude.Bytes.{make_mask}
use h2pp.Http2.Protocol.{end_stream, end_headers, is_ok}
use h2pp.Http2.Frame.{
  Analyzer, from_buffer, read_header, get_frame, frame_data, pad_length, front, read_span,
}
use h2pp.Http2.Frame.Builder as Builder
use h2pp.Http2.Window.{dummy_window, need_update}
use h2pp.Http2.Response.{Response, response, data_of, body_as}
use h2pp.Http2.Response.Body.{joined}
use h2pp.Http2.Request.{Request, empty_request, vector_block}
use h2pp.Http2.Stream.{Stream, stream, closed, has_tx_data, on_receive_data}
use h2pp.Http2.Stream.Send.{Sending, copy_loop, data_bytes, prepare_body, get_tx_data}
use h2pp.Http2.Stream.Sends.{IsSending}
use h2pp.Http2.Stream.Overrun.{prepare_body-overrun}
use h2pp.Http2.Stream.Whole.{get_tx_data-Whole}
use h2pp.Http2.Stream.Ends.{IsSent, get_tx_data_sent, on_receive_data-get_tx_data}
use h2pp.Http2.Stream.Calls.{Event, data_event, reset_event, timer_event, run, waiting, run-waiting}
use h2pp.Hpack.HeaderField.{HeaderField, default}
use h2pp.Hpack.Integer as Integer
use h2pp.Hpack.Integer.{prefix_mask}
use h2pp.Hpack.EncoderStream.{push_back, encoder_stream, flush}
use h2pp.Hpack.StaticTable as Static
use h2pp.Hpack.DynamicTable as Dynamic
use h2pp.Hpack.IndexedTable as Indexed
use h2pp.Hpack.IndexedTable.Examples.{sorted_list, new_table}
use h2pp.Hpack.Encoder.{
  encoder_config, encode, encode_fields, encode_field, table_index, write_index,
}

abbrev pub zeros : ℕ → List ℕ
zeros n = replicate n 0

-- What a handler leaves that moves from its response.
abbrev pub emptied : Response → Response
emptied r = response

abbrev get_field : HeaderField
get_field = record {
  name = 0x3a ∷ b'm' ∷ b'e' ∷ b't' ∷ b'h' ∷ b'o' ∷ b'd' ∷ [];
  value = b'G' ∷ b'E' ∷ b'T' ∷ [];
  type = default;
}

abbrev pub rq : Request
rq = record empty_request {
  header_list = get_field ∷ [];
  body_list = vector_block (1 ∷ 2 ∷ 3 ∷ []) ∷ [];
  span_list = (1 ∷ 2 ∷ 3 ∷ []) ∷ [];
  size = 3;
}

-- The stream 1, whose handler is 5.
abbrev pub first_stream : Stream
first_stream = stream 0x01000000 65535 65535 rq (some 5)

abbrev pub sending : Sending
sending = record { stream = first_stream; table = new_table; out = [] }

abbrev three_left : IsSending first_stream (1 ∷ 2 ∷ 3 ∷ [])
unfolding stream
three_left = record {
  span = 1 ∷ 2 ∷ 3 ∷ [];
  spans = [];
  block = vector_block (1 ∷ 2 ∷ 3 ∷ []);
  blocks = [];
  span_list = refl;
  body_list = refl;
  steps = refl;
  sized = refl;
  fits = omega arith;
  within = omega arith;
  unsent = refl;
}

encoded_field :
    encode sorted_list encoder_config new_table (get_field ∷ []) 16375
    ≡ (new_table, ok (0x82 ∷ [], 1))
unfolding encode encode_fields encode_field table_index write_index Static.field_index Static.index
    Static.hash Static.same_bytes Static.bytes_equal Static.find_value Static.name_at
    Static.value_at Indexed.field_index Integer.encode prefix_mask make_mask push_back
    encoder_stream flush Dynamic.empty
encoded_field = refl

get_tx_data-Whole_example :
    (t' : Sending) × (get_tx_data zeros sorted_list encoder_config 16384 sending ≡ (t', ok 10))
    × (t'.out
        ≡ sending.out
          ++ (Builder.headers zeros first_stream.http_id end_headers 1
              ∷ (0x82 ∷ [])
              ∷ data_bytes zeros first_stream.http_id end_stream 3 (1 ∷ 2 ∷ 3 ∷ [])
              ∷ []))
    × (t'.stream.remote_window ≡ first_stream.remote_window - 10)
    × (t'.stream.request.header_list ≡ [])
    × (drop t'.stream.send_body_offset (joined t'.stream.request.span_list) ≡ [])
unfolding stream need_update dummy_window
get_tx_data-Whole_example =
    get_tx_data-Whole zeros sorted_list encoder_config 16384 sending (1 ∷ 2 ∷ 3 ∷ []) new_table
      (0x82 ∷ []) three_left refl refl refl (omega arith) (omega arith) encoded_field
      (λ n. length-replicate n 0) (omega arith) (omega arith) (omega arith)

-- The request was sent, and a quarter of the window is used.
abbrev sent_stream : Stream
sent_stream = record first_stream {
  request = record rq { header_list = []; body_list = []; span_list = [] };
  local_window = record { max_size = 65535; size = 40000; trigger_size = 16383 };
}

sent_stream-IsSent : IsSent sent_stream
unfolding stream
sent_stream-IsSent = record { not_closing = refl; no_headers = refl; no_spans = refl }

get_tx_data_sent_example :
    (has_tx_data sent_stream ≡ true)
    × ((get_tx_data zeros sorted_list encoder_config 16384
          (record { stream = sent_stream; table = new_table; out = [] })).1
        ≡ undefined)
unfolding stream need_update
get_tx_data_sent_example =
    get_tx_data_sent zeros sorted_list encoder_config 16384
      (record { stream = sent_stream; table = new_table; out = [] }) sent_stream-IsSent refl refl
      (omega arith) (omega arith)

-- A DATA frame with the bytes 4 and 5 and END_STREAM.
abbrev pub last_bytes : List ℕ
last_bytes = 0 ∷ 0 ∷ 2 ∷ 0 ∷ 1 ∷ 0 ∷ 0 ∷ 0 ∷ 1 ∷ 4 ∷ 5 ∷ []

abbrev last_analyzer : Analyzer
last_analyzer = record {
  buffer = last_bytes;
  frame_header = record { payload_size = 2; type = 0; flags = 1; stream_id = 0x01000000 };
}

analyzed : from_buffer last_bytes ≡ ok last_analyzer
unfolding from_buffer read_header
analyzed = refl

last_data : data_of last_bytes ≡ ok (4 ∷ 5 ∷ [])
unfolding data_of from_buffer get_frame read_header frame_data pad_length front read_span
last_data = refl

on_receive_data-get_tx_data_example :
    (s' : Stream) × (answer : Response) × (on_receive_data emptied last_bytes first_stream
      ≡ (s', ok (some (record { handler = 5; code = 0; answer = answer }))))
    × (body_as answer ≡ [] ++ (4 ∷ 5 ∷ []))
    × (s'.response_handler ≡ none)
    × (get_tx_data zeros sorted_list encoder_config 100
          (record { stream = s'; table = new_table; out = [] })
        ≡ (
          record {
            stream = record s' { is_scheduled = false; http_state = closed };
            table = new_table;
            out = [] ++ (Builder.reset is_ok first_stream.http_id ∷ []);
          },
          ok 13,
        ))
unfolding stream
on_receive_data-get_tx_data_example =
    on_receive_data-get_tx_data emptied zeros sorted_list encoder_config first_stream 5 last_bytes
      (4 ∷ 5 ∷ []) last_analyzer new_table [] 100 refl refl analyzed refl refl last_data
      (omega arith)

-- A frame that is too short throws, the last frame calls the handler, and the timer then calls none.
abbrev events : List Event
events = data_event (1 ∷ []) ∷ data_event last_bytes ∷ timer_event 0 ∷ reset_event 8 ∷ []

run-waiting_example :
    (run emptied 125 110 events first_stream).0
      ++ waiting (run emptied 125 110 events first_stream).1
    ≡ 5 ∷ []
unfolding stream
run-waiting_example = run-waiting emptied 125 110 events first_stream

-- A body of two blocks, and what a frame of twelve bytes leaves of it.
abbrev two_blocks : Stream
two_blocks = record first_stream {
  request = record rq {
    body_list = vector_block (1 ∷ 2 ∷ 3 ∷ []) ∷ vector_block (4 ∷ 5 ∷ []) ∷ [];
    span_list = (1 ∷ 2 ∷ 3 ∷ []) ∷ (4 ∷ 5 ∷ []) ∷ [];
    size = 5;
  };
}

abbrev second_left : Stream
second_left = record first_stream {
  request = record rq {
    body_list = vector_block (4 ∷ 5 ∷ []) ∷ [];
    span_list = (4 ∷ 5 ∷ []) ∷ [];
    size = 5;
  };
}

first_block_test :
    (prepare_body zeros 12 (record { stream = two_blocks; table = new_table; out = [] })).0.stream
    ≡ second_left
unfolding prepare_body copy_loop stream
first_block_test = refl

prepare_body-overrun_example :
    (prepare_body zeros 100 (record { stream = second_left; table = new_table; out = [] })).1
    ≡ undefined
unfolding stream
prepare_body-overrun_example =
    prepare_body-overrun zeros 100 (record { stream = second_left; table = new_table; out = [] })
      (omega arith) (omega arith) (omega arith) (omega arith) (omega arith) (omega arith)
