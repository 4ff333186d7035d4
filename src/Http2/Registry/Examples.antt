-- ===== src/Http2/Registry/Examples.antt =====
-- The registry of a client with one stream.
use h2pp.Prelude.{zero, suc, [], ◌∷◌, none, some, ok, undefined, ◌≡◌, refl, arith}
use h2pp.Prelude.Bytes.{make_mask}
use h2pp.Http2.Window.{dummy_window, need_update, update}
use h2pp.Http2.Request.{commit_headers}
use h2pp.Http2.Stream.{stream, has_tx_data, check_tx_data}
use h2pp.Http2.Stream.Send.{
  copy_loop, window_frame, prepare_body, frame_header, last_frame, body_frame, put_headers,
  encode_headers, prepare_headers, headers_frame, send_frames, get_tx_data, data_bytes,
}
use h2pp.Http2.Stream.Examples.{zeros, emptied, first_stream}
use h2pp.Http2.Registry.{Registry, erase, erase_key}
use h2pp.Http2.Registry.Serve.{
  account, append_next, send_stream, serve_stream, serve, serve_all, get_data, reset,
}
use h2pp.Http2.Registry.Kept.{IsKept}
use h2pp.Http2.Registry.Served.{get_data-IsKept}
use h2pp.Http2.Registry.Erased.{erase-erase_undefined}
use h2pp.Http2.Registry.Cleared.{answers, reset-answers}
use h2pp.Hpack.Integer as Integer
use h2pp.Hpack.Integer.{prefix_mask}
use h2pp.Hpack.EncoderStream.{push_back, encoder_stream, flush}
use h2pp.Hpack.StaticTable as Static
use h2pp.Hpack.DynamicTable as Dynamic
use h2pp.Hpack.IndexedTable as Indexed
use h2pp.Hpack.IndexedTable.Examples.{sorted_list, new_table}
use h2pp.Hpack.Encoder.{
  encoder_config, encode, encode_fields, encode_field, table_index, write_index,
}

abbrev one_stream : Registry
one_stream = record {
  streams = first_stream ∷ [];
  stream_map = (0x01000000, 0) ∷ [];
  queue = some 0 ∷ [];
}

erase-erase_undefined_example :
    (r' : Registry) × (erase one_stream 0x01000000 ≡ ok r')
    × (r'.queue ≡ none ∷ [])
    × (r'.stream_map ≡ erase_key 0x01000000 one_stream.stream_map)
    × (erase r' 0x03000000 ≡ undefined)
unfolding stream
erase-erase_undefined_example =
    erase-erase_undefined one_stream 0x01000000 0x03000000 [] 0 first_stream [] refl tt tt refl refl

reset-answers_example :
    (r' : Registry) × (reset emptied 104 one_stream
      ≡ (r', ok (answers 104 one_stream.streams one_stream.stream_map)))
    × (r'.stream_map ≡ [])
    × (r'.queue ≡ [])
reset-answers_example = reset-answers emptied 104 one_stream (omega arith, tt, tt)

all_queued : IsKept one_stream.streams one_stream.queue
unfolding IsKept
all_queued zero s e scheduled has = refl
all_queued (suc p) s e scheduled has = absurd (cc)

served : (get_data zeros sorted_list encoder_config 16384 one_stream new_table []).1 ≡ ok 10
unfolding get_data serve_all serve serve_stream send_stream account append_next has_tx_data
    check_tx_data get_tx_data send_frames headers_frame prepare_headers encode_headers put_headers
    body_frame last_frame frame_header prepare_body window_frame copy_loop data_bytes stream
    dummy_window need_update update commit_headers encode encode_fields encode_field table_index
    write_index Static.field_index Static.index Static.hash Static.same_bytes Static.bytes_equal
    Static.find_value Static.name_at Static.value_at Indexed.field_index Integer.encode prefix_mask
    make_mask push_back encoder_stream flush Dynamic.empty
served = refl

get_data-IsKept_example :
    let after =
      (get_data zeros sorted_list encoder_config 16384 one_stream new_table []).0.registry in
    IsKept after.streams after.queue
get_data-IsKept_example =
    get_data-IsKept zeros sorted_list encoder_config 16384 one_stream new_table [] 10 all_queued
      served
