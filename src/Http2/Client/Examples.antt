-- ===== src/Http2/Client/Examples.antt =====
-- A client that is connected, without a stream.
use h2pp.Prelude.{
  ℕ, List, [], ◌∷◌, ◌++◌, true, none, some, ok, ◌≡◌, ◌⊎◌, refl, length-replicate, drop, ◌==◌,
  if◌then◌else◌, arith,
}
use h2pp.Http2.Protocol.{le32, be32}
use h2pp.Http2.Frame.{from_buffer, read_header, get_frame, is_complete, check}
use h2pp.Http2.Frame.Builder as Builder
use h2pp.Http2.Window.{dummy_window, need_update, update, dec}
use h2pp.Http2.Registry.{get_stream}
use h2pp.Http2.Stream.Examples.{zeros, emptied, rq}
use h2pp.Http2.Client.{
  Client, Commands, base_client, init_write, ping_call, disconnect_call, effect, send_command,
  initiate_ping, initiate_send, initiate_disconnect, get_tx_data,
}
use h2pp.Http2.Client.Ids.{IsNumbered, id_of, stream_for, initiate_send-IsNumbered}
use h2pp.Http2.Client.Sends.{Cut, get_tx_data-Cut}
use h2pp.Http2.Client.Answers.{
  commands_for, effects_for, on_receive_ping-initiate_ping, initiate_disconnect-exchange,
}
use h2pp.Http2.Client.Receive.{
  on_receive_ping, with_ack, reply_if, receive_bytes, frame_handlers, on_receive_frame,
}
use h2pp.Http2.Client.Read.{read_whole, read_turn, read_loop, on_read}
use h2pp.Http2.Client.Read.Leaves.{Delivered, IsReady}
use h2pp.Http2.Client.Read.Returned.{on_read-Delivered}
use h2pp.Utils.Buffer.{Buffer, data_view, consume}
use h2pp.Hpack.IndexedTable.Examples.{sorted_list, new_table}
use h2pp.Hpack.Encoder.{encoder_config}

abbrev not_connected : ℕ
not_connected = 107

abbrev in_progress : ℕ
in_progress = 115

abbrev client : Client
client = record (base_client new_table) { is_connected = true }

client-IsNumbered : IsNumbered client
client-IsNumbered = record { positive = omega arith; keys = tt }

initiate_send-IsNumbered_example :
    (c' : Client) × (initiate_send not_connected rq 5 client ≡ (c', ok tt))
    × IsNumbered c'
    × (c'.registry.streams ≡ stream_for client rq 5 ∷ [])
    × ((id : ℕ)
        → get_stream c'.registry id
          ≡ (if id == id_of 1 then some 0 else get_stream client.registry id))
    × (le32 (id_of 1) ≡ be32 1)
    × (c'.registry.queue ≡ some 0 ∷ [])
    × (c'.effects ≡ init_write ∷ [])
initiate_send-IsNumbered_example =
    initiate_send-IsNumbered not_connected rq 5 client refl (omega arith) client-IsNumbered

-- The second of three commands does not fit.
abbrev narrow : Client
narrow = record client {
  tx_command_queue = (1 ∷ 2 ∷ []) ∷ (3 ∷ 4 ∷ []) ∷ (5 ∷ []) ∷ [];
  server_window_size = 3;
}

get_tx_data-Cut_example :
    (k : Commands) × Cut narrow.tx_command_queue 3 k
    × ((get_tx_data zeros sorted_list encoder_config narrow).0.tx_command_queue ≡ k.left)
    × ((k.left ≡ [])
        ⊎ (get_tx_data zeros sorted_list encoder_config narrow ≡ (
          record narrow { tx_command_queue = k.left; server_window_size = k.window },
          ok k.sent,
        )))
get_tx_data-Cut_example = get_tx_data-Cut zeros sorted_list encoder_config narrow

on_receive_ping-initiate_ping_example :
    (waiting answered done : Client) × (initiate_ping zeros not_connected in_progress 7 client
      ≡ (waiting, ok tt))
    × (waiting.tx_command_queue ≡ Builder.ping zeros [] ∷ [])
    × (waiting.effects ≡ [])
    × (on_receive_ping (Builder.ping zeros []) narrow ≡ (answered, ok tt))
    × (answered.tx_command_queue
        ≡ narrow.tx_command_queue ++ (with_ack (Builder.ping zeros []) ∷ []))
    × (on_receive_ping (with_ack (Builder.ping zeros [])) waiting ≡ (done, ok tt))
    × (done.effects ≡ ping_call 7 0 ∷ [])
    × (done.ping_handler ≡ none)
on_receive_ping-initiate_ping_example =
    on_receive_ping-initiate_ping zeros not_connected in_progress 7 client narrow refl refl

-- A client that waits for its settings with the handler 9, and is told to disconnect.
abbrev connecting : Client
connecting = record (base_client new_table) {
  settings = record client.settings { settings_handler = some 9; settings_timer = true };
}

initiate_disconnect-exchange_example :
    let c' = initiate_disconnect 0 (some 3) connecting in
    (c'.is_disconnecting ≡ true)
    × (c'.tx_command_queue ≡ commands_for 0 connecting)
    × (c'.effects ≡ effects_for 0 9)
    × (c'.disconnect_handler ≡ none)
    × (c'.settings.settings_handler ≡ none)
    × (initiate_disconnect 0 (some 4) c' ≡ effect (disconnect_call 4) c')
initiate_disconnect-exchange_example =
    initiate_disconnect-exchange 0 9 0 4 (some 3) connecting refl refl

-- A PING of the peer, and four bytes of the next frame.
abbrev ping_bytes : List ℕ
ping_bytes = 0 ∷ 0 ∷ 8 ∷ 6 ∷ 0 ∷ 0 ∷ 0 ∷ 0 ∷ 0 ∷ 1 ∷ 2 ∷ 3 ∷ 4 ∷ 5 ∷ 6 ∷ 7 ∷ 8 ∷ []

abbrev input : Buffer
input = record {
  offset = 21;
  maxsize = 24;
  memory = ping_bytes ++ (0 ∷ 0 ∷ 5 ∷ 0 ∷ 9 ∷ 9 ∷ 9 ∷ []);
}

abbrev rest : Buffer
rest = record { offset = 4; maxsize = 24; memory = (0 ∷ 0 ∷ 5 ∷ 0 ∷ []) ++ drop 4 input.memory }

abbrev answered : Client
answered = record client {
  local_window = record client.local_window { size = 65518 };
  tx_command_queue = with_ack ping_bytes ∷ [];
  effects = init_write ∷ [];
}

has_read : on_read zeros emptied input client ≡ (answered, ok rest)
unfolding on_read read_loop read_turn read_whole on_receive_frame frame_handlers on_receive_ping
    receive_bytes reply_if send_command from_buffer read_header get_frame is_complete check
    dummy_window need_update update dec consume
has_read = refl

on_read-Delivered_example :
    (j : ℕ) × (last : Client) × Delivered emptied input.memory 21 0 client j last
    × (answered ≡ effect init_write last)
    × (data_view rest ≡ drop j (data_view input))
    × IsReady rest
unfolding dummy_window
on_read-Delivered_example =
    on_read-Delivered zeros emptied input rest client answered (λ n. length-replicate n 0)
      (record { within = omega arith; allocated = refl }) (omega arith) has_read refl
