-- ===== src/Http2/Client.antt =====
-- lib/base_client.h and base_client.cpp, with `PrivateClient`. The calls of handlers and of
-- `init_write`, which are made outside the library, stand in `effects` in their order. Error codes of
-- Boost.Asio are parameters.
pub mod Receive
pub mod Ids
pub mod Sends
pub mod Answers
mod Examples
pub mod Read
use h2pp.Prelude.{
  ℕ, ◌+◌, ◌-◌, ◌*◌, ◌/◌, ◌%◌, ◌^◌, List, [], ◌∷◌, ◌++◌, Bool, true, false, not, Option, none, some,
  Result, ok, throw, undefined, system_error, length, min, ltb, leb, ◌==◌, if◌then◌else◌,
}
use h2pp.Prelude.Exec.{Exec, pure, lift, gets, modify, ◌>>=◌, ◌>>◌}
use h2pp.Http2.Protocol.{native_to_big, initial_window, is_ok}
use h2pp.Http2.Window.{DummyWindow, dummy_window, sub32}
use h2pp.Http2.Frame.{header_size, sub64}
use h2pp.Http2.Frame.Builder as Builder
use h2pp.Http2.Settings as Settings
use h2pp.Http2.Settings.{Manager, settings_manager, default_settings}
use h2pp.Http2.Request.{Request}
use h2pp.Http2.Response.{Response}
use h2pp.Http2.Stream.{Stream, Call, stream}
use h2pp.Http2.Registry.{Registry, stream_registry, add_stream}
use h2pp.Http2.Registry.Serve as Serve
use h2pp.Hpack.DynamicTable.{DynamicTable}
use h2pp.Hpack.Decoder.{decoder}
use h2pp.Hpack.IndexedTable.{IndexedTable, OrderedSet}
use h2pp.Hpack.Encoder.{EncoderConfig}

pub data Effect : Type 0 where
  init_write : Effect
  response_call : Call → Effect
  settings_call ping_call : ℕ → ℕ → Effect
  disconnect_call : ℕ → Effect

pub record Client : Type 0 where
  pub is_connecting : Bool
  pub is_connected : Bool
  pub is_disconnecting : Bool
  pub connection_error_code : ℕ
  pub disconnect_handler : Option ℕ
  pub client_id_order : ℕ
  pub tx_command_queue : List (List ℕ)
  pub server_window_size : ℕ
  pub ping_handler : Option ℕ
  pub decoder_table : DynamicTable
  pub encoder_table : IndexedTable
  pub settings : Manager
  pub registry : Registry
  pub local_window : DummyWindow
  pub effects : List Effect

-- A new client, over the encoder's new table.
abbrev pub base_client : IndexedTable → Client
base_client table = record {
  is_connecting = false;
  is_connected = false;
  is_disconnecting = false;
  connection_error_code = 0;
  disconnect_handler = none;
  client_id_order = 1;
  tx_command_queue = [];
  server_window_size = initial_window;
  ping_handler = none;
  decoder_table = decoder;
  encoder_table = table;
  settings = settings_manager;
  registry = stream_registry;
  local_window = dummy_window initial_window (initial_window / 4);
  effects = [];
}

abbrev pub effect : Effect → Client → Client
effect e c = record c { effects = c.effects ++ (e ∷ []) }

unfoldable pub send_command : List ℕ → Client → Client
send_command buff c = record c { tx_command_queue = c.tx_command_queue ++ (buff ∷ []) }

-- The characters of "PRI * HTTP/2.0\r\n\r\nSM\r\n\r\n".
abbrev pub preambula : List ℕ
preambula =
    b'P' ∷ b'R' ∷ b'I' ∷ 0x20 ∷ 0x2a ∷ 0x20 ∷ b'H' ∷ b'T' ∷ b'T' ∷ b'P' ∷ 0x2f ∷ b'2' ∷ 0x2e ∷ b'0'
    ∷ 0x0d ∷ 0x0a ∷ 0x0d ∷ 0x0a ∷ b'S' ∷ b'M' ∷ 0x0d ∷ 0x0a ∷ 0x0d ∷ 0x0a ∷ []

unfoldable pub write_initial_frames : Client → Client
unfolding send_command
write_initial_frames c = send_command preambula c

-- The identifier, and the client after it; `order * 2 - 1` in 32 bits.
unfoldable pub get_next_stream_id : Client → ℕ × Client
get_next_stream_id c = (
  native_to_big ((c.client_id_order * 2 + 2 ^ 32 - 1) % 2 ^ 32),
  record c { client_id_order = (c.client_id_order + 1) % 2 ^ 32 },
)

-- `window_size`
abbrev pub full_window : Client → ℕ
full_window c =
    c.settings.local_settings.initial_window_size
    * c.settings.local_settings.max_concurrent_streams
    % 2 ^ 32

-- What the manager's call of the handler of `initiate_sync_settings` does.
unfoldable pub new_window : Client → Client
unfolding send_command
new_window c =
    let window_size = full_window c in
    let increment = sub32 window_size c.local_window.size in
    effect init_write (
      send_command (Builder.update_window increment 0)
        (record c { local_window = dummy_window window_size (window_size / 2) }))

unfoldable pub settings_called : Option (ℕ × ℕ) → Client → Client
settings_called none c = c
settings_called (some (h, ec)) c = effect (settings_call h ec) (if ec == 0 then new_window c else c)

unfoldable pub initiate_sync_settings : (in_progress : ℕ) → Bool → ℕ → Exec Client (Unit {0})
initiate_sync_settings in_progress remote_sync handler = do
  settings ← gets (λ (c : Client). c.settings)
  sent ←
      lift
        (Settings.initiate_sync_settings in_progress settings default_settings remote_sync handler)
  modify (λ (c : Client). send_command sent.0 (record c { settings = sent.1 }))
  modify (effect init_write)

abbrev pub call_if_set : Option ℕ → Client → Client
call_if_set none c = c
call_if_set (some h) c = effect (disconnect_call h) c

abbrev pub after_cancel : ℕ → Option ℕ → Option (ℕ × ℕ) × Manager → Client → Client
after_cancel ec handler (some call, m) c = settings_called (some call) (record c { settings = m })
after_cancel ec handler (none, m) c = effect init_write (
    send_command (Builder.goaway is_ok 1 [])
      (record c { settings = m; connection_error_code = ec; disconnect_handler = handler }))

unfoldable pub initiate_disconnect : ℕ → Option ℕ → Client → Client
initiate_disconnect ec handler c =
    if c.is_disconnecting
    then call_if_set handler c
    else after_cancel ec handler (Settings.cancel c.settings ec)
        (record c { is_disconnecting = true })

abbrev pub is_set : Option ℕ → Bool
is_set none = false
is_set (some h) = true

-- `ping({})`: the frame's data are those of the memory of the new buffer.
unfoldable pub initiate_ping :
    (fresh : ℕ → List ℕ) (not_connected in_progress : ℕ) → ℕ → Exec Client (Unit {0})
initiate_ping fresh not_connected in_progress handler c =
    if not c.is_connected
    then (c, throw (system_error not_connected))
    else if is_set c.ping_handler
    then (c, throw (system_error in_progress))
    else (send_command (Builder.ping fresh []) (record c { ping_handler = some handler }), ok tt)

abbrev pub new_stream : ℕ → Request → ℕ → Client → Client
new_stream id rq handler c =
    let r = c.registry in
    let s =
      stream id c.settings.remote_settings.initial_window_size
        c.settings.local_settings.initial_window_size rq (some handler) in
    record c {
      registry = add_stream (record r { streams = r.streams ++ (s ∷ []) }) id (length r.streams);
    }

unfoldable pub initiate_send : (not_connected : ℕ) → Request → ℕ → Exec Client (Unit {0})
initiate_send not_connected rq handler c =
    if not c.is_connected
    then (c, throw (system_error not_connected))
    else (let (id, c') = get_next_stream_id c in
        (effect init_write (new_stream id rq handler c'), ok tt))

abbrev pub response_calls : List Call → List Effect
response_calls [] = []
response_calls (c ∷ cs) = response_call c ∷ response_calls cs

abbrev pub cleaned : Client → Registry × Result (List Call) → Client × Result (Unit {0})
cleaned c (r, ok calls) = (
  record c { registry = r; effects = c.effects ++ response_calls calls; is_connecting = false },
  ok tt,
)
cleaned c (r, throw exception) = (record c { registry = r }, throw exception)
cleaned c (r, undefined) = (record c { registry = r }, undefined)

unfoldable pub cleanup_after_disconnect : (Response → Response) → ℕ → Exec Client (Unit {0})
cleanup_after_disconnect taken ec c = cleaned c (Serve.reset taken ec c.registry)

-- The commands that fit the server's window, in their order.
pub record Commands : Type 0 where
  pub sent : List (List ℕ)
  pub left : List (List ℕ)
  pub window : ℕ

unfoldable pub take_commands : List (List ℕ) → ℕ → Commands
take_commands [] window = record { sent = []; left = []; window = window }
take_commands (b ∷ queue) window =
    let rest = take_commands queue (window - length b) in
    if ltb window (length b)
    then record { sent = []; left = b ∷ queue; window = window }
    else record rest { sent = b ∷ rest.sent }

abbrev pub is_all : List (List ℕ) → Bool
is_all [] = true
is_all (b ∷ queue) = false

-- What `get_data` gives.
abbrev pub served : Client → Serve.Serving × Result ℕ → Client × Result (List (List ℕ))
served c (t, ok used) = (
  record c {
    registry = t.registry;
    encoder_table = t.table;
    server_window_size = sub64 c.server_window_size used;
  },
  ok t.out,
)
served c (t, throw exception) =
    (record c { registry = t.registry; encoder_table = t.table }, throw exception)
served c (t, undefined) = (record c { registry = t.registry; encoder_table = t.table }, undefined)

unfoldable pub get_tx_data : (ℕ → List ℕ) → OrderedSet → EncoderConfig → Exec Client (List (List ℕ))
get_tx_data fresh set config c =
    let commands = take_commands c.tx_command_queue c.server_window_size in
    let c' = record c { tx_command_queue = commands.left; server_window_size = commands.window } in
    let limit = min commands.window c.settings.local_settings.max_frame_size in
    if not (is_all commands.left)
    then (c', ok commands.sent)
    else if leb (2 * header_size) limit
    then served c'
        (Serve.get_data fresh set config limit c'.registry c'.encoder_table commands.sent)
    else (c', ok commands.sent)
