-- ===== src/Http2/Settings.antt =====
-- lib/settings_manager.h and settings_manager.cpp, and `struct settings` of lib/protocol.h. The
-- completion handlers are numbered; the timer is whether a wait is pending, since Boost.Asio
-- calls a cancelled wait with `operation_aborted`, on which its handler does nothing.
pub mod Exchange
pub mod Handler
mod Examples
use h2pp.Prelude.{
  ℕ, zero, suc, ◌+◌, ◌*◌, ◌/◌, ◌%◌, List, [], ◌∷◌, Bool, true, false, not, ◌&&◌, ◌||◌, Option, none,
  some, Result, ok, throw, undefined, ◌>>=◌, system_error, ◌==◌, if◌then◌else◌,
}
use h2pp.Http2.Protocol.{
  native_to_big, initial_window, settings_type, has_flag, ack, error_value, settings_timeout,
}
use h2pp.Http2.Frame.{Header, Analyzer, SettingsItem, from_buffer, get_frame, items}
use h2pp.Http2.Frame.Builder.{settings, settings_item, settings_ack}

-- `enum class settings_type`, in the order of bytes of the network.
abbrev pub header_table_size_type : ℕ
header_table_size_type = 0x0100

abbrev pub enable_push_type : ℕ
enable_push_type = 0x0200

abbrev pub max_concurrent_streams_type : ℕ
max_concurrent_streams_type = 0x0300

abbrev pub initial_window_size_type : ℕ
initial_window_size_type = 0x0400

abbrev pub max_frame_size_type : ℕ
max_frame_size_type = 0x0500

abbrev pub max_header_list_size_type : ℕ
max_header_list_size_type = 0x0600

abbrev pub enable_connect_protocol_type : ℕ
enable_connect_protocol_type = 0x0800

-- The values of `push_state` and of `connection_protocol_state`.
abbrev pub disabled : ℕ
disabled = 0

abbrev pub enabled : ℕ
enabled = native_to_big 1

-- `struct settings`, and its default values.
pub record Settings : Type 0 where
  pub header_table_size : ℕ
  pub enable_push : ℕ
  pub max_concurrent_streams : ℕ
  pub initial_window_size : ℕ
  pub max_frame_size : ℕ
  pub max_header_list_size : ℕ
  pub connection_protocol : ℕ

abbrev pub default_settings : Settings
default_settings = record {
  header_table_size = 4096;
  enable_push = disabled;
  max_concurrent_streams = 100;
  initial_window_size = initial_window;
  max_frame_size = 16384;
  max_header_list_size = 4294967295;
  connection_protocol = disabled;
}

pub record Manager : Type 0 where
  pub local_settings : Settings
  pub remote_settings : Settings
  pub need_remote_sync : Bool
  pub local_settings_ack : Bool
  pub remote_settings_got : Bool
  pub settings_timer : Bool
  pub settings_handler : Option ℕ

abbrev pub settings_manager : Manager
settings_manager = record {
  local_settings = default_settings;
  remote_settings = default_settings;
  need_remote_sync = true;
  local_settings_ack = false;
  remote_settings_got = false;
  settings_timer = false;
  settings_handler = none;
}

abbrev is_set : Option ℕ → Bool
is_set none = false
is_set (some h) = true

abbrev pub local_items : Settings → List SettingsItem
local_items s =
    settings_item header_table_size_type s.header_table_size
    ∷ settings_item enable_push_type s.enable_push
    ∷ settings_item max_concurrent_streams_type s.max_concurrent_streams
    ∷ settings_item initial_window_size_type s.initial_window_size
    ∷ settings_item max_frame_size_type s.max_frame_size
    ∷ settings_item max_header_list_size_type s.max_header_list_size
    ∷ []

-- The frame to send, and the manager. `in_progress` is the value of Boost.Asio's error.
pub initiate_sync_settings :
    (in_progress : ℕ) → Manager → Settings → Bool → ℕ → Result (List ℕ × Manager)
initiate_sync_settings in_progress m local remote_sync handler =
    if is_set m.settings_handler
    then throw (system_error in_progress)
    else ok (
      settings (local_items local),
      record m {
        local_settings = local;
        settings_handler = some handler;
        need_remote_sync = remote_sync;
        local_settings_ack = false;
        remote_settings_got = not remote_sync;
        settings_timer = true;
      },
    )

-- The call that is made, of a handler with an error code, and the manager.
unfoldable pub finished : Manager → ℕ → Option (ℕ × ℕ) × Manager
finished m ec = elim m.settings_handler [
  | none ↦ (none, m)
  | some h ↦ (some (h, ec), record m { settings_handler = none })
]

unfoldable pub cancel : Manager → ℕ → Option (ℕ × ℕ) × Manager
unfolding finished
cancel m ec = finished (record m { settings_timer = false }) ec

-- The timer's handler, on a wait that is not aborted.
unfoldable pub on_timeout : Manager → Option (ℕ × ℕ) × Manager
on_timeout m = finished (record m { settings_timer = false }) (error_value settings_timeout)

abbrev switch_state : ℕ → ℕ
switch_state value = if native_to_big value == 0 then disabled else enabled

-- The `switch` over the type of one item.
pub apply_item : Settings → SettingsItem → Settings
apply_item s i =
    if i.setting == header_table_size_type
    then record s { header_table_size = native_to_big i.value }
    else if i.setting == enable_push_type
    then record s { enable_push = switch_state i.value }
    else if i.setting == max_concurrent_streams_type
    then record s { max_concurrent_streams = native_to_big i.value }
    else if i.setting == initial_window_size_type
    then record s { initial_window_size = native_to_big i.value }
    else if i.setting == max_frame_size_type
    then record s { max_frame_size = native_to_big i.value }
    else if i.setting == max_header_list_size_type
    then record s { max_header_list_size = native_to_big i.value }
    else if i.setting == enable_connect_protocol_type
    then record s { connection_protocol = switch_state i.value }
    else s

pub apply_items : Settings → List SettingsItem → Settings
apply_items s [] = s
apply_items s (i ∷ is) = apply_items (apply_item s i) is

-- What a SETTINGS frame leads to: a frame to send, a call of a handler, and the manager.
pub record Reaction : Type 0 where
  pub reply : Option (List ℕ)
  pub call : Option (ℕ × ℕ)
  pub manager : Manager

-- `(need_remote_sync && remote_settings_got && local_settings_ack) || ...`
abbrev pub is_synced : Manager → Bool
is_synced m =
    (m.need_remote_sync && (m.remote_settings_got && m.local_settings_ack))
    || (not m.need_remote_sync && m.local_settings_ack)

pub on_ack : Manager → Reaction
on_ack m =
    let m' = record m { local_settings_ack = true; settings_timer = false } in
    let (call, done) = finished m' 0 in
    if is_synced m'
    then record { reply = none; call = call; manager = done }
    else record { reply = none; call = none; manager = m' }

pub on_items : Manager → List SettingsItem → Reaction
on_items m is = record {
  reply = some settings_ack;
  call = none;
  manager = record m {
    remote_settings = apply_items m.remote_settings is;
    remote_settings_got = true;
  };
}

pub on_settings_frame : Manager → List ℕ → Result Reaction
on_settings_frame m bytes = do
  analyzer ← from_buffer bytes
  frame ← get_frame settings_type analyzer
  if has_flag frame.flags ack
      then ok (on_ack m)
      else (do is ← items analyzer.buffer frame; ok (on_items m is))
