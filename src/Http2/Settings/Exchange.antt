-- ===== src/Http2/Settings/Exchange.antt =====
-- lib/settings_manager.cpp: the settings that one side sends, as the other side stores them, and
-- the acknowledgement.
use h2pp.Prelude.{
  ℕ, ◌*◌, ◌^◌, ◌<◌, List, [], ◌++◌, Bool, true, false, not, none, some, ok, ◌≡◌, refl, ◌==◌,
  if◌then◌else◌, All, length, arith,
}
use h2pp.Http2.Protocol.{native_to_big, settings_type, ack}
use h2pp.Http2.Frame.{SettingsItem, get_frame}
use h2pp.Http2.Frame.Builder.{settings, settings_ack}
use h2pp.Http2.Frame.Parse.{FitsItem, parse-settings, from_buffer-framed}
use h2pp.Http2.Settings.{
  Settings, Manager, Reaction, local_items, initiate_sync_settings, on_settings_frame, on_items,
  on_ack, apply_items, apply_item, disabled, enabled,
}

-- The members that are sent are `uint32_t`.
pub record FitsSettings (s : Settings) : Type 0 where
  pub fits_table_size : s.header_table_size < 2 ^ 32
  pub fits_push : s.enable_push < 2 ^ 32
  pub fits_streams : s.max_concurrent_streams < 2 ^ 32
  pub fits_window : s.initial_window_size < 2 ^ 32
  pub fits_frame : s.max_frame_size < 2 ^ 32
  pub fits_list : s.max_header_list_size < 2 ^ 32

-- What a peer with the settings `old` knows after it received those of `sent`.
abbrev pub received : Settings → Settings → Settings
received old sent = record sent {
  enable_push = if sent.enable_push == 0 then disabled else enabled;
  connection_protocol = old.connection_protocol;
}

native_to_big-native_to_big : (x : ℕ) → x < 2 ^ 32 → native_to_big (native_to_big x) ≡ x
native_to_big-native_to_big x h = omega arith

native_to_big-lt : (x : ℕ) → native_to_big x < 2 ^ 32
native_to_big-lt x = omega arith

local_items-FitsItem : (s : Settings) → All FitsItem (local_items s)
local_items-FitsItem s = (
  (omega arith, native_to_big-lt _),
  (
    (omega arith, native_to_big-lt _),
    (
      (omega arith, native_to_big-lt _),
      (
        (omega arith, native_to_big-lt _),
        ((omega arith, native_to_big-lt _), ((omega arith, native_to_big-lt _), tt)),
      ),
    ),
  ),
)

apply_items-local_items :
    (old sent : Settings)
    → FitsSettings sent
    → apply_items old (local_items sent) ≡ received old sent
unfolding apply_items apply_item
apply_items-local_items old sent f = rw (
  native_to_big-native_to_big sent.header_table_size f.fits_table_size,
  native_to_big-native_to_big sent.enable_push f.fits_push,
  native_to_big-native_to_big sent.max_concurrent_streams f.fits_streams,
  native_to_big-native_to_big sent.initial_window_size f.fits_window,
  native_to_big-native_to_big sent.max_frame_size f.fits_frame,
  native_to_big-native_to_big sent.max_header_list_size f.fits_list,
)

on_settings_frame-settings :
    (m : Manager) (fields : List SettingsItem) (rest : List ℕ)
    → All FitsItem fields
    → 6 * length fields < 2 ^ 24
    → on_settings_frame m (settings fields ++ rest) ≡ ok (on_items m fields)
unfolding on_settings_frame get_frame
on_settings_frame-settings m fields rest fits small =
    let (parsed, listed) = parse-settings fields rest fits small in rw (parsed, listed)

-- The manager after `initiate_sync_settings`.
abbrev started : Manager → Settings → Bool → ℕ → Manager
started m local remote_sync handler = record m {
  local_settings = local;
  settings_handler = some handler;
  need_remote_sync = remote_sync;
  local_settings_ack = false;
  remote_settings_got = not remote_sync;
  settings_timer = true;
}

-- A manager that waits for no exchange sends its new settings, of 32 bits each, in a frame from
-- which the peer takes all of them, whatever follows the frame: the peer's remote settings are the
-- ones sent (`enable_push` as a state), it keeps the protocol state that is not sent, and it
-- answers with an acknowledgement.
pub on_settings_frame-initiate :
    (in_progress handler : ℕ) (m peer : Manager) (sent : Settings) (remote_sync : Bool)
    (rest : List ℕ)
    → FitsSettings sent
    → m.settings_handler ≡ none
    → (frame : List ℕ) × (m' : Manager) × (r : Reaction) × (initiate_sync_settings in_progress m
          sent remote_sync handler
        ≡ ok (frame, m'))
      × (on_settings_frame peer (frame ++ rest) ≡ ok r)
      × (r.manager.remote_settings ≡ received peer.remote_settings sent)
      × (r.reply ≡ some settings_ack)
unfolding initiate_sync_settings on_items
on_settings_frame-initiate in_progress handler m peer sent remote_sync rest fits idle = (
  settings (local_items sent),
  started m sent remote_sync handler,
  on_items peer (local_items sent),
  (rw idle),
  on_settings_frame-settings peer (local_items sent) rest (local_items-FitsItem sent) (omega arith),
  apply_items-local_items peer.remote_settings sent fits,
  refl,
)

-- An acknowledgement is handled as such.
pub on_settings_frame-settings_ack :
    (m : Manager) (rest : List ℕ) → on_settings_frame m (settings_ack ++ rest) ≡ ok (on_ack m)
unfolding on_settings_frame get_frame
on_settings_frame-settings_ack m rest =
    rw (from_buffer-framed 0 settings_type ack 0 [] rest (omega arith) (omega arith) refl)
