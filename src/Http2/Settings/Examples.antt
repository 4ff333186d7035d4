-- ===== src/Http2/Settings/Examples.antt =====
-- Exchanges of settings at concrete inputs.
use h2pp.Prelude.{ℕ, List, [], ◌∷◌, ◌++◌, true, false, none, some, ok, ◌≡◌, refl, take, drop, arith}
use h2pp.Http2.Frame.{from_buffer}
use h2pp.Http2.Frame.Builder.{settings, settings_ack}
use h2pp.Http2.Settings.{
  Settings, Manager, Reaction, settings_manager, default_settings, initiate_sync_settings,
  on_settings_frame, local_items, on_ack, on_items, is_synced, enabled, finished, on_timeout,
  cancel,
}
use h2pp.Http2.Settings.Exchange.{FitsSettings, received, on_settings_frame-initiate}
use h2pp.Http2.Settings.Handler.{
  Event, initiated, frame_received, cancelled, timed_out, Effect, run, handle, Accounts,
  run-Accounts, Waiting, on_ack-on_items_stuck,
}

abbrev in_progress : ℕ
in_progress = 115

-- A client's settings with a larger window.
abbrev wide : Settings
wide = record default_settings { initial_window_size = 1048576 }

-- The manager during an exchange, of the remote settings too, whose handler is 7.
abbrev busy : Manager
busy = record settings_manager {
  local_settings = wide;
  settings_handler = some 7;
  settings_timer = true;
}

wide-FitsSettings : FitsSettings wide
wide-FitsSettings = record {
  fits_table_size = omega arith;
  fits_push = omega arith;
  fits_streams = omega arith;
  fits_window = omega arith;
  fits_frame = omega arith;
  fits_list = omega arith;
}

-- The four bytes of the value of ENABLE_PUSH where push is enabled.
push_test :
    take 4 (drop 17 (settings (local_items (record wide { enable_push = enabled }))))
    ≡ 1 ∷ 0 ∷ 0 ∷ 0 ∷ []
push_test = refl

on_settings_frame-initiate_example :
    (frame : List ℕ) × (m' : Manager) × (r : Reaction) × (initiate_sync_settings in_progress
        settings_manager wide true 7
      ≡ ok (frame, m'))
    × (on_settings_frame settings_manager (frame ++ []) ≡ ok r)
    × (r.manager.remote_settings ≡ received default_settings wide)
    × (r.reply ≡ some settings_ack)
on_settings_frame-initiate_example =
    on_settings_frame-initiate in_progress 7 settings_manager settings_manager wide true []
      wide-FitsSettings refl

on_ack-on_items_stuck_example :
    Waiting 7 (on_ack busy)
    × Waiting 7 (on_items (on_ack busy).manager [])
    × (is_synced (on_items (on_ack busy).manager []).manager ≡ true)
on_ack-on_items_stuck_example = on_ack-on_items_stuck busy 7 [] refl refl refl

-- A frame that is too short throws, the timer then calls the handler, and another exchange begins.
abbrev events : List Event
events = frame_received (1 ∷ []) ∷ timed_out ∷ initiated wide false 8 ∷ cancelled 1 ∷ []

abbrev quiet : Effect
quiet = record {
  begun = 8 ∷ [];
  calls = 7 ∷ 8 ∷ [];
  manager = record busy {
    need_remote_sync = false;
    remote_settings_got = true;
    settings_timer = false;
    settings_handler = none;
  };
}

run_test : run in_progress busy events ≡ ok quiet
unfolding run handle on_settings_frame from_buffer on_timeout cancel finished initiate_sync_settings
run_test = refl

run-Accounts_example : Accounts busy quiet
run-Accounts_example = run-Accounts in_progress busy events quiet run_test
