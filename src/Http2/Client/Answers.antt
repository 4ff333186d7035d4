-- ===== src/Http2/Client/Answers.antt =====
-- Pings, and the disconnection during an exchange of settings, of lib/base_client.cpp.
use h2pp.Prelude.{
  ℕ, List, [], ◌∷◌, ◌++◌, true, false, Option, none, some, ok, ◌≡◌, refl, length, sym, Bool-cases,
  inl, inr, append_assoc, append-nil, drop, take, min, ◌==◌, arith, if◌then◌else◌,
}
use h2pp.Http2.Frame.{Analyzer, from_buffer, read_header, get_frame}
use h2pp.Http2.Frame.Builder.{ping, update_window}
use h2pp.Http2.Window.{sub32}
use h2pp.Http2.Settings as Settings
use h2pp.Http2.Client.{
  Client, Effect, init_write, effect, full_window, initiate_ping, send_command, ping_call,
  settings_call, disconnect_call, new_window, initiate_disconnect, settings_called,
}
use h2pp.Http2.Client.Receive.{on_receive_ping, with_ack}

abbrev ping_bytes : ℕ → List ℕ → List ℕ
ping_bytes flags opaque = 0 ∷ 0 ∷ 8 ∷ 6 ∷ flags ∷ 0 ∷ 0 ∷ 0 ∷ 0 ∷ opaque

abbrev ping_analyzer : ℕ → List ℕ → Analyzer
ping_analyzer flags opaque = record {
  buffer = take (min 17 (length (ping_bytes flags opaque))) (ping_bytes flags opaque);
  frame_header = record { payload_size = 8; type = 6; flags = flags; stream_id = 0 };
}

from_buffer-ping :
    (flags : ℕ) (opaque : List ℕ)
    → from_buffer (ping_bytes flags opaque) ≡ ok (ping_analyzer flags opaque)
unfolding from_buffer read_header
from_buffer-ping flags opaque = ground arith

module _ (fresh : ℕ → List ℕ) (not_connected in_progress handler : ℕ) where
  -- A ping of a connected client that waits for none comes back from any peer: the frame that
  -- `initiate_ping` queues makes the peer queue the frame with ACK added, which calls the client's
  -- handler, once, with no error, and leaves no handler waiting.
  pub on_receive_ping-initiate_ping :
      (c peer : Client)
      → c.is_connected ≡ true
      → c.ping_handler ≡ none
      → (waiting answered done : Client) × (initiate_ping fresh not_connected in_progress handler c
          ≡ (waiting, ok tt))
        × (waiting.tx_command_queue ≡ c.tx_command_queue ++ (ping fresh [] ∷ []))
        × (waiting.effects ≡ c.effects)
        × (on_receive_ping (ping fresh []) peer ≡ (answered, ok tt))
        × (answered.tx_command_queue ≡ peer.tx_command_queue ++ (with_ack (ping fresh []) ∷ []))
        × (on_receive_ping (with_ack (ping fresh [])) waiting ≡ (done, ok tt))
        × (done.effects ≡ c.effects ++ (ping_call handler 0 ∷ []))
        × (done.ping_handler ≡ none)
  unfolding initiate_ping on_receive_ping send_command get_frame
  on_receive_ping-initiate_ping c peer connected idle =
      let waiting = send_command (ping fresh []) (record c { ping_handler = some handler }) in
      (
        waiting,
        send_command (with_ack (ping fresh [])) peer,
        effect (ping_call handler 0) (record waiting { ping_handler = none }),
        rw (connected, idle) refl,
        refl,
        refl,
        rw (from_buffer-ping 0 (drop 9 (fresh 17))) refl,
        refl,
        rw (from_buffer-ping 1 (drop 9 (fresh 17))) refl,
        refl,
        refl,
      )

-- What the settings' handler is called for, by the code.
abbrev pub commands_for : ℕ → Client → List (List ℕ)
commands_for ec c =
    if ec == 0 then update_window (sub32 (full_window c) c.local_window.size) 0 ∷ [] else []

abbrev pub effects_for : ℕ → ℕ → List Effect
effects_for ec h = if ec == 0 then init_write ∷ settings_call h ec ∷ [] else settings_call h ec ∷ []

-- A disconnection that is asked for during an exchange of settings ends that exchange and nothing
-- else: no GOAWAY is queued, and the handler given is neither stored nor called, though a later one
-- is called at once. With the code 0, which the client's own disconnection has, the exchange ends
-- as a success, and the connection's window is announced.
pub initiate_disconnect-exchange :
    (ec h later_ec later : ℕ) (handler : Option ℕ) (c : Client)
    → c.is_disconnecting ≡ false
    → c.settings.settings_handler ≡ some h
    → let c' = initiate_disconnect ec handler c in
      (c'.is_disconnecting ≡ true)
      × (c'.tx_command_queue ≡ c.tx_command_queue ++ commands_for ec c)
      × (c'.effects ≡ c.effects ++ effects_for ec h)
      × (c'.disconnect_handler ≡ c.disconnect_handler)
      × (c'.settings.settings_handler ≡ none)
      × (initiate_disconnect later_ec (some later) c' ≡ effect (disconnect_call later) c')
unfolding initiate_disconnect Settings.cancel Settings.finished settings_called new_window
    send_command
initiate_disconnect-exchange ec h later_ec later handler c idle waits =
    elim (Bool-cases (ec == 0)) [
      | inl zero ↦ rw (idle, waits, zero) (refl, refl, append_assoc c.effects _ _, refl, refl, refl)
      | inr other ↦
          rw (idle, waits, other)
            (refl, sym (append-nil c.tx_command_queue), refl, refl, refl, refl)
    ]
