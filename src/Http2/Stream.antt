-- ===== src/Http2/Stream.antt =====
-- lib/stream.h and stream.cpp. An error code is its value. The timer is the time that a pending wait
-- was given; a handler is a number, and a step returns the call that it makes. `taken` is what the
-- handler leaves of the response that it may move from.
pub mod Send
pub mod Body
pub mod Calls
pub mod Sends
pub mod Whole
pub mod Ends
pub mod Overrun
pub mod Scheduled
pub mod Examples
use h2pp.Prelude.{
  ℕ, ◌+◌, ◌*◌, ◌/◌, ◌%◌, ◌^◌, List, Bool, true, false, not, ◌&&◌, ◌||◌, Option, none, some, Result,
  ok, ◌==◌, if◌then◌else◌, length,
}
use h2pp.Prelude.Exec.{Exec, pure, lift, gets, modify, ◌>>=◌, ◌>>◌}
use h2pp.Http2.Protocol.{has_flag, end_stream}
use h2pp.Http2.Window.{DummyWindow, dummy_window, dec, need_update}
use h2pp.Http2.Frame.{from_buffer}
use h2pp.Http2.Request.{Request, is_empty}
use h2pp.Http2.Response as Response
use h2pp.Http2.Response.{Response, response}
use h2pp.Hpack.HeaderField.{HeaderField}

pub data HttpState : Type 0 where
  idle opened half_closed closed : HttpState

pub record Stream : Type 0 where
  pub timer : Option ℕ
  pub http_id : ℕ
  pub is_scheduled : Bool
  pub remote_window : ℕ
  pub local_window : DummyWindow
  pub http_state : HttpState
  pub is_continuation : Bool
  pub send_body_offset : ℕ
  pub request : Request
  pub response : Response
  pub response_handler : Option ℕ

unfoldable pub stream : (id remote_size local_size : ℕ) → Request → Option ℕ → Stream
stream id remote_size local_size r handler = record {
  timer = none;
  http_id = id;
  is_scheduled = true;
  remote_window = remote_size;
  local_window = dummy_window (local_size % 2 ^ 32) (local_size / 4 % 2 ^ 32);
  http_state = idle;
  is_continuation = false;
  send_body_offset = 0;
  request = r;
  response = response;
  response_handler = handler;
}

abbrev pub is_half_closed : HttpState → Bool
is_half_closed half_closed = true
is_half_closed idle = false
is_half_closed opened = false
is_half_closed closed = false

abbrev pub is_closed : HttpState → Bool
is_closed closed = true
is_closed idle = false
is_closed opened = false
is_closed half_closed = false

unfoldable pub has_tx_data : Stream → Bool
has_tx_data s =
    is_half_closed s.http_state
    || (need_update s.local_window
        || (not (is_empty s.request.header_list) || not (is_empty s.request.body_list)))

-- Whether the stream is to be queued, and the stream.
unfoldable pub check_tx_data : Stream → Bool × Stream
check_tx_data s =
    if not s.is_scheduled && has_tx_data s
    then (true, record s { is_scheduled = true })
    else (false, s)

abbrev pub is_finished : Stream → Bool
is_finished s = is_closed s.http_state

-- A call of a handler.
pub record Call : Type 0 where
  pub handler : ℕ
  pub code : ℕ
  pub answer : Response

-- The header's fields, in a stream.
abbrev pub insert_fields : List HeaderField → ℕ → Stream → Stream
insert_fields header raw_size s = record s {
  local_window = dec s.local_window (raw_size % 2 ^ 32);
  response = Response.insert_headers s.response header;
}

module _ (taken : Response → Response) where
  unfoldable pub finished : ℕ → Exec Stream (Option Call)
  finished ec s = elim s.response_handler [
    | none ↦ (s, ok none)
    | some h ↦ (
      record s { response_handler = none; response = taken s.response },
      ok (some (record { handler = h; code = ec; answer = s.response })),
    )
  ]

  unfoldable pub reset : ℕ → Exec Stream (Option Call)
  reset ec = do modify (λ (s : Stream). record s { http_state = closed; timer = none }); finished ec

  -- What END_STREAM leads to.
  unfoldable pub on_end_stream : Exec Stream (Option Call)
  on_end_stream = do
    modify (λ (s : Stream). record s { http_state = half_closed; timer = none })
    finished 0

  unfoldable pub insert_data : ℕ → List ℕ → Exec Stream (Unit {0})
  insert_data payload_size buff s =
      if payload_size == 0
      then (s, ok tt)
      else (do
        r ← lift (Response.insert_body s.response buff)
        modify (λ (s : Stream). record s { response = r }))
          s

  unfoldable pub on_receive_data : List ℕ → Exec Stream (Option Call)
  on_receive_data buff = do
    modify (λ (s : Stream). record s { local_window = dec s.local_window (length buff % 2 ^ 32) })
    analyzer ← lift (from_buffer buff)
    insert_data analyzer.frame_header.payload_size buff
    if has_flag analyzer.frame_header.flags end_stream then on_end_stream else pure none

  unfoldable pub on_receive_headers : List HeaderField → ℕ → ℕ → Exec Stream (Option Call)
  on_receive_headers header flags raw_size = do
    modify (insert_fields header raw_size)
    if has_flag flags end_stream then on_end_stream else pure none

  unfoldable pub on_receive_reset : ℕ → Exec Stream (Option Call)
  on_receive_reset err = do modify (λ (s : Stream). record s { http_state = closed }); finished err

  unfoldable pub on_receive_continuation : List HeaderField → ℕ → ℕ → Exec Stream (Option Call)
  on_receive_continuation header flags raw_size = do
    modify (insert_fields header raw_size)
    if has_flag flags end_stream then finished 0 else pure none

  -- The timer's handler, called with a code once the wait is over.
  unfoldable pub on_timer : (operation_aborted timed_out : ℕ) → ℕ → Exec Stream (Option Call)
  on_timer operation_aborted timed_out ec =
      if ec == operation_aborted
      then pure none
      else (do modify (λ (s : Stream). record s { timer = none }); finished timed_out)

unfoldable pub on_receive_window_update : ℕ → Exec Stream (Option Call)
on_receive_window_update increment = do
  modify (λ (s : Stream). record s { remote_window = (s.remote_window + increment) % 2 ^ 64 })
  pure none
