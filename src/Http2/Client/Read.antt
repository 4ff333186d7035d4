-- ===== src/Http2/Client/Read.antt =====
-- `on_read` of lib/base_client.cpp. A turn of its loop is `read_turn`, which gives whether the loop
-- goes on; one more than the bytes of the buffer is enough fuel, since a frame has nine bytes at
-- least. The bytes that are not read yet are `count` bytes from `first` on in the input buffer.
pub mod Frames
pub mod Fuel
pub mod Leaves
pub mod Loop
pub mod Returned
use h2pp.Prelude.{
  ℕ, zero, suc, ◌+◌, ◌-◌, List, [], Bool, true, false, not, ◌&&◌, none, Result, ok, throw,
  undefined, overflow_error, invalid_argument, runtime_error, length_error, system_error, length,
  take, drop, ltb, ◌==◌, if◌then◌else◌,
}
use h2pp.Prelude.Exec.{Exec, pure, lift, gets, modify, ◌>>=◌, ◌>>◌}
use h2pp.Http2.Protocol.{error_value, internal_error}
use h2pp.Http2.Frame.{Analyzer, header_size, size, from_buffer, is_complete, check}
use h2pp.Http2.Response.{Response}
use h2pp.Http2.Client.{Client, effect, init_write, initiate_disconnect}
use h2pp.Http2.Client.Receive.{on_receive_frame, on_receive_data_frame}
use h2pp.Hpack.Bitstream.{Span}
use h2pp.Utils.Buffer.{Buffer, buffer, prepared, commit_span, consume}

-- The variables of `on_read`.
pub record Reading : Type 0 where
  pub client : Client
  pub io_buff : Buffer
  pub first : ℕ
  pub count : ℕ
  pub used_bytes : ℕ

-- `incomming_bytes`
abbrev pub incoming : Reading → List ℕ
incoming r = take r.count (drop r.first r.io_buff.memory)

-- A buffer that was moved from.
abbrev pub moved_from : Buffer
moved_from = record { offset = 0; maxsize = 0; memory = [] }

abbrev pub put_client : {A : Type 0} → Reading → Client × Result A → Reading × Result A
put_client r (c, result) = (record r { client = c }, result)

-- A method of the client.
abbrev pub within : {A : Type 0} → Exec Client A → Exec Reading A
within method r = put_client r (method r.client)

-- To the next frame.
abbrev pub advance : ℕ → Reading → Reading
advance n r = record r { first = r.first + n; count = r.count - n; used_bytes = r.used_bytes + n }

-- The raw bytes of a frame, in place.
abbrev pub raw_span : Reading → Analyzer → Span
raw_span r a = record { memory = r.io_buff.memory; first = r.first; count = length a.buffer }

abbrev pub is_whole_buffer : Reading → Analyzer → Bool
is_whole_buffer r a = r.first == 0 && length a.buffer == r.io_buff.offset

module _ (fresh : ℕ → List ℕ) where
  -- An incomplete frame.
  unfoldable pub grown : Analyzer → Reading → Reading
  grown a r =
      if ltb (r.io_buff.offset + prepared r.io_buff) (size a)
      then record r { io_buff = (commit_span (buffer fresh (size a)) a.buffer).0; used_bytes = 0 }
      else r

module _ (taken : Response → Response) where
  unfoldable pub read_whole : Analyzer → Exec Reading Bool
  read_whole a r =
      if a.frame_header.type == 0
      then (if is_whole_buffer r a
          then (do
            modify (λ (r : Reading). record r { io_buff = moved_from })
            within (on_receive_data_frame taken a.buffer)
            modify (λ (r : Reading). record r { first = 0; count = 0 })
            pure false)
              r
          else (do
            within (on_receive_data_frame taken a.buffer)
            modify (advance (length a.buffer))
            pure true)
              r)
      else (do
        within (on_receive_frame taken (raw_span r a))
        modify (advance (length a.buffer))
        pure true)
          r

module _ (fresh : ℕ → List ℕ) (taken : Response → Response) where
  unfoldable pub read_turn : Exec Reading Bool
  read_turn = do
    r ← gets (λ (r : Reading). r)
    a ← lift (from_buffer (incoming r))
    u ← lift (check a r.client.settings.local_settings.max_frame_size)
    if is_complete a then read_whole taken a else (do modify (grown fresh a); pure false)

  unfoldable pub read_loop : ℕ → Exec Reading (Unit {0})
  read_loop zero r = (r, undefined)
  read_loop (suc fuel) r =
      let rest = read_loop fuel in
      let turn : Exec Reading (Unit {0}) = (do more ← read_turn; if more then rest else pure tt) in
      if ltb r.count header_size then (r, ok tt) else turn r

-- `initiate_disconnect` with an empty handler.
abbrev pub stop : ℕ → Reading → Reading
stop ec r = record r { client = initiate_disconnect ec none r.client }

-- The `catch` blocks.
abbrev pub caught_read : Reading × Result (Unit {0}) → Reading × Result (Unit {0})
caught_read (r, ok u) = (r, ok u)
caught_read (r, throw (system_error ec)) = (stop ec r, ok tt)
caught_read (r, throw overflow_error) = (stop (error_value internal_error) r, ok tt)
caught_read (r, throw invalid_argument) = (stop (error_value internal_error) r, ok tt)
caught_read (r, throw runtime_error) = (stop (error_value internal_error) r, ok tt)
caught_read (r, throw length_error) = (stop (error_value internal_error) r, ok tt)
caught_read (r, undefined) = (r, undefined)

-- The buffer that is returned.
abbrev pub next_buffer : (ℕ → List ℕ) → Reading → Buffer
next_buffer fresh r =
    if r.count == 0
    then buffer fresh 64
    else if not (r.used_bytes == 0)
    then consume r.io_buff r.used_bytes
    else r.io_buff

abbrev pub after_loop : (ℕ → List ℕ) → Reading × Result (Unit {0}) → Client × Result Buffer
after_loop fresh (r, ok u) = (effect init_write r.client, ok (next_buffer fresh r))
after_loop fresh (r, throw exception) = (r.client, throw exception)
after_loop fresh (r, undefined) = (r.client, undefined)

-- The variables before the loop.
abbrev pub start_reading : Client → Buffer → Reading
start_reading c b = record { client = c; io_buff = b; first = 0; count = b.offset; used_bytes = 0 }

unfoldable pub on_read : (ℕ → List ℕ) → (Response → Response) → Buffer → Exec Client Buffer
on_read fresh taken b c =
    if ltb b.offset header_size
    then (c, ok b)
    else after_loop fresh (caught_read (read_loop fresh taken (b.offset + 1) (start_reading c b)))
