-- ===== src/Http2/Stream/Calls.antt =====
-- The calls of the handler of lib/stream.cpp, over any sequence of what a stream receives.
use h2pp.Prelude.{
  ℕ, List, [], ◌∷◌, ◌++◌, Bool, true, false, Bool-cases, Option, none, some, Result, ok, throw,
  undefined, ◌≡◌, refl, ap, ◌∙◌, inl, inr, ◌==◌, append_assoc, if◌then◌else◌,
}
use h2pp.Prelude.Exec.{Exec, pure, lift, modify, and_then, ◌>>=◌, ◌>>◌}
use h2pp.Http2.Protocol.{has_flag, end_stream}
use h2pp.Http2.Response as Response
use h2pp.Http2.Response.{Response}
use h2pp.Http2.Frame.{from_buffer}
use h2pp.Http2.Stream.{
  Stream, Call, finished, reset, on_end_stream, insert_data, on_receive_data, insert_fields,
  on_receive_headers, on_receive_reset, on_receive_continuation, on_timer, on_receive_window_update,
}
use h2pp.Hpack.HeaderField.{HeaderField}

-- What a stream's methods are called with.
pub data Event : Type 0 where
  data_event : List ℕ → Event
  headers_event continuation_event : List HeaderField → ℕ → ℕ → Event
  reset_event window_event timer_event disconnect_event : ℕ → Event

abbrev pub called : Result (Option Call) → List ℕ
called (ok (some c)) = c.handler ∷ []
called (ok none) = []
called (throw exception) = []
called undefined = []

abbrev pub waiting : Stream → List ℕ
waiting s = elim s.response_handler [ none ↦ [] | some h ↦ h ∷ [] ]

module _ (taken : Response → Response) (operation_aborted timed_out : ℕ) where
  abbrev pub receive : Event → Exec Stream (Option Call)
  receive (data_event buff) = on_receive_data taken buff
  receive (headers_event header flags n) = on_receive_headers taken header flags n
  receive (continuation_event header flags n) = on_receive_continuation taken header flags n
  receive (reset_event err) = on_receive_reset taken err
  receive (window_event increment) = on_receive_window_update increment
  receive (timer_event ec) = on_timer taken operation_aborted timed_out ec
  receive (disconnect_event ec) = reset taken ec

  -- The handlers that are called, in order, and the stream.
  abbrev pub run : List Event → Stream → List ℕ × Stream
  run [] s = ([], s)
  run (e ∷ es) s =
      let (s', r) = receive e s in let (calls, last) = run es s' in (called r ++ calls, last)

-- A call that leaves the waiting handler, and one that may call it.
Still : {A : Type 0} → Exec Stream A → Type 0
Still m = (s : Stream) → waiting (m s).0 ≡ waiting s

Keeps : Exec Stream (Option Call) → Type 0
Keeps m = (s : Stream) → called (m s).1 ++ waiting (m s).0 ≡ waiting s

and_then-Keeps :
    {A : Type 0} (first : Stream × Result A) (next : A → Exec Stream (Option Call))
    → ((a : A) → Keeps (next a))
    → called (and_then first next).1 ++ waiting (and_then first next).0 ≡ waiting first.0
unfolding Keeps
and_then-Keeps (s, undefined) next kept = refl
and_then-Keeps (s, throw exception) next kept = refl
and_then-Keeps (s, ok a) next kept = kept a s

chain-Keeps :
    {A : Type 0} (m : Exec Stream A) (next : A → Exec Stream (Option Call))
    → Still m
    → ((a : A) → Keeps (next a))
    → Keeps (m >>= next)
unfolding Still Keeps
chain-Keeps m next still kept s = and_then-Keeps (m s) next kept ∙ still s

finished-Keeps : (taken : Response → Response) (ec : ℕ) → Keeps (finished taken ec)
unfolding Keeps finished
finished-Keeps taken ec s = by_handler s.response_handler
  where
    by_handler :
        (h : Option ℕ)
        → called (finished taken ec (record s { response_handler = h })).1
            ++ waiting (finished taken ec (record s { response_handler = h })).0
          ≡ waiting (record s { response_handler = h })
    by_handler none = refl
    by_handler (some h) = refl

pure-Keeps : Keeps (pure none)
unfolding Keeps
pure-Keeps s = refl

if-Keeps :
    (b : Bool) (x y : Exec Stream (Option Call)) → Keeps x → Keeps y → Keeps (if b then x else y)
if-Keeps true x y hx hy = hx
if-Keeps false x y hx hy = hy

-- A change of other members.
modify-Keeps :
    (f : Stream → Stream) (next : Exec Stream (Option Call))
    → ((s : Stream) → waiting (f s) ≡ waiting s)
    → Keeps next
    → Keeps (modify f >> next)
unfolding Keeps
modify-Keeps f next still kept s = kept (f s) ∙ still s

lift-Still : {A : Type 0} (r : Result A) → Still (lift r)
unfolding Still
lift-Still r s = refl

insert_data-Still :
    (taken : Response → Response) (n : ℕ) (buff : List ℕ) → Still (insert_data taken n buff)
unfolding Still insert_data
insert_data-Still taken n buff s = elim (Bool-cases (n == 0)) [
  | inl e ↦ rw (e) refl
  | inr e ↦ rw (e) (by_result (Response.insert_body s.response buff))
]
  where
    by_result :
        (r : Result Response)
        → waiting (and_then (s, r) (λ r. modify (λ (s : Stream). record s { response = r }))).0
          ≡ waiting s
    by_result undefined = refl
    by_result (throw exception) = refl
    by_result (ok r) = refl

module _ (taken : Response → Response) where
  on_end_stream-Keeps : Keeps (on_end_stream taken)
  unfolding on_end_stream
  on_end_stream-Keeps = modify-Keeps _ (finished taken 0) (λ s. refl) (finished-Keeps taken 0)

  on_receive_data-Keeps : (buff : List ℕ) → Keeps (on_receive_data taken buff)
  unfolding on_receive_data
  on_receive_data-Keeps buff =
      modify-Keeps _ _ (λ s. refl)
        (chain-Keeps (lift (from_buffer buff)) _ (lift-Still _) (λ a.
          chain-Keeps (insert_data taken a.frame_header.payload_size buff) _
            (insert_data-Still taken _ buff)
            (λ u. if-Keeps _ (on_end_stream taken) (pure none) on_end_stream-Keeps pure-Keeps)))

  headers-Keeps :
      (header : List HeaderField) (flags n : ℕ) → Keeps (on_receive_headers taken header flags n)
  unfolding on_receive_headers
  headers-Keeps header flags n =
      modify-Keeps (insert_fields header n) _ (λ s. refl)
        (if-Keeps (has_flag flags end_stream) (on_end_stream taken) (pure none) on_end_stream-Keeps
          pure-Keeps)

  continuation-Keeps :
      (header : List HeaderField) (flags n : ℕ)
      → Keeps (on_receive_continuation taken header flags n)
  unfolding on_receive_continuation
  continuation-Keeps header flags n =
      modify-Keeps (insert_fields header n) _ (λ s. refl)
        (if-Keeps (has_flag flags end_stream) (finished taken 0) (pure none)
          (finished-Keeps taken 0) pure-Keeps)

  closed-Keeps : (err : ℕ) → Keeps (on_receive_reset taken err)
  unfolding on_receive_reset
  closed-Keeps err = modify-Keeps _ _ (λ s. refl) (finished-Keeps taken err)

  reset-Keeps : (ec : ℕ) → Keeps (reset taken ec)
  unfolding reset
  reset-Keeps ec = modify-Keeps _ _ (λ s. refl) (finished-Keeps taken ec)

  on_timer-Keeps :
      (operation_aborted timed_out ec : ℕ) → Keeps (on_timer taken operation_aborted timed_out ec)
  unfolding on_timer
  on_timer-Keeps operation_aborted timed_out ec =
      if-Keeps _ (pure none) _ pure-Keeps
        (modify-Keeps _ _ (λ s. refl) (finished-Keeps taken timed_out))

window-Keeps : (increment : ℕ) → Keeps (on_receive_window_update increment)
unfolding on_receive_window_update
window-Keeps increment = modify-Keeps _ _ (λ s. refl) pure-Keeps

module _ (taken : Response → Response) (operation_aborted timed_out : ℕ) where
  receive-Keeps : (e : Event) → Keeps (receive taken operation_aborted timed_out e)
  receive-Keeps (data_event buff) = on_receive_data-Keeps taken buff
  receive-Keeps (headers_event header flags n) = headers-Keeps taken header flags n
  receive-Keeps (continuation_event header flags n) = continuation-Keeps taken header flags n
  receive-Keeps (reset_event err) = closed-Keeps taken err
  receive-Keeps (window_event increment) = window-Keeps increment
  receive-Keeps (timer_event ec) = on_timer-Keeps taken operation_aborted timed_out ec
  receive-Keeps (disconnect_event ec) = reset-Keeps taken ec

  -- Over any sequence of frames, resets, timeouts and disconnects, also those that throw, the calls
  -- of handlers followed by the handler that still waits are the handler that waited at first: it is
  -- called once at most, and as long as it was not called it is kept.
  pub run-waiting :
      (es : List Event) (s : Stream)
      → (run taken operation_aborted timed_out es s).0
          ++ waiting (run taken operation_aborted timed_out es s).1
        ≡ waiting s
  unfolding Keeps
  run-waiting [] s = refl
  run-waiting (e ∷ es) s =
      let step = receive taken operation_aborted timed_out e s in
      append_assoc (called step.1) (run taken operation_aborted timed_out es step.0).0
        (waiting (run taken operation_aborted timed_out es step.0).1)
      ∙ ap (λ t. called step.1 ++ t) (run-waiting es step.0)
      ∙ receive-Keeps e s
