-- ===== src/Http2/Stream/Scheduled.antt =====
-- `is_scheduled` of lib/stream.cpp over `get_tx_data`.
use h2pp.Prelude.{
  ℕ, List, Bool, true, false, Bool-cases, Option, none, some, Result, ok, throw, undefined, ◌≡◌,
  refl, ◌∙◌, inl, inr, ◌==◌, arith, if◌then◌else◌, leb, min, ◌+◌, length,
}
use h2pp.Prelude.Exec.{Exec, pure, lift, gets, modify, and_then, ◌>>=◌, ◌>>◌}
use h2pp.Http2.Stream.{opened, is_half_closed}
use h2pp.Http2.Stream.Send.{
  Sending, emplace_back, sent_window, encode_headers, put_headers, with_request, unscheduled,
  frame_header, last_frame, prepare_headers, prepare_body, headers_frame, body_frame, window_frame,
  send_frames, get_tx_data,
}
use h2pp.Http2.Frame.{sub64}
use h2pp.Http2.Window.{DummyWindow, update}
use h2pp.Http2.Request.{commit_headers}
use h2pp.Hpack.IndexedTable.{OrderedSet}
use h2pp.Hpack.Encoder.{EncoderConfig}

-- A call that leaves whether the stream is scheduled.
Still : {A : Type 0} → Exec Sending A → Type 0
Still m = (t : Sending) → (m t).0.stream.is_scheduled ≡ t.stream.is_scheduled

and_then-Still :
    {A B : Type 0} (first : Sending × Result A) (next : A → Exec Sending B)
    → ((a : A) → Still (next a))
    → (and_then first next).0.stream.is_scheduled ≡ first.0.stream.is_scheduled
unfolding Still
and_then-Still (t, undefined) next still = refl
and_then-Still (t, throw exception) next still = refl
and_then-Still (t, ok a) next still = still a t

chain-Still :
    {A B : Type 0} (m : Exec Sending A) (next : A → Exec Sending B)
    → Still m
    → ((a : A) → Still (next a))
    → Still (m >>= next)
unfolding Still
chain-Still m next h still t = and_then-Still (m t) next still ∙ h t

if-Still :
    {A : Type 0} (b : Bool) (x y : Exec Sending A) → Still x → Still y → Still (if b then x else y)
if-Still true x y hx hy = hx
if-Still false x y hx hy = hy

if-same :
    {A : Type 0} {scheduled : Bool} (b : Bool) (x y : Sending × Result A)
    → x.0.stream.is_scheduled ≡ scheduled
    → y.0.stream.is_scheduled ≡ scheduled
    → (if b then x else y).0.stream.is_scheduled ≡ scheduled
if-same true x y hx hy = hx
if-same false x y hx hy = hy

pure-Still : {A : Type 0} (a : A) → Still (pure a)
unfolding Still
pure-Still a t = refl

prepare_body-Still : (fresh : ℕ → List ℕ) (limit : ℕ) → Still (prepare_body fresh limit)
unfolding Still prepare_body
prepare_body-Still fresh limit t = and_then-Still (t, _) _ (λ c t'. refl)

last_frame-Still : (fresh : ℕ → List ℕ) → Still (last_frame fresh)
unfolding Still last_frame
last_frame-Still fresh t = ground arith

frame_header-Still : (fresh : ℕ → List ℕ) (n : ℕ) → Still (frame_header fresh n)
unfolding Still frame_header
frame_header-Still fresh n t = ground arith

window_frame-Still : Still window_frame
unfolding Still window_frame
window_frame-Still t = by_update (update t.stream.local_window t.stream.http_id)
  where
    by_update :
        (p : Option (List ℕ) × DummyWindow)
        → (sent_window p t).0.stream.is_scheduled ≡ t.stream.is_scheduled
    by_update (none, w) = refl
    by_update (some b, w) = refl

pure-nat : (n : ℕ) → Still (pure {S = Sending} {A = ℕ} n)
pure-nat n = pure-Still n

body_frame-Still : (fresh : ℕ → List ℕ) (limit : ℕ) → Still (body_frame fresh limit)
unfolding Still body_frame
body_frame-Still fresh limit t =
    if-same _ (prepare_body fresh limit t) (t, ok 0) (prepare_body-Still fresh limit t) refl

put_headers-Still : (fresh : ℕ → List ℕ) (encoded : List ℕ × ℕ) → Still (put_headers fresh encoded)
unfolding Still put_headers
put_headers-Still fresh (buffers, count) t = if-Still (count == 0) (pure 0) _ (pure-nat 0) written t
  where
    written : Still (do
      r ← gets (λ (t : Sending). t.stream.request)
      r' ← lift (commit_headers r count)
      modify (with_request r')
      used ← frame_header fresh (length buffers)
      modify (emplace_back buffers)
      last_frame fresh
      pure (used + length buffers))
    written t =
        and_then-Still (t, commit_headers t.stream.request count) _
          (λ r' t'.
            chain-Still (frame_header fresh (length buffers)) _
              (frame_header-Still fresh (length buffers))
              (λ used t''.
                chain-Still (last_frame fresh) _ (last_frame-Still fresh)
                  (λ u. pure-nat (used + length buffers)) (emplace_back buffers t''))
              (with_request r' t'))

module _ (fresh : ℕ → List ℕ) (set : OrderedSet) (config : EncoderConfig) (limit : ℕ) where
  prepare_headers-Still : Still (prepare_headers fresh set config limit)
  unfolding Still prepare_headers encode_headers
  prepare_headers-Still t = and_then-Still (_, _) _ (put_headers-Still fresh)

  headers_frame-Still : Still (headers_frame fresh set config limit)
  unfolding Still headers_frame
  headers_frame-Still t =
      if-same _ (t, ok 0) (prepare_headers fresh set config limit t) refl (prepare_headers-Still t)

  send_frames-Still : Still (send_frames fresh set config limit)
  unfolding Still send_frames
  send_frames-Still t =
      chain-Still window_frame _ window_frame-Still
        (λ u. chain-Still (headers_frame fresh set config limit) _ headers_frame-Still (λ h.
          chain-Still (body_frame fresh (sub64 limit (u + h))) _
            (body_frame-Still fresh (sub64 limit (u + h))) (λ b t. refl)))
        (record t { stream = record t.stream { http_state = opened } })

-- Whatever it comes to, `get_tx_data` leaves the stream unscheduled.
pub get_tx_data-is_scheduled :
    (fresh : ℕ → List ℕ) (set : OrderedSet) (config : EncoderConfig) (limit : ℕ) (t : Sending)
    → (get_tx_data fresh set config limit t).0.stream.is_scheduled ≡ false
unfolding Still get_tx_data
get_tx_data-is_scheduled fresh set config limit t =
    elim (Bool-cases (is_half_closed t.stream.http_state)) [
      | inl e ↦ rw (e) refl
      | inr e ↦ elim (Bool-cases (leb (min limit t.stream.remote_window) 16)) [
        | inl low ↦ rw (e, low) refl
        | inr enough ↦
            rw (e, enough)
              (send_frames-Still fresh set config (min limit t.stream.remote_window)
                (unscheduled t))
      ]
    ]
