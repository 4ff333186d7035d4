-- ===== src/Http2/Stream/Sends.antt =====
-- The DATA frames of `prepare_body` of lib/stream.cpp.
use h2pp.Prelude.{
  ℕ, ◌-◌, ◌^◌, ◌<◌, ◌≤◌, List, [], ◌∷◌, ◌++◌, ok, ◌≡◌, refl, ap, length, length-append, length-drop,
  take, drop, min, ◌==◌, arith, if◌then◌else◌,
}
use h2pp.Http2.Protocol.{end_stream}
use h2pp.Http2.Frame.{header_size, sub64}
use h2pp.Http2.Response.Body.{joined}
use h2pp.Http2.Request.{Block}
use h2pp.Http2.Stream.{Stream}
use h2pp.Http2.Stream.Send.{
  Sending, Copied, copy_loop, data_bytes, left_size, commit_body, prepare_body,
}
use h2pp.Http2.Stream.Body.{Copies, copy_loop-Copies}

-- A stream whose body has a block that is not sent, with none removed yet; its spans are those of
-- the blocks.
pub record IsSending (s : Stream) (rest : List ℕ) : Type 0 where
  pub span : List ℕ
  pub spans : List (List ℕ)
  pub block : Block
  pub blocks : List Block
  pub span_list : s.request.span_list ≡ span ∷ spans
  pub body_list : s.request.body_list ≡ block ∷ blocks
  pub steps : length blocks ≡ length spans
  pub sized : s.request.size ≡ length (joined (span ∷ spans))
  pub fits : s.request.size < 2 ^ 64
  pub within : s.send_body_offset ≤ length span
  pub unsent : rest ≡ drop s.send_body_offset (joined (span ∷ spans))

pub sub64-minus : (a b : ℕ) → b ≤ a → a < 2 ^ 64 → sub64 a b ≡ a - b
sub64-minus a b h h' = omega (arith, h, h')

-- The frame that carries the first bytes of what is not sent, with END_STREAM where these are all.
abbrev pub next_frame : (ℕ → List ℕ) → ℕ → List ℕ → ℕ → List ℕ
next_frame fresh id rest n =
    data_bytes fresh id (if n == length rest then end_stream else 0) n (take n rest)

left_size-rest : (s : Stream) (rest : List ℕ) → IsSending s rest → left_size s ≡ length rest
left_size-rest s rest h = omega (
  arith,
  h.sized,
  h.fits,
  h.within,
  ap length h.unsent,
  length-drop s.send_body_offset (joined (h.span ∷ h.spans)),
  length-append h.span (joined h.spans),
)

copies :
    (s : Stream) (rest : List ℕ) (n : ℕ)
    → IsSending s rest
    → n ≤ length rest
    → (c : Copied) × (copy_loop s.request.span_list s.request.body_list s.send_body_offset n ≡ ok c)
      × Copies rest n c
copies s rest n h fits =
    rw (h.span_list, h.body_list, h.unsent)
      (copy_loop-Copies h.span h.spans h.block h.blocks s.send_body_offset n h.steps h.within (
        omega (
          arith,
          fits,
          h.within,
          ap length h.unsent,
          length-drop s.send_body_offset (joined (h.span ∷ h.spans)),
          length-append h.span (joined h.spans),
        )))

-- Where no block of the body was removed yet, `prepare_body` puts one DATA frame behind the
-- buffers, with as many of the unsent bytes as the limit leaves room for behind a header, and
-- with END_STREAM exactly where these are all of them; the bytes behind those stay unsent. It
-- gives 0, whatever the frame's size.
pub prepare_body-Sends :
    (fresh : ℕ → List ℕ) (limit : ℕ) (t : Sending) (rest : List ℕ)
    → IsSending t.stream rest
    → header_size ≤ limit
    → limit < 2 ^ 64
    → (c : Copied) × (prepare_body fresh limit t ≡ (
      record t {
        stream = commit_body c t.stream;
        out =
            t.out
            ++ (next_frame fresh t.stream.http_id rest (min (limit - header_size) (length rest))
                ∷ []);
      },
      ok 0,
    ))
      × (drop c.offset (joined c.spans) ≡ drop (min (limit - header_size) (length rest)) rest)
      × (length c.blocks ≡ length c.spans)
unfolding prepare_body
prepare_body-Sends fresh limit t rest sending room small =
    let n = min (limit - header_size) (length rest) in
    let (c, e, copied) = copies t.stream rest n sending (omega arith) in
    (
      c,
      rw
          (
            sub64-minus limit header_size room small,
            left_size-rest t.stream rest sending,
            e,
            copied.payload,
          )
          refl,
      copied.rest,
      copied.in_step,
    )
