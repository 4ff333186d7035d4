-- ===== src/Http2/Client/Read/Frames.antt =====
-- A turn of the loop of `on_read` of lib/base_client.cpp on a frame.
use h2pp.Prelude.{
  ℕ, ◌<◌, ◌≤◌, List, Bool, true, false, Bool-cases, ◌&&◌, Result, ok, throw, undefined,
  first_returned, ok-injective, length_error, subst, ◌≡◌, refl, ap, ◌∙◌, ◌⊎◌, inl, inr, length,
  length-take, take, min, ltb, ◌==◌, ==_iff, arith, if◌then◌else◌, leb→le,
}
use h2pp.Prelude.Exec.{Exec, pure, modify, and_then, ◌>>◌}
use h2pp.Http2.Frame.{Analyzer, header_size, size, from_buffer, read_header, is_complete}
use h2pp.Http2.Response.{Response}
use h2pp.Http2.Client.{Client}
use h2pp.Http2.Client.Receive.{on_receive_frame, on_receive_data_frame}
use h2pp.Http2.Client.Read.{
  Reading, moved_from, put_client, advance, raw_span, is_whole_buffer, read_whole,
}
use h2pp.Http2.Stream.Body.{take-all}
use h2pp.Hpack.Bitstream.{Span}

-- A call that returned, taken apart.
pub and_then-ok :
    {S A B : Type 0} {s' : S} {b : B} (first : S × Result A) (next : A → Exec S B)
    → and_then first next ≡ (s', ok b)
    → (a : A) × (first.1 ≡ ok a) × (next a first.0 ≡ (s', ok b))
and_then-ok (s, ok a) next e = (a, refl, e)
and_then-ok (s, throw exception) next e = absurd (cc)
and_then-ok (s, undefined) next e = absurd (cc)

-- What the analyzer keeps of the bytes.
pub from_buffer-take :
    (xs : List ℕ) (a : Analyzer)
    → from_buffer xs ≡ ok a
    → (header_size ≤ length xs) × (a.buffer ≡ take (min (size a) (length xs)) xs)
unfolding from_buffer
from_buffer-take xs a e = elim (Bool-cases (ltb (length xs) header_size)) [
  | inl low ↦ absurd (thrown (rw (low) at e))
  | inr enough ↦
      (let (h, read, same) = first_returned _ (read_header xs) (rw (enough) at e) in
        (
          ground (arith, enough),
          subst (λ (a : Analyzer). a.buffer ≡ take (min (size a) (length xs)) xs)
              (ok-injective same) refl,
        ))
]
  where
    thrown : throw length_error ≡ ok a → ⊥
    thrown e = cc

-- A whole frame has a header at least; of one that is not whole the analyzer keeps all bytes.
pub from_buffer-whole :
    (xs : List ℕ) (a : Analyzer)
    → from_buffer xs ≡ ok a
    → is_complete a ≡ true
    → (header_size ≤ length a.buffer) × (length a.buffer ≤ length xs) × (length a.buffer ≡ size a)
unfolding is_complete
from_buffer-whole xs a e whole =
    let (enough, kept) = from_buffer-take xs a e in
    (
      omega (arith, leb→le _ _ whole),
      omega (arith, ap length kept, length-take (min (size a) (length xs)) xs),
      omega (arith, ap length kept, length-take (min (size a) (length xs)) xs, leb→le _ _ whole),
    )

pub from_buffer-part :
    (xs : List ℕ) (a : Analyzer)
    → from_buffer xs ≡ ok a
    → is_complete a ≡ false
    → (a.buffer ≡ xs) × (length xs < size a)
unfolding is_complete
from_buffer-part xs a e part =
    let (enough, kept) = from_buffer-take xs a e in
    let less : length a.buffer < size a = ground (arith, part) in
    let short : length xs < size a =
      omega (arith, less, ap length kept, length-take (min (size a) (length xs)) xs) in
    (kept ∙ take-all xs (min (size a) (length xs)) (omega (arith, short)), short)

module _ (taken : Response → Response) where
  -- A frame's way to its handler.
  abbrev pub deliver : Span → Analyzer → Exec Client (Unit {0})
  deliver span a =
      if a.frame_header.type == 0
      then on_receive_data_frame taken a.buffer
      else on_receive_frame taken span

-- What a turn on a whole frame comes to, for the client that its handler left.
abbrev pub Turned : Reading → Analyzer → Client → Reading × Bool → Type 0
Turned r a c' (r', more) =
    ((more ≡ true) × (r' ≡ advance (length a.buffer) (record r { client = c' })))
    ⊎ ((more ≡ false)
        × (r.first ≡ 0)
        × (length a.buffer ≡ r.io_buff.offset)
        × (r' ≡ record r { client = c'; io_buff = moved_from; first = 0; count = 0 }))

module _ (r : Reading) (a : Analyzer) (r' : Reading) (more : Bool) where
  -- A turn that goes on, and the one on a buffer that is a frame.
  went_on :
      (handled : Client × Result (Unit {0}))
      → and_then (put_client r handled) (λ _. modify (advance (length a.buffer)) >> pure true)
        ≡ (r', ok more)
      → (c' : Client) × (handled ≡ (c', ok tt)) × Turned r a c' (r', more)
  went_on (c', undefined) e = absurd (cc)
  went_on (c', throw exception) e = absurd (cc)
  went_on (c', ok u) e = (c', refl, inl (cc, cc))

  moved :
      r.first ≡ 0
      → length a.buffer ≡ r.io_buff.offset
      → (handled : Client × Result (Unit {0}))
      → and_then
          (put_client (record r { io_buff = moved_from }) handled)
          (λ _. modify (λ (r : Reading). record r { first = 0; count = 0 }) >> pure false)
        ≡ (r', ok more)
      → (c' : Client) × (handled ≡ (c', ok tt)) × Turned r a c' (r', more)
  moved start all (c', undefined) e = absurd (cc)
  moved start all (c', throw exception) e = absurd (cc)
  moved start all (c', ok u) e = (c', refl, inr (cc, start, all, cc))

both-true : (x y : Bool) → (x && y) ≡ true → (x ≡ true) × (y ≡ true)
both-true true true e = (refl, refl)
both-true true false e = absurd (cc)
both-true false y e = absurd (cc)

module _ (taken : Response → Response) (r : Reading) (a : Analyzer) (r' : Reading)
    (more : Bool) where
  pub read_whole-Turned :
      read_whole taken a r ≡ (r', ok more)
      → (c' : Client) × (deliver taken (raw_span r a) a r.client ≡ (c', ok tt))
        × Turned r a c' (r', more)
  unfolding read_whole
  read_whole-Turned e = elim (Bool-cases (a.frame_header.type == 0)) [
    | inr other ↦
        rw (other)
          (went_on r a r' more (on_receive_frame taken (raw_span r a) r.client) (rw (other) at e))
    | inl is_data ↦ elim (Bool-cases (is_whole_buffer r a)) [
      | inr partly ↦ rw (is_data) (
          went_on r a r' more (on_receive_data_frame taken a.buffer r.client)
            (rw (is_data, partly) at e))
      | inl all ↦
          (let (start, end) = both-true (r.first == 0) (length a.buffer == r.io_buff.offset) all in
            rw (is_data) (
              moved r a r' more ((==_iff r.first 0).0 start)
                ((==_iff (length a.buffer) r.io_buff.offset).0 end)
                (on_receive_data_frame taken a.buffer r.client) (rw (is_data, all) at e)))
    ]
  ]
