-- ===== src/Http2/Client/Read/Leaves.antt =====
-- What `on_read` of lib/base_client.cpp delivers, and the buffer that it returns.
use h2pp.Prelude.{
  ℕ, ◌+◌, ◌-◌, ◌<◌, ◌≤◌, List, true, false, Bool-cases, ok, ◌≡◌, refl, sym, ap, ◌∙◌, ◌⊎◌, inl, inr,
  length, length-take, take, drop, drop-all, min, ltb, ◌==◌, arith,
}
use h2pp.Http2.Frame.{Analyzer, header_size, size, from_buffer, is_complete, check}
use h2pp.Http2.Response.{Response}
use h2pp.Http2.Stream.Body.{take-all}
use h2pp.Http2.Client.{Client}
use h2pp.Http2.Client.Read.{Reading, incoming, grown, next_buffer}
use h2pp.Http2.Client.Read.Frames.{deliver, from_buffer-part}
use h2pp.Utils.Buffer.{Buffer, buffer, prepared, commit_span, data_view, consume}
use h2pp.Utils.Buffer.View.{IsBuffer, drop-take, data_view-commit_span, data_view-consume}

-- The frames from one offset to another of the bytes, each whole and accepted, went to their
-- handlers one after another, and every handler returned.
pub data Delivered (taken : Response → Response) (memory : List ℕ) (end : ℕ)
    : ℕ → Client → ℕ → Client → Type 0 where
  none_left : {i : ℕ} {c : Client} → Delivered taken memory end i c i c
  frame :
      {i j : ℕ} {c c1 c' : Client} (a : Analyzer)
      → from_buffer (take (end - i) (drop i memory)) ≡ ok a
      → check a c.settings.local_settings.max_frame_size ≡ ok tt
      → is_complete a ≡ true
      → deliver taken (record { memory = memory; first = i; count = length a.buffer }) a c
        ≡ (c1, ok tt)
      → Delivered taken memory end (i + length a.buffer) c1 j c'
      → Delivered taken memory end i c j c'

-- A buffer with a part of a frame, or less than a header, and room for more.
pub record IsReady (b : Buffer) : Type 0 where
  pub is_buffer : IsBuffer b
  pub for_header : header_size ≤ b.maxsize
  pub room : 0 < prepared b
  pub part :
      (length (data_view b) < header_size)
      ⊎ ((a : Analyzer) × (from_buffer (data_view b) ≡ ok a)
          × (is_complete a ≡ false)
          × (size a ≤ b.maxsize))

-- The variables of `on_read` before a turn.
pub record IsReading (r : Reading) : Type 0 where
  pub is_buffer : IsBuffer r.io_buff
  pub for_header : header_size ≤ r.io_buff.maxsize
  pub behind : r.first + r.count ≡ r.io_buff.offset
  pub used : r.used_bytes ≡ r.first

pub length-data_view : (b : Buffer) → IsBuffer b → length (data_view b) ≡ b.offset
unfolding data_view
length-data_view b h = omega (arith, h.within, h.allocated, length-take b.offset b.memory)

pub incoming-drop : (r : Reading) → IsReading r → incoming r ≡ drop r.first (data_view r.io_buff)
unfolding data_view
incoming-drop r h =
    ap (λ n. take n (drop r.first r.io_buff.memory)) (omega (arith, h.behind))
    ∙ sym (drop-take r.first r.io_buff.offset r.io_buff.memory)

pub short-IsReady :
    (b : Buffer)
    → IsBuffer b
    → header_size ≤ b.maxsize
    → length (data_view b) < header_size
    → IsReady b
short-IsReady b h enough short = record {
  is_buffer = h;
  for_header = enough;
  room = omega (arith, enough, short, length-data_view b h);
  part = inl short;
}

part-IsReady :
    (b : Buffer) (a : Analyzer)
    → IsBuffer b
    → header_size ≤ b.maxsize
    → from_buffer (data_view b) ≡ ok a
    → is_complete a ≡ false
    → size a ≤ b.maxsize
    → IsReady b
part-IsReady b a h enough e incomplete fits = record {
  is_buffer = h;
  for_header = enough;
  room =
      omega (arith, fits, (from_buffer-part (data_view b) a e incomplete).1, length-data_view b h);
  part = inr (a, e, incomplete, fits);
}

module _ (fresh : ℕ → List ℕ) (allocated : (n : ℕ) → length (fresh n) ≡ n) where
  -- A new buffer, where nothing is left.
  new-IsReady : IsReady (buffer fresh 64)
  unfolding buffer data_view
  new-IsReady =
      short-IsReady (buffer fresh 64) (record { within = omega arith; allocated = allocated 64 })
        (omega arith) (omega arith)

  pub next_buffer-none :
      (r : Reading) (offset : ℕ) (bytes : List ℕ)
      → r.count ≡ 0
      → length bytes ≡ offset
      → (data_view (next_buffer fresh r) ≡ drop offset bytes) × IsReady (next_buffer fresh r)
  unfolding buffer data_view
  next_buffer-none r offset bytes e all = rw (e) (sym (drop-all bytes offset all), new-IsReady)

  -- The buffer without the bytes that were used.
  next_buffer-some :
      (r : Reading)
      → IsReading r
      → 0 < r.count
      → IsBuffer (next_buffer fresh r)
        × ((next_buffer fresh r).maxsize ≡ r.io_buff.maxsize)
        × (data_view (next_buffer fresh r) ≡ incoming r)
  unfolding consume
  next_buffer-some r h some = elim (Bool-cases (r.used_bytes == 0)) [
    | inl fresh_start ↦
        rw (left, fresh_start)
          (
            h.is_buffer,
            refl,
            ap (λ n. drop n (data_view r.io_buff)) (at_start fresh_start) ∙ sym (incoming-drop r h),
          )
    | inr moved ↦
        (let (seen, still) = data_view-consume r.io_buff r.used_bytes h.is_buffer in
          rw (left, moved)
            (
              still,
              refl,
              seen ∙ ap (λ n. drop n (data_view r.io_buff)) h.used ∙ sym (incoming-drop r h),
            ))
  ]
    where
      left : (r.count == 0) ≡ false
      left = ground (arith, some)

      at_start : (r.used_bytes == 0) ≡ true → 0 ≡ r.first
      at_start e = ground (arith, h.used, e)

  pub next_buffer-short :
      (r : Reading)
      → IsReading r
      → r.count < header_size
      → (data_view (next_buffer fresh r) ≡ drop r.first (data_view r.io_buff))
        × IsReady (next_buffer fresh r)
  next_buffer-short r h short = elim (Bool-cases (r.count == 0)) [
    | inl nothing ↦
        (let (seen, ready) =
            next_buffer-none r r.io_buff.offset (data_view r.io_buff) (ground (arith, nothing))
              (length-data_view r.io_buff h.is_buffer) in
          (
            seen ∙ ap (λ n. drop n (data_view r.io_buff)) (ground (arith, nothing, h.behind)),
            ready,
          ))
    | inr something ↦
        (let (still, same, seen) = next_buffer-some r h (ground (arith, something)) in
          (
            seen ∙ incoming-drop r h,
            short-IsReady (next_buffer fresh r) still (omega (arith, same, h.for_header)) (
                omega (
                  arith,
                  short,
                  ap length seen,
                  length-take r.count (drop r.first r.io_buff.memory),
                )),
          ))
  ]

  larger :
      (n : ℕ) (bytes : List ℕ)
      → length bytes < n
      → let b = (commit_span (buffer fresh n) bytes).0 in
        (data_view b ≡ bytes) × IsBuffer b × (b.maxsize ≡ n)
  unfolding buffer commit_span data_view
  larger n bytes short =
      let (seen, still, count) =
        data_view-commit_span (buffer fresh n) bytes
          (record { within = omega arith; allocated = allocated n }) in
      (seen ∙ take-all bytes (min (n - 0) (length bytes)) (omega (arith, short)), still, refl)

  -- A buffer that is large enough for the frame, and a larger one.
  pub next_buffer-grown :
      (r : Reading) (a : Analyzer)
      → IsReading r
      → header_size ≤ r.count
      → from_buffer (incoming r) ≡ ok a
      → is_complete a ≡ false
      → (data_view (next_buffer fresh (grown fresh a r)) ≡ drop r.first (data_view r.io_buff))
        × IsReady (next_buffer fresh (grown fresh a r))
  unfolding grown
  next_buffer-grown r a h enough e incomplete =
      elim (Bool-cases (ltb (r.io_buff.offset + prepared r.io_buff) (size a))) [
        | inr fits ↦
            (let (still, same, seen) = next_buffer-some r h (omega (arith, enough)) in
              rw (fits) (
                seen ∙ incoming-drop r h,
                part-IsReady (next_buffer fresh r) a still (omega (arith, same, h.for_header))
                    (ap from_buffer seen ∙ e) incomplete
                    (ground (arith, fits, same, h.is_buffer.within)),
              ))
        | inl small ↦ rw (small, left) (grown_whole (from_buffer-part (incoming r) a e incomplete))
      ]
    where
      left : (r.count == 0) ≡ false
      left = ground (arith, enough)

      grown_whole :
          (a.buffer ≡ incoming r) × (length (incoming r) < size a)
          → (data_view (commit_span (buffer fresh (size a)) a.buffer).0
              ≡ drop r.first (data_view r.io_buff))
            × IsReady (commit_span (buffer fresh (size a)) a.buffer).0
      grown_whole (kept, short) =
          let (seen, still, same) =
            larger (size a) a.buffer (omega (arith, short, ap length kept)) in
          (
            seen ∙ kept ∙ incoming-drop r h,
            part-IsReady (commit_span (buffer fresh (size a)) a.buffer).0 a still
                (omega (arith, same)) (ap from_buffer (seen ∙ kept) ∙ e) incomplete
                (omega (arith, same)),
          )
