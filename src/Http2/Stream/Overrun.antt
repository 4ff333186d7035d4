-- ===== src/Http2/Stream/Overrun.antt =====
-- `prepare_body` of lib/stream.cpp once blocks of the body were removed.
use h2pp.Prelude.{
  ℕ, ◌+◌, ◌-◌, ◌^◌, ◌<◌, ◌≤◌, List, [], ◌∷◌, true, false, Bool-cases, inl, inr, undefined, ◌≡◌,
  refl, ap, length, length-append, take, drop, min, ltb, ◌==◌, arith,
}
use h2pp.Http2.Frame.{header_size}
use h2pp.Http2.Response.Body.{joined}
use h2pp.Http2.Request.{Block}
use h2pp.Http2.Stream.Send.{Sending, copy_loop, behind, payload_size, prepare_body}
use h2pp.Http2.Stream.Sends.{sub64-minus}

-- A loop that is to copy more than there is runs off the list of spans.
copy_loop-overrun :
    (spans : List (List ℕ)) (blocks : List Block) (offset left : ℕ)
    → length (joined spans) < offset + left
    → copy_loop spans blocks offset left ≡ undefined
unfolding copy_loop
copy_loop-overrun [] blocks offset left more = refl
copy_loop-overrun (s ∷ spans) [] offset left more = refl
copy_loop-overrun (s ∷ spans) (b ∷ blocks) offset left more =
    elim (Bool-cases (ltb (length s) offset)) [
      | inl over ↦ rw (over) refl
      | inr within ↦
          rw (within, ends within, unfinished within)
            (ap (behind (take (min left (length s - offset)) (drop offset s))) (
              copy_loop-overrun spans blocks 0 (left - min left (length s - offset))
                (others within)))
    ]
  where
    both : length (joined (s ∷ spans)) ≡ length s + length (joined spans)
    both = length-append s (joined spans)

    ends :
        ltb (length s) offset ≡ false → (offset + min left (length s - offset) == length s) ≡ true
    ends within = ground (arith, within, more, both)

    unfinished : ltb (length s) offset ≡ false → (left - min left (length s - offset) == 0) ≡ false
    unfinished within = ground (arith, within, more, both)

    others :
        ltb (length s) offset ≡ false
        → length (joined spans) < 0 + (left - min left (length s - offset))
    others within = ground (arith, within, more, both)

-- Where the blocks that are left hold fewer bytes than the whole body, as they do once a block was sent
-- to its end and removed, and the limit has room for more than they hold, `prepare_body` reads behind
-- the last of them: it counts what is left from the size of the whole body.
pub prepare_body-overrun :
    (fresh : ℕ → List ℕ) (limit : ℕ) (t : Sending)
    → let s = t.stream in
      s.send_body_offset ≤ length (joined s.request.span_list)
      → length (joined s.request.span_list) < s.request.size
      → s.request.size < 2 ^ 64
      → length (joined s.request.span_list) + header_size < s.send_body_offset + limit
      → limit < 2 ^ 64
      → header_size ≤ limit
      → (prepare_body fresh limit t).1 ≡ undefined
unfolding prepare_body
prepare_body-overrun fresh limit t within removed small room bounded enough =
    let s = t.stream in
    rw
      (copy_loop-overrun s.request.span_list s.request.body_list s.send_body_offset
        (payload_size s limit) asked)
      refl
  where
    asked :
        length (joined t.stream.request.span_list)
        < t.stream.send_body_offset + payload_size t.stream limit
    asked =
        omega (arith, within, removed, room, sub64-minus limit header_size enough bounded, small)
