-- ===== src/Http2/Client/Read/Loop.antt =====
-- The loop of `on_read` of lib/base_client.cpp, and `on_read` where nothing stops it.
use h2pp.Prelude.{
  ℕ, zero, suc, ◌+◌, ◌-◌, ◌≤◌, List, Bool, true, false, Bool-cases, Result, ok, ◌≡◌, sym, ap, subst,
  ◌∙◌, ◌⊎◌, inl, inr, length, length-take, take, drop, ltb, arith, if◌then◌else◌,
}
use h2pp.Prelude.Exec.{pure}
use h2pp.Http2.Frame.{Analyzer, header_size, from_buffer, is_complete, check}
use h2pp.Http2.Response.{Response}
use h2pp.Http2.Client.{Client}
use h2pp.Http2.Client.Read.{
  Reading, incoming, advance, grown, read_whole, read_turn, read_loop, next_buffer, stop,
}
use h2pp.Http2.Client.Read.Frames.{
  and_then-ok, from_buffer-whole, Turned, read_whole-Turned, deliver,
}
use h2pp.Http2.Client.Read.Fuel.{read_turn-true}
use h2pp.Http2.Client.Read.Leaves.{
  Delivered, none_left, frame, IsReady, IsReading, length-data_view, next_buffer-none,
  next_buffer-short, next_buffer-grown,
}
use h2pp.Utils.Buffer.{data_view}

module _ (fresh : ℕ → List ℕ) (taken : Response → Response) where
  -- What the loop comes to: the frames up to an offset are delivered, and the bytes from there on
  -- stand in the next buffer.
  abbrev Leaves : Reading → Reading → Type 0
  Leaves r r' =
      (j : ℕ) × Delivered taken r.io_buff.memory r.io_buff.offset r.first r.client j r'.client
      × (data_view (next_buffer fresh r') ≡ drop j (data_view r.io_buff))
      × IsReady (next_buffer fresh r')

  -- A turn that ends the loop.
  read_turn-false :
      (r r' : Reading)
      → read_turn fresh taken r ≡ (r', ok false)
      → (a : Analyzer) × (from_buffer (incoming r) ≡ ok a)
        × (check a r.client.settings.local_settings.max_frame_size ≡ ok tt)
        × (((is_complete a ≡ true) × (read_whole taken a r ≡ (r', ok false)))
            ⊎ ((is_complete a ≡ false) × (grown fresh a r ≡ r')))
  unfolding read_turn
  read_turn-false r r' e =
      let (a, analyzed, e1) = and_then-ok (r, from_buffer (incoming r)) _ e in
      let (u, checked, e2) =
        and_then-ok (r, check a r.client.settings.local_settings.max_frame_size) _ e1 in
      (
        a,
        analyzed,
        checked,
        elim (Bool-cases (is_complete a)) [
          | inl whole ↦ inl (whole, rw (whole) at e2)
          | inr part ↦ inr (part, ap (λ (p : Reading × Result Bool). p.0) (rw (part) at e2))
        ],
      )

  incoming-take :
      (r : Reading)
      → IsReading r
      → incoming r ≡ take (r.io_buff.offset - r.first) (drop r.first r.io_buff.memory)
  incoming-take r h = ap (λ n. take n (drop r.first r.io_buff.memory)) (omega (arith, h.behind))

  client-grown : (r : Reading) (a : Analyzer) → (grown fresh a r).client ≡ r.client
  unfolding grown
  client-grown r a = ground arith

  advance-IsReading :
      (r : Reading) (c : Client) (n : ℕ)
      → n ≤ r.count
      → IsReading r
      → IsReading (advance n (record r { client = c }))
  advance-IsReading r c n fits h = record {
    is_buffer = h.is_buffer;
    for_header = h.for_header;
    behind = omega (arith, fits, h.behind);
    used = omega (arith, h.used);
  }

  module _ (allocated : (n : ℕ) → length (fresh n) ≡ n) where
    -- The turn that ends the loop, and one that does not, before what the others come to.
    last-Leaves :
        (r r' : Reading)
        → IsReading r
        → header_size ≤ r.count
        → read_turn fresh taken r ≡ (r', ok false)
        → Leaves r r'
    last-Leaves r r' h enough e = by_frame (read_turn-false r r' e)
      where
        moved :
            (a : Analyzer) (c' : Client)
            → from_buffer (incoming r) ≡ ok a
            → check a r.client.settings.local_settings.max_frame_size ≡ ok tt
            → is_complete a ≡ true
            → deliver taken
                (record { memory = r.io_buff.memory; first = r.first; count = length a.buffer })
                a
                r.client
              ≡ (c', ok tt)
            → Turned r a c' (r', false)
            → Leaves r r'
        moved a c' analyzed checked whole handled (inl (go, left)) = absurd (cc)
        moved a c' analyzed checked whole handled (inr (go, start, all, left)) =
            let (seen, ready) =
              next_buffer-none fresh allocated r' r.io_buff.offset (data_view r.io_buff)
                (ap (λ (r : Reading). r.count) left) (length-data_view r.io_buff h.is_buffer) in
            (
              r.first + length a.buffer,
              frame a (ap from_buffer (sym (incoming-take r h)) ∙ analyzed) checked whole handled (
                  subst
                    (λ (x : Client).
                      Delivered taken r.io_buff.memory r.io_buff.offset (r.first + length a.buffer)
                        c' (r.first + length a.buffer) x)
                    (sym (ap (λ (r : Reading). r.client) left)) none_left),
              seen ∙ ap (λ n. drop n (data_view r.io_buff)) (omega (arith, start, all)),
              ready,
            )

        by_frame :
            (a : Analyzer) × (from_buffer (incoming r) ≡ ok a)
              × (check a r.client.settings.local_settings.max_frame_size ≡ ok tt)
              × (((is_complete a ≡ true) × (read_whole taken a r ≡ (r', ok false)))
                  ⊎ ((is_complete a ≡ false) × (grown fresh a r ≡ r')))
            → Leaves r r'
        by_frame (a, analyzed, checked, inl (whole, e)) =
            let (c', handled, turned) = read_whole-Turned taken r a r' false e in
            moved a c' analyzed checked whole handled turned
        by_frame (a, analyzed, checked, inr (part, e)) =
            let (seen, ready) = next_buffer-grown fresh allocated r a h enough analyzed part in
            subst (Leaves r) e (
              r.first,
              subst
                  (λ (x : Client).
                    Delivered taken r.io_buff.memory r.io_buff.offset r.first r.client r.first x)
                  (sym (client-grown r a)) none_left,
              seen,
              ready,
            )

    -- A turn that goes on, before what the loop comes to from the next frame on.
    next-Leaves :
        (r r' : Reading) (a : Analyzer) (c1 : Client)
        → IsReading r
        → from_buffer (incoming r) ≡ ok a
        → check a r.client.settings.local_settings.max_frame_size ≡ ok tt
        → is_complete a ≡ true
        → deliver taken
            (record { memory = r.io_buff.memory; first = r.first; count = length a.buffer })
            a
            r.client
          ≡ (c1, ok tt)
        → Leaves (advance (length a.buffer) (record r { client = c1 })) r'
        → Leaves r r'
    next-Leaves r r' a c1 h analyzed checked whole handled (j, delivered, seen, ready) = (
      j,
      frame a (ap from_buffer (sym (incoming-take r h)) ∙ analyzed) checked whole handled delivered,
      seen,
      ready,
    )

    step-Leaves :
        (fuel : ℕ) (r r' r1 : Reading) (more : Bool)
        → ((r1 : Reading)
            → IsReading r1
            → read_loop fresh taken fuel r1 ≡ (r', ok tt)
            → Leaves r1 r')
        → IsReading r
        → header_size ≤ r.count
        → read_turn fresh taken r ≡ (r1, ok more)
        → (if more then read_loop fresh taken fuel else pure tt) r1 ≡ (r', ok tt)
        → Leaves r r'
    step-Leaves fuel r r' r1 false rest h enough turned e = last-Leaves r r' h enough (
        turned
        ∙ ap (λ (x : Reading). (x, ok false)) (ap (λ (p : Reading × Result (Unit {0})). p.0) e))
    step-Leaves fuel r r' r1 true rest h enough turned e =
        let (a, analyzed, checked, whole, e') = read_turn-true fresh taken r r1 turned in
        let (c1, handled, went) = read_whole-Turned taken r a r1 true e' in
        next-Leaves r r' a c1 h analyzed checked whole handled (
          rest (advance (length a.buffer) (record r { client = c1 }))
            (advance-IsReading r c1 (length a.buffer)
              (omega (
                arith,
                (from_buffer-whole (incoming r) a analyzed whole).1,
                length-take r.count (drop r.first r.io_buff.memory),
              ))
              h)
            (ap (read_loop fresh taken fuel) (sym (on r1 a c1 went)) ∙ e))
      where
        on :
            (r1 : Reading) (a : Analyzer) (c1 : Client)
            → Turned r a c1 (r1, true)
            → r1 ≡ advance (length a.buffer) (record r { client = c1 })
        on r1 a c1 (inl (go, left)) = left
        on r1 a c1 (inr (stop, start, all, left)) = absurd (cc)

    pub read_loop-Leaves :
        (fuel : ℕ) (r r' : Reading)
        → IsReading r
        → read_loop fresh taken fuel r ≡ (r', ok tt)
        → Leaves r r'
    unfolding read_loop
    read_loop-Leaves zero r r' h e = absurd (cc)
    read_loop-Leaves (suc fuel) r r' h e = elim (Bool-cases (ltb r.count header_size)) [
      | inl low ↦
          (let (seen, ready) = next_buffer-short fresh allocated r h (ground (arith, low)) in
            subst (Leaves r) (ap (λ (p : Reading × Result (Unit {0})). p.0) (rw (low) at e))
              (r.first, none_left, seen, ready))
      | inr enough ↦
          (let (more, turned, rest) = and_then-ok (read_turn fresh taken r) _ (rw (enough) at e) in
            step-Leaves fuel r r' (read_turn fresh taken r).0 more
              (λ r1. read_loop-Leaves fuel r1 r') h (ground (arith, enough))
              (ap (λ (x : Result Bool). ((read_turn fresh taken r).0, x)) turned) rest)
    ]
