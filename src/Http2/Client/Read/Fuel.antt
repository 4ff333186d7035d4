-- ===== src/Http2/Client/Read/Fuel.antt =====
-- The loop of `on_read` of lib/base_client.cpp ends.
use h2pp.Prelude.{
  ℕ, ◌<◌, ◌≤◌, List, Bool, true, false, Bool-cases, Result, ok, ◌≡◌, inl, inr, length, arith,
  if◌then◌else◌,
}
use h2pp.Http2.Frame.{Analyzer, header_size, from_buffer, is_complete, check}
use h2pp.Http2.Response.{Response}
use h2pp.Http2.Client.{Client}
use h2pp.Http2.Client.Read.{Reading, incoming, grown, read_whole, read_turn}
use h2pp.Http2.Client.Read.Frames.{and_then-ok, from_buffer-whole, Turned, read_whole-Turned}

module _ (fresh : ℕ → List ℕ) (taken : Response → Response) (r r' : Reading) where
  -- What follows the analysis of a frame.
  abbrev on_frame : Analyzer → Reading × Result Bool
  on_frame a = if is_complete a then read_whole taken a r else (grown fresh a r, ok false)

  -- A turn that goes on had a whole frame, and its handler returned.
  pub read_turn-true :
      read_turn fresh taken r ≡ (r', ok true)
      → (a : Analyzer) × (from_buffer (incoming r) ≡ ok a)
        × (check a r.client.settings.local_settings.max_frame_size ≡ ok tt)
        × (is_complete a ≡ true)
        × (read_whole taken a r ≡ (r', ok true))
  unfolding read_turn
  read_turn-true e =
      let (a, analyzed, e1) = and_then-ok (r, from_buffer (incoming r)) _ e in
      let (u, checked, e2) =
        and_then-ok (r, check a r.client.settings.local_settings.max_frame_size) _ e1 in
      elim (Bool-cases (is_complete a)) [
        | inl whole ↦ (a, analyzed, checked, whole, rw (whole) at e2)
        | inr part ↦ absurd (ends (rw (part) at e2))
      ]
    where
      ends : {x : Reading} → ◌≡◌ {A = Reading × Result Bool} (x, ok false) (r', ok true) → ⊥
      ends e = cc

  shorter :
      (a : Analyzer) (c' : Client)
      → header_size ≤ length a.buffer
      → header_size ≤ r.count
      → Turned r a c' (r', true)
      → r'.count < r.count
  shorter a c' some_bytes more (inl (go, e)) = rw (e) (omega (arith, some_bytes, more))
  shorter a c' some_bytes more (inr (stop, start, all, e)) = absurd (cc)

  pub count-read_turn :
      header_size ≤ r.count → read_turn fresh taken r ≡ (r', ok true) → r'.count < r.count
  count-read_turn enough e =
      let (a, analyzed, checked, whole, e') = read_turn-true e in
      let (c', handled, turned) = read_whole-Turned taken r a r' true e' in
      shorter a c' (from_buffer-whole (incoming r) a analyzed whole).0 enough turned
