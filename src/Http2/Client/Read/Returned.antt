-- ===== src/Http2/Client/Read/Returned.antt =====
-- `on_read` of lib/base_client.cpp where nothing disconnects.
use h2pp.Prelude.{
  ℕ, ◌+◌, ◌<◌, ◌≤◌, List, true, false, Bool-cases, Option, none, some, Result, ok, throw, undefined,
  overflow_error, invalid_argument, runtime_error, length_error, system_error, ◌≡◌, refl, sym, ap,
  subst, ◌∙◌, inl, inr, length, drop, ltb, ◌==◌, arith, if◌then◌else◌, ok-injective,
}
use h2pp.Http2.Frame.{header_size}
use h2pp.Http2.Response.{Response}
use h2pp.Http2.Settings as Settings
use h2pp.Http2.Settings.{Manager}
use h2pp.Http2.Client.{
  Client, effect, init_write, initiate_disconnect, after_cancel, settings_called, new_window,
  send_command,
}
use h2pp.Http2.Client.Read.{
  Reading, read_loop, next_buffer, after_loop, caught_read, start_reading, on_read,
}
use h2pp.Http2.Client.Read.Leaves.{
  Delivered, none_left, IsReady, IsReading, length-data_view, short-IsReady,
}
use h2pp.Http2.Client.Read.Loop.{read_loop-Leaves}
use h2pp.Utils.Buffer.{Buffer, data_view}
use h2pp.Utils.Buffer.View.{IsBuffer}

-- Once disconnecting, always disconnecting.
new_window-disconnecting : (c : Client) → (new_window c).is_disconnecting ≡ c.is_disconnecting
unfolding new_window send_command
new_window-disconnecting c = refl

after_cancel-disconnecting :
    (ec : ℕ) (handler : Option ℕ) (cancelled : Option (ℕ × ℕ) × Manager) (c : Client)
    → (after_cancel ec handler cancelled c).is_disconnecting ≡ c.is_disconnecting
unfolding settings_called send_command
after_cancel-disconnecting ec handler (none, m) c = refl
after_cancel-disconnecting ec handler (some (h, code), m) c = elim (Bool-cases (code == 0)) [
  | inl zero ↦ rw (zero) (new_window-disconnecting (record c { settings = m }))
  | inr other ↦ rw (other) refl
]

pub initiate_disconnect-disconnecting :
    (ec : ℕ) (c : Client) → (initiate_disconnect ec none c).is_disconnecting ≡ true
unfolding initiate_disconnect
initiate_disconnect-disconnecting ec c = elim (Bool-cases c.is_disconnecting) [
  | inl already ↦ rw (already) refl
  | inr first ↦ rw (first) (
      after_cancel-disconnecting ec none (Settings.cancel c.settings ec)
        (record c { is_disconnecting = true }))
]

module _ (fresh : ℕ → List ℕ) (c' : Client) (b' : Buffer) where
  abbrev Returns : Reading × Result (Unit {0}) → Type 0
  Returns x =
      (r : Reading) × (x ≡ (r, ok tt))
      × (c' ≡ effect init_write r.client)
      × (b' ≡ next_buffer fresh r)

  stopped :
      (ec : ℕ) (r : Reading)
      → (effect init_write (initiate_disconnect ec none r.client)) ≡ c'
      → c'.is_disconnecting ≡ false
      → ⊥
  stopped ec r e open_still = impossible (
      sym (initiate_disconnect-disconnecting ec r.client)
      ∙ ap (λ (c : Client). c.is_disconnecting) e
      ∙ open_still)
    where
      impossible : true ≡ false → ⊥
      impossible e = cc

  client_of : (x : Client × Result Buffer) → x ≡ (c', ok b') → x.0 ≡ c'
  client_of x e = ap (λ (p : Client × Result Buffer). p.0) e

  -- A loop that no exception ended.
  caught_read-Returns :
      (x : Reading × Result (Unit {0}))
      → after_loop fresh (caught_read x) ≡ (c', ok b')
      → c'.is_disconnecting ≡ false
      → Returns x
  caught_read-Returns (r, ok u) e open_still = (r, refl, sym (client_of _ e), cc)
  caught_read-Returns (r, undefined) e open_still = absurd (cc)
  caught_read-Returns (r, throw (system_error ec)) e open_still =
      absurd (stopped ec r (client_of _ e) open_still)
  caught_read-Returns (r, throw overflow_error) e open_still =
      absurd (stopped _ r (client_of _ e) open_still)
  caught_read-Returns (r, throw invalid_argument) e open_still =
      absurd (stopped _ r (client_of _ e) open_still)
  caught_read-Returns (r, throw runtime_error) e open_still =
      absurd (stopped _ r (client_of _ e) open_still)
  caught_read-Returns (r, throw length_error) e open_still =
      absurd (stopped _ r (client_of _ e) open_still)

-- Where `on_read` returns and leaves the client connected, the frames in front of some offset of the
-- input are whole and accepted and went to their handlers in order, every one of which returned; the
-- buffer that comes back has just the bytes behind that offset, which are less than a header or a
-- part of a frame, and room for more of it. The buffer given is well-formed and has room for a header,
-- and so has the one that comes back; a new buffer has as many bytes as asked for.
pub on_read-Delivered :
    (fresh : ℕ → List ℕ) (taken : Response → Response) (b b' : Buffer) (c c' : Client)
    → ((n : ℕ) → length (fresh n) ≡ n)
    → IsBuffer b
    → header_size ≤ b.maxsize
    → on_read fresh taken b c ≡ (c', ok b')
    → c'.is_disconnecting ≡ false
    → (j : ℕ) × (last : Client) × Delivered taken b.memory b.offset 0 c j last
      × (c' ≡ (if ltb b.offset header_size then last else effect init_write last))
      × (data_view b' ≡ drop j (data_view b))
      × IsReady b'
unfolding on_read
on_read-Delivered fresh taken b b' c c' allocated is_buffer room e open_still =
    elim (Bool-cases (ltb b.offset header_size)) [
      | inl low ↦ unread (ground (arith, low)) (rw (low) at e) (λ same. rw (low) same)
      | inr enough ↦
          (let (r, looped, client, buffer) =
              caught_read-Returns fresh c' b'
                (read_loop fresh taken (b.offset + 1) (start_reading c b)) (rw (enough) at e)
                open_still in
            let (j, delivered, seen, ready) =
              read_loop-Leaves fresh taken allocated (b.offset + 1) (start_reading c b) r started
                looped in
            (
              j,
              r.client,
              delivered,
              rw (enough) client,
              ap data_view buffer ∙ seen,
              subst IsReady (sym buffer) ready,
            ))
    ]
  where
    started : IsReading (start_reading c b)
    started = record { is_buffer = is_buffer; for_header = room; behind = omega arith; used = refl }

    unread :
        b.offset < header_size
        → ◌≡◌ {A = Client × Result Buffer} (c, ok b) (c', ok b')
        → (c' ≡ c → c' ≡ (if ltb b.offset header_size then c else effect init_write c))
        → (j : ℕ) × (last : Client) × Delivered taken b.memory b.offset 0 c j last
          × (c' ≡ (if ltb b.offset header_size then last else effect init_write last))
          × (data_view b' ≡ drop j (data_view b))
          × IsReady b'
    unread short e same =
        let buffers : b ≡ b' = ok-injective (ap (λ (p : Client × Result Buffer). p.1) e) in
        (
          0,
          c,
          none_left,
          same (sym (ap (λ (p : Client × Result Buffer). p.0) e)),
          ap data_view (sym buffers),
          subst IsReady buffers
              (short-IsReady b is_buffer room (omega (arith, short, length-data_view b is_buffer))),
        )
