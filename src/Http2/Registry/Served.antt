-- ===== src/Http2/Registry/Served.antt =====
-- The loop of `get_data` of lib/stream_registry.cpp, and the streams that have data to send.
use h2pp.Prelude.{
  ℕ, List, [], ◌∷◌, ◌++◌, append-nil, false, Bool-cases, Option, none, some, Result, ok, throw,
  undefined, ◌≡◌, refl, sym, subst, inl, inr, ltb, get_elem?, get_elem?-lt, length, ◌<◌,
}
use h2pp.Prelude.Exec.{and_then}
use h2pp.Http2.Stream.{Stream, has_tx_data}
use h2pp.Http2.Stream.Send.{Sending}
use h2pp.Http2.Stream.Scheduled.{get_tx_data-is_scheduled}
use h2pp.Http2.Frame.{sub64}
use h2pp.Http2.Registry.{Registry, pointed}
use h2pp.Http2.Registry.Serve.{
  Serving, sent, account, send_stream, serve_stream, serve, serve_all, append_next, get_data,
}
use h2pp.Http2.Registry.Kept.{IsKept, OthersKept, StaysKept, others_of, account-Kept, nothing_sent}
use h2pp.Hpack.IndexedTable.{IndexedTable, OrderedSet}
use h2pp.Hpack.Encoder.{EncoderConfig}

module _ (fresh : ℕ → List ℕ) (set : OrderedSet) (config : EncoderConfig) (limit : ℕ) where
  after_send :
      (t : Serving) (p : ℕ) (queue : List (Option ℕ)) (sent_by : Sending × Result ℕ)
      → p < length t.registry.streams
      → sent_by.0.stream.is_scheduled ≡ false
      → OthersKept t.registry.streams p (queue ++ t.next_queue)
      → (and_then (sent t p sent_by) (account p)).1 ≡ ok tt
      → StaysKept (and_then (sent t p sent_by) (account p)) queue
  after_send t p queue (u, undefined) within idle others returned = cc
  after_send t p queue (u, throw exception) within idle others returned = cc
  after_send t p queue (u, ok used) within idle others returned =
      account-Kept (record t { table = u.table; out = u.out }) p u.stream used queue within idle
        others

  serve_stream-Kept :
      (t : Serving) (p : ℕ) (s : Stream) (queue : List (Option ℕ))
      → get_elem? t.registry.streams p ≡ some s
      → OthersKept t.registry.streams p (queue ++ t.next_queue)
      → (serve_stream fresh set config limit p s t).1 ≡ ok tt
      → StaysKept (serve_stream fresh set config limit p s t) queue
  unfolding serve_stream send_stream
  serve_stream-Kept t p s queue e others returned = elim (Bool-cases (has_tx_data s)) [
    | inl has ↦ rw (has) (
        after_send t p queue _ (get_elem?-lt t.registry.streams p e)
          (get_tx_data-is_scheduled fresh set config (sub64 limit t.bytes_used) _) others
          (rw (has) at returned))
    | inr done ↦ rw (done) (nothing_sent t p s queue e done others)
  ]

  -- The loop's body, on a pointer in front of the queue.
  serve-Kept :
      (t : Serving) (p : ℕ) (queue : List (Option ℕ))
      → IsKept t.registry.streams (some p ∷ (queue ++ t.next_queue))
      → (serve fresh set config limit p t).1 ≡ ok tt
      → StaysKept (serve fresh set config limit p t) queue
  unfolding serve
  serve-Kept t p queue kept returned = by_stream (get_elem? t.registry.streams p) refl returned
    where
      by_stream :
          (o : Option Stream)
          → get_elem? t.registry.streams p ≡ o
          → (and_then (t, pointed o) (serve_stream fresh set config limit p)).1 ≡ ok tt
          → StaysKept (and_then (t, pointed o) (serve_stream fresh set config limit p)) queue
      by_stream none e returned = cc
      by_stream (some s) e returned =
          serve_stream-Kept t p s queue e
            (others_of t.registry.streams p (queue ++ t.next_queue) kept) returned

  -- What the loop comes to where it returns.
  DoneKept : Serving × Result (Unit {0}) → Type 0
  DoneKept after =
      IsKept after.0.registry.streams after.0.next_queue × (after.0.registry.queue ≡ [])

  after_serve :
      (after : Serving × Result (Unit {0})) (queue : List (Option ℕ))
      → (after.1 ≡ ok tt → StaysKept after queue)
      → ((t : Serving)
          → IsKept t.registry.streams (queue ++ t.next_queue)
          → (serve_all fresh set config limit queue t).1 ≡ ok tt
          → DoneKept (serve_all fresh set config limit queue t))
      → (and_then after (λ _. serve_all fresh set config limit queue)).1 ≡ ok tt
      → DoneKept (and_then after (λ _. serve_all fresh set config limit queue))
  unfolding StaysKept
  after_serve (t, undefined) queue stays more returned = cc
  after_serve (t, throw exception) queue stays more returned = cc
  after_serve (t, ok tt) queue stays more returned = more t (stays refl) returned

  serve_all-Kept :
      (queue : List (Option ℕ)) (t : Serving)
      → IsKept t.registry.streams (queue ++ t.next_queue)
      → (serve_all fresh set config limit queue t).1 ≡ ok tt
      → DoneKept (serve_all fresh set config limit queue t)
  unfolding serve_all DoneKept IsKept
  serve_all-Kept [] t kept returned = (kept, refl)
  serve_all-Kept (none ∷ queue) t kept returned = serve_all-Kept queue t kept returned
  serve_all-Kept (some p ∷ queue) t kept returned =
      let t1 = record t { registry = record t.registry { queue = queue } } in
      after_serve (serve fresh set config limit p t1) queue (serve-Kept t1 p queue kept)
        (serve_all-Kept queue) returned

  -- Where `get_data` returns, every scheduled stream that has data to send stands in the queue, if so
  -- before.
  pub get_data-IsKept :
      (r : Registry) (table : IndexedTable) (out : List (List ℕ)) (used : ℕ)
      → IsKept r.streams r.queue
      → (get_data fresh set config limit r table out).1 ≡ ok used
      → let after = (get_data fresh set config limit r table out).0.registry in
        IsKept after.streams after.queue
  unfolding get_data append_next DoneKept
  get_data-IsKept r table out used kept returned = elim (Bool-cases (ltb limit 16)) [
    | inl low ↦ rw (low) kept
    | inr enough ↦ rw (enough) (
        finished (serve_all fresh set config limit r.queue _)
          (serve_all-Kept r.queue _ (subst (IsKept r.streams) (sym (append-nil r.queue)) kept))
          (rw (enough) at returned))
  ]
    where
      finished :
          (after : Serving × Result (Unit {0}))
          → (after.1 ≡ ok tt → DoneKept after)
          → (and_then after (λ _. append_next)).1 ≡ ok used
          → let last = (and_then after (λ _. append_next)).0.registry in
            IsKept last.streams last.queue
      finished (t, undefined) done e = cc
      finished (t, throw exception) done e = cc
      finished (t, ok u) done e =
          let (kept, none_left) = done refl in
          subst (λ q. IsKept t.registry.streams (q ++ t.next_queue)) (sym none_left) kept
