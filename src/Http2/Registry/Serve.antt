-- ===== src/Http2/Registry/Serve.antt =====
-- `get_data` and `reset` of lib/stream_registry.cpp. The queue is served in order; what is behind the
-- stream that is served stands in `queue`, as an exception leaves it.
use h2pp.Prelude.{
  ℕ, ◌+◌, ◌%◌, ◌^◌, List, [], ◌∷◌, ◌++◌, Bool, Option, none, some, Result, ok, throw, undefined,
  ltb, if◌then◌else◌, set,
}
use h2pp.Prelude.Exec.{Exec, pure, lift, gets, modify, ◌>>=◌, ◌>>◌}
use h2pp.Http2.Frame.{sub64}
use h2pp.Http2.Response.{Response}
use h2pp.Http2.Stream as Stream
use h2pp.Http2.Stream.{Stream, Call, has_tx_data, check_tx_data}
use h2pp.Http2.Stream.Send.{Sending, get_tx_data}
use h2pp.Http2.Registry.{Registry, deref}
use h2pp.Hpack.IndexedTable.{IndexedTable, OrderedSet}
use h2pp.Hpack.Encoder.{EncoderConfig}

-- The registry with the encoder's table and the buffers to send, and the members of `get_data`.
pub record Serving : Type 0 where
  pub registry : Registry
  pub table : IndexedTable
  pub out : List (List ℕ)
  pub bytes_used : ℕ
  pub next_queue : List (Option ℕ)

abbrev pub store : ℕ → Stream → Registry → Registry
store p s r = record r { streams = set r.streams p s }

-- A stream's call within the registry.
abbrev pub sent : Serving → ℕ → Sending × Result ℕ → Serving × Result ℕ
sent t p (u, used) =
    (record t { registry = store p u.stream t.registry; table = u.table; out = u.out }, used)

abbrev pub requeue : ℕ → Bool × Stream → Serving → Serving
requeue p (again, s) t = record t {
  registry = store p s t.registry;
  next_queue = if again then t.next_queue ++ (some p ∷ []) else t.next_queue;
}

-- What follows `get_tx_data` in the loop's body.
unfoldable pub account : ℕ → ℕ → Exec Serving (Unit {0})
account p used = do
  streams ← gets (λ (t : Serving). t.registry.streams)
  s ← lift (deref streams p)
  modify (λ (t : Serving). record t { bytes_used = (t.bytes_used + used) % 2 ^ 64 })
  modify (requeue p (check_tx_data s))

-- What follows the loop of `get_data`.
unfoldable pub append_next : Exec Serving ℕ
append_next t = (
  record t { registry = record t.registry { queue = t.registry.queue ++ t.next_queue } },
  ok t.bytes_used,
)

module _ (fresh : ℕ → List ℕ) (set : OrderedSet) (config : EncoderConfig) (limit : ℕ) where
  -- `stream->get_tx_data`
  unfoldable pub send_stream : ℕ → Stream → Exec Serving ℕ
  send_stream p s t = sent t p (
      get_tx_data fresh set config (sub64 limit t.bytes_used)
        (record { stream = s; table = t.table; out = t.out }))

  -- The loop's body for a stream.
  unfoldable pub serve_stream : ℕ → Stream → Exec Serving (Unit {0})
  serve_stream p s = if has_tx_data s then (do used ← send_stream p s; account p used) else pure tt

  unfoldable pub serve : ℕ → Exec Serving (Unit {0})
  serve p = do
    streams ← gets (λ (t : Serving). t.registry.streams)
    s ← lift (deref streams p)
    serve_stream p s

  -- The loop, over the queue.
  unfoldable pub serve_all : List (Option ℕ) → Exec Serving (Unit {0})
  serve_all [] = modify (λ (t : Serving). record t { registry = record t.registry { queue = [] } })
  serve_all (none ∷ queue) = serve_all queue
  serve_all (some p ∷ queue) = do
    modify (λ (t : Serving). record t { registry = record t.registry { queue = queue } })
    serve p
    serve_all queue

  unfoldable pub get_data : Registry → IndexedTable → List (List ℕ) → Serving × Result ℕ
  get_data r table out =
      let t : Serving = record {
        registry = r;
        table = table;
        out = out;
        bytes_used = 0;
        next_queue = [];
      } in
      if ltb limit 16 then (t, ok 0) else (do serve_all r.queue; append_next) t

-- The streams with the calls that were made of their handlers.
pub record Resetting : Type 0 where
  pub streams : List Stream
  pub calls : List Call

abbrev pub was_reset : Resetting → ℕ → Stream × Result (Option Call) → Resetting × Result (Unit {0})
was_reset t p (s, undefined) = (t, undefined)
was_reset t p (s, throw exception) = (t, throw exception)
was_reset t p (s, ok none) = (record t { streams = set t.streams p s }, ok tt)
was_reset t p (s, ok (some call)) =
    (record { streams = set t.streams p s; calls = t.calls ++ (call ∷ []) }, ok tt)

abbrev pub after_reset : Registry → Resetting × Result (Unit {0}) → Registry × Result (List Call)
after_reset r (t, ok u) = (record { streams = t.streams; stream_map = []; queue = [] }, ok t.calls)
after_reset r (t, throw exception) = (record r { streams = t.streams; queue = [] }, throw exception)
after_reset r (t, undefined) = (record r { streams = t.streams; queue = [] }, undefined)

module _ (taken : Response → Response) (ec : ℕ) where
  unfoldable pub reset_all : List (ℕ × ℕ) → Exec Resetting (Unit {0})
  reset_all [] = pure tt
  reset_all ((id, p) ∷ m) = do
    streams ← gets (λ (t : Resetting). t.streams)
    s ← lift (deref streams p)
    (λ (t : Resetting). was_reset t p (Stream.reset taken ec s))
    reset_all m

  -- The registry, and the calls in their order.
  unfoldable pub reset : Registry → Registry × Result (List Call)
  reset r = after_reset r (reset_all r.stream_map (record { streams = r.streams; calls = [] }))
