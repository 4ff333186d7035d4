-- ===== src/Http2/Registry/Erased.antt =====
-- `erase` of lib/stream_registry.cpp on a queue that had a stream erased before.
use h2pp.Prelude.{
  ℕ, List, [], ◌∷◌, ◌++◌, true, false, Option, none, some, ok, undefined, ◌≡◌, refl, ◌==◌,
}
use h2pp.Http2.Stream.{Stream}
use h2pp.Http2.Registry.{Registry, deref, erase_key, reset_queued, erase}

-- The pointers lead to streams of other identifiers.
abbrev pub Others : List Stream → ℕ → List ℕ → Type 0
Others streams id [] = Unit {0}
Others streams id (p ∷ ps) =
    ((s : Stream) × (deref streams p ≡ ok s) × ((id == s.http_id) ≡ false)) × Others streams id ps

abbrev pub pointers : List ℕ → List (Option ℕ)
pointers [] = []
pointers (p ∷ ps) = some p ∷ pointers ps

reset_queued-none :
    (streams : List Stream) (id : ℕ) (ps : List ℕ) (queue : List (Option ℕ))
    → Others streams id ps
    → reset_queued streams id (pointers ps ++ (none ∷ queue)) ≡ undefined
unfolding reset_queued
reset_queued-none streams id [] queue h = refl
reset_queued-none streams id (p ∷ ps) queue ((s, e, other), h) =
    rw (e, other, reset_queued-none streams id ps queue h) refl

reset_queued-some :
    (streams : List Stream) (id : ℕ) (ps : List ℕ) (p : ℕ) (s : Stream) (queue : List (Option ℕ))
    → Others streams id ps
    → deref streams p ≡ ok s
    → (id == s.http_id) ≡ true
    → reset_queued streams id (pointers ps ++ (some p ∷ queue)) ≡ ok (pointers ps ++ (none ∷ queue))
unfolding reset_queued
reset_queued-some streams id [] p s queue h e same = rw (e, same) refl
reset_queued-some streams id (q ∷ ps) p s queue ((s', e', other), h) e same =
    rw (e', other, reset_queued-some streams id ps p s queue h e same) refl

-- The erasure of a queued stream, with no other of its identifier before it in the queue, leaves a null
-- pointer at its place and takes its key out of the map; the erasure right after it of any identifier
-- that has no stream queued before that place reads the null pointer.
pub erase-erase_undefined :
    (r : Registry) (id id' : ℕ) (ps : List ℕ) (p : ℕ) (s : Stream) (queue : List (Option ℕ))
    → r.queue ≡ pointers ps ++ (some p ∷ queue)
    → Others r.streams id ps
    → Others r.streams id' ps
    → deref r.streams p ≡ ok s
    → (id == s.http_id) ≡ true
    → (r' : Registry) × (erase r id ≡ ok r')
      × (r'.queue ≡ pointers ps ++ (none ∷ queue))
      × (r'.stream_map ≡ erase_key id r.stream_map)
      × (erase r' id' ≡ undefined)
unfolding erase
erase-erase_undefined r id id' ps p s queue queued others others' e same = (
  record r { queue = pointers ps ++ (none ∷ queue); stream_map = erase_key id r.stream_map },
  rw (queued, reset_queued-some r.streams id ps p s queue others e same) refl,
  refl,
  refl,
  rw (reset_queued-none r.streams id' ps queue others') refl,
)
