-- ===== src/Http2/Registry.antt =====
-- lib/stream_registry.h and stream_registry.cpp. A pointer to a stream is its place in `streams`, the
-- streams that were ever made; a null pointer is `none`.
pub mod Erased
pub mod Serve
pub mod Kept
pub mod Served
pub mod Cleared
mod Examples
use h2pp.Prelude.{
  ℕ, List, [], ◌∷◌, ◌++◌, Bool, not, Option, none, some, Result, ok, undefined, ◌>>=◌, ltb, ◌==◌,
  if◌then◌else◌, get_elem?,
}
use h2pp.Http2.Request.{is_empty}
use h2pp.Http2.Stream.{Stream}

pub record Registry : Type 0 where
  pub streams : List Stream
  pub stream_map : List (ℕ × ℕ)
  pub queue : List (Option ℕ)

abbrev pub stream_registry : Registry
stream_registry = record { streams = []; stream_map = []; queue = [] }

-- The stream that a pointer leads to.
abbrev pub pointed : Option Stream → Result Stream
pointed none = undefined
pointed (some s) = ok s

abbrev pub deref : List Stream → ℕ → Result Stream
deref streams p = pointed (get_elem? streams p)

-- `std::map` as its pairs in the order of the keys; `emplace` leaves a key that is there.
unfoldable pub emplace : ℕ → ℕ → List (ℕ × ℕ) → List (ℕ × ℕ)
emplace id p [] = (id, p) ∷ []
emplace id p ((key, q) ∷ m) =
    if id == key
    then (key, q) ∷ m
    else if ltb id key
    then (id, p) ∷ (key, q) ∷ m
    else (key, q) ∷ emplace id p m

unfoldable pub find : ℕ → List (ℕ × ℕ) → Option ℕ
find id [] = none
find id ((key, q) ∷ m) = if id == key then some q else find id m

unfoldable pub erase_key : ℕ → List (ℕ × ℕ) → List (ℕ × ℕ)
erase_key id [] = []
erase_key id ((key, q) ∷ m) = if id == key then m else (key, q) ∷ erase_key id m

unfoldable pub add_stream : Registry → ℕ → ℕ → Registry
add_stream r id p = record r {
  stream_map = emplace id p r.stream_map;
  queue = r.queue ++ (some p ∷ []);
}

unfoldable pub get_stream : Registry → ℕ → Option ℕ
get_stream r id = find id r.stream_map

unfoldable pub enqueue : Registry → ℕ → Registry
enqueue r p = record r { queue = r.queue ++ (some p ∷ []) }

-- `std::find_if` over the queue and the reset of the pointer found; a null pointer before it is read.
unfoldable pub reset_queued : List Stream → ℕ → List (Option ℕ) → Result (List (Option ℕ))
reset_queued streams id [] = ok []
reset_queued streams id (none ∷ queue) = undefined
reset_queued streams id (some p ∷ queue) =
    let rest = reset_queued streams id queue in
    (do
      s ← deref streams p
      if id == s.http_id then ok (none ∷ queue) else (do q ← rest; ok (some p ∷ q)))

unfoldable pub erase : Registry → ℕ → Result Registry
erase r id = do
  queue ← reset_queued r.streams id r.queue
  ok (record r { queue = queue; stream_map = erase_key id r.stream_map })

abbrev pub has_data : Registry → Bool
has_data r = not (is_empty r.queue)

-- The first pointer of the queue that is not null, and the queue behind it.
unfoldable pub scheduled_stream : List (Option ℕ) → Option ℕ × List (Option ℕ)
scheduled_stream [] = (none, [])
scheduled_stream (none ∷ queue) = scheduled_stream queue
scheduled_stream (some p ∷ queue) = (some p, queue)
