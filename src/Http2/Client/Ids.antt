-- ===== src/Http2/Client/Ids.antt =====
-- The identifiers of the streams of lib/base_client.cpp, and the registry that finds them.
use h2pp.Prelude.{
  ℕ, ◌+◌, ◌-◌, ◌*◌, ◌%◌, ◌^◌, ◌<◌, List, [], ◌∷◌, ◌++◌, All, true, false, Bool-cases, none, some,
  ok, ◌≡◌, refl, ◌∙◌, inl, inr, ltb, ◌==◌, ==_iff, if◌then◌else◌, length, get_elem?, arith,
}
use h2pp.Http2.Protocol.{native_to_big, le32, be32}
use h2pp.Http2.Request.{Request}
use h2pp.Http2.Stream.{Stream, stream}
use h2pp.Http2.Registry.{emplace, find, get_stream, add_stream}
use h2pp.Http2.Client.{Client, effect, init_write, get_next_stream_id, new_stream, initiate_send}

find-emplace :
    (j id p : ℕ) (m : List (ℕ × ℕ))
    → find id m ≡ none
    → find j (emplace id p m) ≡ (if j == id then some p else find j m)
unfolding find emplace
find-emplace j id p [] h = refl
find-emplace j id p ((key, q) ∷ m) h = ground (arith, find-emplace j id p m)

-- The identifier of the k-th stream, as the number in a frame's header.
abbrev pub id_of : ℕ → ℕ
id_of k = native_to_big (2 * k - 1)

-- The keys of the streams made so far.
abbrev pub IsKey : ℕ → ℕ × ℕ → Type 0
IsKey order (key, p) = (k : ℕ) × (0 < k) × (k < order) × (key ≡ id_of k)

pub record IsNumbered (c : Client) : Type 0 where
  pub positive : 0 < c.client_id_order
  pub keys : All (IsKey c.client_id_order) c.registry.stream_map

id_of-injective : (j k : ℕ) → 0 < j → 0 < k → j < 2 ^ 31 → k < 2 ^ 31 → id_of j ≡ id_of k → j ≡ k
id_of-injective j k pj pk hj hk e = omega (arith, pj, pk, hj, hk, e)

find-fresh :
    (order : ℕ) (m : List (ℕ × ℕ))
    → 0 < order
    → order < 2 ^ 31
    → All (IsKey order) m
    → find (id_of order) m ≡ none
unfolding find
find-fresh order [] positive small keys = refl
find-fresh order ((key, p) ∷ m) positive small ((k, pk, hk, e), keys) =
    rw (other) (find-fresh order m positive small keys)
  where
    other : (id_of order == key) ≡ false
    other = elim (Bool-cases (id_of order == key)) [
      | inl same ↦ absurd (
          omega (
            arith,
            hk,
            id_of-injective order k positive pk small (omega (arith, hk, small))
                ((==_iff (id_of order) key).0 same ∙ e),
          ))
      | inr differ ↦ differ
    ]

widen : (order : ℕ) (m : List (ℕ × ℕ)) → All (IsKey order) m → All (IsKey (order + 1)) m
widen order [] keys = tt
widen order ((key, p) ∷ m) ((k, pk, hk, e), keys) =
    ((k, pk, omega (arith, hk), e), widen order m keys)

emplace-IsKey :
    (order id p : ℕ) (m : List (ℕ × ℕ))
    → IsKey order (id, p)
    → All (IsKey order) m
    → All (IsKey order) (emplace id p m)
unfolding emplace
emplace-IsKey order id p [] key keys = (key, tt)
emplace-IsKey order id p ((key, q) ∷ m) new (old, keys) = elim (Bool-cases (id == key)) [
  | inl same ↦ rw (same) (old, keys)
  | inr differ ↦ elim (Bool-cases (ltb id key)) [
    | inl less ↦ rw (differ, less) (new, (old, keys))
    | inr more ↦ rw (differ, more) (old, emplace-IsKey order id p m new keys)
  ]
]

get_elem?-append_one :
    {A : Type 0} (xs : List A) (x : A) → get_elem? (xs ++ (x ∷ [])) (length xs) ≡ some x
get_elem?-append_one [] x = refl
get_elem?-append_one (y ∷ xs) x = get_elem?-append_one xs x

next_id :
    (order : ℕ) → 0 < order → order < 2 ^ 31 → (order * 2 + 2 ^ 32 - 1) % 2 ^ 32 ≡ 2 * order - 1
next_id order positive small = omega (arith, positive, small)

next_order : (order : ℕ) → order < 2 ^ 31 → (order + 1) % 2 ^ 32 ≡ order + 1
next_order order small = omega (arith, small)

le32-id_of : (k : ℕ) → le32 (id_of k) ≡ be32 (2 * k - 1)
le32-id_of k = ground arith

-- The stream that a request gets.
abbrev pub stream_for : Client → Request → ℕ → Stream
stream_for c rq handler =
    stream (id_of c.client_id_order) c.settings.remote_settings.initial_window_size
      c.settings.local_settings.initial_window_size rq (some handler)

module _ (not_connected : ℕ) (rq : Request) (handler : ℕ) (c : Client) where
  send-steps :
      c.is_connected ≡ true
      → 0 < c.client_id_order
      → c.client_id_order < 2 ^ 31
      → initiate_send not_connected rq handler c ≡ (
        effect init_write (
            new_stream
              (id_of c.client_id_order)
              rq
              handler
              (record c { client_id_order = c.client_id_order + 1 })),
        ok tt,
      )
  unfolding initiate_send get_next_stream_id
  send-steps connected positive small =
      rw (connected, next_id c.client_id_order positive small, next_order c.client_id_order small)
        refl

  -- On a connected client whose streams have the keys of the numbers below the next one, which is
  -- under 2^31, `initiate_send` returns and keeps that: the new stream is found under its key, whose
  -- bytes in a frame are those of the next odd number in the order of the network, every other key
  -- leads where it led, the stream is queued behind the others, and a write is asked for.
  pub initiate_send-IsNumbered :
      c.is_connected ≡ true
      → c.client_id_order < 2 ^ 31
      → IsNumbered c
      → (c' : Client) × (initiate_send not_connected rq handler c ≡ (c', ok tt))
        × IsNumbered c'
        × (c'.registry.streams ≡ c.registry.streams ++ (stream_for c rq handler ∷ []))
        × ((id : ℕ)
            → get_stream c'.registry id ≡ (
                if id == id_of c.client_id_order
                then some (length c.registry.streams)
                else get_stream c.registry id))
        × (le32 (id_of c.client_id_order) ≡ be32 (2 * c.client_id_order - 1))
        × (c'.registry.queue ≡ c.registry.queue ++ (some (length c.registry.streams) ∷ []))
        × (c'.effects ≡ c.effects ++ (init_write ∷ []))
  unfolding get_stream add_stream
  initiate_send-IsNumbered connected small numbered =
      let n = c.client_id_order in
      (
        effect init_write (new_stream (id_of n) rq handler (record c { client_id_order = n + 1 })),
        send-steps connected numbered.positive small,
        record {
          positive = omega arith;
          keys =
              emplace-IsKey (n + 1) (id_of n) (length c.registry.streams) c.registry.stream_map
                (n, numbered.positive, omega arith, refl)
                (widen n c.registry.stream_map numbered.keys);
        },
        refl,
        λ id.
            find-emplace id (id_of n) (length c.registry.streams) c.registry.stream_map
              (find-fresh n c.registry.stream_map numbered.positive small numbered.keys),
        le32-id_of n,
        refl,
        refl,
      )
