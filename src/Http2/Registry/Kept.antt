-- ===== src/Http2/Registry/Kept.antt =====
-- `get_data` of lib/stream_registry.cpp loses no stream that has data to send.
use h2pp.Prelude.{
  ℕ, ◌+◌, ◌%◌, ◌^◌, List, [], ◌∷◌, ◌++◌, append_assoc, Bool, true, false, Bool-cases, ◌||◌, Option,
  none, some, Result, ok, ◌≡◌, ◌≢◌, refl, sym, ap, subst, ◌∙◌, inl, inr, ◌⊎◌, ◌==◌, ==_iff, arith,
  get_elem?, set as list_set, get_elem?-set_self, get_elem?-set_ne, length, length-set, ◌<◌,
}
use h2pp.Http2.Stream.{Stream, has_tx_data, check_tx_data}
use h2pp.Http2.Registry.{pointed, deref}
use h2pp.Http2.Registry.Serve.{Serving, store, requeue, account}

-- Whether the pointer stands in the queue.
abbrev pub queued : ℕ → List (Option ℕ) → Bool
queued p [] = false
queued p (none ∷ queue) = queued p queue
queued p (some q ∷ queue) = (q == p) || queued p queue

-- Every scheduled stream that has data to send stands in the queue.
unfoldable pub IsKept : List Stream → List (Option ℕ) → Type 0
IsKept streams queue =
    (p : ℕ) (s : Stream)
    → get_elem? streams p ≡ some s
    → s.is_scheduled ≡ true
    → has_tx_data s ≡ true
    → queued p queue ≡ true

queued-append :
    (p : ℕ) (xs ys : List (Option ℕ)) → queued p (xs ++ ys) ≡ (queued p xs || queued p ys)
queued-append p [] ys = refl
queued-append p (none ∷ xs) ys = queued-append p xs ys
queued-append p (some q ∷ xs) ys = elim (Bool-cases (q == p)) [
  | inl e ↦ rw (e) refl
  | inr e ↦ rw (e) (queued-append p xs ys)
]

or-right : (a b : Bool) → b ≡ true → (a || b) ≡ true
or-right true b h = refl
or-right false b h = h

or-left : (a b : Bool) → a ≡ true → (a || b) ≡ true
or-left true b h = refl
or-left false b h = absurd (cc)

same : (p : ℕ) → (p == p) ≡ true
same p = ground arith

-- The other streams that are to be in the queue.
pub OthersKept : List Stream → ℕ → List (Option ℕ) → Type 0
OthersKept streams p queue =
    (q : ℕ) (s : Stream)
    → q ≢ p
    → get_elem? streams q ≡ some s
    → s.is_scheduled ≡ true
    → has_tx_data s ≡ true
    → queued q queue ≡ true

-- A stream that was not scheduled, in its place after `check_tx_data`.
module _ (streams : List Stream) (p : ℕ) (u : Stream) (queue : List (Option ℕ)) where
  requeued-again :
      get_elem? streams p ≡ some u
      → OthersKept streams p queue
      → IsKept (list_set streams p (record u { is_scheduled = true })) (queue ++ (some p ∷ []))
  unfolding IsKept OthersKept
  requeued-again there others q s e scheduled has =
      queued-append q queue (some p ∷ []) ∙ (elim (Bool-cases (p == q)) [
        | inl here ↦ or-right (queued q queue) _ (rw (here) refl)
        | inr other ↦ or-left (queued q queue) _ (
            others q s (ground (arith, other))
              (sym (get_elem?-set_ne streams _ (ground (arith, other))) ∙ e) scheduled has)
      ])

  requeued-no :
      get_elem? streams p ≡ some u
      → (u.is_scheduled ≡ false) ⊎ (has_tx_data u ≡ false)
      → OthersKept streams p queue
      → IsKept streams queue
  unfolding IsKept OthersKept
  requeued-no there idle others q s e scheduled has = elim (Bool-cases (p == q)) [
    | inl here ↦ absurd (busy (one q s ((==_iff p q).0 here) e) idle scheduled has)
    | inr other ↦ others q s (ground (arith, other)) e scheduled has
  ]
    where
      one : (q : ℕ) (s : Stream) → p ≡ q → get_elem? streams q ≡ some s → u ≡ s
      one q s here e = cc

      busy :
          {s : Stream}
          → u ≡ s
          → (u.is_scheduled ≡ false) ⊎ (has_tx_data u ≡ false)
          → s.is_scheduled ≡ true
          → has_tx_data s ≡ true
          → ⊥
      busy e (inl idle) scheduled has = cc
      busy e (inr done) scheduled has = cc

pub others_of :
    (streams : List Stream) (p : ℕ) (queue : List (Option ℕ))
    → IsKept streams (some p ∷ queue)
    → OthersKept streams p queue
unfolding IsKept OthersKept
others_of streams p queue kept q s other e scheduled has =
    subst (λ b. (b || queued q queue) ≡ true) (different p q (λ e. other (sym e)))
      (kept q s e scheduled has)
  where
    different : (p q : ℕ) → p ≢ q → (p == q) ≡ false
    different p q h = ground (arith, h)

-- A change of the stream itself.
others_set :
    (streams : List Stream) (p : ℕ) (u : Stream) (queue : List (Option ℕ))
    → OthersKept streams p queue
    → OthersKept (list_set streams p u) p queue
unfolding OthersKept
others_set streams p u queue others q s other e scheduled has =
    others q s other (sym (get_elem?-set_ne streams u (λ e. other (sym e))) ∙ e) scheduled has

module _ (u : Stream) (idle : u.is_scheduled ≡ false) where
  check_tx_data-again :
      has_tx_data u ≡ true → check_tx_data u ≡ (true, record u { is_scheduled = true })
  unfolding check_tx_data
  check_tx_data-again has = rw (has, idle) refl

  check_tx_data-no : has_tx_data u ≡ false → check_tx_data u ≡ (false, u)
  unfolding check_tx_data
  check_tx_data-no done = rw (done, idle) refl

abbrev counted : Serving → ℕ → Serving
counted t used = record t { bytes_used = (t.bytes_used + used) % 2 ^ 64 }

deref-ok :
    (streams : List Stream) (p : ℕ) (u : Stream)
    → get_elem? streams p ≡ some u
    → deref streams p ≡ ok u
deref-ok streams p u e = ap pointed e

account-requeue :
    (t : Serving) (p : ℕ) (u : Stream) (used : ℕ)
    → get_elem? t.registry.streams p ≡ some u
    → account p used t ≡ (requeue p (check_tx_data u) (counted t used), ok tt)
unfolding account
account-requeue t p u used e = rw (deref-ok t.registry.streams p u e) refl

-- Where what the loop's body gives keeps the scheduled streams, before the rest of the queue.
unfoldable pub StaysKept : Serving × Result (Unit {0}) → List (Option ℕ) → Type 0
StaysKept after queue = IsKept after.0.registry.streams (queue ++ after.0.next_queue)

pub nothing_sent :
    (t : Serving) (p : ℕ) (s : Stream) (queue : List (Option ℕ))
    → get_elem? t.registry.streams p ≡ some s
    → has_tx_data s ≡ false
    → OthersKept t.registry.streams p (queue ++ t.next_queue)
    → StaysKept (t, ok tt) queue
unfolding StaysKept
nothing_sent t p s queue e done others =
    requeued-no t.registry.streams p s (queue ++ t.next_queue) e (inr done) others

requeue-Kept :
    (t : Serving) (p : ℕ) (u : Stream) (queue : List (Option ℕ))
    → p < length t.registry.streams
    → get_elem? t.registry.streams p ≡ some u
    → u.is_scheduled ≡ false
    → OthersKept t.registry.streams p (queue ++ t.next_queue)
    → StaysKept (requeue p (check_tx_data u) t, ok tt) queue
unfolding StaysKept
requeue-Kept t p u queue within there idle others = elim (Bool-cases (has_tx_data u)) [
  | inl has ↦ rw (check_tx_data-again u idle has) (
      subst (IsKept _) (append_assoc queue t.next_queue (some p ∷ []))
        (requeued-again t.registry.streams p u (queue ++ t.next_queue) there others))
  | inr done ↦ rw (check_tx_data-no u idle done) (
      requeued-no (list_set t.registry.streams p u) p u (queue ++ t.next_queue)
        (get_elem?-set_self t.registry.streams p u within) (inl idle)
        (others_set t.registry.streams p u (queue ++ t.next_queue) others))
]

-- After `get_tx_data`, which left the stream unscheduled.
pub account-Kept :
    (t : Serving) (p : ℕ) (u : Stream) (used : ℕ) (queue : List (Option ℕ))
    → p < length t.registry.streams
    → u.is_scheduled ≡ false
    → OthersKept t.registry.streams p (queue ++ t.next_queue)
    → StaysKept (account p used (record t { registry = store p u t.registry })) queue
account-Kept t p u used queue within idle others =
    subst (λ after. StaysKept after queue) (sym (account-requeue t' p u used there))
      (requeue-Kept (counted t' used) p u queue
        (omega (arith, within, length-set t.registry.streams p u)) there idle
        (others_set t.registry.streams p u (queue ++ t.next_queue) others))
  where
    t' : Serving
    t' = record t { registry = store p u t.registry }

    there : get_elem? (list_set t.registry.streams p u) p ≡ some u
    there = get_elem?-set_self t.registry.streams p u within
