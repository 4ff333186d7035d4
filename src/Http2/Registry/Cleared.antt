-- ===== src/Http2/Registry/Cleared.antt =====
-- `reset` of lib/stream_registry.cpp: the calls that a disconnection makes.
use h2pp.Prelude.{
  ℕ, ◌<◌, List, [], ◌∷◌, ◌++◌, append_assoc, append-nil, Option, none, some, ok, ◌≡◌, ◌≢◌, refl,
  sym, ap, ap₂, subst, ◌∙◌, length, length-set, get_elem?, set, get_elem?-total, get_elem?-set_ne,
  arith,
}
use h2pp.Http2.Response.{Response}
use h2pp.Http2.Stream as Stream
use h2pp.Http2.Stream.{Stream, Call, finished}
use h2pp.Http2.Registry.{Registry, pointed}
use h2pp.Http2.Registry.Serve.{Resetting, was_reset, reset_all, after_reset, reset}

-- The call that a waiting handler gets.
abbrev pub answer : ℕ → Stream → Option Call
answer ec s = elim s.response_handler [
  | none ↦ none
  | some h ↦ some (record { handler = h; code = ec; answer = s.response })
]

abbrev pub calls_of : Option Call → List Call
calls_of none = []
calls_of (some c) = c ∷ []

-- The calls for the streams of the map, in its order.
abbrev pub answer_at : ℕ → Option Stream → List Call
answer_at ec none = []
answer_at ec (some s) = calls_of (answer ec s)

abbrev pub answers : ℕ → List Stream → List (ℕ × ℕ) → List Call
answers ec streams [] = []
answers ec streams ((id, p) ∷ m) = answer_at ec (get_elem? streams p) ++ answers ec streams m

abbrev pub Apart : ℕ → List (ℕ × ℕ) → Type 0
Apart p [] = Unit {0}
Apart p ((id, q) ∷ m) = (p ≢ q) × Apart p m

-- The map's pointers lead to streams, each to one of its own.
abbrev pub Distinct : List Stream → List (ℕ × ℕ) → Type 0
Distinct streams [] = Unit {0}
Distinct streams ((id, p) ∷ m) = (p < length streams) × Apart p m × Distinct streams m

reset_answer :
    (taken : Response → Response) (ec : ℕ) (s : Stream)
    → (s' : Stream) × (Stream.reset taken ec s ≡ (s', ok (answer ec s)))
unfolding Stream.reset finished
reset_answer taken ec s = by_handler s.response_handler
  where
    by_handler :
        (h : Option ℕ)
        → (s' : Stream) × (Stream.reset taken ec (record s { response_handler = h })
            ≡ (s', ok (answer ec (record s { response_handler = h }))))
    by_handler none = (_, refl)
    by_handler (some h) = (_, refl)

answers-set :
    (ec : ℕ) (streams : List Stream) (p : ℕ) (s : Stream) (m : List (ℕ × ℕ))
    → Apart p m
    → answers ec (set streams p s) m ≡ answers ec streams m
answers-set ec streams p s [] apart = refl
answers-set ec streams p s ((id, q) ∷ m) (other, apart) =
    ap (λ o. answer_at ec o ++ answers ec (set streams p s) m) (get_elem?-set_ne streams s other)
    ∙ ap (λ cs. answer_at ec (get_elem? streams q) ++ cs) (answers-set ec streams p s m apart)

Distinct-set :
    (streams : List Stream) (p : ℕ) (s : Stream) (m : List (ℕ × ℕ))
    → Distinct streams m
    → Distinct (set streams p s) m
Distinct-set streams p s [] h = tt
Distinct-set streams p s ((id, q) ∷ m) (within, apart, h) =
    (omega (arith, within, length-set streams p s), apart, Distinct-set streams p s m h)

module _ (taken : Response → Response) (ec : ℕ) where
  -- The stream after its reset, with the call added.
  was_reset-calls :
      (t : Resetting) (p : ℕ) (s' : Stream) (o : Option Call)
      → (t' : Resetting) × (was_reset t p (s', ok o) ≡ (t', ok tt))
        × (t'.streams ≡ set t.streams p s')
        × (t'.calls ≡ t.calls ++ calls_of o)
  was_reset-calls t p s' none = (_, refl, refl, sym (append-nil t.calls))
  was_reset-calls t p s' (some c) = (_, refl, refl, refl)

  reset_all-answers :
      (m : List (ℕ × ℕ)) (t : Resetting)
      → Distinct t.streams m
      → (t' : Resetting) × (reset_all taken ec m t ≡ (t', ok tt))
        × (t'.calls ≡ t.calls ++ answers ec t.streams m)
  unfolding reset_all
  reset_all-answers [] t h = (t, refl, sym (append-nil t.calls))
  reset_all-answers ((id, p) ∷ m) t (within, apart, h) =
      let (s, e) = get_elem?-total t.streams p within in
      let (s', closed) = reset_answer taken ec s in
      let (t1, kept, streams, calls) = was_reset-calls t p s' (answer ec s) in
      let (t', done, rest) =
        reset_all-answers m t1
          (subst (λ x. Distinct x m) (sym streams) (Distinct-set t.streams p s' m h)) in
      (
        t',
        rw (ap pointed e, closed, kept) done,
        rest
            ∙ ap₂ (λ c x. c ++ answers ec x m) calls streams
            ∙ ap (λ x. (t.calls ++ calls_of (answer ec s)) ++ x)
                (answers-set ec t.streams p s' m apart)
            ∙ append_assoc t.calls (calls_of (answer ec s)) (answers ec t.streams m)
            ∙ ap (λ o. t.calls ++ (answer_at ec o ++ answers ec t.streams m)) (sym e),
      )

  -- Where the map's pointers lead to streams of their own, a reset returns, calls each of their
  -- handlers that wait once, in the order of the map, with the code and the response so far, and
  -- leaves no stream in the map or the queue.
  pub reset-answers :
      (r : Registry)
      → Distinct r.streams r.stream_map
      → (r' : Registry) × (reset taken ec r ≡ (r', ok (answers ec r.streams r.stream_map)))
        × (r'.stream_map ≡ [])
        × (r'.queue ≡ [])
  unfolding reset
  reset-answers r h =
      let (t, done, calls) =
        reset_all-answers r.stream_map (record { streams = r.streams; calls = [] }) h in
      (
        record { streams = t.streams; stream_map = []; queue = [] },
        ap (after_reset r) done
            ∙ ap (λ c. (record { streams = t.streams; stream_map = []; queue = [] }, ok c)) calls,
        refl,
        refl,
      )
