-- ===== src/Utils/Buffer/View.antt =====
-- What a consumer sees of a buffer of lib/utils/buffer.h.
use h2pp.Prelude.{
  ℕ, zero, suc, ◌+◌, ◌-◌, ◌≤◌, List, [], ◌∷◌, ◌++◌, append_assoc, length, length-append,
  length-take, length-drop, take, drop, take-append, min, true, false, Bool-cases, not, ◌&&◌, ltb,
  ◌==◌, ◌≡◌, inl, inr, refl, sym, ap, ◌∙◌, arith,
}
use h2pp.Utils.Buffer.{Buffer, prepared, write, commit_span, data_view, consume}

-- The bytes written are within the slice.
pub record IsBuffer (b : Buffer) : Type 0 where
  pub within : b.offset ≤ b.maxsize
  pub allocated : length b.memory ≡ b.maxsize

take-prefix : (front rest : List ℕ) (n : ℕ) → length front ≡ n → take n (front ++ rest) ≡ front
take-prefix front rest n e = rw (sym e, take-append front rest)

min-le : (a b : ℕ) → a ≤ b → min a b ≡ a
min-le a b h = omega arith

pub length-take_le : (n : ℕ) (xs : List ℕ) → n ≤ length xs → length (take n xs) ≡ n
length-take_le n xs h = omega (arith, length-take n xs)

pub take-write :
    (at : ℕ) (src memory : List ℕ)
    → at + length src ≤ length memory
    → take (at + length src) (write at src memory) ≡ take at memory ++ src
take-write at src memory fits =
    ap (take (at + length src)) (sym (append_assoc (take at memory) src _))
    ∙ take-prefix (take at memory ++ src) _ (at + length src)
        (omega (arith, length-append (take at memory) src, length-take at memory))

pub length-write :
    (at : ℕ) (src memory : List ℕ)
    → at + length src ≤ length memory
    → length (write at src memory) ≡ length memory
length-write at src memory fits = omega (
  arith,
  length-append (take at memory) (src ++ drop (at + length src) memory),
  length-append src (drop (at + length src) memory),
  length-take at memory,
  length-drop (at + length src) memory,
)

-- Bytes that fit, written behind those the consumer sees.
pub written :
    (b : Buffer) (src : List ℕ) (n : ℕ)
    → IsBuffer b
    → length src ≡ n
    → n ≤ prepared b
    → (take (b.offset + n) (write b.offset src b.memory) ≡ take b.offset b.memory ++ src)
      × IsBuffer (record b { memory = write b.offset src b.memory; offset = b.offset + n })
written b src n is_buffer len room = (
  ap (λ k. take (b.offset + k) (write b.offset src b.memory)) (sym len)
      ∙ take-write b.offset src b.memory
          (omega (arith, is_buffer.within, is_buffer.allocated, len)),
  record {
    within = omega (arith, is_buffer.within);
    allocated =
        length-write b.offset src b.memory
          (omega (arith, is_buffer.within, is_buffer.allocated, len))
        ∙ is_buffer.allocated;
  },
)

-- On a well-formed buffer, `commit` of a span adds as many of its first bytes as the buffer has room
-- for to what the consumer sees, returns their count, and leaves a well-formed buffer.
pub data_view-commit_span :
    (b : Buffer) (span : List ℕ)
    → IsBuffer b
    → (data_view (commit_span b span).0 ≡ data_view b ++ take (commit_span b span).1 span)
      × IsBuffer (commit_span b span).0
      × ((commit_span b span).1 ≡ min (b.maxsize - b.offset) (length span))
unfolding data_view commit_span
data_view-commit_span b span is_buffer =
    let (seen, still) =
      written b (take n span) n is_buffer (length-take_le n span (omega arith)) (omega arith) in
    (seen, still, refl)
  where
    n : ℕ
    n = min (prepared b) (length span)

take-nil : (n : ℕ) → take {A = ℕ} n [] ≡ []
take-nil zero = refl
take-nil (suc n) = refl

pub drop-take : (c o : ℕ) (xs : List ℕ) → drop c (take o xs) ≡ take (o - c) (drop c xs)
drop-take zero o xs = ap (λ n. take n xs) (sym (minus_zero o))
  where
    minus_zero : (o : ℕ) → o - 0 ≡ o
    minus_zero o = omega arith
drop-take (suc c) zero xs = ap (λ n. take n (drop (suc c) xs)) (sym (zero_minus c))
  where
    zero_minus : (c : ℕ) → 0 - suc c ≡ 0
    zero_minus c = omega arith
drop-take (suc c) (suc o) [] = sym (take-nil (suc o - suc c))
drop-take (suc c) (suc o) (x ∷ xs) =
    drop-take c o xs ∙ ap (λ n. take n (drop c xs)) (sym (minus_suc o c))
  where
    minus_suc : (o c : ℕ) → suc o - suc c ≡ o - c
    minus_suc o c = omega arith

-- The bytes behind the first `n` moved to the front.
moved :
    (o n : ℕ) (memory : List ℕ)
    → n ≤ o
    → o ≤ length memory
    → (take (o - n) (write 0 (take (o - n) (drop n memory)) memory) ≡ drop n (take o memory))
      × (length (write 0 (take (o - n) (drop n memory)) memory) ≡ length memory)
moved o n memory le fits = (
  ap (λ k. take k (write 0 src memory)) (sym len)
      ∙ take-write 0 src memory room
      ∙ sym (drop-take n o memory),
  length-write 0 src memory room,
)
  where
    src : List ℕ
    src = take (o - n) (drop n memory)

    len : 0 + length src ≡ o - n
    len = omega (arith, length-take (o - n) (drop n memory), length-drop n memory)

    room : 0 + length src ≤ length memory
    room = omega (arith, len)

kept :
    (o count : ℕ) (memory : List ℕ)
    → (not (min o count == 0) && ltb (min o count) o) ≡ false
    → take (o - min o count) memory ≡ drop count (take o memory)
kept o zero memory stays = ap (λ k. take k memory) (all_left o) ∙ sym (drop-take 0 o memory)
  where
    all_left : (o : ℕ) → o - min o 0 ≡ o - 0
    all_left o = omega arith
kept o (suc c) memory stays =
    ap (λ k. take k memory) nothing
    ∙ ap (λ k. take k (drop (suc c) memory)) (sym none_left)
    ∙ sym (drop-take (suc c) o memory)
  where
    nothing : o - min o (suc c) ≡ 0
    nothing = ground arith

    none_left : o - suc c ≡ 0
    none_left = ground arith

-- On a well-formed buffer, `consume` removes the first bytes of what the consumer sees, as many as
-- asked for or all, and leaves a well-formed buffer.
pub data_view-consume :
    (b : Buffer) (count : ℕ)
    → IsBuffer b
    → (data_view (consume b count) ≡ drop count (data_view b)) × IsBuffer (consume b count)
unfolding data_view consume
data_view-consume b count is_buffer = elim (Bool-cases (not (n == 0) && ltb n b.offset)) [
  | inl t ↦
      (let (seen, len) =
          moved b.offset n b.memory (omega arith)
            (omega (arith, is_buffer.within, is_buffer.allocated)) in
        rw t (
          seen ∙ ap (λ k. drop k (take b.offset b.memory)) (partly t),
          record {
            within = omega (arith, is_buffer.within);
            allocated = len ∙ is_buffer.allocated;
          },
        ))
  | inr f ↦ rw f (
    kept b.offset count b.memory f,
    record { within = omega (arith, is_buffer.within); allocated = is_buffer.allocated },
  )
]
  where
    n : ℕ
    n = min b.offset count

    partly : (not (n == 0) && ltb n b.offset) ≡ true → n ≡ count
    partly t = ground arith
