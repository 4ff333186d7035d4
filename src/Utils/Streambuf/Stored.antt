-- ===== src/Utils/Streambuf/Stored.antt =====
-- What lib/utils/streambuf.cpp stores.
use h2pp.Prelude.{
  ℕ, zero, suc, ◌+◌, ◌≤◌, ◌<◌, List, [], ◌∷◌, ◌++◌, append_assoc, append-nil, length, length-drop,
  take, drop, take-append-drop, min, some, Bool-cases, ◌==◌, ◌≡◌, inl, inr, refl, sym, ap, ◌∙◌, All,
  arith,
}
use h2pp.Utils.Buffer.{Buffer, buffer, prepared, write, commit, data_view}
use h2pp.Utils.Buffer.View.{IsBuffer, written, length-take_le}
use h2pp.Utils.Streambuf.{check_size, fill, push_loop, push_back}

-- All bytes stored, in their order.
abbrev pub contents : List Buffer → List ℕ
contents [] = []
contents (b ∷ bs) = contents bs ++ data_view b

-- A buffer of the deque: with room for a byte at least, in use or not.
pub record IsSlice (b : Buffer) : Type 0 where
  pub is_buffer : IsBuffer b
  pub nonempty : 0 < b.maxsize

abbrev pub IsStreambuf : List Buffer → Type 0
IsStreambuf bs = All IsSlice bs

-- The deque after `check_size`: it stores what it stored, and its last buffer has room.
data Ready (old : List Buffer) : List Buffer → Type 0 where
  ready :
      (last : Buffer) (bs : List Buffer)
      → IsStreambuf (last ∷ bs)
      → 0 < prepared last
      → contents (last ∷ bs) ≡ contents old
      → Ready old (last ∷ bs)

-- What `fill` makes of a deque: it moves bytes, one at least, from the source behind those stored.
record Filled (old : List Buffer) (src : List ℕ) (after : List Buffer × List ℕ) : Type 0 where
  same_bytes : contents after.0 ++ after.1 ≡ contents old ++ src
  shorter : length after.1 < length src
  still_slices : IsStreambuf after.0

fill-Filled :
    (last : Buffer) (bs : List Buffer) (src : List ℕ)
    → IsStreambuf (last ∷ bs)
    → 0 < prepared last
    → 0 < length src
    → Filled (last ∷ bs) src (fill (last ∷ bs) src)
unfolding fill commit data_view
fill-Filled last bs src (slice, all) room pos = rw all_committed (record {
  same_bytes =
      ap (λ v. (contents bs ++ v) ++ drop n src) seen
      ∙ regroup (contents bs) (take last.offset last.memory) (take n src) (drop n src)
      ∙ ap (λ s. (contents bs ++ take last.offset last.memory) ++ s) (take-append-drop n src);
  shorter = omega (arith, length-drop n src);
  still_slices = (record { is_buffer = still; nonempty = slice.nonempty }, all);
})
  where
    n : ℕ
    n = min (length src) (prepared last)

    all_committed : min (prepared last) n ≡ n
    all_committed = omega arith

    both :
        (take (last.offset + n) (write last.offset (take n src) last.memory)
          ≡ take last.offset last.memory ++ take n src)
        × IsBuffer (record last {
          memory = write last.offset (take n src) last.memory;
          offset = last.offset + n;
        })
    both =
        written last (take n src) n slice.is_buffer (length-take_le n src (omega arith))
          (omega arith)

    seen :
        take (last.offset + n) (write last.offset (take n src) last.memory)
        ≡ take last.offset last.memory ++ take n src
    seen = both.0

    still : IsBuffer (record last {
      memory = write last.offset (take n src) last.memory;
      offset = last.offset + n;
    })
    still = both.1

    regroup : (a b c d : List ℕ) → (a ++ (b ++ c)) ++ d ≡ (a ++ b) ++ (c ++ d)
    regroup a b c d = simp append_assoc

module _ (fresh : ℕ → List ℕ) (allocates : (n : ℕ) → length (fresh n) ≡ n) where
  buffer-IsSlice : (size : ℕ) → 0 < size → IsSlice (buffer fresh size)
  unfolding buffer
  buffer-IsSlice size pos = record {
    is_buffer = record { within = omega arith; allocated = allocates size };
    nonempty = pos;
  }

  check_size-Ready :
      (bs : List Buffer) (sz : ℕ) → IsStreambuf bs → Ready bs (check_size fresh bs sz)
  unfolding check_size buffer data_view
  check_size-Ready [] sz all = ready _ [] (buffer-IsSlice _ (omega arith), tt) (omega arith) refl
  check_size-Ready (last ∷ bs) sz (slice, all) = elim (Bool-cases (prepared last == 0)) [
    | inl t ↦ rw t (
        ready _ (last ∷ bs) (buffer-IsSlice _ (omega (arith, slice.nonempty)), (slice, all))
          (omega (arith, slice.nonempty)) (append-nil _))
    | inr f ↦ rw f (ready last bs (slice, all) (ground arith) refl)
  ]

  turn :
      (bs : List Buffer) (src : List ℕ)
      → IsStreambuf bs
      → 0 < length src
      → (old : List Buffer) × Filled old src (fill (check_size fresh bs (length src)) src)
        × (contents old ≡ contents bs)
  turn bs src all pos = turned (check_size-Ready bs (length src) all)
    where
      turned :
          {old : List Buffer}
          → Ready bs old
          → (old' : List Buffer) × Filled old' src (fill old src) × (contents old' ≡ contents bs)
      turned (ready last rest slices room same) =
          (last ∷ rest, fill-Filled last rest src slices room pos, same)

  -- With fuel for every byte the loop ends, and adds all bytes to those stored.
  push_loop-contents :
      (fuel : ℕ) (bs : List Buffer) (src : List ℕ)
      → length src ≤ fuel
      → IsStreambuf bs
      → (bs' : List Buffer) × (push_loop fuel fresh bs src ≡ some bs')
        × (contents bs' ≡ contents bs ++ src)
        × IsStreambuf bs'
  unfolding push_loop
  push_loop-contents fuel bs [] enough all = (bs, refl, sym (append-nil _), all)
  push_loop-contents zero bs (b ∷ src) enough all = absurd (omega (arith, enough))
  push_loop-contents (suc fuel) bs (b ∷ src) enough all =
      let (old, filled, same) = turn bs (b ∷ src) all (omega arith) in
      let (bs', ended, stored, slices) =
        push_loop-contents fuel _ _ (omega (arith, filled.shorter)) filled.still_slices in
      (bs', ended, stored ∙ filled.same_bytes ∙ ap (λ c. c ++ (b ∷ src)) same, slices)

-- On a well-formed deque, where a new buffer has as many bytes as asked for, `push_back` ends and
-- adds the bytes of the span behind those stored, and leaves a well-formed deque.
pub push_back-contents :
    (fresh : ℕ → List ℕ) (bs : List Buffer) (src : List ℕ)
    → ((n : ℕ) → length (fresh n) ≡ n)
    → IsStreambuf bs
    → (bs' : List Buffer) × (push_back fresh bs src ≡ some bs')
      × (contents bs' ≡ contents bs ++ src)
      × IsStreambuf bs'
unfolding push_back
push_back-contents fresh bs src allocates all =
    push_loop-contents fresh allocates (length src) bs src (omega arith) all
