-- ===== src/Hpack/DynamicTable/Evict.antt =====
-- `shrink_to` against the eviction of RFC 7541, section 4.3: entries leave from the end of the table
-- until its size is at most the requested one.
use mathlib.Core.List.{reverse, reverse-reverse, reverse-append}
use h2pp.Prelude.{
  ℕ, ◌+◌, ◌-◌, ◌^◌, ◌≤◌, ◌<◌, ◌≡◌, ◌≢◌, refl, sym, ap, ◌∙◌, arith, ◌⊎◌, inl, inr, List, [], ◌∷◌,
  ◌++◌, ok, append-nil, leb, leb→le, Bool-cases, if◌then◌else◌, ◌==◌,
}
use h2pp.Hpack.DynamicTable.{Entry, hpack_size, DynamicTable, Shrunk, shrink_loop, shrink_to}
use h2pp.Hpack.DynamicTable.Shrink.{
  total, total-append, total-reverse, cut_exact, cut_exact_skip, cut_exact_take, Cut,
  shrink_loop-Cut,
}

-- The longest front of the table whose size is at most `size`: what RFC 7541 keeps.
unfoldable pub fitting : ℕ → List Entry → List Entry
fitting size [] = []
fitting size (r ∷ rs) = if leb (hpack_size r) size then r ∷ fitting (size - hpack_size r) rs else []

pub fitting_all : (size : ℕ) (rs : List Entry) → total rs ≤ size → fitting size rs ≡ rs
unfolding fitting
fitting_all size [] h = refl
fitting_all size (r ∷ rs) h = ground (arith, fitting_all (size - hpack_size r) rs)

pub fitting_front : (xs ys : List Entry) → fitting (total xs) (xs ++ ys) ≡ xs
unfolding fitting
fitting_front [] [] = refl
fitting_front [] (y ∷ ys) = ground arith
fitting_front (x ∷ xs) ys = ground (arith, fitting_front xs ys, cancel)
  where
    cancel : hpack_size x + total xs - hpack_size x ≡ total xs
    cancel = omega arith

pub fitting_split :
    (size : ℕ) (rs : List Entry) → (back : List Entry) × (rs ≡ fitting size rs ++ back)
unfolding fitting
fitting_split size [] = ([], refl)
fitting_split size (r ∷ rs) = elim (Bool-cases (leb (hpack_size r) size)) [
  | inl fits ↦
      let (back, e) = fitting_split (size - hpack_size r) rs in (back, rw fits (ap (◌∷◌ r) e))
  | inr full ↦ (r ∷ rs, rw full refl)
]

cut_exact_at :
    (z : Entry) (zs front : List Entry) → cut_exact (total front) ((z ∷ zs) ++ front) ≡ front
cut_exact_at z [] front = cut_exact_take (total front) z front refl
cut_exact_at z (y ∷ zs) front =
    cut_exact_skip (total front) z ((y ∷ zs) ++ front) (omega (arith, total-append zs front))
    ∙ cut_exact_at y zs front

abbrev Exact : ℕ → List Entry → List Entry → Type 0
Exact rq rs cut = (total cut ≡ rq) × ((front : List Entry) × (rs ≡ front ++ cut))

cut_exact_cases :
    (rq : ℕ) (rs : List Entry) → (cut_exact rq rs ≡ []) ⊎ Exact rq rs (cut_exact rq rs)
cut_exact_cases rq [] = inl (unfold cut_exact in refl)
cut_exact_cases rq (r ∷ rs) = elim (Bool-cases (total rs == rq)) [
  | inl hit ↦
      let h : total rs ≡ rq = ground arith in
      rw (cut_exact_take rq r rs h) (inr (h, (r ∷ [], refl)))
  | inr miss ↦ rw (cut_exact_skip rq r rs (ground arith)) (elim (cut_exact_cases rq rs) [
    | inl none_fits ↦ inl none_fits
    | inr (e, (front, split)) ↦ inr (e, (r ∷ front, ap (◌∷◌ r) split))
  ])
]

-- The cut of the loop, from the front: it is exact, or everything goes.
abbrev pub kept_entries : ℕ → List Entry → List Entry
kept_entries size rs =
    if leb (total rs) size
    then rs
    else if total (fitting size rs) == size
    then fitting size rs
    else []

cut_exact_behind :
    (zs front : List Entry) → 0 < total zs → cut_exact (total front) (zs ++ front) ≡ front
cut_exact_behind [] front h = absurd (omega arith)
cut_exact_behind (z ∷ zs) front h = cut_exact_at z zs front

cut_exact_front :
    (xs ys : List Entry) → 0 < total ys → reverse (cut_exact (total xs) (reverse (xs ++ ys))) ≡ xs
cut_exact_front xs ys h =
    rw (reverse-append xs ys, ← total-reverse xs)
      (ap reverse (cut_exact_behind (reverse ys) (reverse xs) (omega (arith, total-reverse ys)))
        ∙ reverse-reverse xs)

cut_of_split :
    (size : ℕ) (rs front back : List Entry)
    → rs ≡ front ++ back
    → total front ≡ size
    → size < total rs
    → reverse (cut_exact size (reverse rs)) ≡ front
cut_of_split size rs front back s e h =
    let behind : 0 < total back = omega (arith, total-append front back, ap total s) in
    rw (s, ← e) (cut_exact_front front back behind)

fitting_of_cut :
    (size : ℕ) (rs cut front : List Entry)
    → reverse rs ≡ front ++ cut
    → total cut ≡ size
    → fitting size rs ≡ reverse cut
fitting_of_cut size rs cut front s e =
    let split : rs ≡ reverse cut ++ reverse front =
      sym (reverse-reverse rs) ∙ ap reverse s ∙ reverse-append front cut in
    rw (split, ← e, ← total-reverse cut) (fitting_front (reverse cut) (reverse front))

cut_of_exact :
    (size : ℕ) (rs : List Entry)
    → size < total rs
    → total (fitting size rs) ≡ size
    → reverse (cut_exact size (reverse rs)) ≡ fitting size rs
cut_of_exact size rs h e =
    let (back, s) = fitting_split size rs in cut_of_split size rs (fitting size rs) back s e h

cut_of_miss :
    (size : ℕ) (rs : List Entry) → total (fitting size rs) ≢ size → cut_exact size (reverse rs) ≡ []
cut_of_miss size rs h = elim (cut_exact_cases size (reverse rs)) [
  | inl e ↦ e
  | inr (e, (front, s)) ↦
      let c = cut_exact size (reverse rs) in
      absurd (h (ap total (fitting_of_cut size rs c front s e) ∙ total-reverse c ∙ e))
]

cut_exact-fitting :
    (size : ℕ) (rs : List Entry)
    → size < total rs
    → reverse (cut_exact size (reverse rs)) ≡ kept_entries size rs
cut_exact-fitting size rs h = elim (Bool-cases (total (fitting size rs) == size)) [
  | inl exact ↦ cut_of_exact size rs h (ground arith) ∙ ground arith
  | inr miss ↦ ap reverse (cut_of_miss size rs (ground arith)) ∙ ground arith
]

nonempty_reverse :
    (rs : List Entry)
    → 0 < total rs
    → (r : Entry) × (before : List Entry) × (reverse rs ≡ r ∷ before)
nonempty_reverse rs h = go (reverse rs) refl
  where
    go :
        (xs : List Entry)
        → reverse rs ≡ xs
        → (r : Entry) × (before : List Entry) × (reverse rs ≡ r ∷ before)
    go [] e = absurd (omega (arith, total-reverse rs, ap total e))
    go (r ∷ before) e = (r, before, e)

-- What `shrink_to` leaves of the table `rs`: nothing is lost or reordered, the size is the sum of the
-- sizes of the entries that stay and at most the one requested, and those are `kept_entries`.
pub record Shrinks (rq : ℕ) (rs : List Entry) (s : Shrunk) : Type 0 where
  pub kept : s.kept ≡ kept_entries rq rs
  pub split : s.kept ++ s.evicted ≡ rs
  pub size : s.left_size ≡ total s.kept
  pub room : s.left_size ≤ rq

total-kept_entries-le : (rq : ℕ) (rs : List Entry) → total (kept_entries rq rs) ≤ rq
total-kept_entries-le rq rs = ground arith

Shrinks-of_Cut :
    (r : Entry) (before rs : List Entry) (rq : ℕ) (s : Shrunk)
    → reverse rs ≡ r ∷ before
    → rq < total rs
    → Cut (r ∷ before) [] rq s
    → Shrinks rq rs s
Shrinks-of_Cut r before rs rq s e h c = record {
  kept = kept';
  split = c.split ∙ append-nil (reverse (r ∷ before)) ∙ ap reverse (sym e) ∙ reverse-reverse rs;
  size = c.left;
  room = omega (arith, c.left, ap total kept', total-kept_entries-le rq rs);
}
  where
    kept' : s.kept ≡ kept_entries rq rs
    kept' = c.cut ∙ ap (λ x. reverse (cut_exact rq x)) (sym e) ∙ cut_exact-fitting rq rs h

total_of_reverse :
    (r : Entry) (before rs : List Entry) → reverse rs ≡ r ∷ before → total rs ≡ total (r ∷ before)
total_of_reverse r before rs e = sym (total-reverse rs) ∙ ap total e

shrink_to_over :
    (t : DynamicTable) (rq : ℕ)
    → rq < t.table_size
    → shrink_to t rq ≡ shrink_loop (reverse t.table) [] (t.table_size - rq) t.table_size
unfolding shrink_to
shrink_to_over t rq h = ground arith

pub shrink_to_fits :
    (t : DynamicTable) (rq : ℕ)
    → t.table_size ≤ rq
    → shrink_to t rq ≡ ok (record { kept = t.table; evicted = []; left_size = t.table_size })
unfolding shrink_to
shrink_to_fits t rq h = ground arith

-- On a table whose size is the sum of its entries, `shrink_to` returns for every requested size, and
-- keeps `kept_entries`: all entries if they fit, else the longest front that fits if it fills the
-- requested size exactly, else none. Nothing is lost or reordered, and the new size is the sum of
-- the sizes of the kept entries and at most the requested size.
pub shrink_to-Shrinks :
    (t : DynamicTable) (rq_size : ℕ)
    → rq_size < 2 ^ 64
    → t.table_size < 2 ^ 64
    → t.table_size ≡ total t.table
    → (s : Shrunk) × (shrink_to t rq_size ≡ ok s) × Shrinks rq_size t.table s
shrink_to-Shrinks t rq hq hw hs = elim (Bool-cases (leb t.table_size rq)) [
  | inl fits ↦ (
    record { kept = t.table; evicted = []; left_size = t.table_size },
    shrink_to_fits t rq (leb→le _ _ fits),
    record { kept = ground arith; split = append-nil t.table; size = hs; room = leb→le _ _ fits },
  )
  | inr over ↦ over_case (nonempty_reverse t.table (ground arith)) (ground arith)
]
  where
    over_case :
        ((r : Entry) × (before : List Entry) × (reverse t.table ≡ r ∷ before))
        → rq < t.table_size
        → (s : Shrunk) × (shrink_to t rq ≡ ok s) × Shrinks rq t.table s
    over_case (r, before, e) h =
        let (s, run, c) =
          shrink_loop-Cut r before [] rq (t.table_size - rq) t.table_size hq
            (hs ∙ total_of_reverse r before t.table e) hw (omega arith) in
        (
          s,
          shrink_to_over t rq h ∙ rw e run,
          Shrinks-of_Cut r before t.table rq s e (omega arith) c,
        )
