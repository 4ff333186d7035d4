-- ===== src/Hpack/DynamicTable/History.antt =====
-- Sequences of insertions and limit changes.
use h2pp.Prelude.{ℕ, ◌^◌, ◌≤◌, ◌<◌, ◌≡◌, refl, arith, List, [], ◌∷◌, Result, ok, ◌>>=◌}
use h2pp.Hpack.DynamicTable.{DynamicTable, insert, update_size, empty}
use h2pp.Hpack.DynamicTable.Insert.{WellFormed, field_size, insert-Inserted, update_size-WellFormed}

-- Insertions and changes of the limit, one after the other.
pub data Operation : Type 0 where
  inserts : List ℕ → List ℕ → Operation
  updates : ℕ → Operation

unfoldable pub step : DynamicTable → Operation → Result DynamicTable
step t (inserts name value) = insert t name value
step t (updates size) = update_size t size

unfoldable pub run : DynamicTable → List Operation → Result DynamicTable
run t [] = ok t
run t (op ∷ ops) = do t' ← step t op; run t' ops

-- An operation that a table with this limit takes without growing over it; the limit after it.
abbrev pub Fits : ℕ → Operation → Type 0
Fits limit (inserts name value) = field_size name value ≤ limit
Fits limit (updates size) = size < 2 ^ 63

abbrev pub limit_after : ℕ → Operation → ℕ
limit_after limit (inserts name value) = limit
limit_after limit (updates size) = size

abbrev pub AllFit : ℕ → List Operation → Type 0
AllFit limit [] = Unit
AllFit limit (op ∷ ops) = Fits limit op × AllFit (limit_after limit op) ops

step-WellFormed :
    (t : DynamicTable) (op : Operation)
    → WellFormed t
    → Fits t.hpack_max_size op
    → (t' : DynamicTable) × (step t op ≡ ok t')
      × (t'.hpack_max_size ≡ limit_after t.hpack_max_size op)
      × WellFormed t'
unfolding step
step-WellFormed t (inserts name value) w h =
    let (t', e, i) = insert-Inserted t name value w h in (t', e, i.same_limit, i.well_formed)
step-WellFormed t (updates size) w h =
    let (t', e, k, l, w') = update_size-WellFormed t size w h in (t', e, l, w')

-- From a well-formed table, every sequence of limit changes and insertions of entries that fit the
-- limit of the moment runs to its end, without undefined behaviour, and ends in a well-formed table.
pub run-WellFormed :
    (t : DynamicTable) (ops : List Operation)
    → WellFormed t
    → AllFit t.hpack_max_size ops
    → (t' : DynamicTable) × (run t ops ≡ ok t') × WellFormed t'
unfolding run
run-WellFormed t [] w h = (t, refl, w)
run-WellFormed t (op ∷ ops) w (h, hs) =
    let (t', e, l, w') = step-WellFormed t op w h in
    let (u, r, wu) = run-WellFormed t' ops w' (rw l hs) in (u, rw e r, wu)

pub empty-WellFormed : (limit : ℕ) → limit < 2 ^ 63 → WellFormed (empty limit)
unfolding empty
empty-WellFormed limit h = record { sized = refl; within = omega arith; limit = h }
