-- ===== src/Hpack/DynamicTable/Examples.antt =====
-- Runs of the dynamic table, and its theorems at such inputs.
use h2pp.Prelude.{ℕ, ◌≡◌, ◌≢◌, refl, arith, List, [], ◌∷◌, ok, inr}
use h2pp.Hpack.DynamicTable.{
  Entry, DynamicTable, Shrunk, empty, shrink_loop, shrink_to, insert, insert_impl, required_size,
  update_size,
}
use h2pp.Hpack.DynamicTable.Evict.{Shrinks, shrink_to-Shrinks, fitting}
use h2pp.Hpack.DynamicTable.Insert.{WellFormed, new_entry}
use h2pp.Hpack.DynamicTable.Rfc.{update_size_overevicts, insert-fitting}
use h2pp.Hpack.DynamicTable.History.{inserts, updates, run, run-WellFormed}

abbrev entry : ℕ → ℕ → Entry
entry letter index = record { name = letter ∷ []; value = letter ∷ []; init_index = index }

-- Two entries of 34 bytes each, under a limit of 80.
abbrev two_entries : DynamicTable
two_entries = record {
  table_size = 68;
  hpack_max_size = 80;
  table = entry b'b' 1 ∷ entry b'a' 0 ∷ [];
}

two_entries-WellFormed : WellFormed two_entries
two_entries-WellFormed = record { sized = refl; within = omega arith; limit = omega arith }

-- A limit of 40 leaves room for one entry of 34 bytes, and the table is emptied.
update_to_40 :
    update_size two_entries 40 ≡ ok (record { table_size = 0; hpack_max_size = 40; table = [] })
unfolding update_size shrink_to shrink_loop
update_to_40 = refl

update_to_34 :
    update_size two_entries 34
    ≡ ok (record { table_size = 34; hpack_max_size = 34; table = entry b'b' 1 ∷ [] })
unfolding update_size shrink_to shrink_loop
update_to_34 = refl

shrink_to-Shrinks_example :
    (s : Shrunk) × (shrink_to two_entries 40 ≡ ok s) × Shrinks 40 two_entries.table s
shrink_to-Shrinks_example = shrink_to-Shrinks two_entries 40 (omega arith) (omega arith) refl

-- An entry of 46 bytes beside one of 34 fills the table of 80 bytes exactly.
abbrev twelve : List ℕ
twelve = 1 ∷ 2 ∷ 3 ∷ 4 ∷ 5 ∷ 6 ∷ 7 ∷ 8 ∷ 9 ∷ 10 ∷ 11 ∷ 12 ∷ []

abbrev full_table : DynamicTable
full_table = record {
  table_size = 80;
  hpack_max_size = 80;
  table = record { name = twelve; value = 1 ∷ 2 ∷ []; init_index = 2 } ∷ entry b'b' 1 ∷ [];
}

fills_exactly : insert two_entries twelve (1 ∷ 2 ∷ []) ≡ ok full_table
unfolding insert shrink_to shrink_loop insert_impl required_size
fills_exactly = refl

insert-fitting_example :
    full_table.table
    ≡ new_entry twelve (1 ∷ 2 ∷ []) (fitting 34 two_entries.table) ∷ fitting 34 two_entries.table
insert-fitting_example =
    insert-fitting two_entries full_table twelve (1 ∷ 2 ∷ []) two_entries-WellFormed (omega arith)
      (inr (unfold fitting in refl)) fills_exactly

update_size_overevicts_example :
    (t : DynamicTable) × (update_size two_entries 40 ≡ ok t)
    × (t.table ≡ [])
    × (t.table ≢ fitting 40 two_entries.table)
update_size_overevicts_example =
    update_size_overevicts two_entries 40 two_entries-WellFormed (omega arith) (omega arith)
      (unfold fitting in λ e. cc) (unfold fitting in omega arith)

run-WellFormed_example :
    (t : DynamicTable) × (run
        (empty 4096)
        (inserts twelve [] ∷ updates 40 ∷ updates 100 ∷ inserts [] [] ∷ [])
      ≡ ok t)
    × WellFormed t
unfolding empty
run-WellFormed_example =
    run-WellFormed (empty 4096) (inserts twelve [] ∷ updates 40 ∷ updates 100 ∷ inserts [] [] ∷ [])
      (record { sized = refl; within = omega arith; limit = omega arith }) (omega arith)
