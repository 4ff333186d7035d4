-- ===== src/Hpack/IndexedTable/Examples.antt =====
-- The encoder's table with a sorted list for the set.
use h2pp.Prelude.{List, [], ◌∷◌, Bool, Option, none, some, ok, ◌≡◌, arith, if◌then◌else◌}
use h2pp.Hpack.DynamicTable.{Entry, empty}
use h2pp.Hpack.DynamicTable as Dynamic
use h2pp.Hpack.DynamicTable.History.{empty-WellFormed}
use h2pp.Hpack.IndexedTable.{OrderedSet, IndexedTable, insert}
use h2pp.Hpack.IndexedTable.Agree.{insert_agrees}

abbrev pub sorted_insert : (Entry → Entry → Bool) → Entry → List Entry → List Entry
sorted_insert less r [] = r ∷ []
sorted_insert less r (x ∷ xs) =
    if less r x then r ∷ x ∷ xs else if less x r then x ∷ sorted_insert less r xs else x ∷ xs

abbrev pub sorted_erase : (Entry → Entry → Bool) → Entry → List Entry → List Entry
sorted_erase less r [] = []
sorted_erase less r (x ∷ xs) =
    if less r x then x ∷ xs else if less x r then x ∷ sorted_erase less r xs else xs

abbrev pub first_not : (Entry → Bool) → List Entry → Option Entry
first_not less [] = none
first_not less (x ∷ xs) = if less x then first_not less xs else some x

abbrev pub sorted_list : OrderedSet
sorted_list = record {
  set_insert = sorted_insert;
  set_erase = sorted_erase;
  lower_bound = first_not;
}

abbrev pub new_table : IndexedTable
new_table = record { base = empty 4096; index_set = [] }

insert_agrees_example :
    (t' : IndexedTable) × (insert sorted_list new_table (b'a' ∷ []) (b'b' ∷ []) ≡ ok t')
    × (Dynamic.insert (empty 4096) (b'a' ∷ []) (b'b' ∷ []) ≡ ok t'.base)
unfolding empty
insert_agrees_example =
    insert_agrees sorted_list new_table (b'a' ∷ []) (b'b' ∷ [])
      (empty-WellFormed 4096 (omega arith)) (omega arith)
