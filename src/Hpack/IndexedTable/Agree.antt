-- ===== src/Hpack/IndexedTable/Agree.antt =====
-- The encoder's table of lib/hpack/indexed_dynamic_table.cpp beside the decoder's of dynamic_table.cpp.
use h2pp.Prelude.{
  ℕ, ◌+◌, ◌-◌, ◌≤◌, List, Result, ok, ◌>>=◌, first_returned, ◌≡◌, refl, ap, ◌∙◌, Bool-cases, true,
  false, inl, inr, ltb, leb, if◌then◌else◌, arith,
}
use h2pp.Hpack.DynamicTable.{
  Entry, DynamicTable, Shrunk, shrink_to, shrunk, sub64, required_size, insert_impl,
}
use h2pp.Hpack.DynamicTable as Dynamic
use h2pp.Hpack.DynamicTable.Insert.{WellFormed, field_size, insert_step, required-Shrinks}
use h2pp.Hpack.IndexedTable.{
  OrderedSet, IndexedTable, insert, update_size, record_less, front_entry, erase_all,
}

-- The sizes that the two tables ask for shrink a table in the same way, for an entry that fits.
same_shrink :
    (t : DynamicTable) (hsize : ℕ)
    → WellFormed t
    → hsize ≤ t.hpack_max_size
    → shrink_to t (if ltb t.hpack_max_size hsize then 0 else t.hpack_max_size - hsize)
      ≡ shrink_to t (required_size t hsize)
unfolding shrink_to required_size
same_shrink t hsize w h = elim (Bool-cases (ltb t.hpack_max_size (hsize + t.table_size))) [
  | inl over ↦ rw (over, fits) (ap (shrink_to t) difference)
  | inr room ↦
      rw
        (
          room,
          fits,
          stays (t.hpack_max_size - hsize) (ground arith),
          stays (hsize + t.table_size) (omega arith),
        )
        refl
]
  where
    fits : ltb t.hpack_max_size hsize ≡ false
    fits = ground (arith, h)

    difference : t.hpack_max_size - hsize ≡ sub64 t.hpack_max_size hsize
    difference = omega (arith, w.limit, h)

    stays : (n : ℕ) → t.table_size ≤ n → leb t.table_size n ≡ true
    stays n k = ground (arith, k)

-- An entry that fits on its own makes the same of the encoder's table as of the decoder's: the
-- insertion returns in both, and the records and the sizes are the same.
pub insert_agrees :
    (set : OrderedSet) (t : IndexedTable) (name value : List ℕ)
    → WellFormed t.base
    → field_size name value ≤ t.base.hpack_max_size
    → (t' : IndexedTable) × (insert set t name value ≡ ok t')
      × (Dynamic.insert t.base name value ≡ ok t'.base)
unfolding insert
insert_agrees set t name value w h =
    let (s, e, shrinks) = required-Shrinks t.base name value w in
    let same = same_shrink t.base (field_size name value) w h ∙ e in
    (inserted s, rw (same) refl, insert_step t.base name value s e)
  where
    inserted : Shrunk → IndexedTable
    inserted s = record {
      base = insert_impl (shrunk t.base s) name value;
      index_set =
          set.set_insert record_less (front_entry set (shrunk t.base s) name value)
            (erase_all set s.evicted t.index_set);
    }

-- A change of the limit makes the same of the encoder's table as of the decoder's, wherever it returns.
pub update_size_agrees :
    (set : OrderedSet) (t t' : IndexedTable) (size : ℕ)
    → update_size set t size ≡ ok t'
    → Dynamic.update_size t.base size ≡ ok t'.base
unfolding update_size Dynamic.update_size
update_size_agrees set t t' size e =
    let (s, es, e1) = first_returned _ (shrink_to t.base size) e in
    rw (es) (ap (λ (r : Result IndexedTable). do u ← r; ok u.base) e1)
