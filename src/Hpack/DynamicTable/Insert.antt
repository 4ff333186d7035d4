-- ===== src/Hpack/DynamicTable/Insert.antt =====
-- `insert` and `update_size`: the size accounting and what stays in the table.
use h2pp.Prelude.{
  ℕ, ◌+◌, ◌-◌, ◌^◌, ◌≤◌, ◌<◌, ◌≡◌, refl, ap, ◌∙◌, arith, inl, inr, List, [], ◌∷◌, ok, length, ltb,
  Bool-cases,
}
use h2pp.Hpack.DynamicTable.{
  Entry, DynamicTable, Shrunk, sub64, shrink_to, insert_impl, next_index, shrunk, required_size,
  insert, update_size,
}
use h2pp.Hpack.DynamicTable.Shrink.{total}
use h2pp.Hpack.DynamicTable.Evict.{kept_entries, Shrinks, shrink_to_fits, shrink_to-Shrinks}

-- The table's size is the sum of its entries' sizes and within the limit.
pub record WellFormed (t : DynamicTable) : Type 0 where
  pub sized : t.table_size ≡ total t.table
  pub within : t.table_size ≤ t.hpack_max_size
  pub limit : t.hpack_max_size < 2 ^ 63

-- The size of an entry for this name and value.
abbrev pub field_size : List ℕ → List ℕ → ℕ
field_size name value = length name + length value + 32

-- The entry that `insert_impl` puts in front of `rs`.
abbrev pub new_entry : List ℕ → List ℕ → List Entry → Entry
new_entry name value rs = record { name = name; value = value; init_index = next_index rs }

required-lt : (t : DynamicTable) (hsize : ℕ) → WellFormed t → required_size t hsize < 2 ^ 64
unfolding required_size
required-lt t hsize w = ground arith

required_keeps :
    (t : DynamicTable) (hsize : ℕ)
    → WellFormed t
    → hsize ≤ t.hpack_max_size
    → kept_entries (required_size t hsize) t.table ≡ kept_entries (t.hpack_max_size - hsize) t.table
unfolding required_size
required_keeps t hsize w h = elim (Bool-cases (ltb t.hpack_max_size (hsize + t.table_size))) [
  | inl over ↦
      let exact : sub64 t.hpack_max_size hsize ≡ t.hpack_max_size - hsize = omega arith in
      rw (over, exact) refl
  | inr fits ↦ rw fits (ground arith)
]

total-kept_entries-le : (rq : ℕ) (rs : List Entry) → total (kept_entries rq rs) ≤ rq
total-kept_entries-le rq rs = ground arith

pub insert_step :
    (t : DynamicTable) (name value : List ℕ) (s : Shrunk)
    → shrink_to t (required_size t (field_size name value)) ≡ ok s
    → insert t name value ≡ ok (insert_impl (shrunk t s) name value)
unfolding insert
insert_step t name value s e = rw e

-- What `insert` makes of the table `t` for an entry that fits on its own: the entry stands before
-- `kept_entries` of the room that it leaves, and the limit is the old one.
pub record Inserted (t : DynamicTable) (name value : List ℕ) (t' : DynamicTable) : Type 0 where
  pub front :
      t'.table
      ≡ new_entry name value (kept_entries (t.hpack_max_size - field_size name value) t.table)
        ∷ kept_entries (t.hpack_max_size - field_size name value) t.table
  pub same_limit : t'.hpack_max_size ≡ t.hpack_max_size
  pub well_formed : WellFormed t'

insert_impl-Inserted :
    (t : DynamicTable) (name value : List ℕ) (s : Shrunk)
    → WellFormed t
    → field_size name value ≤ t.hpack_max_size
    → s.left_size ≡ total s.kept
    → s.kept ≡ kept_entries (t.hpack_max_size - field_size name value) t.table
    → Inserted t name value (insert_impl (shrunk t s) name value)
unfolding insert_impl
insert_impl-Inserted t name value s w h size keeps =
    let room = total-kept_entries-le (t.hpack_max_size - field_size name value) t.table in
    let fits : total s.kept + field_size name value ≤ t.hpack_max_size =
      omega (arith, ap total keeps, room) in
    record {
      front = ap (λ rest. new_entry name value rest ∷ rest) keeps;
      same_limit = refl;
      well_formed = record {
        sized = omega (arith, w.limit);
        within = omega (arith, w.limit);
        limit = w.limit;
      };
    }

-- The call of `shrink_to` in `insert`.
pub required-Shrinks :
    (t : DynamicTable) (name value : List ℕ)
    → WellFormed t
    → (s : Shrunk) × (shrink_to t (required_size t (field_size name value)) ≡ ok s)
      × Shrinks (required_size t (field_size name value)) t.table s
required-Shrinks t name value w =
    shrink_to-Shrinks t (required_size t (field_size name value))
      (required-lt t (field_size name value) w) (omega (arith, w.within, w.limit)) w.sized

-- On a well-formed table, `insert` of an entry that fits the table on its own returns; the entry
-- goes before `kept_entries` of the room that it leaves, the limit stays and the table is well
-- formed again.
pub insert-Inserted :
    (t : DynamicTable) (name value : List ℕ)
    → WellFormed t
    → field_size name value ≤ t.hpack_max_size
    → (t' : DynamicTable) × (insert t name value ≡ ok t') × Inserted t name value t'
insert-Inserted t name value w h =
    let hsize = field_size name value in
    let (s, e, c) = required-Shrinks t name value w in
    (
      insert_impl (shrunk t s) name value,
      insert_step t name value s e,
      insert_impl-Inserted t name value s w h c.size (c.kept ∙ required_keeps t hsize w h),
    )

-- An entry larger than the limit is put in front of a table that keeps all its entries, and the
-- size of the table is then over its limit.
pub insert_oversized :
    (t : DynamicTable) (name value : List ℕ)
    → WellFormed t
    → t.hpack_max_size < field_size name value
    → field_size name value + t.table_size < 2 ^ 63
    → (t' : DynamicTable) × (insert t name value ≡ ok t')
      × (t'.table ≡ new_entry name value t.table ∷ t.table)
      × (t'.hpack_max_size ≡ t.hpack_max_size)
      × (t'.hpack_max_size < t'.table_size)
unfolding insert_impl
insert_oversized t name value w over bound =
    let all : Shrunk = record { kept = t.table; evicted = []; left_size = t.table_size } in
    (
      insert_impl (shrunk t all) name value,
      insert_step t name value all (
          shrink_to_fits t (required_size t (field_size name value))
            (unfold required_size in ground arith)),
      refl,
      refl,
      omega arith,
    )

update_step :
    (t : DynamicTable) (size : ℕ) (s : Shrunk)
    → shrink_to t size ≡ ok s
    → update_size t size ≡ ok (record (shrunk t s) { hpack_max_size = size })
unfolding update_size
update_step t size s e = rw e

-- On a well-formed table, `update_size` returns for every limit; it keeps `kept_entries` of the new
-- limit, and the table is well formed again.
pub update_size-WellFormed :
    (t : DynamicTable) (size : ℕ)
    → WellFormed t
    → size < 2 ^ 63
    → (t' : DynamicTable) × (update_size t size ≡ ok t')
      × (t'.table ≡ kept_entries size t.table)
      × (t'.hpack_max_size ≡ size)
      × WellFormed t'
update_size-WellFormed t size w h =
    let (s, e, c) =
      shrink_to-Shrinks t size (omega arith) (omega (arith, w.within, w.limit)) w.sized in
    (
      record (shrunk t s) { hpack_max_size = size },
      update_step t size s e,
      c.kept,
      refl,
      record { sized = c.size; within = c.room; limit = h },
    )
