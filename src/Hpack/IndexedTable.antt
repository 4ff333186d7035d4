-- ===== src/Hpack/IndexedTable.antt =====
-- lib/hpack/indexed_dynamic_table.h and indexed_dynamic_table.cpp. The set of pointers is a
-- `std::set`, which is a parameter; a pointer is the record that it points to.
pub mod Agree
pub mod Examples
use h2pp.Prelude.{
  ℕ, zero, suc, ◌+◌, ◌-◌, ◌%◌, ◌^◌, List, [], ◌∷◌, Bool, true, false, ◌&&◌, ◌||◌, Option, none,
  some, Result, ok, ◌>>=◌, length, ltb, leb, ◌==◌, if◌then◌else◌,
}
use h2pp.Hpack.StaticTable.{bytes_equal}
use h2pp.Hpack.DynamicTable.{
  Entry, DynamicTable, shrink_to, shrunk, insert_impl, Shrunk, next_index, record_index,
}

-- The three calls on the set: `insert` and `erase` with the comparator of records, and `lower_bound`
-- with the test whether a record is less than the key.
pub record OrderedSet : Type 0 where
  pub set_insert : (Entry → Entry → Bool) → Entry → List Entry → List Entry
  pub set_erase : (Entry → Entry → Bool) → Entry → List Entry → List Entry
  pub lower_bound : (Entry → Bool) → List Entry → Option Entry

-- The order of vectors of bytes, and `memcmp` of as many.
unfoldable pub lexicographic : List ℕ → List ℕ → Bool
lexicographic xs [] = false
lexicographic [] (y ∷ ys) = true
lexicographic (x ∷ xs) (y ∷ ys) = ltb x y || ((x == y) && lexicographic xs ys)

-- `operator<=>` of spans: by the size, then by the bytes.
unfoldable pub span_less : List ℕ → List ℕ → Bool
span_less lhs rhs =
    if length lhs == length rhs then lexicographic lhs rhs else ltb (length lhs) (length rhs)

-- The operators of `index_comparator`, on two records and on a record and a key.
pub record_less : Entry → Entry → Bool
record_less lhs rhs =
    lexicographic lhs.name rhs.name
    || (bytes_equal lhs.name rhs.name && lexicographic lhs.value rhs.value)

pub key_less : List ℕ → List ℕ → Entry → Bool
key_less name value lhs =
    span_less lhs.name name || (bytes_equal lhs.name name && span_less lhs.value value)

pub record IndexedTable : Type 0 where
  pub base : DynamicTable
  pub index_set : List Entry

-- An `int` that is given a `size_t`, as the number that its 32 bits are; -1 is `none`.
abbrev pub as_int : ℕ → Option ℕ
as_int n = if n % 2 ^ 32 == 2 ^ 32 - 1 then none else some (n % 2 ^ 32)

module _ (set : OrderedSet) where
  -- The `std::for_each` over the evicted records.
  unfoldable pub erase_all : List Entry → List Entry → List Entry
  erase_all [] index_set = index_set
  erase_all (r ∷ rs) index_set = erase_all rs (set.set_erase record_less r index_set)

  -- What `insert` and `update_size` leave of the table.
  abbrev pub without_evicted : IndexedTable → Shrunk → IndexedTable
  without_evicted t s = record {
    base = shrunk t.base s;
    index_set = erase_all s.evicted t.index_set;
  }

  -- The new record.
  abbrev pub front_entry : DynamicTable → List ℕ → List ℕ → Entry
  front_entry t name value = record { name = name; value = value; init_index = next_index t.table }

  unfoldable pub insert : IndexedTable → List ℕ → List ℕ → Result IndexedTable
  insert t name value = do
    let hsize = length name + length value + 32
    s ←
        shrink_to t.base
          (if ltb t.base.hpack_max_size hsize then 0 else t.base.hpack_max_size - hsize)
    let rest = without_evicted t s
    ok (record {
      base = insert_impl rest.base name value;
      index_set = set.set_insert record_less (front_entry rest.base name value) rest.index_set;
    })

  unfoldable pub update_size : IndexedTable → ℕ → Result IndexedTable
  update_size t size = do
    s ← shrink_to t.base size
    let rest = without_evicted t s
    ok (record rest { base = record rest.base { hpack_max_size = size } })

  -- What `field_index` makes of the record that was found.
  abbrev pub index_of : IndexedTable → Option Entry → List ℕ → List ℕ → Option ℕ × Bool
  index_of t none name value = (none, false)
  index_of t (some r) name value =
      if bytes_equal r.name name
      then (as_int (record_index t.base r), bytes_equal r.value value)
      else (none, false)

  unfoldable pub field_index : IndexedTable → List ℕ → List ℕ → Option ℕ × Bool
  field_index t name value =
      index_of t (set.lower_bound (key_less name value) t.index_set) name value
