-- ===== src/Hpack/DynamicTable.antt =====
-- lib/hpack/dynamic_table.h and dynamic_table.cpp. The deque is a list, its front first; an
-- iterator into it is the split of the list at its position.
pub mod Shrink
pub mod Evict
pub mod Insert
pub mod Rfc
pub mod History
mod Examples
use mathlib.Core.List.{reverse}
use h2pp.Prelude.{
  ℕ, zero, suc, ◌+◌, ◌-◌, ◌%◌, ◌^◌, ◌<◌, Bool, true, false, ◌&&◌, List, [], ◌∷◌, Result, ok, throw,
  undefined, ◌>>=◌, runtime_error, length, get_elem?, Option, none, some, ltb, leb, ◌==◌,
  if◌then◌else◌,
}

-- `dynamic_table::record`
pub record Entry : Type 0 where
  pub name : List ℕ
  pub value : List ℕ
  pub init_index : ℕ

abbrev pub hpack_size : Entry → ℕ
hpack_size r = length r.name + length r.value + 32

pub record DynamicTable : Type 0 where
  pub table_size : ℕ
  pub hpack_max_size : ℕ
  pub table : List Entry

unfoldable pub empty : ℕ → DynamicTable
empty max_size = record { table_size = 0; hpack_max_size = max_size; table = [] }

-- a - b in `size_t`
abbrev pub sub64 : ℕ → ℕ → ℕ
sub64 a b = (a + 2 ^ 64 - b) % 2 ^ 64

abbrev pub is_empty {ℓ} : {A : Type ℓ} → List A → Bool
is_empty [] = true
is_empty (x ∷ xs) = false

-- What `shrink_to` leaves: the entries before the iterator that it returns, those from it on, and
-- the new `table_size`.
pub record Shrunk : Type 0 where
  pub kept : List Entry
  pub evicted : List Entry
  pub left_size : ℕ

-- The loop of `shrink_to`: the entries before `it`, last first, those from `it` on, `eviction_size`
-- and `table_size`. Stepping back from the beginning is undefined.
pub shrink_loop : List Entry → List Entry → ℕ → ℕ → Result Shrunk
shrink_loop [] behind eviction_size table_size = undefined
shrink_loop (r ∷ before) behind eviction_size table_size =
    let eviction_size' = sub64 eviction_size (hpack_size r) in
    let table_size' = sub64 table_size (hpack_size r) in
    let more = shrink_loop before (r ∷ behind) eviction_size' table_size' in
    if is_empty before
    then ok (record { kept = []; evicted = r ∷ behind; left_size = table_size' })
    else if ltb 0 eviction_size'
    then more
    else ok (record { kept = reverse before; evicted = r ∷ behind; left_size = table_size' })

unfoldable pub shrink_to : DynamicTable → ℕ → Result Shrunk
shrink_to t rq_size =
    if leb t.table_size rq_size
    then ok (record { kept = t.table; evicted = []; left_size = t.table_size })
    else shrink_loop (reverse t.table) [] (t.table_size - rq_size) t.table_size

-- `table.front().init_index + 1`, or 0 for an empty table.
abbrev pub next_index : List Entry → ℕ
next_index [] = 0
next_index (r ∷ rs) = (r.init_index + 1) % 2 ^ 32

unfoldable pub insert_impl : DynamicTable → List ℕ → List ℕ → DynamicTable
insert_impl t name value = record t {
  table = r ∷ t.table;
  table_size = (t.table_size + hpack_size r) % 2 ^ 64;
}
  where
    r : Entry
    r = record { name = name; value = value; init_index = next_index t.table }

abbrev pub shrunk : DynamicTable → Shrunk → DynamicTable
shrunk t s = record t { table = s.kept; table_size = s.left_size }

-- The size that `insert` asks `shrink_to` for.
unfoldable pub required_size : DynamicTable → ℕ → ℕ
required_size t hsize =
    if ltb t.hpack_max_size (hsize + t.table_size)
    then sub64 t.hpack_max_size hsize
    else hsize + t.table_size

unfoldable pub insert : DynamicTable → List ℕ → List ℕ → Result DynamicTable
insert t name value = do
  s ← shrink_to t (required_size t (length name + length value + 32))
  ok (insert_impl (shrunk t s) name value)

unfoldable pub update_size : DynamicTable → ℕ → Result DynamicTable
update_size t size = do s ← shrink_to t size; ok (record (shrunk t s) { hpack_max_size = size })

-- `table[i - 1]`, which for the index 0 lies outside the deque.
unfoldable pub entry_at : List Entry → ℕ → Result (List ℕ × List ℕ)
entry_at rs zero = undefined
entry_at [] (suc i) = undefined
entry_at (r ∷ rs) (suc zero) = ok (r.name, r.value)
entry_at (r ∷ rs) (suc (suc i)) = entry_at rs (suc i)

unfoldable pub at : DynamicTable → ℕ → Result (List ℕ × List ℕ)
unfolding entry_at
at t i = if leb i (length t.table) then entry_at t.table i else throw runtime_error

-- The `init_index` of `table.back()`.
abbrev pub back_index : List Entry → ℕ
back_index [] = 0
back_index (r ∷ []) = r.init_index
back_index (r ∷ s ∷ rs) = back_index (s ∷ rs)

pub record_index : DynamicTable → Entry → ℕ
record_index t r = sub64 (length t.table + back_index t.table) r.init_index
