-- ===== src/Hpack/StaticTable.antt =====
-- lib/hpack/static_table.h and static_table.cpp: the static fields and the perfect hash over their
-- names. An index of -1 is `none`.
pub mod Tables
pub mod Positions
pub mod Search
mod Examples
use h2pp.Prelude.{
  ℕ, zero, suc, ◌+◌, ◌-◌, List, [], ◌∷◌, Bool, true, false, ◌&&◌, ◌||◌, Option, none, some, Result,
  ok, undefined, ◌>>=◌, length, get_elem?, get_or, take, ltb, leb, ◌==◌, if◌then◌else◌,
}
use h2pp.Hpack.StaticTable.Tables.{StaticField, field_table, asso_values, lengthtable, wordlist}

abbrev pub size : ℕ
size = length field_table

-- `field_table[index - 1]`, which outside the table is undefined.
abbrev field_at : Option StaticField → Result (List ℕ × List ℕ)
field_at none = undefined
field_at (some f) = ok (f.name, f.value)

unfoldable pub at : ℕ → Result (List ℕ × List ℕ)
at zero = undefined
at (suc i) = field_at (get_elem? field_table i)

-- The name and the value of the field at a position in the table.
unfoldable pub name_at : ℕ → List ℕ
name_at i = (get_or field_table i (record { name = []; value = [] })).name

unfoldable pub value_at : ℕ → List ℕ
value_at i = (get_or field_table i (record { name = []; value = [] })).value

unfoldable pub bytes_equal : List ℕ → List ℕ → Bool
bytes_equal [] [] = true
bytes_equal [] (y ∷ ys) = false
bytes_equal (x ∷ xs) [] = false
bytes_equal (x ∷ xs) (y ∷ ys) = (x == y) && bytes_equal xs ys

-- `0 == memcmp(lhs.data(), rhs.data(), rhs.size_bytes())`; bytes behind the end of `lhs` are
-- undefined to compare.
unfoldable pub same_bytes : List ℕ → List ℕ → Result Bool
unfolding bytes_equal
same_bytes lhs rhs =
    if ltb (length lhs) (length rhs)
    then undefined
    else ok (bytes_equal (take (length rhs) lhs) rhs)

-- `asso_values[str[i]]` for a byte of the name.
abbrev pub asso : List ℕ → ℕ → ℕ
asso str i = get_or asso_values (get_or str i 0) 0

-- The `switch` over the length, of three or more, and the last byte.
unfoldable pub hash : List ℕ → ℕ
hash name =
    (if ltb 8 (length name) then asso name 8 else 0)
    + (if ltb 3 (length name) then asso name 3 else 0)
    + asso name 0
    + asso name (length name - 1)

unfoldable pub index : List ℕ → Option (ℕ × ℕ)
unfolding hash
index name =
    if ltb (length name) 3 || ltb 27 (length name)
    then none
    else if leb (hash name) 65 && (length name == get_or lengthtable (hash name) 0)
    then get_or wordlist (hash name) none
    else none

-- What follows the call of `index` in `name_index`.
abbrev name_from : Option (ℕ × ℕ) → List ℕ → Result (Option ℕ)
name_from none name = ok none
name_from (some (start, end)) name = do
  same ← same_bytes (name_at start) name
  ok (if same then some (start + 1) else none)

pub name_index : List ℕ → Result (Option ℕ)
name_index name = name_from (index name) name

-- `std::find_if` over this many fields from a position on.
unfoldable pub find_value : ℕ → ℕ → List ℕ → Result (Option ℕ)
find_value zero it value = ok none
find_value (suc n) it value =
    let next = find_value n (suc it) value in
    if length (value_at it) == length value
    then (do same ← same_bytes (value_at it) value; if same then ok (some it) else next)
    else next

-- The index and whether the value was found.
abbrev pub found : ℕ → Option ℕ → Option ℕ × Bool
found start (some it) = (some (1 + it), true)
found start none = (some (start + 1), false)

-- What follows the call of `index` in `field_index`.
abbrev field_from : Option (ℕ × ℕ) → List ℕ → List ℕ → Result (Option ℕ × Bool)
field_from none name value = ok (none, false)
field_from (some (start, end)) name value = do
  same ← same_bytes (name_at start) name
  if same
      then (do it ← find_value (end + 1 - start) start value; ok (found start it))
      else ok (none, false)

unfoldable pub field_index : List ℕ → List ℕ → Result (Option ℕ × Bool)
field_index name value = field_from (index name) name value
