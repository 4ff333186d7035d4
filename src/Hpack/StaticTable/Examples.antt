-- ===== src/Hpack/StaticTable/Examples.antt =====
-- Look-ups in the static table: of ":method" with "GET", "PUT", and of names of its own.
use h2pp.Prelude.{ℕ, List, [], ◌∷◌, some, true, ok, ◌≡◌, refl}
use h2pp.Hpack.StaticTable.{
  size, field_index, index, hash, same_bytes, bytes_equal, find_value, name_at, value_at,
}
use h2pp.Hpack.StaticTable.Positions.{positions, field_answer}
use h2pp.Hpack.StaticTable.Search.{field_index-positions}

abbrev method : List ℕ
method = 58 ∷ 109 ∷ 101 ∷ 116 ∷ 104 ∷ 111 ∷ 100 ∷ []

abbrev get : List ℕ
get = 71 ∷ 69 ∷ 84 ∷ []

abbrev put : List ℕ
put = 80 ∷ 85 ∷ 84 ∷ []

size_test : size ≡ 61
size_test = refl

field_index-positions_example :
    field_index method put ≡ ok (field_answer (positions size 0 method) put)
field_index-positions_example = field_index-positions method put

found_test : field_index method get ≡ ok (some 2, true)
unfolding field_index index hash same_bytes bytes_equal find_value name_at value_at
found_test = refl
