-- ===== src/Hpack/HpackTable.antt =====
-- lib/hpack/hpack_table.h over `dynamic_table`, as the decoder uses it.
use h2pp.Prelude.{ℕ, ◌-◌, List, Result, throw, runtime_error, leb, ◌==◌, if◌then◌else◌}
use h2pp.Hpack.StaticTable as Static
use h2pp.Hpack.DynamicTable as Dynamic
use h2pp.Hpack.DynamicTable.{DynamicTable}

unfoldable pub table_at : DynamicTable → ℕ → Result (List ℕ × List ℕ)
table_at dyn_table i =
    if i == 0
    then throw runtime_error
    else if leb i Static.size
    then Static.at i
    else Dynamic.at dyn_table (i - Static.size)
