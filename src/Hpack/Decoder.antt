-- ===== src/Hpack/Decoder.antt =====
-- lib/hpack/decoder.h and decoder.cpp. A command that returns gives the object's table after it, the
-- span that is left and the fields so far; one that throws has left the table as it was.
pub mod Progress
mod Examples
pub mod Runs
use h2pp.Prelude.{
  ℕ, zero, suc, ◌+◌, List, [], ◌∷◌, ◌++◌, Result, ok, throw, undefined, ◌>>=◌, runtime_error,
  require, not, get_or, ◌==◌, if◌then◌else◌,
}
use h2pp.Hpack.Integer as Integer
use h2pp.Hpack.HpackString as HpackString
use h2pp.Hpack.Bitstream.{Span, bytes_of, subspan}
use h2pp.Hpack.HeaderField.{
  IndexType, default, without_index, never_index, HeaderField, header_field,
}
use h2pp.Hpack.DynamicTable.{DynamicTable, empty, insert, update_size}
use h2pp.Hpack.HpackTable.{table_at}
use h2pp.Hpack.Command.{
  Command, index_cmd, literal_incremental_index, change_table_size, literal_without_index,
  literal_never_index, info, decode_cmd,
}

-- DefaultTableSize
abbrev pub default_table_size : ℕ
default_table_size = 4096

-- The table of a new decoder.
abbrev pub decoder : DynamicTable
decoder = empty default_table_size

pub record Turn : Type 0 where
  pub table : DynamicTable
  pub src : Span
  pub fields : List HeaderField

unfoldable pub index : DynamicTable → Span → List HeaderField → Result Turn
index table src header = do
  i ← Integer.decode (info index_cmd).bitlen (bytes_of src)
  done ← require (not (i.value == 0)) runtime_error
  entry ← table_at table i.value
  field ← header_field entry.0 entry.1 default
  ok (record { table = table; src = subspan src i.used_bytes; fields = header ++ (field ∷ []) })

unfoldable pub change_size : DynamicTable → Span → List HeaderField → Result Turn
change_size table src header = do
  max_size ← Integer.decode (info change_table_size).bitlen (bytes_of src)
  table' ← update_size table max_size.value
  ok (record { table = table'; src = subspan src max_size.used_bytes; fields = header })

-- The name of a literal, and the span behind it.
unfoldable pub literal_name : DynamicTable → Span → ℕ → Result (List ℕ × Span)
literal_name table src i =
    if i == 0
    then (do
      decoded_name ← HpackString.decode src
      ok (decoded_name.value, subspan src decoded_name.used_bytes))
    else (do entry ← table_at table i; ok (entry.0, src))

pub record Literal : Type 0 where
  pub field : HeaderField
  pub behind : Span

-- `literal_without_index_impl`, with the field that it appends.
unfoldable pub literal_impl : DynamicTable → Span → IndexType → ℕ → Result Literal
literal_impl table src type bits = do
  i ← Integer.decode bits (bytes_of src)
  name ← literal_name table (subspan src i.used_bytes) i.value
  decoded_value ← HpackString.decode name.1
  field ← header_field name.0 decoded_value.value type
  ok (record { field = field; behind = subspan name.1 decoded_value.used_bytes })

unfoldable pub without_index_cmd : DynamicTable → Span → List HeaderField → Result Turn
without_index_cmd table src h = do
  l ← literal_impl table src without_index (info literal_without_index).bitlen
  ok (record { table = table; src = l.behind; fields = h ++ (l.field ∷ []) })

unfoldable pub never_index_cmd : DynamicTable → Span → List HeaderField → Result Turn
never_index_cmd table src h = do
  l ← literal_impl table src never_index (info literal_never_index).bitlen
  ok (record { table = table; src = l.behind; fields = h ++ (l.field ∷ []) })

unfoldable pub incremental_index_cmd : DynamicTable → Span → List HeaderField → Result Turn
incremental_index_cmd table src h = do
  l ← literal_impl table src default (info literal_incremental_index).bitlen
  table' ← insert table l.field.name l.field.value
  ok (record { table = table'; src = l.behind; fields = h ++ (l.field ∷ []) })

-- The table of the member functions, `commands`.
unfoldable pub invoke : Command → DynamicTable → Span → List HeaderField → Result Turn
invoke index_cmd = index
invoke literal_incremental_index = incremental_index_cmd
invoke change_table_size = change_size
invoke literal_without_index = without_index_cmd
invoke literal_never_index = never_index_cmd

-- The body of the loop of `decode`, for a span that is not empty.
abbrev pub turn : DynamicTable → Span → List HeaderField → Result Turn
turn table src fields = invoke (decode_cmd (get_or (bytes_of src) 0 0)) table src fields

-- What follows a turn: an exception leaves the loop, and the table stays as it is then.
abbrev pub after_turn :
    Result Turn
    → DynamicTable
    → (Turn → DynamicTable × Result (List HeaderField))
    → DynamicTable × Result (List HeaderField)
after_turn undefined table more = (table, undefined)
after_turn (throw exception) table more = (table, throw exception)
after_turn (ok t) table more = more t

-- The loop of `decode`, on fuel: the table after it, and the fields or the exception; `exhausted` is
-- what a run that uses up the fuel gives in their place.
unfoldable pub decode_loop :
    Result (List HeaderField)
    → ℕ
    → DynamicTable
    → Span
    → List HeaderField
    → DynamicTable × Result (List HeaderField)
decode_loop exhausted zero table src fields = (table, exhausted)
decode_loop exhausted (suc fuel) table src fields =
    let more : Turn → DynamicTable × Result (List HeaderField) =
      λ t. decode_loop exhausted fuel t.table t.src t.fields in
    if src.count == 0 then (table, ok fields) else after_turn (turn table src fields) table more

-- A turn that returns takes at least one byte.
pub decode : DynamicTable → Span → DynamicTable × Result (List HeaderField)
decode table src = decode_loop undefined (src.count + 1) table src []
