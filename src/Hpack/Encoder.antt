-- ===== src/Hpack/Encoder.antt =====
-- lib/hpack/encoder.h and encoder.cpp, and `field_index` of lib/hpack/hpack_table.h over the table that
-- the encoder uses. An index is an `int`, by `as_int`.
pub mod Sizes
mod Examples
pub mod Turns
pub mod Indexes
pub mod Wrote
pub mod NewNames
pub mod Decoded
use h2pp.Prelude.{
  ℕ, zero, suc, ◌+◌, ◌-◌, ◌*◌, ◌/◌, ◌%◌, ◌^◌, List, [], ◌∷◌, ◌++◌, Bool, true, false, ◌&&◌, ◌||◌,
  Option, none, some, Result, ok, throw, undefined, ◌>>=◌, length, ltb, leb, ◌==◌, if◌then◌else◌,
}
use h2pp.Utils.Streambuf.{ceil_order2}
use h2pp.Hpack.Integer as Integer
use h2pp.Hpack.StaticTable as Static
use h2pp.Hpack.Huffman.{estimate_len}
use h2pp.Hpack.Command.{
  Command, index_cmd, literal_incremental_index, change_table_size, literal_without_index,
  literal_never_index, info,
}
use h2pp.Hpack.HeaderField.{IndexType, default, without_index, never_index, HeaderField}
use h2pp.Hpack.EncoderStream.{
  EncoderStream, encoder_stream, push_back, StringFlag, inplace, encoded, write_string, flush,
}
use h2pp.Hpack.IndexedTable as Indexed
use h2pp.Hpack.IndexedTable.{OrderedSet, IndexedTable, as_int}

-- The part of `encoder_config` that `encode` reads.
pub record EncoderConfig : Type 0 where
  pub init_table_size : ℕ
  pub min_huffman_rate : ℕ

abbrev pub encoder_config : EncoderConfig
encoder_config = record { init_table_size = 4096; min_huffman_rate = 90 }

-- `integer::encode` of a command, and of a size with its flag.
abbrev pub encode_index : Command → ℕ → Result (List ℕ)
encode_index cmd v = Integer.encode (info cmd).value (info cmd).bitlen v

abbrev pub flag_byte : StringFlag → ℕ
flag_byte inplace = 0x00
flag_byte encoded = 0x80

abbrev pub encode_size : StringFlag → ℕ → Result (List ℕ)
encode_size flag v = Integer.encode (flag_byte flag) 1 v

unfoldable pub estimate_string_size : EncoderConfig → List ℕ → ℕ × StringFlag
estimate_string_size config src =
    let encoded_bytes_len = ceil_order2 (estimate_len src) 3 / 8 % 2 ^ 32 in
    if ltb encoded_bytes_len (length src)
      && (ltb (length src) 10 || leb (100 * encoded_bytes_len / length src) config.min_huffman_rate)
    then (encoded_bytes_len, encoded)
    else (length src % 2 ^ 32, inplace)

-- `command` of a literal by the field's type.
abbrev pub literal_command : IndexType → Command
literal_command default = literal_incremental_index
literal_command without_index = literal_without_index
literal_command never_index = literal_never_index

abbrev pub is_default : IndexType → Bool
is_default default = true
is_default without_index = false
is_default never_index = false

-- A string that fits: `field_size` with it, its flag and its encoded size.
pub record Measured : Type 0 where
  pub field_size : ℕ
  pub flag : StringFlag
  pub encoded_size : List ℕ

-- The checks of a string's size and of the size of its length; `none` is the `break`.
unfoldable pub measure : EncoderConfig → ℕ → ℕ → List ℕ → Result (Option Measured)
measure config bytes_left field_size src =
    let (size, flag) = estimate_string_size config src in
    let field_size' = (field_size + size) % 2 ^ 32 in
    if ltb bytes_left field_size' then ok none else (do
      encoded_size ← encode_size flag size
      let whole = (field_size' + length encoded_size) % 2 ^ 32
      ok (
          if ltb bytes_left whole
          then none
          else some (record { field_size = whole; flag = flag; encoded_size = encoded_size })))

-- `encoder_table::field_index`, from what the two tables give.
abbrev pub combined : Option ℕ × Bool → Option ℕ × Bool → Option ℕ × Bool
combined (i, true) dyn = (i, true)
combined (i, false) (some dyn_i, true) = (as_int (dyn_i + Static.size), true)
combined (i, false) (none, true) = (as_int (Static.size - 1), true)
combined (some i, false) (dyn_i, false) = (some i, false)
combined (none, false) (dyn_i, false) = (dyn_i, false)

-- The state of the loop of `encode`.
pub record State : Type 0 where
  pub table : IndexedTable
  pub out : EncoderStream
  pub bytes_left : ℕ
  pub encoded_fields : ℕ

-- After a field that was written.
abbrev pub written : State → EncoderStream → ℕ → State
written s out field_size = record s {
  out = out;
  bytes_left = s.bytes_left - field_size;
  encoded_fields = s.encoded_fields + 1;
}

-- A field that is indexed with its value.
unfoldable pub write_index : State → ℕ → Result (Option State)
write_index s i = do
  encoded_index ← encode_index index_cmd i
  ok (
      if ltb s.bytes_left (length encoded_index)
      then none
      else some (written s (push_back s.out encoded_index).0 (length encoded_index)))

-- A literal with a new name, once its value fits; the command's byte is pushed without being counted.
unfoldable pub write_both : State → HeaderField → Measured → Option Measured → Option State
write_both s f name none = none
write_both s f name (some value) =
    let command = (push_back s.out ((info (literal_command f.type)).value ∷ [])).0 in
    some (
      written s
        (write_string (write_string command name.flag name.encoded_size f.name) value.flag
          value.encoded_size f.value)
        value.field_size)

unfoldable pub with_name :
    EncoderConfig → State → HeaderField → Option Measured → Result (Option State)
with_name config s f none = ok none
with_name config s f (some name) = do
  value ← measure config s.bytes_left name.field_size f.value
  ok (write_both s f name value)

unfoldable pub write_new : EncoderConfig → State → HeaderField → Result (Option State)
write_new config s f = do name ← measure config s.bytes_left 0 f.name; with_name config s f name

module _ (set : OrderedSet) (config : EncoderConfig) where
  unfoldable pub table_index : IndexedTable → List ℕ → List ℕ → Result (Option ℕ × Bool)
  table_index table name value = do
    index ← Static.field_index name value
    ok (combined index (Indexed.field_index set table name value))

  -- `table.insert` for a literal that is to be indexed.
  unfoldable pub insert_literal : IndexedTable → HeaderField → Result IndexedTable
  insert_literal table f =
      if is_default f.type then Indexed.insert set table f.name f.value else ok table

  -- The value of a literal with an indexed name, once it fits.
  unfoldable pub write_value :
      State → HeaderField → List ℕ → Option Measured → Result (Option State)
  write_value s f name_index none = ok none
  write_value s f name_index (some value) = do
    table ← insert_literal s.table f
    let out = write_string (push_back s.out name_index).0 value.flag value.encoded_size f.value
    ok (some (record (written s out value.field_size) { table = table }))

  unfoldable pub write_literal : State → HeaderField → ℕ → Result (Option State)
  write_literal s f i = do
    name_index ← encode_index (literal_command f.type) i
    if ltb s.bytes_left (length name_index) then ok none else (do
      value ← measure config s.bytes_left (length name_index) f.value
      write_value s f name_index value)

  -- The three ways to write a field, by its index and whether that has the value too.
  abbrev pub write_by : State → HeaderField → Option ℕ × Bool → Result (Option State)
  write_by s f (some i, true) = write_index s i
  write_by s f (some i, false) = write_literal s f i
  write_by s f (none, has_value) = write_new config s f

  -- The body of the loop.
  unfoldable pub encode_field : State → HeaderField → Result (Option State)
  encode_field s f = do
    index ← table_index s.table f.name f.value
    write_by s f (index.0, index.1 && is_default f.type)

  -- What follows the body: `break`, an exception, or the rest of the loop. The table stays as it is then.
  abbrev pub after_field :
      Result (Option State)
      → State
      → (State → IndexedTable × Result State)
      → IndexedTable × Result State
  after_field undefined s more = (s.table, undefined)
  after_field (throw exception) s more = (s.table, throw exception)
  after_field (ok none) s more = (s.table, ok s)
  after_field (ok (some s')) s more = more s'

  unfoldable pub encode_fields : List HeaderField → State → IndexedTable × Result State
  encode_fields [] s = (s.table, ok s)
  encode_fields (f ∷ fields) s =
      let more : State → IndexedTable × Result State = λ s'. encode_fields fields s' in
      after_field (encode_field s f) s more

  -- The encoder's table, and the bytes stored with the number of the fields in them.
  unfoldable pub encode : IndexedTable → List HeaderField → ℕ → IndexedTable × Result (List ℕ × ℕ)
  encode table fields size_limit =
      let (table', r) = encode_fields fields (record {
        table = table;
        out = encoder_stream size_limit;
        bytes_left = size_limit;
        encoded_fields = 0;
      }) in
      (table', do s ← r; ok ((flush s.out).0, s.encoded_fields))
