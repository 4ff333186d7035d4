-- ===== src/Hpack/Encoder/Examples.antt =====
-- One literal written by the encoder and read by the decoder.
use h2pp.Prelude.{ℕ, List, [], ◌∷◌, ◌++◌, ok, some, ◌≡◌, refl, arith}
use h2pp.Prelude.Bytes.{make_mask}
use h2pp.Utils.Streambuf.{ceil_order2}
use h2pp.Hpack.Huffman as Huffman
use h2pp.Hpack.Huffman.Codes.{huffman_table}
use h2pp.Hpack.Integer as Integer
use h2pp.Hpack.Integer.{prefix_mask}
use h2pp.Hpack.HeaderField.{HeaderField, default, header_field}
use h2pp.Hpack.DynamicTable.{DynamicTable, empty}
use h2pp.Hpack.DynamicTable as Dynamic
use h2pp.Hpack.EncoderStream.{write_string, push_back}
use h2pp.Hpack.Decoder.{turn}
use h2pp.Hpack.StaticTable as Static
use h2pp.Hpack.HpackTable.{table_at}
use h2pp.Hpack.Encoder.Indexes.{turn-write_index}
use h2pp.Hpack.Encoder.{
  write_index, encoder_config, estimate_string_size, measure, State, with_name, write_both,
  write_new,
}
use h2pp.Hpack.Encoder.Decoded.{IsText}
use h2pp.Hpack.Encoder.Turns.{span_behind, turn-write_new}

abbrev host : List ℕ
host = b'w' ∷ b'w' ∷ b'w' ∷ b'.' ∷ b'c' ∷ b'o' ∷ b'm' ∷ []

abbrev field : HeaderField
field = record { name = b'a' ∷ []; value = b'1' ∷ b'2' ∷ []; type = default }

-- Behind the header of a frame.
abbrev before : State
before = record {
  table = record {
    base = record { table_size = 0; hpack_max_size = 4096; table = [] };
    index_set = [];
  };
  out = record { stream = 0 ∷ 0 ∷ 9 ∷ 1 ∷ 4 ∷ 0 ∷ 0 ∷ 0 ∷ 1 ∷ []; max_size = 100; left = 100 };
  bytes_left = 100;
  encoded_fields = 0;
}

abbrev after : State
after = record before {
  out = record {
    stream = 0 ∷ 0 ∷ 9 ∷ 1 ∷ 4 ∷ 0 ∷ 0 ∷ 0 ∷ 1 ∷ 0x40 ∷ 1 ∷ b'a' ∷ 2 ∷ b'1' ∷ b'2' ∷ [];
    max_size = 100;
    left = 99;
  };
  bytes_left = 95;
  encoded_fields = 1;
}

-- Five bytes are counted, and six are written.
wrote : write_new encoder_config before field ≡ ok (some after)
unfolding write_new with_name write_both measure estimate_string_size Huffman.estimate_len
    Huffman.encode huffman_table ceil_order2 make_mask Integer.encode prefix_mask push_back
    write_string
wrote = refl

field_accepted : header_field field.name field.value field.type ≡ ok field
unfolding header_field
field_accepted = refl

abbrev decoder_after : DynamicTable
decoder_after = record {
  table_size = 35;
  hpack_max_size = 4096;
  table = record { name = b'a' ∷ []; value = b'1' ∷ b'2' ∷ []; init_index = 0 } ∷ [];
}

inserted : Dynamic.insert (empty 4096) field.name field.value ≡ ok decoder_after
unfolding Dynamic.insert Dynamic.shrink_to Dynamic.required_size Dynamic.insert_impl empty
inserted = refl

name_text : IsText field.name
unfolding Huffman.encode huffman_table
name_text = record { bytes = ground arith; short = ground arith; size = omega arith }

value_text : IsText field.value
unfolding Huffman.encode huffman_table
value_text = record { bytes = ground arith; short = ground arith; size = omega arith }

turn-write_new_example :
    (turn (empty 4096) (span_behind before.out.stream (after.out.stream ++ (0 ∷ []))) []
      ≡ ok (record {
        table = decoder_after;
        src = record { memory = after.out.stream ++ (0 ∷ []); first = 15; count = 1 };
        fields = field ∷ [];
      }))
    × (after.table ≡ before.table)
turn-write_new_example =
    turn-write_new encoder_config before after field (empty 4096) decoder_after (0 ∷ []) [] wrote
      (omega arith) name_text value_text field_accepted inserted (ground arith) (omega arith, tt)
      (omega arith) (omega arith)

-- The second static field.
abbrev get_field : HeaderField
get_field = record {
  name = 0x3a ∷ b'm' ∷ b'e' ∷ b't' ∷ b'h' ∷ b'o' ∷ b'd' ∷ [];
  value = b'G' ∷ b'E' ∷ b'T' ∷ [];
  type = default;
}

abbrev after_get : State
after_get = record before {
  out = record { stream = before.out.stream ++ (0x82 ∷ []); max_size = 100; left = 99 };
  bytes_left = 99;
  encoded_fields = 1;
}

wrote_get : write_index before 2 ≡ ok (some after_get)
unfolding write_index Integer.encode prefix_mask make_mask push_back
wrote_get = refl

get_at : table_at (empty 4096) 2 ≡ ok (get_field.name, get_field.value)
unfolding table_at Static.at
get_at = refl

get_accepted : header_field get_field.name get_field.value default ≡ ok get_field
unfolding header_field
get_accepted = refl

turn-write_index_example :
    (turn (empty 4096) (span_behind before.out.stream (after_get.out.stream ++ [])) []
      ≡ ok (record {
        table = empty 4096;
        src = record { memory = after_get.out.stream ++ []; first = 10; count = 0 };
        fields = get_field ∷ [];
      }))
    × (after_get.table ≡ before.table)
turn-write_index_example =
    turn-write_index before after_get 2 (empty 4096) (get_field.name, get_field.value) get_field []
      [] wrote_get refl (omega arith) get_at get_accepted
