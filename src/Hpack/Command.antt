-- ===== src/Hpack/Command.antt =====
-- lib/hpack/constants.h and `decode_cmd` of decoder.cpp: the commands of a header block.
use h2pp.Prelude.{ℕ, not, bit_and, ◌==◌, if◌then◌else◌}

pub data Command : Type 0 where
  index_cmd literal_incremental_index change_table_size : Command
  literal_without_index literal_never_index : Command

-- `cmd_info::info` and `cmd_info::get`.
pub record Info : Type 0 where
  pub value : ℕ
  pub bitlen : ℕ
  pub mask : ℕ

abbrev pub info : Command → Info
info index_cmd = record { value = 0x80; bitlen = 1; mask = 0x80 }
info literal_incremental_index = record { value = 0x40; bitlen = 2; mask = 0xc0 }
info change_table_size = record { value = 0x20; bitlen = 3; mask = 0xe0 }
info literal_without_index = record { value = 0x00; bitlen = 4; mask = 0xf0 }
info literal_never_index = record { value = 0x10; bitlen = 4; mask = 0xf0 }

unfoldable pub decode_cmd : ℕ → Command
decode_cmd byte =
    if not (bit_and byte (info index_cmd).value == 0)
    then index_cmd
    else if bit_and byte (info literal_incremental_index).mask
        == (info literal_incremental_index).value
    then literal_incremental_index
    else if bit_and byte (info change_table_size).value == (info change_table_size).value
    then change_table_size
    else if bit_and byte (info literal_without_index).mask == (info literal_without_index).value
    then literal_without_index
    else literal_never_index
