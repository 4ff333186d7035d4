-- ===== src/Hpack/HeaderField.antt =====
-- lib/hpack/header_field.h and header_field.cpp.
use h2pp.Prelude.{
  ℕ, ◌+◌, ◌-◌, ◌*◌, ◌/◌, ◌^◌, List, Result, ok, ◌>>=◌, overflow_error, require, not, length,
  replicate, leb,
}

pub data IndexType : Type 0 where
  default without_index never_index : IndexType

pub record HeaderField : Type 0 where
  pub name : List ℕ
  pub value : List ℕ
  pub type : IndexType

abbrev pub check_max_size : List ℕ → List ℕ → Result (Unit {0})
check_max_size t v = require (not (leb (2 ^ 24 - 1) ((length t + length v) * 8 / 5))) overflow_error

-- The constructors.
unfoldable pub header_field : List ℕ → List ℕ → IndexType → Result HeaderField
header_field name value type = do
  done ← check_max_size name value
  ok (record { name = name; value = value; type = type })

-- What the destructor leaves in the memory of the name and of the value.
pub wiped : HeaderField → List ℕ × List ℕ
wiped f = elim f.type [
  | never_index ↦ (replicate (length f.name) 0, replicate (length f.value) 0)
  | without_index ↦ (f.name, f.value)
  | default ↦ (f.name, f.value)
]

pub hpack_size : HeaderField → ℕ
hpack_size f = length f.name + length f.value + 32
