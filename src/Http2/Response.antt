-- ===== src/Http2/Response.antt =====
-- lib/response.h and response.cpp. A block of the body is the bytes of its span.
pub mod Body
mod Examples
use h2pp.Prelude.{
  ℕ, ◌+◌, ◌-◌, ◌*◌, ◌/◌, ◌%◌, ◌^◌, List, [], ◌∷◌, ◌++◌, Result, ok, undefined, ◌>>=◌, length, min,
  take, replicate, ltb, ◌==◌, if◌then◌else◌,
}
use h2pp.Http2.Protocol.{data_type}
use h2pp.Http2.Frame.{from_buffer, get_frame, frame_data}
use h2pp.Hpack.HeaderField.{HeaderField}
use h2pp.Hpack.StaticTable.{bytes_equal}

pub record Response : Type 0 where
  pub header_list : List HeaderField
  pub status_view : List ℕ
  pub body_blocks : List (List ℕ)
  pub size : ℕ

abbrev pub response : Response
response = record { header_list = []; status_view = []; body_blocks = []; size = 0 }

-- ":status"
abbrev pub status_name : List ℕ
status_name = 0x3a ∷ 0x73 ∷ 0x74 ∷ 0x61 ∷ 0x74 ∷ 0x75 ∷ 0x73 ∷ []

-- `std::find_if` over the fields, and the value of the field found; else the view stays empty.
unfoldable pub find_status : List HeaderField → List ℕ
find_status [] = []
find_status (f ∷ fields) = if bytes_equal f.name status_name then f.value else find_status fields

unfoldable pub insert_headers : Response → List HeaderField → Response
insert_headers r header =
    let header_list = r.header_list ++ header in
    record r {
      header_list = header_list;
      status_view = if length r.status_view == 0 then find_status header_list else r.status_view;
    }

-- The data of the frame in a buffer.
unfoldable pub data_of : List ℕ → Result (List ℕ)
data_of b = do
  analyzer ← from_buffer b
  h ← get_frame data_type analyzer
  frame_data analyzer.buffer h

unfoldable pub insert_body : Response → List ℕ → Result Response
insert_body r b = do
  span ← data_of b
  ok (record r {
    body_blocks = r.body_blocks ++ (span ∷ []);
    size = (r.size + length span) % 2 ^ 64;
  })

-- The bytes that the loop of `copy_body` writes from `dst + offset` on; `offset` moves behind them.
unfoldable pub copy_loop : List (List ℕ) → ℕ → ℕ → List ℕ
copy_loop [] offset len = []
copy_loop (s ∷ blocks) offset len =
    let to_copy = min (length s) (len - offset) in
    let rest = copy_loop blocks (offset + to_copy) len in
    if offset == len then [] else take to_copy s ++ rest

abbrev pub copy_body : Response → ℕ → List ℕ
copy_body r len = copy_loop r.body_blocks 0 len

-- `body_as` for a container of `char`, as the `static_cast` to `char *` asks for. `resize` makes
-- `size` of them, all zero; those that `copy_body` does not write stay so.
unfoldable pub body_as : Response → List ℕ
body_as r = let copied = copy_body r r.size in copied ++ replicate (r.size - length copied) 0
