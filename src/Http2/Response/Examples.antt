-- ===== src/Http2/Response/Examples.antt =====
-- A response whose body comes in two frames.
use h2pp.Prelude.{ℕ, List, [], ◌∷◌, ok, ◌≡◌, refl, arith}
use h2pp.Hpack.HeaderField.{HeaderField, default}
use h2pp.Hpack.StaticTable.{bytes_equal}
use h2pp.Http2.Frame.{from_buffer, get_frame, read_header, frame_data, pad_length, front, read_span}
use h2pp.Http2.Response.{
  Response, response, status_name, find_status, insert_headers, data_of, body_as,
}
use h2pp.Http2.Response.Body.{IsSized, insert_bodies, data_of_all, insert_bodies-body_as}

-- A DATA frame with the bytes 4 and 5.
abbrev frame : List ℕ
frame = 0 ∷ 0 ∷ 2 ∷ 0 ∷ 0 ∷ 0 ∷ 0 ∷ 0 ∷ 1 ∷ 4 ∷ 5 ∷ []

frame_test : data_of frame ≡ ok (4 ∷ 5 ∷ [])
unfolding data_of from_buffer get_frame read_header frame_data pad_length front read_span
frame_test = refl

abbrev ok_field : HeaderField
ok_field = record { name = status_name; value = b'2' ∷ b'0' ∷ b'0' ∷ []; type = default }

status_test : (insert_headers response (ok_field ∷ [])).status_view ≡ b'2' ∷ b'0' ∷ b'0' ∷ []
unfolding insert_headers find_status bytes_equal
status_test = refl

-- A DATA frame with the bytes 1, 2 and 3, padded by one byte.
abbrev padded_frame : List ℕ
padded_frame = 0 ∷ 0 ∷ 5 ∷ 0 ∷ 8 ∷ 0 ∷ 0 ∷ 0 ∷ 1 ∷ 1 ∷ 1 ∷ 2 ∷ 3 ∷ 0 ∷ []

both_frames : data_of_all (padded_frame ∷ frame ∷ []) ≡ ok (1 ∷ 2 ∷ 3 ∷ 4 ∷ 5 ∷ [])
unfolding data_of_all data_of from_buffer get_frame read_header frame_data pad_length front
    read_span
both_frames = refl

-- A body of one byte that such frames go on.
abbrev begun : Response
begun = record response { body_blocks = (9 ∷ []) ∷ []; size = 1 }

insert_bodies-body_as_example :
    (r' : Response) × (insert_bodies begun (padded_frame ∷ frame ∷ []) ≡ ok r')
    × IsSized r'
    × (body_as r' ≡ 9 ∷ 1 ∷ 2 ∷ 3 ∷ 4 ∷ 5 ∷ [])
insert_bodies-body_as_example =
    insert_bodies-body_as begun (padded_frame ∷ frame ∷ []) (1 ∷ 2 ∷ 3 ∷ 4 ∷ 5 ∷ []) refl
      both_frames (omega arith)
