-- ===== src/Lib.antt =====
-- h2pp: a model of the HTTP/2 client library's own logic, and what is proved of it.
--
-- The program. lib/hpack is header compression (RFC 7541): integers with a bit prefix, a Huffman
-- code, a static and a dynamic table of header fields, and an encoder and a decoder over them.
-- lib builds and reads HTTP/2 frames, negotiates settings, keeps flow-control windows, streams and
-- their registry, and joins them in `base_client`; sockets and TLS stand around that.
--
-- The model. A span or vector of bytes is a list of numbers, and that its elements are below 256 is
-- a hypothesis (`IsByte`) where a theorem needs it. A C++ call comes to a `Result`: a value, an
-- exception, or undefined behaviour (Prelude/Outcome). Machine arithmetic is written out modulo its
-- width; sums of the sizes of objects that are in memory are taken not to wrap. A loop is a
-- recursion on the collection or on the slots that are left.
--
-- - Prelude: shared names, lists and tests over the native numbers, `Result`, `make_mask` of
--   lib/utils/utils.h, and masks on bytes as arithmetic.
-- - Utils/Buffer, Utils/Streambuf: lib/utils/buffer.h and lib/utils/streambuf.cpp. `push_loop` is the
--   loop of `push_back`, on fuel; the length of the span is enough, since a turn stores a byte.
-- - Hpack/Integer: `encode` and `decode` of lib/hpack/integer.cpp. `encode_groups` is the loop of
--   `encode` with the slots of `value[5]` that are left; a write behind them is `undefined`.
--   `decode_groups` is the loop of `decode`, with its shift and the count of bytes read.
-- - Hpack/DynamicTable: lib/hpack/dynamic_table.cpp. The deque is a list, its front first.
--   `shrink_loop` is the loop of `shrink_to`, over the entries before the iterator, last first.
-- - Hpack/Huffman: lib/hpack/huffman.cpp, its code table (Codes), its perfect hash (Hash), and the
--   functions over them.
-- - Hpack/StaticTable: lib/hpack/static_table.cpp, its tables (Tables), `index` as the perfect hash,
--   `find_value` as its `std::find_if`; reading behind a text in `memcmp` is `undefined`.
-- - Hpack/Command: the commands of lib/hpack/constants.h and `decode_cmd` of lib/hpack/decoder.cpp.
-- - Hpack/HpackTable: `at` of lib/hpack/hpack_table.h over the static and the dynamic table.
-- - Hpack/Bitstream: lib/hpack/bitstream.cpp. A span is a place in a memory, since `take_bits` reads
--   bytes around it; reading outside the memory is `undefined`, and so is a shift by 64 or more.
-- - Hpack/HpackString: lib/hpack/string.cpp. `read_loop` is the loop of `read_huffman_str`, on fuel;
--   one more than the bits of the span is enough, since a turn commits a bit at least.
-- - Hpack/HeaderField: lib/hpack/header_field.cpp.
-- - Hpack/EncoderStream: lib/hpack/encoder_stream.cpp, its streambuf as the list of the bytes that it
--   stores. `encode_loop` is the loop of `encode_string`, over `val` and `len`.
-- - Hpack/Decoder: lib/hpack/decoder.cpp. `decode_loop` is the loop of `decode`, on fuel; one more than
--   the bytes of the block is enough, since a command takes a byte at least. Its result has the
--   table after it, also where a command throws.
-- - Hpack/IndexedTable: lib/hpack/indexed_dynamic_table.cpp over the dynamic table. `std::set` is the
--   parameter `OrderedSet`, its three calls; a pointer to a record is the record.
-- - Hpack/Encoder: lib/hpack/encoder.cpp, with `field_index` of lib/hpack/hpack_table.h. `measure` is a
--   string's two checks of the size, where `none` is the `break` of the loop.
-- - Http2/Protocol, Http2/Frame: lib/protocol.h, the codes of lib/error.h, lib/frame.cpp, and
--   lib/frame_builder.cpp (Builder). A frame is the list of its bytes; members that the code stores
--   as plain integers stand as on a little-endian host. What a new buffer holds is the parameter
--   `fresh`. A span that reaches out of the frame is `undefined` to read.
-- - Http2/Window: lib/dummy_window.cpp, its counters modulo 2^32.
-- - Http2/Settings: lib/settings_manager.cpp. `initiate_sync_settings`, `on_settings_frame`, `cancel`
--   and the timer's handler are steps of one state; handlers are numbers, and a step returns the
--   call that it makes. The value of Boost.Asio's `in_progress` is a parameter.
-- - Http2/Response: lib/response.cpp and the `body_as` of lib/response.h, for a container of
--   `char`.
-- - Http2/Method: lib/method.h and lib/method.cpp, the enumeration and its texts.
-- - Http2/Request: lib/request.h and lib/request.cpp. What Boost.URL gives of a url is the record `Url`.
-- - Http2/Stream: lib/stream.cpp; its methods are steps (`Exec` of Prelude/Exec: the state stands beside
--   what the call comes to, as an exception leaves it) that give the call of the response's handler.
--   Stream/Send is the way out: `copy_loop` is the loop of `prepare_body`, over the spans.
-- - Http2/Registry: lib/stream_registry.cpp. A pointer to a stream is its place among all streams
--   ever made, a null pointer is `none`. Registry/Serve has `get_data`, whose loop is `serve_all` over
--   the queue with `scheduled_stream` in it, and `reset`.
-- - Http2/Client: lib/base_client.cpp and lib/base_client.h: the state and what the user begins.
--   Client/Receive has the frame handlers, each over the decoder, the settings or the registry, and
--   Client/Read the loop of `on_read`, on fuel; one more than the bytes of the buffer is enough, since
--   a frame has nine bytes at least. `init_write` and the handlers are outside the library: their
--   calls stand in `effects` in their order. A frame's span that reaches out of the frame counts as
--   `undefined` to read, also where the input buffer goes on.
--
-- Not modelled: sockets, TLS and coroutines (lib/connection.h, lib/client_session.h), which only move
-- bytes over Boost.Asio; the texts of lib/error.cpp; mutexes and threads, since each call is one step;
-- the category of an error code, which is its value.
pub mod Prelude
pub mod Utils
pub mod Hpack
pub mod Http2
