-- ===== src/Http2.antt =====
-- lib: frames, settings, flow control and streams of HTTP/2.
pub mod Protocol
pub mod Frame
pub mod Window
pub mod Settings
pub mod Method
pub mod Response
pub mod Request
pub mod Stream
pub mod Registry
pub mod Client
