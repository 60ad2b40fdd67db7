-- ===== src/Wire.antt =====
-- What stands on the wire: integers in network byte order, WebSocket frames, UTF-8 text.
pub mod Bytes
pub mod Frame
pub mod Utf8
