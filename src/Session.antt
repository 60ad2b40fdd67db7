-- ===== src/Session.antt =====
-- rs_websocket.c: the messages of a peer, from the read of its bytes to its shutdown.
pub mod Parse
pub mod Read
pub mod Handle
pub mod Pong
