-- ===== src/FromApp.antt =====
-- rs_from_app.c: a worker sends the messages of apps to its peers. `handle` is `handle_peer_events` of
-- rs_event.c with no events.
pub mod Pending
pub mod Newest
pub mod Grow
pub mod Moved
