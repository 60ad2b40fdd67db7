-- ===== src/Peer.antt =====
-- rs_worker.h: what a worker thread knows of each of its peers.
use ring_socket.Prelude.{ℕ, Bool, false, List, Option, none}
use ring_socket.Websocket.{Storage, CloseFrame}

-- `enum rs_layer`
pub data Layer : Type 0 where
  tcp tls http websocket : Layer

-- `enum rs_mortality`
pub data Mortality : Type 0 where
  live shutdown_write shutdown_read dead : Mortality

-- `enum rs_continuation`
pub data Continuation : Type 0 where
  cont_none cont_parsing cont_sending : Continuation

-- The last member of `ws`, a union. All of its members are pointers, or an integer, in the same
-- place: the constructor tells which of them was written.
pub data WsUnion : Type 0 where
  null : WsUnion
  storage : Storage → WsUnion
  pong : List ℕ → WsUnion
  close_frame : CloseFrame → WsUnion

-- `union rs_peer`, with those members of `http` that outlive the parser; they are in the place of `ws`,
-- and all of them are set to 0 between the two. `old_wsize` shares its place with the pointer `tls`,
-- which it is for an encrypted peer.
pub record Peer : Type 0 where
  pub is_encrypted : Bool
  pub is_writing : Bool
  pub layer : Layer
  pub mortality : Mortality
  pub continuation : Continuation
  pub app_i : ℕ
  pub endpoint_i : ℕ
  pub socket_fd : ℕ
  pub old_wsize : ℕ
  pub shutdown_deadline : ℕ
  pub owref_c : ℕ
  pub owref_i : ℕ
  pub ws : WsUnion
  pub error_i : ℕ
  pub char_buf : Option (List ℕ)

-- `memset(peer, 0, sizeof(union rs_peer))`
abbrev pub no_peer : Peer
no_peer = record {
  is_encrypted = false;
  is_writing = false;
  layer = tcp;
  mortality = live;
  continuation = cont_none;
  app_i = 0;
  endpoint_i = 0;
  socket_fd = 0;
  old_wsize = 0;
  shutdown_deadline = 0;
  owref_c = 0;
  owref_i = 0;
  ws = null;
  error_i = 0;
  char_buf = none;
}
