-- ===== src/Tests/Events.antt =====
-- A worker as a whole, and what its peers and the kernel do to it.
use ring_socket.Prelude.{
  ℕ, zero, suc, ◌*◌, ◌≡◌, refl, true, false, Option, some, none, List, [], ◌∷◌, arith,
}
use ring_socket.Websocket.{Ret, ok, Parser}
use ring_socket.Peer.{Peer, dead, websocket, cont_parsing, pong}
use ring_socket.Tcp.{got, unread, done, end_of_stream, peer_at, set_peer}
use ring_socket.Tcp
use ring_socket.Tcp.Peers.{set_peer-IsValid}
use ring_socket.Tls.{Answers, failure, success, unanswered, error_syscall, error_zero_return}
use ring_socket.Tls
use ring_socket.Owref.{no_owref}
use ring_socket.Queue.{no_update}
use ring_socket.Worker.{Worker, Env, Step, no_producer, tick}
use ring_socket.FromApp.Grow.{reallocate_owrefs}
use ring_socket.FromApp.Moved.{Moved, grow_lem}
use ring_socket.Http.Io.{Request}
use ring_socket.Event.{handle_peer_events, no_events}
use ring_socket.Event.Dead.{IsFreed, dead_lem}
use ring_socket.Event.Loop.{peer_event, listen_event, Waited, Looping, loop_over_events}
use ring_socket.Event.Loop.Ends.{LoopEnds, loop_lem}
use ring_socket.FromApp.Newest.{OutboundRings}
use ring_socket.Socket.{no_more}
use ring_socket.Session.Parse.{empty_parser, parse_websocket}
use ring_socket.Session.Parse.Ends.{Ends, parse_lem}
use ring_socket.Session.Read.{read_websocket}
use ring_socket.Session.Handle.{set_continuation, handle_websocket_io}
use ring_socket.Session.Pong.{pong_lem}
use ring_socket.Tests.Tcp.{peer, worker, worker-IsValid}

-- A ping without a payload is read, then nothing more; nothing can be written.
abbrev ping : List ℕ
ping = 0x89 ∷ 0x80 ∷ 1 ∷ 2 ∷ 3 ∷ 4 ∷ []

abbrev read_ping : ℕ → ℕ → Tcp.Read
read_ping zero room = got ping
read_ping (suc t) room = unread true

abbrev env : Env
env = record {
  little = true;
  conf = record { max_ws_msg_size = 100; max_ws_frame_chain_size = 100 };
  worker_rbuf_size = 16;
  shutdown_wait_ws = 30;
  shutdown_wait_http = 30;
  realloc_multiplier = λ n. 2 * n;
  wants_open_notification = λ i. true;
  wants_close_notification = λ i. true;
  endpoint_id = λ a e. 1;
  alloc = λ n. none;
  grow = λ n. 2 * n;
  wakes = λ i. true;
  has_memory = λ t. true;
  time = λ t. 1000;
  loaded_r = λ t a. 0;
  read = read_ping;
  write = λ t n. record { ret = none; is_eagain = true };
  ssl_read = λ t n. Tls.unread error_syscall;
  ssl_write = λ t frame. success;
  ssl_new = λ t. 1;
  ssl_set_fd = λ t. true;
  tls = λ t. record {
    accept = success;
    ssl_shutdown = unanswered;
    shutdown = done;
    ssl_reads = Tls.no_more error_zero_return;
  };
  shutdown = λ t. done;
  reads = λ t. end_of_stream;
  uninitialized = λ i. no_owref;
  moved_left = λ owrefs n size. owrefs;
}

abbrev key_hash : List ℕ → Option (List ℕ)
key_hash key = none

abbrev parse : Worker → ℕ → Request
parse w i = ((ok, none), w)

-- The third peer is on the WebSocket layer.
abbrev with_peer : Peer → Tcp.Worker
with_peer p = set_peer worker 2 p

abbrev whole : Tcp.Worker → Worker
whole net = record {
  net = net;
  reader = record {
    address = 4096;
    rbuf = 0x89 ∷ 0x80 ∷ 1 ∷ 2 ∷ 3 ∷ 4 ∷ 0x89 ∷ 0x80 ∷ 5 ∷ 6 ∷ 7 ∷ 8 ∷ 0 ∷ 0 ∷ 0 ∷ 0 ∷ [];
    pong_response = [];
  };
  refs = record {
    owrefs = no_owref ∷ no_owref ∷ no_owref ∷ [];
    newest_owref_i = 1;
    oldest_owref_i_by_app = 2 ∷ [];
    readers = 0 ∷ [];
  };
  queue = record { updates = no_update ∷ no_update ∷ []; oldest_i = 0 };
  shared = record { value = λ a i. 0; is_asleep = λ i. false; woken = [] };
  heap = record { mem = λ a. 0; freed = [] };
  inbound_producers = no_producer ∷ [];
  clock = 0;
}

abbrev dying : Peer
dying = record peer { socket_fd = 9; mortality = dead; layer = websocket; is_encrypted = true }

dead_lem_example :
    IsFreed env key_hash parse
      (whole (with_peer dying))
      2
      (handle_peer_events env key_hash parse 5 2 no_events (whole (with_peer dying)) 2)
dead_lem_example =
    dead_lem env key_hash parse 5 1 (whole (with_peer dying)) 2
      (set_peer-IsValid 2 worker dying worker-IsValid (omega arith) refl) (omega arith) refl

abbrev pinging : Peer
pinging = record peer { socket_fd = 9; layer = websocket }

-- Nothing at first, then a message of the peer and a new connection; the app has no message.
abbrev waited : Waited
waited = record {
  at_once = some [];
  at_last = some (peer_event 2 no_events ∷ listen_event true no_events no_more ∷ []);
}

abbrev starting : Looping
starting = record { worker = whole (with_peer pinging); timestamp = 900; is_asleep = false }

abbrev no_messages : OutboundRings
no_messages = record { loaded_w = λ t i. 0; mem = λ i a. 0 }

loop_lem_example :
    LoopEnds env key_hash parse no_messages 1 5 2 3
      (waited ∷ [])
      starting
      (loop_over_events env key_hash parse no_messages 1 5 2 3 (waited ∷ []) starting)
loop_lem_example = loop_lem env key_hash parse no_messages 1 5 2 3 (waited ∷ []) starting

parse_lem_example :
    Ends env 2 17
      (record (empty_parser 10 false) { cur_read = 10; next_read = 16 })
      (whole (with_peer pinging))
      (parse_websocket env 2 17
        (record (empty_parser 10 false) { cur_read = 10; next_read = 16 })
        (whole (with_peer pinging)))
parse_lem_example =
    parse_lem env 2 6 (empty_parser 10 false) (whole (with_peer pinging))
      (record {
        payload_known = λ h. absurd (omega arith);
        was_incomplete = λ h. absurd (omega arith);
      })
      (omega arith)

-- Two messages are pending for a peer, the next of which is at the end of the array.
abbrev busy : Peer
busy = record pinging { owref_c = 2; owref_i = 2 }

grow_lem_example :
    (w : Worker) × (reallocate_owrefs env (whole (with_peer busy)) ≡ some w)
    × Moved env (whole (with_peer busy)) 2 w
grow_lem_example =
    grow_lem env (whole (with_peer busy)) 2 refl (omega arith) (omega arith) (omega arith)
      (omega arith) (omega arith) (omega arith)

abbrev no_call : Worker → ℕ → Step
no_call w i = some (ok, w)

abbrev with_pong : Worker
with_pong =
    record (tick (
      tick (
        tick (
          tick (
            whole (
              with_peer (record pinging {
                continuation = cont_parsing;
                is_writing = true;
                ws = pong (0x8A ∷ 0 ∷ []);
              }))))))) {
                reader = record (whole worker).reader {
                  rbuf =
                      0x89 ∷ 0x80 ∷ 1 ∷ 2 ∷ 3 ∷ 4 ∷ 0x89 ∷ 0x80 ∷ 5 ∷ 6 ∷ 7 ∷ 8 ∷ 0 ∷ 0 ∷ 0 ∷ 0
                      ∷ [];
                };
              }

ping_read :
    read_websocket env 3 (set_continuation (whole (with_peer pinging)) 2 cont_parsing) 2
    ≡ some (ok, with_pong)
unfolding read_websocket Tcp.read_tcp ring_socket.Websocket.parse_websocket_frame
    ring_socket.Wire.Frame.get_is_masked ring_socket.Websocket.parse_opcode
    ring_socket.Wire.Frame.get_opcode ring_socket.Websocket.is_bad_control
    ring_socket.Wire.Frame.get_is_final ring_socket.Wire.Frame.get_payload_size
    ring_socket.Websocket.control_payload Tcp.write_tcp
ping_read = refl

pong_lem_example :
    (w : Worker) × (handle_websocket_io env no_call 4 (whole (with_peer pinging)) 2 ≡ some (ok, w))
    × ((fuel : ℕ) → handle_websocket_io env no_call fuel w 2 ≡ none)
pong_lem_example =
    pong_lem env no_call 3 (whole (with_peer pinging)) with_pong 2 (0x8A ∷ 0 ∷ []) refl refl
      ping_read (omega arith) refl refl refl
