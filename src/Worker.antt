-- ===== src/Worker.antt =====
-- rs_worker.h: the state of a worker thread as a whole, and the calls that go through its parts. What
-- the kernel, OpenSSL and the other threads answer depends on how often they were asked before, which
-- is what `clock` counts.
use ring_socket.Prelude.{
  ℕ, ◌+◌, Bool, false, Option, none, some, List, if◌then◌else◌, ◌==◌, get_or, set,
}
use ring_socket.Websocket.{Ret, ok, fatal, DataKind, bin, Conf}
use ring_socket.Websocket
use ring_socket.Peer.{Peer}
use ring_socket.Tcp.{Read, read_tcp, Written, write_tcp, Shutdown, Reads, peer_at, set_peer}
use ring_socket.Tcp
use ring_socket.Tls.{SslRead, read_tls, Ssl, write_tls, Answers}
use ring_socket.Owref
use ring_socket.Queue.{Queue, Shared, Update, no_update, store_relaxed, target, enqueue_ring_update}
use ring_socket.Ring.{Heap, Producer}
use ring_socket.ToApp.{
  InboundMsg, InboundKind, inbound_open, inbound_read, inbound_close, Sent, refused, sent, endless,
  send_msg_to_app,
}

-- `struct rs_worker`
pub record Worker : Type 0 where
  pub net : Tcp.Worker
  pub reader : Websocket.Worker
  pub refs : Owref.Worker
  pub queue : Queue
  pub shared : Shared
  pub heap : Heap
  pub inbound_producers : List Producer
  pub clock : ℕ

-- The configuration, and the answers of everything outside of the worker. `uninitialized` is what the
-- memory that `realloc` adds holds, and `moved_left` what `move_left` makes of the bytes of the
-- references, which are not modelled; `realloc_multiplier` gives the product of a size and the member
-- of that name, a `double`, cut to an integer.
pub record Env : Type 0 where
  pub little : Bool
  pub conf : Conf
  pub worker_rbuf_size : ℕ
  pub shutdown_wait_ws : ℕ
  pub shutdown_wait_http : ℕ
  pub realloc_multiplier : ℕ → ℕ
  pub wants_open_notification : ℕ → Bool
  pub wants_close_notification : ℕ → Bool
  pub endpoint_id : ℕ → ℕ → ℕ
  pub alloc : ℕ → Option ℕ
  pub grow : ℕ → ℕ
  pub wakes : ℕ → Bool
  pub has_memory : ℕ → Bool
  pub time : ℕ → ℕ
  pub loaded_r : ℕ → ℕ → ℕ
  pub read : ℕ → ℕ → Read
  pub write : ℕ → ℕ → Written
  pub ssl_read : ℕ → ℕ → SslRead
  pub ssl_write : ℕ → List ℕ → Ssl
  pub ssl_new : ℕ → ℕ
  pub ssl_set_fd : ℕ → Bool
  pub tls : ℕ → Answers
  pub shutdown : ℕ → Shutdown
  pub reads : ℕ → Reads
  pub uninitialized : ℕ → Owref.Owref
  pub moved_left : List Owref.Owref → ℕ → ℕ → List Owref.Owref

-- What a call returns, and the worker then; `none` is a loop without end, or an access that C leaves
-- undefined.
abbrev pub Step : Type 0
Step = Option (Ret × Worker)

-- RS_GUARD
abbrev pub guard : Step → (Worker → Step) → Step
guard none next = none
guard (some (ok, worker)) next = next worker
guard (some (ret, worker)) next = some (ret, worker)

abbrev pub tick : Worker → Worker
tick worker = record worker { clock = worker.clock + 1 }

abbrev pub peer_of : Worker → ℕ → Peer
peer_of worker i = peer_at worker.net i

abbrev pub put_peer : Worker → ℕ → Peer → Worker
put_peer worker i peer = record worker { net = set_peer worker.net i peer }

-- `peer->is_encrypted ? read_tls(...) : read_tcp(...)`
unfoldable pub read_peer : Env → Worker → ℕ → ℕ → (Ret × List ℕ) × Worker
read_peer env worker i room =
    let peer = peer_of worker i in
    let (answer, peer') =
      if peer.is_encrypted
      then read_tls (env.ssl_read worker.clock room) peer
      else read_tcp (env.read worker.clock room) peer in
    (answer, tick (put_peer worker i peer'))

-- `peer->is_encrypted ? write_tls(...) : write_tcp(...)`
unfoldable pub write_peer : Env → Worker → ℕ → List ℕ → Ret × Worker
write_peer env worker i wbuf =
    let peer = peer_of worker i in
    let (ret, peer') =
      if peer.is_encrypted
      then write_tls (env.ssl_write worker.clock wbuf) peer
      else write_tcp (env.write worker.clock) peer wbuf in
    (ret, tick (put_peer worker i peer'))

-- The atomics when the thread of the oldest update could not be woken up.
abbrev pub not_woken : Queue → Shared → Shared
not_woken q s =
    let u = get_or q.updates q.oldest_i no_update in
    record (store_relaxed s (target false u.is_write) u.thread_i u.ring_position) {
      is_asleep = λ j. if j == u.thread_i then false else s.is_asleep j;
    }

-- What an `enqueue_ring_update` whose result is ignored leaves behind.
abbrev pub after_enqueue : Worker → Option (Queue × Shared) → Worker
after_enqueue worker none = record worker { shared = not_woken worker.queue worker.shared }
after_enqueue worker (some (queue, shared)) = record worker { queue = queue; shared = shared }

-- `enqueue_ring_update` of rs_worker.c
unfoldable pub enqueue : Env → Worker → Update → Worker
enqueue env worker update =
    after_enqueue worker (enqueue_ring_update env.wakes false worker.queue worker.shared update)

abbrev pub no_producer : Producer
no_producer = record { ring = 0; w = 0; prev_ring = 0; ring_size = 0 }

abbrev pub producer_of : Worker → ℕ → Producer
producer_of worker app_i = get_or worker.inbound_producers app_i no_producer

-- With RS_FATAL, with which the thread ends, what the call changed is left out.
abbrev pub after_sent : Worker → ℕ → Sent → Step
after_sent worker app_i refused = some (fatal, tick worker)
after_sent worker app_i (sent heap p result) =
    let stored = record worker {
      heap = heap;
      inbound_producers = set worker.inbound_producers app_i p;
    } in
    some (ok, tick (after_enqueue stored result))
after_sent worker app_i endless = none

module _ (env : Env) where
  unfoldable pub send_to_app : Worker → ℕ → ℕ → DataKind → InboundKind → Step
  send_to_app worker peer_i data_size data_kind inbound_kind =
      let peer = peer_of worker peer_i in
      let imsg : InboundMsg = record {
        peer_i = peer_i;
        socket_fd = peer.socket_fd;
        endpoint_id = env.endpoint_id peer.app_i peer.endpoint_i;
        data_kind = data_kind;
        inbound_kind = inbound_kind;
      } in
      after_sent worker peer.app_i (
        send_msg_to_app env.alloc env.grow env.wakes env.little worker.heap
          (producer_of worker peer.app_i) (env.loaded_r worker.clock peer.app_i) worker.queue
          worker.shared peer.app_i worker.reader.rbuf imsg data_size)

  unfoldable pub send_open_to_app : Worker → ℕ → Step
  unfolding send_to_app
  send_open_to_app worker peer_i =
      if env.wants_open_notification (peer_of worker peer_i).app_i
      then send_to_app worker peer_i 0 bin inbound_open
      else some (ok, worker)

  unfoldable pub send_read_to_app : Worker → ℕ → ℕ → DataKind → Step
  unfolding send_to_app
  send_read_to_app worker peer_i data_size data_kind =
      send_to_app worker peer_i data_size data_kind inbound_read

  unfoldable pub send_close_to_app : Worker → ℕ → Step
  unfolding send_to_app
  send_close_to_app worker peer_i =
      if env.wants_close_notification (peer_of worker peer_i).app_i
      then send_to_app worker peer_i 0 bin inbound_close
      else some (ok, worker)
