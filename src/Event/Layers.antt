-- ===== src/Event/Layers.antt =====
-- The results of `handle_peer_events`.
use ring_socket.Prelude.{ℕ, zero, suc, ◌≡◌, refl, Bool, true, false, Option, none, some, List}
use ring_socket.Websocket.{Ret, ok, again, close_peer, fatal}
use ring_socket.Peer.{Layer, tcp, tls, http, websocket}
use ring_socket.Tcp
use ring_socket.Tcp.{
  Shutdown, done, not_connected, failed, Reads, more, end_of_stream, no_more, handle_tcp_io,
  terminate_tcp, close_read, write_bidirectional_tcp_shutdown, read_bidirectional_tcp_shutdown,
  peer_at, set_peer,
}
use ring_socket.Tls.{handle_tls_io, init_tls_session}
use ring_socket.Worker.{Worker, Env, Step, peer_of, send_close_to_app}
use ring_socket.Http.Io.{
  Request, handle_http_io, after_request, write_http_upgrade, write_http_error, terminate_http,
  write_http_upgrade_response, write_http_error_response, set_char_buf,
}
use ring_socket.Event.{
  Events, no_events, before_layers, tcp_io, tls_io, layer_io, is_upgraded, same_layer, over_layers,
  handle_peer_events, declare_dead,
}
use ring_socket.FromApp.Pending.{remove_pending_owrefs}
use ring_socket.Event.Settled.{
  Settled, none-Settled, ok-Settled, fatal-Settled, guard-Settled, if-Settled, ret-Settled,
  mortality-Settled, continuation-Settled, send_open-Settled, send_close-Settled, option-Settled,
}
use ring_socket.Event.Websocket.{handle_websocket_io-Settled}
use ring_socket.Event.Below.{
  IsNetDone, handle_tls_io-IsDone, init-IsDone, handle_tcp_io-IsNetDone, done-Settled,
}

-- What the calls of the layers return for a worker.
module _ (env : Env) (key_hash : List ℕ → Option (List ℕ)) (parse : Worker → ℕ → Request) where
  tcp_io-Settled : (worker : Worker) (i : ℕ) → Settled (tcp_io env key_hash parse worker i)
  unfolding tcp_io
  tcp_io-Settled worker i =
      let t = worker.clock in
      let init = init_tls_session (env.ssl_new t) (env.ssl_set_fd t) in
      go (handle_tcp_io init (env.shutdown t) (env.reads t) worker.net i) refl (
        handle_tcp_io-IsNetDone init (init-IsDone (env.ssl_new t) (env.ssl_set_fd t))
          (env.shutdown t) (env.reads t) worker.net i)
    where
      go :
          (o : Option (Ret × Tcp.Worker))
          → handle_tcp_io
              (init_tls_session (env.ssl_new worker.clock) (env.ssl_set_fd worker.clock))
              (env.shutdown worker.clock)
              (env.reads worker.clock)
              worker.net
              i
            ≡ o
          → IsNetDone o
          → Settled (tcp_io env key_hash parse worker i)
      go none e d = rw (tcp_io, e) none-Settled
      go (some (ret, w)) e d = rw (tcp_io, e) (done-Settled ret _ d)

  tls_io-Settled : (worker : Worker) (i : ℕ) → Settled (tls_io env key_hash parse worker i)
  unfolding tls_io
  tls_io-Settled worker i =
      done-Settled (handle_tls_io (env.tls worker.clock) (peer_of worker i)).0 _
        (handle_tls_io-IsDone (env.tls worker.clock) (peer_of worker i))

  terminate_http-Settled : (worker : Worker) (i : ℕ) → Settled (terminate_http worker i)
  unfolding terminate_http
  terminate_http-Settled worker i = ok-Settled _

  write_http_error-Settled : (worker : Worker) (i : ℕ) → Settled (write_http_error env worker i)
  unfolding write_http_error
  write_http_error-Settled worker i =
      ret-Settled (write_http_error_response env worker i).0 (ok-Settled _) (ok-Settled _)
        (terminate_http-Settled _ i) (fatal-Settled _)

  write_http_upgrade-Settled :
      (worker : Worker) (i : ℕ) (wskey : Option (List ℕ))
      → Settled (write_http_upgrade env key_hash worker i wskey)
  unfolding write_http_upgrade
  write_http_upgrade-Settled worker i wskey =
      go (write_http_upgrade_response env key_hash worker i wskey) refl
    where
      go :
          (step : Step)
          → write_http_upgrade_response env key_hash worker i wskey ≡ step
          → Settled (write_http_upgrade env key_hash worker i wskey)
      go none e = rw (write_http_upgrade, e) none-Settled
      go (some (ok, w)) e = rw (write_http_upgrade, e) (ok-Settled _)
      go (some (again, w)) e = rw (write_http_upgrade, e) (ok-Settled _)
      go (some (close_peer, w)) e = rw (write_http_upgrade, e) (terminate_http-Settled w i)
      go (some (fatal, w)) e = rw (write_http_upgrade, e) (fatal-Settled w)

  after_request-Settled : (i : ℕ) (r : Request) → Settled (after_request env key_hash i r)
  unfolding after_request
  after_request-Settled i ((ok, wskey), w) = write_http_upgrade-Settled w i wskey
  after_request-Settled i ((again, wskey), w) = ok-Settled _
  after_request-Settled i ((close_peer, wskey), w) =
      let freed = set_char_buf w i none in
      mortality-Settled (peer_of freed i).mortality (terminate_http-Settled freed i)
        (write_http_error-Settled freed i) (terminate_http-Settled freed i)
        (terminate_http-Settled freed i)
  after_request-Settled i ((fatal, wskey), w) = fatal-Settled w

  http_io-Settled : (worker : Worker) (i : ℕ) → Settled (handle_http_io env key_hash parse worker i)
  unfolding handle_http_io
  http_io-Settled worker i =
      let request = after_request-Settled i (parse worker i) in
      mortality-Settled (peer_of worker i).mortality
        (continuation-Settled (peer_of worker i).continuation request request
          (write_http_upgrade-Settled worker i none))
        (write_http_error-Settled worker i) (terminate_http-Settled worker i)
        (terminate_http-Settled worker i)

  layer_io-Settled :
      (handle : Worker → ℕ → Step) (reads : ℕ) (worker : Worker) (i : ℕ)
      → Settled (layer_io env key_hash parse handle reads worker i)
  unfolding layer_io
  layer_io-Settled handle reads worker i = go (peer_of worker i).layer refl
    where
      go :
          (l : Layer)
          → (peer_of worker i).layer ≡ l
          → Settled (layer_io env key_hash parse handle reads worker i)
      go tcp e = rw (layer_io, e) (tcp_io-Settled worker i)
      go tls e = rw (layer_io, e) (tls_io-Settled worker i)
      go http e = rw (layer_io, e) (http_io-Settled worker i)
      go websocket e = rw (layer_io, e) (handle_websocket_io-Settled env handle reads worker i)

  bool-Settled :
      (b : Bool) {x y : Step} → Settled x → Settled y → Settled (elim b [ true ↦ x | false ↦ y ])
  bool-Settled true p q = p
  bool-Settled false p q = q

  over_layers-Settled :
      (handle : Worker → ℕ → Step) (reads fuel : ℕ) (worker : Worker) (i : ℕ)
      → Settled (over_layers env key_hash parse handle reads fuel worker i)
  unfolding over_layers
  over_layers-Settled handle reads zero worker i = none-Settled
  over_layers-Settled handle reads (suc fuel) worker i =
      let layer = (peer_of worker i).layer in
      guard-Settled (layer_io env key_hash parse handle reads worker i) _
        (layer_io-Settled handle reads worker i)
        (λ after.
          bool-Settled (is_upgraded env key_hash parse layer after i)
            (send_open-Settled env after i)
            (bool-Settled (same_layer (peer_of after i).layer layer) (ok-Settled after)
              (over_layers-Settled handle reads fuel after i)))

  before_layers-Settled :
      (events : Events) (worker : Worker) (i : ℕ)
      → Settled (before_layers env key_hash parse events worker i)
  unfolding before_layers
  before_layers-Settled events worker i =
      let on_websocket = same_layer (peer_of worker i).layer websocket in
      let buried = declare_dead worker i in
      if-Settled events.err
        (if-Settled on_websocket
          (guard-Settled (send_close_to_app env buried i) _ (send_close-Settled env buried i)
            (λ told. option-Settled (remove_pending_owrefs env told i) _ ok-Settled))
          (ok-Settled buried))
        (if-Settled events.hup (if-Settled on_websocket (ok-Settled worker) (ok-Settled buried)) (
          if-Settled events.rdhup (if-Settled on_websocket (ok-Settled worker) (ok-Settled buried))
            (ok-Settled worker)))

  -- Whatever the events, the peer's bytes and the answers of the kernel, OpenSSL and the parser of
  -- the HTTP request are, `handle_peer_events` returns RS_OK or RS_FATAL, if it ends and C does not
  -- leave it undefined: no handler of a layer lets RS_AGAIN or RS_CLOSE_PEER out, which would end the
  -- worker's loop.
  pub peer_events_lem :
      (reads depth : ℕ) (events : Events) (worker : Worker) (i : ℕ)
      → Settled (handle_peer_events env key_hash parse reads depth events worker i)
  unfolding handle_peer_events
  peer_events_lem reads zero events worker i = none-Settled
  peer_events_lem reads (suc depth) events worker i =
      guard-Settled (before_layers env key_hash parse events worker i) _
        (before_layers-Settled events worker i)
        (λ begun. bool-Settled _ (ok-Settled begun) (
          over_layers-Settled (handle_peer_events env key_hash parse reads depth no_events) reads 5
            begun i))
