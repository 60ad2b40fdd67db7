-- ===== src/Event.antt =====
-- rs_event.c: what happens to a peer on its layers when epoll reports events.
pub mod Dead
pub mod Settled
pub mod Websocket
pub mod Below
pub mod Layers
pub mod Loop
use ring_socket.Prelude.{
  ℕ, zero, suc, ◌+◌, Bool, true, false, not, ◌&&◌, Option, none, some, List, leb, if◌then◌else◌,
}
use ring_socket.Websocket.{Ret, ok, fatal}
use ring_socket.Peer.{Peer, Layer, tcp, tls, http, websocket, Mortality, live, dead}
use ring_socket.Tls.{init_tls_session, handle_tls_io}
use ring_socket.Tcp.{handle_tcp_io}
use ring_socket.Deadline.{is_overdue}
use ring_socket.Worker.{
  Worker, Env, Step, guard, tick, peer_of, put_peer, send_open_to_app, send_close_to_app,
}
use ring_socket.FromApp.Pending.{remove_pending_owrefs}
use ring_socket.Session.Handle.{handle_websocket_io}
use ring_socket.Http.Io.{Request, handle_http_io}

-- The flags of `events` that are looked at.
pub record Events : Type 0 where
  pub err : Bool
  pub hup : Bool
  pub rdhup : Bool
  pub out : Bool

abbrev pub no_events : Events
no_events = record { err = false; hup = false; rdhup = false; out = false }

abbrev pub same_layer : Layer → Layer → Bool
same_layer tcp tcp = true
same_layer tls tls = true
same_layer http http = true
same_layer websocket websocket = true
same_layer _ _ = false

abbrev pub is_live : Mortality → Bool
is_live live = true
is_live _ = false

abbrev pub declare_dead : Worker → ℕ → Worker
declare_dead worker peer_i =
    put_peer worker peer_i (record (peer_of worker peer_i) { mortality = dead })

module _ (env : Env) (key_hash : List ℕ → Option (List ℕ)) (parse : Worker → ℕ → Request) where
  -- The tests of EPOLLERR, EPOLLHUP and EPOLLRDHUP.
  unfoldable pub before_layers : Events → Worker → ℕ → Step
  unfolding send_close_to_app remove_pending_owrefs
  before_layers events worker peer_i =
      let on_websocket = same_layer (peer_of worker peer_i).layer websocket in
      if events.err
      then if on_websocket
        then guard (send_close_to_app env (declare_dead worker peer_i) peer_i) (λ told.
          elim (remove_pending_owrefs env told peer_i) [
            | none ↦ none
            | some dropped ↦ some (ok, dropped)
          ])
        else some (ok, declare_dead worker peer_i)
      else if events.hup
      then if on_websocket then some (ok, worker) else some (ok, declare_dead worker peer_i)
      else if events.rdhup
      then if on_websocket then some (ok, worker) else some (ok, declare_dead worker peer_i)
      else some (ok, worker)

  -- The call of `handle_tcp_io`.
  unfoldable pub tcp_io : Worker → ℕ → Step
  unfolding handle_tcp_io init_tls_session
  tcp_io worker peer_i =
      let t = worker.clock in
      elim (handle_tcp_io (init_tls_session (env.ssl_new t) (env.ssl_set_fd t)) (env.shutdown t)
        (env.reads t) worker.net peer_i) [
          | none ↦ none
          | some (ret, net) ↦ some (ret, tick (record worker { net = net }))
        ]

  -- The call of `handle_tls_io`.
  unfoldable pub tls_io : Worker → ℕ → Step
  unfolding handle_tls_io
  tls_io worker peer_i =
      let (ret, peer) = handle_tls_io (env.tls worker.clock) (peer_of worker peer_i) in
      some (ret, tick (put_peer worker peer_i peer))

  -- The `switch` on the layer, less the end of the case RS_LAYER_HTTP.
  unfoldable pub layer_io : (Worker → ℕ → Step) → ℕ → Worker → ℕ → Step
  unfolding tcp_io tls_io handle_http_io handle_websocket_io
  layer_io handle fuel worker peer_i = elim (peer_of worker peer_i).layer [
    | tcp ↦ tcp_io worker peer_i
    | tls ↦ tls_io worker peer_i
    | http ↦ handle_http_io env key_hash parse worker peer_i
    | websocket ↦ handle_websocket_io env handle fuel worker peer_i
  ]

  -- Whether the peer has just been upgraded.
  abbrev pub is_upgraded : Layer → Worker → ℕ → Bool
  is_upgraded layer worker peer_i =
      same_layer layer http && same_layer (peer_of worker peer_i).layer websocket

  -- The `do` loop, on fuel for that many rounds.
  unfoldable pub over_layers : (Worker → ℕ → Step) → ℕ → ℕ → Worker → ℕ → Step
  unfolding layer_io send_open_to_app
  over_layers handle reads zero worker peer_i = none
  over_layers handle reads (suc fuel) worker peer_i =
      let layer = (peer_of worker peer_i).layer in
      guard (layer_io handle reads worker peer_i) (λ after. elim (is_upgraded layer after peer_i) [
        | true ↦ send_open_to_app env after peer_i
        | false ↦ elim (same_layer (peer_of after peer_i).layer layer) [
          | true ↦ some (ok, after)
          | false ↦ over_layers handle reads fuel after peer_i
        ]
      ])

  -- The call of `handle_peer_events` on the WebSocket layer, and the calls in it of the same function,
  -- are counted by `depth`; `reads` is the fuel of the loops of `handle_websocket_io`.
  unfoldable pub handle_peer_events : ℕ → ℕ → Events → Worker → ℕ → Step
  unfolding before_layers over_layers
  handle_peer_events reads zero events worker peer_i = none
  handle_peer_events reads (suc depth) events worker peer_i =
      guard (before_layers events worker peer_i) (λ begun.
        let peer = peer_of begun peer_i in
        elim (peer.is_writing && (not events.out && is_live peer.mortality)) [
          | true ↦ some (ok, begun)
          | false ↦ over_layers (handle_peer_events reads depth no_events) reads 5 begun peer_i
        ])

  -- `enforce_shutdown_deadlines`, from the peer `i` on, with at most `fuel` of them to go:
  -- `highest_peer_i` only ever falls while it runs.
  unfoldable pub enforce_from : ℕ → ℕ → ℕ → ℕ → ℕ → Worker → Step
  unfolding handle_peer_events is_overdue
  enforce_from reads depth timestamp zero i worker = some (ok, worker)
  enforce_from reads depth timestamp (suc fuel) i worker = elim (leb i worker.net.highest_peer_i) [
    | false ↦ some (ok, worker)
    | true ↦ elim (is_overdue timestamp (peer_of worker i)) [
      | false ↦ enforce_from reads depth timestamp fuel (i + 1) worker
      | true ↦
          guard (handle_peer_events reads depth no_events (declare_dead worker i) i)
            (enforce_from reads depth timestamp fuel (i + 1))
    ]
  ]
