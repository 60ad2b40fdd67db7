-- ===== src/Event/Dead.antt =====
-- A peer that was declared dead.
use mathlib.Core.Option.{none-ne-some, some-injective}
use ring_socket.Prelude.{
  if◌then◌else◌, ltb, ℕ, suc, ◌<◌, ◌≡◌, ◌≢◌, refl, sym, ap, ◌∙◌, Bool, true, false, Option, none,
  some, List, length, set, arith, get_or-set_self, get_or-set_ne, length-set,
}
use ring_socket.Websocket.{Ret, ok}
use ring_socket.Peer.{Peer, no_peer, Layer, tcp, tls, http, websocket, dead}
use ring_socket.Slot.{Slots, free_slot}
use ring_socket.Tcp.{
  highest_below, terminate_tcp, peer_at, set_peer, handle_tcp_io, Shutdown, Reads,
}
use ring_socket.Tcp
use ring_socket.Tcp.Peers.{IsValid, set_peer-IsValid, handle_tcp_io_lem}
use ring_socket.Tls.{init_tls_session}
use ring_socket.Worker.{guard, Worker, Env, Step, peer_of, put_peer, tick}
use ring_socket.Http.Io.{Request, handle_http_io, terminate_http}
use ring_socket.Session.Handle.{handle_websocket_io, terminate_ws, lower_layer}
use ring_socket.Outbound.Clients.{and_false}
use mathlib.Core.Path.{subst}
use ring_socket.Tls.{handle_tls_io, terminate_tls}
use ring_socket.Event.{
  no_events, handle_peer_events, before_layers, tls_io, same_layer, is_upgraded, tcp_io,
  over_layers, layer_io,
}

-- The slot of the peer is free, the table of the peers is in order, and no other peer has changed.
pub record Freed (worker : Worker) (i : ℕ) (w : Worker) : Type 0 where
  pub gone : peer_of w i ≡ no_peer
  pub valid : IsValid w.net
  pub others : (j : ℕ) → j ≢ i → peer_of w j ≡ peer_of worker j

terminated :
    (worker : Tcp.Worker) (i : ℕ) (ret : Ret) (w : Tcp.Worker)
    → i < length worker.peers
    → terminate_tcp worker i ≡ some (ret, w)
    → (ret ≡ ok) × (peer_at w i ≡ no_peer)
unfolding terminate_tcp
terminated worker i ret w h e = go (free_slot worker.peer_slots i) refl
  where
    after : Slots → Tcp.Worker
    after slots = record {
      peers = set worker.peers i no_peer;
      peer_slots = slots;
      highest_peer_i =
          if ltb i worker.highest_peer_i
          then worker.highest_peer_i
          else highest_below (set worker.peers i no_peer) i;
    }

    go :
        (slots : Option Slots)
        → free_slot worker.peer_slots i ≡ slots
        → (ret ≡ ok) × (peer_at w i ≡ no_peer)
    go none f =
        let stuck : terminate_tcp worker i ≡ none = rw (terminate_tcp, f) refl in
        absurd (none-ne-some (ret, w) (sym stuck ∙ e))
    go (some slots) f =
        let done : terminate_tcp worker i ≡ some (ok, after slots) = rw (terminate_tcp, f) refl in
        let same : (ret, w) ≡ (ok, after slots) =
          some-injective (ret, w) (ok, after slots) (sym e ∙ done) in
        (
          ap (λ x. x.0) same,
          ap (λ x. peer_at x.1 i) same ∙ get_or-set_self no_peer worker.peers i no_peer h,
        )

init-socket_fd :
    (ssl_new : ℕ) (is_set : Bool) (p : Peer)
    → (init_tls_session ssl_new is_set p).1.socket_fd ≡ p.socket_fd
unfolding init_tls_session
init-socket_fd ssl_new is_set p = ground arith

module _ (env : Env) (key_hash : List ℕ → Option (List ℕ)) (parse : Worker → ℕ → Request) where
  abbrev pub IsFreed : Worker → ℕ → Step → Type 0
  IsFreed worker i step = (w : Worker) × (step ≡ some (ok, w)) × Freed worker i w

  tcp_io-Freed :
      (worker : Worker) (i : ℕ)
      → IsValid worker.net
      → i < length worker.net.peers
      → (peer_of worker i).mortality ≡ dead
      → IsFreed worker i (tcp_io env key_hash parse worker i)
  unfolding tcp_io
  tcp_io-Freed worker i v h d =
      let t = worker.clock in
      let init = init_tls_session (env.ssl_new t) (env.ssl_set_fd t) in
      let (ret, w, e, valid, others) =
        handle_tcp_io_lem init (init-socket_fd (env.ssl_new t) (env.ssl_set_fd t)) (env.shutdown t)
          (env.reads t) worker.net i v h in
      let ends : handle_tcp_io init (env.shutdown t) (env.reads t) worker.net i
          ≡ terminate_tcp worker.net i =
        rw (handle_tcp_io, d) refl in
      let (fine, gone) = terminated worker.net i ret w h (sym ends ∙ e) in
      (
        tick (record worker { net = w }),
        rw (tcp_io, e, fine) refl,
        record { gone = gone; valid = valid; others = others },
      )

  -- A worker where only the peer has changed, which is dead still, and has its socket still.
  record Lowered (worker : Worker) (i : ℕ) (after : Worker) (p : Peer) : Type 0 where
    there : after.net ≡ set_peer worker.net i p
    is_dead : p.mortality ≡ dead
    same_fd : p.socket_fd ≡ (peer_of worker i).socket_fd

  Lowered-peer :
      (worker : Worker) (i : ℕ) (after : Worker) (p : Peer)
      → i < length worker.net.peers
      → Lowered worker i after p
      → peer_of after i ≡ p
  Lowered-peer worker i after p h l =
      ap (λ n. peer_at n i) l.there ∙ get_or-set_self no_peer worker.net.peers i p h

  Lowered-IsFreed :
      (worker : Worker) (i : ℕ) (after : Worker) (p : Peer) (step : Step)
      → Lowered worker i after p
      → IsFreed after i step
      → IsFreed worker i step
  Lowered-IsFreed worker i after p step l (w, e, f) = (
    w,
    e,
    record {
      gone = f.gone;
      valid = f.valid;
      others = λ j ne.
          f.others j ne
          ∙ ap (λ n. peer_at n j) l.there
          ∙ get_or-set_ne no_peer worker.net.peers i j p ne;
    },
  )

  -- One round of the loop, which leaves the layer for a lower one.
  over_layers_once :
      (handle : Worker → ℕ → Step) (reads fuel : ℕ) (worker after : Worker) (i : ℕ)
      → layer_io env key_hash parse handle reads worker i ≡ some (ok, after)
      → is_upgraded env key_hash parse (peer_of worker i).layer after i ≡ false
      → same_layer (peer_of after i).layer (peer_of worker i).layer ≡ false
      → over_layers env key_hash parse handle reads (suc fuel) worker i
        ≡ over_layers env key_hash parse handle reads fuel after i
  unfolding over_layers
  over_layers_once handle reads fuel worker after i e up same =
      rw (over_layers, e, guard, up, same) refl

  over_layers_last :
      (handle : Worker → ℕ → Step) (reads fuel : ℕ) (worker after : Worker) (i : ℕ)
      → layer_io env key_hash parse handle reads worker i ≡ some (ok, after)
      → is_upgraded env key_hash parse (peer_of worker i).layer after i ≡ false
      → same_layer (peer_of after i).layer (peer_of worker i).layer ≡ true
      → over_layers env key_hash parse handle reads (suc fuel) worker i ≡ some (ok, after)
  unfolding over_layers
  over_layers_last handle reads fuel worker after i e up same =
      rw (over_layers, e, guard, up, same) refl

  -- What the layer below finds: a worker in order, and the peer dead there.
  record Ready (worker : Worker) (i : ℕ) (layer : Layer) : Type 0 where
    valid : IsValid worker.net
    inside : i < length worker.net.peers
    is_dead : (peer_of worker i).mortality ≡ dead
    at_layer : (peer_of worker i).layer ≡ layer

  Lowered-Ready :
      (worker : Worker) (i : ℕ) (after : Worker) (p : Peer) (layer : Layer)
      → IsValid worker.net
      → i < length worker.net.peers
      → Lowered worker i after p
      → p.layer ≡ layer
      → Ready after i layer
  Lowered-Ready worker i after p layer v h l e =
      let here = Lowered-peer worker i after p h l in
      record {
        valid = subst IsValid (sym l.there) (set_peer-IsValid i worker.net p v h l.same_fd);
        inside =
            subst (λ n. i < length n.peers) (sym l.there)
              (omega (arith, length-set worker.net.peers i p));
        is_dead = ap (λ q. q.mortality) here ∙ l.is_dead;
        at_layer = ap (λ q. q.layer) here ∙ e;
      }

  over_tcp :
      (handle : Worker → ℕ → Step) (reads fuel : ℕ) (worker : Worker) (i : ℕ)
      → Ready worker i tcp
      → IsFreed worker i (over_layers env key_hash parse handle reads (suc fuel) worker i)
  unfolding over_layers layer_io
  over_tcp handle reads fuel worker i r =
      let l = r.at_layer in
      let (w, e, f) = tcp_io-Freed worker i r.valid r.inside r.is_dead in
      let down : layer_io env key_hash parse handle reads worker i ≡ some (ok, w) =
        rw (layer_io, l, e) refl in
      (w, over_layers_last handle reads fuel worker w i down (rw l refl) (rw (l, f.gone) refl), f)

  -- A round that leaves a layer above the one that follows it.
  over_upper :
      (handle : Worker → ℕ → Step) (reads fuel : ℕ) (worker after : Worker) (i : ℕ) (p : Peer)
      (below : Layer)
      → i < length worker.net.peers
      → layer_io env key_hash parse handle reads worker i ≡ some (ok, after)
      → Lowered worker i after p
      → p.layer ≡ below
      → same_layer below (peer_of worker i).layer ≡ false
      → same_layer below websocket ≡ false
      → IsFreed after i (over_layers env key_hash parse handle reads fuel after i)
      → IsFreed worker i (over_layers env key_hash parse handle reads (suc fuel) worker i)
  over_upper handle reads fuel worker after i p below h e l b changes lower rest =
      let here : (peer_of after i).layer ≡ below =
        ap (λ q. q.layer) (Lowered-peer worker i after p h l) ∙ b in
      let up : is_upgraded env key_hash parse (peer_of worker i).layer after i ≡ false =
        rw (here, lower) (and_false (same_layer (peer_of worker i).layer http)) in
      let again : over_layers env key_hash parse handle reads (suc fuel) worker i
          ≡ over_layers env key_hash parse handle reads fuel after i =
        over_layers_once handle reads fuel worker after i e up (rw here changes) in
      Lowered-IsFreed worker i after p
        (over_layers env key_hash parse handle reads (suc fuel) worker i) l
        (subst (λ step. IsFreed after i step) (sym again) rest)

  over_tls :
      (handle : Worker → ℕ → Step) (reads fuel : ℕ) (worker : Worker) (i : ℕ)
      → Ready worker i tls
      → IsFreed worker i (over_layers env key_hash parse handle reads (suc (suc fuel)) worker i)
  unfolding layer_io tls_io handle_tls_io
  over_tls handle reads fuel worker i r =
      let p = record (peer_of worker i) { old_wsize = 0; layer = tcp; mortality = dead } in
      let after = tick (put_peer worker i p) in
      let l : Lowered worker i after p = record { there = refl; is_dead = refl; same_fd = refl } in
      over_upper handle reads (suc fuel) worker after i p tcp r.inside
        (rw (layer_io, r.at_layer, tls_io, handle_tls_io, r.is_dead, terminate_tls, r.is_dead) refl)
        l refl (rw r.at_layer refl) refl
        (over_tcp handle reads fuel after i
          (Lowered-Ready worker i after p tcp r.valid r.inside l refl))

  -- From the upper layers a dead peer goes to TLS or to TCP.
  over_highest :
      (handle : Worker → ℕ → Step) (reads fuel : ℕ) (worker after : Worker) (i : ℕ) (p : Peer)
      (layer : Layer)
      → Ready worker i layer
      → same_layer tls layer ≡ false
      → same_layer tcp layer ≡ false
      → layer_io env key_hash parse handle reads worker i ≡ some (ok, after)
      → Lowered worker i after p
      → (b : Bool) → p.layer ≡ (if b then tls else tcp)
      → IsFreed worker i
          (over_layers env key_hash parse handle reads (suc (suc (suc fuel))) worker i)
  over_highest handle reads fuel worker after i p layer r not_tls not_tcp e l true down =
      over_upper handle reads (suc (suc fuel)) worker after i p tls r.inside e l down
        (rw r.at_layer not_tls) refl
        (over_tls handle reads fuel after i
          (Lowered-Ready worker i after p tls r.valid r.inside l down))
  over_highest handle reads fuel worker after i p layer r not_tls not_tcp e l false down =
      over_upper handle reads (suc (suc fuel)) worker after i p tcp r.inside e l down
        (rw r.at_layer not_tcp) refl
        (over_tcp handle reads (suc fuel) after i
          (Lowered-Ready worker i after p tcp r.valid r.inside l down))

  over_http :
      (handle : Worker → ℕ → Step) (reads fuel : ℕ) (worker : Worker) (i : ℕ)
      → Ready worker i http
      → IsFreed worker i
          (over_layers env key_hash parse handle reads (suc (suc (suc fuel))) worker i)
  unfolding layer_io handle_http_io terminate_http
  over_http handle reads fuel worker i r =
      let p = lower_layer (record (peer_of worker i) { char_buf = none; mortality = dead }) in
      over_highest handle reads fuel worker (put_peer worker i p) i p http r refl refl
        (rw (layer_io, r.at_layer, handle_http_io, r.is_dead, terminate_http) refl)
        (record { there = refl; is_dead = refl; same_fd = refl }) (peer_of worker i).is_encrypted
        refl

  over_websocket :
      (handle : Worker → ℕ → Step) (reads fuel : ℕ) (worker : Worker) (i : ℕ)
      → Ready worker i websocket
      → IsFreed worker i
          (over_layers env key_hash parse handle reads (suc (suc (suc fuel))) worker i)
  unfolding layer_io handle_websocket_io terminate_ws
  over_websocket handle reads fuel worker i r =
      let p = lower_layer (record (peer_of worker i) { mortality = dead }) in
      over_highest handle reads fuel worker (put_peer worker i p) i p websocket r refl refl
        (rw (layer_io, r.at_layer, handle_websocket_io, r.is_dead, terminate_ws, r.is_dead) refl)
        (record { there = refl; is_dead = refl; same_fd = refl }) (peer_of worker i).is_encrypted
        refl

  over_any :
      (handle : Worker → ℕ → Step) (reads fuel : ℕ) (worker : Worker) (i : ℕ) (layer : Layer)
      → Ready worker i layer
      → IsFreed worker i
          (over_layers env key_hash parse handle reads (suc (suc (suc fuel))) worker i)
  over_any handle reads fuel worker i tcp r = over_tcp handle reads (suc (suc fuel)) worker i r
  over_any handle reads fuel worker i tls r = over_tls handle reads (suc fuel) worker i r
  over_any handle reads fuel worker i http r = over_http handle reads fuel worker i r
  over_any handle reads fuel worker i websocket r = over_websocket handle reads fuel worker i r

  -- For a worker whose slots in use are those that the bitmap has as taken, and whose highest index is
  -- right, `handle_peer_events` with no events, of a peer that was declared dead, returns RS_OK,
  -- whatever layer the peer is on and whatever the kernel and OpenSSL answer. The peer's slot is free
  -- then, the other peers are as they were, and the slots and the highest index are right.
  pub dead_lem :
      (reads depth : ℕ) (worker : Worker) (i : ℕ)
      → IsValid worker.net
      → i < length worker.net.peers
      → (peer_of worker i).mortality ≡ dead
      → IsFreed worker i
          (handle_peer_events env key_hash parse reads (suc depth) no_events worker i)
  unfolding handle_peer_events before_layers
  dead_lem reads depth worker i v h d =
      let peer = peer_of worker i in
      let (w, e, f) =
        over_any (handle_peer_events env key_hash parse reads depth no_events) reads 2 worker i
          peer.layer (record { valid = v; inside = h; is_dead = d; at_layer = refl }) in
      (w, rw (handle_peer_events, before_layers, guard, d, and_false peer.is_writing) e, f)
