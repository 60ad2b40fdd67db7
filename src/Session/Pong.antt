-- ===== src/Session/Pong.antt =====
-- A pong that could not be sent at once.
use ring_socket.Prelude.{
  ℕ, zero, suc, ◌<◌, ◌≡◌, refl, ap, ◌∙◌, true, none, some, List, arith, length, ◌==◌,
  get_or-set_self, length-set,
}
use ring_socket.Websocket.{ok}
use ring_socket.Peer.{Peer, no_peer, live, cont_none, cont_parsing, WsUnion, pong}
use ring_socket.Worker.{Worker, Env, Step, peer_of}
use ring_socket.Session.Read.{read_websocket, begin_reading}
use ring_socket.Session.Handle.{
  set_continuation, parsing_part, parse_and_send, handle_live, handle_websocket_io,
}

module _ (env : Env) (handle : Worker → ℕ → Step) where
  peer-set_continuation :
      (w : Worker) (i : ℕ) (c : ring_socket.Peer.Continuation)
      → i < length w.net.peers
      → peer_of (set_continuation w i c) i ≡ record (peer_of w i) { continuation = c }
  peer-set_continuation w i c h =
      get_or-set_self no_peer w.net.peers i (record (peer_of w i) { continuation = c }) h

  -- A peer that keeps a pong is not read from.
  stuck_lem :
      (fuel : ℕ) (w : Worker) (i : ℕ) (frame : List ℕ)
      → i < length w.net.peers
      → (peer_of w i).mortality ≡ live
      → (peer_of w i).continuation ≡ cont_none
      → (peer_of w i).ws ≡ pong frame
      → handle_websocket_io env handle fuel w i ≡ none
  unfolding handle_websocket_io handle_live parse_and_send parsing_part read_websocket begin_reading
  stuck_lem zero w i frame h m c p = rw (handle_websocket_io, m, handle_live, c) refl
  stuck_lem (suc fuel) w i frame h m c p =
      let kept : (peer_of (set_continuation w i cont_parsing) i).ws ≡ pong frame =
        ap (λ q. q.ws) (peer-set_continuation w i cont_parsing h) ∙ p in
      let unread : read_websocket env fuel (set_continuation w i cont_parsing) i ≡ none =
        rw (read_websocket, begin_reading, kept) refl in
      rw (handle_websocket_io, m, handle_live, c, parse_and_send, parsing_part, unread) refl

  -- When `read_websocket` of a live peer leaves a pong in the peer's union, to be sent later, and no
  -- messages of apps are pending, then `handle_websocket_io` returns RS_OK without a state to send it
  -- in; and its next call takes the pong for a saved state of the parser, whatever it is called with.
  pub pong_lem :
      (fuel : ℕ) (worker w : Worker) (i : ℕ) (frame : List ℕ)
      → (peer_of worker i).mortality ≡ live
      → (peer_of worker i).continuation ≡ cont_none
      → read_websocket env fuel (set_continuation worker i cont_parsing) i ≡ some (ok, w)
      → i < length w.net.peers
      → (peer_of w i).mortality ≡ live
      → (peer_of w i).owref_c ≡ 0
      → (peer_of w i).ws ≡ pong frame
      → (w' : Worker) × (handle_websocket_io env handle (suc fuel) worker i ≡ some (ok, w'))
        × ((fuel' : ℕ) → handle_websocket_io env handle fuel' w' i ≡ none)
  unfolding handle_websocket_io handle_live parse_and_send parsing_part
  pong_lem fuel worker w i frame m c e h m' o p =
      let after = set_continuation w i cont_none in
      let at = peer-set_continuation w i cont_none h in
      let idle : ((peer_of w i).owref_c == 0) ≡ true = ground arith in
      (
        after,
        rw (handle_websocket_io, m, handle_live, c, parse_and_send, parsing_part, e, idle) refl,
        λ fuel'.
            stuck_lem fuel' after i frame
              (omega (
                arith,
                length-set w.net.peers i (record (peer_of w i) { continuation = cont_none }),
              ))
              (ap (λ q. q.mortality) at ∙ m') (ap (λ q. q.continuation) at) (ap (λ q. q.ws) at ∙ p),
      )
