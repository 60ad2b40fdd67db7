-- ===== src/Event/Websocket.antt =====
-- The results of `handle_websocket_io`.
use ring_socket.Prelude.{
  ℕ, zero, suc, ◌≡◌, refl, none, some, ◌==◌, inl, inr, Bool-cases, Option-cases,
}
use ring_socket.Websocket.{Ret, ok, again, close_peer, fatal}
use ring_socket.Peer.{cont_parsing, WsUnion, null, storage, pong, close_frame}
use ring_socket.Worker.{Worker, Env, Step, peer_of, put_peer, write_peer, send_close_to_app}
use ring_socket.FromApp.Pending.{remove_pending_owrefs, send_pending_owrefs}
use ring_socket.Session.Read.{read_websocket}
use ring_socket.Session.Handle.{
  Round, returns, continues, terminate_ws, terminate_dead, terminate_late, write_ws_close_msg,
  drop_peer, close_after_read, set_continuation, parsing_part, send_pending_part, sending_part,
  parse_and_send, handle_live, handle_closing, handle_websocket_io, close_frame_of, close_bytes,
}
use ring_socket.Event.Settled.{
  Settled, none-Settled, ok-Settled, fatal-Settled, guard-Settled, ret-Settled, option-Settled,
  mortality-Settled, continuation-Settled, send_close-Settled,
}

module _ (env : Env) where
  drop_peer-Settled :
      (worker : Worker) (i : ℕ) (next : Worker → Step)
      → ((w : Worker) → Settled (next w))
      → Settled (drop_peer env worker i next)
  unfolding drop_peer
  drop_peer-Settled worker i next f =
      guard-Settled (send_close_to_app env worker i) _ (send_close-Settled env worker i)
        (λ told. option-Settled (remove_pending_owrefs env told i) next f)

  terminate_dead-Settled : (worker : Worker) (i : ℕ) → Settled (terminate_dead worker i)
  unfolding terminate_dead terminate_ws
  terminate_dead-Settled worker i = ok-Settled _

  terminate_late-Settled : (worker : Worker) (i : ℕ) → Settled (terminate_late env worker i)
  unfolding terminate_late terminate_ws
  terminate_late-Settled worker i = ok-Settled _

  write_close-Settled : (worker : Worker) (i : ℕ) → Settled (write_ws_close_msg env worker i)
  unfolding write_ws_close_msg
  write_close-Settled worker i = elim (Option-cases (close_frame_of (peer_of worker i).ws)) [
    | inl e ↦ rw (write_ws_close_msg, e) none-Settled
    | inr (c, e) ↦
        rw (write_ws_close_msg, e)
          (ret-Settled (write_peer env worker i (close_bytes c)).0 (terminate_late-Settled _ i)
            (ok-Settled _) (terminate_dead-Settled _ i) (fatal-Settled _))
  ]

  close_after_read-Settled : (worker : Worker) (i : ℕ) → Settled (close_after_read env worker i)
  unfolding close_after_read
  close_after_read-Settled worker i = drop_peer-Settled worker i _ (λ dropped.
      mortality-Settled (peer_of dropped i).mortality (terminate_dead-Settled dropped i)
        (write_close-Settled _ i) (terminate_dead-Settled dropped i)
        (terminate_dead-Settled dropped i))

  abbrev RoundSettled : Round → Type 0
  RoundSettled (returns step) = Settled step
  RoundSettled (continues worker) = Unit

  parsing_part-Settled :
      (fuel : ℕ) (worker : Worker) (i : ℕ) → RoundSettled (parsing_part env fuel worker i)
  unfolding parsing_part
  parsing_part-Settled fuel worker i =
      go (read_websocket env fuel (set_continuation worker i cont_parsing) i) refl
    where
      go :
          (step : Step)
          → read_websocket env fuel (set_continuation worker i cont_parsing) i ≡ step
          → RoundSettled (parsing_part env fuel worker i)
      go none e = rw (parsing_part, e) none-Settled
      go (some (ok, w)) e = elim (Bool-cases ((peer_of w i).owref_c == 0)) [
        | inl done ↦ rw (parsing_part, e, done) (ok-Settled _)
        | inr more ↦ rw (parsing_part, e, more) tt
      ]
      go (some (again, w)) e = rw (parsing_part, e) (ok-Settled w)
      go (some (close_peer, w)) e = rw (parsing_part, e) (close_after_read-Settled w i)
      go (some (fatal, w)) e = rw (parsing_part, e) (fatal-Settled w)

  module _ (handle : Worker → ℕ → Step) where
    send_pending_part-Settled :
        (worker : Worker) (i : ℕ) → RoundSettled (send_pending_part env handle worker i)
    unfolding send_pending_part
    send_pending_part-Settled worker i = go (send_pending_owrefs env handle worker i) refl
      where
        go :
            (step : Step)
            → send_pending_owrefs env handle worker i ≡ step
            → RoundSettled (send_pending_part env handle worker i)
        go none e = rw (send_pending_part, e) none-Settled
        go (some (ok, w)) e = rw (send_pending_part, e) tt
        go (some (again, w)) e = rw (send_pending_part, e) (ok-Settled w)
        go (some (close_peer, w)) e =
            rw (send_pending_part, e)
              (option-Settled (remove_pending_owrefs env w i) _
                (λ dropped. terminate_dead-Settled dropped i))
        go (some (fatal, w)) e = rw (send_pending_part, e) (fatal-Settled w)

    sending_part-Settled :
        (worker : Worker) (i : ℕ) → RoundSettled (sending_part env handle worker i)
    unfolding sending_part
    sending_part-Settled worker i = go (peer_of worker i).ws refl
      where
        written :
            (r : Ret × Worker)
            → RoundSettled (elim r.0 as (λ x. Round) [
              | ok ↦
                  send_pending_part env handle
                    (put_peer r.1 i (record (peer_of r.1 i) { ws = null }))
                    i
              | again ↦ returns (some (ok, r.1))
              | close_peer ↦ returns (drop_peer env r.1 i (λ dropped. terminate_dead dropped i))
              | fatal ↦ returns (some (fatal, r.1))
            ])
        written (ok, w') = send_pending_part-Settled _ i
        written (again, w') = ok-Settled w'
        written (close_peer, w') =
            drop_peer-Settled w' i _ (λ dropped. terminate_dead-Settled dropped i)
        written (fatal, w') = fatal-Settled w'

        go :
            (u : WsUnion)
            → (peer_of worker i).ws ≡ u
            → RoundSettled (sending_part env handle worker i)
        go null e = rw (sending_part, e) (send_pending_part-Settled worker i)
        go (storage st) e = rw (sending_part, e) none-Settled
        go (pong frame) e = rw (sending_part, e) (written (write_peer env worker i frame))
        go (close_frame c) e = rw (sending_part, e) none-Settled

    parse_and_send-Settled :
        (fuel : ℕ) (worker : Worker) (i : ℕ) → Settled (parse_and_send env handle fuel worker i)
    unfolding parse_and_send
    parse_and_send-Settled zero worker i = none-Settled
    parse_and_send-Settled (suc fuel) worker i =
        go (parsing_part env fuel worker i) refl (parsing_part-Settled fuel worker i)
          (parse_and_send-Settled fuel)
      where
        Later : Type 0
        Later = (w : Worker) (j : ℕ) → Settled (parse_and_send env handle fuel w j)

        sending :
            (w : Worker) (r : Round)
            → parsing_part env fuel worker i ≡ continues w
            → sending_part env handle w i ≡ r
            → RoundSettled r
            → Later
            → Settled (parse_and_send env handle (suc fuel) worker i)
        sending w (returns step) e f s later = rw (parse_and_send, e, f) s
        sending w (continues w') e f s later = rw (parse_and_send, e, f) (later w' i)

        go :
            (r : Round)
            → parsing_part env fuel worker i ≡ r
            → RoundSettled r
            → Later
            → Settled (parse_and_send env handle (suc fuel) worker i)
        go (returns step) e s later = rw (parse_and_send, e) s
        go (continues w) e s later =
            sending w (sending_part env handle w i) e refl (sending_part-Settled w i) later

    handle_live-Settled :
        (fuel : ℕ) (worker : Worker) (i : ℕ) → Settled (handle_live env handle fuel worker i)
    unfolding handle_live
    handle_live-Settled fuel worker i =
        continuation-Settled (peer_of worker i).continuation (parse_and_send-Settled fuel worker i)
          (parse_and_send-Settled fuel worker i)
          (go (sending_part env handle worker i) (sending_part-Settled worker i))
      where
        go :
            (r : Round)
            → RoundSettled r
            → Settled (elim r [
              | returns step ↦ step
              | continues w' ↦ parse_and_send env handle fuel w' i
            ])
        go (returns step) s = s
        go (continues w') s = parse_and_send-Settled fuel w' i

    pub handle_websocket_io-Settled :
        (fuel : ℕ) (worker : Worker) (i : ℕ)
        → Settled (handle_websocket_io env handle fuel worker i)
    unfolding handle_websocket_io handle_closing terminate_ws
    handle_websocket_io-Settled fuel worker i =
        mortality-Settled (peer_of worker i).mortality (handle_live-Settled fuel worker i)
          (continuation-Settled (peer_of worker i).continuation (terminate_late-Settled worker i)
            (terminate_late-Settled worker i) (write_close-Settled worker i))
          (ok-Settled _) (ok-Settled _)
