-- ===== src/Session/Handle.antt =====
-- `handle_websocket_io`: what a worker does with a peer on the WebSocket layer. `handle` is
-- `handle_peer_events` of rs_event.c with no events.
use ring_socket.Prelude.{ℕ, zero, suc, Option, none, some, List, [], ◌∷◌, if◌then◌else◌, ◌==◌}
use ring_socket.Websocket.{
  ok, again, close_peer, fatal, CloseFrame, empty_reply, err_protocol, err_payload, err_too_large,
}
use ring_socket.Peer.{
  Peer, tcp, tls, live, shutdown_write, dead, Continuation, cont_none, cont_parsing, cont_sending,
  WsUnion, null, pong, close_frame,
}
use ring_socket.Deadline.{set_shutdown_deadline}
use ring_socket.Worker.{
  Worker, Env, Step, guard, tick, peer_of, put_peer, write_peer, send_close_to_app,
}
use ring_socket.FromApp.Pending.{remove_pending_owrefs, send_pending_owrefs}
use ring_socket.Session.Read.{read_websocket}

-- The rows of `close_frames`, less the bytes behind the frame.
abbrev pub close_bytes : CloseFrame → List ℕ
close_bytes empty_reply = 0x88 ∷ 0x00 ∷ []
close_bytes err_protocol = 0x88 ∷ 0x02 ∷ 0x03 ∷ 0xEA ∷ []
close_bytes err_payload = 0x88 ∷ 0x02 ∷ 0x03 ∷ 0xEF ∷ []
close_bytes err_too_large = 0x88 ∷ 0x02 ∷ 0x03 ∷ 0xF1 ∷ []

-- `peer->ws.close_frame`, unless the union is a pointer, whose bits are not known.
abbrev pub close_frame_of : WsUnion → Option CloseFrame
close_frame_of null = some empty_reply
close_frame_of (close_frame c) = some c
close_frame_of _ = none

abbrev pub lower_layer : Peer → Peer
lower_layer peer = record peer { layer = if peer.is_encrypted then tls else tcp }

-- The label `terminate_ws`
unfoldable pub terminate_ws : Worker → ℕ → Step
terminate_ws worker peer_i = some (ok, put_peer worker peer_i (lower_layer (peer_of worker peer_i)))

unfoldable pub terminate_dead : Worker → ℕ → Step
unfolding terminate_ws
terminate_dead worker peer_i =
    terminate_ws (put_peer worker peer_i (record (peer_of worker peer_i) { mortality = dead }))
      peer_i

unfoldable pub terminate_late : Env → Worker → ℕ → Step
unfolding terminate_ws set_shutdown_deadline
terminate_late env worker peer_i =
    terminate_ws
      (tick (
        put_peer worker peer_i (
          set_shutdown_deadline (env.time worker.clock) (peer_of worker peer_i)
            env.shutdown_wait_ws)))
      peer_i

-- The label `write_ws_close_msg`, with `write_websocket_control_frame`.
unfoldable pub write_ws_close_msg : Env → Worker → ℕ → Step
unfolding write_peer terminate_dead terminate_late
write_ws_close_msg env worker peer_i = elim (close_frame_of (peer_of worker peer_i).ws) [
  | none ↦ none
  | some c ↦
      let (ret, sent) = write_peer env worker peer_i (close_bytes c) in
      elim ret [
        | ok ↦
            terminate_late env
              (put_peer sent peer_i (record (peer_of sent peer_i) { continuation = cont_none }))
              peer_i
        | again ↦ some (ok, sent)
        | close_peer ↦ terminate_dead sent peer_i
        | fatal ↦ some (fatal, sent)
      ]
]

abbrev pub set_continuation : Worker → ℕ → Continuation → Worker
set_continuation worker peer_i c =
    put_peer worker peer_i (record (peer_of worker peer_i) { continuation = c })

-- The app is told, and what the peer has not been sent is dropped; `next` is what follows.
unfoldable pub drop_peer : Env → Worker → ℕ → (Worker → Step) → Step
unfolding send_close_to_app remove_pending_owrefs
drop_peer env worker peer_i next = guard (send_close_to_app env worker peer_i) (λ told.
    elim (remove_pending_owrefs env told peer_i) [ none ↦ none | some worker' ↦ next worker' ])

-- The case RS_CLOSE_PEER of `read_websocket`.
unfoldable pub close_after_read : Env → Worker → ℕ → Step
unfolding drop_peer write_ws_close_msg terminate_dead
close_after_read env worker peer_i = drop_peer env worker peer_i (λ dropped.
    elim (peer_of dropped peer_i).mortality [
      | shutdown_write ↦
          write_ws_close_msg env (set_continuation dropped peer_i cont_sending) peer_i
      | _ ↦ terminate_dead dropped peer_i
    ])

-- What a part of the loop does: return, or go on.
pub data Round : Type 0 where
  returns : Step → Round
  continues : Worker → Round

-- The case RS_CONT_PARSING, and RS_CONT_NONE in front of it.
unfoldable pub parsing_part : Env → ℕ → Worker → ℕ → Round
unfolding read_websocket close_after_read
parsing_part env fuel worker peer_i =
    elim (read_websocket env fuel (set_continuation worker peer_i cont_parsing) peer_i) [
      | none ↦ returns none
      | some (ok, worker') ↦
          if (peer_of worker' peer_i).owref_c == 0
          then returns (some (ok, set_continuation worker' peer_i cont_none))
          else continues (set_continuation worker' peer_i cont_sending)
      | some (again, worker') ↦ returns (some (ok, worker'))
      | some (close_peer, worker') ↦ returns (close_after_read env worker' peer_i)
      | some (fatal, worker') ↦ returns (some (fatal, worker'))
    ]

-- `send_pending_owrefs` and what follows it.
unfoldable pub send_pending_part : Env → (Worker → ℕ → Step) → Worker → ℕ → Round
unfolding send_pending_owrefs remove_pending_owrefs terminate_dead
send_pending_part env handle worker peer_i = elim (send_pending_owrefs env handle worker peer_i) [
  | none ↦ returns none
  | some (ok, worker') ↦ continues worker'
  | some (again, worker') ↦ returns (some (ok, worker'))
  | some (close_peer, worker') ↦ returns (elim (remove_pending_owrefs env worker' peer_i) [
    | none ↦ none
    | some dropped ↦ terminate_dead dropped peer_i
  ])
  | some (fatal, worker') ↦ returns (some (fatal, worker'))
]

-- The case RS_CONT_SENDING. The union is taken for a pointer to a pong.
unfoldable pub sending_part : Env → (Worker → ℕ → Step) → Worker → ℕ → Round
unfolding send_pending_part write_peer drop_peer terminate_dead
sending_part env handle worker peer_i = elim (peer_of worker peer_i).ws [
  | null ↦ send_pending_part env handle worker peer_i
  | pong frame ↦
      let (ret, sent) = write_peer env worker peer_i frame in
      elim ret [
        | ok ↦
            send_pending_part env handle
              (put_peer sent peer_i (record (peer_of sent peer_i) { ws = null })) peer_i
        | again ↦ returns (some (ok, sent))
        | close_peer ↦
            returns (drop_peer env sent peer_i (λ dropped. terminate_dead dropped peer_i))
        | fatal ↦ returns (some (fatal, sent))
      ]
  | _ ↦ returns none
]

-- The `for` loop, from its start on; `fuel` is for its rounds, and for the reads of each.
unfoldable pub parse_and_send : Env → (Worker → ℕ → Step) → ℕ → Worker → ℕ → Step
unfolding parsing_part sending_part
parse_and_send env handle zero worker peer_i = none
parse_and_send env handle (suc fuel) worker peer_i = elim (parsing_part env fuel worker peer_i) [
  | returns step ↦ step
  | continues parsed ↦ elim (sending_part env handle parsed peer_i) [
    | returns step ↦ step
    | continues sent ↦ parse_and_send env handle fuel sent peer_i
  ]
]

-- The `switch` on the continuation.
unfoldable pub handle_live : Env → (Worker → ℕ → Step) → ℕ → Worker → ℕ → Step
unfolding parse_and_send sending_part
handle_live env handle fuel worker peer_i = elim (peer_of worker peer_i).continuation [
  | cont_sending ↦ elim (sending_part env handle worker peer_i) [
    | returns step ↦ step
    | continues sent ↦ parse_and_send env handle fuel sent peer_i
  ]
  | _ ↦ parse_and_send env handle fuel worker peer_i
]

-- The case RS_MORTALITY_SHUTDOWN_WRITE
unfoldable pub handle_closing : Env → Worker → ℕ → Step
unfolding write_ws_close_msg terminate_late
handle_closing env worker peer_i = elim (peer_of worker peer_i).continuation [
  | cont_sending ↦ write_ws_close_msg env worker peer_i
  | _ ↦ terminate_late env worker peer_i
]

unfoldable pub handle_websocket_io : Env → (Worker → ℕ → Step) → ℕ → Worker → ℕ → Step
unfolding handle_live handle_closing terminate_ws
handle_websocket_io env handle fuel worker peer_i = elim (peer_of worker peer_i).mortality [
  | live ↦ handle_live env handle fuel worker peer_i
  | shutdown_write ↦ handle_closing env worker peer_i
  | _ ↦ terminate_ws worker peer_i
]
