-- ===== src/Session/Read.antt =====
-- `read_websocket`: reads from a peer until there is nothing to read.
use ring_socket.Prelude.{
  ℕ, zero, suc, ◌+◌, ◌-◌, Bool, true, false, Option, none, some, List, [], ◌∷◌, length, overwrite,
  if◌then◌else◌,
}
use ring_socket.Websocket.{
  Ret, ok, again, close_peer, Parser, save_websocket_parse_state, load_websocket_parse_state,
}
use ring_socket.Peer.{shutdown_write, null, storage, pong, close_frame}
use ring_socket.Worker.{Worker, Env, Step, tick, peer_of, put_peer, read_peer, write_peer}
use ring_socket.Session.Parse.{empty_parser, Parsed, parsed, stuck, unfinished, parse_websocket}

-- The frame in `worker->pong_response`, whose first byte is 0x80 | RS_WSFRAME_OPC_PONG.
abbrev pub pong_frame : List ℕ → List ℕ
pong_frame payload = 0x8A ∷ length payload ∷ payload

abbrev pub without_pong : Worker → Worker
without_pong worker = record worker { reader = record worker.reader { pong_response = [] } }

unfoldable pub send_pong_response_from_worker : Env → Worker → ℕ → Ret × Worker
unfolding write_peer
send_pong_response_from_worker env worker peer_i =
    let frame = pong_frame worker.reader.pong_response in
    let (ret, sent) = write_peer env worker peer_i frame in
    let emptied = without_pong sent in
    let peer = peer_of emptied peer_i in
    elim ret [
      | again ↦
          if env.has_memory emptied.clock
          then (ok, tick (put_peer emptied peer_i (record peer { ws = pong frame })))
          else (close_peer, tick (put_peer emptied peer_i (record peer { ws = null })))
      | other ↦ (other, emptied)
    ]

-- The parser and whether a message is incomplete, as the loop keeps them.
pub record Reading : Type 0 where
  pub wsp : Parser
  pub is_incomplete : Bool
  pub worker : Worker

-- What a round of the loop does: return, go on, or have C leave it undefined.
pub data Round : Type 0 where
  returns : Ret → Worker → Round
  continues : Reading → Round
  undefined : Round

-- The inner `switch`.
unfoldable pub after_parse : ℕ → Parsed → Round
after_parse peer_i (parsed ok wsp worker) = continues (record {
  wsp = empty_parser 0 wsp.must_send_pong_response;
  is_incomplete = false;
  worker = worker;
})
after_parse peer_i (parsed again wsp worker) =
    continues (record { wsp = wsp; is_incomplete = true; worker = worker })
after_parse peer_i (parsed ret wsp worker) = returns close_peer (
    put_peer worker peer_i (record (peer_of worker peer_i) {
      ws = close_frame wsp.close_frame;
      mortality = shutdown_write;
    }))
after_parse peer_i stuck = undefined
after_parse peer_i unfinished = undefined

-- The case RS_OK, with the bytes that were read.
unfoldable pub take_bytes : Env → ℕ → List ℕ → Reading → Worker → Round
unfolding after_parse parse_websocket
take_bytes env peer_i bytes state worker =
    let next_read = state.wsp.next_read + length bytes in
    after_parse peer_i (
      parse_websocket env peer_i (next_read + 1)
        (record state.wsp { cur_read = state.wsp.next_read; next_read = next_read })
        (record worker {
          reader = record worker.reader {
            rbuf = overwrite state.wsp.next_read bytes worker.reader.rbuf;
          };
        }))

-- The call of `save_websocket_parse_state` with the peer's pointer to what is saved.
unfoldable pub save_state : Env → ℕ → Parser → Worker → Ret × Worker
save_state env peer_i wsp worker =
    let (saved, reader) =
      save_websocket_parse_state (env.has_memory worker.clock) worker.reader wsp in
    let worker' = tick (record worker { reader = reader }) in
    let peer = peer_of worker' peer_i in
    elim saved [
      | none ↦ (close_peer, put_peer worker' peer_i (record peer { ws = null }))
      | some st ↦ (again, put_peer worker' peer_i (record peer { ws = storage st }))
    ]

-- The case RS_AGAIN
unfoldable pub nothing_to_read : Env → ℕ → Reading → Worker → Ret × Worker
unfolding save_state send_pong_response_from_worker
nothing_to_read env peer_i state worker =
    if state.is_incomplete
    then save_state env peer_i state.wsp worker
    else if state.wsp.must_send_pong_response
    then send_pong_response_from_worker env worker peer_i
    else (ok, worker)

abbrev pub return : Ret × Worker → Round
return (ret, worker) = returns ret worker

unfoldable pub read_round : Env → ℕ → Reading → Round
unfolding read_peer take_bytes nothing_to_read
read_round env peer_i state =
    let ((ret, bytes), worker) =
      read_peer env state.worker peer_i (env.worker_rbuf_size - state.wsp.next_read) in
    elim ret [
      | ok ↦ take_bytes env peer_i bytes state worker
      | again ↦ return (nothing_to_read env peer_i state worker)
      | other ↦ returns other worker
    ]

-- The loop, on fuel for that many reads.
unfoldable pub read_from : Env → ℕ → ℕ → Reading → Step
unfolding read_round
read_from env peer_i zero state = none
read_from env peer_i (suc fuel) state = elim (read_round env peer_i state) [
  | returns ret worker ↦ some (ret, worker)
  | continues state' ↦ read_from env peer_i fuel state'
  | undefined ↦ none
]

-- Any pointer in the union is taken for one to a saved parser. A close frame's number is no pointer.
unfoldable pub begin_reading : Env → ℕ → Worker → Option Reading
begin_reading env peer_i worker = elim (peer_of worker peer_i).ws [
  | null ↦ some (record { wsp = empty_parser 0 false; is_incomplete = false; worker = worker })
  | storage st ↦
      let (reader, wsp) =
        load_websocket_parse_state env.little st worker.reader (empty_parser 0 false) in
      some (record {
        wsp = wsp;
        is_incomplete = true;
        worker =
            put_peer (record worker { reader = reader }) peer_i
              (record (peer_of worker peer_i) { ws = null });
      })
  | _ ↦ none
]

unfoldable pub read_websocket : Env → ℕ → Worker → ℕ → Step
unfolding begin_reading read_from
read_websocket env fuel worker peer_i = elim (begin_reading env peer_i worker) [
  | none ↦ none
  | some state ↦ read_from env peer_i fuel state
]
