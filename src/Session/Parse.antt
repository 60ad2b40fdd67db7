-- ===== src/Session/Parse.antt =====
-- `parse_websocket`: the frames of a message.
pub mod Header
pub mod Payload
pub mod Frame
pub mod Advances
pub mod Ends
use ring_socket.Prelude.{
  ℕ, zero, suc, ◌+◌, ◌-◌, Bool, true, false, not, ◌&&◌, ◌||◌, Option, none, some, List, drop,
  length, ltb, if◌then◌else◌, ◌==◌,
}
use ring_socket.Websocket.{
  Ret, ok, close_peer, Parser, CloseFrame, empty_reply, err_payload, DataKind, bin, utf8,
  parse_websocket_frame, is_invalid, unmask_utf8, first_masked,
}
use ring_socket.Wire.Frame.{opc_ping, opc_pong, add64, get_opcode, get_is_final}
use ring_socket.Wire.Utf8.{Utf8State}
use ring_socket.Wire.Utf8
use ring_socket.Util.MoveLeft.{move_left}
use ring_socket.Worker.{Worker, Env, Step, send_read_to_app}

-- `memset(wsp, 0, sizeof(*wsp))`, with `next_read` set and `must_send_pong_response` kept.
abbrev pub empty_parser : ℕ → Bool → Parser
empty_parser next_read must_send_pong_response = record {
  cur_read = 0;
  next_read = next_read;
  frame = 0;
  payload = 0;
  payload_size = 0;
  data_size = 0;
  close_frame = empty_reply;
  data_kind = bin;
  utf8_state = Utf8.ok;
  is_continuation = false;
  must_send_pong_response = must_send_pong_response;
}

-- What one round of the loop does: return, go on, or have C leave it undefined.
pub data Round : Type 0 where
  returns : Ret → Parser → Worker → Round
  continues : Parser → Worker → Round
  undefined : Round

-- The bytes behind a message move to the front of the buffer.
unfoldable pub next_message : Parser → Worker → ℕ → Round
next_message wsp worker frame_incr =
    let remaining_size = wsp.next_read - frame_incr in
    elim (move_left worker.reader.rbuf frame_incr remaining_size) [
      | none ↦ undefined
      | some rbuf ↦
          continues (empty_parser remaining_size wsp.must_send_pong_response)
            (record worker { reader = record worker.reader { rbuf = rbuf } })
    ]

abbrev pub is_text_whole : Utf8State → Bool
is_text_whole Utf8.ok = true
is_text_whole _ = false

-- From the call of `send_read_to_app` on.
unfoldable pub after_read_sent : Parser → ℕ → Step → Round
unfolding next_message
after_read_sent wsp frame_incr none = undefined
after_read_sent wsp frame_incr (some (ok, worker)) =
    if frame_incr == wsp.next_read
    then returns ok wsp worker
    else next_message wsp worker frame_incr
after_read_sent wsp frame_incr (some (ret, worker)) = returns ret wsp worker

-- Behind the `switch`, with the frame's payload counted.
unfoldable pub end_frame : Env → ℕ → Parser → ℕ → Worker → Round
unfolding after_read_sent send_read_to_app
end_frame env peer_i wsp frame_incr worker =
    if not (get_is_final (drop wsp.frame worker.reader.rbuf))
    then continues (record wsp { is_continuation = true; frame = frame_incr }) worker
    else if not (is_text_whole wsp.utf8_state)
    then returns close_peer (record wsp { close_frame = err_payload }) worker
    else after_read_sent wsp frame_incr
        (send_read_to_app env worker peer_i wsp.data_size wsp.data_kind)

-- What follows a frame, whose end is in the buffer, so that the sum does not wrap around.
unfoldable pub after_frame : Env → ℕ → Parser → Worker → Round
unfolding end_frame
after_frame env peer_i wsp worker =
    let frame_incr = wsp.payload + wsp.payload_size in
    let opcode = get_opcode (drop wsp.frame worker.reader.rbuf) in
    if opcode == opc_ping || opcode == opc_pong
    then if frame_incr == wsp.next_read && not wsp.is_continuation
      then returns ok wsp worker
      else continues (record wsp { frame = frame_incr }) worker
    else end_frame env peer_i (record wsp { data_size = add64 wsp.data_size wsp.payload_size })
        frame_incr worker

abbrev pub is_text : DataKind → Bool
is_text bin = false
is_text utf8 = true

-- Whether the text is found to be invalid before its end in the buffer, where its first `n` bytes are.
abbrev pub is_invalid_within : List ℕ → Parser → Utf8State → ℕ → Bool
is_invalid_within rbuf wsp state n =
    is_text wsp.data_kind
    && is_invalid (unmask_utf8 wsp.payload (n - first_masked wsp) (first_masked wsp) state rbuf).0

abbrev pub is_payload_error : CloseFrame → Bool
is_payload_error err_payload = true
is_payload_error _ = false

-- Whether bytes outside of the buffer were unmasked, which C leaves undefined: the payload's end, which
-- wraps around in the test of its size, is outside; and the parser went on up to there. `wsp` and `rbuf`
-- are those before the frame.
abbrev pub is_outside : Parser → List ℕ → Ret → Parser → Bool
is_outside wsp rbuf ret wsp' = ltb (length rbuf) (wsp'.payload + wsp'.payload_size) && elim ret [
  | ok ↦ true
  | close_peer ↦
      is_payload_error wsp'.close_frame
      && not (is_invalid_within rbuf wsp' wsp.utf8_state (length rbuf - wsp'.payload))
  | _ ↦ false
]

unfoldable pub parse_round : Env → ℕ → Parser → Worker → Round
unfolding after_frame
parse_round env peer_i wsp worker =
    let ((ret, wsp'), reader) = parse_websocket_frame env.little env.conf worker.reader wsp in
    let worker' = record worker { reader = reader } in
    if is_outside wsp worker.reader.rbuf ret wsp'
    then undefined
    else elim ret [ ok ↦ after_frame env peer_i wsp' worker' | ret' ↦ returns ret' wsp' worker' ]

-- What the loop does; `unfinished` is to be without fuel.
pub data Parsed : Type 0 where
  parsed : Ret → Parser → Worker → Parsed
  stuck : Parsed
  unfinished : Parsed

unfoldable pub parse_websocket : Env → ℕ → ℕ → Parser → Worker → Parsed
unfolding parse_round
parse_websocket env peer_i zero wsp worker = unfinished
parse_websocket env peer_i (suc fuel) wsp worker = elim (parse_round env peer_i wsp worker) [
  | returns ret wsp' worker' ↦ parsed ret wsp' worker'
  | continues wsp' worker' ↦ parse_websocket env peer_i fuel wsp' worker'
  | undefined ↦ stuck
]
