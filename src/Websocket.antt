-- ===== src/Websocket.antt =====
-- rs_websocket.c: the parser of the frames that a worker reads from a peer. A pointer into the
-- worker's `rbuf` is its offset there. After a `memset` of the parser `cur_read` is NULL; the offset
-- 0 stands for that, since `cur_read` is only compared with pointers behind the start of `rbuf`.
pub mod Unmask
pub mod Header
pub mod Saved
use Prim.Native.Nat.{bit_and, bit_xor}
use ring_socket.Prelude.{
  ℕ, zero, suc, ◌+◌, ◌-◌, ◌%◌, Bool, true, false, not, ◌||◌, List, [], ◌∷◌, if◌then◌else◌, ◌==◌,
  ltb, get_or, set, drop, slice, overwrite, take, length, Option, none, some, leb, ◌++◌,
}
use ring_socket.Wire.Bytes.{r_ntoh}
use ring_socket.Wire.Frame.{
  opc_cont, opc_text, opc_bin, opc_close, opc_ping, opc_pong, sizeof_cs_small, sizeof_cs_medium,
  sizeof_cs_large, add64, byte_at, size_byte, get_is_masked, get_is_final, get_opcode,
  get_payload_size, get_cs_payload,
}
use ring_socket.Wire.Utf8.{Utf8State, validate_byte, invalid}

-- `rs_ret`
pub data Ret : Type 0 where
  ok again close_peer fatal : Ret

-- `enum rs_wsframe_close`
pub data CloseFrame : Type 0 where
  empty_reply err_protocol err_payload err_too_large : CloseFrame

-- `enum rs_data_kind`
pub data DataKind : Type 0 where
  bin utf8 : DataKind

-- `struct rs_wsframe_parser`
pub record Parser : Type 0 where
  pub cur_read : ℕ
  pub next_read : ℕ
  pub frame : ℕ
  pub payload : ℕ
  pub payload_size : ℕ
  pub data_size : ℕ
  pub close_frame : CloseFrame
  pub data_kind : DataKind
  pub utf8_state : Utf8State
  pub is_continuation : Bool
  pub must_send_pong_response : Bool

-- What the parser uses of `struct rs_worker`; the payload of `pong_response` is the list of its
-- bytes, and `address` is where `rbuf` is.
pub record Worker : Type 0 where
  pub address : ℕ
  pub rbuf : List ℕ
  pub pong_response : List ℕ

-- `wsp->close_frame = ...; return RS_CLOSE_PEER;`
abbrev pub fail : Parser → CloseFrame → Ret × Parser
fail wsp c = (close_peer, record wsp { close_frame = c })

-- `little` is RS_IS_LITTLE_ENDIAN, `rbuf` the bytes of the worker's buffer.
module _ (little : Bool) (rbuf : List ℕ) where
  -- The tests that the three kinds of control frame begin with.
  unfoldable pub is_bad_control : Parser → Bool
  is_bad_control wsp =
      let frame = drop wsp.frame rbuf in
      not (get_is_final frame) || ltb 125 (get_payload_size little frame)

  -- The end of the header parser: `payload` and `payload_size` are known.
  unfoldable pub check_size : ℕ → Parser → Ret × Parser
  check_size max_ws_msg_size wsp =
      if ltb max_ws_msg_size (add64 wsp.data_size wsp.payload_size)
      then fail wsp err_too_large
      else (ok, wsp)

  -- The second half of the header parser, for data frames.
  unfoldable pub parse_payload_size : ℕ → Parser → Ret × Parser
  unfolding check_size
  parse_payload_size max_ws_msg_size wsp =
      let frame = drop wsp.frame rbuf in
      if size_byte frame == 126
      then if ltb wsp.next_read (wsp.frame + sizeof_cs_medium)
        then (again, wsp)
        else check_size max_ws_msg_size (record wsp {
          payload = wsp.frame + sizeof_cs_medium;
          payload_size = r_ntoh little (slice frame 2 2);
        })
      else if size_byte frame == 127
      then if ltb wsp.next_read (wsp.frame + sizeof_cs_large)
        then (again, wsp)
        else check_size max_ws_msg_size (record wsp {
          payload = wsp.frame + sizeof_cs_large;
          payload_size = r_ntoh little (slice frame 2 8);
        })
      else check_size max_ws_msg_size
          (record wsp { payload = wsp.frame + sizeof_cs_small; payload_size = size_byte frame })

  -- `payload` and `payload_size` of a ping or pong.
  unfoldable pub control_payload : Parser → Parser
  control_payload wsp = record wsp {
    payload = wsp.frame + sizeof_cs_small;
    payload_size = size_byte (drop wsp.frame rbuf);
  }

  -- The `switch` on the opcode.
  unfoldable pub parse_opcode : ℕ → Parser → Ret × Parser
  parse_opcode max_ws_msg_size wsp =
      let opcode = get_opcode (drop wsp.frame rbuf) in
      if opcode == opc_cont
      then if wsp.is_continuation
        then parse_payload_size max_ws_msg_size wsp
        else fail wsp err_protocol
      else if opcode == opc_text
      then if wsp.is_continuation
        then fail wsp err_protocol
        else parse_payload_size max_ws_msg_size (record wsp { data_kind = utf8 })
      else if opcode == opc_bin
      then if wsp.is_continuation
        then fail wsp err_protocol
        else parse_payload_size max_ws_msg_size (record wsp { data_kind = bin })
      else if opcode == opc_close
      then if is_bad_control wsp then fail wsp err_protocol else fail wsp empty_reply
      else if opcode == opc_ping
      then if is_bad_control wsp
        then fail wsp err_protocol
        else (ok, record (control_payload wsp) { must_send_pong_response = true })
      else if opcode == opc_pong
      then if is_bad_control wsp then fail wsp err_protocol else (ok, control_payload wsp)
      else fail wsp err_protocol

  unfoldable pub parse_websocket_frame_header : ℕ → Parser → Ret × Parser
  parse_websocket_frame_header max_ws_msg_size wsp =
      let frame = drop wsp.frame rbuf in
      if not (get_is_masked frame)
      then fail wsp err_protocol
      else if not (bit_and (byte_at frame 0) 0x70 == 0)
      then fail wsp err_protocol
      else parse_opcode max_ws_msg_size wsp

-- `wsp->payload[mask_i] ^= mask_key[mask_i % 4]`, for a byte in the buffer. Where the parser goes on
-- outside of it, which is undefined, is told by `is_outside` of Session.Parse.
unfoldable pub unmask_byte : ℕ → List ℕ → ℕ → List ℕ
unmask_byte payload rbuf i =
    set rbuf (payload + i)
      (bit_xor (get_or rbuf (payload + i) 0) (get_or rbuf (payload - 4 + i % 4) 0))

-- The loop for RS_BIN; `n` is `masked_size - mask_i`.
unfoldable pub unmask_bin : ℕ → ℕ → ℕ → List ℕ → List ℕ
unfolding unmask_byte
unmask_bin payload zero i rbuf = rbuf
unmask_bin payload (suc n) i rbuf = unmask_bin payload n (i + 1) (unmask_byte payload rbuf i)

abbrev pub is_invalid : Utf8State → Bool
is_invalid invalid = true
is_invalid state = false

-- The loop for RS_UTF8, which ends at the first byte that makes the text invalid.
unfoldable pub unmask_utf8 : ℕ → ℕ → ℕ → Utf8State → List ℕ → Utf8State × List ℕ
unfolding unmask_byte
unmask_utf8 payload zero i state rbuf = (state, rbuf)
unmask_utf8 payload (suc n) i state rbuf =
    let rbuf' = unmask_byte payload rbuf i in
    let state' = validate_byte state (get_or rbuf' (payload + i) 0) in
    let rest = unmask_utf8 payload n (i + 1) state' rbuf' in
    if is_invalid state' then (state', rbuf') else rest

unfoldable pub first_masked : Parser → ℕ
first_masked wsp = if ltb wsp.payload wsp.cur_read then wsp.cur_read - wsp.payload else 0

-- The two loops, from `mask_i` on, with `n` bytes to go.
unfoldable pub unmask_from : DataKind → List ℕ → Parser → ℕ → ℕ → (Ret × Parser) × List ℕ
unfolding unmask_bin unmask_utf8
unmask_from bin rbuf wsp n mask_i = ((ok, wsp), unmask_bin wsp.payload n mask_i rbuf)
unmask_from utf8 rbuf wsp n mask_i =
    let (state, rbuf') = unmask_utf8 wsp.payload n mask_i wsp.utf8_state rbuf in
    (
      if is_invalid state
          then (close_peer, record wsp { close_frame = err_payload; utf8_state = state })
          else (ok, record wsp { utf8_state = state }),
      rbuf',
    )

unfoldable pub unmask_payload_and_validate_any_utf8 : List ℕ → Parser → ℕ → (Ret × Parser) × List ℕ
unfolding unmask_from first_masked
unmask_payload_and_validate_any_utf8 rbuf wsp masked_size =
    let mask_i = first_masked wsp in
    unmask_from wsp.data_kind rbuf wsp (masked_size - mask_i) mask_i

-- What the parser uses of `worker->conf`.
pub record Conf : Type 0 where
  pub max_ws_msg_size : ℕ
  pub max_ws_frame_chain_size : ℕ

-- A pointer into `rbuf` as an address.
abbrev pub at : Worker → ℕ → ℕ
at worker i = add64 worker.address i

-- The second half of `parse_websocket_frame`: unmask what has been read of the payload.
unfoldable pub read_payload : Bool → Worker → Parser → (Ret × Parser) × Worker
unfolding unmask_payload_and_validate_any_utf8
read_payload little worker wsp =
    if ltb (at worker wsp.next_read) (add64 (at worker wsp.payload) wsp.payload_size)
    then (let ((ret, wsp'), rbuf) =
          unmask_payload_and_validate_any_utf8 worker.rbuf wsp (wsp.next_read - wsp.payload) in
        (elim ret [ ok ↦ (again, wsp') | failed ↦ (failed, wsp') ], record worker { rbuf = rbuf }))
    else (let ((ret, wsp'), rbuf) =
          unmask_payload_and_validate_any_utf8 worker.rbuf wsp wsp.payload_size in
        elim ret [
          | ok ↦ (
            (ok, wsp'),
            if get_opcode (drop wsp.frame rbuf) == opc_ping
                then record worker {
                  rbuf = rbuf;
                  pong_response = slice rbuf wsp.payload wsp.payload_size;
                }
                else record worker { rbuf = rbuf },
          )
          | failed ↦ ((failed, wsp'), record worker { rbuf = rbuf })
        ])

unfoldable pub parse_websocket_frame : Bool → Conf → Worker → Parser → (Ret × Parser) × Worker
unfolding parse_websocket_frame_header read_payload
parse_websocket_frame little conf worker wsp =
    if ltb wsp.cur_read (wsp.frame + sizeof_cs_large)
    then if ltb wsp.next_read (wsp.frame + sizeof_cs_small)
      then ((again, wsp), worker)
      else (let (ret, wsp') =
            parse_websocket_frame_header little worker.rbuf conf.max_ws_msg_size wsp in
          elim ret [
            | ok ↦
                if ltb (at worker conf.max_ws_frame_chain_size)
                  (add64 (at worker wsp'.payload) wsp'.payload_size)
                then (fail wsp' err_too_large, worker)
                else read_payload little worker wsp'
            | failed ↦ ((failed, wsp'), worker)
          ])
    else read_payload little worker wsp

-- `struct rs_wsframe_parser_storage`; `frames` is followed by the payload of a pending pong.
pub record Storage : Type 0 where
  pub frame : ℕ
  pub next_read_i : ℕ
  pub data_size : ℕ
  pub utf8_state : Utf8State
  pub data_kind : DataKind
  pub is_continuation : Bool
  pub must_send_pong_response : Bool
  pub pong_payload_size : ℕ
  pub frames : List ℕ

-- `has_memory` tells whether malloc succeeds.
unfoldable pub save_websocket_parse_state : Bool → Worker → Parser → Option Storage × Worker
save_websocket_parse_state false worker wsp = (none, worker)
save_websocket_parse_state true worker wsp = (
  some (record {
    frame = wsp.frame;
    next_read_i = wsp.next_read;
    data_size = wsp.data_size;
    utf8_state = wsp.utf8_state;
    data_kind = wsp.data_kind;
    is_continuation = wsp.is_continuation;
    must_send_pong_response = wsp.must_send_pong_response;
    pong_payload_size = length worker.pong_response % 256;
    frames = take wsp.next_read worker.rbuf ++ worker.pong_response;
  }),
  record worker { pong_response = [] },
)

unfoldable pub load_websocket_parse_state : Bool → Storage → Worker → Parser → Worker × Parser
unfolding get_cs_payload
load_websocket_parse_state little st worker wsp =
    let rbuf = overwrite 0 (take st.next_read_i st.frames) worker.rbuf in
    let (size, offset) = get_cs_payload little (drop st.frame rbuf) in
    let known = leb (st.frame + sizeof_cs_large) st.next_read_i in
    (
      record worker {
        rbuf = rbuf;
        pong_response =
            if st.pong_payload_size == 0
            then worker.pong_response
            else slice st.frames st.next_read_i st.pong_payload_size;
      },
      record wsp {
        next_read = st.next_read_i;
        frame = st.frame;
        data_size = st.data_size;
        data_kind = st.data_kind;
        utf8_state = st.utf8_state;
        is_continuation = st.is_continuation;
        must_send_pong_response = st.must_send_pong_response;
        payload = if known then st.frame + offset else wsp.payload;
        payload_size = if known then size else wsp.payload_size;
      },
    )
