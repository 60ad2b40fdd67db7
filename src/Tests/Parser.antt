-- ===== src/Tests/Parser.antt =====
-- The frame parser.
use ring_socket.Prelude.{
  some, ℕ, ◌+◌, ◌-◌, ◌^◌, ◌≡◌, refl, true, false, List, [], ◌∷◌, ◌++◌, arith, length, get_or,
  all_below, agree_below,
}
use ring_socket.Wire.Frame.{opc_ping, opc_cont}
use ring_socket.Wire.Utf8
use ring_socket.Websocket.{
  Worker, Storage, save_websocket_parse_state, load_websocket_parse_state, ok, Parser, empty_reply,
  utf8, first_masked, parse_websocket_frame_header, unmask_payload_and_validate_any_utf8,
}
use ring_socket.Websocket.Header.{client_header, header_size, Answers, limit_bypassed}
use ring_socket.Websocket.Header.Rules.{any_header, rfc_verdict, header_lem}
use ring_socket.Websocket.Saved.{Resumed, save-load_lem}
use ring_socket.Websocket.Unmask.{masked, IsKey, KeyAt, Unmasked, unmask_lem}

abbrev key : List ℕ
key = 7 ∷ 8 ∷ 9 ∷ 10 ∷ []

-- One byte of a fragmented text has come; a frame stands behind seven bytes.
abbrev in_message : Parser
in_message = record {
  cur_read = 0;
  next_read = 40;
  frame = 7;
  payload = 0;
  payload_size = 0;
  data_size = 1;
  close_frame = empty_reply;
  data_kind = utf8;
  utf8_state = Utf8.ok;
  is_continuation = true;
  must_send_pong_response = false;
}

abbrev seen : List ℕ
seen = 1 ∷ 129 ∷ 7 ∷ 8 ∷ 9 ∷ 10 ∷ 79 ∷ []

header_lem_example :
    Answers (rfc_verdict true 0 opc_ping true 2 true (1 + 2) 100) in_message opc_ping 2 (
      parse_websocket_frame_header true
        (seen ++ (any_header true 0 opc_ping true 2 key ++ (1 ∷ [])))
        100
        in_message)
unfolding header_size
header_lem_example =
    header_lem true true 0 opc_ping true 2 key seen (1 ∷ []) 100 in_message (omega arith)
      (omega arith) (omega arith) (omega arith) refl refl (omega arith)

limit_bypassed_example :
    let n = 2 ^ 64 - 1 in
    let r =
      parse_websocket_frame_header true
        (seen ++ (client_header true opc_cont n key ++ []))
        100
        in_message in
    (r.0 ≡ ok) × (r.1.payload_size ≡ n)
unfolding header_size
limit_bypassed_example =
    limit_bypassed true true key seen [] 100 in_message refl (omega arith) (omega arith) refl refl
      (omega arith)

-- The payload stands behind the key, and none of it is unmasked yet.
abbrev at_payload : Parser
at_payload = record in_message { frame = 7; payload = 13; payload_size = 2; next_read = 15 }

abbrev before : List ℕ
before = seen ++ (137 ∷ 130 ∷ key)

abbrev text : List ℕ
text = 72 ∷ 105 ∷ []

key-IsKey : IsKey key
key-IsKey k = ground arith

before-KeyAt : KeyAt 13 key before
unfolding all_below
before-KeyAt = record {
  room = omega arith;
  reaches = omega arith;
  bytes = λ k h. agree_below 4 (λ k. get_or before (13 - 4 + k) 0) (λ k. get_or key k 0) refl k h;
}

unmask_lem_example : Unmasked at_payload text (before ++ (text ++ [])) (
    unmask_payload_and_validate_any_utf8
      (before ++ (masked key 0 text ++ []))
      at_payload
      (0 + length text))
unfolding first_masked
unmask_lem_example =
    unmask_lem at_payload 0 key before text [] key-IsKey (omega arith, (omega arith, tt))
      before-KeyAt refl refl

-- A text of which one frame has come, and a pong of one byte that is pending.
abbrev reading : Worker
reading = record { address = 4096; rbuf = seen ++ (1 ∷ 2 ∷ 3 ∷ []); pong_response = 5 ∷ [] }

abbrev between : Worker
between = record {
  address = 4096;
  rbuf = 0 ∷ 0 ∷ 0 ∷ 0 ∷ 0 ∷ 0 ∷ 0 ∷ 0 ∷ 0 ∷ 0 ∷ [];
  pong_response = [];
}

abbrev stopped : Parser
stopped = record in_message { next_read = 8 }

abbrev saved : Storage
saved = record {
  frame = 7;
  next_read_i = 8;
  data_size = 1;
  utf8_state = Utf8.ok;
  data_kind = utf8;
  is_continuation = true;
  must_send_pong_response = false;
  pong_payload_size = 1;
  frames = seen ++ (1 ∷ 5 ∷ []);
}

save_stopped :
    save_websocket_parse_state true reading stopped
    ≡ (some saved, record reading { pong_response = [] })
unfolding save_websocket_parse_state
save_stopped = refl

save-load_lem_example :
    let (w, p) = load_websocket_parse_state true saved between at_payload in
    Resumed true reading stopped w p
save-load_lem_example =
    save-load_lem true reading between stopped at_payload (omega arith) (omega arith) (omega arith)
      refl saved (record reading { pong_response = [] }) save_stopped
