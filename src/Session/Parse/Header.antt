-- ===== src/Session/Parse/Header.antt =====
-- How far the parser of a header gets.
use ring_socket.Prelude.{
  bit_and, ℕ, ◌+◌, ◌≤◌, ◌<◌, ◌≡◌, refl, Bool, true, false, not, List, arith, if◌then◌else◌, ◌==◌,
  ltb, drop, slice,
}
use ring_socket.Websocket.{
  Ret, ok, again, close_peer, Parser, DataKind, bin, utf8, CloseFrame, fail, err_too_large,
  err_protocol, empty_reply, check_size, parse_payload_size, control_payload, parse_opcode,
  parse_websocket_frame_header, is_bad_control,
}
use ring_socket.Wire.Bytes.{r_ntoh}
use ring_socket.Wire.Frame.{
  sizeof_cs_small, size_byte, get_opcode, get_is_masked, byte_at, opc_ping, opc_pong, opc_cont,
  opc_text, opc_bin, opc_close,
}

pub if-either {ℓ ℓ'} :
    {A : Type ℓ} (P : A → Type ℓ') {b : Bool} {x y : A}
    → (b ≡ true → P x)
    → (b ≡ false → P y)
    → P (if b then x else y)
if-either P {b = true} f g = f refl
if-either P {b = false} f g = g refl

-- The parser stands where it did.
pub record Same (wsp wsp' : Parser) : Type 0 where
  pub frame : wsp'.frame ≡ wsp.frame
  pub cur_read : wsp'.cur_read ≡ wsp.cur_read
  pub next_read : wsp'.next_read ≡ wsp.next_read

pub same : (wsp : Parser) → Same wsp wsp
same wsp = record { frame = refl; cur_read = refl; next_read = refl }

-- With RS_OK the payload is behind the start of the header; with RS_AGAIN the header is incomplete.
pub record HeaderRead (wsp : Parser) (r : Ret × Parser) : Type 0 where
  pub on_ok : r.0 ≡ ok → Same wsp r.1 × (wsp.frame < r.1.payload)
  pub on_again : r.0 ≡ again → Same wsp r.1 × (wsp.next_read < wsp.frame + 14)

refused : (wsp wsp' : Parser) → HeaderRead wsp (close_peer, wsp')
refused wsp wsp' = record { on_ok = λ e. cc; on_again = λ e. cc }

accepted :
    (wsp wsp' : Parser) → Same wsp wsp' → wsp.frame < wsp'.payload → HeaderRead wsp (ok, wsp')
accepted wsp wsp' s h = record { on_ok = λ e. (s, h); on_again = λ e. cc }

incomplete :
    (wsp wsp' : Parser)
    → Same wsp wsp'
    → wsp.next_read < wsp.frame + 14
    → HeaderRead wsp (again, wsp')
incomplete wsp wsp' s h = record { on_ok = λ e. cc; on_again = λ e. (s, h) }

module _ (little : Bool) (rbuf : List ℕ) (max_ws_msg_size : ℕ) where
  check_size-HeaderRead :
      (wsp wsp' : Parser)
      → Same wsp wsp'
      → wsp.frame < wsp'.payload
      → HeaderRead wsp (check_size little rbuf max_ws_msg_size wsp')
  unfolding check_size
  check_size-HeaderRead wsp wsp' s h =
      if-either (HeaderRead wsp) (λ e. refused wsp (fail wsp' err_too_large).1)
        (λ e. accepted wsp wsp' s h)

  -- The branches for a size of 2 and of 8 bytes.
  sized-HeaderRead :
      (wsp wsp' : Parser) (n size : ℕ)
      → Same wsp wsp'
      → 0 < n
      → n ≤ 14
      → HeaderRead wsp (
          if ltb wsp'.next_read (wsp'.frame + n)
          then (again, wsp')
          else check_size little rbuf max_ws_msg_size
              (record wsp' { payload = wsp'.frame + n; payload_size = size }))
  sized-HeaderRead wsp wsp' n size s pos small =
      let here = Same.frame s in
      let there = Same.next_read s in
      if-either (HeaderRead wsp) (λ e. incomplete wsp wsp' s (ground arith))
        (λ e.
          check_size-HeaderRead wsp (record wsp' { payload = wsp'.frame + n; payload_size = size })
            (record { frame = s.frame; cur_read = s.cur_read; next_read = s.next_read })
            (omega arith))

  parse_payload_size-HeaderRead :
      (wsp wsp' : Parser)
      → Same wsp wsp'
      → HeaderRead wsp (parse_payload_size little rbuf max_ws_msg_size wsp')
  unfolding parse_payload_size
  parse_payload_size-HeaderRead wsp wsp' s =
      let here = Same.frame s in
      let frame = drop wsp'.frame rbuf in
      if-either (HeaderRead wsp) {b = size_byte frame == 126}
        (λ e.
          sized-HeaderRead wsp wsp' 8 (r_ntoh little (slice frame 2 2)) s (omega arith)
            (omega arith))
        (λ e.
          if-either (HeaderRead wsp) {b = size_byte frame == 127}
            (λ e'.
              sized-HeaderRead wsp wsp' 14 (r_ntoh little (slice frame 2 8)) s (omega arith)
                (omega arith))
            (λ e'.
              check_size-HeaderRead wsp
                (record wsp' {
                  payload = wsp'.frame + sizeof_cs_small;
                  payload_size = size_byte frame;
                })
                (record { frame = s.frame; cur_read = s.cur_read; next_read = s.next_read })
                (omega arith)))

  parse_opcode-HeaderRead :
      (wsp : Parser) → HeaderRead wsp (parse_opcode little rbuf max_ws_msg_size wsp)
  unfolding parse_opcode control_payload
  parse_opcode-HeaderRead wsp =
      let failed : (b : Bool) (c : CloseFrame) (r : Ret × Parser)
          → HeaderRead wsp r
          → HeaderRead wsp (if b then fail wsp c else r) =
        λ b c r h. if-either (HeaderRead wsp) {b = b} (λ e. refused wsp (fail wsp c).1) (λ e. h) in
      let control : (wsp' : Parser)
          → Same wsp wsp'
          → wsp.frame < wsp'.payload
          → HeaderRead wsp
              (if is_bad_control little rbuf wsp then fail wsp err_protocol else (ok, wsp')) =
        λ wsp' s h.
          failed (is_bad_control little rbuf wsp) err_protocol (ok, wsp') (accepted wsp wsp' s h) in
      let of_kind : (kind : DataKind)
          → HeaderRead wsp (
              if wsp.is_continuation
              then fail wsp err_protocol
              else parse_payload_size little rbuf max_ws_msg_size
                  (record wsp { data_kind = kind })) =
        λ kind.
          failed wsp.is_continuation err_protocol
            (parse_payload_size little rbuf max_ws_msg_size (record wsp { data_kind = kind }))
            (parse_payload_size-HeaderRead wsp (record wsp { data_kind = kind })
              (record { frame = refl; cur_read = refl; next_read = refl })) in
      let opcode = get_opcode (drop wsp.frame rbuf) in
      if-either (HeaderRead wsp) {b = opcode == opc_cont}
        (λ e.
          if-either (HeaderRead wsp) {b = wsp.is_continuation}
            (λ e'. parse_payload_size-HeaderRead wsp wsp (same wsp))
            (λ e'. refused wsp (fail wsp err_protocol).1))
        (λ e.
          if-either (HeaderRead wsp) {b = opcode == opc_text} (λ e'. of_kind utf8)
            (λ e'.
              if-either (HeaderRead wsp) {b = opcode == opc_bin} (λ f. of_kind bin)
                (λ f.
                  if-either (HeaderRead wsp) {b = opcode == opc_close}
                    (λ g.
                      failed (is_bad_control little rbuf wsp) err_protocol (fail wsp empty_reply)
                        (refused wsp (fail wsp empty_reply).1))
                    (λ g.
                      if-either (HeaderRead wsp) {b = opcode == opc_ping}
                        (λ k.
                          control ping (record { frame = refl; cur_read = refl; next_read = refl })
                            (omega arith))
                        (λ k.
                          if-either (HeaderRead wsp) {b = opcode == opc_pong}
                            (λ l.
                              control pong
                                (record { frame = refl; cur_read = refl; next_read = refl })
                                (omega arith))
                            (λ l. refused wsp (fail wsp err_protocol).1))))))
    where
      pong : Parser
      pong = control_payload little rbuf wsp

      ping : Parser
      ping = record pong { must_send_pong_response = true }

  pub header-HeaderRead :
      (wsp : Parser) → HeaderRead wsp (parse_websocket_frame_header little rbuf max_ws_msg_size wsp)
  unfolding parse_websocket_frame_header
  header-HeaderRead wsp =
      let frame = drop wsp.frame rbuf in
      let bad = refused wsp (fail wsp err_protocol).1 in
      if-either (HeaderRead wsp) {b = not (get_is_masked frame)} (λ e. bad)
        (λ e.
          if-either (HeaderRead wsp) {b = not (bit_and (byte_at frame 0) 0x70 == 0)} (λ e'. bad)
            (λ e'. parse_opcode-HeaderRead wsp))
