-- ===== src/Session/Parse/Frame.antt =====
-- How far the parser of one frame gets.
use ring_socket.Prelude.{
  ◌+◌, ◌^◌, ◌≤◌, ◌<◌, ◌≡◌, refl, Bool, arith, if◌then◌else◌, ltb, inl, inr, Bool-cases,
}
use ring_socket.Websocket.{
  Ret, ok, again, close_peer, fatal, Parser, Worker, Conf, fail, at, err_too_large,
  parse_websocket_frame_header, read_payload, parse_websocket_frame,
}
use ring_socket.Wire.Frame.{sizeof_cs_small, sizeof_cs_large, add64}
use ring_socket.Session.Parse.Header.{same, HeaderRead, header-HeaderRead}
use ring_socket.Session.Parse.Payload.{IsReady, Framed, failed_lem, read_payload-Framed}

abbrev read_after_header : Bool → Conf → Worker → Ret × Parser → (Ret × Parser) × Worker
read_after_header little conf worker r = elim r.0 [
  | ok ↦
      if ltb (at worker conf.max_ws_frame_chain_size)
        (add64 (at worker r.1.payload) r.1.payload_size)
      then (fail r.1 err_too_large, worker)
      else read_payload little worker r.1
  | failed ↦ ((failed, r.1), worker)
]

module _ (little : Bool) (worker : Worker) where
  -- A header that has just been read.
  after_header :
      (conf : Conf) (wsp : Parser) (r : Ret × Parser)
      → HeaderRead wsp r
      → wsp.cur_read < wsp.frame + 14
      → wsp.frame < wsp.next_read
      → worker.address + wsp.next_read < 2 ^ 64
      → Framed wsp (read_after_header little conf worker r).0
  after_header conf wsp (ok, w) h new inside fits =
      let (s, forward) = h.on_ok refl in
      let r = read_payload-Framed little worker wsp w s forward inside (omega arith) fits in
      elim (Bool-cases (
        ltb (at worker conf.max_ws_frame_chain_size)
          (add64 (at worker w.payload) w.payload_size))) [
            | inl large ↦ rw large (failed_lem wsp (fail w err_too_large).1)
            | inr fine ↦ rw fine r
          ]
  after_header conf wsp (again, w) h new inside fits =
      let (s, short) = h.on_again refl in
      let here = s.frame in
      let there = s.next_read in
      record {
        on_ok = λ e. cc;
        on_again = λ e. record {
          payload_known = λ g. absurd (omega arith);
          was_incomplete = λ g. absurd (omega arith);
        };
      }
  after_header conf wsp (close_peer, w) h new inside fits = failed_lem wsp w
  after_header conf wsp (fatal, w) h new inside fits = record {
    on_ok = λ e. cc;
    on_again = λ e. cc;
  }

  pub frame_lem :
      (conf : Conf) (wsp : Parser)
      → IsReady worker.address wsp
      → Framed wsp (parse_websocket_frame little conf worker wsp).0
  unfolding parse_websocket_frame
  frame_lem conf wsp r =
      let before = r.read_before in
      let fits = r.fits in
      elim (Bool-cases (ltb wsp.cur_read (wsp.frame + sizeof_cs_large))) [
        | inl new ↦ elim (Bool-cases (ltb wsp.next_read (wsp.frame + sizeof_cs_small))) [
          | inl short ↦
              rw (parse_websocket_frame, new, short)
                (record {
                  on_ok = λ e. cc;
                  on_again = λ e. record {
                    payload_known = λ g. absurd (ground arith);
                    was_incomplete = λ g. absurd (ground arith);
                  };
                })
          | inr long ↦
              rw (parse_websocket_frame, new, long)
                (after_header conf wsp
                  (parse_websocket_frame_header little worker.rbuf conf.max_ws_msg_size wsp)
                  (header-HeaderRead little worker.rbuf conf.max_ws_msg_size wsp) (ground arith)
                  (ground arith) fits)
        ]
        | inr old ↦
            (let far : wsp.frame + 14 ≤ wsp.cur_read = ground arith in
              rw (parse_websocket_frame, old)
                (read_payload-Framed little worker wsp wsp (same wsp) (r.payload_known far)
                  (omega arith) (r.was_incomplete far) fits))
      ]

  read_payload-address :
      (wsp : Parser) → (read_payload little worker wsp).1.address ≡ worker.address
  unfolding read_payload
  read_payload-address wsp = ground arith

  pub address_lem :
      (conf : Conf) (wsp : Parser)
      → (parse_websocket_frame little conf worker wsp).1.address ≡ worker.address
  unfolding parse_websocket_frame
  address_lem conf wsp =
      let r = parse_websocket_frame_header little worker.rbuf conf.max_ws_msg_size wsp in
      ground (arith, read_payload-address wsp, read_payload-address r.1)
