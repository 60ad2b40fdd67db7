-- ===== src/Websocket/Header.antt =====
-- `parse_websocket_frame_header` on the header of a client's frame.
pub mod Rules
use Prim.Native.Nat.{bit_and}
use mathlib.Core.Path.{subst}
use ring_socket.Prelude.{
  ℕ, ◌+◌, ◌-◌, ◌*◌, ◌/◌, ◌%◌, ◌^◌, ◌≤◌, ◌<◌, ◌≡◌, ◌⊎◌, inl, inr, refl, sym, ap, ◌∙◌, Bool, true,
  false, not, ◌&&◌, ◌||◌, List, ◌∷◌, ◌++◌, append_assoc, arith, if◌then◌else◌, ◌==◌, ltb, leb,
  length, drop, slice, length-append, drop-append, agree_below, all_below, Bool-cases,
}
use ring_socket.Wire.Bytes.{r_ntoh, be_bytes, length-be_bytes}
use ring_socket.Wire.Frame.{
  add64, byte_at, size_byte, flag_bit, get_is_final, get_is_masked, get_opcode, get_payload_size,
  opc_cont,
}
use ring_socket.Wire.Frame.Write.{size_bits}
use ring_socket.Wire.Frame.Read.{masked_length_bytes, r_ntoh_field, first_byte_bits}
use ring_socket.Websocket.{
  Ret, ok, close_peer, CloseFrame, empty_reply, err_protocol, err_too_large, Parser, fail, bin,
  utf8, is_bad_control, check_size, parse_payload_size, control_payload, parse_opcode,
  parse_websocket_frame_header,
}

-- RFC 6455, section 5.2: what stands in front of the `n` masked bytes of a client's frame.
unfoldable pub client_header : Bool → ℕ → ℕ → List ℕ → List ℕ
unfolding masked_length_bytes
client_header is_final opcode n key = (flag_bit is_final + opcode) ∷ (masked_length_bytes n ++ key)

unfoldable pub header_size : ℕ → ℕ
header_size n = if leb n 125 then 6 else if leb n 0xFFFF then 8 else 14

-- What to do with a frame: to take it, or to answer with a close frame.
pub data Verdict : Type 0 where
  accept : Verdict
  refuse : CloseFrame → Verdict

unfoldable pub is_control : ℕ → Bool
is_control opcode = opcode == 0x8 || (opcode == 0x9 || opcode == 0xA)

-- What is demanded of a masked frame without reserved bits: RFC 6455, sections 5.4 and 5.5, and the
-- configured limit. `cont` tells that a fragmented message is under way, and `total` is its size with
-- this frame.
unfoldable pub verdict : Bool → ℕ → ℕ → Bool → ℕ → ℕ → Verdict
unfolding is_control
verdict is_final opcode n cont total limit =
    if is_control opcode
    then if is_final && leb n 125
      then if opcode == 0x8 then refuse empty_reply else accept
      else refuse err_protocol
    else if leb opcode 0x2
    then if (if cont then opcode == 0x0 else not (opcode == 0x0))
      then if leb total limit then accept else refuse err_too_large
      else refuse err_protocol
    else refuse err_protocol

pub reserved_bits : (x : ℕ) → x < 256 → bit_and x 0x70 ≡ (x - x / 128 * 128) / 16 * 16
unfolding all_below
reserved_bits x h =
    agree_below 256 (λ x. bit_and x 0x70) (λ x. (x - x / 128 * 128) / 16 * 16) refl x h

-- The fields of a header, with any bytes behind it.
record Fields (little is_final : Bool) (opcode n : ℕ) (frame : List ℕ) : Type 0 where
  final : get_is_final frame ≡ is_final
  reserved : bit_and (byte_at frame 0) 0x70 ≡ 0
  code : get_opcode frame ≡ opcode
  mask : get_is_masked frame ≡ true
  size : get_payload_size little frame ≡ n
  marker : size_byte frame ≡ (if leb n 125 then n else if leb n 0xFFFF then 126 else 127)
  medium : leb n 125 ≡ false → leb n 0xFFFF ≡ true → r_ntoh little (slice frame 2 2) ≡ n
  large : leb n 0xFFFF ≡ false → r_ntoh little (slice frame 2 8) ≡ n

client_header-Fields :
    (little is_final : Bool) (opcode n : ℕ) (key rest : List ℕ)
    → opcode < 16
    → n < 2 ^ 64
    → Fields little is_final opcode n (client_header is_final opcode n key ++ rest)
unfolding client_header masked_length_bytes get_is_final get_opcode get_is_masked get_payload_size
client_header-Fields little is_final opcode n key rest h h' =
    let bits = first_byte_bits is_final opcode h in
    let medium_field = r_ntoh_field little 2 n (key ++ rest) in
    let large_field = r_ntoh_field little 8 n (key ++ rest) in
    let a2 = append_assoc (be_bytes 2 n) key rest in
    let a8 = append_assoc (be_bytes 8 n) key rest in
    record {
      final = bits.0;
      reserved = ground (arith, reserved_bits (128 + opcode), reserved_bits opcode);
      code = bits.1;
      mask = ground (arith, size_bits n);
      size = ground (
        arith,
        size_bits (128 + n),
        size_bits 254,
        size_bits 255,
        medium_field,
        large_field,
        a2,
        a8,
      );
      marker = ground (arith, size_bits (128 + n), size_bits 254, size_bits 255);
      medium = λ p q. ground (arith, medium_field, a2);
      large = λ p. ground (arith, large_field, a8);
    }

length-client_header :
    (is_final : Bool) (opcode n : ℕ) (key : List ℕ)
    → length key ≡ 4
    → length (client_header is_final opcode n key) ≡ header_size n
unfolding client_header masked_length_bytes header_size
length-client_header is_final opcode n key h = ground (
  arith,
  length-append (be_bytes 2 n) key,
  length-append (be_bytes 8 n) key,
  length-be_bytes 2 n,
  length-be_bytes 8 n,
)

-- What the header parser is to leave. A frame that is taken has its payload behind the header and
-- its size read from it; a text or binary frame sets the kind of the message, and a ping asks for a
-- pong.
abbrev pub taken_frame : Parser → ℕ → ℕ → Parser
taken_frame wsp opcode n = record wsp {
  payload = wsp.frame + header_size n;
  payload_size = n;
  data_kind = if opcode == 0x1 then utf8 else if opcode == 0x2 then bin else wsp.data_kind;
  must_send_pong_response = if opcode == 0x9 then true else wsp.must_send_pong_response;
}

abbrev pub Answers : Verdict → Parser → ℕ → ℕ → Ret × Parser → Type 0
Answers (refuse c) wsp opcode n r = (r.0 ≡ close_peer) × (r.1.close_frame ≡ c)
Answers accept wsp opcode n r = (r.0 ≡ ok) × (r.1 ≡ taken_frame wsp opcode n)

-- The parser with the payload found.
abbrev with_payload : Parser → ℕ → Parser
with_payload wsp n = record wsp { payload = wsp.frame + header_size n; payload_size = n }

module _ (little is_final : Bool) (opcode n : ℕ) (rbuf : List ℕ) (limit : ℕ) where
  parse_payload_size_lem :
      (wsp : Parser)
      → Fields little is_final opcode n (drop wsp.frame rbuf)
      → wsp.frame + header_size n ≤ wsp.next_read
      → parse_payload_size little rbuf limit wsp ≡ check_size little rbuf limit (with_payload wsp n)
  unfolding parse_payload_size header_size
  parse_payload_size_lem wsp f enough = elim (Bool-cases (leb n 125)) [
    | inl small ↦
        let m : size_byte (drop wsp.frame rbuf) ≡ n = ground (arith, f.marker) in
        let ne : (n == 126) ≡ false = ground arith in
        let ne' : (n == 127) ≡ false = ground arith in rw (m, small) (rw (ne, ne') refl)
    | inr large ↦ elim (Bool-cases (leb n 0xFFFF)) [
      | inl medium ↦
          let m : size_byte (drop wsp.frame rbuf) ≡ 126 = ground (arith, f.marker) in
          let q : ltb wsp.next_read (wsp.frame + 8) ≡ false = ground arith in
          rw (m, large, medium, q, f.medium large medium) refl
      | inr huge ↦
          let m : size_byte (drop wsp.frame rbuf) ≡ 127 = ground (arith, f.marker) in
          let q : ltb wsp.next_read (wsp.frame + 14) ≡ false = ground arith in
          rw (m, large, huge, q, f.large huge) refl
    ]
  ]

  is_bad_control_lem :
      (wsp : Parser)
      → Fields little is_final opcode n (drop wsp.frame rbuf)
      → is_bad_control little rbuf wsp ≡ not (is_final && leb n 125)
  unfolding is_bad_control
  is_bad_control_lem wsp f = rw (f.final, f.size) (ground arith)

  -- The end of the parser for a data frame that may come now.
  data_lem :
      (wsp wsp' : Parser)
      → Fields little is_final opcode n (drop wsp'.frame rbuf)
      → wsp'.frame + header_size n ≤ wsp'.next_read
      → with_payload wsp' n ≡ taken_frame wsp opcode n
      → Answers
          (if leb (add64 wsp'.data_size n) limit then accept else refuse err_too_large)
          wsp
          opcode
          n
          (parse_payload_size little rbuf limit wsp')
  unfolding check_size
  data_lem wsp wsp' f enough same =
      rw (parse_payload_size_lem wsp' f enough)
        (elim (Bool-cases (leb (add64 wsp'.data_size n) limit)) [
          | inl fits ↦
              let q : ltb limit (add64 wsp'.data_size n) ≡ false = ground arith in
              rw (fits, q) (refl, same)
          | inr over ↦
              let q : ltb limit (add64 wsp'.data_size n) ≡ true = ground arith in
              rw (over, q) (refl, refl)
        ])

module _ (little is_final : Bool) (n : ℕ) (rbuf : List ℕ) (limit : ℕ) (wsp : Parser)
    (enough : wsp.frame + header_size n ≤ wsp.next_read) where
  -- The claim for one opcode.
  abbrev Answered : ℕ → Type 0
  Answered opcode =
      Fields little is_final opcode n (drop wsp.frame rbuf)
      → Answers (verdict is_final opcode n wsp.is_continuation (add64 wsp.data_size n) limit) wsp
          opcode n (parse_opcode little rbuf limit wsp)

  -- The claim for a data frame, whether or not it continues a message.
  abbrev By : ℕ → (Bool → Ret × Parser) → Bool → Type 0
  By opcode result cont =
      Answers (verdict is_final opcode n cont (add64 wsp.data_size n) limit) wsp opcode n
        (result cont)

  cont_lem : Answered 0
  unfolding parse_opcode verdict is_control
  cont_lem f =
      rw (f.code)
        (elim wsp.is_continuation
          as (By 0 (λ cont.
            if cont then parse_payload_size little rbuf limit wsp else fail wsp err_protocol)) [
              | true ↦ data_lem little is_final 0 n rbuf limit wsp wsp f enough refl
              | false ↦ (refl, refl)
            ])

  text_lem : Answered 1
  unfolding parse_opcode verdict is_control
  text_lem f =
      let wsp' = record wsp { data_kind = utf8 } in
      rw (f.code)
        (elim wsp.is_continuation
          as (By 1 (λ cont.
            if cont then fail wsp err_protocol else parse_payload_size little rbuf limit wsp')) [
              | true ↦ (refl, refl)
              | false ↦ data_lem little is_final 1 n rbuf limit wsp wsp' f enough refl
            ])

  bin_lem : Answered 2
  unfolding parse_opcode verdict is_control
  bin_lem f =
      let wsp' = record wsp { data_kind = bin } in
      rw (f.code)
        (elim wsp.is_continuation
          as (By 2 (λ cont.
            if cont then fail wsp err_protocol else parse_payload_size little rbuf limit wsp')) [
              | true ↦ (refl, refl)
              | false ↦ data_lem little is_final 2 n rbuf limit wsp wsp' f enough refl
            ])

  close_lem : Answered 8
  unfolding parse_opcode verdict is_control
  close_lem f =
      rw (f.code, is_bad_control_lem little is_final 8 n rbuf limit wsp f)
        (elim (Bool-cases (is_final && leb n 125)) [
          | inl c ↦ rw c (refl, refl)
          | inr c ↦ rw c (refl, refl)
        ])

  control_payload_lem :
      (opcode : ℕ)
      → Fields little is_final opcode n (drop wsp.frame rbuf)
      → (is_final && leb n 125) ≡ true
      → control_payload little rbuf wsp ≡ with_payload wsp n
  unfolding control_payload header_size
  control_payload_lem opcode f c =
      let m : size_byte (drop wsp.frame rbuf) ≡ n = ground (arith, f.marker) in
      let small : leb n 125 ≡ true = ground arith in rw (m, small) refl

  ping_lem : Answered 9
  unfolding parse_opcode verdict is_control
  ping_lem f =
      rw (f.code, is_bad_control_lem little is_final 9 n rbuf limit wsp f)
        (elim (Bool-cases (is_final && leb n 125)) [
          | inl c ↦ rw (c, control_payload_lem 9 f c) (refl, refl)
          | inr c ↦ rw c (refl, refl)
        ])

  pong_lem : Answered 10
  unfolding parse_opcode verdict is_control
  pong_lem f =
      rw (f.code, is_bad_control_lem little is_final 10 n rbuf limit wsp f)
        (elim (Bool-cases (is_final && leb n 125)) [
          | inl c ↦ rw (c, control_payload_lem 10 f c) (refl, refl)
          | inr c ↦ rw c (refl, refl)
        ])

  other_lem :
      (opcode : ℕ)
      → (leb opcode 2 || (opcode == 8 || (opcode == 9 || opcode == 10))) ≡ false
      → Answered opcode
  unfolding parse_opcode verdict is_control
  other_lem opcode other f =
      let t0 : (opcode == 0) ≡ false = ground arith in
      let t1 : (opcode == 1) ≡ false = ground arith in
      let t2 : (opcode == 2) ≡ false = ground arith in
      let t3 : leb opcode 2 ≡ false = ground arith in
      let t8 : (opcode == 8) ≡ false = ground arith in
      let t9 : (opcode == 9) ≡ false = ground arith in
      let t10 : (opcode == 10) ≡ false = ground arith in
      rw (f.code) (rw (t3, t8, t9, t10) (rw (t0, t1, t2) (refl, refl)))

  any_lem : (opcode : ℕ) → Answered opcode
  any_lem opcode =
      elim (Bool-cases (leb opcode 2 || (opcode == 8 || (opcode == 9 || opcode == 10)))) [
        | inr other ↦ other_lem opcode other
        | inl known ↦
            let which : (opcode ≡ 0)
                ⊎ ((opcode ≡ 1)
                    ⊎ ((opcode ≡ 2) ⊎ ((opcode ≡ 8) ⊎ ((opcode ≡ 9) ⊎ (opcode ≡ 10))))) =
              ground arith in
            elim which [
              | inl e ↦ subst Answered (sym e) cont_lem
              | inr (inl e) ↦ subst Answered (sym e) text_lem
              | inr (inr (inl e)) ↦ subst Answered (sym e) bin_lem
              | inr (inr (inr (inl e))) ↦ subst Answered (sym e) close_lem
              | inr (inr (inr (inr (inl e)))) ↦ subst Answered (sym e) ping_lem
              | inr (inr (inr (inr (inr e)))) ↦ subst Answered (sym e) pong_lem
            ]
      ]

-- The parser's answer to a masked frame without reserved bits, for every size that a header can have.
-- The size of the message is the wrapped sum that the parser compares with the limit.
pub masked_lem :
    (little is_final : Bool) (opcode n : ℕ) (key before rest : List ℕ) (limit : ℕ) (wsp : Parser)
    → opcode < 16
    → n < 2 ^ 64
    → length key ≡ 4
    → length before ≡ wsp.frame
    → wsp.frame + header_size n ≤ wsp.next_read
    → let rbuf = before ++ (client_header is_final opcode n key ++ rest) in
      Answers
        (verdict is_final opcode n wsp.is_continuation ((wsp.data_size + n) % 2 ^ 64) limit)
        wsp
        opcode
        n
        (parse_websocket_frame_header little rbuf limit wsp)
unfolding parse_websocket_frame_header
masked_lem little is_final opcode n key before rest limit wsp h h' k at enough =
    let header = client_header is_final opcode n key in
    let rbuf = before ++ (header ++ rest) in
    let f : Fields little is_final opcode n (drop wsp.frame rbuf) =
      subst (Fields little is_final opcode n)
        (sym (drop-append before (header ++ rest) wsp.frame (sym at)))
        (client_header-Fields little is_final opcode n key rest h h') in
    rw (f.mask, f.reserved) (any_lem little is_final n rbuf limit wsp enough opcode f)

wrapped_lem :
    (is_final : Bool) (n total limit : ℕ)
    → total ≡ 0
    → verdict is_final opc_cont n true total limit ≡ accept
unfolding verdict is_control
wrapped_lem is_final n total limit e = let q : leb total limit ≡ true = ground arith in rw q refl

-- The sum that is compared with the configured limit wraps around: in a message of which
-- `wsp->data_size` bytes have come, a continuation frame that announces 2^64 less that many bytes
-- passes the limit, whatever the limit is. Its header, with a key of four bytes, is complete, and
-- `wsp->data_size` is below 2^64 and not 0.
pub limit_bypassed :
    (little is_final : Bool) (key before rest : List ℕ) (limit : ℕ) (wsp : Parser)
    → wsp.is_continuation ≡ true
    → 0 < wsp.data_size
    → wsp.data_size < 2 ^ 64
    → length key ≡ 4
    → length before ≡ wsp.frame
    → wsp.frame + header_size (2 ^ 64 - wsp.data_size) ≤ wsp.next_read
    → let n = 2 ^ 64 - wsp.data_size in
      let r =
        parse_websocket_frame_header little
          (before ++ (client_header is_final opc_cont n key ++ rest))
          limit
          wsp in
      (r.0 ≡ ok) × (r.1.payload_size ≡ n)
limit_bypassed little is_final key before rest limit wsp c pos fits k at enough =
    let n = 2 ^ 64 - wsp.data_size in
    let rbuf = before ++ (client_header is_final opc_cont n key ++ rest) in
    let q : verdict is_final opc_cont n wsp.is_continuation ((wsp.data_size + n) % 2 ^ 64) limit
        ≡ accept =
      ap (λ v. verdict is_final opc_cont n v ((wsp.data_size + n) % 2 ^ 64) limit) c
      ∙ wrapped_lem is_final n ((wsp.data_size + n) % 2 ^ 64) limit (omega arith) in
    let r =
      subst (λ v. Answers v wsp opc_cont n (parse_websocket_frame_header little rbuf limit wsp)) q
        (masked_lem little is_final opc_cont n key before rest limit wsp (omega arith) (omega arith)
          k at enough) in
    (r.0, ap (λ w. w.payload_size) r.1)
