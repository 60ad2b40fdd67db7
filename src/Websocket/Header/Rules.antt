-- ===== src/Websocket/Header/Rules.antt =====
-- `parse_websocket_frame_header` and the rules of RFC 6455 for the header of a client's frame.
use Prim.Native.Nat.{bit_and}
use mathlib.Core.Path.{subst}
use native.Mathlib.Nat.{mod-eq_of_lt}
use ring_socket.Prelude.{
  ℕ, ◌+◌, ◌*◌, ◌^◌, ◌≤◌, ◌<◌, ◌≡◌, inl, inr, refl, sym, ap, ◌∙◌, Bool, true, false, not, List, ◌∷◌,
  ◌++◌, arith, if◌then◌else◌, ◌==◌, leb, length, drop, drop-append, Bool-cases,
}
use ring_socket.Wire.Frame.{byte_at, flag_bit, get_is_masked}
use ring_socket.Wire.Frame.Write.{length_bytes}
use ring_socket.Wire.Frame.Read.{masked_length_bytes}
use ring_socket.Websocket.{Parser, err_protocol, parse_websocket_frame_header}
use ring_socket.Websocket.Header.{
  client_header, header_size, Verdict, refuse, verdict, Answers, reserved_bits, masked_lem,
}

-- RFC 6455, section 5.2: what stands in front of the payload of `n` bytes; `rsv` are the three
-- reserved bits. Without the mask bit there is no key.
unfoldable pub any_header : Bool → ℕ → ℕ → Bool → ℕ → List ℕ → List ℕ
unfolding length_bytes masked_length_bytes
any_header is_final rsv opcode is_masked n key =
    (flag_bit is_final + (16 * rsv + opcode))
    ∷ (if is_masked then masked_length_bytes n ++ key else length_bytes n)

-- The rules: a client's frame is masked (section 5.1), its reserved bits are 0 where no extension was
-- agreed on, and the top bit of a size of 64 bits is 0 (section 5.2).
unfoldable pub rfc_verdict : Bool → ℕ → ℕ → Bool → ℕ → Bool → ℕ → ℕ → Verdict
unfolding verdict
rfc_verdict is_final rsv opcode is_masked n cont total limit =
    if not is_masked
    then refuse err_protocol
    else if not (rsv == 0)
    then refuse err_protocol
    else if leb (2 ^ 63) n
    then refuse err_protocol
    else verdict is_final opcode n cont total limit

get_is_masked-any_header :
    (is_final is_masked : Bool) (rsv opcode n : ℕ) (key rest : List ℕ)
    → get_is_masked (any_header is_final rsv opcode is_masked n key ++ rest) ≡ is_masked
unfolding any_header get_is_masked length_bytes masked_length_bytes
get_is_masked-any_header is_final true rsv opcode n key rest = ground arith
get_is_masked-any_header is_final false rsv opcode n key rest = ground arith

reserved-any_header :
    (is_final is_masked : Bool) (rsv opcode n : ℕ) (key rest : List ℕ)
    → rsv < 8
    → opcode < 16
    → bit_and (byte_at (any_header is_final rsv opcode is_masked n key ++ rest) 0) 0x70 ≡ 16 * rsv
unfolding any_header
reserved-any_header true is_masked rsv opcode n key rest h h' =
    reserved_bits (128 + (16 * rsv + opcode)) (omega arith) ∙ omega arith
reserved-any_header false is_masked rsv opcode n key rest h h' =
    reserved_bits (0 + (16 * rsv + opcode)) (omega arith) ∙ omega arith

client-any_header :
    (is_final : Bool) (rsv opcode n : ℕ) (key : List ℕ)
    → rsv ≡ 0
    → client_header is_final opcode n key ≡ any_header is_final rsv opcode true n key
unfolding any_header client_header
client-any_header is_final rsv opcode n key z =
    ap (λ x. (flag_bit is_final + x) ∷ (masked_length_bytes n ++ key)) (omega arith)

module _ (is_final : Bool) (rsv opcode : ℕ) (is_masked : Bool) (n : ℕ) (key before rest : List ℕ)
    (wsp : Parser) (at : length before ≡ wsp.frame) where
  frame_lem :
      drop wsp.frame (before ++ (any_header is_final rsv opcode is_masked n key ++ rest))
      ≡ any_header is_final rsv opcode is_masked n key ++ rest
  frame_lem = drop-append before _ wsp.frame (sym at)

  mask_lem :
      get_is_masked
        (drop wsp.frame (before ++ (any_header is_final rsv opcode is_masked n key ++ rest)))
      ≡ is_masked
  mask_lem =
      ap get_is_masked frame_lem ∙ get_is_masked-any_header is_final is_masked rsv opcode n key rest

  bits_lem :
      rsv < 8
      → opcode < 16
      → bit_and
          (byte_at
            (drop wsp.frame (before ++ (any_header is_final rsv opcode is_masked n key ++ rest)))
            0)
          0x70
        ≡ 16 * rsv
  bits_lem h h' =
      ap (λ f. bit_and (byte_at f 0) 0x70) frame_lem
      ∙ reserved-any_header is_final is_masked rsv opcode n key rest h h'

-- A frame with a mask and without reserved bits.
clean_lem :
    (little is_final : Bool) (rsv opcode n : ℕ) (key before rest : List ℕ) (limit : ℕ)
    (wsp : Parser)
    → rsv ≡ 0
    → opcode < 16
    → n < 2 ^ 64
    → wsp.data_size + n < 2 ^ 64
    → length key ≡ 4
    → length before ≡ wsp.frame
    → wsp.frame + header_size n ≤ wsp.next_read
    → Answers
        (verdict is_final opcode n wsp.is_continuation (wsp.data_size + n) limit)
        wsp
        opcode
        n
        (parse_websocket_frame_header little
          (before ++ (any_header is_final rsv opcode true n key ++ rest))
          limit
          wsp)
clean_lem little is_final rsv opcode n key before rest limit wsp z h' fits sum k at enough =
    let result = λ (bytes : List ℕ).
      parse_websocket_frame_header little (before ++ (bytes ++ rest)) limit wsp in
    subst
      (λ bytes.
        Answers (verdict is_final opcode n wsp.is_continuation (wsp.data_size + n) limit) wsp opcode
          n (result bytes))
      (client-any_header is_final rsv opcode n key z)
      (subst
        (λ total.
          Answers (verdict is_final opcode n wsp.is_continuation total limit) wsp opcode n
            (result (client_header is_final opcode n key)))
        (mod-eq_of_lt sum)
        (masked_lem little is_final opcode n key before rest limit wsp h' fits k at enough))

-- On a complete header of a client's frame, at `wsp->frame`, with any of its flags, reserved bits and
-- opcode, with any bytes around it and on a machine of either byte order, the parser takes the frame
-- or answers with a close frame just as `rfc_verdict` says, where `total` is the size of the message
-- with this frame; a frame that is taken leaves the parser as `Answers` says. The key has four bytes
-- and the size its shortest form. The size is below 2^63, since the parser does not test the top bit,
-- and `total` below 2^64, since the parser's sum wraps around.
pub header_lem :
    (little is_final : Bool) (rsv opcode : ℕ) (is_masked : Bool) (n : ℕ) (key before rest : List ℕ)
    (limit : ℕ) (wsp : Parser)
    → rsv < 8
    → opcode < 16
    → n < 2 ^ 63
    → wsp.data_size + n < 2 ^ 64
    → length key ≡ 4
    → length before ≡ wsp.frame
    → wsp.frame + header_size n ≤ wsp.next_read
    → let rbuf = before ++ (any_header is_final rsv opcode is_masked n key ++ rest) in
      Answers
        (rfc_verdict is_final rsv opcode is_masked n wsp.is_continuation (wsp.data_size + n) limit)
        wsp
        opcode
        n
        (parse_websocket_frame_header little rbuf limit wsp)
unfolding parse_websocket_frame_header rfc_verdict
header_lem little is_final rsv opcode false n key before rest limit wsp h h' small sum k at enough =
    let mask = mask_lem is_final rsv opcode false n key before rest wsp at in
    rw (parse_websocket_frame_header, rfc_verdict, mask) (refl, refl)
header_lem little is_final rsv opcode true n key before rest limit wsp h h' small sum k at enough =
    elim (Bool-cases (rsv == 0)) [
      | inr reserved ↦
          let mask = mask_lem is_final rsv opcode true n key before rest wsp at in
          let bits = bits_lem is_final rsv opcode true n key before rest wsp at h h' in
          let some_bit : (16 * rsv == 0) ≡ false = ground arith in
          rw (parse_websocket_frame_header, rfc_verdict, mask, bits, some_bit, reserved)
            (refl, refl)
      | inl none_set ↦
          let top : leb (2 ^ 63) n ≡ false = ground arith in
          rw (rfc_verdict, none_set, top)
            (clean_lem little is_final rsv opcode n key before rest limit wsp (ground arith) h'
              (omega arith) sum k at enough)
    ]
