-- ===== src/Wire/Frame/Write.antt =====
-- A frame as `rs_send` writes it is the frame of RFC 6455, and the accessors read it back.
use Prim.Native.Nat.{bit_and, bit_or}
use ring_socket.Prelude.{
  ℕ, suc, ◌+◌, ◌-◌, ◌%◌, ◌^◌, ◌≤◌, ◌<◌, ◌≡◌, refl, sym, ap, ◌∙◌, Bool, true, false, List, [], ◌∷◌,
  ◌++◌, arith, if◌then◌else◌, leb, all_below, agree_below, length, take, drop, overwrite,
  overwrite_lem, overwrite_two, append_assoc, length-take, length-append,
}
use ring_socket.Wire.Bytes.{be_bytes, length-be_bytes, w_hton-eq-be_bytes}
use ring_socket.Wire.Frame.{
  flag_bit, add64, set_is_final, set_opcode, clear_bit_fields, set_sc_payload_and_get_frame_size,
  get_sc_size_from_payload_size,
}

pub bit_or-zero : (x : ℕ) → x < 256 → bit_or 0 x ≡ x
unfolding all_below
bit_or-zero = agree_below 256 (λ x. bit_or 0 x) (λ x. x) refl

pub opcode_bits : (x : ℕ) → x < 256 → bit_and x 0x0F ≡ x % 16
unfolding all_below
opcode_bits = agree_below 256 (λ x. bit_and x 0x0F) (λ x. x % 16) refl

pub size_bits : (x : ℕ) → x < 256 → bit_and x 0x7F ≡ x % 128
unfolding all_below
size_bits = agree_below 256 (λ x. bit_and x 0x7F) (λ x. x % 128) refl

pub final_with_opcode : (x : ℕ) → x < 16 → bit_or 0x80 x ≡ 128 + x
unfolding all_below
final_with_opcode = agree_below 16 (λ x. bit_or 0x80 x) (λ x. 128 + x) refl

-- RFC 6455, section 5.2, for an unmasked frame with no extension bits: the length in 7 bits, or in
-- two or eight bytes behind a marker, in the shortest of the three forms that holds it.
unfoldable pub length_bytes : ℕ → List ℕ
length_bytes n =
    if leb n 125 then n ∷ [] else if leb n 0xFFFF then 126 ∷ be_bytes 2 n else 127 ∷ be_bytes 8 n

unfoldable pub rfc_frame : Bool → ℕ → List ℕ → List ℕ
unfolding length_bytes
rfc_frame is_final opcode payload =
    (flag_bit is_final + opcode) ∷ (length_bytes (length payload) ++ payload)

-- The calls of `rs_send` and of `rs_close_peer` that fill in a frame.
unfoldable pub write_frame : Bool → List ℕ → Bool → ℕ → List ℕ → ℕ → List ℕ × ℕ
unfolding clear_bit_fields set_is_final set_opcode set_sc_payload_and_get_frame_size
write_frame little buf is_final opcode payload_src payload_size =
    set_sc_payload_and_get_frame_size little
      (set_opcode (set_is_final (clear_bit_fields buf) is_final) opcode) payload_src payload_size

head_byte :
    (is_final : Bool) (opcode : ℕ)
    → opcode < 16
    → bit_or (bit_or 0 (flag_bit is_final)) opcode ≡ flag_bit is_final + opcode
head_byte true opcode h = final_with_opcode opcode h
head_byte false opcode h = bit_or-zero opcode (omega arith) ∙ omega arith

-- What `length_bytes` and the payload take, and where the rest of the buffer begins.
pub length-rfc_frame :
    (is_final : Bool) (opcode : ℕ) (payload : List ℕ)
    → length payload < 2 ^ 64 - 10
    → length (rfc_frame is_final opcode payload) ≡ get_sc_size_from_payload_size (length payload)
unfolding rfc_frame get_sc_size_from_payload_size
length-rfc_frame is_final opcode payload h = ground (
  arith,
  length-append (be_bytes 2 (length payload)) payload,
  length-append (be_bytes 8 (length payload)) payload,
  length-be_bytes 2 (length payload),
  length-be_bytes 8 (length payload),
)

-- The bytes behind the two bit fields: a length field, if any, and the payload.
tail_small :
    (src rest : List ℕ) (n : ℕ)
    → length src ≡ n
    → n ≤ length rest
    → overwrite 0 src rest ≡ src ++ drop n rest
tail_small src rest n e h =
    overwrite_lem rest src 0 (omega arith) ∙ ap (λ k. src ++ drop k rest) (omega arith)

tail_long :
    (field src rest : List ℕ) (k n m : ℕ)
    → length field ≡ k
    → length src ≡ n
    → k + n ≡ m
    → m ≤ length rest
    → overwrite k src (overwrite 0 field rest) ≡ (field ++ src) ++ drop m rest
tail_long field src rest k n m e f g h =
    overwrite_two field src rest k (omega arith) (omega arith)
    ∙ ap (λ j. field ++ (src ++ drop j rest)) (omega arith)
    ∙ sym (append_assoc field src (drop m rest))

drop_two : (b b' : ℕ) (rest : List ℕ) (k m : ℕ) → k ≡ 2 + m → drop k (b ∷ b' ∷ rest) ≡ drop m rest
drop_two b b' rest k m e = ap (λ j. drop j (b ∷ b' ∷ rest)) e'
  where
    e' : k ≡ suc (suc m)
    e' = omega arith

module _ (little is_final : Bool) (opcode : ℕ) (payload_src : List ℕ) (n : ℕ)
    (opcode_fits : opcode < 16) (source_holds : n ≤ length payload_src)
    (size_fits : n < 2 ^ 64 - 10) where
  -- For an opcode below 16, a payload that the source holds and a size below 2^64 - 10:
  -- the frame as it is written into a buffer that has room for it is the frame of RFC 6455, what
  -- lies behind it in the buffer stays, and the size returned is the frame's size.
  pub write_frame-rfc_frame :
      (buf : List ℕ)
      → get_sc_size_from_payload_size n ≤ length buf
      → let (frame, size) = write_frame little buf is_final opcode payload_src n in
        (frame ≡ rfc_frame is_final opcode (take n payload_src) ++ drop size buf)
        × (size ≡ length (rfc_frame is_final opcode (take n payload_src)))
        × (size ≡ get_sc_size_from_payload_size n)
  unfolding write_frame rfc_frame get_sc_size_from_payload_size
  write_frame-rfc_frame [] h = absurd (ground arith)
  write_frame-rfc_frame (b ∷ []) h = absurd (ground arith)
  write_frame-rfc_frame (b ∷ b' ∷ rest) h =
      let src : List ℕ = take n payload_src in
      let src_length : length src ≡ n = omega (arith, length-take n payload_src) in
      ground (
        arith,
        head_byte is_final opcode opcode_fits,
        bit_or-zero n,
        src_length,
        w_hton-eq-be_bytes little 2 n,
        w_hton-eq-be_bytes little 8 n,
        length-rfc_frame is_final opcode src,
        drop_two b b' rest (add64 2 n) n,
        drop_two b b' rest (add64 4 n) (2 + n),
        drop_two b b' rest (add64 10 n) (8 + n),
        tail_small src rest n src_length,
        tail_long (be_bytes 2 n) src rest 2 n (2 + n) (length-be_bytes 2 n) src_length refl,
        tail_long (be_bytes 8 n) src rest 8 n (8 + n) (length-be_bytes 8 n) src_length refl,
      )
