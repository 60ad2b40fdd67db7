-- ===== src/Tests/Frames.antt =====
-- Frames, integers and texts.
use ring_socket.Prelude.{ℕ, ◌≡◌, ◌↔◌, refl, true, List, [], ◌∷◌, ◌++◌, arith, length, take, drop}
use ring_socket.Wire.Bytes.{w_hton, r_ntoh, be_bytes, of_be, w_hton-eq-be_bytes, r_ntoh-eq-of_be}
use ring_socket.Wire.Frame.{
  opc_text, opc_ping, get_is_final, get_opcode, get_is_masked, get_payload_size, copy_cs_payload,
  get_next_cs, get_sc_size_from_payload_size, get_cs_size_from_payload_size,
}
use ring_socket.Wire.Frame.Write.{write_frame, rfc_frame, write_frame-rfc_frame}
use ring_socket.Wire.Frame.Read.{client_frame, read-client_frame, length-client_frame}
use ring_socket.Wire.Utf8.{validate, ok}
use ring_socket.Wire.Utf8.Encode.{IsUtf8}
use ring_socket.Wire.Utf8.Sound.{validate_iff_IsUtf8}

w_hton-eq-be_bytes_example : w_hton true 4 0x12345678 ≡ be_bytes 4 0x12345678
w_hton-eq-be_bytes_example = w_hton-eq-be_bytes true 4 0x12345678

r_ntoh-eq-of_be_example : r_ntoh true (1 ∷ 2 ∷ []) ≡ of_be (1 ∷ 2 ∷ [])
r_ntoh-eq-of_be_example = r_ntoh-eq-of_be true (1 ∷ 2 ∷ []) (omega arith, (omega arith, tt))

abbrev greeting : List ℕ
greeting = 72 ∷ 105 ∷ []

abbrev buffer : List ℕ
buffer = 1 ∷ 2 ∷ 3 ∷ 4 ∷ 5 ∷ []

write_frame-rfc_frame_example :
    let (frame, size) = write_frame true buffer true opc_text greeting 2 in
    (frame ≡ rfc_frame true opc_text (take 2 greeting) ++ drop size buffer)
    × (size ≡ length (rfc_frame true opc_text (take 2 greeting)))
    × (size ≡ get_sc_size_from_payload_size 2)
unfolding get_sc_size_from_payload_size
write_frame-rfc_frame_example =
    write_frame-rfc_frame true true opc_text greeting 2 (omega arith) (omega arith) (omega arith)
      buffer (omega arith)

abbrev mask_key : List ℕ
mask_key = 7 ∷ 8 ∷ 9 ∷ 10 ∷ []

length-client_frame_example :
    length (client_frame true opc_ping mask_key greeting)
    ≡ get_cs_size_from_payload_size (length greeting)
length-client_frame_example =
    length-client_frame true true opc_ping [] (omega arith) mask_key greeting refl (omega arith)

read-client_frame_example :
    let frame = client_frame true opc_ping mask_key greeting ++ buffer in
    (get_is_final frame ≡ true)
    × (get_opcode frame ≡ opc_ping)
    × (get_is_masked frame ≡ true)
    × (get_payload_size true frame ≡ length greeting)
    × (copy_cs_payload true frame ≡ (length greeting, greeting))
    × (drop (get_next_cs true frame) frame ≡ buffer)
read-client_frame_example =
    read-client_frame true true opc_ping buffer (omega arith) mask_key greeting refl (omega arith)

-- Half of a two-byte sequence, and an overlong one.
validate_iff_IsUtf8_example : (validate ok (0xC3 ∷ 0xA9 ∷ []) ≡ ok) ↔ IsUtf8 (0xC3 ∷ 0xA9 ∷ [])
validate_iff_IsUtf8_example = validate_iff_IsUtf8 (0xC3 ∷ 0xA9 ∷ [])
