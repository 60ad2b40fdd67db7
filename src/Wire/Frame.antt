-- ===== src/Wire/Frame.antt =====
-- ringsocket_wsframe.h: the accessors of `union rs_wsframe`. A frame is the list of the bytes from
-- the frame's address on; a pointer into it is an index. Sums of `uint64_t` wrap around.
pub mod Read
pub mod Write
use Prim.Native.Nat.{bit_and, bit_or}
use ring_socket.Prelude.{
  ℕ, ◌+◌, ◌/◌, ◌%◌, ◌^◌, ◌<◌, Bool, true, false, not, List, [], ◌∷◌, if◌then◌else◌, ◌==◌, leb,
  get_or, set, take, slice, overwrite,
}
use ring_socket.Wire.Bytes.{r_ntoh, w_hton}

-- `enum rs_wsframe_opcode`
abbrev pub opc_cont : ℕ
opc_cont = 0x0

abbrev pub opc_text : ℕ
opc_text = 0x1

abbrev pub opc_bin : ℕ
opc_bin = 0x2

abbrev pub opc_close : ℕ
opc_close = 0x8

abbrev pub opc_ping : ℕ
opc_ping = 0x9

abbrev pub opc_pong : ℕ
opc_pong = 0xA

-- The `sizeof` of the frame structs, which is also the offset of `payload` in each.
abbrev pub sizeof_cs_small : ℕ
sizeof_cs_small = 6

abbrev pub sizeof_cs_medium : ℕ
sizeof_cs_medium = 8

abbrev pub sizeof_cs_large : ℕ
sizeof_cs_large = 14

abbrev pub sizeof_sc_small : ℕ
sizeof_sc_small = 2

abbrev pub sizeof_sc_medium : ℕ
sizeof_sc_medium = 4

abbrev pub sizeof_sc_large : ℕ
sizeof_sc_large = 10

abbrev pub add64 : ℕ → ℕ → ℕ
add64 a b = (a + b) % 2 ^ 64

-- A byte of the frame; every read that the theorems are about lies within it.
abbrev pub byte_at : List ℕ → ℕ → ℕ
byte_at frame i = get_or frame i 0

-- `x >> 7` as a `bool`
abbrev pub top_bit : ℕ → Bool
top_bit x = not (x / 2 ^ 7 == 0)

-- `flag << 7`
abbrev pub flag_bit : Bool → ℕ
flag_bit flag = if flag then 0x80 else 0

abbrev or_byte : List ℕ → ℕ → ℕ → List ℕ
or_byte frame i x = set frame i (bit_or (byte_at frame i) x)

unfoldable pub get_is_final : List ℕ → Bool
get_is_final frame = top_bit (byte_at frame 0)

unfoldable pub set_is_final : List ℕ → Bool → List ℕ
set_is_final frame is_final = or_byte frame 0 (flag_bit is_final)

unfoldable pub get_opcode : List ℕ → ℕ
get_opcode frame = bit_and (byte_at frame 0) 0x0F

unfoldable pub set_opcode : List ℕ → ℕ → List ℕ
set_opcode frame opcode = or_byte frame 0 opcode

unfoldable pub get_is_masked : List ℕ → Bool
get_is_masked frame = top_bit (byte_at frame 1)

unfoldable pub set_is_masked : List ℕ → Bool → List ℕ
set_is_masked frame is_masked = or_byte frame 1 (flag_bit is_masked)

-- `frame->payload_size_x7F & 0x7F`
abbrev pub size_byte : List ℕ → ℕ
size_byte frame = bit_and (byte_at frame 1) 0x7F

unfoldable pub clear_bit_fields : List ℕ → List ℕ
clear_bit_fields frame = overwrite 0 (0 ∷ 0 ∷ []) frame

-- `little` is RS_IS_LITTLE_ENDIAN.
module _ (little : Bool) where
  unfoldable pub get_payload_size : List ℕ → ℕ
  get_payload_size frame =
      let payload_size = size_byte frame in
      if payload_size == 126
      then r_ntoh little (slice frame 2 2)
      else if payload_size == 127
      then r_ntoh little (slice frame 2 8)
      else payload_size

  unfoldable pub set_payload_size : List ℕ → ℕ → List ℕ
  set_payload_size frame payload_size =
      if leb payload_size 125
      then or_byte frame 1 payload_size
      else if leb payload_size 0xFFFF
      then overwrite 2 (w_hton little 2 payload_size) (or_byte frame 1 126)
      else overwrite 2 (w_hton little 8 payload_size) (or_byte frame 1 127)

  unfoldable pub get_sc_size : List ℕ → ℕ
  get_sc_size frame =
      let payload_size = size_byte frame in
      if payload_size == 126
      then add64 sizeof_sc_medium (r_ntoh little (slice frame 2 2))
      else if payload_size == 127
      then add64 sizeof_sc_large (r_ntoh little (slice frame 2 8))
      else add64 sizeof_sc_small payload_size

  unfoldable pub get_cs_size : List ℕ → ℕ
  unfolding get_sc_size
  get_cs_size frame = add64 (get_sc_size frame) 4

  -- The offset of the next frame from this one.
  unfoldable pub get_next_cs : List ℕ → ℕ
  unfolding get_cs_size
  get_next_cs frame = get_cs_size frame

  -- The size of the payload, and its offset from the frame.
  unfoldable pub get_cs_payload : List ℕ → ℕ × ℕ
  get_cs_payload frame =
      let payload_size = size_byte frame in
      if payload_size == 126
      then (r_ntoh little (slice frame 2 2), sizeof_cs_medium)
      else if payload_size == 127
      then (r_ntoh little (slice frame 2 8), sizeof_cs_large)
      else (payload_size, sizeof_cs_small)

  -- The size of the payload, and the bytes that are copied to the destination.
  unfoldable pub copy_cs_payload : List ℕ → ℕ × List ℕ
  copy_cs_payload frame =
      let payload_size = size_byte frame in
      let medium = r_ntoh little (slice frame 2 2) in
      let large = r_ntoh little (slice frame 2 8) in
      if payload_size == 126
      then (medium, slice frame sizeof_cs_medium medium)
      else if payload_size == 127
      then (large, slice frame sizeof_cs_large large)
      else (payload_size, slice frame sizeof_cs_small payload_size)

  -- The frame as written, and its size.
  unfoldable pub set_sc_payload_and_get_frame_size : List ℕ → List ℕ → ℕ → List ℕ × ℕ
  set_sc_payload_and_get_frame_size frame payload_src payload_size =
      let src = take payload_size payload_src in
      if leb payload_size 125
      then (
        overwrite sizeof_sc_small src (or_byte frame 1 payload_size),
        add64 sizeof_sc_small payload_size,
      )
      else if leb payload_size 0xFFFF
      then (
        overwrite sizeof_sc_medium src
            (overwrite 2 (w_hton little 2 payload_size) (or_byte frame 1 126)),
        add64 sizeof_sc_medium payload_size,
      )
      else (
        overwrite sizeof_sc_large src
            (overwrite 2 (w_hton little 8 payload_size) (or_byte frame 1 127)),
        add64 sizeof_sc_large payload_size,
      )

unfoldable pub get_sc_size_from_payload_size : ℕ → ℕ
get_sc_size_from_payload_size payload_size =
    if leb payload_size 125
    then add64 sizeof_sc_small payload_size
    else if leb payload_size 0xFFFF
    then add64 sizeof_sc_medium payload_size
    else add64 sizeof_sc_large payload_size

unfoldable pub get_cs_size_from_payload_size : ℕ → ℕ
unfolding get_sc_size_from_payload_size
get_cs_size_from_payload_size payload_size = add64 (get_sc_size_from_payload_size payload_size) 4
