-- ===== src/Wire/Utf8.antt =====
-- ringsocket_wsframe.h: the byte-by-byte UTF-8 validator.
pub mod Encode
pub mod Complete
pub mod Sound
use ring_socket.Prelude.{ℕ, Bool, true, false, ◌||◌, List, [], ◌∷◌, if◌then◌else◌, ltb}

-- `enum rs_utf8_state`; RS_UTF8_3BYTE_1_I2 is `three_1_i2`. The state `ok` is RS_UTF8_OK.
pub data Utf8State : Type 0 where
  ok two_i1 : Utf8State
  three_1_i1 three_1_i2 three_2_i1 three_2_i2 : Utf8State
  three_3_i1 three_3_i2 three_4_i1 three_4_i2 : Utf8State
  four_1_i1 four_1_i2 four_1_i3 four_2_i1 four_2_i2 four_2_i3 : Utf8State
  four_3_i1 four_3_i2 four_3_i3 invalid : Utf8State

-- The ranges of `case RS_UTF8_OK`, in order.
unfoldable pub first_byte : ℕ → Utf8State
first_byte b =
    if ltb b 0x80
    then ok
    else if ltb b 0xC2
    then invalid
    else if ltb b 0xE0
    then two_i1
    else if ltb b 0xE1
    then three_1_i1
    else if ltb b 0xED
    then three_2_i1
    else if ltb b 0xEE
    then three_3_i1
    else if ltb b 0xF0
    then three_4_i1
    else if ltb b 0xF1
    then four_1_i1
    else if ltb b 0xF4
    then four_2_i1
    else if ltb b 0xF5
    then four_3_i1
    else invalid

-- `b < lo || b > hi ? RS_UTF8_INVALID : next`
unfoldable pub within : ℕ → ℕ → ℕ → Utf8State → Utf8State
within lo hi b next = if ltb b lo || ltb hi b then invalid else next

unfoldable pub validate_byte : Utf8State → ℕ → Utf8State
unfolding first_byte within
validate_byte ok b = first_byte b
validate_byte two_i1 b = within 0x80 0xBF b ok
validate_byte three_1_i1 b = within 0xA0 0xBF b three_1_i2
validate_byte three_1_i2 b = within 0x80 0xBF b ok
validate_byte three_2_i1 b = within 0x80 0xBF b three_2_i2
validate_byte three_2_i2 b = within 0x80 0xBF b ok
validate_byte three_3_i1 b = within 0x80 0x9F b three_3_i2
validate_byte three_3_i2 b = within 0x80 0xBF b ok
validate_byte three_4_i1 b = within 0x80 0xBF b three_4_i2
validate_byte three_4_i2 b = within 0x80 0xBF b ok
validate_byte four_1_i1 b = within 0x90 0xBF b four_1_i2
validate_byte four_1_i2 b = within 0x80 0xBF b four_1_i3
validate_byte four_1_i3 b = within 0x80 0xBF b ok
validate_byte four_2_i1 b = within 0x80 0xBF b four_2_i2
validate_byte four_2_i2 b = within 0x80 0xBF b four_2_i3
validate_byte four_2_i3 b = within 0x80 0xBF b ok
validate_byte four_3_i1 b = within 0x80 0x8F b four_3_i2
validate_byte four_3_i2 b = within 0x80 0xBF b four_3_i3
validate_byte four_3_i3 b = within 0x80 0xBF b ok
validate_byte invalid b = invalid

-- The state after a run of bytes, as the loop of `unmask_payload_and_validate_any_utf8` keeps it.
unfoldable pub validate : Utf8State → List ℕ → Utf8State
validate s [] = s
validate s (b ∷ bs) = validate (validate_byte s b) bs
