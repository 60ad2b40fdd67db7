-- ===== src/Wire/Frame/Read.antt =====
-- The accessors read back the frames that RFC 6455 describes, server to client and client to server.
use Prim.Native.Nat.{bit_and}
use native.Mathlib.Nat.{mod-eq_of_lt}
use ring_socket.Prelude.{
  ℕ, ◌+◌, ◌-◌, ◌^◌, ◌<◌, ◌≡◌, refl, sym, ap, ◌∙◌, Bool, true, false, List, [], ◌∷◌, ◌++◌, arith,
  if◌then◌else◌, leb, length, take, drop, slice, take-append, drop-append, drop-add, length-append,
  append_assoc,
}
use ring_socket.Wire.Bytes.{
  r_ntoh, be_bytes, of_be-be_bytes, be_bytes-IsByte, length-be_bytes, r_ntoh-eq-of_be,
}
use ring_socket.Wire.Frame.{
  flag_bit, top_bit, get_is_final, get_opcode, get_is_masked, get_payload_size, get_sc_size,
  get_next_cs, get_cs_payload, copy_cs_payload, get_sc_size_from_payload_size,
  get_cs_size_from_payload_size,
}
use ring_socket.Wire.Frame.Write.{rfc_frame, opcode_bits, size_bits}

-- RFC 6455, section 5.2: a frame from a client has the mask bit set, and the four bytes of its
-- masking key in front of the masked payload.
unfoldable pub masked_length_bytes : ℕ → List ℕ
masked_length_bytes n =
    if leb n 125
    then (128 + n) ∷ []
    else if leb n 0xFFFF
    then 254 ∷ be_bytes 2 n
    else 255 ∷ be_bytes 8 n

unfoldable pub client_frame : Bool → ℕ → List ℕ → List ℕ → List ℕ
unfolding masked_length_bytes
client_frame is_final opcode key masked =
    (flag_bit is_final + opcode) ∷ (masked_length_bytes (length masked) ++ (key ++ masked))

-- Reading an integer field back from among other bytes.
pub r_ntoh_field :
    (little : Bool) (k n : ℕ) (rest : List ℕ)
    → n < 256 ^ k
    → r_ntoh little (take k (be_bytes k n ++ rest)) ≡ n
r_ntoh_field little k n rest h =
    ap (r_ntoh little) (take-append (be_bytes k n) rest k (sym (length-be_bytes k n)))
    ∙ r_ntoh-eq-of_be little (be_bytes k n) (be_bytes-IsByte k n)
    ∙ of_be-be_bytes k n
    ∙ mod-eq_of_lt h

pub first_byte_bits :
    (is_final : Bool) (opcode : ℕ)
    → opcode < 16
    → (top_bit (flag_bit is_final + opcode) ≡ is_final)
      × (bit_and (flag_bit is_final + opcode) 0x0F ≡ opcode)
first_byte_bits true opcode h =
    (ground arith, opcode_bits (128 + opcode) (omega arith) ∙ omega arith)
first_byte_bits false opcode h =
    (ground arith, opcode_bits (0 + opcode) (omega arith) ∙ omega arith)

-- `rs_copy_wsframe_cs_payload` copies what `rs_get_wsframe_cs_payload` points at.
pub copy-get_cs_payload :
    (little : Bool) (frame : List ℕ)
    → copy_cs_payload little frame ≡ (
      (get_cs_payload little frame).0,
      slice frame (get_cs_payload little frame).1 (get_cs_payload little frame).0,
    )
unfolding copy_cs_payload get_cs_payload
copy-get_cs_payload little frame = ground arith

-- The next frame begins where the payload ends.
pub get_next_cs-get_cs_payload :
    (little : Bool) (frame : List ℕ)
    → (get_cs_payload little frame).0 < 2 ^ 64 - 14
    → get_next_cs little frame ≡ (get_cs_payload little frame).1 + (get_cs_payload little frame).0
unfolding get_next_cs get_cs_payload
get_next_cs-get_cs_payload little frame h = ground arith

module _ (little is_final : Bool) (opcode : ℕ) (rest : List ℕ) (opcode_fits : opcode < 16) where
  -- For an opcode below 16 and a payload below 2^64 - 10 bytes:
  -- read on a machine of any byte order, with any bytes behind it, a server's frame shows the flag,
  -- opcode and payload size that it was made of, no mask bit, and its own size.
  pub read-rfc_frame :
      (payload : List ℕ)
      → length payload < 2 ^ 64 - 10
      → let frame = rfc_frame is_final opcode payload ++ rest in
        (get_is_final frame ≡ is_final)
        × (get_opcode frame ≡ opcode)
        × (get_is_masked frame ≡ false)
        × (get_payload_size little frame ≡ length payload)
        × (get_sc_size little frame ≡ get_sc_size_from_payload_size (length payload))
  unfolding rfc_frame get_is_final get_opcode get_is_masked get_payload_size get_sc_size
      get_sc_size_from_payload_size
  read-rfc_frame payload h =
      let n = length payload in
      ground (
        arith,
        first_byte_bits is_final opcode opcode_fits,
        size_bits n,
        size_bits 126,
        size_bits 127,
        append_assoc (be_bytes 2 n) payload rest,
        append_assoc (be_bytes 8 n) payload rest,
        r_ntoh_field little 2 n (payload ++ rest),
        r_ntoh_field little 8 n (payload ++ rest),
      )

  pub length-client_frame :
      (key masked : List ℕ)
      → length key ≡ 4
      → length masked < 2 ^ 64 - 14
      → length (client_frame is_final opcode key masked)
        ≡ get_cs_size_from_payload_size (length masked)
  unfolding client_frame get_cs_size_from_payload_size
  length-client_frame key masked k h =
      let n = length masked in
      ground (
        arith,
        length-append key masked,
        length-append (be_bytes 2 n) (key ++ masked),
        length-append (be_bytes 8 n) (key ++ masked),
        length-be_bytes 2 n,
        length-be_bytes 8 n,
      )

  module _ (key masked : List ℕ) (key_length : length key ≡ 4)
      (fits : length masked < 2 ^ 64 - 14) where
    client_frame_fields :
        let frame = client_frame is_final opcode key masked ++ rest in
        (get_is_final frame ≡ is_final)
        × (get_opcode frame ≡ opcode)
        × (get_is_masked frame ≡ true)
        × (get_payload_size little frame ≡ length masked)
    unfolding client_frame get_is_final get_opcode get_is_masked get_payload_size
    client_frame_fields =
        let n = length masked in
        ground (
          arith,
          first_byte_bits is_final opcode opcode_fits,
          size_bits (128 + n),
          size_bits 254,
          size_bits 255,
          append_assoc (be_bytes 2 n) (key ++ masked) rest,
          append_assoc (be_bytes 8 n) (key ++ masked) rest,
          r_ntoh_field little 2 n ((key ++ masked) ++ rest),
          r_ntoh_field little 8 n ((key ++ masked) ++ rest),
        )

    client_frame_payload :
        let frame = client_frame is_final opcode key masked ++ rest in
        ((get_cs_payload little frame).0 ≡ length masked)
        × (drop (get_cs_payload little frame).1 frame ≡ masked ++ rest)
    unfolding client_frame get_cs_payload
    client_frame_payload =
        let n = length masked in
        ground (
          arith,
          size_bits (128 + n),
          size_bits 254,
          size_bits 255,
          append_assoc (be_bytes 2 n) (key ++ masked) rest,
          append_assoc (be_bytes 8 n) (key ++ masked) rest,
          r_ntoh_field little 2 n ((key ++ masked) ++ rest),
          r_ntoh_field little 8 n ((key ++ masked) ++ rest),
          append_assoc key masked rest,
          drop-append key (masked ++ rest) 4,
          field_key 2 n (masked ++ rest),
          field_key 8 n (masked ++ rest),
        )
      where
        field_key : (k n : ℕ) (tail : List ℕ) → drop (k + 4) (be_bytes k n ++ (key ++ tail)) ≡ tail
        field_key k n tail =
            ap (drop (k + 4)) (sym (append_assoc (be_bytes k n) key tail))
            ∙ drop-append (be_bytes k n ++ key) tail (k + 4)
                (omega (arith, length-append (be_bytes k n) key, length-be_bytes k n, key_length))

    -- For an opcode below 16, a key of four bytes and a payload below 2^64 - 14 bytes:
    -- a client's frame shows the flag, opcode and payload size that it was made of and a set mask
    -- bit. What `rs_copy_wsframe_cs_payload` copies is its payload, and the next frame is what
    -- follows it.
    pub read-client_frame :
        let frame = client_frame is_final opcode key masked ++ rest in
        (get_is_final frame ≡ is_final)
        × (get_opcode frame ≡ opcode)
        × (get_is_masked frame ≡ true)
        × (get_payload_size little frame ≡ length masked)
        × (copy_cs_payload little frame ≡ (length masked, masked))
        × (drop (get_next_cs little frame) frame ≡ rest)
    read-client_frame =
        let frame = client_frame is_final opcode key masked ++ rest in
        let (size, start) = get_cs_payload little frame in
        let fields = client_frame_fields in
        let payload = client_frame_payload in
        (
          fields.0,
          fields.1,
          fields.2,
          fields.3,
          copy-get_cs_payload little frame
              ∙ ap (λ k. (k, take k (drop start frame))) payload.0
              ∙ ap (λ t. (length masked, take (length masked) t)) payload.1
              ∙ ap (λ t. (length masked, t)) (take-append masked rest (length masked) refl),
          ap (λ k. drop k frame) (get_next_cs-get_cs_payload little frame (omega arith))
              ∙ drop-add frame start size
              ∙ ap (drop size) payload.1
              ∙ drop-append masked rest size payload.0,
        )
