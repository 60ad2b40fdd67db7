-- ===== src/Websocket/Unmask.antt =====
-- `unmask_payload_and_validate_any_utf8` undoes the masking of a client's payload, one chunk of it
-- after the other.
use Prim.Native.Nat.{bit_xor}
use mathlib.Core.Path.{ap₂}
use ring_socket.Prelude.{
  get_or-front, get_or_end, set_end, ℕ, suc, ◌+◌, ◌-◌, ◌%◌, ◌≤◌, ◌<◌, ◌≡◌, ◌≢◌, inl, inr, refl, sym,
  ap, ◌∙◌, true, false, List, [], ◌∷◌, ◌++◌, append_assoc, arith, ◌==◌, length, get_or, set, All,
  all_below, all_below_sound, ==_iff, length-append, Bool-cases,
}
use ring_socket.Wire.Bytes.{IsByte}
use ring_socket.Wire.Utf8.{Utf8State, validate_byte, validate, invalid}
use ring_socket.Wire.Utf8.Complete.{validate-invalid}
use ring_socket.Websocket.{
  Ret, ok, close_peer, Parser, err_payload, DataKind, bin, utf8, unmask_byte, unmask_bin,
  unmask_utf8, first_masked, is_invalid, unmask_payload_and_validate_any_utf8, unmask_from,
}

-- RFC 6455, section 5.3: byte `i` of a payload is combined with byte `i % 4` of the key.
unfoldable pub masked : List ℕ → ℕ → List ℕ → List ℕ
masked key i [] = []
masked key i (b ∷ bs) = bit_xor b (get_or key (i % 4) 0) ∷ masked key (i + 1) bs

pub length-masked : (key : List ℕ) (i : ℕ) (bs : List ℕ) → length (masked key i bs) ≡ length bs
unfolding masked
length-masked key i [] = refl
length-masked key i (b ∷ bs) = ap suc (length-masked key (i + 1) bs)

xor_table : all_below 256 (λ a. all_below 256 (λ k. bit_xor (bit_xor a k) k == a)) ≡ true
unfolding all_below
xor_table = refl

xor_twice : (a k : ℕ) → a < 256 → k < 256 → bit_xor (bit_xor a k) k ≡ a
xor_twice a k h h' = (==_iff (bit_xor (bit_xor a k) k) a).0 (
    all_below_sound 256 (λ k. bit_xor (bit_xor a k) k == a) k
      (all_below_sound 256 (λ a. all_below 256 (λ k. bit_xor (bit_xor a k) k == a)) a xor_table h)
      h')

-- The bytes of the key that a masked payload is combined with.
abbrev pub IsKey : List ℕ → Type 0
IsKey key = (k : ℕ) → get_or key k 0 < 256

-- Masking twice gives the payload back.
pub masked_twice :
    (key : List ℕ) (i : ℕ) (bs : List ℕ)
    → IsKey key
    → All IsByte bs
    → masked key i (masked key i bs) ≡ bs
unfolding masked
masked_twice key i [] k h = refl
masked_twice key i (b ∷ bs) k h =
    ap₂ ◌∷◌ (xor_twice b (get_or key (i % 4) 0) h.0 (k (i % 4))) (masked_twice key (i + 1) bs k h.1)

-- The key stands in the four bytes in front of the payload.
pub record KeyAt (payload : ℕ) (key before : List ℕ) : Type 0 where
  pub room : 4 ≤ payload
  pub reaches : payload ≤ length before
  pub bytes : (k : ℕ) → k < 4 → get_or before (payload - 4 + k) 0 ≡ get_or key k 0

KeyAt-append :
    (payload : ℕ) (key before more : List ℕ)
    → KeyAt payload key before
    → KeyAt payload key (before ++ more)
KeyAt-append payload key before more at = record {
  room = at.room;
  reaches = omega (arith, at.reaches, length-append before more);
  bytes = λ k h.
      get_or-front 0 before more (payload - 4 + k) (omega (arith, at.room, at.reaches))
      ∙ at.bytes k h;
}

unmask_byte_lem :
    (payload i b : ℕ) (key before t : List ℕ)
    → KeyAt payload key before
    → length before ≡ payload + i
    → unmask_byte payload (before ++ b ∷ t) i ≡ before ++ bit_xor b (get_or key (i % 4) 0) ∷ t
unfolding unmask_byte
unmask_byte_lem payload i b key before t at e =
    ap₂ (λ x y. set (before ++ b ∷ t) (payload + i) (bit_xor x y))
      (get_or_end 0 before b t (payload + i) (sym e))
      (get_or-front 0 before (b ∷ t) (payload - 4 + i % 4) (omega (arith, at.room, at.reaches))
        ∙ at.bytes (i % 4) (omega arith))
    ∙ set_end before b (bit_xor b (get_or key (i % 4) 0)) t (payload + i) (sym e)

pub unmask_bin_lem :
    (payload i : ℕ) (key before bs rest : List ℕ)
    → KeyAt payload key before
    → length before ≡ payload + i
    → unmask_bin payload (length bs) i (before ++ (bs ++ rest))
      ≡ before ++ (masked key i bs ++ rest)
unfolding unmask_bin masked
unmask_bin_lem payload i key before [] rest at e = refl
unmask_bin_lem payload i key before (b ∷ bs) rest at e =
    let c = bit_xor b (get_or key (i % 4) 0) in
    ap (unmask_bin payload (length bs) (i + 1)) (
      unmask_byte_lem payload i b key before (bs ++ rest) at e
      ∙ sym (append_assoc before (c ∷ []) (bs ++ rest)))
    ∙ unmask_bin_lem payload (i + 1) key (before ++ c ∷ []) bs rest
        (KeyAt-append payload key before (c ∷ []) at) (omega (arith, length-append before (c ∷ [])))
    ∙ append_assoc before (c ∷ []) (masked key (i + 1) bs ++ rest)

-- What the loop for text leaves: the state of the validator, and the unmasked bytes unless they are
-- invalid.
abbrev Text : Utf8State → List ℕ → Utf8State × List ℕ → Type 0
Text s buf r = (r.0 ≡ s) × (s ≢ invalid → r.1 ≡ buf)

is_invalid_lem : (s : Utf8State) → is_invalid s ≡ true → s ≡ invalid
is_invalid_lem s e = ground arith

not_invalid : (s : Utf8State) → is_invalid s ≡ false → s ≢ invalid
not_invalid s e e' = ground arith

is_valid : (s : Utf8State) → s ≢ invalid → is_invalid s ≡ false
is_valid s h = ground arith

pub unmask_utf8_lem :
    (payload i : ℕ) (key before bs rest : List ℕ) (s : Utf8State)
    → KeyAt payload key before
    → length before ≡ payload + i
    → Text
        (validate s (masked key i bs))
        (before ++ (masked key i bs ++ rest))
        (unmask_utf8 payload (length bs) i s (before ++ (bs ++ rest)))
unfolding unmask_utf8 masked validate
unmask_utf8_lem payload i key before [] rest s at e = (refl, λ h. refl)
unmask_utf8_lem payload i key before (b ∷ bs) rest s at e =
    let c = bit_xor b (get_or key (i % 4) 0) in
    let t = bs ++ rest in
    let done = unmask_byte_lem payload i b key before t at e in
    rw (done, get_or_end 0 before c t (payload + i) (sym e))
      (elim (Bool-cases (is_invalid (validate_byte s c))) [
        | inl bad ↦
            let q = is_invalid_lem (validate_byte s c) bad in
            let q' : validate (validate_byte s c) (masked key (i + 1) bs) ≡ invalid =
              ap (λ u. validate u (masked key (i + 1) bs)) q
              ∙ validate-invalid (masked key (i + 1) bs) in
            rw bad (q ∙ sym q', λ h. absurd (h q'))
        | inr good ↦
            let next =
              unmask_utf8_lem payload (i + 1) key (before ++ c ∷ []) bs rest (validate_byte s c)
                (KeyAt-append payload key before (c ∷ []) at)
                (omega (arith, length-append before (c ∷ []))) in
            rw good (
              rw
                (
                  append_assoc before (c ∷ []) t,
                  append_assoc before (c ∷ []) (masked key (i + 1) bs ++ rest),
                )
                at next)
      ])

-- What is left of a payload that was masked with `key`, from its byte `i` on, with the parser `wsp`
-- at byte `i`: binary data is unmasked; a text is unmasked and leaves the validator in the state
-- behind it, or is refused with the close frame for an invalid payload.
abbrev pub Unmasked : Parser → List ℕ → List ℕ → (Ret × Parser) × List ℕ → Type 0
Unmasked wsp text buf r =
    (wsp.data_kind ≡ bin → r ≡ ((ok, wsp), buf))
    × (wsp.data_kind ≡ utf8
        → validate wsp.utf8_state text ≢ invalid
        → r ≡ ((ok, record wsp { utf8_state = validate wsp.utf8_state text }), buf))
    × (wsp.data_kind ≡ utf8
        → validate wsp.utf8_state text ≡ invalid
        → r.0 ≡ (close_peer, record wsp { close_frame = err_payload; utf8_state = invalid }))

module _ (wsp : Parser) (i : ℕ) (key before text rest : List ℕ) (key_fits : IsKey key)
    (text_fits : All IsByte text) (at : KeyAt wsp.payload key before) (from : first_masked wsp ≡ i)
    (there : length before ≡ wsp.payload + i) where
  bin_part :
      unmask_bin wsp.payload (length text) i (before ++ (masked key i text ++ rest))
      ≡ before ++ (text ++ rest)
  bin_part =
      ap (λ n. unmask_bin wsp.payload n i (before ++ (masked key i text ++ rest)))
        (sym (length-masked key i text))
      ∙ unmask_bin_lem wsp.payload i key before (masked key i text) rest at there
      ∙ ap (λ t. before ++ (t ++ rest)) (masked_twice key i text key_fits text_fits)

  text_part : Text (validate wsp.utf8_state text) (before ++ (text ++ rest)) (
      unmask_utf8 wsp.payload
        (length text)
        i
        wsp.utf8_state
        (before ++ (masked key i text ++ rest)))
  text_part =
      let part =
        unmask_utf8_lem wsp.payload i key before (masked key i text) rest wsp.utf8_state at there in
      rw (masked_twice key i text key_fits text_fits, length-masked key i text) at part

  -- For a key and a text of bytes: with the key in front of the payload, and everything before byte `i` already unmasked, the
  -- parser unmasks the bytes that have come, and validates them if they are text.
  pub unmask_lem : Unmasked wsp text (before ++ (text ++ rest)) (
      unmask_payload_and_validate_any_utf8
        (before ++ (masked key i text ++ rest))
        wsp
        (i + length text))
  unfolding unmask_payload_and_validate_any_utf8 unmask_from
  unmask_lem =
      let buf = before ++ (masked key i text ++ rest) in
      let by : (d : DataKind)
          → wsp.data_kind ≡ d
          → unmask_payload_and_validate_any_utf8 buf wsp (i + length text)
            ≡ unmask_from d buf wsp (length text) i =
        λ d k.
          ap (λ e. unmask_from e buf wsp (i + length text - first_masked wsp) (first_masked wsp)) k
          ∙ ap (λ j. unmask_from d buf wsp (i + length text - j) j) from
          ∙ ap (λ n. unmask_from d buf wsp n i) (omega arith) in
      (
        λ k. by bin k ∙ ap (λ b. ((ok, wsp), b)) bin_part,
        λ k good.
            by utf8 k
            ∙ rw (text_part.0, text_part.1 good, is_valid (validate wsp.utf8_state text) good) refl,
        λ k bad. ap (λ r. r.0) (by utf8 k) ∙ rw (text_part.0, bad) refl,
      )
