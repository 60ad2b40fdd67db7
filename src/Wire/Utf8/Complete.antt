-- ===== src/Wire/Utf8/Complete.antt =====
-- Every UTF-8 text passes the validator, and a state that is not `invalid` can still be completed.
use ring_socket.Prelude.{ℕ, ◌≡◌, ◌≢◌, refl, ap, ◌∙◌, List, [], ◌∷◌, ◌++◌, arith, All}
use ring_socket.Wire.Utf8.{
  Utf8State, ok, two_i1, three_1_i1, three_1_i2, three_2_i1, three_2_i2, three_3_i1, three_3_i2,
  three_4_i1, three_4_i2, four_1_i1, four_1_i2, four_1_i3, four_2_i1, four_2_i2, four_2_i3,
  four_3_i1, four_3_i2, four_3_i3, invalid, validate_byte, validate,
}
use ring_socket.Wire.Utf8.Encode.{IsScalar, encode, encode_all}

pub validate-append :
    (s : Utf8State) (xs ys : List ℕ) → validate s (xs ++ ys) ≡ validate (validate s xs) ys
unfolding validate
validate-append s [] ys = refl
validate-append s (x ∷ xs) ys = validate-append (validate_byte s x) xs ys

pub validate-invalid : (bs : List ℕ) → validate invalid bs ≡ invalid
unfolding validate validate_byte
validate-invalid [] = refl
validate-invalid (b ∷ bs) = validate-invalid bs

validate-encode : (c : ℕ) → IsScalar c → validate ok (encode c) ≡ ok
unfolding validate validate_byte encode
validate-encode c h = ground arith

-- The encoding of any scalar values, one after the other, leaves the validator in RS_UTF8_OK.
pub validate-encode_all : (cs : List ℕ) → All IsScalar cs → validate ok (encode_all cs) ≡ ok
unfolding encode_all
validate-encode_all [] h = unfold validate in refl
validate-encode_all (c ∷ cs) h =
    validate-append ok (encode c) (encode_all cs)
    ∙ ap (λ s. validate s (encode_all cs)) (validate-encode c h.0)
    ∙ validate-encode_all cs h.1

-- Bytes that complete the code point that is being read.
unfoldable pub completion : Utf8State → List ℕ
completion ok = []
completion two_i1 = 0x80 ∷ []
completion three_1_i1 = 0xA0 ∷ 0x80 ∷ []
completion three_1_i2 = 0x80 ∷ []
completion three_2_i1 = 0x80 ∷ 0x80 ∷ []
completion three_2_i2 = 0x80 ∷ []
completion three_3_i1 = 0x80 ∷ 0x80 ∷ []
completion three_3_i2 = 0x80 ∷ []
completion three_4_i1 = 0x80 ∷ 0x80 ∷ []
completion three_4_i2 = 0x80 ∷ []
completion four_1_i1 = 0x90 ∷ 0x80 ∷ 0x80 ∷ []
completion four_1_i2 = 0x80 ∷ 0x80 ∷ []
completion four_1_i3 = 0x80 ∷ []
completion four_2_i1 = 0x80 ∷ 0x80 ∷ 0x80 ∷ []
completion four_2_i2 = 0x80 ∷ 0x80 ∷ []
completion four_2_i3 = 0x80 ∷ []
completion four_3_i1 = 0x80 ∷ 0x80 ∷ 0x80 ∷ []
completion four_3_i2 = 0x80 ∷ 0x80 ∷ []
completion four_3_i3 = 0x80 ∷ []
completion invalid = []

pub validate-completion : (s : Utf8State) → s ≢ invalid → validate s (completion s) ≡ ok
unfolding validate validate_byte completion
validate-completion ok h = refl
validate-completion invalid h = absurd (h refl)
validate-completion _ h = refl
