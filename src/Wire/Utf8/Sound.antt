-- ===== src/Wire/Utf8/Sound.antt =====
-- What passes the validator is UTF-8.
use mathlib.Core.Path.{subst, ap₂}
use ring_socket.Prelude.{
  ℕ, zero, suc, ◌≤◌, ◌≡◌, ◌≢◌, ◌↔◌, refl, sym, ap, ◌∙◌, List, [], ◌∷◌, ◌++◌, arith, length,
}
use ring_socket.Wire.Utf8.{
  Utf8State, ok, two_i1, three_1_i1, three_1_i2, three_2_i1, three_2_i2, three_3_i1, three_3_i2,
  three_4_i1, three_4_i2, four_1_i1, four_1_i2, four_1_i3, four_2_i1, four_2_i2, four_2_i3,
  four_3_i1, four_3_i2, four_3_i3, invalid, first_byte, within, validate_byte, validate,
}
use ring_socket.Wire.Utf8.Complete.{
  validate-append, validate-invalid, validate-encode_all, completion, validate-completion,
}
use ring_socket.Wire.Utf8.Encode.{
  IsScalar, encode, encode_all, IsUtf8, encode_two, encode_three, encode_four,
}

Utf8State-discrete : Discrete Utf8State
Utf8State-discrete = hlevel

-- The bytes go on with one in the range, and the validator with the state `next`.
abbrev Continues : ℕ → ℕ → Utf8State → List ℕ → Type 0
Continues lo hi next bs =
    (b : ℕ) × (r : List ℕ) × (bs ≡ b ∷ r) × (lo ≤ b) × (b ≤ hi) × (validate next r ≡ ok)

within_inv :
    (lo hi b : ℕ) (next : Utf8State) (r : List ℕ)
    → validate (within lo hi b next) r ≡ ok
    → (lo ≤ b) × (b ≤ hi) × (validate next r ≡ ok)
unfolding within
within_inv lo hi b next r e = ground (arith, validate-invalid r)

continue :
    (s next : Utf8State) (lo hi : ℕ) (bs : List ℕ)
    → ((b : ℕ) → validate_byte s b ≡ within lo hi b next)
    → s ≢ ok
    → validate s bs ≡ ok
    → Continues lo hi next bs
unfolding validate
continue s next lo hi [] step ne e = absurd (ne e)
continue s next lo hi (b ∷ r) step ne e =
    let (h1, h2, h3) = within_inv lo hi b next r (ap (λ t. validate t r) (sym (step b)) ∙ e) in
    (b, r, refl, h1, h2, h3)

-- One code point in front of a text.
IsUtf8-cons :
    (c : ℕ) (front rest : List ℕ)
    → IsScalar c × (encode c ≡ front)
    → IsUtf8 rest
    → IsUtf8 (front ++ rest)
unfolding encode_all
IsUtf8-cons c front rest (s, e) (cs, all, eq) = (c ∷ cs, (s, all), ap₂ ◌++◌ e eq)

module _ (n : ℕ) (rest_sound : (r : List ℕ) → length r ≤ n → validate ok r ≡ ok → IsUtf8 r) where
  text_two :
      (a : ℕ) (bs : List ℕ)
      → 0xC2 ≤ a
      → a ≤ 0xDF
      → length bs ≤ n
      → Continues 0x80 0xBF ok bs
      → IsUtf8 (a ∷ bs)
  text_two a bs h1 h2 len (b, r, eq, h3, h4, e) =
      subst (λ t. IsUtf8 (a ∷ t)) (sym eq)
        (IsUtf8-cons _ (a ∷ b ∷ []) r (encode_two a b h1 h2 h3 h4)
          (rest_sound r (omega (arith, ap length eq)) e))

  text_three :
      (a lo hi : ℕ) (s : Utf8State) (bs : List ℕ)
      → 0xE0 ≤ a
      → a ≤ 0xEF
      → 0x80 ≤ lo
      → hi ≤ 0xBF
      → (a ≡ 0xE0 → 0xA0 ≤ lo)
      → (a ≡ 0xED → hi ≤ 0x9F)
      → length bs ≤ n
      → Continues lo hi s bs
      → ((r : List ℕ) → validate s r ≡ ok → Continues 0x80 0xBF ok r)
      → IsUtf8 (a ∷ bs)
  text_three a lo hi s bs h1 h2 h3 h4 low high len (b, r, eq, h5, h6, e) last =
      let (c, r', eq', h7, h8, e') = last r e in
      subst (λ t. IsUtf8 (a ∷ t)) (sym (eq ∙ ap (◌∷◌ b) eq'))
        (IsUtf8-cons _ (a ∷ b ∷ c ∷ []) r'
          (encode_three a b c h1 h2 (omega arith) (omega arith) h7 h8 (λ p. omega (arith, low p))
            (λ p. omega (arith, high p)))
          (rest_sound r' (omega (arith, ap length eq, ap length eq')) e'))

  text_four :
      (a lo hi : ℕ) (s t : Utf8State) (bs : List ℕ)
      → 0xF0 ≤ a
      → a ≤ 0xF4
      → 0x80 ≤ lo
      → hi ≤ 0xBF
      → (a ≡ 0xF0 → 0x90 ≤ lo)
      → (a ≡ 0xF4 → hi ≤ 0x8F)
      → length bs ≤ n
      → Continues lo hi s bs
      → ((r : List ℕ) → validate s r ≡ ok → Continues 0x80 0xBF t r)
      → ((r : List ℕ) → validate t r ≡ ok → Continues 0x80 0xBF ok r)
      → IsUtf8 (a ∷ bs)
  text_four a lo hi s t bs h1 h2 h3 h4 low high len (b, r, eq, h5, h6, e) third last =
      let (c, r', eq', h7, h8, e') = third r e in
      let (d, r'', eq'', h9, h10, e'') = last r' e' in
      subst (λ u. IsUtf8 (a ∷ u)) (sym (eq ∙ ap (◌∷◌ b) (eq' ∙ ap (◌∷◌ c) eq'')))
        (IsUtf8-cons _ (a ∷ b ∷ c ∷ d ∷ []) r''
          (encode_four a b c d h1 h2 (omega arith) (omega arith) h7 h8 h9 h10
            (λ p. omega (arith, low p)) (λ p. omega (arith, high p)))
          (rest_sound r'' (omega (arith, ap length eq, ap length eq', ap length eq'')) e''))

  text_from :
      (s : Utf8State) (a : ℕ) (bs : List ℕ)
      → first_byte a ≡ s
      → length bs ≤ n
      → validate s bs ≡ ok
      → IsUtf8 (a ∷ bs)
  unfolding first_byte validate_byte
  text_from ok a bs f len e =
      IsUtf8-cons a (a ∷ []) bs (unfold encode in ground arith) (rest_sound bs len e)
  text_from two_i1 a bs f len e =
      text_two a bs (ground arith) (ground arith) len
        (continue two_i1 ok 0x80 0xBF bs (λ b. refl) (λ p. cc) e)
  text_from three_1_i1 a bs f len e =
      text_three a 0xA0 0xBF three_1_i2 bs (ground arith) (ground arith) (omega arith) (omega arith)
        (λ p. omega arith) (λ p. ground arith) len
        (continue three_1_i1 _ _ _ bs (λ b. refl) (λ p. cc) e)
        (λ r q. continue three_1_i2 _ _ _ r (λ b. refl) (λ p. cc) q)
  text_from three_2_i1 a bs f len e =
      text_three a 0x80 0xBF three_2_i2 bs (ground arith) (ground arith) (omega arith) (omega arith)
        (λ p. ground arith) (λ p. ground arith) len
        (continue three_2_i1 _ _ _ bs (λ b. refl) (λ p. cc) e)
        (λ r q. continue three_2_i2 _ _ _ r (λ b. refl) (λ p. cc) q)
  text_from three_3_i1 a bs f len e =
      text_three a 0x80 0x9F three_3_i2 bs (ground arith) (ground arith) (omega arith) (omega arith)
        (λ p. ground arith) (λ p. omega arith) len
        (continue three_3_i1 _ _ _ bs (λ b. refl) (λ p. cc) e)
        (λ r q. continue three_3_i2 _ _ _ r (λ b. refl) (λ p. cc) q)
  text_from three_4_i1 a bs f len e =
      text_three a 0x80 0xBF three_4_i2 bs (ground arith) (ground arith) (omega arith) (omega arith)
        (λ p. ground arith) (λ p. ground arith) len
        (continue three_4_i1 _ _ _ bs (λ b. refl) (λ p. cc) e)
        (λ r q. continue three_4_i2 _ _ _ r (λ b. refl) (λ p. cc) q)
  text_from four_1_i1 a bs f len e =
      text_four a 0x90 0xBF four_1_i2 four_1_i3 bs (ground arith) (ground arith) (omega arith)
        (omega arith) (λ p. omega arith) (λ p. ground arith) len
        (continue four_1_i1 _ _ _ bs (λ b. refl) (λ p. cc) e)
        (λ r q. continue four_1_i2 _ _ _ r (λ b. refl) (λ p. cc) q)
        (λ r q. continue four_1_i3 _ _ _ r (λ b. refl) (λ p. cc) q)
  text_from four_2_i1 a bs f len e =
      text_four a 0x80 0xBF four_2_i2 four_2_i3 bs (ground arith) (ground arith) (omega arith)
        (omega arith) (λ p. ground arith) (λ p. ground arith) len
        (continue four_2_i1 _ _ _ bs (λ b. refl) (λ p. cc) e)
        (λ r q. continue four_2_i2 _ _ _ r (λ b. refl) (λ p. cc) q)
        (λ r q. continue four_2_i3 _ _ _ r (λ b. refl) (λ p. cc) q)
  text_from four_3_i1 a bs f len e =
      text_four a 0x80 0x8F four_3_i2 four_3_i3 bs (ground arith) (ground arith) (omega arith)
        (omega arith) (λ p. ground arith) (λ p. omega arith) len
        (continue four_3_i1 _ _ _ bs (λ b. refl) (λ p. cc) e)
        (λ r q. continue four_3_i2 _ _ _ r (λ b. refl) (λ p. cc) q)
        (λ r q. continue four_3_i3 _ _ _ r (λ b. refl) (λ p. cc) q)
  text_from invalid a bs f len e = cc (validate-invalid bs)
  text_from _ a bs f len e = absurd (ground arith)

text_below : (n : ℕ) (bs : List ℕ) → length bs ≤ n → validate ok bs ≡ ok → IsUtf8 bs
text_below n [] h e = ([], tt, unfold encode_all in refl)
text_below zero (a ∷ bs) h e = absurd (omega arith)
text_below (suc n) (a ∷ bs) h e =
    text_from n (text_below n) (first_byte a) a bs refl (omega arith)
      (unfold validate validate_byte in e)

-- The validator ends in RS_UTF8_OK on exactly the byte strings that are UTF-8 by RFC 3629: those
-- that encode some sequence of Unicode scalar values (no surrogate, no overlong form).
pub validate_iff_IsUtf8 : (bs : List ℕ) → (validate ok bs ≡ ok) ↔ IsUtf8 bs
validate_iff_IsUtf8 bs = (
  text_below (length bs) bs (omega arith),
  λ (cs, all, e). subst (λ t. validate ok t ≡ ok) e (validate-encode_all cs all),
)

-- The validator reports RS_UTF8_INVALID as early as can be, and never too early: after the bytes
-- read so far it is in that state exactly if no bytes that may follow make the whole UTF-8.
pub validate_invalid_iff :
    (bs : List ℕ) → (validate ok bs ≡ invalid) ↔ ((more : List ℕ) → ¬ IsUtf8 (bs ++ more))
validate_invalid_iff bs = (too_late, dead)
  where
    too_late : validate ok bs ≡ invalid → (more : List ℕ) → ¬ IsUtf8 (bs ++ more)
    too_late e more u =
        let stuck : validate ok (bs ++ more) ≡ invalid =
          validate-append ok bs more ∙ ap (λ s. validate s more) e ∙ validate-invalid more in
        cc ((validate_iff_IsUtf8 (bs ++ more)).1 u, stuck)

    dead : ((more : List ℕ) → ¬ IsUtf8 (bs ++ more)) → validate ok bs ≡ invalid
    dead none_good = elim (Utf8State-discrete (validate ok bs) invalid) [
      | yes e ↦ e
      | no ne ↦
          let s = validate ok bs in
          absurd (
            none_good (completion s) (
              (validate_iff_IsUtf8 (bs ++ completion s)).0
                (validate-append ok bs (completion s) ∙ validate-completion s ne)))
    ]
