-- ===== src/Wire/Utf8/Encode.antt =====
-- UTF-8 by its definition (RFC 3629): the encoding of a code point, and the texts it gives.
use ring_socket.Prelude.{
  ℕ, ◌+◌, ◌-◌, ◌*◌, ◌/◌, ◌%◌, ◌≤◌, ◌<◌, ◌≡◌, ◌⊎◌, List, [], ◌∷◌, ◌++◌, if◌then◌else◌, ltb, arith,
  All,
}

-- A Unicode scalar value: a code point that is no surrogate.
abbrev pub IsScalar : ℕ → Type 0
IsScalar c = (c < 0x110000) × ((c < 0xD800) ⊎ (0xE000 ≤ c))

unfoldable pub encode : ℕ → List ℕ
encode c =
    if ltb c 0x80
    then c ∷ []
    else if ltb c 0x800
    then (0xC0 + c / 64) ∷ (0x80 + c % 64) ∷ []
    else if ltb c 0x10000
    then (0xE0 + c / 4096) ∷ (0x80 + c / 64 % 64) ∷ (0x80 + c % 64) ∷ []
    else (0xF0 + c / 262144) ∷ (0x80 + c / 4096 % 64) ∷ (0x80 + c / 64 % 64) ∷ (0x80 + c % 64) ∷ []

unfoldable pub encode_all : List ℕ → List ℕ
encode_all [] = []
encode_all (c ∷ cs) = encode c ++ encode_all cs

-- The bytes are the encoding of some scalar values.
abbrev pub IsUtf8 : List ℕ → Type 0
IsUtf8 bs = (cs : List ℕ) × All IsScalar cs × (encode_all cs ≡ bs)

-- The scalar value of a well-formed sequence of two, three or four bytes.
pub encode_two :
    (a b : ℕ)
    → 0xC2 ≤ a
    → a ≤ 0xDF
    → 0x80 ≤ b
    → b ≤ 0xBF
    → let c = (a - 0xC0) * 64 + (b - 0x80) in IsScalar c × (encode c ≡ a ∷ b ∷ [])
unfolding encode
encode_two a b h1 h2 h3 h4 = ground arith

pub encode_three :
    (a b c : ℕ)
    → 0xE0 ≤ a
    → a ≤ 0xEF
    → 0x80 ≤ b
    → b ≤ 0xBF
    → 0x80 ≤ c
    → c ≤ 0xBF
    → (a ≡ 0xE0 → 0xA0 ≤ b)
    → (a ≡ 0xED → b ≤ 0x9F)
    → let u = (a - 0xE0) * 4096 + (b - 0x80) * 64 + (c - 0x80) in
      IsScalar u × (encode u ≡ a ∷ b ∷ c ∷ [])
unfolding encode
encode_three a b c h1 h2 h3 h4 h5 h6 low high = ground arith

pub encode_four :
    (a b c d : ℕ)
    → 0xF0 ≤ a
    → a ≤ 0xF4
    → 0x80 ≤ b
    → b ≤ 0xBF
    → 0x80 ≤ c
    → c ≤ 0xBF
    → 0x80 ≤ d
    → d ≤ 0xBF
    → (a ≡ 0xF0 → 0x90 ≤ b)
    → (a ≡ 0xF4 → b ≤ 0x8F)
    → let u = (a - 0xF0) * 262144 + (b - 0x80) * 4096 + (c - 0x80) * 64 + (d - 0x80) in
      IsScalar u × (encode u ≡ a ∷ b ∷ c ∷ d ∷ [])
unfolding encode
encode_four a b c d h1 h2 h3 h4 h5 h6 h7 h8 low high = ground arith
