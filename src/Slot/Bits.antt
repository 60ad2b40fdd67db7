-- ===== src/Slot/Bits.antt =====
-- One bit of a byte set, cleared and tested, for every byte.
use Prim.Native.Nat.{bit_and, bit_or}
use ring_socket.Prelude.{
  ℕ, ◌-◌, ◌^◌, ◌<◌, ◌≡◌, refl, Bool, true, false, ◌&&◌, arith, if◌then◌else◌, ◌==◌, ltb, all_below,
  all_below_sound,
}

-- A slot's bit is clear.
abbrev pub is_clear : ℕ → ℕ → Bool
is_clear b k = bit_and b (2 ^ k) == 0

unfoldable pub same : Bool → Bool → Bool
same true b = b
same false true = false
same false false = true

pub same→eq : (a b : Bool) → same a b ≡ true → a ≡ b
unfolding same
same→eq a b h = ground arith

and_true : (a b : Bool) → (a && b) ≡ true → (a ≡ true) × (b ≡ true)
and_true a b h = ground arith

-- The facts below, at one byte and two bits.
facts : ℕ → ℕ → ℕ → Bool
unfolding same
facts b k j =
    same (is_clear (bit_or b (2 ^ k)) j) (if j == k then false else is_clear b j)
    && (same (is_clear (bit_and b (255 - 2 ^ k)) j) (if j == k then true else is_clear b j)
        && (ltb (bit_or b (2 ^ k)) 256 && ltb (bit_and b (255 - 2 ^ k)) 256))

table : all_below 256 (λ b. all_below 8 (λ k. all_below 8 (λ j. facts b k j))) ≡ true
unfolding all_below facts
table = refl

facts_hold : (b k j : ℕ) → b < 256 → k < 8 → j < 8 → facts b k j ≡ true
facts_hold b k j hb hk hj =
    all_below_sound 8 (λ j. facts b k j) j
      (all_below_sound 8 (λ k. all_below 8 (λ j. facts b k j)) k
        (all_below_sound 256 (λ b. all_below 8 (λ k. all_below 8 (λ j. facts b k j))) b table hb)
        hk)
      hj

module _ (b k j : ℕ) (hb : b < 256) (hk : k < 8) (hj : j < 8) where
  pub clear-set : is_clear (bit_or b (2 ^ k)) j ≡ (if j == k then false else is_clear b j)
  unfolding facts
  clear-set = same→eq _ _ (and_true _ _ (facts_hold b k j hb hk hj)).0

  pub clear-unset : is_clear (bit_and b (255 - 2 ^ k)) j ≡ (if j == k then true else is_clear b j)
  unfolding facts
  clear-unset = same→eq _ _ (and_true _ _ (and_true _ _ (facts_hold b k j hb hk hj)).1).0

  pub set-lt : bit_or b (2 ^ k) < 256
  unfolding facts
  set-lt = ground (arith, facts_hold b k j hb hk hj)

  pub unset-lt : bit_and b (255 - 2 ^ k) < 256
  unfolding facts
  unset-lt = ground (arith, facts_hold b k j hb hk hj)
