-- ===== src/Queue/Visited.antt =====
-- The loop over the queue of `rs_flush_ring_updates`.
use mathlib.Core.Path.{ap₂}
use native.Mathlib.Nat.{mod-eq_of_lt, add-mod_right}
use ring_socket.Prelude.{
  ℕ, zero, suc, ◌+◌, ◌-◌, ◌%◌, ◌<◌, ◌≡◌, refl, ap, ◌∙◌, true, false, List, [], ◌∷◌, ◌++◌, arith,
  if◌then◌else◌, ◌==◌,
}
use ring_socket.Queue.{visited}

-- The indices `i + k - 1` down to `i`.
abbrev pub down : ℕ → ℕ → List ℕ
down i zero = []
down i (suc k) = (i + k) ∷ down i k

-- One index down in a cyclic array.
pub previous_index : (j n : ℕ) → j < n → (j + (n - 1)) % n ≡ (if j == 0 then n - 1 else j - 1)
previous_index zero n h = mod-eq_of_lt (omega arith) ∙ omega arith
previous_index (suc j) n h =
    ap (λ k. k % n) (omega arith) ∙ add-mod_right j n ∙ mod-eq_of_lt (omega arith) ∙ ground arith

module _ (n o newest : ℕ) (inside : o < n) (at : newest ≡ (if o == 0 then n - 1 else o - 1)) where
  -- From an index at or above the oldest one, down to it.
  visited_upper :
      (k fuel : ℕ) → k < fuel → o + k < n → visited n newest fuel (o + k) ≡ down o (suc k)
  unfolding visited
  visited_upper k zero h h' = absurd (omega arith)
  visited_upper zero (suc fuel) h h' =
      let p = previous_index (o + 0) n h' in
      let stop : ((o + 0 + (n - 1)) % n == newest) ≡ true = ground arith in rw stop refl
  visited_upper (suc k) (suc fuel) h h' =
      let p = previous_index (o + suc k) n h' in
      let next : (o + suc k + (n - 1)) % n ≡ o + k = ground arith in
      let go : (o + k == newest) ≡ false = ground arith in
      rw next (rw go (ap (◌∷◌ (o + suc k)) (visited_upper k fuel (omega arith) (omega arith))))

  -- From an index below the oldest one, down to 0 and on from the end.
  visited_lower :
      (j fuel : ℕ)
      → j < o
      → j + (n - o) < fuel
      → visited n newest fuel j ≡ down 0 (suc j) ++ down o (n - o)
  unfolding visited
  visited_lower j zero h h' = absurd (omega arith)
  visited_lower zero (suc fuel) h h' =
      let p = previous_index 0 n (omega arith) in
      let next : (0 + (n - 1)) % n ≡ o + (n - o - 1) = ground arith in
      let go : (o + (n - o - 1) == newest) ≡ false = ground arith in
      let e : suc (n - o - 1) ≡ n - o = omega arith in
      rw next (
        rw go
          (ap (◌∷◌ 0) (visited_upper (n - o - 1) fuel (omega arith) (omega arith) ∙ ap (down o) e)))
  visited_lower (suc j) (suc fuel) h h' =
      let p = previous_index (suc j) n (omega arith) in
      let next : (suc j + (n - 1)) % n ≡ j = ground arith in
      let go : (j == newest) ≡ false = ground arith in
      rw next (rw go (ap₂ ◌∷◌ (omega arith) (visited_lower j fuel (omega arith) (omega arith))))

  -- The loop of `rs_flush_ring_updates` comes by each index once, from the newest update to the
  -- oldest one, and ends.
  pub visited_lem : visited n newest n newest ≡ down 0 o ++ down o (n - o)
  visited_lem = by_oldest o refl
    where
      by_oldest : (m : ℕ) → o ≡ m → visited n newest n newest ≡ down 0 o ++ down o (n - o)
      by_oldest zero e =
          let last : newest ≡ o + (n - 1) = ground arith in
          let all : suc (n - 1) ≡ n - o = omega arith in
          ap (visited n newest n) last
          ∙ visited_upper (n - 1) n (omega arith) (omega arith)
          ∙ ap (down o) all
          ∙ rw e refl
      by_oldest (suc j) e =
          let below : newest ≡ j = ground arith in
          let this : suc j ≡ o = omega arith in
          ap (visited n newest n) below
          ∙ visited_lower j n (omega arith) (omega arith)
          ∙ ap (λ k. down 0 k ++ down o (n - o)) this
