-- ===== src/Owref/Next.antt =====
-- The next reference of an app in the cyclic array.
use native.Mathlib.Nat.{mod-add-mod}
use ring_socket.Prelude.{
  ℕ, zero, suc, ◌+◌, ◌%◌, ◌≤◌, ◌<◌, ◌≡◌, ◌≢◌, ◌⊎◌, inl, inr, refl, sym, ap, ◌∙◌, true, false, some,
  arith, ◌==◌, Bool-cases, length, get_or,
}
use ring_socket.Owref.{Worker, owref_at, next_i, is_pending, address_of, next_pending}

-- The index `k` steps on.
abbrev pub step : Worker → ℕ → ℕ → ℕ
step worker i k = (i + k) % length worker.owrefs

-- The first index behind `i` that holds a pending reference of the app, or the end `newest_owref_i`.
-- None of those between is pending.
pub record Next (worker : Worker) (app_i i j position : ℕ) : Type 0 where
  pub steps : ℕ
  pub forward : 0 < steps
  pub there : j ≡ step worker i steps
  pub between :
      (k : ℕ)
      → 0 < k
      → k < steps
      → (is_pending app_i (owref_at worker (step worker i k)) ≡ false)
        × (step worker i k ≢ worker.newest_owref_i)
  pub position_of :
      ((j ≡ worker.newest_owref_i) × (position ≡ get_or worker.readers app_i 0))
      ⊎ ((is_pending app_i (owref_at worker j) ≡ true)
          × (position ≡ address_of (owref_at worker j).cmsg))

pub step_on : (worker : Worker) (i k : ℕ) → step worker (next_i worker i) k ≡ step worker i (suc k)
step_on worker i k =
    mod-add-mod (i + 1) (length worker.owrefs) k ∙ ap (λ m. m % length worker.owrefs) (omega arith)

-- Going on from the next index, which is passed by.
Next-passed :
    (worker : Worker) (app_i i j position : ℕ)
    → (next_i worker i == worker.newest_owref_i) ≡ false
    → is_pending app_i (owref_at worker (next_i worker i)) ≡ false
    → Next worker app_i (next_i worker i) j position
    → Next worker app_i i j position
Next-passed worker app_i i j position other idle n = record {
  steps = suc n.steps;
  forward = omega arith;
  there = n.there ∙ step_on worker i n.steps;
  between = between;
  position_of = n.position_of;
}
  where
    between :
        (k : ℕ)
        → 0 < k
        → k < suc n.steps
        → (is_pending app_i (owref_at worker (step worker i k)) ≡ false)
          × (step worker i k ≢ worker.newest_owref_i)
    between zero h h' = absurd (omega arith)
    between (suc zero) h h' = (idle, λ e. ground arith)
    between (suc (suc k)) h h' =
        let (calm, inside) = n.between (suc k) (omega arith) (omega arith) in
        let same = step_on worker i (suc k) in
        (ap (λ m. is_pending app_i (owref_at worker m)) (sym same) ∙ calm, λ e. inside (same ∙ e))

pub next_pending-Next :
    (worker : Worker) (app_i fuel i d : ℕ)
    → 0 < d
    → d ≤ fuel
    → step worker i d ≡ worker.newest_owref_i
    → (j : ℕ) × (position : ℕ) × (next_pending worker app_i fuel i ≡ some (j, position))
      × Next worker app_i i j position
unfolding next_pending
next_pending-Next worker app_i zero i d h h' e = absurd (omega arith)
next_pending-Next worker app_i (suc fuel) i zero h h' e = absurd (omega arith)
next_pending-Next worker app_i (suc fuel) i (suc d) h h' e =
    let next = next_i worker i in
    elim (Bool-cases (next == worker.newest_owref_i)) [
      | inl end ↦ (
        next,
        get_or worker.readers app_i 0,
        rw end refl,
        record {
          steps = 1;
          forward = omega arith;
          there = refl;
          between = λ k g g'. absurd (omega arith);
          position_of = inl (ground arith, refl);
        },
      )
      | inr other ↦ elim (Bool-cases (is_pending app_i (owref_at worker next))) [
        | inl pending ↦ (
          next,
          address_of (owref_at worker next).cmsg,
          rw (other, pending) refl,
          record {
            steps = 1;
            forward = omega arith;
            there = refl;
            between = λ k g g'. absurd (omega arith);
            position_of = inr (pending, refl);
          },
        )
        | inr idle ↦
            let more : 0 < d = go_on d other e in
            let (j, position, found, n) =
              next_pending-Next worker app_i fuel next d more (omega arith)
                (step_on worker i d ∙ e) in
            (
              j,
              position,
              rw (other, idle) found,
              Next-passed worker app_i i j position other idle n,
            )
      ]
    ]
  where
    go_on :
        (d : ℕ)
        → (next_i worker i == worker.newest_owref_i) ≡ false
        → step worker i (suc d) ≡ worker.newest_owref_i
        → 0 < d
    go_on zero other e = absurd (ground arith)
    go_on (suc d) other e = omega arith
