-- ===== src/Owref/Search.antt =====
-- The search for the next message to a peer.
use ring_socket.Prelude.{
  ℕ, zero, suc, ◌≤◌, ◌<◌, ◌≡◌, inl, inr, refl, sym, ap, ◌∙◌, true, false, some, arith, Bool-cases,
}
use ring_socket.Owref.{Worker, owref_at, next_i, is_next, find_next_owref_for_peer}
use ring_socket.Owref.Next.{step, step_on}

-- The first reference behind `i` that is taken to be for the peer.
pub record First (worker : Worker) (target_peer_i i j : ℕ) : Type 0 where
  pub steps : ℕ
  pub forward : 0 < steps
  pub there : j ≡ step worker i steps
  pub found : is_next target_peer_i (owref_at worker j) ≡ true
  pub between :
      (k : ℕ)
      → 0 < k
      → k < steps
      → is_next target_peer_i (owref_at worker (step worker i k)) ≡ false

First-passed :
    (worker : Worker) (target i j : ℕ)
    → is_next target (owref_at worker (next_i worker i)) ≡ false
    → First worker target (next_i worker i) j
    → First worker target i j
First-passed worker target i j missed f = record {
  steps = suc f.steps;
  forward = omega arith;
  there = f.there ∙ step_on worker i f.steps;
  found = f.found;
  between = between;
}
  where
    between :
        (k : ℕ)
        → 0 < k
        → k < suc f.steps
        → is_next target (owref_at worker (step worker i k)) ≡ false
    between zero h h' = absurd (omega arith)
    between (suc zero) h h' = missed
    between (suc (suc k)) h h' =
        ap (λ m. is_next target (owref_at worker m)) (sym (step_on worker i (suc k)))
        ∙ f.between (suc k) (omega arith) (omega arith)

-- If one of the `fuel` references behind `i` is taken to be for the peer, the search ends at the first
-- of them, after at most `fuel` rounds.
pub find_next_lem :
    (worker : Worker) (target_peer_i fuel i d : ℕ)
    → 0 < d
    → d ≤ fuel
    → is_next target_peer_i (owref_at worker (step worker i d)) ≡ true
    → (j : ℕ) × (find_next_owref_for_peer worker target_peer_i fuel i ≡ some j)
      × First worker target_peer_i i j
unfolding find_next_owref_for_peer
find_next_lem worker target zero i d h h' e = absurd (omega arith)
find_next_lem worker target (suc fuel) i zero h h' e = absurd (omega arith)
find_next_lem worker target (suc fuel) i (suc d) h h' e =
    elim (Bool-cases (is_next target (owref_at worker (next_i worker i)))) [
      | inl found ↦ (
        next_i worker i,
        rw found refl,
        record {
          steps = 1;
          forward = omega arith;
          there = refl;
          found = found;
          between = λ k g g'. absurd (omega arith);
        },
      )
      | inr missed ↦
          let (j, found, f) =
            find_next_lem worker target fuel (next_i worker i) d (more d missed e) (omega arith)
              (ap (λ m. is_next target (owref_at worker m)) (step_on worker i d) ∙ e) in
          (j, rw missed found, First-passed worker target i j missed f)
    ]
  where
    more :
        (d : ℕ)
        → is_next target (owref_at worker (next_i worker i)) ≡ false
        → is_next target (owref_at worker (step worker i (suc d))) ≡ true
        → 0 < d
    more zero missed found = cc
    more (suc d) missed found = omega arith
