-- ===== src/Queue/Flush.antt =====
-- The inner loop of `rs_flush_ring_updates`, for one thread.
use ring_socket.Prelude.{
  ℕ, ◌≡◌, inl, inr, refl, ap, ◌∙◌, Bool, true, false, not, ◌&&◌, ◌||◌, none, some, List, [], ◌∷◌,
  arith, if◌then◌else◌, ◌==◌, Bool-cases, Option-cases, length, get_or, set, length-set,
}
use ring_socket.Queue.{no_update, target, Flushing, is_pending, flush_publish, flush_at, flush_each}
use ring_socket.Queue.Contents.{publish_lem}
use ring_socket.Queue.Hits.{
  hit, or_else, pick, elem, pick_ext, flag, is_some, same_target, hits-cleared, no_hit, or_false,
  hits-idle, flag_kept, flag_set, value_kept, value_set, hit_kept,
}

-- What the loop body does at one index: it publishes the update there unless a newer one was, and
-- clears it.
record AtStep (is_app : Bool) (i j : ℕ) (f f' : Flushing) : Type 0 where
  hits :
      (t : ℕ) (wr : Bool) (k : ℕ)
      → hit t wr (get_or f'.updates k no_update)
        ≡ (if t == i && k == j then none else hit t wr (get_or f.updates k no_update))
  size : length f'.updates ≡ length f.updates
  flags :
      (wr : Bool) → flag f' wr ≡ (flag f wr || is_some (hit i wr (get_or f.updates j no_update)))
  values :
      (wr : Bool) (t : ℕ)
      → f'.shared.value (target is_app wr) t ≡ (
          if t == i && not (flag f wr)
          then or_else
              (hit i wr (get_or f.updates j no_update))
              (f.shared.value (target is_app wr) t)
          else f.shared.value (target is_app wr) t)

module _ (wakes : ℕ → Bool) (is_app : Bool) (all_wake : (i : ℕ) → wakes i ≡ true) where
  flush_at_lem :
      (i j : ℕ) (f : Flushing)
      → (f' : Flushing) × (flush_at wakes is_app i j f ≡ some f') × AtStep is_app i j f f'
  unfolding flush_at flush_publish
  flush_at_lem i j f =
      let us = f.updates in
      let u = get_or us j no_update in
      let cleared = set us j no_update in
      elim (Bool-cases (is_pending u i)) [
        | inr idle ↦ (
          f,
          rw idle refl,
          record {
            hits = hits-idle us i j idle;
            size = refl;
            flags = λ wr. rw (no_hit u i wr idle) (or_false (flag f wr));
            values = λ wr t. rw (no_hit u i wr idle) (ground arith);
          },
        )
        | inl p ↦ elim (Bool-cases (flag f u.is_write)) [
          | inl newer ↦ (
            record f { updates = cleared },
            rw (p, newer) refl,
            record {
              hits = hits-cleared us i j p;
              size = length-set us j no_update;
              flags = λ wr. rw p (
                  flag_kept u.is_write wr f.updated_to_newer_w f.updated_to_newer_r u.ring_position
                    newer);
              values = λ wr t. rw p (
                  value_kept u.is_write wr f.updated_to_newer_w f.updated_to_newer_r (t == i)
                    u.ring_position (f.shared.value (target is_app wr) t) newer);
            },
          )
          | inr older ↦
              let same : u.thread_i ≡ i = ground arith in
              let (s', published, done) = publish_lem wakes is_app all_wake f.shared u in
              (
                record {
                  updates = cleared;
                  shared = s';
                  updated_to_newer_w = if u.is_write then true else f.updated_to_newer_w;
                  updated_to_newer_r = if u.is_write then f.updated_to_newer_r else true;
                },
                rw (p, older, published) refl,
                record {
                  hits = hits-cleared us i j p;
                  size = length-set us j no_update;
                  flags = λ wr. rw p (
                      flag_set u.is_write wr f.updated_to_newer_w f.updated_to_newer_r
                        u.ring_position older);
                  values = λ wr t.
                      done.value (target is_app wr) t
                      ∙ rw (p, same_target is_app wr u.is_write, same)
                          (value_set u.is_write wr f.updated_to_newer_w f.updated_to_newer_r
                            (t == i) u.ring_position (f.shared.value (target is_app wr) t) older);
                },
              )
        ]
      ]

  -- What the inner loop does, over any indices.
  pub record Each (i : ℕ) (js : List ℕ) (f f' : Flushing) : Type 0 where
    pub hits :
        (t : ℕ) (wr : Bool) (k : ℕ)
        → hit t wr (get_or f'.updates k no_update)
          ≡ (if t == i && elem k js then none else hit t wr (get_or f.updates k no_update))
    pub size : length f'.updates ≡ length f.updates
    pub values :
        (wr : Bool) (t : ℕ)
        → f'.shared.value (target is_app wr) t ≡ (
            if t == i && not (flag f wr)
            then pick i wr f.updates js (f.shared.value (target is_app wr) t)
            else f.shared.value (target is_app wr) t)

  -- A step, and then the others.
  values_then :
      (i j : ℕ) (js : List ℕ) (f g f' : Flushing)
      → AtStep is_app i j f g
      → Each i js g f'
      → (wr : Bool) (t : ℕ)
      → f'.shared.value (target is_app wr) t ≡ (
          if t == i && not (flag f wr)
          then pick i wr f.updates (j ∷ js) (f.shared.value (target is_app wr) t)
          else f.shared.value (target is_app wr) t)
  values_then i j js f g f' step rest wr t =
      let a = target is_app wr in
      let after : f'.shared.value a t ≡ _ = rest.values wr t in
      let now : g.shared.value a t ≡ _ = step.values wr t in
      let flag' : flag g wr ≡ _ = step.flags wr in
      elim (Bool-cases (t == i)) [
        | inr other ↦ rw other (rw other at after ∙ rw other at now)
        | inl same ↦ elim (Bool-cases (flag f wr)) [
          | inl set_already ↦
              let g_set : flag g wr ≡ true = flag' ∙ rw set_already refl in
              rw (same, set_already) ((rw (same, g_set) at after) ∙ (rw (same, set_already) at now))
          | inr unset ↦ elim (Option-cases (hit i wr (get_or f.updates j no_update))) [
            | inr (x, h) ↦
                let g_set : flag g wr ≡ true = flag' ∙ rw (unset, h) refl in
                rw (same, unset, h) ((rw (same, g_set) at after) ∙ (rw (same, unset, h) at now))
            | inl h ↦
                let g_unset : flag g wr ≡ false = flag' ∙ rw (unset, h) refl in
                let same_hits : (k : ℕ)
                    → hit i wr (get_or g.updates k no_update)
                      ≡ hit i wr (get_or f.updates k no_update) =
                  λ k.
                    step.hits i wr k
                    ∙ hit_kept (hit i wr (get_or f.updates k no_update)) (i == i) (k == j) (λ e.
                      ap (λ m. hit i wr (get_or f.updates m no_update)) (ground arith) ∙ h) in
                let now' : g.shared.value a t ≡ f.shared.value a t = rw (same, unset, h) at now in
                rw (same, unset, h)
                  ((rw (same, g_unset) at after)
                    ∙ ap (pick i wr g.updates js) now'
                    ∙ pick_ext i wr f.updates g.updates js (f.shared.value a t) same_hits)
          ]
        ]
      ]

  pub flush_each_lem :
      (i : ℕ) (js : List ℕ) (f : Flushing)
      → (f' : Flushing) × (flush_each wakes is_app i js f ≡ some f') × Each i js f f'
  unfolding flush_each
  flush_each_lem i [] f = (
    f,
    refl,
    record { hits = λ t wr k. ground arith; size = refl; values = λ wr t. ground arith },
  )
  flush_each_lem i (j ∷ js) f =
      let (g, at, step) = flush_at_lem i j f in
      let (f', each, rest) = flush_each_lem i js g in
      (
        f',
        rw (flush_each, at) each,
        record {
          hits = λ t wr k. rest.hits t wr k ∙ rw (step.hits t wr k) (ground arith);
          size = rest.size ∙ step.size;
          values = values_then i j js f g f' step rest;
        },
      )
