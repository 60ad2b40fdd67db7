-- ===== src/Queue/Stopped.antt =====
-- What `rs_flush_ring_updates` leaves behind when a thread cannot be woken up.
use ring_socket.Prelude.{
  ℕ, zero, suc, ◌+◌, ◌-◌, ◌%◌, Bool, false, none, some, List, [], ◌∷◌, length, get_or,
  if◌then◌else◌, ◌==◌,
}
use ring_socket.Queue.{
  Update, no_update, Queue, Shared, store_relaxed, target, Flushing, visited, flush_at, flush_each,
}

module _ (wakes : ℕ → Bool) (is_app : Bool) where
  -- The atomics at the update whose thread could not be woken up; the update stays in the queue.
  abbrev pub unwoken : Shared → Update → Shared
  unwoken s u = record (store_relaxed s (target is_app u.is_write) u.thread_i u.ring_position) {
    is_asleep = λ k. if k == u.thread_i then false else s.is_asleep k;
  }

  -- The inner loop for thread `i`, up to that update.
  unfoldable pub stopped_each : ℕ → List ℕ → Flushing → List Update × Shared
  unfolding flush_at
  stopped_each i [] f = (f.updates, f.shared)
  stopped_each i (j ∷ js) f = elim (flush_at wakes is_app i j f) [
    | none ↦ (f.updates, unwoken f.shared (get_or f.updates j no_update))
    | some f' ↦ stopped_each i js f'
  ]

  -- The outer loop, with `n` threads to go from `i` on.
  unfoldable pub stopped_threads : ℕ → ℕ → List ℕ → List Update → Shared → List Update × Shared
  unfolding stopped_each flush_each
  stopped_threads zero i js updates s = (updates, s)
  stopped_threads (suc n) i js updates s =
      let begun : Flushing = record {
        updates = updates;
        shared = s;
        updated_to_newer_r = false;
        updated_to_newer_w = false;
      } in
      elim (flush_each wakes is_app i js begun) [
        | none ↦ stopped_each i js begun
        | some f ↦ stopped_threads n (i + 1) js f.updates f.shared
      ]

  unfoldable pub stopped : Queue → Shared → ℕ → Queue × Shared
  unfolding stopped_threads visited
  stopped q s dest_thread_c =
      let size = length q.updates in
      let newest_i = (q.oldest_i + size - 1) % size in
      let (updates, s') =
        stopped_threads dest_thread_c 0 (visited size newest_i size newest_i) q.updates s in
      (record q { updates = updates }, s')
