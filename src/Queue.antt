-- ===== src/Queue.antt =====
-- ringsocket_queue.h: a thread delays the positions that it publishes in a small cyclic queue. A
-- position is an address, and 0 is NULL.
pub mod Stopped
pub mod Contents
pub mod Visited
pub mod Hits
pub mod Flush
pub mod Flushed
use ring_socket.Prelude.{
  ℕ, zero, suc, ◌+◌, ◌-◌, ◌%◌, Bool, true, false, not, ◌&&◌, Option, none, some, List, [], ◌∷◌,
  if◌then◌else◌, ◌==◌, length, get_or, set,
}

-- `struct rs_ring_update`
pub record Update : Type 0 where
  pub ring_position : ℕ
  pub thread_i : ℕ
  pub is_write : Bool

-- `struct rs_ring_queue`; `size` is the length of `updates`.
pub record Queue : Type 0 where
  pub updates : List Update
  pub oldest_i : ℕ

-- The atomics of a `struct rs_ring_pair`.
pub data Atomic : Type 0 where
  inbound_w inbound_r outbound_w outbound_r : Atomic

-- What the threads share: the atomics of each pair, which of the other threads are asleep, and the
-- threads for which a system call was made to wake them up, the last one first.
pub record Shared : Type 0 where
  pub value : Atomic → ℕ → ℕ
  pub is_asleep : ℕ → Bool
  pub woken : List ℕ

abbrev pub same_atomic : Atomic → Atomic → Bool
same_atomic inbound_w inbound_w = true
same_atomic inbound_r inbound_r = true
same_atomic outbound_w outbound_w = true
same_atomic outbound_r outbound_r = true
same_atomic a b = false

-- RS_ATOMIC_STORE_RELAXED
abbrev pub store_relaxed : Shared → Atomic → ℕ → ℕ → Shared
store_relaxed s a thread_i v = record s {
  value = λ b i. if same_atomic b a && i == thread_i then v else s.value b i;
}

abbrev pub no_update : Update
no_update = record { ring_position = 0; thread_i = 0; is_write = false }

-- The state of the inner loop of `rs_flush_ring_updates`.
pub record Flushing : Type 0 where
  pub updates : List Update
  pub shared : Shared
  pub updated_to_newer_r : Bool
  pub updated_to_newer_w : Bool

abbrev pub is_pending : Update → ℕ → Bool
is_pending u i = not (u.ring_position == 0) && u.thread_i == i

-- The indices that the inner loop comes by, from `j` on: it ends when it is back at `newest_i`.
-- The loop body leaves the index alone.
unfoldable pub visited : ℕ → ℕ → ℕ → ℕ → List ℕ
visited size newest_i zero j = []
visited size newest_i (suc fuel) j =
    let next = (j + (size - 1)) % size in
    let rest = visited size newest_i fuel next in j ∷ (if next == newest_i then [] else rest)

-- The atomic that an update is for; `is_app` tells whether an app thread calls (`eventfds` is not
-- NULL).
abbrev pub target : Bool → Bool → Atomic
target true true = outbound_w
target true false = inbound_r
target false true = inbound_w
target false false = outbound_r

-- `wakes` tells whether the system call that wakes up a thread succeeds; where it fails, RS_FATAL
-- is returned, `none`.
module _ (wakes : ℕ → Bool) (is_app : Bool) where
  -- `rs_wake_up_app` and `rs_wake_up_worker`
  unfoldable pub wake_up : Shared → ℕ → Option Shared
  wake_up s i =
      if s.is_asleep i
      then if wakes i
        then some (record s {
          is_asleep = λ j. if j == i then false else s.is_asleep j;
          woken = i ∷ s.woken;
        })
        else none
      else some s

  unfoldable pub publish : Shared → Update → Option Shared
  unfolding wake_up
  publish s u =
      let s' = store_relaxed s (target is_app u.is_write) u.thread_i u.ring_position in
      if u.is_write then wake_up s' u.thread_i else some s'

  -- Where RS_FATAL is returned, the new update is not stored.
  unfoldable pub enqueue_ring_update : Queue → Shared → Update → Option (Queue × Shared)
  unfolding publish
  enqueue_ring_update q s new =
      let update = get_or q.updates q.oldest_i no_update in
      let q' : Queue = record {
        updates = set q.updates q.oldest_i new;
        oldest_i = (q.oldest_i + 1) % length q.updates;
      } in
      if update.ring_position == 0
      then some (q', s)
      else elim (publish s update) [ none ↦ none | some s' ↦ some (q', s') ]

  -- The update is published unless a newer one was.
  unfoldable pub flush_publish : Flushing → Update → Option Flushing
  unfolding publish
  flush_publish f u =
      if (if u.is_write then f.updated_to_newer_w else f.updated_to_newer_r)
      then some f
      else elim (publish f.shared u) [
        | none ↦ none
        | some s' ↦ some (record f {
          shared = s';
          updated_to_newer_w = if u.is_write then true else f.updated_to_newer_w;
          updated_to_newer_r = if u.is_write then f.updated_to_newer_r else true;
        })
      ]

  -- The body of the inner loop, at index `j` for thread `i`.
  unfoldable pub flush_at : ℕ → ℕ → Flushing → Option Flushing
  unfolding flush_publish
  flush_at i j f =
      let u = get_or f.updates j no_update in
      if is_pending u i
      then elim (flush_publish f u) [
        | none ↦ none
        | some f' ↦ some (record f' { updates = set f'.updates j no_update })
      ]
      else some f

  unfoldable pub flush_each : ℕ → List ℕ → Flushing → Option Flushing
  unfolding flush_at
  flush_each i [] f = some f
  flush_each i (j ∷ js) f = elim (flush_at i j f) [ none ↦ none | some f' ↦ flush_each i js f' ]

  -- The outer loop, with `n` threads to go from `i` on.
  unfoldable pub flush_threads :
      ℕ → ℕ → List ℕ → List Update → Shared → Option (List Update × Shared)
  unfolding flush_each
  flush_threads zero i js updates s = some (updates, s)
  flush_threads (suc n) i js updates s =
      elim (flush_each i js (record {
        updates = updates;
        shared = s;
        updated_to_newer_r = false;
        updated_to_newer_w = false;
      })) [ none ↦ none | some f ↦ flush_threads n (i + 1) js f.updates f.shared ]

  unfoldable pub flush_ring_updates : Queue → Shared → ℕ → Option (Queue × Shared)
  unfolding flush_threads visited
  flush_ring_updates q s dest_thread_c =
      let size = length q.updates in
      let newest_i = (q.oldest_i + size - 1) % size in
      elim (flush_threads dest_thread_c 0 (visited size newest_i size newest_i) q.updates s) [
        | none ↦ none
        | some (updates, s') ↦ some (record q { updates = updates }, s')
      ]
