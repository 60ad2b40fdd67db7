-- ===== src/Queue/Flushed.antt =====
-- Flushing the queue, compared with publishing all updates in turn.
use ring_socket.Prelude.{
  ℕ, zero, suc, ◌+◌, ◌-◌, ◌%◌, ◌≤◌, ◌<◌, ◌≡◌, inl, inr, refl, sym, ap, ◌∙◌, Bool, true, false, ◌&&◌,
  ◌||◌, Option, none, some, List, [], ◌∷◌, ◌++◌, arith, if◌then◌else◌, ◌==◌, ltb, leb, Bool-cases,
  take_all, drop-add, take-add, cut_at, drop-append, length-take, length-drop, length, get_or, take,
  drop,
}
use ring_socket.Queue.{
  Update, Queue, Shared, no_update, target, Flushing, is_pending, visited, flush_threads,
  flush_ring_updates,
}
use ring_socket.Queue.Contents.{contents, IsValid}
use ring_socket.Queue.Visited.{down, previous_index, visited_lem}
use ring_socket.Queue.Hits.{hit, or_else, pick, elem, pick_ext, flag}
use ring_socket.Queue.Flush.{Each, flush_each_lem}

-- The value that an atomic has when the updates that are for the reads or the writes of thread `i`
-- are published in turn.
abbrev pub replay : ℕ → Bool → List Update → ℕ → ℕ
replay i wr [] v = v
replay i wr (u ∷ us) v = replay i wr us (or_else (hit i wr u) v)

replay-append :
    (i : ℕ) (wr : Bool) (us us' : List Update) (v : ℕ)
    → replay i wr (us ++ us') v ≡ replay i wr us' (replay i wr us v)
replay-append i wr [] us' v = refl
replay-append i wr (u ∷ us) us' v = replay-append i wr us us' (or_else (hit i wr u) v)

pick-append :
    (i : ℕ) (wr : Bool) (us : List Update) (js js' : List ℕ) (v : ℕ)
    → pick i wr us (js ++ js') v ≡ pick i wr us js (pick i wr us js' v)
pick-append i wr us [] js' v = refl
pick-append i wr us (j ∷ js) js' v =
    ap (or_else (hit i wr (get_or us j no_update))) (pick-append i wr us js js' v)

pick-down :
    (i : ℕ) (wr : Bool) (us : List Update) (o k v : ℕ)
    → o + k ≤ length us
    → pick i wr us (down o k) v ≡ replay i wr (take k (drop o us)) v
pick-down i wr us o zero v h = refl
pick-down i wr us o (suc k) v h =
    let u = get_or us (o + k) no_update in
    let more : suc k ≡ k + 1 = omega arith in
    let front = take (o + k) us in
    let fits : o + k ≡ length front = omega (arith, length-take (o + k) us) in
    let there : drop (o + k) us ≡ u ∷ drop (suc (o + k)) us =
      ap (drop (o + k)) (cut_at no_update us (o + k) (omega arith))
      ∙ drop-append front (u ∷ drop (suc (o + k)) us) (o + k) fits in
    let last : take (suc k) (drop o us) ≡ take k (drop o us) ++ u ∷ [] =
      ap (λ m. take m (drop o us)) more
      ∙ take-add (drop o us) k 1
      ∙ ap (λ t. take k (drop o us) ++ take 1 t) (sym (drop-add us o k) ∙ there) in
    ap (or_else (hit i wr u)) (pick-down i wr us o k v (omega arith))
    ∙ sym (ap (λ t. replay i wr t v) last ∙ replay-append i wr (take k (drop o us)) (u ∷ []) v)

elem-append : (k : ℕ) (xs ys : List ℕ) → elem k (xs ++ ys) ≡ (elem k xs || elem k ys)
elem-append k [] ys = refl
elem-append k (x ∷ xs) ys = rw (elem-append k xs ys) (ground arith)

elem-down : (k o n : ℕ) → o ≤ k → k < o + n → elem k (down o n) ≡ true
elem-down k o zero h h' = absurd (omega arith)
elem-down k o (suc n) h h' = elim (Bool-cases (k == o + n)) [
  | inl e ↦ rw e refl
  | inr e ↦ rw (elem-down k o n h (ground arith)) (ground arith)
]

-- Going by the indices as the loop does, from the newest update to the oldest one, gives what
-- publishing the updates in turn would.
pick-contents :
    (q : Queue)
    → IsValid q
    → (i : ℕ) (wr : Bool) (v : ℕ)
    → pick i wr q.updates (down 0 q.oldest_i ++ down q.oldest_i (length q.updates - q.oldest_i)) v
      ≡ replay i wr (contents q) v
unfolding contents
pick-contents q valid i wr v =
    let us = q.updates in
    let o = q.oldest_i in
    let all : take (length us - o) (drop o us) ≡ drop o us =
      take_all (drop o us) (length us - o) (omega (arith, length-drop o us)) in
    pick-append i wr us (down 0 o) (down o (length us - o)) v
    ∙ pick-down i wr us 0 o (pick i wr us (down o (length us - o)) v) (omega arith)
    ∙ ap (replay i wr (take o us))
        (pick-down i wr us o (length us - o) v (omega arith) ∙ ap (λ t. replay i wr t v) all)
    ∙ sym (replay-append i wr (drop o us) (take o us) v)

all_visited : (o n k : ℕ) → o < n → k < n → elem k (down 0 o ++ down o (n - o)) ≡ true
all_visited o n k h h' = elim (Bool-cases (ltb k o)) [
  | inl e ↦
      elem-append k (down 0 o) (down o (n - o))
      ∙ rw (elem-down k 0 o (omega arith) (ground arith)) refl
  | inr e ↦
      elem-append k (down 0 o) (down o (n - o))
      ∙ rw (elem-down k o (n - o) (ground arith) (ground arith)) (ground arith)
]

none_pending : (u : Update) (t : ℕ) → ((wr : Bool) → hit t wr u ≡ none) → is_pending u t ≡ false
none_pending u t h = elim (Bool-cases (is_pending u t)) [
  | inr e ↦ e
  | inl e ↦ elim (Bool-cases u.is_write) [
    | inl w ↦ let this = rw (e, w) at (h true) in cc
    | inr r ↦ let this = rw (e, r) at (h false) in cc
  ]
]

-- Whether thread `t` is one of the `n` threads from `i` on.
abbrev among : ℕ → ℕ → ℕ → Bool
among i n t = leb i t && ltb t (i + n)

out_of_none : (i t : ℕ) → among i 0 t ≡ false
out_of_none i t = ground arith

among_hits :
    (i n t : ℕ) (e : Bool) (o : Option ℕ)
    → (if among (i + 1) n t && e then none else (if t == i && e then none else o))
      ≡ (if among i (suc n) t && e then none else o)
among_hits i n t true o = ground arith
among_hits i n t false o = ground arith

no_flag : (wr : Bool) → (if wr then false else false) ≡ false
no_flag true = refl
no_flag false = refl

module _ (wakes : ℕ → Bool) (is_app : Bool) (all_wake : (i : ℕ) → wakes i ≡ true) where
  -- What the outer loop does, for the threads from `i` to `i + n - 1`.
  record Threads (n i : ℕ) (js : List ℕ) (us us' : List Update) (s s' : Shared) : Type 0 where
    hits :
        (t : ℕ) (wr : Bool) (k : ℕ)
        → hit t wr (get_or us' k no_update)
          ≡ (if (among i n t) && elem k js then none else hit t wr (get_or us k no_update))
    size : length us' ≡ length us
    values :
        (wr : Bool) (t : ℕ)
        → s'.value (target is_app wr) t ≡ (
            if among i n t
            then pick t wr us js (s.value (target is_app wr) t)
            else s.value (target is_app wr) t)

  values_then :
      (n i : ℕ) (js : List ℕ) (f g : Flushing) (us' : List Update) (s' : Shared)
      → ((wr : Bool) → flag f wr ≡ false)
      → Each wakes is_app all_wake i js f g
      → Threads n (i + 1) js g.updates us' g.shared s'
      → (wr : Bool) (t : ℕ)
      → s'.value (target is_app wr) t ≡ (
          if among i (suc n) t
          then pick t wr f.updates js (f.shared.value (target is_app wr) t)
          else f.shared.value (target is_app wr) t)
  values_then n i js f g us' s' unset step rest wr t =
      let a = target is_app wr in
      let after : s'.value a t ≡ _ = rest.values wr t in
      let now : g.shared.value a t ≡ _ = step.values wr t in
      elim (Bool-cases (t == i)) [
        | inl this ↦
            let later : among (i + 1) n t ≡ false = ground arith in
            let in_all : among i (suc n) t ≡ true = ground arith in
            let same : t ≡ i = ground arith in
            rw in_all (
              (rw later at after)
              ∙ (rw (this, unset wr) at now)
              ∙ ap (λ m. pick m wr f.updates js (f.shared.value a t)) (sym same))
        | inr other ↦
            let same : among (i + 1) n t ≡ among i (suc n) t = ground arith in
            let now' : g.shared.value a t ≡ f.shared.value a t = rw other at now in
            after
            ∙ rw (same, now')
                (ap (λ x. if among i (suc n) t then x else f.shared.value a t)
                  (pick_ext t wr f.updates g.updates js (f.shared.value a t)
                    (λ k. step.hits t wr k ∙ rw other refl)))
      ]

  flush_threads_lem :
      (n i : ℕ) (js : List ℕ) (us : List Update) (s : Shared)
      → (us' : List Update) × (s' : Shared) × (flush_threads wakes is_app n i js us s
          ≡ some (us', s'))
        × Threads n i js us us' s s'
  unfolding flush_threads
  flush_threads_lem zero i js us s = (
    us,
    s,
    refl,
    record {
      hits = λ t wr k. rw (out_of_none i t) refl;
      size = refl;
      values = λ wr t. rw (out_of_none i t) refl;
    },
  )
  flush_threads_lem (suc n) i js us s =
      let f : Flushing = record {
        updates = us;
        shared = s;
        updated_to_newer_r = false;
        updated_to_newer_w = false;
      } in
      let (g, at, step) = flush_each_lem wakes is_app all_wake i js f in
      let (us', s', others, rest) = flush_threads_lem n (i + 1) js g.updates g.shared in
      (
        us',
        s',
        rw (flush_threads, at) others,
        record {
          hits = λ t wr k.
              rest.hits t wr k
              ∙ rw (step.hits t wr k)
                  (among_hits i n t (elem k js) (hit t wr (get_or us k no_update)));
          size = rest.size ∙ step.size;
          values = λ wr t. values_then n i js f g us' s' no_flag step rest wr t;
        },
      )

  -- The atomics that the queue is for hold what publishing the updates in turn would leave there,
  -- and no update for the threads is left.
  abbrev pub Flushes : Queue → Shared → ℕ → Type 0
  Flushes q s dest_thread_c =
      (q' : Queue) × (s' : Shared) × (flush_ring_updates wakes is_app q s dest_thread_c
        ≡ some (q', s'))
      × IsValid q'
      × ((wr : Bool) (t : ℕ)
          → s'.value (target is_app wr) t ≡ (
              if ltb t dest_thread_c
              then replay t wr (contents q) (s.value (target is_app wr) t)
              else s.value (target is_app wr) t))
      × ((t k : ℕ)
          → t < dest_thread_c
          → k < length q.updates
          → is_pending (get_or q'.updates k no_update) t ≡ false)

  -- While every system call succeeds, flushing a queue whose oldest index is inside of it, for the
  -- threads below `dest_thread_c`, ends; the two atomics per thread that the queue has updates for
  -- then hold what publishing all of the updates, in the order in which they were enqueued, would
  -- leave there, and those of the other threads stay; and no update for a thread below
  -- `dest_thread_c` is left in the queue.
  pub flush_lem :
      (q : Queue) (s : Shared) (dest_thread_c : ℕ) → IsValid q → Flushes q s dest_thread_c
  unfolding flush_ring_updates
  flush_lem q s c valid =
      let n = length q.updates in
      let o = q.oldest_i in
      let order = down 0 o ++ down o (n - o) in
      let newest = (o + n - 1) % n in
      let at : newest ≡ (if o == 0 then n - 1 else o - 1) =
        ap (λ m. m % n) (omega arith) ∙ previous_index o n valid in
      let visits : visited n newest n newest ≡ order = visited_lem n o newest valid at in
      let (us', s', e, done) = flush_threads_lem c 0 order q.updates s in
      (
        record q { updates = us' },
        s',
        rw (flush_ring_updates, visits, e) refl,
        omega (arith, done.size),
        (λ wr t.
            done.values wr t
            ∙ rw (pick-contents q valid t wr (s.value (target is_app wr) t)) (ground arith)),
        λ t k h h'.
            none_pending (get_or us' k no_update) t
              (λ wr. done.hits t wr k ∙ rw (all_visited o n k valid h') (ground arith)),
      )
