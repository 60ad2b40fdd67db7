-- ===== src/Queue/Contents.antt =====
-- The contents of the queue of updates, in order.
use mathlib.Core.Path.{ap₂}
use native.Mathlib.Nat.{mod-eq_of_lt, mod_self}
use ring_socket.Prelude.{
  ℕ, suc, ◌+◌, ◌%◌, ◌<◌, ◌≡◌, ◌≢◌, inl, inr, refl, sym, ap, ◌∙◌, Bool, true, false, ◌&&◌, some,
  List, [], ◌∷◌, ◌++◌, append-nil, append_assoc, arith, if◌then◌else◌, ◌==◌, Bool-cases, length,
  get_or, set, take, drop, length-set, set_end, cut_at, length-take, length-drop, take-append,
  drop-append, length-append,
}
use ring_socket.Queue.{
  Update, Queue, Shared, Atomic, same_atomic, store_relaxed, no_update, wake_up, target, publish,
  enqueue_ring_update,
}

-- The updates, the oldest first. Elements that were never used hold no position.
unfoldable pub contents : Queue → List Update
contents q = drop q.oldest_i q.updates ++ take q.oldest_i q.updates

abbrev pub IsValid : Queue → Type 0
IsValid q = q.oldest_i < length q.updates

-- The next index of a cyclic array.
pub next_index : (i n : ℕ) → i < n → (i + 1) % n ≡ (if i + 1 == n then 0 else i + 1)
next_index i n h = elim (Bool-cases (i + 1 == n)) [
  | inl e ↦ rw e (ap (λ k. k % n) (ground arith) ∙ mod_self n)
  | inr e ↦ rw e (mod-eq_of_lt (ground arith))
]

-- What is left when the oldest update is gone.
abbrev rest_of : Queue → List Update
rest_of q = drop (suc q.oldest_i) q.updates ++ take q.oldest_i q.updates

contents_oldest :
    (q : Queue) → IsValid q → contents q ≡ get_or q.updates q.oldest_i no_update ∷ rest_of q
unfolding contents
contents_oldest q v =
    let front = take q.oldest_i q.updates in
    let u = get_or q.updates q.oldest_i no_update in
    ap (λ t. t ++ front)
      (ap (drop q.oldest_i) (cut_at no_update q.updates q.oldest_i v)
        ∙ drop-append front (u ∷ drop (suc q.oldest_i) q.updates) q.oldest_i
            (omega (arith, length-take q.oldest_i q.updates)))

empty_list : (xs : List Update) → length xs ≡ 0 → xs ≡ []
empty_list [] h = refl
empty_list (x ∷ xs) h = absurd (omega arith)

-- The queue with the update in the oldest one's place.
abbrev replaced : Queue → Update → Queue
replaced q new = record {
  updates = set q.updates q.oldest_i new;
  oldest_i = (q.oldest_i + 1) % length q.updates;
}

contents-replaced :
    (q : Queue) (new : Update) → IsValid q → contents (replaced q new) ≡ rest_of q ++ new ∷ []
unfolding contents
contents-replaced q new v =
    let i = q.oldest_i in
    let n = length q.updates in
    let front = take i q.updates in
    let back = drop (suc i) q.updates in
    let front_length : i ≡ length front = omega (arith, length-take i q.updates) in
    let e : set q.updates i new ≡ front ++ new ∷ back =
      ap (λ t. set t i new) (cut_at no_update q.updates i v)
      ∙ set_end front (get_or q.updates i no_update) new back i front_length in
    elim (Bool-cases (i + 1 == n)) [
      | inl last ↦
          let at_end : i + 1 ≡ n = ground arith in
          let none_back : back ≡ [] =
            empty_list back (omega (arith, length-drop (suc i) q.updates)) in
          let z : (i + 1) % n ≡ 0 = next_index i n v ∙ rw last refl in
          ap (λ k. drop k (set q.updates i new) ++ take k (set q.updates i new)) z
          ∙ append-nil (set q.updates i new)
          ∙ e
          ∙ ap (λ b. front ++ new ∷ b) none_back
          ∙ sym (ap (λ b. (b ++ front) ++ new ∷ []) none_back)
      | inr inside ↦
          let z : (i + 1) % n ≡ suc i = next_index i n v ∙ rw inside (omega arith) in
          let e' : set q.updates i new ≡ (front ++ new ∷ []) ++ back =
            e ∙ sym (append_assoc front (new ∷ []) back) in
          let l : suc i ≡ length (front ++ new ∷ []) =
            omega (arith, front_length, length-append front (new ∷ [])) in
          ap (λ k. drop k (set q.updates i new) ++ take k (set q.updates i new)) z
          ∙ ap (λ t. drop (suc i) t ++ take (suc i) t) e'
          ∙ ap₂ ◌++◌ (drop-append (front ++ new ∷ []) back (suc i) l)
              (take-append (front ++ new ∷ []) back (suc i) l)
          ∙ sym (append_assoc back front (new ∷ []))
    ]

-- What a published update leaves: the atomic that it is for holds its position, and the thread that
-- reads it is awake if the position is one up to which was written.
pub record Published (is_app : Bool) (s : Shared) (u : Update) (s' : Shared) : Type 0 where
  pub value :
      (a : Atomic) (i : ℕ)
      → s'.value a i ≡ (
          if same_atomic a (target is_app u.is_write) && i == u.thread_i
          then u.ring_position
          else s.value a i)
  pub awake : u.is_write ≡ true → s'.is_asleep u.thread_i ≡ false
  pub others_sleep : (i : ℕ) → i ≢ u.thread_i → s'.is_asleep i ≡ s.is_asleep i

module _ (wakes : ℕ → Bool) (is_app : Bool) (all_wake : (i : ℕ) → wakes i ≡ true) where
  pub publish_lem :
      (s : Shared) (u : Update)
      → (s' : Shared) × (publish wakes is_app s u ≡ some s') × Published is_app s u s'
  unfolding publish wake_up
  publish_lem s u = elim (Bool-cases u.is_write) [
    | inr read ↦ (
      store_relaxed s (target is_app u.is_write) u.thread_i u.ring_position,
      rw read refl,
      record { value = λ a i. refl; awake = λ h. cc; others_sleep = λ i h. refl },
    )
    | inl write ↦
        let stored = store_relaxed s (target is_app u.is_write) u.thread_i u.ring_position in
        elim (Bool-cases (s.is_asleep u.thread_i)) [
          | inl asleep ↦ (
            record stored {
              is_asleep = λ j. if j == u.thread_i then false else s.is_asleep j;
              woken = u.thread_i ∷ s.woken;
            },
            rw (write, asleep, all_wake u.thread_i) refl,
            record {
              value = λ a i. refl;
              awake = λ h. ground arith;
              others_sleep = λ i h. ground arith;
            },
          )
          | inr awake ↦ (
            stored,
            rw (write, awake) refl,
            record { value = λ a i. refl; awake = λ h. awake; others_sleep = λ i h. refl },
          )
        ]
  ]

  -- The update comes behind the others, and the oldest one leaves the queue and is published, if
  -- it holds a position.
  abbrev pub Enqueues : Queue → Shared → Update → Type 0
  Enqueues q s new =
      (oldest : Update) × (rest : List Update) × (q' : Queue) × (s' : Shared) × (contents q
        ≡ oldest ∷ rest)
      × (enqueue_ring_update wakes is_app q s new ≡ some (q', s'))
      × (contents q' ≡ rest ++ new ∷ [])
      × IsValid q'
      × (oldest.ring_position ≡ 0 → s' ≡ s)
      × (oldest.ring_position ≢ 0 → Published is_app s oldest s')

  -- While every system call succeeds, the queue is first in, first out: on a queue whose oldest
  -- index is inside of it, an update that is enqueued comes behind the others, and the oldest one
  -- leaves the queue and is published, if it holds a position: its atomic holds the position, no
  -- other atomic changes, and the thread is awake if the position is one up to which was written.
  pub enqueue_lem : (q : Queue) (s : Shared) (new : Update) → IsValid q → Enqueues q s new
  unfolding enqueue_ring_update
  enqueue_lem q s new v =
      let u = get_or q.updates q.oldest_i no_update in
      let valid : IsValid (replaced q new) =
        ground (
          arith,
          next_index q.oldest_i (length q.updates) v,
          length-set q.updates q.oldest_i new,
        ) in
      elim (Bool-cases (u.ring_position == 0)) [
        | inl null ↦ (
          u,
          rest_of q,
          replaced q new,
          s,
          contents_oldest q v,
          rw null refl,
          contents-replaced q new v,
          valid,
          (λ h. refl),
          λ h. absurd (h (ground arith)),
        )
        | inr held ↦
            let (s', published, p) = publish_lem s u in
            (
              u,
              rest_of q,
              replaced q new,
              s',
              contents_oldest q v,
              rw (held, published) refl,
              contents-replaced q new v,
              valid,
              (λ h. absurd (ground arith)),
              λ h. p,
            )
      ]
