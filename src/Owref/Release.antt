-- ===== src/Owref/Release.antt =====
-- How far the ring of an app is released.
use mathlib.Core.Path.{subst}
use native.Mathlib.Nat.{mod-eq_of_lt, add-mod_right}
use ring_socket.Prelude.{
  ℕ, ◌+◌, ◌-◌, ◌%◌, ◌^◌, ◌≤◌, ◌<◌, ◌≡◌, ◌≢◌, ◌⊎◌, inl, inr, refl, sym, ap, ◌∙◌, Bool, true, false,
  not, ◌&&◌, Option, none, some, List, arith, ◌==◌, ltb, Bool-cases, length, get_or, set,
  length-set, get_or-set_self, get_or-set_ne,
}
use ring_socket.Owref.{Owref, Worker, no_owref, owref_at, is_pending, decrement_pending_owref_count}
use ring_socket.Owref.Next.{Next, next_pending-Next}

abbrev pub oldest : Worker → ℕ → ℕ
oldest worker app_i = get_or worker.oldest_owref_i_by_app app_i 0

-- The oldest index of an app is the end, or one of a message that is still referred to.
abbrev pub Tracked : Worker → ℕ → Type 0
Tracked worker app_i =
    (oldest worker app_i ≡ worker.newest_owref_i)
    ⊎ (is_pending app_i (owref_at worker (oldest worker app_i)) ≡ true)

-- The reference `i` has its last recipient taken off, and is the oldest one of its app.
abbrev pub IsLastOfOldest : Worker → ℕ → Type 0
IsLastOfOldest worker i =
    ((owref_at worker i).remaining_recipient_c ≡ 1) × (oldest worker (owref_at worker i).app_i ≡ i)

-- The result of taking one recipient off the reference `i`: the other references are as they were, and
-- the oldest index of each app stays as it should be. If the recipient was the last one and the
-- reference the oldest one of its app, the ring of that app is released, up to the message of the
-- first reference of the app behind `i`, or all that was read if there is none, and the oldest indices
-- of the other apps are as they were; if not, nothing is released and all of them are.
pub record Decrements (worker : Worker) (i : ℕ) (worker' : Worker) (released : Option (ℕ × ℕ))
    : Type 0 where
  pub fewer :
      (owref_at worker' i).remaining_recipient_c ≡ (owref_at worker i).remaining_recipient_c - 1
  pub others : (j : ℕ) → j ≢ i → owref_at worker' j ≡ owref_at worker j
  pub tracked : (b : ℕ) → Tracked worker b → Tracked worker' b
  pub release :
      ((¬ IsLastOfOldest worker i)
        × (released ≡ none)
        × ((b : ℕ) → oldest worker' b ≡ oldest worker b))
      ⊎ (IsLastOfOldest worker i
          × ((b : ℕ) → b ≢ (owref_at worker i).app_i → oldest worker' b ≡ oldest worker b)
          × ((position : ℕ) × (released ≡ some (position, (owref_at worker i).app_i))
              × Next worker'
                  (owref_at worker i).app_i
                  i
                  (oldest worker' (owref_at worker i).app_i)
                  position))

-- The reference at `i` is replaced, by one that is as pending for `b` as it was, unless `b` is not
-- tracked there.
replaced-Tracked :
    (worker : Worker) (i : ℕ) (owref : Owref) (b : ℕ)
    → i < length worker.owrefs
    → (oldest worker b ≡ i → is_pending b (owref_at worker i) ≡ true → is_pending b owref ≡ true)
    → Tracked worker b
    → Tracked (record worker { owrefs = set worker.owrefs i owref }) b
replaced-Tracked worker i owref b h keep (inl end) = inl end
replaced-Tracked worker i owref b h keep (inr pending) =
    inr (elim (Bool-cases (oldest worker b == i)) [
      | inl same ↦
          let at : oldest worker b ≡ i = ground arith in
          ap (λ m. is_pending b (get_or (set worker.owrefs i owref) m no_owref)) at
          ∙ ap (is_pending b) (get_or-set_self no_owref worker.owrefs i owref h)
          ∙ keep at (ap (λ m. is_pending b (owref_at worker m)) (sym at) ∙ pending)
      | inr other ↦
          ap (is_pending b)
            (get_or-set_ne no_owref worker.owrefs i (oldest worker b) owref (λ e. ground arith))
          ∙ pending
    ])

-- The number of steps to the end.
distance :
    (i newest n : ℕ) → i < n → newest < n → (d : ℕ) × (0 < d) × (d ≤ n) × ((i + d) % n ≡ newest)
distance i newest n h h' = elim (Bool-cases (ltb i newest)) [
  | inl below ↦
      (newest - i, ground arith, omega arith, ap (λ m. m % n) (ground arith) ∙ mod-eq_of_lt h')
  | inr above ↦ (
    newest + n - i,
    omega arith,
    ground arith,
    ap (λ m. m % n) (omega arith) ∙ add-mod_right newest n ∙ mod-eq_of_lt h',
  )
]

and_right : (x y : Bool) → (x && y) ≡ true → y ≡ true
and_right true y h = h
and_right false y h = absurd cc

app_of-pending : (b : ℕ) (owref : Owref) → is_pending b owref ≡ true → owref.app_i ≡ b
app_of-pending b owref p =
    let same = and_right (not (owref.remaining_recipient_c == 0)) (owref.app_i == b) p in
    ground arith

-- What being tracked says of an index.
abbrev TrackedAt : Worker → ℕ → ℕ → Type 0
TrackedAt worker b o = (o ≡ worker.newest_owref_i) ⊎ (is_pending b (owref_at worker o) ≡ true)

Tracked-moved :
    (worker : Worker) (olds : List ℕ) (b o : ℕ)
    → get_or olds b 0 ≡ o
    → TrackedAt worker b o
    → Tracked (record worker { oldest_owref_i_by_app = olds }) b
Tracked-moved worker olds b o e t = subst (TrackedAt worker b) (sym e) t

Next-TrackedAt :
    (worker : Worker) (app_i i j position : ℕ)
    → Next worker app_i i j position
    → TrackedAt worker app_i j
Next-TrackedAt worker app_i i j position n = elim n.position_of [
  | inl (e, p) ↦ inl e
  | inr (e, p) ↦ inr e
]

-- The search does not depend on the oldest indices.
Next-kept :
    (worker : Worker) (olds : List ℕ) (app_i i j position : ℕ)
    → Next worker app_i i j position
    → Next (record worker { oldest_owref_i_by_app = olds }) app_i i j position
Next-kept worker olds app_i i j position n = record {
  steps = n.steps;
  forward = n.forward;
  there = n.there;
  between = n.between;
  position_of = n.position_of;
}

module _ (worker : Worker) (i : ℕ) (h : i < length worker.owrefs) where
  owref : Owref
  owref = owref_at worker i

  cleared : Worker
  cleared = record worker { owrefs = set worker.owrefs i no_owref }

  -- An app that is tracked at `i` is the reference's.
  cleared-Tracked :
      (b : ℕ) → (oldest worker b ≡ i → owref.app_i ≢ b) → Tracked worker b → Tracked cleared b
  unfolding cleared owref
  cleared-Tracked b other t =
      replaced-Tracked worker i no_owref b h
        (λ e p. absurd (other e (app_of-pending b (owref_at worker i) p))) t

  count_gone :
      owref.remaining_recipient_c ≡ 1
      → (owref_at cleared i).remaining_recipient_c ≡ owref.remaining_recipient_c - 1
  unfolding cleared
  count_gone e =
      ap (λ o. o.remaining_recipient_c) (get_or-set_self no_owref worker.owrefs i no_owref h)
      ∙ omega arith

  -- The oldest reference of the app is gone.
  released_lem :
      owref.app_i < length worker.oldest_owref_i_by_app
      → owref.remaining_recipient_c ≡ 1
      → oldest worker owref.app_i ≡ i
      → (j position : ℕ) → Next cleared owref.app_i i j position
      → Decrements worker i
          (record cleared {
            oldest_owref_i_by_app = set worker.oldest_owref_i_by_app owref.app_i j;
          })
          (some (position, owref.app_i))
  unfolding cleared owref
  released_lem app_h one first j position n =
      let a = (owref_at worker i).app_i in
      let olds = set worker.oldest_owref_i_by_app a j in
      let at : get_or olds a 0 ≡ j = get_or-set_self 0 worker.oldest_owref_i_by_app a j app_h in
      record {
        fewer = count_gone one;
        others = λ k ne. get_or-set_ne no_owref worker.owrefs i k no_owref ne;
        tracked = tracked;
        release = inr (
          (one, first),
          (λ b ne. get_or-set_ne 0 worker.oldest_owref_i_by_app a b j ne),
          (
            position,
            refl,
            subst (λ m. Next (record cleared { oldest_owref_i_by_app = olds }) a i m position)
                (sym at) (Next-kept cleared olds a i j position n),
          ),
        );
      }
    where
      tracked :
          (b : ℕ)
          → Tracked worker b
          → Tracked
              (record cleared {
                oldest_owref_i_by_app =
                    set worker.oldest_owref_i_by_app (owref_at worker i).app_i j;
              })
              b
      tracked b t = elim (Bool-cases (b == (owref_at worker i).app_i)) [
        | inl same ↦
            let at : (owref_at worker i).app_i ≡ b = ground arith in
            Tracked-moved cleared (set worker.oldest_owref_i_by_app (owref_at worker i).app_i j) b j
              (ap (λ m. get_or (set worker.oldest_owref_i_by_app (owref_at worker i).app_i j) m 0)
                  (sym at)
                ∙ get_or-set_self 0 worker.oldest_owref_i_by_app (owref_at worker i).app_i j app_h)
              (subst (λ m. TrackedAt cleared m j) at
                (Next-TrackedAt cleared (owref_at worker i).app_i i j position n))
        | inr other ↦
            Tracked-moved cleared (set worker.oldest_owref_i_by_app (owref_at worker i).app_i j) b
              (oldest worker b)
              (get_or-set_ne 0 worker.oldest_owref_i_by_app (owref_at worker i).app_i b j
                (λ e. ground arith))
              (cleared-Tracked b (λ e c. ground arith) t)
      ]

  -- For a reference with recipients, and an end inside of the array, the loop of
  -- `decrement_pending_owref_count` ends. The count is one less, and the other references are as they were. If no recipient is left and the
  -- reference was the oldest one of its app, the app's ring is released up to the message of the
  -- app's next reference, or as far as was read if there is none; else nothing is released. Each app
  -- whose oldest index is the end, or one of a reference of its own, still has such an oldest index.
  pub decrement_lem :
      worker.newest_owref_i < length worker.owrefs
      → (owref_at worker i).app_i < length worker.oldest_owref_i_by_app
      → 0 < (owref_at worker i).remaining_recipient_c
      → (owref_at worker i).remaining_recipient_c < 2 ^ 32
      → (worker' : Worker) × (released : Option (ℕ × ℕ)) × (decrement_pending_owref_count worker i
          ≡ some (worker', released))
        × Decrements worker i worker' released
  unfolding decrement_pending_owref_count owref cleared
  decrement_lem newest_h app_h some_left fits =
      let o = owref_at worker i in
      let remaining = (o.remaining_recipient_c + (2 ^ 32 - 1)) % 2 ^ 32 in
      let less = record o { remaining_recipient_c = remaining } in
      let fewer : remaining ≡ o.remaining_recipient_c - 1 = omega arith in
      elim (Bool-cases (remaining == 0)) [
        | inr left ↦ (
          record worker { owrefs = set worker.owrefs i less },
          none,
          rw left refl,
          record {
            fewer =
                ap (λ p. p.remaining_recipient_c) (get_or-set_self no_owref worker.owrefs i less h)
                ∙ fewer;
            tracked = λ b t.
                replaced-Tracked worker i less b h
                  (λ e p. rw left (and_right (not (o.remaining_recipient_c == 0)) (o.app_i == b) p))
                  t;
            others = λ k ne. get_or-set_ne no_owref worker.owrefs i k less ne;
            release = inl ((λ l. let one = l.0 in absurd (ground arith)), refl, λ b. refl);
          },
        )
        | inl last ↦ elim (Bool-cases (i == oldest worker o.app_i)) [
          | inr newer ↦ (
            cleared,
            none,
            rw (last, newer) refl,
            record {
              fewer = count_gone (ground arith);
              tracked = λ b t.
                  cleared-Tracked b
                    (λ e c.
                      let same : i ≡ oldest worker o.app_i = sym e ∙ ap (oldest worker) (sym c) in
                      ground arith)
                    t;
              others = λ k ne. get_or-set_ne no_owref worker.owrefs i k no_owref ne;
              release = inl ((λ l. let at = l.1 in absurd (ground arith)), refl, λ b. refl);
            },
          )
          | inl first ↦
              let (d, forward, fits', end) =
                distance i worker.newest_owref_i (length worker.owrefs) h newest_h in
              let size : length cleared.owrefs ≡ length worker.owrefs =
                length-set worker.owrefs i no_owref in
              let (j, position, found, n) =
                next_pending-Next cleared o.app_i (length worker.owrefs) i d forward fits'
                  (ap (λ m. (i + d) % m) size ∙ end) in
              (
                record cleared {
                  oldest_owref_i_by_app = set worker.oldest_owref_i_by_app o.app_i j;
                },
                some (position, o.app_i),
                rw (decrement_pending_owref_count, last, first, found) refl,
                released_lem app_h (ground arith) (ground arith) j position n,
              )
        ]
      ]
