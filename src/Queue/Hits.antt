-- ===== src/Queue/Hits.antt =====
-- The updates of the queue that are for one thread, and what flushing one of them changes.
use mathlib.Core.Path.{ap₂}
use ring_socket.Prelude.{
  ℕ, zero, suc, ◌≡◌, inl, inr, refl, sym, Bool, true, false, not, ◌&&◌, ◌||◌, Option, none, some,
  List, [], ◌∷◌, arith, if◌then◌else◌, ◌==◌, Bool-cases, get_or, set, get_or-set_ne,
}
use ring_socket.Queue.{Update, same_atomic, no_update, target, Flushing, is_pending}

abbrev pub agrees : Bool → Bool → Bool
agrees true b = b
agrees false b = not b

-- The position that an update holds for the reads or the writes of thread `i`.
abbrev pub hit : ℕ → Bool → Update → Option ℕ
hit i wr u = if is_pending u i && agrees u.is_write wr then some u.ring_position else none

abbrev pub or_else : Option ℕ → ℕ → ℕ
or_else none v = v
or_else (some x) v = x

-- The position of the first of the updates at the indices, if one is for these reads or writes.
abbrev pub pick : ℕ → Bool → List Update → List ℕ → ℕ → ℕ
pick i wr us [] v = v
pick i wr us (j ∷ js) v = or_else (hit i wr (get_or us j no_update)) (pick i wr us js v)

abbrev pub elem : ℕ → List ℕ → Bool
elem k [] = false
elem k (j ∷ js) = k == j || elem k js

pub pick_ext :
    (i : ℕ) (wr : Bool) (us us' : List Update) (js : List ℕ) (v : ℕ)
    → ((k : ℕ) → hit i wr (get_or us' k no_update) ≡ hit i wr (get_or us k no_update))
    → pick i wr us' js v ≡ pick i wr us js v
pick_ext i wr us us' [] v h = refl
pick_ext i wr us us' (j ∷ js) v h = ap₂ or_else (h j) (pick_ext i wr us us' js v h)

get_or-cleared : (us : List Update) (j : ℕ) → get_or (set us j no_update) j no_update ≡ no_update
get_or-cleared [] j = refl
get_or-cleared (u ∷ us) zero = refl
get_or-cleared (u ∷ us) (suc j) = get_or-cleared us j

abbrev pub flag : Flushing → Bool → Bool
flag f wr = if wr then f.updated_to_newer_w else f.updated_to_newer_r

abbrev pub is_some : Option ℕ → Bool
is_some none = false
is_some (some x) = true

pub same_target : (is_app a b : Bool) → same_atomic (target is_app a) (target is_app b) ≡ agrees b a
same_target true true true = refl
same_target true true false = refl
same_target true false true = refl
same_target true false false = refl
same_target false true true = refl
same_target false true false = refl
same_target false false true = refl
same_target false false false = refl

-- An update that is for another thread, or at another index, stays.
pub hits-cleared :
    (us : List Update) (i j : ℕ)
    → is_pending (get_or us j no_update) i ≡ true
    → (t : ℕ) (wr : Bool) (k : ℕ)
    → hit t wr (get_or (set us j no_update) k no_update)
      ≡ (if t == i && k == j then none else hit t wr (get_or us k no_update))
hits-cleared us i j p t wr k = elim (Bool-cases (k == j)) [
  | inl e ↦ let same : k ≡ j = ground arith in rw (same, get_or-cleared us j) (ground arith)
  | inr e ↦ rw (get_or-set_ne no_update us j k no_update (λ h. ground arith), e) (ground arith)
]

pub no_hit : (u : Update) (i : ℕ) (wr : Bool) → is_pending u i ≡ false → hit i wr u ≡ none
no_hit u i wr h = rw h refl

pub or_false : (b : Bool) → b ≡ (b || false)
or_false true = refl
or_false false = refl

pub hits-idle :
    (us : List Update) (i j : ℕ)
    → is_pending (get_or us j no_update) i ≡ false
    → (t : ℕ) (wr : Bool) (k : ℕ)
    → hit t wr (get_or us k no_update)
      ≡ (if t == i && k == j then none else hit t wr (get_or us k no_update))
hits-idle us i j idle t wr k = elim (Bool-cases (t == i)) [
  | inr e ↦ rw e refl
  | inl e ↦ elim (Bool-cases (k == j)) [
    | inr e' ↦ rw (e, e') refl
    | inl e' ↦
        let same : k ≡ j = ground arith in
        let same' : t ≡ i = ground arith in
        rw (e, e', same, same', no_hit (get_or us j no_update) i wr idle) refl
  ]
]

abbrev pub flag_of : Bool → Bool → Bool → Bool
flag_of w r wr = if wr then w else r

-- The flag of a publishing update is set already, or is set now.
pub flag_kept :
    (write wr w r : Bool) (x : ℕ)
    → flag_of w r write ≡ true
    → flag_of w r wr ≡ (flag_of w r wr || is_some (if agrees write wr then some x else none))
flag_kept true true w r x h = rw h refl
flag_kept true false w r x h = or_false r
flag_kept false true w r x h = or_false w
flag_kept false false w r x h = rw h refl

pub flag_set :
    (write wr w r : Bool) (x : ℕ)
    → flag_of w r write ≡ false
    → flag_of (if write then true else w) (if write then r else true) wr
      ≡ (flag_of w r wr || is_some (if agrees write wr then some x else none))
flag_set true true w r x h = rw h refl
flag_set true false w r x h = or_false r
flag_set false true w r x h = or_false w
flag_set false false w r x h = rw h refl

pub value_kept :
    (write wr w r same : Bool) (x v : ℕ)
    → flag_of w r write ≡ true
    → v ≡ (
        if same && not (flag_of w r wr)
        then or_else (if agrees write wr then some x else none) v
        else v)
value_kept true true w r same x v h = rw h (ground arith)
value_kept true false w r same x v h = ground arith
value_kept false true w r same x v h = ground arith
value_kept false false w r same x v h = rw h (ground arith)

pub value_set :
    (write wr w r same : Bool) (x v : ℕ)
    → flag_of w r write ≡ false
    → (if agrees write wr && same then x else v) ≡ (
        if same && not (flag_of w r wr)
        then or_else (if agrees write wr then some x else none) v
        else v)
value_set true true w r same x v h = rw h (ground arith)
value_set true false w r same x v h = ground arith
value_set false true w r same x v h = ground arith
value_set false false w r same x v h = rw h (ground arith)

pub hit_kept :
    (o : Option ℕ) (a b : Bool) → (b ≡ true → o ≡ none) → (if a && b then none else o) ≡ o
hit_kept o true true h = sym (h refl)
hit_kept o true false h = refl
hit_kept o false b h = refl
