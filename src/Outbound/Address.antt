-- ===== src/Outbound/Address.antt =====
-- The head of a message, as it is written and read.
use mathlib.Core.Path.{ap₂}
use native.Mathlib.Nat.{mod-eq_of_lt}
use ring_socket.Prelude.{
  ℕ, ◌+◌, ◌-◌, ◌*◌, ◌%◌, ◌^◌, ◌<◌, ◌≡◌, refl, sym, ap, ◌∙◌, Bool, true, false, not, ◌&&◌, ◌||◌,
  List, [], ◌∷◌, ◌++◌, arith, append_assoc, if◌then◌else◌, ◌==◌, ltb, length, drop, take, slice,
  length-append, drop-append, take-append, All,
}
use ring_socket.Wire.Bytes.{le_bytes, of_le, length-le_bytes, of_le-le_bytes}
use ring_socket.Outbound.{
  OutboundKind, single, array, every, every_except_single, every_except_array, kind_number,
  put_recipients, send_head, elem, peer_i, of_app, array_from, is_not_excluded, filter, recipients,
  head_size,
}

length-put_recipients : (ps : List ℕ) → length (put_recipients ps) ≡ 4 * length ps
unfolding put_recipients
length-put_recipients [] = refl
length-put_recipients (p ∷ ps) = omega (
  arith,
  length-append (le_bytes 4 p) (put_recipients ps),
  length-le_bytes 4 p,
  length-put_recipients ps,
)

abbrev pub IsUint32 : ℕ → Type 0
IsUint32 p = p < 2 ^ 32

-- A number that was stored is read again.
load_stored :
    (xs ys : List ℕ) (at n : ℕ)
    → at ≡ length xs
    → n < 2 ^ 32
    → of_le (slice (xs ++ (le_bytes 4 n ++ ys)) at 4) ≡ n
load_stored xs ys at n e h =
    ap (λ t. of_le (take 4 t)) (drop-append xs (le_bytes 4 n ++ ys) at e)
    ∙ ap of_le (take-append (le_bytes 4 n) ys 4 (sym (length-le_bytes 4 n)))
    ∙ of_le-le_bytes 4 n
    ∙ mod-eq_of_lt h

not_or : (a b c : Bool) → (if a then false else not b && c) ≡ (not (a || b) && c)
not_or true b c = refl
not_or false b c = refl

-- The bytes `pre` in front of the recipients, and those after them.
module _ (frame : List ℕ) where
  next_pre :
      (pre ps : List ℕ) (p : ℕ)
      → pre ++ (put_recipients (p ∷ ps) ++ frame)
        ≡ (pre ++ le_bytes 4 p) ++ (put_recipients ps ++ frame)
  unfolding put_recipients
  next_pre pre ps p =
      ap (λ t. pre ++ t) (append_assoc (le_bytes 4 p) (put_recipients ps) frame)
      ∙ sym (append_assoc pre (le_bytes 4 p) (put_recipients ps ++ frame))

  pub first_entry :
      (pre ps : List ℕ) (p at i : ℕ)
      → at + 4 * i ≡ length pre
      → p < 2 ^ 32
      → peer_i (pre ++ (put_recipients (p ∷ ps) ++ frame)) at i ≡ p
  unfolding put_recipients
  first_entry pre ps p at i e h =
      ap (λ t. of_le (slice (pre ++ t) (at + 4 * i) 4))
        (append_assoc (le_bytes 4 p) (put_recipients ps) frame)
      ∙ load_stored pre (put_recipients ps ++ frame) (at + 4 * i) p e h

  longer :
      (pre : List ℕ) (p i : ℕ)
      → 5 + 4 * i ≡ length pre
      → 5 + 4 * (i + 1) ≡ length (pre ++ le_bytes 4 p)
  longer pre p i e = omega (arith, length-append pre (le_bytes 4 p), length-le_bytes 4 p)

  array_from_lem :
      (pre ps : List ℕ) (i : ℕ)
      → 5 + 4 * i ≡ length pre
      → All IsUint32 ps
      → array_from (pre ++ (put_recipients ps ++ frame)) (length ps) i ≡ ps
  unfolding array_from
  array_from_lem pre [] i e h = refl
  array_from_lem pre (p ∷ ps) i e h = ap₂ ◌∷◌ (first_entry pre ps p 5 i e h.0) (
      ap (λ m. array_from m (length ps) (i + 1)) (next_pre pre ps p)
      ∙ array_from_lem (pre ++ le_bytes 4 p) ps (i + 1) (longer pre p i e) h.1)

  -- Behind the last of the excluded peers, the loop reads the first bytes of the frame.
  is_not_excluded_lem :
      (q : ℕ) (pre ps : List ℕ) (i : ℕ)
      → 5 + 4 * i ≡ length pre
      → All IsUint32 ps
      → is_not_excluded (pre ++ (put_recipients ps ++ frame)) q (length ps) i
        ≡ (not (elem q ps) && not (of_le (take 4 frame) == q))
  unfolding is_not_excluded put_recipients
  is_not_excluded_lem q pre [] i e h =
      ap (λ t. not (of_le (take 4 t) == q)) (drop-append pre frame (5 + 4 * i) e)
  is_not_excluded_lem q pre (p ∷ ps) i e h =
      let rest : is_not_excluded (pre ++ (put_recipients (p ∷ ps) ++ frame)) q (length ps) (i + 1)
          ≡ (not (elem q ps) && not (of_le (take 4 frame) == q)) =
        ap (λ m. is_not_excluded m q (length ps) (i + 1)) (next_pre pre ps p)
        ∙ is_not_excluded_lem q (pre ++ le_bytes 4 p) ps (i + 1) (longer pre p i e) h.1 in
      ap₂ (λ x b. if x == q then false else b) (first_entry pre ps p 5 i e h.0) rest
      ∙ not_or (p == q) (elem q ps) (not (of_le (take 4 frame) == q))

-- How many recipients `rs_send` is given.
abbrev pub Fits : OutboundKind → List ℕ → Type 0
Fits single ps = length ps ≡ 1
Fits array ps = (1 < length ps) × (length ps < 2 ^ 30 - 1)
Fits every ps = length ps ≡ 0
Fits every_except_single ps = length ps ≡ 1
Fits every_except_array ps = (1 < length ps) × (length ps < 2 ^ 30 - 1)

-- The peers that a message is meant for; `all` are the peers of the app.
abbrev pub meant_for : OutboundKind → List ℕ → List ℕ → List ℕ
meant_for single ps all = ps
meant_for array ps all = ps
meant_for every ps all = all
meant_for every_except_single ps all = filter (λ q. not (elem q ps)) all
meant_for every_except_array ps all = filter (λ q. not (elem q ps)) all

-- No peer of the app has the number that the first four bytes of the frame are, read as an integer.
abbrev pub NotMistaken : List ℕ → List ℕ → Type 0
NotMistaken frame all = All (λ q. (of_le (take 4 frame) == q) ≡ false) all

filter_ext : (f g : ℕ → Bool) (qs : List ℕ) → All (λ q. f q ≡ g q) qs → filter f qs ≡ filter g qs
unfolding filter
filter_ext f g [] h = refl
filter_ext f g (q ∷ qs) h = rw (h.0, filter_ext f g qs h.1) refl

All-weaken : (P Q : ℕ → Type 0) → ((q : ℕ) → P q → Q q) → (qs : List ℕ) → All P qs → All Q qs
All-weaken P Q f [] h = tt
All-weaken P Q f (q ∷ qs) h = (f q h.0, All-weaken P Q f qs h.1)

All-everywhere : (P : ℕ → Type 0) → ((q : ℕ) → P q) → (qs : List ℕ) → All P qs
All-everywhere P f [] = tt
All-everywhere P f (q ∷ qs) = (f q, All-everywhere P f qs)

abbrev message : OutboundKind → List ℕ → List ℕ → List ℕ
message kind ps frame = send_head kind ps ++ frame

-- The number of recipients, and the first recipient of a message with one.
pub count_stored :
    (k : ℕ) (ps frame : List ℕ)
    → length ps < 2 ^ 32
    → peer_i ((k ∷ (le_bytes 4 (length ps) ++ put_recipients ps)) ++ frame) 1 0 ≡ length ps
count_stored k ps frame h =
    ap (λ t. of_le (slice (k ∷ t) 1 4))
      (append_assoc (le_bytes 4 (length ps)) (put_recipients ps) frame)
    ∙ load_stored (k ∷ []) (put_recipients ps ++ frame) 1 (length ps) refl h

one_stored :
    (k p : ℕ) (frame : List ℕ)
    → p < 2 ^ 32
    → peer_i ((k ∷ put_recipients (p ∷ [])) ++ frame) 1 0 ≡ p
one_stored k p frame h = first_entry frame (k ∷ []) [] p 1 0 refl h

pub array_lem :
    (k : ℕ) (ps frame : List ℕ)
    → All IsUint32 ps
    → array_from ((k ∷ (le_bytes 4 (length ps) ++ put_recipients ps)) ++ frame) (length ps) 0 ≡ ps
array_lem k ps frame h =
    ap (λ t. array_from (k ∷ t) (length ps) 0)
      (append_assoc (le_bytes 4 (length ps)) (put_recipients ps) frame)
    ∙ array_from_lem frame (k ∷ le_bytes 4 (length ps)) ps 0
        (omega (arith, length-le_bytes 4 (length ps))) h

pub excluded_lem :
    (q k : ℕ) (ps frame : List ℕ)
    → All IsUint32 ps
    → is_not_excluded ((k ∷ (le_bytes 4 (length ps) ++ put_recipients ps)) ++ frame) q (length ps) 0
      ≡ (not (elem q ps) && not (of_le (take 4 frame) == q))
excluded_lem q k ps frame h =
    ap (λ t. is_not_excluded (k ∷ t) q (length ps) 0)
      (append_assoc (le_bytes 4 (length ps)) (put_recipients ps) frame)
    ∙ is_not_excluded_lem frame q (k ∷ le_bytes 4 (length ps)) ps 0
        (omega (arith, length-le_bytes 4 (length ps))) h

pub long_head :
    (kind : OutboundKind) (ps : List ℕ)
    → 1 < length ps
    → send_head kind ps ≡ kind_number kind ∷ (le_bytes 4 (length ps) ++ put_recipients ps)
unfolding send_head
long_head kind ps h = let several : ltb 1 (length ps) ≡ true = ground arith in rw several refl

other_one : (p q : ℕ) → not (q == p) ≡ not (p == q || false)
other_one p q = ground arith

and_true : (b : Bool) → (b && true) ≡ b
and_true true = refl
and_true false = refl

recipients-send_head :
    (kind : OutboundKind) (ps frame : List ℕ) (app_i : ℕ) (apps : List ℕ)
    → Fits kind ps
    → All IsUint32 ps
    → NotMistaken frame (of_app app_i apps 0)
    → recipients app_i apps (send_head kind ps ++ frame) ≡ meant_for kind ps (of_app app_i apps 0)
unfolding recipients send_head
recipients-send_head single [] frame app_i apps f u n = absurd (omega arith)
recipients-send_head single (p ∷ []) frame app_i apps f u n =
    ap (λ q. q ∷ []) (one_stored 0 p frame u.0)
recipients-send_head single (p ∷ q ∷ ps) frame app_i apps f u n = absurd (omega arith)
recipients-send_head array ps frame app_i apps f u n =
    ap (λ m. recipients app_i apps (m ++ frame)) (long_head array ps f.0)
    ∙ ap (λ c. array_from ((1 ∷ (le_bytes 4 (length ps) ++ put_recipients ps)) ++ frame) c 0)
        (count_stored 1 ps frame (omega (arith, f.1)))
    ∙ array_lem 1 ps frame u
recipients-send_head every ps frame app_i apps f u n = refl
recipients-send_head every_except_single [] frame app_i apps f u n = absurd (omega arith)
recipients-send_head every_except_single (p ∷ []) frame app_i apps f u n =
    filter_ext (λ q. not (q == peer_i (send_head every_except_single (p ∷ []) ++ frame) 1 0))
      (λ q. not (elem q (p ∷ []))) (of_app app_i apps 0)
      (All-everywhere _ (λ q. ap (λ x. not (q == x)) (one_stored 3 p frame u.0) ∙ other_one p q)
        (of_app app_i apps 0))
recipients-send_head every_except_single (p ∷ q ∷ ps) frame app_i apps f u n = absurd (omega arith)
recipients-send_head every_except_array ps frame app_i apps f u n =
    ap (λ m. recipients app_i apps (m ++ frame)) (long_head every_except_array ps f.0)
    ∙ ap
        (λ c.
          filter
            (λ q.
              is_not_excluded ((4 ∷ (le_bytes 4 (length ps) ++ put_recipients ps)) ++ frame) q c 0)
            (of_app app_i apps 0))
        (count_stored 4 ps frame (omega (arith, f.1)))
    ∙ filter_ext
        (λ q.
          is_not_excluded ((4 ∷ (le_bytes 4 (length ps) ++ put_recipients ps)) ++ frame) q
            (length ps) 0)
        (λ q. not (elem q ps)) (of_app app_i apps 0)
        (All-weaken _ _ (λ q e. excluded_lem q 4 ps frame u ∙ rw e (and_true (not (elem q ps))))
          (of_app app_i apps 0) n)

long_size :
    (kind : OutboundKind) (ps frame : List ℕ)
    → (1 < length ps) × (length ps < 2 ^ 30 - 1)
    → (size : ℕ) → size ≡ 1 + (4 + 4 * peer_i (send_head kind ps ++ frame) 1 0) % 2 ^ 32
    → size ≡ length (send_head kind ps)
long_size kind ps frame f size e =
    e
    ∙ ap (λ m. 1 + (4 + 4 * peer_i (m ++ frame) 1 0) % 2 ^ 32) (long_head kind ps f.0)
    ∙ ap (λ c. 1 + (4 + 4 * c) % 2 ^ 32)
        (count_stored (kind_number kind) ps frame (omega (arith, f.1)))
    ∙ ap (λ x. 1 + x) (mod-eq_of_lt (omega (arith, f.1)))
    ∙ omega (
      arith,
      ap length (long_head kind ps f.0),
      length-append (le_bytes 4 (length ps)) (put_recipients ps),
      length-le_bytes 4 (length ps),
      length-put_recipients ps,
    )

head_lem :
    (kind : OutboundKind) (ps frame : List ℕ)
    → Fits kind ps
    → All IsUint32 ps
    → head_size (send_head kind ps ++ frame) ≡ length (send_head kind ps)
unfolding head_size send_head
head_lem single [] frame f u = absurd (omega arith)
head_lem single (p ∷ []) frame f u = omega (arith, length-put_recipients (p ∷ []))
head_lem single (p ∷ q ∷ ps) frame f u = absurd (omega arith)
head_lem array ps frame f u =
    long_size array ps frame f (head_size (send_head array ps ++ frame)) refl
head_lem every [] frame f u = omega (arith, length-put_recipients [])
head_lem every (p ∷ ps) frame f u = absurd (omega arith)
head_lem every_except_single [] frame f u = absurd (omega arith)
head_lem every_except_single (p ∷ []) frame f u = omega (arith, length-put_recipients (p ∷ []))
head_lem every_except_single (p ∷ q ∷ ps) frame f u = absurd (omega arith)
head_lem every_except_array ps frame f u =
    long_size every_except_array ps frame f (head_size (send_head every_except_array ps ++ frame))
      refl

-- In a message that `rs_send` wrote for as many recipients as its kind has, numbers of 32 bits and
-- fewer than 2^30 - 1 of them, `receive_from_app` finds exactly the peers that the message is meant
-- for, in order, and the frame where it begins. It is assumed that no peer of the app has the number
-- that the first four bytes of the frame are.
pub address_lem :
    (kind : OutboundKind) (ps frame : List ℕ) (app_i : ℕ) (apps : List ℕ)
    → Fits kind ps
    → All IsUint32 ps
    → NotMistaken frame (of_app app_i apps 0)
    → (recipients app_i apps (send_head kind ps ++ frame) ≡ meant_for kind ps (of_app app_i apps 0))
      × (drop (head_size (send_head kind ps ++ frame)) (send_head kind ps ++ frame) ≡ frame)
address_lem kind ps frame app_i apps f u n = (
  recipients-send_head kind ps frame app_i apps f u n,
  drop-append (send_head kind ps) frame (head_size (send_head kind ps ++ frame))
      (head_lem kind ps frame f u),
)
