-- ===== src/Slot/Init.antt =====
-- `init_slots`: all slots of the array are free, and those of the last byte's other bits are not.
use mathlib.Core.Path.{subst, sym}
use mathlib.Core.Option.{some-injective}
use native.Mathlib.Decide.{dec_lt}
use ring_socket.Prelude.{
  ℕ, zero, suc, ◌+◌, ◌-◌, ◌/◌, ◌%◌, ◌<◌, ◌≡◌, inl, inr, refl, ap, ◌∙◌, true, false, not, Option,
  none, some, List, arith, if◌then◌else◌, ◌==◌, ltb, ◌||◌, Bool-cases, all_below, all_below_sound,
  length, get_elem?, set, replicate, All, All-set, get_elem?-set_self, get_elem?-set_ne, length-set,
}
use ring_socket.Slot.{Slots, init_bytes, init_slots, pad}
use ring_socket.Slot.Bits.{is_clear, same, same→eq}
use ring_socket.Slot.Lowest.{taken, taken_at, taken_byte, taken_out, IsValid}
use ring_socket.Wire.Bytes.{IsByte}

abbrev pub zeros : ℕ → List ℕ
zeros n = replicate n 0

get_elem?-replicate : (n i : ℕ) → i < n → get_elem? (zeros n) i ≡ some 0
get_elem?-replicate zero i h = absurd (omega arith)
get_elem?-replicate (suc n) zero h = refl
get_elem?-replicate (suc n) (suc i) h = get_elem?-replicate n i (omega arith)

length-replicate : (n : ℕ) → length (zeros n) ≡ n
length-replicate zero = refl
length-replicate (suc n) = ap suc (length-replicate n)

replicate-IsByte : (n : ℕ) → All IsByte (zeros n)
replicate-IsByte zero = tt
replicate-IsByte (suc n) = (omega arith, replicate-IsByte n)

pad_table :
    all_below 8 (λ r. all_below 8 (λ k. same (is_clear (pad r) k) (r == 0 || ltb k r))) ≡ true
unfolding all_below pad same
pad_table = refl

pad_bits : (r k : ℕ) → r < 8 → k < 8 → is_clear (pad r) k ≡ (r == 0 || ltb k r)
pad_bits r k hr hk = same→eq _ _ (
    all_below_sound 8 (λ k. same (is_clear (pad r) k) (r == 0 || ltb k r)) k
      (all_below_sound 8 (λ r. all_below 8 (λ k. same (is_clear (pad r) k) (r == 0 || ltb k r))) r
        pad_table hr)
      hk)

pad-lt : (r : ℕ) → pad r < 256
unfolding pad
pad-lt r = ground arith

-- The bitmap that `init_slots` leaves.
abbrev bitmap : ℕ → List ℕ
bitmap c =
    let bytes = zeros ((c + 7) / 8) in
    if c % 8 == 0 then bytes else set bytes ((c + 7) / 8 - 1) (pad (c % 8))

zero_byte : (n k : ℕ) → k / 8 < n → taken (zeros n) k ≡ false
unfolding pad
zero_byte n k h = ground (
  arith,
  taken_at (zeros n) k 0 (get_elem?-replicate n (k / 8) h),
  pad_bits 0 (k % 8) (omega arith) (omega arith),
)

taken-bitmap : (c k : ℕ) → taken (bitmap c) k ≡ not (ltb k c)
taken-bitmap c k =
    let n = (c + 7) / 8 in
    elim (Bool-cases (c % 8 == 0)) [
      | inl whole ↦ rw whole (elim (dec_lt (k / 8) n) [
        | yes inside ↦ ground (arith, zero_byte n k inside)
        | no outside ↦ ground (arith, taken_out (zeros n) k (omega (arith, length-replicate n)))
      ])
      | inr part ↦ rw part (
          let last = set (zeros n) (n - 1) (pad (c % 8)) in
          elim (dec_lt (k / 8) n) [
            | no outside ↦ ground (
              arith,
              taken_out last k
                  (omega (arith, length-replicate n, length-set (zeros n) (n - 1) (pad (c % 8)))),
            )
            | yes inside ↦ elim (Bool-cases (n - 1 == k / 8)) [
              | inr other ↦ ground (
                arith,
                zero_byte n k inside,
                taken_byte last (zeros n) k
                    (get_elem?-set_ne (zeros n) (n - 1) (k / 8) (pad (c % 8)) (λ p. ground arith)),
              )
              | inl at_last ↦
                  let q : n - 1 ≡ k / 8 = ground arith in
                  ground (
                    arith,
                    pad_bits (c % 8) (k % 8) (omega arith) (omega arith),
                    taken_at last k (pad (c % 8)) (
                        subst (λ t. get_elem? last t ≡ some (pad (c % 8))) q
                          (get_elem?-set_self (zeros n) (n - 1) (pad (c % 8))
                            (omega (arith, length-replicate n)))),
                  )
            ]
          ])
    ]

bitmap-IsValid : (c : ℕ) → IsValid c (record { bytes = bitmap c; i = 0 })
bitmap-IsValid c =
    let n = (c + 7) / 8 in
    record {
      size = elim (Bool-cases (c % 8 == 0)) [
        | inl e ↦ rw e (length-replicate n)
        | inr e ↦ rw e (length-set (zeros n) (n - 1) (pad (c % 8)) ∙ length-replicate n)
      ];
      bytes_fit = elim (Bool-cases (c % 8 == 0)) [
        | inl e ↦ rw e (replicate-IsByte n)
        | inr e ↦
            rw e
              (All-set IsByte (zeros n) (n - 1) (pad (c % 8)) (pad-lt (c % 8)) (replicate-IsByte n))
      ];
      padded = λ j h. ground (arith, taken-bitmap c j);
      low_taken = λ j h. absurd (omega arith);
    }

-- If the memory that calloc gives is zeroed, `init_slots` makes a well-formed bitmap in which exactly
-- the slots of the array are free.
pub init_slots_lem :
    (calloc : ℕ → Option (List ℕ)) (slot_c : ℕ) (s : Slots)
    → ((n : ℕ) (bytes : List ℕ) → calloc n ≡ some bytes → bytes ≡ zeros n)
    → init_slots calloc slot_c ≡ some s
    → IsValid slot_c s × ((k : ℕ) → taken s.bytes k ≡ not (ltb k slot_c))
unfolding init_slots init_bytes
init_slots_lem calloc slot_c s zeroed e = filled (calloc ((slot_c + 7) / 8)) refl e
  where
    Initial : Slots → Type 0
    Initial t = IsValid slot_c t × ((k : ℕ) → taken t.bytes k ≡ not (ltb k slot_c))

    filled :
        (o : Option (List ℕ))
        → calloc ((slot_c + 7) / 8) ≡ o
        → init_bytes slot_c o ≡ some s
        → IsValid slot_c s × ((k : ℕ) → taken s.bytes k ≡ not (ltb k slot_c))
    filled none got made = cc
    filled (some bytes) got made =
        subst Initial
          (some-injective _ _
            (ap (λ b. init_bytes slot_c (some b)) (sym (zeroed _ bytes got)) ∙ made))
          (bitmap-IsValid slot_c, taken-bitmap slot_c)
