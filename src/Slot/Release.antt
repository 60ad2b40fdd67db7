-- ===== src/Slot/Release.antt =====
-- `init_slots` and `free_slot`.
use mathlib.Core.Path.{subst}
use Prim.Native.Nat.{bit_and}
use ring_socket.Prelude.{
  ℕ, ◌-◌, ◌/◌, ◌%◌, ◌≤◌, ◌<◌, ◌≡◌, inl, inr, ◌∙◌, false, some, List, arith, if◌then◌else◌, ◌==◌,
  ltb, Bool-cases, length, get_elem?, set, All, All-get_elem?, All-set, get_elem?_in, get_elem?_lt,
  get_elem?-set_self, get_elem?-set_ne, length-set,
}
use ring_socket.Slot.{Slots, mask, free_slot}
use ring_socket.Slot.Bits.{clear-unset, unset-lt}
use ring_socket.Slot.Lowest.{taken, taken_at, taken_byte, IsValid}
use ring_socket.Wire.Bytes.{IsByte}

taken-unset :
    (bytes : List ℕ) (i b j : ℕ)
    → All IsByte bytes
    → get_elem? bytes (i / 8) ≡ some b
    → taken (set bytes (i / 8) (bit_and b (255 - mask i))) j
      ≡ (if j == i then false else taken bytes j)
taken-unset bytes i b j all e =
    let lt : i / 8 < length bytes = get_elem?_lt bytes (i / 8) b e in
    let b_fits : b < 256 = All-get_elem? IsByte bytes (i / 8) b all e in
    let b' = bit_and b (255 - mask i) in
    elim (Bool-cases (j / 8 == i / 8)) [
      | inl same_byte ↦
          let q : i / 8 ≡ j / 8 = ground arith in
          ground (
            arith,
            taken_at (set bytes (i / 8) b') j b' (
                subst (λ t. get_elem? (set bytes (i / 8) b') t ≡ some b') q
                  (get_elem?-set_self bytes (i / 8) b' lt)),
            taken_at bytes j b (rw q at e),
            clear-unset b (i % 8) (j % 8) b_fits (omega arith) (omega arith),
          )
      | inr other ↦ ground (
        arith,
        taken_byte (set bytes (i / 8) b') bytes j
            (get_elem?-set_ne bytes (i / 8) (j / 8) b' (λ p. ground arith)),
      )
    ]

-- On a well-formed bitmap, freeing a slot that the array has makes no access outside of the bitmap, frees that slot and no
-- other, and keeps the bitmap well formed, so that the next search finds the slot.
pub free_slot_lem :
    (slot_c : ℕ) (s : Slots) (j : ℕ)
    → IsValid slot_c s
    → j < slot_c
    → (s' : Slots) × (free_slot s j ≡ some s')
      × ((k : ℕ) → taken s'.bytes k ≡ (if k == j then false else taken s.bytes k))
      × (s'.i ≤ j)
      × IsValid slot_c s'
unfolding free_slot
free_slot_lem slot_c s j v h =
    let (b, at) = get_elem?_in s.bytes (j / 8) (omega (arith, v.size)) in
    let b_fits : b < 256 = All-get_elem? IsByte s.bytes (j / 8) b v.bytes_fit at in
    let b' = bit_and b (255 - mask j) in
    let now : (k : ℕ)
        → taken (set s.bytes (j / 8) b') k ≡ (if k == j then false else taken s.bytes k) =
      λ k. taken-unset s.bytes j b k v.bytes_fit at in
    (
      record { bytes = set s.bytes (j / 8) b'; i = if ltb j s.i then j else s.i },
      rw (at, free_slot),
      now,
      ground arith,
      record {
        size = length-set s.bytes (j / 8) b' ∙ v.size;
        bytes_fit =
            All-set IsByte s.bytes (j / 8) b'
              (unset-lt b (j % 8) 0 b_fits (omega arith) (omega arith)) v.bytes_fit;
        padded = λ k g. ground (arith, now k, v.padded k g);
        low_taken = λ k g. ground (arith, now k, v.low_taken k);
      },
    )
