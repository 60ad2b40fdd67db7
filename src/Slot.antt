-- ===== src/Slot.antt =====
-- rs_slot.c: a bitmap of the array elements that are in use.
pub mod Bits
pub mod Init
pub mod Lowest
pub mod Release
use Prim.Native.Nat.{bit_and, bit_or}
use ring_socket.Prelude.{
  ℕ, zero, suc, ◌+◌, ◌-◌, ◌/◌, ◌%◌, ◌^◌, Bool, true, false, not, Option, none, some, List, [], ◌∷◌,
  if◌then◌else◌, ◌==◌, ltb, length, get_elem?, set, ◌*◌,
}

-- `struct rs_slots`; `byte_over` is the end of `bytes`.
pub record Slots : Type 0 where
  pub bytes : List ℕ
  pub i : ℕ

-- What `alloc_slot` does: a read outside of `bytes`, RS_AGAIN, or RS_OK with `*slot_i`.
pub data Alloc : Type 0 where
  fault : Alloc
  again : Slots → Alloc
  done : ℕ → Slots → Alloc

-- The last byte of `init_slots`, by the number of its slots; 0 stands for all eight.
unfoldable pub pad : ℕ → ℕ
pad r =
    if r == 0
    then 0
    else if r == 1
    then 0xFE
    else if r == 2
    then 0xFC
    else if r == 3
    then 0xF8
    else if r == 4
    then 0xF0
    else if r == 5
    then 0xE0
    else if r == 6
    then 0xC0
    else 0x80

-- What `init_slots` does with the memory that RS_CALLOC gives; `none` is RS_FATAL.
abbrev pub init_bytes : ℕ → Option (List ℕ) → Option Slots
unfolding pad
init_bytes slot_c none = none
init_bytes slot_c (some bytes) = some (record {
  bytes = if slot_c % 8 == 0 then bytes else set bytes ((slot_c + 7) / 8 - 1) (pad (slot_c % 8));
  i = 0;
})

-- `calloc n` is the memory for `n` bytes, if there is any.
unfoldable pub init_slots : (ℕ → Option (List ℕ)) → ℕ → Option Slots
unfolding pad
init_slots calloc slot_c = init_bytes slot_c (calloc ((slot_c + 7) / 8))

-- The mask of a slot's bit: 0x01 to 0x80 in the cases of `alloc_slot`, and `1 << slot_i % 8`.
abbrev pub mask : ℕ → ℕ
mask i = 2 ^ (i % 8)

-- The loop of `alloc_slot` at byte `p` and slot `i`. The case label it is at is `i % 8`: it enters
-- there, and each case that falls through adds 1 to `i`.
unfoldable pub scan : ℕ → List ℕ → ℕ → ℕ → Alloc
scan zero bytes p i = fault
scan (suc fuel) bytes p i =
    let same_byte = scan fuel bytes p (i + 1) in
    let next_byte = scan fuel bytes (p + 1) (i + 1) in
    elim (get_elem? bytes p) [
      | none ↦ fault
      | some b ↦
          if bit_and b (mask i) == 0
          then done i (record { bytes = set bytes p (bit_or b (mask i)); i = i })
          else if not ((i + 1) % 8 == 0)
          then same_byte
          else if ltb (p + 1) (length bytes)
          then next_byte
          else again (record { bytes = bytes; i = i + 1 })
    ]

-- The loop looks at each of the slots once at most.
unfoldable pub alloc_slot : Slots → Alloc
unfolding scan
alloc_slot s = scan (8 * length s.bytes + 1) s.bytes (s.i / 8) s.i

-- `none` is an access outside of `bytes`.
unfoldable pub free_slot : Slots → ℕ → Option Slots
free_slot s slot_i = elim (get_elem? s.bytes (slot_i / 8)) [
  | none ↦ none
  | some b ↦ some (record {
    bytes = set s.bytes (slot_i / 8) (bit_and b (255 - mask slot_i));
    i = if ltb slot_i s.i then slot_i else s.i;
  })
]
