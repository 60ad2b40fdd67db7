-- ===== src/Tests/Buffers.antt =====
-- The slot bitmap and the move inside a buffer.
use ring_socket.Prelude.{
  ℕ, ◌≡◌, ◌≤◌, refl, false, not, Option, some, List, [], ◌∷◌, ◌++◌, arith, slice, drop,
  if◌then◌else◌, ◌==◌, ltb,
}
use ring_socket.Util.MoveLeft.{move_left, move_left_lem}
use ring_socket.Slot.{Slots, fault, again, alloc_slot, free_slot, init_slots, scan, pad}
use ring_socket.Slot.Lowest.{IsValid, taken, AllocPost, alloc_slot_lem, alloc_slot_again}
use ring_socket.Slot.Release.{free_slot_lem}
use ring_socket.Slot.Init.{zeros, init_slots_lem}

abbrev buffer : List ℕ
buffer = 1 ∷ 2 ∷ 3 ∷ 4 ∷ 5 ∷ 6 ∷ []

move_left_lem_example : move_left buffer 2 3 ≡ some (slice buffer 2 3 ++ drop 3 buffer)
move_left_lem_example = move_left_lem buffer 2 3 (omega arith) (omega arith)

abbrev calloc : ℕ → Option (List ℕ)
calloc n = some (zeros n)

abbrev three_free : Slots
three_free = record { bytes = 0xF8 ∷ []; i = 0 }

abbrev all_taken : Slots
all_taken = record { bytes = 0xFF ∷ []; i = 8 }

init_three : init_slots calloc 3 ≡ some three_free
unfolding init_slots pad
init_three = refl

calloc_zeroed : (n : ℕ) (bytes : List ℕ) → calloc n ≡ some bytes → bytes ≡ zeros n
calloc_zeroed n bytes e = ground arith

init_slots_lem_example : IsValid 3 three_free × ((k : ℕ) → taken three_free.bytes k ≡ not (ltb k 3))
init_slots_lem_example = init_slots_lem calloc 3 three_free calloc_zeroed init_three

alloc_slot_lem_example : AllocPost 3 three_free (alloc_slot three_free)
alloc_slot_lem_example = alloc_slot_lem 3 three_free (init_slots_lem_example.0) (omega arith)

alloc_full : alloc_slot (record { bytes = 0xFF ∷ []; i = 0 }) ≡ again all_taken
unfolding alloc_slot scan
alloc_full = refl

alloc_slot_again_example : alloc_slot all_taken ≡ fault
alloc_slot_again_example =
    alloc_slot_again (record { bytes = 0xFF ∷ []; i = 0 }) all_taken alloc_full

free_slot_lem_example :
    (s' : Slots) × (free_slot three_free 2 ≡ some s')
    × ((k : ℕ) → taken s'.bytes k ≡ (if k == 2 then false else taken three_free.bytes k))
    × (s'.i ≤ 2)
    × IsValid 3 s'
free_slot_lem_example = free_slot_lem 3 three_free 2 (init_slots_lem_example.0) (omega arith)
