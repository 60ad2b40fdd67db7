-- ===== src/Util/MoveLeft.antt =====
-- rs_util.c, `move_left`: a leftward move inside one buffer by copies that never overlap. The buffer
-- is the list from `dst` on; `none` stands for a `memcpy` with undefined behaviour (overlapping
-- ranges, or a range that leaves the buffer) and for a loop that does not end.
use mathlib.Core.Path.{ap₂}
use mathlib.Core.Option
use ring_socket.Prelude.{
  ℕ, zero, suc, ◌+◌, ◌-◌, ◌≤◌, ◌<◌, ◌≡◌, sym, ap, ◌∙◌, Bool, true, inl, inr, Option, none, some,
  List, ◌++◌, append_assoc, arith, if◌then◌else◌, ltb, leb, ◌&&◌, ◌||◌, Bool-cases, length, take,
  drop, slice, overwrite, drop-add, take-add, drop-overwrite, take-overwrite, overwrite_lem,
  length-overwrite, length-take, length-drop,
}

-- The ranges of a `memcpy` lie in the buffer and do not overlap.
abbrev is_defined : ℕ → ℕ → ℕ → ℕ → Bool
is_defined len dst src n =
    (leb (dst + n) src || leb (src + n) dst) && (leb (dst + n) len && leb (src + n) len)

is_defined_lem :
    (len dst src n : ℕ) → dst + n ≤ src → src + n ≤ len → is_defined len dst src n ≡ true
is_defined_lem len dst src n h h' = ground arith

module _ {ℓ} {A : Type ℓ} where
  -- `memcpy(buf + dst, buf + src, n)`
  unfoldable pub memcpy : List A → ℕ → ℕ → ℕ → Option (List A)
  memcpy buf dst src n =
      if is_defined (length buf) dst src n then some (overwrite dst (slice buf src n) buf) else none

  move_loop : ℕ → List A → ℕ → ℕ → ℕ → Option (List A)
  unfolding Option.bind
  move_loop zero buf offset size moved_size = none
  move_loop (suc fuel) buf offset size moved_size =
      let rest =
        λ (buf' : List A). move_loop fuel buf' offset (size - offset) (moved_size + offset) in
      if ltb offset size
      then Option.bind (memcpy buf moved_size (offset + moved_size) offset) rest
      else memcpy buf moved_size (offset + moved_size) size

  -- Each round takes `offset` off `size`, so `size + 1` rounds are enough where `offset` is not 0.
  unfoldable pub move_left : List A → ℕ → ℕ → Option (List A)
  unfolding move_loop memcpy
  move_left buf offset size = move_loop (size + 1) buf offset size 0

  memcpy_lem :
      (buf : List A) (dst src n : ℕ)
      → dst + n ≤ src
      → src + n ≤ length buf
      → memcpy buf dst src n ≡ some (overwrite dst (slice buf src n) buf)
  unfolding memcpy
  memcpy_lem buf dst src n h h' = rw (is_defined_lem (length buf) dst src n h h')

  length-slice : (buf : List A) (i n : ℕ) → i + n ≤ length buf → length (slice buf i n) ≡ n
  length-slice buf i n h = omega (arith, length-take n (drop i buf), length-drop i buf)

  -- What the buffer holds when the loop stops.
  abbrev moved : List A → ℕ → ℕ → ℕ → List A
  moved buf offset size m = take m buf ++ (slice buf (offset + m) size ++ drop (m + size) buf)

  -- One copy more, seen from the end of the loop.
  moved_step :
      (buf : List A) (offset size m : ℕ)
      → offset < size
      → offset + m + size ≤ length buf
      → let buf' = overwrite m (slice buf (offset + m) offset) buf in
        moved buf' offset (size - offset) (m + offset) ≡ moved buf offset size m
  moved_step buf offset size m lt h =
      let src = slice buf (offset + m) offset in
      let len : length src ≡ offset = length-slice buf (offset + m) offset (omega arith) in
      ap₂ ◌++◌ (take-overwrite src buf m (m + offset) (omega arith) (omega arith)) (
        ap₂ ◌++◌
          (ap (take (size - offset))
            (drop-overwrite src buf m (offset + (m + offset)) (omega arith)))
          (drop-overwrite src buf m (m + offset + (size - offset)) (omega arith)))
      ∙ append_assoc (take m buf) src _
      ∙ ap (◌++◌ (take m buf))
          (sym (append_assoc src _ _) ∙ ap₂ ◌++◌ (sym slices) (ap (λ k. drop k buf) (omega arith)))
    where
      slices :
          slice buf (offset + m) size
          ≡ slice buf (offset + m) offset ++ slice buf (offset + (m + offset)) (size - offset)
      slices =
          ap (λ k. take k (drop (offset + m) buf)) (omega arith)
          ∙ take-add (drop (offset + m) buf) offset (size - offset)
          ∙ ap (λ t. slice buf (offset + m) offset ++ take (size - offset) t)
              (sym (drop-add buf (offset + m) offset) ∙ ap (λ k. drop k buf) (omega arith))

  move_loop_lem :
      (fuel : ℕ) (buf : List A) (offset size m : ℕ)
      → 0 < offset
      → offset + m + size ≤ length buf
      → size < fuel
      → move_loop fuel buf offset size m ≡ some (moved buf offset size m)
  unfolding move_loop
  move_loop_lem zero buf offset size m pos h f = absurd (omega arith)
  move_loop_lem (suc fuel) buf offset size m pos h f = elim (Bool-cases (ltb offset size)) [
    | inl more ↦
        let src = slice buf (offset + m) offset in
        rw (more, memcpy_lem buf m (offset + m) offset (omega arith) (ground arith))
          (move_loop_lem fuel (overwrite m src buf) offset (size - offset) (m + offset) pos
              (rw (length-overwrite m src buf) (ground arith)) (ground arith)
            ∙ ap some (moved_step buf offset size m (ground arith) h))
    | inr last ↦
        rw (last, memcpy_lem buf m (offset + m) size (ground arith) h)
          (ap some (
            overwrite_lem buf (slice buf (offset + m) size) m
              (omega (arith, length-slice buf (offset + m) size h))
            ∙ ap (λ k. take m buf ++ (slice buf (offset + m) size ++ drop (m + k) buf))
                (length-slice buf (offset + m) size h)))
  ]

  -- For an offset other than 0, and a source range inside the buffer, `move_left` ends, each of its
  -- copies is between ranges that do not overlap, and it leaves the `size` elements from `offset`
  -- on at the start of the buffer and the elements behind them as they were: what `memmove` does.
  pub move_left_lem :
      (buf : List A) (offset size : ℕ)
      → 0 < offset
      → offset + size ≤ length buf
      → move_left buf offset size ≡ some (slice buf offset size ++ drop size buf)
  unfolding move_left
  move_left_lem buf offset size pos h =
      move_loop_lem (size + 1) buf offset size 0 pos (omega arith) (omega arith)
      ∙ ap some
          (ap₂ ◌++◌ (ap (λ k. slice buf k size) (omega arith)) (ap (λ k. drop k buf) (omega arith)))
