-- ===== src/Ring/Memory.antt =====
-- Reads and writes of memory.
use mathlib.Core.Path.{ap₂}
use native.Mathlib.Nat.{mod-eq_of_lt}
use ring_socket.Prelude.{
  ℕ, zero, suc, ◌+◌, ◌^◌, ◌≤◌, ◌<◌, ◌≡◌, ◌⊎◌, inl, refl, sym, ap, ◌∙◌, List, [], ◌∷◌, arith,
  if◌then◌else◌, ◌==◌, length,
}
use ring_socket.Ring.{Mem, store_bytes, load_bytes, store64, load64, zero_fill}
use ring_socket.Wire.Bytes.{le_bytes, of_le, length-le_bytes, of_le-le_bytes}

-- The memories agree outside of the addresses from `lo` up to `hi`.
abbrev pub Agree : ℕ → ℕ → Mem → Mem → Type 0
Agree lo hi mem mem' = (x : ℕ) → (x < lo) ⊎ (hi ≤ x) → mem' x ≡ mem x

pub Agree-store_bytes :
    (mem : Mem) (a : ℕ) (bs : List ℕ) → Agree a (a + length bs) mem (store_bytes mem a bs)
unfolding store_bytes
Agree-store_bytes mem a [] x h = refl
Agree-store_bytes mem a (b ∷ bs) x h =
    Agree-store_bytes (λ y. if y == a then b else mem y) (a + 1) bs x (omega arith) ∙ ground arith

pub load-store_bytes :
    (mem : Mem) (a : ℕ) (bs : List ℕ) → load_bytes (store_bytes mem a bs) a (length bs) ≡ bs
unfolding store_bytes load_bytes
load-store_bytes mem a [] = refl
load-store_bytes mem a (b ∷ bs) =
    ap₂ ◌∷◌
      (Agree-store_bytes (λ y. if y == a then b else mem y) (a + 1) bs a (inl (omega arith))
        ∙ ground arith)
      (load-store_bytes (λ y. if y == a then b else mem y) (a + 1) bs)

-- A read of addresses on which the memories agree.
pub load_bytes-Agree :
    (mem mem' : Mem) (lo hi a n : ℕ)
    → Agree lo hi mem mem'
    → (a + n ≤ lo) ⊎ (hi ≤ a)
    → load_bytes mem' a n ≡ load_bytes mem a n
unfolding load_bytes
load_bytes-Agree mem mem' lo hi a zero g h = refl
load_bytes-Agree mem mem' lo hi a (suc n) g h =
    ap₂ ◌∷◌ (g a (omega arith)) (load_bytes-Agree mem mem' lo hi (a + 1) n g (omega arith))

pub load64-Agree :
    (mem mem' : Mem) (lo hi a : ℕ)
    → Agree lo hi mem mem'
    → (a + 8 ≤ lo) ⊎ (hi ≤ a)
    → load64 mem' a ≡ load64 mem a
unfolding load64
load64-Agree mem mem' lo hi a g h = ap of_le (load_bytes-Agree mem mem' lo hi a 8 g h)

pub load-store64 : (mem : Mem) (a v : ℕ) → v < 2 ^ 64 → load64 (store64 mem a v) a ≡ v
unfolding load64 store64
load-store64 mem a v h =
    ap (λ n. of_le (load_bytes (store_bytes mem a (le_bytes 8 v)) a n)) (sym (length-le_bytes 8 v))
    ∙ ap of_le (load-store_bytes mem a (le_bytes 8 v))
    ∙ of_le-le_bytes 8 v
    ∙ mod-eq_of_lt h

pub Agree-store64 : (mem : Mem) (a v : ℕ) → Agree a (a + 8) mem (store64 mem a v)
unfolding store64
Agree-store64 mem a v x h =
    Agree-store_bytes mem a (le_bytes 8 v) x (omega (arith, length-le_bytes 8 v))

pub Agree-zero_fill : (mem : Mem) (a n : ℕ) → Agree a (a + n) mem (zero_fill mem a n)
unfolding zero_fill
Agree-zero_fill mem a n x h = ground arith

-- Two writes in a row, in a wider range.
pub Agree-trans :
    (lo hi lo' hi' : ℕ) {m m' m'' : Mem}
    → Agree lo hi m m'
    → Agree lo' hi' m' m''
    → (l h : ℕ) → l ≤ lo
    → l ≤ lo'
    → hi ≤ h
    → hi' ≤ h
    → Agree l h m m''
Agree-trans lo hi lo' hi' g g' l h a b c d x out = g' x (omega arith) ∙ g x (omega arith)
