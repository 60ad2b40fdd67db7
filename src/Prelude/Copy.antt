-- ===== src/Prelude/Copy.antt =====
-- Buffers: a buffer is a list, a pointer into it is an index, and `memcpy` writes a list into it.
use Prim.Native.Nat.{ℕ, zero, suc, ◌+◌, ◌≤◌}
use mathlib.Core.Path.{◌≡◌, refl, ap, sym, ◌∙◌}
use mathlib.Core.List.{List, [], ◌∷◌, ◌++◌}
use native.Mathlib.Nat.{suc-add, zero-add}
use native.Mathlib.Omega.{arith}
use ring_socket.Prelude.Lists.{length, take, drop, take-append-drop, length-take, length-drop}

module _ {ℓ} {A : Type ℓ} where
  -- The buffer with `src` written from index `i` on; what would fall behind its end is dropped.
  abbrev pub overwrite : ℕ → List A → List A → List A
  overwrite zero [] buf = buf
  overwrite zero (x ∷ xs) [] = []
  overwrite zero (x ∷ xs) (b ∷ bs) = x ∷ overwrite zero xs bs
  overwrite (suc i) src [] = []
  overwrite (suc i) src (b ∷ bs) = b ∷ overwrite i src bs

  -- The `n` elements from index `i` on.
  abbrev pub slice : List A → ℕ → ℕ → List A
  slice buf i n = take n (drop i buf)

  pub length-overwrite : (i : ℕ) (src buf : List A) → length (overwrite i src buf) ≡ length buf
  length-overwrite zero [] buf = refl
  length-overwrite zero (x ∷ xs) [] = refl
  length-overwrite zero (x ∷ xs) (b ∷ bs) = ap suc (length-overwrite zero xs bs)
  length-overwrite (suc i) src [] = refl
  length-overwrite (suc i) src (b ∷ bs) = ap suc (length-overwrite i src bs)

  -- Writing over a part of the same length.
  pub overwrite-append :
      (xs src old ys : List A) (i : ℕ)
      → i ≡ length xs
      → length src ≡ length old
      → overwrite i src (xs ++ (old ++ ys)) ≡ xs ++ (src ++ ys)
  overwrite-append [] [] [] ys zero h e = refl
  overwrite-append [] [] (o ∷ os) ys zero h e = absurd (omega arith)
  overwrite-append [] (s ∷ ss) [] ys zero h e = absurd (omega arith)
  overwrite-append [] (s ∷ ss) (o ∷ os) ys zero h e =
      ap (◌∷◌ s) (overwrite-append [] ss os ys zero refl (omega arith))
  overwrite-append [] src old ys (suc i) h e = absurd (omega arith)
  overwrite-append (x ∷ xs) src old ys zero h e = absurd (omega arith)
  overwrite-append (x ∷ xs) src old ys (suc i) h e =
      ap (◌∷◌ x) (overwrite-append xs src old ys i (omega arith) e)

  -- A buffer falls into the part before `i`, the `n` elements from there, and the rest.
  pub split_at :
      (buf : List A) (i n : ℕ)
      → i + n ≤ length buf
      → (xs old ys : List A) × (buf ≡ xs ++ (old ++ ys)) × (length xs ≡ i) × (length old ≡ n)
  split_at buf i n h = (
    take i buf,
    take n (drop i buf),
    drop n (drop i buf),
    sym (ap (λ t. take i buf ++ t) (take-append-drop n (drop i buf)) ∙ take-append-drop i buf),
    omega (arith, length-take i buf),
    omega (arith, length-take n (drop i buf), length-drop i buf),
  )

  -- What `memcpy` leaves: the part before, the source, the part behind.
  pub overwrite_lem :
      (buf src : List A) (i : ℕ)
      → i + length src ≤ length buf
      → overwrite i src buf ≡ take i buf ++ (src ++ drop (i + length src) buf)
  overwrite_lem [] [] zero h = refl
  overwrite_lem (b ∷ bs) [] zero h = refl
  overwrite_lem [] (s ∷ ss) zero h = absurd (omega arith)
  overwrite_lem (b ∷ bs) (s ∷ ss) zero h =
      rw zero-add (ap (◌∷◌ s) (rw zero-add at (overwrite_lem bs ss zero (omega arith))))
  overwrite_lem [] src (suc i) h = absurd (omega arith)
  overwrite_lem (b ∷ bs) src (suc i) h =
      rw suc-add (ap (◌∷◌ b) (overwrite_lem bs src i (omega arith)))

  -- Two writes, the second right behind the first.
  pub overwrite_two :
      (a b buf : List A) (n : ℕ)
      → n ≡ length a
      → length a + length b ≤ length buf
      → overwrite n b (overwrite zero a buf) ≡ a ++ (b ++ drop (length a + length b) buf)
  overwrite_two [] b buf zero e h = overwrite_lem buf b zero h
  overwrite_two [] b buf (suc n) e h = absurd (omega arith)
  overwrite_two (x ∷ a) b [] n e h = absurd (omega arith)
  overwrite_two (x ∷ a) b (y ∷ buf) zero e h = absurd (omega arith)
  overwrite_two (x ∷ a) b (y ∷ buf) (suc n) e h =
      rw suc-add (ap (◌∷◌ x) (overwrite_two a b buf n (omega arith) (omega arith)))

  pub drop-add : (xs : List A) (a b : ℕ) → drop (a + b) xs ≡ drop b (drop a xs)
  drop-add xs zero b = ap (λ k. drop k xs) (omega arith)
  drop-add [] (suc a) zero = rw suc-add
  drop-add [] (suc a) (suc b) = rw suc-add
  drop-add (x ∷ xs) (suc a) b = rw suc-add (drop-add xs a b)

  pub take-add : (xs : List A) (a b : ℕ) → take (a + b) xs ≡ take a xs ++ take b (drop a xs)
  take-add xs zero b = ap (λ k. take k xs) (omega arith)
  take-add [] (suc a) zero = rw suc-add
  take-add [] (suc a) (suc b) = rw suc-add
  take-add (x ∷ xs) (suc a) b = rw suc-add (ap (◌∷◌ x) (take-add xs a b))

  -- What lies behind the bytes written stays.
  pub drop-overwrite :
      (src buf : List A) (i k : ℕ) → i + length src ≤ k → drop k (overwrite i src buf) ≡ drop k buf
  drop-overwrite [] buf zero k h = refl
  drop-overwrite (s ∷ ss) [] zero k h = refl
  drop-overwrite (s ∷ ss) (b ∷ bs) zero zero h = absurd (omega arith)
  drop-overwrite (s ∷ ss) (b ∷ bs) zero (suc k) h = drop-overwrite ss bs zero k (omega arith)
  drop-overwrite src [] (suc i) k h = refl
  drop-overwrite src (b ∷ bs) (suc i) zero h = absurd (omega arith)
  drop-overwrite src (b ∷ bs) (suc i) (suc k) h = drop-overwrite src bs i k (omega arith)

  -- What lies in front of them stays too.
  pub take-overwrite :
      (src buf : List A) (i k : ℕ)
      → i + length src ≡ k
      → k ≤ length buf
      → take k (overwrite i src buf) ≡ take i buf ++ src
  take-overwrite [] buf zero zero e h = refl
  take-overwrite [] buf zero (suc k) e h = absurd (omega arith)
  take-overwrite (s ∷ ss) buf zero zero e h = absurd (omega arith)
  take-overwrite (s ∷ ss) [] zero (suc k) e h = absurd (omega arith)
  take-overwrite (s ∷ ss) (b ∷ bs) zero (suc k) e h =
      ap (◌∷◌ s) (take-overwrite ss bs zero k (omega arith) (omega arith))
  take-overwrite src buf (suc i) zero e h = absurd (omega arith)
  take-overwrite src [] (suc i) (suc k) e h = absurd (omega arith)
  take-overwrite src (b ∷ bs) (suc i) (suc k) e h =
      ap (◌∷◌ b) (take-overwrite src bs i k (omega arith) (omega arith))
