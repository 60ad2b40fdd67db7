-- ===== src/Ring/Layout.antt =====
-- Where the unread cells of a ring lie, and what that leaves free.
use mathlib.Core.Path.{subst}
use ring_socket.Prelude.{
  ℕ, ◌+◌, ◌≤◌, ◌<◌, ◌≡◌, ◌⊎◌, sym, ap, ◌∙◌, List, [], ◌∷◌, ◌++◌, arith, length, append_assoc,
}
use ring_socket.Ring.{Producer, over}
use ring_socket.Ring.Cells.{
  Cell, direct, routed, next_of, end_of, Out, Apart, Run, Run-append, le-end_of, Run-Apart,
  end_of-append, Apart-append, Distinct, NotAt, NotAt-append, Run-NotAt, Apart-NotAt,
}

-- The cells from the consumer's position `r` on are one run in the current ring; or a run, then a
-- route to the ring's start and a run from there up to before `r`; or cells that are apart from the
-- current ring, then a route to its start and a run from there.
pub data Layout (ring w lim r : ℕ) (cells : List Cell) : Type 0 where
  straight : Run cells → ring ≤ r → w + 16 ≤ lim → Layout ring w lim r cells
  wrapped :
      (front : List Cell) (xs : List ℕ) (back : List Cell)
      → cells ≡ front ++ (routed ring xs ∷ back)
      → Run front
      → Run back
      → ring ≤ r
      → end_of r front + 16 ≤ lim
      → w + 16 ≤ r
      → Layout ring w lim r cells
  crossed :
      (front : List Cell) (xs : List ℕ) (back : List Cell)
      → cells ≡ front ++ (routed ring xs ∷ back)
      → Apart ring lim r front
      → Out ring lim (end_of r front) (end_of r front + 16)
      → Run back
      → w + 16 ≤ lim
      → Layout ring w lim r cells

-- A ring with its unread cells, which end where the producer writes next.
pub record IsValid (p : Producer) (r : ℕ) (cells : List Cell) : Type 0 where
  pub layout : Layout p.ring p.w (over p) r cells
  pub ends : end_of r cells ≡ p.w
  pub distinct : Distinct r cells

-- In the two forms with a route the run behind the route ends at `w`.
pub back_end :
    (r : ℕ) (cells front : List Cell) (t w : ℕ) (xs : List ℕ) (back : List Cell)
    → cells ≡ front ++ (routed t xs ∷ back)
    → end_of r cells ≡ w
    → end_of (t + 8 + length xs) back ≡ w
back_end r cells front t w xs back e h =
    sym (end_of-append r front (routed t xs ∷ back)) ∙ ap (end_of r) (sym e) ∙ h

-- The position of cells that are apart from a range, and that end apart from it, is not in it.
pub first-Out :
    (lo hi a : ℕ) (cs : List Cell)
    → Apart lo hi a cs
    → Out lo hi (end_of a cs) (end_of a cs + 16)
    → (a < lo) ⊎ (hi ≤ a)
first-Out lo hi a [] h o = omega arith
first-Out lo hi a (direct xs ∷ cs) h o = omega arith
first-Out lo hi a (routed t xs ∷ cs) h o = omega arith

Layout-next :
    (ring w lim r : ℕ) (c : Cell) (cells : List Cell)
    → end_of (next_of r c) cells ≡ w
    → Layout ring w lim r (c ∷ cells)
    → Layout ring w lim (next_of r c) cells
Layout-next ring w lim r (direct ys) cells e (straight run low high) =
    straight run (omega arith) high
Layout-next ring w lim r (routed t ys) cells e (straight run low high) = absurd run
Layout-next ring w lim r c cells e (wrapped [] xs back q f_run b_run low route_in high) =
    let q' : c ≡ routed ring xs = cc in
    let q'' : cells ≡ back = cc in
    straight (subst Run (sym q'') b_run) (rw q' (omega arith)) (omega arith)
Layout-next ring w lim r c cells e
      (wrapped (direct ys ∷ front) xs back q f_run b_run low route_in high) =
    let q' : direct ys ≡ c = cc in
    let q'' : cells ≡ front ++ (routed ring xs ∷ back) = cc in
    subst (λ d. Layout ring w lim (next_of r d) cells) q'
      (wrapped front xs back q'' f_run b_run (omega arith) route_in (omega arith))
Layout-next ring w lim r c cells e
      (wrapped (routed t ys ∷ front) xs back q f_run b_run low route_in high) =
    absurd f_run
Layout-next ring w lim r c cells e (crossed [] xs back q apart out b_run high) =
    let q' : c ≡ routed ring xs = cc in
    let q'' : cells ≡ back = cc in straight (subst Run (sym q'') b_run) (rw q' (omega arith)) high
Layout-next ring w lim r c cells e (crossed (f ∷ front) xs back q apart out b_run high) =
    let q' : f ≡ c = cc in
    let q'' : cells ≡ front ++ (routed ring xs ∷ back) = cc in
    subst (λ d. Layout ring w lim (next_of r d) cells) q'
      (crossed front xs back q'' apart.1 out b_run high)

-- Reading a cell, as the consumer goes on, keeps the layout of the cells behind it.
pub IsValid-next :
    (p : Producer) (r : ℕ) (c : Cell) (cells : List Cell)
    → IsValid p r (c ∷ cells)
    → IsValid p (next_of r c) cells
IsValid-next p r c cells v = record {
  layout = Layout-next p.ring p.w (over p) r c cells v.ends v.layout;
  ends = v.ends;
  distinct = v.distinct.1;
}

module _ (ring w lim r : ℕ) where
  -- `n` bytes from `w` on are free.
  abbrev pub Room : ℕ → (cells : List Cell) → Layout ring w lim r cells → Type 0
  Room n cells (straight run low high) = w + n ≤ lim
  Room n cells (wrapped front xs back q f_run b_run low route_in high) = w + n ≤ r
  Room n cells (crossed front xs back q apart out b_run high) = w + n ≤ lim

pub Apart-narrow :
    (lo hi lo' hi' a : ℕ) (cs : List Cell)
    → lo ≤ lo'
    → hi' ≤ hi
    → Apart lo hi a cs
    → Apart lo' hi' a cs
Apart-narrow lo hi lo' hi' a [] h h' g = tt
Apart-narrow lo hi lo' hi' a (direct xs ∷ cs) h h' g =
    (omega arith, Apart-narrow lo hi lo' hi' (a + 8 + length xs) cs h h' g.1)
Apart-narrow lo hi lo' hi' a (routed t xs ∷ cs) h h' g =
    ((omega arith, omega arith), Apart-narrow lo hi lo' hi' (t + 8 + length xs) cs h h' g.1)

-- The free bytes at `w` are apart from the unread cells.
pub Apart-at_w :
    (ring w lim r n : ℕ) (cells : List Cell) (l : Layout ring w lim r cells)
    → end_of r cells ≡ w
    → Room ring w lim r n cells l
    → Apart w (w + n) r cells
Apart-at_w ring w lim r n cells (straight run low high) e room =
    Run-Apart w (w + n) r cells run (omega arith)
Apart-at_w ring w lim r n cells (wrapped front xs back q f_run b_run low route_in high) e room =
    let b_end : end_of (ring + 8 + length xs) back ≡ w =
      back_end r cells front ring w xs back q e in
    let b_le = le-end_of (ring + 8 + length xs) back b_run in
    let f_le = le-end_of r front f_run in
    subst (Apart w (w + n) r) (sym q) (
      Apart-append w (w + n) r front (routed ring xs ∷ back)
        (Run-Apart w (w + n) r front f_run (omega arith))
        (
          (omega arith, omega arith),
          Run-Apart w (w + n) (ring + 8 + length xs) back b_run (omega arith),
        ))
Apart-at_w ring w lim r n cells (crossed front xs back q apart out b_run high) e room =
    let b_end : end_of (ring + 8 + length xs) back ≡ w =
      back_end r cells front ring w xs back q e in
    let b_le = le-end_of (ring + 8 + length xs) back b_run in
    subst (Apart w (w + n) r) (sym q) (
      Apart-append w (w + n) r front (routed ring xs ∷ back)
        (Apart-narrow ring lim w (w + n) r front (omega arith) room apart)
        (
          (omega arith, omega arith),
          Run-Apart w (w + n) (ring + 8 + length xs) back b_run (omega arith),
        ))

-- A direct message joins the cells.
pub Layout-direct :
    (ring w lim r : ℕ) (xs : List ℕ) (cells : List Cell) (l : Layout ring w lim r cells)
    → Room ring w lim r (8 + length xs + 16) cells l
    → Layout ring (w + 8 + length xs) lim r (cells ++ direct xs ∷ [])
Layout-direct ring w lim r xs cells (straight run low high) room =
    straight (Run-append cells xs run) low (omega arith)
Layout-direct ring w lim r xs cells (wrapped front ys back q f_run b_run low route_in high) room =
    wrapped front ys (back ++ direct xs ∷ [])
      (ap (λ t. t ++ direct xs ∷ []) q
        ∙ append_assoc front (routed ring ys ∷ back) (direct xs ∷ []))
      f_run (Run-append back xs b_run) low route_in (omega arith)
Layout-direct ring w lim r xs cells (crossed front ys back q apart out b_run high) room =
    crossed front ys (back ++ direct xs ∷ [])
      (ap (λ t. t ++ direct xs ∷ []) q
        ∙ append_assoc front (routed ring ys ∷ back) (direct xs ∷ []))
      apart out (Run-append back xs b_run) (omega arith)

-- With the consumer on the current ring, the unread cells lie in it: what is apart from the ring is
-- apart from them.
pub Apart-near :
    (ring w lim r lo hi : ℕ) (cells : List Cell)
    → Layout ring w lim r cells
    → end_of r cells ≡ w
    → ring ≤ r
    → r < lim
    → Out lo hi ring lim
    → Apart lo hi r cells
Apart-near ring w lim r lo hi cells (straight run low high) e h h' o =
    Run-Apart lo hi r cells run (omega arith)
Apart-near ring w lim r lo hi cells (wrapped front xs back q f_run b_run low route_in high) e h h'
      o =
    let b_end : end_of (ring + 8 + length xs) back ≡ w =
      back_end r cells front ring w xs back q e in
    let b_le = le-end_of (ring + 8 + length xs) back b_run in
    let f_le = le-end_of r front f_run in
    subst (Apart lo hi r) (sym q) (
      Apart-append lo hi r front (routed ring xs ∷ back)
        (Run-Apart lo hi r front f_run (omega arith))
        (
          (omega arith, omega arith),
          Run-Apart lo hi (ring + 8 + length xs) back b_run (omega arith),
        ))
Apart-near ring w lim r lo hi cells (crossed front xs back q apart out b_run high) e h h' o =
    absurd (omega (arith, first-Out ring lim r front apart out))

-- The producer writes inside of its ring, where a route instruction has room.
pub w_inside :
    (ring w lim r : ℕ) (cells : List Cell)
    → Layout ring w lim r cells
    → end_of r cells ≡ w
    → (ring ≤ w) × (w + 16 ≤ lim)
w_inside ring w lim r cells (straight run low high) e = omega (arith, le-end_of r cells run)
w_inside ring w lim r cells (wrapped front xs back q f_run b_run low route_in high) e = omega (
  arith,
  back_end r cells front ring w xs back q e,
  le-end_of (ring + 8 + length xs) back b_run,
  le-end_of r front f_run,
)
w_inside ring w lim r cells (crossed front xs back q apart out b_run high) e =
    omega (
      arith,
      back_end r cells front ring w xs back q e,
      le-end_of (ring + 8 + length xs) back b_run,
    )

-- What the tests of `rs_produce_ring_msg` find out: with `r` on the ring and `w` before it, up to
-- `r` is free; with `w` behind it, the cells are one run and up to the end is free; with `r` not on
-- the ring, up to the end is free.
pub Room-before :
    (ring w lim r n : ℕ) (cells : List Cell) (l : Layout ring w lim r cells)
    → end_of r cells ≡ w
    → ring ≤ r
    → r < lim
    → w < r
    → w + n ≤ r
    → Room ring w lim r n cells l
Room-before ring w lim r n cells (straight run low high) e h h' lt fit =
    absurd (omega (arith, le-end_of r cells run))
Room-before ring w lim r n cells (wrapped front xs back q f_run b_run low route_in high) e h h' lt
      fit =
    fit
Room-before ring w lim r n cells (crossed front xs back q apart out b_run high) e h h' lt fit =
    absurd (omega (arith, first-Out ring lim r front apart out))

pub Room-behind :
    (ring w lim r n : ℕ) (cells : List Cell) (l : Layout ring w lim r cells)
    → end_of r cells ≡ w
    → ring ≤ r
    → r < lim
    → r ≤ w
    → Run cells × (w + n ≤ lim → Room ring w lim r n cells l)
Room-behind ring w lim r n cells (straight run low high) e h h' le = (run, λ fit. fit)
Room-behind ring w lim r n cells (wrapped front xs back q f_run b_run low route_in high) e h h' le =
    absurd (omega arith)
Room-behind ring w lim r n cells (crossed front xs back q apart out b_run high) e h h' le =
    absurd (omega (arith, first-Out ring lim r front apart out))

pub Room-far :
    (ring w lim r n : ℕ) (cells : List Cell) (l : Layout ring w lim r cells)
    → end_of r cells ≡ w
    → (r < ring) ⊎ (lim ≤ r)
    → w + n ≤ lim
    → Room ring w lim r n cells l
Room-far ring w lim r n cells (straight run low high) e far fit = fit
Room-far ring w lim r n cells (wrapped front xs back q f_run b_run low route_in high) e far fit =
    absurd (omega (arith, le-end_of r front f_run))
Room-far ring w lim r n cells (crossed front xs back q apart out b_run high) e far fit = fit

-- There is always room for a route instruction.
pub Room-route :
    (ring w lim r : ℕ) (cells : List Cell) (l : Layout ring w lim r cells)
    → Room ring w lim r 16 cells l
Room-route ring w lim r cells (straight run low high) = high
Room-route ring w lim r cells (wrapped front xs back q f_run b_run low route_in high) = high
Room-route ring w lim r cells (crossed front xs back q apart out b_run high) = high

-- The end of a direct message is none of the places where an unread cell begins or ends.
pub direct_end_new :
    (ring w lim r n : ℕ) (cells : List Cell) (l : Layout ring w lim r cells)
    → end_of r cells ≡ w
    → Room ring w lim r (8 + n + 16) cells l
    → NotAt (w + 8 + n) r cells
direct_end_new ring w lim r n cells (straight run low high) e room =
    Run-NotAt (w + 8 + n) r cells run (omega arith)
direct_end_new ring w lim r n cells (wrapped front xs back q f_run b_run low route_in high) e room =
    let b_end : end_of (ring + 8 + length xs) back ≡ w =
      back_end r cells front ring w xs back q e in
    let f_le = le-end_of r front f_run in
    subst (NotAt (w + 8 + n) r) (sym q) (
      NotAt-append (w + 8 + n) r front (routed ring xs ∷ back)
        (Run-NotAt (w + 8 + n) r front f_run (omega arith))
        ((λ x. omega arith), Run-NotAt (w + 8 + n) (ring + 8 + length xs) back b_run (omega arith)))
direct_end_new ring w lim r n cells (crossed front xs back q apart out b_run high) e room =
    let b_end : end_of (ring + 8 + length xs) back ≡ w =
      back_end r cells front ring w xs back q e in
    let b_le = le-end_of (ring + 8 + length xs) back b_run in
    subst (NotAt (w + 8 + n) r) (sym q) (
      NotAt-append (w + 8 + n) r front (routed ring xs ∷ back)
        (Apart-NotAt (w + 8 + n) ring lim r front (omega arith) (omega arith) apart out)
        ((λ x. omega arith), Run-NotAt (w + 8 + n) (ring + 8 + length xs) back b_run (omega arith)))
