-- ===== src/Ring/Cells.antt =====
-- What a stretch of ring memory holds: messages one behind the other, some reached by a route.
use ring_socket.Prelude.{
  ℕ, ◌+◌, ◌≤◌, ◌<◌, ◌≡◌, ◌≢◌, ◌⊎◌, refl, sym, ◌∙◌, List, [], ◌∷◌, ◌++◌, arith, length,
}
use ring_socket.Ring.{Mem, load_bytes, load64}
use ring_socket.Ring.Memory.{Agree, load_bytes-Agree, load64-Agree}

-- A message where the one before ends, or behind a route instruction to another address.
pub data Cell : Type 0 where
  direct : List ℕ → Cell
  routed : ℕ → List ℕ → Cell

abbrev pub msg_of : Cell → List ℕ
msg_of (direct xs) = xs
msg_of (routed t xs) = xs

-- Where the message's size stands, if the cell begins at `a`.
abbrev pub head_of : ℕ → Cell → ℕ
head_of a (direct xs) = a
head_of a (routed t xs) = t

abbrev pub next_of : ℕ → Cell → ℕ
next_of a c = head_of a c + 8 + length (msg_of c)

abbrev pub end_of : ℕ → List Cell → ℕ
end_of a [] = a
end_of a (c ∷ cs) = end_of (next_of a c) cs

-- A message of at least one byte behind its size.
pub record MsgAt (mem : Mem) (a : ℕ) (xs : List ℕ) : Type 0 where
  pub pos : 0 < length xs
  pub size : load64 mem a ≡ length xs
  pub body : load_bytes mem (a + 8) (length xs) ≡ xs

pub record RouteAt (mem : Mem) (a t : ℕ) : Type 0 where
  pub zero_size : load64 mem a ≡ 0
  pub target : load64 mem (a + 8) ≡ t

abbrev pub CellAt : Mem → ℕ → Cell → Type 0
CellAt mem a (direct xs) = MsgAt mem a xs
CellAt mem a (routed t xs) = RouteAt mem a t × MsgAt mem t xs

abbrev pub Good : Mem → ℕ → List Cell → Type 0
Good mem a [] = Unit {0}
Good mem a (c ∷ cs) = CellAt mem a c × Good mem (next_of a c) cs

-- The bytes from `a` up to `b` lie outside of those from `lo` up to `hi`.
abbrev pub Out : ℕ → ℕ → ℕ → ℕ → Type 0
Out lo hi a b = (b ≤ lo) ⊎ (hi ≤ a)

abbrev pub CellOut : ℕ → ℕ → ℕ → Cell → Type 0
CellOut lo hi a (direct xs) = Out lo hi a (a + 8 + length xs)
CellOut lo hi a (routed t xs) = Out lo hi a (a + 16) × Out lo hi t (t + 8 + length xs)

abbrev pub Apart : ℕ → ℕ → ℕ → List Cell → Type 0
Apart lo hi a [] = Unit {0}
Apart lo hi a (c ∷ cs) = CellOut lo hi a c × Apart lo hi (next_of a c) cs

MsgAt-Agree :
    (lo hi a : ℕ) (xs : List ℕ) {mem mem' : Mem}
    → Agree lo hi mem mem'
    → Out lo hi a (a + 8 + length xs)
    → MsgAt mem a xs
    → MsgAt mem' a xs
MsgAt-Agree lo hi a xs {mem} {mem'} g o m = record {
  pos = m.pos;
  size = load64-Agree mem mem' lo hi a g (omega arith) ∙ m.size;
  body = load_bytes-Agree mem mem' lo hi (a + 8) (length xs) g (omega arith) ∙ m.body;
}

RouteAt-Agree :
    (lo hi a t : ℕ) {mem mem' : Mem}
    → Agree lo hi mem mem'
    → Out lo hi a (a + 16)
    → RouteAt mem a t
    → RouteAt mem' a t
RouteAt-Agree lo hi a t {mem} {mem'} g o m = record {
  zero_size = load64-Agree mem mem' lo hi a g (omega arith) ∙ m.zero_size;
  target = load64-Agree mem mem' lo hi (a + 8) g (omega arith) ∙ m.target;
}

CellAt-Agree :
    (lo hi a : ℕ) (c : Cell) {mem mem' : Mem}
    → Agree lo hi mem mem'
    → CellOut lo hi a c
    → CellAt mem a c
    → CellAt mem' a c
CellAt-Agree lo hi a (direct xs) g o m = MsgAt-Agree lo hi a xs g o m
CellAt-Agree lo hi a (routed t xs) g o m =
    (RouteAt-Agree lo hi a t g o.0 m.0, MsgAt-Agree lo hi t xs g o.1 m.1)

-- A write that is apart from the cells leaves them as they are.
pub Good-Agree :
    (lo hi a : ℕ) (cs : List Cell) {mem mem' : Mem}
    → Agree lo hi mem mem'
    → Apart lo hi a cs
    → Good mem a cs
    → Good mem' a cs
Good-Agree lo hi a [] g o m = tt
Good-Agree lo hi a (c ∷ cs) g o m =
    (CellAt-Agree lo hi a c g o.0 m.0, Good-Agree lo hi (next_of a c) cs g o.1 m.1)

pub end_of-append : (a : ℕ) (cs ds : List Cell) → end_of a (cs ++ ds) ≡ end_of (end_of a cs) ds
end_of-append a [] ds = refl
end_of-append a (c ∷ cs) ds = end_of-append (next_of a c) cs ds

pub Good-append :
    (mem : Mem) (a : ℕ) (cs ds : List Cell)
    → Good mem a cs
    → Good mem (end_of a cs) ds
    → Good mem a (cs ++ ds)
Good-append mem a [] ds g h = h
Good-append mem a (c ∷ cs) ds g h = (g.0, Good-append mem (next_of a c) cs ds g.1 h)

pub Apart-append :
    (lo hi a : ℕ) (cs ds : List Cell)
    → Apart lo hi a cs
    → Apart lo hi (end_of a cs) ds
    → Apart lo hi a (cs ++ ds)
Apart-append lo hi a [] ds g h = h
Apart-append lo hi a (c ∷ cs) ds g h = (g.0, Apart-append lo hi (next_of a c) cs ds g.1 h)

-- No cell of a run is reached by a route.
abbrev pub Run : List Cell → Type 0
Run [] = Unit {0}
Run (direct xs ∷ cs) = Run cs
Run (routed t xs ∷ cs) = ⊥

pub le-end_of : (a : ℕ) (cs : List Cell) → Run cs → a ≤ end_of a cs
le-end_of a [] h = omega arith
le-end_of a (direct xs ∷ cs) h = omega (arith, le-end_of (a + 8 + length xs) cs h)
le-end_of a (routed t xs ∷ cs) h = absurd h

-- A run fills the addresses from its start to its end.
pub Run-Apart :
    (lo hi a : ℕ) (cs : List Cell) → Run cs → Out lo hi a (end_of a cs) → Apart lo hi a cs
Run-Apart lo hi a [] h o = tt
Run-Apart lo hi a (direct xs ∷ cs) h o = (
  omega (arith, le-end_of (a + 8 + length xs) cs h),
  Run-Apart lo hi (a + 8 + length xs) cs h (omega arith),
)
Run-Apart lo hi a (routed t xs ∷ cs) h o = absurd h

pub Run-append : (cs : List Cell) (xs : List ℕ) → Run cs → Run (cs ++ direct xs ∷ [])
Run-append [] xs h = tt
Run-append (direct ys ∷ cs) xs h = Run-append cs xs h
Run-append (routed t ys ∷ cs) xs h = absurd h

-- No cell begins or ends at `x`.
abbrev pub NotAt : ℕ → ℕ → List Cell → Type 0
NotAt x a [] = x ≢ a
NotAt x a (c ∷ cs) = (x ≢ a) × NotAt x (next_of a c) cs

-- No two of the places where a cell begins or ends are the same.
abbrev pub Distinct : ℕ → List Cell → Type 0
Distinct a [] = Unit {0}
Distinct a (c ∷ cs) = NotAt a (next_of a c) cs × Distinct (next_of a c) cs

pub NotAt-append :
    (x a : ℕ) (cs ds : List Cell) → NotAt x a cs → NotAt x (end_of a cs) ds → NotAt x a (cs ++ ds)
NotAt-append x a [] ds g h = h
NotAt-append x a (c ∷ cs) ds g h = (g.0, NotAt-append x (next_of a c) cs ds g.1 h)

pub NotAt-last : (x a : ℕ) (cs : List Cell) → NotAt x a cs → x ≢ end_of a cs
NotAt-last x a [] g = g
NotAt-last x a (c ∷ cs) g = NotAt-last x (next_of a c) cs g.1

pub Run-NotAt : (x a : ℕ) (cs : List Cell) → Run cs → (x < a) ⊎ (end_of a cs < x) → NotAt x a cs
Run-NotAt x a [] h o = omega arith
Run-NotAt x a (direct xs ∷ cs) h o =
    let le = le-end_of (a + 8 + length xs) cs h in
    ((λ e. omega arith), Run-NotAt x (a + 8 + length xs) cs h (omega arith))
Run-NotAt x a (routed t xs ∷ cs) h o = absurd h

pub Apart-NotAt :
    (x lo hi a : ℕ) (cs : List Cell)
    → lo ≤ x
    → x < hi
    → Apart lo hi a cs
    → Out lo hi (end_of a cs) (end_of a cs + 16)
    → NotAt x a cs
Apart-NotAt x lo hi a [] h h' g o = omega arith
Apart-NotAt x lo hi a (direct xs ∷ cs) h h' g o =
    ((λ e. omega arith), Apart-NotAt x lo hi (a + 8 + length xs) cs h h' g.1 o)
Apart-NotAt x lo hi a (routed t xs ∷ cs) h h' g o =
    ((λ e. omega arith), Apart-NotAt x lo hi (t + 8 + length xs) cs h h' g.1 o)

-- A cell with a new end joins.
pub Distinct-append :
    (a : ℕ) (cs : List Cell) (c : Cell)
    → Distinct a cs
    → NotAt (next_of (end_of a cs) c) a cs
    → Distinct a (cs ++ c ∷ [])
Distinct-append a [] c d n = ((λ e. n (sym e)), tt)
Distinct-append a (b ∷ cs) c d n = (
  NotAt-append a (next_of a b) cs (c ∷ []) d.0
      (NotAt-last a (next_of a b) cs d.0, (λ e. n.0 (sym e))),
  Distinct-append (next_of a b) cs c d.1 n.1,
)
