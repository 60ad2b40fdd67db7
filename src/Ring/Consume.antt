-- ===== src/Ring/Consume.antt =====
-- One call of `rs_consume_ring_msg`, at an unread cell and where there is none.
use mathlib.Core.Option.{none-ne-some}
use ring_socket.Prelude.{
  ℕ, ◌≡◌, ◌≢◌, refl, sym, ◌∙◌, true, false, none, some, List, arith, length, ◌==◌,
}
use ring_socket.Ring.{Mem, consume_ring_msg, msg_at}
use ring_socket.Ring.Cells.{Cell, direct, routed, msg_of, head_of, next_of, MsgAt, CellAt}

MsgAt-msg_at : (mem : Mem) (a : ℕ) (xs : List ℕ) → MsgAt mem a xs → msg_at mem a ≡ xs
unfolding msg_at
MsgAt-msg_at mem a xs m = rw (m.size) (m.body)

-- Where a cell begins that is not yet consumed, and `w` is not there, the consumer finds the cell's
-- message, and goes on behind it.
pub consume_lem :
    (mem : Mem) (w r : ℕ) (c : Cell)
    → CellAt mem r c
    → r ≢ w
    → (consume_ring_msg mem w r ≡ some (head_of r c, next_of r c))
      × (msg_at mem (head_of r c) ≡ msg_of c)
unfolding consume_ring_msg
consume_lem mem w r (direct xs) m ne =
    let pos = m.pos in
    let more : (r == w) ≡ false = ground arith in
    let no_route : (length xs == 0) ≡ false = ground arith in
    (rw (more, m.size) (rw no_route refl), MsgAt-msg_at mem r xs m)
consume_lem mem w r (routed t xs) m ne =
    let more : (r == w) ≡ false = ground arith in
    (rw (more, m.0.zero_size, m.0.target, m.1.size) refl, MsgAt-msg_at mem t xs m.1)

-- Nothing is consumed where the consumer has caught up.
pub consume_at_end : (mem : Mem) (w r : ℕ) → r ≡ w → consume_ring_msg mem w r ≡ none
unfolding consume_ring_msg
consume_at_end mem w r e = let same : (r == w) ≡ true = ground arith in rw same refl

pub consume_at_w : (mem : Mem) (w r : ℕ) (y : ℕ × ℕ) → r ≡ w → consume_ring_msg mem w r ≡ some y → ⊥
consume_at_w mem w r y e h = none-ne-some y (sym (consume_at_end mem w r e) ∙ h)
