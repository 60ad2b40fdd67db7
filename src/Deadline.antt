-- ===== src/Deadline.antt =====
-- rs_event.c: the deadline by which a peer that shuts down is to be gone. Times are in seconds.
pub mod Wraps
use ring_socket.Prelude.{
  ℕ, zero, suc, ◌+◌, ◌-◌, ◌%◌, Bool, true, false, not, ◌&&◌, ◌||◌, List, [], ◌∷◌, ◌==◌, ltb,
  if◌then◌else◌, take,
}
use ring_socket.Peer.{Peer}

-- `time_now` is `time(NULL)`.
unfoldable pub set_shutdown_deadline : ℕ → Peer → ℕ → Peer
set_shutdown_deadline time_now peer wait_interval = record peer {
  shutdown_deadline = (time_now + wait_interval) % 0xFFFF + 1;
}

-- The test of `enforce_shutdown_deadlines`.
unfoldable pub is_overdue : ℕ → Peer → Bool
is_overdue timestamp p =
    let t = timestamp % 0xFFFF + 1 in
    not (p.shutdown_deadline == 0)
    && (ltb p.shutdown_deadline t || ltb (t + 0x7FFF) p.shutdown_deadline)

-- The peers, from the number `i` on, that `enforce_shutdown_deadlines` declares dead.
unfoldable pub overdue_from : ℕ → ℕ → List Peer → List ℕ
unfolding is_overdue
overdue_from timestamp i [] = []
overdue_from timestamp i (p ∷ ps) =
    let rest = overdue_from timestamp (i + 1) ps in
    if is_overdue timestamp p then i ∷ rest else rest

unfoldable pub enforce_shutdown_deadlines : ℕ → List Peer → ℕ → List ℕ
unfolding overdue_from
enforce_shutdown_deadlines timestamp peers highest_peer_i =
    overdue_from timestamp 0 (take (highest_peer_i + 1) peers)
