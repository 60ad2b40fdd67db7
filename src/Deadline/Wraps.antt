-- ===== src/Deadline/Wraps.antt =====
-- Deadlines, kept modulo 65535.
use ring_socket.Prelude.{ℕ, ◌+◌, ◌/◌, ◌^◌, ◌≤◌, ◌<◌, ◌≡◌, true, ltb, leb, arith}
use ring_socket.Peer.{Peer}
use ring_socket.Deadline.{set_shutdown_deadline, is_overdue}

-- A deadline has 16 bits and is not 0, which stands for none.
pub deadline_bounds :
    (time_now wait_interval : ℕ) (peer : Peer)
    → (0 < (set_shutdown_deadline time_now peer wait_interval).shutdown_deadline)
      × ((set_shutdown_deadline time_now peer wait_interval).shutdown_deadline < 2 ^ 16)
unfolding set_shutdown_deadline
deadline_bounds time_now wait_interval peer = (omega arith, omega arith)

-- While a clock that counts modulo 65535 has not wrapped around between the check and the deadline,
-- a peer whose deadline was set at most 32767 seconds ahead is overdue exactly after it.
pub overdue_lem :
    (time_now wait_interval timestamp : ℕ) (peer : Peer)
    → time_now ≤ timestamp
    → wait_interval ≤ 0x7FFF
    → timestamp / 0xFFFF ≡ (time_now + wait_interval) / 0xFFFF
    → is_overdue timestamp (set_shutdown_deadline time_now peer wait_interval)
      ≡ ltb (time_now + wait_interval) timestamp
unfolding set_shutdown_deadline is_overdue
overdue_lem time_now wait_interval timestamp peer h h' e = ground arith

-- When that clock has wrapped around once since the deadline, and the check is less than 65535 seconds
-- after the deadline, the peer is overdue up to 32767 seconds after it, and no longer then.
pub overdue_later :
    (time_now wait_interval timestamp : ℕ) (peer : Peer)
    → timestamp / 0xFFFF ≡ (time_now + wait_interval) / 0xFFFF + 1
    → timestamp < time_now + wait_interval + 0xFFFF
    → is_overdue timestamp (set_shutdown_deadline time_now peer wait_interval)
      ≡ leb timestamp (time_now + wait_interval + 0x7FFF)
unfolding set_shutdown_deadline is_overdue
overdue_later time_now wait_interval timestamp peer e h = ground arith

-- When that clock wraps around between the check and the deadline, which is less than 65535 seconds
-- away, the peer is overdue at once.
pub overdue_early :
    (time_now wait_interval timestamp : ℕ) (peer : Peer)
    → time_now ≤ timestamp
    → wait_interval < 0xFFFF
    → timestamp / 0xFFFF + 1 ≡ (time_now + wait_interval) / 0xFFFF
    → is_overdue timestamp (set_shutdown_deadline time_now peer wait_interval) ≡ true
unfolding set_shutdown_deadline is_overdue
overdue_early time_now wait_interval timestamp peer h h' e = ground arith
