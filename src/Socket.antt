-- ===== src/Socket.antt =====
-- rs_socket.c: new connections. The kernel's answers to the system calls are arguments.
pub mod Accepted
use ring_socket.Prelude.{
  ℕ, zero, suc, ◌+◌, Bool, true, false, Option, none, some, if◌then◌else◌, ltb,
}
use ring_socket.Websocket.{Ret, ok, fatal}
use ring_socket.Peer.{Peer}
use ring_socket.Slot.{alloc_slot, fault, again, done}
use ring_socket.Tcp.{Worker, peer_at, set_peer}

-- What the calls of `accept4` give, up to the last one: a socket, and whether it can be closed again;
-- -1 with one of the values of `errno` after which the loop goes on; EAGAIN; any other.
pub data Accepts : Type 0 where
  accepted : ℕ → Bool → Accepts → Accepts
  aborted : Accepts → Accepts
  no_more : Accepts
  failed : Accepts

-- The peer in its slot.
abbrev pub new_peer : Worker → ℕ → Bool → ℕ → Worker
new_peer worker peer_i is_encrypted socket_fd =
    let peer = peer_at worker peer_i in
    record (set_peer worker peer_i
      (record peer { socket_fd = socket_fd; is_encrypted = is_encrypted })) {
        highest_peer_i = if ltb worker.highest_peer_i peer_i then peer_i else worker.highest_peer_i;
      }

-- `none` is an access outside of the slots. That the call of `epoll_ctl` fails is only logged.
unfoldable pub accept_sockets : Bool → Accepts → Worker → Option (Ret × Worker)
accept_sockets is_encrypted (accepted socket_fd closes rest) worker =
    elim (alloc_slot worker.peer_slots) [
      | fault ↦ none
      | again slots ↦
          (let full = record worker { peer_slots = slots } in
            let later = accept_sockets is_encrypted rest full in
            if closes then later else some (fatal, full))
      | done peer_i slots ↦
          accept_sockets is_encrypted rest
            (new_peer (record worker { peer_slots = slots }) peer_i is_encrypted socket_fd)
    ]
accept_sockets is_encrypted (aborted rest) worker = accept_sockets is_encrypted rest worker
accept_sockets is_encrypted no_more worker = some (ok, worker)
accept_sockets is_encrypted failed worker = some (fatal, worker)
