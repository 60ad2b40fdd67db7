-- ===== src/Tests/Tcp.antt =====
-- TCP and new connections.
use ring_socket.Prelude.{
  ℕ, zero, suc, ◌<◌, ◌≡◌, refl, true, false, some, List, [], ◌∷◌, arith, not, ◌==◌, min,
}
use mathlib.Core.Option.{some-injective}
use ring_socket.Websocket.{ok}
use ring_socket.Peer.{Peer, no_peer, dead}
use ring_socket.Slot.Lowest.{taken, taken_out}
use ring_socket.Tcp.{Written, Worker, peer_at, done, end_of_stream, handle_tcp_io}
use ring_socket.Tcp.Write.{retry, Sends, IsBounded, Progresses, retry-Sends, retry-Progresses}
use ring_socket.Socket.{accept_sockets, accepted, aborted, no_more}
use ring_socket.Socket.Accepted.{Accepted, accept_sockets_lem}
use ring_socket.Tcp.Peers.{IsValid, Promises, handle_tcp_io_lem}

abbrev pub peer : Peer
peer = record no_peer { socket_fd = 7 }

-- A kernel that takes two bytes at a time.
abbrev two_bytes : ℕ → ℕ → Written
two_bytes i count = record { ret = some (min 2 count); is_eagain = false }

two_bytes-IsBounded : (i : ℕ) → IsBounded (two_bytes i)
two_bytes-IsBounded i count n e =
    let same : min 2 count ≡ n = some-injective (min 2 count) n e in omega arith

two_bytes-Progresses : (i : ℕ) → Progresses (two_bytes i)
two_bytes-Progresses i count h = (min 2 count, refl, omega arith, omega arith)

abbrev message : List ℕ
message = 129 ∷ 3 ∷ 65 ∷ 66 ∷ 67 ∷ []

retry-Sends_example :
    Sends message peer
      (retry two_bytes 3 0 peer message).0.0
      (retry two_bytes 3 0 peer message).0.1
      (retry two_bytes 3 0 peer message).1
retry-Sends_example = retry-Sends two_bytes 3 0 message peer two_bytes-IsBounded (omega arith)

retry-Progresses_example : (retry two_bytes 5 0 peer message).0.0 ≡ ok
retry-Progresses_example =
    retry-Progresses two_bytes 5 0 message peer two_bytes-Progresses (omega arith) (omega arith)

-- Eight peers, of which the first and the third are in use; the third has died.
abbrev pub worker : Worker
worker = record {
  peers =
      peer
      ∷ no_peer
      ∷ record peer { socket_fd = 9; mortality = dead }
      ∷ no_peer
      ∷ no_peer
      ∷ no_peer
      ∷ no_peer
      ∷ no_peer
      ∷ [];
  highest_peer_i = 2;
  peer_slots = record { bytes = 5 ∷ []; i = 1 };
}

marked_at :
    (i : ℕ) → i < 8 → taken worker.peer_slots.bytes i ≡ not ((peer_at worker i).socket_fd == 0)
unfolding taken
marked_at zero h = refl
marked_at (suc zero) h = refl
marked_at (suc (suc zero)) h = refl
marked_at (suc (suc (suc zero))) h = refl
marked_at (suc (suc (suc (suc zero)))) h = refl
marked_at (suc (suc (suc (suc (suc zero))))) h = refl
marked_at (suc (suc (suc (suc (suc (suc zero)))))) h = refl
marked_at (suc (suc (suc (suc (suc (suc (suc zero))))))) h = refl
marked_at (suc (suc (suc (suc (suc (suc (suc (suc i)))))))) h = absurd (omega arith)

none_above : (i : ℕ) → 2 < i → (peer_at worker i).socket_fd ≡ 0
none_above zero h = absurd (omega arith)
none_above (suc zero) h = absurd (omega arith)
none_above (suc (suc zero)) h = absurd (omega arith)
none_above (suc (suc (suc zero))) h = refl
none_above (suc (suc (suc (suc zero)))) h = refl
none_above (suc (suc (suc (suc (suc zero))))) h = refl
none_above (suc (suc (suc (suc (suc (suc zero)))))) h = refl
none_above (suc (suc (suc (suc (suc (suc (suc zero))))))) h = refl
none_above (suc (suc (suc (suc (suc (suc (suc (suc i)))))))) h = refl

first_taken : (j : ℕ) → j < 1 → taken worker.peer_slots.bytes j ≡ true
unfolding taken
first_taken zero h = refl
first_taken (suc j) h = absurd (omega arith)

pub worker-IsValid : IsValid worker
worker-IsValid = record {
  slots = record {
    size = omega arith;
    bytes_fit = (omega arith, tt);
    padded = λ j h. taken_out worker.peer_slots.bytes j (omega arith);
    low_taken = first_taken;
  };
  marked = marked_at;
  above = none_above;
  highest = λ h. omega arith;
}

handle_tcp_io_lem_example :
    Promises worker 2 (handle_tcp_io (λ p. (ok, p)) done end_of_stream worker 2)
handle_tcp_io_lem_example =
    handle_tcp_io_lem (λ p. (ok, p)) (λ p. refl) done end_of_stream worker 2 worker-IsValid
      (omega arith)

accept_sockets_lem_example :
    Accepted true
      (accepted 11 true (aborted no_more))
      worker
      (accept_sockets true (accepted 11 true (aborted no_more)) worker)
accept_sockets_lem_example =
    accept_sockets_lem true (accepted 11 true (aborted no_more)) worker
      (worker-IsValid, omega arith) ((λ e. absurd (omega arith)), tt)
