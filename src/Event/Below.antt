-- ===== src/Event/Below.antt =====
-- The results of the layers below HTTP.
use ring_socket.Prelude.{
  ℕ, ◌≡◌, refl, Bool, true, false, Option, none, some, inl, inr, Bool-cases, ◌==◌,
}
use ring_socket.Websocket.{Ret, ok, again, close_peer, fatal}
use ring_socket.Peer.{Peer, Mortality, live, shutdown_write, shutdown_read, dead}
use ring_socket.Tcp
use ring_socket.Tcp.{
  Shutdown, done, not_connected, failed, Reads, more, end_of_stream, no_more, handle_tcp_io,
  terminate_tcp, close_read, write_bidirectional_tcp_shutdown, read_bidirectional_tcp_shutdown,
  peer_at, set_peer,
}
use ring_socket.Slot.{Slots, free_slot}
use ring_socket.Tls
use ring_socket.Tls.{
  SslError, error_none, error_zero_return, error_want_read, error_want_write, error_syscall,
  error_ssl, error_other, check_tls_error, Ssl, success, failure, shake_tls_hands, SslShutdown,
  unanswered, answered, not_shut_down, write_bidirectional_tls_shutdown, SslReads,
  read_bidirectional_tls_shutdown, Answers, close_tls_read, shut_down_below, close_tls_write,
  accept_tls, handle_tls_io, init_tls_session,
}
use ring_socket.Worker.{Worker}
use ring_socket.Event.Settled.{Settled, ok-Settled, fatal-Settled}

-- A call returns RS_OK or RS_FATAL.
abbrev pub IsDone : Ret → Type 0
IsDone ok = Unit
IsDone again = ⊥
IsDone close_peer = ⊥
IsDone fatal = Unit

read_shutdown-IsDone :
    (r : Ret × Peer)
    → IsDone
        (elim r.0 as (λ x. Ret × Peer) [
          | ok ↦ Tls.terminate_tls r.1
          | again ↦ (ok, r.1)
          | close_peer ↦ Tls.terminate_tls (record r.1 { mortality = dead })
          | fatal ↦ (fatal, r.1)
        ]).0
read_shutdown-IsDone (ok, p) = tt
read_shutdown-IsDone (again, p) = tt
read_shutdown-IsDone (close_peer, p) = tt
read_shutdown-IsDone (fatal, p) = tt

close_tls_read-IsDone : (reads : SslReads) (p : Peer) → IsDone (close_tls_read reads p).0
unfolding close_tls_read
close_tls_read-IsDone reads p = read_shutdown-IsDone (read_bidirectional_tls_shutdown reads p)

shut_down_below-IsDone : (answers : Answers) (p : Peer) → IsDone (shut_down_below answers p).0
unfolding shut_down_below
shut_down_below-IsDone answers p = go answers.shutdown refl
  where
    go : (s : Shutdown) → answers.shutdown ≡ s → IsDone (shut_down_below answers p).0
    go done e = rw (shut_down_below, e) (close_tls_read-IsDone answers.ssl_reads _)
    go not_connected e = rw (shut_down_below, e) tt
    go failed e = rw (shut_down_below, e) tt

close_tls_write-IsDone : (answers : Answers) (p : Peer) → IsDone (close_tls_write answers p).0
unfolding close_tls_write
close_tls_write-IsDone answers p = go (write_bidirectional_tls_shutdown answers.ssl_shutdown p) refl
  where
    go :
        (r : (Ret × Bool) × Peer)
        → write_bidirectional_tls_shutdown answers.ssl_shutdown p ≡ r
        → IsDone (close_tls_write answers p).0
    go ((ok, true), q) e = rw (close_tls_write, e, e) tt
    go ((ok, false), q) e = rw (close_tls_write, e, e) (shut_down_below-IsDone answers q)
    go ((again, b), q) e = rw (close_tls_write, e) tt
    go ((close_peer, b), q) e = rw (close_tls_write, e) tt
    go ((fatal, b), q) e = rw (close_tls_write, e) tt

accept_tls-IsDone : (accept : Ssl) (p : Peer) → IsDone (accept_tls accept p).0
unfolding accept_tls
accept_tls-IsDone accept p = go (shake_tls_hands accept p) refl
  where
    go : (r : Ret × Peer) → shake_tls_hands accept p ≡ r → IsDone (accept_tls accept p).0
    go (ok, q) e = rw (accept_tls, e) tt
    go (again, q) e = rw (accept_tls, e) tt
    go (close_peer, q) e = rw (accept_tls, e) tt
    go (fatal, q) e = rw (accept_tls, e) tt

pub handle_tls_io-IsDone : (answers : Answers) (p : Peer) → IsDone (handle_tls_io answers p).0
unfolding handle_tls_io
handle_tls_io-IsDone answers p = go p.mortality refl
  where
    go : (m : Mortality) → p.mortality ≡ m → IsDone (handle_tls_io answers p).0
    go live e = rw (handle_tls_io, e) (accept_tls-IsDone answers.accept p)
    go shutdown_write e = rw (handle_tls_io, e) (close_tls_write-IsDone answers p)
    go shutdown_read e = rw (handle_tls_io, e) (close_tls_read-IsDone answers.ssl_reads p)
    go dead e = rw (handle_tls_io, e) tt

-- The same for the table of the peers.
abbrev pub IsNetDone : Option (Ret × Tcp.Worker) → Type 0
IsNetDone none = Unit
IsNetDone (some (ret, w)) = IsDone ret

terminate_tcp-IsNetDone : (w : Tcp.Worker) (i : ℕ) → IsNetDone (terminate_tcp w i)
unfolding terminate_tcp
terminate_tcp-IsNetDone w i = go (free_slot w.peer_slots i) refl
  where
    go : (o : Option Slots) → free_slot w.peer_slots i ≡ o → IsNetDone (terminate_tcp w i)
    go none e = rw (terminate_tcp, e) tt
    go (some slots) e = rw (terminate_tcp, e) tt

close_read-IsNetDone : (reads : Reads) (w : Tcp.Worker) (i : ℕ) → IsNetDone (close_read reads w i)
unfolding close_read
close_read-IsNetDone reads w i = go (read_bidirectional_tcp_shutdown reads (peer_at w i)) refl
  where
    go :
        (r : Ret × Peer)
        → read_bidirectional_tcp_shutdown reads (peer_at w i) ≡ r
        → IsNetDone (close_read reads w i)
    go (ok, q) e = rw (close_read, e, e) (terminate_tcp-IsNetDone _ i)
    go (again, q) e = rw (close_read, e) tt
    go (close_peer, q) e = rw (close_read, e, e) (terminate_tcp-IsNetDone _ i)
    go (fatal, q) e = rw (close_read, e) tt

pub init-IsDone :
    (ssl_new : ℕ) (is_set : Bool) (p : Peer) → IsDone (init_tls_session ssl_new is_set p).0
unfolding init_tls_session
init-IsDone ssl_new is_set p = elim (Bool-cases (ssl_new == 0)) [
  | inl missing ↦ rw (init_tls_session, missing) tt
  | inr here ↦ elim (Bool-cases is_set) [
    | inl set ↦ rw (init_tls_session, here, set) tt
    | inr unset ↦ rw (init_tls_session, here, unset) tt
  ]
]

pub handle_tcp_io-IsNetDone :
    (init : Peer → Ret × Peer)
    → ((p : Peer) → IsDone (init p).0)
    → (s : Shutdown) (reads : Reads) (w : Tcp.Worker) (i : ℕ)
    → IsNetDone (handle_tcp_io init s reads w i)
unfolding handle_tcp_io
handle_tcp_io-IsNetDone init starts s reads w i = go (peer_at w i).mortality refl s
  where
    go :
        (m : Mortality)
        → (peer_at w i).mortality ≡ m
        → (answer : Shutdown) → IsNetDone (handle_tcp_io init answer reads w i)
    go live e answer = elim (Bool-cases (peer_at w i).is_encrypted) [
      | inl secret ↦ rw (handle_tcp_io, e, secret) (starts _)
      | inr plain ↦ rw (handle_tcp_io, e, plain) tt
    ]
    go shutdown_write e done = rw (handle_tcp_io, e) (close_read-IsNetDone reads _ i)
    go shutdown_write e not_connected = rw (handle_tcp_io, e) (terminate_tcp-IsNetDone _ i)
    go shutdown_write e failed = rw (handle_tcp_io, e) tt
    go shutdown_read e answer = rw (handle_tcp_io, e) (close_read-IsNetDone reads w i)
    go dead e answer = rw (handle_tcp_io, e) (terminate_tcp-IsNetDone w i)

pub done-Settled : (ret : Ret) (w : Worker) → IsDone ret → Settled (some (ret, w))
done-Settled ok w h = ok-Settled w
done-Settled again w h = absurd h
done-Settled close_peer w h = absurd h
done-Settled fatal w h = fatal-Settled w
