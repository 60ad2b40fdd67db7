-- ===== src/Tcp.antt =====
-- rs_tcp.c: reads, writes and shutdown of a peer's socket. The kernel's answers to the system calls
-- are arguments.
pub mod Write
pub mod Peers
use ring_socket.Prelude.{
  ℕ, zero, suc, ◌+◌, ◌-◌, Bool, true, false, Option, none, some, List, [], ◌∷◌, ◌++◌, take, drop,
  length, get_or, set, if◌then◌else◌, ◌==◌, ltb,
}
use ring_socket.Websocket.{Ret, ok, again, close_peer, fatal}
use ring_socket.Peer.{
  Peer, no_peer, Mortality, live, shutdown_write, shutdown_read, dead, Layer, tls, http,
}
use ring_socket.Slot.{Slots, free_slot}

-- What `read` does: the bytes that it stores, none at the end of the stream; or it returns -1, where
-- the flag tells whether `errno` is EAGAIN.
pub data Read : Type 0 where
  got : List ℕ → Read
  unread : Bool → Read

-- RS_OK, RS_AGAIN or RS_CLOSE_PEER, with the bytes that are in `rbuf`; `rsize` is their number.
unfoldable pub read_tcp : Read → Peer → (Ret × List ℕ) × Peer
read_tcp (got (b ∷ bs)) peer = ((ok, b ∷ bs), peer)
read_tcp (got []) peer = ((close_peer, []), peer)
read_tcp (unread true) peer = ((again, []), record peer { is_writing = false })
read_tcp (unread false) peer = ((close_peer, []), peer)

-- What `write` returns, and whether `errno` is EAGAIN then; -1 is `none`.
pub record Written : Type 0 where
  pub ret : Option ℕ
  pub is_eagain : Bool

-- The end of `write_tcp`, where `write` did not return a positive number.
abbrev pub write_failed : Bool → Peer → Ret × Peer
write_failed true peer = (again, record peer { is_writing = true })
write_failed false peer = (close_peer, peer)

-- `write` is called for the bytes of `wbuf` from `old_wsize` on.
unfoldable pub write_tcp : (ℕ → Written) → Peer → List ℕ → Ret × Peer
write_tcp write peer wbuf =
    let remaining_wsize = length wbuf - peer.old_wsize in
    let answer = write remaining_wsize in
    elim answer.ret [
      | none ↦ write_failed answer.is_eagain peer
      | some zero ↦ write_failed answer.is_eagain peer
      | some (suc n) ↦
          if suc n == remaining_wsize
          then (ok, record peer { old_wsize = 0 })
          else (again, record peer { old_wsize = peer.old_wsize + suc n; is_writing = true })
    ]

-- What `shutdown` does.
pub data Shutdown : Type 0 where
  done not_connected failed : Shutdown

abbrev pub write_bidirectional_tcp_shutdown : Shutdown → Ret
write_bidirectional_tcp_shutdown done = ok
write_bidirectional_tcp_shutdown not_connected = close_peer
write_bidirectional_tcp_shutdown failed = fatal

-- What the calls of `read` give, up to the first that gives no bytes.
pub data Reads : Type 0 where
  more : ℕ → Reads → Reads
  end_of_stream : Reads
  no_more : Bool → Reads

unfoldable pub read_bidirectional_tcp_shutdown : Reads → Peer → Ret × Peer
read_bidirectional_tcp_shutdown (more rsize rest) peer = read_bidirectional_tcp_shutdown rest peer
read_bidirectional_tcp_shutdown end_of_stream peer = (close_peer, peer)
read_bidirectional_tcp_shutdown (no_more true) peer = (again, record peer { is_writing = false })
read_bidirectional_tcp_shutdown (no_more false) peer = (close_peer, peer)

-- What `handle_tcp_io` uses of `struct rs_worker`; `peers_elem_c` is the length of `peers`.
pub record Worker : Type 0 where
  pub peers : List Peer
  pub highest_peer_i : ℕ
  pub peer_slots : Slots

abbrev pub peer_at : Worker → ℕ → Peer
peer_at worker i = get_or worker.peers i no_peer

abbrev pub set_peer : Worker → ℕ → Peer → Worker
set_peer worker i peer = record worker { peers = set worker.peers i peer }

-- The loop that looks for the highest index in use below `peer_i`.
abbrev pub highest_below : List Peer → ℕ → ℕ
highest_below peers zero = 0
highest_below peers (suc i) =
    let lower = highest_below peers i in
    if (get_or peers i no_peer).socket_fd == 0 then lower else i

-- From the label `terminate_tcp` on; `none` is an access outside of the slots. The answer of `close`
-- is only logged.
unfoldable pub terminate_tcp : Worker → ℕ → Option (Ret × Worker)
terminate_tcp worker peer_i =
    let peers = set worker.peers peer_i no_peer in
    elim (free_slot worker.peer_slots peer_i) [
      | none ↦ none
      | some slots ↦ some (
        ok,
        record {
          peers = peers;
          peer_slots = slots;
          highest_peer_i =
              if ltb peer_i worker.highest_peer_i
              then worker.highest_peer_i
              else highest_below peers peer_i;
        },
      )
    ]

-- The case RS_MORTALITY_SHUTDOWN_READ
unfoldable pub close_read : Reads → Worker → ℕ → Option (Ret × Worker)
unfolding terminate_tcp read_bidirectional_tcp_shutdown
close_read reads worker peer_i =
    let (ret, peer) = read_bidirectional_tcp_shutdown reads (peer_at worker peer_i) in
    elim ret [
      | again ↦ some (ok, set_peer worker peer_i peer)
      | fatal ↦ some (fatal, set_peer worker peer_i peer)
      | _ ↦ terminate_tcp (set_peer worker peer_i (record peer { mortality = dead })) peer_i
    ]

-- `init_tls_session` is what the function of that name of rs_tls.c does with the peer.
unfoldable pub handle_tcp_io :
    (Peer → Ret × Peer) → Shutdown → Reads → Worker → ℕ → Option (Ret × Worker)
unfolding terminate_tcp close_read
handle_tcp_io init_tls_session shutdown reads worker peer_i =
    let peer = peer_at worker peer_i in
    elim peer.mortality [
      | live ↦
          if peer.is_encrypted
          then (let (ret, peer') = init_tls_session (record peer { layer = tls }) in
              some (ret, set_peer worker peer_i peer'))
          else some (ok, set_peer worker peer_i (record peer { layer = http }))
      | shutdown_write ↦ elim (write_bidirectional_tcp_shutdown shutdown) [
        | ok ↦
            close_read reads (set_peer worker peer_i (record peer { mortality = shutdown_read }))
              peer_i
        | close_peer ↦
            terminate_tcp (set_peer worker peer_i (record peer { mortality = dead })) peer_i
        | _ ↦ some (fatal, worker)
      ]
      | shutdown_read ↦ close_read reads worker peer_i
      | dead ↦ terminate_tcp worker peer_i
    ]
