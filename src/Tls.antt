-- ===== src/Tls.antt =====
-- rs_tls.c: the sessions of encrypted peers. What the functions of OpenSSL return is an argument.
pub mod Cert
use ring_socket.Prelude.{ℕ, Bool, true, false, List, [], ◌==◌, if◌then◌else◌}
use ring_socket.Websocket.{Ret, ok, again, close_peer, fatal}
use ring_socket.Peer.{Peer, live, shutdown_write, shutdown_read, dead, tcp, http}
use ring_socket.Tcp.{Shutdown, write_bidirectional_tcp_shutdown}

-- What `SSL_get_error` returns.
pub data SslError : Type 0 where
  error_none error_zero_return error_want_read error_want_write : SslError
  error_syscall error_ssl error_other : SslError

unfoldable pub check_tls_error : SslError → Bool → Peer → Ret × Peer
check_tls_error error_zero_return true peer = (ok, peer)
check_tls_error error_want_read zero_return_is_expected peer =
    (again, record peer { is_writing = false })
check_tls_error error_want_write zero_return_is_expected peer =
    (again, record peer { is_writing = true })
check_tls_error err zero_return_is_expected peer = (close_peer, peer)

-- Whether a function of OpenSSL succeeds, or else what `SSL_get_error` returns then.
pub data Ssl : Type 0 where
  success : Ssl
  failure : SslError → Ssl

abbrev pub checked : Ssl → Peer → Ret × Peer
checked success peer = (ok, peer)
checked (failure err) peer = check_tls_error err false peer

-- `ssl_new` is the pointer that `SSL_new` returns, `is_set` whether `SSL_set_fd` succeeds.
unfoldable pub init_tls_session : ℕ → Bool → Peer → Ret × Peer
init_tls_session ssl_new is_set peer =
    let peer' = record peer { old_wsize = ssl_new } in
    if ssl_new == 0 then (fatal, peer') else if is_set then (ok, peer') else (fatal, peer')

-- `SSL_accept`
unfoldable pub shake_tls_hands : Ssl → Peer → Ret × Peer
unfolding check_tls_error
shake_tls_hands accept peer = checked accept peer

-- `SSL_shutdown` returns 0 or 1, or it fails.
pub data SslShutdown : Type 0 where
  unanswered answered : SslShutdown
  not_shut_down : SslError → SslShutdown

-- The flag is `received_tls_close_notify`, which is only read with RS_OK.
unfoldable pub write_bidirectional_tls_shutdown : SslShutdown → Peer → (Ret × Bool) × Peer
unfolding check_tls_error
write_bidirectional_tls_shutdown unanswered peer = ((ok, false), peer)
write_bidirectional_tls_shutdown answered peer = ((ok, true), peer)
write_bidirectional_tls_shutdown (not_shut_down err) peer =
    let (ret, peer') = check_tls_error err false peer in ((ret, false), peer')

-- What the calls of `SSL_read_ex` give, up to the first that fails.
pub data SslReads : Type 0 where
  more : SslReads → SslReads
  no_more : SslError → SslReads

-- What is read is stored in `rbuf` and ignored.
unfoldable pub read_bidirectional_tls_shutdown : SslReads → Peer → Ret × Peer
unfolding check_tls_error
read_bidirectional_tls_shutdown (more rest) peer = read_bidirectional_tls_shutdown rest peer
read_bidirectional_tls_shutdown (no_more err) peer = check_tls_error err true peer

-- What OpenSSL and the kernel answer in a call of `handle_tls_io`.
pub record Answers : Type 0 where
  pub accept : Ssl
  pub ssl_shutdown : SslShutdown
  pub shutdown : Shutdown
  pub ssl_reads : SslReads

-- The label `terminate_tls`; `SSL_free` releases the session.
abbrev pub terminate_tls : Peer → Ret × Peer
terminate_tls peer = (ok, record peer { old_wsize = 0; layer = tcp })

-- The case RS_MORTALITY_SHUTDOWN_READ
unfoldable pub close_tls_read : SslReads → Peer → Ret × Peer
unfolding read_bidirectional_tls_shutdown
close_tls_read ssl_reads peer =
    let (ret, peer') = read_bidirectional_tls_shutdown ssl_reads peer in
    elim ret [
      | ok ↦ terminate_tls peer'
      | again ↦ (ok, peer')
      | close_peer ↦ terminate_tls (record peer' { mortality = dead })
      | fatal ↦ (fatal, peer')
    ]

-- The shutdown of TCP's write direction, once the alert of TLS is on its way.
unfoldable pub shut_down_below : Answers → Peer → Ret × Peer
unfolding close_tls_read
shut_down_below answers peer = elim (write_bidirectional_tcp_shutdown answers.shutdown) [
  | ok ↦ close_tls_read answers.ssl_reads (record peer { mortality = shutdown_read })
  | close_peer ↦ terminate_tls (record peer { mortality = dead })
  | _ ↦ (fatal, peer)
]

-- The case RS_MORTALITY_SHUTDOWN_WRITE
unfoldable pub close_tls_write : Answers → Peer → Ret × Peer
unfolding write_bidirectional_tls_shutdown shut_down_below
close_tls_write answers peer =
    let ((ret, received_tls_close_notify), peer') =
      write_bidirectional_tls_shutdown answers.ssl_shutdown peer in
    elim ret [
      | ok ↦
          if received_tls_close_notify then terminate_tls peer' else shut_down_below answers peer'
      | again ↦ (ok, peer')
      | close_peer ↦ terminate_tls (record peer' { mortality = dead })
      | fatal ↦ (fatal, peer')
    ]

-- The case RS_MORTALITY_LIVE
unfoldable pub accept_tls : Ssl → Peer → Ret × Peer
unfolding shake_tls_hands
accept_tls accept peer =
    let (ret, peer') = shake_tls_hands accept peer in
    elim ret [
      | ok ↦ (ok, record peer' { layer = http })
      | again ↦ (ok, peer')
      | close_peer ↦ terminate_tls (record peer' { mortality = dead })
      | fatal ↦ (fatal, peer')
    ]

unfoldable pub handle_tls_io : Answers → Peer → Ret × Peer
unfolding accept_tls close_tls_write close_tls_read
handle_tls_io answers peer = elim peer.mortality [
  | live ↦ accept_tls answers.accept peer
  | shutdown_write ↦ close_tls_write answers peer
  | shutdown_read ↦ close_tls_read answers.ssl_reads peer
  | dead ↦ terminate_tls peer
]

-- What `SSL_read_ex` gives.
pub data SslRead : Type 0 where
  got : List ℕ → SslRead
  unread : SslError → SslRead

-- RS_OK, RS_AGAIN or RS_CLOSE_PEER, with the bytes that are in `rbuf`; `rsize` is their number.
unfoldable pub read_tls : SslRead → Peer → (Ret × List ℕ) × Peer
unfolding check_tls_error
read_tls (got bytes) peer = ((ok, bytes), peer)
read_tls (unread err) peer = let (ret, peer') = check_tls_error err false peer in ((ret, []), peer')

-- `SSL_write_ex`; OpenSSL keeps how much of the message is written.
unfoldable pub write_tls : Ssl → Peer → Ret × Peer
unfolding check_tls_error
write_tls write peer = checked write peer
