-- ===== src/Tcp/Peers.antt =====
-- The peers of a worker: which slots are taken, and the highest index in use.
use mathlib.Core.Path.{subst}
use ring_socket.Prelude.{
  ℕ, zero, suc, ◌<◌, ◌≡◌, ◌≢◌, inl, inr, refl, sym, ap, ◌∙◌, Bool, true, false, not, Option, some,
  List, [], ◌∷◌, length, get_or, set, arith, if◌then◌else◌, ◌==◌, ltb, Bool-cases, length-set,
  get_or-set_self, get_or-set_ne,
}
use ring_socket.Websocket.{Ret, ok, again, close_peer, fatal}
use ring_socket.Peer.{
  Peer, no_peer, Mortality, live, shutdown_write, shutdown_read, dead, tls, http,
}
use ring_socket.Slot.{Slots, free_slot}
use ring_socket.Slot.Lowest.{taken}
use ring_socket.Slot.Release.{free_slot_lem}
use ring_socket.Tcp.{
  Worker, peer_at, set_peer, highest_below, terminate_tcp, close_read, handle_tcp_io, Shutdown,
  done, not_connected, failed, Reads, more, end_of_stream, no_more, read_bidirectional_tcp_shutdown,
}

-- A peer is in use when it has a socket. The slots in use are those that the bitmap has as taken,
-- and no slot above `highest_peer_i` is in use, which is in use itself or 0.
pub record IsValid (worker : Worker) : Type 0 where
  pub slots : ring_socket.Slot.Lowest.IsValid (length worker.peers) worker.peer_slots
  pub marked :
      (i : ℕ)
      → i < length worker.peers
      → taken worker.peer_slots.bytes i ≡ not ((peer_at worker i).socket_fd == 0)
  pub above : (i : ℕ) → worker.highest_peer_i < i → (peer_at worker i).socket_fd ≡ 0
  pub highest : worker.highest_peer_i ≢ 0 → (peer_at worker worker.highest_peer_i).socket_fd ≢ 0

abbrev pub fd : List Peer → ℕ → ℕ
fd peers i = (get_or peers i no_peer).socket_fd

-- Another worker whose peers have the same sockets, but for the peer `i`.
record Agrees (i : ℕ) (worker w : Worker) : Type 0 where
  size : length w.peers ≡ length worker.peers
  others : (j : ℕ) → j ≢ i → peer_at w j ≡ peer_at worker j
  slots : w.peer_slots ≡ worker.peer_slots
  highest : w.highest_peer_i ≡ worker.highest_peer_i

set_peer-Agrees : (i : ℕ) (worker : Worker) (p : Peer) → Agrees i worker (set_peer worker i p)
set_peer-Agrees i worker p = record {
  size = length-set worker.peers i p;
  others = λ j h. get_or-set_ne no_peer worker.peers i j p h;
  slots = refl;
  highest = refl;
}

same_fd :
    (i : ℕ) (worker : Worker) (p : Peer)
    → p.socket_fd ≡ (peer_at worker i).socket_fd
    → i < length worker.peers
    → (j : ℕ) → fd (set worker.peers i p) j ≡ fd worker.peers j
same_fd i worker p e h j = elim (Bool-cases (j == i)) [
  | inl same ↦
      let at : j ≡ i = ground arith in
      rw at (ap (λ q. q.socket_fd) (get_or-set_self no_peer worker.peers i p h) ∙ e)
  | inr other ↦ ap (λ q. q.socket_fd) (get_or-set_ne no_peer worker.peers i j p (λ k. ground arith))
]

-- A peer that keeps its socket keeps the worker valid.
pub set_peer-IsValid :
    (i : ℕ) (worker : Worker) (p : Peer)
    → IsValid worker
    → i < length worker.peers
    → p.socket_fd ≡ (peer_at worker i).socket_fd
    → IsValid (set_peer worker i p)
set_peer-IsValid i worker p v h e =
    let size = length-set worker.peers i p in
    let same = same_fd i worker p e h in
    record {
      slots = subst (λ n. ring_socket.Slot.Lowest.IsValid n worker.peer_slots) (sym size) v.slots;
      marked = λ j g. v.marked j (omega arith) ∙ ap (λ x. not (x == 0)) (sym (same j));
      above = λ j g. same j ∙ v.above j g;
      highest = λ g z. v.highest g (sym (same worker.highest_peer_i) ∙ z);
    }

-- What the search finds.
highest_below_lem :
    (peers : List Peer) (i : ℕ)
    → ((j : ℕ) → highest_below peers i < j → j < i → fd peers j ≡ 0)
      × (highest_below peers i ≢ 0 → fd peers (highest_below peers i) ≢ 0)
highest_below_lem peers zero = ((λ j h h'. absurd (omega arith)), λ h. absurd (h refl))
highest_below_lem peers (suc i) =
    let (above, in_use) = highest_below_lem peers i in
    elim (Bool-cases (fd peers i == 0)) [
      | inl free ↦ rw free (
        (λ j h h'. elim (Bool-cases (j == i)) [
          | inl same ↦ let at : j ≡ i = ground arith in rw at (ground arith)
          | inr other ↦ above j h (ground arith)
        ]),
        in_use,
      )
      | inr used ↦ rw used ((λ j h h'. absurd (omega arith)), λ h. ground arith)
    ]

cleared : (peers : List Peer) (i : ℕ) → fd (set peers i no_peer) i ≡ 0
cleared [] i = refl
cleared (p ∷ ps) zero = refl
cleared (p ∷ ps) (suc i) = cleared ps i

-- What `terminate_tcp` and `handle_tcp_io` promise: no access outside of the slots, a valid worker,
-- and the other peers as they were.
abbrev pub Promises : Worker → ℕ → Option (Ret × Worker) → Type 0
Promises worker i result =
    (ret : Ret) × (w : Worker) × (result ≡ some (ret, w))
    × IsValid w
    × ((j : ℕ) → j ≢ i → peer_at w j ≡ peer_at worker j)

-- The highest index in use, when the peer `i` is gone.
new_highest :
    (worker : Worker) (peers : List Peer) (i : ℕ)
    → IsValid worker
    → ((j : ℕ) → j ≢ i → get_or peers j no_peer ≡ peer_at worker j)
    → fd peers i ≡ 0
    → (old : ℕ) → old ≡ worker.highest_peer_i
    → ((j : ℕ) → (if ltb i old then old else highest_below peers i) < j → fd peers j ≡ 0)
      × ((if ltb i old then old else highest_below peers i) ≢ 0
          → fd peers (if ltb i old then old else highest_below peers i) ≢ 0)
new_highest worker peers i v rest gone old e =
    let kept : (j : ℕ) → j ≢ i → fd peers j ≡ fd worker.peers j =
      λ j h. ap (λ q. q.socket_fd) (rest j h) in
    elim (Bool-cases (ltb i old)) [
      | inl below ↦ rw below (
        (λ j h. kept j (λ k. ground arith) ∙ v.above j (omega arith)),
        λ h z.
            v.highest (λ k. h (e ∙ k))
              (ap (fd worker.peers) (sym e) ∙ sym (kept old (λ k. ground arith)) ∙ z),
      )
      | inr at_top ↦
          let (above, in_use) = highest_below_lem peers i in
          rw at_top (
            (λ j h. elim (Bool-cases (ltb j i)) [
              | inl lower ↦ above j h (ground arith)
              | inr upper ↦ elim (Bool-cases (j == i)) [
                | inl same ↦ let at : j ≡ i = ground arith in ap (fd peers) at ∙ gone
                | inr other ↦ kept j (λ k. ground arith) ∙ v.above j (ground arith)
              ]
            ]),
            in_use,
          )
    ]

terminate_tcp_lem :
    (worker w : Worker) (i : ℕ)
    → IsValid worker
    → i < length worker.peers
    → Agrees i worker w
    → Promises worker i (terminate_tcp w i)
unfolding terminate_tcp
terminate_tcp_lem worker w i v h a =
    let peers = set w.peers i no_peer in
    let (slots, freed, bits, low, ok_slots) =
      free_slot_lem (length worker.peers) worker.peer_slots i v.slots h in
    let freed' : free_slot w.peer_slots i ≡ some slots = ap (λ t. free_slot t i) a.slots ∙ freed in
    let size : length peers ≡ length worker.peers = length-set w.peers i no_peer ∙ a.size in
    let rest : (j : ℕ) → j ≢ i → get_or peers j no_peer ≡ peer_at worker j =
      λ j g. get_or-set_ne no_peer w.peers i j no_peer g ∙ a.others j g in
    let gone : fd peers i ≡ 0 = cleared w.peers i in
    let (none_above, in_use) = highest_below_lem peers i in
    let top = if ltb i w.highest_peer_i then w.highest_peer_i else highest_below peers i in
    let mark : (j : ℕ)
        → j < length worker.peers
        → (if j == i then false else taken worker.peer_slots.bytes j) ≡ not (fd peers j == 0) =
      λ j g. elim (Bool-cases (j == i)) [
        | inl same ↦
            let z : fd peers j ≡ 0 = (let at : j ≡ i = ground arith in ap (fd peers) at ∙ gone) in
            rw (same, z) refl
        | inr other ↦
            rw (other, v.marked j g)
              (ap (λ q. not (q.socket_fd == 0)) (sym (rest j (λ k. ground arith))))
      ] in
    let top_fits = new_highest worker peers i v rest gone w.highest_peer_i a.highest in
    (
      ok,
      record { peers = peers; highest_peer_i = top; peer_slots = slots },
      rw (terminate_tcp, freed') refl,
      record {
        slots = subst (λ n. ring_socket.Slot.Lowest.IsValid n slots) (sym size) ok_slots;
        marked = λ j g. bits j ∙ mark j (omega arith);
        above = λ j g. top_fits.0 j g;
        highest = top_fits.1;
      },
      rest,
    )

-- Draining a peer that shuts down leaves its socket.
read_shutdown_fd :
    (reads : Reads) (p : Peer) → (read_bidirectional_tcp_shutdown reads p).1.socket_fd ≡ p.socket_fd
unfolding read_bidirectional_tcp_shutdown
read_shutdown_fd (more n rest) p = read_shutdown_fd rest p
read_shutdown_fd end_of_stream p = refl
read_shutdown_fd (no_more true) p = refl
read_shutdown_fd (no_more false) p = refl

-- The peer is replaced by one with its socket.
kept_lem :
    (ret : Ret) (worker : Worker) (i : ℕ) (p : Peer)
    → IsValid worker
    → i < length worker.peers
    → p.socket_fd ≡ (peer_at worker i).socket_fd
    → Promises worker i (some (ret, set_peer worker i p))
kept_lem ret worker i p v h e = (
  ret,
  set_peer worker i p,
  refl,
  set_peer-IsValid i worker p v h e,
  (set_peer-Agrees i worker p).others,
)

either :
    (worker : Worker) (i : ℕ) (b : Bool) (x y : Option (Ret × Worker))
    → Promises worker i x
    → Promises worker i y
    → Promises worker i (if b then x else y)
either worker i true x y px py = px
either worker i false x y px py = py

Promises-others :
    (worker w : Worker) (i : ℕ) (result : Option (Ret × Worker))
    → ((j : ℕ) → j ≢ i → peer_at w j ≡ peer_at worker j)
    → Promises w i result
    → Promises worker i result
Promises-others worker w i result others (ret, w', e, v, others') =
    (ret, w', e, v, λ j h. others' j h ∙ others j h)

close_read_lem :
    (reads : Reads) (worker : Worker) (i : ℕ)
    → IsValid worker
    → i < length worker.peers
    → Promises worker i (close_read reads worker i)
unfolding close_read
close_read_lem reads worker i v h = go (read_bidirectional_tcp_shutdown reads p).0 refl
  where
    p : Peer
    p = peer_at worker i

    q : Peer
    q = (read_bidirectional_tcp_shutdown reads p).1

    gone : Promises worker i (terminate_tcp (set_peer worker i (record q { mortality = dead })) i)
    gone =
        terminate_tcp_lem worker (set_peer worker i (record q { mortality = dead })) i v h
          (set_peer-Agrees i worker (record q { mortality = dead }))

    go :
        (ret : Ret)
        → (read_bidirectional_tcp_shutdown reads p).0 ≡ ret
        → Promises worker i (close_read reads worker i)
    go ok e = rw (close_read, e) gone
    go close_peer e = rw (close_read, e) gone
    go again e = rw (close_read, e) (kept_lem ok worker i q v h (read_shutdown_fd reads p))
    go fatal e = rw (close_read, e) (kept_lem fatal worker i q v h (read_shutdown_fd reads p))

-- For a worker whose slots in use are those that the bitmap has as taken, and whose highest index is
-- right, `handle_tcp_io` of one of the peers makes no access outside of the slots, whatever the
-- kernel answers, leaves the other peers as they are, and keeps all of that right. The start of a TLS
-- session is assumed to leave the socket's number.
pub handle_tcp_io_lem :
    (init_tls_session : Peer → Ret × Peer)
    → ((p : Peer) → (init_tls_session p).1.socket_fd ≡ p.socket_fd)
    → (shutdown : Shutdown) (reads : Reads) (worker : Worker) (i : ℕ) → IsValid worker
    → i < length worker.peers
    → Promises worker i (handle_tcp_io init_tls_session shutdown reads worker i)
unfolding handle_tcp_io
handle_tcp_io_lem init keeps shutdown reads worker i v h =
    go (peer_at worker i).mortality refl shutdown
  where
    p : Peer
    p = peer_at worker i

    go :
        (m : Mortality)
        → p.mortality ≡ m
        → (answer : Shutdown) → Promises worker i (handle_tcp_io init answer reads worker i)
    go live e answer =
        rw (handle_tcp_io, e)
          (either worker i p.is_encrypted
            (some (
              (init (record p { layer = tls })).0,
              set_peer worker i (init (record p { layer = tls })).1,
            ))
            (some (ok, set_peer worker i (record p { layer = http })))
            (kept_lem (init (record p { layer = tls })).0 worker i
              (init (record p { layer = tls })).1 v h (keeps (record p { layer = tls })))
            (kept_lem ok worker i (record p { layer = http }) v h refl))
    go shutdown_write e done =
        let reading = set_peer worker i (record p { mortality = shutdown_read }) in
        let same = set_peer-Agrees i worker (record p { mortality = shutdown_read }) in
        rw (handle_tcp_io, e)
          (Promises-others worker reading i (close_read reads reading i) same.others (
            close_read_lem reads reading i
              (set_peer-IsValid i worker (record p { mortality = shutdown_read }) v h refl)
              (omega (arith, same.size))))
    go shutdown_write e not_connected =
        rw (handle_tcp_io, e)
          (terminate_tcp_lem worker (set_peer worker i (record p { mortality = dead })) i v h
            (set_peer-Agrees i worker (record p { mortality = dead })))
    go shutdown_write e failed = rw (handle_tcp_io, e) (fatal, worker, refl, v, λ j g. refl)
    go shutdown_read e answer = rw (handle_tcp_io, e) (close_read_lem reads worker i v h)
    go dead e answer =
        rw (handle_tcp_io, e)
          (terminate_tcp_lem worker worker i v h
            (record { size = refl; others = λ j g. refl; slots = refl; highest = refl }))
