-- ===== src/Socket/Accepted.antt =====
-- New connections and the table of the peers.
use mathlib.Core.Path.{subst}
use ring_socket.Prelude.{
  ℕ, ◌*◌, ◌<◌, ◌≡◌, ◌≢◌, ◌⊎◌, inl, inr, refl, sym, ap, ◌∙◌, Bool, true, not, Option, some, List,
  length, set, arith, if◌then◌else◌, ◌==◌, ltb, Bool-cases, length-set, get_or-set_self,
  get_or-set_ne,
}
use ring_socket.Websocket.{Ret, ok, fatal}
use ring_socket.Peer.{Peer, no_peer}
use ring_socket.Slot.{Slots, Alloc, alloc_slot, done, again, fault}
use ring_socket.Slot.Lowest.{taken, Allocated, Full, alloc_slot_lem}
use ring_socket.Tcp.{Worker, peer_at}
use ring_socket.Tcp.Peers.{IsValid, fd}
use ring_socket.Socket.{Accepts, accepted, aborted, no_more, failed, new_peer, accept_sockets}

-- The search for a slot begins inside of the bitmap.
abbrev pub IsReady : Worker → Type 0
IsReady worker = IsValid worker × (worker.peer_slots.i < 8 * length worker.peer_slots.bytes)

-- No connection has the socket 0, which stands for no peer.
abbrev pub NoZero : Accepts → Type 0
NoZero (accepted socket_fd closes rest) = (socket_fd ≢ 0) × NoZero rest
NoZero (aborted rest) = NoZero rest
NoZero no_more = Unit
NoZero failed = Unit

highest_kept :
    (worker : Worker) (peers : List Peer) (j socket_fd : ℕ)
    → IsValid worker
    → socket_fd ≢ 0
    → fd peers j ≡ socket_fd
    → ((k : ℕ) → k ≢ j → fd peers k ≡ fd worker.peers k)
    → (old : ℕ) → old ≡ worker.highest_peer_i
    → (if ltb old j then j else old) ≢ 0
    → fd peers (if ltb old j then j else old) ≢ 0
highest_kept worker peers j socket_fd v nonzero here rest old e = elim (Bool-cases (ltb old j)) [
  | inl up ↦ rw up (λ h z. nonzero (sym here ∙ z))
  | inr down ↦ rw down (λ h z. elim (Bool-cases (old == j)) [
    | inl same ↦ nonzero (sym here ∙ (let at : j ≡ old = ground arith in ap (fd peers) at) ∙ z)
    | inr other ↦
        v.highest (λ k. h (e ∙ k))
          (ap (fd worker.peers) (sym e) ∙ sym (rest old (λ k. ground arith)) ∙ z)
  ])
]

-- The slot that `alloc_slot` gave goes to the new peer.
new_peer-IsValid :
    (worker : Worker) (slots : Slots) (j : ℕ) (is_encrypted : Bool) (socket_fd : ℕ)
    → IsValid worker
    → socket_fd ≢ 0
    → Allocated (length worker.peers) worker.peer_slots j slots
    → IsValid (new_peer (record worker { peer_slots = slots }) j is_encrypted socket_fd)
new_peer-IsValid worker slots j is_encrypted socket_fd v nonzero a =
    let p = record (peer_at worker j) { socket_fd = socket_fd; is_encrypted = is_encrypted } in
    let peers = set worker.peers j p in
    let size : length peers ≡ length worker.peers = length-set worker.peers j p in
    let here : fd peers j ≡ socket_fd =
      ap (λ q. q.socket_fd) (get_or-set_self no_peer worker.peers j p a.in_range) in
    let rest : (k : ℕ) → k ≢ j → fd peers k ≡ fd worker.peers k =
      λ k h. ap (λ q. q.socket_fd) (get_or-set_ne no_peer worker.peers j k p h) in
    record {
      slots = subst (λ n. ring_socket.Slot.Lowest.IsValid n slots) (sym size) a.valid;
      marked = λ k h. a.now k ∙ elim (Bool-cases (k == j)) [
        | inl same ↦
            let at : fd peers k ≡ socket_fd =
              (let e : k ≡ j = ground arith in ap (fd peers) e) ∙ here in
            rw (same, at) (ground arith)
        | inr other ↦
            rw (other, v.marked k (omega arith))
              (ap (λ x. not (x == 0)) (sym (rest k (λ e. ground arith))))
      ];
      above = λ k h. rest k (λ e. ground arith) ∙ v.above k (ground arith);
      highest =
          highest_kept worker peers j socket_fd v nonzero here rest worker.highest_peer_i refl;
    }

-- A new connection: its peer is in the lowest slot that was free, which is taken now, and the other
-- peers are as they were.
pub record Joins (is_encrypted : Bool) (socket_fd : ℕ) (worker worker' : Worker) : Type 0 where
  pub slot : ℕ
  pub allocated : Allocated (length worker.peers) worker.peer_slots slot worker'.peer_slots
  pub here :
      peer_at worker' slot
      ≡ record (peer_at worker slot) { socket_fd = socket_fd; is_encrypted = is_encrypted }
  pub others : (k : ℕ) → k ≢ slot → peer_at worker' k ≡ peer_at worker k

-- From a worker and the answers of the kernel that are to come to those after some connections.
pub data Serves (is_encrypted : Bool) : Worker → Accepts → Worker → Accepts → Type 0 where
  stays : (worker : Worker) (accepts : Accepts) → Serves is_encrypted worker accepts worker accepts
  joins :
      (worker next worker' : Worker) (socket_fd : ℕ) (closes : Bool) (rest rest' : Accepts)
      → Joins is_encrypted socket_fd worker next
      → Serves is_encrypted next rest worker' rest'
      → Serves is_encrypted worker (accepted socket_fd closes rest) worker' rest'
  skips :
      (worker worker' : Worker) (rest rest' : Accepts)
      → Serves is_encrypted worker rest worker' rest'
      → Serves is_encrypted worker (aborted rest) worker' rest'

-- The answer that ends the loop, with what is returned then.
abbrev pub IsLast : Ret → Accepts → Type 0
IsLast ok no_more = Unit
IsLast fatal failed = Unit
IsLast _ _ = ⊥

-- What `accept_sockets` promises: it serves all connections and returns with a valid worker; or it
-- serves those up to one for which no slot is left, of a worker that is valid until then.
abbrev pub Accepted : Bool → Accepts → Worker → Option (Ret × Worker) → Type 0
Accepted is_encrypted accepts worker result =
    ((ret : Ret) × (worker' : Worker) × (last : Accepts) × Serves is_encrypted worker accepts
        worker' last
      × IsLast ret last
      × (result ≡ some (ret, worker'))
      × IsValid worker')
    ⊎ ((worker' : Worker) × (socket_fd : ℕ) × (closes : Bool) × (rest : Accepts) × Serves
          is_encrypted worker accepts worker' (accepted socket_fd closes rest)
        × (result ≡ accept_sockets is_encrypted (accepted socket_fd closes rest) worker')
        × IsValid worker'
        × ((k : ℕ) → taken worker'.peer_slots.bytes k ≡ true))

-- A served connection, or an answer that is skipped, in front.
before_lem :
    (is_encrypted : Bool) (accepts accepts' : Accepts) (worker worker' : Worker)
    (result : Option (Ret × Worker))
    → ((w : Worker) (last : Accepts)
        → Serves is_encrypted worker' accepts' w last
        → Serves is_encrypted worker accepts w last)
    → Accepted is_encrypted accepts' worker' result
    → Accepted is_encrypted accepts worker result
before_lem is_encrypted accepts accepts' worker worker' result f (inl (ret, w, last, s, x, y, z)) =
    inl (ret, w, last, f w last s, x, y, z)
before_lem is_encrypted accepts accepts' worker worker' result f
      (inr (w, socket_fd, closes, rest, s, x, y, z)) =
    inr (w, socket_fd, closes, rest, f w (accepted socket_fd closes rest) s, x, y, z)

-- For a worker whose slots in use are those that the bitmap has as taken, whose highest index is
-- right and whose search for a slot begins inside of the bitmap, and whatever the kernel answers:
-- `accept_sockets` puts each connection in the lowest slot that is free, with its socket and whether
-- it is encrypted, keeps the other peers and that the worker is right, makes no access outside of the
-- bitmap, and returns RS_OK, or RS_FATAL if the last answer is a failure; or it does so up to a
-- connection at which all of the slots are taken. No connection has the socket 0.
pub accept_sockets_lem :
    (is_encrypted : Bool) (accepts : Accepts) (worker : Worker)
    → IsReady worker
    → NoZero accepts
    → Accepted is_encrypted accepts worker (accept_sockets is_encrypted accepts worker)
unfolding accept_sockets
accept_sockets_lem is_encrypted no_more worker v n =
    inl (ok, worker, no_more, stays worker no_more, tt, refl, v.0)
accept_sockets_lem is_encrypted failed worker v n =
    inl (fatal, worker, failed, stays worker failed, tt, refl, v.0)
accept_sockets_lem is_encrypted (aborted rest) worker v n =
    before_lem is_encrypted (aborted rest) rest worker worker
      (accept_sockets is_encrypted rest worker) (λ w last s. skips worker w rest last s)
      (accept_sockets_lem is_encrypted rest worker v n)
accept_sockets_lem is_encrypted (accepted socket_fd closes rest) worker v n =
    elim (alloc_slot_lem (length worker.peers) worker.peer_slots v.0.slots v.1) [
      | inr (slots, e, full) ↦ inr (
        worker,
        socket_fd,
        closes,
        rest,
        stays worker (accepted socket_fd closes rest),
        refl,
        v.0,
        full.all_taken,
      )
      | inl (j, slots, e, a) ↦
          let next = new_peer (record worker { peer_slots = slots }) j is_encrypted socket_fd in
          let p = record (peer_at worker j) {
            socket_fd = socket_fd;
            is_encrypted = is_encrypted;
          } in
          let valid = new_peer-IsValid worker slots j is_encrypted socket_fd v.0 n.0 a in
          let joined : Joins is_encrypted socket_fd worker next = record {
            slot = j;
            allocated = a;
            here = get_or-set_self no_peer worker.peers j p a.in_range;
            others = λ k ne. get_or-set_ne no_peer worker.peers j k p ne;
          } in
          subst (Accepted is_encrypted (accepted socket_fd closes rest) worker)
            (sym (rw (accept_sockets, e) refl))
            (before_lem is_encrypted (accepted socket_fd closes rest) rest worker next
              (accept_sockets is_encrypted rest next)
              (λ w last s. joins worker next w socket_fd closes rest last joined s)
              (accept_sockets_lem is_encrypted rest next
                (valid, omega (arith, a.in_range, a.next_search, a.valid.size)) n.1))
    ]
