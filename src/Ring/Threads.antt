-- ===== src/Ring/Threads.antt =====
-- A producer and a consumer thread on one ring, in any order of their steps. The positions that a
-- thread publishes may lag behind its own, as the update queues of ringsocket_queue.h delay them.
use ring_socket.Prelude.{ℕ, ◌+◌, ◌^◌, ◌≤◌, ◌<◌, ◌≡◌, Option, some, List, [], ◌∷◌, ◌++◌, length}
use ring_socket.Ring.{Heap, Producer, ok, over, produce_ring_msg, put_msg, consume_ring_msg, msg_at}
use ring_socket.Ring.Send.{Fresh}

-- The two threads. `w_shared` and `r_shared` are the atomics; `w_queued` and `r_queued` are the
-- positions that wait to be stored there. `sent` and `received` are the messages so far.
pub record System : Type 0 where
  pub heap : Heap
  pub prod : Producer
  pub w_queued : ℕ
  pub w_shared : ℕ
  pub r : ℕ
  pub r_queued : ℕ
  pub r_shared : ℕ
  pub sent : List (List ℕ)
  pub received : List (List ℕ)

-- A step of either thread: a send that does not fail, a consumed message, or a position that is
-- queued or stored. The memory that a send allocates, if it does, is fresh, and addresses have 64
-- bits.
pub data Step (grow : ℕ → ℕ) (s : System) : System → Type 0 where
  send :
      (alloc : ℕ → Option ℕ) (xs : List ℕ) (h : Heap) (p : Producer)
      → 0 < length xs
      → length xs < 2 ^ 64
      → s.prod.ring < 2 ^ 64
      → ((a : ℕ)
          → alloc (grow s.prod.ring_size) ≡ some a
          → Fresh s.prod (grow s.prod.ring_size) a (length xs))
      → put_msg xs (produce_ring_msg alloc grow s.heap s.prod s.r_shared (length xs)) ≡ ok h p
      → Step grow s (record s { heap = h; prod = p; sent = s.sent ++ xs ∷ [] })
  queue_w : Step grow s (record s { w_queued = s.prod.w })
  store_w : Step grow s (record s { w_shared = s.w_queued })
  consume :
      (a r' : ℕ)
      → consume_ring_msg s.heap.mem s.w_shared s.r ≡ some (a, r')
      → Step grow s (record s { r = r'; received = s.received ++ msg_at s.heap.mem a ∷ [] })
  queue_r : Step grow s (record s { r_queued = s.r })
  store_r : Step grow s (record s { r_shared = s.r_queued })

pub data Reaches (grow : ℕ → ℕ) (s : System) : System → Type 0 where
  here : Reaches grow s s
  after : (t u : System) → Reaches grow s t → Step grow t u → Reaches grow s u

-- A ring as it is first set up: all positions are its start, and it has room for a route
-- instruction.
pub record Initial (s : System) : Type 0 where
  pub w_start : s.prod.w ≡ s.prod.ring
  pub room : s.prod.ring + 16 ≤ over s.prod
  pub w_queued_start : s.w_queued ≡ s.prod.ring
  pub w_shared_start : s.w_shared ≡ s.prod.ring
  pub r_start : s.r ≡ s.prod.ring
  pub r_queued_start : s.r_queued ≡ s.prod.ring
  pub r_shared_start : s.r_shared ≡ s.prod.ring
  pub none_sent : s.sent ≡ []
  pub none_received : s.received ≡ []
