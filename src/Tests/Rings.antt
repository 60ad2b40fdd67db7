-- ===== src/Tests/Rings.antt =====
-- The ring buffers.
use ring_socket.Prelude.{ℕ, ◌*◌, ◌≡◌, ◌≢◌, inl, refl, sym, Option, some, List, [], ◌∷◌, ◌++◌, arith}
use mathlib.Core.Option.{some-injective}
use ring_socket.Ring.{
  Heap, Producer, ok, put_msg, produce_ring_msg, consume_ring_msg, msg_at, produce_near, put_head,
  free_prev, store_bytes, store64, load64, load_bytes,
}
use ring_socket.Wire.Bytes.{le_bytes, of_le}
use ring_socket.Ring.Fifo.{fifo_lem}
use ring_socket.Ring.Threads.{
  System, send, queue_w, store_w, consume, Reaches, here, after, Initial,
}
use ring_socket.Ring.Layout.{IsValid, straight}
use ring_socket.Ring.Send.{Refused, Sends, Fresh, send_lem}

abbrev pub heap : Heap
heap = record { mem = λ x. 0; freed = [] }

abbrev pub producer : Producer
producer = record { ring = 1000; w = 1000; prev_ring = 0; ring_size = 64 }

abbrev pub grow : ℕ → ℕ
grow size = 2 * size

-- The next buffer stands far behind.
abbrev pub alloc : ℕ → Option ℕ
alloc size = some 5000

pub producer-IsValid : IsValid producer 1000 []
producer-IsValid = record {
  layout = straight tt (omega arith) (omega arith);
  ends = refl;
  distinct = tt;
}

new_ring-Fresh :
    (a : ℕ)
    → alloc (grow producer.ring_size) ≡ some a
    → Fresh producer (grow producer.ring_size) a 3
new_ring-Fresh a e =
    let at : a ≡ 5000 = sym (some-injective 5000 a e) in
    record { apart = inl (omega arith); fits = omega arith; room = omega arith }

send_lem_example :
    Sends
      (Refused alloc grow producer 1000 3)
      1000
      []
      (7 ∷ 8 ∷ 9 ∷ [])
      (put_msg (7 ∷ 8 ∷ 9 ∷ []) (produce_ring_msg alloc grow heap producer 1000 3))
send_lem_example =
    send_lem alloc grow 1000 [] (7 ∷ 8 ∷ 9 ∷ []) (omega arith) (omega arith) heap producer
      producer-IsValid tt (omega arith) new_ring-Fresh

-- The producer sends a message, and the consumer takes it.
abbrev message : List ℕ
message = 7 ∷ 8 ∷ 9 ∷ []

abbrev idle : System
idle = record {
  heap = heap;
  prod = producer;
  w_queued = 1000;
  w_shared = 1000;
  r = 1000;
  r_queued = 1000;
  r_shared = 1000;
  sent = [];
  received = [];
}

abbrev heap_with_message : Heap
heap_with_message = record heap { mem = store_bytes (store64 heap.mem 1000 3) 1008 message }

abbrev sending : System
sending = record idle {
  heap = heap_with_message;
  prod = record producer { w = 1011 };
  sent = message ∷ [];
}

abbrev published : System
published = record sending { w_queued = 1011; w_shared = 1011 }

abbrev received : System
received = record published { r = 1011; received = msg_at heap_with_message.mem 1000 ∷ [] }

produced :
    put_msg message (produce_ring_msg alloc grow heap producer 1000 3)
    ≡ ok heap_with_message (record producer { w = 1011 })
unfolding put_msg produce_ring_msg produce_near free_prev put_head store64
produced = refl

consumed : consume_ring_msg heap_with_message.mem 1011 1000 ≡ some (1000, 1011)
unfolding consume_ring_msg load64 load_bytes of_le store_bytes store64 le_bytes
consumed = refl

idle-Reaches : Reaches grow idle received
idle-Reaches =
    after published received
      (after (record sending { w_queued = 1011 }) published
        (after sending (record sending { w_queued = 1011 })
          (after idle sending here (
            send alloc message heap_with_message (record producer { w = 1011 }) (omega arith)
              (omega arith) (omega arith) new_ring-Fresh produced))
          queue_w)
        store_w)
      (consume 1000 1011 consumed)

idle-Initial : Initial idle
idle-Initial = record {
  w_start = refl;
  room = omega arith;
  w_queued_start = refl;
  w_shared_start = refl;
  r_start = refl;
  r_queued_start = refl;
  r_shared_start = refl;
  none_sent = refl;
  none_received = refl;
}

fifo_lem_example :
    (pending : List (List ℕ)) × (received.sent ≡ received.received ++ pending)
    × (received.r ≡ received.prod.w → pending ≡ [])
    × (received.r ≢ received.w_shared
        → (a r' : ℕ) × (consume_ring_msg received.heap.mem received.w_shared received.r
            ≡ some (a, r')))
fifo_lem_example = fifo_lem grow idle received idle-Initial idle-Reaches
