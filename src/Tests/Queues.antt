-- ===== src/Tests/Queues.antt =====
-- The queue of ring updates.
use ring_socket.Prelude.{true, false, refl, [], ◌∷◌, arith}
use ring_socket.Queue.{Update, Queue, Shared}
use ring_socket.Queue.Contents.{Enqueues, enqueue_lem}
use ring_socket.Queue.Flushed.{Flushes, flush_lem}

-- Two writes for thread 1 and a read for thread 0 between them; the oldest one is at index 2.
abbrev three_updates : Queue
three_updates = record {
  updates =
      record { ring_position = 70; thread_i = 0; is_write = false }
      ∷ record { ring_position = 90; thread_i = 1; is_write = true }
      ∷ record { ring_position = 80; thread_i = 1; is_write = true }
      ∷ [];
  oldest_i = 2;
}

abbrev all_asleep : Shared
all_asleep = record { value = λ a i. 60; is_asleep = λ i. true; woken = [] }

abbrev newest_update : Update
newest_update = record { ring_position = 100; thread_i = 0; is_write = true }

enqueue_lem_example : Enqueues (λ i. true) true (λ i. refl) three_updates all_asleep newest_update
enqueue_lem_example =
    enqueue_lem (λ i. true) true (λ i. refl) three_updates all_asleep newest_update (omega arith)

flush_lem_example : Flushes (λ i. true) false (λ i. refl) three_updates all_asleep 2
flush_lem_example = flush_lem (λ i. true) false (λ i. refl) three_updates all_asleep 2 (omega arith)
