-- ===== src/Tests/Peers.antt =====
-- References to messages, and deadlines.
use ring_socket.Prelude.{ℕ, ◌+◌, ◌^◌, ◌≡◌, ◌<◌, refl, true, Option, some, [], ◌∷◌, arith, ltb}
use ring_socket.Peer.{no_peer}
use ring_socket.Outbound.{is_found}
use ring_socket.Owref.{
  Owref, Worker, no_owref, decrement_pending_owref_count, find_next_owref_for_peer, is_next,
}
use ring_socket.Owref.Release.{Decrements, decrement_lem}
use ring_socket.Owref.Search.{First, find_next_lem}
use ring_socket.Deadline.{set_shutdown_deadline, is_overdue}
use ring_socket.Deadline.Wraps.{deadline_bounds, overdue_lem, overdue_early}

-- A message to peer 7 alone, one to all, and room for one more.
abbrev to_one : Owref
to_one = record {
  cmsg = some (record { address = 1000; msg = 0 ∷ 7 ∷ 0 ∷ 0 ∷ 0 ∷ [] });
  remaining_recipient_c = 1;
  head_size = 5;
  app_i = 0;
}

abbrev to_all : Owref
to_all = record {
  cmsg = some (record { address = 2000; msg = 2 ∷ [] });
  remaining_recipient_c = 3;
  head_size = 1;
  app_i = 0;
}

abbrev worker : Worker
worker = record {
  owrefs = to_one ∷ to_all ∷ no_owref ∷ [];
  newest_owref_i = 2;
  oldest_owref_i_by_app = 0 ∷ [];
  readers = 3000 ∷ [];
}

decrement_lem_example :
    (worker' : Worker) × (released : Option (ℕ × ℕ)) × (decrement_pending_owref_count worker 0
      ≡ some (worker', released))
    × Decrements worker 0 worker' released
decrement_lem_example =
    decrement_lem worker 0 (omega arith) (omega arith) (omega arith) (omega arith) (omega arith)

to_all-is_next : is_next 7 to_all ≡ true
unfolding is_found
to_all-is_next = refl

find_next_lem_example :
    (j : ℕ) × (find_next_owref_for_peer worker 7 3 0 ≡ some j) × First worker 7 0 j
find_next_lem_example = find_next_lem worker 7 3 0 1 (omega arith) (omega arith) to_all-is_next

deadline_bounds_example :
    (0 < (set_shutdown_deadline 70000 no_peer 30).shutdown_deadline)
    × ((set_shutdown_deadline 70000 no_peer 30).shutdown_deadline < 2 ^ 16)
deadline_bounds_example = deadline_bounds 70000 30 no_peer

overdue_lem_example :
    is_overdue 70031 (set_shutdown_deadline 70000 no_peer 30) ≡ ltb (70000 + 30) 70031
overdue_lem_example = overdue_lem 70000 30 70031 no_peer (omega arith) (omega arith) (omega arith)

overdue_early_example : is_overdue 65520 (set_shutdown_deadline 65510 no_peer 30) ≡ true
overdue_early_example =
    overdue_early 65510 30 65520 no_peer (omega arith) (omega arith) (omega arith)
