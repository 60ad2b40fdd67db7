-- ===== src/Event/Loop/Received.antt =====
-- The results of `receive_from_app`.
use ring_socket.Prelude.{
  ℕ, zero, suc, ◌+◌, Bool, true, false, Option, none, some, List, [], ◌∷◌, leb, if◌then◌else◌, ◌==◌,
  ◌&&◌, not, get_or, drop,
}
use ring_socket.Websocket.{Ret, ok, again, close_peer, fatal}
use ring_socket.Peer.{shutdown_write, cont_sending}
use ring_socket.Ring.{consume_ring_msg, msg_at}
use ring_socket.Outbound.{peer_i, array_from, head_size}
use ring_socket.Owref.{ConsumerMsg}
use ring_socket.Worker.{Worker, Env, Step, guard, tick, peer_of, put_peer, write_peer}
use ring_socket.FromApp.Pending.{is_close, tell_app}
use ring_socket.FromApp.Newest.{
  Counted, counting, guard_counted, close_newest, keep_newest, send_newest_msg, send_to_each,
  send_to_all, send_by_kind, keep_owref, receive_msg, is_receptive, is_busy, set_reader,
  OutboundRings, bytes_behind, receive_from, receive_from_app,
}
use ring_socket.Event.Settled.{
  Settled, none-Settled, ok-Settled, fatal-Settled, guard-Settled, if-Settled, send_close-Settled,
}

abbrev step_of : Counted → Step
step_of none = none
step_of (some (ret, count, worker)) = some (ret, worker)

counting-Settled : (count : ℕ) (s : Step) → Settled s → Settled (step_of (counting count s))
counting-Settled count none h = none-Settled
counting-Settled count (some (ret, w)) h = h

guard_counted-Settled :
    (c : Counted) (next : ℕ → Worker → Counted)
    → Settled (step_of c)
    → ((count : ℕ) (w : Worker) → Settled (step_of (next count w)))
    → Settled (step_of (guard_counted c next))
guard_counted-Settled none next h f = none-Settled
guard_counted-Settled (some (ok, count, w)) next h f = f count w
guard_counted-Settled (some (again, count, w)) next h f = absurd h.settled
guard_counted-Settled (some (close_peer, count, w)) next h f = absurd h.settled
guard_counted-Settled (some (fatal, count, w)) next h f = fatal-Settled w

if_counted-Settled :
    (b : Bool) (x y : Counted)
    → Settled (step_of x)
    → Settled (step_of y)
    → Settled (step_of (if b then x else y))
if_counted-Settled true x y p q = p
if_counted-Settled false x y p q = q

elim_counted-Settled :
    (b : Bool) (x y : Counted)
    → Settled (step_of x)
    → Settled (step_of y)
    → Settled (step_of (elim b [ false ↦ x | true ↦ y ]))
elim_counted-Settled false x y p q = p
elim_counted-Settled true x y p q = q

module _ (env : Env) (handle : Worker → ℕ → Step)
    (settles : (w : Worker) (i : ℕ) → Settled (handle w i)) where
  close_newest-Settled :
      (worker : Worker) (i : ℕ) (frame : List ℕ) → Settled (close_newest env handle worker i frame)
  unfolding close_newest tell_app
  close_newest-Settled worker i frame =
      guard-Settled (tell_app env worker i frame) _
        (if-Settled (is_close frame) (ok-Settled worker) (send_close-Settled env worker i))
        (λ told. settles _ i)

  keep_newest-Settled :
      (count : ℕ) (worker : Worker) (i : ℕ) (frame : List ℕ)
      → Settled (step_of (keep_newest env handle count worker i frame))
  unfolding keep_newest
  keep_newest-Settled count worker i frame =
      if_counted-Settled ((peer_of worker i).owref_c == 65535) _ _
        (counting-Settled count _ (close_newest-Settled worker i frame)) (ok-Settled _)

  send_newest-Settled :
      (count : ℕ) (worker : Worker) (i : ℕ) (frame : List ℕ)
      → Settled (step_of (send_newest_msg env handle count worker i frame))
  unfolding send_newest_msg
  send_newest-Settled count worker i frame =
      if_counted-Settled (not (is_receptive (peer_of worker i))) _ _ (ok-Settled worker) (
        if_counted-Settled (is_busy (peer_of worker i)) _ _
          (keep_newest-Settled count worker i frame) (written (write_peer env worker i frame)))
    where
      written :
          (r : Ret × Worker)
          → Settled (
              step_of (elim r.0 as (λ x. Counted) [
                | ok ↦
                    if is_close frame
                    then counting count (
                        handle
                          (put_peer r.1 i (record (peer_of r.1 i) { mortality = shutdown_write }))
                          i)
                    else some (ok, count, r.1)
                | again ↦ some (
                  ok,
                  count + 1,
                  put_peer r.1 i (record (peer_of r.1 i) {
                    continuation = cont_sending;
                    owref_c = 1;
                    owref_i = r.1.refs.newest_owref_i;
                  }),
                )
                | close_peer ↦ counting count (close_newest env handle r.1 i frame)
                | fatal ↦ some (fatal, count, r.1)
              ]))
      written (ok, w) =
          if_counted-Settled (is_close frame) _ _ (counting-Settled count _ (settles _ i))
            (ok-Settled w)
      written (again, w) = ok-Settled _
      written (close_peer, w) = counting-Settled count _ (close_newest-Settled w i frame)
      written (fatal, w) = fatal-Settled w

  send_to_each-Settled :
      (frame peers : List ℕ) (count : ℕ) (worker : Worker)
      → Settled (step_of (send_to_each env handle frame peers count worker))
  unfolding send_to_each
  send_to_each-Settled frame [] count worker = ok-Settled worker
  send_to_each-Settled frame (p ∷ ps) count worker =
      guard_counted-Settled (send_newest_msg env handle count worker p frame) _
        (send_newest-Settled count worker p frame) (send_to_each-Settled frame ps)

  send_to_all-Settled :
      (frame : List ℕ) (app_i : ℕ) (test : ℕ → Bool) (fuel p count : ℕ) (worker : Worker)
      → Settled (step_of (send_to_all env handle frame app_i test fuel p count worker))
  unfolding send_to_all
  send_to_all-Settled frame app_i test zero p count worker = ok-Settled worker
  send_to_all-Settled frame app_i test (suc fuel) p count worker =
      elim_counted-Settled (leb p worker.net.highest_peer_i) _ _ (ok-Settled worker) (
        elim_counted-Settled ((peer_of worker p).app_i == app_i && test p) _ _
          (send_to_all-Settled frame app_i test fuel (p + 1) count worker)
          (guard_counted-Settled (send_newest_msg env handle count worker p frame) _
            (send_newest-Settled count worker p frame)
            (send_to_all-Settled frame app_i test fuel (p + 1))))

  send_by_kind-Settled :
      (app_i : ℕ) (msg behind : List ℕ) (worker : Worker)
      → Settled (step_of (send_by_kind env handle app_i msg behind worker))
  unfolding send_by_kind
  send_by_kind-Settled app_i msg behind worker =
      let kind = get_or msg 0 0 in
      let frame = drop (head_size msg) msg in
      let all = λ (test : ℕ → Bool).
        send_to_all-Settled frame app_i test (worker.net.highest_peer_i + 1) 0 0 worker in
      if_counted-Settled (kind == 0) _ _ (send_to_each-Settled frame (peer_i msg 1 0 ∷ []) 0 worker)
        (if_counted-Settled (kind == 1) _ _
          (send_to_each-Settled frame (array_from msg (peer_i msg 1 0) 0) 0 worker)
          (if_counted-Settled (kind == 2) _ _ (all _)
            (if_counted-Settled (kind == 3) _ _ (all _) (all _))))

  receive_msg-Settled :
      (app_i : ℕ) (cmsg : ConsumerMsg) (behind : List ℕ) (worker : Worker)
      → Settled (receive_msg env handle app_i cmsg behind worker)
  unfolding receive_msg
  receive_msg-Settled app_i cmsg behind worker =
      go (send_by_kind env handle app_i cmsg.msg behind worker)
        (send_by_kind-Settled app_i cmsg.msg behind worker)
    where
      kept :
          (o : Option Worker)
          → Settled (elim o as (λ x. Step) [ none ↦ none | some w ↦ some (ok, w) ])
      kept none = none-Settled
      kept (some w) = ok-Settled w

      go :
          (c : Counted)
          → Settled (step_of c)
          → Settled (elim c as (λ x. Step) [
            | none ↦ none
            | some (ok, count, w) ↦ elim (keep_owref env app_i cmsg count w) [
              | none ↦ none
              | some kept ↦ some (ok, kept)
            ]
            | some (ret, count, w) ↦ some (ret, w)
          ])
      go none h = none-Settled
      go (some (ok, count, w)) h = kept (keep_owref env app_i cmsg count w)
      go (some (again, count, w)) h = h
      go (some (close_peer, count, w)) h = h
      go (some (fatal, count, w)) h = h

  module _ (out : OutboundRings) where
    receive_from-Settled :
        (app_i fuel : ℕ) (worker : Worker) → Settled (receive_from env out handle app_i fuel worker)
    unfolding receive_from
    receive_from-Settled app_i zero worker = none-Settled
    receive_from-Settled app_i (suc fuel) worker =
        go
          (consume_ring_msg (out.mem worker.clock) (out.loaded_w worker.clock app_i)
            (get_or worker.refs.readers app_i 0))
          (receive_from-Settled app_i fuel)
      where
        go :
            (o : Option (ℕ × ℕ))
            → ((w : Worker) → Settled (receive_from env out handle app_i fuel w))
            → Settled (elim o as (λ x. Step) [
              | none ↦ some (ok, worker)
              | some (address, r) ↦
                  guard
                    (receive_msg env handle app_i
                      (record { address = address; msg = msg_at (out.mem worker.clock) address })
                      (bytes_behind (out.mem worker.clock) address)
                      (tick (set_reader worker app_i r)))
                    (receive_from env out handle app_i fuel)
            ])
        go none later = ok-Settled worker
        go (some (address, r)) later =
            guard-Settled _ _
              (receive_msg-Settled app_i
                (record { address = address; msg = msg_at (out.mem worker.clock) address })
                (bytes_behind (out.mem worker.clock) address) (tick (set_reader worker app_i r)))
              later

    pub receive_from_app-Settled :
        (fuel n app_i : ℕ) (worker : Worker)
        → Settled (receive_from_app env out handle fuel n app_i worker)
    unfolding receive_from_app
    receive_from_app-Settled fuel zero app_i worker = ok-Settled worker
    receive_from_app-Settled fuel (suc n) app_i worker =
        guard-Settled _ _ (receive_from-Settled app_i fuel worker)
          (receive_from_app-Settled fuel n (app_i + 1))
