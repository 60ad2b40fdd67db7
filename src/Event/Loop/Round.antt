-- ===== src/Event/Loop/Round.antt =====
-- How a round of the loop of a worker thread ends.
use ring_socket.Prelude.{
  ℕ, zero, suc, ◌+◌, ◌≡◌, refl, Bool, true, false, Option, none, some, List, [], ◌∷◌, leb, ltb,
  if◌then◌else◌, ◌||◌,
}
use ring_socket.Websocket.{Ret, ok, again, close_peer, fatal}
use ring_socket.Slot.{alloc_slot}
use ring_socket.Slot
use ring_socket.Socket.{Accepts, accepted, aborted, no_more, failed, accept_sockets}
use ring_socket.Tcp
use ring_socket.Deadline.{is_overdue}
use ring_socket.Worker.{Worker, Env, Step, tick, peer_of}
use ring_socket.FromApp.Newest.{OutboundRings}
use ring_socket.Http.Io.{Request}
use ring_socket.Event.{no_events, handle_peer_events, enforce_from, declare_dead}
use ring_socket.Event.Settled.{
  Settled, none-Settled, ok-Settled, fatal-Settled, guard-Settled, if-Settled, elim-Settled,
}
use ring_socket.Event.Layers.{peer_events_lem}
use ring_socket.Event.Loop.{
  Happened, peer_event, listen_event, eventfd_event, Waited, Looping, events_of, flush, timed,
  then_timed, handle_event, handle_each, enforce_each_minute, handle_round, loop_round,
}
use ring_socket.Event.Loop.Received.{receive_from_app-Settled}

-- A round goes on, or ends with RS_FATAL, if C does not leave it undefined and it ends.
abbrev pub GoesOn : Option (Ret × Looping) → Type 0
GoesOn none = Unit
GoesOn (some (ok, state)) = Unit
GoesOn (some (again, state)) = ⊥
GoesOn (some (close_peer, state)) = ⊥
GoesOn (some (fatal, state)) = Unit

timed-GoesOn : (timestamp : ℕ) (s : Step) → Settled s → GoesOn (timed timestamp s)
timed-GoesOn timestamp none h = tt
timed-GoesOn timestamp (some (ok, w)) h = tt
timed-GoesOn timestamp (some (again, w)) h = h.settled
timed-GoesOn timestamp (some (close_peer, w)) h = h.settled
timed-GoesOn timestamp (some (fatal, w)) h = tt

then_timed-GoesOn :
    (timestamp : ℕ) (s : Step) (next : Worker → Option (Ret × Looping))
    → Settled s
    → ((w : Worker) → GoesOn (next w))
    → GoesOn (then_timed timestamp s next)
then_timed-GoesOn timestamp none next h f = tt
then_timed-GoesOn timestamp (some (ok, w)) next h f = f w
then_timed-GoesOn timestamp (some (again, w)) next h f = h.settled
then_timed-GoesOn timestamp (some (close_peer, w)) next h f = h.settled
then_timed-GoesOn timestamp (some (fatal, w)) next h f = tt

-- The same for the table of the peers.
abbrev as_step : Worker → Option (Ret × Tcp.Worker) → Step
as_step worker none = none
as_step worker (some (ret, net)) = some (ret, tick (record worker { net = net }))

accept-Settled :
    (is_encrypted : Bool) (accepts : Accepts) (worker : Worker) (net : Tcp.Worker)
    → Settled (as_step worker (accept_sockets is_encrypted accepts net))
unfolding accept_sockets
accept-Settled is_encrypted (accepted socket_fd closes rest) worker net =
    go (alloc_slot net.peer_slots) refl (accept-Settled is_encrypted rest worker)
  where
    go :
        (a : Slot.Alloc)
        → alloc_slot net.peer_slots ≡ a
        → ((n : Tcp.Worker) → Settled (as_step worker (accept_sockets is_encrypted rest n)))
        → Settled
            (as_step worker (accept_sockets is_encrypted (accepted socket_fd closes rest) net))
    go Slot.fault e later = rw (accept_sockets, e) none-Settled
    go (Slot.again slots) e later = rw (accept_sockets, e) (refused closes)
      where
        refused :
            (b : Bool)
            → Settled (
                as_step worker (
                  if b
                  then accept_sockets is_encrypted rest (record net { peer_slots = slots })
                  else some (fatal, record net { peer_slots = slots })))
        refused true = later _
        refused false = fatal-Settled _
    go (Slot.done i slots) e later = rw (accept_sockets, e) (later _)
accept-Settled is_encrypted (aborted rest) worker net = accept-Settled is_encrypted rest worker net
accept-Settled is_encrypted no_more worker net = ok-Settled _
accept-Settled is_encrypted failed worker net = fatal-Settled _

module _ (env : Env) (key_hash : List ℕ → Option (List ℕ)) (parse : Worker → ℕ → Request) where
  enforce-Settled :
      (reads depth timestamp fuel i : ℕ) (worker : Worker)
      → Settled (enforce_from env key_hash parse reads depth timestamp fuel i worker)
  unfolding enforce_from
  enforce-Settled reads depth timestamp zero i worker = ok-Settled worker
  enforce-Settled reads depth timestamp (suc fuel) i worker =
      elim-Settled (leb i worker.net.highest_peer_i) (ok-Settled worker) (
        elim-Settled (is_overdue timestamp (peer_of worker i))
          (enforce-Settled reads depth timestamp fuel (i + 1) worker)
          (guard-Settled _ _
            (peer_events_lem env key_hash parse reads depth no_events (declare_dead worker i) i)
            (enforce-Settled reads depth timestamp fuel (i + 1))))

  handle_event-Settled :
      (reads depth : ℕ) (e : Happened) (worker : Worker)
      → Settled (handle_event env key_hash parse reads depth e worker)
  unfolding handle_event
  handle_event-Settled reads depth (peer_event i events) worker =
      peer_events_lem env key_hash parse reads depth events worker i
  handle_event-Settled reads depth (listen_event is_encrypted events accepts) worker =
      if-Settled (events.err || events.hup) (fatal-Settled worker) (
        go (accept_sockets is_encrypted accepts worker.net)
          (accept-Settled is_encrypted accepts worker worker.net))
    where
      go :
          (o : Option (Ret × Tcp.Worker))
          → Settled (as_step worker o)
          → Settled (elim o as (λ x. Step) [
            | none ↦ none
            | some (ret, net) ↦ some (ret, tick (record worker { net = net }))
          ])
      go none h = h
      go (some r) h = h
  handle_event-Settled reads depth (eventfd_event events is_read) worker =
      if-Settled (events.err || events.hup) (fatal-Settled worker)
        (if-Settled is_read (ok-Settled worker) (fatal-Settled worker))

  handle_each-Settled :
      (reads depth : ℕ) (events : List Happened) (worker : Worker)
      → Settled (handle_each env key_hash parse reads depth events worker)
  unfolding handle_each
  handle_each-Settled reads depth [] worker = ok-Settled worker
  handle_each-Settled reads depth (e ∷ events) worker =
      guard-Settled _ _ (handle_event-Settled reads depth e worker)
        (handle_each-Settled reads depth events)

  enforce-GoesOn :
      (reads depth timestamp : ℕ) (worker : Worker)
      → GoesOn (enforce_each_minute env key_hash parse reads depth timestamp worker)
  unfolding enforce_each_minute
  enforce-GoesOn reads depth timestamp worker = go (ltb (timestamp + 60) (env.time worker.clock))
    where
      go :
          (b : Bool)
          → GoesOn (
              if b
              then timed (env.time worker.clock) (
                  enforce_from env key_hash parse reads depth
                    (env.time worker.clock)
                    (worker.net.highest_peer_i + 1)
                    0
                    (tick worker))
              else timed timestamp (some (ok, tick worker)))
      go true = timed-GoesOn _ _ (enforce-Settled reads depth _ _ 0 (tick worker))
      go false = tt

  module _ (out : OutboundRings) (app_c reads depth messages : ℕ) where
    round-GoesOn :
        (timestamp : ℕ) (events : List Happened) (worker : Worker)
        → GoesOn
            (handle_round env key_hash parse out app_c reads depth messages timestamp events worker)
    unfolding handle_round
    round-GoesOn timestamp events worker =
        then_timed-GoesOn timestamp _ _
          (guard-Settled _ _ (handle_each-Settled reads depth events worker) (
            receive_from_app-Settled env
              (handle_peer_events env key_hash parse reads depth no_events)
              (peer_events_lem env key_hash parse reads depth no_events) out messages app_c 0))
          (enforce-GoesOn reads depth timestamp)

    pub loop_round-GoesOn :
        (waited : Waited) (state : Looping)
        → GoesOn (loop_round env key_hash parse out app_c reads depth messages waited state)
    unfolding loop_round
    loop_round-GoesOn waited state = go waited.at_once (events_of waited)
      where
        go :
            (o es : Option (List Happened))
            → GoesOn (elim o as (λ x. Option (Ret × Looping)) [
              | none ↦ some (fatal, record state { is_asleep = true })
              | some _ ↦ elim es as (λ x. Option (Ret × Looping)) [
                | none ↦ some (
                  fatal,
                  record state { worker = flush env app_c state.worker; is_asleep = true },
                )
                | some events ↦
                    handle_round env key_hash parse out app_c reads depth messages state.timestamp
                      events
                      (flush env app_c state.worker)
              ]
            ])
        go none es = tt
        go (some _) none = tt
        go (some _) (some events) =
            round-GoesOn state.timestamp events (flush env app_c state.worker)
