-- ===== src/Event/Loop.antt =====
-- rs_event.c: the loop of a worker thread, from its first round on.
pub mod Received
pub mod Round
pub mod Ends
use ring_socket.Prelude.{
  ℕ, ◌+◌, Bool, true, false, ◌||◌, Option, none, some, List, [], ◌∷◌, ltb, if◌then◌else◌,
}
use ring_socket.Websocket.{Ret, ok, fatal}
use ring_socket.Queue.{flush_ring_updates}
use ring_socket.Queue.Stopped.{stopped}
use ring_socket.Socket.{Accepts, accept_sockets}
use ring_socket.Worker.{Worker, Env, Step, guard, tick}
use ring_socket.FromApp.Newest.{OutboundRings, receive_from_app}
use ring_socket.Http.Io.{Request}
use ring_socket.Event.{Events, no_events, handle_peer_events, enforce_from}

-- An event, with what the system calls give that it leads to: the calls of `accept4`, and whether the
-- `read` of the eventfd gives 8 bytes.
pub data Happened : Type 0 where
  peer_event : ℕ → Events → Happened
  listen_event : Bool → Events → Accepts → Happened
  eventfd_event : Events → Bool → Happened

-- What the two calls of `epoll_wait` give in a round; -1 is `none`.
pub record Waited : Type 0 where
  pub at_once : Option (List Happened)
  pub at_last : Option (List Happened)

-- The worker, the time of the last search for peers that are overdue, and the worker's flag in
-- `sleep_state`.
pub record Looping : Type 0 where
  pub worker : Worker
  pub timestamp : ℕ
  pub is_asleep : Bool

abbrev pub events_of : Waited → Option (List Happened)
events_of waited = elim waited.at_once [
  | none ↦ none
  | some [] ↦ waited.at_last
  | some (e ∷ es) ↦ some (e ∷ es)
]

-- The call of `flush_ring_updates`, whose result is ignored.
unfoldable pub flush : Env → ℕ → Worker → Worker
unfolding flush_ring_updates stopped
flush env app_c worker =
    elim (flush_ring_updates env.wakes false worker.queue worker.shared app_c) [
      | none ↦
          let (queue, shared) = stopped env.wakes false worker.queue worker.shared app_c in
          record worker { queue = queue; shared = shared }
      | some (queue, shared) ↦ record worker { queue = queue; shared = shared }
    ]

-- The worker after a step, with the time.
abbrev pub timed : ℕ → Step → Option (Ret × Looping)
timed timestamp none = none
timed timestamp (some (ret, worker)) =
    some (ret, record { worker = worker; timestamp = timestamp; is_asleep = false })

abbrev pub then_timed : ℕ → Step → (Worker → Option (Ret × Looping)) → Option (Ret × Looping)
then_timed timestamp none next = none
then_timed timestamp (some (ok, worker)) next = next worker
then_timed timestamp (some (ret, worker)) next = timed timestamp (some (ret, worker))

-- `reads`, `depth` and `messages` are the fuel of the loops over the reads of a peer, of the calls of
-- `handle_peer_events` within itself, and of the loops over the messages of an app.
module _ (env : Env) (key_hash : List ℕ → Option (List ℕ)) (parse : Worker → ℕ → Request) where
  -- The body of the loop over the events.
  unfoldable pub handle_event : ℕ → ℕ → Happened → Worker → Step
  unfolding handle_peer_events accept_sockets
  handle_event reads depth (peer_event i events) worker =
      handle_peer_events env key_hash parse reads depth events worker i
  handle_event reads depth (listen_event is_encrypted events accepts) worker =
      if events.err || events.hup
      then some (fatal, worker)
      else elim (accept_sockets is_encrypted accepts worker.net) [
        | none ↦ none
        | some (ret, net) ↦ some (ret, tick (record worker { net = net }))
      ]
  handle_event reads depth (eventfd_event events is_read) worker =
      if events.err || events.hup
      then some (fatal, worker)
      else if is_read
      then some (ok, worker)
      else some (fatal, worker)

  unfoldable pub handle_each : ℕ → ℕ → List Happened → Worker → Step
  unfolding handle_event
  handle_each reads depth [] worker = some (ok, worker)
  handle_each reads depth (e ∷ events) worker =
      guard (handle_event reads depth e worker) (handle_each reads depth events)

  -- The end of a round.
  unfoldable pub enforce_each_minute : ℕ → ℕ → ℕ → Worker → Option (Ret × Looping)
  unfolding enforce_from
  enforce_each_minute reads depth timestamp worker =
      let new_timestamp = env.time worker.clock in
      let checked = tick worker in
      if ltb (timestamp + 60) new_timestamp
      then timed new_timestamp (
          enforce_from env key_hash parse reads depth new_timestamp (checked.net.highest_peer_i + 1)
            0 checked)
      else timed timestamp (some (ok, checked))

  module _ (out : OutboundRings) (app_c reads depth messages : ℕ) where
    -- A round from the loop over the events on.
    unfoldable pub handle_round : ℕ → List Happened → Worker → Option (Ret × Looping)
    unfolding handle_each receive_from_app enforce_each_minute
    handle_round timestamp events worker =
        then_timed timestamp
          (guard (handle_each reads depth events worker) (
            receive_from_app env out (handle_peer_events env key_hash parse reads depth no_events)
              messages app_c 0))
          (enforce_each_minute reads depth timestamp)

    -- A round; the flag says that the worker sleeps until `epoll_wait` has given events.
    unfoldable pub loop_round : Waited → Looping → Option (Ret × Looping)
    unfolding handle_round flush
    loop_round waited state = elim waited.at_once [
      | none ↦ some (fatal, record state { is_asleep = true })
      | some _ ↦
          let flushed = flush env app_c state.worker in
          elim (events_of waited) [
            | none ↦ some (fatal, record state { worker = flushed; is_asleep = true })
            | some events ↦ handle_round state.timestamp events flushed
          ]
    ]

    -- The rounds for which there are answers of `epoll_wait`.
    unfoldable pub loop_over_events : List Waited → Looping → Option (Ret × Looping)
    unfolding loop_round
    loop_over_events [] state = some (ok, state)
    loop_over_events (waited ∷ later) state = elim (loop_round waited state) [
      | none ↦ none
      | some (ok, state') ↦ loop_over_events later state'
      | some (ret, state') ↦ some (ret, state')
    ]
