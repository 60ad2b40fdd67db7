-- ===== src/Event/Loop/Ends.antt =====
-- How the loop of a worker thread ends.
use ring_socket.Prelude.{ℕ, ◌≡◌, refl, Option, none, some, List, [], ◌∷◌, sym, ◌⊎◌, inl, inr}
use ring_socket.Websocket.{Ret, ok, again, close_peer, fatal}
use ring_socket.Worker.{Worker, Env}
use ring_socket.FromApp.Newest.{OutboundRings}
use ring_socket.Http.Io.{Request}
use ring_socket.Event.Loop.{Waited, Looping, loop_round, loop_over_events}
use ring_socket.Event.Loop.Round.{GoesOn, loop_round-GoesOn}

module _ (env : Env) (key_hash : List ℕ → Option (List ℕ)) (parse : Worker → ℕ → Request)
    (out : OutboundRings) (app_c reads depth messages : ℕ) where
  -- Rounds that go on, from the answers of `epoll_wait` that are to come to those after them.
  pub data Rounds : List Waited → Looping → List Waited → Looping → Type 0 where
    begins : (answers : List Waited) (state : Looping) → Rounds answers state answers state
    goes_on :
        (waited : Waited) (later rest : List Waited) (state next state' : Looping)
        → loop_round env key_hash parse out app_c reads depth messages waited state
          ≡ some (ok, next)
        → Rounds later next rest state'
        → Rounds (waited ∷ later) state rest state'

  -- All rounds go on; or those up to one that returns RS_FATAL, and so does the loop; or those up
  -- to one that C leaves undefined or that does not end.
  abbrev pub LoopEnds : List Waited → Looping → Option (Ret × Looping) → Type 0
  LoopEnds answers state result =
      ((state' : Looping) × Rounds answers state [] state' × (result ≡ some (ok, state')))
      ⊎ ((waited : Waited) × (later : List Waited) × (reached : Looping) × Rounds answers state
            (waited ∷ later) reached
          × (result ≡ loop_round env key_hash parse out app_c reads depth messages waited reached)
          × (((state' : Looping) × (result ≡ some (fatal, state'))) ⊎ (result ≡ none)))

  LoopEnds-goes_on :
      (waited : Waited) (later : List Waited) (state next : Looping)
      (result : Option (Ret × Looping))
      → loop_round env key_hash parse out app_c reads depth messages waited state ≡ some (ok, next)
      → LoopEnds later next result
      → LoopEnds (waited ∷ later) state result
  LoopEnds-goes_on waited later state next result e (inl (state', rounds, done)) =
      inl (state', goes_on waited later [] state next state' e rounds, done)
  LoopEnds-goes_on waited later state next result e (inr (last, rest, reached, rounds, same, how)) =
      inr (
        last,
        rest,
        reached,
        goes_on waited later (last ∷ rest) state next reached e rounds,
        same,
        how,
      )

  -- Whatever `epoll_wait` gives in each round, and whatever the kernel, OpenSSL, the apps and the
  -- peers do, the rounds of `loop_over_events` go on, up to one that returns RS_FATAL, as the loop
  -- then does, or that C leaves undefined or that does not end within its fuel: a peer or a socket
  -- never makes the loop return RS_AGAIN or RS_CLOSE_PEER.
  pub loop_lem :
      (answers : List Waited) (state : Looping)
      → LoopEnds answers state
          (loop_over_events env key_hash parse out app_c reads depth messages answers state)
  unfolding loop_over_events
  loop_lem [] state = inl (state, begins [] state, refl)
  loop_lem (waited ∷ later) state =
      go (loop_round env key_hash parse out app_c reads depth messages waited state) refl
        (loop_round-GoesOn env key_hash parse out app_c reads depth messages waited state)
        (loop_lem later)
    where
      go :
          (r : Option (Ret × Looping))
          → loop_round env key_hash parse out app_c reads depth messages waited state ≡ r
          → GoesOn r
          → ((next : Looping)
              → LoopEnds later next
                  (loop_over_events env key_hash parse out app_c reads depth messages later next))
          → LoopEnds (waited ∷ later) state (elim r as (λ x. Option (Ret × Looping)) [
            | none ↦ none
            | some (ok, state') ↦
                loop_over_events env key_hash parse out app_c reads depth messages later state'
            | some (ret, state') ↦ some (ret, state')
          ])
      go none e h f = inr (waited, later, state, begins (waited ∷ later) state, sym e, inr refl)
      go (some (ok, next)) e h f = LoopEnds-goes_on waited later state next _ e (f next)
      go (some (again, state')) e h f = absurd h
      go (some (close_peer, state')) e h f = absurd h
      go (some (fatal, state')) e h f =
          inr (waited, later, state, begins (waited ∷ later) state, sym e, inl (state', refl))
