-- ===== src/Event/Settled.antt =====
-- The results of the handlers of the layers.
use ring_socket.Prelude.{ℕ, Bool, true, false, Option, none, some, if◌then◌else◌}
use ring_socket.Websocket.{Ret, ok, again, close_peer, fatal}
use ring_socket.Peer.{
  Mortality, live, shutdown_write, shutdown_read, dead, Continuation, cont_none, cont_parsing,
  cont_sending,
}
use ring_socket.ToApp.{Sent, refused, sent, endless}
use ring_socket.Worker.{
  Worker, Env, Step, guard, peer_of, after_sent, send_to_app, send_open_to_app, send_close_to_app,
}

-- A call returns RS_OK or RS_FATAL, if C does not leave it undefined and it ends.
abbrev IsSettled : Step → Type 0
IsSettled none = Unit
IsSettled (some (ok, w)) = Unit
IsSettled (some (again, w)) = ⊥
IsSettled (some (close_peer, w)) = ⊥
IsSettled (some (fatal, w)) = Unit

pub record Settled (step : Step) : Type 0 where
  pub settled : IsSettled step

pub none-Settled : Settled none
none-Settled = record { settled = tt }

pub ok-Settled : (w : Worker) → Settled (some (ok, w))
ok-Settled w = record { settled = tt }

pub fatal-Settled : (w : Worker) → Settled (some (fatal, w))
fatal-Settled w = record { settled = tt }

pub guard-Settled :
    (step : Step) (next : Worker → Step)
    → Settled step
    → ((w : Worker) → Settled (next w))
    → Settled (guard step next)
guard-Settled none next s f = none-Settled
guard-Settled (some (ok, w)) next s f = f w
guard-Settled (some (again, w)) next s f = absurd s.settled
guard-Settled (some (close_peer, w)) next s f = absurd s.settled
guard-Settled (some (fatal, w)) next s f = fatal-Settled w

pub if-Settled : (b : Bool) {x y : Step} → Settled x → Settled y → Settled (if b then x else y)
if-Settled true p q = p
if-Settled false p q = q

pub elim-Settled :
    (b : Bool) {x y : Step} → Settled x → Settled y → Settled (elim b [ false ↦ x | true ↦ y ])
elim-Settled false p q = p
elim-Settled true p q = q

pub ret-Settled :
    (r : Ret) {a b c d : Step}
    → Settled a
    → Settled b
    → Settled c
    → Settled d
    → Settled (elim r [ ok ↦ a | again ↦ b | close_peer ↦ c | fatal ↦ d ])
ret-Settled ok p q r s = p
ret-Settled again p q r s = q
ret-Settled close_peer p q r s = r
ret-Settled fatal p q r s = s

pub option-Settled :
    (o : Option Worker) (next : Worker → Step)
    → ((w : Worker) → Settled (next w))
    → Settled (elim o [ none ↦ none | some w ↦ next w ])
option-Settled none next f = none-Settled
option-Settled (some w) next f = f w

pub mortality-Settled :
    (m : Mortality) {a b c d : Step}
    → Settled a
    → Settled b
    → Settled c
    → Settled d
    → Settled (elim m [ live ↦ a | shutdown_write ↦ b | shutdown_read ↦ c | dead ↦ d ])
mortality-Settled live p q r s = p
mortality-Settled shutdown_write p q r s = q
mortality-Settled shutdown_read p q r s = r
mortality-Settled dead p q r s = s

pub continuation-Settled :
    (c : Continuation) {x y z : Step}
    → Settled x
    → Settled y
    → Settled z
    → Settled (elim c [ cont_none ↦ x | cont_parsing ↦ y | cont_sending ↦ z ])
continuation-Settled cont_none p q r = p
continuation-Settled cont_parsing p q r = q
continuation-Settled cont_sending p q r = r

after_sent-Settled : (worker : Worker) (app_i : ℕ) (s : Sent) → Settled (after_sent worker app_i s)
after_sent-Settled worker app_i refused = fatal-Settled _
after_sent-Settled worker app_i (sent heap p result) = ok-Settled _
after_sent-Settled worker app_i endless = none-Settled

module _ (env : Env) where
  pub send_open-Settled : (worker : Worker) (i : ℕ) → Settled (send_open_to_app env worker i)
  unfolding send_open_to_app send_to_app
  send_open-Settled worker i =
      if-Settled (env.wants_open_notification (peer_of worker i).app_i)
        (after_sent-Settled worker _ _) (ok-Settled worker)

  pub send_close-Settled : (worker : Worker) (i : ℕ) → Settled (send_close_to_app env worker i)
  unfolding send_close_to_app send_to_app
  send_close-Settled worker i =
      if-Settled (env.wants_close_notification (peer_of worker i).app_i)
        (after_sent-Settled worker _ _) (ok-Settled worker)
