-- ===== src/Session/Parse/Advances.antt =====
-- How a round of the loop over the frames of a message goes on.
use mathlib.Core.Path.{subst}
use ring_socket.Prelude.{
  ℕ, ◌+◌, ◌-◌, ◌^◌, ◌≤◌, ◌<◌, ◌≡◌, ◌≢◌, refl, Bool, true, false, if◌then◌else◌, not, ◌&&◌, ◌||◌,
  Option, none, some, List, arith, ◌==◌, drop, inl, inr, Bool-cases,
}
use ring_socket.Websocket.{
  Ret, ok, again, close_peer, fatal, Parser, err_payload, DataKind, parse_websocket_frame,
}
use ring_socket.Websocket
use ring_socket.Wire.Frame.{add64, get_opcode, get_is_final, opc_ping, opc_pong}
use ring_socket.Util.MoveLeft.{move_left}
use ring_socket.ToApp.{Sent, refused, sent, endless}
use ring_socket.Worker.{Worker, Env, Step, after_sent, send_to_app, send_read_to_app}
use ring_socket.Session.Parse.{
  is_outside, Round, returns, continues, undefined, next_message, is_text_whole, after_read_sent,
  end_frame, after_frame, parse_round,
}
use ring_socket.Session.Parse.Payload.{IsReady, Resumes, Taken, Framed}
use ring_socket.Session.Parse.Frame.{frame_lem, address_lem}

-- The worker's buffer is where it was, and no call was put off.
abbrev InPlace : ℕ → Step → Type 0
InPlace address none = Unit
InPlace address (some (ret, worker)) = (ret ≢ again) × (worker.reader.address ≡ address)

after_sent-InPlace :
    (worker : Worker) (app_i : ℕ) (s : Sent)
    → InPlace worker.reader.address (after_sent worker app_i s)
after_sent-InPlace worker app_i refused = ((λ e. cc), refl)
after_sent-InPlace worker app_i (sent heap p none) = ((λ e. cc), refl)
after_sent-InPlace worker app_i (sent heap p (some (queue, shared))) = ((λ e. cc), refl)
after_sent-InPlace worker app_i endless = tt

send_read_to_app-InPlace :
    (env : Env) (worker : Worker) (peer_i data_size : ℕ) (kind : DataKind)
    → InPlace worker.reader.address (send_read_to_app env worker peer_i data_size kind)
unfolding send_read_to_app send_to_app
send_read_to_app-InPlace env worker peer_i data_size kind = after_sent-InPlace worker _ _

-- A round that goes on leaves the parser ready, with fewer bytes ahead; one that asks for more bytes
-- leaves it so that it can resume.
abbrev pub Advances : ℕ → ℕ → Round → Type 0
Advances address rest (returns ret wsp w) = ret ≡ again → Resumes wsp
Advances address rest (continues wsp w) =
    IsReady w.reader.address wsp × (w.reader.address ≡ address) × (wsp.next_read - wsp.frame < rest)
Advances address rest undefined = Unit

module _ (address rest : ℕ) where
  next_message-Advances :
      (wsp : Parser) (worker : Worker) (frame_incr : ℕ)
      → worker.reader.address ≡ address
      → address + wsp.next_read < 2 ^ 64
      → wsp.next_read - frame_incr < rest
      → Advances address rest (next_message wsp worker frame_incr)
  unfolding next_message
  next_message-Advances wsp worker frame_incr same fits less =
      go (move_left worker.reader.rbuf frame_incr (wsp.next_read - frame_incr)) refl
    where
      go :
          (moved : Option (List ℕ))
          → move_left worker.reader.rbuf frame_incr (wsp.next_read - frame_incr) ≡ moved
          → Advances address rest (next_message wsp worker frame_incr)
      go none e = rw (next_message, e) tt
      go (some rbuf) e =
          rw (next_message, e)
            (
              record {
                read_before = omega arith;
                payload_known = λ h. absurd (omega arith);
                was_incomplete = λ h. absurd (omega arith);
                fits = omega (arith, same);
              },
              same,
              omega arith,
            )

  after_read_sent-Advances :
      (wsp : Parser) (frame_incr : ℕ) (step : Step)
      → InPlace address step
      → address + wsp.next_read < 2 ^ 64
      → wsp.next_read - frame_incr < rest
      → Advances address rest (after_read_sent wsp frame_incr step)
  unfolding after_read_sent
  after_read_sent-Advances wsp frame_incr none h fits less = tt
  after_read_sent-Advances wsp frame_incr (some (ok, worker)) h fits less =
      elim (Bool-cases (frame_incr == wsp.next_read)) [
        | inl done ↦ rw (after_read_sent, done) (λ e. cc)
        | inr more ↦
            rw (after_read_sent, more) (next_message-Advances wsp worker frame_incr h.1 fits less)
      ]
  after_read_sent-Advances wsp frame_incr (some (again, worker)) h fits less = absurd (h.0 refl)
  after_read_sent-Advances wsp frame_incr (some (close_peer, worker)) h fits less = λ e. cc
  after_read_sent-Advances wsp frame_incr (some (fatal, worker)) h fits less = λ e. cc

  -- The parser at the frame that follows, in the same message.
  next_frame :
      (wsp wsp' : Parser) (worker : Worker)
      → worker.reader.address ≡ address
      → address + wsp.next_read < 2 ^ 64
      → wsp.cur_read ≤ wsp.next_read
      → wsp.next_read - wsp.frame ≤ rest
      → Taken wsp wsp'
      → (w : Parser) → w.frame ≡ wsp'.payload + wsp'.payload_size
      → w.cur_read ≡ wsp'.cur_read
      → w.next_read ≡ wsp'.next_read
      → w.payload ≡ wsp'.payload
      → w.payload_size ≡ wsp'.payload_size
      → Advances address rest (continues w worker)
  next_frame wsp wsp' worker same fits before less t w a b c d e =
      let t1 = t.frame in
      let t2 = t.cur_read in
      let t3 = t.next_read in
      let t4 = t.forward in
      let t5 = t.inside in
      let t6 = t.ends_late in
      (
        record {
          read_before = omega arith;
          payload_known = λ h. absurd (omega arith);
          was_incomplete = λ h. absurd (omega arith);
          fits = omega (arith, same);
        },
        same,
        omega arith,
      )

-- The part of a round behind the frame.
module _ (env : Env) (peer_i : ℕ) (wsp wsp' : Parser) (worker : Worker) (t : Taken wsp wsp')
    (fits : worker.reader.address + wsp.next_read < 2 ^ 64)
    (before : wsp.cur_read ≤ wsp.next_read) where
  abbrev rest : ℕ
  rest = wsp.next_read - wsp.frame

  end_frame-Advances : Advances worker.reader.address rest (
      end_frame env peer_i
        (record wsp' { data_size = add64 wsp'.data_size wsp'.payload_size })
        (wsp'.payload + wsp'.payload_size)
        worker)
  unfolding end_frame
  end_frame-Advances =
      let counted = record wsp' { data_size = add64 wsp'.data_size wsp'.payload_size } in
      let next = wsp'.payload + wsp'.payload_size in
      let t3 = t.next_read in
      let t4 = t.forward in
      let t5 = t.inside in
      elim (Bool-cases (get_is_final (drop wsp'.frame worker.reader.rbuf))) [
        | inl last ↦ elim (Bool-cases (is_text_whole wsp'.utf8_state)) [
          | inl whole ↦
              rw (end_frame, last, whole)
                (after_read_sent-Advances worker.reader.address rest counted next
                  (send_read_to_app env worker peer_i counted.data_size counted.data_kind)
                  (send_read_to_app-InPlace env worker peer_i counted.data_size counted.data_kind)
                  (omega arith) (omega arith))
          | inr cut ↦ rw (end_frame, last, cut) (λ e. cc)
        ]
        | inr more ↦
            rw (end_frame, more)
              (next_frame worker.reader.address rest wsp wsp' worker refl fits before (omega arith)
                t (record counted { is_continuation = true; frame = next }) refl refl refl refl
                refl)
      ]

  after_frame-Advances : Advances worker.reader.address rest (after_frame env peer_i wsp' worker)
  unfolding after_frame
  after_frame-Advances =
      let next = wsp'.payload + wsp'.payload_size in
      let opcode = get_opcode (drop wsp'.frame worker.reader.rbuf) in
      elim (Bool-cases (opcode == opc_ping || opcode == opc_pong)) [
        | inl control ↦ elim (Bool-cases (next == wsp'.next_read && not wsp'.is_continuation)) [
          | inl done ↦ rw (after_frame, control, done) (λ e. cc)
          | inr more ↦
              rw (after_frame, control, more)
                (next_frame worker.reader.address rest wsp wsp' worker refl fits before
                  (omega arith) t (record wsp' { frame = next }) refl refl refl refl refl)
        ]
        | inr text ↦ rw (after_frame, text) end_frame-Advances
      ]

pub parse_round-Advances :
    (env : Env) (peer_i : ℕ) (wsp : Parser) (worker : Worker)
    → IsReady worker.reader.address wsp
    → Advances worker.reader.address (wsp.next_read - wsp.frame) (parse_round env peer_i wsp worker)
unfolding parse_round
parse_round-Advances env peer_i wsp worker r =
    go (parse_websocket_frame env.little env.conf worker.reader wsp) refl
      (frame_lem env.little worker.reader env.conf wsp r)
      (address_lem env.little worker.reader env.conf wsp)
  where
    within :
        (b : Bool) (inside : Round)
        → Advances worker.reader.address (wsp.next_read - wsp.frame) inside
        → Advances worker.reader.address
            (wsp.next_read - wsp.frame)
            (if b then undefined else inside)
    within true inside h = tt
    within false inside h = h

    go :
        (x : (Ret × Parser) × Websocket.Worker)
        → parse_websocket_frame env.little env.conf worker.reader wsp ≡ x
        → Framed wsp x.0
        → x.1.address ≡ worker.reader.address
        → Advances worker.reader.address
            (wsp.next_read - wsp.frame)
            (parse_round env peer_i wsp worker)
    go ((ok, wsp'), reader) e f a =
        let fits = r.fits in
        rw (parse_round, e, e)
          (within (is_outside wsp worker.reader.rbuf ok wsp')
            (after_frame env peer_i wsp' (record worker { reader = reader }))
            (subst
              (λ n.
                Advances n (wsp.next_read - wsp.frame)
                  (after_frame env peer_i wsp' (record worker { reader = reader })))
              a
              (after_frame-Advances env peer_i wsp wsp' (record worker { reader = reader })
                (f.on_ok refl) (omega (arith, a)) r.read_before)))
    go ((again, wsp'), reader) e f a =
        rw (parse_round, e, e)
          (within (is_outside wsp worker.reader.rbuf again wsp')
            (returns again wsp' (record worker { reader = reader })) f.on_again)
    go ((close_peer, wsp'), reader) e f a =
        rw (parse_round, e, e)
          (within (is_outside wsp worker.reader.rbuf close_peer wsp')
            (returns close_peer wsp' (record worker { reader = reader })) f.on_again)
    go ((fatal, wsp'), reader) e f a =
        rw (parse_round, e, e)
          (within (is_outside wsp worker.reader.rbuf fatal wsp')
            (returns fatal wsp' (record worker { reader = reader })) f.on_again)
