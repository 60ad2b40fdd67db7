-- ===== src/ToApp/Message.antt =====
-- The message on the inbound ring of an app.
use ring_socket.Prelude.{
  ℕ, ◌+◌, ◌^◌, ◌<◌, ◌≡◌, refl, Bool, true, false, Option, some, List, ◌++◌, arith, ◌==◌, length,
  length-append,
}
use mathlib.Core.Path.{subst}
use ring_socket.Wire.Bytes.{le_bytes}
use ring_socket.Ring.{Heap, Producer, Produced, fatal, ok, produce_ring_msg, put_msg}
use ring_socket.Ring.Layout.{IsValid}
use ring_socket.Ring.Cells.{Cell, Good}
use ring_socket.Ring.Send.{Refused, Sends, Fresh, send_lem}
use ring_socket.Queue.{Queue, Shared, enqueue_ring_update}
use ring_socket.ToApp.{
  InboundMsg, inbound_head, Sent, refused, sent, endless, update_to, enqueue_sent, send_msg_to_app,
}
use ring_socket.ToApp.Payloads.{ReadFrame, IsMessage, stored, combined, payload_of_lem}

length-inbound_head : (imsg : InboundMsg) → length (inbound_head imsg) ≡ 12
unfolding inbound_head le_bytes
length-inbound_head imsg = refl

module _ (alloc : ℕ → Option ℕ) (grow : ℕ → ℕ) (wakes : ℕ → Bool) (little : Bool) where
  -- The message is on the ring behind the unread ones, and the new position of the producer is put
  -- in the queue of updates; or the ring refused it.
  abbrev pub SendsToApp : Type 0 → ℕ → List Cell → List ℕ → Queue → Shared → ℕ → Sent → Type 0
  SendsToApp Why r cells msg q s app_i refused = Why
  SendsToApp Why r cells msg q s app_i (sent h p result) =
      Sends Why r cells msg (ok h p)
      × (result ≡ enqueue_ring_update wakes false q s (update_to app_i p))
  SendsToApp Why r cells msg q s app_i endless = ⊥

  enqueue_sent-SendsToApp :
      (Why : Type 0) (r : ℕ) (cells : List Cell) (msg : List ℕ) (q : Queue) (s : Shared) (app_i : ℕ)
      (produced : Produced)
      → Sends Why r cells msg produced
      → SendsToApp Why r cells msg q s app_i
          (enqueue_sent alloc grow wakes little q s app_i produced)
  unfolding enqueue_sent
  enqueue_sent-SendsToApp Why r cells msg q s app_i fatal sends = sends
  enqueue_sent-SendsToApp Why r cells msg q s app_i (ok h p) sends = (sends, refl)

  -- With the frames of a message in the read buffer and the size of its payload as `data_size`,
  -- `send_msg_to_app` on a well-formed ring, wherever the consumer that it loads may be, puts the
  -- header and the payloads of the message's data frames on the ring as one message, behind the
  -- unread ones, and the new position in the queue of updates; or the ring refuses the message, for
  -- want of memory or of room. It is assumed of the memory for a new ring that it does not overlap
  -- the current one, has a 64-bit address and has room for the message, and of the message's size
  -- and the ring's address that they are below 2^64.
  pub send_msg_to_app_lem :
      (r : ℕ) (cells : List Cell) (h : Heap) (p : Producer) (q : Queue) (s : Shared) (app_i : ℕ)
      (imsg : InboundMsg) (fs : List ReadFrame) (rest : List ℕ)
      → IsMessage fs
      → length (inbound_head imsg ++ combined fs) < 2 ^ 64
      → IsValid p r cells
      → Good h.mem r cells
      → p.ring < 2 ^ 64
      → ((a : ℕ)
          → alloc (grow p.ring_size) ≡ some a
          → Fresh p (grow p.ring_size) a (length (inbound_head imsg ++ combined fs)))
      → SendsToApp
          (Refused alloc grow p r (length (inbound_head imsg ++ combined fs)))
          r
          cells
          (inbound_head imsg ++ combined fs)
          q
          s
          app_i
          (send_msg_to_app alloc grow wakes little h p r q s app_i
            (stored fs rest)
            imsg
            (length (combined fs)))
  unfolding send_msg_to_app put_msg
  send_msg_to_app_lem r cells h p q s app_i imsg fs rest m fits v good ring_fits fresh =
      go (produce_ring_msg alloc grow h p r (12 + length (combined fs))) refl (
        subst (λ n. Sends Why r cells msg (put_msg msg (produce_ring_msg alloc grow h p r n))) size
          (send_lem alloc grow r cells msg (omega (arith, size)) fits h p v good ring_fits fresh))
    where
      msg : List ℕ
      msg = inbound_head imsg ++ combined fs

      size : length msg ≡ 12 + length (combined fs)
      size =
          omega (arith, length-append (inbound_head imsg) (combined fs), length-inbound_head imsg)

      Why : Type 0
      Why = Refused alloc grow p r (length msg)

      go :
          (produced : Produced)
          → produce_ring_msg alloc grow h p r (12 + length (combined fs)) ≡ produced
          → Sends Why r cells msg (put_msg msg produced)
          → SendsToApp Why r cells msg q s app_i (
              send_msg_to_app alloc grow wakes little h p r q s app_i
                (stored fs rest)
                imsg
                (length (combined fs)))
      go fatal e sends = rw (send_msg_to_app, e) sends
      go (ok h' p') e sends =
          let right : (length (combined fs) == length (combined fs)) ≡ true = ground arith in
          rw (send_msg_to_app, e, payload_of_lem little fs rest m, right)
            (enqueue_sent-SendsToApp Why r cells msg q s app_i (put_msg msg (ok h' p')) sends)
