-- ===== src/Tests/Inbound.antt =====
-- Messages to apps.
use ring_socket.Prelude.{
  ℕ, ◌≡◌, inl, inr, refl, sym, true, false, some, List, [], ◌∷◌, ◌++◌, arith, length,
}
use mathlib.Core.Option.{some-injective}
use ring_socket.Wire.Bytes.{le_bytes}
use ring_socket.Websocket.{utf8}
use ring_socket.Queue.{Queue, Shared, no_update}
use ring_socket.Ring.Send.{Refused, Fresh}
use ring_socket.ToApp.{
  copy_combined_websocket_payloads, InboundMsg, inbound_read, inbound_head, send_msg_to_app,
}
use ring_socket.ToApp.Payloads.{ReadFrame, IsMessage, stored, combined, combined_lem}
use ring_socket.ToApp.Message.{SendsToApp, send_msg_to_app_lem}
use ring_socket.Tests.Rings.{heap, producer, grow, alloc, producer-IsValid}

-- A text in two frames with a ping between them.
abbrev frames : List ReadFrame
frames =
    record { is_final = false; opcode = 1; key = 1 ∷ 2 ∷ 3 ∷ 4 ∷ []; payload = 72 ∷ 105 ∷ [] }
    ∷ record { is_final = true; opcode = 9; key = 1 ∷ 2 ∷ 3 ∷ 4 ∷ []; payload = 0 ∷ [] }
    ∷ record { is_final = true; opcode = 0; key = 1 ∷ 2 ∷ 3 ∷ 4 ∷ []; payload = 33 ∷ [] }
    ∷ []

frames-IsMessage : IsMessage frames
frames-IsMessage = (
  (omega arith, refl, omega arith),
  inr (refl, refl),
  ((omega arith, refl, omega arith), inl refl, ((omega arith, refl, omega arith), refl, refl)),
)

abbrev imsg : InboundMsg
imsg = record {
  peer_i = 3;
  socket_fd = 9;
  endpoint_id = 2;
  data_kind = utf8;
  inbound_kind = inbound_read;
}

abbrev queue : Queue
queue = record { updates = no_update ∷ no_update ∷ []; oldest_i = 0 }

abbrev asleep : Shared
asleep = record { value = λ a i. 1000; is_asleep = λ i. true; woken = [] }

message_size : length (inbound_head imsg ++ combined frames) ≡ 15
unfolding inbound_head combined le_bytes
message_size = refl

new_ring-Fresh :
    (a : ℕ)
    → alloc (grow producer.ring_size) ≡ some a
    → Fresh producer (grow producer.ring_size) a (length (inbound_head imsg ++ combined frames))
new_ring-Fresh a e =
    let at : a ≡ 5000 = sym (some-injective 5000 a e) in
    record { apart = inl (omega arith); fits = omega arith; room = omega (arith, message_size) }

combined_lem_example :
    copy_combined_websocket_payloads true 3 (stored frames (129 ∷ [])) ≡ some (combined frames)
combined_lem_example = combined_lem true 3 frames (129 ∷ []) frames-IsMessage (omega arith)

send_msg_to_app_lem_example :
    SendsToApp alloc grow
      (λ i. true)
      true
      (Refused alloc grow producer 1000 (length (inbound_head imsg ++ combined frames)))
      1000
      []
      (inbound_head imsg ++ combined frames)
      queue
      asleep
      0
      (send_msg_to_app alloc grow
        (λ i. true)
        true
        heap
        producer
        1000
        queue
        asleep
        0
        (stored frames (129 ∷ []))
        imsg
        (length (combined frames)))
send_msg_to_app_lem_example =
    send_msg_to_app_lem alloc grow (λ i. true) true 1000 [] heap producer queue asleep 0 imsg frames
      (129 ∷ []) frames-IsMessage (omega (arith, message_size)) producer-IsValid tt (omega arith)
      new_ring-Fresh
