-- ===== src/ToApp.antt =====
-- rs_to_app.c: a worker puts what a peer sent on the inbound ring of the peer's app.
pub mod Payloads
pub mod Message
use ring_socket.Prelude.{
  ℕ, zero, suc, ◌+◌, Bool, true, false, not, ◌||◌, Option, none, some, List, [], ◌∷◌, ◌++◌,
  if◌then◌else◌, ◌==◌, length, drop,
}
use ring_socket.Wire.Bytes.{le_bytes}
use ring_socket.Wire.Frame.{
  opc_ping, opc_pong, get_opcode, get_is_final, get_next_cs, copy_cs_payload,
}
use ring_socket.Websocket.{DataKind, bin, utf8}
use ring_socket.Ring.{Heap, Producer, Produced, fatal, ok, produce_ring_msg, put_msg}
use ring_socket.Queue.{Queue, Shared, Update, enqueue_ring_update}

-- `enum rs_inbound_kind`
pub data InboundKind : Type 0 where
  inbound_open inbound_read inbound_close : InboundKind

abbrev pub inbound_number : InboundKind → ℕ
inbound_number inbound_open = 0
inbound_number inbound_read = 1
inbound_number inbound_close = 2

abbrev pub data_number : DataKind → ℕ
data_number bin = 0
data_number utf8 = 1

-- `struct rs_inbound_msg`, in front of its payload. `endpoint_id` is that of the peer's endpoint.
pub record InboundMsg : Type 0 where
  pub peer_i : ℕ
  pub socket_fd : ℕ
  pub endpoint_id : ℕ
  pub data_kind : DataKind
  pub inbound_kind : InboundKind

unfoldable pub inbound_head : InboundMsg → List ℕ
inbound_head imsg =
    le_bytes 4 imsg.peer_i
    ++ (le_bytes 4 imsg.socket_fd
        ++ (le_bytes 2 imsg.endpoint_id
            ++ (data_number imsg.data_kind ∷ inbound_number imsg.inbound_kind ∷ [])))

abbrev pub then_more : List ℕ → Option (List ℕ) → Option (List ℕ)
then_more xs none = none
then_more xs (some ys) = some (xs ++ ys)

-- The bytes that are copied to `prod->w`; `frame` is what stands in the buffer from a frame on.
unfoldable pub copy_combined_websocket_payloads : Bool → ℕ → List ℕ → Option (List ℕ)
copy_combined_websocket_payloads little zero frame = none
copy_combined_websocket_payloads little (suc fuel) frame =
    let rest =
      copy_combined_websocket_payloads little fuel (drop (get_next_cs little frame) frame) in
    let opcode = get_opcode frame in
    if opcode == opc_ping || opcode == opc_pong
    then rest
    else (let (size, bytes) = copy_cs_payload little frame in
        if get_is_final frame then some bytes else then_more bytes rest)

-- RS_FATAL; or RS_OK with the memory, the producer and what the queue of updates does, whose result
-- the caller ignores; or a loop without end.
pub data Sent : Type 0 where
  refused : Sent
  sent : Heap → Producer → Option (Queue × Shared) → Sent
  endless : Sent

-- The payload, and whether it has the size that it should have.
unfoldable pub payload_of : Bool → List ℕ → ℕ → Option (List ℕ)
unfolding copy_combined_websocket_payloads
payload_of little rbuf data_size =
    if data_size == 0 then some [] else copy_combined_websocket_payloads little (length rbuf) rbuf

abbrev pub update_to : ℕ → Producer → Update
update_to app_i p = record { ring_position = p.w; thread_i = app_i; is_write = true }

-- `r` is the value of the ring's atomic that is loaded.
module _ (alloc : ℕ → Option ℕ) (grow : ℕ → ℕ) (wakes : ℕ → Bool) (little : Bool) where
  unfoldable pub enqueue_sent : Queue → Shared → ℕ → Produced → Sent
  enqueue_sent q s app_i fatal = refused
  enqueue_sent q s app_i (ok h p) =
      sent h p (enqueue_ring_update wakes false q s (update_to app_i p))

  unfoldable pub send_msg_to_app :
      Heap → Producer → ℕ → Queue → Shared → ℕ → List ℕ → InboundMsg → ℕ → Sent
  unfolding enqueue_sent payload_of inbound_head
  send_msg_to_app h p r q s app_i rbuf imsg data_size =
      elim (produce_ring_msg alloc grow h p r (12 + data_size)) [
        | fatal ↦ refused
        | ok h' p' ↦ elim (payload_of little rbuf data_size) [
          | none ↦ endless
          | some payload ↦
              if length payload == data_size
              then enqueue_sent q s app_i (put_msg (inbound_head imsg ++ payload) (ok h' p'))
              else refused
        ]
      ]
