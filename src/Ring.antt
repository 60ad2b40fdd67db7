-- ===== src/Ring.antt =====
-- ringsocket_ring.h: the single producer single consumer ring buffers. Memory is a function from
-- addresses to bytes, a pointer is an address, and NULL is 0. Integers and pointers are stored
-- lowest byte first.
pub mod Memory
pub mod Cells
pub mod Layout
pub mod Send
pub mod Consume
pub mod Threads
pub mod Fifo
use ring_socket.Prelude.{
  ℕ, zero, suc, ◌+◌, Bool, ◌&&◌, Option, none, some, List, [], ◌∷◌, if◌then◌else◌, ◌==◌, ltb, leb,
  length,
}
use ring_socket.Wire.Bytes.{le_bytes, of_le}

abbrev pub Mem : Type 0
Mem = ℕ → ℕ

unfoldable pub store_bytes : Mem → ℕ → List ℕ → Mem
store_bytes mem a [] = mem
store_bytes mem a (b ∷ bs) = store_bytes (λ x. if x == a then b else mem x) (a + 1) bs

unfoldable pub load_bytes : Mem → ℕ → ℕ → List ℕ
load_bytes mem a zero = []
load_bytes mem a (suc n) = mem a ∷ load_bytes mem (a + 1) n

-- `*((uint64_t *) a) = v` and `*((uint8_t * *) a) = v`, and the reads.
unfoldable pub store64 : Mem → ℕ → ℕ → Mem
unfolding store_bytes le_bytes
store64 mem a v = store_bytes mem a (le_bytes 8 v)

unfoldable pub load64 : Mem → ℕ → ℕ
unfolding load_bytes of_le
load64 mem a = of_le (load_bytes mem a 8)

-- The memory of the process, and the addresses that were given to free().
pub record Heap : Type 0 where
  pub mem : Mem
  pub freed : List ℕ

-- `struct rs_ring_producer`
pub record Producer : Type 0 where
  pub ring : ℕ
  pub w : ℕ
  pub prev_ring : ℕ
  pub ring_size : ℕ

-- RS_FATAL, or RS_OK with what the call changed.
pub data Produced : Type 0 where
  fatal : Produced
  ok : Heap → Producer → Produced

-- RS_RING_HEAD_SIZE and RS_RING_ROUTE_SIZE
abbrev pub head_size : ℕ
head_size = 8

abbrev pub route_size : ℕ
route_size = 16

abbrev pub would_clobber : ℕ → ℕ → ℕ → Bool
would_clobber unwritable w msg_size = ltb unwritable (w + head_size + msg_size + route_size)

-- The first address behind the ring buffer.
abbrev pub over : Producer → ℕ
over p = p.ring + p.ring_size

-- `if (prod->prev_ring) { RS_FREE(prod->prev_ring); }`
unfoldable pub free_prev : Heap → Producer → Heap × Producer
free_prev h p =
    if p.prev_ring == 0
    then (h, p)
    else (record h { freed = p.prev_ring ∷ h.freed }, record p { prev_ring = 0 })

-- The size in front of the message, where `prod->w` is.
unfoldable pub put_head : Heap → Producer → ℕ → Produced
put_head h p msg_size =
    ok (record h { mem = store64 h.mem p.w msg_size }) (record p { w = p.w + head_size })

-- The route instruction at `prod->w`, to the start of `prod->ring`.
unfoldable pub put_route : Heap → Producer → Heap × Producer
put_route h p = (
  record h { mem = store64 (store64 h.mem p.w 0) (p.w + head_size) p.ring },
  record p { w = p.ring },
)

-- The memory of a new ring buffer is zeroed.
unfoldable pub zero_fill : Mem → ℕ → ℕ → Mem
zero_fill mem a n x = if leb a x && ltb x (a + n) then 0 else mem x

unfoldable pub new_ring : Heap → Producer → ℕ → Option ℕ → Produced
unfolding put_route put_head zero_fill
new_ring h p msg_size none = fatal
new_ring h p msg_size (some a) =
    let h' = record h { mem = zero_fill h.mem a p.ring_size } in
    let (h'', p') = put_route h' (record p { ring = a }) in put_head h'' p' msg_size

-- `alloc` is aligned_alloc, `grow` the product with `alloc_multiplier` as a `size_t`.
module _ (alloc : ℕ → Option ℕ) (grow : ℕ → ℕ) where
  -- The code from the label on.
  unfoldable pub route_to_new_ring : Heap → Producer → ℕ → Produced
  unfolding new_ring
  route_to_new_ring h p msg_size =
      let size = grow p.ring_size in
      new_ring h (record p { prev_ring = p.ring; ring = 0; ring_size = size }) msg_size (alloc size)

  -- With `r` on the current ring.
  unfoldable pub produce_near : Heap → Producer → ℕ → ℕ → Produced
  unfolding route_to_new_ring put_route put_head
  produce_near h p r msg_size =
      if ltb p.w r
      then if would_clobber r p.w msg_size
        then route_to_new_ring h p msg_size
        else put_head h p msg_size
      else if would_clobber (over p) p.w msg_size
      then if would_clobber r p.ring msg_size
        then route_to_new_ring h p msg_size
        else (let (h', p') = put_route h p in put_head h' p' msg_size)
      else put_head h p msg_size

  -- `rs_produce_ring_msg`; `r` is the value of the atomic `r` that it loads.
  unfoldable pub produce_ring_msg : Heap → Producer → ℕ → ℕ → Produced
  unfolding produce_near free_prev put_head
  produce_ring_msg h p r msg_size =
      if leb p.ring r && ltb r (over p)
      then (let (h', p') = free_prev h p in produce_near h' p' r msg_size)
      else if would_clobber (over p) p.w msg_size
      then fatal
      else put_head h p msg_size

-- The callers write the message to `prod->w` and move `prod->w` behind it.
unfoldable pub put_msg : List ℕ → Produced → Produced
put_msg msg fatal = fatal
put_msg msg (ok h p) =
    ok (record h { mem = store_bytes h.mem p.w msg }) (record p { w = p.w + length msg })

-- `rs_consume_ring_msg`: the address of the message's size, and the new `r`; `w` is the value of the
-- atomic `w` that it loads.
unfoldable pub consume_ring_msg : Mem → ℕ → ℕ → Option (ℕ × ℕ)
unfolding load64
consume_ring_msg mem w r =
    let to = load64 mem (r + head_size) in
    if r == w
    then none
    else if load64 mem r == 0
    then some (to, to + head_size + load64 mem to)
    else some (r, r + head_size + load64 mem r)

-- The message behind its size.
unfoldable pub msg_at : Mem → ℕ → List ℕ
unfolding load64 load_bytes
msg_at mem a = load_bytes mem (a + head_size) (load64 mem a)
