-- ===== src/Ring/Send.antt =====
-- A message that is sent joins the unread cells of its ring, and no unread cell is overwritten.
use mathlib.Core.Path.{subst}
use ring_socket.Prelude.{
  ℕ, ◌+◌, ◌^◌, ◌≤◌, ◌<◌, ◌≡◌, ◌⊎◌, inl, inr, refl, sym, ap, ◌∙◌, Option, none, some, List, [], ◌∷◌,
  ◌++◌, arith, length, ltb, leb, ◌&&◌, ◌==◌, Bool-cases,
}
use ring_socket.Ring.{
  Mem, Heap, Producer, Produced, fatal, ok, over, would_clobber, put_head, put_route, new_ring,
  route_to_new_ring, produce_near, produce_ring_msg, put_msg, store_bytes, store64, zero_fill,
}
use ring_socket.Ring.Memory.{
  Agree, Agree-trans, Agree-store_bytes, load-store_bytes, load-store64, Agree-store64,
  load64-Agree, Agree-zero_fill,
}
use ring_socket.Ring.Cells.{
  Cell, direct, routed, msg_of, MsgAt, RouteAt, CellAt, Good, Good-Agree, Good-append, Out, Run,
  Distinct-append, NotAt, Run-NotAt, Apart-NotAt, le-end_of, Run-Apart, end_of-append,
}
use ring_socket.Ring.Layout.{
  wrapped, crossed, IsValid, Room, Apart-at_w, Layout-direct, Apart-near, Apart-narrow, w_inside,
  Room-before, Room-behind, Room-far, Room-route, direct_end_new,
}

-- The memory once the size `length xs` and the message `xs` stand at `w`.
abbrev with_msg : Mem → ℕ → List ℕ → Mem
with_msg mem w xs = store_bytes (store64 mem w (length xs)) (w + 8) xs

-- The memory once a route to `t` stands at `w`.
abbrev with_route : Mem → ℕ → ℕ → Mem
with_route mem w t = store64 (store64 mem w 0) (w + 8) t

Agree-with_msg :
    (mem : Mem) (w : ℕ) (xs : List ℕ) → Agree w (w + 8 + length xs) mem (with_msg mem w xs)
Agree-with_msg mem w xs =
    Agree-trans w (w + 8) (w + 8) (w + 8 + length xs) (Agree-store64 mem w (length xs))
      (Agree-store_bytes (store64 mem w (length xs)) (w + 8) xs) w (w + 8 + length xs) (omega arith)
      (omega arith) (omega arith) (omega arith)

Agree-with_route : (mem : Mem) (w t : ℕ) → Agree w (w + 16) mem (with_route mem w t)
Agree-with_route mem w t =
    Agree-trans w (w + 8) (w + 8) (w + 8 + 8) (Agree-store64 mem w 0)
      (Agree-store64 (store64 mem w 0) (w + 8) t) w (w + 16) (omega arith) (omega arith)
      (omega arith) (omega arith)

MsgAt-with_msg :
    (mem : Mem) (w : ℕ) (xs : List ℕ)
    → 0 < length xs
    → length xs < 2 ^ 64
    → MsgAt (with_msg mem w xs) w xs
MsgAt-with_msg mem w xs pos fits = record {
  pos = pos;
  size =
      load64-Agree (store64 mem w (length xs)) (with_msg mem w xs) (w + 8) (w + 8 + length xs) w
        (Agree-store_bytes (store64 mem w (length xs)) (w + 8) xs) (inl (omega arith))
      ∙ load-store64 mem w (length xs) fits;
  body = load-store_bytes (store64 mem w (length xs)) (w + 8) xs;
}

RouteAt-with_route : (mem : Mem) (w t : ℕ) → t < 2 ^ 64 → RouteAt (with_route mem w t) w t
RouteAt-with_route mem w t fits = record {
  zero_size =
      load64-Agree (store64 mem w 0) (with_route mem w t) (w + 8) (w + 8 + 8) w
        (Agree-store64 (store64 mem w 0) (w + 8) t) (inl (omega arith))
      ∙ load-store64 mem w 0 (omega arith);
  target = load-store64 (store64 mem w 0) (w + 8) t fits;
}

-- A route to `t` and a message there are a cell, if they do not overlap.
routed_lem :
    (mem : Mem) (w t : ℕ) (xs : List ℕ)
    → 0 < length xs
    → length xs < 2 ^ 64
    → t < 2 ^ 64
    → Out t (t + 8 + length xs) w (w + 16)
    → CellAt (with_msg (with_route mem w t) t xs) w (routed t xs)
routed_lem mem w t xs pos fits t_fits o =
    let m = with_route mem w t in
    let r = RouteAt-with_route mem w t t_fits in
    (
      record {
        zero_size =
            load64-Agree m (with_msg m t xs) t (t + 8 + length xs) w (Agree-with_msg m t xs)
              (omega arith)
            ∙ r.zero_size;
        target =
            load64-Agree m (with_msg m t xs) t (t + 8 + length xs) (w + 8) (Agree-with_msg m t xs)
              (omega arith)
            ∙ r.target;
      },
      MsgAt-with_msg m t xs pos fits,
    )

-- Why `rs_produce_ring_msg` gives up: there is no memory for a new ring; or the consumer is still on
-- another ring, and the message does not fit behind `w`.
abbrev pub Refused : (ℕ → Option ℕ) → (ℕ → ℕ) → Producer → ℕ → ℕ → Type 0
Refused alloc grow p r n =
    (alloc (grow p.ring_size) ≡ none)
    ⊎ (((r < p.ring) ⊎ (over p ≤ r)) × (over p < p.w + 8 + n + 16))

-- What a call leaves: the message behind the unread cells, which are all still there.
abbrev pub Sends : Type 0 → ℕ → List Cell → List ℕ → Produced → Type 0
Sends Why r cells xs fatal = Why
Sends Why r cells xs (ok h p) =
    (c : Cell) × (msg_of c ≡ xs) × Good h.mem r (cells ++ c ∷ []) × IsValid p r (cells ++ c ∷ [])

-- What is assumed of the memory for a new ring of `size` bytes: it does not overlap the current
-- ring, pointers to it fit in 64 bits, and it has room for the message.
pub record Fresh (p : Producer) (size a n : ℕ) : Type 0 where
  pub apart : Out a (a + size) p.ring (over p)
  pub fits : a < 2 ^ 64
  pub room : 8 + n + 16 ≤ size

module _ (Why : Type 0) (r : ℕ) (cells : List Cell) (xs : List ℕ) (pos : 0 < length xs)
    (size_fits : length xs < 2 ^ 64) (h : Heap) (p : Producer) (v : IsValid p r cells)
    (good : Good h.mem r cells) where
  send_direct :
      Room p.ring p.w (over p) r (8 + length xs + 16) cells v.layout
      → Sends Why r cells xs (put_msg xs (put_head h p (length xs)))
  unfolding put_msg put_head
  send_direct room =
      let apart =
        Apart-at_w p.ring p.w (over p) r (8 + length xs + 16) cells v.layout v.ends room in
      let apart' =
        Apart-narrow p.w (p.w + (8 + length xs + 16)) p.w (p.w + 8 + length xs) r cells
          (omega arith) (omega arith) apart in
      (
        direct xs,
        refl,
        Good-append (with_msg h.mem p.w xs) r cells (direct xs ∷ [])
            (Good-Agree p.w (p.w + 8 + length xs) r cells (Agree-with_msg h.mem p.w xs) apart' good)
            (subst (λ a. Good (with_msg h.mem p.w xs) a (direct xs ∷ [])) (sym v.ends)
              (MsgAt-with_msg h.mem p.w xs pos size_fits, tt)),
        record {
          layout = Layout-direct p.ring p.w (over p) r xs cells v.layout room;
          ends = end_of-append r cells (direct xs ∷ []) ∙ ap (λ a. a + 8 + length xs) v.ends;
          distinct = Distinct-append r cells (direct xs) v.distinct (
              subst (λ a. NotAt (a + 8 + length xs) r cells) (sym v.ends)
                (direct_end_new p.ring p.w (over p) r (length xs) cells v.layout v.ends room));
        },
      )

  send_wrapped :
      Run cells
      → p.ring ≤ r
      → p.w + 16 ≤ over p
      → p.ring < 2 ^ 64
      → p.ring + 8 + length xs + 16 ≤ r
      → (let (h', p') = put_route h p in
          Sends Why r cells xs (put_msg xs (put_head h' p' (length xs))))
  unfolding put_msg put_head put_route
  send_wrapped run low high ring_fits room =
      let le = le-end_of r cells run in
      let e = v.ends in
      let m = with_route h.mem p.w p.ring in
      let m' = with_msg m p.ring xs in
      (
        routed p.ring xs,
        refl,
        Good-append m' r cells (routed p.ring xs ∷ [])
            (Good-Agree p.ring (p.ring + 8 + length xs) r cells (Agree-with_msg m p.ring xs)
              (Run-Apart p.ring (p.ring + 8 + length xs) r cells run (omega arith))
              (Good-Agree p.w (p.w + 16) r cells (Agree-with_route h.mem p.w p.ring)
                (Run-Apart p.w (p.w + 16) r cells run (omega arith)) good))
            (subst (λ a. Good m' a (routed p.ring xs ∷ [])) (sym v.ends)
              (routed_lem h.mem p.w p.ring xs pos size_fits ring_fits (omega arith), tt)),
        record {
          layout = wrapped cells xs [] refl run tt low (omega arith) (omega arith);
          ends = end_of-append r cells (routed p.ring xs ∷ []);
          distinct =
              Distinct-append r cells (routed p.ring xs) v.distinct
                (Run-NotAt (p.ring + 8 + length xs) r cells run (omega arith));
        },
      )

  -- The new ring is at `a`.
  send_new :
      (a size : ℕ)
      → p.ring ≤ r
      → r < over p
      → Fresh p size a (length xs)
      → Sends Why r cells xs (
          put_msg xs (
            new_ring h
              (record p { prev_ring = p.ring; ring = 0; ring_size = size })
              (length xs)
              (some a)))
  unfolding put_msg put_head put_route new_ring
  send_new a size low high f =
      let room = Room-route p.ring p.w (over p) r cells v.layout in
      let z = zero_fill h.mem a size in
      let m = with_route z p.w a in
      let m' = with_msg m a xs in
      let o = f.apart in
      let fr = f.room in
      let inside = w_inside p.ring p.w (over p) r cells v.layout v.ends in
      let w_low = inside.0 in
      let w_in = inside.1 in
      let e = v.ends in
      let apart = Apart-near p.ring p.w (over p) r a (a + size) cells v.layout v.ends low high o in
      (
        routed a xs,
        refl,
        Good-append m' r cells (routed a xs ∷ [])
            (Good-Agree a (a + 8 + length xs) r cells (Agree-with_msg m a xs)
              (Apart-narrow a (a + size) a (a + 8 + length xs) r cells (omega arith) (omega arith)
                apart)
              (Good-Agree p.w (p.w + 16) r cells (Agree-with_route z p.w a)
                (Apart-at_w p.ring p.w (over p) r 16 cells v.layout v.ends room)
                (Good-Agree a (a + size) r cells (Agree-zero_fill h.mem a size) apart good)))
            (subst (λ b. Good m' b (routed a xs ∷ [])) (sym v.ends)
              (routed_lem z p.w a xs pos size_fits f.fits (omega arith), tt)),
        record {
          layout = crossed cells xs [] refl apart (omega arith) tt (omega arith);
          ends = end_of-append r cells (routed a xs ∷ []);
          distinct = Distinct-append r cells (routed a xs) v.distinct (
              Apart-NotAt (a + 8 + length xs) a (a + size) r cells (omega arith) (omega arith) apart
                (omega arith));
        },
      )

-- With the consumer on the current ring.
send_near :
    (alloc : ℕ → Option ℕ) (grow : ℕ → ℕ) (Why : Type 0) (r : ℕ) (cells : List Cell) (xs : List ℕ)
    → 0 < length xs
    → length xs < 2 ^ 64
    → (h : Heap) (p : Producer) (v : IsValid p r cells) → Good h.mem r cells
    → p.ring < 2 ^ 64
    → p.ring ≤ r
    → r < over p
    → ((a : ℕ) → alloc (grow p.ring_size) ≡ some a → Fresh p (grow p.ring_size) a (length xs))
    → (alloc (grow p.ring_size) ≡ none → Why)
    → Sends Why r cells xs (put_msg xs (produce_near alloc grow h p r (length xs)))
unfolding produce_near route_to_new_ring put_msg
send_near alloc grow Why r cells xs pos fits h p v good ring_fits low high fresh no_memory =
    elim (Bool-cases (ltb p.w r)) [
      | inl before ↦ rw before (elim (Bool-cases (would_clobber r p.w (length xs))) [
        | inl full ↦ rw full new_or_fatal
        | inr free ↦ rw free (
            send_direct Why r cells xs pos fits h p v good (
              Room-before p.ring p.w (over p) r (8 + length xs + 16) cells v.layout v.ends low high
                (ground arith) (ground arith)))
      ])
      | inr behind ↦
          let (run, room) =
            Room-behind p.ring p.w (over p) r (8 + length xs + 16) cells v.layout v.ends low high
              (ground arith) in
          rw behind (elim (Bool-cases (would_clobber (over p) p.w (length xs))) [
            | inr free ↦
                rw free (send_direct Why r cells xs pos fits h p v good (room (ground arith)))
            | inl over_end ↦ rw over_end (elim (Bool-cases (would_clobber r p.ring (length xs))) [
              | inl full ↦ rw full new_or_fatal
              | inr free ↦ rw free (
                  send_wrapped Why r cells xs pos fits h p v good run low
                    (w_inside p.ring p.w (over p) r cells v.layout v.ends).1 ring_fits
                    (ground arith))
            ])
          ])
    ]
  where
    with_memory :
        (o : Option ℕ)
        → alloc (grow p.ring_size) ≡ o
        → Sends Why r cells xs (
            put_msg xs (
              new_ring h
                (record p { prev_ring = p.ring; ring = 0; ring_size = grow p.ring_size })
                (length xs)
                o))
    with_memory none e = no_memory e
    with_memory (some a) e =
        send_new Why r cells xs pos fits h p v good a (grow p.ring_size) low high (fresh a e)

    new_or_fatal : Sends Why r cells xs (put_msg xs (route_to_new_ring alloc grow h p (length xs)))
    new_or_fatal = with_memory (alloc (grow p.ring_size)) refl

-- Sending a message of at least one byte on a well-formed ring, at any position of the consumer in
-- it that the producer may have loaded: all unread messages are still in memory and in their order,
-- the new message is behind them, and the ring is well formed; or the call is refused with RS_FATAL,
-- for one of the two reasons of `Refused`. It is assumed of the memory for a new ring that it does
-- not overlap the current one, has a 64-bit address and has room for the message, and of the
-- message's size and the ring's address that they are below 2^64.
pub send_lem :
    (alloc : ℕ → Option ℕ) (grow : ℕ → ℕ) (r : ℕ) (cells : List Cell) (xs : List ℕ)
    → 0 < length xs
    → length xs < 2 ^ 64
    → (h : Heap) (p : Producer) → IsValid p r cells
    → Good h.mem r cells
    → p.ring < 2 ^ 64
    → ((a : ℕ) → alloc (grow p.ring_size) ≡ some a → Fresh p (grow p.ring_size) a (length xs))
    → Sends
        (Refused alloc grow p r (length xs))
        r
        cells
        xs
        (put_msg xs (produce_ring_msg alloc grow h p r (length xs)))
unfolding produce_ring_msg put_msg
send_lem alloc grow r cells xs pos fits h p v good ring_fits fresh =
    elim (Bool-cases (leb p.ring r && ltb r (over p))) [
      | inl near ↦ rw near (elim (Bool-cases (p.prev_ring == 0)) [
        | inl no_prev ↦ rw no_prev (
            send_near alloc grow _ r cells xs pos fits h p v good ring_fits (ground arith)
              (ground arith) fresh inl)
        | inr prev ↦ rw prev (
            send_near alloc grow _ r cells xs pos fits (record h { freed = p.prev_ring ∷ h.freed })
              (record p { prev_ring = 0 })
              (record { layout = v.layout; ends = v.ends; distinct = v.distinct }) good ring_fits
              (ground arith) (ground arith)
              (λ a e. record {
                apart = (fresh a e).apart;
                fits = (fresh a e).fits;
                room = (fresh a e).room;
              })
              inl)
      ])
      | inr far ↦
          let out : (r < p.ring) ⊎ (over p ≤ r) = ground arith in
          rw far (elim (Bool-cases (would_clobber (over p) p.w (length xs))) [
            | inl full ↦ rw full (inr (out, ground arith))
            | inr free ↦ rw free (
                send_direct (Refused alloc grow p r (length xs)) r cells xs pos fits h p v good (
                  Room-far p.ring p.w (over p) r (8 + length xs + 16) cells v.layout v.ends out
                    (ground arith)))
          ])
    ]
