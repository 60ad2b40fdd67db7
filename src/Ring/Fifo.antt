-- ===== src/Ring/Fifo.antt =====
-- What the consumer thread receives is what the producer thread sends.
use mathlib.Core.Option.{some-injective}
use mathlib.Core.Path.{subst}
use ring_socket.Prelude.{
  ℕ, ◌≡◌, ◌≢◌, refl, sym, ap, ◌∙◌, some, List, [], ◌∷◌, ◌++◌, map, arith, length, append_assoc,
  append-nil,
}
use ring_socket.Ring.{Mem, Heap, Producer, consume_ring_msg, msg_at}
use ring_socket.Ring.Cells.{Cell, msg_of, head_of, next_of, end_of, Good, end_of-append, NotAt-last}
use ring_socket.Ring.Layout.{straight, IsValid, IsValid-next}
use ring_socket.Ring.Send.{Refused, Sends, send_lem}
use ring_socket.Ring.Consume.{consume_lem, consume_at_w}
use ring_socket.Ring.Threads.{
  System, Step, send, queue_w, store_w, consume, queue_r, store_r, Reaches, here, after, Initial,
}

-- The cells of the ring from `r_shared` on, cut where the other positions are.
record Ordered (s : System) : Type 0 where
  a : List Cell
  b : List Cell
  c : List Cell
  d : List Cell
  e : List Cell
  valid : IsValid s.prod s.r_shared (a ++ (b ++ (c ++ (d ++ e))))
  good : Good s.heap.mem s.r_shared (a ++ (b ++ (c ++ (d ++ e))))
  at_r_queued : end_of s.r_shared a ≡ s.r_queued
  at_r : end_of s.r_queued b ≡ s.r
  at_w_shared : end_of s.r c ≡ s.w_shared
  at_w_queued : end_of s.w_shared d ≡ s.w_queued
  history : s.sent ≡ s.received ++ map msg_of (c ++ (d ++ e))

Good-drop :
    (mem : Mem) (r : ℕ) (cs ds : List Cell) → Good mem r (cs ++ ds) → Good mem (end_of r cs) ds
Good-drop mem r [] ds g = g
Good-drop mem r (c ∷ cs) ds g = Good-drop mem (next_of r c) cs ds g.1

IsValid-drop :
    (p : Producer) (r : ℕ) (cs ds : List Cell) → IsValid p r (cs ++ ds) → IsValid p (end_of r cs) ds
IsValid-drop p r [] ds v = v
IsValid-drop p r (c ∷ cs) ds v =
    IsValid-drop p (next_of r c) cs ds (IsValid-next p r c (cs ++ ds) v)

map-append : (cs ds : List Cell) → map msg_of (cs ++ ds) ≡ map msg_of cs ++ map msg_of ds
map-append [] ds = refl
map-append (c ∷ cs) ds = ap (◌∷◌ (msg_of c)) (map-append cs ds)

-- Moving a cut between cells.
assoc_second : (a b c d : List Cell) → a ++ (b ++ (c ++ d)) ≡ a ++ ((b ++ c) ++ d)
assoc_second a b c d = ap (λ t. a ++ t) (sym (append_assoc b c d))

push_last :
    (a b c d e : List Cell) (x : Cell)
    → (a ++ (b ++ (c ++ (d ++ e)))) ++ x ∷ [] ≡ a ++ (b ++ (c ++ (d ++ (e ++ x ∷ []))))
push_last a b c d e x =
    append_assoc a (b ++ (c ++ (d ++ e))) (x ∷ [])
    ∙ ap (λ t. a ++ t) (append_assoc b (c ++ (d ++ e)) (x ∷ []))
    ∙ ap (λ t. a ++ (b ++ t)) (append_assoc c (d ++ e) (x ∷ []))
    ∙ ap (λ t. a ++ (b ++ (c ++ t))) (append_assoc d e (x ∷ []))

module _ (s : System) (o : Ordered s) where
  -- The cells from a position on end where the producer writes.
  end_at_w : end_of s.w_shared (o.d ++ o.e) ≡ s.prod.w
  end_at_w =
      ap (λ t. end_of t (o.d ++ o.e)) (sym o.at_w_shared)
      ∙ sym (end_of-append s.r o.c (o.d ++ o.e))
      ∙ ap (λ t. end_of t (o.c ++ (o.d ++ o.e))) (sym o.at_r)
      ∙ sym (end_of-append s.r_queued o.b (o.c ++ (o.d ++ o.e)))
      ∙ ap (λ t. end_of t (o.b ++ (o.c ++ (o.d ++ o.e)))) (sym o.at_r_queued)
      ∙ sym (end_of-append s.r_shared o.a (o.b ++ (o.c ++ (o.d ++ o.e))))
      ∙ o.valid.ends

  unread-Good : Good s.heap.mem s.r (o.c ++ (o.d ++ o.e))
  unread-Good =
      subst (λ t. Good s.heap.mem t (o.c ++ (o.d ++ o.e))) o.at_r
        (Good-drop s.heap.mem s.r_queued o.b (o.c ++ (o.d ++ o.e)) (
          subst (λ t. Good s.heap.mem t (o.b ++ (o.c ++ (o.d ++ o.e)))) o.at_r_queued
            (Good-drop s.heap.mem s.r_shared o.a (o.b ++ (o.c ++ (o.d ++ o.e))) o.good)))

  unread-IsValid : IsValid s.prod s.r (o.c ++ (o.d ++ o.e))
  unread-IsValid =
      subst (λ t. IsValid s.prod t (o.c ++ (o.d ++ o.e))) o.at_r
        (IsValid-drop s.prod s.r_queued o.b (o.c ++ (o.d ++ o.e)) (
          subst (λ t. IsValid s.prod t (o.b ++ (o.c ++ (o.d ++ o.e)))) o.at_r_queued
            (IsValid-drop s.prod s.r_shared o.a (o.b ++ (o.c ++ (o.d ++ o.e))) o.valid)))

  queue_w-Ordered : Ordered (record s { w_queued = s.prod.w })
  queue_w-Ordered =
      let q : o.a ++ (o.b ++ (o.c ++ (o.d ++ o.e)))
          ≡ o.a ++ (o.b ++ (o.c ++ ((o.d ++ o.e) ++ []))) =
        ap (λ t. o.a ++ (o.b ++ (o.c ++ t))) (sym (append-nil (o.d ++ o.e))) in
      record {
        a = o.a;
        b = o.b;
        c = o.c;
        d = o.d ++ o.e;
        e = [];
        valid = subst (IsValid s.prod s.r_shared) q o.valid;
        good = subst (Good s.heap.mem s.r_shared) q o.good;
        at_r_queued = o.at_r_queued;
        at_r = o.at_r;
        at_w_shared = o.at_w_shared;
        at_w_queued = end_at_w;
        history =
            o.history
            ∙ ap (λ t. s.received ++ map msg_of (o.c ++ t)) (sym (append-nil (o.d ++ o.e)));
      }

  store_w-Ordered : Ordered (record s { w_shared = s.w_queued })
  store_w-Ordered =
      let q : o.a ++ (o.b ++ (o.c ++ (o.d ++ o.e))) ≡ o.a ++ (o.b ++ ((o.c ++ o.d) ++ o.e)) =
        ap (λ t. o.a ++ t) (assoc_second o.b o.c o.d o.e) in
      record {
        a = o.a;
        b = o.b;
        c = o.c ++ o.d;
        d = [];
        e = o.e;
        valid = subst (IsValid s.prod s.r_shared) q o.valid;
        good = subst (Good s.heap.mem s.r_shared) q o.good;
        at_r_queued = o.at_r_queued;
        at_r = o.at_r;
        at_w_shared =
            end_of-append s.r o.c o.d ∙ ap (λ t. end_of t o.d) o.at_w_shared ∙ o.at_w_queued;
        at_w_queued = refl;
        history = o.history ∙ ap (λ t. s.received ++ map msg_of t) (sym (append_assoc o.c o.d o.e));
      }

  queue_r-Ordered : Ordered (record s { r_queued = s.r })
  queue_r-Ordered =
      let q : o.a ++ (o.b ++ (o.c ++ (o.d ++ o.e))) ≡ (o.a ++ o.b) ++ (o.c ++ (o.d ++ o.e)) =
        sym (append_assoc o.a o.b (o.c ++ (o.d ++ o.e))) in
      record {
        a = o.a ++ o.b;
        b = [];
        c = o.c;
        d = o.d;
        e = o.e;
        valid = subst (IsValid s.prod s.r_shared) q o.valid;
        good = subst (Good s.heap.mem s.r_shared) q o.good;
        at_r_queued =
            end_of-append s.r_shared o.a o.b ∙ ap (λ t. end_of t o.b) o.at_r_queued ∙ o.at_r;
        at_r = refl;
        at_w_shared = o.at_w_shared;
        at_w_queued = o.at_w_queued;
        history = o.history;
      }

  store_r-Ordered : Ordered (record s { r_shared = s.r_queued })
  store_r-Ordered =
      let cells = o.b ++ (o.c ++ (o.d ++ o.e)) in
      record {
        a = [];
        b = o.b;
        c = o.c;
        d = o.d;
        e = o.e;
        valid =
            subst (λ t. IsValid s.prod t cells) o.at_r_queued
              (IsValid-drop s.prod s.r_shared o.a cells o.valid);
        good =
            subst (λ t. Good s.heap.mem t cells) o.at_r_queued
              (Good-drop s.heap.mem s.r_shared o.a cells o.good);
        at_r_queued = refl;
        at_r = o.at_r;
        at_w_shared = o.at_w_shared;
        at_w_queued = o.at_w_queued;
        history = o.history;
      }

  send-Ordered :
      (xs : List ℕ) (h : Heap) (p : Producer)
      → (x : Cell) × (msg_of x ≡ xs)
        × Good h.mem s.r_shared ((o.a ++ (o.b ++ (o.c ++ (o.d ++ o.e)))) ++ x ∷ [])
        × IsValid p s.r_shared ((o.a ++ (o.b ++ (o.c ++ (o.d ++ o.e)))) ++ x ∷ [])
      → Ordered (record s { heap = h; prod = p; sent = s.sent ++ xs ∷ [] })
  send-Ordered xs h p (x, m, g, v) =
      let q = push_last o.a o.b o.c o.d o.e x in
      let rest : o.c ++ (o.d ++ (o.e ++ x ∷ [])) ≡ (o.c ++ (o.d ++ o.e)) ++ x ∷ [] =
        ap (λ t. o.c ++ t) (sym (append_assoc o.d o.e (x ∷ [])))
        ∙ sym (append_assoc o.c (o.d ++ o.e) (x ∷ [])) in
      record {
        a = o.a;
        b = o.b;
        c = o.c;
        d = o.d;
        e = o.e ++ x ∷ [];
        valid = subst (IsValid p s.r_shared) q v;
        good = subst (Good h.mem s.r_shared) q g;
        at_r_queued = o.at_r_queued;
        at_r = o.at_r;
        at_w_shared = o.at_w_shared;
        at_w_queued = o.at_w_queued;
        history =
            ap (λ t. t ++ xs ∷ []) o.history
            ∙ append_assoc s.received (map msg_of (o.c ++ (o.d ++ o.e))) (xs ∷ [])
            ∙ ap (λ t. s.received ++ t)
                (ap (λ y. map msg_of (o.c ++ (o.d ++ o.e)) ++ y ∷ []) (sym m)
                  ∙ sym (map-append (o.c ++ (o.d ++ o.e)) (x ∷ []))
                  ∙ ap (map msg_of) (sym rest));
      }

-- The consumer takes the first of the cells that it may read.
module _ (s : System) (a b c' d e : List Cell) (x : Cell)
    (valid : IsValid s.prod s.r_shared (a ++ (b ++ ((x ∷ c') ++ (d ++ e)))))
    (good : Good s.heap.mem s.r_shared (a ++ (b ++ ((x ∷ c') ++ (d ++ e)))))
    (at_r_queued : end_of s.r_shared a ≡ s.r_queued) (at_r : end_of s.r_queued b ≡ s.r)
    (at_w_shared : end_of s.r (x ∷ c') ≡ s.w_shared)
    (at_w_queued : end_of s.w_shared d ≡ s.w_queued)
    (history : s.sent ≡ s.received ++ map msg_of ((x ∷ c') ++ (d ++ e))) where
  consume_first :
      (r' : ℕ) (msg : List ℕ)
      → next_of s.r x ≡ r'
      → msg ≡ msg_of x
      → Ordered (record s { r = r'; received = s.received ++ msg ∷ [] })
  consume_first r' msg n g =
      let q : a ++ (b ++ ((x ∷ c') ++ (d ++ e))) ≡ a ++ ((b ++ x ∷ []) ++ (c' ++ (d ++ e))) =
        ap (λ t. a ++ t) (sym (append_assoc b (x ∷ []) (c' ++ (d ++ e)))) in
      record {
        a = a;
        b = b ++ x ∷ [];
        c = c';
        d = d;
        e = e;
        valid = subst (IsValid s.prod s.r_shared) q valid;
        good = subst (Good s.heap.mem s.r_shared) q good;
        at_r_queued = at_r_queued;
        at_r = end_of-append s.r_queued b (x ∷ []) ∙ ap (λ t. next_of t x) at_r ∙ n;
        at_w_shared = ap (λ t. end_of t c') (sym n) ∙ at_w_shared;
        at_w_queued = at_w_queued;
        history =
            history
            ∙ sym (append_assoc s.received (msg_of x ∷ []) (map msg_of (c' ++ (d ++ e))))
            ∙ ap (λ t. (s.received ++ t ∷ []) ++ map msg_of (c' ++ (d ++ e))) (sym g);
      }

consume-Ordered :
    (s : System) (o : Ordered s) (m r' : ℕ)
    → consume_ring_msg s.heap.mem s.w_shared s.r ≡ some (m, r')
    → Ordered (record s { r = r'; received = s.received ++ msg_at s.heap.mem m ∷ [] })
consume-Ordered s o m r' found = by_cells o.c refl
  where
    not_at_w : s.r ≢ s.w_shared
    not_at_w e = consume_at_w s.heap.mem s.w_shared s.r (m, r') e found

    by_cells :
        (cells : List Cell)
        → o.c ≡ cells
        → Ordered (record s { r = r'; received = s.received ++ msg_at s.heap.mem m ∷ [] })
    by_cells [] q = absurd (not_at_w (ap (end_of s.r) (sym q) ∙ o.at_w_shared))
    by_cells (x ∷ c') q =
        let cell = (subst (λ t. Good s.heap.mem s.r (t ++ (o.d ++ o.e))) q (unread-Good s o)).0 in
        let (got, msg) = consume_lem s.heap.mem s.w_shared s.r x cell not_at_w in
        let same : (head_of s.r x, next_of s.r x) ≡ (m, r') =
          some-injective _ _ (sym got ∙ found) in
        consume_first s o.a o.b c' o.d o.e x
          (subst (λ t. IsValid s.prod s.r_shared (o.a ++ (o.b ++ (t ++ (o.d ++ o.e))))) q o.valid)
          (subst (λ t. Good s.heap.mem s.r_shared (o.a ++ (o.b ++ (t ++ (o.d ++ o.e))))) q o.good)
          o.at_r_queued o.at_r (ap (end_of s.r) (sym q) ∙ o.at_w_shared) o.at_w_queued
          (o.history ∙ ap (λ t. s.received ++ map msg_of (t ++ (o.d ++ o.e))) q) r'
          (msg_at s.heap.mem m) (ap (λ t. t.1) same)
          (ap (msg_at s.heap.mem) (sym (ap (λ t. t.0) same)) ∙ msg)

Step-Ordered : (grow : ℕ → ℕ) (s t : System) → Ordered s → Step grow s t → Ordered t
Step-Ordered grow s _ o (send alloc xs h p pos fits ring_fits fresh sends) =
    let cells = o.a ++ (o.b ++ (o.c ++ (o.d ++ o.e))) in
    send-Ordered s o xs h p (
      subst (Sends (Refused alloc grow s.prod s.r_shared (length xs)) s.r_shared cells xs) sends (
        send_lem alloc grow s.r_shared cells xs pos fits s.heap s.prod o.valid o.good ring_fits
          fresh))
Step-Ordered grow s _ o queue_w = queue_w-Ordered s o
Step-Ordered grow s _ o store_w = store_w-Ordered s o
Step-Ordered grow s _ o (consume a r' found) = consume-Ordered s o a r' found
Step-Ordered grow s _ o queue_r = queue_r-Ordered s o
Step-Ordered grow s _ o store_r = store_r-Ordered s o

Reaches-Ordered : (grow : ℕ → ℕ) (s t : System) → Ordered s → Reaches grow s t → Ordered t
Reaches-Ordered grow s _ o here = o
Reaches-Ordered grow s _ o (after t u path step) =
    Step-Ordered grow t u (Reaches-Ordered grow s t o path) step

Initial-Ordered : (s : System) → Initial s → Ordered s
Initial-Ordered s i = record {
  a = [];
  b = [];
  c = [];
  d = [];
  e = [];
  valid = record {
    layout = straight tt (omega (arith, i.r_shared_start)) (omega (arith, i.w_start, i.room));
    ends = i.r_shared_start ∙ sym i.w_start;
    distinct = tt;
  };
  good = tt;
  at_r_queued = i.r_shared_start ∙ sym i.r_queued_start;
  at_r = i.r_queued_start ∙ sym i.r_start;
  at_w_shared = i.r_start ∙ sym i.w_shared_start;
  at_w_queued = i.w_shared_start ∙ sym i.w_queued_start;
  history = i.none_sent ∙ ap (λ t. t ++ []) (sym i.none_received);
}

-- A ring whose unread cells end where they begin has none.
caught_up :
    (p : Producer) (r : ℕ) (cells : List Cell) → IsValid p r cells → r ≡ p.w → map msg_of cells ≡ []
caught_up p r [] v e = refl
caught_up p r (x ∷ cells) v e =
    absurd (NotAt-last r (next_of r x) cells v.distinct.0 (e ∙ sym v.ends))

more_to_consume :
    (s : System)
    → Ordered s
    → s.r ≢ s.w_shared
    → (a r' : ℕ) × (consume_ring_msg s.heap.mem s.w_shared s.r ≡ some (a, r'))
more_to_consume s o ne = by_cells o.c refl
  where
    by_cells :
        (cells : List Cell)
        → o.c ≡ cells
        → (a r' : ℕ) × (consume_ring_msg s.heap.mem s.w_shared s.r ≡ some (a, r'))
    by_cells [] q = absurd (ne (ap (end_of s.r) (sym q) ∙ o.at_w_shared))
    by_cells (x ∷ c') q =
        let cell = (subst (λ t. Good s.heap.mem s.r (t ++ (o.d ++ o.e))) q (unread-Good s o)).0 in
        (head_of s.r x, next_of s.r x, (consume_lem s.heap.mem s.w_shared s.r x cell ne).0)

-- In every state that the two threads reach from a new ring, in whatever order they take their
-- steps and however late each learns of the other's position: the messages that the consumer has
-- received are the first ones that the producer has sent, in their order and unchanged; they are all
-- of them once the consumer is where the producer writes; and until the consumer is at the position
-- that it loads from the producer, `rs_consume_ring_msg` gives it a message. A send's message has at
-- least one byte, and the memory that it may allocate is fresh and has room for the message.
pub fifo_lem :
    (grow : ℕ → ℕ) (s t : System)
    → Initial s
    → Reaches grow s t
    → (pending : List (List ℕ)) × (t.sent ≡ t.received ++ pending)
      × (t.r ≡ t.prod.w → pending ≡ [])
      × (t.r ≢ t.w_shared
          → (a r' : ℕ) × (consume_ring_msg t.heap.mem t.w_shared t.r ≡ some (a, r')))
fifo_lem grow s t i path =
    let o = Reaches-Ordered grow s t (Initial-Ordered s i) path in
    (
      map msg_of (o.c ++ (o.d ++ o.e)),
      o.history,
      caught_up t.prod t.r (o.c ++ (o.d ++ o.e)) (unread-IsValid t o),
      more_to_consume t o,
    )
