-- ===== src/Outbound/Clients.antt =====
-- Messages to several clients, on whichever worker they are.
use ring_socket.Prelude.{
  ℕ, suc, ◌+◌, ◌-◌, ◌^◌, ◌≤◌, ◌<◌, ◌≡◌, inl, inr, refl, sym, ap, ◌∙◌, Bool, true, false, not, ◌&&◌,
  ◌||◌, none, some, List, [], ◌∷◌, ◌++◌, arith, if◌then◌else◌, ◌==◌, Bool-cases, length,
  length-append, All,
}
use ring_socket.Outbound.{
  single, array, every, every_except_single, every_except_array, send_head, worker_of, peer_of,
  elem, cur_clients, Sent, multi_to, to_multi, except_to, to_every_except_multi, of_app, filter,
  recipients,
}
use ring_socket.Outbound.Address.{IsUint32, NotMistaken, address_lem}

-- The peers of worker `i` among the client ids.
abbrev pub has_client : ℕ → ℕ → List ℕ → Bool
has_client i q [] = false
has_client i q (id ∷ ids) = worker_of id == i && peer_of id == q || has_client i q ids

or_false : (b : Bool) → b ≡ (b || false)
or_false true = refl
or_false false = refl

and_true : (b : Bool) → b ≡ (b && true)
and_true true = refl
and_true false = refl

pub and_false : (b : Bool) → (b && false) ≡ false
and_false true = refl
and_false false = refl

or_assoc : (a b c : Bool) → ((a || b) || c) ≡ (a || (b || c))
or_assoc true b c = refl
or_assoc false b c = refl

elem_end : (q p : ℕ) (cur : List ℕ) → elem q (cur ++ p ∷ []) ≡ (elem q cur || p == q)
elem_end q p [] = sym (or_false (p == q))
elem_end q p (c ∷ cur) = rw (elem_end q p cur) (sym (or_assoc (c == q) (elem q cur) (p == q)))

known_lem :
    (q p : ℕ) (cur : List ℕ) (b : Bool)
    → elem p cur ≡ true
    → (elem q cur || b) ≡ (elem q cur || (p == q || b))
known_lem q p cur b h = elim (Bool-cases (p == q)) [
  | inl same ↦
      let at : p ≡ q = ground arith in
      let there : elem q cur ≡ true = ap (λ x. elem x cur) (sym at) ∙ h in rw there refl
  | inr other ↦ rw other refl
]

elem-cur_clients :
    (i q : ℕ) (ids cur : List ℕ)
    → elem q (cur_clients i ids cur) ≡ (elem q cur || has_client i q ids)
unfolding cur_clients
elem-cur_clients i q [] cur = or_false (elem q cur)
elem-cur_clients i q (id ∷ ids) cur = elim (Bool-cases (worker_of id == i)) [
  | inr other ↦ rw other (elem-cur_clients i q ids cur)
  | inl here ↦ elim (Bool-cases (elem (peer_of id) cur)) [
    | inr fresh ↦
        rw (here, fresh)
          (elem-cur_clients i q ids (cur ++ peer_of id ∷ [])
            ∙ rw (elem_end q (peer_of id) cur)
                (or_assoc (elem q cur) (peer_of id == q) (has_client i q ids)))
    | inl known ↦
        rw (here, known)
          (elem-cur_clients i q ids cur ∙ known_lem q (peer_of id) cur (has_client i q ids) known)
  ]
]

All-snoc : (p : ℕ) (cur : List ℕ) → IsUint32 p → All IsUint32 cur → All IsUint32 (cur ++ p ∷ [])
All-snoc p [] h a = (h, tt)
All-snoc p (c ∷ cur) h a = (a.0, All-snoc p cur h a.1)

either : {A : Type 0} (P : A → Type 0) (b : Bool) (x y : A) → P x → P y → P (if b then x else y)
either P true x y px py = px
either P false x y px py = py

-- The array of 32-bit integers has room for the clients.
abbrev Bounded : ℕ → List ℕ → Type 0
Bounded n xs = All IsUint32 xs × (length xs ≤ n)

cur_clients-Bounded :
    (i n : ℕ) (ids cur : List ℕ) → Bounded n cur → Bounded (n + length ids) (cur_clients i ids cur)
unfolding cur_clients
cur_clients-Bounded i n [] cur (a, l) = (a, omega arith)
cur_clients-Bounded i n (id ∷ ids) cur (a, l) =
    let p = peer_of id in
    let with_it =
      cur_clients-Bounded i (n + 1) ids (cur ++ p ∷ [])
        (All-snoc p cur (omega arith) a, omega (arith, length-append cur (p ∷ []))) in
    let without_it = cur_clients-Bounded i n ids cur (a, l) in
    let P = Bounded (n + length (id ∷ ids)) in
    let skipped : P (cur_clients i ids cur) = (without_it.0, omega (arith, without_it.1)) in
    let added : P (cur_clients i ids (cur ++ p ∷ [])) = (with_it.0, omega (arith, with_it.1)) in
    either P (not (worker_of id == i)) (cur_clients i ids cur)
      (if elem p cur then cur_clients i ids cur else cur_clients i ids (cur ++ p ∷ [])) skipped
      (either P (elem p cur) (cur_clients i ids cur) (cur_clients i ids (cur ++ p ∷ [])) skipped
        added)

-- The peers that worker `i` finds to be the recipients; `apps` are the `app_i` of its peers.
abbrev pub received : ℕ → List ℕ → List ℕ → Sent → List ℕ
received app_i apps frame none = []
received app_i apps frame (some (kind, ps)) = recipients app_i apps (send_head kind ps ++ frame)

pub elem-filter : (q : ℕ) (f : ℕ → Bool) (ps : List ℕ) → elem q (filter f ps) ≡ (elem q ps && f q)
unfolding filter
elem-filter q f [] = refl
elem-filter q f (p ∷ ps) = elim (Bool-cases (p == q)) [
  | inl same ↦
      let at : p ≡ q = ground arith in
      elim (Bool-cases (f q)) [
        | inl kept ↦ rw (at, kept) (ground arith)
        | inr dropped ↦
            rw (at, dropped)
              (elem-filter q f ps
                ∙ rw dropped (and_false (elem q ps) ∙ sym (and_false (q == q || elem q ps))))
      ]
  | inr other ↦ elim (Bool-cases (f p)) [
    | inl kept ↦ rw (kept, other) (elem-filter q f ps)
    | inr dropped ↦ rw (dropped, other) (elem-filter q f ps)
  ]
]

-- How often a message goes to a peer, by the list of those it goes to.
unfoldable pub times : ℕ → List ℕ → ℕ
times q [] = 0
times q (p ∷ ps) = let rest = times q ps in if p == q then suc rest else rest

abbrev pub once : Bool → ℕ
once b = if b then 1 else 0

abbrev pub IsDistinct : List ℕ → Type 0
IsDistinct ps = (q : ℕ) → times q ps ≡ once (elem q ps)

times_end : (q p : ℕ) (cur : List ℕ) → times q (cur ++ p ∷ []) ≡ times q cur + once (p == q)
unfolding times
times_end q p [] = ground arith
times_end q p (c ∷ cur) = ground (arith, times_end q p cur)

snoc-IsDistinct :
    (p : ℕ) (cur : List ℕ) → elem p cur ≡ false → IsDistinct cur → IsDistinct (cur ++ p ∷ [])
snoc-IsDistinct p cur fresh d q =
    times_end q p cur
    ∙ rw (d q, elem_end q p cur)
        (elim (Bool-cases (p == q)) [
          | inl same ↦
              let at : p ≡ q = ground arith in
              let absent : elem q cur ≡ false = ap (λ x. elem x cur) (sym at) ∙ fresh in
              rw (same, absent) refl
          | inr other ↦ rw (other, sym (or_false (elem q cur))) (omega arith)
        ])

cur_clients-IsDistinct :
    (i : ℕ) (ids cur : List ℕ) → IsDistinct cur → IsDistinct (cur_clients i ids cur)
unfolding cur_clients
cur_clients-IsDistinct i [] cur d = d
cur_clients-IsDistinct i (id ∷ ids) cur d = elim (Bool-cases (worker_of id == i)) [
  | inr other ↦ rw other (cur_clients-IsDistinct i ids cur d)
  | inl here ↦ elim (Bool-cases (elem (peer_of id) cur)) [
    | inr fresh ↦
        rw (here, fresh)
          (cur_clients-IsDistinct i ids (cur ++ peer_of id ∷ [])
            (snoc-IsDistinct (peer_of id) cur fresh d))
    | inl known ↦ rw (here, known) (cur_clients-IsDistinct i ids cur d)
  ]
]

-- The peers of an app are listed by ascending numbers.
of_app_below :
    (app_i q : ℕ) (apps : List ℕ) (p : ℕ)
    → q < p
    → (times q (of_app app_i apps p) ≡ 0) × (elem q (of_app app_i apps p) ≡ false)
unfolding of_app times
of_app_below app_i q [] p h = (refl, refl)
of_app_below app_i q (a ∷ apps) p h =
    let later = of_app_below app_i q apps (p + 1) (omega arith) in
    let other : (p == q) ≡ false = ground arith in
    elim (Bool-cases (a == app_i)) [
      | inl here ↦ rw (here, other, later.0, later.1) (refl, refl)
      | inr away ↦ rw away later
    ]

of_app-IsDistinct : (app_i : ℕ) (apps : List ℕ) (p : ℕ) → IsDistinct (of_app app_i apps p)
unfolding of_app times
of_app-IsDistinct app_i [] p q = refl
of_app-IsDistinct app_i (a ∷ apps) p q =
    let later = of_app-IsDistinct app_i apps (p + 1) q in
    elim (Bool-cases (a == app_i)) [
      | inr away ↦ rw away later
      | inl here ↦ elim (Bool-cases (p == q)) [
        | inr other ↦ rw (here, other) later
        | inl same ↦
            let none_later = of_app_below app_i q apps (p + 1) (ground arith) in
            rw (here, same, none_later.0) refl
      ]
    ]

times-filter :
    (q : ℕ) (f : ℕ → Bool) (ps : List ℕ) → times q (filter f ps) ≡ (if f q then times q ps else 0)
unfolding filter times
times-filter q f [] = ground arith
times-filter q f (p ∷ ps) = elim (Bool-cases (p == q)) [
  | inl same ↦
      let at : p ≡ q = ground arith in
      elim (Bool-cases (f q)) [
        | inl kept ↦ rw (at, kept) (ground (arith, times-filter q f ps))
        | inr dropped ↦ rw (at, dropped) (ground (arith, times-filter q f ps))
      ]
  | inr other ↦ elim (Bool-cases (f p)) [
    | inl kept ↦ rw (kept, other) (times-filter q f ps)
    | inr dropped ↦ rw (dropped, other) (times-filter q f ps)
  ]
]

filter-IsDistinct :
    (q : ℕ) (f : ℕ → Bool) (ps : List ℕ)
    → IsDistinct ps
    → times q (filter f ps) ≡ once (elem q ps && f q)
filter-IsDistinct q f ps d = elim (Bool-cases (f q)) [
  | inl kept ↦ times-filter q f ps ∙ rw (kept) (d q ∙ ap once (and_true (elem q ps)))
  | inr dropped ↦ times-filter q f ps ∙ rw (dropped, and_false (elem q ps)) refl
]

none-IsDistinct : IsDistinct []
unfolding times
none-IsDistinct q = refl

module _ (app_i : ℕ) (apps frame : List ℕ)
    (distinct : NotMistaken frame (of_app app_i apps 0)) where
  received_multi :
      (ps : List ℕ)
      → All IsUint32 ps
      → length ps < 2 ^ 30 - 1
      → received app_i apps frame (multi_to ps) ≡ ps
  received_multi [] u l = refl
  received_multi (p ∷ []) u l = (address_lem single (p ∷ []) frame app_i apps refl u distinct).0
  received_multi (p ∷ q ∷ ps) u l =
      (address_lem array (p ∷ q ∷ ps) frame app_i apps (omega arith, l) u distinct).0

  times-received_except :
      (ps : List ℕ) (q : ℕ)
      → All IsUint32 ps
      → length ps < 2 ^ 30 - 1
      → times q (received app_i apps frame (except_to ps))
        ≡ once (elem q (of_app app_i apps 0) && not (elem q ps))
  times-received_except [] q u l =
      ap (times q) (address_lem every [] frame app_i apps refl tt distinct).0
      ∙ of_app-IsDistinct app_i apps 0 q
      ∙ ap once (and_true (elem q (of_app app_i apps 0)))
  times-received_except (p ∷ []) q u l =
      ap (times q) (address_lem every_except_single (p ∷ []) frame app_i apps refl u distinct).0
      ∙ filter-IsDistinct q (λ r. not (elem r (p ∷ []))) (of_app app_i apps 0)
          (of_app-IsDistinct app_i apps 0)
  times-received_except (p ∷ r ∷ ps) q u l =
      ap (times q)
        (address_lem every_except_array (p ∷ r ∷ ps) frame app_i apps (omega arith, l) u distinct).0
      ∙ filter-IsDistinct q (λ x. not (elem x (p ∷ r ∷ ps))) (of_app app_i apps 0)
          (of_app-IsDistinct app_i apps 0)

  -- A message that an app sends with `rs_to_multi` goes on worker `i` exactly once to each peer of
  -- that worker that the client ids name, however often they do, and to no other peer; one that it
  -- sends with `rs_to_every_except_multi` goes exactly once to each peer of the app but those. There
  -- are fewer than 2^30 - 1 ids, and it is assumed that no peer of the app has the number that the
  -- first four bytes of the frame are.
  pub multi_lem :
      (client_ids : List ℕ) (i q : ℕ)
      → length client_ids < 2 ^ 30 - 1
      → (times q (received app_i apps frame (to_multi client_ids i))
          ≡ once (has_client i q client_ids))
        × (times q (received app_i apps frame (to_every_except_multi client_ids i))
            ≡ once (elem q (of_app app_i apps 0) && not (has_client i q client_ids)))
  unfolding to_multi to_every_except_multi
  multi_lem client_ids i q h =
      let (u, l) = cur_clients-Bounded i 0 client_ids [] (tt, omega arith) in
      let clients = cur_clients i client_ids [] in
      let found : elem q clients ≡ has_client i q client_ids = elem-cur_clients i q client_ids [] in
      (
        ap (times q) (received_multi clients u (omega arith))
            ∙ cur_clients-IsDistinct i client_ids [] none-IsDistinct q
            ∙ ap once found,
        times-received_except clients q u (omega arith)
            ∙ ap (λ b. once (elem q (of_app app_i apps 0) && not b)) found,
      )
