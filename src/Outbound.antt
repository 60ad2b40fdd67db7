-- ===== src/Outbound.antt =====
-- How an app addresses a message, and how a worker finds its recipients: `rs_to_...` of
-- ringsocket.h, `rs_send` of ringsocket_helper.h, and rs_from_app.c.
pub mod Address
pub mod Clients
pub mod Errors
use ring_socket.Prelude.{
  ℕ, zero, suc, ◌+◌, ◌-◌, ◌*◌, ◌/◌, ◌%◌, ◌^◌, Bool, true, false, not, ◌&&◌, ◌||◌, Option, none,
  some, List, [], ◌∷◌, ◌++◌, if◌then◌else◌, ◌==◌, ltb, length, drop, take, slice, get_or,
}
use ring_socket.Wire.Bytes.{le_bytes, of_le}

-- `enum rs_outbound_kind`
pub data OutboundKind : Type 0 where
  single array every every_except_single every_except_array : OutboundKind

abbrev pub kind_number : OutboundKind → ℕ
kind_number single = 0
kind_number array = 1
kind_number every = 2
kind_number every_except_single = 3
kind_number every_except_array = 4

-- The `do` loop of `rs_send`.
unfoldable pub put_recipients : List ℕ → List ℕ
put_recipients [] = []
put_recipients (p ∷ ps) = le_bytes 4 p ++ put_recipients ps

-- What `rs_send` writes in front of the frame.
unfoldable pub send_head : OutboundKind → List ℕ → List ℕ
unfolding put_recipients
send_head kind recipients =
    kind_number kind
    ∷ ((if ltb 1 (length recipients) then le_bytes 4 (length recipients) else [])
        ++ put_recipients recipients)

-- The halves of a client id, as a `uint32_t *` reads them: the worker's number, and its peer.
abbrev pub worker_of : ℕ → ℕ
worker_of client_id = (client_id % 2 ^ 32 + (2 ^ 32 - 1)) % 2 ^ 32

abbrev pub peer_of : ℕ → ℕ
peer_of client_id = client_id / 2 ^ 32 % 2 ^ 32

abbrev pub elem : ℕ → List ℕ → Bool
elem p [] = false
elem p (q ∷ qs) = q == p || elem p qs

-- The inner loop of `rs_to_multi`: the peers of worker `i`, without repeats.
unfoldable pub cur_clients : ℕ → List ℕ → List ℕ → List ℕ
cur_clients i [] cur = cur
cur_clients i (id ∷ client_ids) cur =
    let with_it = cur_clients i client_ids (cur ++ peer_of id ∷ []) in
    let without_it = cur_clients i client_ids cur in
    if not (worker_of id == i)
    then without_it
    else if elem (peer_of id) cur
    then without_it
    else with_it

-- What `rs_send` is called with for worker `i`, if it is called.
abbrev pub Sent : Type 0
Sent = Option (OutboundKind × List ℕ)

unfoldable pub to_single : ℕ → ℕ → Sent
to_single client_id i =
    if worker_of client_id == i then some (single, peer_of client_id ∷ []) else none

abbrev pub multi_to : List ℕ → Sent
multi_to [] = none
multi_to (p ∷ []) = some (single, p ∷ [])
multi_to (p ∷ q ∷ ps) = some (array, p ∷ q ∷ ps)

unfoldable pub to_multi : List ℕ → ℕ → Sent
unfolding cur_clients
to_multi client_ids i = multi_to (cur_clients i client_ids [])

unfoldable pub to_every : ℕ → Sent
to_every i = some (every, [])

unfoldable pub to_every_except_single : ℕ → ℕ → Sent
to_every_except_single client_id i =
    if worker_of client_id == i
    then some (every_except_single, peer_of client_id ∷ [])
    else some (every, [])

abbrev pub except_to : List ℕ → Sent
except_to [] = some (every, [])
except_to (p ∷ []) = some (every_except_single, p ∷ [])
except_to (p ∷ q ∷ ps) = some (every_except_array, p ∷ q ∷ ps)

unfoldable pub to_every_except_multi : List ℕ → ℕ → Sent
unfolding cur_clients
to_every_except_multi client_ids i = except_to (cur_clients i client_ids [])

-- `peer_i[i]`, at the byte `at` of the message.
abbrev pub peer_i : List ℕ → ℕ → ℕ → ℕ
peer_i msg at i = of_le (slice msg (at + 4 * i) 4)

-- The peers of app `app_i` among the first `n`, from the number `p` on; `apps` are their `app_i`.
unfoldable pub of_app : ℕ → List ℕ → ℕ → List ℕ
of_app app_i [] p = []
of_app app_i (a ∷ apps) p =
    let rest = of_app app_i apps (p + 1) in if a == app_i then p ∷ rest else rest

-- The loop over `peer_i` in the case RS_OUTBOUND_ARRAY, with `n` to go.
unfoldable pub array_from : List ℕ → ℕ → ℕ → List ℕ
array_from msg zero i = []
array_from msg (suc n) i = peer_i msg 5 i ∷ array_from msg n (i + 1)

-- `msg` are the bytes of the memory from the message on, those behind it included that are read.
-- The inner loop of the case RS_OUTBOUND_EVERY_EXCEPT_ARRAY, with `n` to go: whether it reaches the
-- call of `send_newest_msg`.
unfoldable pub is_not_excluded : List ℕ → ℕ → ℕ → ℕ → Bool
is_not_excluded msg p zero i = not (peer_i msg 5 i == p)
is_not_excluded msg p (suc n) i =
    let rest = is_not_excluded msg p n (i + 1) in if peer_i msg 5 i == p then false else rest

unfoldable pub filter : (ℕ → Bool) → List ℕ → List ℕ
filter test [] = []
filter test (p ∷ ps) = let rest = filter test ps in if test p then p ∷ rest else rest

-- The peers for which `receive_from_app` calls `send_newest_msg` with a message of app `app_i`, in
-- order; `apps` are the `app_i` of the peers up to `highest_peer_i`, and `msg` the bytes of the memory
-- from the message on, those behind it included that are read.
unfoldable pub recipients : ℕ → List ℕ → List ℕ → List ℕ
unfolding of_app array_from is_not_excluded filter
recipients app_i apps msg =
    let kind = get_or msg 0 0 in
    let all = of_app app_i apps 0 in
    if kind == 0
    then peer_i msg 1 0 ∷ []
    else if kind == 1
    then array_from msg (peer_i msg 1 0) 0
    else if kind == 2
    then all
    else if kind == 3
    then filter (λ p. not (p == peer_i msg 1 0)) all
    else filter (λ p. is_not_excluded msg p (peer_i msg 1 0) 0) all

-- Where the frame begins; `4 + 4 * peer_c` is a sum of `uint32_t`.
unfoldable pub head_size : List ℕ → ℕ
head_size msg =
    let kind = get_or msg 0 0 in
    if kind == 0
    then 5
    else if kind == 1
    then 1 + (4 + 4 * peer_i msg 1 0) % 2 ^ 32
    else if kind == 2
    then 1
    else if kind == 3
    then 5
    else 1 + (4 + 4 * peer_i msg 1 0) % 2 ^ 32

-- Whether `find_next_owref_for_peer` takes a message to be one for peer `target`.
unfoldable pub is_found : ℕ → List ℕ → Bool
unfolding array_from
is_found target msg =
    let kind = get_or msg 0 0 in
    let rest = array_from msg (peer_i msg 1 0) 0 in
    if kind == 0
    then peer_i msg 1 0 == target
    else if kind == 1
    then elem target rest
    else if kind == 2
    then true
    else if kind == 3
    then not (peer_i msg 1 0 == target)
    else not (peer_i msg 5 0 == target)
