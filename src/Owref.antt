-- ===== src/Owref.antt =====
-- rs_from_app.c: references to the messages of apps that some peers have not been sent yet. They are
-- in a cyclic array; a message stays in the ring of its app until it is no longer referred to.
pub mod Next
pub mod Release
pub mod Search
use ring_socket.Prelude.{
  ℕ, zero, suc, ◌+◌, ◌-◌, ◌%◌, ◌^◌, Bool, true, false, not, ◌&&◌, ◌||◌, Option, none, some, List,
  [], ◌∷◌, if◌then◌else◌, ◌==◌, length, get_or, set,
}
use ring_socket.Outbound.{is_found}

-- `struct rs_consumer_msg`: where it is, and its bytes.
pub record ConsumerMsg : Type 0 where
  pub address : ℕ
  pub msg : List ℕ

-- `struct rs_owref`; NULL is `none`.
pub record Owref : Type 0 where
  pub cmsg : Option ConsumerMsg
  pub remaining_recipient_c : ℕ
  pub head_size : ℕ
  pub app_i : ℕ

-- What `rs_from_app.c` uses of `struct rs_worker`; `owrefs_elem_c` is the length of `owrefs`, and
-- `readers` are the `r` of `outbound_consumers`.
pub record Worker : Type 0 where
  pub owrefs : List Owref
  pub newest_owref_i : ℕ
  pub oldest_owref_i_by_app : List ℕ
  pub readers : List ℕ

-- `memset(owref, 0, sizeof(struct rs_owref))`
abbrev pub no_owref : Owref
no_owref = record { cmsg = none; remaining_recipient_c = 0; head_size = 0; app_i = 0 }

abbrev pub owref_at : Worker → ℕ → Owref
owref_at worker i = get_or worker.owrefs i no_owref

abbrev pub next_i : Worker → ℕ → ℕ
next_i worker i = (i + 1) % length worker.owrefs

-- Whether the reference is one of app `app_i` that some peers remain for.
abbrev pub is_pending : ℕ → Owref → Bool
is_pending app_i owref = not (owref.remaining_recipient_c == 0) && owref.app_i == app_i

-- The address of a message; NULL is 0.
abbrev pub address_of : Option ConsumerMsg → ℕ
address_of none = 0
address_of (some m) = m.address

-- The `do` loop of `decrement_pending_owref_count`, and the position that is passed to
-- `enqueue_ring_update` behind it.
unfoldable pub next_pending : Worker → ℕ → ℕ → ℕ → Option (ℕ × ℕ)
next_pending worker app_i zero owref_i = none
next_pending worker app_i (suc fuel) owref_i =
    let i = next_i worker owref_i in
    let rest = next_pending worker app_i fuel i in
    if i == worker.newest_owref_i
    then some (i, get_or worker.readers app_i 0)
    else if is_pending app_i (owref_at worker i)
    then some (i, address_of (owref_at worker i).cmsg)
    else rest

-- The worker, and the position up to which the ring of an app is released, with the app, if one is.
abbrev pub Released : Type 0
Released = Worker × Option (ℕ × ℕ)

-- `none` is a loop without end.
unfoldable pub decrement_pending_owref_count : Worker → ℕ → Option Released
unfolding next_pending
decrement_pending_owref_count worker owref_i =
    let owref = owref_at worker owref_i in
    let remaining = (owref.remaining_recipient_c + (2 ^ 32 - 1)) % 2 ^ 32 in
    if not (remaining == 0)
    then some (
      record worker {
        owrefs = set worker.owrefs owref_i (record owref { remaining_recipient_c = remaining });
      },
      none,
    )
    else (let cleared : Worker = record worker { owrefs = set worker.owrefs owref_i no_owref } in
        if not (owref_i == get_or worker.oldest_owref_i_by_app owref.app_i 0)
        then some (cleared, none)
        else elim (next_pending cleared owref.app_i (length worker.owrefs) owref_i) [
          | none ↦ none
          | some (i, position) ↦ some (
            record cleared {
              oldest_owref_i_by_app = set worker.oldest_owref_i_by_app owref.app_i i;
            },
            some (position, owref.app_i),
          )
        ])

-- Whether `find_next_owref_for_peer` returns this reference.
abbrev pub is_next : ℕ → Owref → Bool
is_next target_peer_i owref = elim owref.cmsg [
  | none ↦ false
  | some m ↦ is_found target_peer_i m.msg
]

unfoldable pub find_next_owref_for_peer : Worker → ℕ → ℕ → ℕ → Option ℕ
find_next_owref_for_peer worker target_peer_i zero owref_i = none
find_next_owref_for_peer worker target_peer_i (suc fuel) owref_i =
    let i = next_i worker owref_i in
    let rest = find_next_owref_for_peer worker target_peer_i fuel i in
    if is_next target_peer_i (owref_at worker i) then some i else rest
