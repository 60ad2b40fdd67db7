-- ===== src/FromApp/Newest.antt =====
-- The newest message of an app: it is sent at once, or kept for the peers that are busy.
use ring_socket.Prelude.{
  ℕ, zero, suc, ◌+◌, ◌%◌, ◌^◌, ◌++◌, Bool, true, false, not, ◌&&◌, Option, none, some, List, [],
  ◌∷◌, drop, length, get_or, set, if◌then◌else◌, ◌==◌, leb,
}
use ring_socket.Websocket.{Ret, ok, again, close_peer, fatal}
use ring_socket.Peer.{Peer, websocket, live, shutdown_write, dead, cont_none, cont_sending}
use ring_socket.Outbound.{peer_i, head_size, array_from, is_not_excluded}
use ring_socket.Owref.{ConsumerMsg}
use ring_socket.Ring.{Mem, consume_ring_msg, msg_at}
use ring_socket.Worker.{Worker, Env, Step, guard, tick, peer_of, put_peer, write_peer, enqueue}
use ring_socket.FromApp.Pending.{is_close, tell_app}
use ring_socket.FromApp.Grow.{reallocate_owrefs}

-- What a call returns, with `*remaining_recipient_c` and the worker then.
abbrev pub Counted : Type 0
Counted = Option (Ret × ℕ × Worker)

abbrev pub counting : ℕ → Step → Counted
counting count none = none
counting count (some (ret, worker)) = some (ret, count, worker)

-- RS_GUARD
abbrev pub guard_counted : Counted → (ℕ → Worker → Counted) → Counted
guard_counted none next = none
guard_counted (some (ok, count, worker)) next = next count worker
guard_counted (some (ret, count, worker)) next = some (ret, count, worker)

abbrev pub is_receptive : Peer → Bool
is_receptive peer = elim peer.layer [
  | websocket ↦ elim peer.mortality [ live ↦ true | _ ↦ false ]
  | _ ↦ false
]

-- Whether the peer is reading or writing a message already.
abbrev pub is_busy : Peer → Bool
is_busy peer = elim peer.continuation [ cont_none ↦ false | _ ↦ true ]

-- The label `close_peer`
unfoldable pub close_newest : Env → (Worker → ℕ → Step) → Worker → ℕ → List ℕ → Step
unfolding tell_app
close_newest env handle worker peer_i frame = guard (tell_app env worker peer_i frame) (λ told.
    handle (put_peer told peer_i (record (peer_of told peer_i) { mortality = dead })) peer_i)

-- The branch for a peer that is busy; UINT16_MAX is 65535.
unfoldable pub keep_newest : Env → (Worker → ℕ → Step) → ℕ → Worker → ℕ → List ℕ → Counted
unfolding close_newest
keep_newest env handle count worker peer_i frame =
    let peer = peer_of worker peer_i in
    if peer.owref_c == 65535
    then counting count (close_newest env handle worker peer_i frame)
    else some (
      ok,
      count + 1,
      put_peer worker peer_i (record peer {
        owref_c = peer.owref_c + 1;
        owref_i = if peer.owref_c == 0 then worker.refs.newest_owref_i else peer.owref_i;
      }),
    )

unfoldable pub send_newest_msg : Env → (Worker → ℕ → Step) → ℕ → Worker → ℕ → List ℕ → Counted
unfolding keep_newest close_newest write_peer
send_newest_msg env handle count worker peer_i frame =
    let peer = peer_of worker peer_i in
    if not (is_receptive peer)
    then some (ok, count, worker)
    else if is_busy peer
    then keep_newest env handle count worker peer_i frame
    else (let (ret, sent) = write_peer env worker peer_i frame in
        let peer' = peer_of sent peer_i in
        elim ret [
          | ok ↦
              if is_close frame
              then counting count (
                  handle (put_peer sent peer_i (record peer' { mortality = shutdown_write }))
                    peer_i)
              else some (ok, count, sent)
          | again ↦ some (
            ok,
            count + 1,
            put_peer sent peer_i (record peer' {
              continuation = cont_sending;
              owref_c = 1;
              owref_i = sent.refs.newest_owref_i;
            }),
          )
          | close_peer ↦ counting count (close_newest env handle sent peer_i frame)
          | fatal ↦ some (fatal, count, sent)
        ])

module _ (env : Env) (handle : Worker → ℕ → Step) (frame : List ℕ) where
  -- The loop of the case RS_OUTBOUND_ARRAY, and the call of RS_OUTBOUND_SINGLE.
  unfoldable pub send_to_each : List ℕ → ℕ → Worker → Counted
  unfolding send_newest_msg
  send_to_each [] count worker = some (ok, count, worker)
  send_to_each (p ∷ ps) count worker =
      guard_counted (send_newest_msg env handle count worker p frame) (send_to_each ps)

  -- The loops over all peers, from `p` on, with at most `fuel` of them to go; `test` is the test of
  -- the peer's number. `highest_peer_i` only ever falls while they run.
  unfoldable pub send_to_all : ℕ → (ℕ → Bool) → ℕ → ℕ → ℕ → Worker → Counted
  unfolding send_newest_msg
  send_to_all app_i test zero p count worker = some (ok, count, worker)
  send_to_all app_i test (suc fuel) p count worker = elim (leb p worker.net.highest_peer_i) [
    | false ↦ some (ok, count, worker)
    | true ↦ elim ((peer_of worker p).app_i == app_i && test p) [
      | false ↦ send_to_all app_i test fuel (p + 1) count worker
      | true ↦
          guard_counted (send_newest_msg env handle count worker p frame)
            (send_to_all app_i test fuel (p + 1))
    ]
  ]

-- The `switch` on the kind of the message; `behind` are the four bytes behind it, which the last round
-- of the loop over the array may read too.
unfoldable pub send_by_kind : Env → (Worker → ℕ → Step) → ℕ → List ℕ → List ℕ → Worker → Counted
unfolding send_to_each send_to_all
send_by_kind env handle app_i msg behind worker =
    let kind = get_or msg 0 0 in
    let frame = drop (head_size msg) msg in
    let all : (ℕ → Bool) → Counted =
      λ test. send_to_all env handle frame app_i test (worker.net.highest_peer_i + 1) 0 0 worker in
    if kind == 0
    then send_to_each env handle frame (peer_i msg 1 0 ∷ []) 0 worker
    else if kind == 1
    then send_to_each env handle frame (array_from msg (peer_i msg 1 0) 0) 0 worker
    else if kind == 2
    then all (λ p. true)
    else if kind == 3
    then all (λ p. not (p == peer_i msg 1 0))
    else all (λ p. is_not_excluded (msg ++ behind) p (peer_i msg 1 0) 0)

abbrev pub is_oldest : ℕ → List ℕ → Bool
is_oldest i [] = false
is_oldest i (j ∷ js) = if j == i then true else is_oldest i js

-- What follows the `switch`, with the number of recipients that remain. The members `head_size` and
-- `remaining_recipient_c` of a reference have 16 and 32 bits. With `owrefs` NULL it is undefined.
unfoldable pub keep_owref : Env → ℕ → ConsumerMsg → ℕ → Worker → Option Worker
unfolding enqueue reallocate_owrefs
keep_owref env app_i cmsg zero worker =
    if worker.refs.newest_owref_i == get_or worker.refs.oldest_owref_i_by_app app_i 0
    then some (
        enqueue env worker (record {
          ring_position = get_or worker.refs.readers app_i 0;
          thread_i = app_i;
          is_write = false;
        }))
    else some worker
keep_owref env app_i cmsg (suc n) worker =
    let refs = worker.refs in
    let i = (refs.newest_owref_i + 1) % length refs.owrefs in
    let kept = record worker {
      refs = record refs {
        owrefs = set refs.owrefs refs.newest_owref_i (record {
          cmsg = some cmsg;
          remaining_recipient_c = suc n % 2 ^ 32;
          head_size = head_size cmsg.msg % 2 ^ 16;
          app_i = app_i;
        });
        newest_owref_i = i;
      };
    } in
    if length refs.owrefs == 0
    then none
    else if is_oldest i refs.oldest_owref_i_by_app
    then reallocate_owrefs env kept
    else some kept

-- The body of the `while` loop.
unfoldable pub receive_msg : Env → (Worker → ℕ → Step) → ℕ → ConsumerMsg → List ℕ → Worker → Step
unfolding send_by_kind keep_owref
receive_msg env handle app_i cmsg behind worker =
    elim (send_by_kind env handle app_i cmsg.msg behind worker) [
      | none ↦ none
      | some (ok, count, worker') ↦ elim (keep_owref env app_i cmsg count worker') [
        | none ↦ none
        | some kept ↦ some (ok, kept)
      ]
      | some (ret, count, worker') ↦ some (ret, worker')
    ]

-- `cons->r` is the `i`-th of `readers`.
abbrev pub set_reader : Worker → ℕ → ℕ → Worker
set_reader worker i r = record worker {
  refs = record worker.refs { readers = set worker.refs.readers i r };
}

-- What the calls of `rs_consume_ring_msg` find: the value of the atomic `w` of an app's ring, and the
-- memory of the ring.
pub record OutboundRings : Type 0 where
  pub loaded_w : ℕ → ℕ → ℕ
  pub mem : ℕ → Mem

-- The four bytes behind the message at an address, which is behind its size of eight bytes.
abbrev pub bytes_behind : Mem → ℕ → List ℕ
bytes_behind mem address =
    let end = address + 8 + length (msg_at mem address) in
    mem end ∷ mem (end + 1) ∷ mem (end + 2) ∷ mem (end + 3) ∷ []

-- The `while` loop for one app, on fuel for that many calls; the result is `none` without fuel.
unfoldable pub receive_from : Env → OutboundRings → (Worker → ℕ → Step) → ℕ → ℕ → Worker → Step
unfolding receive_msg
receive_from env out handle app_i zero worker = none
receive_from env out handle app_i (suc fuel) worker =
    let mem = out.mem worker.clock in
    elim (consume_ring_msg mem (out.loaded_w worker.clock app_i)
      (get_or worker.refs.readers app_i 0)) [
        | none ↦ some (ok, worker)
        | some (address, r) ↦
            guard
              (receive_msg env handle app_i (record { address = address; msg = msg_at mem address })
                (bytes_behind mem address) (tick (set_reader worker app_i r)))
              (receive_from env out handle app_i fuel)
      ]

-- The loop over the apps, from `app_i` on, with `n` of them to go.
unfoldable pub receive_from_app :
    Env → OutboundRings → (Worker → ℕ → Step) → ℕ → ℕ → ℕ → Worker → Step
unfolding receive_from
receive_from_app env out handle fuel zero app_i worker = some (ok, worker)
receive_from_app env out handle fuel (suc n) app_i worker =
    guard (receive_from env out handle app_i fuel worker)
      (receive_from_app env out handle fuel n (app_i + 1))
