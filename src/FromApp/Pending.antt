-- ===== src/FromApp/Pending.antt =====
-- The messages that a peer has not been sent yet.
use ring_socket.Prelude.{
  ℕ, zero, suc, Bool, true, false, Option, none, some, List, drop, length, if◌then◌else◌, ◌==◌,
}
use ring_socket.Websocket.{ok, again, close_peer, fatal}
use ring_socket.Peer.{shutdown_write, cont_none}
use ring_socket.Wire.Frame.{get_opcode, opc_close}
use ring_socket.Owref.{
  Owref, Released, owref_at, decrement_pending_owref_count, find_next_owref_for_peer,
}
use ring_socket.Worker.{
  Worker, Env, Step, guard, peer_of, put_peer, write_peer, enqueue, send_close_to_app,
}

-- The worker once the ring of an app is released up to a position, if it is.
unfoldable pub after_release : Env → Worker → Released → Worker
unfolding enqueue
after_release env worker (refs, none) = record worker { refs = refs }
after_release env worker (refs, some (position, app_i)) =
    record (enqueue env worker
      (record { ring_position = position; thread_i = app_i; is_write = false })) { refs = refs }

-- With `owrefs` NULL it is undefined.
unfoldable pub decrement : Env → Worker → ℕ → Option Worker
unfolding after_release
decrement env worker owref_i =
    if length worker.refs.owrefs == 0
    then none
    else elim (decrement_pending_owref_count worker.refs owref_i) [
      | none ↦ none
      | some released ↦ some (after_release env worker released)
    ]

abbrev pub next_owref : Worker → ℕ → ℕ → Option ℕ
next_owref worker peer_i owref_i =
    find_next_owref_for_peer worker.refs peer_i (length worker.refs.owrefs) owref_i

-- `--peer->ws.owref_c`, where `n` remain.
abbrev pub set_owref_c : Worker → ℕ → ℕ → Worker
set_owref_c worker peer_i n =
    put_peer worker peer_i (record (peer_of worker peer_i) { owref_c = n })

abbrev pub set_owref_i : Worker → ℕ → ℕ → Worker
set_owref_i worker peer_i owref_i =
    put_peer worker peer_i (record (peer_of worker peer_i) { owref_i = owref_i })

-- The loop of `remove_pending_owrefs`, with `n` references of the peer to go.
unfoldable pub remove_from : Env → ℕ → ℕ → ℕ → Worker → Option Worker
unfolding decrement
remove_from env peer_i zero owref_i worker = some worker
remove_from env peer_i (suc n) owref_i worker = elim (decrement env worker owref_i) [
  | none ↦ none
  | some worker' ↦
      let fewer = set_owref_c worker' peer_i n in
      elim n [
        | zero ↦ some fewer
        | suc k ↦ elim (next_owref fewer peer_i owref_i) [
          | none ↦ none
          | some i ↦ remove_from env peer_i n i fewer
        ]
      ]
]

unfoldable pub remove_pending_owrefs : Env → Worker → ℕ → Option Worker
unfolding remove_from
remove_pending_owrefs env worker peer_i =
    let peer = peer_of worker peer_i in remove_from env peer_i peer.owref_c peer.owref_i worker

abbrev pub is_close : List ℕ → Bool
is_close frame = get_opcode frame == opc_close

-- Behind the label of the case RS_OK with a close message.
unfoldable pub closed_by_app : Env → (Worker → ℕ → Step) → Worker → ℕ → Step
unfolding remove_pending_owrefs
closed_by_app env handle worker peer_i =
    let peer = peer_of worker peer_i in
    elim (remove_pending_owrefs env
      (put_peer worker peer_i
        (record peer { mortality = shutdown_write; continuation = cont_none }))
      peer_i) [ none ↦ none | some worker' ↦ handle worker' peer_i ]

-- The app is told that a peer is gone, unless the frame is the app's own close message.
unfoldable pub tell_app : Env → Worker → ℕ → List ℕ → Step
unfolding send_close_to_app
tell_app env worker peer_i frame =
    if is_close frame then some (ok, worker) else send_close_to_app env worker peer_i

-- The frame that a reference leads to; NULL is `none`.
abbrev pub frame_of : Owref → Option (List ℕ)
frame_of owref = elim owref.cmsg [ none ↦ none | some m ↦ some (drop owref.head_size m.msg) ]

-- The loop of `send_pending_owrefs`, with `n` references of the peer to go.
unfoldable pub send_from : Env → (Worker → ℕ → Step) → ℕ → ℕ → Worker → Step
unfolding write_peer closed_by_app tell_app decrement
send_from env handle peer_i zero worker = some (ok, worker)
send_from env handle peer_i (suc n) worker =
    let owref_i = (peer_of worker peer_i).owref_i in
    elim (frame_of (owref_at worker.refs owref_i)) [
      | none ↦ none
      | some frame ↦
          let (ret, sent) = write_peer env worker peer_i frame in
          elim ret [
            | ok ↦ elim (is_close frame) [
              | true ↦ closed_by_app env handle sent peer_i
              | false ↦ elim (decrement env sent owref_i) [
                | none ↦ none
                | some worker' ↦
                    let fewer = set_owref_c worker' peer_i n in
                    elim n [
                      | zero ↦ some (ok, fewer)
                      | suc k ↦ elim (next_owref fewer peer_i owref_i) [
                        | none ↦ none
                        | some i ↦ send_from env handle peer_i n (set_owref_i fewer peer_i i)
                      ]
                    ]
              ]
            ]
            | again ↦ some (again, sent)
            | close_peer ↦ guard (tell_app env sent peer_i frame) (λ told. some (close_peer, told))
            | fatal ↦ some (fatal, sent)
          ]
    ]

unfoldable pub send_pending_owrefs : Env → (Worker → ℕ → Step) → Worker → ℕ → Step
unfolding send_from
send_pending_owrefs env handle worker peer_i =
    send_from env handle peer_i (peer_of worker peer_i).owref_c worker
