-- ===== src/Http/Io.antt =====
-- rs_http.c: the responses to an upgrade request, and what becomes of the peer.
use Prim.Native.Char.{code}
use Prim.Native.String.{String}
use ring_socket.Prelude.{
  ℕ, zero, suc, Bool, Option, none, some, List, [], ◌∷◌, ◌++◌, take, if◌then◌else◌,
}
use ring_socket.Websocket.{Ret, ok, again, close_peer, fatal}
use ring_socket.Peer.{
  Peer, websocket, live, shutdown_write, dead, cont_none, cont_parsing, cont_sending, null,
}
use ring_socket.Deadline.{set_shutdown_deadline}
use ring_socket.Worker.{Worker, Env, Step, tick, peer_of, put_peer, write_peer}
use ring_socket.Session.Handle.{lower_layer}

abbrev pub codes : String → List ℕ
codes String.[] = []
codes (String.◌∷◌ c s) = code c ∷ codes s

-- `http101`, with the hash in it.
abbrev pub http101 : List ℕ → List ℕ
http101 hash =
    codes
      "HTTP/1.1 101 Switching Protocols\r\nUpgrade: websocket\r\nConnection: upgrade\r\nSec-WebSocket-Accept: "
    ++ (hash ++ codes "=\r\n\r\n")

-- `http_errors`, at RS_MIN(error_i, 3).
abbrev pub http_error : ℕ → List ℕ
http_error zero = codes "HTTP/1.1 400 \r\n\r\n"
http_error (suc zero) = codes "HTTP/1.1 403 \r\n\r\n"
http_error (suc (suc zero)) = codes "HTTP/1.1 404 \r\n\r\n"
http_error _ = codes "HTTP/1.1 405 \r\n\r\n"

abbrev pub set_char_buf : Worker → ℕ → Option (List ℕ) → Worker
set_char_buf worker peer_i buf =
    put_peer worker peer_i (record (peer_of worker peer_i) { char_buf = buf })

-- RS_CALLOC and RS_REALLOC return RS_FATAL without memory.
unfoldable pub keep_hash : Env → Worker → ℕ → List ℕ → Ret × Worker
keep_hash env worker peer_i hash =
    if env.has_memory worker.clock
    then (again, tick (set_char_buf worker peer_i (some hash)))
    else (fatal, tick (set_char_buf worker peer_i none))

-- The part from the write on; `is_new` tells whether there is a key.
unfoldable pub write_hash : Env → Worker → ℕ → List ℕ → Bool → Ret × Worker
unfolding write_peer keep_hash
write_hash env worker peer_i hash is_new =
    let (ret, sent) = write_peer env worker peer_i (http101 hash) in
    elim ret [
      | ok ↦ (ok, set_char_buf sent peer_i none)
      | again ↦ if is_new then keep_hash env sent peer_i hash else (again, sent)
      | other ↦ (other, sent)
    ]

-- `key_hash` is `get_websocket_key_hash` of rs_hash.c: the 27 bytes that OpenSSL makes of the key, or
-- RS_FATAL. To copy from NULL is undefined.
unfoldable pub write_http_upgrade_response :
    Env → (List ℕ → Option (List ℕ)) → Worker → ℕ → Option (List ℕ) → Step
unfolding write_hash
write_http_upgrade_response env key_hash worker peer_i none =
    elim (peer_of worker peer_i).char_buf [
      | none ↦ none
      | some hash ↦ some (write_hash env worker peer_i (take 27 hash) Bool.false)
    ]
write_http_upgrade_response env key_hash worker peer_i (some wskey) = elim (key_hash wskey) [
  | none ↦ some (fatal, worker)
  | some hash ↦ some (write_hash env worker peer_i hash Bool.true)
]

-- RS_CONST_STRLEN is the size of its argument less 1, which is that of a pointer, 8 bytes.
unfoldable pub write_http_error_response : Env → Worker → ℕ → Ret × Worker
unfolding write_peer
write_http_error_response env worker peer_i =
    write_peer env worker peer_i (take 7 (http_error (peer_of worker peer_i).error_i))

-- The end of `handle_http_io`.
unfoldable pub terminate_http : Worker → ℕ → Step
terminate_http worker peer_i = some (
  ok,
  put_peer worker peer_i
      (lower_layer (record (peer_of worker peer_i) { char_buf = none; mortality = dead })),
)

-- The `memset` of `layer_specific_data`, and the next layer.
abbrev pub upgraded : Peer → Peer
upgraded peer = record peer {
  owref_c = 0;
  owref_i = 0;
  ws = null;
  error_i = 0;
  char_buf = none;
  continuation = cont_none;
  layer = websocket;
}

abbrev pub set_sending : Worker → ℕ → Worker
set_sending worker peer_i =
    put_peer worker peer_i (record (peer_of worker peer_i) { continuation = cont_sending })

-- The label `write_http_upgrade`
unfoldable pub write_http_upgrade :
    Env → (List ℕ → Option (List ℕ)) → Worker → ℕ → Option (List ℕ) → Step
unfolding write_http_upgrade_response terminate_http
write_http_upgrade env key_hash worker peer_i wskey =
    elim (write_http_upgrade_response env key_hash worker peer_i wskey) [
      | none ↦ none
      | some (ok, sent) ↦ some (ok, put_peer sent peer_i (upgraded (peer_of sent peer_i)))
      | some (again, sent) ↦ some (ok, set_sending sent peer_i)
      | some (close_peer, sent) ↦ terminate_http sent peer_i
      | some (fatal, sent) ↦ some (fatal, sent)
    ]

-- The label `write_http_error`
unfoldable pub write_http_error : Env → Worker → ℕ → Step
unfolding write_http_error_response terminate_http set_shutdown_deadline
write_http_error env worker peer_i =
    let (ret, sent) = write_http_error_response env worker peer_i in
    elim ret [
      | ok ↦ some (
        ok,
        tick (
            put_peer sent peer_i (
              set_shutdown_deadline (env.time sent.clock) (lower_layer (peer_of sent peer_i))
                env.shutdown_wait_http)),
      )
      | again ↦ some (ok, set_sending sent peer_i)
      | close_peer ↦ terminate_http sent peer_i
      | fatal ↦ some (fatal, sent)
    ]

-- What `parse_http_upgrade_request` returns, with `wskey` and the worker then.
abbrev pub Request : Type 0
Request = (Ret × Option (List ℕ)) × Worker

-- The peer is live and its request is not parsed yet.
unfoldable pub after_request : Env → (List ℕ → Option (List ℕ)) → ℕ → Request → Step
unfolding write_http_upgrade write_http_error terminate_http
after_request env key_hash peer_i ((ok, wskey), worker) =
    write_http_upgrade env key_hash worker peer_i wskey
after_request env key_hash peer_i ((again, wskey), worker) =
    some
      (ok, put_peer worker peer_i (record (peer_of worker peer_i) { continuation = cont_parsing }))
after_request env key_hash peer_i ((close_peer, wskey), worker) =
    let freed = set_char_buf worker peer_i none in
    elim (peer_of freed peer_i).mortality [
      | shutdown_write ↦ write_http_error env freed peer_i
      | _ ↦ terminate_http freed peer_i
    ]
after_request env key_hash peer_i ((fatal, wskey), worker) = some (fatal, worker)

module _ (env : Env) (key_hash : List ℕ → Option (List ℕ)) (parse : Worker → ℕ → Request) where
  unfoldable pub handle_http_io : Worker → ℕ → Step
  unfolding after_request write_http_upgrade write_http_error terminate_http
  handle_http_io worker peer_i = elim (peer_of worker peer_i).mortality [
    | live ↦ elim (peer_of worker peer_i).continuation [
      | cont_sending ↦ write_http_upgrade env key_hash worker peer_i none
      | _ ↦ after_request env key_hash peer_i (parse worker peer_i)
    ]
    | shutdown_write ↦ write_http_error env worker peer_i
    | _ ↦ terminate_http worker peer_i
  ]
