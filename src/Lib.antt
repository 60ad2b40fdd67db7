-- ===== src/Lib.antt =====
-- RingSocket, a WebSocket server in C. Worker threads read WebSocket frames from their peers, check
-- and unmask them, and pass the messages to app threads through ring buffers; app threads send
-- frames to the workers' peers the same way. Integers are the native numbers, with the wrap-around
-- of `uint64_t` written out where sums may exceed it.
--
-- - Prelude: list functions, Boolean tests and lemmas on copies inside of lists, shared by all
--   parts.
-- - Wire.Bytes models the byte order macros of src/ringsocket_api.h, on machines of either byte
--   order. A field is the list of its bytes in memory.
-- - Wire.Frame models the accessors of src/ringsocket_wsframe.h; a frame is the list of bytes from
--   its address on, and a pointer into it is an index. Wire.Frame.Write is about the frames that
--   `rs_send` of src/ringsocket_helper.h writes, Wire.Frame.Read about reading frames. The frames
--   of RFC 6455 are described there without the accessors.
-- - Wire.Utf8 models `rs_validate_utf8_byte`, with one constructor for each state. Wire.Utf8.Encode
--   describes UTF-8 by the encoding of code points, without the states.
-- - Slot models the bitmaps of src/rs_slot.c. The loop of `alloc_slot` runs on fuel, one unit for
--   each bit of the bitmap and one more; as each round goes one bit further, it stops before the
--   fuel does. An access outside of the bitmap is a result of its own. calloc is a parameter.
-- - Util.MoveLeft models `move_left` of src/rs_util.c. Its loop runs on as much fuel as there are
--   bytes to move, and one unit more; each round moves at least one byte. A copy between
--   overlapping ranges, which C leaves undefined, is a failure.
-- - Websocket models the parser of one frame of src/rs_websocket.c and the saving of its state
--   between reads. A pointer into the read buffer is its offset; where a sum of a pointer and a
--   size may exceed 64 bits it wraps around. Websocket.Header is about the header of a frame,
--   Websocket.Header.Rules states the rules of RFC 6455 for it as `rfc_verdict`, Websocket.Unmask
--   is about the payload, Websocket.Saved about an incomplete message between two reads.
--
-- - Ring models src/ringsocket_ring.h: a memory is a function from addresses to bytes, with
--   addresses as plain numbers, and `rs_produce_ring_msg` and `rs_consume_ring_msg` are functions
--   of it. The values of the atomics are arguments: an operation may load any value that was
--   published. The allocator and the growth of a ring's size are parameters. Ring.Cells and
--   Ring.Layout describe where the unread messages lie. Ring.Threads has the two threads as a
--   relation of steps, in which the atomics are stored late, as the update queues do it.
-- - Queue models src/ringsocket_queue.h: the queue in which positions wait before they are stored
--   in the atomics of a ring, and the wake-up of sleeping threads. The inner loop of
--   `rs_flush_ring_updates` runs over the indices that it visits, a list made on as much fuel as
--   the queue has elements; Queue.Visited is about that loop. A system call that fails is RS_FATAL,
--   `none`; Queue.Stopped has what a flush leaves behind then.
-- - Worker has the state of a worker thread as a whole, and `Env` the configuration and the answers
--   of everything outside of it. A call that C leaves undefined, or that does not end, gives
--   `none`. The answers depend on how many calls were made before, which `clock` counts.
-- - Session models the rest of src/rs_websocket.c: Session.Parse the loop over the frames of a
--   message, Session.Read the reads, Session.Handle what is done with a peer. `parse_websocket`
--   runs on as much fuel as there are bytes in the buffer, and one unit more; a round that unmasks
--   bytes outside of the buffer is undefined. The loops over the reads of a peer go on as long as
--   the kernel has bytes for them; their fuel is an argument. The last member of a peer's union
--   tells which of its members was written; to read another one is undefined.
-- - FromApp models the rest of src/rs_from_app.c: FromApp.Pending the messages that wait for a
--   peer, FromApp.Newest the newest message of an app, FromApp.Grow the growth of the array of
--   references. `handle_peer_events` is an argument there, and Event ties the knot.
-- - Tls models the sessions of src/rs_tls.c, with the answers of OpenSSL as arguments, and Tls.Cert
--   the choice of a certificate. Http.Match models `match_url` and `match_hostname` of
--   src/rs_http.c. Http.Io models the responses of src/rs_http.c and `handle_http_io`; the parser
--   of the request and the hash of the key are arguments.
-- - Event models `handle_peer_events` of src/rs_event.c and the calls of it for peers that are
--   overdue, and Event.Loop the rounds of `loop_over_events`, as many as there are answers of
--   `epoll_wait`. The loop over the layers has fuel for five rounds, from TCP over TLS to HTTP and
--   back. A call of it from within itself has a peer that is no longer live, so that calls nest at
--   most twice; the depth is an argument.
-- - Peer has the state of a peer, from src/rs_worker.h. Tcp models src/rs_tcp.c, with the kernel's
--   answers to the system calls as arguments; the reads that drain a peer which shuts down are
--   finitely many. Tcp.Write is about messages that are written in parts, Tcp.Peers about the table
--   of the peers of a worker.
-- - Socket models `accept_sockets` of src/rs_socket.c, with the kernel's answers as an argument;
--   the connections that one call accepts are finitely many.
-- - Outbound models how an app addresses a message, the functions `rs_to_...` of src/ringsocket.h
--   and the head that `rs_send` of src/ringsocket_helper.h writes, and how a worker finds the
--   recipients of a message in src/rs_from_app.c, on a machine that stores the lowest byte first.
--   The peers of a worker are given by the list of their `app_i`. Outbound.Address puts the writer
--   and the reader of a head together, Outbound.Clients adds the client ids, and Outbound.Errors
--   compares the two readers of a message to all peers except several.
-- - Owref models the references to outbound messages of src/rs_from_app.c, a cyclic array. Its
--   loops run on as much fuel as the array has elements: they go from one element to the next, so
--   they would come by the same elements again. Owref.Next is about the step to an app's next
--   reference, Owref.Release about the release of the app's ring, Owref.Search about the next
--   message to a peer.
-- - Deadline models the deadlines of src/rs_event.c, with the time as an argument.
-- - Http models `match_origin` of src/rs_http.c, the search for an endpoint that allows the origin
--   of an upgrade request. The endpoints behind the current one are listed with their indices, in
--   the order in which the loop comes by them.
-- - ToApp models src/rs_to_app.c: the message that a worker puts on the inbound ring of an app. The
--   loop over the frames runs on as much fuel as the read buffer has bytes, of which each frame has
--   some. ToApp.Payloads is about the payloads of a message's frames, ToApp.Message about the
--   message on the ring.
--
-- Not modelled: reading the configuration, binding sockets, setting up TLS contexts and epoll,
-- which are mostly calls of the kernel and of libraries; the parser of the upgrade request;
-- logging; the macros that generate an app's main function.
pub mod Prelude
pub mod Wire
pub mod Util
pub mod Slot
pub mod Ring
pub mod Websocket
pub mod Queue
pub mod Peer
pub mod Tcp
pub mod Outbound
pub mod Owref
pub mod Tls
pub mod Worker
pub mod FromApp
pub mod Session
pub mod Event
pub mod Http
pub mod Socket
pub mod ToApp
pub mod Deadline
mod Tests
