-- ===== src/Session/Parse/Ends.antt =====
-- The loop over the frames of a message ends.
use mathlib.Core.Path.{subst}
use ring_socket.Prelude.{ℕ, zero, suc, ◌+◌, ◌-◌, ◌^◌, ◌<◌, ◌≡◌, refl, sym, arith}
use ring_socket.Websocket.{again, Parser}
use ring_socket.Worker.{Worker, Env}
use ring_socket.Session.Parse.{
  Round, returns, continues, undefined, parse_round, Parsed, parsed, stuck, unfinished,
  parse_websocket,
}
use ring_socket.Session.Parse.Payload.{IsReady, Resumes}
use ring_socket.Session.Parse.Advances.{Advances, parse_round-Advances}

-- `n` rounds that go on, one after the other.
pub data Rounds (env : Env) (peer_i : ℕ) : ℕ → Parser → Worker → Parser → Worker → Type 0 where
  begins : (wsp : Parser) (worker : Worker) → Rounds env peer_i 0 wsp worker wsp worker
  goes_on :
      (n : ℕ) (wsp next wsp' : Parser) (worker after worker' : Worker)
      → parse_round env peer_i wsp worker ≡ continues next after
      → Rounds env peer_i n next after wsp' worker'
      → Rounds env peer_i (suc n) wsp worker wsp' worker'

-- After less than `bound` rounds that go on comes one for which a condition holds.
abbrev pub Last : Env → ℕ → ℕ → Parser → Worker → (Round → Type 0) → Type 0
Last env peer_i bound wsp worker P =
    (n : ℕ) × (wsp' : Parser) × (worker' : Worker) × (n < bound)
    × Rounds env peer_i n wsp worker wsp' worker'
    × P (parse_round env peer_i wsp' worker')

-- What the loop gives is what its last round does; it asks for more bytes only where it can resume.
abbrev pub Ends : Env → ℕ → ℕ → Parser → Worker → Parsed → Type 0
Ends env peer_i bound wsp worker (parsed ret wsp' worker') =
    Last env peer_i bound wsp worker (λ round. round ≡ returns ret wsp' worker')
    × (ret ≡ again → Resumes wsp')
Ends env peer_i bound wsp worker stuck =
    Last env peer_i bound wsp worker (λ round. round ≡ undefined)
Ends env peer_i bound wsp worker unfinished = ⊥

Last-goes_on :
    (env : Env) (peer_i bound : ℕ) (wsp next : Parser) (worker after : Worker) (P : Round → Type 0)
    → parse_round env peer_i wsp worker ≡ continues next after
    → Last env peer_i bound next after P
    → Last env peer_i (suc bound) wsp worker P
Last-goes_on env peer_i bound wsp next worker after P e (n, wsp', worker', less, rounds, last) =
    (suc n, wsp', worker', omega arith, goes_on n wsp next wsp' worker after worker' e rounds, last)

Ends-goes_on :
    (env : Env) (peer_i bound : ℕ) (wsp next : Parser) (worker after : Worker)
    → parse_round env peer_i wsp worker ≡ continues next after
    → (result : Parsed) → Ends env peer_i bound next after result
    → Ends env peer_i (suc bound) wsp worker result
Ends-goes_on env peer_i bound wsp next worker after e (parsed ret wsp' worker') (last, resumes) = (
  Last-goes_on env peer_i bound wsp next worker after (λ r. r ≡ returns ret wsp' worker') e last,
  resumes,
)
Ends-goes_on env peer_i bound wsp next worker after e stuck last =
    Last-goes_on env peer_i bound wsp next worker after (λ r. r ≡ undefined) e last
Ends-goes_on env peer_i bound wsp next worker after e unfinished h = h

ready_lem :
    (env : Env) (peer_i fuel : ℕ) (wsp : Parser) (worker : Worker)
    → IsReady worker.reader.address wsp
    → wsp.next_read - wsp.frame < fuel
    → Ends env peer_i fuel wsp worker (parse_websocket env peer_i fuel wsp worker)
unfolding parse_websocket
ready_lem env peer_i zero wsp worker r h = absurd (omega arith)
ready_lem env peer_i (suc fuel) wsp worker r h =
    go (parse_round env peer_i wsp worker) refl (parse_round-Advances env peer_i wsp worker r)
      (λ wsp' w ready less. ready_lem env peer_i fuel wsp' w ready less)
  where
    go :
        (x : Round)
        → parse_round env peer_i wsp worker ≡ x
        → Advances worker.reader.address (wsp.next_read - wsp.frame) x
        → ((wsp' : Parser) (w : Worker)
            → IsReady w.reader.address wsp'
            → wsp'.next_read - wsp'.frame < fuel
            → Ends env peer_i fuel wsp' w (parse_websocket env peer_i fuel wsp' w))
        → Ends env peer_i (suc fuel) wsp worker (parse_websocket env peer_i (suc fuel) wsp worker)
    go (returns ret wsp' w) e a later =
        rw (parse_websocket, e) ((0, wsp, worker, omega arith, begins wsp worker, e), a)
    go (continues wsp' w) e (ready, same, less) later =
        subst (Ends env peer_i (suc fuel) wsp worker) (sym (rw (parse_websocket, e) refl)) (
          Ends-goes_on env peer_i fuel wsp wsp' worker w e (parse_websocket env peer_i fuel wsp' w)
            (later wsp' w ready (omega arith)))
    go undefined e a later =
        rw (parse_websocket, e) (0, wsp, worker, omega arith, begins wsp worker, e)

-- Whatever the bytes of a read are, the loop of `parse_websocket` has no more rounds than there are
-- bytes in the buffer, and one more: each round that goes on takes a frame or the whole of a message
-- off them. It gives what the last round returns, or stops there if C leaves that round undefined or
-- its call of `send_read_to_app` does not end. The parser is one that can resume, as a new one can,
-- and the buffer's addresses are below 2^64. When `parse_websocket` returns RS_AGAIN, the parser can
-- resume again.
pub parse_lem :
    (env : Env) (peer_i n : ℕ) (wsp : Parser) (worker : Worker)
    → Resumes wsp
    → worker.reader.address + (wsp.next_read + n) < 2 ^ 64
    → let read = record wsp { cur_read = wsp.next_read; next_read = wsp.next_read + n } in
      let bound = wsp.next_read + n + 1 in
      Ends env peer_i bound read worker (parse_websocket env peer_i bound read worker)
parse_lem env peer_i n wsp worker r fits =
    ready_lem env peer_i (wsp.next_read + n + 1)
      (record wsp { cur_read = wsp.next_read; next_read = wsp.next_read + n }) worker
      (record {
        read_before = omega arith;
        payload_known = r.payload_known;
        was_incomplete = r.was_incomplete;
        fits = fits;
      })
      (omega arith)
