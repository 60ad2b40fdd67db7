-- ===== src/Session/Parse/Payload.antt =====
-- How far the parser of a payload gets.
use ring_socket.Prelude.{
  ℕ, ◌+◌, ◌-◌, ◌%◌, ◌^◌, ◌≤◌, ◌<◌, ◌≡◌, ◌≢◌, refl, ◌∙◌, Bool, true, List, arith, ltb, inl, inr,
  Bool-cases,
}
use ring_socket.Websocket.{
  Ret, ok, again, close_peer, fatal, Parser, Worker, DataKind, bin, utf8, at, unmask_from,
  unmask_utf8, is_invalid, first_masked, unmask_payload_and_validate_any_utf8, read_payload,
}
use ring_socket.Wire.Frame.{add64}
use ring_socket.Session.Parse.Header.{if-either, Same, same}

-- The parser stands where it did, and at the same payload.
pub record Kept (wsp wsp' : Parser) : Type 0 where
  stands : Same wsp wsp'
  payload : wsp'.payload ≡ wsp.payload
  payload_size : wsp'.payload_size ≡ wsp.payload_size

-- To unmask never asks for more bytes.
pub record Unmasked (wsp : Parser) (r : Ret × Parser) : Type 0 where
  not_again : r.0 ≢ again
  kept : Kept wsp r.1

unmask_from-Unmasked :
    (kind : DataKind) (rbuf : List ℕ) (wsp : Parser) (n i : ℕ)
    → Unmasked wsp (unmask_from kind rbuf wsp n i).0
unfolding unmask_from
unmask_from-Unmasked bin rbuf wsp n i = record {
  not_again = λ e. cc;
  kept = record { stands = same wsp; payload = refl; payload_size = refl };
}
unmask_from-Unmasked utf8 rbuf wsp n i =
    let state = (unmask_utf8 wsp.payload n i wsp.utf8_state rbuf).0 in
    if-either (Unmasked wsp) {b = is_invalid state}
      (λ e. record {
        not_again = λ f. cc;
        kept = record {
          stands = record { frame = refl; cur_read = refl; next_read = refl };
          payload = refl;
          payload_size = refl;
        };
      })
      (λ e. record {
        not_again = λ f. cc;
        kept = record {
          stands = record { frame = refl; cur_read = refl; next_read = refl };
          payload = refl;
          payload_size = refl;
        };
      })

unmask-Unmasked :
    (rbuf : List ℕ) (wsp : Parser) (n : ℕ)
    → Unmasked wsp (unmask_payload_and_validate_any_utf8 rbuf wsp n).0
unfolding unmask_payload_and_validate_any_utf8
unmask-Unmasked rbuf wsp n =
    unmask_from-Unmasked wsp.data_kind rbuf wsp (n - first_masked wsp) (first_masked wsp)

-- Where the header was complete before the last read, so that the parser does not read it again, the
-- payload is behind the start of the header, and its end was not in the buffer then.
pub record IsReady (address : ℕ) (wsp : Parser) : Type 0 where
  pub read_before : wsp.cur_read ≤ wsp.next_read
  pub payload_known : wsp.frame + 14 ≤ wsp.cur_read → wsp.frame < wsp.payload
  pub was_incomplete :
      wsp.frame + 14 ≤ wsp.cur_read → wsp.cur_read < wsp.payload + wsp.payload_size + 14
  pub fits : address + wsp.next_read < 2 ^ 64

-- The same at the next read, which `next_read` is the start of.
pub record Resumes (wsp : Parser) : Type 0 where
  pub payload_known : wsp.frame + 14 ≤ wsp.next_read → wsp.frame < wsp.payload
  pub was_incomplete :
      wsp.frame + 14 ≤ wsp.next_read → wsp.next_read < wsp.payload + wsp.payload_size + 14

-- A frame that is taken is one with a payload behind the start of its header, and did not end before
-- the last read.
pub record Taken (wsp wsp' : Parser) : Type 0 where
  pub frame : wsp'.frame ≡ wsp.frame
  pub cur_read : wsp'.cur_read ≡ wsp.cur_read
  pub next_read : wsp'.next_read ≡ wsp.next_read
  pub forward : wsp.frame < wsp'.payload
  pub inside : wsp.frame < wsp.next_read
  pub ends_late : wsp.cur_read < wsp'.payload + wsp'.payload_size + 14

pub record Framed (wsp : Parser) (r : Ret × Parser) : Type 0 where
  pub on_ok : r.0 ≡ ok → Taken wsp r.1
  pub on_again : r.0 ≡ again → Resumes r.1

pub failed_lem : (wsp wsp' : Parser) → Framed wsp (close_peer, wsp')
failed_lem wsp wsp' = record { on_ok = λ e. cc; on_again = λ e. cc }

-- What is returned when the payload is incomplete, and when it is complete.
part-Framed :
    (wsp w : Parser) (ret : Ret)
    → ret ≢ again
    → Resumes w
    → Framed wsp (elim ret [ ok ↦ (again, w) | failed ↦ (failed, w) ])
part-Framed wsp w ok h r = record { on_ok = λ e. cc; on_again = λ e. r }
part-Framed wsp w again h r = absurd (h refl)
part-Framed wsp w close_peer h r = record { on_ok = λ e. cc; on_again = λ e. cc }
part-Framed wsp w fatal h r = record { on_ok = λ e. cc; on_again = λ e. cc }

whole-Framed :
    (wsp w : Parser) (ret : Ret) (a b : Worker)
    → ret ≢ again
    → Taken wsp w
    → Framed wsp
        (elim ret as (λ x. (Ret × Parser) × Worker) [
          | ok ↦ ((ok, w), a)
          | failed ↦ ((failed, w), b)
        ]).0
whole-Framed wsp w ok a b h t = record { on_ok = λ e. t; on_again = λ e. cc }
whole-Framed wsp w again a b h t = absurd (h refl)
whole-Framed wsp w close_peer a b h t = record { on_ok = λ e. cc; on_again = λ e. cc }
whole-Framed wsp w fatal a b h t = record { on_ok = λ e. cc; on_again = λ e. cc }

not_wrapped :
    (a n p size : ℕ)
    → a + n < 2 ^ 64
    → ltb ((a + n) % 2 ^ 64) (((a + p) % 2 ^ 64 + size) % 2 ^ 64) ≡ true
    → n < p + size
not_wrapped a n p size h e =
    let less : (a + n) % 2 ^ 64 < ((a + p) % 2 ^ 64 + size) % 2 ^ 64 = ground arith in omega arith

module _ (little : Bool) (worker : Worker) where
  -- `wsp` is the parser before, `wsp'` with the payload known.
  pub read_payload-Framed :
      (wsp wsp' : Parser)
      → Same wsp wsp'
      → wsp.frame < wsp'.payload
      → wsp.frame < wsp.next_read
      → wsp.cur_read < wsp'.payload + wsp'.payload_size + 14
      → worker.address + wsp.next_read < 2 ^ 64
      → Framed wsp (read_payload little worker wsp').0
  unfolding read_payload
  read_payload-Framed wsp wsp' s forward inside late fits =
      let here = s.frame in
      let there = s.next_read in
      let before = s.cur_read in
      elim (Bool-cases
        (ltb (at worker wsp'.next_read) (add64 (at worker wsp'.payload) wsp'.payload_size))) [
          | inl more ↦
              (let r =
                  unmask_payload_and_validate_any_utf8 worker.rbuf wsp'
                    (wsp'.next_read - wsp'.payload) in
                let u = unmask-Unmasked worker.rbuf wsp' (wsp'.next_read - wsp'.payload) in
                let k : Kept wsp' r.0.1 = u.kept in
                let p = k.payload in
                let q = k.payload_size in
                let f = k.stands.frame in
                let n = k.stands.next_read in
                let before_end : wsp'.next_read < wsp'.payload + wsp'.payload_size =
                  not_wrapped worker.address wsp'.next_read wsp'.payload wsp'.payload_size
                    (omega arith) more in
                rw (read_payload, more)
                  (part-Framed wsp r.0.1 r.0.0 u.not_again (record {
                    payload_known = λ h. omega arith;
                    was_incomplete = λ h. omega (arith, before_end);
                  })))
          | inr all ↦
              (let r = unmask_payload_and_validate_any_utf8 worker.rbuf wsp' wsp'.payload_size in
                let u = unmask-Unmasked worker.rbuf wsp' wsp'.payload_size in
                let k : Kept wsp' r.0.1 = u.kept in
                let p = k.payload in
                let q = k.payload_size in
                let f = k.stands.frame in
                let n = k.stands.next_read in
                let c = k.stands.cur_read in
                rw (read_payload, all)
                  (whole-Framed wsp r.0.1 r.0.0 _ _ u.not_again (record {
                    frame = f ∙ here;
                    cur_read = c ∙ before;
                    next_read = n ∙ there;
                    forward = omega arith;
                    inside = inside;
                    ends_late = omega arith;
                  })))
        ]
