-- ===== src/Websocket/Saved.antt =====
-- `save_websocket_parse_state` and `load_websocket_parse_state`: a worker reads from other peers
-- between the parts of a message.
use mathlib.Core.Option.{some-injective}
use mathlib.Core.Path.{subst}
use ring_socket.Prelude.{
  ℕ, zero, suc, ◌+◌, ◌%◌, ◌≤◌, ◌<◌, ◌≡◌, refl, sym, ap, ◌∙◌, Bool, true, some, List, [], ◌∷◌, ◌++◌,
  arith, if◌then◌else◌, ◌==◌, leb, length, take, drop, slice, overwrite, overwrite_lem, length-take,
  take-append, drop-append, take-append-drop, Bool-cases, take_all, length-drop, inl, inr,
}
use ring_socket.Wire.Frame.{get_cs_payload}
use ring_socket.Websocket.{
  Worker, Parser, Storage, save_websocket_parse_state, load_websocket_parse_state,
}

drop-front : (n : ℕ) (xs ys : List ℕ) → n ≤ length xs → drop n (xs ++ ys) ≡ drop n xs ++ ys
drop-front zero xs ys h = refl
drop-front (suc n) [] ys h = absurd (omega arith)
drop-front (suc n) (x ∷ xs) ys h = drop-front n xs ys (omega arith)

-- The header of a frame decides where its payload is.
payload_by_header :
    (little : Bool) (xs ys zs : List ℕ)
    → 10 ≤ length xs
    → get_cs_payload little (xs ++ ys) ≡ get_cs_payload little (xs ++ zs)
unfolding get_cs_payload
payload_by_header little (a ∷ b ∷ c ∷ d ∷ e ∷ f ∷ g ∷ h ∷ i ∷ j ∷ xs) ys zs le = refl
payload_by_header little xs ys zs le = absurd (omega arith)

payload_kept :
    (little : Bool) (rbuf rbuf' : List ℕ) (n at : ℕ)
    → take n rbuf' ≡ take n rbuf
    → n ≤ length rbuf
    → at + 10 ≤ n
    → get_cs_payload little (drop at rbuf') ≡ get_cs_payload little (drop at rbuf)
payload_kept little rbuf rbuf' n at same h h' =
    let seen = take n rbuf in
    let len : length seen ≡ n = omega (arith, length-take n rbuf) in
    ap (λ t. get_cs_payload little (drop at t))
      (sym (take-append-drop n rbuf') ∙ ap (λ t. t ++ drop n rbuf') same)
    ∙ ap (get_cs_payload little) (drop-front at seen (drop n rbuf') (omega arith))
    ∙ payload_by_header little (drop at seen) (drop n rbuf') (drop n rbuf)
        (omega (arith, length-drop at seen))
    ∙ ap (get_cs_payload little) (sym (drop-front at seen (drop n rbuf) (omega arith)))
    ∙ ap (λ t. get_cs_payload little (drop at t)) (take-append-drop n rbuf)

-- The parser and the worker go on where they stopped: the bytes that were read, the pong that is
-- pending and the parser's fields are what they were. The header of a frame may have been read
-- already; its fields are then what the accessors say.
pub record Resumed (little : Bool) (worker : Worker) (wsp : Parser) (worker' : Worker)
    (wsp' : Parser) : Type 0 where
  pub bytes : take wsp.next_read worker'.rbuf ≡ take wsp.next_read worker.rbuf
  pub pong : worker'.pong_response ≡ worker.pong_response
  pub next_read : wsp'.next_read ≡ wsp.next_read
  pub frame : wsp'.frame ≡ wsp.frame
  pub data_size : wsp'.data_size ≡ wsp.data_size
  pub data_kind : wsp'.data_kind ≡ wsp.data_kind
  pub utf8_state : wsp'.utf8_state ≡ wsp.utf8_state
  pub is_continuation : wsp'.is_continuation ≡ wsp.is_continuation
  pub must_send_pong_response : wsp'.must_send_pong_response ≡ wsp.must_send_pong_response
  pub payload :
      wsp.frame + 14 ≤ wsp.next_read
      → (wsp'.payload_size ≡ (get_cs_payload little (drop wsp.frame worker.rbuf)).0)
        × (wsp'.payload ≡ wsp.frame + (get_cs_payload little (drop wsp.frame worker.rbuf)).1)

module _ (little : Bool) (worker later : Worker) (wsp fresh : Parser)
    (read : wsp.next_read ≤ length worker.rbuf) (room : wsp.next_read ≤ length later.rbuf)
    (pong_fits : length worker.pong_response < 256) (no_pong : later.pong_response ≡ []) where
  restored_bytes :
      (frames : List ℕ)
      → frames ≡ take wsp.next_read worker.rbuf ++ worker.pong_response
      → take wsp.next_read (overwrite 0 (take wsp.next_read frames) later.rbuf)
        ≡ take wsp.next_read worker.rbuf
  restored_bytes frames e =
      let seen = take wsp.next_read worker.rbuf in
      let len : wsp.next_read ≡ length seen =
        omega (arith, length-take wsp.next_read worker.rbuf) in
      let zero_plus : 0 + length seen ≡ length seen = omega arith in
      let front : take wsp.next_read frames ≡ seen =
        ap (take wsp.next_read) e ∙ take-append seen worker.pong_response wsp.next_read len in
      ap (λ t. take wsp.next_read (overwrite 0 t later.rbuf)) front
      ∙ ap (take wsp.next_read) (overwrite_lem later.rbuf seen 0 (omega arith))
      ∙ ap (λ k. take wsp.next_read (seen ++ drop k later.rbuf)) zero_plus
      ∙ take-append seen (drop (length seen) later.rbuf) wsp.next_read len

  restored_pong :
      (frames : List ℕ) (n : ℕ)
      → frames ≡ take wsp.next_read worker.rbuf ++ worker.pong_response
      → n ≡ length worker.pong_response
      → (if n == 0 then later.pong_response else slice frames wsp.next_read n)
        ≡ worker.pong_response
  restored_pong frames n e q =
      let seen = take wsp.next_read worker.rbuf in
      let len : wsp.next_read ≡ length seen =
        omega (arith, length-take wsp.next_read worker.rbuf) in
      elim (Bool-cases (n == 0)) [
        | inl none_pending ↦ rw none_pending (no_pong ∙ empty worker.pong_response (ground arith))
        | inr pending ↦ rw pending (
            ap (λ t. take n (drop wsp.next_read t)) e
            ∙ ap (take n) (drop-append seen worker.pong_response wsp.next_read len)
            ∙ take_all worker.pong_response n (omega arith))
      ]
    where
      empty : (xs : List ℕ) → length xs ≡ 0 → [] ≡ xs
      empty [] h = refl
      empty (x ∷ xs) h = absurd (omega arith)

  -- What is saved when a message is incomplete and memory can be had, and loaded into the worker
  -- later, when its buffer holds anything else, resumes the parser. It is assumed that the buffers
  -- have room for what was read, that the pending pong is shorter than 256 bytes, and that the
  -- worker then has no pong pending.
  pub save-load_lem :
      (st : Storage) (cleared : Worker)
      → save_websocket_parse_state true worker wsp ≡ (some st, cleared)
      → let (w, p) = load_websocket_parse_state little st later fresh in
        Resumed little worker wsp w p
  unfolding save_websocket_parse_state load_websocket_parse_state
  save-load_lem st cleared e =
      subst
        (λ t.
          let (w, p) = load_websocket_parse_state little t later fresh in
          Resumed little worker wsp w p)
        (some-injective _ _ (ap (λ r. r.0) e))
        (let frames = take wsp.next_read worker.rbuf ++ worker.pong_response in
          let bytes = restored_bytes frames refl in
          record {
            bytes = bytes;
            pong = restored_pong frames (length worker.pong_response % 256) refl (omega arith);
            next_read = refl;
            frame = refl;
            data_size = refl;
            data_kind = refl;
            utf8_state = refl;
            is_continuation = refl;
            must_send_pong_response = refl;
            payload = λ known.
                let k : leb (wsp.frame + 14) wsp.next_read ≡ true = ground arith in
                let same =
                  payload_kept little worker.rbuf
                    (overwrite 0 (take wsp.next_read frames) later.rbuf) wsp.next_read wsp.frame
                    bytes read (omega arith) in
                (rw k (ap (λ t. t.0) same), rw k (ap (λ t. wsp.frame + t.1) same));
          })
