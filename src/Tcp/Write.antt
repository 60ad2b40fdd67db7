-- ===== src/Tcp/Write.antt =====
-- Messages that `write_tcp` writes in parts.
use ring_socket.Prelude.{
  ℕ, zero, suc, ◌+◌, ◌-◌, ◌≤◌, ◌<◌, ◌≡◌, ◌⊎◌, inl, inr, refl, sym, ap, ◌∙◌, Bool, true, false,
  Option, none, some, List, [], ◌++◌, take, drop, length, arith, ◌==◌, Bool-cases, drop-add,
  take-append-drop, append-nil, append_assoc, length-drop, take_all,
}
use ring_socket.Websocket.{Ret, ok, again, close_peer, fatal}
use ring_socket.Peer.{Peer}
use ring_socket.Tcp.{Written, write_failed, write_tcp}

-- The bytes that the kernel takes of those that a call offers it.
abbrev pub taken : Written → List ℕ → List ℕ
taken answer offered = elim answer.ret [ none ↦ [] | some n ↦ take n offered ]

-- The caller's retries: while `write_tcp` returns RS_AGAIN it is called with the same message, at
-- most `calls` times. `write i` is the kernel's answer to the call `i`. Beside the last result, the
-- bytes that the kernel took.
unfoldable pub retry : (ℕ → ℕ → Written) → ℕ → ℕ → Peer → List ℕ → (Ret × Peer) × List ℕ
unfolding write_tcp
retry write zero i peer wbuf = ((again, peer), [])
retry write (suc calls) i peer wbuf =
    let (ret, peer') = write_tcp (write i) peer wbuf in
    let sent = taken (write i (length wbuf - peer.old_wsize)) (drop peer.old_wsize wbuf) in
    let (last, rest) = retry write calls (i + 1) peer' wbuf in
    elim ret [ again ↦ (last, sent ++ rest) | other ↦ ((other, peer'), sent) ]

-- How far a message got: the kernel took the bytes `sent`. RS_OK means that it took all that were
-- left, RS_AGAIN that `old_wsize` tells where the next call goes on.
pub record Sends (wbuf : List ℕ) (peer : Peer) (ret : Ret) (peer' : Peer) (sent : List ℕ)
    : Type 0 where
  pub rest : List ℕ
  pub in_order : sent ++ rest ≡ drop peer.old_wsize wbuf
  pub whole : ret ≡ ok → (rest ≡ []) × (peer'.old_wsize ≡ 0)
  pub resumes : ret ≡ again → (rest ≡ drop peer'.old_wsize wbuf) × (peer'.old_wsize ≤ length wbuf)

-- `write` takes no more bytes than it is offered.
abbrev pub IsBounded : (ℕ → Written) → Type 0
IsBounded write = (count n : ℕ) → (write count).ret ≡ some n → n ≤ count

failed-Sends :
    (wbuf : List ℕ) (peer : Peer) (is_eagain : Bool)
    → peer.old_wsize ≤ length wbuf
    → Sends wbuf peer (write_failed is_eagain peer).0 (write_failed is_eagain peer).1 []
failed-Sends wbuf peer true h = record {
  rest = drop peer.old_wsize wbuf;
  in_order = refl;
  whole = λ e. absurd cc;
  resumes = λ e. (refl, h);
}
failed-Sends wbuf peer false h = record {
  rest = drop peer.old_wsize wbuf;
  in_order = refl;
  whole = λ e. absurd cc;
  resumes = λ e. absurd cc;
}

write_tcp-Sends :
    (write : ℕ → Written) (wbuf : List ℕ) (peer : Peer)
    → IsBounded write
    → peer.old_wsize ≤ length wbuf
    → Sends wbuf peer
        (write_tcp write peer wbuf).0
        (write_tcp write peer wbuf).1
        (taken (write (length wbuf - peer.old_wsize)) (drop peer.old_wsize wbuf))
unfolding write_tcp
write_tcp-Sends write wbuf peer bounded h =
    by_answer (write (length wbuf - peer.old_wsize)).ret refl
  where
    by_answer :
        (o : Option ℕ)
        → (write (length wbuf - peer.old_wsize)).ret ≡ o
        → Sends wbuf peer
            (write_tcp write peer wbuf).0
            (write_tcp write peer wbuf).1
            (taken (write (length wbuf - peer.old_wsize)) (drop peer.old_wsize wbuf))
    by_answer none e =
        rw (write_tcp, e)
          (failed-Sends wbuf peer (write (length wbuf - peer.old_wsize)).is_eagain h)
    by_answer (some zero) e =
        rw (write_tcp, e)
          (failed-Sends wbuf peer (write (length wbuf - peer.old_wsize)).is_eagain h)
    by_answer (some (suc n)) e =
        let fits : suc n ≤ length wbuf - peer.old_wsize =
          bounded (length wbuf - peer.old_wsize) (suc n) e in
        elim (Bool-cases (suc n == length wbuf - peer.old_wsize)) [
          | inl all ↦
              rw (write_tcp, e, all)
                (record {
                  rest = [];
                  in_order =
                      append-nil (take (suc n) (drop peer.old_wsize wbuf))
                      ∙ take_all (drop peer.old_wsize wbuf) (suc n)
                          (ground (arith, length-drop peer.old_wsize wbuf));
                  whole = λ e. (refl, refl);
                  resumes = λ e. absurd cc;
                })
          | inr part ↦
              rw (write_tcp, e, part)
                (record {
                  rest = drop (peer.old_wsize + suc n) wbuf;
                  in_order =
                      ap (λ t. take (suc n) (drop peer.old_wsize wbuf) ++ t)
                        (drop-add wbuf peer.old_wsize (suc n))
                      ∙ take-append-drop (suc n) (drop peer.old_wsize wbuf);
                  whole = λ e. absurd cc;
                  resumes = λ e. (refl, omega arith);
                })
        ]

-- With a bounded kernel, a message that is written from its start on, and written again for as long
-- as RS_AGAIN is returned, reaches the kernel in order and without gaps or repeats: what it took is a
-- prefix of the message; all of it when RS_OK is returned, and when it is still RS_AGAIN, all but
-- what `old_wsize` leaves.
pub retry-Sends :
    (write : ℕ → ℕ → Written) (calls i : ℕ) (wbuf : List ℕ) (peer : Peer)
    → ((k : ℕ) → IsBounded (write k))
    → peer.old_wsize ≤ length wbuf
    → Sends wbuf peer
        (retry write calls i peer wbuf).0.0
        (retry write calls i peer wbuf).0.1
        (retry write calls i peer wbuf).1
unfolding retry
retry-Sends write zero i wbuf peer bounded h = record {
  rest = drop peer.old_wsize wbuf;
  in_order = refl;
  whole = λ e. absurd cc;
  resumes = λ e. (refl, h);
}
retry-Sends write (suc calls) i wbuf peer bounded h =
    by_ret (write_tcp (write i) peer wbuf).0 (write_tcp (write i) peer wbuf).1 refl refl
      (write_tcp-Sends (write i) wbuf peer (bounded i) h)
      (λ peer' inside. retry-Sends write calls (i + 1) wbuf peer' bounded inside)
  where
    by_ret :
        (ret : Ret) (peer' : Peer)
        → (write_tcp (write i) peer wbuf).0 ≡ ret
        → (write_tcp (write i) peer wbuf).1 ≡ peer'
        → Sends wbuf peer ret peer'
            (taken (write i (length wbuf - peer.old_wsize)) (drop peer.old_wsize wbuf))
        → ((next : Peer)
            → next.old_wsize ≤ length wbuf
            → Sends wbuf next
                (retry write calls (i + 1) next wbuf).0.0
                (retry write calls (i + 1) next wbuf).0.1
                (retry write calls (i + 1) next wbuf).1)
        → Sends wbuf peer
            (retry write (suc calls) i peer wbuf).0.0
            (retry write (suc calls) i peer wbuf).0.1
            (retry write (suc calls) i peer wbuf).1
    by_ret ok peer' e e' s go = rw (retry, e, e') s
    by_ret close_peer peer' e e' s go = rw (retry, e, e') s
    by_ret fatal peer' e e' s go = rw (retry, e, e') s
    by_ret again peer' e e' s go =
        let (from, inside) = s.resumes refl in
        let t = go peer' inside in
        let sent = taken (write i (length wbuf - peer.old_wsize)) (drop peer.old_wsize wbuf) in
        rw (retry, e, e')
          (record {
            rest = t.rest;
            in_order =
                append_assoc sent (retry write calls (i + 1) peer' wbuf).1 t.rest
                ∙ ap (λ r. sent ++ r) (t.in_order ∙ sym from)
                ∙ s.in_order;
            whole = t.whole;
            resumes = t.resumes;
          })

-- The kernel takes at least one byte of those that it is offered.
abbrev pub Progresses : (ℕ → Written) → Type 0
Progresses write =
    (count : ℕ) → 0 < count → (n : ℕ) × ((write count).ret ≡ some n) × (0 < n) × (n ≤ count)

-- One call with a kernel that progresses ends the message, or leaves fewer bytes.
write_tcp-Progresses :
    (write : ℕ → Written) (wbuf : List ℕ) (peer : Peer)
    → Progresses write
    → peer.old_wsize < length wbuf
    → ((write_tcp write peer wbuf).0 ≡ ok)
      ⊎ (((write_tcp write peer wbuf).0 ≡ again)
          × (peer.old_wsize < (write_tcp write peer wbuf).1.old_wsize)
          × ((write_tcp write peer wbuf).1.old_wsize < length wbuf))
unfolding write_tcp
write_tcp-Progresses write wbuf peer progresses h =
    go (progresses (length wbuf - peer.old_wsize) (omega arith))
  where
    go :
        ((n : ℕ) × ((write (length wbuf - peer.old_wsize)).ret ≡ some n)
          × (0 < n)
          × (n ≤ length wbuf - peer.old_wsize))
        → ((write_tcp write peer wbuf).0 ≡ ok)
          ⊎ (((write_tcp write peer wbuf).0 ≡ again)
              × (peer.old_wsize < (write_tcp write peer wbuf).1.old_wsize)
              × ((write_tcp write peer wbuf).1.old_wsize < length wbuf))
    go (zero, e, positive, fits) = absurd (omega arith)
    go (suc n, e, positive, fits) = elim (Bool-cases (suc n == length wbuf - peer.old_wsize)) [
      | inl all ↦ inl (rw (write_tcp, e, all) refl)
      | inr part ↦ inr (rw (write_tcp, e, part) (refl, omega arith, ground arith))
    ]

-- With a kernel that takes at least one byte per call, a message that is not finished is, with
-- RS_OK, after at most as many calls as it has bytes left.
pub retry-Progresses :
    (write : ℕ → ℕ → Written) (calls i : ℕ) (wbuf : List ℕ) (peer : Peer)
    → ((k : ℕ) → Progresses (write k))
    → peer.old_wsize < length wbuf
    → length wbuf ≤ peer.old_wsize + calls
    → (retry write calls i peer wbuf).0.0 ≡ ok
unfolding retry
retry-Progresses write zero i wbuf peer progresses h enough = absurd (omega arith)
retry-Progresses write (suc calls) i wbuf peer progresses h enough =
    elim (write_tcp-Progresses (write i) wbuf peer (progresses i) h) [
      | inl done ↦ rw (retry, done) refl
      | inr (next, more, inside) ↦
          rw (retry, next)
            (retry-Progresses write calls (i + 1) wbuf (write_tcp (write i) peer wbuf).1 progresses
              inside (omega arith))
    ]
