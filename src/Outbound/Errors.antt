-- ===== src/Outbound/Errors.antt =====
-- The two readers of a message to all peers except several.
use ring_socket.Prelude.{
  ℕ, ◌^◌, ◌<◌, ◌≡◌, refl, ap, ◌∙◌, true, false, not, ◌&&◌, List, [], ◌∷◌, ◌++◌, arith, append_assoc,
  ◌==◌, length, take, All,
}
use ring_socket.Wire.Bytes.{le_bytes, of_le, length-le_bytes}
use ring_socket.Outbound.{
  every_except_array, put_recipients, send_head, elem, peer_i, of_app, is_not_excluded, filter,
  recipients, is_found,
}
use ring_socket.Outbound.Address.{IsUint32, first_entry, count_stored, excluded_lem, long_head}
use ring_socket.Outbound.Clients.{elem-filter, and_false}

-- The number of the first excluded peer.
first_stored :
    (k p n : ℕ) (ps frame : List ℕ)
    → p < 2 ^ 32
    → peer_i ((k ∷ (le_bytes 4 n ++ put_recipients (p ∷ ps))) ++ frame) 5 0 ≡ p
first_stored k p n ps frame h =
    ap (λ t. peer_i (k ∷ t) 5 0) (append_assoc (le_bytes 4 n) (put_recipients (p ∷ ps)) frame)
    ∙ first_entry frame (k ∷ le_bytes 4 n) ps p 5 0 (omega (arith, length-le_bytes 4 n)) h

not_sent :
    (ps frame : List ℕ) (app_i : ℕ) (apps : List ℕ) (q : ℕ)
    → 1 < length ps
    → length ps < 2 ^ 32
    → All IsUint32 ps
    → (not (elem q ps) && not (of_le (take 4 frame) == q)) ≡ false
    → elem q (recipients app_i apps (send_head every_except_array ps ++ frame)) ≡ false
unfolding recipients
not_sent ps frame app_i apps q h l u e =
    let all = of_app app_i apps 0 in
    let m = (4 ∷ (le_bytes 4 (length ps) ++ put_recipients ps)) ++ frame in
    ap (λ t. elem q (recipients app_i apps (t ++ frame))) (long_head every_except_array ps h)
    ∙ ap (λ c. elem q (filter (λ r. is_not_excluded m r c 0) all)) (count_stored 4 ps frame l)
    ∙ elem-filter q (λ r. is_not_excluded m r (length ps) 0) all
    ∙ ap (λ b. elem q all && b) (excluded_lem q 4 ps frame u ∙ e)
    ∙ and_false (elem q all)

-- A message to all peers except `p` and others is found by `find_next_owref_for_peer` for any of the
-- others, although `receive_from_app` does not send it to them; the numbers are below 2^32, and there
-- are fewer than 2^32 of them.
pub found_excluded :
    (p : ℕ) (ps frame : List ℕ) (app_i : ℕ) (apps : List ℕ) (target : ℕ)
    → length (p ∷ ps) < 2 ^ 32
    → All IsUint32 (p ∷ ps)
    → elem target ps ≡ true
    → (p == target) ≡ false
    → (is_found target (send_head every_except_array (p ∷ ps) ++ frame) ≡ true)
      × (elem target (recipients app_i apps (send_head every_except_array (p ∷ ps) ++ frame))
          ≡ false)
unfolding is_found
found_excluded p [] frame app_i apps target l u e other = cc
found_excluded p (r ∷ ps) frame app_i apps target l u e other = (
  ap (λ t. is_found target (t ++ frame)) (long_head every_except_array (p ∷ r ∷ ps) (omega arith))
      ∙ ap (λ x. not (x == target)) (first_stored 4 p (length (p ∷ r ∷ ps)) (r ∷ ps) frame u.0)
      ∙ rw other refl,
  not_sent (p ∷ r ∷ ps) frame app_i apps target (omega arith) l u (rw (other, e) refl),
)

-- A message to all peers except several is not sent to the peer whose number the first four bytes of
-- the frame are, whether it is one of those or not; the numbers are below 2^32, and there are fewer
-- than 2^32 of them.
pub mistaken_for_excluded :
    (ps frame : List ℕ) (app_i : ℕ) (apps : List ℕ) (q : ℕ)
    → 1 < length ps
    → length ps < 2 ^ 32
    → All IsUint32 ps
    → of_le (take 4 frame) ≡ q
    → elem q (recipients app_i apps (send_head every_except_array ps ++ frame)) ≡ false
mistaken_for_excluded ps frame app_i apps q h l u e =
    let same : (of_le (take 4 frame) == q) ≡ true = ground arith in
    not_sent ps frame app_i apps q h l u (rw same (and_false (not (elem q ps))))
