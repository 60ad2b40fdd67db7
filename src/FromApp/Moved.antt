-- ===== src/FromApp/Moved.antt =====
-- The references and the peers' indices after the cyclic array has grown.
use ring_socket.Prelude.{
  ℕ, zero, suc, ◌+◌, ◌-◌, ◌≤◌, ◌<◌, ◌≡◌, ◌≢◌, refl, sym, ap, ◌∙◌, true, false, some, List, [], ◌∷◌,
  ◌++◌, arith, take, length, get_or, overwrite, ◌==◌, ltb, length-take,
}
use ring_socket.Peer.{Peer, no_peer}
use ring_socket.Owref.{Owref, no_owref, owref_at}
use ring_socket.Worker.{Worker, Env, tick, peer_of}
use ring_socket.FromApp.Grow.{added_from, each_peer, full_dewrap, reallocate_owrefs, regrown}

get_or-each_peer :
    (f : Peer → Peer) (n : ℕ) (ps : List Peer) (i : ℕ)
    → i < n
    → i < length ps
    → get_or (each_peer f n ps) i no_peer ≡ f (get_or ps i no_peer)
unfolding each_peer
get_or-each_peer f zero ps i h h' = absurd (omega arith)
get_or-each_peer f (suc n) [] i h h' = absurd (omega arith)
get_or-each_peer f (suc n) (p ∷ ps) zero h h' = refl
get_or-each_peer f (suc n) (p ∷ ps) (suc i) h h' =
    get_or-each_peer f n ps i (omega arith) (omega arith)

get_or-added_from :
    (u : ℕ → Owref) (n i j k : ℕ) → j < n → k ≡ i + j → get_or (added_from u n i) j no_owref ≡ u k
unfolding added_from
get_or-added_from u zero i j k h e = absurd (omega arith)
get_or-added_from u (suc n) i zero k h e = ap u (omega arith)
get_or-added_from u (suc n) i (suc j) k h e =
    get_or-added_from u n (i + 1) j k (omega arith) (omega arith)

-- A copy to the end of a list, into what was added to it.
get_or-overwrite_added :
    (xs ys zs : List Owref) (j k : ℕ)
    → k ≡ j + length xs
    → get_or (overwrite (length xs) zs (xs ++ ys)) k no_owref
      ≡ get_or (overwrite 0 zs ys) j no_owref
get_or-overwrite_added [] ys zs j k e =
    ap (λ i. get_or (overwrite 0 zs ys) i no_owref) (omega arith)
get_or-overwrite_added (x ∷ xs) ys zs j zero e = absurd (omega arith)
get_or-overwrite_added (x ∷ xs) ys zs j (suc k) e =
    get_or-overwrite_added xs ys zs j k (omega arith)

get_or-overwrite_in :
    (zs ys : List Owref) (j : ℕ)
    → j < length zs
    → j < length ys
    → get_or (overwrite 0 zs ys) j no_owref ≡ get_or zs j no_owref
get_or-overwrite_in [] ys j h h' = absurd (omega arith)
get_or-overwrite_in (z ∷ zs) [] j h h' = absurd (omega arith)
get_or-overwrite_in (z ∷ zs) (y ∷ ys) zero h h' = refl
get_or-overwrite_in (z ∷ zs) (y ∷ ys) (suc j) h h' =
    get_or-overwrite_in zs ys j (omega arith) (omega arith)

get_or-overwrite_behind :
    (zs ys : List Owref) (j : ℕ)
    → length zs ≤ j
    → get_or (overwrite 0 zs ys) j no_owref ≡ get_or ys j no_owref
get_or-overwrite_behind [] ys j h = refl
get_or-overwrite_behind (z ∷ zs) [] j h = refl
get_or-overwrite_behind (z ∷ zs) (y ∷ ys) zero h = absurd (omega arith)
get_or-overwrite_behind (z ∷ zs) (y ∷ ys) (suc j) h = get_or-overwrite_behind zs ys j (omega arith)

get_or-take :
    (xs : List Owref) (n j : ℕ) → j < n → get_or (take n xs) j no_owref ≡ get_or xs j no_owref
get_or-take xs zero j h = absurd (omega arith)
get_or-take [] (suc n) j h = refl
get_or-take (x ∷ xs) (suc n) zero h = refl
get_or-take (x ∷ xs) (suc n) (suc j) h = get_or-take xs n j (omega arith)

length-added_from : (u : ℕ → Owref) (n i : ℕ) → length (added_from u n i) ≡ n
unfolding added_from
length-added_from u zero i = refl
length-added_from u (suc n) i = ap suc (length-added_from u n (i + 1))

-- What has become of a peer's next reference.
pub record Moved (env : Env) (worker : Worker) (i : ℕ) (w : Worker) : Type 0 where
  pub index : (peer_of w i).owref_i ≡ (peer_of worker i).owref_i + length worker.refs.owrefs
  pub moved :
      (peer_of worker i).owref_i < worker.refs.newest_owref_i
      → owref_at w.refs (peer_of w i).owref_i ≡ owref_at worker.refs (peer_of worker i).owref_i
  pub lost :
      worker.refs.newest_owref_i ≤ (peer_of worker i).owref_i
      → owref_at w.refs (peer_of w i).owref_i ≡ env.uninitialized (peer_of w i).owref_i

-- When the array grows by more references than the index of the newest one, and there is memory, then
-- the index of each peer's next reference goes up by the old size of the array, also where that
-- reference was not moved: the references below the newest one are found at the new index, and in
-- place of the others there is memory that was never written. The peer has references pending, is one
-- of those up to the highest index, and its reference is in the array, which grows at least to twice
-- its size.
pub grow_lem :
    (env : Env) (worker : Worker) (i : ℕ)
    → env.has_memory worker.clock ≡ true
    → worker.refs.newest_owref_i
      < env.realloc_multiplier (length worker.refs.owrefs) - length worker.refs.owrefs
    → i ≤ worker.net.highest_peer_i
    → i < length worker.net.peers
    → (peer_of worker i).owref_c ≢ 0
    → (peer_of worker i).owref_i < length worker.refs.owrefs
    → length worker.refs.owrefs
      ≤ env.realloc_multiplier (length worker.refs.owrefs) - length worker.refs.owrefs
    → (w : Worker) × (reallocate_owrefs env worker ≡ some w) × Moved env worker i w
unfolding reallocate_owrefs full_dewrap
grow_lem env worker i memory wide low inside pending here twice = (
  w,
  (let enough : ltb refs.newest_owref_i added ≡ true = ground arith in
      rw (reallocate_owrefs, memory, enough) refl),
  record {
    index = index;
    moved = λ h.
        ap (λ k. get_or owrefs k no_owref) index
        ∙ get_or-overwrite_added refs.owrefs rest front old (old + size) refl
        ∙ get_or-overwrite_in front rest old
            (omega (arith, length-take refs.newest_owref_i refs.owrefs))
            (omega (arith, length-added_from env.uninitialized added size))
        ∙ get_or-take refs.owrefs refs.newest_owref_i old h;
    lost = λ h.
        ap (λ k. get_or owrefs k no_owref) index
        ∙ get_or-overwrite_added refs.owrefs rest front old (old + size) refl
        ∙ get_or-overwrite_behind front rest old
            (omega (arith, length-take refs.newest_owref_i refs.owrefs))
        ∙ get_or-added_from env.uninitialized added size old (old + size) (omega arith)
            (omega arith)
        ∙ ap env.uninitialized (sym index);
  },
)
  where
    refs : ring_socket.Owref.Worker
    refs = worker.refs

    size : ℕ
    size = length refs.owrefs

    added : ℕ
    added = env.realloc_multiplier size - size

    old : ℕ
    old = (peer_of worker i).owref_i

    rest : List Owref
    rest = added_from env.uninitialized added size

    front : List Owref
    front = take refs.newest_owref_i refs.owrefs

    owrefs : List Owref
    owrefs = overwrite size front (refs.owrefs ++ rest)

    w : Worker
    w = tick (
        regrown worker owrefs (refs.newest_owref_i + size)
          (full_dewrap size (refs.newest_owref_i + size)))

    adjusted :
        full_dewrap size (refs.newest_owref_i + size) (peer_of worker i)
        ≡ record (peer_of worker i) { owref_i = old + size }
    adjusted =
        let some_pending : ((peer_of worker i).owref_c == 0) ≡ false = ground arith in
        let below : ltb old (refs.newest_owref_i + size) ≡ true = ground arith in
        rw (full_dewrap, some_pending, below) refl

    index : (peer_of w i).owref_i ≡ old + size
    index =
        ap (λ p. p.owref_i)
          (get_or-each_peer (full_dewrap size (refs.newest_owref_i + size))
              (worker.net.highest_peer_i + 1) worker.net.peers i (omega arith) inside
            ∙ adjusted)
