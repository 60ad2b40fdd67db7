-- ===== src/FromApp/Grow.antt =====
-- The cyclic array of references grows when it is full. What the peers on the HTTP layer have in place
-- of `ws` is taken to be 0, as it is in front of their requests.
use ring_socket.Prelude.{
  ℕ, zero, suc, ◌+◌, ◌-◌, not, ◌&&◌, Option, some, List, [], ◌∷◌, ◌++◌, take, length, overwrite,
  if◌then◌else◌, ◌==◌, ltb,
}
use ring_socket.Peer.{Peer}
use ring_socket.Owref.{Owref}
use ring_socket.Worker.{Worker, Env, tick}

-- The elements that `realloc` adds, `n` of them from the index `i` on.
unfoldable pub added_from : (ℕ → Owref) → ℕ → ℕ → List Owref
added_from uninitialized zero i = []
added_from uninitialized (suc n) i = uninitialized i ∷ added_from uninitialized n (i + 1)

-- The loops over the first `n` peers.
unfoldable pub each_peer : (Peer → Peer) → ℕ → List Peer → List Peer
each_peer f zero peers = peers
each_peer f (suc n) [] = []
each_peer f (suc n) (p ∷ ps) = f p ∷ each_peer f n ps

-- The bodies of the loops, with the new `newest_owref_i`.
unfoldable pub full_dewrap : ℕ → ℕ → Peer → Peer
full_dewrap old_elem_c newest_owref_i p =
    if not (p.owref_c == 0) && ltb p.owref_i newest_owref_i
    then record p { owref_i = p.owref_i + old_elem_c }
    else p

unfoldable pub partial_dewrap : ℕ → ℕ → ℕ → Peer → Peer
partial_dewrap old_elem_c added_ref_c newest_owref_i p =
    if p.owref_c == 0
    then p
    else if ltb p.owref_i added_ref_c
    then record p { owref_i = p.owref_i + old_elem_c }
    else if ltb p.owref_i newest_owref_i
    then record p { owref_i = p.owref_i - added_ref_c }
    else p

abbrev pub regrown : Worker → List Owref → ℕ → (Peer → Peer) → Worker
regrown worker owrefs newest_owref_i f = record worker {
  refs = record worker.refs { owrefs = owrefs; newest_owref_i = newest_owref_i };
  net = record worker.net { peers = each_peer f (worker.net.highest_peer_i + 1) worker.net.peers };
}

-- Without memory, `owrefs` is NULL, an array of no elements: RS_FATAL is ignored, and the next access
-- to the array is undefined.
unfoldable pub reallocate_owrefs : Env → Worker → Option Worker
unfolding added_from each_peer full_dewrap partial_dewrap
reallocate_owrefs env worker =
    let refs = worker.refs in
    let old_elem_c = length refs.owrefs in
    let added_ref_c = env.realloc_multiplier old_elem_c - old_elem_c in
    let grown = refs.owrefs ++ added_from env.uninitialized added_ref_c old_elem_c in
    if not (env.has_memory worker.clock)
    then some (tick (record worker { refs = record refs { owrefs = [] } }))
    else some (
        tick (
          if ltb refs.newest_owref_i added_ref_c
          then (let newest = refs.newest_owref_i + old_elem_c in
              regrown worker (overwrite old_elem_c (take refs.newest_owref_i refs.owrefs) grown)
                newest (full_dewrap old_elem_c newest))
          else (let newest = refs.newest_owref_i - added_ref_c in
              regrown worker
                (env.moved_left (overwrite old_elem_c (take added_ref_c refs.owrefs) grown)
                  added_ref_c refs.newest_owref_i)
                newest (partial_dewrap old_elem_c added_ref_c newest))))
