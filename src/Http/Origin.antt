-- ===== src/Http/Origin.antt =====
-- The origins that are allowed.
use ring_socket.Prelude.{
  ℕ, ◌+◌, ◌≡◌, inl, inr, refl, ap, ◌∙◌, Bool, true, false, not, ◌&&◌, Option, some, List, [], ◌∷◌,
  ◌++◌, arith, ◌==◌, Bool-cases, length, get_elem?, take, take-append,
}
use mathlib.Core.Path.{ap₂}
use ring_socket.Http.{
  starts_as, equals, same_string, same_bool, Endpoint, HttpPeer, first_i, Place, moved_to,
  current_endpoint, match_origin,
}

starts_as_prefix : (xs ys : List ℕ) → starts_as (xs ++ ys) xs ≡ true
unfolding starts_as
starts_as_prefix [] ys = refl
starts_as_prefix (x ∷ xs) ys = rw (starts_as_prefix xs ys) (ground arith)

abbrev IsFound : Option ℕ → Type 0
IsFound o = (i : ℕ) × (o ≡ some i)

first_i-IsFound :
    (test : List ℕ → Bool) (i : ℕ) (before : List (List ℕ)) (s : List ℕ) (behind : List (List ℕ))
    → test s ≡ true
    → IsFound (first_i test i (before ++ s ∷ behind))
unfolding first_i
first_i-IsFound test i [] s behind h = (i, rw h refl)
first_i-IsFound test i (b ∷ before) s behind h =
    let (j, e) = first_i-IsFound test (i + 1) before s behind h in
    elim (Bool-cases (test b)) [ inl yes_b ↦ (i, rw yes_b refl) | inr no_b ↦ (j, rw no_b e) ]

-- Every beginning of an allowed origin of the endpoint that the peer refers to passes for an allowed
-- origin, the empty one too, if the peer is encrypted as the endpoint is.
pub prefix_allowed :
    (apps : List (List Endpoint)) (peer : HttpPeer) (before behind : List (List ℕ))
    (beginning end rest : List ℕ)
    → (current_endpoint apps peer).allowed_origins ≡ before ++ (beginning ++ end) ∷ behind
    → same_bool (current_endpoint apps peer).is_encrypted peer.is_encrypted ≡ true
    → (i : ℕ) × (match_origin apps peer (beginning ++ rest) (length beginning)
        ≡ some (record peer { origin_i = i; origin_was_parsed = true }))
unfolding match_origin
prefix_allowed apps peer before behind beginning end rest e same =
    let current = current_endpoint apps peer in
    let test : List ℕ → Bool = λ s. starts_as s beginning in
    let (i, found) =
      first_i-IsFound test 0 before (beginning ++ end) behind (starts_as_prefix beginning end) in
    let cut : take (length beginning) (beginning ++ rest) ≡ beginning =
      take-append beginning rest (length beginning) refl in
    let found' : first_i (λ s. starts_as s (take (length beginning) (beginning ++ rest))) 0
          current.allowed_origins
        ≡ some i =
      ap (λ t. first_i (λ s. starts_as s t) 0 current.allowed_origins) cut
      ∙ ap (first_i test 0) e
      ∙ found in
    (i, rw (match_origin, same, found') refl)

pub same_string_lem : (xs ys : List ℕ) → same_string xs ys ≡ true → xs ≡ ys
unfolding same_string
same_string_lem [] [] h = refl
same_string_lem [] (y ∷ ys) h = absurd cc
same_string_lem (x ∷ xs) [] h = absurd cc
same_string_lem (x ∷ xs) (y ∷ ys) h = elim (Bool-cases (x == y)) [
  | inl same ↦ let at : x ≡ y = ground arith in ap₂ ◌∷◌ at (same_string_lem xs ys (rw same at h))
  | inr other ↦ absurd (let broken : false ≡ true = rw other at h in cc)
]

pub and_split : (a b : Bool) → (a && b) ≡ true → (a ≡ true) × (b ≡ true)
and_split true b h = (refl, h)
and_split false b h = absurd cc

pub not_and : (a b : Bool) → not (a && not b) ≡ true → a ≡ true → b ≡ true
not_and true true h e = refl
not_and true false h e = absurd cc
not_and false b h e = absurd cc

-- Another endpoint for which the search ended: it is one of those searched, may stand for the current
-- one, and allows the origin.
pub record Elsewhere (peer : HttpPeer) (current : Endpoint) (origin : List ℕ) (places : List Place)
    (peer' : HttpPeer) : Type 0 where
  pub place : Place
  pub place_i : ℕ
  pub is_searched : get_elem? places place_i ≡ some place
  pub same_tls : same_bool place.endpoint.is_encrypted peer.is_encrypted ≡ true
  pub same_url : place.endpoint.url ≡ current.url
  pub same_hostname : peer.hostname_was_parsed ≡ true → place.endpoint.hostname ≡ current.hostname
  pub origin_i : ℕ
  pub allowed : List ℕ
  pub is_allowed : get_elem? place.endpoint.allowed_origins origin_i ≡ some allowed
  pub is_origin : equals allowed origin ≡ true
  pub moved : peer' ≡ moved_to peer place origin_i
