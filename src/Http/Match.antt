-- ===== src/Http/Match.antt =====
-- rs_http.c: which endpoint the URL and the hostname of an upgrade request match.
pub mod First
use ring_socket.Prelude.{
  ℕ, zero, suc, ◌<◌, ◌≡◌, refl, sym, ap, Bool, true, false, not, ◌&&◌, Option, none, some, List, [],
  ◌∷◌, arith, get_elem?, get_or, if◌then◌else◌, ◌∙◌,
}
use mathlib.Core.Option
use ring_socket.Http.{
  starts_as, same_string, same_bool, Endpoint, HttpPeer, Place, first_i, other_places,
  current_endpoint,
}

-- `!strncmp(s, str, n)` and the test of `is_encrypted`.
abbrev pub matches_at : HttpPeer → List ℕ → List ℕ → Endpoint → Bool
matches_at peer s str e = starts_as s str && same_bool e.is_encrypted peer.is_encrypted

-- The first place whose endpoint passes the test: the loops over the other endpoints.
unfoldable pub find_place : (Endpoint → Bool) → List Place → Option Place
find_place test [] = none
find_place test (place ∷ places) =
    let later = find_place test places in if test place.endpoint then some place else later

-- The test of the loops of `match_url`.
abbrev pub is_url_place : HttpPeer → Endpoint → List ℕ → Endpoint → Bool
is_url_place peer current url e =
    matches_at peer e.url url e
    && not (peer.hostname_was_parsed && not (same_string e.hostname current.hostname))

abbrev pub put_place : HttpPeer → Place → HttpPeer
put_place peer place = record peer { app_i = place.app_i; endpoint_i = place.endpoint_i }

-- `none` is RS_CLOSE_PEER.
unfoldable pub match_url : List (List Endpoint) → HttpPeer → List ℕ → Option HttpPeer
unfolding find_place other_places
match_url apps peer url =
    let current = current_endpoint apps peer in
    if matches_at peer current.url url current
    then some peer
    else elim (find_place (is_url_place peer current url) (other_places apps peer)) [
      | none ↦ none
      | some place ↦ some (put_place peer place)
    ]

-- The test of the loops of `match_hostname`, less that of the origins.
abbrev pub is_hostname_place : HttpPeer → Endpoint → List ℕ → Bool → Endpoint → Bool
is_hostname_place peer current hostname url_was_parsed e =
    matches_at peer e.hostname hostname e
    && not (url_was_parsed && not (same_string e.url current.url))

abbrev pub with_hostname : HttpPeer → HttpPeer
with_hostname peer = record peer { hostname_was_parsed = true }

-- The loops of `match_hostname` for a peer whose origin was parsed. `origin` is one of the strings of
-- the current endpoint; a peer without one has not had its origin parsed.
unfoldable pub find_origin : HttpPeer → (Endpoint → Bool) → List ℕ → List Place → Option HttpPeer
unfolding first_i
find_origin peer test origin [] = none
find_origin peer test origin (place ∷ places) =
    let later = find_origin peer test origin places in
    if test place.endpoint
    then elim (first_i (λ s. same_string s origin) 0 place.endpoint.allowed_origins) [
      | none ↦ later
      | some i ↦ some (record (with_hostname (put_place peer place)) { origin_i = i })
    ]
    else later

-- `none` is RS_CLOSE_PEER.
unfoldable pub match_hostname : List (List Endpoint) → HttpPeer → List ℕ → Bool → Option HttpPeer
unfolding find_place find_origin other_places
match_hostname apps peer hostname url_was_parsed =
    let current = current_endpoint apps peer in
    let test = is_hostname_place peer current hostname url_was_parsed in
    let others = other_places apps peer in
    let with_origin =
      find_origin peer test (get_or current.allowed_origins peer.origin_i []) others in
    if matches_at peer current.hostname hostname current
    then some (with_hostname peer)
    else if peer.origin_was_parsed
    then with_origin
    else elim (find_place test others) [
      | none ↦ none
      | some place ↦ some (with_hostname (put_place peer place))
    ]
