-- ===== src/Http.antt =====
-- rs_http.c: which endpoint the origin of an upgrade request matches. A string of the configuration is
-- the list of its bytes, none of which is 0.
pub mod Origin
pub mod Io
pub mod Match
use ring_socket.Prelude.{
  ℕ, zero, suc, ◌+◌, Bool, true, false, not, ◌&&◌, ◌||◌, Option, none, some, List, [], ◌∷◌, ◌++◌,
  if◌then◌else◌, ◌==◌, drop, take, get_or,
}

-- `!strncmp(s, str, n)`, where `str` are the `n` bytes at the second pointer.
unfoldable pub starts_as : List ℕ → List ℕ → Bool
starts_as s [] = true
starts_as [] (b ∷ bs) = b == 0
starts_as (c ∷ cs) (b ∷ bs) = c == b && starts_as cs bs

-- `!strcmp(s, str)`, where `str` are the bytes from the second pointer on, to the end of the buffer.
unfoldable pub equals : List ℕ → List ℕ → Bool
equals [] [] = false
equals [] (b ∷ bs) = b == 0
equals (c ∷ cs) [] = false
equals (c ∷ cs) (b ∷ bs) = c == b && equals cs bs

unfoldable pub same_string : List ℕ → List ℕ → Bool
same_string [] [] = true
same_string [] (b ∷ bs) = false
same_string (c ∷ cs) [] = false
same_string (c ∷ cs) (b ∷ bs) = c == b && same_string cs bs

abbrev pub same_bool : Bool → Bool → Bool
same_bool true b = b
same_bool false b = not b

-- What the search uses of `struct rs_conf_endpoint`.
pub record Endpoint : Type 0 where
  pub url : List ℕ
  pub hostname : List ℕ
  pub allowed_origins : List (List ℕ)
  pub is_encrypted : Bool

-- What it uses and sets of the peer.
pub record HttpPeer : Type 0 where
  pub is_encrypted : Bool
  pub app_i : ℕ
  pub endpoint_i : ℕ
  pub origin_i : ℕ
  pub hostname_was_parsed : Bool
  pub origin_was_parsed : Bool

-- The index of the first string that passes the test.
unfoldable pub first_i : (List ℕ → Bool) → ℕ → List (List ℕ) → Option ℕ
first_i test i [] = none
first_i test i (s ∷ strings) =
    let later = first_i test (i + 1) strings in if test s then some i else later

-- An endpoint, with its app's index and its own.
pub record Place : Type 0 where
  pub app_i : ℕ
  pub endpoint_i : ℕ
  pub endpoint : Endpoint

unfoldable pub places_of_app : ℕ → ℕ → List Endpoint → List Place
places_of_app app_i i [] = []
places_of_app app_i i (e ∷ endpoints) =
    record { app_i = app_i; endpoint_i = i; endpoint = e } ∷ places_of_app app_i (i + 1) endpoints

-- The endpoints of the apps from the number `app_i` on.
unfoldable pub places_from : ℕ → List (List Endpoint) → List Place
unfolding places_of_app
places_from app_i [] = []
places_from app_i (app ∷ apps) = places_of_app app_i 0 app ++ places_from (app_i + 1) apps

-- Whether another endpoint may stand for the current one.
abbrev pub is_candidate : HttpPeer → Endpoint → Endpoint → Bool
is_candidate peer current e =
    same_bool e.is_encrypted peer.is_encrypted
    && (same_string e.url current.url
        && not (peer.hostname_was_parsed && not (same_string e.hostname current.hostname)))

-- The peer at the endpoint of a place.
abbrev pub moved_to : HttpPeer → Place → ℕ → HttpPeer
moved_to peer place i = record peer {
  app_i = place.app_i;
  endpoint_i = place.endpoint_i;
  origin_i = i;
  origin_was_parsed = true;
}

-- The loop over the other endpoints; `none` is RS_CLOSE_PEER.
unfoldable pub search_origin : HttpPeer → Endpoint → List ℕ → List Place → Option HttpPeer
unfolding first_i
search_origin peer current origin [] = none
search_origin peer current origin (place ∷ places) =
    let later = search_origin peer current origin places in
    if is_candidate peer current place.endpoint
    then elim (first_i (λ s. equals s origin) 0 place.endpoint.allowed_origins) [
      | none ↦ later
      | some i ↦ some (moved_to peer place i)
    ]
    else later

-- `apps` are the endpoints of the apps.
abbrev pub no_endpoint : Endpoint
no_endpoint = record { url = []; hostname = []; allowed_origins = []; is_encrypted = false }

-- The endpoint that the peer refers to, and those behind it.
abbrev pub current_endpoint : List (List Endpoint) → HttpPeer → Endpoint
current_endpoint apps peer = get_or (get_or apps peer.app_i []) peer.endpoint_i no_endpoint

unfoldable pub other_places : List (List Endpoint) → HttpPeer → List Place
unfolding places_from places_of_app
other_places apps peer =
    places_of_app peer.app_i (peer.endpoint_i + 1)
      (drop (peer.endpoint_i + 1) (get_or apps peer.app_i []))
    ++ places_from (peer.app_i + 1) (drop (peer.app_i + 1) apps)

-- `origin` is the buffer from the origin on.
unfoldable pub match_origin : List (List Endpoint) → HttpPeer → List ℕ → ℕ → Option HttpPeer
unfolding search_origin first_i other_places
match_origin apps peer origin origin_strlen =
    let current = current_endpoint apps peer in
    let elsewhere = search_origin peer current origin (other_places apps peer) in
    if same_bool current.is_encrypted peer.is_encrypted
    then elim (first_i (λ s. starts_as s (take origin_strlen origin)) 0 current.allowed_origins) [
      | none ↦ elsewhere
      | some i ↦ some (record peer { origin_i = i; origin_was_parsed = true })
    ]
    else elsewhere
