-- ===== src/Tests/Origins.antt =====
-- The origins of upgrade requests.
use ring_socket.Prelude.{ℕ, ◌≡◌, refl, true, false, some, List, [], ◌∷◌, ◌++◌, length}
use ring_socket.Http.{Endpoint, HttpPeer, match_origin}
use ring_socket.Http.Origin.{prefix_allowed}

-- Two endpoints with the URL "a", the second of which allows the origin "cd".
abbrev pub endpoint : List ℕ → Endpoint
endpoint origin = record {
  url = 97 ∷ [];
  hostname = 104 ∷ [];
  allowed_origins = origin ∷ [];
  is_encrypted = true;
}

abbrev pub apps : List (List Endpoint)
apps = (endpoint (98 ∷ 99 ∷ []) ∷ endpoint (99 ∷ 100 ∷ []) ∷ []) ∷ []

abbrev pub peer : HttpPeer
peer = record {
  is_encrypted = true;
  app_i = 0;
  endpoint_i = 0;
  origin_i = 0;
  hostname_was_parsed = true;
  origin_was_parsed = false;
}

prefix_allowed_example :
    (i : ℕ) × (match_origin apps peer ([] ++ (13 ∷ [])) (length {A = ℕ} [])
      ≡ some (record peer { origin_i = i; origin_was_parsed = true }))
prefix_allowed_example = prefix_allowed apps peer [] [] [] (98 ∷ 99 ∷ []) (13 ∷ []) refl refl

abbrev matched : HttpPeer
matched = record peer { endpoint_i = 1; origin_was_parsed = true }
