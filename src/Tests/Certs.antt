-- ===== src/Tests/Certs.antt =====
-- Certificates, and the endpoints of upgrade requests.
use ring_socket.Prelude.{ℕ, ◌≡◌, refl, none, some, List, [], ◌∷◌, ◌++◌, arith}
use ring_socket.Http.{starts_as, same_string, places_from, places_of_app, other_places}
use ring_socket.Http.Match.{match_url, find_place}
use ring_socket.Http.Match.First.{Matched, match_url_lem}
use ring_socket.Tls.Cert.{get_subdomain_depth, derive_cert_index_from_hostname}
use ring_socket.Tls.Cert.Wildcard.{wildcard, wildcard_lem}
use ring_socket.Tests.Origins.{endpoint, apps, peer}

-- "x.com" has a certificate for "*.x.com".
abbrev domain : List ℕ
domain = 120 ∷ 46 ∷ 99 ∷ 111 ∷ 109 ∷ []

wildcard_lem_example :
    (derive_cert_index_from_hostname 20 ((wildcard domain ∷ []) ∷ []) ((97 ∷ []) ++ (46 ∷ domain))
      ≡ none)
    × (derive_cert_index_from_hostname 20 ((wildcard domain ∷ []) ∷ []) ((98 ∷ []) ++ domain)
        ≡ some 0)
unfolding get_subdomain_depth
wildcard_lem_example =
    wildcard_lem 20 (97 ∷ []) (98 ∷ []) domain refl (omega arith) (omega arith) (omega arith)

-- The request for "/a" comes to an endpoint with the URL "a", which does not match.
match_url_lem_example : Matched apps peer (47 ∷ 97 ∷ []) (match_url apps peer (47 ∷ 97 ∷ []))
match_url_lem_example = match_url_lem apps peer (47 ∷ 97 ∷ [])

moved :
    match_url ((endpoint [] ∷ record (endpoint []) { url = 98 ∷ [] } ∷ []) ∷ []) peer (98 ∷ [])
    ≡ some (record peer { endpoint_i = 1 })
unfolding match_url find_place other_places places_from places_of_app starts_as same_string
moved = refl
