-- ===== src/Tls/Cert.antt =====
-- rs_tls.c: the certificate for the hostname that a client asks for.
pub mod Wildcard
use ring_socket.Prelude.{
  ℕ, zero, suc, ◌+◌, ◌-◌, Bool, true, false, not, ◌&&◌, ◌||◌, Option, none, some, List, [], ◌∷◌,
  if◌then◌else◌, ◌==◌, ltb, length, take, drop, slice, get_or,
}
use ring_socket.Wire.Bytes.{r_ntoh}
use ring_socket.Http.{starts_as, same_string}

unfoldable pub get_subdomain_depth : List ℕ → ℕ
get_subdomain_depth [] = 0
get_subdomain_depth (c ∷ str) =
    let rest = get_subdomain_depth str in if c == b'.' then suc rest else rest

-- Whether `str` matches: one of a certificate's hostnames, none of whose bytes is 0, and which is not
-- `*` alone; it does as long as the label `next_cert_hostname` is not reached.
unfoldable pub is_match : List ℕ → List ℕ → Bool
unfolding get_subdomain_depth starts_as same_string
is_match str hostname =
    let suffix = drop 2 str in
    if get_or str 0 0 == b'*'
    then not (ltb (length hostname) (length suffix))
      && (get_subdomain_depth suffix == get_subdomain_depth hostname
          && same_string suffix (drop (length hostname - length suffix) hostname))
    else starts_as str hostname

unfoldable pub any_match : List (List ℕ) → List ℕ → Bool
unfolding is_match
any_match [] hostname = false
any_match (str ∷ hostnames) hostname = is_match str hostname || any_match hostnames hostname

-- The certificates, each given by its hostnames, from the number `i` on.
unfoldable pub cert_from : ℕ → List (List (List ℕ)) → List ℕ → Option ℕ
unfolding any_match
cert_from i [] hostname = none
cert_from i (hostnames ∷ certs) hostname =
    let later = cert_from (i + 1) certs hostname in
    if any_match hostnames hostname then some i else later

-- -1 is `none`. A hostname that is NULL is not among the arguments.
unfoldable pub derive_cert_index_from_hostname : ℕ → List (List (List ℕ)) → List ℕ → Option ℕ
unfolding cert_from
derive_cert_index_from_hostname hostname_max_strlen certs hostname =
    if length hostname == 0 || ltb hostname_max_strlen (length hostname)
    then none
    else cert_from 0 certs hostname

-- What the functions of OpenSSL do: the server_name extension, if the client sent one, and whether the
-- context of a certificate is set.
pub record Hello : Type 0 where
  pub server_name : Option (List ℕ)
  pub is_set : ℕ → Bool

-- Behind the label `client_hello_failure` the result is false; the type of a hostname is 0.
unfoldable pub choose_cert : Bool → ℕ → List (List (List ℕ)) → (ℕ → Bool) → List ℕ → Bool
unfolding derive_cert_index_from_hostname
choose_cert little hostname_max_strlen certs is_set p =
    if ltb (length p) 6
    then false
    else if not (r_ntoh little (take 2 p) == length p - 2)
    then false
    else if not (get_or p 2 0 == 0)
    then false
    else if not (r_ntoh little (slice p 3 2) == length p - 5)
    then false
    else elim (derive_cert_index_from_hostname hostname_max_strlen certs (drop 5 p)) [
      | none ↦ false
      | some zero ↦ true
      | some (suc i) ↦ is_set (suc i)
    ]

-- Whether the handshake goes on.
unfoldable pub tls_client_hello_cb : Bool → ℕ → List (List (List ℕ)) → Hello → Bool
unfolding choose_cert
tls_client_hello_cb little hostname_max_strlen certs hello = elim hello.server_name [
  | none ↦ false
  | some p ↦ choose_cert little hostname_max_strlen certs hello.is_set p
]
