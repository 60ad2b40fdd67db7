-- ===== src/Tls/Cert/Wildcard.antt =====
-- Certificates with a wildcard.
use ring_socket.Prelude.{
  ℕ, suc, ◌+◌, ◌-◌, ◌≤◌, ◌<◌, ◌≡◌, refl, ap, ◌∙◌, Bool, true, false, none, some, List, [], ◌∷◌,
  ◌++◌, arith, if◌then◌else◌, ◌==◌, ltb, length, drop, length-append, drop-append,
}
use ring_socket.Http.{same_string}
use ring_socket.Tls.Cert.{
  get_subdomain_depth, is_match, any_match, cert_from, derive_cert_index_from_hostname,
}

depth-append :
    (xs ys : List ℕ)
    → get_subdomain_depth (xs ++ ys) ≡ get_subdomain_depth xs + get_subdomain_depth ys
unfolding get_subdomain_depth
depth-append [] ys = omega arith
depth-append (x ∷ xs) ys = ground (arith, depth-append xs ys)

same_string_refl : (xs : List ℕ) → same_string xs xs ≡ true
unfolding same_string
same_string_refl [] = refl
same_string_refl (x ∷ xs) = ground (arith, same_string_refl xs)

-- The name `*.` in front of a domain.
abbrev pub wildcard : List ℕ → List ℕ
wildcard domain = b'*' ∷ b'.' ∷ domain

below_lem : (sub domain : List ℕ) → is_match (wildcard domain) (sub ++ b'.' ∷ domain) ≡ false
unfolding is_match
below_lem sub domain =
    let deeper : get_subdomain_depth (sub ++ b'.' ∷ domain)
        ≡ get_subdomain_depth sub + suc (get_subdomain_depth domain) =
      depth-append sub (b'.' ∷ domain) ∙ refl in
    ground (arith, deeper)

beside_lem :
    (label domain : List ℕ)
    → get_subdomain_depth label ≡ 0
    → is_match (wildcard domain) (label ++ domain) ≡ true
unfolding is_match
beside_lem label domain h =
    let same : get_subdomain_depth (label ++ domain) ≡ get_subdomain_depth domain =
      depth-append label domain ∙ ap (λ n. n + get_subdomain_depth domain) h ∙ omega arith in
    let size = length-append label domain in
    let rest : drop (length (label ++ domain) - length domain) (label ++ domain) ≡ domain =
      drop-append label domain (length (label ++ domain) - length domain) (omega (arith, size)) in
    let enough : ltb (length (label ++ domain)) (length domain) ≡ false = ground (arith, size) in
    let level : (get_subdomain_depth domain == get_subdomain_depth (label ++ domain)) ≡ true =
      ground (arith, same) in
    rw (is_match, enough, level, rest, same_string_refl domain) refl

-- The certificate that there is, for a hostname that matches one of its names or none.
only_lem :
    (hostname_max_strlen : ℕ) (str hostname : List ℕ) (b : Bool)
    → is_match str hostname ≡ b
    → 0 < length hostname
    → length hostname ≤ hostname_max_strlen
    → derive_cert_index_from_hostname hostname_max_strlen ((str ∷ []) ∷ []) hostname
      ≡ (if b then some 0 else none)
unfolding derive_cert_index_from_hostname cert_from any_match
only_lem hostname_max_strlen str hostname b e pos fits =
    let here : (length hostname == 0) ≡ false = ground arith in
    let short : ltb hostname_max_strlen (length hostname) ≡ false = ground arith in
    go b e here short
  where
    go :
        (c : Bool)
        → is_match str hostname ≡ c
        → (length hostname == 0) ≡ false
        → ltb hostname_max_strlen (length hostname) ≡ false
        → derive_cert_index_from_hostname hostname_max_strlen ((str ∷ []) ∷ []) hostname
          ≡ (if c then some 0 else none)
    go true e here short =
        rw (derive_cert_index_from_hostname, here, short, cert_from, any_match, e) refl
    go false e here short =
        rw (derive_cert_index_from_hostname, here, short, cert_from, any_match, e) refl

-- The only certificate there is, for `*.` and a domain, is found for no hostname below the domain,
-- whatever stands in front of the dot; but it is found for the domain itself, and for each hostname
-- that is made of it by putting bytes without a dot directly in front. The domain is not empty, and
-- the hostnames are not longer than the longest one configured.
pub wildcard_lem :
    (hostname_max_strlen : ℕ) (sub label domain : List ℕ)
    → get_subdomain_depth label ≡ 0
    → 0 < length domain
    → length (sub ++ b'.' ∷ domain) ≤ hostname_max_strlen
    → length (label ++ domain) ≤ hostname_max_strlen
    → (derive_cert_index_from_hostname hostname_max_strlen
          ((wildcard domain ∷ []) ∷ [])
          (sub ++ b'.' ∷ domain)
        ≡ none)
      × (derive_cert_index_from_hostname hostname_max_strlen
            ((wildcard domain ∷ []) ∷ [])
            (label ++ domain)
          ≡ some 0)
wildcard_lem hostname_max_strlen sub label domain h pos fits fits' = (
  only_lem hostname_max_strlen (wildcard domain) (sub ++ b'.' ∷ domain) false (below_lem sub domain)
      (omega (arith, length-append sub (b'.' ∷ domain))) fits,
  only_lem hostname_max_strlen (wildcard domain) (label ++ domain) true (beside_lem label domain h)
      (omega (arith, length-append label domain)) fits',
)
