-- ===== src/Http/Match/First.antt =====
-- The endpoint that the URL of an upgrade request matches.
use ring_socket.Prelude.{
  ℕ, zero, suc, ◌+◌, ◌-◌, ◌<◌, ◌≡◌, ◌⊎◌, inl, inr, refl, sym, ap, ◌∙◌, Bool, true, false, Option,
  none, some, List, [], ◌∷◌, ◌++◌, arith, get_elem?, get_or, drop, Bool-cases,
}
use ring_socket.Http.{
  starts_as, same_string, same_bool, Endpoint, HttpPeer, Place, places_of_app, places_from,
  current_endpoint, other_places,
}
use ring_socket.Http.Origin.{same_string_lem, and_split, not_and}
use ring_socket.Http.Match.{find_place, is_url_place, matches_at, match_url}

-- The endpoint number `i` of the app number `a`.
abbrev pub endpoint_at : List (List Endpoint) → ℕ → ℕ → Option Endpoint
endpoint_at apps a i = get_elem? (get_or apps a []) i

-- One endpoint comes before another, in the order of the apps and of their endpoints.
abbrev pub Before : ℕ → ℕ → ℕ → ℕ → Type 0
Before a i b j = ((a ≡ b) × (i < j)) ⊎ (a < b)

-- An endpoint that the URL and the encryption of the peer match and that, once the hostname was
-- parsed, has the same hostname as the current one.
pub record Suits (peer : HttpPeer) (url : List ℕ) (current e : Endpoint) : Type 0 where
  pub same_url : starts_as e.url url ≡ true
  pub same_tls : e.is_encrypted ≡ peer.is_encrypted
  pub same_hostname : peer.hostname_was_parsed ≡ true → e.hostname ≡ current.hostname

-- The current endpoint is not tested for its hostname.
pub record SuitsHere (peer : HttpPeer) (url : List ℕ) (current : Endpoint) : Type 0 where
  pub same_url : starts_as current.url url ≡ true
  pub same_tls : current.is_encrypted ≡ peer.is_encrypted

-- The first endpoint behind that of the peer to suit.
pub record First (apps : List (List Endpoint)) (peer : HttpPeer) (url : List ℕ) (a i : ℕ)
    (e : Endpoint) : Type 0 where
  pub here : endpoint_at apps a i ≡ some e
  pub behind : Before peer.app_i peer.endpoint_i a i
  pub suits : Suits peer url (current_endpoint apps peer) e
  pub earlier :
      (b j : ℕ) (f : Endpoint)
      → endpoint_at apps b j ≡ some f
      → Before peer.app_i peer.endpoint_i b j
      → Before b j a i
      → ¬ Suits peer url (current_endpoint apps peer) f

-- The peer stays where it is; or goes to the first endpoint behind its own that suits; or there is
-- none, and it is refused.
abbrev pub Matched : List (List Endpoint) → HttpPeer → List ℕ → Option HttpPeer → Type 0
Matched apps peer url result =
    (SuitsHere peer url (current_endpoint apps peer) × (result ≡ some peer))
    ⊎ ((¬ SuitsHere peer url (current_endpoint apps peer))
        × (((a : ℕ) × (i : ℕ) × (e : Endpoint) × First apps peer url a i e
              × (result ≡ some (record peer { app_i = a; endpoint_i = i })))
            ⊎ (((a i : ℕ) (e : Endpoint)
                  → endpoint_at apps a i ≡ some e
                  → Before peer.app_i peer.endpoint_i a i
                  → ¬ Suits peer url (current_endpoint apps peer) e)
                × (result ≡ none))))

abbrev place_at : ℕ → ℕ → Endpoint → Place
place_at a i e = record { app_i = a; endpoint_i = i; endpoint = e }

same_bool_lem : (a b : Bool) → same_bool a b ≡ true → a ≡ b
same_bool_lem true true h = refl
same_bool_lem true false h = absurd cc
same_bool_lem false true h = absurd cc
same_bool_lem false false h = refl

same_bool_refl : (b : Bool) → same_bool b b ≡ true
same_bool_refl true = refl
same_bool_refl false = refl

string_refl : (xs : List ℕ) → same_string xs xs ≡ true
unfolding same_string
string_refl [] = refl
string_refl (x ∷ xs) = ground (arith, string_refl xs)

module _ (test : Endpoint → Bool) where
  -- No endpoint of the list passes the test, up to the number `n`.
  abbrev NoneBelow : List Endpoint → ℕ → Type 0
  NoneBelow es n = (m : ℕ) (f : Endpoint) → m < n → get_elem? es m ≡ some f → test f ≡ false

  abbrev NoneOf : List Endpoint → Type 0
  NoneOf es = (m : ℕ) (f : Endpoint) → get_elem? es m ≡ some f → test f ≡ false

  -- What a search gives that begins with the endpoints of app `a` from the number `i` on.
  abbrev InApp : ℕ → ℕ → List Endpoint → Option Place → Option Place → Type 0
  InApp a i es later result =
      ((m : ℕ) × (e : Endpoint) × (get_elem? es m ≡ some e)
        × (test e ≡ true)
        × NoneBelow es m
        × (result ≡ some (place_at a (i + m) e)))
      ⊎ (NoneOf es × (result ≡ later))

  head_fails : (x f : Endpoint) → some x ≡ some f → test x ≡ false → test f ≡ false
  head_fails x f at e = ap (λ o. elim o [ none ↦ false | some g ↦ test g ]) (sym at) ∙ e

  in_app :
      (a i : ℕ) (es : List Endpoint) (ps : List Place)
      → InApp a i es (find_place test ps) (find_place test (places_of_app a i es ++ ps))
  unfolding find_place places_of_app
  in_app a i [] ps = inr ((λ m f at. absurd cc), refl)
  in_app a i (x ∷ es) ps = elim (Bool-cases (test x)) [
    | inl passes ↦ inl (
      0,
      x,
      refl,
      passes,
      (λ m f less at. absurd (omega arith)),
      rw passes (ap (λ n. some (place_at a n x)) (omega arith)),
    )
    | inr fails ↦ rw fails (elim (in_app a (i + 1) es ps) [
      | inl (m, e, at, passes, below, done) ↦ inl (
        suc m,
        e,
        at,
        passes,
        below_suc m fails below,
        done ∙ ap (λ n. some (place_at a n e)) (omega arith),
      )
      | inr (no_one, done) ↦ inr (no_one_more fails no_one, done)
    ])
  ]
    where
      below_suc : (n : ℕ) → test x ≡ false → NoneBelow es n → NoneBelow (x ∷ es) (suc n)
      below_suc n fails below zero f less at = head_fails x f at fails
      below_suc n fails below (suc m) f less at = below m f (omega arith) at

      no_one_more : test x ≡ false → NoneOf es → NoneOf (x ∷ es)
      no_one_more fails no_one zero f at = head_fails x f at fails
      no_one_more fails no_one (suc m) f at = no_one m f at

  -- What a search of the apps from the number `a` on gives.
  abbrev InApps : ℕ → List (List Endpoint) → Option Place → Type 0
  InApps a apps result =
      ((c : ℕ) × (m : ℕ) × (e : Endpoint) × (endpoint_at apps c m ≡ some e)
        × (test e ≡ true)
        × NoneBelow (get_or apps c []) m
        × ((b : ℕ) → b < c → NoneOf (get_or apps b []))
        × (result ≡ some (place_at (a + c) m e)))
      ⊎ (((b : ℕ) → NoneOf (get_or apps b [])) × (result ≡ none))

  in_apps :
      (a : ℕ) (apps : List (List Endpoint)) → InApps a apps (find_place test (places_from a apps))
  unfolding find_place places_from
  in_apps a [] = inr ((λ b m f at. absurd cc), refl)
  in_apps a (es ∷ apps) = elim (in_app a 0 es (places_from (a + 1) apps)) [
    | inl (m, e, at, passes, below, done) ↦ inl (
      0,
      m,
      e,
      at,
      passes,
      below,
      (λ b less. absurd (omega arith)),
      done
          ∙ ap (λ n. some (place_at a n e)) (omega arith)
          ∙ ap (λ n. some (place_at n m e)) (omega arith),
    )
    | inr (no_one, same) ↦ elim (in_apps (a + 1) apps) [
      | inl (c, m, e, at, passes, below, before, done) ↦ inl (
        suc c,
        m,
        e,
        at,
        passes,
        below,
        up_to c no_one before,
        same ∙ done ∙ ap (λ n. some (place_at n m e)) (omega arith),
      )
      | inr (none_later, done) ↦ inr (all_of no_one none_later, same ∙ done)
    ]
  ]
    where
      up_to :
          (c : ℕ)
          → NoneOf es
          → ((b : ℕ) → b < c → NoneOf (get_or apps b []))
          → (b : ℕ) → b < suc c
          → NoneOf (get_or (es ∷ apps) b [])
      up_to c no_one before zero less = no_one
      up_to c no_one before (suc b) less = before b (omega arith)

      all_of :
          NoneOf es
          → ((b : ℕ) → NoneOf (get_or apps b []))
          → (b : ℕ) → NoneOf (get_or (es ∷ apps) b [])
      all_of no_one later zero = no_one
      all_of no_one later (suc b) = later b

get_elem?-drop : (xs : List Endpoint) (n m : ℕ) → get_elem? (drop n xs) m ≡ get_elem? xs (n + m)
get_elem?-drop xs zero m = ap (get_elem? xs) (omega arith)
get_elem?-drop [] (suc n) m = refl
get_elem?-drop (x ∷ xs) (suc n) m =
    let e : suc (n + m) ≡ suc n + m = omega arith in
    get_elem?-drop xs n m ∙ ap (get_elem? (x ∷ xs)) e

get_or-drop : (xs : List (List Endpoint)) (n m : ℕ) → get_or (drop n xs) m [] ≡ get_or xs (n + m) []
get_or-drop xs zero m = ap (λ k. get_or xs k []) (omega arith)
get_or-drop [] (suc n) m = refl
get_or-drop (x ∷ xs) (suc n) m =
    let e : suc (n + m) ≡ suc n + m = omega arith in
    get_or-drop xs n m ∙ ap (λ k. get_or (x ∷ xs) k []) e

module _ (apps : List (List Endpoint)) (peer : HttpPeer) (url : List ℕ) where
  current : Endpoint
  current = current_endpoint apps peer

  test : Endpoint → Bool
  test = is_url_place peer (current_endpoint apps peer) url

  test-Suits : (e : Endpoint) → test e ≡ true → Suits peer url (current_endpoint apps peer) e
  unfolding test
  test-Suits e h =
      let c = current_endpoint apps peer in
      let (both, host) = and_split (matches_at peer e.url url e) _ h in
      let (u, tls) =
        and_split (starts_as e.url url) (same_bool e.is_encrypted peer.is_encrypted) both in
      record {
        same_url = u;
        same_tls = same_bool_lem e.is_encrypted peer.is_encrypted tls;
        same_hostname = λ parsed.
            same_string_lem e.hostname c.hostname
              (not_and peer.hostname_was_parsed (same_string e.hostname c.hostname) host parsed);
      }

  not_Suits : (e : Endpoint) → test e ≡ false → ¬ Suits peer url (current_endpoint apps peer) e
  unfolding test
  not_Suits e h s =
      let c = current_endpoint apps peer in
      let tls : same_bool e.is_encrypted peer.is_encrypted ≡ true =
        ap (λ b. same_bool b peer.is_encrypted) s.same_tls ∙ same_bool_refl peer.is_encrypted in
      elim (Bool-cases peer.hostname_was_parsed) [
        | inl parsed ↦
            let host : same_string e.hostname c.hostname ≡ true =
              ap (λ t. same_string t c.hostname) (s.same_hostname parsed)
              ∙ string_refl c.hostname in
            absurd (let broken : true ≡ false = rw (s.same_url, tls, parsed, host) at h in cc)
        | inr unparsed ↦
            absurd (let broken : true ≡ false = rw (s.same_url, tls, unparsed) at h in cc)
      ]

  -- An endpoint behind that of the peer is in the list that is searched.
  at_here :
      (j : ℕ) (f : Endpoint)
      → peer.endpoint_i < j
      → endpoint_at apps peer.app_i j ≡ some f
      → get_elem?
          (drop (peer.endpoint_i + 1) (get_or apps peer.app_i []))
          (j - (peer.endpoint_i + 1))
        ≡ some f
  at_here j f h at =
      get_elem?-drop (get_or apps peer.app_i []) (peer.endpoint_i + 1) (j - (peer.endpoint_i + 1))
      ∙ ap (get_elem? (get_or apps peer.app_i [])) (omega arith)
      ∙ at

  at_later :
      (b j : ℕ) (f : Endpoint)
      → peer.app_i < b
      → endpoint_at apps b j ≡ some f
      → endpoint_at (drop (peer.app_i + 1) apps) (b - (peer.app_i + 1)) j ≡ some f
  at_later b j f h at =
      ap (λ es. get_elem? es j)
        (get_or-drop apps (peer.app_i + 1) (b - (peer.app_i + 1))
          ∙ ap (λ k. get_or apps k []) (omega arith))
      ∙ at

  abbrev Elsewhere : Option Place → Type 0
  Elsewhere found =
      ((a : ℕ) × (i : ℕ) × (e : Endpoint) × First apps peer url a i e
        × (found ≡ some (place_at a i e)))
      ⊎ (((a i : ℕ) (e : Endpoint)
            → endpoint_at apps a i ≡ some e
            → Before peer.app_i peer.endpoint_i a i
            → ¬ Suits peer url (current_endpoint apps peer) e)
          × (found ≡ none))

  elsewhere : Elsewhere (find_place test (other_places apps peer))
  unfolding other_places
  elsewhere =
      elim (in_app test peer.app_i (peer.endpoint_i + 1)
        (drop (peer.endpoint_i + 1) (get_or apps peer.app_i []))
        (places_from (peer.app_i + 1) (drop (peer.app_i + 1) apps))) [
          | inl (m, e, at, passes, below, done) ↦ inl (
            peer.app_i,
            peer.endpoint_i + 1 + m,
            e,
            record {
              here = sym (get_elem?-drop (get_or apps peer.app_i []) (peer.endpoint_i + 1) m) ∙ at;
              behind = inl (refl, omega arith);
              suits = test-Suits e passes;
              earlier = λ b j f there behind before. elim behind [
                | inl (same, less) ↦ elim before [
                  | inl (same', less') ↦ not_Suits f (
                      below (j - (peer.endpoint_i + 1)) f (omega arith)
                        (at_here j f less (ap (λ k. endpoint_at apps k j) same ∙ there)))
                  | inr less' ↦ absurd (omega arith)
                ]
                | inr less ↦ elim before [
                  | inl (same', less') ↦ absurd (omega arith)
                  | inr less' ↦ absurd (omega arith)
                ]
              ];
            },
            done,
          )
          | inr (no_one, later) ↦
              elim (in_apps test (peer.app_i + 1) (drop (peer.app_i + 1) apps)) [
                | inl (c, m, e, at, passes, below, before_c, done) ↦ inl (
                  peer.app_i + 1 + c,
                  m,
                  e,
                  record {
                    here =
                        ap (λ es. get_elem? es m) (sym (get_or-drop apps (peer.app_i + 1) c)) ∙ at;
                    behind = inr (omega arith);
                    suits = test-Suits e passes;
                    earlier = λ b j f there behind before. elim behind [
                      | inl (same, less) ↦ not_Suits f (
                          no_one (j - (peer.endpoint_i + 1)) f
                            (at_here j f less (ap (λ k. endpoint_at apps k j) same ∙ there)))
                      | inr less ↦ elim before [
                        | inl (same', less') ↦
                            let at_c : b - (peer.app_i + 1) ≡ c = omega arith in
                            not_Suits f (
                              below j f less' (
                                ap (λ k. endpoint_at (drop (peer.app_i + 1) apps) k j) (sym at_c)
                                ∙ at_later b j f less there))
                        | inr less' ↦ not_Suits f (
                            before_c (b - (peer.app_i + 1)) (omega arith) j f
                              (at_later b j f less there))
                      ]
                    ];
                  },
                  later ∙ done,
                )
                | inr (none_later, done) ↦ inr (
                  (λ b j f there behind. elim behind [
                    | inl (same, less) ↦ not_Suits f (
                        no_one (j - (peer.endpoint_i + 1)) f
                          (at_here j f less (ap (λ k. endpoint_at apps k j) same ∙ there)))
                    | inr less ↦
                        not_Suits f
                          (none_later (b - (peer.app_i + 1)) j f (at_later b j f less there))
                  ]),
                  later ∙ done,
                )
              ]
        ]

  -- A request leaves its peer as it is if the URL of the peer's current endpoint begins with that of
  -- the request and the endpoint is encrypted as the peer is. Otherwise the peer is put at the first
  -- endpoint behind its own, in the order of the apps and of their endpoints, of which both hold and
  -- which, if the hostname was parsed, has the hostname of the current endpoint; nothing else of the
  -- peer changes. If there is no such endpoint, the peer is refused.
  pub match_url_lem : Matched apps peer url (match_url apps peer url)
  unfolding match_url test
  match_url_lem =
      let c = current_endpoint apps peer in
      elim (Bool-cases (matches_at peer c.url url c)) [
        | inl here ↦
            let (u, tls) = and_split (starts_as c.url url) _ here in
            inl (
              record {
                same_url = u;
                same_tls = same_bool_lem c.is_encrypted peer.is_encrypted tls;
              },
              rw (match_url, here) refl,
            )
        | inr away ↦ inr (
          not_here away,
          elim elsewhere [
            | inl (a, i, e, first, found) ↦ inl (a, i, e, first, rw (match_url, away, found) refl)
            | inr (no_one, found) ↦ inr (no_one, rw (match_url, away, found) refl)
          ],
        )
      ]
    where
      not_here :
          matches_at peer (current_endpoint apps peer).url url (current_endpoint apps peer) ≡ false
          → ¬ SuitsHere peer url (current_endpoint apps peer)
      not_here away s =
          let tls : same_bool (current_endpoint apps peer).is_encrypted peer.is_encrypted ≡ true =
            ap (λ b. same_bool b peer.is_encrypted) s.same_tls ∙ same_bool_refl peer.is_encrypted in
          absurd (let broken : true ≡ false = rw (s.same_url, tls) at away in cc)
