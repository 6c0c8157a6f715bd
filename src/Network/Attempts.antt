-- ===== src/Network/Attempts.antt =====
-- Which address `connect_to_server` and `network_connect_to_server` of src/network.c settle on, and what is
-- cached then.
use nacl_proxy.Base.{
  ℕ, ◌+◌, ◌<◌, ◌≡◌, ◌≢◌, refl, sym, ap, ◌⊎◌, inl, inr, false, Option, none, some, ℤ, minus_one,
  int_eq, int_eq_iff, List, [], ◌∷◌, ◌++◌, Bool-cases, ◌==◌, ==_iff, ltb, not, ◌&&◌, arith,
}
use nacl_proxy.Network.{
  Host, Resolved, gai_failed, resolved, Cache, einprogress, time_since_last_resolution_sec,
  connect_reply, connect_turn, connect_to_server, expire, keep_address, connect_resolved,
  after_cached, try_address, network_connect_to_server,
}

module _ {A W : Type 0} (host : Host A W) where
  -- There is no socket for an address, or `connect` fails and the socket is closed.
  pub data Refuses (a : A) (w : W) : W → Type 0 where
    no_socket : (w' : W) → host.socket a w ≡ (minus_one, w') → Refuses a w w'
    refused :
        (fd : ℤ) (w1 w2 : W) (errno : ℕ)
        → host.socket a w ≡ (fd, w1)
        → fd ≢ minus_one
        → host.connect fd a w1 ≡ (some errno, w2)
        → errno ≢ einprogress
        → Refuses a w (host.close fd w2)

  -- `connect` succeeds on the socket of an address, or is under way.
  pub data Accepts (a : A) (w : W) (fd : ℤ) (w' : W) : Type 0 where
    connected :
        (w1 : W) (r : Option ℕ)
        → host.socket a w ≡ (fd, w1)
        → fd ≢ minus_one
        → host.connect fd a w1 ≡ (r, w')
        → (r ≡ none) ⊎ (r ≡ some einprogress)
        → Accepts a w fd w'

  -- every address of a list refuses, one after the other
  pub data AllRefuse : List A → W → W → Type 0 where
    none_left : (w : W) → AllRefuse [] w w
    one_more :
        (a : A) (rest : List A) (w w' w'' : W)
        → Refuses a w w'
        → AllRefuse rest w' w''
        → AllRefuse (a ∷ rest) w w''

  -- the first address of a list that accepts, all before it having refused
  abbrev pub Settles : List A → W → ℤ → W → Type 0
  Settles list w fd w' =
      (front : List A) × (a : A) × (rest : List A) × (w1 : W) × (list ≡ front ++ (a ∷ rest))
      × AllRefuse front w w1
      × Accepts a w1 fd w'

  abbrev pub Tried : List A → W → ℤ × W → Type 0
  Tried list w (fd, w') = Settles list w fd w' ⊎ (fd ≡ minus_one) × AllRefuse list w w'

  later :
      (a : A) (rest : List A) (w w1 : W) (r : ℤ × W)
      → Refuses a w w1
      → Tried rest w1 r
      → Tried (a ∷ rest) w r
  later a rest w w1 (fd, w') refusal (inl (front, b, more, w2, e, all, taker)) =
      inl (a ∷ front, b, more, w2, ap (λ l. a ∷ l) e, one_more a front w w1 w2 refusal all, taker)
  later a rest w w1 (fd, w') refusal (inr (gone, all)) =
      inr (gone, one_more a rest w w1 w' refusal all)

  not_minus_one : (fd : ℤ) → int_eq minus_one fd ≡ false → fd ≢ minus_one
  not_minus_one fd h same = cc ((int_eq_iff minus_one fd).1 (sym same))

  accepted : (a : A) (w : W) (fd : ℤ) (w' : W) → Accepts a w fd w' → int_eq minus_one fd ≡ false
  accepted a w fd w' (connected w1 r made used e taker) = elim (Bool-cases (int_eq minus_one fd)) [
    | inr other ↦ other
    | inl gone ↦ absurd (used (sym ((int_eq_iff minus_one fd).0 gone)))
  ]

  connect_reply-Tried :
      (a : A) (rest : List A) (w : W) (fd : ℤ) (w1 : W)
      → host.socket a w ≡ (fd, w1)
      → fd ≢ minus_one
      → ((w' : W) → Tried rest w' (connect_to_server host rest w'))
      → (r : Option ℕ × W) → host.connect fd a w1 ≡ r
      → Tried (a ∷ rest) w (connect_reply host (connect_to_server host rest) fd r)
  unfolding connect_reply
  connect_reply-Tried a rest w fd w1 made used next (none, w2) e =
      inl ([], a, rest, w, refl, none_left w, connected w1 none made used e (inl refl))
  connect_reply-Tried a rest w fd w1 made used next (some errno, w2) e =
      elim (Bool-cases (errno == einprogress)) [
        | inl way ↦
            let same : errno ≡ einprogress = (==_iff errno einprogress).0 way in
            rw way (
              inl (
                [],
                a,
                rest,
                w,
                refl,
                none_left w,
                connected w1 (some errno) made used e (inr (ap some same)),
              ))
        | inr failed ↦ rw failed (
            later a rest w (host.close fd w2) _
              (refused fd w1 w2 errno made used e λ same. cc ((==_iff errno einprogress).1 same))
              (next (host.close fd w2)))
      ]

  connect_turn-Tried :
      (a : A) (rest : List A) (w : W)
      → ((w' : W) → Tried rest w' (connect_to_server host rest w'))
      → (s : ℤ × W) → host.socket a w ≡ s
      → Tried (a ∷ rest) w (connect_turn host (connect_to_server host rest) a s)
  unfolding connect_turn
  connect_turn-Tried a rest w next (fd, w1) e = elim (Bool-cases (int_eq minus_one fd)) [
    | inl gone ↦
        let same : minus_one ≡ fd = (int_eq_iff minus_one fd).0 gone in
        rw gone (later a rest w w1 _ (no_socket w1 (rw (← same) at e)) (next w1))
    | inr made ↦ rw made (connect_reply-Tried a rest w fd w1 e (not_minus_one fd made) next _ refl)
  ]

  connect_to_server-Tried : (list : List A) (w : W) → Tried list w (connect_to_server host list w)
  unfolding connect_to_server
  connect_to_server-Tried [] w = inr (refl, none_left w)
  connect_to_server-Tried (a ∷ rest) w =
      connect_turn-Tried a rest w (connect_to_server-Tried rest) (host.socket a w) refl

  abbrev pub emptied : Cache A → Cache A
  emptied cache = record cache { address = [] }

  -- The address of the server is resolved: it is cached if one of its addresses accepts, and freed if not.
  pub data Resolves (cache : Cache A) (w : W) : ℤ × Cache A × W → Type 0 where
    none_found :
        (r : Resolved A) (w' : W)
        → host.getaddrinfo w ≡ (r, w')
        → (r ≡ gai_failed) ⊎ (r ≡ resolved [])
        → Resolves cache w (minus_one, emptied cache, w')
    settled :
        (list : List A) (w1 : W) (fd : ℤ) (w' : W)
        → host.getaddrinfo w ≡ (resolved list, w1)
        → Settles list w1 fd w'
        → Resolves cache w (fd, record cache { address = list }, w')
    all_refused :
        (list : List A) (w1 w2 : W)
        → host.getaddrinfo w ≡ (resolved list, w1)
        → AllRefuse list w1 w2
        → Resolves cache w (minus_one, emptied cache, host.freeaddrinfo list w2)

  abbrev pub IsExpired : Cache A → W → Type 0
  IsExpired cache w =
      (cache.last_resolution ≢ 0)
      × (cache.last_resolution + time_since_last_resolution_sec < host.now w)

  -- What a call for the address of the server does. Cached addresses that have not expired are tried first;
  -- the address is resolved again if there are none or they all refuse.
  pub data Connects (cache : Cache A) (w : W) : ℤ × Cache A × W → Type 0 where
    from_cache :
        (fd : ℤ) (w' : W)
        → ¬ IsExpired cache w
        → Settles cache.address w fd w'
        → Connects cache w (fd, record cache { last_resolution = host.now w' }, w')
    given_up :
        (w1 : W) (r : ℤ × Cache A × W)
        → ¬ IsExpired cache w
        → cache.address ≢ []
        → AllRefuse cache.address w w1
        → Resolves cache (host.freeaddrinfo cache.address w1) r
        → Connects cache w r
    none_cached :
        (r : ℤ × Cache A × W)
        → ¬ IsExpired cache w
        → cache.address ≡ []
        → Resolves cache w r
        → Connects cache w r
    expired :
        (r : ℤ × Cache A × W)
        → IsExpired cache w
        → Resolves cache (host.freeaddrinfo cache.address w) r
        → Connects cache w r

  keep_address-Resolves :
      (list : List A) (cache : Cache A) (w w1 : W) (r : ℤ × W)
      → host.getaddrinfo w ≡ (resolved list, w1)
      → Tried list w1 r
      → Resolves cache w (keep_address host list (emptied cache) r)
  unfolding keep_address
  keep_address-Resolves list cache w w1 (fd, w') e (inl (front, a, rest, w2, l, all, taker)) =
      let used : int_eq minus_one fd ≡ false = accepted a w2 fd w' taker in
      rw used (settled list w1 fd w' e (front, a, rest, w2, l, all, taker))
  keep_address-Resolves list cache w w1 (fd, w') e (inr (gone, all)) =
      rw gone (all_refused list w1 w' e all)

  connect_resolved-Resolves :
      (cache : Cache A) (w : W) (r : Resolved A × W)
      → host.getaddrinfo w ≡ r
      → Resolves cache w (connect_resolved host (emptied cache) r)
  unfolding connect_resolved
  connect_resolved-Resolves cache w (gai_failed, w') e = none_found gai_failed w' e (inl refl)
  connect_resolved-Resolves cache w (resolved [], w') e = none_found (resolved []) w' e (inr refl)
  connect_resolved-Resolves cache w (resolved (a ∷ rest), w') e =
      keep_address-Resolves (a ∷ rest) cache w w' _ e (connect_to_server-Tried (a ∷ rest) w')

  after_cached-Connects :
      (cache : Cache A) (w : W) (r : ℤ × W)
      → ¬ IsExpired cache w
      → cache.address ≢ []
      → Tried cache.address w r
      → Connects cache w (after_cached host cache r)
  unfolding after_cached
  after_cached-Connects cache w (fd, w') fresh some_there
        (inl (front, a, rest, w2, l, all, taker)) =
      let used : int_eq minus_one fd ≡ false = accepted a w2 fd w' taker in
      rw used (from_cache fd w' fresh (front, a, rest, w2, l, all, taker))
  after_cached-Connects cache w (fd, w') fresh some_there (inr (gone, all)) =
      rw gone (given_up w' _ fresh some_there all (connect_resolved-Resolves cache _ _ refl))

  try_address-Connects :
      (cache : Cache A) (list : List A) (w : W)
      → cache.address ≡ list
      → ¬ IsExpired cache w
      → Connects cache w (try_address host list cache w)
  unfolding try_address
  try_address-Connects cache [] w e fresh =
      let same : emptied cache ≡ cache = ap (λ l. record cache { address = l }) (sym e) in
      let there : connect_resolved host (emptied cache) (host.getaddrinfo w)
          ≡ connect_resolved host cache (host.getaddrinfo w) =
        ap (λ c. connect_resolved host c (host.getaddrinfo w)) same in
      let found : Resolves cache w (connect_resolved host cache (host.getaddrinfo w)) =
        rw (← there) (connect_resolved-Resolves cache w (host.getaddrinfo w) refl) in
      none_cached _ fresh e found
  try_address-Connects cache (a ∷ rest) w e fresh =
      after_cached-Connects cache w (connect_to_server host (a ∷ rest) w) fresh (λ none_there. cc)
        (rw e (connect_to_server-Tried (a ∷ rest) w))

  -- A call of `network_connect_to_server` tries the cached addresses if they have not expired, and resolves
  -- the address of the server if there are none, they have expired, or all of them refuse. It returns the
  -- descriptor of the first address that accepts, and the list with that address is cached then, with the
  -- time of use if it was cached before; if none accepts it returns -1 and nothing is cached.
  pub network_connect_to_server-Connects :
      (cache : Cache A) (w : W) → Connects cache w (network_connect_to_server host cache w)
  unfolding network_connect_to_server expire
  network_connect_to_server-Connects cache w =
      elim (Bool-cases (
        not (cache.last_resolution == 0)
        && ltb (cache.last_resolution + time_since_last_resolution_sec) (host.now w))) [
          | inr recent ↦ rw recent (
              try_address-Connects cache cache.address w refl
                λ (used, old). ground (arith, recent, used, old))
          | inl old ↦ rw old (
              expired _ (λ z. ground (arith, old, z), ground (arith, old))
                (connect_resolved-Resolves cache _ _ refl))
        ]
