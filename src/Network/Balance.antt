-- ===== src/Network/Balance.antt =====
-- What src/network.c opens and allocates against what it closes and frees.
use nacl_proxy.Base.{
  ℕ, ◌+◌, ◌-◌, ◌≡◌, ◌∙◌, refl, sym, ap, inl, inr, Bool, true, false, Option, none, some, ℤ,
  minus_one, int_eq, List, [], ◌∷◌, if◌then◌else◌, Bool-cases, ◌==◌, ltb, not, ◌&&◌, arith,
}
use nacl_proxy.Network.{
  Host, Resolved, gai_failed, resolved, Cache, einprogress, connect_reply, connect_turn,
  connect_to_server, expire, keep_address, connect_resolved, after_cached, try_address,
  network_connect_to_server, set_up, listen_reply, listen_turn, listen_loop, listen_resolved,
  network_get_listen_socket,
}

-- how many descriptors a result stands for
abbrev pub opened : ℤ → ℕ
opened fd = if int_eq minus_one fd then 0 else 1

-- how many lists of addresses a pointer stands for
abbrev pub held : {A : Type 0} → List A → ℕ
held [] = 0
held (a ∷ rest) = 1

abbrev pub yielded : {A : Type 0} → Resolved A → ℕ
yielded gai_failed = 0
yielded (resolved list) = held list

-- What POSIX says of the calls, by two counts of the world: `fds`, the descriptors that are open, and
-- `lists`, the lists of addresses that are allocated. `is_open` says whether a descriptor is open: what
-- `socket` yields is, and -1 is not. `close` lowers the first count if its descriptor is open, and else leaves
-- it as it is. `freeaddrinfo` of NULL does nothing.
pub record Counts {A W : Type 0} (host : Host A W) (fds lists : W → ℕ) : Type 0 where
  pub is_open : ℤ → W → Bool
  pub minus_one_shut : (w : W) → is_open minus_one w ≡ false
  pub socket_open :
      (a : A) (w : W)
      → int_eq minus_one (host.socket a w).0 ≡ false
      → is_open (host.socket a w).0 (host.socket a w).1 ≡ true
  pub connect_open : (fd g : ℤ) (a : A) (w : W) → is_open g (host.connect fd a w).1 ≡ is_open g w
  pub setsockopt_open : (fd g : ℤ) (w : W) → is_open g (host.setsockopt fd w).1 ≡ is_open g w
  pub bind_open : (fd g : ℤ) (a : A) (w : W) → is_open g (host.bind fd a w).1 ≡ is_open g w
  pub listen_open : (fd g : ℤ) (w : W) → is_open g (host.listen fd w).1 ≡ is_open g w
  pub socket_fds : (a : A) (w : W) → fds (host.socket a w).1 ≡ fds w + opened (host.socket a w).0
  pub socket_lists : (a : A) (w : W) → lists (host.socket a w).1 ≡ lists w
  pub connect_fds : (fd : ℤ) (a : A) (w : W) → fds (host.connect fd a w).1 ≡ fds w
  pub connect_lists : (fd : ℤ) (a : A) (w : W) → lists (host.connect fd a w).1 ≡ lists w
  pub setsockopt_fds : (fd : ℤ) (w : W) → fds (host.setsockopt fd w).1 ≡ fds w
  pub setsockopt_lists : (fd : ℤ) (w : W) → lists (host.setsockopt fd w).1 ≡ lists w
  pub bind_fds : (fd : ℤ) (a : A) (w : W) → fds (host.bind fd a w).1 ≡ fds w
  pub bind_lists : (fd : ℤ) (a : A) (w : W) → lists (host.bind fd a w).1 ≡ lists w
  pub listen_fds : (fd : ℤ) (w : W) → fds (host.listen fd w).1 ≡ fds w
  pub listen_lists : (fd : ℤ) (w : W) → lists (host.listen fd w).1 ≡ lists w
  pub close_fds : (fd : ℤ) (w : W) → fds (host.close fd w) ≡ fds w - (if is_open fd w then 1 else 0)
  pub close_lists : (fd : ℤ) (w : W) → lists (host.close fd w) ≡ lists w
  pub free_fds : (l : List A) (w : W) → fds (host.freeaddrinfo l w) ≡ fds w
  pub free_lists : (l : List A) (w : W) → lists (host.freeaddrinfo l w) ≡ lists w - held l
  pub resolve_fds : (w : W) → fds (host.getaddrinfo w).1 ≡ fds w
  pub resolve_lists :
      (w : W) → lists (host.getaddrinfo w).1 ≡ lists w + yielded (host.getaddrinfo w).0

closed :
    {A W : Type 0} (host : Host A W) (fds lists : W → ℕ) (counts : Counts host fds lists) (fd : ℤ)
    (w : W)
    → counts.is_open fd w ≡ true
    → fds (host.close fd w) ≡ fds w - 1
closed host fds lists counts fd w there = rw there at (counts.close_fds fd w)

rebase : {a x y : ℕ} (n : ℕ) → a ≡ x + n → x ≡ y → a ≡ y + n
rebase n e h = e ∙ ap (λ k. k + n) h

module _ {A W : Type 0} (host : Host A W) (fds lists : W → ℕ) (counts : Counts host fds lists) where
  -- A result's descriptor is the only one that was opened on the way from `w`, and no list was freed
  -- or allocated.
  abbrev pub Opens : W → ℤ × W → Type 0
  Opens w r = (fds r.1 ≡ fds w + opened r.0) × (lists r.1 ≡ lists w)

  connect_reply-Opens :
      (next : W → ℤ × W) (w : W) (fd : ℤ) (r : Option ℕ × W)
      → ((w' : W) → Opens w' (next w'))
      → int_eq minus_one fd ≡ false
      → counts.is_open fd r.1 ≡ true
      → fds r.1 ≡ fds w + 1
      → lists r.1 ≡ lists w
      → Opens w (connect_reply host next fd r)
  unfolding connect_reply
  connect_reply-Opens next w fd (none, w') later used there f l = rw used (f, l)
  connect_reply-Opens next w fd (some errno, w') later used there f l =
      elim (Bool-cases (errno == einprogress)) [
        | inl under_way ↦ rw (under_way, used) (f, l)
        | inr failed ↦
            let (f', l') = later (host.close fd w') in
            rw failed (
              rebase _ f' (closed host fds lists counts fd w' there ∙ omega (arith, f)),
              l' ∙ (counts.close_lists fd w' ∙ l),
            )
      ]

  -- the counts after `socket`, by its result
  socket_failed :
      (a : A) (w : W)
      → int_eq minus_one (host.socket a w).0 ≡ true
      → fds (host.socket a w).1 ≡ fds w
  socket_failed a w e = rw e at (counts.socket_fds a w) ∙ omega arith

  socket_made :
      (a : A) (w : W)
      → int_eq minus_one (host.socket a w).0 ≡ false
      → fds (host.socket a w).1 ≡ fds w + 1
  socket_made a w e = rw e at (counts.socket_fds a w)

  pub connect_to_server-Opens : (l : List A) (w : W) → Opens w (connect_to_server host l w)
  unfolding connect_to_server connect_turn
  connect_to_server-Opens [] w = (omega arith, refl)
  connect_to_server-Opens (a ∷ rest) w = elim (Bool-cases (int_eq minus_one (host.socket a w).0)) [
    | inl no_socket ↦
        let (f, l) = connect_to_server-Opens rest (host.socket a w).1 in
        rw no_socket (rebase _ f (socket_failed a w no_socket), l ∙ counts.socket_lists a w)
    | inr used ↦ rw used (
        connect_reply-Opens (connect_to_server host rest) w (host.socket a w).0
          (host.connect (host.socket a w).0 a (host.socket a w).1) (connect_to_server-Opens rest)
          used (counts.connect_open _ _ a _ ∙ counts.socket_open a w used)
          (counts.connect_fds _ a _ ∙ socket_made a w used)
          (counts.connect_lists _ a _ ∙ counts.socket_lists a w))
  ]

  -- What a call makes of the cached address: the lists that are allocated are the cached one and
  -- `others`, and a descriptor that is returned is the only one opened.
  abbrev pub Balanced : ℕ → W → ℤ × Cache A × W → Type 0
  Balanced others w r =
      (fds r.2 ≡ fds w + opened r.0) × (lists r.2 ≡ others + held (Cache.address r.1))

  connect_resolved-Balanced :
      (others : ℕ) (cache : Cache A) (r : Resolved A × W)
      → held (Cache.address cache) ≡ 0
      → lists r.1 ≡ others + yielded r.0
      → Balanced others r.1 (connect_resolved host cache r)
  unfolding connect_resolved keep_address
  connect_resolved-Balanced others cache (gai_failed, w) e l = (omega arith, omega (arith, l, e))
  connect_resolved-Balanced others cache (resolved [], w) e l = (omega arith, omega (arith, l, e))
  connect_resolved-Balanced others cache (resolved (a ∷ rest), w) e l =
      let (f, same) = connect_to_server-Opens (a ∷ rest) w in
      elim (Bool-cases (int_eq minus_one (connect_to_server host (a ∷ rest) w).0)) [
        | inl failed ↦ rw failed (
          counts.free_fds (a ∷ rest) _ ∙ f,
          counts.free_lists (a ∷ rest) _ ∙ omega (arith, same, l, e),
        )
        | inr made ↦ rw made (f, same ∙ l)
      ]

  resolve-Balanced :
      (others : ℕ) (cache : Cache A) (w : W)
      → held (Cache.address cache) ≡ 0
      → lists w ≡ others
      → Balanced others w (connect_resolved host cache (host.getaddrinfo w))
  resolve-Balanced others cache w e l =
      let (f, l') =
        connect_resolved-Balanced others cache (host.getaddrinfo w) e
          (counts.resolve_lists w ∙ ap (λ n. n + yielded (host.getaddrinfo w).0) l) in
      (rebase _ f (counts.resolve_fds w), l')

  -- after an attempt to the cached addresses, from the world `w`
  after_cached-Balanced :
      (others : ℕ) (cache : Cache A) (w : W) (r : ℤ × W)
      → lists w ≡ others + held (Cache.address cache)
      → Opens w r
      → Balanced others w (after_cached host cache r)
  unfolding after_cached
  after_cached-Balanced others cache w (fd, w') l (f, same) =
      elim (Bool-cases (int_eq minus_one fd)) [
        | inr made ↦ rw made (f, same ∙ l)
        | inl failed ↦
            let freed : lists (host.freeaddrinfo (Cache.address cache) w') ≡ others =
              counts.free_lists _ w' ∙ omega (arith, same, l) in
            let none_open : fds (host.freeaddrinfo (Cache.address cache) w') ≡ fds w =
              counts.free_fds _ w' ∙ (rw failed at f ∙ omega arith) in
            let (f', l') = resolve-Balanced others (record cache { address = [] }) _ refl freed in
            rw failed (rebase _ f' none_open, l')
      ]

  try_address-Balanced :
      (others : ℕ) (cache : Cache A) (list : List A) (w : W)
      → list ≡ Cache.address cache
      → lists w ≡ others + held list
      → Balanced others w (try_address host list cache w)
  unfolding try_address
  try_address-Balanced others cache [] w e l =
      resolve-Balanced others cache w (ap held (sym e)) (l ∙ omega arith)
  try_address-Balanced others cache (a ∷ rest) w e l =
      after_cached-Balanced others cache w (connect_to_server host (a ∷ rest) w)
        (l ∙ ap (λ x. others + held x) e) (connect_to_server-Opens (a ∷ rest) w)

  -- If the lists of addresses that are allocated are the cached one and `others` more, they are so
  -- after `network_connect_to_server`: each list is freed once, when it is no longer cached. A
  -- descriptor that it returns is the only one that it leaves open, and with -1 it leaves none. The
  -- calls open, close, allocate and free as POSIX says, and `freeaddrinfo` of NULL does nothing.
  pub network_connect_to_server-Balanced :
      (others : ℕ) (cache : Cache A) (w : W)
      → lists w ≡ others + held (Cache.address cache)
      → Balanced others w (network_connect_to_server host cache w)
  unfolding network_connect_to_server expire
  network_connect_to_server-Balanced others cache w l =
      elim (Bool-cases (
        not (Cache.last_resolution cache == 0)
        && ltb (Cache.last_resolution cache + 300) (host.now w))) [
          | inr recent ↦ rw recent (try_address-Balanced others cache _ w refl l)
          | inl expired ↦
              let (f, l') =
                try_address-Balanced others (record cache { address = [] }) []
                  (host.freeaddrinfo (Cache.address cache) w) refl
                  (counts.free_lists _ w ∙ omega (arith, l)) in
              rw expired (rebase _ f (counts.free_fds _ w), l')
        ]

  listen_reply-Opens :
      (next : W → ℤ × W) (w : W) (fd : ℤ) (r : Bool × W)
      → ((w' : W) → Opens w' (next w'))
      → int_eq minus_one fd ≡ false
      → counts.is_open fd r.1 ≡ true
      → fds r.1 ≡ fds w + 1
      → lists r.1 ≡ lists w
      → Opens w (listen_reply host next fd r)
  unfolding listen_reply
  listen_reply-Opens next w fd (true, w') later used there f l = rw used (f, l)
  listen_reply-Opens next w fd (false, w') later used there f l =
      let (f', l') = later (host.close fd w') in
      (
        rebase _ f' (closed host fds lists counts fd w' there ∙ omega (arith, f)),
        l' ∙ (counts.close_lists fd w' ∙ l),
      )

  set_up_lem :
      (fd : ℤ) (a : A) (w : W)
      → (fds (set_up host fd a w).1 ≡ fds w)
        × (lists (set_up host fd a w).1 ≡ lists w)
        × (counts.is_open fd (set_up host fd a w).1 ≡ counts.is_open fd w)
  unfolding set_up
  set_up_lem fd a w =
      let w1 : W = (host.setsockopt fd w).1 in
      let w2 : W = (host.bind fd a w1).1 in
      let f1 : fds w1 ≡ fds w = counts.setsockopt_fds fd w in
      let l1 : lists w1 ≡ lists w = counts.setsockopt_lists fd w in
      let o1 : counts.is_open fd w1 ≡ counts.is_open fd w = counts.setsockopt_open fd fd w in
      let f2 : fds w2 ≡ fds w = counts.bind_fds fd a w1 ∙ f1 in
      let l2 : lists w2 ≡ lists w = counts.bind_lists fd a w1 ∙ l1 in
      let o2 : counts.is_open fd w2 ≡ counts.is_open fd w = counts.bind_open fd fd a w1 ∙ o1 in
      elim (Bool-cases (host.setsockopt fd w).0) [
        | inr failed ↦ rw failed (f1, l1, o1)
        | inl reuse ↦ rw reuse (elim (Bool-cases (host.bind fd a w1).0) [
          | inr failed ↦ rw failed (f2, l2, o2)
          | inl bound ↦ rw bound (
            counts.listen_fds fd w2 ∙ f2,
            counts.listen_lists fd w2 ∙ l2,
            counts.listen_open fd fd w2 ∙ o2,
          )
        ])
      ]

  listen_loop-Opens : (l : List A) (w : W) → Opens w (listen_loop host l w)
  unfolding listen_loop listen_turn
  listen_loop-Opens [] w = (omega arith, refl)
  listen_loop-Opens (a ∷ rest) w = elim (Bool-cases (int_eq minus_one (host.socket a w).0)) [
    | inl no_socket ↦
        let (f, l) = listen_loop-Opens rest (host.socket a w).1 in
        rw no_socket (rebase _ f (socket_failed a w no_socket), l ∙ counts.socket_lists a w)
    | inr used ↦
        let (f, l, o) = set_up_lem (host.socket a w).0 a (host.socket a w).1 in
        rw used (
          listen_reply-Opens (listen_loop host rest) w (host.socket a w).0
            (set_up host (host.socket a w).0 a (host.socket a w).1) (listen_loop-Opens rest) used
            (o ∙ counts.socket_open a w used) (f ∙ socket_made a w used)
            (l ∙ counts.socket_lists a w))
  ]

  listen_resolved-Opens :
      (w : W) (r : Resolved A × W)
      → fds r.1 ≡ fds w
      → lists r.1 ≡ lists w + yielded r.0
      → Opens w (listen_resolved host r)
  unfolding listen_resolved
  listen_resolved-Opens w (gai_failed, w') f l = (omega (arith, f), omega (arith, l))
  listen_resolved-Opens w (resolved [], w') f l = (omega (arith, f), omega (arith, l))
  listen_resolved-Opens w (resolved (a ∷ rest), w') f l =
      let (f', l') = listen_loop-Opens (a ∷ rest) w' in
      (
        counts.free_fds (a ∷ rest) _ ∙ rebase _ f' f,
        counts.free_lists (a ∷ rest) _ ∙ omega (arith, l', l),
      )

  -- `network_get_listen_socket` frees the list of addresses that it resolves; a descriptor that it
  -- returns is the only one that it leaves open, and with -1 it leaves none. The calls open, close,
  -- allocate and free as POSIX says.
  pub network_get_listen_socket-Opens : (w : W) → Opens w (network_get_listen_socket host w)
  unfolding network_get_listen_socket
  network_get_listen_socket-Opens w =
      listen_resolved-Opens w (host.getaddrinfo w) (counts.resolve_fds w) (counts.resolve_lists w)
