-- ===== src/Network.antt =====
-- src/network.c: sockets for the listener and for the server, and the cached address of the server.
-- A list of addresses that `getaddrinfo` yields is a list, NULL the empty one. The system is a
-- parameter; times are the seconds of the monotonic clock.
pub mod Attempts
pub mod Balance
pub mod Tests
use nacl_proxy.Base.{
  ℕ, ◌+◌, ◌/◌, ◌%◌, ◌&&◌, not, Bool, true, Option, none, some, ℤ, pos, minus_one, int_eq, is_nonneg,
  to_size, List, [], ◌∷◌, ltb, ◌==◌, if◌then◌else◌,
}
use nacl_proxy.Errors.{proxy_success, proxy_err, assert_failed}

abbrev pub einprogress : ℕ
einprogress = 115

abbrev pub o_nonblock : ℕ
o_nonblock = 2048

abbrev pub time_since_last_resolution_sec : ℕ
time_since_last_resolution_sec = 300

-- `getaddrinfo`: an error, or a list of addresses
pub data Resolved (A : Type 0) : Type 0 where
  gai_failed : Resolved A
  resolved : List A → Resolved A

-- The system: each call yields its result and the world after it. `connect` yields no error number
-- if it succeeds; `setsockopt`, `bind` and `listen` say whether they return 0.
pub record Host (A W : Type 0) : Type 0 where
  pub now : W → ℕ
  pub getaddrinfo : W → Resolved A × W
  pub freeaddrinfo : List A → W → W
  pub socket : A → W → ℤ × W
  pub connect : ℤ → A → W → Option ℕ × W
  pub close : ℤ → W → W
  pub setsockopt : ℤ → W → Bool × W
  pub bind : ℤ → A → W → Bool × W
  pub listen : ℤ → W → Bool × W
  pub get_flags : ℤ → W → ℤ × W
  pub set_flags : ℤ → ℕ → W → Bool × W

-- `gp_cached_server_address` and the seconds of `gts_last_resolution`
pub record Cache (A : Type 0) : Type 0 where
  pub address : List A
  pub last_resolution : ℕ

module _ {A W : Type 0} (host : Host A W) where
  open host use {
    now, getaddrinfo, freeaddrinfo, socket, connect, close, setsockopt, bind, listen, get_flags,
    set_flags,
  }

  -- `freeaddrinfo` of a pointer that is not NULL
  free_some : List A → W → W
  free_some [] w = w
  free_some (a ∷ rest) w = freeaddrinfo (a ∷ rest) w

  pub network_free_cached_address : Cache A → W → Cache A × W
  unfolding free_some
  network_free_cached_address cache w = (record cache { address = [] }, free_some cache.address w)

  -- `flags | O_NONBLOCK`
  pub with_nonblock : ℕ → ℕ
  with_nonblock flags = if flags / o_nonblock % 2 == 0 then flags + o_nonblock else flags

  pub network_set_sock_nonblocking : ℤ → W → ℤ × W
  unfolding with_nonblock
  network_set_sock_nonblocking sock_fd w =
      if is_nonneg sock_fd
      then (let (flags, w') = get_flags sock_fd w in
          if int_eq minus_one flags
          then (proxy_err, w')
          else (let (done, w'') = set_flags sock_fd (with_nonblock (to_size flags)) w' in
              (if done then proxy_success else proxy_err, w'')))
      else (assert_failed, w)

  -- What `connect_to_server` does with the result of `connect`; `next` tries the next address.
  pub connect_reply : (W → ℤ × W) → ℤ → Option ℕ × W → ℤ × W
  connect_reply next sock_fd (none, w) = (sock_fd, w)
  connect_reply next sock_fd (some errno, w) =
      if errno == einprogress then (sock_fd, w) else next (close sock_fd w)

  pub connect_turn : (W → ℤ × W) → A → ℤ × W → ℤ × W
  unfolding connect_reply
  connect_turn next a (sock_fd, w) =
      if int_eq minus_one sock_fd then next w else connect_reply next sock_fd (connect sock_fd a w)

  pub connect_to_server : List A → W → ℤ × W
  unfolding connect_turn
  connect_to_server [] w = (minus_one, w)
  connect_to_server (a ∷ rest) w = connect_turn (connect_to_server rest) a (socket a w)

  -- An address that was last used too long ago is given up.
  pub expire : Cache A → W → Cache A × W
  expire cache w =
      if not (cache.last_resolution == 0)
        && ltb (cache.last_resolution + time_since_last_resolution_sec) (now w)
      then (record cache { address = [] }, freeaddrinfo cache.address w)
      else (cache, w)

  -- what follows a connection attempt to addresses that have just been resolved
  pub keep_address : List A → Cache A → ℤ × W → ℤ × Cache A × W
  keep_address list cache (sock_fd, w) =
      if int_eq minus_one sock_fd
      then (sock_fd, cache, freeaddrinfo list w)
      else (sock_fd, record cache { address = list }, w)

  pub connect_resolved : Cache A → Resolved A × W → ℤ × Cache A × W
  unfolding keep_address connect_to_server
  connect_resolved cache (gai_failed, w) = (minus_one, cache, w)
  connect_resolved cache (resolved [], w) = (minus_one, cache, w)
  connect_resolved cache (resolved (a ∷ rest), w) =
      keep_address (a ∷ rest) cache (connect_to_server (a ∷ rest) w)

  -- what follows a connection attempt to the cached addresses
  pub after_cached : Cache A → ℤ × W → ℤ × Cache A × W
  unfolding connect_resolved
  after_cached cache (sock_fd, w) =
      if int_eq minus_one sock_fd
      then connect_resolved (record cache { address = [] })
          (getaddrinfo (freeaddrinfo cache.address w))
      else (sock_fd, record cache { last_resolution = now w }, w)

  pub try_address : List A → Cache A → W → ℤ × Cache A × W
  unfolding after_cached
  try_address [] cache w = connect_resolved cache (getaddrinfo w)
  try_address (a ∷ rest) cache w = after_cached cache (connect_to_server (a ∷ rest) w)

  pub network_connect_to_server : Cache A → W → ℤ × Cache A × W
  unfolding expire try_address
  network_connect_to_server cache w =
      let (cache', w') = expire cache w in try_address cache'.address cache' w'

  -- `setsockopt`, `bind` and `listen`, each if the one before it succeeded
  pub set_up : ℤ → A → W → Bool × W
  set_up server_fd a w =
      let (reuse, w1) = setsockopt server_fd w in
      if reuse
      then (let (bound, w2) = bind server_fd a w1 in
          if bound then listen server_fd w2 else (bound, w2))
      else (reuse, w1)

  pub listen_reply : (W → ℤ × W) → ℤ → Bool × W → ℤ × W
  listen_reply next server_fd (ready, w) =
      if ready then (server_fd, w) else next (close server_fd w)

  pub listen_turn : (W → ℤ × W) → A → ℤ × W → ℤ × W
  unfolding listen_reply set_up
  listen_turn next a (server_fd, w) =
      if int_eq minus_one server_fd
      then next w
      else listen_reply next server_fd (set_up server_fd a w)

  pub listen_loop : List A → W → ℤ × W
  unfolding listen_turn
  listen_loop [] w = (minus_one, w)
  listen_loop (a ∷ rest) w = listen_turn (listen_loop rest) a (socket a w)

  pub listen_resolved : Resolved A × W → ℤ × W
  unfolding listen_loop
  listen_resolved (gai_failed, w) = (minus_one, w)
  listen_resolved (resolved [], w) = (minus_one, w)
  listen_resolved (resolved (a ∷ rest), w) =
      let (server_fd, w') = listen_loop (a ∷ rest) w in (server_fd, freeaddrinfo (a ∷ rest) w')

  pub network_get_listen_socket : W → ℤ × W
  unfolding listen_resolved
  network_get_listen_socket w = listen_resolved (getaddrinfo w)
