-- ===== src/Proxy/Accept.antt =====
-- `accept_callback`, `handle_accept`, `pending_connect_callback` and `add_connection_events` of
-- src/proxy.c.
pub mod Added
pub mod Safe
pub mod Failed
pub mod Full
pub mod Tests
use nacl_proxy.Base.{
  ℕ, ◌+◌, Bool, ◌||◌, ◌&&◌, Option, none, some, ℤ, pos, minus_one, int_eq, is_nonneg, ◌==◌,
  if◌then◌else◌,
}
use nacl_proxy.Errors.{
  proxy_success, proxy_err, proxy_max_events, proxy_incomplete_accept, proxy_connect_err,
  assert_failed,
}
use nacl_proxy.Sys.{Env, eagain, ewouldblock}
use nacl_proxy.Event.{Mask, has_flags, event_remove}
use nacl_proxy.Network.{network_set_sock_nonblocking, network_connect_to_server, einprogress}
use nacl_proxy.Buf.{Net}
use nacl_proxy.Proxy.{
  Config, Conn, Callback, on_pending_connect, on_handshake, on_conn, State, System, Run, done,
  fault, bad_pointer, ◌>>=◌, deref, put_conn, release, Ptr, config_ptr, conn_ptr, as_conn,
  zero_conn, pollin, pollout,
}
use nacl_proxy.Proxy.Data.{close_with}
use nacl_proxy.Proxy.Handshake.{add_event}

abbrev pub econnaborted : ℕ
econnaborted = 103

module _ {A W : Type 0} (sys : System A W) where
  -- An encrypted side starts with its handshake, a plain one with data.
  pub add_side : Net → ℕ → State A W → ℤ × State A W
  add_side net p s =
      if net.b_encrypted
      then add_event sys net.sock_fd pollout (conn_ptr p) on_handshake s
      else add_event sys net.sock_fd pollin (conn_ptr p) on_conn s

  pub add_server : Conn → ℕ → State A W → ℤ × State A W
  unfolding add_side
  add_server c p s =
      let (err, s') = add_side c.server p (put_conn p (record c { ref = c.ref + 1 }) s) in
      if int_eq proxy_success err
      then (err, put_conn p (record c { ref = c.ref + 2 }) s')
      else (err, record s' { table = (event_remove c.client.sock_fd s'.table).1 })

  pub add_both : Conn → ℕ → State A W → ℤ × State A W
  unfolding add_side add_server
  add_both c p s =
      if is_nonneg c.client.sock_fd && is_nonneg c.server.sock_fd
      then (let (err, s') = add_side c.client p s in
          if int_eq proxy_success err then add_server c p s' else (err, s'))
      else (assert_failed, s)

  pub add_connection_events : ℕ → State A W → Run (ℤ × State A W)
  unfolding add_both
  add_connection_events p s = deref p s >>= λ c. done (add_both c p s)

  -- The label CLEANUP of `handle_accept`.
  pub close_both : Conn → ℕ → State A W → State A W
  close_both c p s =
      let env1 =
        if int_eq minus_one c.server.sock_fd then s.env else sys.close c.server.sock_fd s.env in
      let env2 =
        if int_eq minus_one c.client.sock_fd then env1 else sys.close c.client.sock_fd env1 in
      put_conn p
        (record c {
          client = record c.client { sock_fd = minus_one };
          server = record c.server { sock_fd = minus_one };
        })
        (record s { env = env2 })

  -- the code of a failed `accept`
  pub accept_code : ℕ → ℤ
  accept_code errno =
      if errno == econnaborted && (errno == eagain && errno == ewouldblock)
      then proxy_incomplete_accept
      else proxy_err

  -- The connection to the server is there or under way.
  pub register : Conn → ℕ → State A W → Run (ℤ × State A W)
  unfolding add_connection_events
  register c p s =
      if s.env.errno == einprogress
      then done (
          add_event sys c.server.sock_fd pollout (conn_ptr p) on_pending_connect
            (record s { env = record s.env { errno = 0 } }))
      else add_connection_events p s

  pub connect_server : Conn → ℕ → State A W → Run (ℤ × State A W)
  unfolding register close_both
  connect_server c p s =
      let (sock_fd, cache, env) =
        network_connect_to_server (sys.net c.config.server_addr c.config.server_port) s.cache
          s.env in
      let c' = record c { server = record c.server { sock_fd = sock_fd } } in
      let s' = put_conn p c' (record s { cache = cache; env = env }) in
      if int_eq minus_one sock_fd
      then done (proxy_connect_err, close_both c' p s')
      else register c' p s'

  pub set_up_client : Conn → ℕ → State A W → Run (ℤ × State A W)
  unfolding connect_server close_both
  set_up_client c p s =
      let (err, env) =
        network_set_sock_nonblocking (sys.net c.config.server_addr c.config.server_port)
          c.client.sock_fd s.env in
      if int_eq proxy_success err
      then connect_server c p (record s { env = env })
      else done (err, close_both c p (record s { env = env }))

  pub handle_accept : ℤ → ℕ → State A W → Run (ℤ × State A W)
  unfolding set_up_client close_both accept_code
  handle_accept listen_fd p s = deref p s >>= λ c.
      (let (sock_fd, env) = sys.accept listen_fd s.env in
        let c' = record c { client = record c.client { sock_fd = sock_fd } } in
        let s' = put_conn p c' (record s { env = env }) in
        if int_eq minus_one sock_fd
        then done (accept_code env.errno, close_both c' p s')
        else set_up_client c' p s')

  -- The codes after which the listener keeps running.
  pub keep_listening : ℤ → ℤ
  keep_listening err =
      if int_eq proxy_max_events err
        || (int_eq proxy_incomplete_accept err || int_eq proxy_connect_err err)
      then proxy_success
      else err

  -- A client at the listener, with the memory for its connection.
  -- Its `free` reads the memory first, so that freeing it twice would be a fault.
  pub accept_into : ℤ → Config → Option ℕ → State A W → Run (ℤ × State A W)
  unfolding handle_accept keep_listening
  accept_into listen_fd config none s = done (keep_listening proxy_err, s)
  accept_into listen_fd config (some p) s =
      let c = zero_conn config in
      handle_accept listen_fd p (
        put_conn p
          (record c {
            client = record c.client { b_encrypted = config.b_encrypt_in };
            server = record c.server { b_encrypted = config.b_encrypt_out };
          })
          s)
      >>= λ (err, s').
          if int_eq proxy_success err
          then done (err, s')
          else (deref p s' >>= λ freed. done (keep_listening err, release p s'))

  pub handle_listener : ℤ → Mask → Ptr → State A W → Run (ℤ × State A W)
  unfolding accept_into
  handle_listener listen_fd revents (conn_ptr _) s = fault bad_pointer
  handle_listener listen_fd revents (config_ptr config) s =
      if revents.pollerr || (revents.pollhup || (revents.pollnval || revents.pollout))
      then done (proxy_err, s)
      else (if revents.pollin
          then accept_into listen_fd config (sys.calloc s.conns s.env) s
          else done (proxy_success, s))

  pub accept_callback : ℤ → Mask → Option Ptr → State A W → Run (ℤ × State A W)
  unfolding handle_listener
  accept_callback listen_fd revents none s = done (assert_failed, s)
  accept_callback listen_fd revents (some p_data) s =
      if is_nonneg listen_fd && has_flags revents
      then handle_listener listen_fd revents p_data s
      else done (assert_failed, s)

  -- The connection is established: its pending event gives way to the events of the data.
  pub promote : ℤ → ℕ → State A W → Run (ℤ × State A W)
  unfolding add_connection_events
  promote conn_fd p s =
      add_connection_events p (record s { table = (event_remove conn_fd s.table).1 })
      >>= λ (err, s').
          (if int_eq proxy_success err then done (err, s') else close_with sys err p s')

  -- What `getsockopt` says of a connection that was pending.
  pub settle : ℤ → ℕ → Option ℤ → State A W → Run (ℤ × State A W)
  unfolding promote
  settle conn_fd p none s = close_with sys proxy_err p s
  settle conn_fd p (some sock_err) s =
      if int_eq (pos 0) sock_err then promote conn_fd p s else close_with sys proxy_success p s

  pub handle_pending : ℤ → Mask → ℕ → State A W → Run (ℤ × State A W)
  unfolding settle
  handle_pending conn_fd revents p s = deref p s >>= λ c.
      (if int_eq c.server.sock_fd conn_fd
        then (if revents.pollnval
            then close_with sys proxy_success p s
            else (if revents.pollerr || (revents.pollhup || revents.pollout)
                then (let (reply, env) = sys.sock_error conn_fd s.env in
                    settle conn_fd p reply (record s { env = env }))
                else done (proxy_success, s)))
        else done (assert_failed, s))

  pub pending_connect_callback : ℤ → Mask → Option Ptr → State A W → Run (ℤ × State A W)
  unfolding handle_pending
  pending_connect_callback conn_fd revents none s = done (assert_failed, s)
  pending_connect_callback conn_fd revents (some p_data) s =
      if is_nonneg conn_fd && has_flags revents
      then (as_conn p_data >>= λ p. handle_pending conn_fd revents p s)
      else done (assert_failed, s)
