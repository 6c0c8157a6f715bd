-- ===== src/Proxy/Handshake.antt =====
-- `do_handshake` and `handshake_callback` of src/proxy.c.
pub mod Safe
use nacl_proxy.Base.{
  ℕ, Bool, ◌||◌, ◌&&◌, Option, none, some, ℤ, pos, int_eq, is_nonneg, ltb, if◌then◌else◌,
}
use nacl_proxy.Errors.{
  proxy_success, proxy_err, assert_failed, nn_success, nn_want_read, nn_want_write, nn_err,
}
use nacl_proxy.Event.{Mask, has_flags, event_add, event_modify, event_remove}
use nacl_proxy.Netnacl.{Netnacl, netnacl_create}
use nacl_proxy.Netnacl.Wrap.{netnacl_wrap}
use nacl_proxy.Buf.{Net}
use nacl_proxy.Proxy.{
  Conn, State, System, Run, done, ◌>>=◌, ended, deref, put_conn, Ptr, conn_ptr, as_conn, Side,
  invalid, client, server, net_of, with_net, buf_to, pollin, pollout, Callback, on_conn,
}
use nacl_proxy.Proxy.Data.{modify_event, close_with}

module _ {A W : Type 0} (sys : System A W) where
  -- `event_add` on the event table
  unfoldable pub add_event : ℤ → Mask → Ptr → Callback → State A W → ℤ × State A W
  add_event efd events p_data callback s =
      let (code, table) = event_add efd events (some p_data) (some callback) s.table in
      (code, record s { table = table })

  -- What `do_handshake` does with the code of `netnacl_wrap`.
  pub after_wrap : ℤ → Mask → ℤ → ℕ → State A W → ℤ × State A W
  unfolding add_event
  after_wrap sock_fd events err p s =
      if int_eq nn_success err
      then add_event sock_fd events (conn_ptr p) on_conn
          (record s { table = (event_remove sock_fd s.table).1 })
      else (if int_eq nn_want_read err
          then modify_event sys sock_fd pollin s
          else (if int_eq nn_want_write err then modify_event sys sock_fd pollout s else (err, s)))

  -- The key exchange on a context; none is a context for which there was no memory.
  pub wrap_with : Side → ℕ → Conn → Option Netnacl → State A W → Run (ℤ × State A W)
  unfolding after_wrap
  wrap_with side p c none s = done (proxy_err, s)
  wrap_with side p c (some nn) s =
      ended (netnacl_wrap sys.socket sys.crypto (sys.secret s.env) nn s.env) >>= λ (err, nn', env).
      done (
        after_wrap (net_of side c).sock_fd (if ltb 0 (buf_to side c).size then pollout else pollin)
          err p
          (put_conn p (with_net side (record (net_of side c) { netnacl = some nn' }) c)
            (record s { env = env })))

  -- the context of a side, created if it has none
  pub context_of : Net → State A W → Option Netnacl → Option Netnacl
  context_of net s none = netnacl_create (sys.calloc_netnacl s.env) net.sock_fd
  context_of net s (some nn) = some nn

  pub handshake_on : Side → ℕ → State A W → Run (ℤ × State A W)
  unfolding wrap_with context_of
  handshake_on side p s = deref p s >>= λ c.
      (if (net_of side c).b_encrypted
        then wrap_with side p c (context_of (net_of side c) s (net_of side c).netnacl) s
        else done (assert_failed, s))

  pub do_handshake : ℕ → Side → State A W → Run (ℤ × State A W)
  unfolding handshake_on
  do_handshake p invalid s = done (proxy_err, s)
  do_handshake p client s = handshake_on client p s
  do_handshake p server s = handshake_on server p s

  -- the side of a descriptor, and the handshake on it
  pub handshake_fd : ℤ → ℕ → State A W → Run (ℤ × State A W)
  unfolding do_handshake
  handshake_fd conn_fd p s = deref p s >>= λ c.
      (if int_eq conn_fd c.client.sock_fd
        then do_handshake p client s
        else (if int_eq conn_fd c.server.sock_fd
            then do_handshake p server s
            else done (proxy_err, s)))

  -- A handshake that fails closes the connection; only codes other than -1 are passed on.
  pub end_handshake : ℕ → ℤ → State A W → Run (ℤ × State A W)
  end_handshake p err s =
      if int_eq proxy_success err
      then done (err, s)
      else close_with sys (if int_eq nn_err err then proxy_success else err) p s

  pub handle_handshake : ℤ → Mask → ℕ → State A W → Run (ℤ × State A W)
  unfolding handshake_fd end_handshake
  handle_handshake conn_fd revents p s =
      if revents.pollerr || (revents.pollhup || revents.pollnval)
      then close_with sys proxy_err p s
      else (handshake_fd conn_fd p s >>= λ (err, s'). end_handshake p err s')

  pub handshake_callback : ℤ → Mask → Option Ptr → State A W → Run (ℤ × State A W)
  unfolding handle_handshake
  handshake_callback conn_fd revents none s = done (assert_failed, s)
  handshake_callback conn_fd revents (some p_data) s =
      if is_nonneg conn_fd && has_flags revents
      then (as_conn p_data >>= λ p. handle_handshake conn_fd revents p s)
      else done (assert_failed, s)
