-- ===== src/Proxy/Data.antt =====
-- `handle_recv`, `handle_send` and `conn_callback` of src/proxy.c.
pub mod Safe
pub mod Serving
pub mod Codes
pub mod HalfClosed
pub mod Tests
pub mod Carried
pub mod Relay
use nacl_proxy.Base.{
  ℕ, Bool, ◌||◌, ◌&&◌, not, Option, none, some, ℤ, pos, minus_one, int_eq, is_nonneg, ◌==◌,
  if◌then◌else◌,
}
use nacl_proxy.Errors.{proxy_success, proxy_disconnect, proxy_would_block, proxy_err, assert_failed}
use nacl_proxy.Sys.{Env, msg_nosignal}
use nacl_proxy.Event.{Mask, has_flags, event_modify, event_remove}
use nacl_proxy.Buf.{Buf, Net, buf_recv, buf_send}
use nacl_proxy.Proxy.{
  Conn, State, System, Run, done, ◌>>=◌, ended, deref, put_conn, Ptr, as_conn, Side, invalid,
  client, server, net_of, with_net, buf_to, with_buf, other, pollin, pollinout,
}
use nacl_proxy.Proxy.Close.{close_connection}

module _ {A W : Type 0} (sys : System A W) where
  -- `event_modify` on the event table
  unfoldable pub modify_event : ℤ → Mask → State A W → ℤ × State A W
  modify_event efd events s =
      let (code, table) = event_modify efd events s.table in (code, record s { table = table })

  -- A side that has disconnected, though its data has still to be sent on.
  pub drop_side : Side → Conn → State A W → Conn × State A W
  drop_side side c s =
      let net = net_of side c in
      (
        with_net side
            (record net {
              sock_fd = minus_one;
              netnacl = if net.b_encrypted then none else net.netnacl;
            })
            c,
        record s {
          table = (event_remove net.sock_fd s.table).1;
          env = sys.close net.sock_fd s.env;
        },
      )

  pub close_with : ℤ → ℕ → State A W → Run (ℤ × State A W)
  close_with code p s = close_connection sys p s >>= λ s'. done (code, s')

  -- Data for the other side is announced to it, if it is still there.
  pub forward : ℤ → ℕ → State A W → Run (ℤ × State A W)
  unfolding close_with modify_event
  forward mod_fd p s =
      if int_eq minus_one mod_fd
      then close_with proxy_disconnect p s
      else done (modify_event mod_fd pollinout s)

  -- What `handle_recv` does with the code of `buf_recv`; `c` is the connection with what has come in.
  pub after_recv : Side → ℕ → ℤ → Conn → State A W → Run (ℤ × State A W)
  unfolding forward drop_side close_with
  after_recv side p err c s =
      if int_eq proxy_success err
      then forward (net_of (other side) c).sock_fd p (put_conn p c s)
      else (if int_eq proxy_disconnect err && not ((buf_to (other side) c).size == 0)
          then (let (c', s') = drop_side side c s in
              forward (net_of (other side) c).sock_fd p (put_conn p c' s'))
          else (if int_eq proxy_would_block err
              then done (proxy_success, put_conn p c s)
              else close_with err p (put_conn p c s)))

  pub recv_from : Side → ℕ → State A W → Run (ℤ × State A W)
  unfolding after_recv
  recv_from side p s = deref p s >>= λ c.
      (if (buf_to (other side) c).size == 0
        then ended (buf_recv sys.socket sys.crypto 0 (net_of side c) (buf_to (other side) c) s.env)
          >>= (λ (err, net, buf, env).
              after_recv side p err (with_buf (other side) buf (with_net side net c))
                (record s { env = env }))
        else done (proxy_success, s))

  pub handle_recv : ℕ → Side → State A W → Run (ℤ × State A W)
  unfolding recv_from
  handle_recv p invalid s = done (assert_failed, s)
  handle_recv p client s = recv_from client p s
  handle_recv p server s = recv_from server p s

  -- What `handle_send` does with the code of `buf_send`.
  pub after_send : Side → ℕ → ℤ → Conn → State A W → Run (ℤ × State A W)
  unfolding modify_event close_with
  after_send side p err c s =
      if int_eq proxy_success err
      then (if int_eq minus_one (net_of (other side) c).sock_fd
          then close_with proxy_disconnect p (put_conn p c s)
          else done (modify_event (net_of side c).sock_fd pollin (put_conn p c s)))
      else (if int_eq proxy_would_block err
          then done (proxy_success, put_conn p c s)
          else close_with err p (put_conn p c s))

  pub send_to : Side → ℕ → State A W → Run (ℤ × State A W)
  unfolding after_send
  send_to side p s = deref p s >>= λ c.
      ended (
        buf_send sys.socket sys.crypto (sys.nonces s.env) msg_nosignal (net_of side c)
          (buf_to side c) s.env)
      >>= λ (err, net, buf, env).
          after_send side p err (with_buf side buf (with_net side net c)) (record s { env = env })

  pub handle_send : ℕ → Side → State A W → Run (ℤ × State A W)
  unfolding send_to
  handle_send p invalid s = done (assert_failed, s)
  handle_send p client s = send_to client p s
  handle_send p server s = send_to server p s

  -- Receiving and then sending on a side, each if its flag is set.
  pub serve : Mask → ℕ → Side → State A W → Run (ℤ × State A W)
  unfolding handle_recv handle_send
  serve revents p side s =
      (if revents.pollin then handle_recv p side s else done (proxy_success, s)) >>= λ (err, s').
      (if revents.pollout && int_eq proxy_success err
        then handle_send p side s'
        else done (err, s'))
      >>= λ (err', s''). done ((if int_eq proxy_disconnect err' then proxy_success else err'), s'')

  pub serve_conn : ℤ → Mask → ℕ → State A W → Run (ℤ × State A W)
  unfolding serve
  serve_conn conn_fd revents p s = deref p s >>= λ c.
      if int_eq conn_fd c.client.sock_fd
      then serve revents p client s
      else (if int_eq conn_fd c.server.sock_fd
          then serve revents p server s
          else done (proxy_err, s))

  pub handle_conn : ℤ → Mask → ℕ → State A W → Run (ℤ × State A W)
  unfolding serve_conn
  handle_conn conn_fd revents p s =
      if revents.pollnval
      then done (proxy_err, s)
      else (if revents.pollerr || revents.pollhup
          then close_with proxy_success p s
          else serve_conn conn_fd revents p s)

  pub conn_callback : ℤ → Mask → Option Ptr → State A W → Run (ℤ × State A W)
  unfolding handle_conn
  conn_callback conn_fd revents none s = done (assert_failed, s)
  conn_callback conn_fd revents (some p_data) s =
      if is_nonneg conn_fd && has_flags revents
      then (as_conn p_data >>= λ p. handle_conn conn_fd revents p s)
      else done (assert_failed, s)
