-- ===== src/Proxy/Data/HalfClosed.antt =====
-- A client that has sent its last bytes and closed its direction, while the proxy still has bytes for it, in
-- `conn_callback` of src/proxy.c.
use nacl_proxy.Base.{
  ℕ, ◌<◌, ◌≡◌, ◌≢◌, ◌∙◌, refl, sym, ap, true, false, none, some, pos, minus_one, int_eq, int_eq_iff,
  ◌==◌, if◌then◌else◌, Bool-cases, inl, inr, arith,
}
use nacl_proxy.Errors.{proxy_success, proxy_disconnect, proxy_err}
use nacl_proxy.Sys.{Env, ok, msg_nosignal}
use nacl_proxy.Event.{event_modify, event_remove}
use nacl_proxy.Buf.{Buf, Net, buf_recv, buf_send}
use nacl_proxy.Sys.Gives.{Gives}
use nacl_proxy.Buf.Kept.{buf_recv-kept}
use nacl_proxy.Buf.Closed.{RefusesClosed, buf_send-closed}
use nacl_proxy.Proxy.{
  Conn, conn_ptr, State, System, Run, done, ◌>>=◌, found, put_conn, client, pollinout,
}
use nacl_proxy.Proxy.Owned.{put_conn_self}
use nacl_proxy.Proxy.Close.Closes.{closed, closes, closed-gone}
use nacl_proxy.Proxy.Data.{
  modify_event, drop_side, close_with, forward, after_recv, recv_from, handle_recv, after_send,
  send_to, handle_send, serve, serve_conn, handle_conn, conn_callback,
}

bound :
    {X Y : Type 0} {r : Run X} {x : X} {t : Run Y} (f : X → Run Y)
    → r ≡ done x
    → f x ≡ t
    → (r >>= f) ≡ t
bound f e h = ap (λ q. q >>= f) e ∙ h

module _ {A W : Type 0} (sys : System A W) where
  handle_send-closed :
      RefusesClosed sys.socket
      → (p : ℕ) (c : Conn) (s : State A W) → s.conns p ≡ some c
      → c.client.sock_fd ≡ minus_one
      → c.client.b_encrypted ≡ false
      → c.client_send_buf.read_pos < c.client_send_buf.size
      → (s' : State A W) × (handle_send sys p client s ≡ done (proxy_err, s')) × (s'.conns p ≡ none)
  unfolding handle_send send_to after_send close_with
  handle_send-closed refuses p c s e gone plain less =
      let env' : Env W = record s.env { errno = 9 } in
      let s1 : State A W = record s { env = env' } in
      let sent : buf_send sys.socket sys.crypto (sys.nonces s.env) msg_nosignal c.client
            c.client_send_buf s.env
          ≡ ok (proxy_err, c.client, c.client_send_buf, env') =
        buf_send-closed sys.socket refuses sys.crypto (sys.nonces s.env) msg_nosignal c.client
          c.client_send_buf s.env gone plain less in
      let over = closes sys p c (put_conn p c s1) (put_conn_self p c s1) in
      (
        closed sys p c (put_conn p c s1),
        rw (e, sent, over) refl,
        closed-gone sys p c (put_conn p c s1),
      )

  -- the connection once the client, which is `net` now, has been dropped, with `b` for the server
  abbrev halved : Conn → Net → Buf → Conn
  halved c net b = record c {
    client = record net {
      sock_fd = minus_one;
      netnacl = if net.b_encrypted then none else net.netnacl;
    };
    server_send_buf = b;
  }

  abbrev without : Net → Env W → State A W → State A W
  without net env s = record s {
    table = (event_remove net.sock_fd s.table).1;
    env = sys.close net.sock_fd env;
  }

  abbrev dropped : ℕ → Conn → Net → Buf → Env W → State A W → State A W
  dropped p c net b env s = put_conn p (halved c net b) (without net env s)

  handle_recv-half :
      (p : ℕ) (c : Conn) (s : State A W) (net : Net) (b : Buf) (env : Env W)
      → s.conns p ≡ some c
      → c.server_send_buf.size ≡ 0
      → buf_recv sys.socket sys.crypto 0 c.client c.server_send_buf s.env
        ≡ ok (proxy_disconnect, net, b, env)
      → (b.size == 0) ≡ false
      → int_eq minus_one c.server.sock_fd ≡ false
      → handle_recv sys p client s
        ≡ done (modify_event sys c.server.sock_fd pollinout (dropped p c net b env s))
  unfolding handle_recv recv_from after_recv drop_side forward
  handle_recv-half p c s net b env e room got some_there there =
      let empty : (c.server_send_buf.size == 0) ≡ true = ground (arith, room) in
      rw (e, empty, got, some_there, there) refl

  serve-two :
      (p : ℕ) (s s1 s2 : State A W)
      → handle_recv sys p client s ≡ done (proxy_success, s1)
      → handle_send sys p client s1 ≡ done (proxy_err, s2)
      → serve sys pollinout p client s ≡ done (proxy_err, s2)
  unfolding serve
  serve-two p s s1 s2 recv send = bound _ recv (bound _ send refl)

  serve_conn-client :
      (f p : ℕ) (c : Conn) (s : State A W)
      → s.conns p ≡ some c
      → c.client.sock_fd ≡ pos f
      → conn_callback sys (pos f) pollinout (some (conn_ptr p)) s ≡ serve sys pollinout p client s
  unfolding conn_callback handle_conn serve_conn
  serve_conn-client f p c s e fd =
      let same : int_eq (pos f) (pos f) ≡ true = (int_eq_iff (pos f) (pos f)).1 refl in
      bound _ (ap found e) (rw (fd, same) refl)

  -- A plain client disconnects, in the call that also yields its last bytes for the server, while bytes for
  -- the client wait and POLLOUT is set: then `conn_callback` frees the connection, with the bytes that it has
  -- received, and returns PROXY_ERR. The server is there, its events can be changed, and `send` on -1 fails
  -- with EBADF.
  pub conn_callback-half_closed :
      RefusesClosed sys.socket
      → (f p : ℕ) (c : Conn) (s : State A W) (net : Net) (b : Buf) (env : Env W)
      → s.conns p ≡ some c
      → c.client.sock_fd ≡ pos f
      → c.client.b_encrypted ≡ false
      → c.server.sock_fd ≢ minus_one
      → c.server_send_buf.size ≡ 0
      → c.client_send_buf.read_pos < c.client_send_buf.size
      → buf_recv sys.socket sys.crypto 0 c.client c.server_send_buf s.env
        ≡ ok (proxy_disconnect, net, b, env)
      → 0 < b.size
      → (event_modify c.server.sock_fd pollinout (event_remove net.sock_fd s.table).1).0
        ≡ proxy_success
      → (s' : State A W) × (conn_callback sys (pos f) pollinout (some (conn_ptr p)) s
          ≡ done (proxy_err, s'))
        × (s'.conns p ≡ none)
  unfolding modify_event Gives
  conn_callback-half_closed refuses f p c s net b env e fd plain there room waits got some_in good =
      let ends =
        rw got at (buf_recv-kept sys.socket sys.crypto 0 c.client c.server_send_buf s.env) in
      let s1 : State A W =
        (modify_event sys c.server.sock_fd pollinout (dropped p c net b env s)).1 in
      let more : (b.size == 0) ≡ false = ground (arith, some_in) in
      let alive : int_eq minus_one c.server.sock_fd ≡ false =
        elim (Bool-cases (int_eq minus_one c.server.sock_fd)) [
          | inr other ↦ other
          | inl gone ↦ absurd (there (sym ((int_eq_iff minus_one c.server.sock_fd).0 gone)))
        ] in
      let (s', sent, over) =
        handle_send-closed refuses p (halved c net b) s1
          (put_conn_self p (halved c net b) (without net env s)) refl (ends.encrypted ∙ plain)
          waits in
      (
        s',
        serve_conn-client f p c s e fd
            ∙ serve-two p s s1 s'
                (handle_recv-half p c s net b env e room got more alive
                  ∙ ap (λ code. done (code, s1)) good)
                sent,
        over,
      )
