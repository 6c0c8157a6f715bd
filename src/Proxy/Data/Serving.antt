-- ===== src/Proxy/Data/Serving.antt =====
-- `handle_send` and `conn_callback` of src/proxy.c follow no bad pointer and leave none in the event
-- table.
use nacl_proxy.Base.{
  ℕ, ◌≡◌, refl, sym, inl, inr, ◌||◌, ◌&&◌, some, ℤ, minus_one, int_eq, int_eq_iff, is_nonneg,
  if◌then◌else◌, Bool-cases, arith,
}
use nacl_proxy.Errors.{proxy_success, proxy_disconnect, proxy_would_block}
use nacl_proxy.Sys.{msg_nosignal}
use nacl_proxy.Event.{Mask, has_flags}
use nacl_proxy.Buf.{buf_send}
use nacl_proxy.Buf.Kept.{SameEnds, buf_send-kept}
use nacl_proxy.Proxy.{
  Conn, conn_ptr, State, System, done, ended, put_conn, Side, invalid, client, server, net_of,
  with_net, buf_to, with_buf, other, pollin,
}
use nacl_proxy.Proxy.Owned.{
  Holds, Held, IsOwned, Safely, Safely-bind, put_conn_self, put-IsOwned, world-IsOwned,
}
use nacl_proxy.Proxy.Data.{
  handle_recv, after_send, send_to, handle_send, serve, serve_conn, handle_conn, conn_callback,
}
use nacl_proxy.Proxy.Data.Safe.{
  with_net-Holds, with_buf-Holds, ended-Safely, deref-Safely, Safe, close_with-Safe,
  modify_event-IsOwned, handle_recv-Serves,
}

module _ {A W : Type 0} (sys : System A W) (listener : ℤ) where
  after_send-Safe :
      (side : Side) (p : ℕ) (err : ℤ) (c : Conn) (s : State A W)
      → IsOwned listener s
      → ((x : ℤ) → Held x (s.conns p) → Holds x c)
      → Safe sys listener (after_send sys side p err c s)
  unfolding after_send Safely
  after_send-Safe side p err c s o keeps =
      let o' : IsOwned listener (put_conn p c s) = put-IsOwned listener s p c o keeps in
      let e : (put_conn p c s).conns p ≡ some c = put_conn_self p c s in
      elim (Bool-cases (int_eq proxy_success err)) [
        | inl good ↦ elim (Bool-cases (int_eq minus_one (net_of (other side) c).sock_fd)) [
          | inl gone ↦
              rw (good, gone)
                (close_with-Safe sys listener proxy_disconnect p c (put_conn p c s) e o')
          | inr there ↦
              rw (good, there)
                (modify_event-IsOwned sys listener (net_of side c).sock_fd pollin (put_conn p c s)
                  o')
        ]
        | inr bad ↦ elim (Bool-cases (int_eq proxy_would_block err)) [
          | inl wait ↦ rw (bad, wait) o'
          | inr over ↦ rw (bad, over) (close_with-Safe sys listener err p c (put_conn p c s) e o')
        ]
      ]

  send_to-Safe :
      (side : Side) (p : ℕ) (c : Conn) (s : State A W)
      → s.conns p ≡ some c
      → IsOwned listener s
      → Safe sys listener (send_to sys side p s)
  unfolding send_to Safely
  send_to-Safe side p c s e o =
      let sent =
        buf_send sys.socket sys.crypto (sys.nonces s.env) msg_nosignal (net_of side c)
          (buf_to side c) s.env in
      rw e (
        Safely-bind (λ (code, net', buf, env). SameEnds (net_of side c) net') _ (ended sent) _
          (ended-Safely _ sent (
            buf_send-kept sys.socket sys.crypto msg_nosignal (sys.nonces s.env) (net_of side c)
              (buf_to side c) s.env))
          λ (err, net', buf, env) same.
            after_send-Safe side p err (with_buf side buf (with_net side net' c))
              (record s { env = env })
              (world-IsOwned listener s (record s { env = env }) refl refl o)
              λ x held.
                with_buf-Holds side (with_net side net' c) buf x
                  (with_net-Holds side c net' x same.fd (rw e at held)))

  handle_send-Safe :
      (p : ℕ) (side : Side) (c : Conn) (s : State A W)
      → s.conns p ≡ some c
      → IsOwned listener s
      → Safe sys listener (handle_send sys p side s)
  unfolding handle_send Safely
  handle_send-Safe p invalid c s e o = o
  handle_send-Safe p client c s e o = send_to-Safe client p c s e o
  handle_send-Safe p server c s e o = send_to-Safe server p c s e o

  serve-Safe :
      (revents : Mask) (p : ℕ) (side : Side) (c : Conn) (s : State A W)
      → s.conns p ≡ some c
      → IsOwned listener s
      → Safe sys listener (serve sys revents p side s)
  unfolding serve Safely
  serve-Safe revents p side c s e o =
      Safely-bind
        (λ (code, s').
          IsOwned listener s' × (code ≡ proxy_success → (c : Conn) × (s'.conns p ≡ some c)))
        _ (if revents.pollin then handle_recv sys p side s else done (proxy_success, s)) _
        (elim (Bool-cases revents.pollin) [
          | inl input ↦ rw input (handle_recv-Serves sys listener p side c s e o)
          | inr none_in ↦ rw none_in (o, λ h. (c, e))
        ])
        λ (err, s') (o', there).
          Safely-bind (λ (code, s''). IsOwned listener s'') _
            (if revents.pollout && int_eq proxy_success err
              then handle_send sys p side s'
              else done (err, s'))
            _
            (elim (Bool-cases (revents.pollout && int_eq proxy_success err)) [
              | inr no_output ↦ rw no_output o'
              | inl output ↦
                  let good : proxy_success ≡ err =
                    (int_eq_iff proxy_success err).0 (ground (arith, output)) in
                  let (c', e') = there (sym good) in rw output (handle_send-Safe p side c' s' e' o')
            ])
            λ (err', s'') o''. o''

  serve_conn-Safe :
      (conn_fd : ℤ) (revents : Mask) (p : ℕ) (c : Conn) (s : State A W)
      → s.conns p ≡ some c
      → IsOwned listener s
      → Safe sys listener (serve_conn sys conn_fd revents p s)
  unfolding serve_conn Safely
  serve_conn-Safe conn_fd revents p c s e o =
      deref-Safely _ p c s _ e (elim (Bool-cases (int_eq conn_fd c.client.sock_fd)) [
        | inl client_fd ↦ rw client_fd (serve-Safe revents p client c s e o)
        | inr other_fd ↦ elim (Bool-cases (int_eq conn_fd c.server.sock_fd)) [
          | inl server_fd ↦ rw (other_fd, server_fd) (serve-Safe revents p server c s e o)
          | inr neither ↦ rw (other_fd, neither) o
        ]
      ])

  handle_conn-Safe :
      (conn_fd : ℤ) (revents : Mask) (p : ℕ) (c : Conn) (s : State A W)
      → s.conns p ≡ some c
      → IsOwned listener s
      → Safe sys listener (handle_conn sys conn_fd revents p s)
  unfolding handle_conn Safely
  handle_conn-Safe conn_fd revents p c s e o = elim (Bool-cases revents.pollnval) [
    | inl not_open ↦ rw not_open o
    | inr valid ↦ elim (Bool-cases (revents.pollerr || revents.pollhup)) [
      | inl over ↦ rw (valid, over) (close_with-Safe sys listener proxy_success p c s e o)
      | inr going ↦ rw (valid, going) (serve_conn-Safe conn_fd revents p c s e o)
    ]
  ]

  -- `conn_callback`, called for a connection that is allocated
  pub conn_callback-Safe :
      (conn_fd : ℤ) (revents : Mask) (p : ℕ) (c : Conn) (s : State A W)
      → s.conns p ≡ some c
      → IsOwned listener s
      → Safe sys listener (conn_callback sys conn_fd revents (some (conn_ptr p)) s)
  unfolding conn_callback Safely
  conn_callback-Safe conn_fd revents p c s e o =
      elim (Bool-cases (is_nonneg conn_fd && has_flags revents)) [
        | inl fine ↦ rw fine (handle_conn-Safe conn_fd revents p c s e o)
        | inr wrong ↦ rw wrong o
      ]
