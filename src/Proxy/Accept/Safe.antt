-- ===== src/Proxy/Accept/Safe.antt =====
-- The listener's callback and that of a pending connection follow no bad pointer and leave none in
-- the event table.
use nacl_proxy.Base.{if_both, write_self}
use nacl_proxy.Base.{
  ℕ, ◌≡◌, refl, inl, inr, ◌||◌, ◌&&◌, Option, none, some, ℤ, pos, minus_one, int_eq, is_nonneg,
  ◌==◌, ==_iff, Bool-cases, Option-cases,
}
use nacl_proxy.Errors.{proxy_success, proxy_err}
use nacl_proxy.Sys.{Env}
use nacl_proxy.Event.{Mask, has_flags, event_remove}
use nacl_proxy.Network.{network_set_sock_nonblocking, network_connect_to_server, einprogress, Cache}
use nacl_proxy.Proxy.{
  Config, Conn, on_pending_connect, conn_ptr, config_ptr, State, System, put_conn, pollout,
  zero_conn,
}
use nacl_proxy.Proxy.Owned.{
  IsOwned, Safely, Safely-bind, Safely-weaken, put_conn_self, remove-IsOwned, release-IsOwned,
  world-IsOwned, conns-IsOwned,
}
use nacl_proxy.Proxy.Data.Safe.{not_success, deref-Safely, Safe, close_with-Safe}
use nacl_proxy.Proxy.Handshake.Safe.{not_accept}
use nacl_proxy.Proxy.Accept.{
  add_connection_events, close_both, register, connect_server, set_up_client, handle_accept,
  accept_into, handle_listener, accept_callback, promote, settle, handle_pending,
  pending_connect_callback,
}
use nacl_proxy.Proxy.Accept.Added.{Unused, Opened, add_event-Opened, add_connection_events-Adds}

module _ {A W : Type 0} (listener : ℤ) where
  -- a state in which no registration refers to an address
  abbrev Fresh : ℕ → State A W → Type 0
  Fresh p s = IsOwned listener s × Unused p s

  put-Fresh : (p : ℕ) (c : Conn) (s : State A W) → Fresh p s → Fresh p (put_conn p c s)
  put-Fresh p c s (o, unused) = (
    conns-IsOwned listener s o (put_conn p c s) refl λ q x events callback found held.
        elim (Bool-cases (p == q)) [
          | inl here ↦
              let same : p ≡ q = (==_iff p q).0 here in
              absurd (unused x events callback (rw same found))
          | inr away ↦ rw away held
        ],
    unused,
  )

  -- Nothing refers to memory that is not allocated.
  free-Fresh : (p : ℕ) (s : State A W) → s.conns p ≡ none → IsOwned listener s → Fresh p s
  free-Fresh p s free o = (
    o,
    λ x events callback found. rw free at (o.refers x events callback (some (conn_ptr p)) found).1,
  )

module _ {A W : Type 0} (sys : System A W) (listener : ℤ) where
  register-Opened :
      (p : ℕ) (c : Conn) (s : State A W)
      → s.conns p ≡ some c
      → Fresh listener p s
      → Safely (Opened sys listener p) (register sys c p s)
  unfolding register Safely
  register-Opened p c s e (o, unused) = elim (Bool-cases (s.env.errno == einprogress)) [
    | inl pending ↦
        let s' : State A W = record s { env = record s.env { errno = 0 } } in
        rw pending (
          add_event-Opened sys listener c.server.sock_fd pollout p on_pending_connect c s'
            (not_accept on_pending_connect refl) (inr refl) e
            (world-IsOwned listener s s' refl refl o) unused)
    | inr there ↦ rw there (
        Safely-weaken _ (Opened sys listener p) (add_connection_events sys p s)
          (add_connection_events-Adds sys listener p c s e o) λ r (kept, left). (kept, left unused))
  ]

  world-Fresh :
      (p : ℕ) (s : State A W) (cache : Cache A) (env : Env W)
      → Fresh listener p s
      → Fresh listener p (record s { cache = cache; env = env })
  world-Fresh p s cache env (o, unused) =
      (world-IsOwned listener s (record s { cache = cache; env = env }) refl refl o, unused)

  close_both-Fresh :
      (c : Conn) (p : ℕ) (s : State A W)
      → Fresh listener p s
      → Fresh listener p (close_both sys c p s)
  unfolding close_both
  close_both-Fresh c p s f = put-Fresh listener p _ _ (world-Fresh p s s.cache _ f)

  -- The failing branches close both sockets and keep the connection.
  close_both-Opened :
      (c : Conn) (p : ℕ) (s : State A W)
      → Fresh listener p s
      → IsOwned listener (close_both sys c p s)
        × ((c' : Conn) × ((close_both sys c p s).conns p ≡ some c'))
        × Unused p (close_both sys c p s)
  unfolding close_both
  close_both-Opened c p s f =
      let (o, unused) = close_both-Fresh c p s f in (o, (_, write_self s.conns p _), unused)

  connect_server-Opened :
      (c : Conn) (p : ℕ) (s : State A W)
      → Fresh listener p s
      → Safely (Opened sys listener p) (connect_server sys c p s)
  unfolding connect_server Safely
  connect_server-Opened c p s f =
      let (sock_fd, cache, env) =
        network_connect_to_server (sys.net c.config.server_addr c.config.server_port) s.cache
          s.env in
      let c' : Conn = record c { server = record c.server { sock_fd = sock_fd } } in
      let s1 : State A W = record s { cache = cache; env = env } in
      let s' : State A W = put_conn p c' s1 in
      let f' : Fresh listener p s' = put-Fresh listener p c' s1 (world-Fresh p s cache env f) in
      let (o', alive, unused') = close_both-Opened c' p s' f' in
      if_both (Safely (Opened sys listener p)) (int_eq minus_one sock_fd) _ _
        ((o', alive), λ bad. unused') (register-Opened p c' s' (put_conn_self p c' s1) f')

  set_up_client-Opened :
      (c : Conn) (p : ℕ) (s : State A W)
      → Fresh listener p s
      → Safely (Opened sys listener p) (set_up_client sys c p s)
  unfolding set_up_client Safely
  set_up_client-Opened c p s f =
      let (err, env) =
        network_set_sock_nonblocking (sys.net c.config.server_addr c.config.server_port)
          c.client.sock_fd s.env in
      let s' : State A W = record s { env = env } in
      let f' : Fresh listener p s' = world-Fresh p s s.cache env f in
      let (o', alive, unused') = close_both-Opened c p s' f' in
      if_both (Safely (Opened sys listener p)) (int_eq proxy_success err) _ _
        (connect_server-Opened c p s' f') ((o', alive), λ bad. unused')

  handle_accept-Opened :
      (listen_fd : ℤ) (p : ℕ) (c : Conn) (s : State A W)
      → s.conns p ≡ some c
      → Fresh listener p s
      → Safely (Opened sys listener p) (handle_accept sys listen_fd p s)
  unfolding handle_accept Safely
  handle_accept-Opened listen_fd p c s e f =
      let (sock_fd, env) = sys.accept listen_fd s.env in
      let c' : Conn = record c { client = record c.client { sock_fd = sock_fd } } in
      let s1 : State A W = record s { env = env } in
      let s' : State A W = put_conn p c' s1 in
      let f' : Fresh listener p s' = put-Fresh listener p c' s1 (world-Fresh p s s.cache env f) in
      let (o', alive, unused') = close_both-Opened c' p s' f' in
      deref-Safely _ p c s _ e (
        if_both (Safely (Opened sys listener p)) (int_eq minus_one sock_fd) _ _
          ((o', alive), λ bad. unused') (set_up_client-Opened c' p s' f'))

  accept_into-Safe :
      (listen_fd : ℤ) (config : Config) (p : ℕ) (s : State A W)
      → s.conns p ≡ none
      → IsOwned listener s
      → Safe sys listener (accept_into sys listen_fd config (some p) s)
  unfolding accept_into Safely
  accept_into-Safe listen_fd config p s free o =
      let zero : Conn = zero_conn config in
      let c : Conn = record zero {
        client = record zero.client { b_encrypted = config.b_encrypt_in };
        server = record zero.server { b_encrypted = config.b_encrypt_out };
      } in
      Safely-bind (Opened sys listener p) _ (handle_accept sys listen_fd p (put_conn p c s)) _
        (handle_accept-Opened listen_fd p c (put_conn p c s) (put_conn_self p c s)
          (put-Fresh listener p c s (free-Fresh listener p s free o)))
        λ (err, s') ((o', (c', e')), left). elim (Bool-cases (int_eq proxy_success err)) [
          | inl good ↦ rw good o'
          | inr bad ↦ rw (bad, e') (release-IsOwned listener s' p o' (left (not_success err bad)))
        ]

  -- `accept_callback`, called for the listener; the memory that `calloc` yields was not in use
  pub accept_callback-Safe :
      ((conns : ℕ → Option Conn) (env : Env W) (p : ℕ)
        → sys.calloc conns env ≡ some p
        → conns p ≡ none)
      → (listen_fd : ℤ) (revents : Mask) (config : Config) (s : State A W) → IsOwned listener s
      → Safe sys listener (accept_callback sys listen_fd revents (some (config_ptr config)) s)
  unfolding accept_callback handle_listener accept_into Safely
  accept_callback-Safe law listen_fd revents config s o =
      if_both (Safely _) (is_nonneg listen_fd && has_flags revents) _ _
        (if_both (Safely _)
          (revents.pollerr || (revents.pollhup || (revents.pollnval || revents.pollout))) _ _ o
          (if_both (Safely _) revents.pollin _ _
            (elim (Option-cases (sys.calloc s.conns s.env)) [
              | inl out_of_memory ↦ rw out_of_memory o
              | inr (p, there) ↦
                  rw there (accept_into-Safe listen_fd config p s (law s.conns s.env p there) o)
            ])
            o))
        o

  promote-Safe :
      (conn_fd : ℤ) (p : ℕ) (c : Conn) (s : State A W)
      → s.conns p ≡ some c
      → IsOwned listener s
      → Safe sys listener (promote sys conn_fd p s)
  unfolding promote Safely
  promote-Safe conn_fd p c s e o =
      let s1 : State A W = record s { table = (event_remove conn_fd s.table).1 } in
      Safely-bind _ _ (add_connection_events sys p s1) _
        (add_connection_events-Adds sys listener p c s1 e (remove-IsOwned listener s conn_fd o))
        λ (err, s') ((o', (c', e')), left).
          if_both (Safely _) (int_eq proxy_success err) _ _ o'
            (close_with-Safe sys listener err p c' s' e' o')

  settle-Safe :
      (conn_fd : ℤ) (p : ℕ) (reply : Option ℤ) (c : Conn) (s : State A W)
      → s.conns p ≡ some c
      → IsOwned listener s
      → Safe sys listener (settle sys conn_fd p reply s)
  unfolding settle Safely
  settle-Safe conn_fd p none c s e o = close_with-Safe sys listener proxy_err p c s e o
  settle-Safe conn_fd p (some sock_err) c s e o =
      if_both (Safely _) (int_eq (pos 0) sock_err) _ _ (promote-Safe conn_fd p c s e o)
        (close_with-Safe sys listener proxy_success p c s e o)

  -- `pending_connect_callback`, called for a connection that is allocated
  pub pending_connect_callback-Safe :
      (conn_fd : ℤ) (revents : Mask) (p : ℕ) (c : Conn) (s : State A W)
      → s.conns p ≡ some c
      → IsOwned listener s
      → Safe sys listener (pending_connect_callback sys conn_fd revents (some (conn_ptr p)) s)
  unfolding pending_connect_callback handle_pending Safely
  pending_connect_callback-Safe conn_fd revents p c s e o =
      let (reply, env) = sys.sock_error conn_fd s.env in
      let s' : State A W = record s { env = env } in
      if_both (Safely _) (is_nonneg conn_fd && has_flags revents) _ _
        (deref-Safely _ p c s _ e (
          if_both (Safely _) (int_eq c.server.sock_fd conn_fd) _ _
            (if_both (Safely _) revents.pollnval _ _
              (close_with-Safe sys listener proxy_success p c s e o)
              (if_both (Safely _) (revents.pollerr || (revents.pollhup || revents.pollout)) _ _
                (settle-Safe conn_fd p reply c s' e (world-IsOwned listener s s' refl refl o)) o))
            o))
        o
