-- ===== src/Proxy/Handshake/Safe.antt =====
-- `handshake_callback` of src/proxy.c follows no bad pointer and leaves none in the event table.
use nacl_proxy.Base.{
  ℕ, Bool, ◌≡◌, ◌≢◌, refl, inl, inr, true, false, ◌||◌, ◌&&◌, Option, none, some, ℤ, int_eq,
  int_eq_iff, is_nonneg, ltb, if◌then◌else◌, Bool-cases,
}
use nacl_proxy.Errors.{proxy_success, proxy_err, nn_success, nn_want_read, nn_want_write}
use nacl_proxy.Sys.{Res, ok, overflow, exited, out_of_fuel}
use nacl_proxy.Event.{Mask, has_flags, event_remove}
use nacl_proxy.Netnacl.{Netnacl}
use nacl_proxy.Netnacl.Wrap.{netnacl_wrap}
use nacl_proxy.Buf.{Net}
use nacl_proxy.Proxy.{
  Conn, Callback, on_accept, on_conn, conn_ptr, State, System, ended, put_conn, Side, invalid,
  client, server, net_of, with_net, buf_to, pollin, pollout,
}
use nacl_proxy.Proxy.Owned.{
  Holds, IsOwned, Safely, Safely-bind, put_conn_self, remove-IsOwned, add-IsOwned, put-IsOwned,
  world-IsOwned,
}
use nacl_proxy.Proxy.Data.Safe.{
  with_net-Holds, deref-Safely, Safe, close_with-Safe, modify_event-IsOwned, modify_event-there,
}
use nacl_proxy.Proxy.Handshake.{
  add_event, after_wrap, wrap_with, context_of, handshake_on, do_handshake, handshake_fd,
  end_handshake, handle_handshake, handshake_callback,
}

-- a run of src/netnacl follows no pointer to a connection
ended-Safely_lem : {X : Type 0} (r : Res X) → Safely (λ x. Unit) (ended r)
unfolding Safely
ended-Safely_lem (ok x) = _
ended-Safely_lem overflow = _
ended-Safely_lem exited = _
ended-Safely_lem out_of_fuel = _

-- a test of the code that has found a descriptor
held_by : (x y : ℤ) (c : Conn) → int_eq x y ≡ true → Holds x c → Holds y c
held_by x y c same has = rw (← (int_eq_iff x y).0 same) has

abbrev pub is_accept : Callback → Bool
is_accept on_accept = true
is_accept _ = false

-- Only the listener has the callback `accept_callback`.
pub not_accept : (callback : Callback) → is_accept callback ≡ false → some callback ≢ some on_accept
not_accept callback h same = cc

module _ {A W : Type 0} (sys : System A W) (listener : ℤ) where
  -- A connection is still allocated.
  abbrev pub Keeps : ℕ → ℤ × State A W → Type 0
  Keeps p r = IsOwned listener r.1 × ((c : Conn) × (r.1.conns p ≡ some c))

  after_wrap-Keeps :
      (fd : ℤ) (events : Mask) (err : ℤ) (p : ℕ) (c : Conn) (s : State A W)
      → Holds fd c
      → s.conns p ≡ some c
      → IsOwned listener s
      → Keeps p (after_wrap sys fd events err p s)
  unfolding after_wrap add_event
  after_wrap-Keeps fd events err p c s has e o = elim (Bool-cases (int_eq nn_success err)) [
    | inl good ↦ rw good (
      add-IsOwned listener (record s { table = (event_remove fd s.table).1 }) fd events (conn_ptr p)
          on_conn (remove-IsOwned listener s fd o) (not_accept on_conn refl, rw e has),
      (c, e),
    )
    | inr bad ↦ elim (Bool-cases (int_eq nn_want_read err)) [
      | inl input ↦
          rw (bad, input)
            (
              modify_event-IsOwned sys listener fd pollin s o,
              (c, modify_event-there sys fd pollin p c s e),
            )
      | inr no_input ↦ elim (Bool-cases (int_eq nn_want_write err)) [
        | inl output ↦
            rw (bad, no_input, output)
              (
                modify_event-IsOwned sys listener fd pollout s o,
                (c, modify_event-there sys fd pollout p c s e),
              )
        | inr over ↦ rw (bad, no_input, over) (o, (c, e))
      ]
    ]
  ]

  wrap_with-Keeps :
      (side : Side) (p : ℕ) (c : Conn) (nn : Option Netnacl) (s : State A W)
      → Holds (net_of side c).sock_fd c
      → s.conns p ≡ some c
      → IsOwned listener s
      → Safely (Keeps p) (wrap_with sys side p c nn s)
  unfolding wrap_with Safely
  wrap_with-Keeps side p c none s has e o = (o, (c, e))
  wrap_with-Keeps side p c (some nn) s has e o =
      Safely-bind (λ x. Unit) _
        (ended (netnacl_wrap sys.socket sys.crypto (sys.secret s.env) nn s.env)) _
        (ended-Safely_lem (netnacl_wrap sys.socket sys.crypto (sys.secret s.env) nn s.env))
        λ (err, nn', env) h.
          let net : Net = record (net_of side c) { netnacl = some nn' } in
          let c' : Conn = with_net side net c in
          let s' : State A W = record s { env = env } in
          after_wrap-Keeps (net_of side c).sock_fd
            (if ltb 0 (buf_to side c).size then pollout else pollin) err p c' (put_conn p c' s')
            (with_net-Holds side c net (net_of side c).sock_fd refl has) (put_conn_self p c' s')
            (put-IsOwned listener s' p c' (world-IsOwned listener s s' refl refl o)
              λ x held. with_net-Holds side c net x refl (rw e at held))

  handshake_on-Keeps :
      (side : Side) (p : ℕ) (c : Conn) (s : State A W)
      → Holds (net_of side c).sock_fd c
      → s.conns p ≡ some c
      → IsOwned listener s
      → Safely (Keeps p) (handshake_on sys side p s)
  unfolding handshake_on Safely
  handshake_on-Keeps side p c s has e o =
      deref-Safely _ p c s _ e (elim (Bool-cases (net_of side c).b_encrypted) [
        | inl encrypted ↦ rw encrypted (
            wrap_with-Keeps side p c (context_of sys (net_of side c) s (net_of side c).netnacl) s
              has e o)
        | inr plain ↦ rw plain (o, (c, e))
      ])

  do_handshake-Keeps :
      (p : ℕ) (side : Side) (c : Conn) (s : State A W)
      → Holds (net_of side c).sock_fd c
      → s.conns p ≡ some c
      → IsOwned listener s
      → Safely (Keeps p) (do_handshake sys p side s)
  unfolding do_handshake Safely
  do_handshake-Keeps p invalid c s has e o = (o, (c, e))
  do_handshake-Keeps p client c s has e o = handshake_on-Keeps client p c s has e o
  do_handshake-Keeps p server c s has e o = handshake_on-Keeps server p c s has e o

  end_handshake-Safe :
      (p : ℕ) (err : ℤ) (c : Conn) (s : State A W)
      → s.conns p ≡ some c
      → IsOwned listener s
      → Safe sys listener (end_handshake sys p err s)
  unfolding end_handshake Safely
  end_handshake-Safe p err c s e o = elim (Bool-cases (int_eq proxy_success err)) [
    | inl good ↦ rw good o
    | inr bad ↦ rw bad (close_with-Safe sys listener _ p c s e o)
  ]

  handshake_fd-Keeps :
      (conn_fd : ℤ) (p : ℕ) (c : Conn) (s : State A W)
      → Holds conn_fd c
      → s.conns p ≡ some c
      → IsOwned listener s
      → Safely (Keeps p) (handshake_fd sys conn_fd p s)
  unfolding handshake_fd Safely
  handshake_fd-Keeps conn_fd p c s has e o =
      deref-Safely _ p c s _ e (elim (Bool-cases (int_eq conn_fd c.client.sock_fd)) [
        | inl client_fd ↦
            rw client_fd (
              do_handshake-Keeps p client c s (held_by conn_fd c.client.sock_fd c client_fd has) e
                o)
        | inr other_fd ↦ elim (Bool-cases (int_eq conn_fd c.server.sock_fd)) [
          | inl server_fd ↦
              rw (other_fd, server_fd)
                (do_handshake-Keeps p server c s (held_by conn_fd c.server.sock_fd c server_fd has)
                  e o)
          | inr neither ↦ rw (other_fd, neither) (o, (c, e))
        ]
      ])

  handle_handshake-Safe :
      (conn_fd : ℤ) (revents : Mask) (p : ℕ) (c : Conn) (s : State A W)
      → Holds conn_fd c
      → s.conns p ≡ some c
      → IsOwned listener s
      → Safe sys listener (handle_handshake sys conn_fd revents p s)
  unfolding handle_handshake Safely
  handle_handshake-Safe conn_fd revents p c s has e o =
      elim (Bool-cases (revents.pollerr || (revents.pollhup || revents.pollnval))) [
        | inl over ↦ rw over (close_with-Safe sys listener proxy_err p c s e o)
        | inr going ↦ rw going (
            Safely-bind (Keeps p) _ (handshake_fd sys conn_fd p s) _
              (handshake_fd-Keeps conn_fd p c s has e o)
              λ (err, s') (o', (c', e')). end_handshake-Safe p err c' s' e' o')
      ]

  -- `handshake_callback`, called for a connection that is allocated and has the descriptor
  pub handshake_callback-Safe :
      (conn_fd : ℤ) (revents : Mask) (p : ℕ) (c : Conn) (s : State A W)
      → Holds conn_fd c
      → s.conns p ≡ some c
      → IsOwned listener s
      → Safe sys listener (handshake_callback sys conn_fd revents (some (conn_ptr p)) s)
  unfolding handshake_callback Safely
  handshake_callback-Safe conn_fd revents p c s has e o =
      elim (Bool-cases (is_nonneg conn_fd && has_flags revents)) [
        | inl fine ↦ rw fine (handle_handshake-Safe conn_fd revents p c s has e o)
        | inr wrong ↦ rw wrong o
      ]
