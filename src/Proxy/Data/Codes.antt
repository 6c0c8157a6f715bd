-- ===== src/Proxy/Data/Codes.antt =====
-- The codes that the data callback of src/proxy.c returns to the event loop.
use nacl_proxy.Base.{
  ℕ, ◌≡◌, refl, ◌⊎◌, inl, inr, true, false, ◌||◌, ◌&&◌, not, Option, none, some, ℤ, minus_one,
  int_eq, is_nonneg, ◌==◌, if◌then◌else◌, if_both, Bool-cases,
}
use nacl_proxy.Errors.{proxy_success, proxy_disconnect, proxy_would_block, proxy_err}
use nacl_proxy.Sys.{Res, ok, overflow, exited, out_of_fuel, msg_nosignal}
use nacl_proxy.Event.{Mask, has_flags}
use nacl_proxy.Event.Found.{event_modify-codes}
use nacl_proxy.Buf.{buf_recv, buf_send}
use nacl_proxy.Sys.Gives.{Gives}
use nacl_proxy.Buf.Codes.{Listed, buf_recv-Listed, buf_send-Listed}
use nacl_proxy.Proxy.{
  Conn, Ptr, State, System, Run, done, fault, ◌>>=◌, ended, deref, put_conn, Side, invalid, client,
  server, net_of, buf_to, other, as_conn, pollin, pollinout,
}
use nacl_proxy.Proxy.Close.{close_connection}
use nacl_proxy.Proxy.Data.{
  modify_event, drop_side, close_with, forward, after_recv, recv_from, handle_recv, after_send,
  send_to, handle_send, serve, serve_conn, handle_conn, conn_callback,
}

-- The result of a run, if it has one, satisfies `P`.
unfoldable pub Ends : {X : Type 0} → (X → Type 0) → Run X → Type 0
Ends P (done x) = P x
Ends P (fault f) = Unit

Ends-bind :
    {X Y : Type 0} (P : X → Type 0) (Q : Y → Type 0) (m : Run X) (f : X → Run Y)
    → Ends P m
    → ((x : X) → P x → Ends Q (f x))
    → Ends Q (m >>= f)
unfolding Ends
Ends-bind P Q (done x) f h k = k x h
Ends-bind P Q (fault e) f h k = _

-- a run whose result nothing is asked of
any_end : {X : Type 0} (m : Run X) → Ends (λ x. Unit) m
unfolding Ends
any_end (done x) = _
any_end (fault f) = _

ended-Ends : {X : Type 0} (P : X → Type 0) (r : Res X) → Gives P r → Ends P (ended r)
unfolding Gives Ends
ended-Ends P (ok x) h = h
ended-Ends P overflow h = _
ended-Ends P exited h = _
ended-Ends P out_of_fuel h = _

-- success or PROXY_ERR
abbrev pub IsPlain : ℤ → Type 0
IsPlain code = (code ≡ proxy_success) ⊎ (code ≡ proxy_err)

-- success, PROXY_ERR or PROXY_DISCONNECT
abbrev IsClosing : ℤ → Type 0
IsClosing code = (code ≡ proxy_success) ⊎ (code ≡ proxy_err) ⊎ (code ≡ proxy_disconnect)

closing : (code : ℤ) → Listed code → int_eq proxy_would_block code ≡ false → IsClosing code
closing code (inl e) h = inl e
closing code (inr (inl e)) h = inr (inl e)
closing code (inr (inr (inl e))) h = inr (inr e)
closing code (inr (inr (inr e))) h = let clash : true ≡ false = rw e at h in absurd cc

plain :
    (code : ℤ)
    → IsClosing code
    → IsPlain (if int_eq proxy_disconnect code then proxy_success else code)
plain code (inl e) = rw e (inl refl)
plain code (inr (inl e)) = rw e (inr refl)
plain code (inr (inr e)) = rw e (inl refl)

module _ {A W : Type 0} (sys : System A W) where
  abbrev EndsClosing : Run (ℤ × State A W) → Type 0
  EndsClosing = Ends λ (code, s). IsClosing code

  modify_event-IsClosing :
      (efd : ℤ) (events : Mask) (s : State A W) → IsClosing (modify_event sys efd events s).0
  unfolding modify_event
  modify_event-IsClosing efd events s = elim (event_modify-codes efd events s.table) [
    | inl good ↦ inl good
    | inr bad ↦ inr (inl bad)
  ]

  close_with-IsClosing :
      (code : ℤ) (p : ℕ) (s : State A W) → IsClosing code → EndsClosing (close_with sys code p s)
  unfolding close_with Ends
  close_with-IsClosing code p s h =
      Ends-bind (λ x. Unit) (λ (code, s). IsClosing code) (close_connection sys p s) _
        (any_end (close_connection sys p s)) λ s' u. h

  forward-IsClosing : (fd : ℤ) (p : ℕ) (s : State A W) → EndsClosing (forward sys fd p s)
  unfolding forward Ends
  forward-IsClosing fd p s =
      if_both EndsClosing (int_eq minus_one fd) _ _
        (close_with-IsClosing proxy_disconnect p s (inr (inr refl)))
        (modify_event-IsClosing fd pollinout s)

  after_recv-IsClosing :
      (side : Side) (p : ℕ) (err : ℤ) (c : Conn) (s : State A W)
      → Listed err
      → EndsClosing (after_recv sys side p err c s)
  unfolding after_recv Ends
  after_recv-IsClosing side p err c s h =
      let fd : ℤ = (net_of (other side) c).sock_fd in
      let (c', s') = drop_side sys side c s in
      if_both EndsClosing (int_eq proxy_success err) _ _ (forward-IsClosing fd p (put_conn p c s)) (
        if_both EndsClosing (int_eq proxy_disconnect err && not ((buf_to (other side) c).size == 0))
          _ _ (forward-IsClosing fd p (put_conn p c' s'))
          (elim (Bool-cases (int_eq proxy_would_block err)) [
            | inl wait ↦ rw wait (inl refl)
            | inr over ↦ rw over (close_with-IsClosing err p (put_conn p c s) (closing err h over))
          ]))

  recv_from-IsClosing : (side : Side) (p : ℕ) (s : State A W) → EndsClosing (recv_from sys side p s)
  unfolding recv_from Ends
  recv_from-IsClosing side p s =
      Ends-bind (λ c. Unit) _ (deref p s) _ (any_end (deref p s))
        λ c u.
          let received =
            buf_recv sys.socket sys.crypto 0 (net_of side c) (buf_to (other side) c) s.env in
          if_both EndsClosing ((buf_to (other side) c).size == 0) _ _
            (Ends-bind (λ (code, net, buf, env). Listed code) _ (ended received) _
              (ended-Ends _ received (
                buf_recv-Listed sys.socket sys.crypto 0 (net_of side c) (buf_to (other side) c)
                  s.env))
              λ (err, net, buf, env) h.
                after_recv-IsClosing side p err _ (record s { env = env }) h)
            (inl refl)

  handle_recv-IsClosing :
      (p : ℕ) (side : Side) (s : State A W) → EndsClosing (handle_recv sys p side s)
  unfolding handle_recv Ends
  handle_recv-IsClosing p invalid s = inr (inl refl)
  handle_recv-IsClosing p client s = recv_from-IsClosing client p s
  handle_recv-IsClosing p server s = recv_from-IsClosing server p s

  after_send-IsClosing :
      (side : Side) (p : ℕ) (err : ℤ) (c : Conn) (s : State A W)
      → Listed err
      → EndsClosing (after_send sys side p err c s)
  unfolding after_send Ends
  after_send-IsClosing side p err c s h =
      if_both EndsClosing (int_eq proxy_success err) _ _
        (if_both EndsClosing (int_eq minus_one (net_of (other side) c).sock_fd) _ _
          (close_with-IsClosing proxy_disconnect p (put_conn p c s) (inr (inr refl)))
          (modify_event-IsClosing (net_of side c).sock_fd pollin (put_conn p c s)))
        (elim (Bool-cases (int_eq proxy_would_block err)) [
          | inl wait ↦ rw wait (inl refl)
          | inr over ↦ rw over (close_with-IsClosing err p (put_conn p c s) (closing err h over))
        ])

  send_to-IsClosing : (side : Side) (p : ℕ) (s : State A W) → EndsClosing (send_to sys side p s)
  unfolding send_to Ends
  send_to-IsClosing side p s =
      Ends-bind (λ c. Unit) _ (deref p s) _ (any_end (deref p s))
        λ c u.
          let sent =
            buf_send sys.socket sys.crypto (sys.nonces s.env) msg_nosignal (net_of side c)
              (buf_to side c) s.env in
          Ends-bind (λ (code, net, buf, env). Listed code) _ (ended sent) _
            (ended-Ends _ sent (
              buf_send-Listed sys.socket sys.crypto msg_nosignal (sys.nonces s.env) (net_of side c)
                (buf_to side c) s.env))
            λ (err, net, buf, env) h. after_send-IsClosing side p err _ (record s { env = env }) h

  handle_send-IsClosing :
      (p : ℕ) (side : Side) (s : State A W) → EndsClosing (handle_send sys p side s)
  unfolding handle_send Ends
  handle_send-IsClosing p invalid s = inr (inl refl)
  handle_send-IsClosing p client s = send_to-IsClosing client p s
  handle_send-IsClosing p server s = send_to-IsClosing server p s

  abbrev pub EndsPlain : Run (ℤ × State A W) → Type 0
  EndsPlain = Ends λ (code, s). IsPlain code

  serve-IsPlain :
      (revents : Mask) (p : ℕ) (side : Side) (s : State A W)
      → EndsPlain (serve sys revents p side s)
  unfolding serve Ends
  serve-IsPlain revents p side s =
      Ends-bind (λ (code, s'). IsClosing code) _
        (if revents.pollin then handle_recv sys p side s else done (proxy_success, s)) _
        (if_both EndsClosing revents.pollin _ _ (handle_recv-IsClosing p side s) (inl refl))
        λ (err, s') h.
          Ends-bind (λ (code, s''). IsClosing code) _
            (if revents.pollout && int_eq proxy_success err
              then handle_send sys p side s'
              else done (err, s'))
            _
            (if_both EndsClosing (revents.pollout && int_eq proxy_success err) _ _
              (handle_send-IsClosing p side s') h)
            λ (err', s'') h'. plain err' h'

  -- For any flags and any state of the connection, the code of `conn_callback` is PROXY_SUCCESS or
  -- PROXY_ERR, if it returns: no disconnect and no call that would block is passed on to the event loop.
  pub conn_callback-codes :
      (conn_fd : ℤ) (revents : Mask) (p_data : Option Ptr) (s : State A W)
      → EndsPlain (conn_callback sys conn_fd revents p_data s)
  unfolding conn_callback handle_conn serve_conn close_with Ends
  conn_callback-codes conn_fd revents none s = inr refl
  conn_callback-codes conn_fd revents (some p_data) s =
      if_both EndsPlain (is_nonneg conn_fd && has_flags revents) _ _
        (Ends-bind (λ p. Unit) _ (as_conn p_data) _ (any_end (as_conn p_data))
          λ p u. if_both EndsPlain revents.pollnval _ _ (inr refl) (
            if_both EndsPlain (revents.pollerr || revents.pollhup) _ _
              (Ends-bind (λ x. Unit) _ (close_connection sys p s) _
                (any_end (close_connection sys p s)) λ s' v. inl refl)
              (Ends-bind (λ c. Unit) _ (deref p s) _ (any_end (deref p s))
                λ c v.
                  if_both EndsPlain (int_eq conn_fd c.client.sock_fd) _ _
                    (serve-IsPlain revents p client s)
                    (if_both EndsPlain (int_eq conn_fd c.server.sock_fd) _ _
                      (serve-IsPlain revents p server s) (inr refl)))))
        (inr refl)
