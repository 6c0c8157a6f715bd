-- ===== src/Proxy/Data/Relay/Sent.antt =====
-- What `handle_send` of src/proxy.c does to the bytes on their way to a side of a connection, plain or
-- encrypted.
use nacl_proxy.Base.{
  ℕ, ap, ◌≡◌, ◌∙◌, ◌⊎◌, inl, inr, some, ℤ, minus_one, int_eq, if_both, Bool-cases, List, [], ◌++◌,
}
use nacl_proxy.Errors.{proxy_success, proxy_disconnect, proxy_would_block}
use nacl_proxy.Sys.{Env, ok, msg_nosignal}
use nacl_proxy.Buf.{Buf, Net, buf_send}
use nacl_proxy.Buf.Hands.{Hands, Hands-moved}
use nacl_proxy.Buf.Takes.Sends.{buf_send-Sent}
use nacl_proxy.Proxy.{
  Conn, State, System, put_conn, Side, invalid, client, server, net_of, with_net, buf_to, with_buf,
  other,
}
use nacl_proxy.Proxy.Owned.{put_conn_self}
use nacl_proxy.Proxy.Data.{modify_event, after_send, send_to, handle_send}
use nacl_proxy.Proxy.Data.Safe.{not_success}
use nacl_proxy.Proxy.Data.Carried.{Surely, deref-Surely, RelayLaws, Carried}
use nacl_proxy.Proxy.Data.Relay.{CarriedTo, Relays, close_with-Relays}

module _ {A W : Type 0} (sys : System A W) (outbox inbox : ℤ → W → List ℕ)
    (laws : RelayLaws sys outbox inbox) (key before stream : List ℕ) where
  still :
      (from : Net) (env env' : Env W) (rest : List ℕ)
      → ((g : ℤ) → inbox g env'.world ≡ inbox g env.world)
      → (from.sock_fd ≡ minus_one) × (rest ≡ [])
        ⊎ Hands sys.socket outbox inbox laws.recvs laws.apart sys.crypto laws.ciphers 0 from env
            rest
      → (from.sock_fd ≡ minus_one) × (rest ≡ [])
        ⊎ Hands sys.socket outbox inbox laws.recvs laws.apart sys.crypto laws.ciphers 0 from env'
            rest
  still from env env' rest quiet (inl (gone, none_left)) = inl (gone, none_left)
  still from env env' rest quiet (inr unread) = inr (
      Hands-moved sys.socket outbox inbox laws.recvs laws.apart sys.crypto laws.ciphers 0 from env
        env' rest quiet unread)

  -- What `buf_send` leaves in a buffer is what has not gone out.
  sent_lem :
      (from to : Net) (b : Buf) (env : Env W)
      → Carried sys outbox inbox laws key before stream from to b env
      → (code : ℤ) × (net : Net) × (b' : Buf) × (env' : Env W) × (buf_send sys.socket sys.crypto
            (sys.nonces env)
            msg_nosignal
            to
            b
            env
          ≡ ok (code, net, b', env'))
        × Carried sys outbox inbox laws key before stream from net b' env'
  sent_lem from to b env h =
      let (code, net, b', env', taken, r, out, moved, formed, quiet) =
        buf_send-Sent sys.socket outbox inbox laws.sends laws.apart sys.crypto laws.ciphers
          (sys.nonces env) msg_nosignal (laws.nonce_size env) key before b h.taken to env h.formed
          h.out in
      (
        code,
        net,
        b',
        env',
        r,
        record {
          taken = taken;
          rest = h.rest;
          formed = formed;
          out = out;
          total = ap (λ l. l ++ h.rest) moved ∙ h.total;
          unread = still from env env' h.rest quiet h.unread;
        },
      )

  stored_sent :
      (to : Side) (c : Conn) (net : Net) (b : Buf) (env : Env W)
      → Carried sys outbox inbox laws key before stream (net_of (other to) c) net b env
      → CarriedTo sys outbox inbox laws key before stream to (with_buf to b (with_net to net c)) env
  stored_sent client c net b env h = h
  stored_sent server c net b env h = h
  stored_sent invalid c net b env h = h

  after_send-Relays :
      (to : Side) (p : ℕ) (err : ℤ) (c : Conn) (s : State A W)
      → CarriedTo sys outbox inbox laws key before stream to c s.env
      → Surely (Relays sys outbox inbox laws key before stream to p) (after_send sys to p err c s)
  unfolding after_send modify_event Surely
  after_send-Relays to p err c s h =
      let e : (put_conn p c s).conns p ≡ some c = put_conn_self p c s in
      elim (Bool-cases (int_eq proxy_success err)) [
        | inl good ↦ rw good (
            if_both (Surely (Relays sys outbox inbox laws key before stream to p))
              (int_eq minus_one (net_of (other to) c).sock_fd) _ _
              (close_with-Relays sys outbox inbox laws key before stream to proxy_disconnect p c
                (put_conn p c s) e (λ same. cc))
              (inr (c, e, h)))
        | inr bad ↦ rw bad (
            if_both (Surely (Relays sys outbox inbox laws key before stream to p))
              (int_eq proxy_would_block err) _ _ (inr (c, e, h))
              (close_with-Relays sys outbox inbox laws key before stream to err p c (put_conn p c s)
                e (not_success err bad)))
      ]

  send_to-Relays :
      (to : Side) (p : ℕ) (c : Conn) (s : State A W)
      → s.conns p ≡ some c
      → CarriedTo sys outbox inbox laws key before stream to c s.env
      → Surely (Relays sys outbox inbox laws key before stream to p) (send_to sys to p s)
  unfolding send_to Surely
  send_to-Relays to p c s e h =
      let (code, net, b, env, r, h') =
        sent_lem (net_of (other to) c) (net_of to c) (buf_to to c) s.env h in
      deref-Surely _ p c s _ e (
        rw r (
          after_send-Relays to p code (with_buf to b (with_net to net c)) (record s { env = env })
            (stored_sent to c net b env h')))

  -- A connection, each side plain or encrypted, carries a stream to a side: then `handle_send` to the side
  -- returns, and either the connection is gone and the code is not PROXY_SUCCESS, or it carries the same
  -- stream, what has gone out being behind what the side had taken, and what has not still in the buffer. To an encrypted side the bytes go in the
  -- frames of messages, under a cipher that opens what it has sealed and nonces of the right size. The
  -- sockets take and yield bytes in any pieces.
  pub handle_send-Relays :
      (to : Side) (p : ℕ) (c : Conn) (s : State A W)
      → s.conns p ≡ some c
      → CarriedTo sys outbox inbox laws key before stream to c s.env
      → Surely (Relays sys outbox inbox laws key before stream to p) (handle_send sys p to s)
  unfolding handle_send Surely
  handle_send-Relays client p c s e h = send_to-Relays client p c s e h
  handle_send-Relays server p c s e h = send_to-Relays server p c s e h
  handle_send-Relays invalid p c s e h = inr (c, e, h)
