-- ===== src/Proxy/Data/Relay.antt =====
-- What `handle_recv` of src/proxy.c does to the bytes on their way from one side of a connection
-- to the other, each side plain or encrypted.
pub mod Sent
pub mod Tests
use nacl_proxy.Base.{
  ℕ, Bool, ◌≡◌, ◌≢◌, ◌<◌, ◌≤◌, refl, sym, ap, ap₂, ◌∙◌, ◌⊎◌, inl, inr, true, false, ◌||◌, ◌&&◌, not,
  Option, none, some, ℤ, minus_one, int_eq, int_eq_iff, ◌==◌, if◌then◌else◌, if_both, Bool-cases,
  List, [], ◌++◌, append_assoc, append-nil, length, take, drop, write, write_self, arith,
}
use nacl_proxy.Errors.{proxy_success, proxy_disconnect, proxy_would_block}
use nacl_proxy.Sys.{Env, Res, ok, msg_nosignal}
use nacl_proxy.Sys.Laws.{SendLaws, RecvLaws, Apart}
use nacl_proxy.Event.{Mask}
use nacl_proxy.Buf.{Buf, Net, buf_size, buf_recv, buf_send}
use nacl_proxy.Netnacl.{nonce_bytes}
use nacl_proxy.Netnacl.Laws.{CryptoLaws}
use nacl_proxy.Buf.Hands.{Hands, Hands-moved, buf_recv-Received}
use nacl_proxy.Buf.Takes.Sends.{IsFormed, Takes, Takes-next, Takes-moved}
use nacl_proxy.Proxy.{
  Conn, State, System, Run, done, fault, ◌>>=◌, ended, deref, put_conn, Side, invalid, client,
  server, net_of, with_net, buf_to, with_buf, other, pollin, pollinout,
}
use nacl_proxy.Proxy.Owned.{put_conn_self}
use nacl_proxy.Proxy.Close.Closes.{closes, closed-gone}
use nacl_proxy.Proxy.Data.{
  modify_event, drop_side, close_with, forward, after_recv, recv_from, handle_recv, after_send,
  send_to, handle_send,
}
use nacl_proxy.Proxy.Data.Safe.{modify_event-there, not_success}
use nacl_proxy.Proxy.Data.Carried.{Surely, deref-Surely, RelayLaws, Carried}

emptied :
    (b : Buf)
    → b.size ≡ 0
    → b.read_pos ≡ 0
    → b ≡ record { size = 0; read_pos = 0; contents = b.contents }
emptied b s r = ap₂ (λ x y. record { size = x; read_pos = y; contents = b.contents }) s r

at_start : (b : Buf) → IsFormed b → b.size ≡ 0 → b.read_pos ≡ 0
at_start b (len, inl (s, r)) empty = r
at_start b (len, inr (less, most)) empty = absurd (omega (arith, less, empty))

module _ {A W : Type 0} (sys : System A W) (outbox inbox : ℤ → W → List ℕ)
    (laws : RelayLaws sys outbox inbox) (key before stream : List ℕ) where
  abbrev pub CarriedTo : Side → Conn → Env W → Type 0
  CarriedTo to c env =
      Carried sys outbox inbox laws key before stream (net_of (other to) c) (net_of to c)
        (buf_to to c) env

  -- A connection carries its stream, or is gone and the code is not the one of success.
  abbrev pub Relays : Side → ℕ → ℤ × State A W → Type 0
  Relays to p r =
      (r.0 ≢ proxy_success) × (r.1.conns p ≡ none)
      ⊎ ((c : Conn) × (r.1.conns p ≡ some c) × CarriedTo to c r.1.env)

  pub close_with-Relays :
      (to : Side) (code : ℤ) (p : ℕ) (c : Conn) (s : State A W)
      → s.conns p ≡ some c
      → code ≢ proxy_success
      → Surely (Relays to p) (close_with sys code p s)
  unfolding close_with Surely
  close_with-Relays to code p c s e bad = rw (closes sys p c s e) (inl (bad, closed-gone sys p c s))

  forward-Relays :
      (to : Side) (fd : ℤ) (p : ℕ) (c : Conn) (s : State A W)
      → s.conns p ≡ some c
      → CarriedTo to c s.env
      → Surely (Relays to p) (forward sys fd p s)
  unfolding forward modify_event Surely
  forward-Relays to fd p c s e h =
      if_both (Surely (Relays to p)) (int_eq minus_one fd) _ _
        (close_with-Relays to proxy_disconnect p c s e (λ same. cc)) (inr (c, e, h))

  -- A side that has handed out all may be closed.
  source_gone :
      (fd : ℤ) (from from' to : Net) (b : Buf) (env : Env W)
      → from'.sock_fd ≡ minus_one
      → (h : Carried sys outbox inbox laws key before stream from to b env) → h.rest ≡ []
      → Carried sys outbox inbox laws key before stream from' to b (sys.close fd env)
  source_gone fd from from' to b env gone h none_left = record {
    taken = h.taken;
    rest = h.rest;
    formed = h.formed;
    out =
        Takes-moved sys.crypto outbox inbox key before b h.taken to env (sys.close fd env)
          b.read_pos (laws.close_outbox fd to.sock_fd env) h.out;
    total = h.total;
    unread = inl (gone, none_left);
  }

  dropped_lem :
      (side : Side) (c : Conn) (s : State A W)
      → (h : CarriedTo (other side) c s.env) → h.rest ≡ []
      → let (c', s') = drop_side sys side c s in CarriedTo (other side) c' s'.env
  unfolding drop_side
  dropped_lem client c s h none_left =
      source_gone c.client.sock_fd c.client _ c.server c.server_send_buf s.env refl h none_left
  dropped_lem server c s h none_left =
      source_gone c.server.sock_fd c.server _ c.client c.client_send_buf s.env refl h none_left
  dropped_lem invalid c s h none_left =
      source_gone c.server.sock_fd c.server _ c.client c.client_send_buf s.env refl h none_left

  all_read :
      {rest : List ℕ} (err : ℤ) (some_left : Bool)
      → int_eq proxy_disconnect err && some_left ≡ true
      → (err ≢ proxy_disconnect) ⊎ (rest ≡ [])
      → rest ≡ []
  all_read err some_left over (inr none_left) = none_left
  all_read err some_left over (inl going) =
      let same : int_eq proxy_disconnect err ≡ true = ground (arith, over) in
      absurd (going (sym ((int_eq_iff proxy_disconnect err).0 same)))

  after_recv-Relays :
      (side : Side) (p : ℕ) (err : ℤ) (c : Conn) (s : State A W)
      → (h : CarriedTo (other side) c s.env) → (err ≢ proxy_disconnect) ⊎ (h.rest ≡ [])
      → Surely (Relays (other side) p) (after_recv sys side p err c s)
  unfolding after_recv Surely
  after_recv-Relays side p err c s h finished =
      let to : Side = other side in
      let fd : ℤ = (net_of to c).sock_fd in
      let (c', s') = drop_side sys side c s in
      let e : (put_conn p c s).conns p ≡ some c = put_conn_self p c s in
      elim (Bool-cases (int_eq proxy_success err)) [
        | inl good ↦ rw good (forward-Relays to fd p c (put_conn p c s) e h)
        | inr bad ↦
            rw bad
              (elim (Bool-cases (int_eq proxy_disconnect err && not ((buf_to to c).size == 0))) [
                | inl over ↦ rw over (
                    forward-Relays to fd p c' (put_conn p c' s') (put_conn_self p c' s')
                      (dropped_lem side c s h (all_read err _ over finished)))
                | inr other_code ↦ rw other_code (
                    if_both (Surely (Relays to p)) (int_eq proxy_would_block err) _ _
                      (inr (c, e, h))
                      (close_with-Relays to err p c (put_conn p c s) e (not_success err bad)))
              ])
      ]

  stored_recv :
      (side : Side) (c : Conn) (net : Net) (b : Buf) (env : Env W)
      → Carried sys outbox inbox laws key before stream net (net_of (other side) c) b env
      → CarriedTo (other side) (with_buf (other side) b (with_net side net c)) env
  stored_recv client c net b env h = h
  stored_recv server c net b env h = h
  stored_recv invalid c net b env h = h

  stored_rest :
      (side : Side) (c : Conn) (net : Net) (b : Buf) (env : Env W)
      (h : Carried sys outbox inbox laws key before stream net (net_of (other side) c) b env)
      {P : Type 0}
      → P ⊎ (h.rest ≡ [])
      → P ⊎ ((stored_recv side c net b env h).rest ≡ [])
  unfolding stored_recv
  stored_rest client c net b env h finished = finished
  stored_rest server c net b env h finished = finished
  stored_rest invalid c net b env h finished = finished

  recv_side :
      (side : Side) (c : Conn) (env : Env W)
      → CarriedTo (other side) c env
      → Carried sys outbox inbox laws key before stream
          (net_of side c)
          (net_of (other side) c)
          (buf_to (other side) c)
          env
  recv_side client c env h = h
  recv_side server c env h = h
  recv_side invalid c env h = h

  refilled :
      (from to : Net) (b : Buf) (env : Env W)
      (h : Carried sys outbox inbox laws key before stream from to b env)
      → b.size ≡ 0
      → b.read_pos ≡ 0
      → (net : Net) (b' : Buf) (env' : Env W) (rest : List ℕ)
      → take b'.size b'.contents ++ rest ≡ h.rest
      → Hands sys.socket outbox inbox laws.recvs laws.apart sys.crypto laws.ciphers 0 net env' rest
      → b'.read_pos ≡ 0
      → b'.size ≤ buf_size
      → length b'.contents ≡ buf_size
      → ((g : ℤ) → outbox g env'.world ≡ outbox g env.world)
      → Carried sys outbox inbox laws key before stream net to b' env'
  refilled from to b env h empty start net b' env' rest total unread pos most len quiet = record {
    taken = h.taken;
    rest = rest;
    formed = (
      len,
      elim (Bool-cases (b'.size == 0)) [
        | inl none_there ↦ inl (ground (arith, none_there), pos)
        | inr some_there ↦ inr (ground (arith, some_there, pos), most)
      ],
    );
    out = rw pos (
        Takes-moved sys.crypto outbox inbox key before b' h.taken to env env' 0 (quiet to.sock_fd) (
          Takes-next sys.crypto outbox inbox key before b b' h.taken h.taken to env 0
            (omega (arith, empty)) (sym (append-nil h.taken)) (rw start at h.out)));
    total = rw (append_assoc, total) (rw (empty, append-nil) at h.total);
    unread = inr unread;
  }

  -- What `buf_recv` puts into an empty buffer comes after what is out.
  received_lem :
      (from to : Net) (b : Buf) (env : Env W)
      → Carried sys outbox inbox laws key before stream from to b env
      → from.sock_fd ≢ minus_one
      → b.size ≡ 0
      → (code : ℤ) × (net : Net) × (b' : Buf) × (env' : Env W) × (buf_recv sys.socket sys.crypto 0
            from b env
          ≡ ok (code, net, b', env'))
        × ((h' : Carried sys outbox inbox laws key before stream net to b' env') × ((code
                ≢ proxy_disconnect)
              ⊎ (h'.rest ≡ [])))
  unfolding refilled
  received_lem from to b env h open_still empty = elim h.unread [
    | inl (gone, none_left) ↦ absurd (open_still gone)
    | inr unread ↦
        let start : b.read_pos ≡ 0 = at_start b h.formed empty in
        let (code, net, b', env', rest, r, total, unread', pos, most, len, quiet, finished) =
          buf_recv-Received sys.socket outbox inbox laws.recvs laws.apart sys.crypto laws.ciphers 0
            from b.contents env h.rest h.formed.0 unread in
        (
          code,
          net,
          b',
          env',
          ap (λ x. buf_recv sys.socket sys.crypto 0 from x env) (emptied b empty start) ∙ r,
          (
            refilled from to b env h empty start net b' env' rest total unread' pos most len quiet,
            finished,
          ),
        )
  ]

  recv_from-Relays :
      (side : Side) (p : ℕ) (c : Conn) (s : State A W)
      → s.conns p ≡ some c
      → (net_of side c).sock_fd ≢ minus_one
      → CarriedTo (other side) c s.env
      → Surely (Relays (other side) p) (recv_from sys side p s)
  unfolding recv_from Surely
  recv_from-Relays side p c s e open_still h =
      deref-Surely _ p c s _ e (elim (Bool-cases ((buf_to (other side) c).size == 0)) [
        | inr full ↦ rw full (inr (c, e, h))
        | inl room ↦
            let empty : (buf_to (other side) c).size ≡ 0 = ground (arith, room) in
            let (code, net, b, env, r, (h', finished)) =
              received_lem (net_of side c) (net_of (other side) c) (buf_to (other side) c) s.env
                (recv_side side c s.env h) open_still empty in
            rw (room, r)
              (after_recv-Relays side p code (with_buf (other side) b (with_net side net c))
                (record s { env = env }) (stored_recv side c net b env h')
                (stored_rest side c net b env h' finished))
      ])

  -- A connection, each side plain or encrypted, carries a stream to a side, and the other side is there:
  -- then `handle_recv` from the other side returns, and either the connection is gone and the code is not
  -- PROXY_SUCCESS, or it carries the same stream, which is what the side has taken, what is in the buffer and
  -- what the other side has still to hand out: no byte of it is lost, repeated or out of order, and the other
  -- side is closed only with nothing left to hand out. An encrypted side has it as the texts of messages,
  -- under a cipher that opens what it has sealed. The sockets take and yield bytes in any pieces, and yield
  -- none only at the end of the stream.
  pub handle_recv-Relays :
      (to : Side) (p : ℕ) (c : Conn) (s : State A W)
      → s.conns p ≡ some c
      → (net_of (other to) c).sock_fd ≢ minus_one
      → CarriedTo to c s.env
      → Surely (Relays to p) (handle_recv sys p (other to) s)
  unfolding handle_recv Surely
  handle_recv-Relays client p c s e there h = recv_from-Relays server p c s e there h
  handle_recv-Relays server p c s e there h = recv_from-Relays client p c s e there h
  handle_recv-Relays invalid p c s e there h = recv_from-Relays client p c s e there h
