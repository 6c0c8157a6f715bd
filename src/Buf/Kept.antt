-- ===== src/Buf/Kept.antt =====
-- `buf_send` and `buf_recv` leave the descriptor of a connection and its encryption as they are.
use nacl_proxy.Base.{
  ℕ, zero, suc, ◌+◌, ◌-◌, ◌≡◌, ◌∙◌, refl, Option, none, some, ◌||◌, ◌&&◌, ℤ, pos, int_eq, is_nonneg,
  List, ltb, ◌==◌, if_both, take, drop,
}
use nacl_proxy.Sys.{Socket, Env, Res}
use nacl_proxy.Sys.Laws.{c_recv-world, c_send-world}
use nacl_proxy.Sys.Gives.{Gives, Gives-bind, Gives-weaken}
use nacl_proxy.Netnacl.{Netnacl, Crypto}
use nacl_proxy.Netnacl.Send.Touch.{sending_of, netnacl_send-Touches}
use nacl_proxy.Netnacl.Recv.Touch.{receiving_of, netnacl_recv-Touches}
use nacl_proxy.Netnacl.Send.{netnacl_send}
use nacl_proxy.Netnacl.Recv.{netnacl_recv}
use nacl_proxy.Buf.{
  Buf, Net, buf_size, encrypted_send, plain_send, send_some, send_turn, send_loop, buf_send,
  encrypted_recv, plain_recv, recv_some, recv_turn, recv_loop, buf_recv,
}

-- the descriptor and the encryption of one connection are those of another
pub record SameEnds (net net' : Net) : Type 0 where
  pub fd : net'.sock_fd ≡ net.sock_fd
  pub encrypted : net'.b_encrypted ≡ net.b_encrypted

same : (net : Net) → SameEnds net net
same net = record { fd = refl; encrypted = refl }

both : (a b c : Net) → SameEnds a b → SameEnds b c → SameEnds a c
both a b c h k = record { fd = k.fd ∙ h.fd; encrypted = k.encrypted ∙ h.encrypted }

-- `buf_recv` reaches the world only by `recv`, and the context only in the fields for receiving: `Q` is
-- what these leave alone.
module _ {W : Type 0} (socket : Socket W) (crypto : Crypto) (flags : ℕ) (Q : Net → W → Type 0)
    (kept : (net : Net) (fd : ℤ) (len flags : ℕ) (w : W)
      → Q net w
      → Q net (socket.recv fd len flags w).1)
    (set : (net : Net) (nn by : Netnacl) (w : W)
      → Q (record net { netnacl = some nn }) w
      → Q (record net { netnacl = some (receiving_of nn by) }) w) where
  abbrev pub Stays : Net → ℤ × Net × Buf × Env W → Type 0
  Stays net (code, net', buf, env) = SameEnds net net' × Q net' env.world

  abbrev pub RecvKept : Net → Res (ℤ × Net × Buf × Env W) → Type 0
  RecvKept net = Gives (Stays net)

  abbrev SomeStays : Net → ℤ × List ℕ × Net × Env W → Type 0
  SomeStays net (n, bytes, net', env) = SameEnds net net' × Q net' env.world

  encrypted_recv-kept :
      (len : ℕ) (net : Net) (env : Env W) (o : Option Netnacl)
      → net.netnacl ≡ o
      → Q net env.world
      → Gives (SomeStays net) (encrypted_recv socket crypto flags len net env o)
  unfolding encrypted_recv Gives
  encrypted_recv-kept len net env none e q = (same net, q)
  encrypted_recv-kept len net env (some nn) e q =
      Gives-bind _ _ (netnacl_recv socket crypto len flags nn env) _
        (netnacl_recv-Touches socket (λ m w. Q (record net { netnacl = some m }) w)
          (λ m len' flags' w. kept _ m.sock_fd len' flags' w) (λ m by w. set net m by w) flags
          crypto len nn env (rw (← e) q))
        λ (code, bytes, nn', env') q'. (record { fd = refl; encrypted = refl }, q')

  recv_some-kept :
      (len : ℕ) (net : Net) (env : Env W)
      → Q net env.world
      → Gives (SomeStays net) (recv_some socket crypto flags len net env)
  unfolding recv_some plain_recv Gives
  recv_some-kept len net env q =
      if_both (Gives (SomeStays net)) net.b_encrypted _ _
        (encrypted_recv-kept len net env net.netnacl refl q)
        (
          same net,
          rw (c_recv-world socket net.sock_fd len flags env)
              (kept net net.sock_fd len flags env.world q),
        )

  recv_loop-kept :
      (fuel : ℕ) (net : Net) (buf : Buf) (env : Env W)
      → Q net env.world
      → RecvKept net (recv_loop socket crypto flags fuel net buf env)
  unfolding recv_loop recv_turn Gives
  recv_loop-kept zero net buf env q = _
  recv_loop-kept (suc fuel) net buf env q =
      if_both (RecvKept net) (ltb buf.size buf_size) _ _
        (Gives-bind (SomeStays net) (Stays net)
          (recv_some socket crypto flags (buf_size - buf.size) net env) _
          (recv_some-kept (buf_size - buf.size) net env q)
          λ (n, bytes, net', env') (ends, q').
            if_both (RecvKept net) (int_eq (pos 0) n) _ _ (ends, q')
              (if_both (RecvKept net) (is_nonneg n) _ _
                (Gives-weaken (Stays net') (Stays net) _ (recv_loop-kept fuel net' _ env' q')
                  λ (code, net'', buf'', env'') (ends', q''). (both net net' net'' ends ends', q''))
                (ends, q')))
        (same net, q)

  pub buf_recv-touches :
      (net : Net) (buf : Buf) (env : Env W)
      → Q net env.world
      → RecvKept net (buf_recv socket crypto flags net buf env)
  unfolding buf_recv Gives
  buf_recv-touches net buf env q =
      if_both (RecvKept net) ((buf.read_pos == 0) && (buf.size == 0)) _ _
        (recv_loop-kept (buf_size + 1) net buf env q) (same net, q)

-- So for `buf_send`, `send` and the fields for sending.
module _ {W : Type 0} (socket : Socket W) (crypto : Crypto) (nonces : ℕ → List ℕ) (flags : ℕ)
    (Q : Net → W → Type 0)
    (kept : (net : Net) (fd : ℤ) (bytes : List ℕ) (flags : ℕ) (w : W)
      → Q net w
      → Q net (socket.send fd bytes flags w).1)
    (set : (net : Net) (nn by : Netnacl) (w : W)
      → Q (record net { netnacl = some nn }) w
      → Q (record net { netnacl = some (sending_of nn by) }) w) where
  abbrev pub StaysSent : Net → ℤ × Net × Buf × Env W → Type 0
  StaysSent net (code, net', buf, env) = SameEnds net net' × Q net' env.world

  abbrev pub SendKept : Net → Res (ℤ × Net × Buf × Env W) → Type 0
  SendKept net = Gives (StaysSent net)

  abbrev SomeSent : Net → ℤ × Net × Env W → Type 0
  SomeSent net (n, net', env) = SameEnds net net' × Q net' env.world

  encrypted_send-kept :
      (start : ℕ) (bytes : List ℕ) (net : Net) (env : Env W) (o : Option Netnacl)
      → net.netnacl ≡ o
      → Q net env.world
      → Gives (SomeSent net) (encrypted_send socket crypto nonces flags start bytes net env o)
  unfolding encrypted_send Gives
  encrypted_send-kept start bytes net env none e q = (same net, q)
  encrypted_send-kept start bytes net env (some nn) e q =
      Gives-bind _ _ (netnacl_send socket crypto (nonces start) bytes flags nn env) _
        (netnacl_send-Touches socket (λ m w. Q (record net { netnacl = some m }) w)
          (λ m bytes' flags' w. kept _ m.sock_fd bytes' flags' w) (λ m by w. set net m by w) crypto
          (nonces start) bytes flags nn env (rw (← e) q))
        λ (code, nn', env') q'. (record { fd = refl; encrypted = refl }, q')

  send_some-kept :
      (start : ℕ) (bytes : List ℕ) (net : Net) (env : Env W)
      → Q net env.world
      → Gives (SomeSent net) (send_some socket crypto nonces flags start bytes net env)
  unfolding send_some plain_send Gives
  send_some-kept start bytes net env q =
      if_both (Gives (SomeSent net)) net.b_encrypted _ _
        (encrypted_send-kept start bytes net env net.netnacl refl q)
        (
          same net,
          rw (c_send-world socket net.sock_fd bytes flags env)
              (kept net net.sock_fd bytes flags env.world q),
        )

  send_loop-kept :
      (fuel : ℕ) (net : Net) (buf : Buf) (env : Env W)
      → Q net env.world
      → SendKept net (send_loop socket crypto nonces flags fuel net buf env)
  unfolding send_loop send_turn Gives
  send_loop-kept zero net buf env q = _
  send_loop-kept (suc fuel) net buf env q =
      if_both (SendKept net) (ltb buf.read_pos buf.size) _ _
        (Gives-bind (SomeSent net) (StaysSent net)
          (send_some socket crypto nonces flags buf.read_pos
            (take (buf.size - buf.read_pos) (drop buf.read_pos buf.contents)) net env)
          _ (send_some-kept buf.read_pos _ net env q)
          λ (n, net', env') (ends, q').
            if_both (SendKept net) (is_nonneg n) _ _
              (Gives-weaken (StaysSent net') (StaysSent net) _ (send_loop-kept fuel net' _ env' q')
                λ (code, net'', buf'', env'') (ends', q''). (both net net' net'' ends ends', q''))
              (ends, q'))
        (same net, q)

  pub buf_send-touches :
      (net : Net) (buf : Buf) (env : Env W)
      → Q net env.world
      → SendKept net (buf_send socket crypto nonces flags net buf env)
  unfolding buf_send Gives
  buf_send-touches net buf env q =
      if_both (SendKept net) ((buf.size == 0) || (buf.read_pos == buf.size)) _ _ (same net, q)
        (send_loop-kept (buf.size - buf.read_pos + 1) net buf env q)

-- Whatever the world, the descriptor and the encryption stay.
module _ {W : Type 0} (socket : Socket W) (crypto : Crypto) (flags : ℕ) where
  abbrev pub EndsKept : Net → Res (ℤ × Net × Buf × Env W) → Type 0
  EndsKept net = Gives λ (code, net', buf, env). SameEnds net net'

  pub buf_recv-kept :
      (net : Net) (buf : Buf) (env : Env W)
      → EndsKept net (buf_recv socket crypto flags net buf env)
  buf_recv-kept net buf env =
      Gives-weaken _ _ (buf_recv socket crypto flags net buf env)
        (buf_recv-touches socket crypto flags (λ net' w. Unit {0}) (λ net' fd len flags' w q. q)
          (λ net' nn by w q. q) net buf env tt)
        λ (code, net', buf', env') (ends, q). ends

  pub buf_send-kept :
      (nonces : ℕ → List ℕ) (net : Net) (buf : Buf) (env : Env W)
      → EndsKept net (buf_send socket crypto nonces flags net buf env)
  buf_send-kept nonces net buf env =
      Gives-weaken _ _ (buf_send socket crypto nonces flags net buf env)
        (buf_send-touches socket crypto nonces flags (λ net' w. Unit {0})
          (λ net' fd bytes flags' w q. q) (λ net' nn by w q. q) net buf env tt)
        λ (code, net', buf', env') (ends, q). ends
