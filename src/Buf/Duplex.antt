-- ===== src/Buf/Duplex.antt =====
-- The two directions of a connection do not disturb each other: `buf_recv` leaves alone what has been taken,
-- and `buf_send` what is still to be handed out.
use nacl_proxy.Base.{ℕ, ◌≡◌, refl, inl, inr, some, ℤ, List}
use nacl_proxy.Sys.{Socket, Env}
use nacl_proxy.Sys.Laws.{RecvLaws, Apart}
use nacl_proxy.Sys.Gives.{Gives, Gives-weaken}
use nacl_proxy.Netnacl.{Netnacl, Crypto}
use nacl_proxy.Netnacl.Laws.{CryptoLaws}
use nacl_proxy.Netnacl.Send.Conserves.{CanSend}
use nacl_proxy.Netnacl.Send.Frame.{IsIdle}
use nacl_proxy.Netnacl.Recv.Touch.{receiving_of}
use nacl_proxy.Buf.{Buf, Net, buf_recv, buf_send}
use nacl_proxy.Buf.Kept.{buf_recv-touches, buf_send-touches}
use nacl_proxy.Buf.Takes.Sends.{Takes, Takes-moved}
use nacl_proxy.Buf.Hands.{Hands, Hands-moved, Hands-sending}

module _ {W : Type 0} (socket : Socket W) (outbox inbox : ℤ → W → List ℕ)
    (laws : RecvLaws socket inbox) (apart : Apart socket outbox inbox) (crypto : Crypto)
    (crypto_laws : CryptoLaws crypto) where
  idle_lem : (nn by : Netnacl) → IsIdle nn → IsIdle (receiving_of nn by)
  idle_lem nn by h = record { none_sent = h.none_sent; none_left = h.none_left; size = h.size }

  can_lem : (nn by : Netnacl) → CanSend nn → CanSend (receiving_of nn by)
  can_lem nn by h = record { started = h.started; fits = h.fits; size = h.size }

  module _ (key before : List ℕ) (b : Buf) (taken : List ℕ) (p : ℕ) where
    abbrev Has : Net → Env W → Type 0
    Has net env = Takes crypto outbox inbox key before b taken net env p

    Takes-receiving :
        (net : Net) (nn by : Netnacl) (env : Env W)
        → Has (record net { netnacl = some nn }) env
        → Has (record net { netnacl = some (receiving_of nn by) }) env
    Takes-receiving net nn by env (inl plain) = inl plain
    Takes-receiving net nn by env
          (inr (encrypted, (nn', ms, e, fd, key', msgs, said, inl (idle, out)))) =
        let same : nn' ≡ nn = cc in
        inr (
          encrypted,
          (
            receiving_of nn by,
            ms,
            refl,
            rw same at fd,
            rw same at key',
            msgs,
            said,
            inl (idle_lem nn by (rw same at idle), out),
          ),
        )
    Takes-receiving net nn by env
          (inr (encrypted, (nn', ms, e, fd, key', msgs, said, inr (can, less, more, way)))) =
        let same : nn' ≡ nn = cc in
        inr (
          encrypted,
          (
            receiving_of nn by,
            ms,
            refl,
            rw same at fd,
            rw same at key',
            msgs,
            said,
            inr (can_lem nn by (rw same at can), less, rw same at more, rw same at way),
          ),
        )

    -- What a connection has taken stays taken when more is received.
    pub buf_recv-Takes :
        (flags : ℕ) (net : Net) (b' : Buf) (env : Env W)
        → Has net env
        → Gives
            (λ (code, net', buf', env'). Has net' env')
            (buf_recv socket crypto flags net b' env)
    buf_recv-Takes flags net b' env h =
        Gives-weaken _ _ (buf_recv socket crypto flags net b' env)
          (buf_recv-touches socket crypto flags (λ net' w. Has net' (record env { world = w }))
            (λ net' fd len flags' w held.
              Takes-moved crypto outbox inbox key before b taken net' (record env { world = w })
                (record env { world = (socket.recv fd len flags' w).1 }) p
                (apart.recv_outbox fd net'.sock_fd len flags' w) held)
            (λ net' nn by w held. Takes-receiving net' nn by (record env { world = w }) held) net b'
            env h)
          λ (code, net', buf', env') (ends, held). held

  -- What a connection has to hand out is still there when something is sent.
  pub buf_send-Hands :
      (flags : ℕ) (nonces : ℕ → List ℕ) (net : Net) (b' : Buf) (env : Env W) (rest : List ℕ)
      → Hands socket outbox inbox laws apart crypto crypto_laws flags net env rest
      → Gives
          (λ (code, net', buf', env').
            Hands socket outbox inbox laws apart crypto crypto_laws flags net' env' rest)
          (buf_send socket crypto nonces flags net b' env)
  buf_send-Hands flags nonces net b' env rest h =
      Gives-weaken _ _ (buf_send socket crypto nonces flags net b' env)
        (buf_send-touches socket crypto nonces flags
          (λ net' w.
            Hands socket outbox inbox laws apart crypto crypto_laws flags net'
              (record env { world = w }) rest)
          (λ net' fd bytes flags' w held.
            Hands-moved socket outbox inbox laws apart crypto crypto_laws flags net'
              (record env { world = w }) (record env { world = (socket.send fd bytes flags' w).1 })
              rest (λ g. apart.send_inbox fd g bytes flags' w) held)
          (λ net' nn by w held.
            Hands-sending socket outbox inbox laws apart crypto crypto_laws flags net' nn by
              (record env { world = w }) rest held)
          net b' env h)
        λ (code, net', buf', env') (ends, held).
          Hands-moved socket outbox inbox laws apart crypto crypto_laws flags net'
            (record env { world = env'.world }) env' rest (λ g. refl) held
