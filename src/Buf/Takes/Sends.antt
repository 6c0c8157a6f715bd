-- ===== src/Buf/Takes/Sends.antt =====
-- `buf_send` on a connection, plain or encrypted, that has taken a part of a stream.
use nacl_proxy.Base.{
  ℕ, ◌≤◌, ◌<◌, ◌≡◌, ◌∙◌, refl, ◌⊎◌, inl, inr, ℤ, List, ◌++◌, length, take, append_assoc, append-nil,
  arith,
}
use nacl_proxy.Errors.{assert_failed}
use nacl_proxy.Sys.{Socket, Env, Res, ok}
use nacl_proxy.Sys.Laws.{SendLaws, Apart}
use nacl_proxy.Sys.Gives.{Gives}
use nacl_proxy.Netnacl.{Crypto, nonce_bytes}
use nacl_proxy.Netnacl.Laws.{CryptoLaws}
use nacl_proxy.Buf.{Buf, Net, buf_size, buf_send}
use nacl_proxy.Buf.Send.{CanDrain, Drains, buf_send-Drains, plain-Step}
use nacl_proxy.Buf.Kept.{SendKept, buf_send-touches}
use nacl_proxy.Buf.Takes.{PlainTakes, EncryptedTakes, encrypted-Step}

-- a buffer as it is between two calls: empty, or with bytes from its position on
abbrev pub IsFormed : Buf → Type 0
IsFormed b =
    (length b.contents ≡ buf_size)
    × (((b.size ≡ 0) × (b.read_pos ≡ 0)) ⊎ ((b.read_pos < b.size) × (b.size ≤ buf_size)))

module _ {W : Type 0} (crypto : Crypto) (outbox inbox : ℤ → W → List ℕ) (key before : List ℕ) where
  -- A connection has taken the front of a stream: `taken` and the bytes of the buffer before a position.
  abbrev pub Takes : Buf → List ℕ → Net → Env W → ℕ → Type 0
  Takes b taken net env p =
      PlainTakes crypto outbox inbox key before b taken net env p
      ⊎ EncryptedTakes crypto outbox inbox key before b taken net env p

  -- With the whole buffer taken no message is under way, so that another buffer may follow.
  pub Takes-next :
      (b b' : Buf) (taken taken' : List ℕ) (net : Net) (env : Env W) (p : ℕ)
      → b.size ≤ p
      → taken' ≡ taken ++ take p b.contents
      → Takes b taken net env p
      → Takes b' taken' net env 0
  Takes-next b b' taken taken' net env p full next (inl (plain, out)) =
      inl (plain, rw (next, append-nil, ← append_assoc before taken (take p b.contents)) out)
  Takes-next b b' taken taken' net env p full next
        (inr (encrypted, (nn, ms, e, fd, key', msgs, said, inl idle))) =
      inr (encrypted, (nn, ms, e, fd, key', msgs, rw (next, append-nil) said, inl idle))
  Takes-next b b' taken taken' net env p full next
        (inr (encrypted, (nn, ms, e, fd, key', msgs, said, inr (can, less, more, way)))) =
      absurd (omega (arith, full, less))

  -- What has gone out is all that counts.
  pub Takes-moved :
      (b : Buf) (taken : List ℕ) (net : Net) (env env' : Env W) (p : ℕ)
      → outbox net.sock_fd env'.world ≡ outbox net.sock_fd env.world
      → Takes b taken net env p
      → Takes b taken net env' p
  Takes-moved b taken net env env' p same (inl (plain, out)) = inl (plain, same ∙ out)
  Takes-moved b taken net env env' p same
        (inr (encrypted, (nn, ms, e, fd, key', msgs, said, inl (idle, out)))) =
      inr (encrypted, (nn, ms, e, fd, key', msgs, said, inl (idle, same ∙ out)))
  Takes-moved b taken net env env' p same
        (inr (
          encrypted,
          (nn, ms, e, fd, key', msgs, said, inr (can, less, more, (m, is, text, total))),
        )) =
      inr (
        encrypted,
        (nn, ms, e, fd, key', msgs, said, inr (can, less, more, (m, is, text, rw same total))),
      )

-- `buf_send` refuses an empty buffer.
pub buf_send-empty :
    {W : Type 0} (socket : Socket W) (crypto : Crypto) (nonces : ℕ → List ℕ) (flags : ℕ) (net : Net)
    (buf : Buf) (env : Env W)
    → buf.size ≡ 0
    → buf_send socket crypto nonces flags net buf env ≡ ok (assert_failed, net, buf, env)
unfolding buf_send
buf_send-empty socket crypto nonces flags net buf env empty = rw empty refl

module _ {W : Type 0} (socket : Socket W) (outbox inbox : ℤ → W → List ℕ)
    (laws : SendLaws socket outbox) (apart : Apart socket outbox inbox) (crypto : Crypto)
    (crypto_laws : CryptoLaws crypto) (nonces : ℕ → List ℕ) (flags : ℕ)
    (nonce_size : (p : ℕ) → length (nonces p) ≡ nonce_bytes) (key before : List ℕ) where
  -- What a call of `buf_send` does: what was in the buffer has been taken or is still there, and nothing
  -- has been read.
  abbrev pub Sent : Buf → List ℕ → Env W → Res (ℤ × Net × Buf × Env W) → Type 0
  Sent b taken env r =
      (code : ℤ) × (net' : Net) × (b' : Buf) × (env' : Env W) × (taken' : List ℕ) × (r
        ≡ ok (code, net', b', env'))
      × Takes crypto outbox inbox key before b' taken' net' env' b'.read_pos
      × (taken' ++ take b'.size b'.contents ≡ taken ++ take b.size b.contents)
      × IsFormed b'
      × ((g : ℤ) → inbox g env'.world ≡ inbox g env.world)

  drained :
      (Holds : Net → Env W → ℕ → Type 0) (b : Buf) (taken : List ℕ) (net : Net) (env : Env W)
      → IsFormed b
      → b.size ≤ buf_size
      → ((net' : Net) (env' : Env W) (p : ℕ)
          → Holds net' env' p
          → Takes crypto outbox inbox key before b taken net' env' p)
      → (r : Res (ℤ × Net × Buf × Env W))
      → SendKept socket crypto nonces flags
          (λ net' w. (g : ℤ) → inbox g w ≡ inbox g env.world)
          (λ net' fd bytes flags' w q g. apart.send_inbox fd g bytes flags' w ∙ q g)
          (λ net' nn by w q. q)
          net
          r
      → Drains socket crypto nonces flags b Holds r
      → Sent b taken env r
  unfolding Gives
  drained Holds b taken net env formed most holds r kept (inl (net', env', e, h)) =
      let (ends, quiet) = rw e at kept in
      (
        _,
        net',
        _,
        env',
        taken ++ take b.size b.contents,
        e,
        Takes-next crypto outbox inbox key before b (record b { size = 0; read_pos = 0 }) taken _
            net' env' b.size (omega arith) refl (holds net' env' b.size h),
        append-nil (taken ++ take b.size b.contents),
        (formed.0, inl (refl, refl)),
        quiet,
      )
  drained Holds b taken net env formed most holds r kept
        (inr (code, p, net', env', e, failed, less, h)) =
      let (ends, quiet) = rw e at kept in
      (_, net', _, env', taken, e, holds net' env' p h, refl, (formed.0, inr (less, most)), quiet)

  pub buf_send-Sent :
      (b : Buf) (taken : List ℕ) (net : Net) (env : Env W)
      → IsFormed b
      → Takes crypto outbox inbox key before b taken net env b.read_pos
      → Sent b taken env (buf_send socket crypto nonces flags net b env)
  buf_send-Sent b taken net env (len, inl (empty, start)) h = (
    _,
    net,
    b,
    env,
    taken,
    buf_send-empty socket crypto nonces flags net b env empty,
    h,
    refl,
    (len, inl (empty, start)),
    λ g. refl,
  )
  buf_send-Sent b taken net env (len, inr (less, most)) h =
      let can : CanDrain b = record {
        started = less;
        fits = omega (arith, most, len);
        size = omega (arith, len);
      } in
      let kept =
        buf_send-touches socket crypto nonces flags
          (λ net' w. (g : ℤ) → inbox g w ≡ inbox g env.world)
          (λ net' fd bytes flags' w q g. apart.send_inbox fd g bytes flags' w ∙ q g)
          (λ net' nn by w q. q) net b env (λ g. refl) in
      elim h [
        | inl plain ↦
            drained (PlainTakes crypto outbox inbox key before b taken) b taken net env
              (len, inr (less, most)) most (λ net' env' p held. inl held) _ kept
              (buf_send-Drains socket crypto nonces flags b _
                (plain-Step socket outbox laws crypto nonces flags b (before ++ taken) can.fits) net
                env can plain)
        | inr encrypted ↦
            drained (EncryptedTakes crypto outbox inbox key before b taken) b taken net env
              (len, inr (less, most)) most (λ net' env' p held. inr held) _ kept
              (buf_send-Drains socket crypto nonces flags b _
                (encrypted-Step socket outbox inbox laws crypto crypto_laws nonces flags nonce_size
                  key before b taken can.fits)
                net env can encrypted)
      ]
