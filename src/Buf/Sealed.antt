-- ===== src/Buf/Sealed.antt =====
-- `buf_send` on an encrypted connection.
use Prim.Native.Nat.{min}
use nacl_proxy.Base.{
  ℕ, ◌+◌, ◌-◌, ◌≤◌, ◌<◌, ◌≡◌, ◌∙◌, refl, ◌⊎◌, inl, inr, true, some, ℤ, pos, negsuc, List, [], ◌++◌,
  length, drop, length-take, length-drop, append_assoc, append-nil, Bool-cases, arith,
}
use nacl_proxy.Sys.{Socket, Env, Res, ok, ◌>>=◌, blocked}
use nacl_proxy.Sys.Laws.{SendLaws}
use nacl_proxy.Netnacl.{Netnacl, Crypto, max_message_len, nonce_bytes}
use nacl_proxy.Netnacl.Laws.{CryptoLaws}
use nacl_proxy.Netnacl.Send.Conserves.{unsent, CanSend}
use nacl_proxy.Netnacl.Send.Frame.{frame, IsIdle, Delivers, netnacl_send-idle, netnacl_send-busy}
use nacl_proxy.Buf.{Buf, Net, send_some, encrypted_send, buf_send}
use nacl_proxy.Buf.Send.{left_from, CanDrain, Step, Honest, Drains, buf_send-Drains}

module _ (crypto : Crypto) (key : List ℕ) (nonces : ℕ → List ℕ) (buf : Buf) (from : ℕ) where
  -- the frame of the message that begins at a position
  abbrev pub frame_at : ℕ → List ℕ
  frame_at p = frame crypto key (nonces p) (left_from buf p)

  -- The frames of the messages from the position `from` to another, one behind the other; a message has
  -- all that is left, and 4096 bytes at most.
  pub data Sealed : ℕ → List ℕ → Type 0 where
    nothing : Sealed from []
    next :
        (p : ℕ) (wire : List ℕ)
        → Sealed p wire
        → p < buf.size
        → Sealed (p + min (length (left_from buf p)) max_message_len) (wire ++ frame_at p)

module _ {W : Type 0} (socket : Socket W) (outbox : ℤ → W → List ℕ) (laws : SendLaws socket outbox)
    (crypto : Crypto) (crypto_laws : CryptoLaws crypto) (nonces : ℕ → List ℕ) (flags : ℕ)
    (nonce_size : (p : ℕ) → length (nonces p) ≡ nonce_bytes) (key : List ℕ) (fd : ℤ) (buf : Buf)
    (from : ℕ) (start : List ℕ) where
  -- The context has put the frames of the messages before a position on the wire, behind `start`, and is
  -- idle, or has the frame of the next message under way.
  abbrev pub Under : ℕ → List ℕ → Netnacl → Env W → Type 0
  Under p wire nn env =
      IsIdle nn × (outbox fd env.world ≡ start ++ wire)
      ⊎ CanSend nn
        × (p < buf.size)
        × (nn.send_buf_pos < nn.send_buf_len)
        × (outbox fd env.world ++ unsent nn
            ≡ start ++ (wire ++ frame_at crypto key nonces buf from p))

  abbrev pub EncryptedSent : Net → Env W → ℕ → Type 0
  EncryptedSent net env p =
      (net.b_encrypted ≡ true)
      × ((nn : Netnacl) × (wire : List ℕ) × (net.netnacl ≡ some nn)
          × (nn.sock_fd ≡ fd)
          × (nn.sym_key ≡ key)
          × Sealed crypto key nonces buf from p wire
          × Under p wire nn env)

  abbrev Sends : Net → Env W → ℕ → Res (ℤ × Net × Env W) → Type 0
  Sends net env p r =
      ((k : ℕ) × (net' : Net) × (env' : Env W) × (r ≡ ok (pos k, net', env'))
        × (0 < k)
        × (k ≤ buf.size - p)
        × EncryptedSent net' env' (p + k))
      ⊎ ((j : ℕ) × (net' : Net) × (env' : Env W) × (r ≡ ok (negsuc j, net', env'))
          × Honest (negsuc j) env'.errno
          × EncryptedSent net' env' p)

  none_unsent : (nn : Netnacl) → nn.send_buf_len ≡ 0 → nn.send_buf_pos ≡ 0 → unsent nn ≡ []
  none_unsent nn l p = rw (l, p) refl

  length-left : (p : ℕ) → buf.size ≤ length buf.contents → length (left_from buf p) ≡ buf.size - p
  length-left p fits =
      omega (arith, length-take (buf.size - p) (drop p buf.contents), length-drop p buf.contents)

  -- What is done once the context has the frame of a message to put on the wire.
  delivered :
      (net : Net) (env : Env W) (p : ℕ) (wire todo : List ℕ) (nn : Netnacl)
      → buf.size ≤ length buf.contents
      → p < buf.size
      → net.b_encrypted ≡ true
      → nn.sock_fd ≡ fd
      → nn.sym_key ≡ key
      → Sealed crypto key nonces buf from p wire
      → outbox fd env.world ++ todo ≡ start ++ (wire ++ frame_at crypto key nonces buf from p)
      → (r : Res (ℤ × Netnacl × Env W))
      → Delivers socket outbox laws crypto crypto_laws
          (nonces p)
          (left_from buf p)
          (nonce_size p)
          flags
          nn
          env
          todo
          r
      → Sends net env p
          (r >>= λ (code, nn', env'). ok (code, record net { netnacl = some nn' }, env'))
  delivered net env p wire todo nn fits less encrypted same_fd same_key sealed total r
        (code, nn', env', ran, conserved, can, fd', key', outcome) =
      let conserved' : outbox fd env'.world ++ unsent nn'
          ≡ start ++ (wire ++ frame_at crypto key nonces buf from p) =
        rw same_fd at conserved ∙ total in
      let left = length-left p fits in
      elim outcome [
        | inl (is, l, z) ↦
            let out' : outbox fd env'.world
                ≡ start ++ (wire ++ frame_at crypto key nonces buf from p) =
              rw (none_unsent nn' l z, append-nil) at conserved' in
            rw (ran, is)
              (inl (
                min (length (left_from buf p)) max_message_len,
                record net { netnacl = some nn' },
                env',
                refl,
                omega (arith, left, less),
                omega (arith, left),
                (
                  encrypted,
                  (
                    nn',
                    _,
                    refl,
                    fd' ∙ same_fd,
                    key' ∙ same_key,
                    next p wire sealed less,
                    inl (record { none_sent = z; none_left = l; size = can.size }, out'),
                  ),
                ),
              ))
        | inr (is, more) ↦
            let held : EncryptedSent (record net { netnacl = some nn' }) env' p = (
              encrypted,
              (
                nn',
                wire,
                refl,
                fd' ∙ same_fd,
                key' ∙ same_key,
                sealed,
                inr (can, less, more, conserved'),
              ),
            ) in
            elim (Bool-cases (blocked env'.errno)) [
              | inl b ↦ rw (ran, is, b) (inr (1, _, _, refl, inr b, held))
              | inr b ↦ rw (ran, is, b) (inr (0, _, _, refl, inl (λ clash. cc), held))
            ]
      ]

  encrypted-Step :
      buf.size ≤ length buf.contents → Step socket crypto nonces flags buf EncryptedSent
  unfolding send_some encrypted_send
  encrypted-Step fits net env p (encrypted, (nn, wire, e, same_fd, same_key, sealed, under)) less =
      let net' : Net = record net { b_encrypted = true; netnacl = some nn } in
      rw (encrypted, e)
        (elim under [
          | inl (idle, out) ↦
              delivered net' env p wire (frame crypto nn.sym_key (nonces p) (left_from buf p)) nn
                fits less refl same_fd same_key sealed (rw (out, same_key, append_assoc) refl) _
                (netnacl_send-idle socket outbox laws crypto crypto_laws (nonces p)
                  (left_from buf p) (nonce_size p) flags nn env idle)
          | inr (can, less', more, total) ↦
              delivered net' env p wire (unsent nn) nn fits less refl same_fd same_key sealed total
                _
                (netnacl_send-busy socket outbox laws crypto crypto_laws (nonces p)
                  (left_from buf p) (nonce_size p) flags nn env can more)
        ])

  -- On an encrypted connection that has put on the wire the frames of the messages before the position of
  -- the buffer, and may have the next one under way, `buf_send` returns. Either the frames of the whole
  -- buffer are on the wire, one behind the other, the buffer is empty again and the code is PROXY_SUCCESS, or
  -- a send failed, and the frames before the new position are out and at most a part of the next one, the
  -- rest of which is in the context; the code is then PROXY_WOULD_BLOCK for EAGAIN or EWOULDBLOCK,
  -- PROXY_DISCONNECT for EPIPE or ECONNRESET and PROXY_ERR for any other errno.
  pub buf_send-encrypted :
      (net : Net) (env : Env W)
      → CanDrain buf
      → EncryptedSent net env buf.read_pos
      → Drains socket crypto nonces flags buf EncryptedSent
          (buf_send socket crypto nonces flags net buf env)
  buf_send-encrypted net env c i =
      buf_send-Drains socket crypto nonces flags buf EncryptedSent (encrypted-Step c.fits) net env c
        i
