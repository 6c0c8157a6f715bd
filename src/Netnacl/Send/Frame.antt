-- ===== src/Netnacl/Send/Frame.antt =====
-- The frame that `encrypt_plaintext` builds, and what `netnacl_send` puts on the wire.
use Prim.Native.Nat.{min}
use nacl_proxy.Base.{
  ℕ, ◌+◌, ◌-◌, ◌%◌, ◌^◌, ◌≤◌, ◌<◌, ◌≡◌, ◌∙◌, refl, sym, ◌⊎◌, true, false, lt→ltb, ℤ, pos, List,
  ◌++◌, length, take, replicate, length-append, length-take, take-append, drop-append, append_assoc,
  ◌==◌, if◌then◌else◌, arith,
}
use nacl_proxy.Errors.{nn_want_write, nn_err}
use nacl_proxy.Sys.{Socket, Env, Res, ok, blocked, splice, store16, swap16}
use nacl_proxy.Sys.Laws.{SendLaws, length-splice}
use nacl_proxy.Netnacl.{
  Netnacl, Crypto, zero_bytes, nonce_bytes, max_message_len, hdr_size, ct_size,
}
use nacl_proxy.Netnacl.Laws.{CryptoLaws}
use nacl_proxy.Netnacl.Send.{padded, frame_len, encrypt_plaintext, netnacl_send}
use nacl_proxy.Netnacl.Send.Conserves.{unsent, CanSend, send_ciphertext-Sends}

-- The header, in network order, then the ciphertext.
unfoldable pub frame : Crypto → List ℕ → List ℕ → List ℕ → List ℕ
frame crypto key nonce buf =
    (store16 (swap16 (frame_len (length buf))) ++ nonce) ++ crypto.afternm (padded buf) nonce key

pub length-padded :
    (buf : List ℕ) → length (padded buf) ≡ min (length buf) max_message_len + zero_bytes
unfolding padded
length-padded buf = omega (
  arith,
  length-append (replicate zero_bytes 0) (take (min (length buf) max_message_len) buf),
  length-take (min (length buf) max_message_len) buf,
)

-- Two neighbouring writes from the start of a buffer, read back.
two_splices :
    (buf hdr body : List ℕ) (n : ℕ)
    → length hdr ≤ length buf
    → n ≡ length hdr
    → take (n + length body) (splice (splice buf n body) 0 hdr) ≡ hdr ++ body
unfolding splice
two_splices buf hdr body n le e =
    let start : 0 + length hdr ≡ length (take n buf) = omega (arith, length-take n buf) in
    let whole : n + length body ≡ length (hdr ++ body) = omega (arith, length-append hdr body) in
    rw (start, drop-append, ← append_assoc, whole) (take-append (hdr ++ body) _)

-- A context whose send buffer is empty and has its full size.
pub record IsIdle (nn : Netnacl) : Type 0 where
  pub none_sent : nn.send_buf_pos ≡ 0
  pub none_left : nn.send_buf_len ≡ 0
  pub size : length nn.send_buf ≡ hdr_size + ct_size

module _ (crypto : Crypto) (crypto_laws : CryptoLaws crypto) (nonce buf : List ℕ)
    (nonce_size : length nonce ≡ nonce_bytes) (nn : Netnacl) (idle : IsIdle nn) where
  abbrev hdr : List ℕ
  hdr = store16 (swap16 (frame_len (length buf))) ++ nonce

  abbrev body : List ℕ
  body = crypto.afternm (padded buf) nonce nn.sym_key

  length-hdr : length hdr ≡ hdr_size
  unfolding store16
  length-hdr = omega (arith, nonce_size)

  length-body : length body ≡ min (length buf) max_message_len + zero_bytes
  unfolding padded
  length-body =
      crypto_laws.length_kept (take (min (length buf) max_message_len) buf) nonce nn.sym_key
      ∙ length-padded buf

  frame_size : (frame_len (length buf) + hdr_size) % 2 ^ 16 - 0 ≡ hdr_size + length body
  unfolding frame_len
  frame_size = omega (arith, length-body)

  sealed_size : length (splice (splice nn.send_buf hdr_size body) 0 hdr) ≡ hdr_size + ct_size
  sealed_size =
      let inner : length (splice nn.send_buf hdr_size body) ≡ length nn.send_buf =
        length-splice nn.send_buf hdr_size body (omega (arith, idle.size, length-body)) in
      length-splice (splice nn.send_buf hdr_size body) 0 hdr
        (omega (arith, idle.size, length-hdr, inner))
      ∙ (inner ∙ idle.size)

  -- after `encrypt_plaintext` the bytes to go out are the frame
  pub encrypt-frame :
      (unsent (encrypt_plaintext crypto nonce buf nn) ≡ frame crypto nn.sym_key nonce buf)
      × CanSend (encrypt_plaintext crypto nonce buf nn)
      × ((encrypt_plaintext crypto nonce buf nn).send_buf_pos
          < (encrypt_plaintext crypto nonce buf nn).send_buf_len)
  unfolding encrypt_plaintext frame
  encrypt-frame = (
    rw (idle.none_sent, frame_size)
        (two_splices nn.send_buf hdr body hdr_size (omega (arith, idle.size, length-hdr))
          (sym length-hdr)),
    record {
      started = omega (arith, idle.none_sent);
      fits = omega (arith, sealed_size, frame_size, length-body);
      size = omega (arith, sealed_size);
    },
    omega (arith, idle.none_sent, frame_size),
  )

encrypt-sock_fd :
    (crypto : Crypto) (nonce buf : List ℕ) (nn : Netnacl)
    → (encrypt_plaintext crypto nonce buf nn).sock_fd ≡ nn.sock_fd
unfolding encrypt_plaintext
encrypt-sock_fd crypto nonce buf nn = refl

encrypt-sym_key :
    (crypto : Crypto) (nonce buf : List ℕ) (nn : Netnacl)
    → (encrypt_plaintext crypto nonce buf nn).sym_key ≡ nn.sym_key
unfolding encrypt_plaintext
encrypt-sym_key crypto nonce buf nn = refl

module _ {W : Type 0} (socket : Socket W) (outbox : ℤ → W → List ℕ) (laws : SendLaws socket outbox)
    (crypto : Crypto) (crypto_laws : CryptoLaws crypto) (nonce buf : List ℕ)
    (nonce_size : length nonce ≡ nonce_bytes) (flags : ℕ) (nn : Netnacl) (env : Env W) where
  -- the outcome of a call that had the bytes `todo` to put on the wire
  abbrev pub Delivers : List ℕ → Res (ℤ × Netnacl × Env W) → Type 0
  Delivers todo r =
      (code : ℤ) × (nn' : Netnacl) × (env' : Env W) × (r ≡ ok (code, nn', env'))
      × (outbox nn.sock_fd env'.world ++ unsent nn' ≡ outbox nn.sock_fd env.world ++ todo)
      × CanSend nn'
      × (nn'.sock_fd ≡ nn.sock_fd)
      × (nn'.sym_key ≡ nn.sym_key)
      × ((code ≡ pos (min (length buf) max_message_len))
            × (nn'.send_buf_len ≡ 0)
            × (nn'.send_buf_pos ≡ 0)
          ⊎ (code ≡ (if blocked env'.errno then nn_want_write else nn_err))
            × (nn'.send_buf_pos < nn'.send_buf_len))

  -- On an idle context `netnacl_send` returns, and what has gone out and what is left in the send buffer
  -- make up what had gone out and the frame of the buffer: the length in network order, the nonce and the
  -- ciphertext. Either all is out, the code is how many bytes were encrypted and the send buffer is
  -- empty, or a part is left and the code is NN_WANT_WRITE or NN_ERR, as errno says. The context keeps
  -- its descriptor and its key.
  pub netnacl_send-idle :
      IsIdle nn
      → Delivers
          (frame crypto nn.sym_key nonce buf)
          (netnacl_send socket crypto nonce buf flags nn env)
  unfolding netnacl_send
  netnacl_send-idle idle =
      let empty : (nn.send_buf_len == 0) ≡ true = ground (arith, idle.none_left) in
      let (todo, can, more) = encrypt-frame crypto crypto_laws nonce buf nonce_size nn idle in
      let (code, nn', env', ran, d) =
        send_ciphertext-Sends socket outbox laws (length buf) flags
          (encrypt_plaintext crypto nonce buf nn) env can in
      (
        code,
        nn',
        env',
        rw (empty, lt→ltb _ _ more) ran,
        rw (encrypt-sock_fd crypto nonce buf nn, todo) at d.conserved,
        d.still,
        rw encrypt-sock_fd at d.same_fd,
        rw encrypt-sym_key at d.same_key,
        d.outcome,
      )

  -- On a context with a frame under way `netnacl_send` returns and goes on with that frame: nothing of
  -- it is lost or repeated, and the code is as for an idle context.
  pub netnacl_send-busy :
      CanSend nn
      → nn.send_buf_pos < nn.send_buf_len
      → Delivers (unsent nn) (netnacl_send socket crypto nonce buf flags nn env)
  unfolding netnacl_send
  netnacl_send-busy c more =
      let busy : (nn.send_buf_len == 0) ≡ false = ground arith in
      let (code, nn', env', ran, d) =
        send_ciphertext-Sends socket outbox laws (length buf) flags nn env c in
      (
        code,
        nn',
        env',
        rw (busy, lt→ltb _ _ more) ran,
        d.conserved,
        d.still,
        d.same_fd,
        d.same_key,
        d.outcome,
      )
