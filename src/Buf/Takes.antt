-- ===== src/Buf/Takes.antt =====
-- What a connection, plain or encrypted, has taken of a stream, and what `buf_send` adds to it.
pub mod Sends
use Prim.Native.Nat.{min}
use nacl_proxy.Base.{
  ℕ, ◌+◌, ◌-◌, ◌≤◌, ◌<◌, ◌≡◌, ◌∙◌, refl, sym, ap, ◌⊎◌, inl, inr, true, false, some, ℤ, pos, negsuc,
  List, [], ◌∷◌, ◌++◌, length, take, drop, length-take, length-drop, append_assoc, append-nil,
  take-take, take-add, Bool-cases, arith,
}
use nacl_proxy.Sys.{Socket, Env, Res, ok, ◌>>=◌, blocked}
use nacl_proxy.Sys.Laws.{SendLaws, Apart}
use nacl_proxy.Sys.Gives.{Gives}
use nacl_proxy.Netnacl.{Netnacl, Crypto, max_message_len, nonce_bytes}
use nacl_proxy.Netnacl.Laws.{CryptoLaws}
use nacl_proxy.Netnacl.Send.Conserves.{unsent, CanSend}
use nacl_proxy.Netnacl.Send.Frame.{frame, IsIdle, Delivers, netnacl_send-idle, netnacl_send-busy}
use nacl_proxy.Netnacl.Recv.Carries.{Msg, IsMsg, AreMsgs, texts, frames}
use nacl_proxy.Buf.{Buf, Net, send_some, encrypted_send, buf_send}
use nacl_proxy.Buf.Messages.{texts-append, AreMsgs-append, frames-append, chunk, frame-chunk}
use nacl_proxy.Buf.Send.{left_from, CanDrain, Step, Honest, Drains, buf_send-Drains}

module _ {W : Type 0} (crypto : Crypto) (outbox inbox : ℤ → W → List ℕ) (key before : List ℕ)
    (buf : Buf) (taken : List ℕ) where
  -- A plain connection has taken `taken` and the bytes of the buffer before `p`, behind `before`.
  abbrev pub PlainTakes : Net → Env W → ℕ → Type 0
  PlainTakes net env p =
      (net.b_encrypted ≡ false)
      × (outbox net.sock_fd env.world ≡ (before ++ taken) ++ take p buf.contents)

  -- The context has put the frames of messages on the wire, behind `before`, and is idle, or has the frame
  -- of the next message under way, the text of which is the front of what is left in the buffer.
  abbrev pub Wires : List Msg → ℕ → Netnacl → ℤ → Env W → Type 0
  Wires ms p nn fd env =
      IsIdle nn × (outbox fd env.world ≡ before ++ frames crypto inbox key ms)
      ⊎ CanSend nn
        × (p < buf.size)
        × (nn.send_buf_pos < nn.send_buf_len)
        × ((m : Msg) × IsMsg m
            × (m.text ≡ chunk (left_from buf p))
            × (outbox fd env.world ++ unsent nn
                ≡ before ++ (frames crypto inbox key ms ++ frame crypto key m.nonce m.text)))

  -- So for an encrypted connection: the texts of the messages on the wire are those bytes.
  abbrev pub EncryptedTakes : Net → Env W → ℕ → Type 0
  EncryptedTakes net env p =
      (net.b_encrypted ≡ true)
      × ((nn : Netnacl) × (ms : List Msg) × (net.netnacl ≡ some nn)
          × (nn.sock_fd ≡ net.sock_fd)
          × (nn.sym_key ≡ key)
          × AreMsgs ms
          × (texts ms ≡ taken ++ take p buf.contents)
          × Wires ms p nn net.sock_fd env)

module _ {W : Type 0} (socket : Socket W) (outbox inbox : ℤ → W → List ℕ)
    (laws : SendLaws socket outbox) (crypto : Crypto) (crypto_laws : CryptoLaws crypto)
    (nonces : ℕ → List ℕ) (flags : ℕ) (nonce_size : (p : ℕ) → length (nonces p) ≡ nonce_bytes)
    (key before : List ℕ) (buf : Buf) (taken : List ℕ) where
  abbrev Takes : Net → Env W → ℕ → Type 0
  Takes = EncryptedTakes crypto outbox inbox key before buf taken

  abbrev Sends : Net → Env W → ℕ → Res (ℤ × Net × Env W) → Type 0
  Sends net env p r =
      ((k : ℕ) × (net' : Net) × (env' : Env W) × (r ≡ ok (pos k, net', env'))
        × (0 < k)
        × (k ≤ buf.size - p)
        × Takes net' env' (p + k))
      ⊎ ((j : ℕ) × (net' : Net) × (env' : Env W) × (r ≡ ok (negsuc j, net', env'))
          × Honest (negsuc j) env'.errno
          × Takes net' env' p)

  length-left : (p : ℕ) → buf.size ≤ length buf.contents → length (left_from buf p) ≡ buf.size - p
  length-left p fits =
      omega (arith, length-take (buf.size - p) (drop p buf.contents), length-drop p buf.contents)

  none_unsent : (nn : Netnacl) → nn.send_buf_len ≡ 0 → nn.send_buf_pos ≡ 0 → unsent nn ≡ []
  none_unsent nn l p = rw (l, p) refl

  -- the texts once the next message is out
  next_text :
      (ms : List Msg) (m : Msg) (p : ℕ)
      → buf.size ≤ length buf.contents
      → texts ms ≡ taken ++ take p buf.contents
      → m.text ≡ chunk (left_from buf p)
      → texts (ms ++ (m ∷ []))
        ≡ taken ++ take (p + min (length (left_from buf p)) max_message_len) buf.contents
  next_text ms m p fits said text =
      let k : ℕ = min (length (left_from buf p)) max_message_len in
      let cut : take k (left_from buf p) ≡ take k (drop p buf.contents) =
        take-take k (buf.size - p) (drop p buf.contents) (omega (arith, length-left p fits)) in
      texts-append ms m
      ∙ (rw (said, text, append_assoc, cut) (ap (λ b. taken ++ b) (take-add p k buf.contents)))

  -- What is done once the context has the frame of a message to put on the wire.
  delivered :
      (net : Net) (env : Env W) (p : ℕ) (ms : List Msg) (m : Msg) (todo : List ℕ) (nn : Netnacl)
      → buf.size ≤ length buf.contents
      → p < buf.size
      → net.b_encrypted ≡ true
      → nn.sock_fd ≡ net.sock_fd
      → nn.sym_key ≡ key
      → AreMsgs ms
      → texts ms ≡ taken ++ take p buf.contents
      → IsMsg m
      → m.text ≡ chunk (left_from buf p)
      → outbox net.sock_fd env.world ++ todo
        ≡ before ++ (frames crypto inbox key ms ++ frame crypto key m.nonce m.text)
      → (r : Res (ℤ × Netnacl × Env W))
      → Delivers socket outbox laws crypto crypto_laws
          (nonces p)
          (left_from buf p)
          (nonce_size p)
          flags
          nn
          env
          todo
          r
      → Sends net env p
          (r >>= λ (code, nn', env'). ok (code, record net { netnacl = some nn' }, env'))
  delivered net env p ms m todo nn fits less encrypted same_fd same_key msgs said is text total r
        (code, nn', env', ran, conserved, can, fd', key', outcome) =
      let conserved' : outbox net.sock_fd env'.world ++ unsent nn'
          ≡ before ++ (frames crypto inbox key ms ++ frame crypto key m.nonce m.text) =
        rw same_fd at conserved ∙ total in
      let left = length-left p fits in
      elim outcome [
        | inl (count, l, z) ↦
            let out' : outbox net.sock_fd env'.world
                ≡ before ++ frames crypto inbox key (ms ++ (m ∷ [])) =
              rw (none_unsent nn' l z, append-nil) at conserved'
              ∙ ap (λ b. before ++ b) (sym (frames-append crypto inbox key ms m)) in
            rw (ran, count)
              (inl (
                min (length (left_from buf p)) max_message_len,
                record net { netnacl = some nn' },
                env',
                refl,
                omega (arith, left, less),
                omega (arith, left),
                (
                  encrypted,
                  (
                    nn',
                    ms ++ (m ∷ []),
                    refl,
                    fd' ∙ same_fd,
                    key' ∙ same_key,
                    AreMsgs-append ms m msgs is,
                    next_text ms m p fits said text,
                    inl (record { none_sent = z; none_left = l; size = can.size }, out'),
                  ),
                ),
              ))
        | inr (count, more) ↦
            let held : Takes (record net { netnacl = some nn' }) env' p = (
              encrypted,
              (
                nn',
                ms,
                refl,
                fd' ∙ same_fd,
                key' ∙ same_key,
                msgs,
                said,
                inr (can, less, more, (m, is, text, conserved')),
              ),
            ) in
            elim (Bool-cases (blocked env'.errno)) [
              | inl b ↦ rw (ran, count, b) (inr (1, _, _, refl, inr b, held))
              | inr b ↦ rw (ran, count, b) (inr (0, _, _, refl, inl (λ clash. cc), held))
            ]
      ]

  -- the message that begins at a position
  message_at : ℕ → Msg
  message_at p = record { nonce = nonces p; text = chunk (left_from buf p) }

  message_at-IsMsg : (p : ℕ) → buf.size ≤ length buf.contents → p < buf.size → IsMsg (message_at p)
  unfolding message_at
  message_at-IsMsg p fits less =
      let left = length-left p fits in
      let size : length (chunk (left_from buf p)) ≡ min (length (left_from buf p)) max_message_len =
        omega
          (arith, length-take (min (length (left_from buf p)) max_message_len) (left_from buf p)) in
      record {
        nonce_size = nonce_size p;
        some_text = omega (arith, size, left, less);
        fits = omega (arith, size);
      }

  pub encrypted-Step : buf.size ≤ length buf.contents → Step socket crypto nonces flags buf Takes
  unfolding send_some encrypted_send message_at
  encrypted-Step fits net env p (encrypted, (nn, ms, e, same_fd, same_key, msgs, said, wires))
        less =
      let net' : Net = record net { b_encrypted = true; netnacl = some nn } in
      rw (encrypted, e)
        (elim wires [
          | inl (idle, out) ↦
              delivered net' env p ms (message_at p)
                (frame crypto nn.sym_key (nonces p) (left_from buf p)) nn fits less refl same_fd
                same_key msgs said (message_at-IsMsg p fits less) refl
                (rw
                  (
                    out,
                    same_key,
                    append_assoc,
                    ← frame-chunk crypto key (nonces p) (left_from buf p),
                  )
                  refl)
                _
                (netnacl_send-idle socket outbox laws crypto crypto_laws (nonces p)
                  (left_from buf p) (nonce_size p) flags nn env idle)
          | inr (can, less', more, (m, is, text, total)) ↦
              delivered net' env p ms m (unsent nn) nn fits less refl same_fd same_key msgs said is
                text total _
                (netnacl_send-busy socket outbox laws crypto crypto_laws (nonces p)
                  (left_from buf p) (nonce_size p) flags nn env can more)
        ])
