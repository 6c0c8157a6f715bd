-- ===== src/Buf/Roundtrip.antt =====
-- What `buf_send` puts on the wire of an encrypted connection, `buf_recv` of the other end receives.
use Prim.Native.Nat.{min}
use nacl_proxy.Base.{
  ℕ, ◌+◌, ◌-◌, ◌≤◌, ◌≡◌, ◌≢◌, ◌∙◌, refl, sym, ap, inl, inr, true, some, ℤ, List, [], ◌∷◌, ◌++◌,
  length, take, drop, length-take, length-drop, take-take, take-add, drop-drop, arith,
}
use nacl_proxy.Netnacl.{Netnacl, Crypto, max_message_len, nonce_bytes}
use nacl_proxy.Netnacl.Laws.{CryptoLaws}
use nacl_proxy.Netnacl.Recv.Carries.{Msg, IsMsg, AreMsgs, texts, frames, HasSizes, same_pieces}
use nacl_proxy.Errors.{proxy_success}
use nacl_proxy.Sys.{Socket, Env, Res, ok}
use nacl_proxy.Sys.Laws.{SendLaws, RecvLaws}
use nacl_proxy.Buf.{Buf, Net, buf_size, buf_send, buf_recv}
use nacl_proxy.Buf.Recv.{Fills, EncryptedHolds, buf_recv-encrypted}
use nacl_proxy.Buf.Send.{left_from, CanDrain, FailedBy, Drains}
use nacl_proxy.Buf.Messages.{texts-append, AreMsgs-append, frames-append, chunk, frame-chunk}
use nacl_proxy.Buf.Sealed.{Sealed, nothing, next, EncryptedSent, buf_send-encrypted}

module _ {W : Type 0} (crypto : Crypto) (inbox : ℤ → W → List ℕ) (key : List ℕ)
    (nonces : ℕ → List ℕ) (nonce_size : (p : ℕ) → length (nonces p) ≡ nonce_bytes) (buf : Buf)
    (fits : buf.size ≤ length buf.contents) (from : ℕ) (start_within : from ≤ buf.size) where
  length-left : (p : ℕ) → length (left_from buf p) ≡ buf.size - p
  length-left p =
      omega (arith, length-take (buf.size - p) (drop p buf.contents), length-drop p buf.contents)

  -- The frames on the wire are those of messages whose texts are the bytes of the buffer.
  abbrev Messages : ℕ → List ℕ → Type 0
  Messages p wire =
      (from ≤ p)
      × (p ≤ buf.size)
      × ((ms : List Msg) × AreMsgs ms
          × (frames crypto inbox key ms ≡ wire)
          × (texts ms ≡ take (p - from) (drop from buf.contents)))

  joined :
      (p k : ℕ)
      → from ≤ p
      → k ≤ buf.size - p
      → take (p - from) (drop from buf.contents) ++ take k (left_from buf p)
        ≡ take (p + k - from) (drop from buf.contents)
  joined p k low within =
      let here : from + (p - from) ≡ p = omega (arith, low) in
      let sum : p + k - from ≡ p - from + k = omega (arith, low) in
      let rest : drop (p - from) (drop from buf.contents) ≡ drop p buf.contents =
        drop-drop from (p - from) buf.contents ∙ ap (λ n. drop n buf.contents) here in
      rw (take-take k (buf.size - p) (drop p buf.contents) within, sum, ← rest)
        (take-add (p - from) k (drop from buf.contents))

  sealed_lem : (p : ℕ) (wire : List ℕ) → Sealed crypto key nonces buf from p wire → Messages p wire
  unfolding frames texts AreMsgs
  sealed_lem _ _ nothing =
      let none_left : from - from ≡ 0 = omega arith in
      (omega arith, start_within, ([], tt, refl, rw none_left refl))
  sealed_lem _ _ (next p wire sealed less) =
      let (low, high, (ms, all, framed, said)) = sealed_lem p wire sealed in
      let left = length-left p in
      let m : Msg = record { nonce = nonces p; text = chunk (left_from buf p) } in
      let size : length m.text ≡ min (length (left_from buf p)) max_message_len =
        omega
          (arith, length-take (min (length (left_from buf p)) max_message_len) (left_from buf p)) in
      let is : IsMsg m = record {
        nonce_size = nonce_size p;
        some_text = omega (arith, size, left, less);
        fits = omega (arith, size);
      } in
      (
        omega (arith, low),
        omega (arith, left, less),
        (
          ms ++ (m ∷ []),
          AreMsgs-append ms m all is,
          rw
              (
                frames-append crypto inbox key ms m,
                framed,
                frame-chunk crypto key (nonces p) (left_from buf p),
              )
              refl,
          rw (texts-append ms m, said)
              (joined p (min (length (left_from buf p)) max_message_len) low (omega (arith, left))),
        ),
      )

-- A context that waits for the first message.
pub record IsWaiting (nn : Netnacl) : Type 0 where
  pub sizes : HasSizes nn
  pub no_hdr : nn.hdr_bytes_recvd ≡ 0
  pub no_ct : nn.ct_bytes_recvd ≡ 0
  pub no_text : nn.recv_pt_len ≡ 0
  pub no_pos : nn.recv_pt_pos ≡ 0

abbrev got : {X : Type 0} → X → Res X → X
got d (ok x) = x
got d _ = d

failed_fails : (code : ℤ) (errno : ℕ) → FailedBy errno code → code ≢ proxy_success
failed_fails code errno failed same = ground (arith, failed, same)

module _ {W V : Type 0} (socket : Socket W) (outbox : ℤ → W → List ℕ)
    (laws : SendLaws socket outbox) (peer : Socket V) (inbox : ℤ → V → List ℕ)
    (peer_laws : RecvLaws peer inbox) (crypto : Crypto) (crypto_laws : CryptoLaws crypto)
    (nonces : ℕ → List ℕ) (flags : ℕ) (nonce_size : (p : ℕ) → length (nonces p) ≡ nonce_bytes)
    (key : List ℕ) (fd : ℤ) (buf : Buf) (start : List ℕ) where
  abbrev pub Sent : Net → Env W → ℕ → Type 0
  Sent =
      EncryptedSent socket outbox laws crypto crypto_laws nonces flags nonce_size key fd buf
        buf.read_pos start

  -- After a success all frames are on the wire.
  all_out :
      (net' : Net) (buf' : Buf) (env' : Env W) (r : Res (ℤ × Net × Buf × Env W))
      → Drains socket crypto nonces flags buf Sent r
      → r ≡ ok (proxy_success, net', buf', env')
      → Sent net' env' buf.size
  all_out net' buf' env' r (inl (n, e, ran, held)) success =
      let same = ap (got (proxy_success, net', buf', env')) (sym ran ∙ success) in
      rw (← ap (λ x. x.1) same, ← ap (λ x. x.3) same) held
  all_out net' buf' env' r (inr (code, p, n, e, ran, failed, less, held)) success = absurd (
      failed_fails code e.errno failed
        (ap (λ x. x.0) (ap (got (proxy_success, net', buf', env')) (sym ran ∙ success))))

  -- After a `buf_send` that succeeds on an encrypted connection, from its start or after others, the other
  -- end receives the bytes of the buffer: if what has gone out is all that is on its way to a context that
  -- has the same key and waits for a message, `buf_recv` returns with the front of those bytes in an empty
  -- buffer, the connection carries the rest of them, and the code is as on a plain connection.
  pub buf_recv-buf_send :
      (net : Net) (env : Env W) (net' : Net) (buf' : Buf) (env' : Env W)
      → CanDrain buf
      → Sent net env buf.read_pos
      → buf_send socket crypto nonces flags net buf env ≡ ok (proxy_success, net', buf', env')
      → (to : Net) (nn : Netnacl) (contents : List ℕ) (there : Env V) → to.b_encrypted ≡ true
      → to.netnacl ≡ some nn
      → nn.sym_key ≡ key
      → IsWaiting nn
      → start ++ inbox nn.sock_fd there.world ≡ outbox fd env'.world
      → length contents ≡ buf_size
      → Fills peer crypto flags
          (EncryptedHolds peer inbox peer_laws crypto crypto_laws flags)
          (left_from buf buf.read_pos)
          (buf_recv peer crypto flags to
            (record { size = 0; read_pos = 0; contents = contents })
            there)
  buf_recv-buf_send net env net' buf' env' can sent success to nn contents there encrypted e
        same_key waits arrived size =
      let (sealed_net, (nn', wire, e', fd', key', sealed, under)) =
        all_out net' buf' env' _
          (buf_send-encrypted socket outbox laws crypto crypto_laws nonces flags nonce_size key fd
            buf buf.read_pos start net env can sent)
          success in
      let (low, high, (ms, all, framed, said)) =
        sealed_lem crypto inbox key nonces nonce_size buf can.fits buf.read_pos
          (omega (arith, can.started)) buf.size wire sealed in
      elim under [
        | inr (cans, less, more, total) ↦ absurd (omega (arith, less))
        | inl (idle, out) ↦
            let stream : inbox nn.sock_fd there.world ≡ wire =
              (same_pieces start start (inbox nn.sock_fd there.world) wire refl
                (arrived ∙ out)).1 in
            buf_recv-encrypted peer inbox peer_laws crypto crypto_laws flags to contents there
              (left_from buf buf.read_pos) size
              (
                encrypted,
                (
                  nn,
                  [],
                  ms,
                  e,
                  inl (
                    refl,
                    record {
                      sizes = waits.sizes;
                      part = omega (arith, waits.no_hdr);
                      no_ct = waits.no_ct;
                      no_text = waits.no_text;
                      no_pos = waits.no_pos;
                      stream = rw (waits.no_hdr, same_key) (stream ∙ sym framed);
                    },
                  ),
                  all,
                  said,
                ),
              )
      ]
