-- ===== src/Netnacl/Recv/Message.antt =====
-- `netnacl_recv` of src/netnacl as a whole, over a stream of frames.
use nacl_proxy.Base.{
  ℕ, ◌^◌, ◌≤◌, ◌<◌, ◌≡◌, ◌∙◌, refl, sym, ap, inl, inr, true, false, ℤ, List, [], ◌∷◌, ◌++◌, length,
  take, length-append, length-take, append_assoc, ltb, ◌==◌, Bool-cases, lt→ltb, arith,
}
use nacl_proxy.Sys.{Socket, Env, store16, swap16}
use nacl_proxy.Sys.Laws.{RecvLaws}
use nacl_proxy.Netnacl.{Netnacl, Crypto, hdr_size, ct_size}
use nacl_proxy.Netnacl.Laws.{CryptoLaws}
use nacl_proxy.Netnacl.Send.{padded, frame_len}
use nacl_proxy.Netnacl.Send.Frame.{frame}
use nacl_proxy.Netnacl.Recv.{hdr_len, swap_len, finish, recv_rest, netnacl_recv, go_on}
use nacl_proxy.Netnacl.Recv.Streams.{with_hdr, with_ct, recv_hdr-HdrRead, recv_ciphertext-CtRead}
use nacl_proxy.Netnacl.Recv.Open.{wire_hdr, hdr_len-swap, hdr_nonce-swap, length-swap}
use nacl_proxy.Netnacl.Recv.Carries.{
  Msg, AreMsgs, texts, frames, AtHdr, AtCt, AtText, Carries, same_pieces, length-body,
}
use nacl_proxy.Netnacl.Recv.Delivers.{HandsOut, frame_len_le, finish-AtText, finish-AtCt, stopped}

module _ {W : Type 0} (socket : Socket W) (inbox : ℤ → W → List ℕ) (laws : RecvLaws socket inbox)
    (crypto : Crypto) (crypto_laws : CryptoLaws crypto) (len flags : ℕ) where
  -- more of the ciphertext is there
  with_more :
      {nn : Netnacl} {env : Env W} {m : Msg} {ms : List Msg}
      → AtCt crypto inbox nn env m ms
      → (ct : List ℕ) (k : ℕ) (env' : Env W) → length ct ≡ ct_size
      → k ≤ hdr_len nn
      → take k ct ++ inbox nn.sock_fd env'.world
        ≡ crypto.afternm (padded m.text) m.nonce nn.sym_key ++ frames crypto inbox nn.sym_key ms
      → AtCt crypto inbox (with_ct nn ct k) env' m ms
  with_more a ct k env' size part stream = record {
    sizes = record { hdr = a.sizes.hdr; ct = size; pt = a.sizes.pt };
    message = a.message;
    whole = a.whole;
    len = a.len;
    nonce = a.nonce;
    part = part;
    no_text = a.no_text;
    no_pos = a.no_pos;
    stream = stream;
  }

  -- A stream does not end within the ciphertext of a message.
  within_ct :
      (nn : Netnacl) (env : Env W) (m : Msg) (ms : List Msg)
      → AtCt crypto inbox nn env m ms
      → (ct : List ℕ) (k : ℕ) (left : List ℕ) → k < hdr_len nn
      → take k ct ++ left
        ≡ crypto.afternm (padded m.text) m.nonce nn.sym_key ++ frames crypto inbox nn.sym_key ms
      → left ≡ []
      → m.text ++ texts ms ≡ []
  within_ct nn env m ms a ct k left less stream ended =
      let body : length (crypto.afternm (padded m.text) m.nonce nn.sym_key) ≡ hdr_len nn =
        length-body crypto crypto_laws m.nonce m.text nn.sym_key a.message.fits ∙ sym a.len in
      absurd (
        omega (
          arith,
          less,
          body,
          ap length stream,
          ap length ended,
          length-append (take k ct) left,
          length-append (crypto.afternm (padded m.text) m.nonce nn.sym_key)
              (frames crypto inbox nn.sym_key ms),
          length-take k ct,
        ))

  -- One that ends within a header has no header.
  within_hdr :
      (key : List ℕ) (ms : List Msg)
      → AreMsgs ms
      → (raw : List ℕ) (k : ℕ) (left : List ℕ) → k < hdr_size
      → take k raw ++ left ≡ frames crypto inbox key ms
      → left ≡ []
      → texts ms ≡ []
  unfolding frames frame AreMsgs texts store16
  within_hdr key [] msgs raw k left less stream ended = refl
  within_hdr key (m ∷ ms) (msg, msgs) raw k left less stream ended = absurd (
      omega (
        arith,
        less,
        msg.nonce_size,
        ap length stream,
        ap length ended,
        length-append (take k raw) left,
        length-append (frame crypto key m.nonce m.text) (frames crypto inbox key ms),
        length-append (store16 (swap16 (frame_len (length m.text))) ++ m.nonce)
            (crypto.afternm (padded m.text) m.nonce key),
        length-take k raw,
      ))

  rest-AtCt :
      (nn : Netnacl) (env : Env W) (m : Msg) (ms : List Msg)
      → AtCt crypto inbox nn env m ms
      → AreMsgs ms
      → HandsOut socket inbox laws crypto crypto_laws len flags
          (m.text ++ texts ms)
          (recv_rest socket crypto len flags nn env)
  unfolding recv_rest go_on
  rest-AtCt nn env m ms a msgs =
      let hdr : (nn.hdr_bytes_recvd == hdr_size) ≡ true = ground (arith, a.whole) in
      elim (Bool-cases (ltb nn.ct_bytes_recvd (hdr_len nn))) [
        | inr done ↦
            rw (hdr, done)
              (finish-AtCt socket inbox laws crypto crypto_laws len flags nn env m ms a msgs
                (ground (arith, a.part)))
        | inl more ↦
            rw (hdr, more)
              (elim (recv_ciphertext-CtRead socket inbox laws flags nn nn.recv_ct nn.ct_bytes_recvd
                env
                (omega (
                  arith,
                  a.len,
                  frame_len_le socket inbox laws crypto crypto_laws len flags m a.message,
                ))
                a.sizes.ct a.part) [
                  | inl (ct, env', r, size, stream) ↦ rw r (
                      finish-AtCt socket inbox laws crypto crypto_laws len flags _ env' m ms
                        (with_more a ct (hdr_len nn) env' size (omega arith) (stream ∙ a.stream))
                        msgs refl)
                  | inr (code, ct, k, env', r, stop, less, size, stream) ↦ rw r (
                      stopped socket inbox laws crypto crypto_laws len flags code _ env' m.text ms _
                        stop
                        (within_ct nn env m ms a ct k (inbox nn.sock_fd env'.world) less
                          (stream ∙ a.stream))
                        (inr (
                          inl (
                            m.nonce,
                            with_more a ct k env' size (omega arith) (stream ∙ a.stream),
                          )))
                        msgs (finish socket crypto len flags))
                ])
      ]

  -- The header of the next message is complete.
  at_ct :
      (nn : Netnacl) (env env' : Env W) (ms : List Msg) (raw : List ℕ)
      → AtHdr crypto inbox nn env ms
      → AreMsgs ms
      → length raw ≡ hdr_size
      → raw ++ inbox nn.sock_fd env'.world ≡ frames crypto inbox nn.sym_key ms
      → (m : Msg) × (ms' : List Msg) × (ms ≡ m ∷ ms')
        × AreMsgs ms'
        × AtCt crypto inbox (swap_len (with_hdr nn raw hdr_size)) env' m ms'
  unfolding frames frame AreMsgs swap_len store16
  at_ct nn env env' [] raw a msgs size stream =
      absurd
        (omega (arith, size, length-append raw (inbox nn.sock_fd env'.world), ap length stream))
  at_ct nn env env' (m ∷ ms) raw a (msg, msgs) size stream =
      let small : frame_len (length m.text) < 2 ^ 16 =
        omega (arith, frame_len_le socket inbox laws crypto crypto_laws len flags m msg) in
      let (is_hdr, rest) =
        same_pieces raw (wire_hdr m.nonce (frame_len (length m.text)) small) _ _
          (omega (arith, size, msg.nonce_size))
          (stream ∙ append_assoc (wire_hdr m.nonce (frame_len (length m.text)) small) _ _) in
      (
        m,
        ms,
        refl,
        msgs,
        record {
          sizes = record {
            hdr = length-swap (with_hdr nn raw hdr_size) size;
            ct = a.sizes.ct;
            pt = a.sizes.pt;
          };
          message = msg;
          whole = refl;
          len =
              hdr_len-swap m.nonce (frame_len (length m.text)) small (with_hdr nn raw hdr_size)
                is_hdr;
          nonce =
              hdr_nonce-swap m.nonce (frame_len (length m.text)) small (with_hdr nn raw hdr_size)
                is_hdr;
          part = omega (arith, a.no_ct);
          no_text = a.no_text;
          no_pos = a.no_pos;
          stream = rw a.no_ct rest;
        },
      )

  rest-AtText :
      (nn : Netnacl) (env : Env W) (text : List ℕ) (ms : List Msg)
      → AtText crypto inbox nn env text ms
      → AreMsgs ms
      → HandsOut socket inbox laws crypto crypto_laws len flags
          (text ++ texts ms)
          (recv_rest socket crypto len flags nn env)
  unfolding recv_rest go_on
  rest-AtText nn env text ms a msgs =
      let hdr : (nn.hdr_bytes_recvd == hdr_size) ≡ true = ground (arith, a.whole) in
      let full : ltb nn.ct_bytes_recvd (hdr_len nn) ≡ false = ground (arith, a.complete) in
      rw (hdr, full)
        (finish-AtText socket inbox laws crypto crypto_laws len flags nn env text ms a msgs)

  -- a part of the header is there
  with_part :
      {nn : Netnacl} {env : Env W} {ms : List Msg}
      → AtHdr crypto inbox nn env ms
      → (raw : List ℕ) (k : ℕ) (env' : Env W) → length raw ≡ hdr_size
      → k < hdr_size
      → take k raw ++ inbox nn.sock_fd env'.world ≡ frames crypto inbox nn.sym_key ms
      → AtHdr crypto inbox (with_hdr nn raw k) env' ms
  with_part a raw k env' size part stream = record {
    sizes = record { hdr = size; ct = a.sizes.ct; pt = a.sizes.pt };
    part = part;
    no_ct = a.no_ct;
    no_text = a.no_text;
    no_pos = a.no_pos;
    stream = stream;
  }

  recv-AtHdr :
      (nn : Netnacl) (env : Env W) (ms : List Msg)
      → AtHdr crypto inbox nn env ms
      → AreMsgs ms
      → HandsOut socket inbox laws crypto crypto_laws len flags
          (texts ms)
          (netnacl_recv socket crypto len flags nn env)
  unfolding netnacl_recv go_on texts
  recv-AtHdr nn env ms a msgs =
      rw (lt→ltb _ _ a.part)
        (elim (recv_hdr-HdrRead socket inbox laws flags nn nn.recv_hdr nn.hdr_bytes_recvd env
          a.sizes.hdr (omega (arith, a.part))) [
            | inl (raw, env', r, size, stream) ↦
                let (m, ms', e, msgs', ct) =
                  at_ct nn env env' ms raw a msgs size (stream ∙ a.stream) in
                rw (r, e) (rest-AtCt _ env' m ms' ct msgs')
            | inr (code, raw, k, env', r, stop, less, size, stream) ↦ rw r (
                stopped socket inbox laws crypto crypto_laws len flags code _ env' [] ms _ stop
                  (within_hdr nn.sym_key ms msgs raw k (inbox nn.sock_fd env'.world) less
                    (stream ∙ a.stream))
                  (inl (refl, with_part a raw k env' size less (stream ∙ a.stream))) msgs
                  (recv_rest socket crypto len flags))
          ])

  recv_complete :
      (nn : Netnacl) (env : Env W)
      → nn.hdr_bytes_recvd ≡ hdr_size
      → netnacl_recv socket crypto len flags nn env ≡ recv_rest socket crypto len flags nn env
  unfolding netnacl_recv go_on
  recv_complete nn env whole =
      let e : ltb nn.hdr_bytes_recvd hdr_size ≡ false = ground (arith, whole) in rw e

  -- When a context and its socket carry the rest of a text and then the frames of messages (none of
  -- them empty or longer than 4096 bytes), `netnacl_recv` returns. Either it returns how many bytes it
  -- hands out, at most `len` and at least one if `len` is not 0, or it hands out nothing and returns
  -- NN_WANT_READ, NN_ERR, or 0 with nothing left to hand out. The bytes handed out and what the context and
  -- the socket then carry make up the text that was there, for any socket that yields its stream in order
  -- and in any pieces, and no bytes only at its end.
  pub netnacl_recv-HandsOut :
      (nn : Netnacl) (env : Env W) (text : List ℕ) (ms : List Msg)
      → Carries crypto inbox nn env text ms
      → AreMsgs ms
      → HandsOut socket inbox laws crypto crypto_laws len flags
          (text ++ texts ms)
          (netnacl_recv socket crypto len flags nn env)
  netnacl_recv-HandsOut nn env text ms c msgs = elim c [
    | inl (none_left, a) ↦ rw none_left (recv-AtHdr nn env ms a msgs)
    | inr (inl (nonce, a)) ↦
        rw (recv_complete nn env a.whole)
          (rest-AtCt nn env (record { nonce = nonce; text = text }) ms a msgs)
    | inr (inr a) ↦ rw (recv_complete nn env a.whole) (rest-AtText nn env text ms a msgs)
  ]
