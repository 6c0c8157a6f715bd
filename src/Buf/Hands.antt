-- ===== src/Buf/Hands.antt =====
-- What a connection, plain or encrypted, has still to hand out, and what `buf_recv` takes of it.
use nacl_proxy.Base.{
  ℕ, arith, some, ◌≤◌, ◌≡◌, ◌≢◌, ◌∙◌, refl, ◌⊎◌, inl, inr, ℤ, List, [], ◌++◌, length, take,
}
use nacl_proxy.Errors.{proxy_disconnect}
use nacl_proxy.Sys.{Socket, Env, Res, ok}
use nacl_proxy.Sys.Laws.{RecvLaws, Apart}
use nacl_proxy.Sys.Gives.{Gives}
use nacl_proxy.Netnacl.{Netnacl, Crypto}
use nacl_proxy.Netnacl.Laws.{CryptoLaws}
use nacl_proxy.Netnacl.Recv.Carries.{HasSizes, Msg, Carries}
use nacl_proxy.Buf.{Buf, Net, buf_size, buf_recv}
use nacl_proxy.Buf.Kept.{RecvKept, buf_recv-touches}
use nacl_proxy.Netnacl.Send.Touch.{sending_of}
use nacl_proxy.Netnacl.Recv.Open.{IsOpen}
use nacl_proxy.Buf.Recv.{Coded, PlainHolds, EncryptedHolds, buf_recv-plain, buf_recv-encrypted}

module _ {W : Type 0} (socket : Socket W) (outbox inbox : ℤ → W → List ℕ)
    (laws : RecvLaws socket inbox) (apart : Apart socket outbox inbox) (crypto : Crypto)
    (crypto_laws : CryptoLaws crypto) (flags : ℕ) where
  -- A connection has still to hand out `rest`: the bytes that are to come, or the texts of the messages.
  abbrev pub Hands : Net → Env W → List ℕ → Type 0
  Hands net env rest =
      PlainHolds socket inbox laws crypto crypto_laws flags net env rest
      ⊎ EncryptedHolds socket inbox laws crypto crypto_laws flags net env rest

  sizes_lem : (nn by : Netnacl) → HasSizes nn → HasSizes (sending_of nn by)
  sizes_lem nn by h = record { hdr = h.hdr; ct = h.ct; pt = h.pt }

  open_lem : (nn by : Netnacl) → IsOpen nn → IsOpen (sending_of nn by)
  open_lem nn by h = record { started = h.started; fits = h.fits; size = h.size }

  -- What a descriptor has still to read and the fields for receiving are all that counts.
  Carries-moved :
      (nn by : Netnacl) (env env' : Env W) (text : List ℕ) (ms : List Msg)
      → inbox nn.sock_fd env'.world ≡ inbox nn.sock_fd env.world
      → Carries crypto inbox nn env text ms
      → Carries crypto inbox (sending_of nn by) env' text ms
  Carries-moved nn by env env' text ms same (inl (empty, at)) = inl (
    empty,
    record {
      sizes = sizes_lem nn by at.sizes;
      part = at.part;
      no_ct = at.no_ct;
      no_text = at.no_text;
      no_pos = at.no_pos;
      stream = rw same at.stream;
    },
  )
  Carries-moved nn by env env' text ms same (inr (inl (nonce, at))) = inr (
      inl (
        nonce,
        record {
          sizes = sizes_lem nn by at.sizes;
          message = at.message;
          whole = at.whole;
          len = at.len;
          nonce = at.nonce;
          part = at.part;
          no_text = at.no_text;
          no_pos = at.no_pos;
          stream = rw same at.stream;
        },
      ))
  Carries-moved nn by env env' text ms same (inr (inr at)) = inr (
      inr (record {
        is_open = open_lem nn by at.is_open;
        whole = at.whole;
        complete = at.complete;
        left = at.left;
        stream = rw same at.stream;
      }))

  pub Hands-sending :
      (net : Net) (nn by : Netnacl) (env : Env W) (rest : List ℕ)
      → Hands (record net { netnacl = some nn }) env rest
      → Hands (record net { netnacl = some (sending_of nn by) }) env rest
  Hands-sending net nn by env rest (inl plain) = inl plain
  Hands-sending net nn by env rest (inr (encrypted, (nn', text, ms, e, c, msgs, i))) =
      let same : nn' ≡ nn = cc in
      inr (
        encrypted,
        (
          sending_of nn by,
          text,
          ms,
          refl,
          Carries-moved nn by env env text ms refl (rw same at c),
          msgs,
          i,
        ),
      )

  pub Hands-moved :
      (net : Net) (env env' : Env W) (rest : List ℕ)
      → ((fd : ℤ) → inbox fd env'.world ≡ inbox fd env.world)
      → Hands net env rest
      → Hands net env' rest
  Hands-moved net env env' rest same (inl (plain, i)) = inl (plain, same net.sock_fd ∙ i)
  Hands-moved net env env' rest same (inr (encrypted, (nn, text, ms, e, c, msgs, i))) = inr (
    encrypted,
    (nn, text, ms, e, Carries-moved nn nn env env' text ms (same nn.sock_fd) c, msgs, i),
  )

  -- What a call of `buf_recv` on an empty buffer does: the buffer has the front of what was to come, the
  -- connection keeps its descriptor and its encryption, and nothing has gone out.
  abbrev pub Received : Net → Env W → List ℕ → Res (ℤ × Net × Buf × Env W) → Type 0
  Received net env rest r =
      (code : ℤ) × (net' : Net) × (b : Buf) × (env' : Env W) × (rest' : List ℕ) × (r
        ≡ ok (code, net', b, env'))
      × (take b.size b.contents ++ rest' ≡ rest)
      × Hands net' env' rest'
      × (b.read_pos ≡ 0)
      × (b.size ≤ buf_size)
      × (length b.contents ≡ buf_size)
      × ((g : ℤ) → outbox g env'.world ≡ outbox g env.world)
      × ((code ≢ proxy_disconnect) ⊎ (rest' ≡ []))

  ended_lem :
      (code : ℤ) (size : ℕ) (rest : List ℕ) (net : Net) (env : Env W)
      → Coded socket crypto flags code size rest net env
      → (code ≢ proxy_disconnect) ⊎ (rest ≡ [])
  ended_lem code size rest net env (inl (is, last, none_left)) = inr none_left
  ended_lem code size rest net env (inr other) = inl λ same. ground (arith, other, same)

  recv_keeps :
      (net : Net) (b : Buf) (env : Env W)
      → RecvKept socket crypto flags
          (λ net' w. (g : ℤ) → outbox g w ≡ outbox g env.world)
          (λ net' fd len flags' w q g. apart.recv_outbox fd g len flags' w ∙ q g)
          (λ net' nn by w q. q)
          net
          (buf_recv socket crypto flags net b env)
  recv_keeps net b env =
      buf_recv-touches socket crypto flags (λ net' w. (g : ℤ) → outbox g w ≡ outbox g env.world)
        (λ net' fd len flags' w q g. apart.recv_outbox fd g len flags' w ∙ q g)
        (λ net' nn by w q. q) net b env (λ g. refl)

  pub buf_recv-Received :
      (net : Net) (contents : List ℕ) (env : Env W) (rest : List ℕ)
      → length contents ≡ buf_size
      → Hands net env rest
      → Received net env rest (
          buf_recv socket crypto flags net
            (record { size = 0; read_pos = 0; contents = contents })
            env)
  unfolding Gives
  buf_recv-Received net contents env rest len (inl plain) =
      let b : Buf = record { size = 0; read_pos = 0; contents = contents } in
      let kept = recv_keeps net b env in
      let (code, net', b', env', rest', r, total, holds, pos, most, size, coded) =
        buf_recv-plain socket inbox laws crypto crypto_laws flags net contents env rest len plain in
      let (ends, quiet) = rw r at kept in
      (
        code,
        net',
        b',
        env',
        rest',
        r,
        total,
        inl holds,
        pos,
        most,
        size,
        quiet,
        ended_lem code b'.size rest' net' env' coded,
      )
  buf_recv-Received net contents env rest len (inr encrypted) =
      let b : Buf = record { size = 0; read_pos = 0; contents = contents } in
      let kept = recv_keeps net b env in
      let (code, net', b', env', rest', r, total, holds, pos, most, size, coded) =
        buf_recv-encrypted socket inbox laws crypto crypto_laws flags net contents env rest len
          encrypted in
      let (ends, quiet) = rw r at kept in
      (
        code,
        net',
        b',
        env',
        rest',
        r,
        total,
        inr holds,
        pos,
        most,
        size,
        quiet,
        ended_lem code b'.size rest' net' env' coded,
      )
