-- ===== src/Buf/Recv.antt =====
-- `buf_recv`: what the loop does, given what one receive does; the plain and the encrypted
-- connection.
use nacl_proxy.Base.{
  ℕ, zero, suc, ◌+◌, ◌-◌, ◌%◌, ◌^◌, ◌≤◌, ◌<◌, ◌≡◌, ◌≢◌, ◌∙◌, refl, sym, ap, ◌⊎◌, inl, inr, true,
  false, some, ℤ, pos, negsuc, List, [], ◌∷◌, ◌++◌, length, take, append_assoc, ltb, ◌==◌, ◌||◌,
  int_eq, int_eq_iff, Bool-cases, arith,
}
use nacl_proxy.Errors.{proxy_success, proxy_would_block, proxy_disconnect, proxy_err, nn_want_read}
use nacl_proxy.Sys.{Socket, Env, Res, ok, c_recv, splice, blocked, eagain, ewouldblock}
use nacl_proxy.Sys.Laws.{RecvLaws, c_recv-Got, c_recv-ended, splice_nil, take-splice, length-splice}
use nacl_proxy.Netnacl.{Netnacl, Crypto}
use nacl_proxy.Netnacl.Laws.{CryptoLaws}
use nacl_proxy.Netnacl.Recv.Carries.{Msg, AreMsgs, texts, Carries}
use nacl_proxy.Netnacl.Recv.Message.{netnacl_recv-HandsOut}
use nacl_proxy.Buf.{Buf, Net, buf_size, recv_some, recv_code, recv_loop, buf_recv}

waits :
    (n : ℤ) (errno : ℕ)
    → (int_eq nn_want_read n || blocked errno) ≡ true
    → (n ≡ nn_want_read) ⊎ (errno ≡ eagain) ⊎ (errno ≡ ewouldblock)
waits n errno e = elim (Bool-cases (int_eq nn_want_read n)) [
  | inl same ↦ inl (sym ((int_eq_iff nn_want_read n).0 same))
  | inr other ↦ inr (ground (arith, e, other))
]

fails :
    (n : ℤ) (errno : ℕ)
    → (int_eq nn_want_read n || blocked errno) ≡ false
    → (n ≢ nn_want_read) × (errno ≢ eagain) × (errno ≢ ewouldblock)
fails n errno e =
    let other : int_eq nn_want_read n ≡ false = ground (arith, e) in
    (
      λ same. cc (other, (int_eq_iff nn_want_read n).1 (sym same)),
      ground (arith, e),
      ground (arith, e),
    )

module _ {W : Type 0} (socket : Socket W) (crypto : Crypto) (flags : ℕ) where
  -- the last receive of a call: it yielded `n`, and left the connection and the environment as they are
  abbrev pub Last : ℤ → Net → Env W → Type 0
  Last n net env =
      (net0 : Net) × (env0 : Env W) × (len : ℕ) × (recv_some socket crypto flags len net0 env0
        ≡ ok (n, [], net, env))

  -- The last receive failed, and has to wait, or not.
  abbrev pub Waited : Net → Env W → Type 0
  Waited net env =
      (j : ℕ) × Last (negsuc j) net env
      × ((negsuc j ≡ nn_want_read) ⊎ (env.errno ≡ eagain) ⊎ (env.errno ≡ ewouldblock))

  abbrev pub Failed : Net → Env W → Type 0
  Failed net env =
      (j : ℕ) × Last (negsuc j) net env
      × (negsuc j ≢ nn_want_read)
      × (env.errno ≢ eagain)
      × (env.errno ≢ ewouldblock)

  -- The codes of `buf_recv`, by the last receive, how much has been received and what is still to come.
  abbrev pub Coded : ℤ → ℕ → List ℕ → Net → Env W → Type 0
  Coded code size rest net env =
      (code ≡ proxy_disconnect) × Last (pos 0) net env × (rest ≡ [])
      ⊎ (code ≡ proxy_err) × Failed net env
      ⊎ (code ≡ proxy_would_block) × (size ≡ 0) × Waited net env
      ⊎ (code ≡ proxy_success) × (0 < size) × ((size ≡ buf_size) ⊎ Waited net env)

  -- the code of a receive that failed
  coded :
      (j size : ℕ) (rest : List ℕ) (net : Net) (env : Env W)
      → Last (negsuc j) net env
      → Coded (recv_code (negsuc j) env.errno size) size rest net env
  unfolding recv_code
  coded j size rest net env last =
      elim (Bool-cases (int_eq nn_want_read (negsuc j) || blocked env.errno)) [
        | inr over ↦
            let (no_want, no_again, no_block) = fails (negsuc j) env.errno over in
            rw over (inr (inl (refl, (j, last, no_want, no_again, no_block))))
        | inl wait ↦
            let waited : Waited net env = (j, last, waits (negsuc j) env.errno wait) in
            elim (Bool-cases (size == 0)) [
              | inl none_there ↦
                  rw (wait, none_there) (inr (inr (inl (refl, ground (arith, none_there), waited))))
              | inr some_there ↦
                  rw (wait, some_there)
                    (inr (inr (inr (refl, ground (arith, some_there), inr waited))))
            ]
      ]

module _ {W : Type 0} (socket : Socket W) (crypto : Crypto) (flags : ℕ)
    (Holds : Net → Env W → List ℕ → Type 0) where
  -- What one receive does. `Holds` says of a connection which bytes it is still going to hand out.
  abbrev pub Step : Type 0
  Step =
      (net : Net) (env : Env W) (len : ℕ) (rest : List ℕ)
      → Holds net env rest
      → 0 < len
      → ((bytes : List ℕ) × (rest' : List ℕ) × (net' : Net) × (env' : Env W) × (recv_some socket
              crypto flags len net env
            ≡ ok (pos (length bytes), bytes, net', env'))
          × (length bytes ≤ len)
          × (rest ≡ bytes ++ rest')
          × ((0 < length bytes) ⊎ (rest' ≡ []))
          × Holds net' env' rest')
        ⊎ ((j : ℕ) × (net' : Net) × (env' : Env W) × (recv_some socket crypto flags len net env
              ≡ ok (negsuc j, [], net', env'))
            × Holds net' env' rest)

  -- A call returns; what is in the buffer is the front of `stream`, and the connection holds the rest.
  abbrev pub Fills : List ℕ → Res (ℤ × Net × Buf × Env W) → Type 0
  Fills stream r =
      (code : ℤ) × (net : Net) × (buf : Buf) × (env : Env W) × (rest : List ℕ) × (r
        ≡ ok (code, net, buf, env))
      × (take buf.size buf.contents ++ rest ≡ stream)
      × Holds net env rest
      × (buf.read_pos ≡ 0)
      × (buf.size ≤ buf_size)
      × (length buf.contents ≡ buf_size)
      × Coded socket crypto flags code buf.size rest net env

  some_read : (n : ℕ) → (0 == suc n) ≡ false
  some_read n = ground arith

  recv_loop-Fills :
      Step
      → (fuel : ℕ) (net : Net) (buf : Buf) (env : Env W) (rest stream : List ℕ) → buf.read_pos ≡ 0
      → length buf.contents ≡ buf_size
      → buf.size ≤ buf_size
      → buf_size - buf.size < fuel
      → Holds net env rest
      → take buf.size buf.contents ++ rest ≡ stream
      → Fills stream (recv_loop socket crypto flags fuel net buf env)
  unfolding recv_loop
  recv_loop-Fills step zero net buf env rest stream s l h f i e = absurd (omega arith)
  recv_loop-Fills step (suc fuel) net buf env rest stream s l h f i e =
      elim (Bool-cases (ltb buf.size buf_size)) [
        | inr done ↦ rw done (
          _,
          net,
          buf,
          env,
          rest,
          refl,
          e,
          i,
          s,
          h,
          l,
          inr (inr (inr (refl, ground arith, inl (ground (arith, h))))),
        )
        | inl more ↦ rw more (elim (step net env (buf_size - buf.size) rest i (ground arith)) [
          | inl ([], rest', net', env', r, le, got, ended, i') ↦ rw r (
            _,
            net',
            buf,
            env',
            rest',
            refl,
            ap (λ b. take buf.size buf.contents ++ b) (sym got) ∙ e,
            i',
            s,
            h,
            l,
            inl (
              refl,
              (net, env, buf_size - buf.size, r),
              elim ended [ inl more ↦ absurd (omega (arith, more)) | inr none_left ↦ none_left ],
            ),
          )
          | inl (b ∷ bytes, rest', net', env', r, le, got, ended, i') ↦
              let wrap : (buf.size + suc (length bytes)) % 2 ^ 64 ≡ buf.size + suc (length bytes) =
                omega arith in
              let size' : length (splice buf.contents buf.size (b ∷ bytes)) ≡ buf_size =
                length-splice buf.contents buf.size (b ∷ bytes) (omega arith) ∙ l in
              let stored : take (buf.size + suc (length bytes))
                      (splice buf.contents buf.size (b ∷ bytes))
                    ++ rest'
                  ≡ stream =
                rw
                  (take-splice buf.contents buf.size (b ∷ bytes) (omega arith), append_assoc, ← got)
                  e in
              rw (r, some_read (length bytes), wrap)
                (recv_loop-Fills step fuel net'
                  (record buf {
                    contents = splice buf.contents buf.size (b ∷ bytes);
                    size = buf.size + suc (length bytes);
                  })
                  env' rest' stream s size' (omega arith) (omega arith) i' stored)
          | inr (j, net', env', r, i') ↦
              let same : splice buf.contents buf.size [] ≡ buf.contents =
                splice_nil buf.contents buf.size in
              rw (r, same)
                (
                  _,
                  net',
                  buf,
                  env',
                  rest,
                  refl,
                  e,
                  i',
                  s,
                  h,
                  l,
                  coded socket crypto flags j buf.size rest net' env'
                      (net, env, buf_size - buf.size, r),
                )
        ])
      ]

  pub buf_recv-Fills :
      Step
      → (net : Net) (contents : List ℕ) (env : Env W) (stream : List ℕ) → length contents ≡ buf_size
      → Holds net env stream
      → Fills stream (
          buf_recv socket crypto flags net
            (record { size = 0; read_pos = 0; contents = contents })
            env)
  unfolding buf_recv
  buf_recv-Fills step net contents env stream l i =
      recv_loop-Fills step (buf_size + 1) net
        (record { size = 0; read_pos = 0; contents = contents }) env stream stream refl l
        (omega arith) (omega arith) i refl

module _ {W : Type 0} (socket : Socket W) (inbox : ℤ → W → List ℕ) (laws : RecvLaws socket inbox)
    (crypto : Crypto) (crypto_laws : CryptoLaws crypto) (flags : ℕ) where
  -- a plain connection that has still to hand out `rest`
  abbrev pub PlainHolds : Net → Env W → List ℕ → Type 0
  PlainHolds net env rest = (net.b_encrypted ≡ false) × (inbox net.sock_fd env.world ≡ rest)

  -- an encrypted connection whose messages, from here on, have the text `rest`
  abbrev pub EncryptedHolds : Net → Env W → List ℕ → Type 0
  EncryptedHolds net env rest =
      (net.b_encrypted ≡ true)
      × ((nn : Netnacl) × (text : List ℕ) × (ms : List Msg) × (net.netnacl ≡ some nn)
          × Carries crypto inbox nn env text ms
          × AreMsgs ms
          × (text ++ texts ms ≡ rest))

  ended_or :
      (fd : ℤ) (len : ℕ) (env env' : Env W) (bytes : List ℕ)
      → c_recv socket fd len flags env ≡ (pos (length bytes), bytes, env')
      → 0 < len
      → (0 < length bytes) ⊎ (inbox fd env'.world ≡ [])
  ended_or fd len env env' [] e more =
      inr (c_recv-ended socket inbox laws fd len flags env env' e more)
  ended_or fd len env env' (b ∷ bytes) e more = inl (omega arith)

  plain-Step : Step socket crypto flags PlainHolds
  unfolding recv_some
  plain-Step net env len rest (plain, i) positive =
      elim (c_recv-Got socket inbox laws net.sock_fd len flags env) [
        | inl (bytes, w, r, le, got) ↦
            rw (plain, r)
              (inl (
                bytes,
                inbox net.sock_fd w,
                _,
                _,
                refl,
                le,
                sym i ∙ got,
                ended_or net.sock_fd len env _ bytes r positive,
                (refl, refl),
              ))
        | inr (errno, w, r, same) ↦ rw (plain, r) (inr (0, _, _, refl, (refl, sym same ∙ i)))
      ]

  encrypted-Step : Step socket crypto flags EncryptedHolds
  unfolding recv_some
  encrypted-Step net env len rest (encrypted, (nn, text, ms, e, c, msgs, i)) positive =
      let (code, bytes, nn', env', text', ms', r, total, c', msgs', outcome) =
        netnacl_recv-HandsOut socket inbox laws crypto crypto_laws len flags nn env text ms c
          msgs in
      elim outcome [
        | inl (is_count, le, got_some) ↦
            rw (encrypted, e, r, is_count)
              (inl (
                bytes,
                text' ++ texts ms',
                _,
                _,
                refl,
                le,
                sym i ∙ sym total,
                inl (got_some positive),
                (refl, (nn', text', ms', refl, c', msgs', refl)),
              ))
        | inr (quits, none_read) ↦
            let total' : text' ++ texts ms' ≡ rest =
              sym (ap (λ b. b ++ (text' ++ texts ms')) none_read) ∙ (total ∙ i) in
            elim quits [
              | inl want ↦
                  rw (encrypted, e, r, want, none_read)
                    (inr (2, _, _, refl, (refl, (nn', text', ms', refl, c', msgs', total'))))
              | inr (inl err) ↦
                  rw (encrypted, e, r, err, none_read)
                    (inr (0, _, _, refl, (refl, (nn', text', ms', refl, c', msgs', total'))))
              | inr (inr (ended, none_left)) ↦
                  rw (encrypted, e, r, ended, none_read)
                    (inl (
                      [],
                      rest,
                      _,
                      _,
                      refl,
                      omega arith,
                      refl,
                      inr (sym total' ∙ none_left),
                      (refl, (nn', text', ms', refl, c', msgs', total')),
                    ))
            ]
      ]

  -- On a plain connection and an empty buffer `buf_recv` returns; what is then in the buffer is the front
  -- of the peer's stream, and what is not is still to come. The code is PROXY_DISCONNECT if the last receive
  -- yielded 0, and then nothing is still to come; PROXY_ERR if it failed and errno is neither EAGAIN nor
  -- EWOULDBLOCK; PROXY_WOULD_BLOCK if it failed with one of these and nothing was received; PROXY_SUCCESS if
  -- something was received and it failed so or the buffer is full.
  pub buf_recv-plain :
      (net : Net) (contents : List ℕ) (env : Env W) (stream : List ℕ)
      → length contents ≡ buf_size
      → PlainHolds net env stream
      → Fills socket crypto flags PlainHolds stream (
          buf_recv socket crypto flags net
            (record { size = 0; read_pos = 0; contents = contents })
            env)
  buf_recv-plain = buf_recv-Fills socket crypto flags PlainHolds plain-Step

  -- On an encrypted connection whose context and socket carry messages, and an empty buffer, `buf_recv`
  -- returns; what is then in the buffer is the front of the texts of the messages, the connection carries
  -- the rest, and the code is as on a plain connection.
  pub buf_recv-encrypted :
      (net : Net) (contents : List ℕ) (env : Env W) (stream : List ℕ)
      → length contents ≡ buf_size
      → EncryptedHolds net env stream
      → Fills socket crypto flags EncryptedHolds stream (
          buf_recv socket crypto flags net
            (record { size = 0; read_pos = 0; contents = contents })
            env)
  buf_recv-encrypted = buf_recv-Fills socket crypto flags EncryptedHolds encrypted-Step
