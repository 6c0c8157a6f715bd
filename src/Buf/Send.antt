-- ===== src/Buf/Send.antt =====
-- `buf_send`: what the loop does, given what one send does, and the plain connection.
use nacl_proxy.Base.{
  ℕ, zero, suc, ◌+◌, ◌-◌, ◌%◌, ◌^◌, ◌≤◌, ◌<◌, ◌≡◌, ◌≢◌, ◌∙◌, refl, ◌⊎◌, inl, inr, true, false, ℤ,
  pos, negsuc, List, ◌++◌, length, take, drop, length-take, length-drop, take-take, take-add,
  append_assoc, ltb, ◌==◌, ◌||◌, Bool-cases, arith,
}
use nacl_proxy.Errors.{proxy_success, proxy_would_block, proxy_disconnect, proxy_err, nn_want_write}
use nacl_proxy.Sys.{Socket, Env, Res, ok, blocked, eagain, ewouldblock, epipe, econnreset}
use nacl_proxy.Sys.Laws.{SendLaws, c_send-Took}
use nacl_proxy.Netnacl.{Crypto}
use nacl_proxy.Buf.{Buf, Net, buf_size, send_some, send_code, send_loop, buf_send}

-- the bytes of a buffer from `p` on that are to be sent
abbrev pub left_from : Buf → ℕ → List ℕ
left_from buf p = take (buf.size - p) (drop p buf.contents)

-- A buffer with something to send.
pub record CanDrain (buf : Buf) : Type 0 where
  pub started : buf.read_pos < buf.size
  pub fits : buf.size ≤ length buf.contents
  pub size : length buf.contents ≤ buf_size

-- The code of a send that has failed, by the errno that it has left.
abbrev pub FailedBy : ℕ → ℤ → Type 0
FailedBy errno code =
    (code ≡ proxy_would_block) × ((errno ≡ eagain) ⊎ (errno ≡ ewouldblock))
    ⊎ (code ≡ proxy_disconnect) × ((errno ≡ epipe) ⊎ (errno ≡ econnreset))
    ⊎ (code ≡ proxy_err)
      × (errno ≢ eagain)
      × (errno ≢ ewouldblock)
      × (errno ≢ epipe)
      × (errno ≢ econnreset)

-- a result of a send that asks for a retry only if errno says so
abbrev pub Honest : ℤ → ℕ → Type 0
Honest n errno = (n ≢ nn_want_write) ⊎ (blocked errno ≡ true)

send_code-FailedBy : (n : ℤ) (errno : ℕ) → Honest n errno → FailedBy errno (send_code n errno)
unfolding send_code
send_code-FailedBy n errno h = ground arith

module _ {W : Type 0} (socket : Socket W) (crypto : Crypto) (nonces : ℕ → List ℕ) (flags : ℕ)
    (buf : Buf) (Holds : Net → Env W → ℕ → Type 0) where
  -- What one send does at the position `p`: it takes a few bytes, or fails and takes none. `Holds`
  -- says of a connection that the bytes before a position have been taken.
  abbrev pub Step : Type 0
  Step =
      (net : Net) (env : Env W) (p : ℕ)
      → Holds net env p
      → p < buf.size
      → ((k : ℕ) × (net' : Net) × (env' : Env W) × (send_some socket crypto nonces flags p
              (left_from buf p) net env
            ≡ ok (pos k, net', env'))
          × (0 < k)
          × (k ≤ buf.size - p)
          × Holds net' env' (p + k))
        ⊎ ((j : ℕ) × (net' : Net) × (env' : Env W) × (send_some socket crypto nonces flags p
                (left_from buf p) net env
              ≡ ok (negsuc j, net', env'))
            × Honest (negsuc j) env'.errno
            × Holds net' env' p)

  -- A call returns: all of the buffer has been taken and it is empty again, or a send failed, the
  -- code says how, and the buffer stands at the first byte that has not been taken.
  abbrev pub Drains : Res (ℤ × Net × Buf × Env W) → Type 0
  Drains r =
      ((net : Net) × (env : Env W) × (r
          ≡ ok (proxy_success, net, record buf { size = 0; read_pos = 0 }, env))
        × Holds net env buf.size)
      ⊎ ((code : ℤ) × (p : ℕ) × (net : Net) × (env : Env W) × (r
            ≡ ok (code, net, record buf { read_pos = p }, env))
          × FailedBy env.errno code
          × (p < buf.size)
          × Holds net env p)

  send_loop-Drains :
      Step
      → (fuel : ℕ) (net : Net) (p : ℕ) (env : Env W) → buf.size ≤ buf_size
      → p ≤ buf.size
      → buf.size - p < fuel
      → Holds net env p
      → Drains (send_loop socket crypto nonces flags fuel net (record buf { read_pos = p }) env)
  unfolding send_loop
  send_loop-Drains step zero net p env s h f i = absurd (omega arith)
  send_loop-Drains step (suc fuel) net p env s h f i = elim (Bool-cases (ltb p buf.size)) [
    | inr done ↦
        let full : p ≡ buf.size = ground arith in rw done (inl (net, env, refl, rw full at i))
    | inl more ↦ rw more (elim (step net env p i (ground arith)) [
      | inl (k, net', env', r, positive, within, i') ↦
          let wrap : (p + k) % 2 ^ 64 ≡ p + k = omega arith in
          rw (r, wrap)
            (send_loop-Drains step fuel net' (p + k) env' s (omega arith) (ground arith) i')
      | inr (j, net', env', r, honest, i') ↦ rw r (
          inr (
            send_code (negsuc j) env'.errno,
            p,
            net',
            env',
            refl,
            send_code-FailedBy (negsuc j) env'.errno honest,
            ground arith,
            i',
          ))
    ])
  ]

  pub buf_send-Drains :
      Step
      → (net : Net) (env : Env W) → CanDrain buf
      → Holds net env buf.read_pos
      → Drains (buf_send socket crypto nonces flags net buf env)
  unfolding buf_send
  buf_send-Drains step net env c i =
      let some_left : (buf.size == 0) || (buf.read_pos == buf.size) ≡ false =
        ground (arith, c.started) in
      rw some_left (
        send_loop-Drains step _ net buf.read_pos env (omega (arith, c.fits, c.size))
          (omega (arith, c.started)) (omega arith) i)

module _ {W : Type 0} (socket : Socket W) (outbox : ℤ → W → List ℕ) (laws : SendLaws socket outbox)
    (crypto : Crypto) (nonces : ℕ → List ℕ) (flags : ℕ) (buf : Buf) (start : List ℕ) where
  -- a plain connection that has taken the bytes before `p`, behind `start`
  abbrev pub PlainSent : Net → Env W → ℕ → Type 0
  PlainSent net env p =
      (net.b_encrypted ≡ false) × (outbox net.sock_fd env.world ≡ start ++ take p buf.contents)

  pub plain-Step : buf.size ≤ length buf.contents → Step socket crypto nonces flags buf PlainSent
  unfolding send_some
  plain-Step fits net env p (plain, out) less =
      let size : length (left_from buf p) ≡ buf.size - p =
        omega
          (arith, length-take (buf.size - p) (drop p buf.contents), length-drop p buf.contents) in
      elim (c_send-Took socket outbox laws net.sock_fd (left_from buf p) flags env) [
        | inl (n, w, r, le, progress, took) ↦
            let out' : outbox net.sock_fd w ≡ start ++ take (p + n) buf.contents =
              took
              ∙ rw
                  (
                    out,
                    append_assoc,
                    take-take n (buf.size - p) (drop p buf.contents) (omega (arith, size)),
                    take-add p n buf.contents,
                  )
                  refl in
            rw (plain, r)
              (inl
                (n, _, _, refl, progress (omega (arith, size)), omega (arith, size), (refl, out')))
        | inr (errno, w, r, same) ↦
            rw (plain, r) (inr (0, _, _, refl, inl (λ clash. cc), (refl, same ∙ out)))
      ]

  -- On a plain connection that has taken the bytes of the buffer before its position, `buf_send` returns.
  -- Either the whole buffer has gone out, in order, it is empty again and the code is PROXY_SUCCESS, or a
  -- send failed and exactly the bytes before the new position have gone out; the code is then
  -- PROXY_WOULD_BLOCK for EAGAIN or EWOULDBLOCK, PROXY_DISCONNECT for EPIPE or ECONNRESET and PROXY_ERR for
  -- any other errno.
  pub buf_send-plain :
      (net : Net) (env : Env W)
      → CanDrain buf
      → PlainSent net env buf.read_pos
      → Drains socket crypto nonces flags buf PlainSent
          (buf_send socket crypto nonces flags net buf env)
  buf_send-plain net env c i =
      buf_send-Drains socket crypto nonces flags buf PlainSent (plain-Step c.fits) net env c i
