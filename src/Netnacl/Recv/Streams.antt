-- ===== src/Netnacl/Recv/Streams.antt =====
-- The loops of `recv_hdr` and `recv_ciphertext`: what has been stored and what is still to come.
use nacl_proxy.Base.{
  ℕ, zero, suc, ◌+◌, ◌-◌, ◌%◌, ◌^◌, ◌≤◌, ◌<◌, ◌≡◌, ◌∙◌, refl, sym, ap, ◌⊎◌, inl, inr, true, false,
  ℤ, List, [], ◌∷◌, ◌++◌, length, take, take_all, append_assoc, ltb, leb, ◌==◌, if◌then◌else◌,
  Bool-cases, arith,
}
use nacl_proxy.Errors.{nn_success, nn_want_read, nn_err, nn_disconnect}
use nacl_proxy.Sys.{Socket, Env, Res, ok, splice, blocked}
use nacl_proxy.Sys.Laws.{RecvLaws, c_recv-Got, c_recv-ended, take-splice, length-splice}
use nacl_proxy.Netnacl.{Netnacl, hdr_size, ct_size}
use nacl_proxy.Netnacl.Recv.{hdr_len, swap_len, hdr_loop, recv_hdr, ct_loop, recv_ciphertext}

-- the codes with which a loop gives up; `left` is what is still to come
abbrev pub Stopped : List ℕ → ℤ → Type 0
Stopped left code = (code ≡ nn_want_read) ⊎ (code ≡ nn_err) ⊎ (code ≡ nn_disconnect) × (left ≡ [])

-- a context with `k` bytes of the header in `raw`
abbrev pub with_hdr : Netnacl → List ℕ → ℕ → Netnacl
with_hdr nn raw k = record nn { recv_hdr = raw; hdr_bytes_recvd = k }

-- a context with `k` bytes of ciphertext in `ct`
abbrev pub with_ct : Netnacl → List ℕ → ℕ → Netnacl
with_ct nn ct k = record nn { recv_ct = ct; ct_bytes_recvd = k }

some_read : (n : ℕ) → (0 == suc n) ≡ false
some_read n = ground arith

code-Stopped :
    (left : List ℕ) (errno : ℕ) → Stopped left (if blocked errno then nn_want_read else nn_err)
code-Stopped left errno = ground arith

module _ {W : Type 0} (socket : Socket W) (inbox : ℤ → W → List ℕ) (laws : RecvLaws socket inbox)
    (flags : ℕ) (nn : Netnacl) where
  abbrev in_at : Env W → List ℕ
  in_at env = inbox nn.sock_fd env.world

  -- The header is complete, or the loop stopped with a part of it; `stream` is conserved.
  abbrev pub HdrRead : List ℕ → Res (ℤ × Netnacl × Env W) → Type 0
  HdrRead stream r =
      ((raw : List ℕ) × (env : Env W) × (r
          ≡ ok (nn_success, swap_len (with_hdr nn raw hdr_size), env))
        × (length raw ≡ hdr_size)
        × (raw ++ inbox nn.sock_fd env.world ≡ stream))
      ⊎ ((code : ℤ) × (raw : List ℕ) × (k : ℕ) × (env : Env W) × (r
            ≡ ok (code, with_hdr nn raw k, env))
          × Stopped (inbox nn.sock_fd env.world) code
          × (k < hdr_size)
          × (length raw ≡ hdr_size)
          × (take k raw ++ inbox nn.sock_fd env.world ≡ stream))

  -- what a stored block of bytes leaves of the stream
  stored :
      (buf : List ℕ) (k size : ℕ) (bytes : List ℕ) (env : Env W) (w : W)
      → length buf ≡ size
      → k ≤ size
      → inbox nn.sock_fd env.world ≡ bytes ++ inbox nn.sock_fd w
      → take (k + length bytes) (splice buf k bytes) ++ inbox nn.sock_fd w
        ≡ take k buf ++ inbox nn.sock_fd env.world
  stored buf k size bytes env w e h got =
      rw (take-splice buf k bytes (omega arith), append_assoc, got)

  hdr_loop-HdrRead :
      (fuel : ℕ) (raw : List ℕ) (k : ℕ) (env : Env W)
      → length raw ≡ hdr_size
      → k ≤ hdr_size
      → hdr_size - k < fuel
      → HdrRead
          (take k raw ++ inbox nn.sock_fd env.world)
          (hdr_loop socket flags fuel (with_hdr nn raw k) env)
  unfolding hdr_loop
  hdr_loop-HdrRead zero raw k env e h f = absurd (omega arith)
  hdr_loop-HdrRead (suc fuel) raw k env e h f = elim (Bool-cases (ltb k hdr_size)) [
    | inr done ↦
        let full : k ≡ hdr_size = ground arith in
        rw (done, full)
          (inl (
            raw,
            env,
            refl,
            e,
            ap (λ b. b ++ in_at env) (sym (take_all hdr_size raw (omega arith))),
          ))
    | inl more ↦ rw more (elim (c_recv-Got socket inbox laws nn.sock_fd (hdr_size - k) flags env) [
      | inr (errno, w, r, same) ↦ rw r (
          inr (
            _,
            raw,
            k,
            _,
            refl,
            code-Stopped _ errno,
            ground arith,
            e,
            ap (λ s. take k raw ++ s) (sym same),
          ))
      | inl ([], w, r, le, got) ↦ rw r (
          inr (
            _,
            raw,
            k,
            _,
            refl,
            inr (
                inr (
                  refl,
                  c_recv-ended socket inbox laws nn.sock_fd (hdr_size - k) flags env _ r
                      (ground arith),
                )),
            ground arith,
            e,
            ap (λ s. take k raw ++ s) (sym got),
          ))
      | inl (b ∷ bytes, w, r, le, got) ↦
          let wrap : (k + suc (length bytes)) % 2 ^ 64 ≡ k + suc (length bytes) = omega arith in
          rw (r, some_read (length bytes), wrap)
            (rw (stored raw k hdr_size (b ∷ bytes) env w e h got) at (
              hdr_loop-HdrRead fuel (splice raw k (b ∷ bytes)) (k + suc (length bytes))
                (record env { world = w }) (length-splice raw k (b ∷ bytes) (omega arith) ∙ e)
                (omega arith) (omega arith)))
    ])
  ]

  pub recv_hdr-HdrRead :
      (raw : List ℕ) (k : ℕ) (env : Env W)
      → length raw ≡ hdr_size
      → k ≤ hdr_size
      → HdrRead
          (take k raw ++ inbox nn.sock_fd env.world)
          (recv_hdr socket flags (with_hdr nn raw k) env)
  unfolding recv_hdr
  recv_hdr-HdrRead raw k env e h = hdr_loop-HdrRead _ raw k env e h (omega arith)

  -- The ciphertext is complete, or the loop stopped with a part of it; `stream` is conserved.
  abbrev pub CtRead : List ℕ → Res (ℤ × Netnacl × Env W) → Type 0
  CtRead stream r =
      ((ct : List ℕ) × (env : Env W) × (r ≡ ok (nn_success, with_ct nn ct (hdr_len nn), env))
        × (length ct ≡ ct_size)
        × (take (hdr_len nn) ct ++ inbox nn.sock_fd env.world ≡ stream))
      ⊎ ((code : ℤ) × (ct : List ℕ) × (k : ℕ) × (env : Env W) × (r
            ≡ ok (code, with_ct nn ct k, env))
          × Stopped (inbox nn.sock_fd env.world) code
          × (k < hdr_len nn)
          × (length ct ≡ ct_size)
          × (take k ct ++ inbox nn.sock_fd env.world ≡ stream))

  ct_loop-CtRead :
      (fuel : ℕ) (ct : List ℕ) (k : ℕ) (env : Env W)
      → hdr_len nn ≤ ct_size
      → length ct ≡ ct_size
      → k ≤ hdr_len nn
      → hdr_len nn - k < fuel
      → CtRead
          (take k ct ++ inbox nn.sock_fd env.world)
          (ct_loop socket flags fuel (with_ct nn ct k) env)
  unfolding ct_loop
  ct_loop-CtRead zero ct k env l e h f = absurd (omega arith)
  ct_loop-CtRead (suc fuel) ct k env l e h f = elim (Bool-cases (ltb k (hdr_len nn))) [
    | inr done ↦
        let full : k ≡ hdr_len nn = ground arith in rw (done, full) (inl (ct, env, refl, e, refl))
    | inl more ↦
        rw more (elim (c_recv-Got socket inbox laws nn.sock_fd (hdr_len nn - k) flags env) [
          | inr (errno, w, r, same) ↦ rw r (
              inr (
                _,
                ct,
                k,
                _,
                refl,
                code-Stopped _ errno,
                ground arith,
                e,
                ap (λ s. take k ct ++ s) (sym same),
              ))
          | inl ([], w, r, le, got) ↦ rw r (
              inr (
                _,
                ct,
                k,
                _,
                refl,
                inr (
                    inr (
                      refl,
                      c_recv-ended socket inbox laws nn.sock_fd (hdr_len nn - k) flags env _ r
                          (ground arith),
                    )),
                ground arith,
                e,
                ap (λ s. take k ct ++ s) (sym got),
              ))
          | inl (b ∷ bytes, w, r, le, got) ↦
              let wrap : (k + suc (length bytes)) % 2 ^ 64 ≡ k + suc (length bytes) = omega arith in
              let room : leb (k + suc (length bytes)) ct_size ≡ true = ground arith in
              rw (r, some_read (length bytes), wrap, room)
                (rw (stored ct k ct_size (b ∷ bytes) env w e (omega arith) got) at (
                  ct_loop-CtRead fuel (splice ct k (b ∷ bytes)) (k + suc (length bytes))
                    (record env { world = w }) l (length-splice ct k (b ∷ bytes) (omega arith) ∙ e)
                    (omega arith) (omega arith)))
        ])
  ]

  pub recv_ciphertext-CtRead :
      (ct : List ℕ) (k : ℕ) (env : Env W)
      → hdr_len nn ≤ ct_size
      → length ct ≡ ct_size
      → k ≤ hdr_len nn
      → CtRead
          (take k ct ++ inbox nn.sock_fd env.world)
          (recv_ciphertext socket flags (with_ct nn ct k) env)
  unfolding recv_ciphertext
  recv_ciphertext-CtRead ct k env l e h = ct_loop-CtRead _ ct k env l e h (omega arith)
