-- ===== src/Netnacl/Wrap/Keys.antt =====
-- The two loops of `netnacl_wrap`: what has gone out and what has come in.
use nacl_proxy.Base.{
  ℕ, zero, suc, ◌+◌, ◌-◌, ◌%◌, ◌^◌, ◌≤◌, ◌<◌, ◌≡◌, ◌∙◌, refl, sym, ap, ◌⊎◌, inl, inr, false, ℤ,
  List, [], ◌∷◌, ◌++◌, length, take, drop, take_all, take-add, take-take, length-take, length-drop,
  append_assoc, ltb, ◌==◌, if◌then◌else◌, Bool-cases, arith,
}
use nacl_proxy.Errors.{nn_success, nn_want_read, nn_want_write, nn_err}
use nacl_proxy.Sys.{Socket, Env, Res, ok, splice, blocked, msg_nosignal}
use nacl_proxy.Sys.Laws.{SendLaws, RecvLaws, c_send-Took, c_recv-Got, take-splice, length-splice}
use nacl_proxy.Netnacl.{Netnacl, publickey_bytes}
use nacl_proxy.Netnacl.Wrap.{send_key_loop, send_key, recv_key_loop, recv_key}

-- a context that has sent `k` bytes of its key
abbrev pub with_sent : Netnacl → ℕ → Netnacl
with_sent nn k = record nn { key_bytes_sent = k }

-- a context with `k` bytes of the peer's key in `key`
abbrev pub with_peer : Netnacl → List ℕ → ℕ → Netnacl
with_peer nn key k = record nn { peer_pk = key; key_bytes_recvd = k }

-- the code of a call of `send` or `recv` that failed
abbrev pub Failed : ℤ → ℤ → Type 0
Failed want code = (code ≡ want) ⊎ (code ≡ nn_err)

module _ {W : Type 0} (socket : Socket W) (outbox : ℤ → W → List ℕ) (laws : SendLaws socket outbox)
    (nn : Netnacl) (size : length nn.pk ≡ publickey_bytes) where
  -- The whole key is out, or the loop stopped after `k` bytes; what is out begins with `start`.
  abbrev pub KeySent : List ℕ → Res (ℤ × Netnacl × Env W) → Type 0
  KeySent start r =
      ((env : Env W) × (r ≡ ok (nn_success, with_sent nn publickey_bytes, env))
        × (outbox nn.sock_fd env.world ≡ start ++ nn.pk))
      ⊎ ((code : ℤ) × (k : ℕ) × (env : Env W) × (r ≡ ok (code, with_sent nn k, env))
          × Failed nn_want_write code
          × (k < publickey_bytes)
          × (outbox nn.sock_fd env.world ≡ start ++ take k nn.pk))

  length-left : (k : ℕ) → length (take (publickey_bytes - k) (drop k nn.pk)) ≡ publickey_bytes - k
  length-left k =
      omega (arith, size, length-take (publickey_bytes - k) (drop k nn.pk), length-drop k nn.pk)

  failed : (errno : ℕ) → Failed nn_want_write (if blocked errno then nn_want_write else nn_err)
  failed errno = ground arith

  send_key_loop-KeySent :
      (fuel : ℕ) (k : ℕ) (env : Env W) (start : List ℕ)
      → k ≤ publickey_bytes
      → publickey_bytes - k < fuel
      → outbox nn.sock_fd env.world ≡ start ++ take k nn.pk
      → KeySent start (send_key_loop socket fuel (with_sent nn k) env)
  unfolding send_key_loop
  send_key_loop-KeySent zero k env start h f out = absurd (omega arith)
  send_key_loop-KeySent (suc fuel) k env start h f out = elim (Bool-cases (ltb k publickey_bytes)) [
    | inr done ↦
        let full : k ≡ publickey_bytes = ground arith in
        rw (done, full)
          (inl (env, refl, out ∙ ap (λ b. start ++ b) (take_all k nn.pk (omega (arith, size)))))
    | inl more ↦
        rw more
          (elim (c_send-Took socket outbox laws nn.sock_fd
            (take (publickey_bytes - k) (drop k nn.pk)) msg_nosignal env) [
              | inl (n, w, r, le, progress, took) ↦
                  let wrap : (k + n) % 2 ^ 64 ≡ k + n = omega (arith, length-left k) in
                  let out' : outbox nn.sock_fd w ≡ start ++ take (k + n) nn.pk =
                    took
                    ∙ rw
                        (
                          out,
                          append_assoc,
                          take-take n (publickey_bytes - k) (drop k nn.pk)
                              (omega (arith, length-left k)),
                          take-add k n nn.pk,
                        )
                        refl in
                  rw (r, wrap)
                    (send_key_loop-KeySent fuel (k + n) (record env { world = w }) start
                      (omega (arith, length-left k)) (ground (arith, length-left k)) out')
              | inr (errno, w, r, same) ↦
                  rw r (inr (_, k, _, refl, failed errno, ground arith, same ∙ out))
            ])
  ]

  pub send_key-KeySent :
      (k : ℕ) (env : Env W) (start : List ℕ)
      → k ≤ publickey_bytes
      → outbox nn.sock_fd env.world ≡ start ++ take k nn.pk
      → KeySent start (send_key socket (with_sent nn k) env)
  unfolding send_key
  send_key-KeySent k env start h out = send_key_loop-KeySent _ k env start h (omega arith) out

module _ {W : Type 0} (socket : Socket W) (inbox : ℤ → W → List ℕ) (laws : RecvLaws socket inbox)
    (nn : Netnacl) where
  -- The peer's key is there, or the loop stopped with a part of it; `stream` is conserved.
  abbrev pub KeyRead : List ℕ → Res (ℤ × Netnacl × Env W) → Type 0
  KeyRead stream r =
      ((key : List ℕ) × (env : Env W) × (r ≡ ok (nn_success, with_peer nn key publickey_bytes, env))
        × (length key ≡ publickey_bytes)
        × (key ++ inbox nn.sock_fd env.world ≡ stream))
      ⊎ ((code : ℤ) × (key : List ℕ) × (k : ℕ) × (env : Env W) × (r
            ≡ ok (code, with_peer nn key k, env))
          × Failed nn_want_read code
          × (k < publickey_bytes)
          × (length key ≡ publickey_bytes)
          × (take k key ++ inbox nn.sock_fd env.world ≡ stream))

  recv_code-Failed :
      (errno : ℕ) → Failed nn_want_read (if blocked errno then nn_want_read else nn_err)
  recv_code-Failed errno = ground arith

  some_read : (n : ℕ) → (0 == suc n) ≡ false
  some_read n = ground arith

  recv_key_loop-KeyRead :
      (fuel : ℕ) (key : List ℕ) (k : ℕ) (env : Env W)
      → length key ≡ publickey_bytes
      → k ≤ publickey_bytes
      → publickey_bytes - k < fuel
      → KeyRead
          (take k key ++ inbox nn.sock_fd env.world)
          (recv_key_loop socket fuel (with_peer nn key k) env)
  unfolding recv_key_loop
  recv_key_loop-KeyRead zero key k env e h f = absurd (omega arith)
  recv_key_loop-KeyRead (suc fuel) key k env e h f = elim (Bool-cases (ltb k publickey_bytes)) [
    | inr done ↦
        let full : k ≡ publickey_bytes = ground arith in
        rw (done, full)
          (inl (
            key,
            env,
            refl,
            e,
            ap (λ b. b ++ inbox nn.sock_fd env.world)
                (sym (take_all publickey_bytes key (omega arith))),
          ))
    | inl more ↦
        rw more (elim (c_recv-Got socket inbox laws nn.sock_fd (publickey_bytes - k) 0 env) [
          | inr (errno, w, r, same) ↦ rw r (
              inr (
                _,
                key,
                k,
                _,
                refl,
                recv_code-Failed errno,
                ground arith,
                e,
                ap (λ s. take k key ++ s) (sym same),
              ))
          | inl ([], w, r, le, got) ↦ rw r (
              inr (
                _,
                key,
                k,
                _,
                refl,
                inr refl,
                ground arith,
                e,
                ap (λ s. take k key ++ s) (sym got),
              ))
          | inl (b ∷ bytes, w, r, le, got) ↦
              let wrap : (k + suc (length bytes)) % 2 ^ 64 ≡ k + suc (length bytes) = omega arith in
              let stored : take (k + suc (length bytes)) (splice key k (b ∷ bytes))
                    ++ inbox nn.sock_fd w
                  ≡ take k key ++ inbox nn.sock_fd env.world =
                rw (take-splice key k (b ∷ bytes) (omega arith), append_assoc, got) refl in
              rw (r, some_read (length bytes), wrap)
                (rw stored at (
                  recv_key_loop-KeyRead fuel (splice key k (b ∷ bytes)) (k + suc (length bytes))
                    (record env { world = w }) (length-splice key k (b ∷ bytes) (omega arith) ∙ e)
                    (omega arith) (omega arith)))
        ])
  ]

  pub recv_key-KeyRead :
      (key : List ℕ) (k : ℕ) (env : Env W)
      → length key ≡ publickey_bytes
      → k ≤ publickey_bytes
      → KeyRead
          (take k key ++ inbox nn.sock_fd env.world)
          (recv_key socket (with_peer nn key k) env)
  unfolding recv_key
  recv_key-KeyRead key k env e h = recv_key_loop-KeyRead _ key k env e h (omega arith)
