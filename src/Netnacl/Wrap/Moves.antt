-- ===== src/Netnacl/Wrap/Moves.antt =====
-- Progress of the two loops of `netnacl_wrap` on a socket that is ready and does not fail.
use nacl_proxy.Base.{
  ℕ, zero, suc, ◌+◌, ◌-◌, ◌%◌, ◌^◌, ◌≤◌, ◌<◌, ◌≡◌, ◌≢◌, ◌∙◌, refl, sym, ap, ◌⊎◌, inl, inr, true,
  false, ℤ, pos, minus_one, List, [], ◌∷◌, ◌++◌, length, take, drop, length-append, length-take,
  length-drop, ltb, ◌==◌, Bool-cases, arith,
}
use nacl_proxy.Errors.{nn_success, nn_want_read, nn_want_write}
use nacl_proxy.Sys.{
  Socket, Env, Res, ok, Sent, sent, send_failed, Recvd, received, recv_failed, splice, blocked,
  msg_nosignal, c_send, c_recv, sent_reply, recvd_reply,
}
use nacl_proxy.Sys.Laws.{SendLaws, RecvLaws, length-splice}
use nacl_proxy.Netnacl.{Netnacl, publickey_bytes}
use nacl_proxy.Netnacl.Wrap.{send_key_loop, send_key, recv_key_loop, recv_key}
use nacl_proxy.Netnacl.Wrap.Keys.{with_sent, with_peer}

-- A connection that does not break: calls fail only where they would block, and the stream ends only
-- where there is no more to read.
pub record SteadyLaws {W : Type 0} (sk : Socket W) (inbox : ℤ → W → List ℕ) : Type 0 where
  pub send_blocks :
      (fd : ℤ) (bytes : List ℕ) (flags e : ℕ) (w w' : W)
      → sk.send fd bytes flags w ≡ (send_failed e, w')
      → blocked e ≡ true
  pub recv_blocks :
      (fd : ℤ) (len flags e : ℕ) (w w' : W)
      → sk.recv fd len flags w ≡ (recv_failed e, w')
      → blocked e ≡ true
  pub recv_ends :
      (fd : ℤ) (len flags : ℕ) (w w' : W)
      → sk.recv fd len flags w ≡ (received [], w')
      → 0 < len
      → length (inbox fd w) ≡ 0

module _ {W : Type 0} (socket : Socket W) (outbox : ℤ → W → List ℕ) (laws : SendLaws socket outbox)
    (inbox : ℤ → W → List ℕ) (steady : SteadyLaws socket inbox) (nn : Netnacl)
    (size : length nn.pk ≡ publickey_bytes) where
  -- The whole key is out, or `send` would block after `k'` bytes, at least `k`.
  abbrev pub SendMoves : ℕ → Res (ℤ × Netnacl × Env W) → Type 0
  SendMoves k r =
      ((env : Env W) × (r ≡ ok (nn_success, with_sent nn publickey_bytes, env)))
      ⊎ ((k' : ℕ) × (env : Env W) × (r ≡ ok (nn_want_write, with_sent nn k', env))
          × (k ≤ k')
          × (k' < publickey_bytes))

  SendMoves-weaken :
      (k n : ℕ) (r : Res (ℤ × Netnacl × Env W)) → n ≤ k → SendMoves k r → SendMoves n r
  SendMoves-weaken k n r le (inl whole) = inl whole
  SendMoves-weaken k n r le (inr (k', env, e, more, less)) = inr (k', env, e, omega arith, less)

  left_of : (k : ℕ) → length (take (publickey_bytes - k) (drop k nn.pk)) ≡ publickey_bytes - k
  left_of k =
      omega (arith, size, length-take (publickey_bytes - k) (drop k nn.pk), length-drop k nn.pk)

  -- a reply of `send` in the loop
  send_reply :
      (bytes : List ℕ) (env : Env W)
      → 0 < length bytes
      → ((n : ℕ) × (w : W) × (c_send socket nn.sock_fd bytes msg_nosignal env
            ≡ (pos n, record env { world = w }))
          × (0 < n)
          × (n ≤ length bytes))
        ⊎ ((e : ℕ) × (w : W) × (c_send socket nn.sock_fd bytes msg_nosignal env
              ≡ (minus_one, record { errno = e; world = w }))
            × (blocked e ≡ true))
  unfolding c_send
  send_reply bytes env some = go (socket.send nn.sock_fd bytes msg_nosignal env.world).0 _ refl
    where
      go :
          (r : Sent) (w : W)
          → socket.send nn.sock_fd bytes msg_nosignal env.world ≡ (r, w)
          → ((n : ℕ) × (w : W) × (c_send socket nn.sock_fd bytes msg_nosignal env
                ≡ (pos n, record env { world = w }))
              × (0 < n)
              × (n ≤ length bytes))
            ⊎ ((e : ℕ) × (w : W) × (c_send socket nn.sock_fd bytes msg_nosignal env
                  ≡ (minus_one, record { errno = e; world = w }))
                × (blocked e ≡ true))
      go (sent n) w e = inl (
        n,
        w,
        ap (sent_reply env) e,
        laws.progress nn.sock_fd bytes msg_nosignal n env.world w e some,
        (laws.sends nn.sock_fd bytes msg_nosignal n env.world w e).0,
      )
      go (send_failed n) w e = inr (
        n,
        w,
        ap (sent_reply env) e,
        steady.send_blocks nn.sock_fd bytes msg_nosignal n env.world w e,
      )

  send_key_loop-Moves :
      (fuel k : ℕ) (env : Env W)
      → k ≤ publickey_bytes
      → publickey_bytes - k < fuel
      → SendMoves k (send_key_loop socket fuel (with_sent nn k) env)
  unfolding send_key_loop
  send_key_loop-Moves zero k env h f = absurd (omega arith)
  send_key_loop-Moves (suc fuel) k env h f = elim (Bool-cases (ltb k publickey_bytes)) [
    | inr over ↦ let full : k ≡ publickey_bytes = ground arith in rw (over, full) (inl (env, refl))
    | inl more ↦
        rw more
          (elim (send_reply (take (publickey_bytes - k) (drop k nn.pk)) env
            (ground (arith, left_of k))) [
              | inr (e, w, r, would_block) ↦
                  rw (r, would_block) (inr (k, _, refl, omega arith, ground arith))
              | inl (n, w, r, some, le) ↦
                  let wrap : (k + n) % 2 ^ 64 ≡ k + n = omega (arith, left_of k) in
                  rw (r, wrap)
                    (SendMoves-weaken (k + n) k _ (omega arith) (
                      send_key_loop-Moves fuel (k + n) (record env { world = w })
                        (omega (arith, left_of k)) (ground (arith, left_of k))))
            ])
  ]

  pub send_key-Moves :
      (k : ℕ) (env : Env W)
      → k ≤ publickey_bytes
      → SendMoves k (send_key socket (with_sent nn k) env)
  unfolding send_key
  send_key-Moves k env h = send_key_loop-Moves _ k env h (omega arith)

  -- A key that is out is not sent again.
  pub send_key-over :
      (env : Env W)
      → send_key socket (with_sent nn publickey_bytes) env
        ≡ ok (nn_success, with_sent nn publickey_bytes, env)
  unfolding send_key send_key_loop
  send_key-over env = refl

  -- With a socket that is ready at least one byte goes out.
  pub send_key-Advances :
      (k : ℕ) (env : Env W)
      → k < publickey_bytes
      → ((bytes : List ℕ) (flags : ℕ)
          → 0 < length bytes
          → (n : ℕ) × (w : W) × (socket.send nn.sock_fd bytes flags env.world ≡ (sent n, w)))
      → SendMoves (k + 1) (send_key socket (with_sent nn k) env)
  unfolding send_key send_key_loop c_send
  send_key-Advances k env h ready =
      let bytes : List ℕ = take (publickey_bytes - k) (drop k nn.pk) in
      let some : 0 < length bytes = omega (arith, left_of k) in
      let (n, w, e) = ready bytes msg_nosignal some in
      let progress : 0 < n = laws.progress nn.sock_fd bytes msg_nosignal n env.world w e some in
      let (le, out) = laws.sends nn.sock_fd bytes msg_nosignal n env.world w e in
      let wrap : (k + n) % 2 ^ 64 ≡ k + n = omega (arith, left_of k) in
      let more : ltb k publickey_bytes ≡ true = ground arith in
      let fuel : publickey_bytes - k + 1 ≡ suc (publickey_bytes - k) = omega arith in
      rw (fuel, send_key_loop, more, e, wrap)
        (SendMoves-weaken (k + n) (k + 1) _ (omega arith) (
          send_key_loop-Moves (publickey_bytes - k) (k + n) (record env { world = w })
            (omega (arith, left_of k)) (omega (arith, left_of k))))

-- a length is not -1
not_minus_one : (n : ℕ) → pos n ≢ minus_one
not_minus_one n same = cc

module _ {W : Type 0} (socket : Socket W) (inbox : ℤ → W → List ℕ) (laws : RecvLaws socket inbox)
    (steady : SteadyLaws socket inbox) (nn : Netnacl) where
  -- The whole key is there, or `recv` would block after `k'` bytes, at least `k`.
  abbrev pub RecvMoves : ℕ → Res (ℤ × Netnacl × Env W) → Type 0
  RecvMoves k r =
      ((key : List ℕ) × (env : Env W) × (r
          ≡ ok (nn_success, with_peer nn key publickey_bytes, env)))
      ⊎ ((key : List ℕ) × (k' : ℕ) × (env : Env W) × (r
            ≡ ok (nn_want_read, with_peer nn key k', env))
          × (k ≤ k')
          × (k' < publickey_bytes))

  RecvMoves-weaken :
      (k n : ℕ) (r : Res (ℤ × Netnacl × Env W)) → n ≤ k → RecvMoves k r → RecvMoves n r
  RecvMoves-weaken k n r le (inl whole) = inl whole
  RecvMoves-weaken k n r le (inr (key, k', env, e, more, less)) =
      inr (key, k', env, e, omega arith, less)

  -- what `recv` yields in the loop, while the peer has sent more
  abbrev Yields : ℕ → Env W → ℤ × List ℕ × Env W → Type 0
  Yields len env r =
      (b : ℕ) × (bytes : List ℕ) × (w : W) × (r
        ≡ (pos (length (b ∷ bytes)), b ∷ bytes, record env { world = w }))
      × (length (b ∷ bytes) ≤ len)
      × (inbox nn.sock_fd env.world ≡ b ∷ bytes ++ inbox nn.sock_fd w)

  abbrev Blocks : Env W → ℤ × List ℕ × Env W → Type 0
  Blocks env r =
      (e : ℕ) × (w : W) × (r ≡ (minus_one, [], record { errno = e; world = w }))
      × (blocked e ≡ true)

  recv_reply :
      (len : ℕ) (env : Env W)
      → 0 < len
      → 0 < length (inbox nn.sock_fd env.world)
      → Yields len env (c_recv socket nn.sock_fd len 0 env)
        ⊎ Blocks env (c_recv socket nn.sock_fd len 0 env)
  unfolding c_recv
  recv_reply len env some more = go (socket.recv nn.sock_fd len 0 env.world).0 _ refl
    where
      go :
          (r : Recvd) (w : W)
          → socket.recv nn.sock_fd len 0 env.world ≡ (r, w)
          → Yields len env (c_recv socket nn.sock_fd len 0 env)
            ⊎ Blocks env (c_recv socket nn.sock_fd len 0 env)
      go (received []) w e =
          let none_left : length (inbox nn.sock_fd env.world) ≡ 0 =
            steady.recv_ends nn.sock_fd len 0 env.world w e some in
          absurd (omega arith)
      go (received (b ∷ bytes)) w e =
          let (le, got) = laws.recvs nn.sock_fd len 0 (b ∷ bytes) env.world w e in
          inl (b, bytes, w, ap (recvd_reply env) e, le, got)
      go (recv_failed n) w e =
          inr (n, w, ap (recvd_reply env) e, steady.recv_blocks nn.sock_fd len 0 n env.world w e)

  some_read : (n : ℕ) → (0 == suc n) ≡ false
  some_read n = ground arith

  -- The loop goes on after bytes have come in.
  recv_key_step :
      (fuel : ℕ) (key : List ℕ) (k : ℕ) (env : Env W)
      → ((key' : List ℕ) (k' : ℕ) (env' : Env W)
          → length key' ≡ publickey_bytes
          → k' ≤ publickey_bytes
          → publickey_bytes - k' < fuel
          → publickey_bytes ≤ k' + length (inbox nn.sock_fd env'.world)
          → RecvMoves k' (recv_key_loop socket fuel (with_peer nn key' k') env'))
      → length key ≡ publickey_bytes
      → k < publickey_bytes
      → publickey_bytes - k < suc fuel
      → publickey_bytes ≤ k + length (inbox nn.sock_fd env.world)
      → Yields (publickey_bytes - k) env (c_recv socket nn.sock_fd (publickey_bytes - k) 0 env)
      → RecvMoves (k + 1) (recv_key_loop socket (suc fuel) (with_peer nn key k) env)
  unfolding recv_key_loop
  recv_key_step fuel key k env later e less f more (b, bytes, w, r, le, got) =
      let room : ltb k publickey_bytes ≡ true = ground arith in
      let wrap : (k + suc (length bytes)) % 2 ^ 64 ≡ k + suc (length bytes) = omega arith in
      let left : length (inbox nn.sock_fd env.world)
          ≡ suc (length bytes) + length (inbox nn.sock_fd w) =
        ap length got ∙ length-append (b ∷ bytes) (inbox nn.sock_fd w) in
      rw (room, r, some_read (length bytes), wrap)
        (RecvMoves-weaken (k + suc (length bytes)) (k + 1) _ (omega arith) (
          later (splice key k (b ∷ bytes)) (k + suc (length bytes)) (record env { world = w })
            (length-splice key k (b ∷ bytes) (omega arith) ∙ e) (omega arith) (omega arith)
            (omega arith)))

  recv_key_loop-Moves :
      (fuel : ℕ) (key : List ℕ) (k : ℕ) (env : Env W)
      → length key ≡ publickey_bytes
      → k ≤ publickey_bytes
      → publickey_bytes - k < fuel
      → publickey_bytes ≤ k + length (inbox nn.sock_fd env.world)
      → RecvMoves k (recv_key_loop socket fuel (with_peer nn key k) env)
  unfolding recv_key_loop
  recv_key_loop-Moves zero key k env e h f more = absurd (omega arith)
  recv_key_loop-Moves (suc fuel) key k env e h f more = elim (Bool-cases (ltb k publickey_bytes)) [
    | inr over ↦
        let full : k ≡ publickey_bytes = ground arith in rw (over, full) (inl (key, env, refl))
    | inl less ↦ elim (recv_reply (publickey_bytes - k) env (ground arith) (ground arith)) [
      | inr (errno, w, r, would_block) ↦
          rw (less, r, would_block) (inr (key, k, _, refl, omega arith, ground arith))
      | inl yields ↦
          RecvMoves-weaken (k + 1) k _ (omega arith)
            (recv_key_step fuel key k env (recv_key_loop-Moves fuel) e (ground arith) f more yields)
    ]
  ]

  pub recv_key-Moves :
      (key : List ℕ) (k : ℕ) (env : Env W)
      → length key ≡ publickey_bytes
      → k ≤ publickey_bytes
      → publickey_bytes ≤ k + length (inbox nn.sock_fd env.world)
      → RecvMoves k (recv_key socket (with_peer nn key k) env)
  unfolding recv_key
  recv_key-Moves key k env e h more = recv_key_loop-Moves _ key k env e h (omega arith) more

  -- With a socket that is ready at least one byte comes in.
  pub recv_key-Advances :
      (key : List ℕ) (k : ℕ) (env : Env W)
      → length key ≡ publickey_bytes
      → k < publickey_bytes
      → publickey_bytes ≤ k + length (inbox nn.sock_fd env.world)
      → ((len flags : ℕ)
          → 0 < len
          → 0 < length (inbox nn.sock_fd env.world)
          → (bytes : List ℕ) × (w : W) × (socket.recv nn.sock_fd len flags env.world
              ≡ (received bytes, w)))
      → RecvMoves (k + 1) (recv_key socket (with_peer nn key k) env)
  unfolding recv_key c_recv
  recv_key-Advances key k env e h more ready =
      let (bytes, w, r) = ready (publickey_bytes - k) 0 (omega arith) (omega arith) in
      let fuel : publickey_bytes - k + 1 ≡ suc (publickey_bytes - k) = omega arith in
      rw fuel (elim (recv_reply (publickey_bytes - k) env (omega arith) (omega arith)) [
        | inl yields ↦
            recv_key_step (publickey_bytes - k) key k env
              (recv_key_loop-Moves (publickey_bytes - k)) e h (omega arith) more yields
        | inr (errno, w', r', would_block) ↦
            let same : recvd_reply env (received bytes, w)
                ≡ (minus_one, [], record { errno = errno; world = w' }) =
              sym (ap (recvd_reply env) r) ∙ r' in
            absurd (not_minus_one (length bytes) (ap (λ x. x.0) same))
      ])
