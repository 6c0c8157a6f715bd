-- ===== src/Netnacl/Wrap/Live.antt =====
-- The handshake of src/netnacl ends: what happens when `netnacl_wrap` is called again, as
-- `handshake_callback` of src/proxy.c does, whenever the socket is ready for what it waits for.
use nacl_proxy.Base.{
  ℕ, zero, suc, ◌+◌, ◌-◌, ◌≤◌, ◌<◌, ◌≡◌, ◌∙◌, refl, ap, ◌⊎◌, inl, inr, true, false, ℤ, int_eq, List,
  ◌++◌, length, take, length-append, length-take, ◌==◌, Bool-cases, arith,
}
use nacl_proxy.Errors.{nn_success, nn_want_read, nn_want_write}
use nacl_proxy.Sys.{Socket, Env, Res, ok, out_of_fuel, ◌>>=◌, sent, received}
use nacl_proxy.Sys.Laws.{SendLaws, RecvLaws, DuplexLaws}
use nacl_proxy.Netnacl.{Netnacl, Crypto, publickey_bytes}
use nacl_proxy.Netnacl.Laws.{CryptoLaws}
use nacl_proxy.Netnacl.Wrap.{with_keypair, send_key, recv_key, unless_stopped, derive, netnacl_wrap}
use nacl_proxy.Netnacl.Wrap.Keys.{with_sent}
use nacl_proxy.Netnacl.Wrap.Duplex.{Leaves, send_key-Leaves}
use nacl_proxy.Netnacl.Wrap.Agree.{Shaking, Shaken, Ends, keyed, netnacl_wrap-Ends}
use nacl_proxy.Netnacl.Wrap.Moves.{
  SteadyLaws, RecvMoves, send_key-over, send_key-Advances, recv_key-Moves, recv_key-Advances,
}

-- the flag that a descriptor is polled for
pub data Wanted : Type 0 where
  input output : Wanted

-- A wait for a flag: the streams are as they were, and the next call does not block.
pub record WaitLaws {W : Type 0} (sk : Socket W) (outbox inbox : ℤ → W → List ℕ)
    (wait : Wanted → ℤ → W → W) : Type 0 where
  pub keeps_out : (want : Wanted) (fd : ℤ) (w : W) → outbox fd (wait want fd w) ≡ outbox fd w
  pub keeps_in : (want : Wanted) (fd : ℤ) (w : W) → inbox fd (wait want fd w) ≡ inbox fd w
  pub takes :
      (fd : ℤ) (w : W) (bytes : List ℕ) (flags : ℕ)
      → 0 < length bytes
      → (n : ℕ) × (w' : W) × (sk.send fd bytes flags (wait output fd w) ≡ (sent n, w'))
  pub gives :
      (fd : ℤ) (w : W) (len flags : ℕ)
      → 0 < len
      → 0 < length (inbox fd (wait input fd w))
      → (bytes : List ℕ) × (w' : W) × (sk.recv fd len flags (wait input fd w)
          ≡ (received bytes, w'))

-- The calls of a handshake, each after a wait for what the last one asked for, at most `fuel`.
pub handshake :
    {W : Type 0}
    → Socket W
    → Crypto
    → (wait : Wanted → ℤ → W → W) (secret : Env W → List ℕ) → ℕ
    → Wanted
    → Netnacl
    → Env W
    → Res (ℤ × Netnacl × Env W)
handshake socket crypto wait secret zero want nn env = out_of_fuel
handshake socket crypto wait secret (suc fuel) want nn env =
    let env1 = record env { world = wait want nn.sock_fd env.world } in
    netnacl_wrap socket crypto (secret env1) nn env1 >>= λ (code, nn', env').
    elim (int_eq nn_want_read code) [
      | true ↦ handshake socket crypto wait secret fuel input nn' env'
      | false ↦ elim (int_eq nn_want_write code) [
        | true ↦ handshake socket crypto wait secret fuel output nn' env'
        | false ↦ ok (code, nn', env')
      ]
    ]

-- how many bytes of the two keys have still to go out or to come in
abbrev pub left : Netnacl → ℕ
left nn = (publickey_bytes - nn.key_bytes_sent) + (publickey_bytes - nn.key_bytes_recvd)

-- what a handshake waits for when it asks for a flag
abbrev pub Fits : Wanted → Netnacl → Type 0
Fits input nn = (nn.key_bytes_sent ≡ publickey_bytes) × (nn.key_bytes_recvd < publickey_bytes)
Fits output nn = nn.key_bytes_sent < publickey_bytes

-- A call has ended the handshake, or has moved it on by a byte at least.
abbrev Advances : {W : Type 0} → ℕ → Res (ℤ × Netnacl × Env W) → Type 0
Advances {W} before r =
    (code : ℤ) × (nn : Netnacl) × (env : Env W) × (r ≡ ok (code, nn, env))
    × ((code ≡ nn_success)
        ⊎ (code ≡ nn_want_read) × Fits input nn × (left nn < before)
        ⊎ (code ≡ nn_want_write) × Fits output nn × (left nn < before))

-- the handshake has ended with a shared key
abbrev pub Succeeds :
    {W : Type 0}
    → Crypto
    → (outbox inbox : ℤ → W → List ℕ) (start stream : List ℕ) → Res (ℤ × Netnacl × Env W)
    → Type 0
Succeeds {W} crypto outbox inbox start stream r =
    (nn : Netnacl) × (env : Env W) × (r ≡ ok (nn_success, nn, env))
    × Shaken crypto outbox inbox start stream nn env

Advances-weaken :
    {W : Type 0} (n k : ℕ) (r : Res (ℤ × Netnacl × Env W)) → n ≤ k → Advances n r → Advances k r
Advances-weaken n k r le (code, nn, env, e, inl over) = (code, nn, env, e, inl over)
Advances-weaken n k r le (code, nn, env, e, inr (inl (want, fits, less))) =
    (code, nn, env, e, inr (inl (want, fits, omega arith)))
Advances-weaken n k r le (code, nn, env, e, inr (inr (want, fits, less))) =
    (code, nn, env, e, inr (inr (want, fits, omega arith)))

keypair-same :
    (crypto : Crypto) (secret : List ℕ) (nn : Netnacl)
    → ((with_keypair crypto secret nn).key_bytes_sent ≡ nn.key_bytes_sent)
      × ((with_keypair crypto secret nn).key_bytes_recvd ≡ nn.key_bytes_recvd)
      × ((with_keypair crypto secret nn).sock_fd ≡ nn.sock_fd)
unfolding with_keypair
keypair-same crypto secret nn = elim (Bool-cases (nn.key_bytes_sent == 0)) [
  | inl first ↦ rw first (refl, refl, refl)
  | inr later ↦ rw later (refl, refl, refl)
]

module _ {W : Type 0} (socket : Socket W) (outbox inbox : ℤ → W → List ℕ)
    (send_laws : SendLaws socket outbox) (recv_laws : RecvLaws socket inbox)
    (duplex : DuplexLaws socket outbox inbox) (steady : SteadyLaws socket inbox) (crypto : Crypto)
    (crypto_laws : CryptoLaws crypto) (start stream : List ℕ)
    (enough : publickey_bytes ≤ length stream) where
  -- The rest of the peer's key is still to come.
  key_to_come :
      (nn : Netnacl) (env : Env W)
      → Shaking crypto outbox inbox start stream nn env
      → publickey_bytes ≤ nn.key_bytes_recvd + length (inbox nn.sock_fd env.world)
  key_to_come nn env s = omega (
    arith,
    ap length s.inn,
    length-append (take nn.key_bytes_recvd nn.peer_pk) (inbox nn.sock_fd env.world),
    length-take nn.key_bytes_recvd nn.peer_pk,
    s.peer_size,
    s.recvd,
  )

  -- the second loop and what follows it
  received_part :
      (nn : Netnacl) (env : Env W) (before least : ℕ)
      → nn.key_bytes_sent ≡ publickey_bytes
      → RecvMoves socket inbox recv_laws steady nn least (recv_key socket nn env)
      → publickey_bytes - least < before
      → Advances before (
          recv_key socket nn env
          >>= unless_stopped λ nn' env'. ok (nn_success, derive crypto nn', env'))
  unfolding unless_stopped
  received_part nn env before least whole (inl (key, env', r)) less = rw r (_, _, _, refl, inl refl)
  received_part nn env before least whole (inr (key, k, env', r, more, room)) less =
      rw r (_, _, _, refl, inr (inl (refl, (whole, room), omega arith)))

  -- After a wait for output the first loop moves.
  output_part :
      (nn : Netnacl) (env : Env W)
      → Shaking crypto outbox inbox start stream nn env
      → nn.pk ≡ crypto.public_key nn.sk
      → nn.key_bytes_sent < publickey_bytes
      → ((bytes : List ℕ) (flags : ℕ)
          → 0 < length bytes
          → (n : ℕ) × (w : W) × (socket.send nn.sock_fd bytes flags env.world ≡ (sent n, w)))
      → Advances (left nn) (
          send_key socket nn env
          >>= unless_stopped λ nn' env'.
            recv_key socket nn' env'
            >>= unless_stopped λ nn'' env''. ok (nn_success, derive crypto nn'', env''))
  unfolding unless_stopped Leaves
  output_part nn env s pair room ready =
      let size : length nn.pk ≡ publickey_bytes = ap length pair ∙ crypto_laws.key_size nn.sk in
      let leaves : Leaves (inbox nn.sock_fd) (inbox nn.sock_fd env.world) (send_key socket nn env) =
        send_key-Leaves socket outbox inbox duplex nn.sock_fd nn env refl in
      elim (send_key-Advances socket outbox send_laws inbox steady nn size nn.key_bytes_sent env
        room ready) [
          | inr (k, env', r, more, less) ↦ rw r (_, _, _, refl, inr (inr (refl, less, omega arith)))
          | inl (env', r) ↦
              let same : inbox nn.sock_fd env'.world ≡ inbox nn.sock_fd env.world =
                rw r at leaves in
              let to_come : publickey_bytes
                  ≤ nn.key_bytes_recvd + length (inbox nn.sock_fd env'.world) =
                rw same (key_to_come nn env s) in
              rw r (
                received_part (with_sent nn publickey_bytes) env' (left nn) nn.key_bytes_recvd refl
                  (recv_key-Moves socket inbox recv_laws steady (with_sent nn publickey_bytes)
                    nn.peer_pk nn.key_bytes_recvd env' s.peer_size s.recvd to_come)
                  (omega arith))
        ]

  -- After a wait for input, with the key out, the second loop moves.
  input_part :
      (nn : Netnacl) (env : Env W)
      → Shaking crypto outbox inbox start stream nn env
      → nn.pk ≡ crypto.public_key nn.sk
      → Fits input nn
      → ((len flags : ℕ)
          → 0 < len
          → 0 < length (inbox nn.sock_fd env.world)
          → (bytes : List ℕ) × (w : W) × (socket.recv nn.sock_fd len flags env.world
              ≡ (received bytes, w)))
      → Advances (left nn) (
          send_key socket nn env
          >>= unless_stopped λ nn' env'.
            recv_key socket nn' env'
            >>= unless_stopped λ nn'' env''. ok (nn_success, derive crypto nn'', env''))
  unfolding unless_stopped
  input_part nn env s pair (whole, room) ready =
      let size : length nn.pk ≡ publickey_bytes = ap length pair ∙ crypto_laws.key_size nn.sk in
      let over : send_key socket nn env ≡ ok (nn_success, with_sent nn publickey_bytes, env) =
        ap (λ k. send_key socket (with_sent nn k) env) whole
        ∙ send_key-over socket outbox send_laws inbox steady nn size env in
      rw over (
        received_part (with_sent nn publickey_bytes) env (left nn) (nn.key_bytes_recvd + 1) refl
          (recv_key-Advances socket inbox recv_laws steady (with_sent nn publickey_bytes) nn.peer_pk
            nn.key_bytes_recvd env s.peer_size room (key_to_come nn env s) ready)
          (omega arith))

  -- A call after a wait for what the handshake asks for ends it or moves it on.
  call_moves :
      (wait : Wanted → ℤ → W → W)
      → WaitLaws socket outbox inbox wait
      → (secret : List ℕ) (want : Wanted) (nn : Netnacl) (env : Env W) → Fits want nn
      → let env1 : Env W = record env { world = wait want nn.sock_fd env.world } in
        Shaking crypto outbox inbox start stream nn env1
        → Advances (left nn) (netnacl_wrap socket crypto secret nn env1)
  unfolding netnacl_wrap
  call_moves wait laws secret output nn env fits s =
      let env1 : Env W = record env { world = wait output nn.sock_fd env.world } in
      let nn1 : Netnacl = with_keypair crypto secret nn in
      let (sent_same, recvd_same, fd_same) = keypair-same crypto secret nn in
      let (s1, pair) =
        keyed socket outbox inbox send_laws recv_laws duplex crypto crypto_laws start stream secret
          nn env1 s in
      Advances-weaken (left nn1) (left nn) _ (omega (arith, sent_same, recvd_same)) (
        output_part nn1 env1 s1 pair (omega (arith, sent_same))
          (rw fd_same λ bytes flags some. laws.takes nn.sock_fd env.world bytes flags some))
  call_moves wait laws secret input nn env (whole, room) s =
      let env1 : Env W = record env { world = wait input nn.sock_fd env.world } in
      let nn1 : Netnacl = with_keypair crypto secret nn in
      let (sent_same, recvd_same, fd_same) = keypair-same crypto secret nn in
      let (s1, pair) =
        keyed socket outbox inbox send_laws recv_laws duplex crypto crypto_laws start stream secret
          nn env1 s in
      Advances-weaken (left nn1) (left nn) _ (omega (arith, sent_same, recvd_same)) (
        input_part nn1 env1 s1 pair (sent_same ∙ whole, omega (arith, recvd_same))
          (rw fd_same λ len flags some more. laws.gives nn.sock_fd env.world len flags some more))

  -- what a call says that has ended the handshake, or has not
  ended :
      (nn : Netnacl) (env : Env W)
      → Ends socket outbox inbox send_laws recv_laws duplex crypto crypto_laws start stream
          (ok (nn_success, nn, env))
      → Succeeds crypto outbox inbox start stream (ok (nn_success, nn, env))
  ended nn env (code, nn', env', e, inl (over, shaken)) =
      let same_nn : nn' ≡ nn = cc in
      let same_env : env' ≡ env = cc in (nn, env, refl, rw (same_nn, same_env) at shaken)
  ended nn env (code, nn', env', e, inr (inl stopped, shaking)) = absurd cc
  ended nn env (code, nn', env', e, inr (inr (inl stopped), shaking)) = absurd cc
  ended nn env (code, nn', env', e, inr (inr (inr stopped), shaking)) = absurd cc

  going :
      (code : ℤ) (nn : Netnacl) (env : Env W)
      → int_eq nn_success code ≡ false
      → Ends socket outbox inbox send_laws recv_laws duplex crypto crypto_laws start stream
          (ok (code, nn, env))
      → Shaking crypto outbox inbox start stream nn env
  going code nn env other (code', nn', env', e, inl (over, shaken)) =
      let success : code ≡ nn_success = cc in
      let clash : int_eq nn_success nn_success ≡ false = rw success at other in absurd cc
  going code nn env other (code', nn', env', e, inr (stopped, shaking)) =
      let same_nn : nn' ≡ nn = cc in
      let same_env : env' ≡ env = cc in rw (same_nn, same_env) at shaking

  waited-Shaking :
      (wait : Wanted → ℤ → W → W)
      → WaitLaws socket outbox inbox wait
      → (want : Wanted) (nn : Netnacl) (env : Env W)
      → Shaking crypto outbox inbox start stream nn env
      → Shaking crypto outbox inbox start stream nn
          (record env { world = wait want nn.sock_fd env.world })
  waited-Shaking wait laws want nn env s = record {
    sent = s.sent;
    recvd = s.recvd;
    peer_size = s.peer_size;
    pair = s.pair;
    out = laws.keeps_out want nn.sock_fd env.world ∙ s.out;
    inn =
        ap (λ b. take nn.key_bytes_recvd nn.peer_pk ++ b) (laws.keeps_in want nn.sock_fd env.world)
        ∙ s.inn;
  }

  -- A handshake under way ends with NN_SUCCESS and a shared key, within as many calls of `netnacl_wrap`
  -- as there are bytes of the two keys still to go out or to come in, if each call comes after a wait for
  -- what the last one asked for: a wait after which the next call of `send` or `recv` does not block. The
  -- connection does not break, the peer's stream has the 32 bytes of a key, and the two directions of the
  -- socket are independent.
  pub handshake-Succeeds :
      (wait : Wanted → ℤ → W → W)
      → WaitLaws socket outbox inbox wait
      → (secret : Env W → List ℕ) (fuel : ℕ) (want : Wanted) (nn : Netnacl) (env : Env W)
      → Shaking crypto outbox inbox start stream nn env
      → Fits want nn
      → left nn ≤ fuel
      → Succeeds crypto outbox inbox start stream
          (handshake socket crypto wait secret fuel want nn env)
  unfolding handshake
  handshake-Succeeds wait laws secret zero input nn env s (whole, room) h = absurd (omega arith)
  handshake-Succeeds wait laws secret zero output nn env s room h = absurd (omega arith)
  handshake-Succeeds wait laws secret (suc fuel) want nn env s fits h =
      let env1 : Env W = record env { world = wait want nn.sock_fd env.world } in
      let s1 : Shaking crypto outbox inbox start stream nn env1 =
        waited-Shaking wait laws want nn env s in
      let (code, nn', env', r, moved) = call_moves wait laws (secret env1) want nn env fits s1 in
      let ends : Ends socket outbox inbox send_laws recv_laws duplex crypto crypto_laws start stream
          (netnacl_wrap socket crypto (secret env1) nn env1) =
        netnacl_wrap-Ends socket outbox inbox send_laws recv_laws duplex crypto crypto_laws start
          stream (secret env1) nn env1 s1 in
      elim moved [
        | inl over ↦ rw (r, over) (ended nn' env' (rw (r, over) at ends))
        | inr (inl (want', fits', less)) ↦
            rw (r, want', handshake)
              (handshake-Succeeds wait laws secret fuel input nn' env'
                (going nn_want_read nn' env' refl (rw (r, want') at ends)) fits' (omega arith))
        | inr (inr (want', fits', less)) ↦
            rw (r, want', handshake)
              (handshake-Succeeds wait laws secret fuel output nn' env'
                (going nn_want_write nn' env' refl (rw (r, want') at ends)) fits' (omega arith))
      ]
