-- ===== src/Netnacl/Wrap/Agree.antt =====
-- The handshake of src/netnacl as a whole: what a call of `netnacl_wrap` leaves, and its two ends.
use nacl_proxy.Base.{
  ℕ, ◌≤◌, ◌<◌, ◌≡◌, ◌∙◌, refl, sym, ap, ap₂, ◌⊎◌, inl, inr, ℤ, List, ◌++◌, length, take, take_all,
  ◌==◌, Bool-cases, arith,
}
use nacl_proxy.Errors.{nn_success, nn_want_read, nn_want_write, nn_err}
use nacl_proxy.Sys.{Socket, Env, Res, ok, overflow, exited, out_of_fuel, ◌>>=◌}
use nacl_proxy.Sys.Laws.{SendLaws, RecvLaws, DuplexLaws}
use nacl_proxy.Netnacl.{Netnacl, Crypto, publickey_bytes}
use nacl_proxy.Netnacl.Laws.{CryptoLaws}
use nacl_proxy.Netnacl.Recv.Carries.{same_pieces}
use nacl_proxy.Netnacl.Wrap.{with_keypair, send_key, recv_key, unless_stopped, derive, netnacl_wrap}
use nacl_proxy.Netnacl.Wrap.Keys.{with_sent, with_peer, send_key-KeySent, recv_key-KeyRead}
use nacl_proxy.Netnacl.Wrap.Duplex.{Leaves, send_key-Leaves, recv_key-Leaves}

-- A handshake under way: what the context has sent follows `start`, and what it has received is the
-- front of `stream`.
pub record Shaking {W : Type 0} (crypto : Crypto) (outbox inbox : ℤ → W → List ℕ)
    (start stream : List ℕ) (nn : Netnacl) (env : Env W) : Type 0 where
  pub sent : nn.key_bytes_sent ≤ publickey_bytes
  pub recvd : nn.key_bytes_recvd ≤ publickey_bytes
  pub peer_size : length nn.peer_pk ≡ publickey_bytes
  pub pair : 0 < nn.key_bytes_sent → nn.pk ≡ crypto.public_key nn.sk
  pub out : outbox nn.sock_fd env.world ≡ start ++ take nn.key_bytes_sent nn.pk
  pub inn : take nn.key_bytes_recvd nn.peer_pk ++ inbox nn.sock_fd env.world ≡ stream

-- A handshake that is over: the public key follows `start`, the peer's key was the front of
-- `stream`, and the shared key is that of the peer's key and the secret key.
pub record Shaken {W : Type 0} (crypto : Crypto) (outbox inbox : ℤ → W → List ℕ)
    (start stream : List ℕ) (nn : Netnacl) (env : Env W) : Type 0 where
  pub shared : nn.sym_key ≡ crypto.beforenm nn.peer_pk nn.sk
  pub peer_size : length nn.peer_pk ≡ publickey_bytes
  pub out : outbox nn.sock_fd env.world ≡ start ++ crypto.public_key nn.sk
  pub inn : nn.peer_pk ++ inbox nn.sock_fd env.world ≡ stream

module _ {W : Type 0} (socket : Socket W) (outbox inbox : ℤ → W → List ℕ)
    (send_laws : SendLaws socket outbox) (recv_laws : RecvLaws socket inbox)
    (duplex : DuplexLaws socket outbox inbox) (crypto : Crypto) (crypto_laws : CryptoLaws crypto)
    (start stream : List ℕ) where
  -- with the key pair drawn
  pub keyed :
      (secret : List ℕ) (nn : Netnacl) (env : Env W)
      → Shaking crypto outbox inbox start stream nn env
      → Shaking crypto outbox inbox start stream (with_keypair crypto secret nn) env
        × ((with_keypair crypto secret nn).pk
            ≡ crypto.public_key (with_keypair crypto secret nn).sk)
  unfolding with_keypair
  keyed secret nn env s = elim (Bool-cases (nn.key_bytes_sent == 0)) [
    | inl first ↦
        let none_sent : nn.key_bytes_sent ≡ 0 = ground arith in
        rw first (
          record {
            sent = s.sent;
            recvd = s.recvd;
            peer_size = s.peer_size;
            pair = λ h. refl;
            out = s.out ∙ rw none_sent refl;
            inn = s.inn;
          },
          refl,
        )
    | inr later ↦ rw later (s, s.pair (ground arith))
  ]

  -- A call returns; it has ended the handshake, or stopped it where the next call takes it up.
  abbrev pub Ends : Res (ℤ × Netnacl × Env W) → Type 0
  Ends r =
      (code : ℤ) × (nn : Netnacl) × (env : Env W) × (r ≡ ok (code, nn, env))
      × ((code ≡ nn_success) × Shaken crypto outbox inbox start stream nn env
          ⊎ ((code ≡ nn_want_read) ⊎ (code ≡ nn_want_write) ⊎ (code ≡ nn_err))
            × Shaking crypto outbox inbox start stream nn env)

  -- the second loop, once the public key is out
  recv_phase :
      (nn : Netnacl) (env : Env W)
      → Shaking crypto outbox inbox start stream nn env
      → nn.key_bytes_sent ≡ publickey_bytes
      → nn.pk ≡ crypto.public_key nn.sk
      → Ends (
          recv_key socket nn env
          >>= unless_stopped λ nn' env'. ok (nn_success, derive crypto nn', env'))
  unfolding unless_stopped derive Leaves
  recv_phase nn env s whole pair =
      let leaves : Leaves (outbox nn.sock_fd) (outbox nn.sock_fd env.world)
          (recv_key socket nn env) =
        recv_key-Leaves socket outbox inbox duplex nn.sock_fd nn env refl in
      elim (recv_key-KeyRead socket inbox recv_laws nn nn.peer_pk nn.key_bytes_recvd env s.peer_size
        s.recvd) [
          | inl (key, env', r, size, read) ↦
              let same : outbox nn.sock_fd env'.world ≡ outbox nn.sock_fd env.world =
                rw r at leaves in
              rw r (
                _,
                _,
                _,
                refl,
                inl (
                  refl,
                  record {
                    shared = refl;
                    peer_size = size;
                    out = same ∙ (s.out ∙ ap (λ b. start ++ b) (whole_key nn whole pair));
                    inn = read ∙ s.inn;
                  },
                ),
              )
          | inr (code, key, k, env', r, failed, less, size, read) ↦
              let same : outbox nn.sock_fd env'.world ≡ outbox nn.sock_fd env.world =
                rw r at leaves in
              let still : Shaking crypto outbox inbox start stream (with_peer nn key k) env' =
                record {
                  sent = s.sent;
                  recvd = omega arith;
                  peer_size = size;
                  pair = s.pair;
                  out = same ∙ s.out;
                  inn = read ∙ s.inn;
                } in
              elim failed [
                | inl want ↦ rw (r, want) (_, _, _, refl, inr (inl refl, still))
                | inr err ↦ rw (r, err) (_, _, _, refl, inr (inr (inr refl), still))
              ]
        ]
    where
      whole_key :
          (nn : Netnacl)
          → nn.key_bytes_sent ≡ publickey_bytes
          → nn.pk ≡ crypto.public_key nn.sk
          → take nn.key_bytes_sent nn.pk ≡ crypto.public_key nn.sk
      whole_key nn whole pair =
          ap₂ take whole pair
          ∙ take_all publickey_bytes (crypto.public_key nn.sk)
              (omega (arith, crypto_laws.key_size nn.sk))

  -- the first loop and what follows it, with the key pair there
  send_phase :
      (nn : Netnacl) (env : Env W)
      → Shaking crypto outbox inbox start stream nn env
      → nn.pk ≡ crypto.public_key nn.sk
      → Ends (
          send_key socket nn env
          >>= unless_stopped λ nn' env'.
            recv_key socket nn' env'
            >>= unless_stopped λ nn'' env''. ok (nn_success, derive crypto nn'', env''))
  unfolding unless_stopped Leaves
  send_phase nn env s pair =
      let size : length nn.pk ≡ publickey_bytes = ap length pair ∙ crypto_laws.key_size nn.sk in
      let leaves : Leaves (inbox nn.sock_fd) (inbox nn.sock_fd env.world) (send_key socket nn env) =
        send_key-Leaves socket outbox inbox duplex nn.sock_fd nn env refl in
      elim (send_key-KeySent socket outbox send_laws nn size nn.key_bytes_sent env start s.sent
        s.out) [
          | inl (env', r, out) ↦
              let same : inbox nn.sock_fd env'.world ≡ inbox nn.sock_fd env.world =
                rw r at leaves in
              rw r (
                recv_phase (with_sent nn publickey_bytes) env'
                  (record {
                    sent = omega arith;
                    recvd = s.recvd;
                    peer_size = s.peer_size;
                    pair = λ h. pair;
                    out =
                        out
                        ∙ ap (λ b. start ++ b)
                            (sym (take_all publickey_bytes nn.pk (omega (arith, size))));
                    inn = ap (λ b. take nn.key_bytes_recvd nn.peer_pk ++ b) same ∙ s.inn;
                  })
                  refl pair)
          | inr (code, k, env', r, failed, less, out) ↦
              let same : inbox nn.sock_fd env'.world ≡ inbox nn.sock_fd env.world =
                rw r at leaves in
              let still : Shaking crypto outbox inbox start stream (with_sent nn k) env' = record {
                sent = omega arith;
                recvd = s.recvd;
                peer_size = s.peer_size;
                pair = λ h. pair;
                out = out;
                inn = ap (λ b. take nn.key_bytes_recvd nn.peer_pk ++ b) same ∙ s.inn;
              } in
              elim failed [
                | inl want ↦ rw (r, want) (_, _, _, refl, inr (inr (inl refl), still))
                | inr err ↦ rw (r, err) (_, _, _, refl, inr (inr (inr refl), still))
              ]
        ]

  -- A call of `netnacl_wrap` on a handshake under way returns. Either it has ended the handshake with
  -- NN_SUCCESS: the public key of the context's secret key has gone out, the first 32 bytes of the peer's
  -- stream are its key, and the shared key is that of the two; or it stopped with NN_WANT_READ,
  -- NN_WANT_WRITE or NN_ERR, and the handshake is still under way with the same streams, so that the next
  -- call takes it up. The two directions of the socket are independent.
  pub netnacl_wrap-Ends :
      (secret : List ℕ) (nn : Netnacl) (env : Env W)
      → Shaking crypto outbox inbox start stream nn env
      → Ends (netnacl_wrap socket crypto secret nn env)
  unfolding netnacl_wrap
  netnacl_wrap-Ends secret nn env s =
      let (s', pair) = keyed secret nn env s in
      send_phase (with_keypair crypto secret nn) env s' pair

given : {X : Type 0} → X → Res X → X
given x (ok y) = y
given x overflow = x
given x exited = x
given x out_of_fuel = x

module _ {W : Type 0} (socket : Socket W) (outbox inbox : ℤ → W → List ℕ)
    (send_laws : SendLaws socket outbox) (recv_laws : RecvLaws socket inbox)
    (duplex : DuplexLaws socket outbox inbox) (crypto : Crypto)
    (crypto_laws : CryptoLaws crypto) where
  -- a call that has ended with NN_SUCCESS has ended the handshake
  ended_lem :
      (start stream secret : List ℕ) (nn nn' : Netnacl) (env env' : Env W)
      → Shaking crypto outbox inbox start stream nn env
      → netnacl_wrap socket crypto secret nn env ≡ ok (nn_success, nn', env')
      → Shaken crypto outbox inbox start stream nn' env'
  unfolding given
  ended_lem start stream secret nn nn' env env' s success =
      let (code, nn1, env1, ran, outcome) =
        netnacl_wrap-Ends socket outbox inbox send_laws recv_laws duplex crypto crypto_laws start
          stream secret nn env s in
      let last : ℤ × Netnacl × Env W = (nn_success, nn', env') in
      let same : ◌≡◌ {A = ℤ × Netnacl × Env W} (code, nn1, env1) last =
        ap (given last) (sym ran ∙ success) in
      elim outcome [
        | inl (is, shaken) ↦ rw (← ap (λ r. r.1) same, ← ap (λ r. r.2) same) shaken
        | inr (stopped, shaking) ↦
            let is : code ≡ nn_success = ap (λ r. r.0) same in absurd (ground (arith, is, stopped))
      ]

  -- Two contexts, each with a handshake under way, end it by calls of `netnacl_wrap` that return NN_SUCCESS.
  -- If what each reads starts with what the other has sent, then both hold the same key, which is the shared
  -- key of the one's secret key and the other's public key.
  pub shared_keys :
      (secret_a secret_b : List ℕ) (nn_a nn_b alice bob : Netnacl)
      (env_a env_b env_a' env_b' : Env W) (start_a start_b wire_a wire_b rest_a rest_b : List ℕ)
      → Shaking crypto outbox inbox start_a (wire_b ++ rest_a) nn_a env_a
      → Shaking crypto outbox inbox start_b (wire_a ++ rest_b) nn_b env_b
      → netnacl_wrap socket crypto secret_a nn_a env_a ≡ ok (nn_success, alice, env_a')
      → netnacl_wrap socket crypto secret_b nn_b env_b ≡ ok (nn_success, bob, env_b')
      → outbox alice.sock_fd env_a'.world ≡ start_a ++ wire_a
      → outbox bob.sock_fd env_b'.world ≡ start_b ++ wire_b
      → (alice.sym_key ≡ bob.sym_key)
        × (alice.sym_key ≡ crypto.beforenm (crypto.public_key bob.sk) alice.sk)
  shared_keys secret_a secret_b nn_a nn_b alice bob env_a env_b env_a' env_b' start_a start_b wire_a
        wire_b rest_a rest_b shaking_a shaking_b success_a success_b sent_a sent_b =
      let a =
        ended_lem start_a (wire_b ++ rest_a) secret_a nn_a alice env_a env_a' shaking_a success_a in
      let b =
        ended_lem start_b (wire_a ++ rest_b) secret_b nn_b bob env_b env_b' shaking_b success_b in
      let (_, own_a) =
        same_pieces start_a start_a wire_a (crypto.public_key alice.sk) refl (sym sent_a ∙ a.out) in
      let (_, own_b) =
        same_pieces start_b start_b wire_b (crypto.public_key bob.sk) refl (sym sent_b ∙ b.out) in
      let (peer_of_a, _) =
        same_pieces alice.peer_pk (crypto.public_key bob.sk) _ rest_a
          (a.peer_size ∙ sym (crypto_laws.key_size bob.sk)) (a.inn ∙ ap (λ l. l ++ rest_a) own_b) in
      let (peer_of_b, _) =
        same_pieces bob.peer_pk (crypto.public_key alice.sk) _ rest_b
          (b.peer_size ∙ sym (crypto_laws.key_size alice.sk))
          (b.inn ∙ ap (λ l. l ++ rest_b) own_a) in
      let key_a : alice.sym_key ≡ crypto.beforenm (crypto.public_key bob.sk) alice.sk =
        a.shared ∙ ap (λ k. crypto.beforenm k alice.sk) peer_of_a in
      (
        key_a
            ∙ (crypto_laws.agree bob.sk alice.sk
                ∙ sym (b.shared ∙ ap (λ k. crypto.beforenm k bob.sk) peer_of_b)),
        key_a,
      )
