-- ===== src/Netnacl/Wrap/Duplex.antt =====
-- The loops of `netnacl_wrap` and the direction of the socket that each does not use.
use nacl_proxy.Base.{
  ℕ, zero, suc, ◌-◌, ◌≡◌, ◌∙◌, refl, ap, inl, inr, ℤ, pos, minus_one, int_eq, List, take, drop, ltb,
  Bool-cases,
}
use nacl_proxy.Sys.{
  Socket, Env, Res, ok, overflow, exited, out_of_fuel, c_send, c_recv, msg_nosignal,
}
use nacl_proxy.Sys.Laws.{DuplexLaws, c_send-world, c_recv-world}
use nacl_proxy.Netnacl.{Netnacl, publickey_bytes}
use nacl_proxy.Netnacl.Wrap.{
  send_key_turn, send_key_loop, send_key, recv_key_turn, recv_key_loop, recv_key,
}

-- A run that returns leaves `seen` of the world as it was.
unfoldable pub Leaves : {W : Type 0} → (W → List ℕ) → List ℕ → Res (ℤ × Netnacl × Env W) → Type 0
Leaves seen before (ok (code, nn, env)) = seen env.world ≡ before
Leaves seen before overflow = Unit
Leaves seen before exited = Unit
Leaves seen before out_of_fuel = Unit

module _ {W : Type 0} (socket : Socket W) (outbox inbox : ℤ → W → List ℕ)
    (laws : DuplexLaws socket outbox inbox) (fd : ℤ) where
  send_keeps :
      (bytes : List ℕ) (nn : Netnacl) (env : Env W)
      → nn.sock_fd ≡ fd
      → inbox fd (c_send socket nn.sock_fd bytes msg_nosignal env).1.world ≡ inbox fd env.world
  send_keeps bytes nn env e =
      ap (inbox fd) (c_send-world socket nn.sock_fd bytes msg_nosignal env)
      ∙ rw e (laws.send_keeps fd bytes msg_nosignal env.world)

  recv_keeps :
      (len : ℕ) (nn : Netnacl) (env : Env W)
      → nn.sock_fd ≡ fd
      → outbox fd (c_recv socket nn.sock_fd len 0 env).2.world ≡ outbox fd env.world
  recv_keeps len nn env e =
      ap (outbox fd) (c_recv-world socket nn.sock_fd len 0 env)
      ∙ rw e (laws.recv_keeps fd len 0 env.world)

  send_key_loop-Leaves :
      (fuel : ℕ) (nn : Netnacl) (env : Env W) (before : List ℕ)
      → nn.sock_fd ≡ fd
      → inbox fd env.world ≡ before
      → Leaves (inbox fd) before (send_key_loop socket fuel nn env)
  unfolding send_key_loop send_key_turn Leaves
  send_key_loop-Leaves zero nn env before e h = _
  send_key_loop-Leaves (suc fuel) nn env before e h =
      let r : ℤ × Env W =
        c_send socket nn.sock_fd
          (take (publickey_bytes - nn.key_bytes_sent) (drop nn.key_bytes_sent nn.pk)) msg_nosignal
          env in
      elim (Bool-cases (ltb nn.key_bytes_sent publickey_bytes)) [
        | inr done ↦ rw done h
        | inl more ↦ rw more (elim (Bool-cases (int_eq minus_one r.0)) [
          | inl failed ↦ rw failed (send_keeps _ nn env e ∙ h)
          | inr went ↦
              rw went (send_key_loop-Leaves fuel _ r.1 before e (send_keeps _ nn env e ∙ h))
        ])
      ]

  recv_key_loop-Leaves :
      (fuel : ℕ) (nn : Netnacl) (env : Env W) (before : List ℕ)
      → nn.sock_fd ≡ fd
      → outbox fd env.world ≡ before
      → Leaves (outbox fd) before (recv_key_loop socket fuel nn env)
  unfolding recv_key_loop recv_key_turn Leaves
  recv_key_loop-Leaves zero nn env before e h = _
  recv_key_loop-Leaves (suc fuel) nn env before e h =
      let r : ℤ × List ℕ × Env W =
        c_recv socket nn.sock_fd (publickey_bytes - nn.key_bytes_recvd) 0 env in
      elim (Bool-cases (ltb nn.key_bytes_recvd publickey_bytes)) [
        | inr done ↦ rw done h
        | inl more ↦ rw more (elim (Bool-cases (int_eq minus_one r.0)) [
          | inl failed ↦ rw failed (recv_keeps _ nn env e ∙ h)
          | inr went ↦ rw went (elim (Bool-cases (int_eq (pos 0) r.0)) [
            | inl ended ↦ rw ended (recv_keeps _ nn env e ∙ h)
            | inr some ↦
                rw some (recv_key_loop-Leaves fuel _ r.2 before e (recv_keeps _ nn env e ∙ h))
          ])
        ])
      ]

  pub send_key-Leaves :
      (nn : Netnacl) (env : Env W)
      → nn.sock_fd ≡ fd
      → Leaves (inbox fd) (inbox fd env.world) (send_key socket nn env)
  unfolding send_key
  send_key-Leaves nn env e = send_key_loop-Leaves _ nn env _ e refl

  pub recv_key-Leaves :
      (nn : Netnacl) (env : Env W)
      → nn.sock_fd ≡ fd
      → Leaves (outbox fd) (outbox fd env.world) (recv_key socket nn env)
  unfolding recv_key
  recv_key-Leaves nn env e = recv_key_loop-Leaves _ nn env _ e refl
