-- ===== src/Netnacl/Wrap.antt =====
-- `netnacl_wrap` of src/netnacl/src/netnacl.c: the exchange of public keys, which is taken up again
-- where it stopped. The secret key that `crypto_box_keypair` draws is an argument.
pub mod Keys
pub mod Agree
pub mod Duplex
pub mod Moves
pub mod Live
pub mod Tests
use nacl_proxy.Base.{
  ℕ, zero, suc, ◌+◌, ◌-◌, ◌%◌, ◌^◌, ℤ, pos, minus_one, int_eq, to_size, List, take, drop, ltb, ◌==◌,
  if◌then◌else◌,
}
use nacl_proxy.Errors.{nn_success, nn_want_read, nn_want_write, nn_err}
use nacl_proxy.Sys.{
  Socket, Env, Res, ok, out_of_fuel, ◌>>=◌, c_send, c_recv, splice, blocked, msg_nosignal,
}
use nacl_proxy.Netnacl.{Netnacl, Crypto, publickey_bytes}

-- `crypto_box_keypair`, once and before any byte of the key has gone out
pub with_keypair : Crypto → (secret : List ℕ) → Netnacl → Netnacl
with_keypair crypto secret nn =
    if nn.key_bytes_sent == 0 then record nn { pk = crypto.public_key secret; sk = secret } else nn

module _ {W : Type 0} (socket : Socket W) where
  -- What the loop that sends the public key does with the result of `send`.
  pub send_key_turn :
      (Netnacl → Env W → Res (ℤ × Netnacl × Env W))
      → Netnacl
      → ℤ × Env W
      → Res (ℤ × Netnacl × Env W)
  send_key_turn next nn (n, env) =
      if int_eq minus_one n
      then ok ((if blocked env.errno then nn_want_write else nn_err), nn, env)
      else next (record nn { key_bytes_sent = (nn.key_bytes_sent + to_size n) % 2 ^ 64 }) env

  pub send_key_loop : ℕ → Netnacl → Env W → Res (ℤ × Netnacl × Env W)
  unfolding send_key_turn
  send_key_loop zero nn env = out_of_fuel
  send_key_loop (suc fuel) nn env =
      if ltb nn.key_bytes_sent publickey_bytes
      then send_key_turn (send_key_loop fuel) nn (
          c_send socket nn.sock_fd
            (take (publickey_bytes - nn.key_bytes_sent) (drop nn.key_bytes_sent nn.pk)) msg_nosignal
            env)
      else ok (nn_success, nn, env)

  -- What the loop that receives the peer's key does with the result of `recv`.
  pub recv_key_turn :
      (Netnacl → Env W → Res (ℤ × Netnacl × Env W))
      → Netnacl
      → ℤ × List ℕ × Env W
      → Res (ℤ × Netnacl × Env W)
  recv_key_turn next nn (n, bytes, env) =
      if int_eq minus_one n
      then ok ((if blocked env.errno then nn_want_read else nn_err), nn, env)
      else (if int_eq (pos 0) n
          then ok (nn_err, nn, env)
          else next
              (record nn {
                peer_pk = splice nn.peer_pk nn.key_bytes_recvd bytes;
                key_bytes_recvd = (nn.key_bytes_recvd + to_size n) % 2 ^ 64;
              })
              env)

  pub recv_key_loop : ℕ → Netnacl → Env W → Res (ℤ × Netnacl × Env W)
  unfolding recv_key_turn
  recv_key_loop zero nn env = out_of_fuel
  recv_key_loop (suc fuel) nn env =
      if ltb nn.key_bytes_recvd publickey_bytes
      then recv_key_turn (recv_key_loop fuel) nn
          (c_recv socket nn.sock_fd (publickey_bytes - nn.key_bytes_recvd) 0 env)
      else ok (nn_success, nn, env)

  pub send_key : Netnacl → Env W → Res (ℤ × Netnacl × Env W)
  send_key nn env = send_key_loop (publickey_bytes - nn.key_bytes_sent + 1) nn env

  pub recv_key : Netnacl → Env W → Res (ℤ × Netnacl × Env W)
  recv_key nn env = recv_key_loop (publickey_bytes - nn.key_bytes_recvd + 1) nn env

-- `crypto_box_beforenm`
pub derive : Crypto → Netnacl → Netnacl
derive crypto nn = record nn { sym_key = crypto.beforenm nn.peer_pk nn.sk }

module _ {W : Type 0} where
  -- A loop that returned a code other than 0 ends the call.
  pub unless_stopped :
      (Netnacl → Env W → Res (ℤ × Netnacl × Env W))
      → ℤ × Netnacl × Env W
      → Res (ℤ × Netnacl × Env W)
  unless_stopped next (code, nn, env) =
      if int_eq nn_success code then next nn env else ok (code, nn, env)

pub netnacl_wrap :
    {W : Type 0}
    → Socket W
    → Crypto
    → (secret : List ℕ) → Netnacl
    → Env W
    → Res (ℤ × Netnacl × Env W)
unfolding unless_stopped
netnacl_wrap socket crypto secret nn env =
    send_key socket (with_keypair crypto secret nn) env
    >>= unless_stopped λ nn' env'.
      recv_key socket nn' env'
      >>= unless_stopped λ nn'' env''. ok (nn_success, derive crypto nn'', env'')
