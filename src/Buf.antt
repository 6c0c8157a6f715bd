-- ===== src/Buf.antt =====
-- src/buf.c: `buf_send` and `buf_recv`, over a plain or an encrypted connection. The nonces that
-- `randombytes` yields are a function of the position in the buffer at which a message begins.
pub mod Send
pub mod Recv
pub mod Kept
pub mod Codes
pub mod Hands
pub mod Closed
pub mod Duplex
pub mod Messages
pub mod Takes
pub mod Sealed
pub mod Roundtrip
pub mod Tests
use nacl_proxy.Base.{
  ℕ, zero, suc, ◌+◌, ◌-◌, ◌%◌, ◌^◌, ◌||◌, Bool, true, false, Option, none, some, ℤ, pos, int_eq,
  is_nonneg, to_size, List, [], length, take, drop, ltb, ◌==◌, ◌&&◌, if◌then◌else◌,
}
use nacl_proxy.Errors.{
  nn_want_write, nn_want_read, proxy_success, proxy_would_block, proxy_disconnect, proxy_err,
  assert_failed,
}
use nacl_proxy.Sys.{
  Socket, Env, Res, ok, overflow, exited, out_of_fuel, ◌>>=◌, c_send, c_recv, splice, blocked,
  epipe, econnreset,
}
use nacl_proxy.Netnacl.{Netnacl, Crypto}
use nacl_proxy.Netnacl.Send.{netnacl_send}
use nacl_proxy.Netnacl.Recv.{netnacl_recv}

abbrev pub buf_size : ℕ
buf_size = 16348

-- `buf_t`; `contents` is its `data`
pub record Buf : Type 0 where
  pub size : ℕ
  pub read_pos : ℕ
  pub contents : List ℕ

-- `net_t` of include/network.h; `netnacl` is a pointer that may be NULL
pub record Net : Type 0 where
  pub sock_fd : ℤ
  pub b_encrypted : Bool
  pub netnacl : Option Netnacl

-- The code that `buf_send` returns for a failed send.
pub send_code : ℤ → ℕ → ℤ
send_code n errno =
    if int_eq nn_want_write n || blocked errno
    then proxy_would_block
    else (if errno == epipe || errno == econnreset then proxy_disconnect else proxy_err)

-- The code that `buf_recv` returns for a receive that failed, with `size` bytes in the buffer.
pub recv_code : ℤ → ℕ → ℕ → ℤ
recv_code n errno size =
    if int_eq nn_want_read n || blocked errno
    then (if size == 0 then proxy_would_block else proxy_success)
    else proxy_err

module _ {W : Type 0} (socket : Socket W) (crypto : Crypto) (nonces : ℕ → List ℕ) (flags : ℕ) where
  -- `netnacl_send`, which refuses NULL
  encrypted_send : ℕ → List ℕ → Net → Env W → Option Netnacl → Res (ℤ × Net × Env W)
  encrypted_send start bytes net env none = ok (assert_failed, net, env)
  encrypted_send start bytes net env (some nn) =
      netnacl_send socket crypto (nonces start) bytes flags nn env >>= λ (code, nn', env').
      ok (code, record net { netnacl = some nn' }, env')

  plain_send : List ℕ → Net → Env W → Res (ℤ × Net × Env W)
  plain_send bytes net env =
      let (n, env') = c_send socket net.sock_fd bytes flags env in ok (n, net, env')

  pub send_some : ℕ → List ℕ → Net → Env W → Res (ℤ × Net × Env W)
  unfolding encrypted_send plain_send
  send_some start bytes net env =
      if net.b_encrypted
      then encrypted_send start bytes net env net.netnacl
      else plain_send bytes net env

  -- What the loop of `buf_send` does with the result of a send; `next` is its next turn.
  pub send_turn :
      (Net → Buf → Env W → Res (ℤ × Net × Buf × Env W))
      → Buf
      → ℤ × Net × Env W
      → Res (ℤ × Net × Buf × Env W)
  unfolding send_code
  send_turn next buf (n, net, env) =
      if is_nonneg n
      then next net (record buf { read_pos = (buf.read_pos + to_size n) % 2 ^ 64 }) env
      else ok (send_code n env.errno, net, buf, env)

  pub send_loop : ℕ → Net → Buf → Env W → Res (ℤ × Net × Buf × Env W)
  unfolding send_turn
  send_loop zero net buf env = out_of_fuel
  send_loop (suc fuel) net buf env =
      if ltb buf.read_pos buf.size
      then send_some buf.read_pos (take (buf.size - buf.read_pos) (drop buf.read_pos buf.contents))
          net env
        >>= send_turn (send_loop fuel) buf
      else ok (proxy_success, net, record buf { read_pos = 0; size = 0 }, env)

  pub buf_send : Net → Buf → Env W → Res (ℤ × Net × Buf × Env W)
  unfolding send_loop
  buf_send net buf env =
      if (buf.size == 0) || (buf.read_pos == buf.size)
      then ok (assert_failed, net, buf, env)
      else send_loop (buf.size - buf.read_pos + 1) net buf env

module _ {W : Type 0} (socket : Socket W) (crypto : Crypto) (flags : ℕ) where
  -- `netnacl_recv`, which refuses NULL
  encrypted_recv : ℕ → Net → Env W → Option Netnacl → Res (ℤ × List ℕ × Net × Env W)
  encrypted_recv len net env none = ok (assert_failed, [], net, env)
  encrypted_recv len net env (some nn) =
      netnacl_recv socket crypto len flags nn env >>= λ (code, bytes, nn', env').
      ok (code, bytes, record net { netnacl = some nn' }, env')

  plain_recv : ℕ → Net → Env W → Res (ℤ × List ℕ × Net × Env W)
  plain_recv len net env =
      let (n, bytes, env') = c_recv socket net.sock_fd len flags env in ok (n, bytes, net, env')

  pub recv_some : ℕ → Net → Env W → Res (ℤ × List ℕ × Net × Env W)
  unfolding encrypted_recv plain_recv
  recv_some len net env =
      if net.b_encrypted then encrypted_recv len net env net.netnacl else plain_recv len net env

  -- What the loop of `buf_recv` does with the result of a receive.
  pub recv_turn :
      (Net → Buf → Env W → Res (ℤ × Net × Buf × Env W))
      → Buf
      → ℤ × List ℕ × Net × Env W
      → Res (ℤ × Net × Buf × Env W)
  unfolding recv_code
  recv_turn next buf (n, bytes, net, env) =
      if int_eq (pos 0) n
      then ok (proxy_disconnect, net, buf, env)
      else (if is_nonneg n
          then next net
              (record buf {
                contents = splice buf.contents buf.size bytes;
                size = (buf.size + to_size n) % 2 ^ 64;
              })
              env
          else ok (
            recv_code n env.errno buf.size,
            net,
            record buf { contents = splice buf.contents buf.size bytes },
            env,
          ))

  pub recv_loop : ℕ → Net → Buf → Env W → Res (ℤ × Net × Buf × Env W)
  unfolding recv_turn
  recv_loop zero net buf env = out_of_fuel
  recv_loop (suc fuel) net buf env =
      if ltb buf.size buf_size
      then recv_some (buf_size - buf.size) net env >>= recv_turn (recv_loop fuel) buf
      else ok (proxy_success, net, buf, env)

  pub buf_recv : Net → Buf → Env W → Res (ℤ × Net × Buf × Env W)
  unfolding recv_loop
  buf_recv net buf env =
      if (buf.read_pos == 0) && (buf.size == 0)
      then recv_loop (buf_size + 1) net buf env
      else ok (assert_failed, net, buf, env)
