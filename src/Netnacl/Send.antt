-- ===== src/Netnacl/Send.antt =====
-- `netnacl_send` of src/netnacl/src/netnacl.c, with `encrypt_plaintext` and `send_ciphertext`. The
-- nonce that `randombytes` yields is an argument.
pub mod Touch
pub mod Conserves
pub mod Frame
use Prim.Native.Nat.{min}
use nacl_proxy.Base.{
  ℕ, zero, suc, true, false, ◌+◌, ◌-◌, ◌%◌, ◌^◌, ℤ, pos, minus_one, int_eq, to_size, List, [], ◌++◌,
  length, take, drop, replicate, ltb, ◌==◌, if◌then◌else◌, arith,
}
use nacl_proxy.Errors.{nn_want_write, nn_err}
use nacl_proxy.Sys.{Socket, Env, Res, ok, out_of_fuel, c_send, splice, store16, swap16, blocked}
use nacl_proxy.Netnacl.{Netnacl, Crypto, zero_bytes, max_message_len, hdr_size}

-- the plaintext as NaCl wants it, behind 32 zero bytes: the first `padded_pt_len` bytes of `pt_buf`
unfoldable pub padded : List ℕ → List ℕ
padded buf = replicate zero_bytes 0 ++ take (min (length buf) max_message_len) buf

-- `send_hdr.len`, a `uint16_t`
unfoldable pub frame_len : ℕ → ℕ
frame_len len = (min len max_message_len % 2 ^ 16 + zero_bytes) % 2 ^ 16

unfoldable pub encrypt_plaintext : Crypto → List ℕ → List ℕ → Netnacl → Netnacl
encrypt_plaintext crypto nonce buf nn =
    let len = frame_len (length buf) in
    let sealed = splice nn.send_buf hdr_size (crypto.afternm (padded buf) nonce nn.sym_key) in
    record nn {
      send_buf_len = (len + hdr_size) % 2 ^ 16;
      send_buf = splice sealed 0 (store16 (swap16 len) ++ nonce);
    }

module _ {W : Type 0} (socket : Socket W) (len flags : ℕ) where
  -- The state after a message has gone out.
  pub sent_all : Netnacl → Netnacl
  sent_all nn = record nn {
    send_buf = splice nn.send_buf 0 (replicate nn.send_buf_len 0);
    send_buf_len = 0;
    send_buf_pos = 0;
  }

  -- What the loop of `send_ciphertext` does with the result of `send`; `next` is its next turn.
  pub send_turn :
      (Netnacl → Env W → Res (ℤ × Netnacl × Env W))
      → Netnacl
      → ℤ × Env W
      → Res (ℤ × Netnacl × Env W)
  send_turn next nn (n, env) =
      if int_eq minus_one n
      then ok ((if blocked env.errno then nn_want_write else nn_err), nn, env)
      else next (record nn { send_buf_pos = (nn.send_buf_pos + to_size n % 2 ^ 16) % 2 ^ 16 }) env

  -- The loop of `send_ciphertext` and what follows it.
  pub send_loop : ℕ → Netnacl → Env W → Res (ℤ × Netnacl × Env W)
  unfolding sent_all send_turn
  send_loop zero nn env = out_of_fuel
  send_loop (suc fuel) nn env =
      if ltb nn.send_buf_pos nn.send_buf_len
      then send_turn (send_loop fuel) nn (
          c_send socket nn.sock_fd
            (take (nn.send_buf_len - nn.send_buf_pos) (drop nn.send_buf_pos nn.send_buf)) flags env)
      else ok (pos (min len max_message_len), sent_all nn, env)

  unfoldable pub send_ciphertext : Netnacl → Env W → Res (ℤ × Netnacl × Env W)
  unfolding send_loop
  send_ciphertext nn env = send_loop (nn.send_buf_len - nn.send_buf_pos + 1) nn env

-- `netnacl_send`; its `len` is the length of `buf`.
unfoldable pub netnacl_send :
    {W : Type 0}
    → Socket W
    → Crypto
    → (nonce : List ℕ) → List ℕ
    → ℕ
    → Netnacl
    → Env W
    → Res (ℤ × Netnacl × Env W)
netnacl_send socket crypto nonce buf flags nn env =
    let nn' = if nn.send_buf_len == 0 then encrypt_plaintext crypto nonce buf nn else nn in
    if ltb nn'.send_buf_pos nn'.send_buf_len
    then send_ciphertext socket (length buf) flags nn' env
    else ok (pos 0, nn', env)
