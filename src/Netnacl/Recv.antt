-- ===== src/Netnacl/Recv.antt =====
-- `netnacl_recv` of src/netnacl/src/netnacl.c, with `recv_hdr`, `recv_ciphertext`,
-- `decrypt_ciphertext` and `copy_plaintext_to_buffer`. The source asks `recv` for as many bytes of
-- ciphertext as the header says, whatever the size of `recv_ct`; a write past it is `overflow`.
pub mod Touch
pub mod Carries
pub mod Delivers
pub mod Message
pub mod Open
pub mod Overflow
pub mod Streams
use Prim.Native.Nat.{min}
use nacl_proxy.Base.{
  ℕ, zero, suc, ◌+◌, ◌-◌, ◌%◌, ◌^◌, ◌&&◌, Bool, Option, none, some, ℤ, pos, minus_one, int_eq,
  to_size, List, [], length, take, drop, replicate, ltb, leb, ◌==◌, if◌then◌else◌,
}
use nacl_proxy.Errors.{
  nn_success, nn_want_read, nn_err, nn_disconnect, nn_crypto_err, assert_failed,
}
use nacl_proxy.Sys.{
  Socket, Env, Res, ok, overflow, out_of_fuel, ◌>>=◌, c_recv, splice, load16, store16, swap16,
  blocked,
}
use nacl_proxy.Netnacl.{Netnacl, Crypto, zero_bytes, max_message_len, hdr_size, ct_size}

-- `p_nn->recv_hdr.len`
abbrev pub hdr_len : Netnacl → ℕ
hdr_len nn = load16 nn.recv_hdr

-- `p_nn->recv_hdr.nonce`
abbrev pub hdr_nonce : Netnacl → List ℕ
hdr_nonce nn = drop 2 nn.recv_hdr

-- `recv_hdr.len = ntohs(recv_hdr.len)`
pub swap_len : Netnacl → Netnacl
swap_len nn = record nn { recv_hdr = splice nn.recv_hdr 0 (store16 (swap16 (load16 nn.recv_hdr))) }

module _ {W : Type 0} (socket : Socket W) (flags : ℕ) where
  -- What the loop of `recv_hdr` does with the result of `recv`; `next` is its next turn.
  pub hdr_turn :
      (Netnacl → Env W → Res (ℤ × Netnacl × Env W))
      → Netnacl
      → ℤ × List ℕ × Env W
      → Res (ℤ × Netnacl × Env W)
  hdr_turn next nn (n, bytes, env) =
      if int_eq minus_one n
      then ok ((if blocked env.errno then nn_want_read else nn_err), nn, env)
      else (if int_eq (pos 0) n
          then ok (nn_disconnect, nn, env)
          else next
              (record nn {
                recv_hdr = splice nn.recv_hdr nn.hdr_bytes_recvd bytes;
                hdr_bytes_recvd = (nn.hdr_bytes_recvd + to_size n) % 2 ^ 64;
              })
              env)

  pub hdr_loop : ℕ → Netnacl → Env W → Res (ℤ × Netnacl × Env W)
  unfolding hdr_turn
  hdr_loop zero nn env = out_of_fuel
  hdr_loop (suc fuel) nn env =
      if ltb nn.hdr_bytes_recvd hdr_size
      then hdr_turn (hdr_loop fuel) nn
          (c_recv socket nn.sock_fd (hdr_size - nn.hdr_bytes_recvd) flags env)
      else ok (nn_success, swap_len nn, env)

  pub recv_hdr : Netnacl → Env W → Res (ℤ × Netnacl × Env W)
  recv_hdr nn env = hdr_loop (hdr_size - nn.hdr_bytes_recvd + 1) nn env

  -- What the loop of `recv_ciphertext` does with the result of `recv`.
  pub ct_turn :
      (Netnacl → Env W → Res (ℤ × Netnacl × Env W))
      → Netnacl
      → ℤ × List ℕ × Env W
      → Res (ℤ × Netnacl × Env W)
  ct_turn next nn (n, bytes, env) =
      if int_eq minus_one n
      then ok ((if blocked env.errno then nn_want_read else nn_err), nn, env)
      else (if int_eq (pos 0) n
          then ok (nn_disconnect, nn, env)
          else (if leb (nn.ct_bytes_recvd + length bytes) ct_size
              then next
                  (record nn {
                    recv_ct = splice nn.recv_ct nn.ct_bytes_recvd bytes;
                    ct_bytes_recvd = (nn.ct_bytes_recvd + to_size n) % 2 ^ 64;
                  })
                  env
              else overflow))

  pub ct_loop : ℕ → Netnacl → Env W → Res (ℤ × Netnacl × Env W)
  unfolding ct_turn
  ct_loop zero nn env = out_of_fuel
  ct_loop (suc fuel) nn env =
      if ltb nn.ct_bytes_recvd (hdr_len nn)
      then ct_turn (ct_loop fuel) nn
          (c_recv socket nn.sock_fd (hdr_len nn - nn.ct_bytes_recvd) flags env)
      else ok (nn_success, nn, env)

  pub recv_ciphertext : Netnacl → Env W → Res (ℤ × Netnacl × Env W)
  recv_ciphertext nn env = ct_loop (hdr_len nn - nn.ct_bytes_recvd + 1) nn env

-- `recv_pt` once the message has been opened, and moved to its front without the padding
pub opened : List ℕ → Netnacl → Netnacl
opened m nn =
    let pt_len = (hdr_len nn + (2 ^ 16 - zero_bytes)) % 2 ^ 16 in
    let pt = splice nn.recv_pt 0 m in
    record nn { recv_pt_len = pt_len; recv_pt = splice pt 0 (take pt_len (drop zero_bytes pt)) }

pub open_reply : Netnacl → Option (List ℕ) → ℤ × Netnacl
unfolding opened
open_reply nn none = (nn_crypto_err, nn)
open_reply nn (some m) = (nn_success, opened m nn)

pub decrypt_ciphertext : Crypto → Netnacl → ℤ × Netnacl
decrypt_ciphertext crypto nn =
    open_reply nn (crypto.open_afternm (take (hdr_len nn) nn.recv_ct) (hdr_nonce nn) nn.sym_key)

-- the state for the next message
unfoldable pub reset : Netnacl → Netnacl
reset nn = record nn {
  recv_hdr = replicate hdr_size 0;
  recv_pt = replicate ct_size 0;
  recv_ct = replicate ct_size 0;
  recv_pt_len = 0;
  recv_pt_pos = 0;
  hdr_bytes_recvd = 0;
  ct_bytes_recvd = 0;
}

-- The difference of the two counters is an `int`, which `MIN` converts to `size_t`.
pub copy_plaintext_to_buffer : ℕ → Netnacl → ℤ × List ℕ × Netnacl
unfolding reset
copy_plaintext_to_buffer len nn =
    if leb nn.recv_pt_len max_message_len
    then (let read_sz = min ((2 ^ 64 + nn.recv_pt_len - nn.recv_pt_pos) % 2 ^ 64) len in
        let bytes = take read_sz (drop nn.recv_pt_pos nn.recv_pt) in
        let nn' = record nn { recv_pt_pos = (nn.recv_pt_pos + read_sz) % 2 ^ 16 } in
        if leb nn'.recv_pt_pos nn'.recv_pt_len
        then (pos read_sz, bytes, if nn'.recv_pt_pos == nn'.recv_pt_len then reset nn' else nn')
        else (assert_failed, bytes, nn'))
    else (assert_failed, [], nn)

-- The label EXIT: the end of the stream is 0, as `recv` has it.
pub exit_code : ℤ → ℤ
exit_code ret = if int_eq nn_disconnect ret then pos 0 else ret

-- all of the header and all of the ciphertext are there
abbrev pub has_message : Netnacl → Bool
has_message nn = (nn.hdr_bytes_recvd == hdr_size) && (nn.ct_bytes_recvd == hdr_len nn)

module _ {W : Type 0} (socket : Socket W) (crypto : Crypto) (len flags : ℕ) where
  -- The last two steps of `netnacl_recv`, each run on its condition.
  pub deliver : Netnacl → ℤ × List ℕ × Netnacl
  deliver nn =
      if has_message nn && ltb 0 nn.recv_pt_len
      then copy_plaintext_to_buffer len nn
      else (nn_success, [], nn)

  pub open_and_deliver : Netnacl → ℤ × List ℕ × Netnacl
  unfolding deliver
  open_and_deliver nn =
      let (ret, nn') =
        if has_message nn && (nn.recv_pt_len == 0)
        then decrypt_ciphertext crypto nn
        else (nn_success, nn) in
      if int_eq nn_success ret then deliver nn' else (ret, [], nn')

  pub finish : Netnacl → Env W → Res (ℤ × List ℕ × Netnacl × Env W)
  unfolding open_and_deliver exit_code
  finish nn env = let (ret, bytes, nn') = open_and_deliver nn in ok (exit_code ret, bytes, nn', env)

  -- A step that yields a code other than 0 goes to EXIT.
  pub go_on :
      (Netnacl → Env W → Res (ℤ × List ℕ × Netnacl × Env W))
      → ℤ × Netnacl × Env W
      → Res (ℤ × List ℕ × Netnacl × Env W)
  unfolding exit_code
  go_on next (ret, nn, env) =
      if int_eq nn_success ret then next nn env else ok (exit_code ret, [], nn, env)

  pub recv_rest : Netnacl → Env W → Res (ℤ × List ℕ × Netnacl × Env W)
  unfolding finish go_on
  recv_rest nn env =
      (if (nn.hdr_bytes_recvd == hdr_size) && ltb nn.ct_bytes_recvd (hdr_len nn)
        then recv_ciphertext socket flags nn env
        else ok (nn_success, nn, env))
      >>= go_on finish

  pub netnacl_recv : Netnacl → Env W → Res (ℤ × List ℕ × Netnacl × Env W)
  unfolding recv_rest go_on
  netnacl_recv nn env =
      (if ltb nn.hdr_bytes_recvd hdr_size
        then recv_hdr socket flags nn env
        else ok (nn_success, nn, env))
      >>= go_on recv_rest
