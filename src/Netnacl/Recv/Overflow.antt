-- ===== src/Netnacl/Recv/Overflow.antt =====
-- `recv_ciphertext` of src/netnacl on a length, which the peer chooses, that is over the size of
-- `recv_ct`.
use nacl_proxy.Base.{
  ℕ, suc, ◌+◌, ◌-◌, ◌≡◌, ◌<◌, true, false, pos, List, length, ltb, leb, ◌==◌, arith,
}
use nacl_proxy.Sys.{Socket, Env, overflow, c_recv}
use nacl_proxy.Netnacl.{Netnacl, Crypto, hdr_size, ct_size}
use nacl_proxy.Netnacl.Recv.{
  hdr_len, recv_ciphertext, ct_loop, ct_turn, recv_rest, go_on, netnacl_recv,
}

module _ {W : Type 0} (socket : Socket W) (crypto : Crypto) (len flags : ℕ) where
  ciphertext-overflows :
      (nn : Netnacl) (env env' : Env W) (bytes : List ℕ)
      → ct_size < hdr_len nn
      → nn.ct_bytes_recvd < hdr_len nn
      → c_recv socket nn.sock_fd (hdr_len nn - nn.ct_bytes_recvd) flags env
        ≡ (pos (length bytes), bytes, env')
      → length bytes ≡ hdr_len nn - nn.ct_bytes_recvd
      → recv_ciphertext socket flags nn env ≡ overflow
  unfolding recv_ciphertext ct_loop ct_turn
  ciphertext-overflows nn env env' bytes long more r all =
      let e : hdr_len nn - nn.ct_bytes_recvd + 1 ≡ suc (hdr_len nn - nn.ct_bytes_recvd) =
        omega arith in
      let test : ltb nn.ct_bytes_recvd (hdr_len nn) ≡ true = ground arith in
      let some_read : (0 == length bytes) ≡ false = ground (arith, all) in
      let no_room : leb (nn.ct_bytes_recvd + length bytes) ct_size ≡ false = ground (arith, all) in
      rw (e, test, r, some_read, no_room)

  -- With the header of a message there that announces more than 4128 bytes, and a socket that yields at
  -- once all that `recv_ciphertext` asks for, `netnacl_recv` writes past the end of `recv_ct`.
  pub netnacl_recv-overflow :
      (nn : Netnacl) (env env' : Env W) (bytes : List ℕ)
      → nn.hdr_bytes_recvd ≡ hdr_size
      → ct_size < hdr_len nn
      → nn.ct_bytes_recvd < hdr_len nn
      → c_recv socket nn.sock_fd (hdr_len nn - nn.ct_bytes_recvd) flags env
        ≡ (pos (length bytes), bytes, env')
      → length bytes ≡ hdr_len nn - nn.ct_bytes_recvd
      → netnacl_recv socket crypto len flags nn env ≡ overflow
  unfolding netnacl_recv recv_rest go_on
  netnacl_recv-overflow nn env env' bytes whole long more r all =
      let complete : ltb nn.hdr_bytes_recvd hdr_size ≡ false = ground (arith, whole) in
      let hdr : (nn.hdr_bytes_recvd == hdr_size) ≡ true = ground (arith, whole) in
      let test : ltb nn.ct_bytes_recvd (hdr_len nn) ≡ true = ground arith in
      rw (complete, hdr, test, ciphertext-overflows nn env env' bytes long more r all)
