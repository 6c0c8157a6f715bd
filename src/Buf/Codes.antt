-- ===== src/Buf/Codes.antt =====
-- The codes of `buf_send` and `buf_recv`.
use nacl_proxy.Base.{
  ℕ, zero, suc, ◌+◌, ◌-◌, ◌≡◌, refl, ◌⊎◌, inl, inr, ◌||◌, ◌&&◌, ℤ, pos, int_eq, is_nonneg, ltb,
  ◌==◌, if_both, List, take, drop,
}
use nacl_proxy.Errors.{
  proxy_success, proxy_err, proxy_disconnect, proxy_would_block, nn_want_write, nn_want_read,
}
use nacl_proxy.Sys.{Socket, Env, Res, epipe, econnreset}
use nacl_proxy.Netnacl.{Crypto}
use nacl_proxy.Buf.{
  blocked, Buf, Net, buf_size, send_code, send_some, send_turn, send_loop, buf_send, recv_code,
  recv_some, recv_turn, recv_loop, buf_recv,
}
use nacl_proxy.Sys.Gives.{Gives, Gives-bind, Gives-all}

-- the codes that include/buf.h lists
abbrev pub Listed : ℤ → Type 0
Listed code =
    (code ≡ proxy_success)
    ⊎ (code ≡ proxy_err)
    ⊎ (code ≡ proxy_disconnect)
    ⊎ (code ≡ proxy_would_block)

send_code-Listed : (n : ℤ) (errno : ℕ) → Listed (send_code n errno)
unfolding send_code
send_code-Listed n errno =
    if_both Listed (int_eq nn_want_write n || blocked errno) _ _ (inr (inr (inr refl))) (
      if_both Listed (errno == epipe || errno == econnreset) _ _ (inr (inr (inl refl)))
        (inr (inl refl)))

recv_code-Listed : (n : ℤ) (errno size : ℕ) → Listed (recv_code n errno size)
unfolding recv_code
recv_code-Listed n errno size =
    if_both Listed (int_eq nn_want_read n || blocked errno) _ _
      (if_both Listed (size == 0) _ _ (inr (inr (inr refl))) (inl refl)) (inr (inl refl))

module _ {W : Type 0} (socket : Socket W) (crypto : Crypto) (flags : ℕ) where
  abbrev CodeListed : Res (ℤ × Net × Buf × Env W) → Type 0
  CodeListed = Gives λ (code, net, buf, env). Listed code

  recv_loop-Listed :
      (fuel : ℕ) (net : Net) (buf : Buf) (env : Env W)
      → CodeListed (recv_loop socket crypto flags fuel net buf env)
  unfolding recv_loop recv_turn Gives
  recv_loop-Listed zero net buf env = _
  recv_loop-Listed (suc fuel) net buf env =
      if_both CodeListed (ltb buf.size buf_size) _ _
        (Gives-bind (λ x. Unit) _ (recv_some socket crypto flags (buf_size - buf.size) net env) _
          (Gives-all (λ x. Unit) (recv_some socket crypto flags (buf_size - buf.size) net env)
            (λ x. tt))
          λ (n, bytes, net', env') h.
            if_both CodeListed (int_eq (pos 0) n) _ _ (inr (inr (inl refl))) (
              if_both CodeListed (is_nonneg n) _ _ (recv_loop-Listed fuel net' _ env')
                (recv_code-Listed n env'.errno buf.size)))
        (inl refl)

  -- `buf_recv` returns one of the codes that include/buf.h lists, or runs into `_exit`, a write past
  -- the end of an array or the end of its fuel.
  pub buf_recv-Listed :
      (net : Net) (buf : Buf) (env : Env W) → CodeListed (buf_recv socket crypto flags net buf env)
  unfolding buf_recv Gives
  buf_recv-Listed net buf env =
      if_both CodeListed ((buf.read_pos == 0) && (buf.size == 0)) _ _
        (recv_loop-Listed (buf_size + 1) net buf env) (inr (inl refl))

  module _ (nonces : ℕ → List ℕ) where
    send_loop-Listed :
        (fuel : ℕ) (net : Net) (buf : Buf) (env : Env W)
        → CodeListed (send_loop socket crypto nonces flags fuel net buf env)
    unfolding send_loop send_turn Gives
    send_loop-Listed zero net buf env = _
    send_loop-Listed (suc fuel) net buf env =
        let bytes = take (buf.size - buf.read_pos) (drop buf.read_pos buf.contents) in
        if_both CodeListed (ltb buf.read_pos buf.size) _ _
          (Gives-bind (λ x. Unit) _
            (send_some socket crypto nonces flags buf.read_pos bytes net env) _
            (Gives-all (λ x. Unit) (send_some socket crypto nonces flags buf.read_pos bytes net env)
              (λ x. tt))
            λ (n, net', env') h.
              if_both CodeListed (is_nonneg n) _ _ (send_loop-Listed fuel net' _ env')
                (send_code-Listed n env'.errno))
          (inl refl)

    -- So does `buf_send`.
    pub buf_send-Listed :
        (net : Net) (buf : Buf) (env : Env W)
        → CodeListed (buf_send socket crypto nonces flags net buf env)
    unfolding buf_send Gives
    buf_send-Listed net buf env =
        if_both CodeListed ((buf.size == 0) || (buf.read_pos == buf.size)) _ _ (inr (inl refl))
          (send_loop-Listed (buf.size - buf.read_pos + 1) net buf env)
