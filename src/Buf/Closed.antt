-- ===== src/Buf/Closed.antt =====
-- `buf_send` on a plain connection of which the descriptor is gone.
use nacl_proxy.Base.{
  ℕ, suc, ◌-◌, ◌+◌, ◌<◌, ◌≡◌, refl, false, minus_one, List, ◌==◌, ◌||◌, lt→ltb, arith,
}
use nacl_proxy.Errors.{proxy_err}
use nacl_proxy.Sys.{Socket, Env, ok, send_failed, c_send}
use nacl_proxy.Netnacl.{Crypto}
use nacl_proxy.Buf.{Buf, Net, send_some, plain_send, send_turn, send_loop, send_code, buf_send}

abbrev pub ebadf : ℕ
ebadf = 9

-- `send` on -1 fails with EBADF and changes nothing, as POSIX has it.
abbrev pub RefusesClosed : {W : Type 0} → Socket W → Type 0
RefusesClosed {W} socket =
    (bytes : List ℕ) (flags : ℕ) (w : W)
    → socket.send minus_one bytes flags w ≡ (send_failed ebadf, w)

module _ {W : Type 0} (socket : Socket W) (refuses : RefusesClosed socket) (crypto : Crypto)
    (nonces : ℕ → List ℕ) (flags : ℕ) where
  loop_closed :
      (fuel : ℕ) (net : Net) (b : Buf) (env : Env W)
      → net.sock_fd ≡ minus_one
      → net.b_encrypted ≡ false
      → b.read_pos < b.size
      → send_loop socket crypto nonces flags (suc fuel) net b env
        ≡ ok (proxy_err, net, b, record env { errno = ebadf })
  unfolding send_loop send_some plain_send send_turn send_code c_send
  loop_closed fuel net b env gone plain less = rw (lt→ltb _ _ less, plain, gone, refuses) refl

  -- `send` on -1 fails with EBADF: then `buf_send` of a buffer that is not empty, on a plain connection
  -- without a descriptor, fails and sends nothing.
  pub buf_send-closed :
      (net : Net) (b : Buf) (env : Env W)
      → net.sock_fd ≡ minus_one
      → net.b_encrypted ≡ false
      → b.read_pos < b.size
      → buf_send socket crypto nonces flags net b env
        ≡ ok (proxy_err, net, b, record env { errno = ebadf })
  unfolding buf_send
  buf_send-closed net b env gone plain less =
      let some_left : (b.size == 0) || (b.read_pos == b.size) ≡ false = ground (arith, less) in
      let fuel : b.size - b.read_pos + 1 ≡ suc (b.size - b.read_pos) = omega arith in
      rw (some_left, fuel) (loop_closed (b.size - b.read_pos) net b env gone plain less)
