-- ===== src/Netnacl/Send/Touch.antt =====
-- `netnacl_send` reaches the world only by `send`, and the context only in the fields for sending: what
-- these leave alone stays true.
use nacl_proxy.Base.{
  ℕ, zero, suc, ◌+◌, ◌-◌, ◌%◌, ◌^◌, ℤ, minus_one, int_eq, to_size, ltb, ◌==◌, if_both, List, length,
  take, drop, if◌then◌else◌,
}
use nacl_proxy.Sys.{Socket, Env, Res, c_send}
use nacl_proxy.Sys.Laws.{c_send-world}
use nacl_proxy.Sys.Gives.{Gives}
use nacl_proxy.Netnacl.{Netnacl, Crypto}
use nacl_proxy.Netnacl.Send.{
  sent_all, send_turn, send_loop, send_ciphertext, encrypt_plaintext, netnacl_send,
}

-- the context `nn` with the fields for sending of another
abbrev pub sending_of : Netnacl → Netnacl → Netnacl
sending_of nn by = record nn {
  send_buf_len = by.send_buf_len;
  send_buf_pos = by.send_buf_pos;
  send_buf = by.send_buf;
}

module _ {W : Type 0} (socket : Socket W) (Q : Netnacl → W → Type 0)
    (kept : (nn : Netnacl) (bytes : List ℕ) (flags : ℕ) (w : W)
      → Q nn w
      → Q nn (socket.send nn.sock_fd bytes flags w).1)
    (set : (nn by : Netnacl) (w : W) → Q nn w → Q (sending_of nn by) w) where
  -- a run that keeps `Q` of the context and the world
  abbrev pub SendTouches : Res (ℤ × Netnacl × Env W) → Type 0
  SendTouches = Gives λ (code, nn, env). Q nn env.world

  taken :
      (nn : Netnacl) (bytes : List ℕ) (flags : ℕ) (env : Env W)
      → Q nn env.world
      → Q nn (c_send socket nn.sock_fd bytes flags env).1.world
  taken nn bytes flags env q =
      rw (c_send-world socket nn.sock_fd bytes flags env) (kept nn bytes flags env.world q)

  send_loop-Touches :
      (len flags fuel : ℕ) (nn : Netnacl) (env : Env W)
      → Q nn env.world
      → SendTouches (send_loop socket len flags fuel nn env)
  unfolding send_loop send_turn sent_all Gives
  send_loop-Touches len flags zero nn env q = _
  send_loop-Touches len flags (suc fuel) nn env q =
      let r : ℤ × Env W =
        c_send socket nn.sock_fd
          (take (nn.send_buf_len - nn.send_buf_pos) (drop nn.send_buf_pos nn.send_buf)) flags env in
      let nn' : Netnacl = record nn {
        send_buf_pos = (nn.send_buf_pos + to_size r.0 % 2 ^ 16) % 2 ^ 16;
      } in
      let q' : Q nn r.1.world = taken nn _ flags env q in
      if_both SendTouches (ltb nn.send_buf_pos nn.send_buf_len) _ _
        (if_both SendTouches (int_eq minus_one r.0) _ _ q'
          (send_loop-Touches len flags fuel nn' r.1 (set nn nn' r.1.world q')))
        (set nn (sent_all socket len flags nn) env.world q)

  -- What each `send` and the fields for sending leave alone stays true.
  pub netnacl_send-Touches :
      (crypto : Crypto) (nonce buf : List ℕ) (flags : ℕ) (nn : Netnacl) (env : Env W)
      → Q nn env.world
      → SendTouches (netnacl_send socket crypto nonce buf flags nn env)
  unfolding netnacl_send send_ciphertext encrypt_plaintext Gives
  netnacl_send-Touches crypto nonce buf flags nn env q =
      let sealed : Netnacl = encrypt_plaintext crypto nonce buf nn in
      let nn' : Netnacl = if nn.send_buf_len == 0 then sealed else nn in
      let q' : Q nn' env.world =
        if_both (λ m. Q m env.world) (nn.send_buf_len == 0) sealed nn (set nn sealed env.world q)
          q in
      if_both SendTouches (ltb nn'.send_buf_pos nn'.send_buf_len) _ _
        (send_loop-Touches (length buf) flags _ nn' env q') q'
