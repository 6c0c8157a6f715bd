-- ===== src/Netnacl/Recv/Touch.antt =====
-- `netnacl_recv` reaches the world only by `recv`, and the context only in the fields for receiving: what
-- these leave alone stays true.
use Prim.Native.Nat.{min}
use nacl_proxy.Base.{
  ℕ, zero, suc, ◌-◌, ◌+◌, ◌%◌, ◌^◌, ◌&&◌, Option, none, some, ℤ, pos, minus_one, int_eq, to_size,
  ltb, leb, ◌==◌, if◌then◌else◌, if_both, List, length,
}
use nacl_proxy.Errors.{nn_success}
use nacl_proxy.Sys.{Socket, Env, Res, overflow, ◌>>=◌, c_recv, splice}
use nacl_proxy.Sys.Laws.{c_recv-world}
use nacl_proxy.Sys.Gives.{Gives, Gives-bind}
use nacl_proxy.Netnacl.{Netnacl, Crypto, hdr_size, ct_size, max_message_len}
use nacl_proxy.Netnacl.Recv.{
  hdr_len, swap_len, hdr_turn, hdr_loop, recv_hdr, ct_turn, ct_loop, recv_ciphertext, opened,
  open_reply, decrypt_ciphertext, reset, copy_plaintext_to_buffer, has_message, deliver,
  open_and_deliver, finish, go_on, recv_rest, netnacl_recv,
}

-- the context `nn` with the fields for receiving of another
abbrev pub receiving_of : Netnacl → Netnacl → Netnacl
receiving_of nn by = record nn {
  hdr_bytes_recvd = by.hdr_bytes_recvd;
  ct_bytes_recvd = by.ct_bytes_recvd;
  recv_ct = by.recv_ct;
  recv_pt = by.recv_pt;
  recv_pt_pos = by.recv_pt_pos;
  recv_pt_len = by.recv_pt_len;
  recv_hdr = by.recv_hdr;
}

module _ {W : Type 0} (socket : Socket W) (Q : Netnacl → W → Type 0)
    (kept : (nn : Netnacl) (len flags : ℕ) (w : W)
      → Q nn w
      → Q nn (socket.recv nn.sock_fd len flags w).1)
    (set : (nn by : Netnacl) (w : W) → Q nn w → Q (receiving_of nn by) w) where
  -- a run that keeps `Q` of the context and the world
  abbrev Touches : Res (ℤ × Netnacl × Env W) → Type 0
  Touches = Gives λ (code, nn, env). Q nn env.world

  abbrev pub ReadTouches : Res (ℤ × List ℕ × Netnacl × Env W) → Type 0
  ReadTouches = Gives λ (code, bytes, nn, env). Q nn env.world

  received :
      (nn : Netnacl) (len flags : ℕ) (env : Env W)
      → Q nn env.world
      → Q nn (c_recv socket nn.sock_fd len flags env).2.world
  received nn len flags env q =
      rw (c_recv-world socket nn.sock_fd len flags env) (kept nn len flags env.world q)

  decrypt-Touches :
      (crypto : Crypto) (nn : Netnacl) (w : W)
      → Q nn w
      → (o : Option (List ℕ)) → Q (open_reply nn o).1 w
  unfolding open_reply opened
  decrypt-Touches crypto nn w q none = q
  decrypt-Touches crypto nn w q (some m) = set nn (opened m nn) w q

  copy-Touches : (len : ℕ) (nn : Netnacl) (w : W) → Q nn w → Q (copy_plaintext_to_buffer len nn).2 w
  unfolding copy_plaintext_to_buffer reset
  copy-Touches len nn w q =
      let read_sz : ℕ = min ((2 ^ 64 + nn.recv_pt_len - nn.recv_pt_pos) % 2 ^ 64) len in
      let nn' : Netnacl = record nn { recv_pt_pos = (nn.recv_pt_pos + read_sz) % 2 ^ 16 } in
      let q' : Q nn' w = set nn nn' w q in
      let Kept : ℤ × List ℕ × Netnacl → Type 0 = λ r. Q r.2 w in
      if_both Kept (leb nn.recv_pt_len max_message_len) _ _
        (if_both Kept (leb nn'.recv_pt_pos nn'.recv_pt_len) _ _
          (if_both (λ m. Q m w) (nn'.recv_pt_pos == nn'.recv_pt_len) _ _ (set nn (reset nn') w q)
            q')
          q')
        q

  open_and_deliver-Touches :
      (crypto : Crypto) (len flags : ℕ) (nn : Netnacl) (env : Env W)
      → Q nn env.world
      → ReadTouches (finish socket crypto len flags nn env)
  unfolding finish open_and_deliver deliver decrypt_ciphertext Gives
  open_and_deliver-Touches crypto len flags nn env q =
      let opening : ℤ × Netnacl =
        if has_message nn && (nn.recv_pt_len == 0)
        then decrypt_ciphertext crypto nn
        else (nn_success, nn) in
      let q' : Q opening.1 env.world =
        if_both (λ (r : ℤ × Netnacl). Q r.1 env.world) (has_message nn && (nn.recv_pt_len == 0)) _ _
          (decrypt-Touches crypto nn env.world q _) q in
      let Kept : ℤ × List ℕ × Netnacl → Type 0 = λ r. Q r.2 env.world in
      if_both Kept (int_eq nn_success opening.0) _ _
        (if_both Kept (has_message opening.1 && ltb 0 opening.1.recv_pt_len) _ _
          (copy-Touches len opening.1 env.world q') q')
        q'

  module _ (flags : ℕ) where
    -- the context after a turn of the loops
    abbrev filled : Netnacl → ℤ × List ℕ × Env W → Netnacl
    filled nn r = record nn {
      recv_hdr = splice nn.recv_hdr nn.hdr_bytes_recvd r.1;
      hdr_bytes_recvd = (nn.hdr_bytes_recvd + to_size r.0) % 2 ^ 64;
    }

    abbrev stored : Netnacl → ℤ × List ℕ × Env W → Netnacl
    stored nn r = record nn {
      recv_ct = splice nn.recv_ct nn.ct_bytes_recvd r.1;
      ct_bytes_recvd = (nn.ct_bytes_recvd + to_size r.0) % 2 ^ 64;
    }

    hdr_loop-Touches :
        (fuel : ℕ) (nn : Netnacl) (env : Env W)
        → Q nn env.world
        → Touches (hdr_loop socket flags fuel nn env)
    unfolding hdr_loop hdr_turn swap_len Gives
    hdr_loop-Touches zero nn env q = _
    hdr_loop-Touches (suc fuel) nn env q =
        let r : ℤ × List ℕ × Env W =
          c_recv socket nn.sock_fd (hdr_size - nn.hdr_bytes_recvd) flags env in
        let q' : Q nn r.2.world = received nn _ flags env q in
        if_both Touches (ltb nn.hdr_bytes_recvd hdr_size) _ _
          (if_both Touches (int_eq minus_one r.0) _ _ q' (
            if_both Touches (int_eq (pos 0) r.0) _ _ q'
              (hdr_loop-Touches fuel (filled nn r) r.2 (set nn (filled nn r) r.2.world q'))))
          (set nn (swap_len nn) env.world q)

    ct_loop-Touches :
        (fuel : ℕ) (nn : Netnacl) (env : Env W)
        → Q nn env.world
        → Touches (ct_loop socket flags fuel nn env)
    unfolding ct_loop ct_turn Gives
    ct_loop-Touches zero nn env q = _
    ct_loop-Touches (suc fuel) nn env q =
        let r : ℤ × List ℕ × Env W =
          c_recv socket nn.sock_fd (hdr_len nn - nn.ct_bytes_recvd) flags env in
        let q' : Q nn r.2.world = received nn _ flags env q in
        if_both Touches (ltb nn.ct_bytes_recvd (hdr_len nn)) _ _
          (if_both Touches (int_eq minus_one r.0) _ _ q' (
            if_both Touches (int_eq (pos 0) r.0) _ _ q' (
              if_both Touches (leb (nn.ct_bytes_recvd + length r.1) ct_size) _ overflow
                (ct_loop-Touches fuel (stored nn r) r.2 (set nn (stored nn r) r.2.world q')) _)))
          q

    go_on-Touches :
        (crypto : Crypto) (len : ℕ) (next : Netnacl → Env W → Res (ℤ × List ℕ × Netnacl × Env W))
        → ((nn : Netnacl) (env : Env W) → Q nn env.world → ReadTouches (next nn env))
        → (r : Res (ℤ × Netnacl × Env W)) → Touches r
        → ReadTouches (r >>= go_on socket crypto len flags next)
    unfolding go_on Gives
    go_on-Touches crypto len next later r q =
        Gives-bind (λ (code, nn, env). Q nn env.world) _ r (go_on socket crypto len flags next) q
          λ (code, nn, env) q'.
            if_both ReadTouches (int_eq nn_success code) _ _ (later nn env q') q'

    -- What each `recv` and the fields for receiving leave alone stays true.
    pub netnacl_recv-Touches :
        (crypto : Crypto) (len : ℕ) (nn : Netnacl) (env : Env W)
        → Q nn env.world
        → ReadTouches (netnacl_recv socket crypto len flags nn env)
    unfolding netnacl_recv recv_rest finish recv_hdr recv_ciphertext Gives
    netnacl_recv-Touches crypto len nn env q =
        go_on-Touches crypto len (recv_rest socket crypto len flags)
          (λ nn' env' q'.
            go_on-Touches crypto len (finish socket crypto len flags)
              (open_and_deliver-Touches crypto len flags) _
              (if_both Touches
                ((nn'.hdr_bytes_recvd == hdr_size) && ltb nn'.ct_bytes_recvd (hdr_len nn')) _ _
                (ct_loop-Touches _ nn' env' q') q'))
          _ (if_both Touches (ltb nn.hdr_bytes_recvd hdr_size) _ _ (hdr_loop-Touches _ nn env q) q)
