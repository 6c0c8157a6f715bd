-- ===== src/Netnacl/Recv/Delivers.antt =====
-- The last two steps of `netnacl_recv`, which open a message and hand out its text.
use Prim.Native.Nat.{min}
use nacl_proxy.Base.{
  ℕ, ◌≤◌, ◌<◌, ◌≡◌, ◌∙◌, refl, sym, ap, ap₂, ◌⊎◌, inl, inr, true, false, ℤ, pos, List, [], ◌++◌,
  length, take, drop, length-take, length-replicate, append_assoc, take_all, take-append-drop, ltb,
  ◌==◌, arith,
}
use nacl_proxy.Errors.{nn_want_read, nn_err}
use nacl_proxy.Sys.{Socket, Env, Res, ok}
use nacl_proxy.Sys.Laws.{RecvLaws}
use nacl_proxy.Netnacl.{Netnacl, Crypto, hdr_size, ct_size}
use nacl_proxy.Netnacl.Laws.{CryptoLaws}
use nacl_proxy.Netnacl.Send.{padded, frame_len}
use nacl_proxy.Netnacl.Recv.{
  hdr_len, opened, reset, copy_plaintext_to_buffer, deliver, open_and_deliver, finish, exit_code,
  go_on,
}
use nacl_proxy.Netnacl.Recv.Streams.{Stopped}
use nacl_proxy.Netnacl.Recv.Open.{
  unread, length-unread, opened-unread, decrypt-opens, copy-hands_out,
}
use nacl_proxy.Netnacl.Recv.Carries.{
  Msg, IsMsg, AreMsgs, texts, frames, AtHdr, AtCt, AtText, Carries, same_pieces, length-body,
}

-- what `netnacl_recv` returns when a step stops; 0 only with nothing left to hand out
abbrev pub Quits : List ℕ → ℤ → Type 0
Quits left code = (code ≡ nn_want_read) ⊎ (code ≡ nn_err) ⊎ (code ≡ pos 0) × (left ≡ [])

module _ {W : Type 0} (socket : Socket W) (inbox : ℤ → W → List ℕ) (laws : RecvLaws socket inbox)
    (crypto : Crypto) (crypto_laws : CryptoLaws crypto) (len flags : ℕ) where
  -- A call returns; it hands out the first bytes of `total`, or none and a code, and what the
  -- context and the socket hold then are the rest.
  abbrev pub HandsOut : List ℕ → Res (ℤ × List ℕ × Netnacl × Env W) → Type 0
  HandsOut total r =
      (code : ℤ) × (bytes : List ℕ) × (nn : Netnacl) × (env : Env W) × (text : List ℕ) × (ms : List
        Msg)
      × (r ≡ ok (code, bytes, nn, env))
      × (bytes ++ (text ++ texts ms) ≡ total)
      × Carries crypto inbox nn env text ms
      × AreMsgs ms
      × ((code ≡ pos (length bytes)) × (length bytes ≤ len) × (0 < len → 0 < length bytes)
          ⊎ Quits (text ++ texts ms) code × (bytes ≡ []))

  deliver-AtText :
      (nn : Netnacl) (env : Env W) (text : List ℕ) (ms : List Msg)
      → AtText crypto inbox nn env text ms
      → deliver socket crypto len flags nn ≡ copy_plaintext_to_buffer len nn
  unfolding deliver
  deliver-AtText nn env text ms a =
      let hdr : (nn.hdr_bytes_recvd == hdr_size) ≡ true = ground (arith, a.whole) in
      let ct : (nn.ct_bytes_recvd == hdr_len nn) ≡ true = ground (arith, a.complete) in
      let more : ltb 0 nn.recv_pt_len ≡ true = ground (arith, a.is_open.started) in
      rw (hdr, ct, more)

  at_reset :
      (nn : Netnacl) (env : Env W) (text : List ℕ) (ms : List Msg)
      → AtText crypto inbox nn env text ms
      → AtHdr crypto inbox (reset nn) env ms
  unfolding reset
  at_reset nn env text ms a = record {
    sizes = record {
      hdr = length-replicate {A = ℕ} hdr_size 0;
      ct = length-replicate {A = ℕ} ct_size 0;
      pt = length-replicate {A = ℕ} ct_size 0;
    };
    part = omega arith;
    no_ct = refl;
    no_text = refl;
    no_pos = refl;
    stream = a.stream;
  }

  -- What `finish` does with a result of `copy_plaintext_to_buffer`.
  copied :
      (nn : Netnacl) (env : Env W) (text : List ℕ) (ms : List Msg)
      → AtText crypto inbox nn env text ms
      → AreMsgs ms
      → let (ret, bytes, nn') = copy_plaintext_to_buffer len nn in
        HandsOut (text ++ texts ms) (ok (exit_code ret, bytes, nn', env))
  unfolding exit_code
  copied nn env text ms a msgs =
      let n : ℕ = min (length (unread nn)) len in
      let (code, bytes, rest) = copy-hands_out len nn a.is_open in
      let size : length (take n (unread nn)) ≡ n = omega (arith, length-take n (unread nn)) in
      let some : 0 < len → 0 < length (take n (unread nn)) =
        λ h. omega (arith, size, length-unread nn a.is_open, a.is_open.started) in
      elim rest [
        | inl (p, e, o, left) ↦
            rw (code, bytes, e)
              (
                _,
                _,
                _,
                _,
                drop n (unread nn),
                ms,
                refl,
                sym (append_assoc (take n (unread nn)) _ _)
                    ∙ ap₂ ◌++◌ (take-append-drop n (unread nn) ∙ a.left) refl,
                inr (
                    inr (record {
                      is_open = o;
                      whole = a.whole;
                      complete = a.complete;
                      left = left;
                      stream = a.stream;
                    })),
                msgs,
                inl (ap pos (sym size), omega (arith, size), some),
              )
        | inr (all, e) ↦
            rw (code, bytes, e)
              (
                _,
                _,
                _,
                _,
                [],
                ms,
                refl,
                ap (λ b. b ++ texts ms) (take_all n (unread nn) (omega arith) ∙ a.left),
                inl (refl, at_reset nn env text ms a),
                msgs,
                inl (ap pos (sym size), omega (arith, size), some),
              )
      ]

  pub finish-AtText :
      (nn : Netnacl) (env : Env W) (text : List ℕ) (ms : List Msg)
      → AtText crypto inbox nn env text ms
      → AreMsgs ms
      → HandsOut (text ++ texts ms) (finish socket crypto len flags nn env)
  unfolding finish open_and_deliver
  finish-AtText nn env text ms a msgs =
      let opened_before : (nn.recv_pt_len == 0) ≡ false = ground (arith, a.is_open.started) in
      let hdr : (nn.hdr_bytes_recvd == hdr_size) ≡ true = ground (arith, a.whole) in
      let ct : (nn.ct_bytes_recvd == hdr_len nn) ≡ true = ground (arith, a.complete) in
      rw (hdr, ct, opened_before, deliver-AtText nn env text ms a) (copied nn env text ms a msgs)

  pub frame_len_le : (m : Msg) → IsMsg m → frame_len (length m.text) ≤ ct_size
  unfolding frame_len
  frame_len_le m is_msg = omega (arith, is_msg.fits)

  at_text :
      (nn : Netnacl) (env : Env W) (m : Msg) (ms : List Msg)
      → AtCt crypto inbox nn env m ms
      → nn.ct_bytes_recvd ≡ hdr_len nn
      → inbox nn.sock_fd env.world ≡ frames crypto inbox nn.sym_key ms
      → AtText crypto inbox (opened (padded m.text) nn) env m.text ms
  unfolding opened
  at_text nn env m ms a full stream =
      let (left, o) =
        opened-unread m.text nn a.message.fits a.message.some_text a.len a.no_pos a.sizes.pt in
      record { is_open = o; whole = a.whole; complete = full; left = left; stream = stream }

  pub finish-AtCt :
      (nn : Netnacl) (env : Env W) (m : Msg) (ms : List Msg)
      → AtCt crypto inbox nn env m ms
      → AreMsgs ms
      → nn.ct_bytes_recvd ≡ hdr_len nn
      → HandsOut (m.text ++ texts ms) (finish socket crypto len flags nn env)
  unfolding finish open_and_deliver
  finish-AtCt nn env m ms a msgs full =
      let hdr : (nn.hdr_bytes_recvd == hdr_size) ≡ true = ground (arith, a.whole) in
      let ct : (nn.ct_bytes_recvd == hdr_len nn) ≡ true = ground (arith, full) in
      let closed : (nn.recv_pt_len == 0) ≡ true = ground (arith, a.no_text) in
      let body : length (crypto.afternm (padded m.text) m.nonce nn.sym_key) ≡ hdr_len nn =
        length-body crypto crypto_laws m.nonce m.text nn.sym_key a.message.fits ∙ sym a.len in
      let here : take (hdr_len nn) nn.recv_ct ++ inbox nn.sock_fd env.world
          ≡ crypto.afternm (padded m.text) m.nonce nn.sym_key ++ frames crypto inbox nn.sym_key ms =
        rw full at a.stream in
      let (sealed, stream) =
        same_pieces _ _ _ _
          (omega (
            arith,
            a.sizes.ct,
            body,
            a.len,
            length-take (hdr_len nn) nn.recv_ct,
            frame_len_le m a.message,
          ))
          here in
      let text : AtText crypto inbox (opened (padded m.text) nn) env m.text ms =
        at_text nn env m ms a full stream in
      rw
        (
          hdr,
          ct,
          closed,
          decrypt-opens crypto crypto_laws m.nonce m.text nn a.nonce sealed,
          deliver-AtText _ env m.text ms text,
        )
        (copied _ env m.text ms text msgs)

  -- A stop hands nothing out.
  pub stopped :
      (code : ℤ) (nn : Netnacl) (env : Env W) (text : List ℕ) (ms : List Msg) (left : List ℕ)
      → Stopped left code
      → (left ≡ [] → text ++ texts ms ≡ [])
      → Carries crypto inbox nn env text ms
      → AreMsgs ms
      → (next : Netnacl → Env W → Res (ℤ × List ℕ × Netnacl × Env W))
      → HandsOut (text ++ texts ms) (go_on socket crypto len flags next (code, nn, env))
  unfolding go_on exit_code
  stopped code nn env text ms left s last c msgs next = elim s [
    | inl e ↦ rw e (_, _, _, _, text, ms, refl, refl, c, msgs, inr (inl refl, refl))
    | inr (inl e) ↦ rw e (_, _, _, _, text, ms, refl, refl, c, msgs, inr (inr (inl refl), refl))
    | inr (inr (e, ended)) ↦
        rw e (_, _, _, _, text, ms, refl, refl, c, msgs, inr (inr (inr (refl, last ended)), refl))
  ]
