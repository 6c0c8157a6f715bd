-- ===== src/Netnacl/Send/Conserves.antt =====
-- `send_ciphertext`: the bytes of a frame that have gone out and those that are left.
use Prim.Native.Nat.{min}
use nacl_proxy.Base.{
  ℕ, zero, suc, ◌+◌, ◌-◌, ◌%◌, ◌^◌, ◌≤◌, ◌<◌, ◌≡◌, ◌∙◌, refl, ◌⊎◌, inl, inr, true, ℤ, pos, List,
  ◌++◌, length, take, drop, drop-take, length-take, length-drop, length-replicate, replicate,
  drop-drop, take-append-drop, append_assoc, ltb, if◌then◌else◌, Bool-cases, arith,
}
use nacl_proxy.Errors.{nn_want_write, nn_err}
use nacl_proxy.Sys.{Socket, Env, Res, ok, splice, blocked}
use nacl_proxy.Sys.Laws.{SendLaws, c_send-Took, length-splice}
use nacl_proxy.Netnacl.{Netnacl, max_message_len, hdr_size, ct_size}
use nacl_proxy.Netnacl.Send.{send_loop, send_ciphertext, sent_all}

-- the bytes of the send buffer that are still to go out
abbrev pub unsent : Netnacl → List ℕ
unsent nn = take (nn.send_buf_len - nn.send_buf_pos) (drop nn.send_buf_pos nn.send_buf)

pub record CanSend (nn : Netnacl) : Type 0 where
  pub started : nn.send_buf_pos ≤ nn.send_buf_len
  pub fits : nn.send_buf_len ≤ length nn.send_buf
  pub size : length nn.send_buf ≡ hdr_size + ct_size

-- What a call of the loop does.
pub record Sends {W : Type 0} (outbox : ℤ → W → List ℕ) (len : ℕ) (nn : Netnacl) (env : Env W)
    (code : ℤ) (nn' : Netnacl) (env' : Env W) : Type 0 where
  pub conserved :
      outbox nn.sock_fd env'.world ++ unsent nn' ≡ outbox nn.sock_fd env.world ++ unsent nn
  pub still : CanSend nn'
  pub same_fd : nn'.sock_fd ≡ nn.sock_fd
  pub same_key : nn'.sym_key ≡ nn.sym_key
  pub outcome :
      (code ≡ pos (min len max_message_len)) × (nn'.send_buf_len ≡ 0) × (nn'.send_buf_pos ≡ 0)
      ⊎ (code ≡ (if blocked env'.errno then nn_want_write else nn_err))
        × (nn'.send_buf_pos < nn'.send_buf_len)

module _ {W : Type 0} (socket : Socket W) (outbox : ℤ → W → List ℕ) (laws : SendLaws socket outbox)
    (len flags : ℕ) where
  abbrev pub SentBy : Netnacl → Env W → Res (ℤ × Netnacl × Env W) → Type 0
  SentBy nn env r =
      (code : ℤ) × (nn' : Netnacl) × (env' : Env W) × (r ≡ ok (code, nn', env'))
      × Sends outbox len nn env code nn' env'

  abbrev advance : Netnacl → ℕ → Netnacl
  advance nn n = record nn { send_buf_pos = (nn.send_buf_pos + n % 2 ^ 16) % 2 ^ 16 }

  length-unsent :
      (nn : Netnacl) → CanSend nn → length (unsent nn) ≡ nn.send_buf_len - nn.send_buf_pos
  length-unsent nn c = omega (
    arith,
    length-take (nn.send_buf_len - nn.send_buf_pos) (drop nn.send_buf_pos nn.send_buf),
    length-drop nn.send_buf_pos nn.send_buf,
  )

  -- the position, and the bytes left, after `n` have gone out
  pos-advance :
      (nn : Netnacl) (n : ℕ)
      → CanSend nn
      → n ≤ length (unsent nn)
      → (nn.send_buf_pos + n % 2 ^ 16) % 2 ^ 16 ≡ nn.send_buf_pos + n
  pos-advance nn n c h = omega (arith, length-unsent nn c)

  unsent-advance :
      (nn : Netnacl) (n : ℕ)
      → CanSend nn
      → n ≤ length (unsent nn)
      → unsent (advance nn n) ≡ drop n (unsent nn)
  unsent-advance nn n c h =
      let e : nn.send_buf_len - (nn.send_buf_pos + n) ≡ nn.send_buf_len - nn.send_buf_pos - n =
        omega arith in
      rw (pos-advance nn n c h, drop-take, drop-drop, e)

  CanSend-advance :
      (nn : Netnacl) (n : ℕ) → CanSend nn → n ≤ length (unsent nn) → CanSend (advance nn n)
  CanSend-advance nn n c h = record {
    started = omega (arith, length-unsent nn c);
    fits = c.fits;
    size = c.size;
  }

  abbrev Later : ℕ → Netnacl → Type 0
  Later fuel nn =
      (n : ℕ) (env : Env W)
      → CanSend (advance nn n)
      → 0 < n
      → n ≤ length (unsent nn)
      → SentBy (advance nn n) env (send_loop socket len flags fuel (advance nn n) env)

  -- what the later turns of the loop do is done by the whole loop
  Sends-advance :
      (nn nn' : Netnacl) (n : ℕ) (env env' env'' : Env W) (code : ℤ)
      → CanSend nn
      → n ≤ length (unsent nn)
      → outbox nn.sock_fd env'.world ≡ outbox nn.sock_fd env.world ++ take n (unsent nn)
      → Sends outbox len (advance nn n) env' code nn' env''
      → Sends outbox len nn env code nn' env''
  Sends-advance nn nn' n env env' env'' code c le out d = record {
    conserved =
        d.conserved
        ∙ rw (out, unsent-advance nn n c le, append_assoc, take-append-drop n (unsent nn)) refl;
    still = d.still;
    same_fd = d.same_fd;
    same_key = d.same_key;
    outcome = d.outcome;
  }

  -- one turn of the loop, given what the later turns do
  turn-Sends :
      (fuel : ℕ) (nn : Netnacl) (env : Env W)
      → CanSend nn
      → ltb nn.send_buf_pos nn.send_buf_len ≡ true
      → Later fuel nn
      → SentBy nn env (send_loop socket len flags (suc fuel) nn env)
  unfolding send_loop
  turn-Sends fuel nn env c more later =
      elim (c_send-Took socket outbox laws nn.sock_fd (unsent nn) flags env) [
        | inl (n, w, e, le, progress, out) ↦
            let positive : 0 < length (unsent nn) = ground (arith, length-unsent nn c) in
            let (code, nn', env', ran, d) =
              later n (record env { world = w }) (CanSend-advance nn n c le) (progress positive)
                le in
            (
              code,
              nn',
              env',
              rw (more, e) ran,
              Sends-advance nn nn' n env (record env { world = w }) env' code c le out d,
            )
        | inr (errno, w, e, out) ↦
            rw (more, e)
              (
                _,
                _,
                _,
                refl,
                record {
                  conserved = rw out;
                  still = c;
                  same_fd = refl;
                  same_key = refl;
                  outcome = inr (refl, ground arith);
                },
              )
      ]

  -- The loop ends, and conserves the bytes.
  send_loop-Sends :
      (fuel : ℕ) (nn : Netnacl) (env : Env W)
      → CanSend nn
      → nn.send_buf_len - nn.send_buf_pos < fuel
      → SentBy nn env (send_loop socket len flags fuel nn env)
  unfolding send_loop sent_all
  send_loop-Sends zero nn env c h = absurd (omega arith)
  send_loop-Sends (suc fuel) nn env c h = elim (Bool-cases (ltb nn.send_buf_pos nn.send_buf_len)) [
    | inl more ↦ turn-Sends fuel nn env c more λ n env' c' p le.
        send_loop-Sends fuel (advance nn n) env' c' (ground (arith, pos-advance nn n c le))
    | inr done ↦
        let none_left : nn.send_buf_len - nn.send_buf_pos ≡ 0 = ground arith in
        rw done (
          _,
          _,
          _,
          refl,
          record {
            conserved = rw none_left;
            still = record {
              started = omega arith;
              fits = omega arith;
              size = omega (arith, c.size, cleared);
            };
            same_fd = refl;
            same_key = refl;
            outcome = inl (refl, refl, refl);
          },
        )
  ]
    where
      cleared : length (splice nn.send_buf 0 (replicate nn.send_buf_len 0)) ≡ length nn.send_buf
      cleared =
          length-splice nn.send_buf 0 (replicate nn.send_buf_len 0)
            (omega (arith, c.fits, length-replicate {A = ℕ} nn.send_buf_len 0))

  pub send_ciphertext-Sends :
      (nn : Netnacl) (env : Env W)
      → CanSend nn
      → SentBy nn env (send_ciphertext socket len flags nn env)
  unfolding send_ciphertext
  send_ciphertext-Sends nn env c = send_loop-Sends _ nn env c (omega arith)
