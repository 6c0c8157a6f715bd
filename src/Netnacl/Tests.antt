-- ===== src/Netnacl/Tests.antt =====
-- src/netnacl over the socket and the cipher of Tests/Sockets.
use nacl_proxy.Base.{
  ℕ, ℤ, ◌+◌, ◌-◌, ◌≡◌, refl, inl, pos, List, [], ◌∷◌, ◌++◌, length, replicate, length-replicate,
  arith,
}
use nacl_proxy.Sys.{
  ok, c_send, splice, store16, Env, overflow, Socket, received, sent, c_recv, load16,
}
use nacl_proxy.Netnacl.{Netnacl, hdr_size, ct_size}
use nacl_proxy.Netnacl.Send.{send_ciphertext, encrypt_plaintext, frame_len, padded, netnacl_send}
use nacl_proxy.Netnacl.Send.Conserves.{unsent, CanSend}
use nacl_proxy.Netnacl.Send.Frame.{frame, IsIdle, Delivers, netnacl_send-idle, netnacl_send-busy}
use nacl_proxy.Netnacl.Recv.{hdr_len, netnacl_recv}
use nacl_proxy.Netnacl.Recv.Carries.{Msg, AreMsgs, texts, frames, Carries}
use nacl_proxy.Netnacl.Recv.Delivers.{HandsOut}
use nacl_proxy.Netnacl.Recv.Message.{netnacl_recv-HandsOut}
use nacl_proxy.Netnacl.Recv.Overflow.{netnacl_recv-overflow}
use nacl_proxy.Netnacl.Wrap.{netnacl_wrap}
use nacl_proxy.Netnacl.Wrap.Agree.{Shaking, Ends, netnacl_wrap-Ends}
use nacl_proxy.Tests.Sockets.{
  World, few, outbox, inbox, few_sends, few_recvs, few_duplex, toy, toy_laws,
}

abbrev pub fresh : Netnacl
fresh = record {
  key_bytes_sent = 0;
  key_bytes_recvd = 0;
  hdr_bytes_recvd = 0;
  ct_bytes_recvd = 0;
  pk = replicate 32 0;
  sk = replicate 32 0;
  peer_pk = replicate 32 0;
  sym_key = replicate 32 0;
  recv_ct = replicate ct_size 0;
  recv_pt = replicate ct_size 0;
  recv_pt_pos = 0;
  recv_pt_len = 0;
  send_buf_len = 0;
  send_buf_pos = 0;
  sock_fd = pos 5;
  send_buf = replicate (hdr_size + ct_size) 0;
  recv_hdr = replicate hdr_size 0;
}

abbrev nonce : List ℕ
nonce = replicate 24 9

abbrev pub quiet_env : List ℕ → Env World
quiet_env bytes = record { errno = 0; world = record { incoming = bytes; outgoing = [] } }

abbrev pub two_messages : List Msg
two_messages =
    record { nonce = nonce; text = 104 ∷ 105 ∷ [] } ∷ record { nonce = nonce; text = 33 ∷ [] } ∷ []

pub two_messages-AreMsgs : AreMsgs two_messages
unfolding AreMsgs
two_messages-AreMsgs = (
  record { nonce_size = refl; some_text = omega arith; fits = omega arith },
  (record { nonce_size = refl; some_text = omega arith; fits = omega arith }, _),
)

abbrev pub both_frames : Env World
both_frames = quiet_env (frames toy inbox fresh.sym_key two_messages)

pub fresh_at-Carries :
    (fd : ℤ) → Carries toy inbox (record fresh { sock_fd = fd }) both_frames [] two_messages
fresh_at-Carries fd = inl (
  refl,
  record {
    sizes = record {
      hdr = length-replicate {A = ℕ} hdr_size 0;
      ct = length-replicate {A = ℕ} ct_size 0;
      pt = length-replicate {A = ℕ} ct_size 0;
    };
    part = omega arith;
    no_ct = refl;
    no_text = refl;
    no_pos = refl;
    stream = refl;
  },
)

pub fresh-Carries : Carries toy inbox fresh both_frames [] two_messages
fresh-Carries = fresh_at-Carries fresh.sock_fd

netnacl_recv-HandsOut_example :
    HandsOut few inbox few_recvs toy toy_laws 100 0
      (texts two_messages)
      (netnacl_recv few toy 100 0 fresh both_frames)
netnacl_recv-HandsOut_example =
    netnacl_recv-HandsOut few inbox few_recvs toy toy_laws 100 0 fresh both_frames [] two_messages
      fresh-Carries two_messages-AreMsgs

pub fresh-IsIdle : IsIdle fresh
fresh-IsIdle = record {
  none_sent = refl;
  none_left = refl;
  size = length-replicate {A = ℕ} (hdr_size + ct_size) 0;
}

abbrev pub hello : List ℕ
hello = 104 ∷ 101 ∷ 108 ∷ 108 ∷ 111 ∷ []

netnacl_send-idle_example :
    Delivers few outbox few_sends toy toy_laws nonce hello refl 0 fresh
      (quiet_env [])
      (frame toy fresh.sym_key nonce hello)
      (netnacl_send few toy nonce hello 0 fresh (quiet_env []))
netnacl_send-idle_example =
    netnacl_send-idle few outbox few_sends toy toy_laws nonce hello refl 0 fresh (quiet_env [])
      fresh-IsIdle

-- the whole frame of a short message goes out
pub netnacl_send-hello :
    (nn : Netnacl) × (env : Env World) × (netnacl_send few toy
        (replicate 24 0)
        hello
        0
        fresh
        (quiet_env [])
      ≡ ok (pos 5, nn, env))
unfolding netnacl_send send_ciphertext encrypt_plaintext frame_len c_send splice store16 padded
netnacl_send-hello = (_, _, refl)

abbrev busy : Netnacl
busy = record fresh { send_buf_len = 60; send_buf_pos = 20 }

busy-CanSend : CanSend busy
busy-CanSend = record {
  started = omega arith;
  fits = omega (arith, length-replicate {A = ℕ} (hdr_size + ct_size) 0);
  size = omega (arith, length-replicate {A = ℕ} (hdr_size + ct_size) 0);
}

netnacl_send-busy_example :
    Delivers few outbox few_sends toy toy_laws nonce hello refl 0 busy
      (quiet_env [])
      (unsent busy)
      (netnacl_send few toy nonce hello 0 busy (quiet_env []))
netnacl_send-busy_example =
    netnacl_send-busy few outbox few_sends toy toy_laws nonce hello refl 0 busy (quiet_env [])
      busy-CanSend (omega arith)

abbrev pub peer_key : List ℕ
peer_key = 6 ∷ replicate 31 0

fresh-Shaking :
    Shaking toy outbox inbox [] (peer_key ++ hello) fresh (quiet_env (peer_key ++ hello))
fresh-Shaking = record {
  sent = omega arith;
  recvd = omega arith;
  peer_size = refl;
  pair = λ h. absurd (omega arith);
  out = refl;
  inn = refl;
}

netnacl_wrap-Ends_example :
    Ends few outbox inbox few_sends few_recvs few_duplex toy toy_laws []
      (peer_key ++ hello)
      (netnacl_wrap few toy (4 ∷ []) fresh (quiet_env (peer_key ++ hello)))
netnacl_wrap-Ends_example =
    netnacl_wrap-Ends few outbox inbox few_sends few_recvs few_duplex toy toy_laws []
      (peer_key ++ hello) (4 ∷ []) fresh (quiet_env (peer_key ++ hello)) fresh-Shaking

-- A socket that yields as much as is asked for.
abbrev generous : Socket World
generous = record {
  send = λ fd bytes flags w. (sent (length bytes), w);
  recv = λ fd len flags w. (received (replicate len 0), w);
}

-- a header that announces 4352 bytes
abbrev announced : Netnacl
announced = record fresh { hdr_bytes_recvd = hdr_size; recv_hdr = 0 ∷ 17 ∷ replicate 24 0 }

abbrev long_body : List ℕ
long_body = replicate (hdr_len announced - 0) 0

announced_len : hdr_len announced ≡ 4352
unfolding load16
announced_len = refl

all_yielded :
    c_recv generous (pos 5) (hdr_len announced - 0) 0 (quiet_env [])
    ≡ (pos (length long_body), long_body, quiet_env [])
unfolding c_recv
all_yielded = refl

netnacl_recv-overflow_example : netnacl_recv generous toy 100 0 announced (quiet_env []) ≡ overflow
netnacl_recv-overflow_example =
    netnacl_recv-overflow generous toy 100 0 announced (quiet_env []) (quiet_env []) long_body refl
      (omega (arith, announced_len)) (omega (arith, announced_len)) all_yielded
      (length-replicate {A = ℕ} (hdr_len announced - 0) 0)
