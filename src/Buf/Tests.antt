-- ===== src/Buf/Tests.antt =====
-- src/buf.c over the socket and the cipher of Tests/Sockets.
use nacl_proxy.Base.{
  ℕ, refl, true, false, some, none, pos, List, [], ◌∷◌, replicate, length-replicate, arith,
}
use nacl_proxy.Sys.{Env}
use nacl_proxy.Netnacl.Recv.Carries.{texts}
use nacl_proxy.Netnacl.Tests.{
  fresh, two_messages, both_frames, quiet_env, hello, fresh-IsIdle, two_messages-AreMsgs,
  fresh-Carries,
}
use nacl_proxy.Buf.{Buf, Net, buf_size, buf_send, buf_recv}
use nacl_proxy.Buf.Send.{CanDrain, Drains, PlainSent, buf_send-plain}
use nacl_proxy.Buf.Sealed.{EncryptedSent, nothing, buf_send-encrypted}
use nacl_proxy.Base.{inl, ◌≡◌}
use nacl_proxy.Netnacl.{hdr_size, ct_size}
use nacl_proxy.Buf.Roundtrip.{IsWaiting, buf_recv-buf_send}
use nacl_proxy.Errors.{proxy_success}
use nacl_proxy.Sys.{ok}
use nacl_proxy.Buf.{send_loop, send_some, encrypted_send}
use nacl_proxy.Netnacl.Tests.{netnacl_send-hello}
use nacl_proxy.Buf.Recv.{Fills, PlainHolds, EncryptedHolds, buf_recv-plain, buf_recv-encrypted}
use nacl_proxy.Errors.{proxy_disconnect}
use nacl_proxy.Base.{◌<◌}
use nacl_proxy.Sys.{c_recv}
use nacl_proxy.Buf.{recv_loop, recv_turn, recv_some, plain_recv}
use nacl_proxy.Tests.Sockets.{
  closing, World, few, outbox, inbox, few_sends, few_recvs, toy, toy_laws,
}

abbrev plain : Net
plain = record { sock_fd = pos 5; b_encrypted = false; netnacl = none }

abbrev encrypted : Net
encrypted = record { sock_fd = pos 5; b_encrypted = true; netnacl = some fresh }

abbrev no_nonces : ℕ → List ℕ
no_nonces start = []

-- one of five bytes has gone out
abbrev partly_sent : Buf
partly_sent = record { size = 5; read_pos = 1; contents = hello }

abbrev one_out : Env World
one_out = record { errno = 0; world = record { incoming = []; outgoing = 104 ∷ [] } }

partly_sent-CanDrain : CanDrain partly_sent
partly_sent-CanDrain = record { started = omega arith; fits = omega arith; size = omega arith }

buf_send-plain_example :
    Drains few toy no_nonces 0 partly_sent
      (PlainSent few outbox few_sends toy no_nonces 0 partly_sent [])
      (buf_send few toy no_nonces 0 plain partly_sent one_out)
buf_send-plain_example =
    buf_send-plain few outbox few_sends toy no_nonces 0 partly_sent [] plain one_out
      partly_sent-CanDrain (refl, refl)

buf_recv-plain_example : Fills few toy 0 (PlainHolds few inbox few_recvs toy toy_laws 0) hello (
    buf_recv few toy 0 plain
      (record { size = 0; read_pos = 0; contents = replicate buf_size 0 })
      (quiet_env hello))
buf_recv-plain_example =
    buf_recv-plain few inbox few_recvs toy toy_laws 0 plain (replicate buf_size 0) (quiet_env hello)
      hello (length-replicate {A = ℕ} buf_size 0) (refl, refl)

buf_recv-encrypted_example :
    Fills few toy 0 (EncryptedHolds few inbox few_recvs toy toy_laws 0) (texts two_messages) (
      buf_recv few toy 0 encrypted
        (record { size = 0; read_pos = 0; contents = replicate buf_size 0 })
        both_frames)
buf_recv-encrypted_example =
    buf_recv-encrypted few inbox few_recvs toy toy_laws 0 encrypted (replicate buf_size 0)
      both_frames (texts two_messages) (length-replicate {A = ℕ} buf_size 0)
      (refl, (fresh, [], two_messages, refl, fresh-Carries, two_messages-AreMsgs, refl))

-- the nonce of a message is the position at which it begins
abbrev position_nonces : ℕ → List ℕ
position_nonces start = replicate 24 start

abbrev unsent_five : Buf
unsent_five = record { size = 5; read_pos = 0; contents = hello }

buf_send-encrypted_example :
    Drains few toy position_nonces 0 unsent_five
      (EncryptedSent few outbox few_sends toy toy_laws position_nonces 0
        (λ p. length-replicate {A = ℕ} 24 p)
        fresh.sym_key
        fresh.sock_fd
        unsent_five
        0
        [])
      (buf_send few toy position_nonces 0 encrypted unsent_five (quiet_env []))
buf_send-encrypted_example =
    buf_send-encrypted few outbox few_sends toy toy_laws position_nonces 0
      (λ p. length-replicate {A = ℕ} 24 p) fresh.sym_key fresh.sock_fd unsent_five 0 [] encrypted
      (quiet_env []) (record { started = omega arith; fits = omega arith; size = omega arith })
      (refl, (fresh, [], refl, refl, refl, nothing, inl (fresh-IsIdle, refl)))

buf_send-hello :
    (net : Net) × (buf : Buf) × (env : Env World) × (buf_send few toy position_nonces 0 encrypted
        unsent_five
        (quiet_env [])
      ≡ ok (proxy_success, net, buf, env))
unfolding buf_send send_loop send_some encrypted_send
buf_send-hello = let (nn, env, e) = netnacl_send-hello in rw e (_, _, _, refl)

fresh-IsWaiting : IsWaiting fresh
fresh-IsWaiting = record {
  sizes = record {
    hdr = length-replicate {A = ℕ} hdr_size 0;
    ct = length-replicate {A = ℕ} ct_size 0;
    pt = length-replicate {A = ℕ} ct_size 0;
  };
  no_hdr = refl;
  no_ct = refl;
  no_text = refl;
  no_pos = refl;
}

unsent_five-CanDrain : CanDrain unsent_five
unsent_five-CanDrain = record { started = omega arith; fits = omega arith; size = omega arith }

-- what `buf_send` puts on the wire here is on its way to another process
buf_recv-buf_send_example :
    Fills few toy 0 (EncryptedHolds few inbox few_recvs toy toy_laws 0) hello (
      buf_recv few toy 0 encrypted
        (record { size = 0; read_pos = 0; contents = replicate buf_size 0 })
        (quiet_env buf_send-hello.2.world.outgoing))
buf_recv-buf_send_example =
    buf_recv-buf_send few outbox few_sends few inbox few_recvs toy toy_laws position_nonces 0
      (λ p. length-replicate {A = ℕ} 24 p) fresh.sym_key fresh.sock_fd unsent_five [] encrypted
      (quiet_env []) buf_send-hello.0 buf_send-hello.1 buf_send-hello.2 unsent_five-CanDrain
      (refl, (fresh, [], refl, refl, refl, nothing, inl (fresh-IsIdle, refl))) buf_send-hello.3
      encrypted fresh (replicate buf_size 0) (quiet_env buf_send-hello.2.world.outgoing) refl refl
      refl fresh-IsWaiting refl (length-replicate {A = ℕ} buf_size 0)

-- two bytes and the end of the stream, in one call
pub buf_recv-closing :
    (net : Net) × (b : Buf) × (env : Env World) × (buf_recv closing toy 0
        (record plain { sock_fd = pos 7 })
        (record { size = 0; read_pos = 0; contents = replicate buf_size 0 })
        (quiet_env (5 ∷ 6 ∷ []))
      ≡ ok (proxy_disconnect, net, b, env))
    × (0 < b.size)
    × (net.sock_fd ≡ pos 7)
unfolding buf_recv recv_loop recv_turn recv_some plain_recv c_recv
buf_recv-closing = (_, _, _, refl, omega arith, refl)
