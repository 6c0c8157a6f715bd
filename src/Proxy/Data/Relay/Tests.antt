-- ===== src/Proxy/Data/Relay/Tests.antt =====
-- The relay of src/proxy.c between a plain client and an encrypted server.
use nacl_proxy.Base.{ℕ, refl, ap, true, some, pos, minus_one, List, [], ◌∷◌, replicate, write}
use nacl_proxy.Proxy.{Conn, State}
use nacl_proxy.Base.{suc, inl, inr, ◌≢◌, length-replicate, arith}
use nacl_proxy.Buf.{buf_size}
use nacl_proxy.Proxy.{server, other}
use nacl_proxy.Proxy.Data.{handle_recv, handle_send}
use nacl_proxy.Proxy.Data.Carried.{Surely, RelayLaws}
use nacl_proxy.Proxy.Data.Relay.{CarriedTo, Relays, handle_recv-Relays}
use nacl_proxy.Proxy.Data.Relay.Sent.{handle_send-Relays}
use nacl_proxy.Tests.Sockets.{outbox, inbox, few_sends, few_recvs, few_duplex, World, toy_laws}
use nacl_proxy.Netnacl.{Netnacl}
use nacl_proxy.Netnacl.Send.Frame.{IsIdle}
use nacl_proxy.Netnacl.Recv.Carries.{texts, frames, AreMsgs}
use nacl_proxy.Netnacl.Tests.{
  fresh, two_messages, both_frames, fresh-IsIdle, two_messages-AreMsgs, fresh_at-Carries,
}
use nacl_proxy.Proxy.{client}
use nacl_proxy.Proxy.Tests.{small, start, open_conn}

small-Relay : RelayLaws small outbox inbox
small-Relay = record {
  sends = few_sends;
  recvs = few_recvs;
  apart = record {
    send_inbox = λ fd other bytes flags w. few_duplex.send_keeps other bytes flags w;
    recv_outbox = λ fd other len flags w. few_duplex.recv_keeps other len flags w;
  };
  close_outbox = λ fd g env. refl;
  ciphers = toy_laws;
  nonce_size = λ env p. length-replicate {A = ℕ} 24 p;
}

-- a connection with a plain client and an encrypted server
abbrev context : Netnacl
context = record fresh { sock_fd = pos 4 }

abbrev sealed_conn : Conn
sealed_conn = record open_conn {
  server = record { sock_fd = pos 4; b_encrypted = true; netnacl = some context };
}

abbrev sealed : State ℕ World
sealed = record start { conns = write start.conns 0 (some sealed_conn); env = both_frames }

context-IsIdle : IsIdle context
context-IsIdle = record {
  none_sent = fresh-IsIdle.none_sent;
  none_left = fresh-IsIdle.none_left;
  size = fresh-IsIdle.size;
}

-- Two frames wait at the server; their texts go to the client.
abbrev to_client : List ℕ
to_client = texts two_messages

untouched : CarriedTo small outbox inbox small-Relay [] [] to_client client sealed_conn sealed.env
untouched = record {
  taken = [];
  rest = to_client;
  formed = (length-replicate {A = ℕ} buf_size 0, inl (refl, refl));
  out = inl (refl, refl);
  total = refl;
  unread = inr (
      inr (
        refl,
        (context, [], two_messages, refl, fresh_at-Carries (pos 4), two_messages-AreMsgs, refl),
      ));
}

four_not_gone : pos 4 ≢ minus_one
four_not_gone same = cc

handle_recv-Relays_example :
    Surely
      (Relays small outbox inbox small-Relay [] [] to_client client 0)
      (handle_recv small 0 (other client) sealed)
handle_recv-Relays_example =
    handle_recv-Relays small outbox inbox small-Relay [] [] to_client client 0 sealed_conn sealed
      refl four_not_gone untouched

-- two bytes that have come in from the client and have still to go out to the server, in a frame
abbrev incoming : List ℕ
incoming = 5 ∷ 6 ∷ []

abbrev loaded : Conn
loaded = record sealed_conn {
  server_send_buf = record { size = 2; read_pos = 0; contents = 8 ∷ 9 ∷ replicate 16346 0 };
}

abbrev half_way : State ℕ World
half_way = record start { conns = write start.conns 0 (some loaded) }

under_way :
    CarriedTo small outbox inbox small-Relay context.sym_key []
      (8 ∷ 9 ∷ incoming)
      server
      loaded
      half_way.env
unfolding texts frames AreMsgs
under_way = record {
  taken = [];
  rest = incoming;
  formed =
      (ap (λ n. suc (suc n)) (length-replicate {A = ℕ} 16346 0), inr (omega arith, omega arith));
  out = inr (refl, (context, [], refl, refl, refl, _, refl, inl (context-IsIdle, refl)));
  total = refl;
  unread = inr (inl (refl, refl));
}

handle_send-Relays_example :
    Surely
      (Relays small outbox inbox small-Relay context.sym_key [] (8 ∷ 9 ∷ incoming) server 0)
      (handle_send small 0 server half_way)
handle_send-Relays_example =
    handle_send-Relays small outbox inbox small-Relay context.sym_key [] (8 ∷ 9 ∷ incoming) server 0
      loaded half_way refl under_way
