-- ===== src/Netnacl/Wrap/Tests.antt =====
-- The handshake over a socket that blocks after every call, until a wait, and over one that does not.
use Prim.Native.Nat.{min}
use nacl_proxy.Base.{
  ℕ, ◌≤◌, ◌<◌, ◌≡◌, ◌∙◌, refl, sym, ap, ap₂, true, false, Bool, ℤ, List, [], ◌∷◌, ◌++◌, length,
  take, drop, length-take, take-append-drop, arith,
}
use nacl_proxy.Sys.{
  Socket, Env, Sent, Recvd, sent, send_failed, received, recv_failed, eagain, blocked, Env, ok,
  c_send, c_recv, splice,
}
use nacl_proxy.Errors.{nn_success}
use nacl_proxy.Netnacl.{Netnacl}
use nacl_proxy.Sys.Laws.{SendLaws, RecvLaws, DuplexLaws}
use nacl_proxy.Netnacl.Tests.{fresh, peer_key, quiet_env, hello}
use nacl_proxy.Netnacl.Wrap.Agree.{Shaking, shared_keys}
use nacl_proxy.Netnacl.Wrap.Moves.{SteadyLaws}
use nacl_proxy.Netnacl.Wrap.Live.{
  Wanted, input, output, WaitLaws, handshake, Succeeds, handshake-Succeeds,
}
use nacl_proxy.Netnacl.Wrap.{
  netnacl_wrap, with_keypair, send_key, send_key_loop, send_key_turn, recv_key, recv_key_loop,
  recv_key_turn, unless_stopped, derive,
}
use nacl_proxy.Tests.Sockets.{
  World, few, outbox, inbox, few_sends, few_recvs, few_duplex, toy, toy_laws,
}

record Slow : Type 0 where
  incoming : List ℕ
  outgoing : List ℕ
  may_send : Bool
  may_recv : Bool

abbrev slow_send : Bool → List ℕ → Slow → Sent × Slow
slow_send false bytes w = (send_failed eagain, w)
slow_send true bytes w = (
  sent (min (length bytes) 10),
  record w { outgoing = w.outgoing ++ take (min (length bytes) 10) bytes; may_send = false },
)

abbrev slow_recv : Bool → List ℕ → ℕ → Slow → Recvd × Slow
slow_recv false bytes len w = (recv_failed eagain, w)
slow_recv true [] len w = (received [], w)
slow_recv true (b ∷ bs) len w = (
  received (take (min len 10) (b ∷ bs)),
  record w { incoming = drop (min len 10) (b ∷ bs); may_recv = false },
)

-- At most 10 bytes are taken or yielded, and then the socket blocks.
abbrev slow : Socket Slow
slow = record {
  send = λ fd bytes flags w. slow_send w.may_send bytes w;
  recv = λ fd len flags w. slow_recv w.may_recv w.incoming len w;
}

abbrev wait : Wanted → ℤ → Slow → Slow
wait input fd w = record w { may_recv = true }
wait output fd w = record w { may_send = true }

abbrev out : ℤ → Slow → List ℕ
out fd w = w.outgoing

abbrev inn : ℤ → Slow → List ℕ
inn fd w = w.incoming

abbrev count : Sent → ℕ
count (sent n) = n
count (send_failed e) = 0

abbrev errno_of : Sent → ℕ
errno_of (sent n) = eagain
errno_of (send_failed e) = e

abbrev is_sent : Sent → Bool
is_sent (sent n) = true
is_sent (send_failed e) = false

abbrev bytes_of : Recvd → List ℕ
bytes_of (received bytes) = bytes
bytes_of (recv_failed e) = []

abbrev is_received : Recvd → Bool
is_received (received bytes) = true
is_received (recv_failed e) = false

abbrev refusal : Recvd → ℕ
refusal (received bytes) = eagain
refusal (recv_failed e) = e

slow_send-takes :
    (may : Bool) (bytes : List ℕ) (n : ℕ) (w w' : Slow)
    → slow_send may bytes w ≡ (sent n, w')
    → (n ≡ min (length bytes) 10) × (w'.outgoing ≡ w.outgoing ++ take n bytes)
slow_send-takes false bytes n w w' e =
    let clash : false ≡ true = ap (λ p. is_sent p.0) e in absurd (ground (arith, clash))
slow_send-takes true bytes n w w' e =
    let n_is : min (length bytes) 10 ≡ n = ap (λ p. count p.0) e in
    (sym n_is, sym (ap (λ p. p.1.outgoing) e) ∙ ap (λ k. w.outgoing ++ take k bytes) n_is)

slow_send-blocks :
    (may : Bool) (bytes : List ℕ) (n : ℕ) (w w' : Slow)
    → slow_send may bytes w ≡ (send_failed n, w')
    → (n ≡ eagain) × (w'.outgoing ≡ w.outgoing)
slow_send-blocks false bytes n w w' e =
    (sym (ap (λ p. errno_of p.0) e), sym (ap (λ p. p.1.outgoing) e))
slow_send-blocks true bytes n w w' e =
    let clash : true ≡ false = ap (λ p. is_sent p.0) e in absurd (ground (arith, clash))

slow_send-keeps :
    (may : Bool) (bytes : List ℕ) (w : Slow) → (slow_send may bytes w).1.incoming ≡ w.incoming
slow_send-keeps false bytes w = refl
slow_send-keeps true bytes w = refl

slow_recv-yields :
    (may : Bool) (xs : List ℕ) (len : ℕ) (bytes : List ℕ) (w w' : Slow)
    → w.incoming ≡ xs
    → slow_recv may xs len w ≡ (received bytes, w')
    → (length bytes ≤ len) × (xs ≡ bytes ++ w'.incoming)
slow_recv-yields false xs len bytes w w' i e =
    let clash : false ≡ true = ap (λ p. is_received p.0) e in absurd (ground (arith, clash))
slow_recv-yields true [] len bytes w w' i e =
    let is : [] ≡ bytes = ap (λ p. bytes_of p.0) e in
    (rw (← is) (omega arith), sym i ∙ ap₂ ◌++◌ is (ap (λ p. p.1.incoming) e))
slow_recv-yields true (b ∷ bs) len bytes w w' i e =
    let is : take (min len 10) (b ∷ bs) ≡ bytes = ap (λ p. bytes_of p.0) e in
    (
      rw (← is) (omega (arith, length-take (min len 10) (b ∷ bs))),
      sym (take-append-drop (min len 10) (b ∷ bs)) ∙ ap₂ ◌++◌ is (ap (λ p. p.1.incoming) e),
    )

slow_recv-blocks :
    (may : Bool) (xs : List ℕ) (len n : ℕ) (w w' : Slow)
    → slow_recv may xs len w ≡ (recv_failed n, w')
    → (n ≡ eagain) × (w'.incoming ≡ w.incoming)
slow_recv-blocks false xs len n w w' e =
    (sym (ap (λ p. refusal p.0) e), sym (ap (λ p. p.1.incoming) e))
slow_recv-blocks true [] len n w w' e =
    let clash : true ≡ false = ap (λ p. is_received p.0) e in absurd (ground (arith, clash))
slow_recv-blocks true (b ∷ bs) len n w w' e =
    let clash : true ≡ false = ap (λ p. is_received p.0) e in absurd (ground (arith, clash))

slow_recv-keeps :
    (may : Bool) (xs : List ℕ) (len : ℕ) (w : Slow)
    → (slow_recv may xs len w).1.outgoing ≡ w.outgoing
slow_recv-keeps false xs len w = refl
slow_recv-keeps true [] len w = refl
slow_recv-keeps true (b ∷ bs) len w = refl

-- nothing comes only where nothing is left
slow_recv-ends :
    (may : Bool) (xs : List ℕ) (len : ℕ) (w w' : Slow)
    → slow_recv may xs len w ≡ (received [], w')
    → 0 < len
    → length xs ≡ 0
slow_recv-ends false xs len w w' e some =
    let clash : false ≡ true = ap (λ p. is_received p.0) e in absurd (ground (arith, clash))
slow_recv-ends true [] len w w' e some = refl
slow_recv-ends true (b ∷ bs) len w w' e some =
    let none_there : length (take (min len 10) (b ∷ bs)) ≡ 0 = ap (λ p. length (bytes_of p.0)) e in
    absurd (omega (arith, none_there, length-take (min len 10) (b ∷ bs)))

slow_sends : SendLaws slow out
slow_sends = record {
  sends = λ fd bytes flags n w w' e.
      let (is, took) = slow_send-takes w.may_send bytes n w w' e in (omega (arith, is), took);
  progress =
      λ fd bytes flags n w w' e some. omega (arith, (slow_send-takes w.may_send bytes n w w' e).0);
  keeps = λ fd bytes flags n w w' e. (slow_send-blocks w.may_send bytes n w w' e).1;
}

empty_after :
    (xs : List ℕ) (len : ℕ) (w w' : Slow)
    → w.incoming ≡ xs
    → xs ≡ [] ++ w'.incoming
    → length xs ≡ 0
    → w'.incoming ≡ []
empty_after [] len w w' i e none_there = sym e
empty_after (b ∷ bs) len w w' i e none_there = absurd (omega (arith, none_there))

slow_recvs : RecvLaws slow inn
slow_recvs = record {
  recvs = λ fd len flags bytes w w' e. slow_recv-yields w.may_recv w.incoming len bytes w w' refl e;
  keeps = λ fd len flags n w w' e. sym (slow_recv-blocks w.may_recv w.incoming len n w w' e).1;
  ends = λ fd len flags w w' e more.
      empty_after w.incoming len w w' refl
        (slow_recv-yields w.may_recv w.incoming len [] w w' refl e).1
        (slow_recv-ends w.may_recv w.incoming len w w' e more);
}

slow_duplex : DuplexLaws slow out inn
slow_duplex = record {
  send_keeps = λ fd bytes flags w. slow_send-keeps w.may_send bytes w;
  recv_keeps = λ fd len flags w. slow_recv-keeps w.may_recv w.incoming len w;
}

eagain_blocks : (n : ℕ) → n ≡ eagain → blocked n ≡ true
eagain_blocks n e = rw e refl

slow_steady : SteadyLaws slow inn
slow_steady = record {
  send_blocks =
      λ fd bytes flags e w w' r. eagain_blocks e (slow_send-blocks w.may_send bytes e w w' r).0;
  recv_blocks = λ fd len flags e w w' r.
      eagain_blocks e (slow_recv-blocks w.may_recv w.incoming len e w w' r).0;
  recv_ends = λ fd len flags w w' r some. slow_recv-ends w.may_recv w.incoming len w w' r some;
}

gives_something :
    (xs : List ℕ) (len : ℕ) (w : Slow)
    → (bytes : List ℕ) × (w' : Slow) × (slow_recv true xs len w ≡ (received bytes, w'))
gives_something [] len w = (_, _, refl)
gives_something (b ∷ bs) len w = (_, _, refl)

wait_keeps : (want : Wanted) (fd : ℤ) (w : Slow) → out fd (wait want fd w) ≡ out fd w
wait_keeps input fd w = refl
wait_keeps output fd w = refl

wait_keeps_in : (want : Wanted) (fd : ℤ) (w : Slow) → inn fd (wait want fd w) ≡ inn fd w
wait_keeps_in input fd w = refl
wait_keeps_in output fd w = refl

slow_waits : WaitLaws slow out inn wait
slow_waits = record {
  keeps_out = wait_keeps;
  keeps_in = wait_keeps_in;
  takes = λ fd w bytes flags some. (_, _, refl);
  gives = λ fd w len flags some more. gives_something w.incoming len (wait input fd w);
}

abbrev greeting : List ℕ
greeting = peer_key ++ 104 ∷ 105 ∷ []

-- nothing has gone out or come in, and the socket would block
abbrev stuck : Env Slow
stuck = record {
  errno = 0;
  world = record { incoming = greeting; outgoing = []; may_send = false; may_recv = false };
}

fresh-stuck : Shaking toy out inn [] greeting fresh stuck
fresh-stuck = record {
  sent = omega arith;
  recvd = omega arith;
  peer_size = refl;
  pair = λ h. absurd (omega arith);
  out = refl;
  inn = refl;
}

greeting_enough : 32 ≤ length greeting
greeting_enough = omega arith

handshake-Succeeds_example :
    Succeeds toy out inn [] greeting (handshake slow toy wait (λ env. 4 ∷ []) 64 output fresh stuck)
handshake-Succeeds_example =
    handshake-Succeeds slow out inn slow_sends slow_recvs slow_duplex slow_steady toy toy_laws []
      greeting greeting_enough wait slow_waits (λ env. 4 ∷ []) 64 output fresh stuck fresh-stuck
      (omega arith) (omega arith)

abbrev meets : ℕ → Env World
meets other = quiet_env (toy.public_key (other ∷ []) ++ hello)

meets-Shaking :
    (other : ℕ)
    → Shaking toy outbox inbox [] (toy.public_key (other ∷ []) ++ hello) fresh (meets other)
meets-Shaking other = record {
  sent = omega arith;
  recvd = omega arith;
  peer_size = refl;
  pair = λ h. absurd (omega arith);
  out = refl;
  inn = refl;
}

-- one call exchanges the keys
meeting :
    (own other : ℕ)
    → (nn : Netnacl) × (env : Env World) × (netnacl_wrap few toy (own ∷ []) fresh (meets other)
        ≡ ok (nn_success, nn, env))
      × (outbox nn.sock_fd env.world ≡ [] ++ toy.public_key (own ∷ []))
unfolding netnacl_wrap with_keypair send_key send_key_loop send_key_turn recv_key recv_key_loop
    recv_key_turn unless_stopped derive c_send c_recv splice
meeting own other = (_, _, refl, refl)

shared_keys_example :
    ((meeting 4 6).0.sym_key ≡ (meeting 6 4).0.sym_key)
    × ((meeting 4 6).0.sym_key
        ≡ toy.beforenm (toy.public_key (meeting 6 4).0.sk) (meeting 4 6).0.sk)
shared_keys_example =
    shared_keys few outbox inbox few_sends few_recvs few_duplex toy toy_laws (4 ∷ []) (6 ∷ []) fresh
      fresh (meeting 4 6).0 (meeting 6 4).0 (meets 6) (meets 4) (meeting 4 6).1 (meeting 6 4).1 []
      [] (toy.public_key (4 ∷ [])) (toy.public_key (6 ∷ [])) hello hello (meets-Shaking 6)
      (meets-Shaking 4) (meeting 4 6).2 (meeting 6 4).2 (meeting 4 6).3 (meeting 6 4).3
