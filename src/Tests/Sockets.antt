-- ===== src/Tests/Sockets.antt =====
-- A socket of two byte lists, which takes and yields a few bytes at a call, and a cipher.
use Prim.Native.Nat.{min}
use nacl_proxy.Base.{
  ℕ, zero, suc, ◌+◌, ◌≤◌, ◌<◌, ◌≡◌, ◌∙◌, refl, sym, ap, ap₂, true, false, Bool, some, ℤ, minus_one,
  int_eq, if◌then◌else◌, List, [], ◌∷◌, ◌++◌, length, take, drop, replicate, length-take,
  take-append-drop, arith,
}
use nacl_proxy.Sys.{Socket, Sent, Recvd, sent, send_failed, received, recv_failed, eagain}
use nacl_proxy.Sys.Laws.{SendLaws, RecvLaws, DuplexLaws}
use nacl_proxy.Netnacl.{Crypto, zero_bytes}
use nacl_proxy.Netnacl.Laws.{CryptoLaws}

pub record World : Type 0 where
  pub incoming : List ℕ
  pub outgoing : List ℕ

abbrev pub recv_few : List ℕ → ℕ → World → Recvd × World
recv_few [] len w = (recv_failed eagain, w)
recv_few (b ∷ bs) len w =
    (received (take (min len 40) (b ∷ bs)), record w { incoming = drop (min len 40) (b ∷ bs) })

-- At most 30 bytes are taken and at most 40 are yielded at a call; with nothing to yield a call fails.
abbrev pub few : Socket World
few = record {
  send = λ fd bytes flags w. (
    sent (min (length bytes) 30),
    record w { outgoing = w.outgoing ++ take (min (length bytes) 30) bytes },
  );
  recv = λ fd len flags w. recv_few w.incoming len w;
}

abbrev pub outbox : ℤ → World → List ℕ
outbox fd w = w.outgoing

abbrev pub inbox : ℤ → World → List ℕ
inbox fd w = w.incoming

count : Sent → ℕ
count (sent n) = n
count (send_failed e) = 0

has_failed : Sent → Bool
has_failed (sent n) = false
has_failed (send_failed e) = true

taken : Recvd → List ℕ
taken (received bytes) = bytes
taken (recv_failed e) = []

was_refused : Recvd → Bool
was_refused (received bytes) = false
was_refused (recv_failed e) = true

pub few_sends : SendLaws few outbox
unfolding count has_failed
few_sends = record {
  sends = λ fd bytes flags n w w' e.
      let n_is : min (length bytes) 30 ≡ n = ap (λ p. count p.0) e in
      (
        omega (arith, n_is),
        sym (ap (λ p. p.1.outgoing) e) ∙ ap (λ k. w.outgoing ++ take k bytes) n_is,
      );
  progress = λ fd bytes flags n w w' e some.
      let n_is : min (length bytes) 30 ≡ n = ap (λ p. count p.0) e in omega (arith, n_is);
  keeps = λ fd bytes flags n w w' e.
      let clash : false ≡ true = ap (λ p. has_failed p.0) e in absurd (ground (arith, clash));
}

recv_few-takes :
    (xs : List ℕ) (len : ℕ) (bytes : List ℕ) (w w' : World)
    → w.incoming ≡ xs
    → recv_few xs len w ≡ (received bytes, w')
    → (length bytes ≤ len) × (xs ≡ bytes ++ w'.incoming)
unfolding was_refused taken
recv_few-takes [] len bytes w w' i e =
    let clash : true ≡ false = ap (λ p. was_refused p.0) e in absurd (ground (arith, clash))
recv_few-takes (b ∷ bs) len bytes w w' i e =
    let is : take (min len 40) (b ∷ bs) ≡ bytes = ap (λ p. taken p.0) e in
    (
      rw (← is) (omega (arith, length-take (min len 40) (b ∷ bs))),
      sym (take-append-drop (min len 40) (b ∷ bs)) ∙ ap₂ ◌++◌ is (ap (λ p. p.1.incoming) e),
    )

recv_few-refuses :
    (xs : List ℕ) (len n : ℕ) (w w' : World)
    → w.incoming ≡ xs
    → recv_few xs len w ≡ (recv_failed n, w')
    → xs ≡ w'.incoming
unfolding was_refused
recv_few-refuses [] len n w w' i e = sym i ∙ ap (λ p. p.1.incoming) e
recv_few-refuses (b ∷ bs) len n w w' i e =
    let clash : false ≡ true = ap (λ p. was_refused p.0) e in absurd (ground (arith, clash))

recv_few-ends :
    (xs : List ℕ) (len : ℕ) (w w' : World)
    → recv_few xs len w ≡ (received [], w')
    → 0 < len
    → w'.incoming ≡ []
unfolding was_refused taken
recv_few-ends [] len w w' e more =
    let clash : true ≡ false = ap (λ p. was_refused p.0) e in absurd (ground (arith, clash))
recv_few-ends (b ∷ bs) len w w' e more =
    let none_there : length (take (min len 40) (b ∷ bs)) ≡ 0 = ap (λ p. length (taken p.0)) e in
    absurd (omega (arith, none_there, more, length-take (min len 40) (b ∷ bs)))

pub few_recvs : RecvLaws few inbox
few_recvs = record {
  recvs = λ fd len flags bytes w w' e. recv_few-takes w.incoming len bytes w w' refl e;
  keeps = λ fd len flags n w w' e. recv_few-refuses w.incoming len n w w' refl e;
  ends = λ fd len flags w w' e more. recv_few-ends w.incoming len w w' e more;
}

recv_few-keeps : (xs : List ℕ) (len : ℕ) (w : World) → (recv_few xs len w).1.outgoing ≡ w.outgoing
recv_few-keeps [] len w = refl
recv_few-keeps (b ∷ bs) len w = refl

pub few_duplex : DuplexLaws few outbox inbox
few_duplex = record {
  send_keeps = λ fd bytes flags w. refl;
  recv_keeps = λ fd len flags w. recv_few-keeps w.incoming len w;
}

abbrev pub first : List ℕ → ℕ
first [] = 0
first (b ∷ bs) = b

abbrev pub up : List ℕ → List ℕ
up [] = []
up (b ∷ bs) = suc b ∷ up bs

abbrev pub pred : ℕ → ℕ
pred zero = zero
pred (suc n) = n

abbrev pub down : List ℕ → List ℕ
down [] = []
down (b ∷ bs) = pred b ∷ down bs

down-up : (m : List ℕ) → down (up m) ≡ m
down-up [] = refl
down-up (b ∷ bs) = ap (λ t. b ∷ t) (down-up bs)

length-up : (m : List ℕ) → length (up m) ≡ length m
length-up [] = refl
length-up (b ∷ bs) = ap suc (length-up bs)

-- A cipher that adds 1 to every byte, and keys that add up.
abbrev pub toy : Crypto
toy = record {
  public_key = λ secret. first secret ∷ replicate 31 0;
  beforenm = λ public secret. replicate 32 (first public + first secret);
  afternm = λ m nonce key. up m;
  open_afternm = λ c nonce key. some (down c);
}

pub toy_laws : CryptoLaws toy
toy_laws = record {
  length_kept = λ m nonce key. length-up (replicate zero_bytes 0 ++ m);
  opens = λ m nonce key. ap some (down-up (replicate zero_bytes 0 ++ m));
  key_size = λ secret. refl;
  agree = λ a b. ap (λ k. replicate {A = ℕ} 32 k) (omega arith);
}

-- after the bytes that are there `recv` finds the end of the stream
abbrev pub recv_last : List ℕ → ℕ → World → Recvd × World
recv_last [] len w = (received [], w)
recv_last (b ∷ bs) len w = recv_few (b ∷ bs) len w

-- A socket whose peer has closed its direction; `send` on -1 fails with EBADF.
abbrev pub closing : Socket World
closing = record {
  send = λ fd bytes flags w.
      if int_eq minus_one fd then (send_failed 9, w) else few.send fd bytes flags w;
  recv = λ fd len flags w. recv_last w.incoming len w;
}
