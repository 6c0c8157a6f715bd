-- ===== src/Sys/Laws.antt =====
-- What POSIX says of `send` and `recv` on a stream socket, and what follows for memory.
use nacl_proxy.Base.{
  ℕ, ◌+◌, ◌^◌, ◌≤◌, ◌<◌, ◌≡◌, ◌∙◌, refl, sym, ap, ◌⊎◌, inl, inr, ℤ, pos, minus_one, List, [], ◌++◌,
  length, take, drop, length-append, length-take, length-drop, take-append, append_assoc,
  take-append-drop, arith,
}
use nacl_proxy.Sys.{
  Socket, Env, Sent, Recvd, sent, send_failed, received, recv_failed, c_send, c_recv, sent_reply,
  recvd_reply, splice, load16, store16, swap16,
}

-- `send` takes a prefix of the bytes that it is handed, at least one, and appends it to what the
-- peer will read; `outbox` is all that has been taken for a descriptor.
pub record SendLaws {W : Type 0} (sk : Socket W) (outbox : ℤ → W → List ℕ) : Type 0 where
  pub sends :
      (fd : ℤ) (bytes : List ℕ) (flags n : ℕ) (w w' : W)
      → sk.send fd bytes flags w ≡ (sent n, w')
      → (n ≤ length bytes) × (outbox fd w' ≡ outbox fd w ++ take n bytes)
  pub progress :
      (fd : ℤ) (bytes : List ℕ) (flags n : ℕ) (w w' : W)
      → sk.send fd bytes flags w ≡ (sent n, w')
      → 0 < length bytes
      → 0 < n
  pub keeps :
      (fd : ℤ) (bytes : List ℕ) (flags e : ℕ) (w w' : W)
      → sk.send fd bytes flags w ≡ (send_failed e, w')
      → outbox fd w' ≡ outbox fd w

-- `recv` stores at most `len` bytes, and takes them from the front of `inbox`, what the peer sends and the
-- program has not read yet. It stores none of the bytes that are asked for only at the end of the stream.
pub record RecvLaws {W : Type 0} (sk : Socket W) (inbox : ℤ → W → List ℕ) : Type 0 where
  pub recvs :
      (fd : ℤ) (len flags : ℕ) (bytes : List ℕ) (w w' : W)
      → sk.recv fd len flags w ≡ (received bytes, w')
      → (length bytes ≤ len) × (inbox fd w ≡ bytes ++ inbox fd w')
  pub keeps :
      (fd : ℤ) (len flags e : ℕ) (w w' : W)
      → sk.recv fd len flags w ≡ (recv_failed e, w')
      → inbox fd w ≡ inbox fd w'
  pub ends :
      (fd : ℤ) (len flags : ℕ) (w w' : W)
      → sk.recv fd len flags w ≡ (received [], w')
      → 0 < len
      → inbox fd w' ≡ []

-- The two directions of a socket do not touch each other: `send` takes nothing from `inbox`, `recv`
-- adds nothing to `outbox`.
pub record DuplexLaws {W : Type 0} (sk : Socket W) (outbox inbox : ℤ → W → List ℕ) : Type 0 where
  pub send_keeps :
      (fd : ℤ) (bytes : List ℕ) (flags : ℕ) (w : W)
      → inbox fd (sk.send fd bytes flags w).1 ≡ inbox fd w
  pub recv_keeps :
      (fd : ℤ) (len flags : ℕ) (w : W) → outbox fd (sk.recv fd len flags w).1 ≡ outbox fd w

-- `send` takes nothing from what any descriptor is going to yield, and `recv` adds nothing to what any
-- descriptor has taken.
pub record Apart {W : Type 0} (sk : Socket W) (outbox inbox : ℤ → W → List ℕ) : Type 0 where
  pub send_inbox :
      (fd other : ℤ) (bytes : List ℕ) (flags : ℕ) (w : W)
      → inbox other (sk.send fd bytes flags w).1 ≡ inbox other w
  pub recv_outbox :
      (fd other : ℤ) (len flags : ℕ) (w : W)
      → outbox other (sk.recv fd len flags w).1 ≡ outbox other w

pub splice_nil : (buf : List ℕ) (off : ℕ) → splice buf off [] ≡ buf
unfolding splice
splice_nil buf off = let e : off + 0 ≡ off = omega arith in rw e (take-append-drop off buf)

-- A write that starts within the first `off` known bytes extends them.
pub take-splice :
    (buf : List ℕ) (off : ℕ) (bytes : List ℕ)
    → off ≤ length buf
    → take (off + length bytes) (splice buf off bytes) ≡ take off buf ++ bytes
unfolding splice
take-splice buf off bytes h =
    let e : off + length bytes ≡ length (take off buf ++ bytes) =
      omega (arith, length-append (take off buf) bytes, length-take off buf) in
    rw (← append_assoc, e) (take-append (take off buf ++ bytes) _)

pub length-splice :
    (buf : List ℕ) (off : ℕ) (bytes : List ℕ)
    → off + length bytes ≤ length buf
    → length (splice buf off bytes) ≡ length buf
unfolding splice
length-splice buf off bytes h = omega (
  arith,
  length-append (take off buf) (bytes ++ drop (off + length bytes) buf),
  length-append bytes (drop (off + length bytes) buf),
  length-take off buf,
  length-drop (off + length bytes) buf,
)

-- The network order of two bytes is undone by `ntohs`.
pub load16-store16 : (v : ℕ) (rest : List ℕ) → v < 2 ^ 16 → load16 (store16 v ++ rest) ≡ v
unfolding load16 store16
load16-store16 v rest h = omega arith

pub swap16-swap16 : (v : ℕ) → v < 2 ^ 16 → swap16 (swap16 v) ≡ v
unfolding swap16
swap16-swap16 v h = omega arith

pub swap16-lt : (v : ℕ) → swap16 v < 2 ^ 16
unfolding swap16
swap16-lt v = omega arith

-- The two ways in which `send` ends.
abbrev pub Took : {W : Type 0} → (ℤ → W → List ℕ) → ℤ → List ℕ → Env W → ℤ × Env W → Type 0
Took {W} outbox fd bytes env r =
    ((n : ℕ) × (w : W) × (r ≡ (pos n, record env { world = w }))
      × (n ≤ length bytes)
      × (0 < length bytes → 0 < n)
      × (outbox fd w ≡ outbox fd env.world ++ take n bytes))
    ⊎ ((e : ℕ) × (w : W) × (r ≡ (minus_one, record { errno = e; world = w }))
        × (outbox fd w ≡ outbox fd env.world))

pub c_send-Took :
    {W : Type 0} (sk : Socket W) (outbox : ℤ → W → List ℕ)
    → SendLaws sk outbox
    → (fd : ℤ) (bytes : List ℕ) (flags : ℕ) (env : Env W)
    → Took outbox fd bytes env (c_send sk fd bytes flags env)
unfolding c_send
c_send-Took {W} sk outbox laws fd bytes flags env =
    go (sk.send fd bytes flags env.world).0 (sk.send fd bytes flags env.world).1 refl
  where
    go :
        (r : Sent) (w : W)
        → sk.send fd bytes flags env.world ≡ (r, w)
        → Took outbox fd bytes env (c_send sk fd bytes flags env)
    go (sent n) w e =
        let (le, out) = laws.sends fd bytes flags n env.world w e in
        inl (n, w, ap (sent_reply env) e, le, laws.progress fd bytes flags n env.world w e, out)
    go (send_failed n) w e =
        inr (n, w, ap (sent_reply env) e, laws.keeps fd bytes flags n env.world w e)

-- The two ways in which `recv` ends; a stream at its end stores no bytes.
abbrev pub Got : {W : Type 0} → (ℤ → W → List ℕ) → ℤ → ℕ → Env W → ℤ × List ℕ × Env W → Type 0
Got {W} inbox fd len env r =
    ((bytes : List ℕ) × (w : W) × (r ≡ (pos (length bytes), bytes, record env { world = w }))
      × (length bytes ≤ len)
      × (inbox fd env.world ≡ bytes ++ inbox fd w))
    ⊎ ((e : ℕ) × (w : W) × (r ≡ (minus_one, [], record { errno = e; world = w }))
        × (inbox fd env.world ≡ inbox fd w))

pub c_recv-Got :
    {W : Type 0} (sk : Socket W) (inbox : ℤ → W → List ℕ)
    → RecvLaws sk inbox
    → (fd : ℤ) (len flags : ℕ) (env : Env W) → Got inbox fd len env (c_recv sk fd len flags env)
unfolding c_recv
c_recv-Got {W} sk inbox laws fd len flags env =
    go (sk.recv fd len flags env.world).0 (sk.recv fd len flags env.world).1 refl
  where
    go :
        (r : Recvd) (w : W)
        → sk.recv fd len flags env.world ≡ (r, w)
        → Got inbox fd len env (c_recv sk fd len flags env)
    go (received bytes) w e =
        let (le, got) = laws.recvs fd len flags bytes env.world w e in
        inl (bytes, w, ap (recvd_reply env) e, le, got)
    go (recv_failed n) w e =
        inr (n, w, ap (recvd_reply env) e, laws.keeps fd len flags n env.world w e)

-- The world after a call is the one that the socket yields.
pub c_send-world :
    {W : Type 0} (sk : Socket W) (fd : ℤ) (bytes : List ℕ) (flags : ℕ) (env : Env W)
    → (c_send sk fd bytes flags env).1.world ≡ (sk.send fd bytes flags env.world).1
unfolding c_send
c_send-world {W} sk fd bytes flags env = go (sk.send fd bytes flags env.world).0 _
  where
    go : (r : Sent) (w : W) → (sent_reply env (r, w)).1.world ≡ w
    go (sent n) w = refl
    go (send_failed e) w = refl

pub c_recv-world :
    {W : Type 0} (sk : Socket W) (fd : ℤ) (len flags : ℕ) (env : Env W)
    → (c_recv sk fd len flags env).2.world ≡ (sk.recv fd len flags env.world).1
unfolding c_recv
c_recv-world {W} sk fd len flags env = go (sk.recv fd len flags env.world).0 _
  where
    go : (r : Recvd) (w : W) → (recvd_reply env (r, w)).2.world ≡ w
    go (received bytes) w = refl
    go (recv_failed e) w = refl

-- A `recv` that yields 0 has found the end of the stream.
pub c_recv-ended :
    {W : Type 0} (sk : Socket W) (inbox : ℤ → W → List ℕ)
    → RecvLaws sk inbox
    → (fd : ℤ) (len flags : ℕ) (env env' : Env W) → c_recv sk fd len flags env ≡ (pos 0, [], env')
    → 0 < len
    → inbox fd env'.world ≡ []
unfolding c_recv
c_recv-ended {W} sk inbox laws fd len flags env env' e more =
    go (sk.recv fd len flags env.world).0 (sk.recv fd len flags env.world).1 refl
  where
    go : (r : Recvd) (w : W) → sk.recv fd len flags env.world ≡ (r, w) → inbox fd env'.world ≡ []
    go (received bytes) w got =
        let same : recvd_reply env (received bytes, w) ≡ (pos 0, [], env') =
          sym (ap (recvd_reply env) got) ∙ e in
        let none_there : bytes ≡ [] = ap (λ r. r.1) same in
        rw (← ap (λ r. r.2.world) same)
          (laws.ends fd len flags env.world w (rw none_there at got) more)
    go (recv_failed n) w got =
        let same : recvd_reply env (recv_failed n, w) ≡ (pos 0, [], env') =
          sym (ap (recvd_reply env) got) ∙ e in
        let clash : minus_one ≡ pos 0 = ap (λ r. r.0) same in absurd cc
