-- ===== src/Proxy/Data/Carried.antt =====
-- The bytes on their way through a connection of src/proxy.c, and the runs that end.
use nacl_proxy.Base.{ℕ, ◌≡◌, ◌⊎◌, some, ℤ, minus_one, List, [], ◌++◌, length, take}
use nacl_proxy.Sys.{Env}
use nacl_proxy.Sys.Laws.{SendLaws, RecvLaws, Apart}
use nacl_proxy.Buf.{Buf, Net}
use nacl_proxy.Netnacl.{nonce_bytes}
use nacl_proxy.Netnacl.Laws.{CryptoLaws}
use nacl_proxy.Buf.Hands.{Hands}
use nacl_proxy.Buf.Takes.Sends.{IsFormed, Takes}
use nacl_proxy.Proxy.{Conn, State, System, Run, done, fault, ◌>>=◌, deref}

-- A run that ends, with a result that satisfies `P`.
unfoldable pub Surely : {X : Type 0} → (X → Type 0) → Run X → Type 0
Surely P (done x) = P x
Surely P (fault f) = ⊥

pub deref-Surely :
    {A W X : Type 0} (P : X → Type 0) (p : ℕ) (c : Conn) (s : State A W) (f : Conn → Run X)
    → s.conns p ≡ some c
    → Surely P (f c)
    → Surely P (deref p s >>= f)
unfolding Surely
deref-Surely P p c s f e h = rw e h

-- What the system promises of the descriptors: `send` and `recv` are those of stream sockets, and leave
-- the other direction alone; `close` changes neither what has been sent nor what is to be read elsewhere.
-- The cipher is one, and its nonces have the right size.
pub record RelayLaws {A W : Type 0} (sys : System A W) (outbox inbox : ℤ → W → List ℕ)
    : Type 0 where
  pub sends : SendLaws sys.socket outbox
  pub recvs : RecvLaws sys.socket inbox
  pub apart : Apart sys.socket outbox inbox
  pub close_outbox :
      (fd g : ℤ) (env : Env W) → outbox g (sys.close fd env).world ≡ outbox g env.world
  pub ciphers : CryptoLaws sys.crypto
  pub nonce_size : (env : Env W) (p : ℕ) → length (sys.nonces env p) ≡ nonce_bytes

-- The bytes of `stream` on their way from one connection to another, behind what the other had taken
-- before, `before`: first those that the other has taken, which are `taken` and the bytes of the buffer
-- before its position, then those of the buffer, then those that the one has still to hand out; if it
-- is no longer there, these are none. A plain side has its bytes as they are, an encrypted one in the frames of messages, under `key`
-- for those that go out.
pub record Carried {A W : Type 0} (sys : System A W) (outbox inbox : ℤ → W → List ℕ)
    (laws : RelayLaws sys outbox inbox) (key before stream : List ℕ) (from to : Net) (b : Buf)
    (env : Env W) : Type 0 where
  pub taken : List ℕ
  pub rest : List ℕ
  pub formed : IsFormed b
  pub out : Takes sys.crypto outbox inbox key before b taken to env b.read_pos
  pub total : (taken ++ take b.size b.contents) ++ rest ≡ stream
  pub unread :
      (from.sock_fd ≡ minus_one) × (rest ≡ [])
      ⊎ Hands sys.socket outbox inbox laws.recvs laws.apart sys.crypto laws.ciphers 0 from env rest
