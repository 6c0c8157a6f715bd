-- ===== src/Sys.antt =====
-- What the program takes from the system: `send` and `recv` on sockets, the error number, and memory
-- that is written at an offset. `W` is the state of the world outside the program. The error numbers
-- are those of Linux.
pub mod Laws
pub mod Gives
use nacl_proxy.Base.{
  ℕ, ◌+◌, ◌*◌, ◌/◌, ◌%◌, Bool, ◌||◌, ℤ, pos, minus_one, List, [], ◌∷◌, ◌++◌, length, take, drop,
  ◌==◌,
}

abbrev pub eagain : ℕ
eagain = 11

abbrev pub ewouldblock : ℕ
ewouldblock = 11

abbrev pub epipe : ℕ
epipe = 32

abbrev pub econnreset : ℕ
econnreset = 104

abbrev pub msg_nosignal : ℕ
msg_nosignal = 0x4000

-- `(EAGAIN == errno) || (EWOULDBLOCK == errno)`
abbrev pub blocked : ℕ → Bool
blocked errno = errno == eagain || errno == ewouldblock

-- The reply of `send`: how many bytes it took, or an error number.
pub data Sent : Type 0 where
  sent : ℕ → Sent
  send_failed : ℕ → Sent

-- The reply of `recv`: the bytes that it stored (none at the end of the stream), or an error number.
pub data Recvd : Type 0 where
  received : List ℕ → Recvd
  recv_failed : ℕ → Recvd

pub record Socket (W : Type 0) : Type 0 where
  pub send : ℤ → List ℕ → ℕ → W → Sent × W
  pub recv : ℤ → ℕ → ℕ → W → Recvd × W

-- A failing call sets `errno`; a call that succeeds leaves it as it was.
pub record Env (W : Type 0) : Type 0 where
  pub errno : ℕ
  pub world : W

-- How a function ends: with a value, by a write outside its buffer, by `_exit`, or out of fuel.
pub data Res (A : Type 0) : Type 0 where
  ok : A → Res A
  overflow : Res A
  exited : Res A
  out_of_fuel : Res A

infixl 5 ◌>>=◌
abbrev pub ◌>>=◌ : {A B : Type 0} → Res A → (A → Res B) → Res B
ok a >>= f = f a
overflow >>= f = overflow
exited >>= f = exited
out_of_fuel >>= f = out_of_fuel

module _ {W : Type 0} where
  abbrev pub sent_reply : Env W → Sent × W → ℤ × Env W
  sent_reply env (sent n, w) = (pos n, record env { world = w })
  sent_reply env (send_failed e, w) = (minus_one, record { errno = e; world = w })

  abbrev pub recvd_reply : Env W → Recvd × W → ℤ × List ℕ × Env W
  recvd_reply env (received bytes, w) = (pos (length bytes), bytes, record env { world = w })
  recvd_reply env (recv_failed e, w) = (minus_one, [], record { errno = e; world = w })

  -- `ssize_t send(fd, bytes, length bytes, flags)`
  unfoldable pub c_send : Socket W → ℤ → List ℕ → ℕ → Env W → ℤ × Env W
  c_send sk fd bytes flags env = sent_reply env (sk.send fd bytes flags env.world)

  -- `ssize_t recv(fd, _, len, flags)`, with the bytes that it stores
  unfoldable pub c_recv : Socket W → ℤ → ℕ → ℕ → Env W → ℤ × List ℕ × Env W
  c_recv sk fd len flags env = recvd_reply env (sk.recv fd len flags env.world)

-- `buf` after `bytes` have been written to it from offset `off` on
unfoldable pub splice : List ℕ → ℕ → List ℕ → List ℕ
splice buf off bytes = take off buf ++ (bytes ++ drop (off + length bytes) buf)

-- The first two bytes as a `uint16_t` of a little-endian host, and back.
unfoldable pub load16 : List ℕ → ℕ
load16 [] = 0
load16 (a ∷ []) = 0
load16 (a ∷ b ∷ rest) = a + 256 * b

unfoldable pub store16 : ℕ → List ℕ
store16 v = (v % 256) ∷ (v / 256 % 256) ∷ []

-- `htons` and `ntohs` of such a host
unfoldable pub swap16 : ℕ → ℕ
swap16 v = v % 256 * 256 + v / 256 % 256
