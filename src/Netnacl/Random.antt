-- ===== src/Netnacl/Random.antt =====
-- `randombytes` of src/netnacl/src/netnacl.c, which TweetNaCl calls too. The system is a parameter;
-- the number of turns of each loop is the fuel, as a call that is interrupted is tried again.
pub mod Filled
pub mod Tests
use nacl_proxy.Base.{
  ℕ, zero, suc, ◌+◌, ◌-◌, ◌%◌, ◌^◌, ◌≤◌, ◌<◌, ◌≡◌, ◌∙◌, refl, sym, ap, inl, inr, true, false, ℤ,
  minus_one, int_eq, List, [], ◌++◌, length, take, ltb, ◌==◌, if◌then◌else◌, Bool-cases, take_all,
  append_assoc, arith,
}
use nacl_proxy.Sys.{Recvd, received, recv_failed, Res, ok, exited, out_of_fuel, ◌>>=◌, splice}
use nacl_proxy.Sys.Laws.{take-splice, length-splice}

abbrev pub eintr : ℕ
eintr = 4

abbrev pub enosys : ℕ
enosys = 38

-- `getrandom`, `open` of /dev/urandom, and `read`
pub record Entropy (W : Type 0) : Type 0 where
  pub getrandom : ℕ → W → Recvd × W
  pub open_urandom : W → ℤ × W
  pub read : ℤ → ℕ → W → Recvd × W

module _ {W : Type 0} (entropy : Entropy W) (total : ℕ) where
  open entropy use {getrandom, open_urandom, read}

  -- What the first loop does with the result of `getrandom`, `n` bytes being there; `next` is its
  -- next turn.
  pub getrandom_turn :
      (List ℕ → ℕ → W → Res (List ℕ × W)) → List ℕ → ℕ → Recvd × W → Res (List ℕ × W)
  getrandom_turn next buf n (received bytes, w) =
      next (splice buf n bytes) ((n + length bytes) % 2 ^ 64) w
  getrandom_turn next buf n (recv_failed errno, w) =
      if errno == eintr then next buf n w else (if errno == enosys then ok (buf, w) else exited)

  pub getrandom_loop : ℕ → List ℕ → ℕ → W → Res (List ℕ × W)
  unfolding getrandom_turn
  getrandom_loop zero buf n w = out_of_fuel
  getrandom_loop (suc fuel) buf n w =
      if ltb n total
      then getrandom_turn (getrandom_loop fuel) buf n (getrandom (total - n) w)
      else ok (buf, w)

  -- What the second loop does with the result of `read`.
  pub read_turn : (List ℕ → ℕ → W → Res (List ℕ × W)) → List ℕ → ℕ → Recvd × W → Res (List ℕ × W)
  read_turn next buf n (received bytes, w) =
      next (splice buf n bytes) ((n + length bytes) % 2 ^ 64) w
  read_turn next buf n (recv_failed errno, w) = if errno == eintr then next buf n w else exited

  pub read_loop : ℤ → ℕ → List ℕ → ℕ → W → Res (List ℕ × W)
  unfolding read_turn
  read_loop fd zero buf n w = out_of_fuel
  read_loop fd (suc fuel) buf n w =
      if ltb n total
      then read_turn (read_loop fd fuel) buf n (read fd (total - n) w)
      else ok (buf, w)

  -- `g_urandom`, opened at its first use
  pub opened_urandom : ℤ → W → Res (ℤ × W)
  opened_urandom g_urandom w =
      if int_eq minus_one g_urandom
      then (let (fd, w') = open_urandom w in if int_eq minus_one fd then exited else ok (fd, w'))
      else ok (g_urandom, w)

  -- `randombytes`; the label is reached from the first loop in every case.
  pub randombytes : ℕ → List ℕ → ℤ → W → Res (List ℕ × ℤ × W)
  unfolding getrandom_loop read_loop opened_urandom
  randombytes fuel buf g_urandom w = getrandom_loop fuel buf 0 w >>= λ (buf1, w1).
      opened_urandom g_urandom w1 >>= λ (fd, w2).
      read_loop fd fuel buf1 0 w2 >>= λ (buf3, w3). ok (buf3, fd, w3)
