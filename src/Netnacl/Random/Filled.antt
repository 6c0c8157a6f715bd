-- ===== src/Netnacl/Random/Filled.antt =====
-- Where the bytes come from that `randombytes` of src/netnacl leaves in its buffer.
use nacl_proxy.Base.{
  ℕ, zero, suc, ◌+◌, ◌-◌, ◌%◌, ◌^◌, ◌≤◌, ◌<◌, ◌≡◌, ◌∙◌, refl, sym, ap, inl, inr, ℤ, pos, minus_one,
  int_eq, List, ◌++◌, length, take, ltb, Bool-cases, take_all, append_assoc, append-nil, arith,
}
use nacl_proxy.Sys.{received, ok, splice}
use nacl_proxy.Sys.Laws.{take-splice, length-splice}
use nacl_proxy.Netnacl.Random.{Entropy, getrandom_loop, read_loop, opened_urandom, randombytes}

-- A system that has both sources, on which no call is interrupted: each call yields at least a byte
-- and at most as many as are asked for. `history` is what a descriptor has yielded so far.
pub record EntropyLaws {W : Type 0} (entropy : Entropy W) (history : ℤ → W → List ℕ) : Type 0 where
  pub gets :
      (len : ℕ) (w : W)
      → 0 < len
      → (bytes : List ℕ) × (w' : W) × (entropy.getrandom len w ≡ (received bytes, w'))
        × (0 < length bytes)
        × (length bytes ≤ len)
  pub opens : (w : W) → (n : ℕ) × (w' : W) × (entropy.open_urandom w ≡ (pos n, w'))
  pub reads :
      (fd : ℤ) (len : ℕ) (w : W)
      → 0 < len
      → (bytes : List ℕ) × (w' : W) × (entropy.read fd len w ≡ (received bytes, w'))
        × (0 < length bytes)
        × (length bytes ≤ len)
        × (history fd w' ≡ history fd w ++ bytes)

module _ {W : Type 0} (entropy : Entropy W) (history : ℤ → W → List ℕ)
    (laws : EntropyLaws entropy history) (total : ℕ) (small : total < 2 ^ 63) where
  getrandom_loop-ends :
      (fuel : ℕ) (buf : List ℕ) (n : ℕ) (w : W)
      → length buf ≡ total
      → n ≤ total
      → total - n < fuel
      → (buf' : List ℕ) × (w' : W) × (getrandom_loop entropy total fuel buf n w ≡ ok (buf', w'))
        × (length buf' ≡ total)
  unfolding getrandom_loop
  getrandom_loop-ends zero buf n w e h f = absurd (omega arith)
  getrandom_loop-ends (suc fuel) buf n w e h f = elim (Bool-cases (ltb n total)) [
    | inr done ↦ rw done (buf, w, refl, e)
    | inl more ↦
        let (bytes, w', r, positive, le) = laws.gets (total - n) w (ground arith) in
        let wrap : (n + length bytes) % 2 ^ 64 ≡ n + length bytes = omega arith in
        rw (more, r, wrap)
          (getrandom_loop-ends fuel (splice buf n bytes) (n + length bytes) w'
            (length-splice buf n bytes (omega arith) ∙ e) (omega arith) (omega arith))
  ]

  read_loop-fills :
      (fd : ℤ) (start : List ℕ) (fuel : ℕ) (buf : List ℕ) (n : ℕ) (w : W)
      → history fd w ≡ start ++ take n buf
      → length buf ≡ total
      → n ≤ total
      → total - n < fuel
      → (buf' : List ℕ) × (w' : W) × (read_loop entropy total fd fuel buf n w ≡ ok (buf', w'))
        × (length buf' ≡ total)
        × (history fd w' ≡ start ++ buf')
  unfolding read_loop
  read_loop-fills fd start zero buf n w i e h f = absurd (omega arith)
  read_loop-fills fd start (suc fuel) buf n w i e h f = elim (Bool-cases (ltb n total)) [
    | inr done ↦
        let full : length buf ≤ n = ground (arith, e) in
        rw done (buf, w, refl, e, i ∙ ap (λ b. start ++ b) (take_all n buf full))
    | inl more ↦
        let (bytes, w', r, positive, le, front) = laws.reads fd (total - n) w (ground arith) in
        let wrap : (n + length bytes) % 2 ^ 64 ≡ n + length bytes = omega arith in
        let i' : history fd w' ≡ start ++ take (n + length bytes) (splice buf n bytes) =
          front ∙ rw (take-splice buf n bytes (omega arith), i, append_assoc) refl in
        rw (more, r, wrap)
          (read_loop-fills fd start fuel (splice buf n bytes) (n + length bytes) w' i'
            (length-splice buf n bytes (omega arith) ∙ e) (omega arith) (omega arith))
  ]

  opened_urandom-ends :
      (g_urandom : ℤ) (w : W)
      → (fd : ℤ) × (w' : W) × (opened_urandom entropy total g_urandom w ≡ ok (fd, w'))
  unfolding opened_urandom
  opened_urandom-ends g_urandom w = elim (Bool-cases (int_eq minus_one g_urandom)) [
    | inr open_before ↦ rw open_before (g_urandom, w, refl)
    | inl first ↦ let (n, w', r) = laws.opens w in rw (first, r) (pos n, w', refl)
  ]

  -- On a system that has both sources and does not interrupt calls, and for a buffer of fewer than
  -- 2 ^ 63 bytes, `randombytes` returns, and the bytes that it leaves in the buffer are those that
  -- /dev/urandom has yielded in the second loop, in order; with more fuel than bytes it does not run out of fuel.
  pub randombytes-fills :
      (fuel : ℕ) (buf : List ℕ) (g_urandom : ℤ) (w : W)
      → length buf ≡ total
      → total < fuel
      → (buf' : List ℕ) × (fd : ℤ) × (start : W) × (w' : W) × (randombytes entropy total fuel buf
            g_urandom w
          ≡ ok (buf', fd, w'))
        × (length buf' ≡ total)
        × (history fd w' ≡ history fd start ++ buf')
  unfolding randombytes
  randombytes-fills fuel buf g_urandom w e f =
      let (buf1, w1, r1, e1) = getrandom_loop-ends fuel buf 0 w e (omega arith) (omega arith) in
      let (fd, w2, r2) = opened_urandom-ends g_urandom w1 in
      let (buf3, w3, r3, e3, same) =
        read_loop-fills fd (history fd w2) fuel buf1 0 w2 (sym (append-nil _)) e1 (omega arith)
          (omega arith) in
      (buf3, fd, w2, w3, rw (r1, r2, r3) refl, e3, same)
