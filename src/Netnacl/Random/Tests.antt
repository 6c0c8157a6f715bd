-- ===== src/Netnacl/Random/Tests.antt =====
-- `randombytes` on a system that counts the bytes it yields.
use nacl_proxy.Base.{
  ℕ, ◌≡◌, refl, ℤ, pos, minus_one, List, [], ◌∷◌, ◌++◌, length, replicate, length-replicate, arith,
}
use nacl_proxy.Sys.{received, ok}
use nacl_proxy.Netnacl.Random.{Entropy, randombytes}
use nacl_proxy.Netnacl.Random.Filled.{EntropyLaws, randombytes-fills}

-- `getrandom` yields zeroes; `read` yields 7 at every call, and keeps what it has yielded.
abbrev one_by_one : Entropy (List ℕ)
one_by_one = record {
  getrandom = λ len w. (received (replicate len 0), w);
  open_urandom = λ w. (pos 3, w);
  read = λ fd len w. (received (7 ∷ []), w ++ (7 ∷ []));
}

abbrev history : ℤ → List ℕ → List ℕ
history fd w = w

one_by_one_lem : EntropyLaws one_by_one history
one_by_one_lem = record {
  gets = λ len w positive. (
    replicate len 0,
    w,
    refl,
    omega (arith, length-replicate {A = ℕ} len 0),
    omega (arith, length-replicate {A = ℕ} len 0),
  );
  opens = λ w. (3, w, refl);
  reads = λ fd len w positive. (7 ∷ [], w ++ (7 ∷ []), refl, omega arith, omega arith, refl);
}

randombytes-fills_example :
    (buf' : List ℕ) × (fd : ℤ) × (start : List ℕ) × (w' : List ℕ) × (randombytes one_by_one 2 3
        (0 ∷ 0 ∷ [])
        minus_one
        []
      ≡ ok (buf', fd, w'))
    × (length buf' ≡ 2)
    × (history fd w' ≡ history fd start ++ buf')
randombytes-fills_example =
    randombytes-fills one_by_one history one_by_one_lem 2 (omega arith) 3 (0 ∷ 0 ∷ []) minus_one []
      refl (omega arith)
