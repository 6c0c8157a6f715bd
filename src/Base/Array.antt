-- ===== src/Base/Array.antt =====
-- A C array as a function of its index, with one cell written.
use Prim.Native.Nat.{ℕ}
use mathlib.Core.Path.{◌≡◌, fun_ext}
use mathlib.Core.Logic.{◌≢◌}
use native.Mathlib.Omega.{arith}
use nacl_proxy.Base.Tests.{◌==◌, if◌then◌else◌}

module _ {ℓ} {A : Type ℓ} where
  abbrev pub write : (ℕ → A) → ℕ → A → ℕ → A
  write f i v j = if i == j then v else f j

  pub write_self : (f : ℕ → A) (i : ℕ) (v : A) → write f i v i ≡ v
  write_self f i v = ground arith

  pub write_ne : (f : ℕ → A) (v : A) {i j : ℕ} → i ≢ j → write f i v j ≡ f j
  write_ne f v h = ground arith

  pub write_again : (f : ℕ → A) (i : ℕ) (u v : A) → write (write f i u) i v ≡ write f i v
  write_again f i u v = fun_ext λ j. ground arith
