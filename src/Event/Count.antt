-- ===== src/Event/Count.antt =====
-- How many slots of the event table are in use, as `num_events` counts them.
use nacl_proxy.Base.{
  ℕ, zero, suc, ◌+◌, ◌≤◌, ◌<◌, ◌≡◌, inl, inr, int_eq, minus_one, ◌==◌, Bool-cases, if◌then◌else◌,
  write, arith,
}
use nacl_proxy.Event.{Pollfd}
use nacl_proxy.Event.Index.{IsFree}

-- 1 for a slot in use, 0 for a free one
abbrev pub used : Pollfd → ℕ
used p = if int_eq minus_one p.fd then 0 else 1

unfoldable pub live : (ℕ → Pollfd) → ℕ → ℕ
live pfds zero = 0
live pfds (suc n) = live pfds n + used (pfds n)

pub live-le : (pfds : ℕ → Pollfd) (n : ℕ) → live pfds n ≤ n
unfolding live
live-le pfds zero = omega arith
live-le pfds (suc n) = ground (arith, live-le pfds n)

pub live_full :
    (pfds : ℕ → Pollfd) (n : ℕ) → ((i : ℕ) → i < n → ¬ IsFree (pfds i)) → live pfds n ≡ n
unfolding live
live_full pfds zero h = omega arith
live_full pfds (suc n) h = ground (arith, live_full pfds n (λ i hi. h i (omega arith)), h n)

pub live_free-lt : (pfds : ℕ → Pollfd) (n i : ℕ) → i < n → IsFree (pfds i) → live pfds n < n
unfolding live
live_free-lt pfds zero i h f = absurd (omega arith)
live_free-lt pfds (suc n) i h f = elim (Bool-cases (i == n)) [
  | inl e ↦ ground (arith, live-le pfds n)
  | inr e ↦ ground (arith, live_free-lt pfds n i)
]

pub live-write_out :
    (pfds : ℕ → Pollfd) (n i : ℕ) (p : Pollfd) → n ≤ i → live (write pfds i p) n ≡ live pfds n
unfolding live
live-write_out pfds zero i p h = omega arith
live-write_out pfds (suc n) i p h = ground (arith, live-write_out pfds n i p)

-- a free last slot is not counted
pub live_last_free :
    (pfds : ℕ → Pollfd) (n p : ℕ) → n ≡ suc p → IsFree (pfds p) → live pfds p ≡ live pfds n
unfolding live
live_last_free pfds n p e f = rw e (ground arith)

pub live-write :
    (pfds : ℕ → Pollfd) (n i : ℕ) (p : Pollfd)
    → i < n
    → live (write pfds i p) n + used (pfds i) ≡ live pfds n + used p
unfolding live
live-write pfds zero i p h = absurd (omega arith)
live-write pfds (suc n) i p h = elim (Bool-cases (i == n)) [
  | inl e ↦ ground (arith, live-write_out pfds n i p)
  | inr e ↦ ground (arith, live-write pfds n i p)
]

-- only the descriptors count
pub live-congr : (f g : ℕ → Pollfd) (n : ℕ) → ((i : ℕ) → (f i).fd ≡ (g i).fd) → live f n ≡ live g n
unfolding live
live-congr f g zero h = omega arith
live-congr f g (suc n) h = ground (arith, live-congr f g n h, h n)
