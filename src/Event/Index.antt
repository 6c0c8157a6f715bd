-- ===== src/Event/Index.antt =====
-- The searches of src/event.c: `get_idx_from_fd` and the scan for a free slot.
use nacl_proxy.Base.{
  ℕ, zero, suc, ◌+◌, ◌≤◌, ◌<◌, ◌≡◌, ◌≢◌, refl, ◌⊎◌, inl, inr, ℤ, pos, minus_one, int_eq, int_eq_iff,
  Bool-cases, arith,
}
use nacl_proxy.Event.{Pollfd, Manager, no_slot, find_free, scan_fd, get_idx_from_fd}

abbrev pub IsFree : Pollfd → Type 0
IsFree p = p.fd ≡ minus_one

-- Slot `i` is in use for descriptor `efd`.
pub record At {C D : Type 0} (m : Manager C D) (efd : ℤ) (i : ℕ) : Type 0 where
  pub within : i < m.max_idx
  pub here : (m.pfds i).fd ≡ efd

-- What the scan of `n` slots from `idx` has found.
abbrev pub Scanned : (ℕ → Pollfd) → ℕ → ℕ → ℕ → Type 0
Scanned pfds n idx r =
    ((idx ≤ r) × (r < idx + n) × IsFree (pfds r))
    ⊎ ((r ≡ no_slot) × ((i : ℕ) → idx ≤ i → i < idx + n → ¬ IsFree (pfds i)))

Scanned-step :
    (n idx : ℕ) (pfds : ℕ → Pollfd) (r : ℕ)
    → ¬ IsFree (pfds idx)
    → Scanned pfds n (idx + 1) r
    → Scanned pfds (suc n) idx r
Scanned-step n idx pfds r used (inl (lo, hi, f)) = inl (omega arith, omega arith, f)
Scanned-step n idx pfds r used (inr (e, others)) = inr (e, λ i lo hi f. ground (arith, others i))

pub find_free-Scanned : (n idx : ℕ) (pfds : ℕ → Pollfd) → Scanned pfds n idx (find_free n idx pfds)
unfolding find_free
find_free-Scanned zero idx pfds = inr (refl, λ i lo hi e. omega arith)
find_free-Scanned (suc n) idx pfds = elim (Bool-cases (int_eq minus_one (pfds idx).fd)) [
  | inl hit ↦ rw hit (inl (omega arith, omega arith, ground arith))
  | inr miss ↦
      rw miss (Scanned-step n idx pfds _ (ground arith) (find_free-Scanned n (idx + 1) pfds))
]

-- The result of the scan for a descriptor, the two arrays being paired on the scanned slots.
abbrev pub Looked : {C D : Type 0} → Manager C D → ℤ → ℕ → ℕ → ℤ → Type 0
Looked m efd n idx r =
    ((i : ℕ) × (r ≡ pos i) × (idx ≤ i) × (i < idx + n) × ((m.pfds i).fd ≡ efd))
    ⊎ ((r ≡ minus_one) × ((i : ℕ) → idx ≤ i → i < idx + n → (m.pfds i).fd ≢ efd))

module _ {C D : Type 0} (m : Manager C D) (efd : ℤ) where
  Looked-step :
      (n idx : ℕ) (r : ℤ)
      → (m.pfds idx).fd ≢ efd
      → Looked m efd n (idx + 1) r
      → Looked m efd (suc n) idx r
  Looked-step n idx r used (inl (i, e, lo, hi, h)) = inl (i, e, omega arith, omega arith, h)
  Looked-step n idx r used (inr (e, others)) = inr (e, λ i lo hi f. ground (arith, others i))

  scan_fd-Looked :
      (n idx : ℕ)
      → ((i : ℕ) → i < idx + n → (m.pfds i).fd ≡ (m.events i).fd)
      → Looked m efd n idx (scan_fd n idx efd m)
  unfolding scan_fd
  scan_fd-Looked zero idx paired = inr (refl, λ i lo hi e. omega arith)
  scan_fd-Looked (suc n) idx paired = elim (Bool-cases (int_eq (m.pfds idx).fd efd)) [
    | inl hit ↦
        rw (hit, (int_eq_iff (m.pfds idx).fd (m.events idx).fd).1 (paired idx (omega arith)))
          (inl (idx, refl, omega arith, omega arith, (int_eq_iff _ _).0 hit))
    | inr miss ↦ rw miss (
        Looked-step n idx _ (ground arith)
          (scan_fd-Looked n (idx + 1) (λ i hi. paired i (omega arith))))
  ]

-- With paired arrays `get_idx_from_fd` finds a slot of the descriptor, or there is none.
module _ {C D : Type 0} (m : Manager C D) (n : ℕ)
    (paired : (i : ℕ) → i < m.max_idx → (m.pfds i).fd ≡ (m.events i).fd) where
  pub get_idx-cases :
      ((i : ℕ) × (get_idx_from_fd (pos n) m ≡ pos i) × At m (pos n) i)
      ⊎ ((get_idx_from_fd (pos n) m ≡ minus_one) × ((i : ℕ) → ¬ At m (pos n) i))
  unfolding get_idx_from_fd
  get_idx-cases = elim (scan_fd-Looked m (pos n) m.max_idx 0 (λ i hi. paired i (omega arith))) [
    | inl (i, e, lo, hi, h) ↦ inl (i, e, record { within = omega arith; here = h })
    | inr (e, others) ↦ inr (e, λ i at. others i (omega arith) (omega arith) at.here)
  ]
