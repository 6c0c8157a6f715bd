-- ===== src/Event/Loop/Teardown.antt =====
-- What `event_teardown` of src/event.c closes, and what it leaves.
use nacl_proxy.Base.{
  ℕ, zero, suc, ◌+◌, ◌≤◌, ◌<◌, ◌≡◌, refl, inl, inr, Option, none, some, ℤ, ◌∙◌, minus_one,
  is_nonneg, if◌then◌else◌, ◌==◌, Bool-cases, arith,
}
use nacl_proxy.Event.{Event, Manager}
use nacl_proxy.Event.Index.{IsFree}
use nacl_proxy.Event.Loop.{teardown_slot, teardown_from, event_teardown}

module _ {C D S : Type 0} (close : ℤ → S → S) (free : Option D → S → S) where
  -- What a teardown does to the rest of the state: for `n` slots from `idx`, in order, the
  -- descriptor is closed if the slot is in use, then its user data is freed.
  unfoldable pub clear_from : ℕ → (ℕ → Event C D) → ℕ → S → S
  clear_from zero events idx s = s
  clear_from (suc n) events idx s = clear_from n events (idx + 1) (
      free (events idx).user_data
        (if is_nonneg (events idx).fd then close (events idx).fd s else s))

  clear_from-congr :
      (n : ℕ) (f g : ℕ → Event C D) (idx : ℕ) (s : S)
      → ((i : ℕ) → idx ≤ i → f i ≡ g i)
      → clear_from n f idx s ≡ clear_from n g idx s
  unfolding clear_from
  clear_from-congr zero f g idx s h = refl
  clear_from-congr (suc n) f g idx s h =
      rw (h idx (omega arith)) (clear_from-congr n f g (idx + 1) _ (λ i lo. h i (omega arith)))

  teardown_from-state :
      (n idx : ℕ) (m : Manager C D) (s : S)
      → (teardown_from close n (some free) idx (m, s)).1 ≡ clear_from n m.events idx s
  unfolding teardown_from teardown_slot clear_from
  teardown_from-state zero idx m s = refl
  teardown_from-state (suc n) idx m s =
      teardown_from-state n (idx + 1) _ _
      ∙ clear_from-congr n _ m.events (idx + 1) _ (λ i lo. ground arith)

-- a slot after the teardown
abbrev pub IsClear : {C D : Type 0} → Manager C D → ℕ → Type 0
IsClear m i = IsFree (m.pfds i) × ((m.events i).fd ≡ minus_one) × ((m.events i).user_data ≡ none)

module _ {C D S : Type 0} (close : ℤ → S → S) (free : Option (Option D → S → S)) where
  teardown_from-counts :
      (n idx : ℕ) (m : Manager C D) (s : S)
      → ((teardown_from close n free idx (m, s)).0.max_idx ≡ m.max_idx)
        × ((teardown_from close n free idx (m, s)).0.num_events ≡ m.num_events)
  unfolding teardown_from teardown_slot
  teardown_from-counts zero idx m s = (refl, refl)
  teardown_from-counts (suc n) idx m s = teardown_from-counts n (idx + 1) _ _

  teardown_from-before :
      (n idx i : ℕ) (m : Manager C D) (s : S)
      → i < idx
      → IsClear m i
      → IsClear (teardown_from close n free idx (m, s)).0 i
  unfolding teardown_from teardown_slot
  teardown_from-before zero idx i m s h c = c
  teardown_from-before (suc n) idx i m s h c =
      teardown_from-before n (idx + 1) i _ _ (omega arith) (ground arith)

  teardown_from-IsClear :
      (n idx i : ℕ) (m : Manager C D) (s : S)
      → idx ≤ i
      → i < idx + n
      → IsClear (teardown_from close n free idx (m, s)).0 i
  unfolding teardown_from teardown_slot
  teardown_from-IsClear zero idx i m s lo hi = absurd (omega arith)
  teardown_from-IsClear (suc n) idx i m s lo hi = elim (Bool-cases (idx == i)) [
    | inl e ↦ teardown_from-before n (idx + 1) i _ _ (ground arith) (ground arith)
    | inr e ↦ teardown_from-IsClear n (idx + 1) i _ _ (ground arith) (omega arith)
  ]

  -- After `event_teardown` every slot below `max_idx` is free, and `max_idx` and `num_events` are as
  -- they were.
  pub event_teardown-IsClear :
      (m : Manager C D) (s : S)
      → ((i : ℕ) → i < m.max_idx → IsClear (event_teardown close free m s).0 i)
        × ((event_teardown close free m s).0.max_idx ≡ m.max_idx)
        × ((event_teardown close free m s).0.num_events ≡ m.num_events)
  unfolding event_teardown
  event_teardown-IsClear m s = (
    λ i h. teardown_from-IsClear m.max_idx 0 i m s (omega arith) (omega arith),
    (teardown_from-counts m.max_idx 0 m s).0,
    (teardown_from-counts m.max_idx 0 m s).1,
  )

-- `event_teardown` with a function that frees user data closes the descriptor of each slot in use
-- once, in slot order, and frees the user data of each slot after that.
pub event_teardown-state :
    {C D S : Type 0} (close : ℤ → S → S) (free : Option D → S → S) (m : Manager C D) (s : S)
    → (event_teardown close (some free) m s).1 ≡ clear_from close free m.max_idx m.events 0 s
unfolding event_teardown
event_teardown-state close free m s = teardown_from-state close free m.max_idx 0 m s
