-- ===== src/Event/Invariant.antt =====
-- The invariant of the event table of src/event.c, and its operations.
use nacl_proxy.Base.{
  ℕ, suc, ◌+◌, ◌≤◌, ◌<◌, ◌%◌, ◌^◌, ◌≡◌, ◌≢◌, refl, ◌⊎◌, inl, inr, false, inc64, dec64, write,
  Option, none, some, ℤ, pos, negsuc, minus_one, is_nonneg, ◌==◌, Bool-cases, arith,
}
use nacl_proxy.Event.{
  Mask, no_flags, has_flags, Pollfd, Manager, max_events, no_slot, init, find_free, choose_slot,
  fill, refit, vacate, get_idx_from_fd, event_add, event_modify, event_remove,
}
use nacl_proxy.Event.Index.{IsFree, At, find_free-Scanned, get_idx-cases}
use nacl_proxy.Event.Count.{live, live-le, live_full, live_last_free, live-write, live-write_out}

pub record IsValid {C D : Type 0} (m : Manager C D) : Type 0 where
  pub bound : m.max_idx ≤ max_events
  pub count : m.num_events ≡ live m.pfds m.max_idx
  pub paired : (i : ℕ) → i < m.max_idx → (m.pfds i).fd ≡ (m.events i).fd
  pub distinct :
      (i j : ℕ)
      → i < m.max_idx
      → j < m.max_idx
      → (m.pfds i).fd ≡ (m.pfds j).fd
      → ¬ IsFree (m.pfds i)
      → i ≡ j
  pub handled : (i : ℕ) → i < m.max_idx → ¬ IsFree (m.pfds i) → (m.events i).callback ≢ none
  pub vacant :
      (i : ℕ) → i < m.max_idx → is_nonneg (m.pfds i).fd ≡ false → (m.events i).user_data ≡ none
  pub quiet : (i : ℕ) → IsFree (m.pfds i) ⊎ (m.max_idx ≤ i) → (m.pfds i).revents ≡ no_flags

-- A slot that `event_add` may fill, and the value of `max_idx` that goes with it.
pub record IsOpen {C D : Type 0} (m : Manager C D) (i k : ℕ) : Type 0 where
  pub slot : i < k
  pub limit : k ≤ max_events
  pub shape : (k ≡ m.max_idx) × IsFree (m.pfds i) ⊎ (k ≡ suc m.max_idx) × (i ≡ m.max_idx)

module _ {C D : Type 0} where
  pub init-IsValid : IsValid (init {C = C} {D = D})
  unfolding init live
  init-IsValid = record {
    bound = omega arith;
    count = refl;
    paired = λ i h. absurd (omega arith);
    distinct = λ i j h k e u. absurd (omega arith);
    handled = λ i h u. absurd (omega arith);
    vacant = λ i h u. absurd (omega arith);
    quiet = λ i u. refl;
  }

module _ {C D : Type 0} (m : Manager C D) (v : IsValid m) where
  pub get_idx_cases :
      (n : ℕ)
      → ((i : ℕ) × (get_idx_from_fd (pos n) m ≡ pos i) × At m (pos n) i)
        ⊎ ((get_idx_from_fd (pos n) m ≡ minus_one) × ((i : ℕ) → ¬ At m (pos n) i))
  get_idx_cases n = get_idx-cases m n v.paired

  -- Below capacity, the chosen slot is free and lies inside the arrays.
  pub choose_slot-IsOpen : max_events ≢ m.num_events → IsOpen m (choose_slot m).0 (choose_slot m).1
  unfolding choose_slot
  choose_slot-IsOpen room = elim (find_free-Scanned m.max_idx 0 m.pfds) [
    | inl (lo, hi, f) ↦
        let e : (no_slot == find_free m.max_idx 0 m.pfds) ≡ false = ground (arith, v.bound) in
        rw e (record { slot = omega arith; limit = v.bound; shape = inl (refl, f) })
    | inr (e, all) ↦
        let full : live m.pfds m.max_idx ≡ m.max_idx =
          live_full m.pfds m.max_idx (λ i h. all i (omega arith) (omega arith)) in
        let k : (m.max_idx + 1) % 2 ^ 64 ≡ m.max_idx + 1 = omega (arith, v.bound) in
        rw (e, k)
          (record {
            slot = omega arith;
            limit = omega (arith, v.bound, v.count);
            shape = inr (omega arith, refl);
          })
  ]

-- What `event_add` writes into an open slot keeps the table valid.
module _ {C D : Type 0} (m : Manager C D) (v : IsValid m) (i k n : ℕ) (o : IsOpen m i k)
    (new : (j : ℕ) → ¬ At m (pos n) j) (events : Mask) (p_data : Option D) (callback : C)
    (room : max_events ≢ m.num_events) where
  abbrev pub filled : Manager C D
  unfolding fill
  filled =
      fill i (pos n) events p_data (some callback)
        (record m { max_idx = k; num_events = inc64 m.num_events })

  fill-count : filled.num_events ≡ live filled.pfds filled.max_idx
  unfolding fill live
  fill-count = elim o.shape [
    | inl (e, f) ↦ ground (
      arith,
      v.count,
      v.bound,
      live-le m.pfds m.max_idx,
      live-write m.pfds k i (record (m.pfds i) { fd = pos n; events = events }),
    )
    | inr (e, j) ↦ rw e (
        ground (
          arith,
          v.count,
          v.bound,
          live-le m.pfds m.max_idx,
          live-write_out m.pfds m.max_idx i (record (m.pfds i) { fd = pos n; events = events }),
        ))
  ]

  pub fill-IsValid : IsValid filled
  unfolding fill
  fill-IsValid = record {
    bound = o.limit;
    count = fill-count;
    paired = λ j h. ground (arith, v.paired j, o.shape);
    distinct = λ a b h g e u. ground (arith, v.distinct a b, o.shape, taken a, taken b);
    handled = λ j h u. ground (arith, v.handled j, o.shape);
    vacant = λ j h u. ground (arith, v.vacant j, o.shape);
    quiet = λ j u. ground (arith, v.quiet j, v.quiet i, o.shape);
  }
    where
      taken : (j : ℕ) → j < m.max_idx → (m.pfds j).fd ≢ pos n
      taken j h e = new j (record { within = h; here = e })

-- So do the writes of `event_modify` and `event_remove` at the slot of a registered descriptor.
module _ {C D : Type 0} (m : Manager C D) (v : IsValid m) (i n : ℕ) (at : At m (pos n) i) where
  pub refit-IsValid : (events : Mask) → IsValid (refit i (pos n) events m)
  unfolding refit
  refit-IsValid events = record {
    bound = v.bound;
    count = ground (
      arith,
      v.count,
      at.within,
      at.here,
      live-write m.pfds m.max_idx i (record { fd = pos n; events = events; revents = no_flags }),
    );
    paired = λ j h. ground (arith, v.paired j, at.here);
    distinct = λ a b h g e u. ground (arith, v.distinct a b, at.here);
    handled = λ j h u. ground (arith, v.handled j, at.here);
    vacant = λ j h u. ground (arith, v.vacant j, at.here);
    quiet = λ j u. ground (arith, v.quiet j, at.here);
  }

  abbrev freed : Pollfd
  freed = record { fd = minus_one; events = no_flags; revents = no_flags }

  vacate-count : (vacate i m).num_events ≡ live (vacate i m).pfds (vacate i m).max_idx
  unfolding vacate
  vacate-count = elim (Bool-cases (i == dec64 m.max_idx)) [
    | inl last ↦ rw last (
        ground (
          arith,
          facts,
          live-write m.pfds m.max_idx i freed,
          live_last_free (write m.pfds i freed) m.max_idx (dec64 m.max_idx),
        ))
    | inr inner ↦ rw inner (ground (arith, facts, live-write m.pfds m.max_idx i freed))
  ]
    where
      facts :
          (m.num_events ≡ live m.pfds m.max_idx)
          × (m.max_idx ≤ max_events)
          × (i < m.max_idx)
          × ((m.pfds i).fd ≡ pos n)
          × (live m.pfds m.max_idx ≤ m.max_idx)
      facts = (v.count, v.bound, at.within, at.here, live-le m.pfds m.max_idx)

  pub vacate-IsValid : IsValid (vacate i m)
  unfolding vacate
  vacate-IsValid = record {
    bound = ground (arith, v.bound, at.within);
    count = vacate-count;
    paired = λ j h. ground (arith, v.paired j, v.bound, at.within);
    distinct = λ a b h g e u. ground (arith, v.distinct a b, v.bound, at.within);
    handled = λ j h u. ground (arith, v.handled j, v.bound, at.within);
    vacant = λ j h u. ground (arith, v.vacant j, v.bound, at.within);
    quiet = λ j u. ground (arith, v.quiet j, v.bound, at.within);
  }

module _ {C D : Type 0} (m : Manager C D) (v : IsValid m) where
  -- `event_add` keeps the table valid, on success and on every refusal.
  pub event_add-IsValid :
      (efd : ℤ) (events : Mask) (p_data : Option D) (callback : Option C)
      → IsValid (event_add efd events p_data callback m).1
  unfolding event_add
  event_add-IsValid efd events p_data none = v
  event_add-IsValid (negsuc n) events p_data (some callback) = v
  event_add-IsValid (pos n) events p_data (some callback) = elim (Bool-cases (has_flags events)) [
    | inr e ↦ rw e v
    | inl e ↦ rw e (elim (get_idx_cases m v n) [
      | inl (i, found, at) ↦ rw found v
      | inr (missing, new) ↦ rw missing (elim (Bool-cases (max_events == m.num_events)) [
        | inl full ↦ rw full v
        | inr room ↦ rw room (
            fill-IsValid m v _ _ n (choose_slot-IsOpen m v (ground arith)) new events p_data
              callback (ground arith))
      ])
    ])
  ]

  -- `event_modify` keeps the table valid, on success and on every refusal.
  pub event_modify-IsValid : (efd : ℤ) (events : Mask) → IsValid (event_modify efd events m).1
  unfolding event_modify
  event_modify-IsValid (negsuc n) events = v
  event_modify-IsValid (pos n) events = elim (Bool-cases (has_flags events)) [
    | inr e ↦ rw e v
    | inl e ↦ rw e (elim (get_idx_cases m v n) [
      | inl (i, found, at) ↦ rw found (refit-IsValid m v i n at events)
      | inr (missing, new) ↦ rw missing v
    ])
  ]

  -- `event_remove` keeps the table valid, on success and on every refusal.
  pub event_remove-IsValid : (efd : ℤ) → IsValid (event_remove efd m).1
  unfolding event_remove
  event_remove-IsValid (negsuc n) = v
  event_remove-IsValid (pos n) = elim (get_idx_cases m v n) [
    | inl (i, found, at) ↦ rw found (vacate-IsValid m v i n at)
    | inr (missing, new) ↦ rw missing v
  ]
