-- ===== src/Event/Quiet.antt =====
-- The slot of a descriptor that has just been added or modified holds no flags: src/event.c counts
-- on it while a round of its loop is under way.
use nacl_proxy.Base.{
  ℕ, ◌<◌, ◌≡◌, ◌≢◌, ap, inl, inr, Option, none, some, pos, ◌==◌, Bool-cases, arith,
}
use nacl_proxy.Errors.{proxy_success}
use nacl_proxy.Event.{
  Mask, no_flags, has_flags, Manager, max_events, fill, refit, event_add, event_modify,
}
use nacl_proxy.Event.Index.{At}
use nacl_proxy.Event.Invariant.{
  IsValid, IsOpen, get_idx_cases, choose_slot-IsOpen, filled, event_add-IsValid,
  event_modify-IsValid,
}

-- `m'` is what a successful call for the descriptor `n` has made of `m`.
pub data Changed {C D : Type 0} (m : Manager C D) (n : ℕ) (m' : Manager C D) : Type 0 where
  added :
      (events : Mask) (p_data : Option D) (callback : Option C)
      → event_add (pos n) events p_data callback m ≡ (proxy_success, m')
      → Changed m n m'
  modified : (events : Mask) → event_modify (pos n) events m ≡ (proxy_success, m') → Changed m n m'

module _ {C D : Type 0} (m : Manager C D) (v : IsValid m) where
  fill-quiet :
      (i k n : ℕ) (o : IsOpen m i k) (new : (j : ℕ) → ¬ At m (pos n) j) (events : Mask)
      (p_data : Option D) (callback : C) (room : max_events ≢ m.num_events) (j : ℕ)
      → At (filled m v i k n o new events p_data callback room) (pos n) j
      → ((filled m v i k n o new events p_data callback room).pfds j).revents ≡ no_flags
  unfolding fill
  fill-quiet i k n o new events p_data callback room j at = ground (arith, v.quiet i, o.shape, old)
    where
      old : j < m.max_idx → (m.pfds j).fd ≢ pos n
      old h e = new j (record { within = h; here = e })

  event_add-quiet :
      (n j : ℕ) (events : Mask) (p_data : Option D) (callback : Option C)
      → (event_add (pos n) events p_data callback m).0 ≡ proxy_success
      → At (event_add (pos n) events p_data callback m).1 (pos n) j
      → ((event_add (pos n) events p_data callback m).1.pfds j).revents ≡ no_flags
  unfolding event_add
  event_add-quiet n j events p_data none = λ done at. cc
  event_add-quiet n j events p_data (some callback) = elim (Bool-cases (has_flags events)) [
    | inr e ↦ rw e (λ done at. cc)
    | inl e ↦ rw e (elim (get_idx_cases m v n) [
      | inl (i, found, _) ↦ rw found (λ done at. cc)
      | inr (missing, new) ↦ rw missing (elim (Bool-cases (max_events == m.num_events)) [
        | inl full ↦ rw full (λ done at. cc)
        | inr room ↦ rw room λ done at.
            fill-quiet _ _ n (choose_slot-IsOpen m v (ground arith)) new events p_data callback
              (ground arith) j at
      ])
    ])
  ]

  event_modify-quiet :
      (n j : ℕ) (events : Mask)
      → (event_modify (pos n) events m).0 ≡ proxy_success
      → At (event_modify (pos n) events m).1 (pos n) j
      → ((event_modify (pos n) events m).1.pfds j).revents ≡ no_flags
  unfolding event_modify refit
  event_modify-quiet n j events = elim (Bool-cases (has_flags events)) [
    | inr e ↦ rw e (λ done at. cc)
    | inl e ↦ rw e (elim (get_idx_cases m v n) [
      | inr (missing, _) ↦ rw missing (λ done at. cc)
      | inl (i, found, old) ↦
          rw found
            λ done at. ground (arith, v.distinct i j, old.within, old.here, at.within, at.here)
    ])
  ]

  pub Changed-IsValid : {n : ℕ} (m' : Manager C D) → Changed m n m' → IsValid m'
  Changed-IsValid {n} m' (added events p_data callback e) =
      rw (ap (λ r. r.1) e) at (event_add-IsValid m v (pos n) events p_data callback)
  Changed-IsValid {n} m' (modified events e) =
      rw (ap (λ r. r.1) e) at (event_modify-IsValid m v (pos n) events)

  pub Changed-quiet :
      {n : ℕ} (j : ℕ) (m' : Manager C D)
      → Changed m n m'
      → At m' (pos n) j
      → (m'.pfds j).revents ≡ no_flags
  Changed-quiet {n} j m' (added events p_data callback e) =
      rw (ap (λ r. r.1) e) at (event_add-quiet n j events p_data callback (ap (λ r. r.0) e))
  Changed-quiet {n} j m' (modified events e) =
      rw (ap (λ r. r.1) e) at (event_modify-quiet n j events (ap (λ r. r.0) e))
