-- ===== src/Event/Lookup.antt =====
-- The event table of src/event.c as a finite map from descriptors to registrations.
use nacl_proxy.Base.{
  ℕ, ◌<◌, ◌≡◌, ◌≢◌, refl, ◌∙◌, sym, ap, inl, inr, Option, none, some, ℤ, pos, negsuc, int_eq, ◌==◌,
  if◌then◌else◌, Bool-cases, arith,
}
use nacl_proxy.Event.{Mask, Manager, max_events, init, fill, refit, vacate, get_idx_from_fd}
use nacl_proxy.Event.Index.{At}
use nacl_proxy.Event.Invariant.{
  IsValid, IsOpen, get_idx_cases, filled, fill-IsValid, refit-IsValid, vacate-IsValid,
}

-- What is registered for a descriptor: the awaited events, the callback and its argument.
abbrev pub Entry : Type 0 → Type 0 → Type 0
Entry C D = Mask × Option C × Option D

module _ {C D : Type 0} where
  abbrev pub entry : Manager C D → ℕ → Entry C D
  entry m i = ((m.pfds i).events, (m.events i).callback, (m.events i).user_data)

  abbrev pub at_index : Manager C D → ℤ → Option (Entry C D)
  at_index m (pos i) = some (entry m i)
  at_index m (negsuc i) = none

  pub lookup : Manager C D → ℤ → Option (Entry C D)
  lookup m efd = at_index m (get_idx_from_fd efd m)

  pub lookup_negsuc : (m : Manager C D) (n : ℕ) → lookup m (negsuc n) ≡ none
  unfolding lookup get_idx_from_fd
  lookup_negsuc m n = refl

-- An empty table registers nothing.
pub lookup-init : {C D : Type 0} (x : ℤ) → lookup (init {C = C} {D = D}) x ≡ none
unfolding lookup init get_idx_from_fd
lookup-init (pos n) = refl
lookup-init (negsuc n) = refl

module _ {C D : Type 0} (m : Manager C D) (v : IsValid m) where
  pub lookup-At : (n i : ℕ) → At m (pos n) i → lookup m (pos n) ≡ some (entry m i)
  unfolding lookup
  lookup-At n i at = elim (get_idx_cases m v n) [
    | inl (j, e, at') ↦
        let same : j ≡ i =
          ground (arith, v.distinct j i, at.within, at.here, at'.within, at'.here) in
        rw (e, same)
    | inr (e, new) ↦ absurd (new i at)
  ]

  pub lookup_missing : (n : ℕ) → ((i : ℕ) → ¬ At m (pos n) i) → lookup m (pos n) ≡ none
  unfolding lookup
  lookup_missing n new = elim (get_idx_cases m v n) [
    | inl (j, e, at') ↦ absurd (new j at')
    | inr (e, _) ↦ rw e
  ]

-- Two tables with the same slots for a descriptor register the same for it.
module _ {C D : Type 0} (m m' : Manager C D) (v : IsValid m) (v' : IsValid m') where
  pub lookup_transfer :
      (n : ℕ)
      → ((i : ℕ) → At m (pos n) i → At m' (pos n) i × (entry m' i ≡ entry m i))
      → ((i : ℕ) → At m' (pos n) i → At m (pos n) i)
      → lookup m' (pos n) ≡ lookup m (pos n)
  lookup_transfer n there back = elim (get_idx_cases m v n) [
    | inl (j, e, at) ↦
        let moved : At m' (pos n) j × (entry m' j ≡ entry m j) = there j at in
        rw (lookup-At m' v' n j moved.0, lookup-At m v n j at, moved.1)
    | inr (e, new) ↦
        rw (lookup_missing m' v' n (λ i at. new i (back i at)), lookup_missing m v n new)
  ]

-- `event_add` into an open slot binds the descriptor, and no other.
module _ {C D : Type 0} (m : Manager C D) (v : IsValid m) (i k n : ℕ) (o : IsOpen m i k)
    (new : (j : ℕ) → ¬ At m (pos n) j) (events : Mask) (p_data : Option D) (callback : C)
    (room : max_events ≢ m.num_events) where
  abbrev pub after : Manager C D
  after = filled m v i k n o new events p_data callback room

  pub lookup-fill :
      (x : ℤ)
      → lookup after x
        ≡ (if int_eq (pos n) x then some (events, some callback, p_data) else lookup m x)
  unfolding fill
  lookup-fill (negsuc x) = lookup_negsuc after x ∙ sym (lookup_negsuc m x)
  lookup-fill (pos x) = elim (Bool-cases (n == x)) [
    | inl e ↦
        let at : At after (pos x) i = record { within = o.slot; here = ground arith } in
        rw e (lookup-At after after-valid x i at ∙ ap some here)
    | inr e ↦ rw e (
        lookup_transfer m after v after-valid x
          (λ j at. (
            record {
              within = ground (arith, o.shape, at.within);
              here = ground (arith, moved j at);
            },
            ground (arith, moved j at),
          ))
          (λ j at. record {
            within = ground (arith, o.shape, at.within, at.here);
            here = ground (arith, at.here);
          }))
  ]
    where
      after-valid : IsValid after
      after-valid = fill-IsValid m v i k n o new events p_data callback room

      here : entry after i ≡ (events, some callback, p_data)
      here = ground arith

      moved : (j : ℕ) → At m (pos x) j → (j ≢ i) × ((m.pfds j).fd ≡ pos x)
      moved j at = ground (arith, o.shape, at.within, at.here)

module _ {C D : Type 0} (m : Manager C D) (v : IsValid m) (i n : ℕ) (at : At m (pos n) i) where
  -- `event_modify` changes the awaited events of the descriptor, and nothing else.
  pub lookup-refit :
      (events : Mask) (x : ℤ)
      → lookup (refit i (pos n) events m) x ≡ (
          if int_eq (pos n) x
          then some (events, (m.events i).callback, (m.events i).user_data)
          else lookup m x)
  unfolding refit
  lookup-refit events (negsuc x) =
      lookup_negsuc (refit i (pos n) events m) x ∙ sym (lookup_negsuc m x)
  lookup-refit events (pos x) = elim (Bool-cases (n == x)) [
    | inl e ↦
        let at' : At (refit i (pos n) events m) (pos x) i = record {
          within = at.within;
          here = ground arith;
        } in
        rw e (lookup-At _ (refit-IsValid m v i n at events) x i at' ∙ ap some (ground arith))
    | inr e ↦ rw e (
        lookup_transfer m (refit i (pos n) events m) v (refit-IsValid m v i n at events) x
          (λ j old. (
            record { within = old.within; here = ground (arith, old.here, at.here) },
            ground (arith, old.here, at.here),
          ))
          (λ j old. record { within = old.within; here = ground (arith, old.here, at.here) }))
  ]

  -- `event_remove` unbinds the descriptor, and no other.
  pub lookup-vacate :
      (x : ℤ) → lookup (vacate i m) x ≡ (if int_eq (pos n) x then none else lookup m x)
  unfolding vacate
  lookup-vacate (negsuc x) = lookup_negsuc _ x ∙ sym (lookup_negsuc m x)
  lookup-vacate (pos x) = elim (Bool-cases (n == x)) [
    | inl e ↦ rw e (
        lookup_missing (vacate i m) (vacate-IsValid m v i n at) x (λ j old.
          ground (arith, kept j old.within, old.here, at.here, at.within, v.distinct i j)))
    | inr e ↦ rw e (
        lookup_transfer m (vacate i m) v (vacate-IsValid m v i n at) x
          (λ j old. (
            record {
              within = ground (arith, old.within, old.here, at.here, at.within, v.bound);
              here = ground (arith, old.here, at.here);
            },
            ground (arith, old.here, at.here),
          ))
          (λ j old. record {
            within = kept j old.within;
            here = ground (arith, old.here, at.here);
          }))
  ]
    where
      kept : (j : ℕ) → j < (vacate i m).max_idx → j < m.max_idx
      kept j h = ground (arith, v.bound, at.within)
