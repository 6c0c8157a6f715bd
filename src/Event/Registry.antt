-- ===== src/Event/Registry.antt =====
-- What src/event.c promises its clients: a bounded map from descriptors to registrations.
use nacl_proxy.Base.{
  ℕ, ◌+◌, ◌-◌, ◌≡◌, refl, fun_ext, inl, inr, Option, none, some, ℤ, pos, negsuc, int_eq, is_nonneg,
  ◌==◌, if◌then◌else◌, Bool-cases, List, [], ◌∷◌, minus_one, inc64, dec64, arith,
}
use nacl_proxy.Errors.{proxy_err, proxy_max_events, proxy_success, assert_failed}
use nacl_proxy.Event.{
  Mask, has_flags, Manager, max_events, event_add, event_modify, event_remove, choose_slot,
}
use nacl_proxy.Event.Index.{At}
use nacl_proxy.Event.Count.{live-le, live-write}
use nacl_proxy.Event.Invariant.{
  IsValid, IsOpen, get_idx_cases, choose_slot-IsOpen, event_add-IsValid, event_modify-IsValid,
  event_remove-IsValid,
}
use nacl_proxy.Event.Lookup.{
  Entry, lookup, lookup-At, lookup_missing, lookup-fill, lookup-refit, lookup-vacate,
}

pub record Registry (C D : Type 0) : Type 0 where
  pub binds : ℤ → Option (Entry C D)
  pub size : ℕ

module _ {C D : Type 0} where
  abbrev pub view : Manager C D → Registry C D
  view m = record { binds = lookup m; size = m.num_events }

  abbrev bind : ℤ → Option (Entry C D) → (ℤ → Option (Entry C D)) → ℤ → Option (Entry C D)
  bind efd e binds x = if int_eq efd x then e else binds x

  -- the registry's own operations, with the codes that they return
  abbrev add_to : Option (Entry C D) → ℤ → Entry C D → Registry C D → ℤ × Registry C D
  add_to (some _) efd e r = (proxy_err, r)
  add_to none efd e r =
      if max_events == r.size
      then (proxy_max_events, r)
      else (proxy_success, record { binds = bind efd (some e) r.binds; size = r.size + 1 })

  abbrev pub add : ℤ → Mask → Option D → Option C → Registry C D → ℤ × Registry C D
  add efd events p_data none r = (assert_failed, r)
  add efd events p_data (some callback) r =
      if is_nonneg efd
      then (if has_flags events
          then add_to (r.binds efd) efd (events, some callback, p_data) r
          else (assert_failed, r))
      else (assert_failed, r)

  abbrev modify_to : Option (Entry C D) → ℤ → Mask → Registry C D → ℤ × Registry C D
  modify_to none efd events r = (proxy_err, r)
  modify_to (some (_, callback, p_data)) efd events r =
      (proxy_success, record r { binds = bind efd (some (events, callback, p_data)) r.binds })

  abbrev pub modify : ℤ → Mask → Registry C D → ℤ × Registry C D
  modify efd events r =
      if is_nonneg efd
      then (if has_flags events then modify_to (r.binds efd) efd events r else (assert_failed, r))
      else (assert_failed, r)

  abbrev remove_to : Option (Entry C D) → ℤ → Registry C D → ℤ × Registry C D
  remove_to none efd r = (proxy_err, r)
  remove_to (some _) efd r =
      (proxy_success, record { binds = bind efd none r.binds; size = r.size - 1 })

  abbrev pub remove : ℤ → Registry C D → ℤ × Registry C D
  remove efd r = if is_nonneg efd then remove_to (r.binds efd) efd r else (assert_failed, r)

-- the result of an operation of the table, seen as a registry
abbrev pub seen : {C D : Type 0} → ℤ × Manager C D → ℤ × Registry C D
seen (code, m) = (code, view m)

registry_path :
    {C D : Type 0} {f g : ℤ → Option (Entry C D)} {a b : ℕ}
    → ((x : ℤ) → f x ≡ g x)
    → a ≡ b
    → ◌≡◌ {A = Registry C D} (record { binds = f; size = a }) (record { binds = g; size = b })
registry_path h e = λ i. record { binds = fun_ext h i; size = e i }

module _ {C D : Type 0} (m : Manager C D) (v : IsValid m) where
  -- In a valid table `event_add` returns and does what the registry's `add` does.
  pub event_add_refines :
      (efd : ℤ) (events : Mask) (p_data : Option D) (callback : Option C)
      → seen (event_add efd events p_data callback m) ≡ add efd events p_data callback (view m)
  unfolding event_add
  event_add_refines efd events p_data none = refl
  event_add_refines (negsuc n) events p_data (some callback) = refl
  event_add_refines (pos n) events p_data (some callback) = elim (Bool-cases (has_flags events)) [
    | inr e ↦ rw e
    | inl e ↦ rw e (elim (get_idx_cases m v n) [
      | inl (i, found, at) ↦ rw (found, lookup-At m v n i at)
      | inr (missing, new) ↦
          rw (missing, lookup_missing m v n new)
            (elim (Bool-cases (max_events == m.num_events)) [
              | inl full ↦ rw full
              | inr room ↦
                  let o : IsOpen m (choose_slot m).0 (choose_slot m).1 =
                    choose_slot-IsOpen m v (ground arith) in
                  rw room λ i. (
                    proxy_success,
                    registry_path
                        (lookup-fill m v _ _ n o new events p_data callback (ground arith)) grown i,
                  )
            ])
    ])
  ]
    where
      grown : inc64 m.num_events ≡ m.num_events + 1
      grown = omega (arith, v.count, v.bound, live-le m.pfds m.max_idx)

  -- In a valid table `event_modify` returns and does what the registry's `modify` does.
  pub event_modify_refines :
      (efd : ℤ) (events : Mask) → seen (event_modify efd events m) ≡ modify efd events (view m)
  unfolding event_modify
  event_modify_refines (negsuc n) events = refl
  event_modify_refines (pos n) events = elim (Bool-cases (has_flags events)) [
    | inr e ↦ rw e
    | inl e ↦ rw e (elim (get_idx_cases m v n) [
      | inl (i, found, at) ↦
          rw (found, lookup-At m v n i at)
            λ k. (
              proxy_success,
              registry_path {b = m.num_events} (lookup-refit m v i n at events) refl k,
            )
      | inr (missing, new) ↦ rw (missing, lookup_missing m v n new)
    ])
  ]

  -- In a valid table `event_remove` returns and does what the registry's `remove` does.
  pub event_remove_refines : (efd : ℤ) → seen (event_remove efd m) ≡ remove efd (view m)
  unfolding event_remove
  event_remove_refines (negsuc n) = refl
  event_remove_refines (pos n) = elim (get_idx_cases m v n) [
    | inl (i, found, at) ↦
        rw (found, lookup-At m v n i at)
          λ k. (proxy_success, registry_path (lookup-vacate m v i n at) (shrunk i at) k)
    | inr (missing, new) ↦ rw (missing, lookup_missing m v n new)
  ]
    where
      shrunk : (i : ℕ) → At m (pos n) i → dec64 m.num_events ≡ m.num_events - 1
      shrunk i at = ground (
        arith,
        v.count,
        v.bound,
        at.within,
        at.here,
        live-le m.pfds m.max_idx,
        live-write m.pfds m.max_idx i (record (m.pfds i) { fd = minus_one }),
      )

-- A client's call of the event table.
pub data Call (C D : Type 0) : Type 0 where
  adds : ℤ → Mask → Option D → Option C → Call C D
  modifies : ℤ → Mask → Call C D
  removes : ℤ → Call C D

module _ {C D : Type 0} where
  abbrev pub step : Manager C D → Call C D → ℤ × Manager C D
  step m (adds efd events p_data callback) = event_add efd events p_data callback m
  step m (modifies efd events) = event_modify efd events m
  step m (removes efd) = event_remove efd m

  unfoldable pub run : Manager C D → List (Call C D) → List ℤ
  run m [] = []
  run m (c ∷ cs) = let (code, m') = step m c in code ∷ run m' cs

  abbrev spec_step : Registry C D → Call C D → ℤ × Registry C D
  spec_step r (adds efd events p_data callback) = add efd events p_data callback r
  spec_step r (modifies efd events) = modify efd events r
  spec_step r (removes efd) = remove efd r

  pub spec_run : Registry C D → List (Call C D) → List ℤ
  spec_run r [] = []
  spec_run r (c ∷ cs) = let (code, r') = spec_step r c in code ∷ spec_run r' cs

  step-IsValid : (m : Manager C D) (c : Call C D) → IsValid m → IsValid (step m c).1
  step-IsValid m (adds efd events p_data callback) v =
      event_add-IsValid m v efd events p_data callback
  step-IsValid m (modifies efd events) v = event_modify-IsValid m v efd events
  step-IsValid m (removes efd) v = event_remove-IsValid m v efd

  step_refines :
      (m : Manager C D) (c : Call C D) → IsValid m → seen (step m c) ≡ spec_step (view m) c
  step_refines m (adds efd events p_data callback) v =
      event_add_refines m v efd events p_data callback
  step_refines m (modifies efd events) v = event_modify_refines m v efd events
  step_refines m (removes efd) v = event_remove_refines m v efd

  -- Any sequence of calls of `event_add`, `event_modify` and `event_remove` on a valid table returns the
  -- codes that a map from descriptors, bounded by 512 entries, returns.
  pub run_refines :
      (cs : List (Call C D)) (m : Manager C D) → IsValid m → run m cs ≡ spec_run (view m) cs
  unfolding run spec_run
  run_refines [] m v = refl
  run_refines (c ∷ cs) m v =
      rw (← step_refines m c v, run_refines cs (step m c).1 (step-IsValid m c v))
