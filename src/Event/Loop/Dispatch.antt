-- ===== src/Event/Loop/Dispatch.antt =====
-- What a round of the event loop of src/event.c does.
use nacl_proxy.Base.{
  ℕ, zero, suc, ◌+◌, ◌≤◌, ◌<◌, ◌≡◌, refl, ◌⊎◌, inl, inr, false, ◌==◌, Option, some, ℤ, pos, negsuc,
  minus_one, ℤ-cases, Option-cases, if◌then◌else◌, arith,
}
use nacl_proxy.Errors.{proxy_success, proxy_err}
use nacl_proxy.Event.{
  Mask, no_flags, has_flags, Manager, max_events, get_event_from_fd, get_idx_from_fd,
}
use nacl_proxy.Event.Index.{At}
use nacl_proxy.Event.Invariant.{IsValid}
use nacl_proxy.Event.Quiet.{Changed, Changed-IsValid, Changed-quiet}
use nacl_proxy.Event.Loop.Keeps.{get_event-At, CallLaws, Returns, dispatch-Returns}
use nacl_proxy.Event.Loop.{Host, Outcome, fire, handle_found, handle_event, dispatch}

module _ {C D S : Type 0} (host : Host C D S) where
  open host use {table, call}

  -- What `handle_event` does for a slot.
  abbrev pub Handles : ℕ → S → Type 0
  Handles idx s =
      (((table s).pfds idx).fd ≡ minus_one) × (handle_event host idx s ≡ some (proxy_success, s))
      ⊎ ((n : ℕ) × (callback : C) × (((table s).pfds idx).fd ≡ pos n)
          × (((table s).events idx).callback ≡ some callback)
          × (handle_event host idx s
              ≡ some (
                  if has_flags ((table s).pfds idx).revents
                  then call callback (pos n) ((table s).pfds idx).revents
                      ((table s).events idx).user_data s
                  else (proxy_success, s))))
      ⊎ ((n : ℕ) × (((table s).pfds idx).fd ≡ negsuc (suc n))
          × (handle_event host idx s ≡ some (proxy_err, s)))

  used_slot :
      (idx : ℕ) (s : S) (n : ℕ) (callback : C)
      → IsValid (table s)
      → idx < (table s).max_idx
      → ((table s).pfds idx).fd ≡ pos n
      → ((table s).events idx).callback ≡ some callback
      → handle_event host idx s
        ≡ some (
            if has_flags ((table s).pfds idx).revents
            then call callback
                (pos n)
                ((table s).pfds idx).revents
                ((table s).events idx).user_data
                s
            else (proxy_success, s))
  unfolding handle_event handle_found fire
  used_slot idx s n callback v h used cb =
      rw
        (
          used,
          get_event-At (table s) v n idx (record { within = h; here = used }),
          cb,
          ← v.paired idx h,
          used,
        )
        (ground arith)

  free_slot :
      (idx : ℕ) (s : S)
      → ((table s).pfds idx).fd ≡ minus_one
      → handle_event host idx s ≡ some (proxy_success, s)
  unfolding handle_event
  free_slot idx s free = rw free refl

  bad_slot :
      (idx n : ℕ) (s : S)
      → ((table s).pfds idx).fd ≡ negsuc (suc n)
      → handle_event host idx s ≡ some (proxy_err, s)
  unfolding handle_event handle_found get_event_from_fd get_idx_from_fd
  bad_slot idx n s bad = let no_free : (0 == suc n) ≡ false = ground arith in rw (bad, no_free) refl

  -- In a valid table, for each of its slots: `handle_event` passes over a free slot and returns
  -- PROXY_SUCCESS. A slot in use has a callback, and `handle_event` runs it, with the slot's descriptor,
  -- flags and argument, if flags are set, and returns PROXY_SUCCESS if not. For a slot with a negative
  -- descriptor other than -1 it returns PROXY_ERR.
  pub handle_event_lem :
      (idx : ℕ) (s : S) → IsValid (table s) → idx < (table s).max_idx → Handles idx s
  handle_event_lem idx s v h = elim (ℤ-cases ((table s).pfds idx).fd) [
    | inr (zero, free) ↦ inl (free, free_slot idx s free)
    | inr (suc n, bad) ↦ inr (inr (n, bad, bad_slot idx n s bad))
    | inl (n, used) ↦ elim (Option-cases ((table s).events idx).callback) [
      | inl null ↦ absurd (v.handled idx h (λ free. ground (arith, used, free)) null)
      | inr (callback, cb) ↦
          inr (inl (n, callback, used, cb, used_slot idx s n callback v h used cb))
    ]
  ]

-- Callbacks keep the table valid: they change it by the operations of src/event.c alone.
abbrev pub Keeps : {C D S : Type 0} → Host C D S → Type 0
Keeps {C} {D} {S} host =
    (c : C) (efd : ℤ) (r : Mask) (d : Option D) (s : S)
    → IsValid (host.table s)
    → IsValid (host.table (host.call c efd r d s).1)

-- a round that has ended with a valid table
abbrev pub Ended : {C D S : Type 0} → Host C D S → Option (Outcome S) → Type 0
Ended {C} {D} {S} host = Returns (λ s. IsValid (host.table s))

pub table_laws :
    {C D S : Type 0} (host : Host C D S) → Keeps host → CallLaws host (λ s. IsValid (host.table s))
table_laws host keeps = record {
  valid = λ s v. v;
  calls = λ s n events revents c d v flags found. keeps c (pos n) revents d s v;
}

module _ {C D S : Type 0} (host : Host C D S) (keeps : Keeps host) where
  open host use {table}

  -- In a valid table, with callbacks that keep it valid, the inner loop ends with a code and a valid
  -- table, having called no NULL callback: `max_events + 1` rounds from the first slot are enough,
  -- whatever the callbacks register or remove.
  pub dispatch-Ended :
      (fuel idx : ℕ) (s : S)
      → IsValid (table s)
      → idx ≤ max_events
      → max_events < fuel + idx
      → Ended host (dispatch host fuel idx s)
  dispatch-Ended = dispatch-Returns host (λ s. IsValid (table s)) (table_laws host keeps)

module _ {C D S : Type 0} (host : Host C D S) where
  open host use {table}

  quiet_is_skipped :
      (idx n : ℕ) (s : S)
      → IsValid (table s)
      → At (table s) (pos n) idx
      → ((table s).pfds idx).revents ≡ no_flags
      → handle_event host idx s ≡ some (proxy_success, s)
  unfolding handle_event handle_found
  quiet_is_skipped idx n s v at q = rw (at.here, get_event-At (table s) v n idx at, q)

  -- If a successful `event_add` or `event_modify` for a descriptor has made the table what it is, from a
  -- valid table, then `handle_event` passes over the descriptor's slot and returns PROXY_SUCCESS.
  pub Changed-skipped :
      (idx n : ℕ) (m : Manager C D) (s : S)
      → IsValid m
      → Changed m n (table s)
      → At (table s) (pos n) idx
      → handle_event host idx s ≡ some (proxy_success, s)
  Changed-skipped idx n m s v change at =
      quiet_is_skipped idx n s (Changed-IsValid m v (table s) change) at
        (Changed-quiet m v idx (table s) change at)
