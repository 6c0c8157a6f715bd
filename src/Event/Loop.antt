-- ===== src/Event/Loop.antt =====
-- `handle_event`, `event_run_loop` and `event_teardown` of src/event.c. The callbacks and the system
-- are parameters: `S` is the whole state, `table` its event table and `call` runs a callback. The
-- outer loop runs while the flag is 1 and takes fuel, one unit a poll; the inner loop takes
-- `max_events + 1` units.
pub mod Keeps
pub mod Dispatch
pub mod Runs
pub mod Teardown
use nacl_proxy.Base.{
  ℕ, zero, suc, ◌+◌, ◌-◌, ◌≤◌, ◌<◌, ◌≡◌, ◌≢◌, refl, ◌⊎◌, inl, inr, Bool, true, false, Option, none,
  some, ℤ, pos, negsuc, minus_one, int_eq, is_nonneg, ltb, ◌==◌, if◌then◌else◌, Bool-cases,
  Option-cases, write, arith,
}
use nacl_proxy.Errors.{proxy_err, proxy_intr, proxy_success, assert_failed}
use nacl_proxy.Event.{
  Mask, no_flags, has_flags, Pollfd, Event, Manager, max_events, get_event_from_fd, get_idx_from_fd,
}
use nacl_proxy.Event.Index.{IsFree, At}
use nacl_proxy.Event.Invariant.{IsValid, get_idx_cases}

-- `poll`: -1 with errno, or the number of ready descriptors and the flags of each slot
pub data Polled : Type 0 where
  failed : ℕ → Polled
  ready : ℕ → (ℕ → Mask) → Polled

abbrev pub eintr : ℕ
eintr = 4

-- What the loop uses of the rest of the program and of the system.
pub record Host (C D S : Type 0) : Type 0 where
  pub table : S → Manager C D
  pub put_table : Manager C D → S → S
  pub call : C → ℤ → Mask → Option D → S → ℤ × S
  pub poll : S → Polled × S
  pub run_flag : S → ℤ

-- The outcome of a loop: its return code, or the fuel ran out.
pub data Outcome (S : Type 0) : Type 0 where
  returned : ℤ → S → Outcome S
  out_of_fuel : S → Outcome S

module _ {C D : Type 0} where
  -- what `poll` leaves in the first `max_idx` slots
  pub store_revents : (ℕ → Mask) → Manager C D → Manager C D
  store_revents masks m = record m {
    pfds = λ i. if ltb i m.max_idx then record (m.pfds i) { revents = masks i } else m.pfds i;
  }

module _ {C D S : Type 0} (host : Host C D S) where
  open host use {table, put_table, call, poll, run_flag}

  -- `p_event->callback(p_event->fd, p_pfd->revents, p_event->data)`; a NULL callback is a fault of
  -- the program, here `none`
  pub fire : Option C → ℤ → Mask → Option D → S → Option (ℤ × S)
  fire none efd revents p_data s = none
  fire (some callback) efd revents p_data s = some (call callback efd revents p_data s)

  pub handle_found : Option (Event C D) → Mask → S → Option (ℤ × S)
  unfolding fire
  handle_found none revents s = some (proxy_err, s)
  handle_found (some e) revents s =
      if has_flags revents
      then fire e.callback e.fd revents e.user_data s
      else some (proxy_success, s)

  -- `idx` is a cast loop counter, so `-1 < idx` holds.
  pub handle_event : ℕ → S → Option (ℤ × S)
  unfolding handle_found
  handle_event idx s =
      let p = (table s).pfds idx in
      if int_eq minus_one p.fd
      then some (proxy_success, s)
      else handle_found (get_event_from_fd p.fd (table s)) p.revents s

  -- The inner loop from `idx` on: `none` is a fault; the code is the first one that is not 0.
  pub dispatch : ℕ → ℕ → S → Option (Outcome S)
  unfolding handle_event
  dispatch zero idx s = some (out_of_fuel s)
  dispatch (suc fuel) idx s = elim (ltb idx (table s).max_idx) [
    | false ↦ some (returned proxy_success s)
    | true ↦ elim (handle_event idx s) [
      | none ↦ none
      | some (err, s') ↦ elim (int_eq proxy_success err) [
        | true ↦ dispatch fuel (idx + 1) s'
        | false ↦ some (returned err s')
      ]
    ]
  ]

  -- the round after a `poll` that succeeded
  pub round : ℕ → (ℕ → Mask) → S → Option (Outcome S)
  unfolding dispatch store_revents
  round poll_ct masks s =
      let s' = put_table (store_revents masks (table s)) s in
      if ltb 0 poll_ct then dispatch (max_events + 1) 0 s' else some (returned proxy_success s')

  pub event_run_loop : ℕ → S → Option (Outcome S)
  unfolding round
  event_run_loop zero s = some (out_of_fuel s)
  event_run_loop (suc fuel) s = elim (int_eq (pos 1) (run_flag s)) [
    | false ↦ some (returned proxy_success s)
    | true ↦
        let (reply, s') = poll s in
        elim reply [
          | failed errno ↦ some (returned (if errno == eintr then proxy_intr else proxy_err) s')
          | ready poll_ct masks ↦ elim (round poll_ct masks s') [
            | none ↦ none
            | some (out_of_fuel s'') ↦ some (out_of_fuel s'')
            | some (returned err s'') ↦ elim (int_eq proxy_success err) [
              | true ↦ event_run_loop fuel s''
              | false ↦ some (returned err s'')
            ]
          ]
        ]
  ]

module _ {C D S : Type 0} (close : ℤ → S → S) where
  -- A teardown step: `close` and `custom_free` act on the rest of the state.
  pub teardown_slot : Option (Option D → S → S) → ℕ → Manager C D × S → Manager C D × S
  teardown_slot custom_free idx (m, s) =
      let s' = if is_nonneg (m.events idx).fd then close (m.events idx).fd s else s in
      let s'' : S = elim custom_free [ none ↦ s' | some free ↦ free (m.events idx).user_data s' ] in
      (
        record m {
          pfds =
              write m.pfds idx (record { fd = minus_one; events = no_flags; revents = no_flags });
          events =
              write m.events idx (record { callback = none; user_data = none; fd = minus_one });
        },
        s'',
      )

  -- The loop over `n` slots from `idx`.
  pub teardown_from : ℕ → Option (Option D → S → S) → ℕ → Manager C D × S → Manager C D × S
  unfolding teardown_slot
  teardown_from zero custom_free idx r = r
  teardown_from (suc n) custom_free idx r =
      teardown_from n custom_free (idx + 1) (teardown_slot custom_free idx r)

  pub event_teardown : Option (Option D → S → S) → Manager C D → S → Manager C D × S
  unfolding teardown_from
  event_teardown custom_free m s = teardown_from m.max_idx custom_free 0 (m, s)
