-- ===== src/Event.antt =====
-- src/event.c: the event table `g_mgr` and its operations. The two fixed arrays are functions of the
-- index. `C` is the type of callback pointers and `D` that of user data; `none` is NULL. A mask of poll
-- flags is its five bits. Builds have NDEBUG, so a failed `ASSERT_RET` returns -1.
pub mod Index
pub mod Count
pub mod Invariant
pub mod Lookup
pub mod Quiet
pub mod Registry
pub mod Found
pub mod Full
pub mod Tests
pub mod Loop
use nacl_proxy.Base.{
  ℕ, zero, suc, ◌+◌, ◌-◌, ◌^◌, Bool, false, ◌||◌, Option, none, some, ℤ, pos, minus_one, int_eq,
  is_nonneg, to_size, inc64, dec64, ◌==◌, if◌then◌else◌, write,
}
use nacl_proxy.Errors.{proxy_err, proxy_max_events, proxy_success, assert_failed}

-- `short events` and `short revents`
pub record Mask : Type 0 where
  pub pollin : Bool
  pub pollout : Bool
  pub pollerr : Bool
  pub pollhup : Bool
  pub pollnval : Bool

abbrev pub no_flags : Mask
no_flags = record {
  pollin = false;
  pollout = false;
  pollerr = false;
  pollhup = false;
  pollnval = false;
}

-- `0 != revents`
abbrev pub has_flags : Mask → Bool
has_flags r = r.pollin || (r.pollout || (r.pollerr || (r.pollhup || r.pollnval)))

pub record Pollfd : Type 0 where
  pub fd : ℤ
  pub events : Mask
  pub revents : Mask

pub record Event (C D : Type 0) : Type 0 where
  pub callback : Option C
  pub user_data : Option D
  pub fd : ℤ

pub record Manager (C D : Type 0) : Type 0 where
  pub pfds : ℕ → Pollfd
  pub events : ℕ → Event C D
  pub max_idx : ℕ
  pub num_events : ℕ

abbrev pub max_events : ℕ
max_events = 512

-- `(nfds_t)-1`
abbrev pub no_slot : ℕ
no_slot = 2 ^ 64 - 1

-- The loop of `event_add`: the first slot with fd -1 among `n` slots from `idx`, or `no_slot`.
pub find_free : ℕ → ℕ → (ℕ → Pollfd) → ℕ
find_free zero idx pfds = no_slot
find_free (suc n) idx pfds =
    let rest = find_free n (idx + 1) pfds in if int_eq minus_one (pfds idx).fd then idx else rest

abbrev zero_pollfd : Pollfd
zero_pollfd = record { fd = pos 0; events = no_flags; revents = no_flags }

module _ {C D : Type 0} where
  abbrev zero_event : Event C D
  zero_event = record { callback = none; user_data = none; fd = pos 0 }

  -- `g_mgr = {0}`
  pub init : Manager C D
  init = record { pfds = λ i. zero_pollfd; events = λ i. zero_event; max_idx = 0; num_events = 0 }

  -- The loop of `get_idx_from_fd` over `n` slots from `idx`.
  pub scan_fd : ℕ → ℕ → ℤ → Manager C D → ℤ
  scan_fd zero idx efd m = minus_one
  scan_fd (suc n) idx efd m =
      let rest = scan_fd n (idx + 1) efd m in
      if int_eq (m.pfds idx).fd efd
      then (if int_eq (m.pfds idx).fd (m.events idx).fd then pos idx else assert_failed)
      else rest

  pub get_idx_from_fd : ℤ → Manager C D → ℤ
  unfolding scan_fd
  get_idx_from_fd efd m = if is_nonneg efd then scan_fd m.max_idx 0 efd m else assert_failed

  pub get_event_from_fd : ℤ → Manager C D → Option (Event C D)
  get_event_from_fd efd m =
      let idx = get_idx_from_fd efd m in
      if int_eq minus_one idx then none else some (m.events (to_size idx))

  -- The writes of `event_add`, once the slot is known.
  pub fill : ℕ → ℤ → Mask → Option D → Option C → Manager C D → Manager C D
  fill i efd events p_data callback m = record m {
    pfds = write m.pfds i (record (m.pfds i) { fd = efd; events = events });
    events = write m.events i (record { callback = callback; user_data = p_data; fd = efd });
  }

  -- `insert_idx`, and `max_idx` after the slot has been chosen
  pub choose_slot : Manager C D → ℕ × ℕ
  unfolding find_free
  choose_slot m =
      let free = find_free m.max_idx 0 m.pfds in
      if no_slot == free then (m.max_idx, inc64 m.max_idx) else (free, m.max_idx)

  pub event_add : ℤ → Mask → Option D → Option C → Manager C D → ℤ × Manager C D
  unfolding choose_slot fill
  event_add efd events p_data none m = (assert_failed, m)
  event_add efd events p_data (some callback) m =
      if is_nonneg efd
      then (if has_flags events
          then (if is_nonneg (get_idx_from_fd efd m)
              then (proxy_err, m)
              else (if max_events == m.num_events
                  then (proxy_max_events, m)
                  else (let (insert_idx, max_idx) = choose_slot m in
                      (
                        proxy_success,
                        fill insert_idx efd events p_data (some callback)
                            (record m { max_idx = max_idx; num_events = inc64 m.num_events }),
                      ))))
          else (assert_failed, m))
      else (assert_failed, m)

  -- The writes of `event_modify`.
  pub refit : ℕ → ℤ → Mask → Manager C D → Manager C D
  refit i efd events m = record m {
    pfds = write m.pfds i (record { fd = efd; events = events; revents = no_flags });
    events = write m.events i (record (m.events i) { fd = efd });
  }

  pub event_modify : ℤ → Mask → Manager C D → ℤ × Manager C D
  unfolding refit
  event_modify efd events m =
      if is_nonneg efd
      then (if has_flags events
          then (let event_idx = get_idx_from_fd efd m in
              if int_eq minus_one event_idx
              then (proxy_err, m)
              else (proxy_success, refit (to_size event_idx) efd events m))
          else (assert_failed, m))
      else (assert_failed, m)

  -- The writes of `event_remove`.
  pub vacate : ℕ → Manager C D → Manager C D
  vacate i m = record {
    pfds = write m.pfds i (record { fd = minus_one; events = no_flags; revents = no_flags });
    events = write m.events i (record { callback = none; user_data = none; fd = minus_one });
    max_idx = if i == dec64 m.max_idx then dec64 m.max_idx else m.max_idx;
    num_events = dec64 m.num_events;
  }

  pub event_remove : ℤ → Manager C D → ℤ × Manager C D
  unfolding vacate
  event_remove efd m =
      if is_nonneg efd
      then (let event_idx = get_idx_from_fd efd m in
          if int_eq minus_one event_idx
          then (proxy_err, m)
          else (proxy_success, vacate (to_size event_idx) m))
      else (assert_failed, m)
