-- ===== src/Event/Loop/Keeps.antt =====
-- What the event loop of src/event.c keeps: a property of the whole state that callbacks keep for
-- the registrations of the table, and that `poll` keeps.
use nacl_proxy.Base.{
  ℕ, zero, suc, ◌+◌, ◌≤◌, ◌<◌, ◌≡◌, ◌≢◌, refl, sym, ◌∙◌, inl, inr, true, false, ◌⊎◌, Option, some,
  ℤ, pos, int_eq, ℤ-cases, ltb, ◌==◌, Bool-cases, Option-cases, arith,
}
use nacl_proxy.Errors.{proxy_success}
use nacl_proxy.Event.{Mask, has_flags, Manager, max_events, get_event_from_fd, get_idx_from_fd}
use nacl_proxy.Event.Index.{At}
use nacl_proxy.Event.Invariant.{IsValid, get_idx_cases}
use nacl_proxy.Event.Lookup.{lookup, lookup-At}
use nacl_proxy.Event.Loop.{
  Host, Polled, failed, ready, Outcome, returned, out_of_fuel, store_revents, fire, handle_found,
  handle_event, dispatch, round, event_run_loop,
}

-- In a valid table `get_event_from_fd` finds the event of a slot in use.
module _ {C D : Type 0} (m : Manager C D) (v : IsValid m) where
  pub get_event-At : (n i : ℕ) → At m (pos n) i → get_event_from_fd (pos n) m ≡ some (m.events i)
  unfolding get_event_from_fd
  get_event-At n i at = elim (get_idx_cases m v n) [
    | inl (j, e, at') ↦
        let same : j ≡ i =
          ground (arith, v.distinct j i, at.within, at.here, at'.within, at'.here) in
        rw (e, same)
    | inr (e, new) ↦ absurd (new i at)
  ]

-- A property of the state with a valid table, that callbacks keep when they are called for what the
-- table registers, with flags that are set.
pub record CallLaws {C D S : Type 0} (host : Host C D S) (P : S → Type 0) : Type 0 where
  pub valid : (s : S) → P s → IsValid (host.table s)
  pub calls :
      (s : S) (n : ℕ) (events revents : Mask) (callback : C) (p_data : Option D)
      → P s
      → has_flags revents ≡ true
      → lookup (host.table s) (pos n) ≡ some (events, some callback, p_data)
      → P (host.call callback (pos n) revents p_data s).1

pub record PollLaws {C D S : Type 0} (host : Host C D S) (P : S → Type 0) : Type 0 where
  pub fails : (s : S) → P s → P (host.poll s).1
  pub polls :
      (s : S) (n : ℕ) (masks : ℕ → Mask)
      → P s
      → (host.poll s).0 ≡ ready n masks
      → P (host.put_table (store_revents masks (host.table (host.poll s).1)) (host.poll s).1)

-- a round that has ended with a code
abbrev pub Returns : {S : Type 0} → (S → Type 0) → Option (Outcome S) → Type 0
Returns {S} P o = (code : ℤ) × (s' : S) × (o ≡ some (returned code s')) × P s'

-- the loop has returned, with success only if the flag is not 1, or has run for all its polls
abbrev pub Runs : {C D S : Type 0} → Host C D S → (S → Type 0) → Option (Outcome S) → Type 0
Runs {C} {D} {S} host P o =
    ((code : ℤ) × (s' : S) × (o ≡ some (returned code s'))
      × P s'
      × (code ≡ proxy_success → host.run_flag s' ≢ pos 1))
    ⊎ ((s' : S) × (o ≡ some (out_of_fuel s')) × P s')

module _ {C D S : Type 0} (host : Host C D S) (P : S → Type 0) (laws : CallLaws host P) where
  open host use {table, call}

  abbrev Handled : Option (ℤ × S) → Type 0
  Handled o = (code : ℤ) × (s' : S) × (o ≡ some (code, s')) × P s'

  handle_used :
      (idx n : ℕ) (s : S)
      → P s
      → At (table s) (pos n) idx
      → Handled
          (handle_found host (get_event_from_fd (pos n) (table s)) ((table s).pfds idx).revents s)
  unfolding handle_found fire
  handle_used idx n s p at =
      let v : IsValid (table s) = laws.valid s p in
      rw (get_event-At (table s) v n idx at)
        (elim (Bool-cases (has_flags ((table s).pfds idx).revents)) [
          | inr e ↦ rw e (_, _, refl, p)
          | inl e ↦ elim (Option-cases ((table s).events idx).callback) [
            | inl null ↦
                absurd (v.handled idx at.within (λ free. ground (arith, at.here, free)) null)
            | inr (c, cb) ↦
                let same : ((table s).events idx).fd ≡ pos n =
                  sym (v.paired idx at.within) ∙ at.here in
                let registered : lookup (table s) (pos n)
                    ≡ some (((table s).pfds idx).events, some c, ((table s).events idx).user_data) =
                  rw cb at (lookup-At (table s) v n idx at) in
                rw (e, cb, same) (_, _, refl, laws.calls s n _ _ c _ p e registered)
          ]
        ])

  handle_event-Handled :
      (idx : ℕ) (s : S) → P s → idx < (table s).max_idx → Handled (handle_event host idx s)
  unfolding handle_event handle_found get_event_from_fd get_idx_from_fd
  handle_event-Handled idx s p h = elim (ℤ-cases ((table s).pfds idx).fd) [
    | inl (n, used) ↦ rw used (handle_used idx n s p (record { within = h; here = used }))
    | inr (zero, free) ↦ rw free (_, _, refl, p)
    | inr (suc n, none_there) ↦
        let no_free : (0 == suc n) ≡ false = ground arith in
        rw (none_there, no_free) (_, _, refl, p)
  ]

  -- `max_events + 1` rounds of the inner loop are enough, whatever the callbacks register.
  pub dispatch-Returns :
      (fuel idx : ℕ) (s : S)
      → P s
      → idx ≤ max_events
      → max_events < fuel + idx
      → Returns P (dispatch host fuel idx s)
  unfolding dispatch
  dispatch-Returns zero idx s p b h = absurd (omega arith)
  dispatch-Returns (suc fuel) idx s p b h = elim (Bool-cases (ltb idx (table s).max_idx)) [
    | inr done ↦ rw (done, dispatch) (_, _, refl, p)
    | inl more ↦
        let v : IsValid (table s) = laws.valid s p in
        let (err, s', e, p') = handle_event-Handled idx s p (ground arith) in
        elim (Bool-cases (int_eq proxy_success err)) [
          | inl zero_err ↦
              rw (more, dispatch, e, zero_err)
                (dispatch-Returns fuel (idx + 1) s' p' (ground (arith, v.bound)) (omega arith))
          | inr bad ↦ rw (more, dispatch, e, bad) (_, _, refl, p')
        ]
  ]

module _ {C D S : Type 0} (host : Host C D S) (P : S → Type 0) (laws : CallLaws host P)
    (poll_laws : PollLaws host P) where
  open host use {table, put_table, poll, run_flag}

  round-Returns :
      (n : ℕ) (masks : ℕ → Mask) (s : S)
      → P (put_table (store_revents masks (table s)) s)
      → Returns P (round host n masks s)
  unfolding round
  round-Returns n masks s p = elim (Bool-cases (ltb 0 n)) [
    | inl some_ready ↦
        rw some_ready
          (dispatch-Returns host P laws (max_events + 1) 0 _ p (omega arith) (omega arith))
    | inr idle ↦ rw idle (_, _, refl, p)
  ]

  -- one turn of the loop, given what the later turns do
  turn-Runs :
      (fuel : ℕ) (s : S) (r : Polled)
      → int_eq (pos 1) (run_flag s) ≡ true
      → ((s' : S) → P s' → Runs host P (event_run_loop host fuel s'))
      → P s
      → (poll s).0 ≡ r
      → Runs host P (event_run_loop host (suc fuel) s)
  unfolding event_run_loop
  turn-Runs fuel s (failed errno) go later p e =
      rw (go, event_run_loop, e) (inl (_, _, refl, poll_laws.fails s p, λ c f. ground arith))
  turn-Runs fuel s (ready n masks) go later p e =
      let (code, s', ran, p') = round-Returns n masks (poll s).1 (poll_laws.polls s n masks p e) in
      elim (Bool-cases (int_eq proxy_success code)) [
        | inl fine ↦ rw (go, event_run_loop, e, ran, fine) (later s' p')
        | inr bad ↦
            rw (go, event_run_loop, e, ran, bad) (inl (_, _, refl, p', λ c f. ground (arith, bad)))
      ]

  pub event_run_loop-Runs : (fuel : ℕ) (s : S) → P s → Runs host P (event_run_loop host fuel s)
  unfolding event_run_loop
  event_run_loop-Runs zero s p = inr (_, refl, p)
  event_run_loop-Runs (suc fuel) s p = elim (Bool-cases (int_eq (pos 1) (run_flag s))) [
    | inr stop ↦ rw (stop, event_run_loop) (inl (_, _, refl, p, λ e f. ground (arith, stop)))
    | inl go ↦ turn-Runs fuel s (poll s).0 go (event_run_loop-Runs fuel) p refl
  ]
