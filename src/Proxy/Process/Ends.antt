-- ===== src/Proxy/Process/Ends.antt =====
-- The end of `proxy_run` of src/proxy.c: what its cleanup frees and closes.
use nacl_proxy.Base.{
  ℕ, ◌<◌, ◌≡◌, ◌≢◌, refl, sym, ◌∙◌, ◌⊎◌, inl, inr, true, false, Bool, Option, none, some, ℤ, pos,
  minus_one, int_eq, ℤ-cases, if◌then◌else◌, Bool-cases, Option-cases, if_both, arith,
}
use nacl_proxy.Errors.{proxy_success}
use nacl_proxy.Event.{Mask, init, Manager, event_add, event_remove}
use nacl_proxy.Event.Lookup.{lookup, lookup-At, lookup-init, entry}
use nacl_proxy.Event.Found.{event_add-found, event_remove-found}
use nacl_proxy.Event.Loop.{Outcome, returned, out_of_fuel, event_teardown}
use nacl_proxy.Event.Loop.Teardown.{IsClear, event_teardown-state, event_teardown-IsClear}
use nacl_proxy.Network.{network_get_listen_socket}
use nacl_proxy.Proxy.{
  Config, Conn, Callback, on_accept, Ptr, config_ptr, conn_ptr, State, System, bad_pointer, pollin,
}
use nacl_proxy.Proxy.Owned.{
  Holds, Holds-Has, Refers, IsOwned, start-IsOwned, remove-IsOwned, world-IsOwned,
}
use nacl_proxy.Proxy.Handshake.{add_event}
use nacl_proxy.Proxy.Data.Safe.{not_success}
use nacl_proxy.Proxy.Process.{
  Machine, started, close_fd, free_data, clean_up, end_run, run_listener, proxy_run,
}
use nacl_proxy.Proxy.Process.Safe.{SystemLaws, IsSafe, Held-there, not_bad, run_listener-IsSafe}
use nacl_proxy.Proxy.Process.Teardown.{IsReady, counted_twice, clear_from_sound}

-- The listener is not registered.
abbrev NoListener : {A W : Type 0} → ℤ → State A W → Type 0
NoListener listener s = lookup s.table listener ≡ none

module _ {A W : Type 0} (listener : ℤ) (s : State A W) (o : IsOwned listener s)
    (away : NoListener listener s) where
  -- a slot with user data is in use, for a connection that is there
  slot-there :
      (i : ℕ) (d : Ptr)
      → i < s.table.max_idx
      → (s.table.events i).user_data ≡ some d
      → (p : ℕ) × (c : Conn) × (d ≡ conn_ptr p)
        × (s.conns p ≡ some c)
        × Holds (s.table.events i).fd c
  slot-there i d h u = elim (ℤ-cases (s.table.pfds i).fd) [
    | inr (k, unused) ↦
        let nothing : (s.table.events i).user_data ≡ none = o.valid.vacant i h (rw unused refl) in
        absurd cc
    | inl (n, used) ↦
        let found : lookup s.table (pos n) ≡ some (entry s.table i) =
          lookup-At s.table o.valid n i (record { within = h; here = used }) in
        let found' : lookup s.table (pos n)
            ≡ some ((s.table.pfds i).events, (s.table.events i).callback, some d) =
          rw u at found in
        let same : (s.table.events i).fd ≡ pos n = sym (o.valid.paired i h) ∙ used in
        rw same (go n d found' (o.refers (pos n) _ _ (some d) found'))
  ]
    where
      go :
          (n : ℕ) (d : Ptr) {events : Mask} {callback : Option Callback}
          → lookup s.table (pos n) ≡ some (events, callback, some d)
          → Refers listener s.conns (pos n) callback (some d)
          → (p : ℕ) × (c : Conn) × (d ≡ conn_ptr p) × (s.conns p ≡ some c) × Holds (pos n) c
      go n (config_ptr config) found (is_accept, here) =
          let nothing : lookup s.table (pos n) ≡ none = rw here away in absurd cc
      go n (conn_ptr p) found (other, held) =
          let (c, e, has) = Held-there (pos n) (s.conns p) held in (p, c, refl, e, has)

  -- slots of one connection have different descriptors
  slots-apart :
      (i j p : ℕ)
      → i < s.table.max_idx
      → j < s.table.max_idx
      → i ≢ j
      → (s.table.events i).user_data ≡ some (conn_ptr p)
      → (s.table.events i).fd ≢ (s.table.events j).fd
  slots-apart i j p hi hj differ u same = differ (
      o.valid.distinct i j hi hj (o.valid.paired i hi ∙ (same ∙ sym (o.valid.paired j hj))) λ free.
        let nothing : (s.table.events i).user_data ≡ none = o.valid.vacant i hi (rw free refl) in
        absurd cc)

  -- The table is ready for its teardown.
  all-IsReady : IsReady s.table.events s.table.max_idx 0 s.conns
  all-IsReady = record {
    there = λ i d lo hi u.
        let (p, c, here, e, holds) = slot-there i d (omega arith) u in
        (p, c, here, e, Holds-Has _ c holds);
    shared = λ i j p c lo hi lo' hi' differ u v e.
        let (q, c1, d1, e1, h1) = slot-there i (conn_ptr p) (omega arith) u in
        let (r, c2, d2, e2, h2) = slot-there j (conn_ptr p) (omega arith) v in
        let same1 : c1 ≡ c = cc in
        let same2 : c2 ≡ c = cc in
        counted_twice (s.table.events i).fd (s.table.events j).fd c (rw (← same1) h1)
          (rw (← same2) h2) (slots-apart i j p (omega arith) (omega arith) differ u);
    apart =
        λ i j p lo hi lo' hi' differ u v. slots-apart i j p (omega arith) (omega arith) differ u;
  }

-- A process that has not followed a bad pointer, with an event table that is clear.
abbrev pub Ended : {A W : Type 0} → Machine A W → Type 0
Ended m =
    (m.stopped ≢ some bad_pointer) × ((i : ℕ) → i < m.state.table.max_idx → IsClear m.state.table i)

-- A run has ended so, or has made all its polls.
abbrev pub Ends : {A W : Type 0} → Option (Outcome (Machine A W)) → Type 0
Ends {A} {W} o =
    ((code : ℤ) × (m : Machine A W) × (o ≡ some (returned code m)) × Ended m)
    ⊎ ((m : Machine A W) × (o ≡ some (out_of_fuel m)) × (m.stopped ≢ some bad_pointer))

module _ {A W : Type 0} (sys : System A W) (listener : ℤ) where
  abbrev torn_down : Machine A W → Manager Callback Ptr × Machine A W
  torn_down m =
      event_teardown (close_fd sys) (some (λ p_data m'. free_data sys m'.stopped p_data m'))
        m.state.table m

  torn_down-Ended :
      (m : Machine A W)
      → IsOwned listener m.state
      → NoListener listener m.state
      → m.stopped ≢ some bad_pointer
      → ((torn_down m).1.stopped ≢ some bad_pointer)
        × ((i : ℕ) → i < (torn_down m).0.max_idx → IsClear (torn_down m).0 i)
  torn_down-Ended m o away sound =
      let free : Option Ptr → Machine A W → Machine A W =
        λ p_data m'. free_data sys m'.stopped p_data m' in
      let (clear, size, count) =
        event_teardown-IsClear (close_fd sys) (some free) m.state.table m in
      (
        rw (event_teardown-state (close_fd sys) free m.state.table m) (
            clear_from_sound sys m.state.table.events m.state.table.max_idx 0 m
              (all-IsReady listener m.state o away) sound),
        λ i h. clear i (rw size at h),
      )

  -- so it is whether the listener's descriptor is closed before or not
  closing-Ended :
      (skip : Bool) (m : Machine A W)
      → IsOwned listener m.state
      → NoListener listener m.state
      → m.stopped ≢ some bad_pointer
      → let m' : Machine A W = if skip then m else close_fd sys listener m in
        ((torn_down m').1.stopped ≢ some bad_pointer)
        × ((i : ℕ) → i < (torn_down m').0.max_idx → IsClear (torn_down m').0 i)
  closing-Ended true m o away sound = torn_down-Ended m o away sound
  closing-Ended false m o away sound =
      torn_down-Ended (close_fd sys listener m)
        (world-IsOwned listener m.state (close_fd sys listener m).state refl refl o) away sound

  clean_up-Ended :
      (config : Config) (added : Bool) (m : Machine A W)
      → IsSafe listener m
      → (added ≡ false → NoListener listener m.state)
      → Ended (clean_up sys config added listener m)
  unfolding clean_up
  clean_up-Ended config false m safe away =
      closing-Ended (int_eq minus_one listener) m safe.owned (away refl) safe.sound
  clean_up-Ended config true m safe away =
      let s : State A W = record m.state { table = (event_remove listener m.state.table).1 } in
      closing-Ended (int_eq minus_one listener) (record m { state = s })
        (remove-IsOwned listener m.state listener safe.owned)
        (elim (Option-cases (lookup s.table listener)) [
          | inl nothing ↦ nothing
          | inr (e, found) ↦
              absurd (
                (event_remove-found m.state.table safe.owned.valid listener listener e found).1
                  refl)
        ])
        safe.sound

module _ {A W : Type 0} (sys : System A W) (laws : SystemLaws sys) where
  -- A listener that is not added is not in an empty table.
  add_listener-away :
      (server_fd : ℤ) (config : Config) (s : State A W)
      → s.table ≡ init
      → int_eq proxy_success (add_event sys server_fd pollin (config_ptr config) on_accept s).0
        ≡ false
      → NoListener server_fd (add_event sys server_fd pollin (config_ptr config) on_accept s).1
  unfolding add_event
  add_listener-away server_fd config s empty bad =
      let table =
        (event_add server_fd pollin (some (config_ptr config)) (some on_accept) s.table).1 in
      elim (Option-cases (lookup table server_fd)) [
        | inl nothing ↦ nothing
        | inr (e, found) ↦
            elim (event_add-found s.table (start-IsOwned server_fd s empty).valid server_fd pollin
              (some (config_ptr config)) on_accept server_fd e found) [
                | inl before ↦
                    let nothing : lookup s.table server_fd ≡ none =
                      rw empty (lookup-init server_fd) in
                    absurd cc
                | inr (good, here, new) ↦ absurd (not_success _ bad good)
              ]
      ]

  run_listener-away :
      (fuel : ℕ) (config : Config) (server_fd : ℤ) (s : State A W)
      → s.table ≡ init
      → ((run_listener sys fuel config server_fd s).0 ≡ true)
        ⊎ ((m : Machine A W) × (code : ℤ) × (run_listener sys fuel config server_fd s
              ≡ (false, some (returned code m)))
            × NoListener server_fd m.state)
  unfolding run_listener
  run_listener-away fuel config server_fd s empty =
      elim (Bool-cases
        (int_eq proxy_success (add_event sys server_fd pollin (config_ptr config) on_accept s).0)) [
          | inl good ↦ rw good (inl refl)
          | inr bad ↦ rw bad (inr (_, _, refl, add_listener-away server_fd config s empty bad))
        ]

  proxy_run-Ends_listening :
      (fuel : ℕ) (config : Config) (server_fd : ℤ) (s : State A W)
      → s.table ≡ init
      → let (added, r) = run_listener sys fuel config server_fd s in
        Ends (end_run sys (clean_up sys config added server_fd) r)
  proxy_run-Ends_listening fuel config server_fd s empty =
      let ran =
        run_listener-IsSafe sys laws fuel config server_fd s (start-IsOwned server_fd s empty) in
      elim (run_listener-away fuel config server_fd s empty) [
        | inr (m, code, e, away) ↦ rw e (
            inl (
              code,
              _,
              refl,
              clean_up-Ended sys server_fd config false m
                  (elim (rw e at ran) [
                    | inl (c, m', e', safe, stop) ↦ let same : m' ≡ m = cc in rw (← same) safe
                    | inr (m', e', safe) ↦ absurd cc
                  ])
                  (λ h. away),
            ))
        | inl added ↦ rw added (elim ran [
          | inl (code, m, e, safe, stop) ↦ rw e (
              inl (code, _, refl, clean_up-Ended sys server_fd config true m safe (λ h. absurd cc)))
          | inr (m, e, safe) ↦ rw e (inr (m, refl, safe.sound))
        ])
      ]

  -- From an empty event table `proxy_run`, cleanup included and for any number of polls, follows no
  -- pointer to a connection that is not allocated: it frees none twice. If it returns, every slot of the
  -- event table is free and without user data. `calloc` yields memory that is not in use, and `poll` sets
  -- no flags for negative descriptors.
  pub proxy_run-Ends :
      (fuel : ℕ) (config : Config) (s : State A W)
      → s.table ≡ init
      → Ends (proxy_run sys fuel config s)
  unfolding proxy_run
  proxy_run-Ends fuel config s empty =
      let (server_fd, env) =
        network_get_listen_socket (sys.net config.bind_addr config.bind_port) s.env in
      let s' : State A W = record s { env = env } in
      let cleaned : Ended (clean_up sys config false server_fd (started s')) =
        clean_up-Ended sys server_fd config false (started s')
          (record { owned = start-IsOwned server_fd s' empty; sound = not_bad none refl })
          (λ h. rw empty (lookup-init server_fd)) in
      if_both Ends (int_eq minus_one server_fd) _ _ (inl (_, _, refl, cleaned))
        (proxy_run-Ends_listening fuel config server_fd s' empty)
