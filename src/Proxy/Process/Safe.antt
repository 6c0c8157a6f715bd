-- ===== src/Proxy/Process/Safe.antt =====
-- The event loop that `proxy_run` of src/proxy.c runs follows no bad pointer.
use nacl_proxy.Base.{
  ℕ, ◌≡◌, ◌≢◌, refl, sym, ◌∙◌, inl, inr, true, false, Bool, Option, none, some, ℤ, pos, int_eq,
  Bool-cases, Option-cases,
}
use nacl_proxy.Errors.{proxy_success}
use nacl_proxy.Sys.{Env}
use nacl_proxy.Event.{Mask, no_flags, Manager}
use nacl_proxy.Event.Index.{IsFree}
use nacl_proxy.Event.Invariant.{IsValid}
use nacl_proxy.Event.Loop.{ready, store_revents, event_run_loop}
use nacl_proxy.Event.Loop.Keeps.{CallLaws, PollLaws, Runs, event_run_loop-Runs}
use nacl_proxy.Event.Loop.Runs.{store_revents-IsValid, lookup-store_revents}
use nacl_proxy.Proxy.{
  Config, Conn, Callback, on_accept, on_pending_connect, on_handshake, on_conn, Ptr, config_ptr,
  conn_ptr, State, System, Fault, bad_pointer, overflowed, has_exited, ran_out, Run, done, fault,
  pollin,
}
use nacl_proxy.Proxy.Owned.{
  Held, Holds, Refers, IsOwned, Safely, table-IsOwned, add-IsOwned, world-IsOwned,
}
use nacl_proxy.Proxy.Data.Safe.{Safe, not_success}
use nacl_proxy.Proxy.Data.Serving.{conn_callback-Safe}
use nacl_proxy.Proxy.Handshake.{add_event}
use nacl_proxy.Proxy.Handshake.Safe.{handshake_callback-Safe}
use nacl_proxy.Proxy.Accept.Safe.{accept_callback-Safe, pending_connect_callback-Safe}
use nacl_proxy.Proxy.Process.{Machine, started, resume, callback_of, host, run_listener}

-- What the system promises: `calloc` yields memory that is not in use, and `poll` sets no flags for a
-- negative descriptor.
pub record SystemLaws {A W : Type 0} (sys : System A W) : Type 0 where
  pub calloc_free :
      (conns : ℕ → Option Conn) (env : Env W) (p : ℕ)
      → sys.calloc conns env ≡ some p
      → conns p ≡ none
  pub poll_quiet :
      (table : Manager Callback Ptr) (env : Env W) (n : ℕ) (masks : ℕ → Mask)
      → (sys.poll table env).0 ≡ ready n masks
      → (i : ℕ) → IsFree (table.pfds i)
      → masks i ≡ no_flags

-- A process that has not followed a bad pointer, with an event table that refers to no bad one.
pub record IsSafe {A W : Type 0} (listener : ℤ) (m : Machine A W) : Type 0 where
  pub owned : IsOwned listener m.state
  pub sound : m.stopped ≢ some bad_pointer

abbrev pub is_bad : Option Fault → Bool
is_bad (some bad_pointer) = true
is_bad _ = false

pub not_bad : (stopped : Option Fault) → is_bad stopped ≡ false → stopped ≢ some bad_pointer
not_bad stopped h same = cc

pub Held-there : (x : ℤ) (o : Option Conn) → Held x o → (c : Conn) × (o ≡ some c) × Holds x c
Held-there x none held = absurd held
Held-there x (some c) held = (c, refl, held)

module _ {A W : Type 0} (sys : System A W) (listener : ℤ) (laws : SystemLaws sys) where
  resume-IsSafe :
      (s : State A W) (r : Run (ℤ × State A W))
      → IsOwned listener s
      → Safe sys listener r
      → IsSafe listener (resume s r).1
  unfolding Safely
  resume-IsSafe s (done (code, s')) o h = record { owned = h; sound = not_bad none refl }
  resume-IsSafe s (fault bad_pointer) o h = absurd h
  resume-IsSafe s (fault overflowed) o h = record {
    owned = o;
    sound = not_bad (some overflowed) refl;
  }
  resume-IsSafe s (fault has_exited) o h = record {
    owned = o;
    sound = not_bad (some has_exited) refl;
  }
  resume-IsSafe s (fault ran_out) o h = record { owned = o; sound = not_bad (some ran_out) refl }

  -- A callback for what the event table registers.
  callback_of-Safe :
      (callback : Callback) (efd : ℤ) (revents : Mask) (p_data : Option Ptr) (s : State A W)
      → IsOwned listener s
      → Refers listener s.conns efd (some callback) p_data
      → Safe sys listener (callback_of sys callback efd revents p_data s)
  callback_of-Safe callback efd revents none s o r = absurd r
  callback_of-Safe callback efd revents (some (config_ptr config)) s o (r, here) =
      let same : callback ≡ on_accept = cc in
      rw same (accept_callback-Safe sys listener laws.calloc_free efd revents config s o)
  callback_of-Safe on_accept efd revents (some (conn_ptr p)) s o (other, held) = absurd (other refl)
  callback_of-Safe on_pending_connect efd revents (some (conn_ptr p)) s o (other, held) =
      let (c, e, has) = Held-there efd (s.conns p) held in
      pending_connect_callback-Safe sys listener efd revents p c s e o
  callback_of-Safe on_handshake efd revents (some (conn_ptr p)) s o (other, held) =
      let (c, e, has) = Held-there efd (s.conns p) held in
      handshake_callback-Safe sys listener efd revents p c s has e o
  callback_of-Safe on_conn efd revents (some (conn_ptr p)) s o (other, held) =
      let (c, e, has) = Held-there efd (s.conns p) held in
      conn_callback-Safe sys listener efd revents p c s e o

  call_laws : CallLaws (host sys) (IsSafe listener)
  call_laws = record {
    valid = λ m safe. safe.owned.valid;
    calls = λ m n events revents callback p_data safe flags found. elim (Option-cases m.stopped) [
      | inr (f, stopped) ↦
          rw stopped (record { owned = safe.owned; sound = rw stopped at safe.sound })
      | inl going ↦ rw going (
          resume-IsSafe m.state (callback_of sys callback (pos n) revents p_data m.state) safe.owned
            (callback_of-Safe callback (pos n) revents p_data m.state safe.owned
              (safe.owned.refers (pos n) events (some callback) p_data found)))
    ];
  }

  poll_laws : PollLaws (host sys) (IsSafe listener)
  poll_laws = record {
    fails = λ m safe. record {
      owned = world-IsOwned listener m.state _ refl refl safe.owned;
      sound = safe.sound;
    };
    polls = λ m n masks safe e.
        let table : Manager Callback Ptr = m.state.table in
        let v : IsValid (store_revents masks table) =
          store_revents-IsValid table masks safe.owned.valid
            (laws.poll_quiet table m.state.env n masks e) in
        record {
          owned =
              table-IsOwned listener m.state safe.owned _ v refl λ x events callback p_data found.
                (events, sym (lookup-store_revents table masks x safe.owned.valid v) ∙ found);
          sound = safe.sound;
        };
  }

  -- The event loop that `proxy_run` runs, over any number of polls.
  pub loop-IsSafe :
      (fuel : ℕ) (m : Machine A W)
      → IsSafe listener m
      → Runs (host sys) (IsSafe listener) (event_run_loop (host sys) fuel m)
  loop-IsSafe = event_run_loop-Runs (host sys) (IsSafe listener) call_laws poll_laws

module _ {A W : Type 0} (sys : System A W) (laws : SystemLaws sys) where
  add_event-IsOwned :
      (server_fd : ℤ) (config : Config) (s : State A W)
      → IsOwned server_fd s
      → IsOwned server_fd (add_event sys server_fd pollin (config_ptr config) on_accept s).1
  unfolding add_event
  add_event-IsOwned server_fd config s o =
      add-IsOwned server_fd s server_fd pollin (config_ptr config) on_accept o (refl, refl)

  -- From an event table that refers to no bad pointer, the listener's registration and the event loop of
  -- `proxy_run`, with the callbacks of src/proxy.c and for any number of polls, follow no pointer to a
  -- connection that is not allocated, call no NULL callback, and leave an event table that refers to no
  -- bad pointer; PROXY_SUCCESS comes back only when the run flag is not 1. `calloc` yields memory that is
  -- not in use, and `poll` sets no flags for negative descriptors.
  pub run_listener-IsSafe :
      (fuel : ℕ) (config : Config) (server_fd : ℤ) (s : State A W)
      → IsOwned server_fd s
      → Runs (host sys) (IsSafe server_fd) (run_listener sys fuel config server_fd s).1
  unfolding run_listener
  run_listener-IsSafe fuel config server_fd s o =
      let s' : State A W = (add_event sys server_fd pollin (config_ptr config) on_accept s).1 in
      let safe : IsSafe server_fd (started s') = record {
        owned = add_event-IsOwned server_fd config s o;
        sound = not_bad none refl;
      } in
      elim (Bool-cases
        (int_eq proxy_success (add_event sys server_fd pollin (config_ptr config) on_accept s).0)) [
          | inl good ↦ rw good (loop-IsSafe sys server_fd laws fuel (started s') safe)
          | inr bad ↦ rw bad (inl (_, _, refl, safe, λ h. absurd (not_success _ bad h)))
        ]
