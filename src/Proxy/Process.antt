-- ===== src/Proxy/Process.antt =====
-- `proxy_run` of src/proxy.c: the event loop of src/event.c with the callbacks of src/proxy.c. The
-- loop takes fuel, one unit a poll.
pub mod Safe
pub mod Teardown
pub mod Ends
pub mod Tests
use nacl_proxy.Base.{ℕ, Bool, true, false, Option, none, some, ℤ, minus_one, int_eq, if◌then◌else◌}
use nacl_proxy.Errors.{proxy_err, proxy_success}
use nacl_proxy.Event.{Mask, Manager, event_remove}
use nacl_proxy.Event.Loop.{Host, Outcome, returned, out_of_fuel, event_run_loop, event_teardown}
use nacl_proxy.Network.{network_get_listen_socket, network_free_cached_address}
use nacl_proxy.Proxy.{
  Config, Callback, on_accept, on_pending_connect, on_handshake, on_conn, Ptr, config_ptr, conn_ptr,
  State, System, Fault, bad_pointer, Run, done, fault, pollin,
}
use nacl_proxy.Proxy.Close.{free_connection}
use nacl_proxy.Proxy.Data.{conn_callback}
use nacl_proxy.Proxy.Handshake.{add_event, handshake_callback}
use nacl_proxy.Proxy.Accept.{accept_callback, pending_connect_callback}

-- The process: its state, and the fault that has ended it. After a fault nothing more is run.
pub record Machine (A W : Type 0) : Type 0 where
  pub state : State A W
  pub stopped : Option Fault

module _ {A W : Type 0} where
  abbrev pub started : State A W → Machine A W
  started s = record { state = s; stopped = none }

  -- what a run makes of a process in a state
  abbrev pub resume : State A W → Run (ℤ × State A W) → ℤ × Machine A W
  resume s (done (code, s')) = (code, started s')
  resume s (fault f) = (proxy_err, record { state = s; stopped = some f })

  abbrev pub resume_free : State A W → Run (State A W) → Machine A W
  resume_free s (done s') = started s'
  resume_free s (fault f) = record { state = s; stopped = some f }

module _ {A W : Type 0} (sys : System A W) where
  -- the functions that `Callback` names
  abbrev pub callback_of : Callback → ℤ → Mask → Option Ptr → State A W → Run (ℤ × State A W)
  callback_of on_accept = accept_callback sys
  callback_of on_pending_connect = pending_connect_callback sys
  callback_of on_handshake = handshake_callback sys
  callback_of on_conn = conn_callback sys

  abbrev call_unless :
      Option Fault → Callback → ℤ → Mask → Option Ptr → Machine A W → ℤ × Machine A W
  call_unless none callback efd revents p_data m =
      resume m.state (callback_of callback efd revents p_data m.state)
  call_unless (some f) callback efd revents p_data m = (proxy_err, m)

  -- what the event loop uses of the rest of the program
  abbrev pub host : Host Callback Ptr (Machine A W)
  host = record {
    table = λ m. m.state.table;
    put_table = λ t m. record m { state = record m.state { table = t } };
    call = λ callback efd revents p_data m. call_unless m.stopped callback efd revents p_data m;
    poll = λ m.
        let (reply, env) = sys.poll m.state.table m.state.env in
        (reply, record m { state = record m.state { env = env } });
    run_flag = λ m. sys.run_flag m.state.env;
  }

  abbrev pub close_fd : ℤ → Machine A W → Machine A W
  close_fd efd m = record m { state = record m.state { env = sys.close efd m.state.env } }

  -- `free_connection`, cast to a function of user data
  abbrev pub free_data : Option Fault → Option Ptr → Machine A W → Machine A W
  free_data (some f) p_data m = m
  free_data none none m = m
  free_data none (some (config_ptr _)) m = record m { stopped = some bad_pointer }
  free_data none (some (conn_ptr p)) m = resume_free m.state (free_connection p m.state)

  -- The label CLEANUP of `proxy_run`.
  pub clean_up : Config → Bool → ℤ → Machine A W → Machine A W
  clean_up config b_event_added server_fd m =
      let s1 =
        if b_event_added
        then record m.state { table = (event_remove server_fd m.state.table).1 }
        else m.state in
      let m1 = record m { state = s1 } in
      let m2 = if int_eq minus_one server_fd then m1 else close_fd server_fd m1 in
      let (table, m3) =
        event_teardown close_fd (some (λ p_data m'. free_data m'.stopped p_data m')) m2.state.table
          m2 in
      let (cache, env) =
        network_free_cached_address (sys.net config.server_addr config.server_port) m3.state.cache
          m3.state.env in
      record m3 { state = record m3.state { table = table; cache = cache; env = env } }

  -- The listener in the event table, and the loop; says whether the event was added.
  pub run_listener : ℕ → Config → ℤ → State A W → Bool × Option (Outcome (Machine A W))
  run_listener fuel config server_fd s =
      let (err, s') = add_event sys server_fd pollin (config_ptr config) on_accept s in
      if int_eq proxy_success err
      then (true, event_run_loop host fuel (started s'))
      else (false, some (returned err (started s')))

  abbrev pub end_run :
      (Machine A W → Machine A W) → Option (Outcome (Machine A W)) → Option (Outcome (Machine A W))
  end_run clean none = none
  end_run clean (some (out_of_fuel m)) = some (out_of_fuel m)
  end_run clean (some (returned err m)) = some (returned err (clean m))

  pub proxy_run : ℕ → Config → State A W → Option (Outcome (Machine A W))
  unfolding run_listener clean_up
  proxy_run fuel config s =
      let (server_fd, env) =
        network_get_listen_socket (sys.net config.bind_addr config.bind_port) s.env in
      let s' = record s { env = env } in
      if int_eq minus_one server_fd
      then end_run (clean_up config false server_fd) (some (returned proxy_err (started s')))
      else (let (b_event_added, r) = run_listener fuel config server_fd s' in
          end_run (clean_up config b_event_added server_fd) r)
