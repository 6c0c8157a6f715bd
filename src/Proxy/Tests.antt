-- ===== src/Proxy/Tests.antt =====
-- src/proxy.c on a system with two byte lists for its sockets, where connections succeed at once.
use nacl_proxy.Base.{
  ℕ, ◌≡◌, refl, sym, ap, true, false, Option, none, some, ℤ, pos, minus_one, is_nonneg, List, [],
  ◌∷◌, if◌then◌else◌, replicate, write,
}
use nacl_proxy.Errors.{proxy_err}
use nacl_proxy.Sys.{Env}
use nacl_proxy.Event.{Mask, no_flags, init}
use nacl_proxy.Event.Lookup.{lookup}
use nacl_proxy.Event.Loop.{Polled, ready, failed}
use nacl_proxy.Event.Loop.Keeps.{Runs}
use nacl_proxy.Network
use nacl_proxy.Network.{resolved}
use nacl_proxy.Proxy.{Config, Conn, config_ptr, conn_ptr, State, System, done, pollin, zero_conn}
use nacl_proxy.Proxy.Owned.{Has, IsOwned, start-IsOwned}
use nacl_proxy.Proxy.Close.{close_connection}
use nacl_proxy.Proxy.Close.Closes.{close_connection-closes}
use nacl_proxy.Proxy.Data.{conn_callback}
use nacl_proxy.Proxy.Data.Codes.{EndsPlain, conn_callback-codes}
use nacl_proxy.Proxy.Accept.{accept_callback}
use nacl_proxy.Proxy.Accept.Failed.{accept_callback-failed}
use nacl_proxy.Proxy.Process.{host, run_listener}
use nacl_proxy.Proxy.Process.Safe.{SystemLaws, IsSafe, run_listener-IsSafe}
use nacl_proxy.Tests.Sockets.{World, few, toy}

abbrev network : List ℕ → List ℕ → Network.Host ℕ (Env World)
network addr port = record {
  now = λ w. 1000;
  getaddrinfo = λ w. (resolved (0 ∷ []), w);
  freeaddrinfo = λ l w. w;
  socket = λ a w. (pos 4, w);
  connect = λ fd a w. (none, w);
  close = λ fd w. w;
  setsockopt = λ fd w. (true, w);
  bind = λ fd a w. (true, w);
  listen = λ fd w. (true, w);
  get_flags = λ fd w. (pos 2, w);
  set_flags = λ fd flags w. (true, w);
}

abbrev free_at : ℕ → Option Conn → Option ℕ
free_at p none = some p
free_at p (some c) = none

-- One connection at a time; `poll` finds every registered descriptor readable.
abbrev pub small : System ℕ World
small = record {
  socket = few;
  crypto = toy;
  nonces = λ env start. replicate 24 start;
  secret = λ env. replicate 32 3;
  net = network;
  accept = λ fd env. (pos 7, env);
  close = λ fd env. env;
  sock_error = λ fd env. (some (pos 0), env);
  calloc = λ conns env. free_at 0 (conns 0);
  calloc_netnacl = λ env. some tt;
  poll = λ m env. (ready 1 (λ i. if is_nonneg (m.pfds i).fd then pollin else no_flags), env);
  run_flag = λ env. pos 1;
}

free_at_lem : (p q : ℕ) (o : Option Conn) → free_at p o ≡ some q → (o ≡ none) × (p ≡ q)
free_at_lem p q none e = (refl, cc)
free_at_lem p q (some c) e = absurd cc

abbrev masks_of : Polled → ℕ → Mask
masks_of (failed errno) i = no_flags
masks_of (ready n masks) i = masks i

pub small-laws : SystemLaws small
small-laws = record {
  calloc_free = λ conns env p e. let (free, here) = free_at_lem 0 p (conns 0) e in rw (← here) free;
  poll_quiet = λ table env n masks e i free.
      let quiet : (if is_nonneg (table.pfds i).fd then pollin else no_flags) ≡ masks i =
        ap (λ r. masks_of r i) e in
      sym (rw free at quiet);
}

abbrev pub settings : Config
settings = record {
  server_addr = 115 ∷ [];
  server_port = 50 ∷ [];
  bind_addr = 98 ∷ [];
  bind_port = 49 ∷ [];
  b_encrypt_in = false;
  b_encrypt_out = true;
}

abbrev pub start : State ℕ World
start = record {
  table = init;
  conns = λ p. none;
  cache = record { address = []; last_resolution = 0 };
  env = record { errno = 0; world = record { incoming = 5 ∷ 6 ∷ []; outgoing = [] } };
}

run_listener-IsSafe_example :
    Runs (host small) (IsSafe (pos 3)) (run_listener small 3 settings (pos 3) start).1
run_listener-IsSafe_example =
    run_listener-IsSafe small small-laws 3 settings (pos 3) start (start-IsOwned (pos 3) start refl)

-- a connection at address 0, which no registration refers to yet
abbrev pub open_conn : Conn
open_conn = record (zero_conn settings) {
  client = record { sock_fd = pos 7; b_encrypted = false; netnacl = none };
  server = record { sock_fd = pos 4; b_encrypted = false; netnacl = none };
}

abbrev connected : State ℕ World
connected = record start { conns = write start.conns 0 (some open_conn) }

conn_callback-codes_example :
    EndsPlain small (conn_callback small (pos 7) pollin (some (conn_ptr 0)) connected)
conn_callback-codes_example = conn_callback-codes small (pos 7) pollin (some (conn_ptr 0)) connected

close_connection-closes_example :
    (s' : State ℕ World) × (close_connection small 0 connected ≡ done s')
    × IsOwned (pos 3) s'
    × (s'.conns 0 ≡ none)
    × ((x : ℤ) → Has x open_conn → lookup s'.table x ≡ none)
close_connection-closes_example =
    close_connection-closes small (pos 3) 0 open_conn connected refl
      (start-IsOwned (pos 3) connected refl)

-- a system in which `accept` fails with EAGAIN
abbrev failing : System ℕ World
failing = record small { accept = λ fd env. (minus_one, record env { errno = 11 }) }

accept_callback-failed_example :
    (s' : State ℕ World) × (accept_callback failing
        (pos 3)
        pollin
        (some (config_ptr settings))
        start
      ≡ done (proxy_err, s'))
    × (s'.env ≡ failing.close (pos 0) (failing.accept (pos 3) start.env).1)
    × (s'.table ≡ start.table)
accept_callback-failed_example =
    accept_callback-failed failing (pos 3) settings 0 start refl refl refl
