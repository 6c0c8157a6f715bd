-- ===== src/Proxy.antt =====
-- src/proxy.c: connections and their pointers. `State` is the memory and the world of the process:
-- the event table, the connections that are allocated, by address, the cached server address and
-- `errno` with the rest of the world. A function that follows a pointer to memory that is not
-- allocated ends in the fault `bad_pointer`.
pub mod Owned
pub mod Close
pub mod Data
pub mod Handshake
pub mod Accept
pub mod Process
pub mod Tests
use nacl_proxy.Base.{
  ℕ, true, false, Bool, Option, none, some, ℤ, pos, List, [], ◌∷◌, replicate, write,
}
use nacl_proxy.Errors.{proxy_err}
use nacl_proxy.Sys.{Socket, Env, Res, ok, overflow, exited, out_of_fuel}
use nacl_proxy.Event.{Mask, no_flags, Manager}
use nacl_proxy.Event.Loop.{Polled}
use nacl_proxy.Netnacl.{Crypto}
use nacl_proxy.Network
use nacl_proxy.Buf.{Buf, Net, buf_size}

-- `config_t` of include/proxy.h
pub record Config : Type 0 where
  pub server_addr : List ℕ
  pub server_port : List ℕ
  pub bind_addr : List ℕ
  pub bind_port : List ℕ
  pub b_encrypt_in : Bool
  pub b_encrypt_out : Bool

-- `enum ProxySide`
pub data Side : Type 0 where
  invalid client server : Side

-- `conn_t`; the configuration that it points to never changes
pub record Conn : Type 0 where
  pub config : Config
  pub client : Net
  pub server : Net
  pub client_send_buf : Buf
  pub server_send_buf : Buf
  pub ref : ℕ

-- the callbacks that src/proxy.c registers
pub data Callback : Type 0 where
  on_accept on_pending_connect on_handshake on_conn : Callback

-- what user data points to: the configuration, or the connection at an address
pub data Ptr : Type 0 where
  config_ptr : Config → Ptr
  conn_ptr : ℕ → Ptr

pub record State (A W : Type 0) : Type 0 where
  pub table : Manager Callback Ptr
  pub conns : ℕ → Option Conn
  pub cache : Network.Cache A
  pub env : Env W

-- What the functions use of the system. `net` resolves an address and a port; `sock_error` is
-- `getsockopt` with SO_ERROR, none if it fails; `calloc` yields the address of a connection.
pub record System (A W : Type 0) : Type 0 where
  pub socket : Socket W
  pub crypto : Crypto
  pub nonces : Env W → ℕ → List ℕ
  pub secret : Env W → List ℕ
  pub net : List ℕ → List ℕ → Network.Host A (Env W)
  pub accept : ℤ → Env W → ℤ × Env W
  pub close : ℤ → Env W → Env W
  pub sock_error : ℤ → Env W → Option ℤ × Env W
  pub calloc : (ℕ → Option Conn) → Env W → Option ℕ
  pub calloc_netnacl : Env W → Option (Unit {0})
  pub poll : Manager Callback Ptr → Env W → Polled × Env W
  pub run_flag : Env W → ℤ

-- How a run can go wrong: a pointer to memory that is not allocated, a write past a buffer, `_exit`,
-- or a loop of the model out of fuel.
pub data Fault : Type 0 where
  bad_pointer overflowed has_exited ran_out : Fault

pub data Run (X : Type 0) : Type 0 where
  done : X → Run X
  fault : Fault → Run X

infixl 5 ◌>>=◌
abbrev pub ◌>>=◌ : {X Y : Type 0} → Run X → (X → Run Y) → Run Y
done x >>= f = f x
fault e >>= f = fault e

-- the end of a function of src/buf.c or of src/netnacl
abbrev pub ended : {X : Type 0} → Res X → Run X
ended (ok x) = done x
ended overflow = fault overflowed
ended exited = fault has_exited
ended out_of_fuel = fault ran_out

abbrev pub pollin : Mask
pollin = record no_flags { pollin = true }

abbrev pub pollout : Mask
pollout = record no_flags { pollout = true }

abbrev pub pollinout : Mask
pollinout = record no_flags { pollin = true; pollout = true }

abbrev pub net_of : Side → Conn → Net
net_of client c = c.client
net_of server c = c.server
net_of invalid c = c.server

abbrev pub with_net : Side → Net → Conn → Conn
with_net client n c = record c { client = n }
with_net server n c = record c { server = n }
with_net invalid n c = record c { server = n }

-- the buffer that is sent to a side
abbrev pub buf_to : Side → Conn → Buf
buf_to client c = c.client_send_buf
buf_to server c = c.server_send_buf
buf_to invalid c = c.server_send_buf

abbrev pub with_buf : Side → Buf → Conn → Conn
with_buf client b c = record c { client_send_buf = b }
with_buf server b c = record c { server_send_buf = b }
with_buf invalid b c = record c { server_send_buf = b }

abbrev pub other : Side → Side
other client = server
other server = client
other invalid = client

abbrev zero_net : Net
zero_net = record { sock_fd = pos 0; b_encrypted = false; netnacl = none }

abbrev zero_buf : Buf
zero_buf = record { size = 0; read_pos = 0; contents = replicate buf_size 0 }

-- what `calloc` yields
abbrev pub zero_conn : Config → Conn
zero_conn config = record {
  config = config;
  client = zero_net;
  server = zero_net;
  client_send_buf = zero_buf;
  server_send_buf = zero_buf;
  ref = 0;
}

abbrev found : Option Conn → Run Conn
found none = fault bad_pointer
found (some c) = done c

-- a pointer to user data, cast to a connection
abbrev pub as_conn : Ptr → Run ℕ
as_conn (config_ptr _) = fault bad_pointer
as_conn (conn_ptr p) = done p

module _ {A W : Type 0} where
  -- `*p_conn`
  abbrev pub deref : ℕ → State A W → Run Conn
  deref p s = found (s.conns p)

  -- `*p_conn = c`
  abbrev pub put_conn : ℕ → Conn → State A W → State A W
  put_conn p c s = record s { conns = write s.conns p (some c) }

  -- `free(p_conn)`
  abbrev pub release : ℕ → State A W → State A W
  release p s = record s { conns = write s.conns p none }
