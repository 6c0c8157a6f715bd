-- ===== src/Proxy/Accept/Tests.antt =====
-- A pending connection that is established with a full event table.
use nacl_proxy.Base.{ℕ, some, pos, write}
use nacl_proxy.Event.{no_flags, Manager}
use nacl_proxy.Proxy.{Conn, Callback, on_conn, Ptr, conn_ptr, State, pollin}
use nacl_proxy.Proxy.Tests.{start, open_conn}
use nacl_proxy.Tests.Sockets.{World}

-- the descriptors from 0 to 511 are registered
abbrev full_table : Manager Callback Ptr
full_table = record {
  pfds = λ i. record { fd = pos i; events = pollin; revents = no_flags };
  events = λ i. record { callback = some on_conn; user_data = some (conn_ptr 1); fd = pos i };
  max_idx = 512;
  num_events = 512;
}

-- a connection at address 0 of the pending descriptor 4 and a client with descriptor 600
abbrev pending : Conn
pending = record open_conn { client = record open_conn.client { sock_fd = pos 600 } }

abbrev crowded : State ℕ World
crowded = record start { table = full_table; conns = write start.conns 0 (some pending) }
