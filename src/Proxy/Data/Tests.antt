-- ===== src/Proxy/Data/Tests.antt =====
-- A client that closes its direction while bytes for it wait.
use nacl_proxy.Base.{
  ℕ, ◌≡◌, ◌≢◌, refl, some, none, pos, minus_one, ◌∷◌, replicate, write, write_self, arith,
}
use nacl_proxy.Errors.{proxy_err}
use nacl_proxy.Event.Tests.{only_four, only_four-modify}
use nacl_proxy.Buf.Tests.{buf_recv-closing}
use nacl_proxy.Proxy.{Conn, State, System, done, conn_ptr, on_conn, pollinout}
use nacl_proxy.Proxy.Data.{conn_callback}
use nacl_proxy.Proxy.Data.HalfClosed.{conn_callback-half_closed}
use nacl_proxy.Proxy.Tests.{small, start, open_conn}
use nacl_proxy.Tests.Sockets.{World, closing}

abbrev ending : System ℕ World
ending = record small { socket = closing }

-- two bytes wait for the client
abbrev pending : Conn
pending = record open_conn {
  client_send_buf = record { size = 2; read_pos = 0; contents = 8 ∷ 9 ∷ replicate 16346 0 };
}

abbrev serving : State ℕ World
serving = record start {
  table = only_four (conn_ptr 0) on_conn;
  conns = write start.conns 0 (some pending);
}

four_there : pos 4 ≢ minus_one
four_there same = cc

conn_callback-half_closed_example :
    (s' : State ℕ World) × (conn_callback ending (pos 7) pollinout (some (conn_ptr 0)) serving
      ≡ done (proxy_err, s'))
    × (s'.conns 0 ≡ none)
conn_callback-half_closed_example =
    conn_callback-half_closed ending (λ bytes flags w. refl) 7 0 pending serving buf_recv-closing.0
      buf_recv-closing.1 buf_recv-closing.2 (write_self start.conns 0 (some pending)) refl refl
      four_there refl (omega arith) buf_recv-closing.3 buf_recv-closing.4
      (rw buf_recv-closing.5 (only_four-modify (conn_ptr 0) on_conn))
