-- ===== src/Proxy/Close.antt =====
-- `close_connection` and `free_connection` of src/proxy.c.
pub mod Closes
use nacl_proxy.Base.{
  ℕ, zero, suc, ◌-◌, Option, none, some, ℤ, minus_one, int_eq, leb, if◌then◌else◌,
}
use nacl_proxy.Event.{event_remove}
use nacl_proxy.Buf.{Net}
use nacl_proxy.Proxy.{
  Conn, State, System, Run, done, ◌>>=◌, deref, put_conn, release, Ptr, conn_ptr, as_conn,
}

module _ {A W : Type 0} where
  -- The freed contexts of src/netnacl are part of the connection.
  unfoldable pub free_unreferenced : ℕ → Conn → State A W → State A W
  free_unreferenced p c s =
      if leb c.ref 1 then release p s else put_conn p (record c { ref = c.ref - 1 }) s

  -- `free_connection` of a pointer that is not NULL
  unfoldable pub free_connection : ℕ → State A W → Run (State A W)
  unfolding free_unreferenced
  free_connection p s = deref p s >>= λ c. done (free_unreferenced p c s)

module _ {A W : Type 0} (sys : System A W) where
  -- A side that has a descriptor is removed from the event table and closed.
  pub close_side : Net → State A W → State A W
  close_side net s = if int_eq minus_one net.sock_fd then s else record s {
    table = (event_remove net.sock_fd s.table).1;
    env = sys.close net.sock_fd s.env;
  }

  pub close_connection : ℕ → State A W → Run (State A W)
  unfolding close_side
  close_connection p s = deref p s >>= λ c. free_connection p (
      put_conn p
        (record c {
          client = record c.client { sock_fd = minus_one };
          server = record c.server { sock_fd = minus_one };
          ref = 0;
        })
        (close_side c.server (close_side c.client s)))
