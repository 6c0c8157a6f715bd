-- ===== src/Proxy/Close/Closes.antt =====
-- What `close_connection` of src/proxy.c leaves.
use nacl_proxy.Base.{
  ℕ, ◌≡◌, ◌≢◌, refl, ◌∙◌, inl, inr, none, some, ℤ, minus_one, int_eq, int_eq_iff, Bool-cases,
  Option-cases, write_self, write_again,
}
use nacl_proxy.Event.{event_remove}
use nacl_proxy.Event.Lookup.{Entry, lookup}
use nacl_proxy.Event.Found.{found-ne_negsuc, event_remove-found}
use nacl_proxy.Buf.{Net}
use nacl_proxy.Proxy.{Conn, Callback, Ptr, conn_ptr, State, System, done, put_conn, release}
use nacl_proxy.Proxy.Owned.{Has, Holds-Has, IsOwned, remove-IsOwned, release-IsOwned, world-IsOwned}
use nacl_proxy.Proxy.Close.{free_unreferenced, free_connection, close_side, close_connection}

module _ {A W : Type 0} (sys : System A W) where
  close_side-conns : (net : Net) (s : State A W) → (close_side sys net s).conns ≡ s.conns
  unfolding close_side
  close_side-conns net s = elim (Bool-cases (int_eq minus_one net.sock_fd)) [
    | inl gone ↦ rw gone
    | inr there ↦ rw there
  ]

  -- the state after a connection has been closed
  abbrev pub shut : Conn → State A W → State A W
  shut c s = close_side sys c.server (close_side sys c.client s)

  abbrev pub cleared : Conn → Conn
  cleared c = record c {
    client = record c.client { sock_fd = minus_one };
    server = record c.server { sock_fd = minus_one };
    ref = 0;
  }

  abbrev pub closed : ℕ → Conn → State A W → State A W
  closed p c s = release p (put_conn p (cleared c) (shut c s))

  pub shut-conns : (c : Conn) (s : State A W) → (shut c s).conns ≡ s.conns
  shut-conns c s = close_side-conns c.server _ ∙ close_side-conns c.client s

  pub closed-gone : (p : ℕ) (c : Conn) (s : State A W) → (closed p c s).conns p ≡ none
  closed-gone p c s = write_self (put_conn p (cleared c) (shut c s)).conns p none

  pub closes :
      (p : ℕ) (c : Conn) (s : State A W)
      → s.conns p ≡ some c
      → close_connection sys p s ≡ done (closed p c s)
  unfolding close_connection free_connection free_unreferenced
  closes p c s e = rw (e, write_self) refl

module _ {A W : Type 0} (sys : System A W) (listener : ℤ) where
  close_side-IsOwned :
      (net : Net) (s : State A W) → IsOwned listener s → IsOwned listener (close_side sys net s)
  unfolding close_side
  close_side-IsOwned net s o = elim (Bool-cases (int_eq minus_one net.sock_fd)) [
    | inl gone ↦ rw gone o
    | inr there ↦ rw there (
        world-IsOwned listener (record s { table = (event_remove net.sock_fd s.table).1 }) _ refl
          refl (remove-IsOwned listener s net.sock_fd o))
  ]

  -- A registration that is left was there before, for another descriptor.
  close_side-found :
      (net : Net) (s : State A W) (x : ℤ) (e : Entry Callback Ptr)
      → IsOwned listener s
      → lookup (close_side sys net s).table x ≡ some e
      → (lookup s.table x ≡ some e) × (x ≢ net.sock_fd)
  unfolding close_side
  close_side-found net s x e o = elim (Bool-cases (int_eq minus_one net.sock_fd)) [
    | inl gone ↦ rw gone λ found.
        let fd : minus_one ≡ net.sock_fd = (int_eq_iff minus_one net.sock_fd).0 gone in
        (found, rw (← fd) (found-ne_negsuc s.table x 0 e found))
    | inr there ↦ rw there λ found. event_remove-found s.table o.valid net.sock_fd x e found
  ]

  pub shut-IsOwned :
      (c : Conn) (s : State A W) → IsOwned listener s → IsOwned listener (shut sys c s)
  shut-IsOwned c s o = close_side-IsOwned c.server _ (close_side-IsOwned c.client s o)

  -- After both sides have been closed sys, no registration has a descriptor of the connection.
  pub shut-found :
      (c : Conn) (s : State A W) (x : ℤ) (e : Entry Callback Ptr)
      → IsOwned listener s
      → lookup (shut sys c s).table x ≡ some e
      → (lookup s.table x ≡ some e) × ¬ Has x c
  shut-found c s x e o found =
      let (found1, server) =
        close_side-found c.server (close_side sys c.client s) x e (close_side-IsOwned c.client s o)
          found in
      let (found2, client) = close_side-found c.client s x e o found1 in
      (found2, λ has. elim has [ inl h ↦ client h | inr h ↦ server h ])

  pub closed-IsOwned :
      (p : ℕ) (c : Conn) (s : State A W)
      → s.conns p ≡ some c
      → IsOwned listener s
      → IsOwned listener (closed sys p c s)
  closed-IsOwned p c s e o =
      world-IsOwned listener (release p (shut sys c s)) (closed sys p c s) refl
        (write_again _ p _ none)
        (release-IsOwned listener (shut sys c s) p (shut-IsOwned c s o) λ x events callback found.
          let (before, not_its) = shut-found c s x _ o found in
          not_its
            (Holds-Has x c (rw e at (o.refers x events callback (some (conn_ptr p)) before).1)))

  -- With an event table that refers to no bad pointer, `close_connection` of a connection that is
  -- allocated returns; the connection is no longer allocated, neither of its descriptors is registered,
  -- and the event table refers to no bad pointer.
  pub close_connection-closes :
      (p : ℕ) (c : Conn) (s : State A W)
      → s.conns p ≡ some c
      → IsOwned listener s
      → (s' : State A W) × (close_connection sys p s ≡ done s')
        × IsOwned listener s'
        × (s'.conns p ≡ none)
        × ((x : ℤ) → Has x c → lookup s'.table x ≡ none)
  close_connection-closes p c s e o = (
    closed sys p c s,
    closes sys p c s e,
    closed-IsOwned p c s e o,
    closed-gone sys p c s,
    λ x has. elim (Option-cases (lookup (shut sys c s).table x)) [
      | inl nothing ↦ nothing
      | inr (entry, there) ↦ absurd ((shut-found c s x entry o there).1 has)
    ],
  )
