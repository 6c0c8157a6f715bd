-- ===== src/Proxy/Accept/Added.antt =====
-- `add_connection_events` of src/proxy.c: what it leaves in the event table.
use nacl_proxy.Base.{
  ℕ, ◌+◌, ◌≡◌, ◌≢◌, refl, sym, ap, ◌∙◌, ◌⊎◌, inl, inr, ◌&&◌, Option, some, ℤ, int_eq, int_eq_iff,
  is_nonneg, Bool-cases, ◌==◌, write_again, arith,
}
use nacl_proxy.Errors.{proxy_success}
use nacl_proxy.Event.{Mask, event_remove}
use nacl_proxy.Event.Invariant.{IsValid, event_add-IsValid}
use nacl_proxy.Event.Lookup.{lookup}
use nacl_proxy.Event.Found.{event_add-found, event_remove-found}
use nacl_proxy.Buf.{Net}
use nacl_proxy.Proxy.{
  Conn, Callback, on_accept, on_handshake, on_conn, conn_ptr, State, System, put_conn, pollin,
  pollout,
}
use nacl_proxy.Proxy.Owned.{
  Holds, IsOwned, Safely, put_conn_self, remove-IsOwned, add-IsOwned, put-IsOwned, table-IsOwned,
  conns-IsOwned, world-IsOwned,
}
use nacl_proxy.Proxy.Data.Safe.{deref-Safely, not_success}
use nacl_proxy.Proxy.Handshake.{add_event}
use nacl_proxy.Proxy.Handshake.Safe.{not_accept, Keeps}
use nacl_proxy.Proxy.Accept.{add_side, add_server, add_both, add_connection_events}

-- Only registrations of one descriptor refer to an address.
abbrev pub OnlyAt : {A W : Type 0} → ℤ → ℕ → State A W → Type 0
OnlyAt fd p s =
    (x : ℤ) (events : Mask) (callback : Option Callback)
    → lookup s.table x ≡ some (events, callback, some (conn_ptr p))
    → x ≡ fd

-- no registration refers to an address
abbrev pub Unused : {A W : Type 0} → ℕ → State A W → Type 0
Unused p s =
    (x : ℤ) (events : Mask) (callback : Option Callback)
    → lookup s.table x ≢ some (events, callback, some (conn_ptr p))

module _ {A W : Type 0} (sys : System A W) where
  pub add_side-conns :
      (net : Net) (p : ℕ) (s : State A W) → (add_side sys net p s).1.conns ≡ s.conns
  unfolding add_side add_event
  add_side-conns net p s = elim (Bool-cases net.b_encrypted) [
    | inl encrypted ↦ rw encrypted
    | inr plain ↦ rw plain
  ]

  -- The registration of a side does not look at the connection.
  add_side-put :
      (net : Net) (p : ℕ) (c : Conn) (s : State A W)
      → add_side sys net p (put_conn p c s)
        ≡ ((add_side sys net p s).0, put_conn p c (add_side sys net p s).1)
  unfolding add_side add_event
  add_side-put net p c s = elim (Bool-cases net.b_encrypted) [
    | inl encrypted ↦ rw encrypted
    | inr plain ↦ rw plain
  ]

-- a connection that has been counted twice more
abbrev counted : Conn → Conn
counted c = record c { ref = c.ref + 2 }

Holds-counted : (x : ℤ) (c : Conn) → Holds x c → Holds x (counted c)
Holds-counted x c (inl (here, two)) = inl (here, omega arith)
Holds-counted x c (inr here) = inr here

-- What a connection has registered, but for its client.
not_client :
    (x : ℤ) (c c1 : Conn)
    → c1.server.sock_fd ≡ c.server.sock_fd
    → x ≢ c.client.sock_fd
    → Holds x c
    → Holds x c1
not_client x c c1 same away (inl (here, two)) = absurd (away here)
not_client x c c1 same away (inr here) = inr (here ∙ sym same)

counted-client : (c : Conn) → Holds c.client.sock_fd (counted c)
counted-client c = inl (refl, omega arith)

module _ {A W : Type 0} (sys : System A W) (listener : ℤ) where
  -- The connection stays allocated, and a failed call leaves no registration of it behind.
  abbrev pub Opened : ℕ → ℤ × State A W → Type 0
  Opened p r = Keeps sys listener p r × (r.0 ≢ proxy_success → Unused p r.1)

  pub add_event-IsOwned :
      (fd : ℤ) (events : Mask) (p : ℕ) (callback : Callback) (c : Conn) (s : State A W)
      → some callback ≢ some on_accept
      → Holds fd c
      → s.conns p ≡ some c
      → IsOwned listener s
      → IsOwned listener (add_event sys fd events (conn_ptr p) callback s).1
  unfolding add_event
  add_event-IsOwned fd events p callback c s other has e o =
      add-IsOwned listener s fd events (conn_ptr p) callback o (other, rw e has)

  pub add_event-found :
      (fd : ℤ) (events : Mask) (p : ℕ) (callback : Callback) (s : State A W)
      → IsValid s.table
      → (x : ℤ) (events' : Mask) (callback' : Option Callback)
      → lookup (add_event sys fd events (conn_ptr p) callback s).1.table x
        ≡ some (events', callback', some (conn_ptr p))
      → (lookup s.table x ≡ some (events', callback', some (conn_ptr p)))
        ⊎ ((add_event sys fd events (conn_ptr p) callback s).0 ≡ proxy_success) × (x ≡ fd)
  unfolding add_event
  add_event-found fd events p callback s v x events' callback' found =
      elim (event_add-found s.table v fd events (some (conn_ptr p)) callback x _ found) [
        | inl before ↦ inl before
        | inr (good, here, new) ↦ inr (good, here)
      ]

  pub add_event-Opened :
      (fd : ℤ) (events : Mask) (p : ℕ) (callback : Callback) (c : Conn) (s : State A W)
      → some callback ≢ some on_accept
      → Holds fd c
      → s.conns p ≡ some c
      → IsOwned listener s
      → Unused p s
      → Opened p (add_event sys fd events (conn_ptr p) callback s)
  unfolding add_event
  add_event-Opened fd events p callback c s other has e o unused = (
    (add_event-IsOwned fd events p callback c s other has e o, (c, e)),
    λ bad x events' callback' found.
        elim (add_event-found fd events p callback s o.valid x events' callback' found) [
          | inl before ↦ unused x events' callback' before
          | inr (good, here) ↦ bad good
        ],
  )

  add_side-IsOwned :
      (net : Net) (p : ℕ) (c : Conn) (s : State A W)
      → Holds net.sock_fd c
      → s.conns p ≡ some c
      → IsOwned listener s
      → IsOwned listener (add_side sys net p s).1
  unfolding add_side
  add_side-IsOwned net p c s has e o = elim (Bool-cases net.b_encrypted) [
    | inl encrypted ↦ rw encrypted (
        add_event-IsOwned net.sock_fd pollout p on_handshake c s (not_accept on_handshake refl) has
          e o)
    | inr plain ↦
        rw plain
          (add_event-IsOwned net.sock_fd pollin p on_conn c s (not_accept on_conn refl) has e o)
  ]

  -- A registration that fails changes nothing.
  add_event-failed :
      (fd : ℤ) (events : Mask) (p : ℕ) (callback : Callback) (s : State A W)
      → (add_event sys fd events (conn_ptr p) callback s).0 ≢ proxy_success
      → IsOwned listener s
      → IsOwned listener (add_event sys fd events (conn_ptr p) callback s).1
  unfolding add_event
  add_event-failed fd events p callback s bad o =
      table-IsOwned listener s o (add_event sys fd events (conn_ptr p) callback s).1
        (event_add-IsValid s.table o.valid fd events (some (conn_ptr p)) (some callback)) refl
        λ x events' callback' p_data' found.
          elim (event_add-found s.table o.valid fd events (some (conn_ptr p)) callback x _ found) [
            | inl before ↦ (events', before)
            | inr (good, here, new) ↦ absurd (bad good)
          ]

  add_side-failed :
      (net : Net) (p : ℕ) (s : State A W)
      → (add_side sys net p s).0 ≢ proxy_success
      → IsOwned listener s
      → IsOwned listener (add_side sys net p s).1
  unfolding add_side
  add_side-failed net p s = elim (Bool-cases net.b_encrypted) [
    | inl encrypted ↦ rw encrypted (add_event-failed net.sock_fd pollout p on_handshake s)
    | inr plain ↦ rw plain (add_event-failed net.sock_fd pollin p on_conn s)
  ]

  add_side-found :
      (net : Net) (p : ℕ) (s : State A W)
      → IsValid s.table
      → (x : ℤ) (events' : Mask) (callback' : Option Callback)
      → lookup (add_side sys net p s).1.table x ≡ some (events', callback', some (conn_ptr p))
      → (lookup s.table x ≡ some (events', callback', some (conn_ptr p)))
        ⊎ ((add_side sys net p s).0 ≡ proxy_success) × (x ≡ net.sock_fd)
  unfolding add_side
  add_side-found net p s v = elim (Bool-cases net.b_encrypted) [
    | inl encrypted ↦ rw encrypted (add_event-found net.sock_fd pollout p on_handshake s v)
    | inr plain ↦ rw plain (add_event-found net.sock_fd pollin p on_conn s v)
  ]

  -- With the client's registration gone, a connection need not have been counted twice.
  uncount-IsOwned :
      (p : ℕ) (c c1 : Conn) (s : State A W)
      → c1.server.sock_fd ≡ c.server.sock_fd
      → IsOwned listener (put_conn p c s)
      → IsOwned listener
          (record (put_conn p c1 s) { table = (event_remove c.client.sock_fd s.table).1 })
  uncount-IsOwned p c c1 s same o =
      let removed : State A W = record (put_conn p c s) {
        table = (event_remove c.client.sock_fd s.table).1;
      } in
      conns-IsOwned listener removed (remove-IsOwned listener (put_conn p c s) c.client.sock_fd o) _
        refl
        λ q x events callback found held. elim (Bool-cases (p == q)) [
          | inr away ↦ rw away (rw away at held)
          | inl here ↦
              let (before, away) = event_remove-found s.table o.valid c.client.sock_fd x _ found in
              rw here (not_client x c c1 same away (rw here at held))
        ]

  add_server-Keeps :
      (p : ℕ) (c : Conn) (s : State A W)
      → IsOwned listener (put_conn p (counted c) s)
      → Keeps sys listener p (add_server sys c p s)
        × (OnlyAt c.client.sock_fd p s
            → (add_server sys c p s).0 ≢ proxy_success
            → Unused p (add_server sys c p s).1)
  unfolding add_server
  add_server-Keeps p c s o =
      let c1 : Conn = record c { ref = c.ref + 1 } in
      let t : State A W = (add_side sys c.server p s).1 in
      let o1 : IsOwned listener (add_side sys c.server p (put_conn p (counted c) s)).1 =
        add_side-IsOwned c.server p (counted c) (put_conn p (counted c) s) (inr refl)
          (put_conn_self p (counted c) s) o in
      let o' : IsOwned listener (put_conn p (counted c) t) =
        rw (add_side-put sys c.server p (counted c) s) at o1 in
      elim (Bool-cases (int_eq proxy_success (add_side sys c.server p s).0)) [
        | inl good ↦
            rw (add_side-put sys c.server p c1 s, good)
              (
                (
                  world-IsOwned listener (put_conn p (counted c) t) _ refl
                      (write_again t.conns p _ _) o',
                  (counted c, put_conn_self p (counted c) (put_conn p c1 t)),
                ),
                λ only bad. absurd (bad (sym ((int_eq_iff proxy_success _).0 good))),
              )
        | inr bad ↦
            rw (add_side-put sys c.server p c1 s, bad)
              (
                (uncount-IsOwned p (counted c) c1 t refl o', (c1, put_conn_self p c1 t)),
                λ only h x events callback found.
                    let (before, away) =
                      event_remove-found t.table o'.valid c.client.sock_fd x _ found in
                    elim (add_side-found c.server p s o.valid x events callback before) [
                      | inl earlier ↦ away (only x events callback earlier)
                      | inr (good, here) ↦ h good
                    ],
              )
      ]

  -- `Keeps`, and a failed call leaves no registration of the connection behind.
  abbrev pub Adds : ℕ → State A W → ℤ × State A W → Type 0
  Adds p s r = Keeps sys listener p r × (Unused p s → r.0 ≢ proxy_success → Unused p r.1)

  add_both-Adds :
      (p : ℕ) (c : Conn) (s : State A W)
      → s.conns p ≡ some c
      → IsOwned listener s
      → Adds p s (add_both sys c p s)
  unfolding add_both
  add_both-Adds p c s e o =
      let s' : State A W = (add_side sys c.client p s).1 in
      let o1 : IsOwned listener (add_side sys c.client p (put_conn p (counted c) s)).1 =
        add_side-IsOwned c.client p (counted c) (put_conn p (counted c) s) (counted-client c)
          (put_conn_self p (counted c) s)
          (put-IsOwned listener s p (counted c) o λ x held. Holds-counted x c (rw e at held)) in
      let o' : IsOwned listener (put_conn p (counted c) s') =
        rw (add_side-put sys c.client p (counted c) s) at o1 in
      let e' : s'.conns p ≡ some c = ap (λ f. f p) (add_side-conns sys c.client p s) ∙ e in
      elim (Bool-cases (is_nonneg c.client.sock_fd && is_nonneg c.server.sock_fd)) [
        | inr wrong ↦ rw wrong ((o, (c, e)), λ unused bad. unused)
        | inl fine ↦ elim (Bool-cases (int_eq proxy_success (add_side sys c.client p s).0)) [
          | inr bad ↦
              let failed : (add_side sys c.client p s).0 ≢ proxy_success = not_success _ bad in
              rw (fine, bad)
                (
                  (add_side-failed c.client p s failed o, (c, e')),
                  λ unused h x events callback found.
                      elim (add_side-found c.client p s o.valid x events callback found) [
                        | inl before ↦ unused x events callback before
                        | inr (good, here) ↦ h good
                      ],
                )
          | inl good ↦
              let (kept, left) = add_server-Keeps p c s' o' in
              rw (fine, good)
                (
                  kept,
                  λ unused. left λ x events callback found.
                      elim (add_side-found c.client p s o.valid x events callback found) [
                        | inl before ↦ absurd (unused x events callback before)
                        | inr (done_well, here) ↦ here
                      ],
                )
        ]
      ]

  pub add_connection_events-Adds :
      (p : ℕ) (c : Conn) (s : State A W)
      → s.conns p ≡ some c
      → IsOwned listener s
      → Safely (Adds p s) (add_connection_events sys p s)
  unfolding add_connection_events Safely
  add_connection_events-Adds p c s e o = deref-Safely _ p c s _ e (add_both-Adds p c s e o)
