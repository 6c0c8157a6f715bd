-- ===== src/Proxy/Owned.antt =====
-- What the event table of src/proxy.c refers to: each registration of a connection's callback points
-- to a connection that is allocated and has the descriptor, and the listener's to the configuration.
-- The reference count of a connection with two registrations is at least 2.
use nacl_proxy.Base.{
  ℕ, ◌≤◌, ◌≡◌, ◌≢◌, refl, sym, ◌∙◌, ap, ◌⊎◌, inl, inr, Option, none, some, ℤ, Bool-cases, ◌==◌,
  ==_iff, write_self,
}
use nacl_proxy.Event.{init, Mask, event_add, event_modify, event_remove}
use nacl_proxy.Event.Invariant.{
  IsValid, init-IsValid, event_add-IsValid, event_modify-IsValid, event_remove-IsValid,
}
use nacl_proxy.Event.Lookup.{lookup, lookup-init}
use nacl_proxy.Event.Found.{event_add-found, event_modify-found, event_remove-found}
use nacl_proxy.Proxy.{
  Conn, Callback, on_accept, Ptr, config_ptr, conn_ptr, State, Run, done, fault, bad_pointer,
  overflowed, has_exited, ran_out, ◌>>=◌, put_conn, release,
}

-- a connection has a descriptor
abbrev pub Has : ℤ → Conn → Type 0
Has x c = (x ≡ c.client.sock_fd) ⊎ (x ≡ c.server.sock_fd)

-- A connection has a descriptor that is registered: only one that has been counted twice has its
-- client's there.
abbrev pub Holds : ℤ → Conn → Type 0
Holds x c = (x ≡ c.client.sock_fd) × (2 ≤ c.ref) ⊎ (x ≡ c.server.sock_fd)

pub Holds-Has : (x : ℤ) (c : Conn) → Holds x c → Has x c
Holds-Has x c (inl (here, counted)) = inl here
Holds-Has x c (inr here) = inr here

abbrev pub Held : ℤ → Option Conn → Type 0
Held x none = ⊥
Held x (some c) = Holds x c

-- what the registration of a descriptor may refer to
abbrev pub Refers : ℤ → (ℕ → Option Conn) → ℤ → Option Callback → Option Ptr → Type 0
Refers listener conns x callback none = ⊥
Refers listener conns x callback (some (config_ptr config)) =
    (callback ≡ some on_accept) × (x ≡ listener)
Refers listener conns x callback (some (conn_ptr p)) =
    (callback ≢ some on_accept) × Held x (conns p)

pub record IsOwned {A W : Type 0} (listener : ℤ) (s : State A W) : Type 0 where
  pub valid : IsValid s.table
  pub refers :
      (x : ℤ) (events : Mask) (callback : Option Callback) (p_data : Option Ptr)
      → lookup s.table x ≡ some (events, callback, p_data)
      → Refers listener s.conns x callback p_data

-- A run that has not followed a bad pointer, and whose state satisfies `P` if it has ended.
unfoldable pub Safely : {X : Type 0} → (X → Type 0) → Run X → Type 0
Safely P (done x) = P x
Safely P (fault bad_pointer) = ⊥
Safely P (fault overflowed) = Unit
Safely P (fault has_exited) = Unit
Safely P (fault ran_out) = Unit

pub Safely-bind :
    {X Y : Type 0} (P : X → Type 0) (Q : Y → Type 0) (m : Run X) (f : X → Run Y)
    → Safely P m
    → ((x : X) → P x → Safely Q (f x))
    → Safely Q (m >>= f)
unfolding Safely
Safely-bind P Q (done x) f h k = k x h
Safely-bind P Q (fault bad_pointer) f h k = h
Safely-bind P Q (fault overflowed) f h k = _
Safely-bind P Q (fault has_exited) f h k = _
Safely-bind P Q (fault ran_out) f h k = _

pub Safely-weaken :
    {X : Type 0} (P Q : X → Type 0) (m : Run X) → Safely P m → ((x : X) → P x → Q x) → Safely Q m
unfolding Safely
Safely-weaken P Q (done x) h k = k x h
Safely-weaken P Q (fault bad_pointer) h k = h
Safely-weaken P Q (fault overflowed) h k = _
Safely-weaken P Q (fault has_exited) h k = _
Safely-weaken P Q (fault ran_out) h k = _

module _ {A W : Type 0} where
  pub put_conn_self : (p : ℕ) (c : Conn) (s : State A W) → (put_conn p c s).conns p ≡ some c
  put_conn_self p c s = write_self s.conns p (some c)

module _ {A W : Type 0} (listener : ℤ) where
  -- A process without connections, whose event table is empty.
  pub start-IsOwned : (s : State A W) → s.table ≡ init → IsOwned listener s
  start-IsOwned s empty = record {
    valid = rw empty init-IsValid;
    refers = λ x events callback p_data found.
        let nothing : lookup s.table x ≡ none = rw empty (lookup-init x) in
        let clash : none ≡ some (events, callback, p_data) = sym nothing ∙ found in absurd cc;
  }

  -- Registrations that are found in another table, for the same connections.
  pub table-IsOwned :
      (s : State A W) (o : IsOwned listener s) (s' : State A W)
      → IsValid s'.table
      → s'.conns ≡ s.conns
      → ((x : ℤ) (events : Mask) (callback : Option Callback) (p_data : Option Ptr)
          → lookup s'.table x ≡ some (events, callback, p_data)
          → (before : Mask) × (lookup s.table x ≡ some (before, callback, p_data)))
      → IsOwned listener s'
  table-IsOwned s o s' v same from = record {
    valid = v;
    refers = λ x events callback p_data found.
        let (before, found') = from x events callback p_data found in
        rw same (o.refers x before callback p_data found');
  }

  pub remove-IsOwned :
      (s : State A W) (efd : ℤ)
      → IsOwned listener s
      → IsOwned listener (record s { table = (event_remove efd s.table).1 })
  remove-IsOwned s efd o =
      table-IsOwned s o (record s { table = (event_remove efd s.table).1 })
        (event_remove-IsValid s.table o.valid efd) refl
        λ x events callback p_data found.
          (events, (event_remove-found s.table o.valid efd x (events, callback, p_data) found).0)

  pub modify-IsOwned :
      (s : State A W) (efd : ℤ) (events : Mask)
      → IsOwned listener s
      → IsOwned listener (record s { table = (event_modify efd events s.table).1 })
  modify-IsOwned s efd events o =
      table-IsOwned s o (record s { table = (event_modify efd events s.table).1 })
        (event_modify-IsValid s.table o.valid efd events) refl
        (event_modify-found s.table o.valid efd events)

  pub add-IsOwned :
      (s : State A W) (efd : ℤ) (events : Mask) (p_data : Ptr) (callback : Callback)
      → IsOwned listener s
      → Refers listener s.conns efd (some callback) (some p_data)
      → IsOwned listener
          (record s { table = (event_add efd events (some p_data) (some callback) s.table).1 })
  add-IsOwned s efd events p_data callback o r = record {
    valid = event_add-IsValid s.table o.valid efd events (some p_data) (some callback);
    refers = λ x events' callback' p_data' found.
        elim (event_add-found s.table o.valid efd events (some p_data) callback x _ found) [
          | inl before ↦ o.refers x events' callback' p_data' before
          | inr (_, here, new) ↦ rw (here, ap (λ e. e.1) new, ap (λ e. e.2) new) r
        ];
  }

  -- Other connections, for the same registrations.
  pub conns-IsOwned :
      (s : State A W) (o : IsOwned listener s) (s' : State A W)
      → s'.table ≡ s.table
      → ((q : ℕ) (x : ℤ) (events : Mask) (callback : Option Callback)
          → lookup s.table x ≡ some (events, callback, some (conn_ptr q))
          → Held x (s.conns q)
          → Held x (s'.conns q))
      → IsOwned listener s'
  conns-IsOwned s o s' same holds = record {
    valid = rw same o.valid;
    refers = λ x events callback p_data found.
        go x events callback p_data (rw same at found)
          (o.refers x events callback p_data (rw same at found));
  }
    where
      go :
          (x : ℤ) (events : Mask) (callback : Option Callback) (p_data : Option Ptr)
          → lookup s.table x ≡ some (events, callback, p_data)
          → Refers listener s.conns x callback p_data
          → Refers listener s'.conns x callback p_data
      go x events callback none found r = r
      go x events callback (some (config_ptr config)) found r = r
      go x events callback (some (conn_ptr q)) found (other, held) =
          (other, holds q x events callback found held)

  pub put-IsOwned :
      (s : State A W) (p : ℕ) (c : Conn)
      → IsOwned listener s
      → ((x : ℤ) → Held x (s.conns p) → Holds x c)
      → IsOwned listener (put_conn p c s)
  put-IsOwned s p c o keeps =
      conns-IsOwned s o (put_conn p c s) refl λ q x events callback found held.
        elim (Bool-cases (p == q)) [
          | inl here ↦ let same : p ≡ q = (==_iff p q).0 here in rw here (keeps x (rw same held))
          | inr away ↦ rw away held
        ]

  -- Memory that nothing refers to may be freed.
  pub release-IsOwned :
      (s : State A W) (p : ℕ)
      → IsOwned listener s
      → ((x : ℤ) (events : Mask) (callback : Option Callback)
          → lookup s.table x ≢ some (events, callback, some (conn_ptr p)))
      → IsOwned listener (release p s)
  release-IsOwned s p o unused =
      conns-IsOwned s o (release p s) refl λ q x events callback found held.
        elim (Bool-cases (p == q)) [
          | inl here ↦
              let same : p ≡ q = (==_iff p q).0 here in
              absurd (unused x events callback (rw same found))
          | inr away ↦ rw away held
        ]

  -- The world and the cached address play no part.
  pub world-IsOwned :
      (s : State A W) (s' : State A W)
      → s'.table ≡ s.table
      → s'.conns ≡ s.conns
      → IsOwned listener s
      → IsOwned listener s'
  world-IsOwned s s' t c o =
      table-IsOwned s o s' (rw t o.valid) c
        λ x events callback p_data found. (events, rw t at found)
