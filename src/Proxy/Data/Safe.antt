-- ===== src/Proxy/Data/Safe.antt =====
-- `handle_recv` of src/proxy.c follows no bad pointer and leaves none in the event table.
use nacl_proxy.Base.{
  ℕ, ◌≡◌, ◌≢◌, refl, sym, ◌∙◌, inl, inr, false, ◌&&◌, not, some, ℤ, minus_one, int_eq, int_eq_iff,
  ◌==◌, ==_iff, Bool-cases,
}
use nacl_proxy.Errors.{proxy_success, proxy_disconnect, proxy_would_block}
use nacl_proxy.Sys.{Res, ok, overflow, exited, out_of_fuel}
use nacl_proxy.Event.{Mask, event_remove}
use nacl_proxy.Event.Found.{event_remove-found}
use nacl_proxy.Buf.{Buf, Net, buf_recv}
use nacl_proxy.Buf.Kept.{SameEnds, buf_recv-kept}
use nacl_proxy.Sys.Gives.{Gives}
use nacl_proxy.Proxy.{
  done, deref, ◌>>=◌, Conn, State, System, Run, ended, put_conn, Side, invalid, client, server,
  net_of, with_net, buf_to, with_buf, other, pollinout,
}
use nacl_proxy.Proxy.Owned.{
  Holds, Held, IsOwned, Safely, Safely-bind, put_conn_self, remove-IsOwned, modify-IsOwned,
  conns-IsOwned, put-IsOwned, world-IsOwned,
}
use nacl_proxy.Proxy.Close.Closes.{closed, closes, closed-IsOwned}
use nacl_proxy.Proxy.Data.{
  modify_event, drop_side, close_with, forward, after_recv, recv_from, handle_recv,
}

-- A side with other data has the same descriptors.
pub with_net-Holds :
    (side : Side) (c : Conn) (net : Net) (x : ℤ)
    → net.sock_fd ≡ (net_of side c).sock_fd
    → Holds x c
    → Holds x (with_net side net c)
with_net-Holds client c net x e (inl (h, two)) = inl (h ∙ sym e, two)
with_net-Holds client c net x e (inr h) = inr h
with_net-Holds server c net x e (inl h) = inl h
with_net-Holds server c net x e (inr h) = inr (h ∙ sym e)
with_net-Holds invalid c net x e (inl h) = inl h
with_net-Holds invalid c net x e (inr h) = inr (h ∙ sym e)

pub with_buf-Holds :
    (side : Side) (c : Conn) (b : Buf) (x : ℤ) → Holds x c → Holds x (with_buf side b c)
with_buf-Holds client c b x h = h
with_buf-Holds server c b x h = h
with_buf-Holds invalid c b x h = h

-- A side that is dropped was the one with the descriptor, or the other has it.
drop-Holds :
    (side : Side) (c : Conn) (net : Net) (x : ℤ)
    → x ≢ (net_of side c).sock_fd
    → Holds x c
    → Holds x (with_net side net c)
drop-Holds client c net x away (inl (h, two)) = absurd (away h)
drop-Holds client c net x away (inr h) = inr h
drop-Holds server c net x away (inl h) = inl h
drop-Holds server c net x away (inr h) = absurd (away h)
drop-Holds invalid c net x away (inl h) = inl h
drop-Holds invalid c net x away (inr h) = absurd (away h)

pub ended-Safely : {X : Type 0} (P : X → Type 0) (r : Res X) → Gives P r → Safely P (ended r)
unfolding Gives Safely
ended-Safely P (ok x) h = h
ended-Safely P overflow h = _
ended-Safely P exited h = _
ended-Safely P out_of_fuel h = _

-- A pointer to a connection that is allocated may be followed.
pub deref-Safely :
    {A W X : Type 0} (P : X → Type 0) (p : ℕ) (c : Conn) (s : State A W) (f : Conn → Run X)
    → s.conns p ≡ some c
    → Safely P (f c)
    → Safely P (deref p s >>= f)
unfolding Safely
deref-Safely P p c s f e h = rw e h

-- a code that is not the one of success
pub not_success : (err : ℤ) → int_eq proxy_success err ≡ false → err ≢ proxy_success
not_success err h same = cc ((int_eq_iff proxy_success err).1 (sym same))

disconnect_not_success : proxy_disconnect ≢ proxy_success
disconnect_not_success = not_success proxy_disconnect refl

module _ {A W : Type 0} (sys : System A W) where
  pub close_with_lem :
      (code : ℤ) (p : ℕ) (c : Conn) (s : State A W)
      → s.conns p ≡ some c
      → close_with sys code p s ≡ done (code, closed sys p c s)
  unfolding close_with
  close_with_lem code p c s e = rw (closes sys p c s e) refl

  pub modify_event-there :
      (efd : ℤ) (events : Mask) (p : ℕ) (c : Conn) (s : State A W)
      → s.conns p ≡ some c
      → (modify_event sys efd events s).1.conns p ≡ some c
  unfolding modify_event
  modify_event-there efd events p c s e = e

module _ {A W : Type 0} (sys : System A W) (listener : ℤ) where
  -- A step that follows no bad pointer and leaves none in the table; its connection stays allocated
  -- if it succeeds.
  abbrev pub Serves : ℕ → Run (ℤ × State A W) → Type 0
  Serves p =
      Safely
        λ (code, s). IsOwned listener s × (code ≡ proxy_success → (c : Conn) × (s.conns p ≡ some c))

  -- a step that follows no bad pointer and leaves none in the table
  abbrev pub Safe : Run (ℤ × State A W) → Type 0
  Safe = Safely λ (code, s). IsOwned listener s

  pub close_with-Safe :
      (code : ℤ) (p : ℕ) (c : Conn) (s : State A W)
      → s.conns p ≡ some c
      → IsOwned listener s
      → Safe (close_with sys code p s)
  unfolding close_with Safely
  close_with-Safe code p c s e o = rw (closes sys p c s e) (closed-IsOwned sys listener p c s e o)

  pub modify_event-IsOwned :
      (efd : ℤ) (events : Mask) (s : State A W)
      → IsOwned listener s
      → IsOwned listener (modify_event sys efd events s).1
  unfolding modify_event
  modify_event-IsOwned efd events s o = modify-IsOwned listener s efd events o

  close_with-Serves :
      (code : ℤ) (p : ℕ) (c : Conn) (s : State A W)
      → s.conns p ≡ some c
      → code ≢ proxy_success
      → IsOwned listener s
      → Serves p (close_with sys code p s)
  unfolding close_with Safely
  close_with-Serves code p c s e bad o =
      rw (closes sys p c s e) (closed-IsOwned sys listener p c s e o, λ good. absurd (bad good))

  forward-Serves :
      (fd : ℤ) (p : ℕ) (c : Conn) (s : State A W)
      → s.conns p ≡ some c
      → IsOwned listener s
      → Serves p (forward sys fd p s)
  unfolding forward Safely
  forward-Serves fd p c s e o = elim (Bool-cases (int_eq minus_one fd)) [
    | inl gone ↦ rw gone (close_with-Serves proxy_disconnect p c s e disconnect_not_success o)
    | inr there ↦ rw there (modify_event-IsOwned fd pollinout s o, λ good. (c, e))
  ]

  -- A connection that keeps its descriptors may be stored.
  pub stored-IsOwned :
      (p : ℕ) (c c' : Conn) (s : State A W)
      → s.conns p ≡ some c
      → ((x : ℤ) → Holds x c → Holds x c')
      → IsOwned listener s
      → IsOwned listener (put_conn p c' s)
  stored-IsOwned p c c' s e keeps o = put-IsOwned listener s p c' o λ x held. keeps x (rw e at held)

  dropped-IsOwned :
      (side : Side) (p : ℕ) (c : Conn) (s : State A W)
      → IsOwned listener s
      → ((x : ℤ) → Held x (s.conns p) → Holds x c)
      → let (c', s') = drop_side sys side c s in IsOwned listener (put_conn p c' s')
  unfolding drop_side
  dropped-IsOwned side p c s o keeps =
      let fd : ℤ = (net_of side c).sock_fd in
      let (c', s') = drop_side sys side c s in
      conns-IsOwned listener (record s { table = (event_remove fd s.table).1 })
        (remove-IsOwned listener s fd o) (put_conn p c' s') refl
        λ q x events callback found held. elim (Bool-cases (p == q)) [
          | inl here ↦
              let same : p ≡ q = (==_iff p q).0 here in
              let (before, away) = event_remove-found s.table o.valid fd x _ found in
              rw here (drop-Holds side c _ x away (keeps x (rw same held)))
          | inr away ↦ rw away held
        ]

  after_recv-Serves :
      (side : Side) (p : ℕ) (err : ℤ) (c : Conn) (s : State A W)
      → IsOwned listener s
      → ((x : ℤ) → Held x (s.conns p) → Holds x c)
      → Serves p (after_recv sys side p err c s)
  unfolding after_recv Safely
  after_recv-Serves side p err c s o keeps =
      let o' : IsOwned listener (put_conn p c s) = put-IsOwned listener s p c o keeps in
      elim (Bool-cases (int_eq proxy_success err)) [
        | inl good ↦ rw good (
            forward-Serves (net_of (other side) c).sock_fd p c (put_conn p c s)
              (put_conn_self p c s) o')
        | inr bad ↦
            elim (Bool-cases
              (int_eq proxy_disconnect err && not ((buf_to (other side) c).size == 0))) [
                | inl left ↦
                    let (c', s') = drop_side sys side c s in
                    rw (bad, left)
                      (forward-Serves (net_of (other side) c).sock_fd p c' (put_conn p c' s')
                        (put_conn_self p c' s') (dropped-IsOwned side p c s o keeps))
                | inr alone ↦ elim (Bool-cases (int_eq proxy_would_block err)) [
                  | inl wait ↦ rw (bad, alone, wait) (o', λ h. (c, put_conn_self p c s))
                  | inr over ↦
                      rw (bad, alone, over)
                        (close_with-Serves err p c (put_conn p c s) (put_conn_self p c s)
                          (not_success err bad) o')
                ]
              ]
      ]

  recv_from-Serves :
      (side : Side) (p : ℕ) (c : Conn) (s : State A W)
      → s.conns p ≡ some c
      → IsOwned listener s
      → Serves p (recv_from sys side p s)
  unfolding recv_from Safely
  recv_from-Serves side p c s e o = elim (Bool-cases ((buf_to (other side) c).size == 0)) [
    | inr full ↦ rw (e, full) (o, λ h. (c, e))
    | inl room ↦
        rw (e, room)
          (Safely-bind (λ (code, net', buf, env). SameEnds (net_of side c) net') _
            (ended (buf_recv sys.socket sys.crypto 0 (net_of side c) (buf_to (other side) c) s.env))
            _
            (ended-Safely _ _
              (buf_recv-kept sys.socket sys.crypto 0 (net_of side c) (buf_to (other side) c) s.env))
            λ (err, net', buf, env) same.
              after_recv-Serves side p err (with_buf (other side) buf (with_net side net' c))
                (record s { env = env })
                (world-IsOwned listener s (record s { env = env }) refl refl o)
                λ x held.
                  with_buf-Holds (other side) (with_net side net' c) buf x
                    (with_net-Holds side c net' x same.fd (rw e at held)))
  ]

  pub handle_recv-Serves :
      (p : ℕ) (side : Side) (c : Conn) (s : State A W)
      → s.conns p ≡ some c
      → IsOwned listener s
      → Serves p (handle_recv sys p side s)
  unfolding handle_recv Safely
  handle_recv-Serves p invalid c s e o = (o, λ h. (c, e))
  handle_recv-Serves p client c s e o = recv_from-Serves client p c s e o
  handle_recv-Serves p server c s e o = recv_from-Serves server p c s e o
