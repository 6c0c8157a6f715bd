-- ===== src/Proxy/Process/Teardown.antt =====
-- `event_teardown` with `free_connection` of src/proxy.c: it frees no connection that is gone.
use nacl_proxy.Base.{
  ℕ, zero, suc, ◌+◌, ◌-◌, ◌≤◌, ◌<◌, ◌≡◌, ◌≢◌, refl, sym, ◌∙◌, ap, inl, inr, Option, none, some, ℤ,
  is_nonneg, leb, ◌==◌, ==_iff, if◌then◌else◌, Bool-cases, write, arith,
}
use nacl_proxy.Event.{Event}
use nacl_proxy.Event.Loop.Teardown.{clear_from}
use nacl_proxy.Proxy.{Conn, Callback, Ptr, conn_ptr, System, Fault, bad_pointer}
use nacl_proxy.Proxy.Owned.{Has, Holds}
use nacl_proxy.Proxy.Close.{free_connection, free_unreferenced}
use nacl_proxy.Proxy.Process.{Machine, free_data, close_fd}
use nacl_proxy.Proxy.Process.Safe.{not_bad}

-- A connection has two descriptors.
no_third : (x y z : ℤ) (c : Conn) → Has x c → Has y c → Has z c → x ≢ y → x ≢ z → y ≡ z
no_third x y z c (inl a) (inl b) h p q = absurd (p (a ∙ sym b))
no_third x y z c (inr a) (inr b) h p q = absurd (p (a ∙ sym b))
no_third x y z c (inl a) (inr b) (inl d) p q = absurd (q (a ∙ sym d))
no_third x y z c (inl a) (inr b) (inr d) p q = b ∙ sym d
no_third x y z c (inr a) (inl b) (inl d) p q = b ∙ sym d
no_third x y z c (inr a) (inl b) (inr d) p q = absurd (q (a ∙ sym d))

-- two registrations of a connection
pub counted_twice : (x y : ℤ) (c : Conn) → Holds x c → Holds y c → x ≢ y → 2 ≤ c.ref
counted_twice x y c (inl (a, two)) h away = two
counted_twice x y c (inr a) (inl (b, two)) away = two
counted_twice x y c (inr a) (inr b) away = absurd (away (a ∙ sym b))

-- What the teardown of `n` slots from `idx` needs: their user data are connections that are there,
-- and a connection that two of them share has been counted twice.
pub record IsReady (events : ℕ → Event Callback Ptr) (n idx : ℕ) (conns : ℕ → Option Conn)
    : Type 0 where
  pub there :
      (i : ℕ) (d : Ptr)
      → idx ≤ i
      → i < idx + n
      → (events i).user_data ≡ some d
      → (p : ℕ) × (c : Conn) × (d ≡ conn_ptr p) × (conns p ≡ some c) × Has (events i).fd c
  pub shared :
      (i j p : ℕ) (c : Conn)
      → idx ≤ i
      → i < idx + n
      → idx ≤ j
      → j < idx + n
      → i ≢ j
      → (events i).user_data ≡ some (conn_ptr p)
      → (events j).user_data ≡ some (conn_ptr p)
      → conns p ≡ some c
      → 2 ≤ c.ref
  pub apart :
      (i j p : ℕ)
      → idx ≤ i
      → i < idx + n
      → idx ≤ j
      → j < idx + n
      → i ≢ j
      → (events i).user_data ≡ some (conn_ptr p)
      → (events j).user_data ≡ some (conn_ptr p)
      → (events i).fd ≢ (events j).fd

module _ (events : ℕ → Event Callback Ptr) (n idx : ℕ) (conns : ℕ → Option Conn)
    (r : IsReady events (suc n) idx conns) where
  -- what a slot says of its connection
  slot-Has :
      (i p : ℕ) (c : Conn)
      → idx ≤ i
      → i < idx + suc n
      → (events i).user_data ≡ some (conn_ptr p)
      → conns p ≡ some c
      → Has (events i).fd c
  slot-Has i p c lo hi u e =
      let (q, c', d, e', has) = r.there i (conn_ptr p) lo hi u in
      let same : c' ≡ c = cc in rw (← same) has

  -- A slot without user data is passed over.
  skip-IsReady : IsReady events n (idx + 1) conns
  skip-IsReady = record {
    there = λ i d lo hi. r.there i d (omega arith) (omega arith);
    shared = λ i j p c lo hi lo' hi'.
        r.shared i j p c (omega arith) (omega arith) (omega arith) (omega arith);
    apart = λ i j p lo hi lo' hi'.
        r.apart i j p (omega arith) (omega arith) (omega arith) (omega arith);
  }

  module _ (p : ℕ) (c : Conn) (u : (events idx).user_data ≡ some (conn_ptr p))
      (e : conns p ≡ some c) where
    -- A connection that has been counted once at most is in no other slot.
    release-IsReady : c.ref ≤ 1 → IsReady events n (idx + 1) (write conns p none)
    release-IsReady once = record {
      there = λ i d lo hi u'.
          let (q, c', d', e', has) = r.there i d (omega arith) (omega arith) u' in
          elim (Bool-cases (p == q)) [
            | inr away ↦ (q, c', d', rw away e', has)
            | inl here ↦
                let same : p ≡ q = (==_iff p q).0 here in
                let two : 2 ≤ c.ref =
                  r.shared idx i p c (omega arith) (omega arith) (omega arith) (omega arith)
                    (λ k. omega arith) u (rw same (u' ∙ ap some d')) e in
                absurd (omega arith)
          ];
      shared = λ i j q c' lo hi lo' hi' k u1 u2 e'. elim (Bool-cases (p == q)) [
        | inl here ↦ let gone : none ≡ some c' = rw here at e' in absurd cc
        | inr away ↦ skip-IsReady.shared i j q c' lo hi lo' hi' k u1 u2 (rw away at e')
      ];
      apart = skip-IsReady.apart;
    }

    -- A connection that has been counted twice is in at most one of the later slots.
    lower-IsReady : IsReady events n (idx + 1) (write conns p (some (record c { ref = c.ref - 1 })))
    lower-IsReady = record {
      there = λ i d lo hi u'.
          let (q, c', d', e', has) = r.there i d (omega arith) (omega arith) u' in
          elim (Bool-cases (p == q)) [
            | inr away ↦ (q, c', d', rw away e', has)
            | inl here ↦
                let same : p ≡ q = (==_iff p q).0 here in
                (
                  q,
                  record c { ref = c.ref - 1 },
                  d',
                  rw here refl,
                  slot-Has i p c (omega arith) (omega arith) (rw same (u' ∙ ap some d')) e,
                )
          ];
      shared = λ i j q c' lo hi lo' hi' k u1 u2 e'. elim (Bool-cases (p == q)) [
        | inr away ↦ skip-IsReady.shared i j q c' lo hi lo' hi' k u1 u2 (rw away at e')
        | inl here ↦
            let same : p ≡ q = (==_iff p q).0 here in
            let v1 : (events i).user_data ≡ some (conn_ptr p) = rw same u1 in
            let v2 : (events j).user_data ≡ some (conn_ptr p) = rw same u2 in
            absurd (
              skip-IsReady.apart i j p lo hi lo' hi' k v1 v2 (
                no_third (events idx).fd (events i).fd (events j).fd c
                  (slot-Has idx p c (omega arith) (omega arith) u e)
                  (slot-Has i p c (omega arith) (omega arith) v1 e)
                  (slot-Has j p c (omega arith) (omega arith) v2 e)
                  (r.apart idx i p (omega arith) (omega arith) (omega arith) (omega arith)
                    (λ m. omega arith) u v1)
                  (r.apart idx j p (omega arith) (omega arith) (omega arith) (omega arith)
                    (λ m. omega arith) u v2)))
      ];
      apart = skip-IsReady.apart;
    }

module _ {A W : Type 0} (sys : System A W) where
  -- `close` is about the world.
  closed-same :
      (efd : ℤ) (m : Machine A W)
      → let m' : Machine A W = if is_nonneg efd then close_fd sys efd m else m in
        (m'.stopped ≡ m.stopped) × (m'.state.conns ≡ m.state.conns)
  closed-same efd m = elim (Bool-cases (is_nonneg efd)) [
    | inl used ↦ rw used (refl, refl)
    | inr unused ↦ rw unused (refl, refl)
  ]

  free_step :
      (events : ℕ → Event Callback Ptr) (n idx : ℕ) (stopped : Option Fault) (d : Option Ptr)
      (m : Machine A W)
      → IsReady events (suc n) idx m.state.conns
      → m.stopped ≢ some bad_pointer
      → m.stopped ≡ stopped
      → (events idx).user_data ≡ d
      → let m' : Machine A W = free_data sys stopped d m in
        IsReady events n (idx + 1) m'.state.conns × (m'.stopped ≢ some bad_pointer)
  unfolding free_connection free_unreferenced
  free_step events n idx (some f) d m r sound s u =
      (skip-IsReady events n idx m.state.conns r, sound)
  free_step events n idx none none m r sound s u =
      (skip-IsReady events n idx m.state.conns r, sound)
  free_step events n idx none (some d) m r sound s u =
      let (p, c, here, e, has) = r.there idx d (omega arith) (omega arith) u in
      rw (here, e)
        (elim (Bool-cases (leb c.ref 1)) [
          | inl once ↦ rw once (
            release-IsReady events n idx m.state.conns r p c (rw here at u) e (ground arith),
            not_bad none refl,
          )
          | inr twice ↦
              rw twice
                (lower-IsReady events n idx m.state.conns r p c (rw here at u) e, not_bad none refl)
        ])

  -- Over any slots the teardown follows no pointer to a connection that is gone.
  pub clear_from_sound :
      (events : ℕ → Event Callback Ptr) (n idx : ℕ) (m : Machine A W)
      → IsReady events n idx m.state.conns
      → m.stopped ≢ some bad_pointer
      → (clear_from
          (close_fd sys)
          (λ p_data m'. free_data sys m'.stopped p_data m')
          n
          events
          idx
          m).stopped
        ≢ some bad_pointer
  unfolding clear_from
  clear_from_sound events zero idx m r sound = sound
  clear_from_sound events (suc n) idx m r sound =
      let m1 : Machine A W =
        if is_nonneg (events idx).fd then close_fd sys (events idx).fd m else m in
      let (stop, kept) = closed-same (events idx).fd m in
      let (r', sound') =
        free_step events n idx m1.stopped (events idx).user_data m1 (rw kept r) (rw stop sound) refl
          refl in
      clear_from_sound events n (idx + 1) _ r' sound'
