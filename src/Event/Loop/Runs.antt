-- ===== src/Event/Loop/Runs.antt =====
-- `event_run_loop` of src/event.c over any number of polls.
use nacl_proxy.Base.{ℕ, ◌≡◌, sym, ◌∙◌, ℤ, negsuc, Option, pos, arith}
use nacl_proxy.Event.{Mask, no_flags, Manager}
use nacl_proxy.Event.Index.{IsFree}
use nacl_proxy.Event.Count.{live-congr}
use nacl_proxy.Event.Invariant.{IsValid}
use nacl_proxy.Event.Lookup.{lookup, lookup_negsuc, lookup_transfer}
use nacl_proxy.Event.Loop.{Host, ready, Outcome, store_revents, event_run_loop}
use nacl_proxy.Event.Loop.Keeps.{PollLaws, Runs, event_run_loop-Runs}
use nacl_proxy.Event.Loop.Dispatch.{Keeps, table_laws}

-- What the loop needs of the rest of the program, and what POSIX says of `poll`: it sets no flags for
-- a negative descriptor, and leaves the table to its caller.
pub record HostLaws {C D S : Type 0} (host : Host C D S) : Type 0 where
  pub keeps : Keeps host
  pub put_lem : (m : Manager C D) (s : S) → host.table (host.put_table m s) ≡ m
  pub poll_table : (s : S) → host.table (host.poll s).1 ≡ host.table s
  pub poll_quiet :
      (s : S) (n : ℕ) (masks : ℕ → Mask)
      → (host.poll s).0 ≡ ready n masks
      → (i : ℕ) → IsFree ((host.table s).pfds i)
      → masks i ≡ no_flags

pub store_revents-IsValid :
    {C D : Type 0} (m : Manager C D) (masks : ℕ → Mask)
    → IsValid m
    → ((i : ℕ) → IsFree (m.pfds i) → masks i ≡ no_flags)
    → IsValid (store_revents masks m)
unfolding store_revents
store_revents-IsValid m masks v q = record {
  bound = v.bound;
  count = rw (live-congr (store_revents masks m).pfds m.pfds m.max_idx (λ i. ground arith)) v.count;
  paired = λ i h. ground (arith, v.paired i);
  distinct = λ i j h k e u. ground (arith, v.distinct i j);
  handled = λ i h u. ground (arith, v.handled i);
  vacant = λ i h u. ground (arith, v.vacant i);
  quiet = λ i u. ground (arith, v.quiet i, q i);
}

-- The flags that `poll` stores are no part of a registration.
pub lookup-store_revents :
    {C D : Type 0} (m : Manager C D) (masks : ℕ → Mask) (x : ℤ)
    → IsValid m
    → IsValid (store_revents masks m)
    → lookup (store_revents masks m) x ≡ lookup m x
unfolding store_revents
lookup-store_revents m masks (negsuc n) v v' =
    lookup_negsuc (store_revents masks m) n ∙ sym (lookup_negsuc m n)
lookup-store_revents m masks (pos n) v v' =
    lookup_transfer m (store_revents masks m) v v' n
      (λ i at. (record { within = at.within; here = ground (arith, at.here) }, ground arith))
      (λ i at. record { within = at.within; here = ground (arith, at.here) })

-- A loop's outcome with a valid table.
abbrev pub Sound : {C D S : Type 0} → Host C D S → Option (Outcome S) → Type 0
Sound {C} {D} {S} host = Runs host (λ s. IsValid (host.table s))

module _ {C D S : Type 0} (host : Host C D S) (laws : HostLaws host) where
  open host use {table}

  IsValid-polls : PollLaws host (λ s. IsValid (table s))
  IsValid-polls = record {
    fails = λ s v. rw laws.poll_table v;
    polls = λ s n masks v e.
        rw (laws.put_lem, laws.poll_table)
          (store_revents-IsValid (table s) masks v (laws.poll_quiet s n masks e));
  }

  -- From a valid table, with callbacks that keep it valid and a `poll` that sets no flags for free
  -- slots, the loop calls no NULL callback and keeps the table valid over any number of polls; it
  -- returns PROXY_SUCCESS only when the run flag is not 1.
  pub event_run_loop-Sound :
      (fuel : ℕ) (s : S) → IsValid (table s) → Sound host (event_run_loop host fuel s)
  event_run_loop-Sound =
      event_run_loop-Runs host (λ s. IsValid (table s)) (table_laws host laws.keeps) IsValid-polls
