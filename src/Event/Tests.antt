-- ===== src/Event/Tests.antt =====
-- src/event.c on a small table: descriptors 4 and 5 are registered, and callbacks unregister theirs.
use nacl_proxy.Base.{
  ℕ, ◌-◌, ◌<◌, ◌≡◌, ◌≢◌, refl, ap, true, some, none, pos, minus_one, int_eq, List, [], ◌∷◌, ◌==◌,
  if◌then◌else◌, arith,
}
use nacl_proxy.Errors.{proxy_success, proxy_err}
use nacl_proxy.Event.{
  Mask, no_flags, Manager, max_events, init, choose_slot, event_add, event_modify, event_remove,
  get_idx_from_fd,
}
use nacl_proxy.Event.Index.{At}
use nacl_proxy.Event.Invariant.{
  IsValid, IsOpen, init-IsValid, choose_slot-IsOpen, event_add-IsValid, event_modify-IsValid,
  event_remove-IsValid,
}
use nacl_proxy.Event.Quiet.{Changed, modified}
use nacl_proxy.Event.Registry.{
  view, seen, add, modify, remove, event_add_refines, event_modify_refines, event_remove_refines,
  Call, adds, modifies, removes, run, spec_run, run_refines,
}
use nacl_proxy.Event.Loop.{
  Host, Polled, failed, ready, dispatch, handle_event, event_run_loop, event_teardown,
}
use nacl_proxy.Event.Loop.Dispatch.{
  Ended, Handles, handle_event_lem, dispatch-Ended, Changed-skipped,
}
use nacl_proxy.Event.Loop.Runs.{HostLaws, Sound, event_run_loop-Sound}
use nacl_proxy.Event.Loop.Teardown.{
  clear_from, IsClear, event_teardown-IsClear, event_teardown-state,
}

abbrev readable : Mask
readable = record no_flags { pollin = true }

abbrev Small : Type 0
Small = Manager ℕ ℕ

abbrev one : Small
one = (event_add (pos 4) readable (some 7) (some 1) init).1

one-IsValid : IsValid one
one-IsValid = event_add-IsValid init init-IsValid (pos 4) readable (some 7) (some 1)

abbrev two : Small
two = (event_add (pos 5) readable none (some 2) one).1

two-IsValid : IsValid two
two-IsValid = event_add-IsValid one one-IsValid (pos 5) readable none (some 2)

abbrev calls : List (Call ℕ ℕ)
calls =
    adds (pos 4) readable none (some 3)
    ∷ removes (pos 5)
    ∷ modifies (pos 5) readable
    ∷ removes minus_one
    ∷ []

codes : run two calls ≡ proxy_err ∷ proxy_success ∷ proxy_err ∷ minus_one ∷ []
unfolding run init event_add event_modify event_remove get_idx_from_fd
codes = refl

run_refines_example : run two calls ≡ spec_run (view two) calls
run_refines_example = run_refines calls two two-IsValid

event_add_refines_example :
    seen (event_add (pos 6) readable (some 9) (some 3) two)
    ≡ add (pos 6) readable (some 9) (some 3) (view two)
event_add_refines_example = event_add_refines two two-IsValid (pos 6) readable (some 9) (some 3)

event_modify_refines_example :
    seen (event_modify (pos 5) readable two) ≡ modify (pos 5) readable (view two)
event_modify_refines_example = event_modify_refines two two-IsValid (pos 5) readable

event_remove_refines_example : seen (event_remove (pos 5) two) ≡ remove (pos 5) (view two)
event_remove_refines_example = event_remove_refines two two-IsValid (pos 5)

event_add-IsValid_example : IsValid (event_add (pos 6) readable (some 9) (some 3) two).1
event_add-IsValid_example = event_add-IsValid two two-IsValid (pos 6) readable (some 9) (some 3)

event_modify-IsValid_example : IsValid (event_modify (pos 4) readable two).1
event_modify-IsValid_example = event_modify-IsValid two two-IsValid (pos 4) readable

event_remove-IsValid_example : IsValid (event_remove (pos 4) two).1
event_remove-IsValid_example = event_remove-IsValid two two-IsValid (pos 4)

room : max_events ≢ two.num_events
unfolding init event_add choose_slot get_idx_from_fd
room e = let two_used : two.num_events ≡ 2 = refl in absurd (omega (arith, e, two_used))

choose_slot-IsOpen_example : IsOpen two (choose_slot two).0 (choose_slot two).1
choose_slot-IsOpen_example = choose_slot-IsOpen two two-IsValid room

-- The table, and how many polls are left; each poll finds every descriptor readable.
abbrev host : Host ℕ ℕ (Small × ℕ)
host = record {
  table = λ s. s.0;
  put_table = λ m s. (m, s.1);
  call = λ c efd r d s. (proxy_success, ((event_remove efd s.0).1, s.1));
  poll = λ s. (
    ready 1 (λ i. if int_eq minus_one (s.0.pfds i).fd then no_flags else readable),
    (s.0, s.1 - 1),
  );
  run_flag = λ s. if s.1 == 0 then pos 0 else pos 1;
}

flags_of : Polled → ℕ → Mask
flags_of (failed errno) i = no_flags
flags_of (ready n masks) i = masks i

host_laws : HostLaws host
unfolding flags_of
host_laws = record {
  keeps = λ c efd r d s v. event_remove-IsValid s.0 v efd;
  put_lem = λ m s. refl;
  poll_table = λ s. refl;
  poll_quiet = λ s n masks e i free.
      let same : (if int_eq minus_one (s.0.pfds i).fd then no_flags else readable) ≡ masks i =
        ap (λ p. flags_of p i) e in
      rw (← same, free) refl;
}

event_run_loop-Sound_example : Sound host (event_run_loop host 3 (two, 2))
event_run_loop-Sound_example = event_run_loop-Sound host host_laws 3 (two, 2) two-IsValid

dispatch-Ended_example : Ended host (dispatch host 513 0 (two, 2))
dispatch-Ended_example =
    dispatch-Ended host (HostLaws.keeps host_laws) 513 0 (two, 2) two-IsValid (omega arith)
      (omega arith)

slot-At : At two (pos 5) 1
unfolding init event_add choose_slot get_idx_from_fd
slot-At = record { within = omega arith; here = refl }

handle_event_lem_example : Handles host 1 (two, 2)
handle_event_lem_example = handle_event_lem host 1 (two, 2) two-IsValid slot-At.within

abbrev changed : Small
changed = (event_modify (pos 5) readable two).1

change : Changed two 5 changed
unfolding init event_add event_modify choose_slot get_idx_from_fd
change = modified readable refl

changed-At : At changed (pos 5) 1
unfolding init event_add event_modify choose_slot get_idx_from_fd
changed-At = record { within = omega arith; here = refl }

Changed-skipped_example : handle_event host 1 (changed, 2) ≡ some (proxy_success, (changed, 2))
Changed-skipped_example = Changed-skipped host 1 5 two (changed, 2) two-IsValid change changed-At

event_teardown-IsClear_example :
    ((i : ℕ) → i < two.max_idx → IsClear (event_teardown (λ efd s. efd ∷ s) none two []).0 i)
    × ((event_teardown (λ efd s. efd ∷ s) none two []).0.max_idx ≡ two.max_idx)
    × ((event_teardown (λ efd s. efd ∷ s) none two []).0.num_events ≡ two.num_events)
event_teardown-IsClear_example = event_teardown-IsClear (λ efd s. efd ∷ s) none two []

event_teardown-state_example :
    (event_teardown (λ efd s. efd ∷ s) (some (λ d s. s)) two []).1
    ≡ clear_from (λ efd s. efd ∷ s) (λ d s. s) two.max_idx two.events 0 []
event_teardown-state_example = event_teardown-state (λ efd s. efd ∷ s) (λ d s. s) two []

-- a table in which only descriptor 4 is registered
abbrev pub only_four : {C D : Type 0} → D → C → Manager C D
only_four d callback = (event_add (pos 4) readable (some d) (some callback) init).1

pub only_four-modify :
    {C D : Type 0} (d : D) (callback : C)
    → (event_modify
        (pos 4)
        (record no_flags { pollin = true; pollout = true })
        (event_remove (pos 7) (only_four d callback)).1).0
      ≡ proxy_success
unfolding init event_add event_modify event_remove choose_slot get_idx_from_fd
only_four-modify d callback = refl
