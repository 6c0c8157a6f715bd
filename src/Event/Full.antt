-- ===== src/Event/Full.antt =====
-- A full event table of src/event.c, where one registration gives way to two.
use nacl_proxy.Base.{
  ℕ, ◌-◌, ◌≡◌, ◌≢◌, refl, ap, ◌∙◌, true, false, none, some, pos, int_eq, if◌then◌else◌, if_both,
  arith,
}
use nacl_proxy.Errors.{proxy_success, proxy_max_events}
use nacl_proxy.Event.{Mask, has_flags, Manager, max_events, event_add, event_remove}
use nacl_proxy.Event.Invariant.{IsValid, event_add-IsValid, event_remove-IsValid}
use nacl_proxy.Event.Lookup.{Entry, lookup}
use nacl_proxy.Event.Registry.{Registry, view, seen, add, event_add_refines, event_remove_refines}

module _ {C D : Type 0} (m : Manager C D) (v : IsValid m) (n k : ℕ) (e : Entry C D)
    (there : lookup m (pos n) ≡ some e) (new : lookup m (pos k) ≡ none)
    (full : m.num_events ≡ max_events) where
  abbrev pub removed : Manager C D
  removed = (event_remove (pos n) m).1

  abbrev pub added : Mask → D → C → Manager C D
  added events p_data callback = (event_add (pos k) events (some p_data) (some callback) removed).1

  -- the registry after the removal
  abbrev without : Registry C D
  without = record {
    binds = λ x. if int_eq (pos n) x then none else lookup m x;
    size = max_events - 1;
  }

  removed_lem : view removed ≡ without
  removed_lem = ap (λ r. r.1) (event_remove_refines m v (pos n)) ∙ rw (there, full) refl

  removed-IsValid : IsValid removed
  removed-IsValid = event_remove-IsValid m v (pos n)

  -- the slot that is free again
  same_or_new : (if int_eq (pos n) (pos k) then none else lookup m (pos k)) ≡ none
  same_or_new = if_both (λ o. o ≡ none) (int_eq (pos n) (pos k)) none (lookup m (pos k)) refl new

  module _ (events : Mask) (p_data : D) (callback : C) (flags : has_flags events ≡ true) where
    added_refines :
        seen (event_add (pos k) events (some p_data) (some callback) removed)
        ≡ add (pos k) events (some p_data) (some callback) without
    added_refines =
        event_add_refines removed removed-IsValid (pos k) events (some p_data) (some callback)
        ∙ ap (add (pos k) events (some p_data) (some callback)) removed_lem

    -- A new descriptor takes the place of the one that has been removed.
    pub added-succeeds :
        (event_add (pos k) events (some p_data) (some callback) removed).0 ≡ proxy_success
    added-succeeds = ap (λ r. r.0) added_refines ∙ rw (flags, same_or_new) refl

    -- Then there is no room for the removed descriptor.
    pub added-fills :
        (events' : Mask) (p_data' : D) (callback' : C)
        → has_flags events' ≡ true
        → k ≢ n
        → (event_add
            (pos n)
            events'
            (some p_data')
            (some callback')
            (added events p_data callback)).0
          ≡ proxy_max_events
    added-fills events' p_data' callback' flags' other =
        let v2 : IsValid (added events p_data callback) =
          event_add-IsValid removed removed-IsValid (pos k) events (some p_data) (some callback) in
        let away : int_eq (pos k) (pos n) ≡ false = ground (arith, other) in
        let here : int_eq (pos n) (pos n) ≡ true = ground arith in
        ap (λ r. r.0)
          (event_add_refines (added events p_data callback) v2 (pos n) events' (some p_data')
            (some callback'))
        ∙ (ap (λ r. (add (pos n) events' (some p_data') (some callback') r.1).0) added_refines
            ∙ rw (flags, flags', same_or_new, away, here) refl)
