-- ===== src/Event/Found.antt =====
-- Where a registration comes from that is found after an operation of src/event.c.
use nacl_proxy.Base.{
  ℕ, ◌≡◌, ◌≢◌, refl, sym, ap, ◌∙◌, ◌⊎◌, inl, inr, false, Option, none, some, ℤ, pos, negsuc, int_eq,
  int_eq_iff, minus_one, is_nonneg, if_both, Bool-cases, Option-cases, ◌==◌,
}
use nacl_proxy.Errors.{proxy_success, proxy_err}
use nacl_proxy.Event.{
  Mask, has_flags, Manager, get_idx_from_fd, max_events, event_add, event_modify, event_remove,
}
use nacl_proxy.Event.Invariant.{IsValid}
use nacl_proxy.Event.Lookup.{Entry, lookup, lookup_negsuc}
use nacl_proxy.Event.Registry.{
  view, add, modify, remove, event_add_refines, event_modify_refines, event_remove_refines,
}

module _ {C D : Type 0} (m : Manager C D) where
  -- a registration that is found stands at a descriptor
  pub found-ne_negsuc : (x : ℤ) (k : ℕ) (e : Entry C D) → lookup m x ≡ some e → x ≢ negsuc k
  found-ne_negsuc x k e found at = cc (lookup_negsuc m k)

  not_there : (x y : ℤ) (e : Entry C D) → lookup m x ≡ some e → lookup m y ≡ none → x ≢ y
  not_there x y e found missing same = cc

  differ : (x y : ℤ) → int_eq y x ≡ false → x ≢ y
  differ x y h same = cc ((int_eq_iff y x).1 (sym same))

-- `event_modify` succeeds or returns PROXY_ERR.
pub event_modify-codes :
    {C D : Type 0} (efd : ℤ) (events : Mask) (m : Manager C D)
    → ((event_modify efd events m).0 ≡ proxy_success) ⊎ ((event_modify efd events m).0 ≡ proxy_err)
unfolding event_modify
event_modify-codes {C} {D} efd events m =
    let P : ℤ × Manager C D → Type 0 = λ r. (r.0 ≡ proxy_success) ⊎ (r.0 ≡ proxy_err) in
    if_both P (is_nonneg efd) _ _
      (if_both P (has_flags events) _ _
        (if_both P (int_eq minus_one (get_idx_from_fd efd m)) _ _ (inr refl) (inl refl)) (inr refl))
      (inr refl)

abbrev relabel : {C D : Type 0} → Mask → Option (Entry C D) → Option (Entry C D)
relabel events none = none
relabel events (some (_, callback, p_data)) = some (events, callback, p_data)

module _ {C D : Type 0} (m : Manager C D) (v : IsValid m) where
  -- After `event_remove` a registration was there before, for another descriptor.
  pub event_remove-found :
      (efd x : ℤ) (e : Entry C D)
      → lookup (event_remove efd m).1 x ≡ some e
      → (lookup m x ≡ some e) × (x ≢ efd)
  event_remove-found efd x e found =
      go efd (sym (ap (λ r. r.1.binds x) (event_remove_refines m v efd)) ∙ found)
    where
      go : (efd : ℤ) → (remove efd (view m)).1.binds x ≡ some e → (lookup m x ≡ some e) × (x ≢ efd)
      go (negsuc k) found = (found, found-ne_negsuc m x k e found)
      go (pos n) found = elim (Option-cases (lookup m (pos n))) [
        | inl missing ↦
            let same : lookup m x ≡ some e = rw missing at found in
            (same, not_there m x (pos n) e same missing)
        | inr (e', there) ↦ elim (Bool-cases (int_eq (pos n) x)) [
          | inl here ↦ let none_left : none ≡ some e = rw (there, here) at found in absurd cc
          | inr away ↦ (rw (there, away) at found, differ m x (pos n) away)
        ]
      ]

  -- After `event_add` a registration was there before, or is the one that has been added.
  pub event_add-found :
      (efd : ℤ) (events : Mask) (p_data : Option D) (callback : C) (x : ℤ) (e : Entry C D)
      → lookup (event_add efd events p_data (some callback) m).1 x ≡ some e
      → (lookup m x ≡ some e)
        ⊎ ((event_add efd events p_data (some callback) m).0 ≡ proxy_success)
          × (x ≡ efd)
          × (e ≡ (events, some callback, p_data))
  event_add-found efd events p_data callback x e found =
      rw (ap (λ r. r.0) (event_add_refines m v efd events p_data (some callback))) (
        go efd (
          sym (ap (λ r. r.1.binds x) (event_add_refines m v efd events p_data (some callback)))
          ∙ found))
    where
      go :
          (efd : ℤ)
          → (add efd events p_data (some callback) (view m)).1.binds x ≡ some e
          → (lookup m x ≡ some e)
            ⊎ ((add efd events p_data (some callback) (view m)).0 ≡ proxy_success)
              × (x ≡ efd)
              × (e ≡ (events, some callback, p_data))
      go (negsuc k) found = inl found
      go (pos n) found = elim (Bool-cases (has_flags events)) [
        | inr no_flags ↦ inl (rw no_flags at found)
        | inl flags ↦ elim (Option-cases (lookup m (pos n))) [
          | inr (e', there) ↦ inl (rw (flags, there) at found)
          | inl missing ↦ elim (Bool-cases (max_events == m.num_events)) [
            | inl full ↦ inl (rw (flags, missing, full) at found)
            | inr room ↦ elim (Bool-cases (int_eq (pos n) x)) [
              | inr away ↦ inl (rw (flags, missing, room, away) at found)
              | inl here ↦
                  let new : some (events, some callback, p_data) ≡ some e =
                    rw (flags, missing, room, here) at found in
                  rw (flags, missing, room) (inr (refl, sym ((int_eq_iff (pos n) x).0 here), cc))
            ]
          ]
        ]
      ]

  -- After `event_modify` a registration was there before, but for its flags.
  pub event_modify-found :
      (efd : ℤ) (events : Mask) (x : ℤ) (events' : Mask) (callback : Option C) (p_data : Option D)
      → lookup (event_modify efd events m).1 x ≡ some (events', callback, p_data)
      → (before : Mask) × (lookup m x ≡ some (before, callback, p_data))
  event_modify-found efd events x events' callback p_data found =
      go efd (sym (ap (λ r. r.1.binds x) (event_modify_refines m v efd events)) ∙ found)
    where
      go :
          (efd : ℤ)
          → (modify efd events (view m)).1.binds x ≡ some (events', callback, p_data)
          → (before : Mask) × (lookup m x ≡ some (before, callback, p_data))
      go (negsuc k) found = (events', found)
      go (pos n) found = elim (Bool-cases (has_flags events)) [
        | inr no_flags ↦ (events', rw no_flags at found)
        | inl flags ↦ elim (Option-cases (lookup m (pos n))) [
          | inl missing ↦ (events', rw (flags, missing) at found)
          | inr ((before, callback', p_data'), there) ↦ elim (Bool-cases (int_eq (pos n) x)) [
            | inr away ↦ (events', rw (flags, there, away) at found)
            | inl here ↦
                let same : pos n ≡ x = (int_eq_iff (pos n) x).0 here in
                let new : some (events, callback', p_data') ≡ some (events', callback, p_data) =
                  rw (flags, there, here) at found in
                (before, ap (lookup m) (sym same) ∙ (there ∙ ap (relabel before) new))
          ]
        ]
      ]
