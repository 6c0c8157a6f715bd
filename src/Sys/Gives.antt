-- ===== src/Sys/Gives.antt =====
-- What a function yields, if it returns.
use nacl_proxy.Sys.{Res, ok, overflow, exited, out_of_fuel, ◌>>=◌}

-- The result of a function, if it returns, satisfies `P`.
unfoldable pub Gives : {X : Type 0} → (X → Type 0) → Res X → Type 0
Gives P (ok x) = P x
Gives P overflow = Unit
Gives P exited = Unit
Gives P out_of_fuel = Unit

pub Gives-bind :
    {X Y : Type 0} (P : X → Type 0) (Q : Y → Type 0) (r : Res X) (f : X → Res Y)
    → Gives P r
    → ((x : X) → P x → Gives Q (f x))
    → Gives Q (r >>= f)
unfolding Gives
Gives-bind P Q (ok x) f h k = k x h
Gives-bind P Q overflow f h k = _
Gives-bind P Q exited f h k = _
Gives-bind P Q out_of_fuel f h k = _

pub Gives-weaken :
    {X : Type 0} (P Q : X → Type 0) (r : Res X) → Gives P r → ((x : X) → P x → Q x) → Gives Q r
unfolding Gives
Gives-weaken P Q (ok x) h k = k x h
Gives-weaken P Q overflow h k = _
Gives-weaken P Q exited h k = _
Gives-weaken P Q out_of_fuel h k = _

-- every result of a function satisfies what all values satisfy
pub Gives-all : {X : Type 0} (P : X → Type 0) (r : Res X) → ((x : X) → P x) → Gives P r
unfolding Gives
Gives-all P (ok x) h = h x
Gives-all P overflow h = _
Gives-all P exited h = _
Gives-all P out_of_fuel h = _
