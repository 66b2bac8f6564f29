-- ===== src/ExecStore/Ends.antt =====
-- Runs that may panic: what holds of the result, if there is one.
use state_engine.Prelude.{
  ◌≡◌, refl, Bool, true, false, Option, none, some, if◌then◌else◌, ◌>>=◌, subst,
}

-- A run that, where it does not panic, ends with the property.
unfoldable pub Ends : {A : Type 0} → (A → Type 0) → Option A → Type 0
Ends Q none = Unit
Ends Q (some a) = Q a

pub Ends-some : {A : Type 0} (Q : A → Type 0) (m : Option A) (a : A) → Ends Q m → m ≡ some a → Q a
unfolding Ends
Ends-some Q none a h e = cc
Ends-some Q (some b) a h e = subst (Ends Q) e h

pub Ends-bind :
    {A B : Type 0} (P : A → Type 0) (Q : B → Type 0) (m : Option A) (f : A → Option B)
    → Ends P m
    → ((a : A) → P a → Ends Q (f a))
    → Ends Q (m >>= f)
unfolding Ends
Ends-bind P Q none f h g = tt
Ends-bind P Q (some a) f h g = g a h

pub Ends-self : {A : Type 0} (m : Option A) → Ends (λ a. m ≡ some a) m
unfolding Ends
Ends-self none = tt
Ends-self (some a) = refl

-- The first run is not of the store.
pub Ends-then :
    {A B : Type 0} (Q : B → Type 0) (m : Option A) (f : A → Option B)
    → ((a : A) → Ends Q (f a))
    → Ends Q (m >>= f)
unfolding Ends
Ends-then Q none f g = tt
Ends-then Q (some a) f g = g a

pub Ends-if :
    {A : Type 0} (Q : A → Type 0) (b : Bool) (x y : Option A)
    → Ends Q x
    → Ends Q y
    → Ends Q (if b then x else y)
Ends-if Q true x y h g = h
Ends-if Q false x y h g = g

pub Ends-elim :
    {A B : Type 0} (Q : B → Type 0) (o : Option A) (x : Option B) (f : A → Option B)
    → Ends Q x
    → ((a : A) → Ends Q (f a))
    → Ends Q (elim o [ none ↦ x | some a ↦ f a ])
Ends-elim Q none x f h g = h
Ends-elim Q (some a) x f h g = g a

pub Ends-weaken :
    {A : Type 0} (P Q : A → Type 0) (m : Option A) → Ends P m → ((a : A) → P a → Q a) → Ends Q m
unfolding Ends
Ends-weaken P Q none h f = tt
Ends-weaken P Q (some a) h f = f a h
