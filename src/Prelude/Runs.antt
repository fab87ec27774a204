-- ===== src/Prelude/Runs.antt =====
-- A C++ function as a chain of steps. A step goes on with a value, returns from the function, throws an
-- exception, or is undefined; `running` is a loop whose fuel is used up.
use mathlib.Core.Path.{◌≡◌, refl}
use mathlib.Core.Option.{Option, none, some}

pub data Run (R A : Type 0) : Type 0 where
  value : A → Run R A
  returns : R → Run R A
  throws : Run R A
  undefined : Run R A
  running : Run R A

infixl 5 ◌>>=◌ ◌>>◌
abbrev pub ◌>>=◌ : {R A B : Type 0} → Run R A → (A → Run R B) → Run R B
value a >>= f = f a
returns r >>= f = returns r
throws >>= f = throws
undefined >>= f = undefined
running >>= f = running

abbrev pub ◌>>◌ : {R B : Type 0} → Run R (Unit {0}) → Run R B → Run R B
m >> k = m >>= λ _. k

abbrev pub or_throw : {R A : Type 0} → Option A → Run R A
or_throw none = throws
or_throw (some a) = value a

abbrev pub or_return : {R A : Type 0} → R → Option A → Run R A
or_return r none = returns r
or_return r (some a) = value a

-- The steps did not stop for lack of fuel.
abbrev pub Ends : {R A : Type 0} → Run R A → Type 0
Ends (value a) = Unit {0}
Ends (returns r) = Unit {0}
Ends throws = Unit {0}
Ends undefined = Unit {0}
Ends running = ⊥

pub Ends-bind :
    {R A B : Type 0} (m : Run R A) (f : A → Run R B)
    → Ends m
    → ((a : A) → Ends (f a))
    → Ends (m >>= f)
Ends-bind (value a) f h g = g a
Ends-bind (returns r) f h g = tt
Ends-bind throws f h g = tt
Ends-bind undefined f h g = tt
Ends-bind running f h g = h

pub Ends-or_throw : (R : Type 0) {A : Type 0} (o : Option A) → Ends {R = R} (or_throw o)
Ends-or_throw R none = tt
Ends-or_throw R (some a) = tt

-- The same, where the rest may rely on what the first step answered.
pub Ends-bind_eq :
    {R A B : Type 0} (m : Run R A) (f : A → Run R B)
    → Ends m
    → ((a : A) → m ≡ value a → Ends (f a))
    → Ends (m >>= f)
Ends-bind_eq (value a) f h g = g a refl
Ends-bind_eq (returns r) f h g = tt
Ends-bind_eq throws f h g = tt
Ends-bind_eq undefined f h g = tt
Ends-bind_eq running f h g = h

pub Ends-or_return : {R A : Type 0} (r : R) (o : Option A) → Ends (or_return r o)
Ends-or_return r none = tt
Ends-or_return r (some a) = tt

pub or_return-value :
    {R A : Type 0} (r : R) (o : Option A) (a : A) → or_return r o ≡ value a → o ≡ some a
or_return-value r none a h = cc
or_return-value r (some b) a h = cc

-- A chain that goes on with a value does so after its first step.
pub bind-value :
    {R A B : Type 0} (m : Run R A) (f : A → Run R B) (b : B)
    → (m >>= f) ≡ value b
    → (a : A) × (m ≡ value a) × (f a ≡ value b)
bind-value (value a) f b h = (a, refl, h)
bind-value (returns r) f b h = cc
bind-value throws f b h = cc
bind-value undefined f b h = cc
bind-value running f b h = cc
