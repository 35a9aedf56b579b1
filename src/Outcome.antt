-- ===== src/Outcome.antt =====
-- How a call in tworker.c or tmanager.c ends: those programs leave by _exit in the middle of a call.
use distributed_system.Base.{◌≡◌, refl}

-- What a step of a process ends in: it goes on, it has called _exit, or its behaviour is undefined
-- in C (an uninitialised variable is used, or a buffer is read past its end).
pub data Outcome {ℓ} (A : Type ℓ) : Type ℓ where
  running : A → Outcome A
  exited : A → Outcome A
  undefined : Outcome A

infixl 5 ◌>>=◌
abbrev pub ◌>>=◌ {ℓ} : {A : Type ℓ} → Outcome A → (A → Outcome A) → Outcome A
running a >>= f = f a
exited a >>= f = exited a
undefined >>= f = undefined

-- What an outcome leaves behind, whether the process goes on or has left.
abbrev pub Leaves : {A : Type 0} → (A → Type 0) → Outcome A → Type 0
Leaves P (running s) = P s
Leaves P (exited s) = P s
Leaves P undefined = Unit

pub Leaves-bind :
    {A : Type 0} (P : A → Type 0) (o : Outcome A) (f : A → Outcome A)
    → Leaves P o
    → ((s : A) → P s → Leaves P (f s))
    → Leaves P (o >>= f)
Leaves-bind P (running s) f h keep = keep s h
Leaves-bind P (exited s) f h keep = h
Leaves-bind P undefined f h keep = tt

pub Leaves-weaken :
    {A : Type 0} {P Q : A → Type 0} (o : Outcome A)
    → ((s : A) → P s → Q s)
    → Leaves P o
    → Leaves Q o
Leaves-weaken (running s) f h = f s h
Leaves-weaken (exited s) f h = f s h
Leaves-weaken undefined f h = tt

pub bind_assoc :
    {A : Type 0} (o : Outcome A) (f g : A → Outcome A) → ((o >>= f) >>= g) ≡ (o >>= λ s. f s >>= g)
bind_assoc (running s) f g = refl
bind_assoc (exited s) f g = refl
bind_assoc undefined f g = refl
