-- ===== src/State.antt =====
-- Computations that change a state and end in a value, an error or a panic. The state is kept in
-- every case: destructors run on it after an error.
use rust_kernel_engine.Base.{Outcome, ok, err, panic, Error}

abbrev pub St {ℓ} : Type 0 → Type ℓ → Type ℓ
St S A = S → Outcome A × S

module _ {ℓ κ} {S : Type 0} {A : Type ℓ} {B : Type κ} where
  abbrev pub bind : Outcome A × S → (A → St S B) → Outcome B × S
  bind (ok a, s) f = f a s
  bind (err e, s) f = (err e, s)
  bind (panic, s) f = (panic, s)

  infixl 5 ◌>>=◌
  abbrev pub ◌>>=◌ : St S A → (A → St S B) → St S B
  ◌>>=◌ m f s = bind (m s) f

infixl 5 ◌>>◌
abbrev pub ◌>>◌ {ℓ} : {S : Type 0} {B : Type ℓ} → St S (Unit {0}) → St S B → St S B
m >> k = m >>= λ _. k

module _ {ℓ} {S : Type 0} {A : Type ℓ} where
  abbrev pub pure : A → St S A
  pure a s = (ok a, s)

  abbrev pub fail : Error → St S A
  fail e s = (err e, s)

  abbrev pub crash : St S A
  crash s = (panic, s)

  -- A result as it stands: an error or a panic ends the computation.
  abbrev pub of_outcome : Outcome A → St S A
  of_outcome r s = (r, s)

  -- The result of a computation as a value: what `match` sees of a `Result`. A panic goes on.
  abbrev pub settle : Outcome A × S → Outcome (Outcome A) × S
  settle (ok a, s) = (ok (ok a), s)
  settle (err e, s) = (ok (err e), s)
  settle (panic, s) = (panic, s)

  abbrev pub attempt : St S A → St S (Outcome A)
  attempt m s = settle (m s)

-- What holds of the state after the first part and is kept by the second holds after both.
pub bind-keeps {ℓ κ μ} :
    {S : Type 0} {A : Type ℓ} {B : Type κ} (P : S → Type μ) (r : Outcome A × S) (f : A → St S B)
    → P r.1
    → ((a : A) (s : S) → P s → P (f a s).1)
    → P (bind r f).1
bind-keeps P (ok a, s) f h k = k a s h
bind-keeps P (err e, s) f h k = h
bind-keeps P (panic, s) f h k = h

pub attempt-keeps {ℓ μ} :
    {S : Type 0} {A : Type ℓ} (P : S → Type μ) (r : Outcome A × S) → P r.1 → P (settle r).1
attempt-keeps P (ok a, s) h = h
attempt-keeps P (err e, s) h = h
attempt-keeps P (panic, s) h = h
