-- ===== src/Base/Int.antt =====
-- Signed integers, for the return values of system calls and for file descriptors.
use native.Mathlib.Omega.{arith}
use Prim.Native.Nat.{ℕ, zero, suc, ◌-◌, ◌^◌}
use mathlib.Core.Logic.{◌⊎◌, inl, inr}
use mathlib.Core.Path.{◌≡◌, refl}
use mathlib.Core.Bool.{Bool, true, false}
use rust_kernel_engine.Base.Tests.{◌==◌, ltb, lt→ltb}

-- `negsuc n` is -(n + 1).
pub data ℤ : Type 0 where
  pos : ℕ → ℤ
  negsuc : ℕ → ℤ

abbrev pub is_positive : ℤ → Bool
is_positive (pos zero) = false
is_positive (pos (suc n)) = true
is_positive (negsuc n) = false

abbrev pub is_neg : ℤ → Bool
is_neg (pos n) = false
is_neg (negsuc n) = true

-- `x as usize` and `x as u64`: two's complement at 64 bits.
abbrev pub to_u64 : ℤ → ℕ
to_u64 (pos n) = n
to_u64 (negsuc n) = 2 ^ 64 - suc n

abbrev pub int_eq : ℤ → ℤ → Bool
int_eq (pos a) (pos b) = a == b
int_eq (negsuc a) (negsuc b) = a == b
int_eq _ _ = false

pub sign-cases :
    (x : ℤ)
    → ((is_neg x ≡ true) × (is_positive x ≡ false))
      ⊎ (((is_neg x ≡ false) × (ltb 0 (to_u64 x) ≡ false) × (is_positive x ≡ false))
          ⊎ ((is_neg x ≡ false) × (ltb 0 (to_u64 x) ≡ true) × (is_positive x ≡ true)))
sign-cases (pos zero) = inr (inl (refl, refl, refl))
sign-cases (pos (suc n)) = inr (inr (refl, lt→ltb 0 (suc n) (omega arith), refl))
sign-cases (negsuc n) = inl (refl, refl)
