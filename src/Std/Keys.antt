-- ===== src/Std/Keys.antt =====
-- Equality of keys: `Eq` for texts (`String`) and for file descriptors (`i32`).
use rust_kernel_engine.Base.{
  ℕ, ℤ, pos, negsuc, int_eq, ◌==◌, ==_iff, List, [], ◌∷◌, Bool, true, false, ◌&&◌, ◌≡◌, ◌≢◌, ◌↔◌,
  arith,
}

pub record Eq {ℓ} (A : Type ℓ) : Type ℓ where
  pub beq : A → A → Bool
  pub beq_iff : (a b : A) → (beq a b ≡ true) ↔ (a ≡ b)

-- A text is the list of its code points.
abbrev pub Text : Type 0
Text = List ℕ

abbrev pub text_eq : Text → Text → Bool
text_eq [] [] = true
text_eq [] (_ ∷ _) = false
text_eq (_ ∷ _) [] = false
text_eq (a ∷ s) (b ∷ t) = (a == b) && text_eq s t

pub text_eq_iff : (s t : Text) → (text_eq s t ≡ true) ↔ (s ≡ t)
text_eq_iff [] [] = ground arith
text_eq_iff [] (b ∷ t) = ground arith
text_eq_iff (a ∷ s) [] = ground arith
text_eq_iff (a ∷ s) (b ∷ t) = ground (arith, ==_iff a b, text_eq_iff s t)

pub text_ne : (s t : Text) → text_eq s t ≡ false → s ≢ t
text_ne s t h e = ground (arith, (text_eq_iff s t).1 e)

pub int_eq_iff : (a b : ℤ) → (int_eq a b ≡ true) ↔ (a ≡ b)
int_eq_iff (pos a) (pos b) = ground (arith, ==_iff a b)
int_eq_iff (negsuc a) (negsuc b) = ground (arith, ==_iff a b)
int_eq_iff (pos a) (negsuc b) = ground arith
int_eq_iff (negsuc a) (pos b) = ground arith

instance abbrev pub text_key : Eq Text
text_key = record { beq = text_eq; beq_iff = text_eq_iff }

instance abbrev pub fd_key : Eq ℤ
fd_key = record { beq = int_eq; beq_iff = int_eq_iff }
