-- ===== src/Base/Int.antt =====
-- Signed results of C functions: indices and negative codes.
use Prim.Native.Nat.{ℕ}
use mathlib.Core.Path.{◌≡◌, refl}
use mathlib.Core.Logic.{◌⊎◌, inl, inr}
use mathlib.Core.Bool.{Bool, false}
use secure_rewind_and_discar.Base.Tests.{◌==◌}

-- `negsuc n` is -(n + 1).
pub data ℤ : Type 0 where
  pos : ℕ → ℤ
  negsuc : ℕ → ℤ

abbrev pub eqb_ℤ : ℤ → ℤ → Bool
eqb_ℤ (pos a) (pos b) = a == b
eqb_ℤ (negsuc a) (negsuc b) = a == b
eqb_ℤ _ _ = false

pub ℤ-cases : (z : ℤ) → ((n : ℕ) × (z ≡ pos n)) ⊎ ((n : ℕ) × (z ≡ negsuc n))
ℤ-cases (pos n) = inl (n, refl)
ℤ-cases (negsuc n) = inr (n, refl)
