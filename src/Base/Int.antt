-- ===== src/Base/Int.antt =====
-- Python's integers where the code tests their sign, over the native numbers.
use Prim.Native.Nat.{ℕ, zero, suc, ◌+◌, ◌≤◌}
use mathlib.Core.Path.{◌≡◌}
use mathlib.Core.Bool.{Bool, true, false, ◌||◌}
use mathlib.Core.Logic.{◌↔◌}
use native.Mathlib.Omega.{arith}
use ai_memory_hub.Base.Tests.{Eq, eqb, eqb_iff, leb}

-- `negsuc n` is -(n + 1).
pub data ℤ : Type 0 where
  pos : ℕ → ℤ
  negsuc : ℕ → ℤ

-- The test `z < 1`.
abbrev pub below_one : ℤ → Bool
below_one (pos zero) = true
below_one (pos (suc n)) = false
below_one (negsuc n) = true

-- The test `z < 0`.
abbrev pub is_negative : ℤ → Bool
is_negative (pos n) = false
is_negative (negsuc n) = true

-- The test `y >= z`.
abbrev pub at_least : ℤ → ℤ → Bool
at_least (pos y) (pos z) = leb z y
at_least (pos y) (negsuc z) = true
at_least (negsuc y) (pos z) = false
at_least (negsuc y) (negsuc z) = leb y z

-- The test `y == z`.
abbrev pub int_beq : ℤ → ℤ → Bool
int_beq (pos y) (pos z) = eqb y z
int_beq (negsuc y) (negsuc z) = eqb y z
int_beq _ _ = false

pub int_beq_iff : (y z : ℤ) → (int_beq y z ≡ true) ↔ (y ≡ z)
int_beq_iff (pos y) (pos z) = ground (arith, eqb_iff y z)
int_beq_iff (negsuc y) (negsuc z) = ground (arith, eqb_iff y z)
int_beq_iff (pos y) (negsuc z) = ground arith
int_beq_iff (negsuc y) (pos z) = ground arith

instance abbrev pub int_eq : Eq ℤ
int_eq = record { eq = int_beq; eq_means = int_beq_iff }

-- The test `abs(y - z) == 1`.
abbrev pub adjacent : ℤ → ℤ → Bool
adjacent (pos y) (pos z) = eqb y (suc z) || eqb z (suc y)
adjacent (negsuc y) (negsuc z) = eqb y (suc z) || eqb z (suc y)
adjacent (pos y) (negsuc z) = eqb (y + z) 0
adjacent (negsuc y) (pos z) = eqb (y + z) 0

abbrev pub to_ℕ : ℤ → ℕ
to_ℕ (pos n) = n
to_ℕ (negsuc n) = 0

pub below_one-to_ℕ : (z : ℤ) → below_one z ≡ false → 1 ≤ to_ℕ z
below_one-to_ℕ (pos zero) h = absurd (cc h)
below_one-to_ℕ (pos (suc n)) h = omega arith
below_one-to_ℕ (negsuc n) h = absurd (cc h)
