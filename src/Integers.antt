-- ===== src/Integers.antt =====
-- The signed integers of the program: time.Duration, in nanoseconds, and int32.
use vaultlet.Prelude.{ℕ, zero, suc, ◌≤◌, ◌≡◌, refl, Bool, true, false, ltb, arith}

-- `negsuc n` is -(n + 1).
pub data ℤ : Type 0 where
  pos : ℕ → ℤ
  negsuc : ℕ → ℤ

abbrev pub is_zero : ℤ → Bool
is_zero (pos zero) = true
is_zero (pos (suc n)) = false
is_zero (negsuc n) = false

-- Less than a number that is not negative.
abbrev pub below : ℤ → ℕ → Bool
below (pos n) bound = ltb n bound
below (negsuc n) bound = true

-- What is not below a bound is a number that reaches it.
pub reaches : (z : ℤ) (bound : ℕ) → below z bound ≡ false → (n : ℕ) × (z ≡ pos n) × (bound ≤ n)
reaches (pos n) bound h = (n, refl, ground arith)
reaches (negsuc n) bound h = cc
