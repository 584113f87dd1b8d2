-- ===== src/Strings/Order.antt =====
-- The order of strings.Compare is a strict total order.
use vaultlet.Prelude.{◌≡◌, refl, true, false, [], ◌∷◌, Bytes, arith}
use vaultlet.Strings.{before}

pub before_irrefl : (a : Bytes) → before a a ≡ false
unfolding before
before_irrefl [] = refl
before_irrefl (x ∷ a) = ground (arith, before_irrefl a)

pub before_trans : (a b c : Bytes) → before a b ≡ true → before b c ≡ true → before a c ≡ true
unfolding before
before_trans a b [] p q = cc
before_trans a [] (z ∷ c) p q = cc
before_trans [] (y ∷ b) (z ∷ c) p q = refl
before_trans (x ∷ a) (y ∷ b) (z ∷ c) p q = ground (arith, before_trans a b c)

-- Texts that stand in neither order are equal.
pub before-total : (a b : Bytes) → before a b ≡ false → before b a ≡ false → a ≡ b
unfolding before
before-total [] [] p q = refl
before-total [] (y ∷ b) p q = cc
before-total (x ∷ a) [] p q = cc
before-total (x ∷ a) (y ∷ b) p q = ground (arith, before-total a b)
