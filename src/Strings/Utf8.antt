-- ===== src/Strings/Utf8.antt =====
-- Texts in UTF-8, as RFC 3629 has it: what a JSON string carries unchanged.
use vaultlet.Prelude.{ℕ, ◌≤◌, ◌<◌, [], ◌∷◌, Bytes, All}

abbrev pub IsBetween : ℕ → ℕ → ℕ → Type 0
IsBetween low high c = (low ≤ c) × (c ≤ high)

-- A byte behind the first one of a character.
abbrev pub IsTail : ℕ → Type 0
IsTail = IsBetween 128 191

-- The first two bytes of a character of three, and of four: no overlong forms, no surrogates, and
-- nothing above U+10FFFF.
pub data StartsThree : ℕ → ℕ → Type 0 where
  low_three : (b : ℕ) → IsBetween 160 191 b → StartsThree 224 b
  mid_three : (a b : ℕ) → IsBetween 225 236 a → IsTail b → StartsThree a b
  surrogate_free : (b : ℕ) → IsBetween 128 159 b → StartsThree 237 b
  high_three : (a b : ℕ) → IsBetween 238 239 a → IsTail b → StartsThree a b

pub data StartsFour : ℕ → ℕ → Type 0 where
  low_four : (b : ℕ) → IsBetween 144 191 b → StartsFour 240 b
  mid_four : (a b : ℕ) → IsBetween 241 243 a → IsTail b → StartsFour a b
  high_four : (b : ℕ) → IsBetween 128 143 b → StartsFour 244 b

pub data IsUtf8 : Bytes → Type 0 where
  empty : IsUtf8 []
  one : (a : ℕ) (s : Bytes) → a < 128 → IsUtf8 s → IsUtf8 (a ∷ s)
  two : (a b : ℕ) (s : Bytes) → IsBetween 194 223 a → IsTail b → IsUtf8 s → IsUtf8 (a ∷ b ∷ s)
  three : (a b c : ℕ) (s : Bytes) → StartsThree a b → IsTail c → IsUtf8 s → IsUtf8 (a ∷ b ∷ c ∷ s)
  four :
      (a b c d : ℕ) (s : Bytes)
      → StartsFour a b
      → IsTail c
      → IsTail d
      → IsUtf8 s
      → IsUtf8 (a ∷ b ∷ c ∷ d ∷ s)

pub ascii-IsUtf8 : (s : Bytes) → All (λ c. c < 128) s → IsUtf8 s
ascii-IsUtf8 [] h = empty
ascii-IsUtf8 (c ∷ s) (hc, h) = one c s hc (ascii-IsUtf8 s h)
