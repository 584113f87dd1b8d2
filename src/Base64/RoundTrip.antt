-- ===== src/Base64/RoundTrip.antt =====
-- Decoding undoes encoding.
use Prim.Native.Nat.{◌/◌, ◌%◌}
use vaultlet.Prelude.{
  ℕ, ◌+◌, ◌*◌, ◌<◌, ◌||◌, not, some, [], ◌∷◌, Bytes, ◌==◌, All, filter, ◌≡◌, ◌≢◌, refl, arith,
}
use vaultlet.Base64.{digit, value, encode, decode_quanta, decode}

-- A list of bytes.
abbrev pub IsBytes : Bytes → Type 0
IsBytes s = All (λ b. b < 256) s

value-digit : (n : ℕ) → n < 64 → value (digit n) ≡ some n
unfolding value digit
value-digit n h = ground arith

digit_plain : (n : ℕ) → n < 64 → (digit n ≢ b'=') × (digit n ≢ 10) × (digit n ≢ 13)
unfolding digit
digit_plain n h = ground arith

decode_quanta-encode : (s : Bytes) → IsBytes s → decode_quanta (encode s) ≡ some s
unfolding decode_quanta encode
decode_quanta-encode [] h = refl
decode_quanta-encode (a ∷ []) (ha, _) =
    ground (arith, value-digit (a / 4) (omega arith), value-digit (a % 4 * 16) (omega arith))
decode_quanta-encode (a ∷ b ∷ []) (ha, (hb, _)) = ground (
  arith,
  value-digit (a / 4) (omega arith),
  value-digit (a % 4 * 16 + b / 16) (omega arith),
  value-digit (b % 16 * 4) (omega arith),
  digit_plain (b % 16 * 4) (omega arith),
)
decode_quanta-encode (a ∷ b ∷ c ∷ s) (ha, (hb, (hc, hs))) = ground (
  arith,
  value-digit (a / 4) (omega arith),
  value-digit (a % 4 * 16 + b / 16) (omega arith),
  value-digit (b % 16 * 4 + c / 64) (omega arith),
  value-digit (c % 64) (omega arith),
  digit_plain (c % 64) (omega arith),
  decode_quanta-encode s hs,
)

no_breaks :
    (s : Bytes) → IsBytes s → filter (λ c. not ((c == 10) || (c == 13))) (encode s) ≡ encode s
unfolding encode filter
no_breaks [] h = refl
no_breaks (a ∷ []) (ha, _) =
    ground (arith, digit_plain (a / 4) (omega arith), digit_plain (a % 4 * 16) (omega arith))
no_breaks (a ∷ b ∷ []) (ha, (hb, _)) = ground (
  arith,
  digit_plain (a / 4) (omega arith),
  digit_plain (a % 4 * 16 + b / 16) (omega arith),
  digit_plain (b % 16 * 4) (omega arith),
)
no_breaks (a ∷ b ∷ c ∷ s) (ha, (hb, (hc, hs))) = ground (
  arith,
  digit_plain (a / 4) (omega arith),
  digit_plain (a % 4 * 16 + b / 16) (omega arith),
  digit_plain (b % 16 * 4 + c / 64) (omega arith),
  digit_plain (c % 64) (omega arith),
  no_breaks s hs,
)

-- Every list of bytes is decoded from its encoding.
pub decode-encode : (s : Bytes) → IsBytes s → decode (encode s) ≡ some s
unfolding decode
decode-encode s h = rw (no_breaks s h) (decode_quanta-encode s h)
