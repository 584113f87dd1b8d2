-- ===== src/Base64.antt =====
-- Go's encoding/base64, as far as the program uses it: StdEncoding's EncodeToString and
-- DecodeString, which skips line breaks and ignores the bits that the padding leaves over.
pub mod RoundTrip
use Prim.Native.Nat.{◌/◌, ◌%◌}
use vaultlet.Prelude.{
  ℕ, ◌+◌, ◌-◌, ◌*◌, Bool, true, false, ◌||◌, ◌&&◌, not, Option, none, some, List, [], ◌∷◌, Bytes,
  ltb, leb, ◌==◌, if◌then◌else◌, filter,
}

-- The character of a number below 64.
unfoldable pub digit : ℕ → ℕ
digit n =
    if ltb n 26
    then n + b'A'
    else if ltb n 52
    then n - 26 + b'a'
    else if ltb n 62
    then n - 52 + b'0'
    else if n == 62
    then b'+'
    else b'/'

-- The number of a character, if it is one of the 64.
unfoldable pub value : ℕ → Option ℕ
value c =
    if leb b'A' c && leb c b'Z'
    then some (c - b'A')
    else if leb b'a' c && leb c b'z'
    then some (c - b'a' + 26)
    else if leb b'0' c && leb c b'9'
    then some (c - b'0' + 52)
    else if c == b'+'
    then some 62
    else if c == b'/'
    then some 63
    else none

-- EncodeToString
unfoldable pub encode : Bytes → Bytes
encode [] = []
encode (a ∷ []) = digit (a / 4) ∷ digit (a % 4 * 16) ∷ b'=' ∷ b'=' ∷ []
encode (a ∷ b ∷ []) = digit (a / 4) ∷ digit (a % 4 * 16 + b / 16) ∷ digit (b % 16 * 4) ∷ b'=' ∷ []
encode (a ∷ b ∷ c ∷ rest) =
    digit (a / 4)
    ∷ digit (a % 4 * 16 + b / 16)
    ∷ digit (b % 16 * 4 + c / 64)
    ∷ digit (c % 64)
    ∷ encode rest

-- The bytes of a last quantum that is padded: two digits, or three.
abbrev one_byte : Option ℕ → Option ℕ → Option Bytes
one_byte (some x) (some y) = some ((x * 4 + y / 16) ∷ [])
one_byte _ _ = none

abbrev two_bytes : Option ℕ → Option ℕ → Option ℕ → Option Bytes
two_bytes (some x) (some y) (some z) = some ((x * 4 + y / 16) ∷ (y % 16 * 16 + z / 4) ∷ [])
two_bytes _ _ _ = none

-- A full quantum in front of what follows it.
abbrev three_bytes : Option ℕ → Option ℕ → Option ℕ → Option ℕ → Option Bytes → Option Bytes
three_bytes (some x) (some y) (some z) (some u) (some rest) =
    some ((x * 4 + y / 16) ∷ (y % 16 * 16 + z / 4) ∷ (z % 4 * 64 + u) ∷ rest)
three_bytes _ _ _ _ _ = none

abbrev is_nil : Bytes → Bool
is_nil [] = true
is_nil (c ∷ s) = false

-- The quanta of a text without line breaks.
unfoldable pub decode_quanta : Bytes → Option Bytes
unfolding value
decode_quanta [] = some []
decode_quanta (a ∷ []) = none
decode_quanta (a ∷ b ∷ []) = none
decode_quanta (a ∷ b ∷ c ∷ []) = none
decode_quanta (a ∷ b ∷ c ∷ d ∷ s) =
    let rest = decode_quanta s in
    if d == b'='
    then (if not (is_nil s)
        then none
        else if c == b'='
        then one_byte (value a) (value b)
        else two_bytes (value a) (value b) (value c))
    else three_bytes (value a) (value b) (value c) (value d) rest

abbrev is_break : ℕ → Bool
is_break c = c == 10 || c == 13

-- DecodeString; `none` stands for an error.
unfoldable pub decode : Bytes → Option Bytes
unfolding decode_quanta
decode s = decode_quanta (filter (λ c. not (is_break c)) s)
