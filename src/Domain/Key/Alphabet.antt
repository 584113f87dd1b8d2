-- ===== src/Domain/Key/Alphabet.antt =====
-- Of which bytes the printed form of a valid key is made.
use vaultlet.Prelude.{
  ℕ, ◌<◌, List, [], ◌∷◌, Bytes, ◌≡◌, true, refl, arith, All, All-append, ◌⊎◌, inl, inr, subst, sym,
  length, ◌≤◌, ◌*◌, ◌-◌, length-append, ap,
}
use vaultlet.Regex.{in_class}
use vaultlet.Strings.{slash, separated, join}
use vaultlet.Strings.Utf8.{IsUtf8, ascii-IsUtf8}
use vaultlet.Domain.Key.{Key, lower_digit_dash, name_rest, namespace_string, key_string}
use vaultlet.Domain.Key.Grammar.{InClass, name_byte}
use vaultlet.Domain.Key.Valid.{IsSegment, IsValidKey}
use vaultlet.Domain.Key.RoundTrip.{key_string_valid}

-- A byte of the grammar of names, or the slash.
abbrev pub IsKeyByte : ℕ → Type 0
IsKeyByte c = (in_class name_rest c ≡ true) ⊎ (c ≡ slash)

dash_rest : (c : ℕ) → in_class lower_digit_dash c ≡ true → in_class name_rest c ≡ true
unfolding in_class
dash_rest c h = ground arith

segment_bytes : (s : Bytes) → InClass lower_digit_dash s → All IsKeyByte s
segment_bytes [] h = tt
segment_bytes (c ∷ s) (hc, h) = (inl (dash_rest c hc), segment_bytes s h)

name_bytes : (s : Bytes) → InClass name_rest s → All IsKeyByte s
name_bytes [] h = tt
name_bytes (c ∷ s) (hc, h) = (inl hc, name_bytes s h)

separated_bytes : (ps : List Bytes) → All IsSegment ps → All IsKeyByte (separated ps slash)
unfolding separated
separated_bytes [] h = tt
separated_bytes (p ∷ ps) (g, h) =
    (inr refl, All-append IsKeyByte p _ (segment_bytes p g.text.bytes) (separated_bytes ps h))

join_bytes : (ps : List Bytes) → All IsSegment ps → All IsKeyByte (join ps slash)
unfolding join
join_bytes [] h = tt
join_bytes (p ∷ ps) (g, h) =
    All-append IsKeyByte p _ (segment_bytes p g.text.bytes) (separated_bytes ps h)

-- The printed form of a valid key holds only letters, digits, `_`, `.`, `-` and slashes.
pub key_string_bytes : (k : Key) → IsValidKey k → All IsKeyByte (key_string k)
unfolding namespace_string
key_string_bytes k v = subst (All IsKeyByte) (sym (key_string_valid k v)) (
    All-append IsKeyByte (namespace_string k.ns) (slash ∷ k.name)
      (join_bytes k.ns.segments v.ns_valid.segments_valid)
      (inr refl, name_bytes k.name v.name_valid.text.bytes))

pub key_byte_ascii : (c : ℕ) → IsKeyByte c → c < 128
key_byte_ascii c (inl h) = (name_byte c h).1
key_byte_ascii c (inr e) = omega arith

key_bytes_ascii : (s : Bytes) → All IsKeyByte s → All (λ c. c < 128) s
key_bytes_ascii [] h = tt
key_bytes_ascii (c ∷ s) (hc, h) = (key_byte_ascii c hc, key_bytes_ascii s h)

-- The printed form of a valid key is a text in UTF-8.
pub key_string-IsUtf8 : (k : Key) → IsValidKey k → IsUtf8 (key_string k)
key_string-IsUtf8 k v =
    ascii-IsUtf8 (key_string k) (key_bytes_ascii (key_string k) (key_string_bytes k v))

length-separated :
    (ps : List Bytes) → All IsSegment ps → length (separated ps slash) ≤ length ps * 64
unfolding separated
length-separated [] h = omega arith
length-separated (p ∷ ps) (g, h) =
    omega (arith, g.short, length-separated ps h, length-append {0} p (separated ps slash))

length-join : (ps : List Bytes) → All IsSegment ps → length (join ps slash) ≤ length ps * 64 - 1
unfolding join
length-join [] h = omega arith
length-join (p ∷ ps) (g, h) =
    omega (arith, g.short, length-separated ps h, length-append {0} p (separated ps slash))

-- The printed form of a valid key has at most 640 bytes: 8 segments of 63, a name of 128, and 8 slashes.
pub length-key_string : (k : Key) → IsValidKey k → length (key_string k) ≤ 640
unfolding namespace_string
length-key_string k v = omega (
  arith,
  ap length (key_string_valid k v),
  length-append {0} (join k.ns.segments slash) (slash ∷ k.name),
  length-join k.ns.segments v.ns_valid.segments_valid,
  v.ns_valid.shallow,
  v.name_valid.short,
)
