-- ===== src/Adapters/Azure/Name/Alphabet.antt =====
-- The encoded names keep to the alphabet of Key Vault, and stay apart where case is ignored.
use vaultlet.Prelude.{
  ℕ, ◌+◌, ◌≤◌, ◌&&◌, [], ◌∷◌, Bytes, leb, if◌then◌else◌, length, true, ◌≡◌, refl, sym, ◌∙◌, ap,
  arith, inl, inr, subst, length-append,
}
use mathlib.Core.List.{map}
use mathlib.Core.Path.{ap₂}
use vaultlet.Errors.{ok}
use vaultlet.Regex.{in_class}
use vaultlet.Domain.Key.{Key, key_string, lower_digit_dash}
use vaultlet.Domain.Key.Grammar.{InClass}
use vaultlet.Domain.Key.Valid.{IsValidKey}
use vaultlet.Domain.Key.Alphabet.{IsKeyByte, key_string_bytes}
use vaultlet.Adapters.Escaping.{write_all, All-write_all}
use vaultlet.Adapters.Azure.Name.{put_byte, encode_name, decode_name, max_name_len}
use vaultlet.Adapters.Azure.Name.RoundTrip.{encode_name_iff, decode_name-encode_name}

put_byte-class : (c : ℕ) → IsKeyByte c → InClass lower_digit_dash (put_byte c)
unfolding put_byte in_class
put_byte-class c (inl h) = ground arith
put_byte-class c (inr e) = ground arith

-- The name of a valid key has at most 127 bytes, all lower-case letters, digits and hyphens.
pub encode_name_alphabet :
    (k : Key) (name : Bytes)
    → IsValidKey k
    → encode_name k ≡ ok name
    → InClass lower_digit_dash name × (length name ≤ max_name_len)
encode_name_alphabet k name v h =
    let (written, short) = (encode_name_iff k name).0 h in
    (
      subst (InClass lower_digit_dash) (sym written) (
          All-write_all put_byte (λ c. in_class lower_digit_dash c ≡ true) IsKeyByte put_byte-class
            (key_string k) (key_string_bytes k v)),
      short,
    )

-- ASCII lower case.
pub to_lower : ℕ → ℕ
to_lower c = if leb b'A' c && leb c b'Z' then c + 32 else c

to_lower-class : (c : ℕ) → in_class lower_digit_dash c ≡ true → to_lower c ≡ c
unfolding to_lower in_class
to_lower-class c h = ground arith

map-to_lower : (s : Bytes) → InClass lower_digit_dash s → map to_lower s ≡ s
map-to_lower [] h = refl
map-to_lower (c ∷ s) (hc, h) =
    ap₂ (λ (x : ℕ) (r : Bytes). x ∷ r) (to_lower-class c hc) (map-to_lower s h)

ok-injective : {a b : Key} → ok a ≡ ok b → a ≡ b
ok-injective h = cc

-- Valid keys whose names are equal where case is ignored, as Key Vault compares them, are equal.
pub encode_name-injective :
    (j k : Key) (name other : Bytes)
    → IsValidKey j
    → IsValidKey k
    → encode_name j ≡ ok name
    → encode_name k ≡ ok other
    → map to_lower name ≡ map to_lower other
    → j ≡ k
encode_name-injective j k name other v w e f same =
    let equal =
      sym (map-to_lower name (encode_name_alphabet j name v e).0)
      ∙ (same ∙ map-to_lower other (encode_name_alphabet k other w f).0) in
    ok-injective (
      sym (decode_name-encode_name j name v e)
      ∙ (ap decode_name equal ∙ decode_name-encode_name k other w f))

length-put_byte : (c : ℕ) → length (put_byte c) ≤ 2
unfolding put_byte
length-put_byte c = ground arith

length-write_all : (s : Bytes) → length (write_all put_byte s) ≤ length s + length s
unfolding write_all
length-write_all [] = omega arith
length-write_all (c ∷ s) = omega (
  arith,
  length-put_byte c,
  length-write_all s,
  length-append {0} (put_byte c) (write_all put_byte s),
)

-- Every key whose printed form has at most 63 bytes has a name.
pub encode_name_short :
    (k : Key) → length (key_string k) ≤ 63 → encode_name k ≡ ok (write_all put_byte (key_string k))
encode_name_short k h =
    (encode_name_iff k _).1 (refl, omega (arith, length-write_all (key_string k)))
