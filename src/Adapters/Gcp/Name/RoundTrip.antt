-- ===== src/Adapters/Gcp/Name/RoundTrip.antt =====
-- The identifiers are undone by the decoder, stay apart, and keep to Secret Manager's alphabet.
use vaultlet.Prelude.{
  ℕ, ◌≤◌, List, [], ◌∷◌, ◌++◌, Bytes, length, ◌≡◌, ◌↔◌, refl, sym, ◌∙◌, arith, inl, inr, subst,
  true,
}
use vaultlet.Errors.{ok, ◌>>=◌}
use vaultlet.Regex.{in_class}
use vaultlet.Domain.Key.{Key, key_string}
use vaultlet.Domain.Key.Grammar.{InClass}
use vaultlet.Domain.Key.Valid.{IsValidKey}
use vaultlet.Domain.Key.RoundTrip.{parse_key-string}
use vaultlet.Domain.Key.Alphabet.{IsKeyByte, key_string_bytes}
use vaultlet.Adapters.Escaping.{write_all, read-write_all, All-write_all}
use vaultlet.Adapters.Gcp.Name.{put_byte, encode_id, read, decode_id, max_id_len}

-- [A-Za-z0-9_-]
abbrev pub id_class : List (ℕ × ℕ)
id_class = (b'A', b'Z') ∷ (b'a', b'z') ∷ (b'0', b'9') ∷ (b'_', b'_') ∷ (b'-', b'-') ∷ []

read-put_byte : (c : ℕ) (s : Bytes) → read (put_byte c ++ s) ≡ (read s >>= λ r. ok (c ∷ r))
unfolding read put_byte
read-put_byte c [] = ground arith
read-put_byte c (e ∷ s) = ground arith

-- encodeID succeeds exactly if what it writes has at most 255 bytes, and returns that.
pub encode_id_iff :
    (k : Key) (id : Bytes)
    → (encode_id k ≡ ok id) ↔ ((id ≡ write_all put_byte (key_string k)) × (length id ≤ max_id_len))
unfolding encode_id
encode_id_iff k id = (λ h. (ground arith, ground arith), λ (e, h). rw (← e) (ground arith))

-- Decoding the identifier of a valid key gives the key back.
pub decode_id-encode_id :
    (k : Key) (id : Bytes) → IsValidKey k → encode_id k ≡ ok id → decode_id id ≡ ok k
unfolding decode_id
decode_id-encode_id k id v h =
    let written = ((encode_id_iff k id).0 h).0 in
    rw (written, read-write_all put_byte read (unfold read in refl) read-put_byte (key_string k))
      (parse_key-string k v)

put_byte-class : (c : ℕ) → IsKeyByte c → InClass id_class (put_byte c)
unfolding put_byte in_class
put_byte-class c (inl h) = ground arith
put_byte-class c (inr e) = ground arith

-- The identifier of a valid key has at most 255 bytes, all letters, digits, `_` and `-`.
pub encode_id_alphabet :
    (k : Key) (id : Bytes)
    → IsValidKey k
    → encode_id k ≡ ok id
    → InClass id_class id × (length id ≤ max_id_len)
encode_id_alphabet k id v h =
    let (written, short) = (encode_id_iff k id).0 h in
    (
      subst (InClass id_class) (sym written) (
          All-write_all put_byte (λ c. in_class id_class c ≡ true) IsKeyByte put_byte-class
            (key_string k) (key_string_bytes k v)),
      short,
    )

ok-injective : {a b : Key} → ok a ≡ ok b → a ≡ b
ok-injective h = cc

-- Valid keys with the same identifier are the same key.
pub encode_id-injective :
    (j k : Key) (id : Bytes)
    → IsValidKey j
    → IsValidKey k
    → encode_id j ≡ ok id
    → encode_id k ≡ ok id
    → j ≡ k
encode_id-injective j k id v w e f =
    ok-injective (sym (decode_id-encode_id j id v e) ∙ decode_id-encode_id k id w f)
