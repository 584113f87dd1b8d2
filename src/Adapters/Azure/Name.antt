-- ===== src/Adapters/Azure/Name.antt =====
-- internal/adapters/driven/azure/name.go: keys as Key Vault names and back.
pub mod RoundTrip
pub mod Alphabet
use vaultlet.Prelude.{
  ℕ, ◌+◌, ◌-◌, Bool, ◌&&◌, List, [], ◌∷◌, ◌++◌, Bytes, ltb, leb, ◌==◌, if◌then◌else◌, length, true,
  false,
}
use vaultlet.Errors.{Result, ok, err, sentinel, wrap, ◌>>=◌, invalid_key, name_too_long}
use vaultlet.Domain.Key.{Key, key_string, parse_key}
use vaultlet.Adapters.Escaping.{write_all}

abbrev pub max_name_len : ℕ
max_name_len = 127

-- What one round of encodeName's loop writes. A key is ASCII, so its runes are its bytes.
unfoldable pub put_byte : ℕ → Bytes
put_byte r =
    if r == b'-'
    then b'-' ∷ b'0' ∷ []
    else if r == b'/'
    then b'-' ∷ b'1' ∷ []
    else if r == b'_'
    then b'-' ∷ b'2' ∷ []
    else if r == b'.'
    then b'-' ∷ b'3' ∷ []
    else if leb b'A' r && leb r b'Z'
    then b'-' ∷ (r - b'A' + b'a') ∷ []
    else r ∷ []

unfoldable pub encode_name : Key → Result Bytes
encode_name key =
    let b = write_all put_byte (key_string key) in
    if ltb max_name_len (length b)
    then err (wrap "%w: %s encodes to %d characters, max %d" (sentinel name_too_long))
    else ok b

-- The byte that an escape stands for.
unfoldable pub unescape : ℕ → Result ℕ
unescape e =
    if e == b'0'
    then ok b'-'
    else if e == b'1'
    then ok b'/'
    else if e == b'2'
    then ok b'_'
    else if e == b'3'
    then ok b'.'
    else if leb b'a' e && leb e b'z'
    then ok (e - b'a' + b'A')
    else err (wrap "%w: %q has bad escape %q" (sentinel invalid_key))

-- The loop of decodeName.
unfoldable pub read : Bytes → Result Bytes
unfolding unescape
read [] = ok []
read (c ∷ []) =
    if c == b'-' then err (wrap "%w: %q ends in an escape" (sentinel invalid_key)) else ok (c ∷ [])
read (c ∷ e ∷ s) = elim (c == b'-') [
  | true ↦ (unescape e >>= λ d. read s >>= λ r. ok (d ∷ r))
  | false ↦ (read (e ∷ s) >>= λ r. ok (c ∷ r))
]

unfoldable pub decode_name : Bytes → Result Key
decode_name name = read name >>= parse_key
