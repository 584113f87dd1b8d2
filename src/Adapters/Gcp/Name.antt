-- ===== src/Adapters/Gcp/Name.antt =====
-- internal/adapters/driven/gcp/name.go: keys as Secret Manager identifiers and back.
pub mod RoundTrip
use vaultlet.Prelude.{
  ℕ, ◌+◌, ◌-◌, Bool, ◌&&◌, List, [], ◌∷◌, ◌++◌, Bytes, ltb, leb, ◌==◌, if◌then◌else◌, length, true,
  false,
}
use vaultlet.Errors.{Result, ok, err, sentinel, wrap, ◌>>=◌, invalid_key, id_too_long}
use vaultlet.Domain.Key.{Key, key_string, parse_key}
use vaultlet.Adapters.Escaping.{write_all}

abbrev pub max_id_len : ℕ
max_id_len = 255

-- What one round of encodeID's loop writes. A key is ASCII, so its runes are its bytes.
unfoldable pub put_byte : ℕ → Bytes
put_byte r =
    if r == b'-'
    then b'-' ∷ b'0' ∷ []
    else if r == b'/'
    then b'-' ∷ b'1' ∷ []
    else if r == b'.'
    then b'-' ∷ b'2' ∷ []
    else r ∷ []

unfoldable pub encode_id : Key → Result Bytes
encode_id key =
    let b = write_all put_byte (key_string key) in
    if ltb max_id_len (length b)
    then err (wrap "%w: %s encodes to %d characters, max %d" (sentinel id_too_long))
    else ok b

-- The byte that an escape stands for.
unfoldable pub unescape : ℕ → Result ℕ
unescape e =
    if e == b'0'
    then ok b'-'
    else if e == b'1'
    then ok b'/'
    else if e == b'2'
    then ok b'.'
    else err (wrap "%w: %q has bad escape %q" (sentinel invalid_key))

-- The loop of decodeID.
unfoldable pub read : Bytes → Result Bytes
unfolding unescape
read [] = ok []
read (c ∷ []) =
    if c == b'-' then err (wrap "%w: %q ends in an escape" (sentinel invalid_key)) else ok (c ∷ [])
read (c ∷ e ∷ s) = elim (c == b'-') [
  | true ↦ (unescape e >>= λ d. read s >>= λ r. ok (d ∷ r))
  | false ↦ (read (e ∷ s) >>= λ r. ok (c ∷ r))
]

unfoldable pub decode_id : Bytes → Result Key
decode_id id = read id >>= parse_key
