-- ===== src/Domain/Secret.antt =====
-- internal/domain/secret.go: versions, metadata and secrets. A time is a number of nanoseconds.
use vaultlet.Prelude.{
  ℕ, Bool, [], ◌++◌, Bytes, bytes_eq, codes, if◌then◌else◌, ◌≡◌, ◌≢◌, ◌↔◌, arith, bytes_eq_iff,
}
use vaultlet.Errors.{Result, ok, err, sentinel, invalid_key, invalid_version, empty_value}
use vaultlet.Domain.Key.{Key, key_is_zero, key_string}

abbrev pub Time : Type 0
Time = ℕ

pub record Version : Type 0 where
  pub id : Bytes

abbrev pub zero_version : Version
zero_version = record { id = [] }

unfoldable pub new_version : Bytes → Result Version
new_version id = if bytes_eq id [] then err (sentinel invalid_version) else ok (record { id = id })

-- Version.IsZero
unfoldable pub version_is_zero : Version → Bool
version_is_zero v = bytes_eq v.id []

-- Version.MarshalText
unfoldable pub marshal_text : Version → Result Bytes
marshal_text v = ok v.id

abbrev keep_or_set : Version → Result Version → Result (Unit {0}) × Version
keep_or_set v (ok parsed) = (ok tt, parsed)
keep_or_set v (err e) = (err e, v)

-- Version.UnmarshalText: the receiver is left alone on an error.
unfoldable pub unmarshal_text : Version → Bytes → Result (Unit {0}) × Version
unmarshal_text v b = keep_or_set v (new_version b)

pub record SecretMeta : Type 0 where
  pub key : Key
  pub version : Version
  pub created_at : Time

pub record Secret : Type 0 where
  pub meta : SecretMeta
  pub value : Bytes

unfoldable pub new_secret : SecretMeta → Bytes → Result Secret
new_secret meta value =
    if key_is_zero meta.key
    then err (sentinel invalid_key)
    else if version_is_zero meta.version
    then err (sentinel invalid_version)
    else if bytes_eq value []
    then err (sentinel empty_value)
    else ok (record { meta = meta; value = value })

-- Secret.String
unfoldable pub secret_string : Secret → Bytes
secret_string s =
    codes "Secret{" ++ (key_string s.meta.key ++ (codes "@" ++ (s.meta.version.id ++ codes "}")))

-- NewSecret returns a secret exactly if the key has a name, the version has an identifier and the
-- value has a byte; the secret then has this metadata and this value.
pub new_secret_iff :
    (m : SecretMeta) (v : Bytes) (s : Secret)
    → (new_secret m v ≡ ok s)
      ↔ ((m.key.name ≢ []) × (m.version.id ≢ []) × (v ≢ []) × (s ≡ record { meta = m; value = v }))
unfolding new_secret key_is_zero version_is_zero
new_secret_iff m v s = (
  λ h. ground (arith, bytes_eq_iff m.key.name [], bytes_eq_iff m.version.id [], bytes_eq_iff v []),
  λ (a, b, c, d).
      ground (arith, bytes_eq_iff m.key.name [], bytes_eq_iff m.version.id [], bytes_eq_iff v []),
)

-- A version that has an identifier is read back from its text, whatever the receiver held; the
-- empty text of the zero version is refused and leaves the receiver as it was.
pub unmarshal_text-marshal_text :
    (v w : Version) (b : Bytes)
    → marshal_text v ≡ ok b
    → unmarshal_text w b
      ≡ (if version_is_zero v then (err (sentinel invalid_version), w) else (ok tt, v))
unfolding marshal_text unmarshal_text new_version version_is_zero
unmarshal_text-marshal_text v w b h = ground arith
