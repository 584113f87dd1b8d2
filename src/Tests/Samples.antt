-- ===== src/Tests/Samples.antt =====
-- Keys, metadata and a backend that the tests share.
use vaultlet.Prelude.{ℕ, none, some, [], ◌∷◌, codes, bytes_eq, ◌≡◌, refl, ◌+◌}
use vaultlet.Errors.{ok}
use vaultlet.Regex.{matches, deriv, nullable, in_class}
use vaultlet.Strings.{trim, trim_left, split, extend, last_index}
use vaultlet.Domain.Key.{
  Namespace, Key, segment_re, name_re, bad_segment, bad_name, check_segments, parse_namespace,
  parse_key_at, parse_key,
}
use vaultlet.Domain.Key.Valid.{IsValidKey, parse_key-IsValid}
use vaultlet.Domain.Secret.{SecretMeta, Secret}
use vaultlet.Domain.Event.{added, in_sync_event}
use vaultlet.Ports.{Context, SecretStore}

abbrev pub payments_prod : Namespace
payments_prod = record { segments = codes "payments" ∷ codes "prod" ∷ [] }

abbrev pub db_url : Key
db_url = record { ns = payments_prod; name = codes "DB_URL" }

pub parse_db_url : parse_key (codes "payments/prod/DB_URL") ≡ ok db_url
unfolding parse_key parse_key_at parse_namespace check_segments bad_segment bad_name segment_re
    name_re matches deriv nullable in_class trim trim_left split extend last_index bytes_eq
parse_db_url = refl

pub db_url-IsValidKey : IsValidKey db_url
db_url-IsValidKey = parse_key-IsValid (codes "payments/prod/DB_URL") db_url parse_db_url

abbrev pub meta_db_url : SecretMeta
meta_db_url = record { key = db_url; version = record { id = codes "7" }; created_at = 5 }

abbrev pub secret_db_url : Secret
secret_db_url = record { meta = meta_db_url; value = codes "x" }

-- A context with a principal, and one without.
abbrev pub alice : Context
alice = record { principal = some (codes "alice"); done = none }

abbrev pub nobody : Context
nobody = record { principal = none; done = none }

-- A backend that holds one secret and counts its calls.
abbrev pub counting : SecretStore ℕ
counting = record {
  get = λ ctx k w. (ok secret_db_url, w + 1);
  put = λ ctx k v w. (ok meta_db_url, w + 1);
  list = λ ctx ns w. (ok (meta_db_url ∷ []), w + 1);
  delete = λ ctx k w. (ok tt, w + 1);
  watch =
      λ ctx ns w. (ok (record { type = added; meta = meta_db_url } ∷ in_sync_event ∷ []), w + 1);
}
