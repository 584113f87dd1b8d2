-- ===== src/Tests/Domain.antt =====
-- Keys, namespaces and secrets at concrete inputs.
use vaultlet.Prelude.{ℕ, true, false, [], ◌∷◌, codes, bytes_eq, ◌≡◌, ◌≢◌, ◌↔◌, refl, arith}
use vaultlet.Errors.{ok, err, wrap, sentinel, invalid_key, invalid_namespace, is}
use vaultlet.Regex.{matches, deriv, nullable, in_class}
use vaultlet.Strings.{slash, trim, trim_left, split, extend, last_index}
use vaultlet.Domain.Key.{
  Namespace, segment_re, name_re, bad_segment, bad_name, check_segments, parse_namespace,
  parse_key_at, parse_key, namespace_string, key_string, contains, same_segments, parent, depth,
}
use vaultlet.Domain.Key.Valid.{IsValidKey, IsValidNamespace}
use vaultlet.Domain.Secret.{Secret, new_secret, new_secret_iff}
use vaultlet.Domain.Key.Accepts.{parse_key_iff, spaced, key_string-injective}
use vaultlet.Domain.Key.RoundTrip.{parse_key-string, parse_namespace_iff}
use vaultlet.Domain.Key.Grammar.{
  IsSegmentText, IsNameText, segment_re-accepts_iff, name_re-accepts_iff,
}
use vaultlet.Domain.Key.Containment.{Beneath, contains_iff, contains-parent}
use vaultlet.Tests.Samples.{payments_prod, db_url, meta_db_url, db_url-IsValidKey}

-- A second slash before the name is accepted, and a second slash inside the namespace is not.
double_slash : parse_key (codes "/payments/prod//DB_URL/") ≡ ok db_url
unfolding parse_key parse_key_at parse_namespace check_segments bad_segment bad_name segment_re
    name_re matches deriv nullable in_class trim trim_left split extend last_index bytes_eq
double_slash = refl

inner_double_slash :
    parse_key (codes "payments//prod/DB_URL") ≡ err (wrap "%w: %v" (sentinel invalid_key))
unfolding parse_key parse_key_at parse_namespace check_segments bad_segment bad_name segment_re
    name_re matches deriv nullable in_class trim trim_left split extend last_index bytes_eq
inner_double_slash = refl

hyphen_end : matches segment_re (codes "prod-") ≡ false
unfolding segment_re matches deriv nullable in_class
hyphen_end = refl

-- A namespace's error is formatted by %v and is not in the chain of the key's error.
hidden_namespace_error : is (wrap "%w: %v" (sentinel invalid_key)) invalid_namespace ≡ false
unfolding is
hidden_namespace_error = refl

parse_key-string_example : parse_key (key_string db_url) ≡ ok db_url
parse_key-string_example = parse_key-string db_url db_url-IsValidKey

parse_key_iff_example : (parse_key (codes "/payments/prod//DB_URL/") ≡ ok db_url) ↔ (
    IsValidKey db_url
    × ((m : ℕ) × (trim (codes "/payments/prod//DB_URL/") slash ≡ spaced db_url m)))
parse_key_iff_example = parse_key_iff (codes "/payments/prod//DB_URL/") db_url

parse_namespace_iff_example : (parse_namespace (codes "payments/prod/") ≡ ok payments_prod) ↔ (
    IsValidNamespace payments_prod
    × (trim (codes "payments/prod/") slash ≡ namespace_string payments_prod))
parse_namespace_iff_example = parse_namespace_iff (codes "payments/prod/") payments_prod

key_string-injective_example : db_url ≡ db_url
key_string-injective_example =
    key_string-injective db_url db_url db_url-IsValidKey db_url-IsValidKey refl

segment_re-accepts_iff_example :
    (matches segment_re (codes "prod-1") ≡ true) ↔ IsSegmentText (codes "prod-1")
segment_re-accepts_iff_example = segment_re-accepts_iff (codes "prod-1")

name_re-accepts_iff_example :
    (matches name_re (codes "DB_URL.v1") ≡ true) ↔ IsNameText (codes "DB_URL.v1")
name_re-accepts_iff_example = name_re-accepts_iff (codes "DB_URL.v1")

abbrev payments : Namespace
payments = record { segments = codes "payments" ∷ [] }

contains_iff_example : (contains payments payments_prod ≡ true) ↔ Beneath payments payments_prod
contains_iff_example = contains_iff payments payments_prod

contains_prefix_of_text : contains payments (record { segments = codes "payments2" ∷ [] }) ≡ false
unfolding contains same_segments bytes_eq
contains_prefix_of_text = refl

contains-parent_example : contains payments (parent payments_prod) ≡ true
unfolding contains same_segments bytes_eq depth
contains-parent_example = contains-parent payments payments_prod refl (omega arith)

new_secret_iff_example :
    (new_secret meta_db_url (codes "x") ≡ ok (record { meta = meta_db_url; value = codes "x" })) ↔ (
      (meta_db_url.key.name ≢ [])
      × (meta_db_url.version.id ≢ [])
      × (codes "x" ≢ [])
      × (◌≡◌ {A = Secret}
          (record { meta = meta_db_url; value = codes "x" })
          (record { meta = meta_db_url; value = codes "x" })))
new_secret_iff_example =
    new_secret_iff meta_db_url (codes "x") (record { meta = meta_db_url; value = codes "x" })
