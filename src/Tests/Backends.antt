-- ===== src/Tests/Backends.antt =====
-- The stores over small clients, at concrete inputs.
use vaultlet.Prelude.{
  ℕ, zero, suc, ◌-◌, ◌≤◌, true, false, not, ◌||◌, Option, none, some, [], Bytes, codes, bytes_eq,
  bytes_eq_refl, if◌then◌else◌, ◌≡◌, ◌↔◌, refl, arith,
}
use vaultlet.Strings.Utf8.{ascii-IsUtf8}
use vaultlet.Integers.{pos}
use vaultlet.Errors.{Error, response, ok, err}
use vaultlet.Domain.Key.{key_string, key_is_zero, namespace_string}
use vaultlet.Domain.Secret.{SecretMeta, new_version}
use vaultlet.Strings.{join, separated}
use vaultlet.Adapters.Escaping.{write_all}
use vaultlet.Adapters.Azure.Name
use vaultlet.Adapters.Azure.Store
use vaultlet.Adapters.Azure.Store.{
  Attributes, VaultSecret, purge_loop, verdict, status_code, as_response, purged, retry,
  wrap_status,
}
use vaultlet.Adapters.Azure.Store.Writes.{ReadsBack, get_secret-put_secret, Purges, purge_loop_iff}
use vaultlet.Adapters.Azure.Config
use vaultlet.Adapters.Azure.Config.{
  Url, count_set, explicit_credentials, validate-explicit_credentials,
}
use vaultlet.Tests.Samples.{db_url, db_url-IsValidKey}

abbrev stamps : Attributes
stamps = record { created = some 5; updated = some 6 }

-- A vault that holds the secret that was set last.
abbrev one_secret : Store.Api (Bytes × Bytes)
one_secret = record {
  get_secret = λ name w. (
    if bytes_eq w.0 name
        then ok (record { value = some w.1; attributes = some stamps })
        else err (response 404),
    w,
  );
  set_secret = λ name value tag w.
      (ok (record { value = some value; attributes = some stamps }), (name, value));
  delete_secret = λ name w. (ok tt, w);
  purge_deleted_secret = λ name w. (ok tt, w);
  pages = λ w. [];
}

one_secret-ReadsBack : ReadsBack one_secret (λ w. w)
one_secret-ReadsBack = record {
  reads_back = λ name value tag w w' res _ h. ground (arith, bytes_eq_refl name);
}

abbrev vault : Store.Store (Bytes × Bytes)
vault = record {
  client = one_secret;
  allow_writes = true;
  purge_on_delete = true;
  format = λ t. codes "t";
}

abbrev put_meta : SecretMeta
put_meta = record { key = db_url; version = record { id = codes "t" }; created_at = 5 }

abbrev db_url_name : Bytes
db_url_name = codes "payments-1prod-1-d-b-2-u-r-l"

put_runs :
    Store.put_secret vault db_url (codes "x") ([], []) ≡ (ok put_meta, (db_url_name, codes "x"))
unfolding Store.put_secret Name.encode_name write_all Name.put_byte key_string namespace_string join
    separated bytes_eq Store.meta_of new_version key_is_zero
put_runs = refl

get_secret-put_secret_example :
    (Store.get_secret vault db_url (db_url_name, codes "x")).0
    ≡ ok (record { meta = put_meta; value = codes "x" })
get_secret-put_secret_example =
    get_secret-put_secret vault (λ w. w) db_url (codes "x") ([], []) (db_url_name, codes "x")
      put_meta one_secret-ReadsBack (ascii-IsUtf8 (codes "x") (omega arith)) db_url-IsValidKey
      put_runs

-- A vault that answers a purge with a conflict while the number is not zero.
abbrev settling : Store.Api ℕ
settling = record {
  get_secret = λ name w. (err (response 404), w);
  set_secret = λ name value tag w. (err (response 500), w);
  delete_secret = λ name w. (ok tt, w);
  purge_deleted_secret = λ name w. (elim w [ zero ↦ ok tt | suc n ↦ err (response 409) ], w);
  pages = λ w. [];
}

abbrev busy : Store.Store ℕ
busy = record {
  client = settling;
  allow_writes = true;
  purge_on_delete = true;
  format = λ t. codes "t";
}

abbrev wait : ℕ → ℕ → Option Error × ℕ
wait attempt w = (none, w - 1)

purge_runs : purge_loop busy 29 [] wait 2 ≡ (ok tt, 0)
unfolding purge_loop verdict status_code as_response
purge_runs = refl

purge_loop_iff_example : (purge_loop busy 29 [] wait 2 ≡ (ok tt, 0)) ↔ Purges busy [] wait 29 2 0
purge_loop_iff_example = purge_loop_iff busy 29 [] wait 2 0

abbrev parse_url : Bytes → Option Url
parse_url text = some (record { scheme = codes "https"; host = codes "v.vault.azure.net" })

abbrev azure_config : Config.Config
azure_config = record {
  vault_url = codes "https://v.vault.azure.net";
  tenant_id = codes "t";
  client_id = codes "c";
  client_secret = codes "s";
  poll_interval = pos 5000000000;
  allow_writes = false;
  purge_on_delete = false;
}

validate-explicit_credentials_example :
    (explicit_credentials azure_config ≡ (
      not (bytes_eq (codes "t") [])
      || not (bytes_eq (codes "c") [])
      || not (bytes_eq (codes "s") [])))
    × ((n : ℕ) × (azure_config.poll_interval ≡ pos n) × (Config.min_poll_interval ≤ n))
validate-explicit_credentials_example =
    validate-explicit_credentials parse_url azure_config
      (unfold Config.validate count_set bytes_eq in refl)
