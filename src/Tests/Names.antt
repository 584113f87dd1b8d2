-- ===== src/Tests/Names.antt =====
-- Encoded names at concrete inputs.
use vaultlet.Prelude.{◌≤◌, ◌∷◌, Bytes, codes, bytes_eq, ◌≡◌, refl, length}
use vaultlet.Errors.{ok}
use vaultlet.Strings.{join, separated}
use vaultlet.Domain.Key.{key_string, key_is_zero, namespace_string}
use vaultlet.Domain.Key.Grammar.{InClass}
use vaultlet.Domain.Key.Alphabet.{length-key_string}
use vaultlet.Domain.Key.{lower_digit_dash}
use vaultlet.Adapters.Escaping.{write_all}
use vaultlet.Adapters.Azure.Name as AzureName
use vaultlet.Adapters.Azure.Name.{encode_name, decode_name}
use vaultlet.Adapters.Azure.Name.RoundTrip.{decode_name-encode_name, decode_name_alias}
use vaultlet.Adapters.Azure.Name.Alphabet.{encode_name_alphabet, encode_name-injective}
use vaultlet.Adapters.Gcp.Name as GcpName
use vaultlet.Adapters.Gcp.Name.{encode_id, decode_id}
use vaultlet.Adapters.Gcp.Name.RoundTrip.{
  id_class, decode_id-encode_id, encode_id-injective, encode_id_alphabet,
}
use vaultlet.Tests.Samples.{db_url, db_url-IsValidKey}

abbrev azure_name : Bytes
azure_name = codes "payments-1prod-1-d-b-2-u-r-l"

abbrev gcp_id : Bytes
gcp_id = codes "payments-1prod-1DB_URL"

azure_encodes : encode_name db_url ≡ ok azure_name
unfolding encode_name write_all AzureName.put_byte key_string key_is_zero namespace_string join
    separated bytes_eq
azure_encodes = refl

decode_name-encode_name_example : decode_name azure_name ≡ ok db_url
decode_name-encode_name_example =
    decode_name-encode_name db_url azure_name db_url-IsValidKey azure_encodes

decode_name_alias_example :
    decode_name (b'-' ∷ b'1' ∷ write_all AzureName.put_byte (key_string db_url)) ≡ ok db_url
decode_name_alias_example = decode_name_alias db_url db_url-IsValidKey

encode_name_alphabet_example : InClass lower_digit_dash azure_name × (length azure_name ≤ 127)
encode_name_alphabet_example =
    encode_name_alphabet db_url azure_name db_url-IsValidKey azure_encodes

encode_name-injective_example : db_url ≡ db_url
encode_name-injective_example =
    encode_name-injective db_url db_url azure_name azure_name db_url-IsValidKey db_url-IsValidKey
      azure_encodes azure_encodes refl

length-key_string_example : length (key_string db_url) ≤ 640
length-key_string_example = length-key_string db_url db_url-IsValidKey

gcp_encodes : encode_id db_url ≡ ok gcp_id
unfolding encode_id write_all GcpName.put_byte key_string key_is_zero namespace_string join
    separated bytes_eq
gcp_encodes = refl

decode_id-encode_id_example : decode_id gcp_id ≡ ok db_url
decode_id-encode_id_example = decode_id-encode_id db_url gcp_id db_url-IsValidKey gcp_encodes

encode_id-injective_example : db_url ≡ db_url
encode_id-injective_example =
    encode_id-injective db_url db_url gcp_id db_url-IsValidKey db_url-IsValidKey gcp_encodes
      gcp_encodes

encode_id_alphabet_example : InClass id_class gcp_id × (length gcp_id ≤ 255)
encode_id_alphabet_example = encode_id_alphabet db_url gcp_id db_url-IsValidKey gcp_encodes
