-- ===== src/Adapters/Grpc/Handlers.antt =====
-- internal/adapters/driving/grpcserver/handlers.go: the five methods over any SecretStore.
pub mod Refusals
pub mod Sending
use Prim.Native.String.{String}
use vaultlet.Prelude.{
  ℕ, zero, suc, Bool, true, false, Option, none, some, List, [], ◌∷◌, ◌++◌, Bytes, bytes_eq,
  if◌then◌else◌,
}
use vaultlet.Integers.{ℤ}
use vaultlet.Errors.{
  Error, Result, ok, err, is, permission_denied, not_found, read_only, empty_value,
}
use vaultlet.Domain.Key.{Key, Namespace, key_string, parse_key, parse_namespace, zero_namespace}
use vaultlet.Domain.Secret.{Secret, SecretMeta, Time}
use vaultlet.Domain.Event.{
  EventType, SecretEvent, added, updated, deleted, in_sync, other, is_in_sync,
}
use vaultlet.Ports.{Context, SecretStore}
use vaultlet.Adapters.Grpc.Auth.{
  Status, Answer, reply, fail, invalid_argument, unimplemented, failed_precondition, internal,
}
use vaultlet.Adapters.Grpc.Auth

-- The messages of the wire.
pub record WireMeta : Type 0 where
  pub key : Bytes
  pub version : Bytes
  pub created_at : Option Time

pub record WireSecret : Type 0 where
  pub value : Bytes
  pub meta : Option WireMeta

-- The named types of an event, and any other number, given by its decimal numeral.
pub data WireType : Type 0 where
  unspecified type_added type_updated type_deleted type_in_sync : WireType
  numbered : Bytes → WireType

pub record WireEvent : Type 0 where
  pub type : WireType
  pub meta : Option WireMeta

pub record PutRequest : Type 0 where
  pub key : Bytes
  pub value : Bytes
  pub expected_version : Option Bytes

pub record DeleteRequest : Type 0 where
  pub key : Bytes
  pub expected_version : Option Bytes

pub record ListRequest : Type 0 where
  pub namespace : Bytes
  pub page_size : ℤ
  pub page_token : Bytes

pub record ListResponse : Type 0 where
  pub secrets : List WireMeta
  pub next_page_token : Bytes

unfoldable pub wire_meta : SecretMeta → WireMeta
wire_meta meta = record {
  key = key_string meta.key;
  version = meta.version.id;
  created_at = some meta.created_at;
}

abbrev pub wire_metas : List SecretMeta → List WireMeta
wire_metas [] = []
wire_metas (meta ∷ metas) = wire_meta meta ∷ wire_metas metas

abbrev pub list_response : List SecretMeta → ListResponse
list_response metas = record { secrets = wire_metas metas; next_page_token = [] }

unfoldable pub map_event : EventType → WireType
map_event added = type_added
map_event updated = type_updated
map_event deleted = type_deleted
map_event in_sync = type_in_sync
map_event (other t) = unspecified

unfoldable pub wire_event : SecretEvent → WireEvent
unfolding wire_meta map_event
wire_event ev = record {
  type = map_event ev.type;
  meta = if is_in_sync ev.type then none else some (wire_meta ev.meta);
}

-- status.Error(codes.InvalidArgument, err.Error())
abbrev pub invalid : Status
invalid = record { code = invalid_argument; message = "%s" }

abbrev pub denied_status : Status
denied_status = record { code = Auth.permission_denied; message = "permission denied" }

abbrev pub not_found_status : Status
not_found_status = record { code = Auth.not_found; message = "no secret at %s" }

abbrev pub read_only_status : Status
read_only_status = record { code = failed_precondition; message = "backend is read-only" }

abbrev pub version_status : Status
version_status = record { code = unimplemented; message = "expected_version is not supported" }

abbrev pub internal_status : Status
internal_status = record { code = internal; message = "internal error" }

-- The status that each method gives an error of the store.
unfoldable pub get_status : Error → Status
get_status e =
    if is e permission_denied
    then denied_status
    else if is e not_found
    then not_found_status
    else internal_status

unfoldable pub put_status : Error → Status
put_status e =
    if is e permission_denied
    then denied_status
    else if is e read_only
    then read_only_status
    else if is e empty_value
    then invalid
    else internal_status

unfoldable pub list_status : Error → Status
list_status e = if is e permission_denied then denied_status else internal_status

unfoldable pub delete_status : Error → Status
delete_status e =
    if is e permission_denied
    then denied_status
    else if is e read_only
    then read_only_status
    else if is e not_found
    then not_found_status
    else internal_status

abbrev pub answer {ℓ κ} :
    {A : Type ℓ} {B : Type κ} → (Error → Status) → (A → B) → Result A → Answer B
answer status f (ok a) = reply (f a)
answer status f (err e) = fail (status e)

abbrev pub wire_secret : Secret → WireSecret
wire_secret secret = record { value = secret.value; meta = some (wire_meta secret.meta) }

-- The namespace of a request; an empty one is the zero namespace.
unfoldable pub request_namespace : Bytes → Result Namespace
request_namespace text = if bytes_eq text [] then ok zero_namespace else parse_namespace text

-- What server.Send returns for the events in turn: nil, or an error with whether the context has
-- ended by then.
pub data SendResult : Type 0 where
  sent : SendResult
  broken : Bool → SendResult

-- The loop of WatchSecrets: its answer and the events that the client got. Sends that are not
-- listed succeed.
unfoldable pub send_all : List SendResult → List SecretEvent → Answer (Unit {0}) × List WireEvent
unfolding wire_event
send_all sends [] = (reply tt, [])
send_all [] (ev ∷ evs) = let (a, got) = send_all [] evs in (a, wire_event ev ∷ got)
send_all (sent ∷ sends) (ev ∷ evs) = let (a, got) = send_all sends evs in (a, wire_event ev ∷ got)
send_all (broken ended ∷ sends) (ev ∷ evs) = (if ended then reply tt else fail internal_status, [])

abbrev watch_answer :
    List SendResult → Result (List SecretEvent) → Answer (Unit {0}) × List WireEvent
watch_answer sends (ok evs) = send_all sends evs
watch_answer sends (err e) = (fail (list_status e), [])

module _ {W : Type 0} (store : SecretStore W) where
  unfoldable pub get_secret : Bytes → Context → W → Answer WireSecret × W
  unfolding get_status wire_meta
  get_secret text ctx w = elim (parse_key text) [
    | err e ↦ (fail invalid, w)
    | ok k ↦ let (r, w') = store.get ctx k w in (answer get_status wire_secret r, w')
  ]

  unfoldable pub put_secret : PutRequest → Context → W → Answer WireMeta × W
  unfolding put_status wire_meta
  put_secret req ctx w = elim (parse_key req.key) [
    | err e ↦ (fail invalid, w)
    | ok k ↦ elim req.expected_version [
      | some v ↦ (fail version_status, w)
      | none ↦ let (r, w') = store.put ctx k req.value w in (answer put_status wire_meta r, w')
    ]
  ]

  unfoldable pub list_secrets : ListRequest → Context → W → Answer ListResponse × W
  unfolding list_status wire_meta request_namespace
  list_secrets req ctx w = elim (request_namespace req.namespace) [
    | err e ↦ (fail invalid, w)
    | ok ns ↦
        let (r, w') = store.list ctx ns w in
        if bytes_eq req.page_token []
        then (answer list_status list_response r, w')
        else (fail (record { code = invalid_argument; message = "unknown page token" }), w)
  ]

  unfoldable pub delete_secret : DeleteRequest → Context → W → Answer (Unit {0}) × W
  unfolding delete_status
  delete_secret req ctx w = elim (parse_key req.key) [
    | err e ↦ (fail invalid, w)
    | ok k ↦ elim req.expected_version [
      | some v ↦ (fail version_status, w)
      | none ↦ let (r, w') = store.delete ctx k w in (answer delete_status (λ u. u) r, w')
    ]
  ]

  unfoldable pub watch_secrets :
      List SendResult → Bytes → Context → W → (Answer (Unit {0}) × List WireEvent) × W
  unfolding request_namespace send_all list_status
  watch_secrets sends text ctx w = elim (request_namespace text) [
    | err e ↦ ((fail invalid, []), w)
    | ok ns ↦ let (r, w') = store.watch ctx ns w in (watch_answer sends r, w')
  ]
