-- ===== src/Adapters/Cli/Render.antt =====
-- internal/adapters/driving/cli/render.go and the printing of watch.go. The encoding of JSON, the
-- printing of a time and the alignment of text/tabwriter are parameters, `Format`.
use vaultlet.Prelude.{
  ◌-◌, Option, none, some, [], ◌∷◌, ◌++◌, Bytes, bytes_eq, codes, length, replicate, if◌then◌else◌,
}
use vaultlet.Domain.Secret.{Time}
use vaultlet.Strings.{cut_prefix}
use vaultlet.Adapters.Backend.{Exec}
use vaultlet.Adapters.Grpc.Handlers.{
  WireMeta, WireType, WireEvent, unspecified, type_added, type_updated, type_deleted, type_in_sync,
  numbered,
}
use vaultlet.Adapters.Cli.Options.{Host}

pub record MetaJson : Type 0 where
  pub key : Bytes
  pub version : Bytes
  -- left out if it is empty
  pub created_at : Bytes

-- The values that are printed as JSON.
pub data Json : Type 0 where
  of_meta : MetaJson → Json
  of_secret : MetaJson → Bytes → Json
  of_event : Bytes → Option MetaJson → Json

pub record Format : Type 0 where
  pub json : Json → Bytes
  pub time : Time → Bytes
  pub tabulate : Bytes → Bytes

abbrev pub newline : Bytes
newline = 10 ∷ []

-- strings.TrimPrefix
abbrev pub trim_prefix : Bytes → Bytes → Bytes
trim_prefix s prefix = elim (cut_prefix s prefix) [ some rest ↦ rest | none ↦ s ]

-- SecretEventType_name
abbrev pub type_name : WireType → Option Bytes
type_name unspecified = some (codes "SECRET_EVENT_TYPE_UNSPECIFIED")
type_name type_added = some (codes "SECRET_EVENT_TYPE_ADDED")
type_name type_updated = some (codes "SECRET_EVENT_TYPE_UPDATED")
type_name type_deleted = some (codes "SECRET_EVENT_TYPE_DELETED")
type_name type_in_sync = some (codes "SECRET_EVENT_TYPE_IN_SYNC")
type_name (numbered n) = none

abbrev pub numeral : WireType → Bytes
numeral (numbered n) = n
numeral _ = []

unfoldable pub event_kind : WireType → Bytes
unfolding cut_prefix
event_kind t = elim (type_name t) [
  | none ↦ codes "TYPE_" ++ numeral t
  | some name ↦ trim_prefix name (codes "SECRET_EVENT_TYPE_")
]

-- %-8s
unfoldable pub pad : Bytes → Bytes
pad s = s ++ replicate (8 - length s) b' '

-- GetType and GetMeta of an event that may be nil.
abbrev pub type_of : Option WireEvent → WireType
type_of none = unspecified
type_of (some ev) = ev.type

abbrev pub event_meta : Option WireEvent → Option WireMeta
event_meta none = none
event_meta (some ev) = ev.meta

module _ (f : Format) where
  abbrev pub time_text : Option Time → Bytes
  time_text none = []
  time_text (some t) = f.time t

  -- toMetaJSON
  unfoldable pub to_meta_json : Option WireMeta → MetaJson
  to_meta_json none = record { key = []; version = []; created_at = [] }
  to_meta_json (some m) = record {
    key = m.key;
    version = m.version;
    created_at = time_text m.created_at;
  }

  -- optionalMeta
  unfoldable pub optional_meta : Option WireMeta → Option MetaJson
  unfolding to_meta_json
  optional_meta none = none
  optional_meta (some m) = some (to_meta_json (some m))

  -- The line of an event in text.
  unfoldable pub event_line : Bytes → Option WireMeta → Bytes
  unfolding pad to_meta_json
  event_line kind none = pad kind ++ newline
  event_line kind (some meta) =
      let m = to_meta_json (some meta) in
      pad kind ++ (codes " " ++ (m.key ++ (codes " " ++ (m.version ++ newline))))

module _ {W : Type 0} (host : Host W) (f : Format) where
  -- writeJSON
  unfoldable pub write_json : Json → Exec W (Unit {0})
  write_json v = host.write (f.json v ++ newline)

  unfoldable pub print_event : Bytes → Option WireEvent → Exec W (Unit {0})
  unfolding event_kind optional_meta write_json event_line
  print_event output ev =
      let kind = event_kind (type_of ev) in
      if bytes_eq output (codes "json")
      then write_json (of_event kind (optional_meta f (event_meta ev)))
      else host.write (event_line f kind (event_meta ev))
