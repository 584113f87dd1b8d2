-- ===== src/Adapters/Cli/Commands.antt =====
-- internal/adapters/driving/cli/get.go, put.go, list.go, delete.go and watch.go: the commands, over
-- the one argument that each takes and its flags; and the exit code of cmd/vaultlet-cli/main.go.
pub mod Paging
pub mod Served
pub mod ExitCode
use vaultlet.Prelude.{
  ℕ, zero, suc, Bool, true, false, not, ◌&&◌, Option, none, some, List, [], ◌∷◌, ◌++◌, Bytes,
  bytes_eq, codes, if◌then◌else◌,
}
use vaultlet.Integers.{ℤ}
use vaultlet.Errors.{Error, plain, wrap, Result, ok, err, is}
use vaultlet.Integers.{ℤ}
use vaultlet.Errors
use vaultlet.Base64.{encode}
use vaultlet.Domain.Key.{Key, Namespace, key_string, namespace_string, parse_key, parse_namespace}
use vaultlet.Adapters.Backend.{Exec, ◌>>=◌, ◌>>◌, lift, refuse_if, wrapped}
use vaultlet.Adapters.Grpc.Auth.{Status, canceled}
use vaultlet.Adapters.Grpc.Auth
use vaultlet.Adapters.Grpc.Handlers.{WireSecret, WireMeta, WireEvent, ListResponse}
use vaultlet.Adapters.Cli.Options.{
  Options, Host, Client, RpcError, of_status, other_error, StreamEnd, eof, broken, EventStream, Rpc,
  answered, failed, validate_output, call_timeout, rpc_error, call, with_client,
}
use vaultlet.Adapters.Cli.Render.{
  Format, MetaJson, of_meta, of_secret, newline, to_meta_json, write_json, print_event,
}

pub record GetFlags : Type 0 where
  pub out_file : Bytes
  pub no_trail : Bool

-- A flag of put or delete that Changed reports has a value.
pub record PutFlags : Type 0 where
  pub value : Option Bytes
  pub from_file : Bytes
  pub expected_version : Option Bytes

-- GetValue and GetMeta of a secret that may be nil.
abbrev pub value_of : Option WireSecret → Bytes
value_of none = []
value_of (some secret) = secret.value

abbrev pub secret_meta : Option WireSecret → Option WireMeta
secret_meta none = none
secret_meta (some secret) = secret.meta

-- status.Code(err) == codes.Canceled
abbrev is_canceled_code : Auth.Code → Bool
is_canceled_code canceled = true
is_canceled_code _ = false

abbrev pub is_canceled : RpcError → Bool
is_canceled (of_status s) = is_canceled_code s.code
is_canceled (other_error e) = false

-- A line of the table.
abbrev pub row : MetaJson → Bytes
row m = m.key ++ (codes "\t" ++ (m.version ++ (codes "\t" ++ (m.created_at ++ newline))))

abbrev pub header_row : Bytes
header_row = codes "KEY\tVERSION\tCREATED\n"

module _ {W : Type 0} (host : Host W) (f : Format) (o : Options) where
  -- The part of get that follows the call.
  unfoldable pub show_secret : GetFlags → Option WireSecret → Exec W (Unit {0})
  unfolding to_meta_json write_json
  show_secret flags secret =
      if not (bytes_eq flags.out_file [])
      then wrapped (wrap "write --out: %w") (host.write_file flags.out_file (value_of secret))
      else if bytes_eq o.output (codes "json")
      then write_json host f
          (of_secret (to_meta_json f (secret_meta secret)) (encode (value_of secret)))
      else do
        host.write (value_of secret)
        if flags.no_trail then lift (ok tt) else host.write newline

  unfoldable pub get_command : GetFlags → Bytes → Exec W (Unit {0})
  unfolding with_client show_secret
  get_command flags arg = do
    lift (validate_output o)
    key ← lift (parse_key arg)
    with_client host o (λ client. do
      secret ← call (client.get_secret (call_timeout o.timeout) (key_string key))
      show_secret flags secret)

  -- readValue: what is read, before the test that it is not empty.
  unfoldable pub read_raw : PutFlags → Exec W Bytes
  read_raw flags = elim flags.value [
    | some value ↦ lift (ok value)
    | none ↦
        if not (bytes_eq flags.from_file [])
        then wrapped (wrap "read --from-file: %w") (host.read_file flags.from_file)
        else wrapped (wrap "read stdin: %w") host.read_stdin
  ]

  unfoldable pub read_value : PutFlags → Exec W Bytes
  unfolding read_raw
  read_value flags = do
    raw ← read_raw flags
    refuse_if (bytes_eq raw [])
        (plain "empty value: pass --value, --from-file, or pipe the value on stdin")
    lift (ok raw)

  -- What put prints.
  unfoldable pub show_written : MetaJson → Exec W (Unit {0})
  unfolding write_json
  show_written meta =
      if bytes_eq o.output (codes "json")
      then write_json host f (of_meta meta)
      else host.write
          (codes "wrote " ++ (meta.key ++ (codes " version " ++ (meta.version ++ newline))))

  unfoldable pub put_command : PutFlags → Bytes → Exec W (Unit {0})
  unfolding read_value with_client to_meta_json show_written
  put_command flags arg = do
    key ← lift (parse_key arg)
    raw ← read_value flags
    with_client host o (λ client. do
      answer ← call (
          client.put_secret (call_timeout o.timeout) (record {
            key = key_string key;
            value = raw;
            expected_version = flags.expected_version;
          }))
      show_written (to_meta_json f answer))

  unfoldable pub delete_command : Option Bytes → Bytes → Exec W (Unit {0})
  unfolding with_client
  delete_command expected_version arg = do
    key ← lift (parse_key arg)
    with_client host o (λ client. do
      call (
          client.delete_secret (call_timeout o.timeout)
            (record { key = key_string key; expected_version = expected_version }))
      host.write (codes "deleted " ++ (key_string key ++ newline)))

  -- The loop over a page: JSON is written at once, and text is added to the table.
  unfoldable pub list_page : List WireMeta → Bytes → Exec W Bytes
  unfolding to_meta_json write_json
  list_page [] table = lift (ok table)
  list_page (meta ∷ metas) table =
      let m = to_meta_json f (some meta) in
      elim (bytes_eq o.output (codes "json")) [
        | true ↦ (write_json host f (of_meta m) >> list_page metas table)
        | false ↦ list_page metas (table ++ row m)
      ]

  -- The loop over the pages. The fuel bounds the number of pages; `none` means that it ran out.
  unfoldable pub list_loop : ℕ → Client W → Bytes → ℤ → Bytes → Bytes → Exec W (Option Bytes)
  unfolding list_page
  list_loop zero client ns page_size token table = lift (ok none)
  list_loop (suc fuel) client ns page_size token table = do
    resp ← call (
        client.list_secrets (call_timeout o.timeout)
          (record { namespace = ns; page_size = page_size; page_token = token }))
    table' ← list_page resp.secrets table
    elim (bytes_eq resp.next_page_token []) [
      | true ↦ lift (ok (some table'))
      | false ↦ list_loop fuel client ns page_size resp.next_page_token table'
    ]

  unfoldable pub flush : Option Bytes → Exec W (Option (Unit {0}))
  flush none = lift (ok none)
  flush (some table) = do
    if bytes_eq o.output (codes "text") then host.write (f.tabulate table) else lift (ok tt)
    lift (ok (some tt))

  unfoldable pub list_command : ℕ → ℤ → Bytes → Exec W (Option (Unit {0}))
  unfolding with_client list_loop flush
  list_command fuel page_size arg = do
    lift (validate_output o)
    ns ← lift (parse_namespace arg)
    with_client host o (λ client. do
      table ←
          list_loop fuel client (namespace_string ns) page_size []
            (if bytes_eq o.output (codes "text") then header_row else [])
      flush table)

  -- The loop of watch over what Recv returns.
  unfoldable pub watch_loop : List (Option WireEvent) → StreamEnd → Exec W (Unit {0})
  unfolding print_event
  watch_loop [] eof = lift (ok tt)
  watch_loop [] (broken e ended) =
      if is_canceled e && ended then lift (ok tt) else lift (err (rpc_error e))
  watch_loop (ev ∷ evs) end = (print_event host f o.output ev >> watch_loop evs end)

  unfoldable pub watch_command : Bytes → Exec W (Unit {0})
  unfolding with_client watch_loop
  watch_command arg = do
    lift (validate_output o)
    ns ← lift (parse_namespace arg)
    with_client host o (λ client. do
      stream ← call (client.watch_secrets (namespace_string ns))
      watch_loop stream.events stream.end)

-- run and main of cmd/vaultlet-cli: the exit code for what Execute returns.
unfoldable pub exit_code : Result (Unit {0}) → ℕ
exit_code (ok u) = 0
exit_code (err e) = if is e Errors.canceled then 0 else 1
