-- ===== src/Tests/Cli.antt =====
-- The commands, at concrete inputs.
use vaultlet.Prelude.{
  ℕ, true, false, Option, none, some, [], ◌∷◌, ◌++◌, Bytes, bytes_eq, bytes_eq_refl, codes, ◌≡◌,
  refl, arith, ap, ◌⊎◌, if◌then◌else◌,
}
use vaultlet.Integers.{pos}
use vaultlet.Errors.{ok, err, plain}
use vaultlet.Base64.{encode, decode, digit}
use vaultlet.Base64.RoundTrip.{decode-encode}
use vaultlet.Domain.Key.{key_string, contains, same_segments}
use vaultlet.App.Policy.{allows, allows_by, rules_of, grants, action_eq}
use vaultlet.App.Service.{State, as_store}
use vaultlet.Adapters.Backend.{◌>>◌}
use vaultlet.Adapters.Grpc.Auth.{
  Status, reply, authenticate, check_token, check_credentials, check_password, users_by_name,
  with_auth, unauthenticated_error,
}
use vaultlet.Adapters.Grpc.Auth
use vaultlet.Adapters.Grpc.Auth.Users.{Registered}
use vaultlet.Adapters.Grpc.Handlers
use vaultlet.Adapters.Grpc.Handlers.{WireMeta, WireSecret, wire_secret, ListRequest, ListResponse}
use vaultlet.Adapters.Cli.Token.{credentials, request_metadata, authenticate-request_metadata}
use vaultlet.Adapters.Cli.Options.{
  Options, Host, Client, Target, Rpc, RpcError, rpc_error, answered, failed, of_status, connect,
  closing, transport_credentials, token_option, call_timeout,
}
use vaultlet.Adapters.Cli.Options.Safety.{IsSafe, connect-IsSafe}
use vaultlet.Adapters.Cli.Render.{Format, newline}
use vaultlet.Adapters.Cli.Commands.{list_loop, get_command, delete_command, exit_code}
use vaultlet.Adapters.Cli.Commands.Paging.{Pages, last, more, all_rows, list_loop-Pages}
use vaultlet.Adapters.Cli.Commands.Served.{Carries, of_answer, incoming, get_command_served}
use vaultlet.Adapters.Cli.Commands.ExitCode.{exit_code-delete_command}
use vaultlet.Tests.Samples.{db_url, parse_db_url, secret_db_url}
use vaultlet.Tests.Service.{service, idle}
use vaultlet.Tests.Rpc.{users, alice_user}

abbrev alice_pw : Bytes
alice_pw = credentials (codes "alice") (codes "pw")

decode-encode_example : decode (encode alice_pw) ≡ some alice_pw
decode-encode_example = decode-encode alice_pw (omega arith)

alice-Registered : Registered users (codes "alice") (codes "pw")
alice-Registered = record {
  front = [];
  user = alice_user;
  back = [];
  stands = refl;
  named = refl;
  last = tt;
  hashed = refl;
}

authenticate-request_metadata_example :
    authenticate bytes_eq users (some (request_metadata (encode alice_pw) ∷ []))
    ≡ reply (codes "alice")
authenticate-request_metadata_example =
    authenticate-request_metadata bytes_eq users (codes "alice") (codes "pw") (codes "pw") []
      (omega arith) (omega arith) alice-Registered (bytes_eq_refl (codes "pw"))

-- The server of the other tests, and what was written to the standard output.
record World : Type 0 where
  server : State ℕ
  output : Bytes

abbrev page_one : ListResponse
page_one = record {
  secrets = record { key = codes "payments/A"; version = codes "1"; created_at = some 5 } ∷ [];
  next_page_token = codes "2";
}

abbrev page_two : ListResponse
page_two = record {
  secrets = record { key = codes "payments/B"; version = codes "1"; created_at = none } ∷ [];
  next_page_token = [];
}

abbrev interrupted : Status
interrupted = record { code = Auth.canceled; message = "context canceled" }

-- A connection to the server. Two pages are listed, and a delete is interrupted.
abbrev over : Option Bytes → Client World
over authorization = record {
  get_secret = λ deadline text w.
      let (answer, st) =
        with_auth bytes_eq users (Handlers.get_secret (as_store 3 service) text)
          (incoming authorization) w.server in
      (of_answer answer, record w { server = st });
  put_secret = λ deadline req w. (failed (of_status unauthenticated_error), w);
  list_secrets =
      λ deadline req w. (answered (if bytes_eq req.page_token [] then page_one else page_two), w);
  delete_secret = λ deadline req w. (failed (of_status interrupted), w);
  watch_secrets = λ text w. (failed (of_status unauthenticated_error), w);
  close = λ w. w;
}

abbrev host : Host World
host = record {
  read_file = λ name w. (err (plain "no such file"), w);
  write_file = λ name text w. (err (plain "read-only"), w);
  read_stdin = λ w. (ok [], w);
  write = λ text w. (ok tt, record w { output = w.output ++ text });
  new_client = λ t w. (ok (over t.authorization), w);
  has_certs = λ pem. true;
}

abbrev format : Format
format = record { json = λ j. []; time = λ t. codes "t"; tabulate = λ t. t }

abbrev flags : Options
flags = record {
  server = codes "localhost:50051";
  token = encode alice_pw;
  timeout = pos 10;
  insecure = false;
  ca_file = [];
  output = codes "text";
}

abbrev start : World
start = record { server = idle; output = [] }

connect_runs :
    connect host flags start ≡ (ok (over (some (request_metadata (encode alice_pw)))), start)
unfolding connect transport_credentials token_option bytes_eq encode digit
connect_runs = refl

connect-IsSafe_example :
    (t : Target) × (u : World) × (host.new_client t u
      ≡ (ok (over (some (request_metadata (encode alice_pw)))), start))
    × IsSafe host flags t
connect-IsSafe_example =
    connect-IsSafe host flags start start (over (some (request_metadata (encode alice_pw))))
      connect_runs

two-Pages :
    Pages host format flags
      (over none)
      []
      (pos 50)
      []
      start
      (page_one.secrets ∷ page_two.secrets ∷ [])
      start
two-Pages =
    more [] start start start page_one (page_two.secrets ∷ []) (unfold bytes_eq in refl) (cc)
      (last (codes "2") start start page_two (unfold bytes_eq in refl) refl)

list_loop-Pages_example :
    list_loop host format flags 2 (over none) [] (pos 50) [] [] start
    ≡ (ok (some (all_rows host format flags (page_one.secrets ∷ page_two.secrets ∷ []))), start)
list_loop-Pages_example =
    list_loop-Pages host format flags 2 (over none) [] (pos 50) [] [] start start
      (page_one.secrets ∷ page_two.secrets ∷ []) (unfold bytes_eq in refl) two-Pages (omega arith)

exit_code-delete_command_example :
    exit_code (delete_command host format flags none (codes "payments/prod/DB_URL") start).0 ≡ 1
exit_code-delete_command_example =
    exit_code-delete_command host format flags (over (some (request_metadata (encode alice_pw))))
      none (codes "payments/prod/DB_URL") db_url interrupted start start start parse_db_url
      connect_runs refl

over-Carries :
    Carries bytes_eq users service 3
      (λ (w : World). w.server)
      (over (some (request_metadata flags.token)))
      (some (request_metadata flags.token))
over-Carries = record { carries_get = λ deadline text w w' secret h. ap (λ x. x.0) h }

abbrev served : World
served =
    ((over (some (request_metadata flags.token))).get_secret (call_timeout flags.timeout)
      (key_string db_url) start).1

abbrev get_answer : Rpc (Option WireSecret)
get_answer =
    ((over (some (request_metadata flags.token))).get_secret (call_timeout flags.timeout)
      (key_string db_url) start).0

get_runs :
    (over (some (request_metadata flags.token))).get_secret
      (call_timeout flags.timeout)
      (key_string db_url)
      start
    ≡ (get_answer, served)
get_runs = refl

get_command_served_example :
    ((get_answer ≡ answered (some (wire_secret secret_db_url)))
      × (get_command host format flags
            (record { out_file = []; no_trail = false })
            (codes "payments/prod/DB_URL")
            start
          ≡ closing
              (over (some (request_metadata flags.token)))
              (host.write (codes "x") >> host.write newline)
              served))
    ⊎ ((e : RpcError) × (get_answer ≡ failed e)
        × (get_command host format flags
              (record { out_file = []; no_trail = false })
              (codes "payments/prod/DB_URL")
              start
            ≡ (err (rpc_error e), served)))
get_command_served_example =
    get_command_served bytes_eq users service 3 (λ (w : World). w.server) host format flags
      (over (some (request_metadata flags.token))) (codes "alice") (codes "pw") (codes "pw")
      (codes "payments/prod/DB_URL") db_url secret_db_url start start served 1 get_answer refl refl
      refl refl (omega arith) (omega arith) alice-Registered (bytes_eq_refl (codes "pw")) refl
      over-Carries parse_db_url
      (unfold allows rules_of allows_by grants action_eq contains same_segments bytes_eq in refl)
      refl get_runs
