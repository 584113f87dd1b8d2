-- ===== src/Adapters/Cli/Commands/ExitCode.antt =====
-- What a failed call means for the exit code.
use vaultlet.Prelude.{Option, Bytes, ◌≡◌, refl}
use vaultlet.Errors.{ok, is, same, number}
use vaultlet.Domain.Key.{Key, key_string, parse_key}
use vaultlet.Adapters.Grpc.Auth.{Status}
use vaultlet.Adapters.Cli.Options.{
  Options, Host, Client, failed, of_status, call_timeout, rpc_error, connect, with_client,
}
use vaultlet.Adapters.Cli.Render.{Format}
use vaultlet.Adapters.Cli.Commands.{delete_command, exit_code}

-- A delete whose call fails with a status ends with the exit code 1, whatever the code of the status:
-- a call that an interrupt has canceled does so too, since rpcError does not wrap the error that run
-- tests for context.Canceled.
pub exit_code-delete_command :
    {W : Type 0} (host : Host W) (f : Format) (o : Options) (client : Client W)
    (expected_version : Option Bytes) (arg : Bytes) (k : Key) (s : Status) (w v u : W)
    → parse_key arg ≡ ok k
    → connect host o w ≡ (ok client, v)
    → client.delete_secret
        (call_timeout o.timeout)
        (record { key = key_string k; expected_version = expected_version })
        v
      ≡ (failed (of_status s), u)
    → exit_code (delete_command host f o expected_version arg w).0 ≡ 1
unfolding delete_command with_client exit_code rpc_error is same number
exit_code-delete_command host f o client expected_version arg k s w v u parsed connected fails =
    rw (parsed, delete_command) (rw (connected, with_client) (rw (fails, with_client) refl))
