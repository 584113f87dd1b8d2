-- ===== src/Adapters/Cli/Root.antt =====
-- internal/adapters/driving/cli/root.go: the flags' defaults and the command that runs, behind
-- cobra's reading of the arguments.
use vaultlet.Prelude.{ℕ, false, Option, some, [], ◌++◌, Bytes, codes}
use vaultlet.Errors.{ok}
use vaultlet.Adapters.Backend.{Exec, ◌>>=◌, lift}
use vaultlet.Integers.{ℤ, pos}
use vaultlet.Adapters.Cli.Options.{Options, Host}
use vaultlet.Adapters.Cli.Render.{Format, newline}
use vaultlet.Adapters.Cli.Commands.{
  GetFlags, PutFlags, get_command, put_command, list_command, delete_command, watch_command,
}

-- The persistent flags where none is given; `token` is the variable VAULTLET_TOKEN.
abbrev pub default_options : Bytes → Options
default_options token = record {
  server = codes "localhost:50051";
  token = token;
  timeout = pos 10000000000;
  insecure = false;
  ca_file = [];
  output = codes "text";
}

-- The build: version, commit and date.
pub record Build : Type 0 where
  pub version : Bytes
  pub commit : Bytes
  pub date : Bytes

-- A subcommand with its flags and its argument.
pub data Command : Type 0 where
  get : GetFlags → Bytes → Command
  put : PutFlags → Bytes → Command
  list : ℤ → Bytes → Command
  delete : Option Bytes → Bytes → Command
  watch : Bytes → Command
  version : Command

abbrev done : {W : Type 0} → Exec W (Unit {0}) → Exec W (Option (Unit {0}))
done run = run >>= λ u. lift (ok (some u))

module _ {W : Type 0} (host : Host W) (f : Format) (o : Options) where
  unfoldable pub version_command : Build → Exec W (Unit {0})
  version_command b = host.write (
      codes "vaultlet "
      ++ (b.version
          ++ (codes " (commit "
              ++ (b.commit ++ (codes ", built " ++ (b.date ++ (codes ")" ++ newline)))))))

  -- Execute. The fuel is that of the loop of `list`; `none` means that it ran out.
  unfoldable pub execute : ℕ → Build → Command → Exec W (Option (Unit {0}))
  unfolding get_command put_command list_command delete_command watch_command version_command
  execute fuel b (get flags arg) = done (get_command host f o flags arg)
  execute fuel b (put flags arg) = done (put_command host f o flags arg)
  execute fuel b (list page_size arg) = list_command host f o fuel page_size arg
  execute fuel b (delete expected_version arg) = done (delete_command host f o expected_version arg)
  execute fuel b (watch arg) = done (watch_command host f o arg)
  execute fuel b version = done (version_command b)
