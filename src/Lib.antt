-- ===== src/Lib.antt =====
-- vaultlet, a gRPC control plane in front of a secrets backend (Go).
--
-- The command line client dials the server with the user's token. An interceptor proves the user by
-- it, and a handler parses the key or namespace and calls the service. The service checks the policy
-- for the principal of the context, calls the backend, writes one audit line, and filters what List
-- and Watch return. A backend maps a key to a name of its store and back; Watch is List, polled and
-- compared. Each part is a module here:
--
--   Errors          error values, their sentinels and errors.Is
--   Strings, Regex  what the program uses of Go's packages strings and regexp
--   Domain          internal/domain: Key (key.go), Secret (secret.go), Event (event.go)
--   Ports           internal/ports/secretstore.go, and what is read of a context
--   App.Policy      internal/app/policy.go
--   App.Service     internal/app/service.go, audit.go and principal.go
--   Integers        the signed integers: time.Duration and int32
--   Config          internal/config/config.go: Load and Validate; the rules that run collects
--   Adapters.Grpc   internal/adapters/driving/grpcserver: Auth (auth.go), Handlers
--                   (handlers.go), Logging (logging.go)
--   Adapters.Backend
--                   what the three stores share: calls of a client, the order of a listing
--   Adapters.Azure.Store, Adapters.Azure.Config
--                   internal/adapters/driven/azure/azure.go and config.go
--   Adapters.Stores the three backends as SecretStores, with their Watch
--   Adapters.Gcp.Store
--                   internal/adapters/driven/gcp/gcp.go and config.go
--   Adapters.Bitwarden.Store
--                   internal/adapters/driven/bitwarden/bitwarden.go and config.go
--   Adapters.Cli    internal/adapters/driving/cli: Options (root.go, client.go, render.go), Token
--                   (token.go), Render (render.go, watch.go), Commands (the five commands, and the
--                   exit code of cmd/vaultlet-cli/main.go), Root (root.go)
--   Adapters.*.Open New of the three backends
--   Adapters.Stores.Backends
--                   the backend that the server is opened on
--   Main            cmd/vaultlet/main.go and grpcserver/server.go: run, newStore, New, Listen; below it
--                   the whole path of an RPC
--   Ports.Laws      what a SecretStore promises of a write; the service and, where their vaults keep
--                   what is written, the backends meet it
--   Base64          what the program uses of Go's encoding/base64
--   Adapters.Azure.Name, Adapters.Gcp.Name
--                   internal/adapters/driven/azure/name.go and gcp/name.go
--   Adapters.Poll   internal/adapters/driven/watch/poll.go
--
-- The definitions have the names of the functions in lower case with underscores. A string is the
-- list of its bytes, a time a number of nanoseconds, a map an association list, and an error a value
-- that keeps the wrapped sentinels and the format of its text without the arguments. State is passed
-- explicitly: the service over the state of any SecretStore, the backends over the state of the client
-- that they are given.
--
-- The two regular expressions are values of a type of patterns with an executable matcher, which is
-- proved to decide their language. Loops are recursions on their lists. The purge loop of the Azure
-- store counts down its thirty attempts as the source does. The paging loop of the command list has
-- fuel, one for each page; with as much fuel as the server has pages it ends. The goroutines are
-- functions of what the environment does: a list of the ticks, answers and cancellation that the
-- poller meets, and the number of sends that a subscriber takes before the end of the context is
-- selected.
--
-- Parameters stand for what the repository does not hold: the clients of the three vaults with
-- their making, and the grpc client, as records of calls over their state; the files, the standard
-- streams, the network and TLS; koanf; bcrypt; the encoding of JSON, the alignment of a table and the
-- printing of a time; the parsing of a URL; the status code that grpc finds in an error.
--
-- Not modelled: the reading of arguments, the parsing of the configuration files, signals other than
-- as the end of a context, and the texts of errors and logs. The AWS adapter is unfinished in the
-- source and does not compile.
pub mod Prelude
pub mod Strings
pub mod Regex
pub mod Base64
pub mod Integers
pub mod Errors
pub mod Config
pub mod Domain
pub mod Ports
pub mod App
pub mod Adapters
pub mod Main
mod Tests
