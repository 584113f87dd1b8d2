-- ===== src/Adapters/Stores/Backends/ReadOnly.antt =====
-- A write through the handlers where the backend is configured without writes.
use Prim.Native.String.{String}
use vaultlet.Prelude.{true, false, none, some, List, [], ◌∷◌, ◌++◌, Bytes, ◌≡◌, refl, ℕ}
use vaultlet.Errors.{Error, wrap, ok, err, is, same, number, read_only, permission_denied, sentinel}
use vaultlet.Domain.Key.{Key, key_string, parse_key}
use vaultlet.Ports.{Context}
use vaultlet.App.Policy.{Policy, Action, put, delete, allows}
use vaultlet.App.Service.{Service, State, as_store, guarded, audit, AuditLine, key, allow, error}
use vaultlet.App.Service
use vaultlet.Adapters.Poll.{Wait}
use vaultlet.Adapters.Grpc.Handlers.Refusals.{Request, put_request, delete_request, Fails}
use vaultlet.Adapters.Grpc.Handlers.{
  put_status, delete_status, put_secret, delete_secret, read_only_status,
}
use vaultlet.Adapters.Azure.Store as Azure
use vaultlet.Adapters.Gcp.Store as Gcp
use vaultlet.Adapters.Bitwarden.Store as Bitwarden
use vaultlet.Adapters.Stores.{azure_store, gcp_store, bitwarden_store}
use vaultlet.Adapters.Stores.Backends.{
  Backend, azure, gcp, bitwarden, backend_store, accepts_writes,
}

-- An error that a write fails with because the backend is read-only.
record IsReadOnly (e : Error) : Type 0 where
  wraps : is e read_only ≡ true
  other : is e permission_denied ≡ false

from_sentinel : (text : String) → IsReadOnly (wrap text (sentinel read_only))
unfolding is same number
from_sentinel text = record { wraps = refl; other = refl }

abbrev pub live_as : Bytes → Context
live_as who = record { principal = some who; done = none }

-- The audit line of an admitted call that failed.
abbrev pub failed_line : Action → Bytes → Key → AuditLine
failed_line action who k = record {
  principal = who;
  action = action;
  field = key;
  target = key_string k;
  decision = allow;
  outcome = error;
}

abbrev pub with_line : {W : Type 0} → AuditLine → State W → State W
with_line line st = record st { log = st.log ++ line ∷ [] }

-- The backend refuses the write without a call of its client.
put_refused :
    {W : Type 0} (b : Backend W) (waits : List Wait) (room : ℕ) (who : Bytes) (k : Key)
    (value : Bytes) (w : W)
    → accepts_writes b ≡ false
    → (e : Error) × ((backend_store waits room b).put (live_as who) k value w ≡ (err e, w))
      × IsReadOnly e
unfolding backend_store accepts_writes azure_store gcp_store bitwarden_store Azure.put_secret
    Gcp.put_secret Bitwarden.put_secret
put_refused (azure wait s) waits room who k value w h =
    (wrap "azure: %w" (sentinel read_only), rw h refl, from_sentinel "azure: %w")
put_refused (gcp s) waits room who k value w h =
    (wrap "gcp: %w" (sentinel read_only), rw h refl, from_sentinel "gcp: %w")
put_refused (bitwarden s) waits room who k value w h =
    (wrap "bitwarden: %w" (sentinel read_only), rw h refl, from_sentinel "bitwarden: %w")

delete_refused :
    {W : Type 0} (b : Backend W) (waits : List Wait) (room : ℕ) (who : Bytes) (k : Key) (w : W)
    → accepts_writes b ≡ false
    → (e : Error) × ((backend_store waits room b).delete (live_as who) k w ≡ (err e, w))
      × IsReadOnly e
unfolding backend_store accepts_writes azure_store gcp_store bitwarden_store Azure.delete_secret
    Gcp.delete_secret Bitwarden.delete_secret
delete_refused (azure wait s) waits room who k w h =
    (wrap "azure: %w" (sentinel read_only), rw h refl, from_sentinel "azure: %w")
delete_refused (gcp s) waits room who k w h =
    (wrap "gcp: %w" (sentinel read_only), rw h refl, from_sentinel "gcp: %w")
delete_refused (bitwarden s) waits room who k w h =
    (wrap "bitwarden: %w" (sentinel read_only), rw h refl, from_sentinel "bitwarden: %w")

-- A write, and the action that it needs.
pub data Write : Type 0 where
  put_write : Bytes → Write
  delete_write : Write

abbrev pub request_of : Write → Request
request_of (put_write value) = put_request value
request_of delete_write = delete_request

abbrev pub action_of : Write → Action
action_of (put_write value) = put
action_of delete_write = delete

-- Over the service on a backend that does not accept writes, a put or a delete without an expected
-- version, of a key that parses, by a principal that the policy allows that one action there, in a
-- context that is not done, is answered with FailedPrecondition; the backend's state is as before,
-- and the log gets a line of an admitted call that failed.
pub handlers_read_only :
    {W : Type 0} (b : Backend W) (waits : List Wait) (room : ℕ) (policy : Policy) (write : Write)
    (who text : Bytes) (k : Key) (st : State W)
    → accepts_writes b ≡ false
    → parse_key text ≡ ok k
    → allows policy who (action_of write) k.ns ≡ true
    → Fails
        (as_store room (record { store = backend_store waits room b; policy = policy }))
        (request_of write)
        text
        (live_as who)
        read_only_status
        st
        (with_line (failed_line (action_of write) who k) st)
unfolding Fails put_secret delete_secret as_store Service.put_secret Service.delete_secret guarded
    audit put_status delete_status
handlers_read_only b waits room policy (put_write value) who text k st h parsed may =
    let (e, refused, reason) = put_refused b waits room who k value st.world h in
    rw (parsed, put_secret)
      (rw (refused, put_secret) (rw may (rw (reason.wraps, reason.other) refl)))
handlers_read_only b waits room policy delete_write who text k st h parsed may =
    let (e, refused, reason) = delete_refused b waits room who k st.world h in
    rw (parsed, delete_secret)
      (rw (refused, delete_secret) (rw may (rw (reason.wraps, reason.other) refl)))
