-- ===== src/Adapters/Stores/Ended.antt =====
-- The Bitwarden store in a context that has ended.
use vaultlet.Prelude.{ℕ, some, List, Bytes, ◌≡◌, refl}
use vaultlet.Errors.{Error, err}
use vaultlet.Domain.Key.{Key, Namespace}
use vaultlet.Ports.{Context}
use vaultlet.Adapters.Poll.{Wait, poll}
use vaultlet.Adapters.Bitwarden.Store as Bitwarden
use vaultlet.Adapters.Stores.{bitwarden_store, watch_list}

-- Where the context has ended, each of the five methods of the Bitwarden store returns the context's
-- error and makes no call of the client, so that its state is as before.
pub bitwarden_store_ended :
    {W : Type 0} (s : Bitwarden.Store W) (waits : List Wait) (room : ℕ) (ctx : Context) (e : Error)
    (k : Key) (value : Bytes) (ns : Namespace) (w : W)
    → ctx.done ≡ some e
    → ((bitwarden_store waits room s).get ctx k w ≡ (err e, w))
      × ((bitwarden_store waits room s).put ctx k value w ≡ (err e, w))
      × ((bitwarden_store waits room s).list ctx ns w ≡ (err e, w))
      × ((bitwarden_store waits room s).delete ctx k w ≡ (err e, w))
      × ((bitwarden_store waits room s).watch ctx ns w ≡ (err e, w))
unfolding bitwarden_store watch_list poll Bitwarden.get_secret Bitwarden.put_secret
    Bitwarden.list_secrets Bitwarden.delete_secret
bitwarden_store_ended s waits room ctx e k value ns w h =
    (rw h refl, rw h refl, rw h refl, rw h refl, rw h refl)
