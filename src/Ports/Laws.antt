-- ===== src/Ports/Laws.antt =====
-- What a SecretStore promises of a write: the law that each backend meets, and that the service keeps.
use vaultlet.Prelude.{none, Bytes, ◌≡◌}
use vaultlet.Errors.{ok}
use vaultlet.Domain.Key.{Key}
use vaultlet.Domain.Key.Valid.{IsValidKey}
use vaultlet.Domain.Secret.{SecretMeta}
use vaultlet.Ports.{Context, SecretStore}

-- The value and the metadata of a write that succeeded are what a read returns once the store has
-- settled, in any context that lives and that may read the key, where the write `Fits`.
pub record KeepsSecrets {W : Type 0} (store : SecretStore W) (settle : W → W)
    (Fits : Key → Bytes → W → Type 0) (MayRead : Context → Key → Type 0) : Type 0 where
  pub keeps :
      (ctx ctx' : Context) (k : Key) (value : Bytes) (w u : W) (m : SecretMeta)
      → Fits k value w
      → IsValidKey k
      → ctx'.done ≡ none
      → MayRead ctx' k
      → store.put ctx k value w ≡ (ok m, u)
      → (store.get ctx' k (settle u)).0 ≡ ok (record { meta = m; value = value })

abbrev pub Anyone : Context → Key → Type 0
Anyone ctx k = Unit
