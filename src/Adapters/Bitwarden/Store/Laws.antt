-- ===== src/Adapters/Bitwarden/Store/Laws.antt =====
-- What is relied on of Bitwarden's answers behind a write.
use vaultlet.Prelude.{List, Bytes, ◌≡◌, ◌⊎◌, false, All, Any}
use vaultlet.Errors.{Error, ok, err, is, not_found}
use vaultlet.Strings.Utf8.{IsUtf8}
use vaultlet.Adapters.Bitwarden.Store.{Identifier, Stored, Store}
use vaultlet.Adapters.Bitwarden.Store.Resolving.{Matches}

-- A stored secret has a value, and the dates of an answer.
pub record Holds (value : Bytes) (res stored : Stored) : Type 0 where
  pub same_value : stored.value ≡ value
  pub same_creation : stored.creation_date ≡ res.creation_date
  pub same_revision : stored.revision_date ≡ res.revision_date

-- An entry of the listing for the secret that was written.
pub record IsEntry (id key : Bytes) (ps : List Bytes) (j : Identifier) : Type 0 where
  pub same_id : j.id ≡ id
  pub same_key : j.key ≡ key
  pub has_projects : All (λ p. Any (λ q. q ≡ p) j.project_ids) ps

-- Behind a write of the secret `id`, in whatever order the secrets are listed: it is listed, each
-- other entry of the listing was listed before, and Get reads it.
pub record Written {W : Type 0} (s : Store W) (id key value : Bytes) (ps : List Bytes)
    (res : Stored) (idents : List Identifier) (v : W) : Type 0 where
  pub after : List Identifier
  pub stored : Stored
  pub listed : (s.client.list s.org_id v).0 ≡ ok after
  pub there : Any (IsEntry id key ps) after
  pub others : All (λ j. (j.id ≡ id) ⊎ Any (λ i. i ≡ j) idents) after
  pub read : (s.client.get id (s.client.list s.org_id v).1).0 ≡ ok stored
  pub holds : Holds value res stored

-- The listed secrets of the name that are in scope have one identifier.
pub record IsUnambiguous {W : Type 0} (s : Store W) (name : Bytes) (w : W) : Type 0 where
  pub one_id :
      (idents : List Identifier)
      → (s.client.list s.org_id w).0 ≡ ok idents
      → (id : Bytes) × All (λ j. Matches s name j → j.id ≡ id) idents

-- Behaviour of Bitwarden, while nobody else writes: an error of a listing is none of the program's
-- own, and a key and a value in UTF-8, which JSON strings carry, that were created or updated behind
-- a listing are listed and read, with the dates that the write returned. `settle` is the time until
-- they are.
pub record ReadsBack {W : Type 0} (s : Store W) (settle : W → W) : Type 0 where
  pub foreign : (w : W) (e : Error) → (s.client.list s.org_id w).0 ≡ err e → is e not_found ≡ false
  pub creates :
      (key value note : Bytes) (ps : List Bytes) (w u : W) (res : Stored) (idents : List Identifier)
      → IsUtf8 key
      → IsUtf8 value
      → (s.client.list s.org_id w).0 ≡ ok idents
      → s.client.create key value note s.org_id ps (s.client.list s.org_id w).1 ≡ (ok res, u)
      → (id : Bytes) × Written s id key value ps res idents (settle u)
  pub updates :
      (id key value note : Bytes) (ps : List Bytes) (w u : W) (res : Stored)
      (idents : List Identifier)
      → IsUtf8 key
      → IsUtf8 value
      → (s.client.list s.org_id w).0 ≡ ok idents
      → s.client.update id key value note s.org_id ps
          (s.client.get id (s.client.list s.org_id w).1).1
        ≡ (ok res, u)
      → Written s id key value ps res idents (settle u)
