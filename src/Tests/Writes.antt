-- ===== src/Tests/Writes.antt =====
-- Two vaults in memory, for what their clients are relied on.
use vaultlet.Prelude.{
  Bool, true, false, List, [], ◌∷◌, ◌++◌, Bytes, bytes_eq, bytes_eq_refl, codes, some,
  if◌then◌else◌, ◌≡◌, refl, arith, Bool-cases, inl, inr, not, filter, All, Any, Any-append, ◌⊎◌,
  subst, append_assoc, ap,
}
use vaultlet.Errors.{ok, err, response, plain, is, same, number}
use vaultlet.Strings.{path_base, trim_right, trim, last_index, join, separated}
use vaultlet.Domain.Key.{key_string, key_is_zero, namespace_string}
use vaultlet.Domain.Secret.{SecretMeta, new_version}
use vaultlet.Adapters.Escaping.{write_all}
use vaultlet.Adapters.Gcp.Name.{put_byte, encode_id}
use vaultlet.Adapters.Gcp.Store
use vaultlet.Adapters.Gcp.Store.Writes
use vaultlet.Adapters.Gcp.Store.Writes.{gcp_get-put}
use vaultlet.Adapters.Bitwarden.Store as Bitwarden
use vaultlet.Adapters.Bitwarden.Store.Laws.{Written, IsUnambiguous, ReadsBack}
use vaultlet.Adapters.Bitwarden.Store.Resolving.{Matches}
use vaultlet.Strings.Utf8.{ascii-IsUtf8}
use vaultlet.Adapters.Bitwarden.Store.Writes.{bitwarden_get-put}
use vaultlet.Tests.Samples.{db_url, db_url-IsValidKey, alice}

-- Secret Manager: the resources that exist, and the payload of each latest version.
pub record Project : Type 0 where
  pub exists : Bytes → Bool
  pub payload : Bytes → Bytes

abbrev at_name {ℓ} : {A : Type ℓ} → Bytes → A → (Bytes → A) → Bytes → A
at_name name a f other = if bytes_eq other name then a else f other

abbrev resource : Store.Resource
resource = record { name = codes "r"; create_time = some 5 }

abbrev project : Store.Api Project
project = record {
  get_secret = λ name w. ((if w.exists name then ok resource else err (response 5)), w);
  create_secret = λ parent id key w. (
    ok resource,
    record w { exists = at_name (parent ++ (codes "/secrets/" ++ id)) true w.exists },
  );
  add_secret_version = λ name payload w. (
    ok (record { name = codes "v/3"; enabled = true }),
    record w { payload = at_name (name ++ codes "/versions/latest") payload w.payload },
  );
  get_secret_version = λ name w. (err (response 5), w);
  access_secret_version =
      λ name w. (ok (record { version_name = codes "v/3"; payload = w.payload name }), w);
  delete_secret = λ name w. (err (response 7), w);
  list_secrets = λ parent w. (err (response 7), w);
}

abbrev pub store : Store.Store Project
store = record { client = project; parent = codes "projects/p"; allow_writes = true; code = λ e. 5 }

pub store-ReadsBack : Writes.ReadsBack store (λ w. w)
unfolding Store.secret_name
store-ReadsBack = record {
  access_added =
      λ name payload w u ver h. ground (arith, bytes_eq_refl (name ++ codes "/versions/latest"));
  add_keeps = λ name payload w u ver h. ground arith;
  access_keeps = λ name version w. refl;
  get_keeps = λ name w u sec h. elim (Bool-cases (w.exists name)) [
    | inl e ↦ ground arith
    | inr e ↦ ground arith
  ];
  get_created =
      λ id key w u sec h. ground (arith, bytes_eq_refl (store.parent ++ (codes "/secrets/" ++ id)));
}

abbrev pub empty_project : Project
empty_project = record { exists = λ name. false; payload = λ name. [] }

abbrev pub meta_v3 : SecretMeta
meta_v3 = record { key = db_url; version = record { id = codes "3" }; created_at = 5 }

-- Put creates the secret, which the project does not have.
put_runs :
    Store.put_secret store db_url (codes "x") empty_project
    ≡ (ok meta_v3, (Store.put_secret store db_url (codes "x") empty_project).1)
unfolding Store.put_secret Store.ensure Store.create Store.secret_name Store.meta_of encode_id
    put_byte write_all new_version path_base trim_right trim last_index key_string namespace_string
    join separated key_is_zero bytes_eq
put_runs = refl

gcp_get-put_example :
    (Store.get_secret store db_url (Store.put_secret store db_url (codes "x") empty_project).1).0
    ≡ ok (record { meta = meta_v3; value = codes "x" })
gcp_get-put_example =
    gcp_get-put store (λ w. w) db_url (codes "x") empty_project _ meta_v3 store-ReadsBack
      db_url-IsValidKey put_runs

-- Bitwarden: what is listed, and the secret of each identifier. A new one gets its key for its
-- identifier.
record Organization : Type 0 where
  idents : List Bitwarden.Identifier
  secrets : Bytes → Bitwarden.Stored

abbrev stored : Bytes → Bytes → Bytes → Bitwarden.Stored
stored key value note = record {
  key = key;
  value = value;
  note = note;
  creation_date = 5;
  revision_date = 9;
}

abbrev others : Bytes → List Bitwarden.Identifier → List Bitwarden.Identifier
others id idents = filter (λ j. not (bytes_eq j.id id)) idents

-- What was written last is listed first.
abbrev written : Bytes → Bytes → List Bytes → List Bitwarden.Identifier → List Bitwarden.Identifier
written id key projects idents =
    record { id = id; key = key; project_ids = projects } ∷ others id idents

abbrev organization : Bitwarden.Api Organization
organization = record {
  list = λ org w. (ok w.idents, w);
  get = λ id w. (ok (w.secrets id), w);
  get_by_ids = λ ids w. (err (plain "denied"), w);
  create = λ key value note org projects w. (
    ok (stored key value note),
    record {
      idents = written key key projects w.idents;
      secrets = at_name key (stored key value note) w.secrets;
    },
  );
  update = λ id key value note org projects w. (
    ok (stored key value note),
    record {
      idents = written id key projects w.idents;
      secrets = at_name id (stored key value note) w.secrets;
    },
  );
  delete = λ ids w. (err (plain "denied"), w);
}

abbrev scoped : Bitwarden.Store Organization
scoped = record {
  client = organization;
  project_id = codes "p";
  org_id = codes "o";
  allow_writes = true;
  format = λ t. codes "t";
}

others-old :
    (id : Bytes) (all idents : List Bitwarden.Identifier)
    → ((j : Bitwarden.Identifier) → Any (λ i. i ≡ j) idents → Any (λ i. i ≡ j) all)
    → All (λ j. (j.id ≡ id) ⊎ Any (λ i. i ≡ j) all) (others id idents)
unfolding filter
others-old id all [] h = tt
others-old id all (j ∷ js) h = elim (Bool-cases (bytes_eq j.id id)) [
  | inl e ↦ rw e (others-old id all js (λ i m. h i (inr m)))
  | inr e ↦ rw e (inr (h j (inl refl)), others-old id all js (λ i m. h i (inr m)))
]

own_projects : (ps qs : List Bytes) → All (λ p. Any (λ q. q ≡ p) (qs ++ ps)) ps
own_projects [] qs = tt
own_projects (p ∷ ps) qs = (
  Any-append (λ q. q ≡ p) qs (p ∷ ps) (inr (inl refl)),
  subst (λ l. All (λ r. Any (λ q. q ≡ r) l) ps) (append_assoc qs (p ∷ []) ps)
      (own_projects ps (qs ++ p ∷ [])),
)

scoped-Written :
    (id key value : Bytes) (ps : List Bytes) (res : Bitwarden.Stored)
    (idents : List Bitwarden.Identifier) (u : Organization)
    → u.idents ≡ written id key ps idents
    → u.secrets id ≡ res
    → res.value ≡ value
    → Written scoped id key value ps res idents u
scoped-Written id key value ps res idents u listed read value_set = record {
  after = written id key ps idents;
  stored = res;
  listed = ap ok listed;
  there = inl (record { same_id = refl; same_key = refl; has_projects = own_projects ps [] });
  others = (inl refl, others-old id idents idents (λ j m. m));
  read = ap ok read;
  holds = record { same_value = value_set; same_creation = refl; same_revision = refl };
}

scoped-ReadsBack : ReadsBack scoped (λ w. w)
scoped-ReadsBack = record {
  foreign = λ w e h. cc;
  creates = λ key value note ps w u res idents _ _ l h. (
    key,
    scoped-Written key key value ps res idents u (ground arith) (ground (arith, bytes_eq_refl key))
        (ground arith),
  );
  updates = λ id key value note ps w u res idents _ _ l h.
      scoped-Written id key value ps res idents u (ground arith) (ground (arith, bytes_eq_refl id))
        (ground arith);
}

abbrev empty_organization : Organization
empty_organization = record { idents = []; secrets = λ id. stored [] [] [] }

abbrev meta_t : SecretMeta
meta_t = record { key = db_url; version = record { id = codes "t" }; created_at = 5 }

-- A second Put updates the secret that the first one created.
abbrev once : Organization
once = (Bitwarden.put_secret scoped alice db_url (codes "x") empty_organization).1

update_runs :
    Bitwarden.put_secret scoped alice db_url (codes "y") once
    ≡ (ok meta_t, (Bitwarden.put_secret scoped alice db_url (codes "y") once).1)
unfolding Bitwarden.put_secret Bitwarden.upsert Bitwarden.resolve_id Bitwarden.resolve
    Bitwarden.in_project Bitwarden.has_project Bitwarden.create Bitwarden.update Bitwarden.projects
    Bitwarden.meta_of Bitwarden.version_at new_version key_string namespace_string join separated
    key_is_zero bytes_eq is same number filter
update_runs = refl

once-IsUnambiguous : IsUnambiguous scoped (key_string db_url) once
unfolding Bitwarden.put_secret Bitwarden.upsert Bitwarden.resolve_id Bitwarden.resolve
    Bitwarden.in_project Bitwarden.has_project Bitwarden.create Bitwarden.update Bitwarden.projects
    Bitwarden.meta_of Bitwarden.version_at new_version key_string namespace_string join separated
    key_is_zero bytes_eq is same number filter
once-IsUnambiguous = record {
  one_id = λ idents e.
      let listed : once.idents ≡ idents = cc in
      (
        key_string db_url,
        subst (All (λ j. Matches scoped (key_string db_url) j → j.id ≡ key_string db_url)) listed
            (λ _. refl, tt),
      );
}

bitwarden_get-put_example :
    (Bitwarden.get_secret scoped alice db_url
      (Bitwarden.put_secret scoped alice db_url (codes "y") once).1).0
    ≡ ok (record { meta = meta_t; value = codes "y" })
bitwarden_get-put_example =
    bitwarden_get-put scoped (λ w. w) alice alice db_url (codes "y") once _ meta_t scoped-ReadsBack
      (ascii-IsUtf8 (codes "y") (omega arith)) once-IsUnambiguous db_url-IsValidKey refl update_runs
