-- ===== src/Adapters/Grpc/Auth/Users.antt =====
-- The users of the configuration: which hash counts for a name.
use vaultlet.Prelude.{
  none, some, List, [], ◌∷◌, ◌++◌, Bytes, bytes_eq_iff, ◌≡◌, ◌≢◌, ◌↔◌, refl, ap, ◌∙◌, arith, All,
  Option-cases, inl, inr,
}
use vaultlet.Config.{UserConfig}
use vaultlet.Adapters.Grpc.Auth.{users_by_name}

-- The hash is that of the last configured user of the name.
pub record Registered (users : List UserConfig) (who hash : Bytes) : Type 0 where
  pub front : List UserConfig
  pub user : UserConfig
  pub back : List UserConfig
  pub stands : users ≡ front ++ user ∷ back
  pub named : user.username ≡ who
  pub last : All (λ (u : UserConfig). u.username ≢ who) back
  pub hashed : user.password_hash ≡ hash

users_by_name-none :
    (users : List UserConfig) (who : Bytes)
    → users_by_name users who ≡ none
    → All (λ (u : UserConfig). u.username ≢ who) users
unfolding users_by_name
users_by_name-none [] who h = tt
users_by_name-none (u ∷ us) who h = elim (Option-cases (users_by_name us who)) [
  | inl e ↦ (ground (arith, bytes_eq_iff u.username who), users_by_name-none us who e)
  | inr (hash, e) ↦ ground arith
]

none-users_by_name :
    (users : List UserConfig) (who : Bytes)
    → All (λ (u : UserConfig). u.username ≢ who) users
    → users_by_name users who ≡ none
unfolding users_by_name
none-users_by_name [] who h = refl
none-users_by_name (u ∷ us) who (hu, hs) =
    ground (arith, none-users_by_name us who hs, bytes_eq_iff u.username who)

users_by_name_sound :
    (users : List UserConfig) (who hash : Bytes)
    → users_by_name users who ≡ some hash
    → Registered users who hash
unfolding users_by_name
users_by_name_sound [] who hash h = cc
users_by_name_sound (u ∷ us) who hash h = elim (Option-cases (users_by_name us who)) [
  | inl e ↦ record {
    front = [];
    user = u;
    back = us;
    stands = refl;
    named = ground (arith, bytes_eq_iff u.username who);
    last = users_by_name-none us who e;
    hashed = ground arith;
  }
  | inr (found, e) ↦
      let r = users_by_name_sound us who hash (ground arith) in
      record {
        front = u ∷ r.front;
        user = r.user;
        back = r.back;
        stands = ap (λ l. u ∷ l) r.stands;
        named = r.named;
        last = r.last;
        hashed = r.hashed;
      }
]

users_by_name-found :
    (front back : List UserConfig) (user : UserConfig) (who : Bytes)
    → user.username ≡ who
    → All (λ (u : UserConfig). u.username ≢ who) back
    → users_by_name (front ++ user ∷ back) who ≡ some user.password_hash
unfolding users_by_name
users_by_name-found [] back user who named last =
    ground (arith, none-users_by_name back who last, bytes_eq_iff user.username who)
users_by_name-found (u ∷ front) back user who named last =
    rw (users_by_name-found front back user who named last) refl

-- The lookup finds the hash of the last user of the name, and none where no user has it.
pub users_by_name_iff :
    (users : List UserConfig) (who hash : Bytes)
    → (users_by_name users who ≡ some hash) ↔ Registered users who hash
users_by_name_iff users who hash = (
  users_by_name_sound users who hash,
  λ r.
      ap (λ us. users_by_name us who) r.stands
      ∙ (users_by_name-found r.front r.back r.user who r.named r.last ∙ ap some r.hashed),
)
