-- ===== src/App/Service.antt =====
-- internal/app/principal.go, audit.go and service.go: every call checks the policy, asks the
-- backend, and writes one audit line. The backend is any SecretStore over a state `W`.
pub mod Audited
pub mod Listing
pub mod Watching
pub mod Keeping
use vaultlet.Prelude.{
  ℕ, zero, suc, Bool, true, false, ◌&&◌, ◌||◌, not, Option, none, some, List, [], ◌∷◌, ◌++◌, Bytes,
  if◌then◌else◌,
}
use vaultlet.Errors.{Result, ok, err, sentinel, permission_denied}
use vaultlet.Domain.Key.{Key, Namespace, key_string, namespace_string, contains}
use vaultlet.Domain.Secret.{Secret, SecretMeta}
use vaultlet.Domain.Event.{SecretEvent, is_in_sync}
use vaultlet.Ports.{Context, SecretStore}
use vaultlet.App.Policy.{Action, get, list, watch, put, delete, Policy, allows, can_list, can_watch}

unfoldable pub with_principal : Context → Bytes → Context
with_principal ctx name = record ctx { principal = some name }

-- The name, which is empty where there is none, and whether there is one.
abbrev pub principal_from_context : Context → Bytes × Bool
principal_from_context ctx = elim ctx.principal [ some name ↦ (name, true) | none ↦ ([], false) ]

pub data Decision : Type 0 where
  allow deny : Decision

pub data Outcome : Type 0 where
  success error denied : Outcome

pub data TargetField : Type 0 where
  key namespace : TargetField

-- One line of the audit log.
pub record AuditLine : Type 0 where
  pub principal : Bytes
  pub action : Action
  pub field : TargetField
  pub target : Bytes
  pub decision : Decision
  pub outcome : Outcome

abbrev target_field : Action → TargetField
target_field list = namespace
target_field get = key
target_field watch = key
target_field put = key
target_field delete = key

-- The backend's state and the audit log, oldest line first.
pub record State (W : Type 0) : Type 0 where
  pub world : W
  pub log : List AuditLine

unfoldable pub audit {ℓ} :
    {W : Type 0} {A : Type ℓ}
    → Bytes
    → Action
    → Bytes
    → Decision
    → Outcome
    → A
    → State W
    → A × State W
audit who action target decision outcome answer s = (
  answer,
  record s {
    log =
        s.log
        ++ record {
          principal = who;
          action = action;
          field = target_field action;
          target = target;
          decision = decision;
          outcome = outcome;
        }
          ∷ [];
  },
)

abbrev pub outcome_of {ℓ} : {A : Type ℓ} → Result A → Outcome
outcome_of (ok a) = success
outcome_of (err e) = error

pub record Service (W : Type 0) : Type 0 where
  pub store : SecretStore W
  pub policy : Policy

module _ {W : Type 0} (s : Service W) where
  -- The common part of Get, Put and Delete: the policy, one call of the backend, one audit line.
  unfoldable pub guarded {ℓ} :
      {A : Type ℓ} → Action → Context → Key → (W → Result A × W) → State W → Result A × State W
  unfolding audit
  guarded action ctx k call st =
      let (who, known) = principal_from_context ctx in
      let (answer, w) = call st.world in
      if not known || not (allows s.policy who action k.ns)
      then audit who action (key_string k) deny denied (err (sentinel permission_denied)) st
      else audit who action (key_string k) allow (outcome_of answer) answer
          (record st { world = w })

  unfoldable pub get_secret : Context → Key → State W → Result Secret × State W
  unfolding guarded
  get_secret ctx k = guarded get ctx k (s.store.get ctx k)

  unfoldable pub put_secret : Context → Key → Bytes → State W → Result SecretMeta × State W
  unfolding guarded
  put_secret ctx k value = guarded put ctx k (s.store.put ctx k value)

  unfoldable pub delete_secret : Context → Key → State W → Result (Unit {0}) × State W
  unfolding guarded
  delete_secret ctx k = guarded delete ctx k (s.store.delete ctx k)

  -- The loop of List over the backend's answer.
  unfoldable pub listed : Bytes → Namespace → List SecretMeta → List SecretMeta
  listed who ns [] = []
  listed who ns (meta ∷ metas) =
      let rest = listed who ns metas in
      if contains ns meta.key.ns && allows s.policy who list meta.key.ns then meta ∷ rest else rest

  abbrev list_answer : Bytes → Namespace → Result (List SecretMeta) → Result (List SecretMeta)
  list_answer who ns (ok metas) = ok (listed who ns metas)
  list_answer who ns (err e) = err e

  unfoldable pub list_secrets : Context → Namespace → State W → Result (List SecretMeta) × State W
  unfolding audit
  list_secrets ctx ns st =
      let (who, known) = principal_from_context ctx in
      let (answer, w) = s.store.list ctx ns st.world in
      if not known || not (can_list s.policy who ns)
      then audit who list (namespace_string ns) deny denied (err (sentinel permission_denied)) st
      else audit who list (namespace_string ns) allow (outcome_of answer)
          (list_answer who ns answer) (record st { world = w })

  unfoldable pub visible : Bytes → Namespace → SecretMeta → Bool
  visible who ns meta =
      contains ns meta.key.ns
      && allows s.policy who list meta.key.ns
      && allows s.policy who watch meta.key.ns

  -- The goroutine of filterEvents. `room` is the number of sends that the subscriber takes before
  -- the end of the context is selected; the channel then closes.
  unfoldable pub filter_events : ℕ → Bytes → Namespace → List SecretEvent → List SecretEvent
  filter_events room who ns [] = []
  filter_events room who ns (ev ∷ src) =
      elim (not (is_in_sync ev.type) && not (visible who ns ev.meta)) [
        | true ↦ filter_events room who ns src
        | false ↦ elim room [ zero ↦ [] | suc left ↦ ev ∷ filter_events left who ns src ]
      ]

  abbrev watch_answer :
      ℕ → Bytes → Namespace → Result (List SecretEvent) → Result (List SecretEvent)
  watch_answer room who ns (ok src) = ok (filter_events room who ns src)
  watch_answer room who ns (err e) = err e

  unfoldable pub watch_secrets :
      ℕ → Context → Namespace → State W → Result (List SecretEvent) × State W
  unfolding audit
  watch_secrets room ctx ns st =
      let (who, known) = principal_from_context ctx in
      let (answer, w) = s.store.watch ctx ns st.world in
      if not known || not (can_watch s.policy who ns)
      then audit who watch (namespace_string ns) deny denied (err (sentinel permission_denied)) st
      else audit who watch (namespace_string ns) allow (outcome_of answer)
          (watch_answer room who ns answer) (record st { world = w })

-- The service is a SecretStore itself (`var _ ports.SecretStore = (*Service)(nil)`).
unfoldable pub as_store : {W : Type 0} → ℕ → Service W → SecretStore (State W)
unfolding get_secret put_secret list_secrets delete_secret watch_secrets
as_store room s = record {
  get = get_secret s;
  put = put_secret s;
  list = list_secrets s;
  delete = delete_secret s;
  watch = watch_secrets s room;
}
