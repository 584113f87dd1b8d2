-- ===== src/App/Service/Audited.antt =====
-- Every call of the service is checked against the policy and audited once, whatever it returns.
use vaultlet.Prelude.{
  ℕ, suc, Bool, true, false, Option, none, some, List, [], ◌∷◌, ◌++◌, Bytes, if◌then◌else◌, ◌≡◌,
  refl, ap, ◌∙◌, sym, arith, Bool-cases, Option-cases, inl, inr, length, append_assoc, append-nil,
  filter, take, ◌&&◌, ◌||◌,
}
use vaultlet.Errors.{Result, ok, err, sentinel, permission_denied}
use vaultlet.Domain.Key.{Key, Namespace, key_string, namespace_string, contains}
use vaultlet.Domain.Secret.{Secret, SecretMeta}
use vaultlet.Domain.Event.{SecretEvent, is_in_sync}
use vaultlet.Ports.{Context}
use vaultlet.App.Policy.{Action, get, list, watch, put, delete, Policy, allows, can_list, can_watch}
use vaultlet.App.Service.{
  Service, State, AuditLine, Decision, Outcome, success, error, visible, listed, filter_events,
  allow, deny, denied, key, namespace, get_secret, put_secret, delete_secret, list_secrets,
  watch_secrets,
}
use vaultlet.App.Service.Listing.{listed-filter}
use vaultlet.App.Service.Watching.{filter_events-take}

-- A call of one of the five methods; `room` is how many sends the subscriber of a watch takes.
pub data Call : Type 0 where
  get_call : Key → Call
  put_call : Key → Bytes → Call
  delete_call : Key → Call
  list_call : Namespace → Call
  watch_call : ℕ → Namespace → Call

-- What a call returns.
pub data Reply : Type 0 where
  secret : Result Secret → Reply
  meta : Result SecretMeta → Reply
  done : Result (Unit {0}) → Reply
  metas : Result (List SecretMeta) → Reply
  events : Result (List SecretEvent) → Reply

abbrev pub action_of : Call → Action
action_of (get_call k) = get
action_of (put_call k v) = put
action_of (delete_call k) = delete
action_of (list_call ns) = list
action_of (watch_call room ns) = watch

abbrev pub target_of : Call → Bytes
target_of (get_call k) = key_string k
target_of (put_call k v) = key_string k
target_of (delete_call k) = key_string k
target_of (list_call ns) = namespace_string ns
target_of (watch_call room ns) = namespace_string ns

-- The refusal that a call returns.
abbrev pub refusal : Call → Reply
refusal (get_call k) = secret (err (sentinel permission_denied))
refusal (put_call k v) = meta (err (sentinel permission_denied))
refusal (delete_call k) = done (err (sentinel permission_denied))
refusal (list_call ns) = metas (err (sentinel permission_denied))
refusal (watch_call room ns) = events (err (sentinel permission_denied))

-- How the audit log names what a call of the backend came to.
abbrev pub ending {ℓ} : {A : Type ℓ} → Result A → Outcome
ending (ok a) = success
ending (err e) = error

abbrev map_ok : {A B : Type 0} → (A → B) → Result A → Result B
map_ok f (ok a) = ok (f a)
map_ok f (err e) = err e

-- What a principal is shown of a listing, and of the events of a watch.
abbrev pub is_listed : Policy → Bytes → Namespace → SecretMeta → Bool
is_listed p who ns m = contains ns m.key.ns && allows p who list m.key.ns

abbrev pub is_sent : Policy → Bytes → Namespace → SecretEvent → Bool
is_sent p who ns ev =
    is_in_sync ev.type
    || (contains ns ev.meta.key.ns
        && allows p who list ev.meta.key.ns
        && allows p who watch ev.meta.key.ns)

-- What the policy says of a principal's call.
abbrev pub may : Policy → Bytes → Call → Bool
may p who (get_call k) = allows p who get k.ns
may p who (put_call k v) = allows p who put k.ns
may p who (delete_call k) = allows p who delete k.ns
may p who (list_call ns) = can_list p who ns
may p who (watch_call room ns) = can_watch p who ns

-- There is a principal, and the policy admits its call.
abbrev pub permitted : Policy → Option Bytes → Call → Bool
permitted p none c = false
permitted p (some who) c = may p who c

abbrev pub name_of : Option Bytes → Bytes
name_of none = []
name_of (some who) = who

abbrev pair_reply {ℓ} : {A : Type ℓ} {S : Type 0} → (A → Reply) → A × S → Reply × S
pair_reply f (a, s) = (f a, s)

module _ {W : Type 0} (s : Service W) where
  -- The method that a call names.
  unfoldable pub serve : Context → Call → State W → Reply × State W
  unfolding get_secret put_secret delete_secret list_secrets watch_secrets
  serve ctx (get_call k) st = pair_reply secret (get_secret s ctx k st)
  serve ctx (put_call k v) st = pair_reply meta (put_secret s ctx k v st)
  serve ctx (delete_call k) st = pair_reply done (delete_secret s ctx k st)
  serve ctx (list_call ns) st = pair_reply metas (list_secrets s ctx ns st)
  serve ctx (watch_call room ns) st = pair_reply events (watch_secrets s room ctx ns st)

  -- How the backend's own call ends, and the backend's state behind it.
  abbrev pub backend : Context → Call → W → Outcome × W
  backend ctx (get_call k) w = let (r, w') = s.store.get ctx k w in (ending r, w')
  backend ctx (put_call k v) w = let (r, w') = s.store.put ctx k v w in (ending r, w')
  backend ctx (delete_call k) w = let (r, w') = s.store.delete ctx k w in (ending r, w')
  backend ctx (list_call ns) w = let (r, w') = s.store.list ctx ns w in (ending r, w')
  backend ctx (watch_call room ns) w = let (r, w') = s.store.watch ctx ns w in (ending r, w')

  -- The backend's own answer; of a listing what the principal is shown, of a watch the first events
  -- that it is sent, as many as the subscriber takes.
  abbrev pub answered : Context → Call → W → Reply
  answered ctx (get_call k) w = secret (s.store.get ctx k w).0
  answered ctx (put_call k v) w = meta (s.store.put ctx k v w).0
  answered ctx (delete_call k) w = done (s.store.delete ctx k w).0
  answered ctx (list_call ns) w =
      metas
        (map_ok (filter (is_listed s.policy (name_of ctx.principal) ns)) (s.store.list ctx ns w).0)
  answered ctx (watch_call room ns) w = events (
      map_ok (λ src. take room (filter (is_sent s.policy (name_of ctx.principal) ns) src))
        (s.store.watch ctx ns w).0)

  abbrev pub line_of : Context → Call → Decision → Outcome → AuditLine
  line_of ctx c decision outcome = record {
    principal = name_of ctx.principal;
    action = action_of c;
    field = elim (action_of c) [ list ↦ namespace | _ ↦ key ];
    target = target_of c;
    decision = decision;
    outcome = outcome;
  }

  -- The line that the call is to leave in the log.
  abbrev pub line : Context → Call → W → AuditLine
  line ctx c w =
      if permitted s.policy ctx.principal c
      then line_of ctx c allow (backend ctx c w).0
      else line_of ctx c deny denied

  -- A call that the policy does not admit, or that carries no principal, returns the refusal and
  -- leaves the backend's state as it was; the log gets its line, with the decision deny and the
  -- outcome denied.
  pub serve-denied :
      (ctx : Context) (c : Call) (st : State W)
      → permitted s.policy ctx.principal c ≡ false
      → serve ctx c st ≡ (refusal c, record st { log = st.log ++ line ctx c st.world ∷ [] })
  unfolding serve
  serve-denied ctx (get_call k) st h = ground arith
  serve-denied ctx _ st h = ground arith

  listed_function :
      (who : Bytes) (ns : Namespace) → listed s who ns ≡ filter (is_listed s.policy who ns)
  listed_function who ns = λ i metas. listed-filter s who ns metas i

  filter_events_function :
      (room : ℕ) (who : Bytes) (ns : Namespace)
      → filter_events s room who ns ≡ (λ src. take room (filter (is_sent s.policy who ns) src))
  unfolding visible
  filter_events_function room who ns = λ i src. filter_events-take s who ns room src i

  -- An admitted call returns the backend's own answer and leaves the backend's state as the backend's
  -- own call does; of a listing it returns what the principal may list under the namespace, of a
  -- watch the first events, as many as the subscriber takes, that are the marker or of a secret
  -- under the namespace that the principal may list and watch. The log gets one line with the
  -- decision allow, and with success or error as the backend's own call returned a value or an error.
  pub serve-allowed :
      (ctx : Context) (c : Call) (st : State W)
      → permitted s.policy ctx.principal c ≡ true
      → serve ctx c st ≡ (
        answered ctx c st.world,
        record {
          world = (backend ctx c st.world).1;
          log = st.log ++ line_of ctx c allow (backend ctx c st.world).0 ∷ [];
        },
      )
  unfolding serve
  serve-allowed ctx (get_call k) st h = ground arith
  serve-allowed ctx (put_call k v) st h = ground arith
  serve-allowed ctx (delete_call k) st h = ground arith
  serve-allowed ctx (list_call ns) st h = elim (Option-cases ctx.principal) [
    | inl e ↦ ground arith
    | inr (who, e) ↦ ground (arith, listed_function who ns)
  ]
  serve-allowed ctx (watch_call room ns) st h = elim (Option-cases ctx.principal) [
    | inl e ↦ ground arith
    | inr (who, e) ↦ ground (arith, filter_events_function room who ns)
  ]

  -- Every call, admitted or not, appends its one line to the log.
  pub log-serve :
      (ctx : Context) (c : Call) (st : State W)
      → (serve ctx c st).1.log ≡ st.log ++ line ctx c st.world ∷ []
  log-serve ctx c st = elim (Bool-cases (permitted s.policy ctx.principal c)) [
    | inl e ↦ rw (serve-allowed ctx c st e, e) refl
    | inr e ↦ rw (serve-denied ctx c st e) refl
  ]

  -- A sequence of calls, each with its context.
  pub serve_all : List (Context × Call) → State W → State W
  serve_all [] st = st
  serve_all ((ctx, c) ∷ calls) st = serve_all calls (serve ctx c st).1

  -- The calls that the policy admits, in their order.
  pub admitted : List (Context × Call) → List (Context × Call)
  admitted [] = []
  admitted ((ctx, c) ∷ calls) =
      let rest = admitted calls in
      if permitted s.policy ctx.principal c then (ctx, c) ∷ rest else rest

  -- After any sequence of calls the log is the old log and one line for each call.
  pub serve_all_log :
      (calls : List (Context × Call)) (st : State W)
      → (lines : List AuditLine) × ((serve_all calls st).log ≡ st.log ++ lines)
        × (length lines ≡ length calls)
  unfolding serve_all
  serve_all_log [] st = ([], sym (append-nil st.log), refl)
  serve_all_log ((ctx, c) ∷ calls) st =
      let (lines, e, n) = serve_all_log calls (serve ctx c st).1 in
      (
        line ctx c st.world ∷ lines,
        e
            ∙ (ap (λ l. l ++ lines) (log-serve ctx c st)
                ∙ append_assoc st.log (line ctx c st.world ∷ []) lines),
        ap suc n,
      )

  world-serve_denied :
      (ctx : Context) (c : Call) (st : State W)
      → permitted s.policy ctx.principal c ≡ false
      → (serve ctx c st).1.world ≡ st.world
  world-serve_denied ctx c st e = rw (serve-denied ctx c st e)

  world-serve_all :
      (calls : List (Context × Call)) (st u : State W)
      → st.world ≡ u.world
      → (serve_all calls st).world ≡ (serve_all (admitted calls) u).world
  unfolding serve_all admitted
  world-serve_all [] st u h = h
  world-serve_all ((ctx, c) ∷ calls) st u h =
      elim (Bool-cases (permitted s.policy ctx.principal c)) [
        | inl e ↦ rw e (
            world-serve_all calls _ _ (
              ap (λ (x : Reply × State W). x.1.world) (serve-allowed ctx c st e)
              ∙ (ap (λ w. (backend ctx c w).1) h
                  ∙ sym (ap (λ (x : Reply × State W). x.1.world) (serve-allowed ctx c u e)))))
        | inr e ↦ rw e (world-serve_all calls _ _ (world-serve_denied ctx c st e ∙ h))
      ]

  -- What any sequence of calls does to the backend is what its admitted calls do: leaving out every
  -- call that the policy refuses, or that carries no principal, ends in the same backend state.
  pub serve_all-admitted :
      (calls : List (Context × Call)) (st : State W)
      → (serve_all calls st).world ≡ (serve_all (admitted calls) st).world
  serve_all-admitted calls st = world-serve_all calls st st refl
