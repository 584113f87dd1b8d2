-- ===== src/Tests/Service.antt =====
-- The service over a counting backend, at concrete inputs.
use vaultlet.Prelude.{
  ℕ, true, false, some, List, [], ◌∷◌, ◌++◌, codes, bytes_eq, ◌≡◌, ◌↔◌, refl, Any, inl, arith, take,
  length,
}
use vaultlet.Domain.Key.{contains, same_segments, zero_namespace}
use vaultlet.Domain.Event.{SecretEvent, added, in_sync, in_sync_event, is_in_sync}
use vaultlet.Errors.{ok}
use vaultlet.Ports.{Context}
use vaultlet.App.Policy.{
  list, watch, allows, allows_by, rules_of, grants, action_eq, can_list, can_watch, overlaps_by,
}
use vaultlet.App.Service.{Service, State, AuditLine, allow, success, listed, filter_events, visible}
use vaultlet.App.Service.Audited.{
  Call, get_call, put_call, list_call, permitted, refusal, line, line_of, secret, serve,
  serve-denied, serve-allowed, serve_all, serve_all_log, serve_all-admitted, admitted,
}
use vaultlet.App.Service.Listing.{IsListable, listed_iff, listed_hidden, listed_denied}
use vaultlet.App.Service.Watching.{
  IsVisible, seen, filter_events_sound, filter_events_complete, filter_events_prefix,
  filter_events_denied,
}
use vaultlet.Tests.Samples.{
  payments_prod, db_url, meta_db_url, secret_db_url, alice, nobody, counting,
}
use vaultlet.Tests.Policy.{alice_policy}

abbrev pub service : Service ℕ
service = record { store = counting; policy = alice_policy }

abbrev pub idle : State ℕ
idle = record { world = 0; log = [] }

abbrev added_db_url : SecretEvent
added_db_url = record { type = added; meta = meta_db_url }

-- Alice may get and list, and not put.
put_refused : permitted alice_policy (some (codes "alice")) (put_call db_url (codes "y")) ≡ false
unfolding allows rules_of allows_by grants action_eq contains same_segments bytes_eq
put_refused = refl

get_admitted : permitted alice_policy (some (codes "alice")) (get_call db_url) ≡ true
unfolding allows rules_of allows_by grants action_eq contains same_segments bytes_eq
get_admitted = refl

serve-denied_example : serve service alice (put_call db_url (codes "y")) idle ≡ (
  refusal (put_call db_url (codes "y")),
  record { world = 0; log = line service alice (put_call db_url (codes "y")) 0 ∷ [] },
)
serve-denied_example = serve-denied service alice (put_call db_url (codes "y")) idle put_refused

serve-allowed_example : serve service alice (get_call db_url) idle ≡ (
  secret (ok secret_db_url),
  record { world = 1; log = line_of service alice (get_call db_url) allow success ∷ [] },
)
serve-allowed_example = serve-allowed service alice (get_call db_url) idle get_admitted

abbrev calls : List (Context × Call)
calls =
    (alice, get_call db_url) ∷ (nobody, get_call db_url) ∷ (alice, list_call zero_namespace) ∷ []

serve_all_log_example :
    (lines : List AuditLine) × ((serve_all service calls idle).log ≡ [] ++ lines)
    × (length lines ≡ 3)
serve_all_log_example = serve_all_log service calls idle

serve_all-admitted_example :
    (serve_all service calls idle).world ≡ (serve_all service (admitted service calls) idle).world
serve_all-admitted_example = serve_all-admitted service calls idle

listed_iff_example :
    Any (λ m. m ≡ meta_db_url) (listed service (codes "alice") zero_namespace (meta_db_url ∷ []))
    ↔ Any
        (λ m. (m ≡ meta_db_url) × IsListable alice_policy (codes "alice") zero_namespace m)
        (meta_db_url ∷ [])
listed_iff_example =
    listed_iff service (codes "alice") zero_namespace (meta_db_url ∷ []) meta_db_url

listed_hidden_example :
    listed service (codes "bob") zero_namespace ([] ++ meta_db_url ∷ [])
    ≡ listed service (codes "bob") zero_namespace ([] ++ [])
listed_hidden_example =
    listed_hidden service (codes "bob") zero_namespace [] [] meta_db_url
      (unfold allows rules_of allows_by bytes_eq in refl)

listed_denied_example : listed service (codes "bob") zero_namespace (meta_db_url ∷ []) ≡ []
listed_denied_example =
    listed_denied service (codes "bob") zero_namespace (meta_db_url ∷ [])
      (unfold can_list rules_of overlaps_by bytes_eq in refl)

abbrev watcher : Service ℕ
watcher = record {
  store = counting;
  policy =
      (codes "alice", record { namespace = zero_namespace; actions = list ∷ watch ∷ [] } ∷ []) ∷ [];
}

filter_events_sound_example :
    Any
      (λ ev. (ev ≡ added_db_url) × IsVisible watcher.policy (codes "alice") payments_prod ev)
      (added_db_url ∷ in_sync_event ∷ [])
filter_events_sound_example =
    filter_events_sound watcher (codes "alice") payments_prod 1 (added_db_url ∷ in_sync_event ∷ [])
      added_db_url
      (unfold filter_events visible is_in_sync allows rules_of allows_by grants action_eq contains
          same_segments bytes_eq in
        inl refl)

filter_events_complete_example :
    Any
      (λ ev. ev ≡ added_db_url)
      (filter_events watcher 2 (codes "alice") payments_prod (added_db_url ∷ in_sync_event ∷ []))
filter_events_complete_example =
    filter_events_complete watcher (codes "alice") payments_prod 2
      (added_db_url ∷ in_sync_event ∷ []) added_db_url (omega arith)
      (inl (
        refl,
        seen (unfold contains same_segments bytes_eq in refl)
            (unfold allows rules_of allows_by grants action_eq contains same_segments bytes_eq in
              refl)
            (unfold allows rules_of allows_by grants action_eq contains same_segments bytes_eq in
              refl),
      ))

filter_events_prefix_example :
    filter_events watcher 1 (codes "alice") payments_prod (added_db_url ∷ in_sync_event ∷ [])
    ≡ take 1
        (filter_events watcher 2 (codes "alice") payments_prod (added_db_url ∷ in_sync_event ∷ []))
filter_events_prefix_example =
    filter_events_prefix watcher (codes "alice") payments_prod 1 2
      (added_db_url ∷ in_sync_event ∷ []) (omega arith)

filter_events_denied_example : in_sync_event.type ≡ in_sync
filter_events_denied_example =
    filter_events_denied service (codes "alice") payments_prod 1 (in_sync_event ∷ []) in_sync_event
      (unfold can_watch can_list rules_of overlaps_by grants action_eq contains same_segments
          bytes_eq in
        refl)
      (unfold filter_events is_in_sync in inl refl)
