-- ===== src/Domain/Event.antt =====
-- internal/domain/event.go: what a watch delivers.
use vaultlet.Prelude.{Bool, true, false, Bytes}
use vaultlet.Domain.Key.{zero_key}
use vaultlet.Domain.Secret.{SecretMeta, zero_version}

-- The type is a string in the source: four constants and any other text.
pub data EventType : Type 0 where
  added updated deleted in_sync : EventType
  other : Bytes → EventType

pub record SecretEvent : Type 0 where
  pub type : EventType
  pub meta : SecretMeta

abbrev pub zero_meta : SecretMeta
zero_meta = record { key = zero_key; version = zero_version; created_at = 0 }

-- SecretEvent{Type: InSync}
abbrev pub in_sync_event : SecretEvent
in_sync_event = record { type = in_sync; meta = zero_meta }

unfoldable pub is_in_sync : EventType → Bool
is_in_sync in_sync = true
is_in_sync added = false
is_in_sync updated = false
is_in_sync deleted = false
is_in_sync (other t) = false
