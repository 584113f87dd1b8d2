-- ===== src/Ports.antt =====
-- internal/ports/secretstore.go: the interface that every backend and the service implement, over
-- the backend's state `W`; and the part of context.Context that the program reads.
pub mod Laws
use vaultlet.Prelude.{Option, List, Bytes}
use vaultlet.Errors.{Error, Result}
use vaultlet.Domain.Key.{Key, Namespace}
use vaultlet.Domain.Secret.{Secret, SecretMeta}
use vaultlet.Domain.Event.{SecretEvent}

-- The principal that authentication attached, and what ctx.Err() returns when it is asked.
pub record Context : Type 0 where
  pub principal : Option Bytes
  pub done : Option Error

-- A channel is given by the events that it delivers before it closes.
pub record SecretStore (W : Type 0) : Type 0 where
  pub get : Context → Key → W → Result Secret × W
  pub put : Context → Key → Bytes → W → Result SecretMeta × W
  pub list : Context → Namespace → W → Result (List SecretMeta) × W
  pub delete : Context → Key → W → Result (Unit {0}) × W
  pub watch : Context → Namespace → W → Result (List SecretEvent) × W
