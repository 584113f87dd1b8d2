-- ===== src/Adapters/Poll/Channel.antt =====
-- The goroutine's channel. `emit` sends one event, unless the subscriber is gone: `room` is the
-- number of sends that succeed before the end of the context is selected, and then the goroutine
-- returns and the deferred close closes the channel.
use vaultlet.Prelude.{ℕ, zero, suc, List, [], ◌∷◌, ◌++◌}
use vaultlet.Domain.Event.{SecretEvent}

pub record Stream : Type 0 where
  pub sent : List SecretEvent
  pub room : ℕ

-- The goroutine goes on with a value, or has returned with what was sent.
pub data Flow (A : Type 0) : Type 0 where
  running : A → Stream → Flow A
  closed : List SecretEvent → Flow A

abbrev pub M : Type 0 → Type 0
M A = Stream → Flow A

unfoldable pub pure : {A : Type 0} → A → M A
pure a st = running a st

-- The goroutine returns.
unfoldable pub close : {A : Type 0} → M A
close st = closed st.sent

abbrev send : SecretEvent → List SecretEvent → ℕ → Flow (Unit {0})
send ev sent zero = closed sent
send ev sent (suc room) = running tt (record { sent = sent ++ ev ∷ []; room = room })

unfoldable pub emit : SecretEvent → M (Unit {0})
emit ev st = send ev st.sent st.room

infixl 5 ◌>>=◌ ◌>>◌
abbrev pub ◌>>=◌ : {A B : Type 0} → M A → (A → M B) → M B
◌>>=◌ m f st = elim (m st) [ running a st' ↦ f a st' | closed sent ↦ closed sent ]

abbrev pub ◌>>◌ : {B : Type 0} → M (Unit {0}) → M B → M B
m >> n = m >>= λ _. n

unfoldable pub sent_of : {A : Type 0} → Flow A → List SecretEvent
sent_of (running a st) = st.sent
sent_of (closed sent) = sent
