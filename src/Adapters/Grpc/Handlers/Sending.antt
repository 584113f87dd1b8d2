-- ===== src/Adapters/Grpc/Handlers/Sending.antt =====
-- What the loop of WatchSecrets delivers.
use vaultlet.Prelude.{
  ℕ, zero, suc, Bool, ◌||◌, List, [], ◌∷◌, ◌++◌, length, take, replicate, leb, if◌then◌else◌, ◌≡◌,
  refl, arith,
}
use vaultlet.Domain.Event.{SecretEvent}
use vaultlet.Adapters.Grpc.Auth.{reply, fail}
use vaultlet.Adapters.Grpc.Handlers.{
  WireEvent, wire_event, SendResult, sent, broken, send_all, internal_status,
}

abbrev pub wire_events : List SecretEvent → List WireEvent
wire_events [] = []
wire_events (ev ∷ evs) = wire_event ev ∷ wire_events evs

-- With `n` sends that succeed before one that fails, the client gets the first `n` events of the
-- channel in their order. The RPC ends with OK if that was all of them, or if the context had ended
-- when the send failed, and with an internal error otherwise.
pub send_all_broken :
    (n : ℕ) (ended : Bool) (rest : List SendResult) (evs : List SecretEvent)
    → send_all (replicate n sent ++ broken ended ∷ rest) evs ≡ (
      if leb (length evs) n || ended then reply tt else fail internal_status,
      wire_events (take n evs),
    )
unfolding send_all
send_all_broken zero ended rest [] = refl
send_all_broken (suc n) ended rest [] = ground arith
send_all_broken zero ended rest (ev ∷ evs) = ground arith
send_all_broken (suc n) ended rest (ev ∷ evs) = ground (arith, send_all_broken n ended rest evs)
