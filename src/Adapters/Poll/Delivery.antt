-- ===== src/Adapters/Poll/Delivery.antt =====
-- The goroutine sends a fixed list of events, in order, as far as the subscriber takes them.
use mathlib.Core.Path.{fun_ext}
use vaultlet.Prelude.{
  ℕ, zero, suc, none, some, List, [], ◌∷◌, ◌++◌, Bytes, ◌≡◌, refl, sym, ap, ◌∙◌, Bool-cases, inl,
  inr, append_assoc, append-nil, take,
}
use vaultlet.Errors.{ok, err}
use vaultlet.Domain.Key.{key_string}
use vaultlet.Domain.Secret.{SecretMeta}
use vaultlet.Domain.Event.{SecretEvent, added, deleted, in_sync_event}
use vaultlet.Adapters.Poll.Table.{Seen, find, insert, remove, sort}
use vaultlet.Adapters.Poll.Channel.{
  M, Flow, running, closed, Stream, pure, emit, close, sent_of, ◌>>=◌, ◌>>◌,
}
use vaultlet.Adapters.Poll.{
  snapshot_loop, unchanged, change_type, metas_loop, gone, meta_at, gone_loop, round, Wait,
  ctx_done, tick, poll_loop, goroutine,
}
use vaultlet.Adapters.Poll.Diff.{
  snapshot_events, insert_all, change_events, changed, present_after, gone_events, remove_all, lost,
  round_events, round_seen, loop_events, stream_events,
}

-- Sends the events, then goes on.
pub deliver : {A : Type 0} → List SecretEvent → M A → M A
deliver [] m = m
deliver (ev ∷ evs) m = emit ev >> deliver evs m

module _ {A : Type 0} where
  pub deliver-append :
      (es fs : List SecretEvent) (m : M A) → deliver (es ++ fs) m ≡ deliver es (deliver fs m)
  unfolding deliver
  deliver-append [] fs m = refl
  deliver-append (e ∷ es) fs m = ap (λ (n : M A). emit e >> n) (deliver-append es fs m)

module _ {A B C : Type 0} where
  flow_assoc :
      (f : A → M B) (g : B → M C) (x : Flow A)
      → (elim (let y : Flow B = elim x [ running a st ↦ f a st | closed sent ↦ closed sent ] in y) [
        | running b st ↦ g b st
        | closed sent ↦ closed sent
      ])
        ≡ (elim x [ running a st ↦ (f a >>= g) st | closed sent ↦ closed sent ])
  flow_assoc f g (running a st) = refl
  flow_assoc f g (closed sent) = refl

  pub >>=_assoc : (m : M A) (f : A → M B) (g : B → M C) → (m >>= f >>= g) ≡ (m >>= λ a. f a >>= g)
  >>=_assoc m f g = fun_ext λ st. flow_assoc f g (m st)

module _ {A B : Type 0} where
  pure-bind : (a : A) (f : A → M B) → (pure a >>= f) ≡ f a
  unfolding pure
  pure-bind a f = refl

  pub deliver-bind :
      (es : List SecretEvent) (m : M A) (f : A → M B) → (deliver es m >>= f) ≡ deliver es (m >>= f)
  unfolding deliver
  deliver-bind [] m f = refl
  deliver-bind (e ∷ es) m f =
      >>=_assoc (emit e) (λ _. deliver es m) f ∙ ap (λ (n : M B). emit e >> n) (deliver-bind es m f)

snapshot_loop-deliver :
    (metas : List SecretMeta) (seen : Seen)
    → snapshot_loop metas seen ≡ deliver (snapshot_events metas) (pure (insert_all metas seen))
unfolding snapshot_loop snapshot_events insert_all deliver
snapshot_loop-deliver [] seen = refl
snapshot_loop-deliver (meta ∷ metas) seen =
    ap (λ (n : M Seen). emit (record { type = added; meta = meta }) >> n)
      (snapshot_loop-deliver metas (insert (key_string meta.key) meta seen))

metas_loop-deliver :
    (metas : List SecretMeta) (present : List Bytes) (seen : Seen)
    → metas_loop metas present seen
      ≡ deliver (change_events metas seen) (pure (present_after metas present, changed metas seen))
unfolding metas_loop change_events changed present_after deliver
metas_loop-deliver [] present seen = refl
metas_loop-deliver (meta ∷ metas) present seen =
    elim (Bool-cases (unchanged (find (key_string meta.key) seen) meta)) [
      | inl e ↦ rw e (metas_loop-deliver metas (key_string meta.key ∷ present) seen)
      | inr e ↦ rw e (
          ap
            (λ (n : M (List Bytes × Seen)).
              emit (record { type = change_type (find (key_string meta.key) seen); meta = meta })
              >> n)
            (metas_loop-deliver metas (key_string meta.key ∷ present)
              (insert (key_string meta.key) meta seen)))
    ]

gone_loop-deliver :
    (ks : List Bytes) (seen : Seen)
    → gone_loop ks seen ≡ deliver (gone_events ks seen) (pure (remove_all ks seen))
unfolding gone_loop gone_events remove_all deliver
gone_loop-deliver [] seen = refl
gone_loop-deliver (k ∷ ks) seen =
    ap (λ (n : M Seen). emit (record { type = deleted; meta = meta_at (find k seen) }) >> n)
      (gone_loop-deliver ks (remove k seen))

pub round-deliver :
    (metas : List SecretMeta) (seen : Seen)
    → round metas seen ≡ deliver (round_events metas seen) (pure (round_seen metas seen))
unfolding round round_events round_seen lost
round-deliver metas seen =
    ap
      (λ (n : M (List Bytes × Seen)).
        n >>= λ (present, seen'). gone_loop (sort (gone present seen')) seen')
      (metas_loop-deliver metas [] seen)
    ∙ (deliver-bind (change_events metas seen) _ _
        ∙ (ap (deliver (change_events metas seen)) (
              pure-bind (present_after metas [], changed metas seen) _
              ∙ gone_loop-deliver (lost metas seen) (changed metas seen))
            ∙ sym (deliver-append (change_events metas seen) _ _)))

pub loop_end : List Wait → Seen → M Seen
loop_end [] seen = pure seen
loop_end (ctx_done ∷ waits) seen = close
loop_end (tick (ok metas) e ∷ waits) seen = loop_end waits (round_seen metas seen)
loop_end (tick (err failure) none ∷ waits) seen = loop_end waits seen
loop_end (tick (err failure) (some e) ∷ waits) seen = close

poll_loop-deliver :
    (waits : List Wait) (seen : Seen)
    → poll_loop waits seen ≡ deliver (loop_events waits seen) (loop_end waits seen)
unfolding poll_loop loop_events loop_end
poll_loop-deliver [] seen = unfold deliver in refl
poll_loop-deliver (ctx_done ∷ waits) seen = unfold deliver in refl
poll_loop-deliver (tick (ok metas) e ∷ waits) seen =
    ap (λ (n : M Seen). n >>= poll_loop waits) (round-deliver metas seen)
    ∙ (deliver-bind (round_events metas seen) _ _
        ∙ (ap (deliver (round_events metas seen)) (
              pure-bind (round_seen metas seen) (poll_loop waits)
              ∙ poll_loop-deliver waits (round_seen metas seen))
            ∙ sym (deliver-append (round_events metas seen) _ _)))
poll_loop-deliver (tick (err failure) none ∷ waits) seen = poll_loop-deliver waits seen
poll_loop-deliver (tick (err failure) (some e) ∷ waits) seen = unfold deliver in refl

pub goroutine-deliver :
    (snapshot : List SecretMeta) (waits : List Wait)
    → goroutine snapshot waits
      ≡ deliver (stream_events snapshot waits) (loop_end waits (insert_all snapshot []))
unfolding goroutine stream_events
goroutine-deliver snapshot waits =
    ap (λ (n : M Seen). n >>= λ seen. emit in_sync_event >> poll_loop waits seen)
      (snapshot_loop-deliver snapshot [])
    ∙ (deliver-bind (snapshot_events snapshot) _ _
        ∙ (ap (deliver (snapshot_events snapshot)) (
              pure-bind (insert_all snapshot []) _
              ∙ (ap (λ (n : M Seen). emit in_sync_event >> n)
                    (poll_loop-deliver waits (insert_all snapshot []))
                  ∙ one_more (loop_events waits (insert_all snapshot [])) _))
            ∙ sym (deliver-append (snapshot_events snapshot) _ _)))
  where
    one_more :
        (es : List SecretEvent) (m : M Seen)
        → (emit in_sync_event >> deliver es m) ≡ deliver (in_sync_event ∷ es) m
    one_more es m = unfold deliver in refl

sent-deliver :
    (es : List SecretEvent) (m : M Seen) (sent : List SecretEvent) (room : ℕ)
    → ((st : Stream) → sent_of (m st) ≡ st.sent)
    → sent_of (deliver es m (record { sent = sent; room = room })) ≡ sent ++ take room es
unfolding deliver emit sent_of
sent-deliver [] m sent zero quiet = quiet _ ∙ sym (append-nil sent)
sent-deliver [] m sent (suc room) quiet = quiet _ ∙ sym (append-nil sent)
sent-deliver (e ∷ es) m sent zero quiet = sym (append-nil sent)
sent-deliver (e ∷ es) m sent (suc room) quiet =
    sent-deliver es m (sent ++ e ∷ []) room quiet ∙ append_assoc sent (e ∷ []) (take room es)

sent-loop_end :
    (waits : List Wait) (seen : Seen) (st : Stream) → sent_of (loop_end waits seen st) ≡ st.sent
unfolding loop_end
sent-loop_end [] seen st = unfold sent_of pure in refl
sent-loop_end (ctx_done ∷ waits) seen st = unfold sent_of close in refl
sent-loop_end (tick (ok metas) e ∷ waits) seen st = sent-loop_end waits (round_seen metas seen) st
sent-loop_end (tick (err failure) none ∷ waits) seen st = sent-loop_end waits seen st
sent-loop_end (tick (err failure) (some e) ∷ waits) seen st = unfold sent_of close in refl

-- The stream of a subscriber that is gone after `room` sends is the first `room` events of the
-- stream of one that stays: the snapshot as Added events, InSync, and then each later snapshot's
-- changes and deletions.
pub goroutine_sent :
    (snapshot : List SecretMeta) (waits : List Wait) (room : ℕ)
    → sent_of (goroutine snapshot waits (record { sent = []; room = room }))
      ≡ take room (stream_events snapshot waits)
goroutine_sent snapshot waits room = rw goroutine-deliver (
    sent-deliver (stream_events snapshot waits) _ [] room
      (sent-loop_end waits (insert_all snapshot [])))
