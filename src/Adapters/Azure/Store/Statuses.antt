-- ===== src/Adapters/Azure/Store/Statuses.antt =====
-- The status that a failed call of the Key Vault client carries, and what the purge loop makes of it.
use vaultlet.Prelude.{
  ℕ, none, some, ◌≡◌, ◌⊎◌, inl, inr, refl, ap, arith, Option-cases, Bool-cases, ◌==◌,
}
use vaultlet.Errors.{Error, sentinel, plain, wrap, wrap_both, response, Result, ok, err}
use vaultlet.Adapters.Azure.Store.{as_response, status_code, verdict, purged, retry, failed}

-- No response error is in the chain.
abbrev pub NoStatus : Error → Type 0
NoStatus (sentinel s) = Unit
NoStatus (plain t) = Unit
NoStatus (wrap t e) = NoStatus e
NoStatus (wrap_both t e f) = NoStatus e × NoStatus f
NoStatus (response m) = ⊥

-- The first response error of the chain has the status.
abbrev pub HasStatus : ℕ → Error → Type 0
HasStatus n (sentinel s) = ⊥
HasStatus n (plain t) = ⊥
HasStatus n (wrap t e) = HasStatus n e
HasStatus n (wrap_both t e f) = HasStatus n e ⊎ (NoStatus e × HasStatus n f)
HasStatus n (response m) = m ≡ n

NoStatus-as_response : (e : Error) → as_response e ≡ none → NoStatus e
unfolding as_response
NoStatus-as_response (sentinel s) h = tt
NoStatus-as_response (plain t) h = tt
NoStatus-as_response (wrap t e) h = NoStatus-as_response e h
NoStatus-as_response (wrap_both t e f) h = elim (Option-cases (as_response e)) [
  | inl a ↦ (NoStatus-as_response e a, NoStatus-as_response f (ground arith))
  | inr (n, a) ↦ ground arith
]
NoStatus-as_response (response m) h = cc

as_response-NoStatus : (e : Error) → NoStatus e → as_response e ≡ none
unfolding as_response
as_response-NoStatus (sentinel s) h = refl
as_response-NoStatus (plain t) h = refl
as_response-NoStatus (wrap t e) h = as_response-NoStatus e h
as_response-NoStatus (wrap_both t e f) (he, hf) =
    rw (as_response-NoStatus e he) (as_response-NoStatus f hf)
as_response-NoStatus (response m) h = absurd h

HasStatus-as_response : (n : ℕ) (e : Error) → as_response e ≡ some n → HasStatus n e
unfolding as_response
HasStatus-as_response n (sentinel s) h = cc
HasStatus-as_response n (plain t) h = cc
HasStatus-as_response n (wrap t e) h = HasStatus-as_response n e h
HasStatus-as_response n (wrap_both t e f) h = elim (Option-cases (as_response e)) [
  | inl a ↦ inr (NoStatus-as_response e a, HasStatus-as_response n f (ground arith))
  | inr (m, a) ↦ inl (HasStatus-as_response n e (ground arith))
]
HasStatus-as_response n (response m) h = cc

as_response-HasStatus : (n : ℕ) (e : Error) → HasStatus n e → as_response e ≡ some n
unfolding as_response
as_response-HasStatus n (sentinel s) h = absurd h
as_response-HasStatus n (plain t) h = absurd h
as_response-HasStatus n (wrap t e) h = as_response-HasStatus n e h
as_response-HasStatus n (wrap_both t e f) (inl h) = rw (as_response-HasStatus n e h)
as_response-HasStatus n (wrap_both t e f) (inr (none_yet, h)) =
    rw (as_response-NoStatus e none_yet) (as_response-HasStatus n f h)
as_response-HasStatus n (response m) h = ap some h

-- The purge is done: it succeeded, or the secret was not found.
pub data IsSettled : Result (Unit {0}) → Type 0 where
  succeeded : IsSettled (ok tt)
  missing : (e : Error) → HasStatus 404 e → IsSettled (err e)

-- The secret is still being deleted.
pub data IsConflict : Result (Unit {0}) → Type 0 where
  conflict : (e : Error) → HasStatus 409 e → IsConflict (err e)

pub verdict-IsSettled : (r : Result (Unit {0})) → IsSettled r → verdict r ≡ purged
unfolding verdict status_code
verdict-IsSettled _ succeeded = refl
verdict-IsSettled _ (missing e h) = rw (as_response-HasStatus 404 e h) refl

pub verdict-IsConflict :
    (r : Result (Unit {0})) → IsConflict r → (e : Error) × (verdict r ≡ retry e)
unfolding verdict status_code
verdict-IsConflict _ (conflict e h) = (e, rw (as_response-HasStatus 409 e h) refl)

-- Of every answer the loop is done, tries again, or fails.
pub verdict-cases :
    (r : Result (Unit {0}))
    → (IsSettled r × (verdict r ≡ purged))
      ⊎ ((IsConflict r × ((e : Error) × (verdict r ≡ retry e)))
          ⊎ ((e : Error) × (verdict r ≡ failed e)))
unfolding verdict status_code
verdict-cases (ok u) = inl (succeeded, refl)
verdict-cases (err e) = elim (Option-cases (as_response e)) [
  | inl a ↦ inr (inr (e, rw a refl))
  | inr (n, a) ↦ with_status n a
]
  where
    with_status :
        (n : ℕ)
        → as_response e ≡ some n
        → (IsSettled (err e) × (verdict (err e) ≡ purged))
          ⊎ ((IsConflict (err e) × ((d : Error) × (verdict (err e) ≡ retry d)))
              ⊎ ((d : Error) × (verdict (err e) ≡ failed d)))
    with_status n a = elim (Bool-cases (n == 404)) [
      | inl h ↦ inl (
        missing e (HasStatus-as_response 404 e (ground arith)),
        rw (a, status_code) (ground arith),
      )
      | inr h ↦ elim (Bool-cases (n == 409)) [
        | inl g ↦
            inr (inl (conflict e (HasStatus-as_response 409 e (ground arith)), (e, ground arith)))
        | inr g ↦ inr (inr (e, ground arith))
      ]
    ]
