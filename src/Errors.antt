-- ===== src/Errors.antt =====
-- Go error values: the sentinels of domain, ports, app and the adapters, wrapping by fmt.Errorf,
-- and errors.Is. A text is kept as its format, without the arguments.
use Prim.Native.String.{String}
use vaultlet.Prelude.{Bool, false, ◌||◌, ℕ, ◌==◌, ◌≡◌, refl, ◌⊎◌, inl, inr}

-- The values that errors.New makes at package level, and the two of package context.
pub data Sentinel : Type 0 where
  invalid_key invalid_namespace empty_value invalid_version : Sentinel
  not_found read_only permission_denied : Sentinel
  id_too_long name_too_long : Sentinel
  canceled deadline_exceeded : Sentinel

unfoldable pub number : Sentinel → ℕ
number invalid_key = 0
number invalid_namespace = 1
number empty_value = 2
number invalid_version = 3
number not_found = 4
number read_only = 5
number permission_denied = 6
number id_too_long = 7
number name_too_long = 8
number canceled = 9
number deadline_exceeded = 10

pub data Error : Type 0 where
  sentinel : Sentinel → Error
  -- an error made in place, with nothing wrapped
  plain : String → Error
  -- fmt.Errorf with one %w, and with two
  wrap : String → Error → Error
  wrap_both : String → Error → Error → Error
  -- an error of a client library that carries a status number
  response : ℕ → Error

-- Identity of sentinels.
unfoldable pub same : Sentinel → Sentinel → Bool
unfolding number
same a b = number a == number b

-- errors.Is(err, target)
unfoldable pub is : Error → Sentinel → Bool
unfolding same
is (sentinel s) target = same s target
is (plain t) target = false
is (wrap t e) target = is e target
is (wrap_both t e f) target = is e target || is f target
is (response n) target = false

-- What a Go function with an error result returns: a value with a nil error, or the error.
pub data Result {ℓ} (A : Type ℓ) : Type ℓ where
  err : Error → Result A
  ok : A → Result A

pub Result-cases {ℓ} :
    {T : Type ℓ} (res : Result T)
    → ((value : T) × (res ≡ ok value)) ⊎ ((failure : Error) × (res ≡ err failure))
Result-cases (err failure) = inr (failure, refl)
Result-cases (ok value) = inl (value, refl)

-- `if err != nil { return err }` behind a call, with a value and without.
infixl 5 ◌>>◌ ◌>>=◌
abbrev pub ◌>>=◌ {ℓ κ} : {T : Type ℓ} {U : Type κ} → Result T → (T → Result U) → Result U
err failure >>= rest = err failure
ok value >>= rest = rest value

abbrev pub ◌>>◌ {ℓ} : {U : Type ℓ} → Result (Unit {0}) → Result U → Result U
check >> rest = check >>= (λ _. rest)

-- Both calls of a sequence that succeeds have succeeded.
pub >>=-eq-ok {ℓ κ} :
    {T : Type ℓ} {U : Type κ} (first : Result T) (rest : T → Result U) {value : U}
    → (first >>= rest) ≡ ok value
    → (mid : T) × (first ≡ ok mid) × (rest mid ≡ ok value)
>>=-eq-ok (err failure) rest h = cc
>>=-eq-ok (ok mid) rest h = (mid, refl, h)
