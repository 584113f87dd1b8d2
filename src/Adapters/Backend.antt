-- ===== src/Adapters/Backend.antt =====
-- What the backends share: calls of a client as actions on its state, and the listing's order.
pub mod Order
use vaultlet.Prelude.{
  ℕ, Bool, true, false, Option, none, some, List, [], ◌∷◌, Bytes, ◌==◌, if◌then◌else◌,
}
use vaultlet.Errors.{Error, sentinel, plain, wrap, wrap_both, response, Result, ok, err}
use vaultlet.Strings.{before}
use vaultlet.Domain.Key.{key_string}
use vaultlet.Domain.Secret.{SecretMeta}

-- A call that may fail, over the client's state `W`.
abbrev pub Exec : Type 0 → Type 0 → Type 0
Exec W A = W → Result A × W

abbrev continue : {W A B : Type 0} → Result A → (A → Exec W B) → Exec W B
continue (ok a) f w = f a w
continue (err e) f w = (err e, w)

infixl 5 ◌>>=◌ ◌>>◌
abbrev pub ◌>>=◌ : {W A B : Type 0} → Exec W A → (A → Exec W B) → Exec W B
◌>>=◌ m f w = let (r, w') = m w in continue r f w'

abbrev pub ◌>>◌ : {W B : Type 0} → Exec W (Unit {0}) → Exec W B → Exec W B
m >> n = m >>= λ _. n

-- A result that needs no call.
abbrev pub lift : {W A : Type 0} → Result A → Exec W A
lift r w = (r, w)

-- `if b { return err }`
abbrev pub refuse_if : {W : Type 0} → Bool → Error → Exec W (Unit {0})
refuse_if b e w = (if b then err e else ok tt, w)

-- The error of a failed call, changed on the way out.
abbrev change : {A : Type 0} → (Error → Error) → Result A → Result A
change f (ok a) = ok a
change f (err e) = err (f e)

abbrev pub wrapped : {W A : Type 0} → (Error → Error) → Exec W A → Exec W A
wrapped f m w = let (r, w') = m w in (change f r, w')

unfoldable pub insert_meta : SecretMeta → List SecretMeta → List SecretMeta
insert_meta m [] = m ∷ []
insert_meta m (n ∷ ns) =
    if before (key_string n.key) (key_string m.key) then n ∷ insert_meta m ns else m ∷ n ∷ ns

-- slices.SortFunc by strings.Compare of the printed keys.
unfoldable pub sort_by_key : List SecretMeta → List SecretMeta
unfolding insert_meta
sort_by_key [] = []
sort_by_key (m ∷ ms) = insert_meta m (sort_by_key ms)
