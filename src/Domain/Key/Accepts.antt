-- ===== src/Domain/Key/Accepts.antt =====
-- Exactly which texts ParseKey accepts.
use mathlib.Core.Path.{ap₂}
use vaultlet.Prelude.{
  ℕ, suc, zero, ◌≡◌, ◌≢◌, ◌↔◌, refl, sym, ◌∙◌, [], ◌∷◌, ◌++◌, Bytes, inl, inr, arith, ap,
  Option-cases, none, some, append_assoc, ◌+◌, take, drop, replicate, replicate_shift,
}
use vaultlet.Errors.{ok, err, wrap, sentinel, invalid_key}
use vaultlet.Strings.{slash, trim, trim_left, last_index}
use vaultlet.Strings.Parts.{last_index-append}
use vaultlet.Strings.Ends.{trim-drops_end, trim-head, trim-trailing}
use vaultlet.Domain.Key.{
  Namespace, Key, parse_namespace, parse_key_at, parse_key, namespace_string, key_string, new_key,
}
use vaultlet.Domain.Key.Valid.{
  IsName, IsValidNamespace, IsValidKey, parse_key-IsValid, parse_key_at_checks,
  namespace_string-parse,
}
use vaultlet.Domain.Key.RoundTrip.{
  HasEnds, namespace_string-HasEnds, name-Lacks, parse_key_found, parse_key_at-parts,
  parse_namespace_iff, parse_key-string, key_string_valid,
}

-- The text is cut at the index of its last separator.
last_index-splits :
    (s : Bytes) (sep i : ℕ) → last_index s sep ≡ some i → s ≡ take i s ++ sep ∷ drop (suc i) s
unfolding last_index
last_index-splits [] sep i h = cc
last_index-splits (c ∷ s) sep zero h = ground arith
last_index-splits (c ∷ s) sep (suc i) h = ap (λ r. c ∷ r) (last_index-splits s sep i (ground arith))

take-head : (c : ℕ) (t : Bytes) (i : ℕ) → i ≢ 0 → (r : Bytes) × (take i (c ∷ t) ≡ c ∷ r)
take-head c t zero h = absurd (h refl)
take-head c t (suc i) h = (take i t, refl)

-- A printed namespace, one slash and more, and a name.
abbrev pub spaced : Key → ℕ → Bytes
spaced k m = namespace_string k.ns ++ slash ∷ (replicate m slash ++ k.name)

shift_slash :
    (a : Bytes) (m : ℕ) (b : Bytes)
    → (a ++ replicate m slash) ++ slash ∷ b ≡ a ++ slash ∷ (replicate m slash ++ b)
shift_slash a m b =
    append_assoc a (replicate m slash) (slash ∷ b) ∙ ap (λ r. a ++ r) (replicate_shift m slash b)

spaced_sound :
    (t : Bytes) (i : ℕ) (k : Key)
    → ((c : ℕ) (r : Bytes) → t ≡ c ∷ r → c ≢ slash)
    → last_index t slash ≡ some i
    → parse_key_at t i ≡ ok k
    → (m : ℕ) × (t ≡ spaced k m)
spaced_sound [] i k head found h = unfold last_index in cc
spaced_sound (c ∷ t) i k head found h =
    let (parsed, named, good, pos) = parse_key_at_checks (c ∷ t) i k h in
    let (r, front) = take-head c t i pos in
    let trimmed = namespace_string-parse (take i (c ∷ t)) k.ns parsed in
    let (m, rest) = trim-drops_end c r slash (head c t refl) in
    let prefix : take i (c ∷ t) ≡ namespace_string k.ns ++ replicate m slash =
      front
      ∙ (rest
          ∙ ap (λ x. x ++ replicate m slash) (ap (λ x. trim x slash) (sym front) ∙ sym trimmed)) in
    let next : i + 1 ≡ suc i = omega arith in
    let name : drop (suc i) (c ∷ t) ≡ k.name = sym (named ∙ ap (λ n. drop n (c ∷ t)) next) in
    (
      m,
      last_index-splits (c ∷ t) slash i found
          ∙ (ap₂ (λ (a b : Bytes). a ++ slash ∷ b) prefix name
              ∙ shift_slash (namespace_string k.ns) m k.name),
    )

trimmed_parts :
    (k : Key) (m : ℕ)
    → IsValidKey k
    → parse_namespace (namespace_string k.ns ++ replicate m slash) ≡ ok k.ns
trimmed_parts k m v =
    let ends = namespace_string-HasEnds k.ns v.ns_valid in
    let (c, t, e, hc) = ends.first in
    let (u, d, e', hd) = ends.last in
    (parse_namespace_iff _ k.ns).1
      (v.ns_valid, trim-trailing (namespace_string k.ns) c d t u slash m e e' hc hd)

append-ne-nil : (a b : Bytes) → HasEnds a → a ++ b ≢ []
append-ne-nil [] b h = let (c, t, e, hc) = h.first in λ k. cc
append-ne-nil (x ∷ a) b h = λ k. cc

spaced_complete :
    (s : Bytes) (k : Key) (m : ℕ) → IsValidKey k → trim s slash ≡ spaced k m → parse_key s ≡ ok k
spaced_complete s k m v e =
    let front = namespace_string k.ns ++ replicate m slash in
    let shifted = e ∙ sym (shift_slash (namespace_string k.ns) m k.name) in
    let found = last_index-append front k.name slash (name-Lacks k.name v.name_valid.text.bytes) in
    parse_key_found s _ _ shifted found
    ∙ parse_key_at-parts front k.name k.ns
        (append-ne-nil (namespace_string k.ns) (replicate m slash)
          (namespace_string-HasEnds k.ns v.ns_valid))
        v.name_valid (trimmed_parts k m v)

spaced_of_parse : (s : Bytes) (k : Key) → parse_key s ≡ ok k → (m : ℕ) × (trim s slash ≡ spaced k m)
unfolding parse_key
spaced_of_parse s k h = elim (Option-cases (last_index (trim s slash) slash)) [
  | inl absent ↦ ground arith
  | inr (i, found) ↦
      spaced_sound (trim s slash) i k (λ c r e. trim-head s slash c r e) found (ground arith)
]

-- ParseKey accepts a text exactly if the text without the slashes at its ends is the printed form
-- of a valid namespace, at least one slash, and a valid name. It returns that key.
pub parse_key_iff :
    (s : Bytes) (k : Key)
    → (parse_key s ≡ ok k) ↔ (IsValidKey k × ((m : ℕ) × (trim s slash ≡ spaced k m)))
parse_key_iff s k = (
  λ h. (parse_key-IsValid s k h, spaced_of_parse s k h),
  λ (v, (m, e)). spaced_complete s k m v e,
)

-- NewKey of a valid namespace and a valid name is the key of the two.
pub new_key_lem :
    (n : Namespace) (name : Bytes)
    → IsValidNamespace n
    → IsName name
    → new_key n name ≡ ok (record { ns = n; name = name })
unfolding new_key
new_key_lem n name v g =
    let k : Key = record { ns = n; name = name } in
    let valid : IsValidKey k = record { ns_valid = v; name_valid = g } in
    rw (← key_string_valid k valid) (parse_key-string k valid)

ok-injective : {a b : Key} → ok a ≡ ok b → a ≡ b
ok-injective h = cc

-- Valid keys with the same printed form are the same key.
pub key_string-injective :
    (j k : Key) → IsValidKey j → IsValidKey k → key_string j ≡ key_string k → j ≡ k
key_string-injective j k v w e =
    ok-injective (sym (parse_key-string j v) ∙ (ap parse_key e ∙ parse_key-string k w))

-- Slashes at the ends do not matter to ParseKey.
pub parse_key-trim : (s t : Bytes) → trim s slash ≡ trim t slash → parse_key s ≡ parse_key t
unfolding parse_key
parse_key-trim s t e =
    ap
      (λ u. elim (last_index u slash) [
        | none ↦ err (wrap "%w: %q must be namespace/name" (sentinel invalid_key))
        | some i ↦ parse_key_at u i
      ])
      e

trim-slash : (s : Bytes) → trim (slash ∷ s) slash ≡ trim s slash
unfolding trim
trim-slash s = unfold trim_left in refl

pub parse_key-slash : (s : Bytes) → parse_key (slash ∷ s) ≡ parse_key s
parse_key-slash s = parse_key-trim (slash ∷ s) s (trim-slash s)
