-- ===== src/Domain/Key/RoundTrip.antt =====
-- The parsers of key.go undo the String methods, on every valid key and namespace.
use mathlib.Core.List.{cons-ne-nil}
use vaultlet.Prelude.{
  ℕ, suc, ◌≡◌, ◌≢◌, ◌↔◌, refl, sym, ◌∙◌, true, false, List, [], ◌∷◌, ◌++◌, Bytes, All, arith, ap,
  subst, length, some, append_assoc, ◌+◌, ◌-◌, ◌==◌, ◌||◌, bytes_eq_iff, take-append_length, drop,
  length-append,
}
use vaultlet.Errors.{ok}
use vaultlet.Strings.{slash, trim, split, join, separated, last_index}
use vaultlet.Strings.Parts.{Lacks, split-join, last_index-append}
use vaultlet.Strings.Ends.{trim-keep}
use vaultlet.Regex.{in_class}
use vaultlet.Domain.Key.{
  Namespace, Key, name_rest, lower_digit_dash, parse_namespace, parse_key_at, parse_key,
  namespace_string, key_string, key_is_zero,
}
use vaultlet.Domain.Key.Grammar.{InClass, segment_byte, name_byte}
use vaultlet.Domain.Key.Valid.{
  IsSegment, IsName, IsValidNamespace, IsValidKey, valid-check_segments, IsName-bad_name,
  parse_namespace-IsValid, namespace_string-parse,
}

-- A text that begins and ends with other bytes than the slash.
pub record HasEnds (s : Bytes) : Type 0 where
  pub first : (c : ℕ) × (t : Bytes) × (s ≡ c ∷ t) × (c ≢ slash)
  pub last : (u : Bytes) × (d : ℕ) × (s ≡ u ++ d ∷ []) × (d ≢ slash)

pub trim-HasEnds : {s : Bytes} → HasEnds s → trim s slash ≡ s
trim-HasEnds {s} h =
    let (c, t, e, hc) = h.first in
    let (u, d, e', hd) = h.last in trim-keep s c d t u slash e e' hc hd

pub HasEnds-ne-nil : {s : Bytes} → HasEnds s → s ≢ []
HasEnds-ne-nil h = let (c, t, e, hc) = h.first in λ k. cc

digit_byte : (c : ℕ) → in_class ((b'a', b'z') ∷ (b'0', b'9') ∷ []) c ≡ true → c ≢ slash
unfolding in_class
digit_byte c h = ground arith

pub IsSegment-HasEnds : {s : Bytes} → IsSegment s → HasEnds s
IsSegment-HasEnds g =
    let (c, t, e, hc) = g.text.first in
    let (u, d, e', hd) = g.text.last in
    record { first = (c, t, e, digit_byte c hc); last = (u, d, e', digit_byte d hd) }

pub segment-Lacks : (s : Bytes) → InClass lower_digit_dash s → Lacks slash s
segment-Lacks [] h = tt
segment-Lacks (c ∷ s) (hc, h) = ((segment_byte c hc).0, segment-Lacks s h)

pub name-Lacks : (s : Bytes) → InClass name_rest s → Lacks slash s
name-Lacks [] h = tt
name-Lacks (c ∷ s) (hc, h) = ((name_byte c hc).0, name-Lacks s h)

segments-Lacks : (segs : List Bytes) → All IsSegment segs → All (Lacks slash) segs
segments-Lacks [] h = tt
segments-Lacks (s ∷ segs) (g, h) = (segment-Lacks s g.text.bytes, segments-Lacks segs h)

-- The last byte of a text that is not empty.
last_byte : (c : ℕ) (t : Bytes) → (u : Bytes) × (d : ℕ) × (c ∷ t ≡ u ++ d ∷ [])
last_byte c [] = ([], c, refl)
last_byte c (x ∷ t) = let (u, d, e) = last_byte x t in (c ∷ u, d, ap (λ r. c ∷ r) e)

last-Lacks : (u : Bytes) (d : ℕ) → Lacks slash (u ++ d ∷ []) → d ≢ slash
last-Lacks [] d (h, _) = h
last-Lacks (x ∷ u) d (_, h) = last-Lacks u d h

pub IsName-HasEnds : (s : Bytes) → IsName s → HasEnds s
IsName-HasEnds [] g = let (c, t, e, _) = g.text.first in cc
IsName-HasEnds (x ∷ s) g =
    let (u, d, e) = last_byte x s in
    let lacks = name-Lacks (x ∷ s) g.text.bytes in
    record {
      first = (x, s, refl, lacks.0);
      last = (u, d, e, last-Lacks u d (subst (Lacks slash) e lacks));
    }

-- The last byte stays the last behind any front.
HasEnds-append : (a b : Bytes) {s : Bytes} → HasEnds a → HasEnds b → s ≡ a ++ slash ∷ b → HasEnds s
HasEnds-append a b ha hb whole =
    let (c, t, e, hc) = ha.first in
    let (u, d, e', hd) = hb.last in
    record {
      first = (c, t ++ slash ∷ b, whole ∙ ap (λ r. r ++ slash ∷ b) e, hc);
      last = (
        a ++ slash ∷ u,
        d,
        whole ∙ (ap (λ r. a ++ slash ∷ r) e' ∙ sym (append_assoc a (slash ∷ u) (d ∷ []))),
        hd,
      );
    }

join-HasEnds :
    (p : Bytes) (ps : List Bytes) → All IsSegment (p ∷ ps) → HasEnds (join (p ∷ ps) slash)
unfolding join
join-HasEnds p [] (g, _) = subst HasEnds (sym append-nil_lem) (IsSegment-HasEnds g)
  where
    append-nil_lem : p ++ [] ≡ p
    append-nil_lem = mathlib.Core.List.append-nil p
join-HasEnds p (q ∷ ps) (g, h) =
    HasEnds-append p (q ++ separated ps slash) (IsSegment-HasEnds g) (join-HasEnds q ps h) refl

pub namespace_string-HasEnds : (n : Namespace) → IsValidNamespace n → HasEnds (namespace_string n)
unfolding namespace_string
namespace_string-HasEnds n v = go n.segments v.some_segment v.segments_valid
  where
    go : (segs : List Bytes) → segs ≢ [] → All IsSegment segs → HasEnds (join segs slash)
    go [] h g = absurd (h refl)
    go (p ∷ ps) h g = join-HasEnds p ps g

-- Parsing the printed form of a valid namespace gives the namespace back.
pub parse_namespace-string :
    (n : Namespace) → IsValidNamespace n → parse_namespace (namespace_string n) ≡ ok n
unfolding parse_namespace
parse_namespace-string n v =
    let ends = namespace_string-HasEnds n v in
    let kept = trim-HasEnds ends in
    let parts : split (namespace_string n) slash ≡ n.segments =
      unfold namespace_string in
      split-join n.segments slash (segments-Lacks n.segments v.segments_valid) v.some_segment in
    rw (kept, parts)
      (ground (
        arith,
        bytes_eq_iff (namespace_string n) [],
        HasEnds-ne-nil ends,
        v.shallow,
        valid-check_segments n.segments v.segments_valid,
      ))

-- ParseNamespace accepts a text exactly if the text without the slashes at its ends is the printed
-- form of a valid namespace, which it then returns.
pub parse_namespace_iff :
    (s : Bytes) (n : Namespace)
    → (parse_namespace s ≡ ok n) ↔ (IsValidNamespace n × (trim s slash ≡ namespace_string n))
parse_namespace_iff s n = (
  λ h. (parse_namespace-IsValid s n h, sym (namespace_string-parse s n h)),
  λ (v, e).
      same_trim s (namespace_string n) (e ∙ sym (trim-HasEnds (namespace_string-HasEnds n v)))
      ∙ parse_namespace-string n v,
)
  where
    same_trim : (a b : Bytes) → trim a slash ≡ trim b slash → parse_namespace a ≡ parse_namespace b
    same_trim a b e = unfold parse_namespace in rw e

pub name-ne-nil : {s : Bytes} → IsName s → s ≢ []
name-ne-nil {s} g = HasEnds-ne-nil (IsName-HasEnds s g)

pub key_string_valid :
    (k : Key) → IsValidKey k → key_string k ≡ namespace_string k.ns ++ slash ∷ k.name
unfolding key_string key_is_zero
key_string_valid k v = ground (arith, bytes_eq_iff k.name [], name-ne-nil v.name_valid)

pub key_string-HasEnds : (k : Key) → IsValidKey k → HasEnds (key_string k)
key_string-HasEnds k v =
    HasEnds-append (namespace_string k.ns) k.name (namespace_string-HasEnds k.ns v.ns_valid)
      (IsName-HasEnds k.name v.name_valid) (key_string_valid k v)

-- What stands behind a byte in the middle.
drop-behind : (a b : Bytes) (c : ℕ) → drop (suc (length a)) (a ++ c ∷ b) ≡ b
drop-behind [] b c = refl
drop-behind (x ∷ a) b c = drop-behind a b c

-- A text that is a printed namespace, a slash and a name, at the index of that slash.
pub parse_key_at-parts :
    (a b : Bytes) (n : Namespace)
    → a ≢ []
    → IsName b
    → parse_namespace a ≡ ok n
    → parse_key_at (a ++ slash ∷ b) (length a) ≡ ok (record { ns = n; name = b })
unfolding parse_key_at
parse_key_at-parts [] b n h g p = absurd (h refl)
parse_key_at-parts (c ∷ a) [] n h g p = absurd (name-ne-nil g refl)
parse_key_at-parts (c ∷ a) (d ∷ b) n h g p =
    let next : suc (length a) + 1 ≡ suc (length (c ∷ a)) = omega arith in
    let inside : ((length (c ∷ a) == 0)
          || (length (c ∷ a) == (length ((c ∷ a) ++ slash ∷ d ∷ b) - 1)))
        ≡ false =
      ground (arith, length-append a (slash ∷ d ∷ b)) in
    rw
      (
        inside,
        next,
        take-append_length (c ∷ a) (slash ∷ d ∷ b),
        drop-behind (c ∷ a) (d ∷ b) slash,
        p,
        IsName-bad_name (d ∷ b) g,
      )
      refl

pub parse_key_found :
    (s t : Bytes) (i : ℕ)
    → trim s slash ≡ t
    → last_index t slash ≡ some i
    → parse_key s ≡ parse_key_at t i
unfolding parse_key
parse_key_found s t i e f = ground arith

-- Parsing the printed form of a valid key gives the key back.
pub parse_key-string : (k : Key) → IsValidKey k → parse_key (key_string k) ≡ ok k
parse_key-string k v =
    let parts = key_string_valid k v in
    let found =
      last_index-append (namespace_string k.ns) k.name slash
        (name-Lacks k.name v.name_valid.text.bytes) in
    parse_key_found (key_string k) _ _ (trim-HasEnds (key_string-HasEnds k v) ∙ parts) found
    ∙ parse_key_at-parts (namespace_string k.ns) k.name k.ns
        (HasEnds-ne-nil (namespace_string-HasEnds k.ns v.ns_valid)) v.name_valid
        (parse_namespace-string k.ns v.ns_valid)
