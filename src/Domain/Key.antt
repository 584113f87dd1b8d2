-- ===== src/Domain/Key.antt =====
-- internal/domain/key.go: the types Namespace and Key, their parsers and their methods.
pub mod Grammar
pub mod Valid
pub mod RoundTrip
pub mod Accepts
pub mod Alphabet
pub mod Containment
use vaultlet.Prelude.{
  ℕ, ◌+◌, ◌-◌, zero, suc, Bool, true, false, not, ◌&&◌, ◌||◌, Option, none, some, List, [], ◌∷◌,
  ◌++◌, Bytes, bytes_eq, ltb, leb, ◌==◌, if◌then◌else◌, length, take, drop,
}
use vaultlet.Errors.{
  Error, sentinel, wrap, Result, ok, err, ◌>>=◌, ◌>>◌, invalid_key, invalid_namespace,
}
use vaultlet.Regex.{Regex, eps, class, seq, alt, star, matches}
use vaultlet.Strings.{slash, trim, split, join, last_index}

abbrev pub max_namespace_depth : ℕ
max_namespace_depth = 8

abbrev pub max_segment_len : ℕ
max_segment_len = 63

abbrev pub max_name_len : ℕ
max_name_len = 128

abbrev pub lower_digit : List (ℕ × ℕ)
lower_digit = (b'a', b'z') ∷ (b'0', b'9') ∷ []

abbrev pub lower_digit_dash : List (ℕ × ℕ)
lower_digit_dash = (b'a', b'z') ∷ (b'0', b'9') ∷ (b'-', b'-') ∷ []

abbrev pub alnum : List (ℕ × ℕ)
alnum = (b'A', b'Z') ∷ (b'a', b'z') ∷ (b'0', b'9') ∷ []

abbrev pub name_rest : List (ℕ × ℕ)
name_rest =
    (b'A', b'Z') ∷ (b'a', b'z') ∷ (b'0', b'9') ∷ (b'_', b'_') ∷ (b'.', b'.') ∷ (b'-', b'-') ∷ []

-- ^[a-z0-9]([a-z0-9-]*[a-z0-9])?$
unfoldable pub segment_re : Regex
segment_re =
    seq (class lower_digit) (alt (seq (star (class lower_digit_dash)) (class lower_digit)) eps)

-- ^[A-Za-z0-9][A-Za-z0-9_.-]*$
unfoldable pub name_re : Regex
name_re = seq (class alnum) (star (class name_rest))

pub record Namespace : Type 0 where
  pub segments : List Bytes

pub record Key : Type 0 where
  pub ns : Namespace
  pub name : Bytes

-- Namespace{}: it contains every namespace.
abbrev pub zero_namespace : Namespace
zero_namespace = record { segments = [] }

-- Key{}
abbrev pub zero_key : Key
zero_key = record { ns = zero_namespace; name = [] }

-- The test of the loop over the segments.
unfoldable pub bad_segment : Bytes → Bool
bad_segment seg = ltb max_segment_len (length seg) || not (matches segment_re seg)

unfoldable pub check_segments : List Bytes → Result (Unit {0})
check_segments [] = ok tt
check_segments (seg ∷ segs) =
    if bad_segment seg
    then err (wrap "%w: bad segment %q" (sentinel invalid_namespace))
    else check_segments segs

unfoldable pub parse_namespace : Bytes → Result Namespace
parse_namespace text =
    let s = trim text slash in
    let segs = split s slash in
    if bytes_eq s []
    then err (wrap "%w: empty" (sentinel invalid_namespace))
    else if ltb max_namespace_depth (length segs)
    then err (wrap "%w: depth %d exceeds %d" (sentinel invalid_namespace))
    else (check_segments segs >> ok (record { segments = segs }))

unfoldable pub bad_name : Bytes → Bool
bad_name name = ltb max_name_len (length name) || not (matches name_re name)

-- `%v` formats the namespace's error and does not wrap it.
abbrev pub hide_error {ℓ} : {A : Type ℓ} → Result A → Result A
hide_error (ok a) = ok a
hide_error (err e) = err (wrap "%w: %v" (sentinel invalid_key))

-- What ParseKey does at the index `i` of the last slash of the trimmed text.
unfoldable pub parse_key_at : Bytes → ℕ → Result Key
parse_key_at s i =
    let name = drop (i + 1) s in
    if (i == 0) || (i == (length s - 1))
    then err (wrap "%w: %q must be namespace/name" (sentinel invalid_key))
    else (hide_error (parse_namespace (take i s)) >>= λ ns.
        if bad_name name
        then err (wrap "%w: bad name %q" (sentinel invalid_key))
        else ok (record { ns = ns; name = name }))

unfoldable pub parse_key : Bytes → Result Key
parse_key text =
    let s = trim text slash in
    elim (last_index s slash) [
      | none ↦ err (wrap "%w: %q must be namespace/name" (sentinel invalid_key))
      | some i ↦ parse_key_at s i
    ]

-- Namespace.String
unfoldable pub namespace_string : Namespace → Bytes
namespace_string n = join n.segments slash

unfoldable pub new_key : Namespace → Bytes → Result Key
new_key ns name = parse_key (namespace_string ns ++ slash ∷ name)

-- Key.IsZero
unfoldable pub key_is_zero : Key → Bool
key_is_zero k = bytes_eq k.name []

-- Key.String
unfoldable pub key_string : Key → Bytes
key_string k = if key_is_zero k then [] else namespace_string k.ns ++ slash ∷ k.name

-- Namespace.IsZero
unfoldable pub namespace_is_zero : Namespace → Bool
namespace_is_zero n = length n.segments == 0

unfoldable pub depth : Namespace → ℕ
depth n = length n.segments

unfoldable pub parent : Namespace → Namespace
parent n =
    if leb (length n.segments) 1
    then zero_namespace
    else record { segments = take (length n.segments - 1) n.segments }

-- The loop of Contains; the last clause is an index out of range, which the test on the lengths
-- excludes.
unfoldable pub same_segments : List Bytes → List Bytes → Bool
same_segments [] other = true
same_segments (seg ∷ segs) (o ∷ os) = bytes_eq o seg && same_segments segs os
same_segments (seg ∷ segs) [] = false

unfoldable pub contains : Namespace → Namespace → Bool
unfolding same_segments
contains n other =
    if ltb (length other.segments) (length n.segments)
    then false
    else same_segments n.segments other.segments
