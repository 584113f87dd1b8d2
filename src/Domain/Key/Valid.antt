-- ===== src/Domain/Key/Valid.antt =====
-- The keys and namespaces that the parsers of key.go return.
use vaultlet.Prelude.{
  ℕ, ◌≤◌, ◌≡◌, ◌≢◌, refl, true, false, List, [], ◌∷◌, Bytes, All, inl, inr, arith, Bool-cases,
  length, Option-cases, not, Bool, take, drop, ◌+◌, ℕ,
}
use vaultlet.Errors.{Result, ok, err}
use vaultlet.Strings.{slash, trim, split, last_index}
use vaultlet.Strings.Parts.{split-ne-nil, join-split}
use vaultlet.Domain.Key.{
  Namespace, Key, max_segment_len, max_name_len, max_namespace_depth, bad_segment, check_segments,
  parse_namespace, bad_name, hide_error, parse_key_at, parse_key, namespace_string,
}
use vaultlet.Domain.Key.Grammar.{
  IsSegmentText, IsNameText, segment_re-accepts_iff, name_re-accepts_iff,
}

pub record IsSegment (s : Bytes) : Type 0 where
  pub text : IsSegmentText s
  pub short : length s ≤ max_segment_len

pub record IsName (s : Bytes) : Type 0 where
  pub text : IsNameText s
  pub short : length s ≤ max_name_len

-- One to eight segments.
pub record IsValidNamespace (n : Namespace) : Type 0 where
  pub some_segment : n.segments ≢ []
  pub shallow : length n.segments ≤ max_namespace_depth
  pub segments_valid : All IsSegment n.segments

pub record IsValidKey (k : Key) : Type 0 where
  pub ns_valid : IsValidNamespace k.ns
  pub name_valid : IsName k.name

not-true : (b : Bool) → not b ≡ false → b ≡ true
not-true true h = refl
not-true false h = cc

bad_segment-IsSegment : (s : Bytes) → bad_segment s ≡ false → IsSegment s
unfolding bad_segment
bad_segment-IsSegment s h = record {
  text = (segment_re-accepts_iff s).0 (ground arith);
  short = ground arith;
}

pub IsSegment-bad_segment : (s : Bytes) → IsSegment s → bad_segment s ≡ false
unfolding bad_segment
IsSegment-bad_segment s g = ground (arith, (segment_re-accepts_iff s).1 g.text, g.short)

bad_name-IsName : (s : Bytes) → bad_name s ≡ false → IsName s
unfolding bad_name
bad_name-IsName s h = record {
  text = (name_re-accepts_iff s).0 (ground arith);
  short = ground arith;
}

pub IsName-bad_name : (s : Bytes) → IsName s → bad_name s ≡ false
unfolding bad_name
IsName-bad_name s g = ground (arith, (name_re-accepts_iff s).1 g.text, g.short)

check_segments-valid : (segs : List Bytes) → check_segments segs ≡ ok tt → All IsSegment segs
unfolding check_segments
check_segments-valid [] h = tt
check_segments-valid (seg ∷ segs) h = elim (Bool-cases (bad_segment seg)) [
  | inl bad ↦ ground (arith)
  | inr good ↦ (bad_segment-IsSegment seg good, check_segments-valid segs (ground (arith)))
]

pub valid-check_segments : (segs : List Bytes) → All IsSegment segs → check_segments segs ≡ ok tt
unfolding check_segments
valid-check_segments [] h = refl
valid-check_segments (seg ∷ segs) (g, h) =
    ground (arith, IsSegment-bad_segment seg g, valid-check_segments segs h)

-- What a successful parse has checked.
pub parse_namespace_checks :
    (s : Bytes) (n : Namespace)
    → parse_namespace s ≡ ok n
    → (n.segments ≡ split (trim s slash) slash)
      × (length n.segments ≤ max_namespace_depth)
      × (check_segments n.segments ≡ ok tt)
unfolding parse_namespace
parse_namespace_checks s n h = ground arith

-- ParseNamespace returns only namespaces of one to eight valid segments.
pub parse_namespace-IsValid :
    (s : Bytes) (n : Namespace) → parse_namespace s ≡ ok n → IsValidNamespace n
parse_namespace-IsValid s n h =
    let (parts, shallow, checked) = parse_namespace_checks s n h in
    record {
      some_segment = rw parts (split-ne-nil (trim s slash) slash);
      shallow = shallow;
      segments_valid = check_segments-valid n.segments checked;
    }

-- What it returns prints as the trimmed text.
pub namespace_string-parse :
    (s : Bytes) (n : Namespace) → parse_namespace s ≡ ok n → namespace_string n ≡ trim s slash
unfolding namespace_string
namespace_string-parse s n h =
    let (parts, shallow, checked) = parse_namespace_checks s n h in
    rw parts (join-split (trim s slash) slash)

hide_error-ok : (r : Result Namespace) (n : Namespace) → hide_error r ≡ ok n → r ≡ ok n
hide_error-ok (ok m) n h = h
hide_error-ok (err e) n h = cc

-- A successful parse of a key at the index of its last slash.
pub parse_key_at_checks :
    (s : Bytes) (i : ℕ) (k : Key)
    → parse_key_at s i ≡ ok k
    → (parse_namespace (take i s) ≡ ok k.ns)
      × (k.name ≡ drop (i + 1) s)
      × (bad_name k.name ≡ false)
      × (i ≢ 0)
unfolding parse_key_at
parse_key_at_checks s i k h = ground arith

-- ParseKey returns only keys of a valid namespace and a valid name.
pub parse_key-IsValid : (s : Bytes) (k : Key) → parse_key s ≡ ok k → IsValidKey k
unfolding parse_key
parse_key-IsValid s k h = elim (Option-cases (last_index (trim s slash) slash)) [
  | inl absent ↦ ground arith
  | inr (i, found) ↦
      let (parsed, named, good, _) = parse_key_at_checks (trim s slash) i k (ground arith) in
      record {
        ns_valid = parse_namespace-IsValid _ k.ns parsed;
        name_valid = bad_name-IsName k.name good;
      }
]
