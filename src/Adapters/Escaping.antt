-- ===== src/Adapters/Escaping.antt =====
-- What the two name encodings share: a text written byte by byte, and a reader that takes back what
-- one byte was written as. (azure/name.go and gcp/name.go each have their own pair of functions.)
use vaultlet.Prelude.{ℕ, [], ◌∷◌, ◌++◌, Bytes, ◌≡◌, refl, All, All-append, append_assoc}
use vaultlet.Errors.{Result, ok, ◌>>=◌}

module _ (put_byte : ℕ → Bytes) where
  -- The encoder's loop, which appends to a strings.Builder.
  unfoldable pub write_all : Bytes → Bytes
  write_all [] = []
  write_all (c ∷ s) = put_byte c ++ write_all s

  pub write_all-append : (a b : Bytes) → write_all (a ++ b) ≡ write_all a ++ write_all b
  unfolding write_all
  write_all-append [] b = refl
  write_all-append (c ∷ a) b = simp (write_all-append a b, append_assoc)

  pub All-write_all :
      (P : ℕ → Type 0) (Q : ℕ → Type 0)
      → ((c : ℕ) → Q c → All P (put_byte c))
      → (s : Bytes) → All Q s
      → All P (write_all s)
  unfolding write_all
  All-write_all P Q h [] q = tt
  All-write_all P Q h (c ∷ s) (qc, q) =
      All-append P (put_byte c) (write_all s) (h c qc) (All-write_all P Q h s q)

module _ (put_byte : ℕ → Bytes) (read : Bytes → Result Bytes) (read_empty : read [] ≡ ok [])
    (read_step : (c : ℕ) (s : Bytes) → read (put_byte c ++ s) ≡ (read s >>= λ r. ok (c ∷ r))) where
  -- The reader undoes the writer, on every text.
  pub read-write_all : (s : Bytes) → read (write_all put_byte s) ≡ ok s
  unfolding write_all
  read-write_all [] = read_empty
  read-write_all (c ∷ s) = rw (read_step c (write_all put_byte s), read-write_all s)
