-- ===== src/Adapters/Azure/Name/RoundTrip.antt =====
-- The encoding is undone by the decoder, and never collides.
use vaultlet.Prelude.{ℕ, [], ◌∷◌, ◌++◌, Bytes, length, ◌≡◌, ◌≤◌, ◌↔◌, refl, ◌∙◌, arith}
use vaultlet.Errors.{ok, ◌>>=◌}
use vaultlet.Strings.{slash}
use vaultlet.Domain.Key.{Key, key_string}
use vaultlet.Domain.Key.Valid.{IsValidKey}
use vaultlet.Domain.Key.Accepts.{parse_key-slash}
use vaultlet.Domain.Key.RoundTrip.{parse_key-string}
use vaultlet.Adapters.Escaping.{write_all, read-write_all}
use vaultlet.Adapters.Azure.Name.{put_byte, encode_name, read, decode_name, max_name_len}

read-put_byte : (c : ℕ) (s : Bytes) → read (put_byte c ++ s) ≡ (read s >>= λ r. ok (c ∷ r))
unfolding read put_byte
read-put_byte c [] = ground arith
read-put_byte c (e ∷ s) = ground arith

-- Reading back what was written, whatever the text.
pub read-write : (s : Bytes) → read (write_all put_byte s) ≡ ok s
read-write = read-write_all put_byte read (unfold read in refl) read-put_byte

-- encodeName succeeds exactly if what it writes has at most 127 bytes, and returns that.
pub encode_name_iff :
    (k : Key) (name : Bytes)
    → (encode_name k ≡ ok name)
      ↔ ((name ≡ write_all put_byte (key_string k)) × (length name ≤ max_name_len))
unfolding encode_name
encode_name_iff k name = (λ h. (ground arith, ground arith), λ (e, h). rw (← e) (ground arith))

-- Decoding the name of a valid key gives the key back.
pub decode_name-encode_name :
    (k : Key) (name : Bytes) → IsValidKey k → encode_name k ≡ ok name → decode_name name ≡ ok k
unfolding decode_name
decode_name-encode_name k name v h =
    let written = ((encode_name_iff k name).0 h).0 in
    rw (written, read-write (key_string k)) (parse_key-string k v)

-- A slash in front, which decodes to a leading slash, is trimmed by the parser: for every valid key
-- there is a second name, other than its own, that decodes to it.
pub decode_name_alias :
    (k : Key) → IsValidKey k → decode_name (b'-' ∷ b'1' ∷ write_all put_byte (key_string k)) ≡ ok k
unfolding decode_name
decode_name_alias k v =
    let slashed : read (b'-' ∷ b'1' ∷ write_all put_byte (key_string k))
        ≡ ok (slash ∷ key_string k) =
      unfold write_all put_byte in read-write (slash ∷ key_string k) in
    rw slashed (parse_key-slash (key_string k) ∙ parse_key-string k v)
