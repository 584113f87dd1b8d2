-- ===== src/Config/Load.antt =====
-- internal/config/config.go, Load: the three layers of the configuration. koanf with its parsers and
-- providers is a parameter.
use vaultlet.Prelude.{
  Bool, true, false, Option, none, some, [], ◌∷◌, Bytes, codes, leb, ◌&&◌, ◌==◌, ◌+◌, if◌then◌else◌,
}
use vaultlet.Errors.{Error, Result, ok, err}
use vaultlet.Strings.{cut_prefix}
use vaultlet.Config.{Config}
use vaultlet.Adapters.Backend.{Exec, ◌>>=◌, lift}

-- strings.ToLower of a text of ASCII characters.
unfoldable pub to_lower : Bytes → Bytes
to_lower [] = []
to_lower (c ∷ s) = (if leb b'A' c && leb c b'Z' then c + 32 else c) ∷ to_lower s

-- strings.ReplaceAll(s, "__", ".")
unfoldable pub replace_underscores : Bytes → Bytes
replace_underscores [] = []
replace_underscores (c ∷ []) = c ∷ []
replace_underscores (c ∷ d ∷ s) = elim (c == b'_' && d == b'_') [
  | true ↦ b'.' ∷ replace_underscores s
  | false ↦ c ∷ replace_underscores (d ∷ s)
]

abbrev without_prefix : Bytes → Option Bytes → Bytes
without_prefix s none = s
without_prefix s (some rest) = rest

-- The key of a variable: VAULTLET_TLS__CERT_FILE is tls.cert_file.
unfoldable pub env_key : Bytes → Bytes
unfolding cut_prefix to_lower replace_underscores
env_key s = replace_underscores (to_lower (without_prefix s (cut_prefix s (codes "VAULTLET_"))))

-- koanf over the world `W`: what is loaded so far is a `Keys`. A variable is loaded if its name
-- begins with the prefix, under the key that the function gives.
pub record Koanf (W : Type 0) : Type 1 where
  pub Keys : Type 0
  pub new : Keys
  pub load_yaml : Bytes → Keys → Exec W Keys
  pub load_dotenv : Bytes → Bytes → (Bytes → Bytes) → Keys → Exec W Keys
  pub load_env : Bytes → (Bytes → Bytes) → Keys → Exec W Keys
  pub unmarshal : Keys → Result Config
  -- errors.Is(err, fs.ErrNotExist)
  pub is_not_exist : Error → Bool

module _ {W : Type 0} (k : Koanf W) where
  -- A file that does not exist adds nothing.
  unfoldable pub optional_layer : (k.Keys → Exec W k.Keys) → k.Keys → Exec W k.Keys
  optional_layer load keys w =
      let (r, w') = load keys w in
      elim r [
        | ok keys' ↦ (ok keys', w')
        | err e ↦ if k.is_not_exist e then (ok keys, w') else (err e, w')
      ]

  unfoldable pub load : Exec W Config
  unfolding optional_layer env_key
  load = do
    base ← optional_layer (k.load_yaml (codes "vaultlet.yaml")) k.new
    overridden ← optional_layer (k.load_dotenv (codes ".env") (codes "VAULTLET_") env_key) base
    final ← k.load_env (codes "VAULTLET_") env_key overridden
    lift (k.unmarshal final)
