-- ===== src/Adapters/Grpc/Auth/Answers.antt =====
-- Every failure of authentication has one answer, and every success the credentials of a user.
use vaultlet.Prelude.{
  Bool, true, Option, none, some, List, [], ◌∷◌, ◌++◌, Bytes, codes, ap, ◌∙◌, ◌≡◌, ◌↔◌, subst, ◌⊎◌,
  inl, inr, refl, arith, Option-cases, Bool-cases,
}
use vaultlet.Strings.{cut, cut_prefix}
use vaultlet.Strings.Parts.{Lacks}
use vaultlet.Strings.Cuts.{cut_prefix-append, cut_prefix_sound, cut-append, cut_sound}
use vaultlet.Base64.{decode}
use vaultlet.Config.{UserConfig}
use vaultlet.Adapters.Grpc.Auth.{
  Answer, reply, fail, unauthenticated_error, users_by_name, check_password, check_credentials,
  check_token, authenticate, with_auth, Incoming,
}
use vaultlet.Adapters.Grpc.Auth.Users.{Registered, users_by_name_iff}
use vaultlet.Ports.{Context}
use vaultlet.App.Service.{with_principal}

module _ (compare : Bytes → Bytes → Bool) (users : List UserConfig) where
  -- The header is Basic credentials: a name without a colon, a colon and a password, in base64; the
  -- password matches the hash of the last configured user of that name.
  pub record Proves (auth who : Bytes) : Type 0 where
    pub token : Bytes
    pub password : Bytes
    pub hash : Bytes
    pub is_basic : auth ≡ codes "Basic " ++ token
    pub decodes : decode token ≡ some (who ++ b':' ∷ password)
    pub has_no_colon : Lacks b':' who
    pub known : Registered users who hash
    pub matches : compare hash password ≡ true

  check_password-cases :
      (username password : Bytes)
      → (check_password compare users username password ≡ fail unauthenticated_error)
        ⊎ ((hash : Bytes) × (users_by_name users username ≡ some hash)
            × (compare hash password ≡ true))
  unfolding check_password
  check_password-cases username password = elim (Option-cases (users_by_name users username)) [
    | inl e ↦ inl (ground arith)
    | inr (hash, e) ↦ elim (Bool-cases (compare hash password)) [
      | inl m ↦ inr (hash, e, m)
      | inr m ↦ inl (ground arith)
    ]
  ]

  proves :
      (auth token raw who password hash : Bytes)
      → cut_prefix auth (codes "Basic ") ≡ some token
      → decode token ≡ some raw
      → cut raw b':' ≡ some (who, password)
      → users_by_name users who ≡ some hash
      → compare hash password ≡ true
      → Proves auth who
  proves auth token raw who password hash e f g known matches =
      let (split, lacks) = cut_sound b':' raw who password g in
      record {
        token = token;
        password = password;
        hash = hash;
        is_basic = cut_prefix_sound auth (codes "Basic ") token e;
        decodes = f ∙ ap some split;
        has_no_colon = lacks;
        known = (users_by_name_iff users who hash).0 known;
        matches = matches;
      }

  -- Whatever the metadata of an RPC, authenticate answers with the one error, or with the name in
  -- Basic credentials, read from the first authorization value, whose password matches the hash of
  -- a configured user of that name.
  pub authenticate-cases :
      (values : Option (List Bytes))
      → (authenticate compare users values ≡ fail unauthenticated_error)
        ⊎ ((auth who : Bytes) × (rest : List Bytes) × (values ≡ some (auth ∷ rest))
            × (authenticate compare users values ≡ reply who)
            × Proves auth who)
  unfolding authenticate check_token check_credentials
  authenticate-cases none = inl refl
  authenticate-cases (some []) = inl refl
  authenticate-cases (some (auth ∷ auths)) =
      elim (Option-cases (cut_prefix auth (codes "Basic "))) [
        | inl e ↦ inl (ground arith)
        | inr (token, e) ↦ elim (Option-cases (decode token)) [
          | inl f ↦ inl (ground arith)
          | inr (raw, f) ↦ elim (Option-cases (cut raw b':')) [
            | inl g ↦ inl (ground arith)
            | inr ((who, password), g) ↦ elim (check_password-cases who password) [
              | inl failed ↦ inl (ground arith)
              | inr (hash, known, matches) ↦ inr (
                auth,
                who,
                auths,
                refl,
                unfold check_password in ground arith,
                proves auth token raw who password hash e f g known matches,
              )
            ]
          ]
        ]
      ]

  -- Basic credentials of a configured user with its password are accepted.
  authenticate_accepts :
      (auth who : Bytes) (rest : List Bytes)
      → Proves auth who
      → authenticate compare users (some (auth ∷ rest)) ≡ reply who
  unfolding authenticate check_token check_credentials check_password
  authenticate_accepts auth who rest p =
      let basic : cut_prefix auth (codes "Basic ") ≡ some p.token =
        rw p.is_basic (cut_prefix-append (codes "Basic ") p.token) in
      let parts = cut-append b':' who p.password p.has_no_colon in
      let hash = (users_by_name_iff users who p.hash).1 p.known in
      rw (basic, check_token)
        (rw (p.decodes, check_token)
          (rw (parts, check_credentials)
            (rw (hash, check_password) (rw (p.matches, check_password) refl))))

  -- Whatever metadata an RPC has, authenticate answers with a name exactly if there is a first
  -- authorization value, and it is Basic credentials, well encoded, of that name and of a password
  -- that matches the hash of the last configured user of that name.
  pub authenticate_iff :
      (values : Option (List Bytes)) (who : Bytes)
      → (authenticate compare users values ≡ reply who)
        ↔ ((auth : Bytes) × (rest : List Bytes) × (values ≡ some (auth ∷ rest)) × Proves auth who)
  authenticate_iff values who = (
    λ h. elim (authenticate-cases values) [
      | inl failed ↦ cc
      | inr (auth, u, rest, e, f, p) ↦ (auth, rest, e, subst (λ x. Proves auth x) (cc) p)
    ],
    λ (auth, rest, e, p). rw e (authenticate_accepts auth who rest p),
  )

  -- Behind the interceptors no handler runs without a principal: an RPC whose credentials are not
  -- accepted gets the one error and leaves the state alone, whatever the handler; otherwise the
  -- handler runs with a user's name, which the first authorization value proves, as the principal.
  pub with_auth-cases :
      {A W : Type 0} (handler : Context → W → Answer A × W) (rpc : Incoming) (w : W)
      → (with_auth compare users handler rpc w ≡ (fail unauthenticated_error, w))
        ⊎ ((auth who : Bytes) × (rest : List Bytes) × (rpc.authorization ≡ some (auth ∷ rest))
            × (with_auth compare users handler rpc w
                ≡ handler (record rpc.ctx { principal = some who }) w)
            × Proves auth who)
  unfolding with_auth with_principal
  with_auth-cases handler rpc w = elim (authenticate-cases rpc.authorization) [
    | inl e ↦ inl (ground arith)
    | inr (auth, who, rest, e, f, p) ↦ inr (auth, who, rest, e, rw (f, with_auth) refl, p)
  ]
