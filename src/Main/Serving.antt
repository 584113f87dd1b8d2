-- ===== src/Main/Serving.antt =====
-- What a server that has run was configured with.
use vaultlet.Prelude.{true, [], Bytes, All, Any, ◌≡◌, ◌≢◌, ◌↔◌, refl, arith, inl, inr}
use vaultlet.Errors.{ok, Result-cases}
use vaultlet.Config.{Config, UserConfig, validate, rule_specs}
use vaultlet.Config.Load.{load}
use vaultlet.Config.Granting.{IsGranted, allows-IsGranted}
use vaultlet.Config.Specs.{validate-rule_specs}
use vaultlet.Domain.Key.{Namespace}
use vaultlet.App.Policy.{Action, new_policy, allows}
use vaultlet.Adapters.Stores.Backends.{Backend, backend_store}
use vaultlet.Main.{Host, Server, Opened, open_backend, new_server, listen, serve_on, run}

module _ {W : Type 0} (host : Host W) where
  -- What Listen was called with.
  pub record Listens (cfg : Config) (backend : Backend W) (server : Server W) : Type 0 where
    pub store : server.service.store ≡ backend_store host.waits host.room backend
    pub compiled : new_policy (rule_specs cfg.users) ≡ ok server.service.policy
    pub users : server.users ≡ cfg.users

  serve_on-parts :
      (backend : Backend W) (cfg : Config) (w u : W)
      → serve_on host backend cfg w ≡ (ok tt, u)
      → (server : Server W) × (v : W) × (listen host server cfg.listen v ≡ (ok tt, u))
        × Listens cfg backend server
  unfolding serve_on new_server
  serve_on-parts backend cfg w u h = elim (Result-cases (new_policy (rule_specs cfg.users))) [
    | inr (x, e) ↦ ground arith
    | inl (policy, e) ↦
        let c = host.load_key_pair cfg.tls.cert_file cfg.tls.key_file w in
        elim (Result-cases c.0) [
          | inr (x, f) ↦ ground arith
          | inl (certificate, f) ↦
              let server : Server W = record {
                service = record {
                  store = backend_store host.waits host.room backend;
                  policy = policy;
                };
                users = cfg.users;
                certificate = certificate;
              } in
              elim (Result-cases (listen host server cfg.listen c.1).0) [
                | inr (x, g) ↦ ground arith
                | inl (done, g) ↦
                    (server, c.1, ground arith, record { store = refl; compiled = e; users = refl })
              ]
        ]
  ]

  run-parts :
      (w u : W)
      → run host w ≡ (ok tt, u)
      → (cfg : Config) × (opened : Opened W) × (v x : W) × ((load host.koanf w).0 ≡ ok cfg)
        × (validate cfg ≡ ok tt)
        × ((open_backend host cfg (load host.koanf w).1).0 ≡ ok opened)
        × (serve_on host opened.backend cfg v ≡ (ok tt, x))
        × (opened.close x ≡ u)
  unfolding run
  run-parts w u h = elim (Result-cases (load host.koanf w).0) [
    | inr (x, e) ↦ ground arith
    | inl (cfg, e) ↦ elim (Result-cases (validate cfg)) [
      | inr (x, f) ↦ ground arith
      | inl (valid, f) ↦
          let o = open_backend host cfg (load host.koanf w).1 in
          elim (Result-cases o.0) [
            | inr (x, g) ↦ ground arith
            | inl (opened, g) ↦
                let s = serve_on host opened.backend cfg o.1 in
                elim (Result-cases s.0) [
                  | inr (x, k) ↦ ground arith
                  | inl (done, k) ↦
                      (cfg, opened, o.1, s.1, e, ground arith, g, ground arith, ground arith)
                ]
          ]
    ]
  ]

  -- A run that ends without an error has loaded a configuration, opened its backend and listened, at
  -- its address, with a server on that backend for its users, all of which have a password hash. That server's policy lets a principal do
  -- an action at a namespace exactly if a user of that name has a rule that lists the action and is
  -- at the wildcard or at the namespace or above it. Behind that the store has been closed.
  pub run-Listens :
      (w u : W)
      → run host w ≡ (ok tt, u)
      → (cfg : Config) × (opened : Opened W) × (server : Server W) × (v x : W) × ((load host.koanf
            w).0
          ≡ ok cfg)
        × ((open_backend host cfg (load host.koanf w).1).0 ≡ ok opened)
        × (server.service.store ≡ backend_store host.waits host.room opened.backend)
        × (listen host server cfg.listen v ≡ (ok tt, x))
        × (opened.close x ≡ u)
        × (server.users ≡ cfg.users)
        × All (λ (user : UserConfig). user.password_hash ≢ []) cfg.users
        × ((who : Bytes) (action : Action) (ns : Namespace)
            → (allows server.service.policy who action ns ≡ true)
              ↔ Any (IsGranted who action ns) cfg.users)
  run-Listens w u h =
      let (cfg, opened, v, x, loaded, valid, opened_as, served, closed) = run-parts w u h in
      let (server, y, listened, built) = serve_on-parts opened.backend cfg v x served in
      (
        cfg,
        opened,
        server,
        y,
        x,
        loaded,
        opened_as,
        built.store,
        listened,
        closed,
        built.users,
        (validate-rule_specs cfg valid).1,
        λ who action ns.
            allows-IsGranted who action ns cfg.users server.service.policy built.compiled,
      )
