-- ===== src/Boot/Laws.antt =====
-- When the SMF serves, and what it is then.
use pdu_session_sim.Common.{
  ℕ, ℤ, pos, negsuc, ◌≡◌, ◌⊎◌, inl, inr, refl, subst, ap, ◌∙◌, ◌^◌, ◌<◌, text_beq, ◌↔◌, [], Text,
  text, Result, ok, Result-cases, arith,
}
use pdu_session_sim.Boot.{Sockets, Boot, serving, RunningSmf, rounds, new_pfcp_client, smf_main}
use pdu_session_sim.Config.{Config, Environment, File, load}
use pdu_session_sim.Config.Laws.{load-queue_size, load-max_workers, load-database_url}
use pdu_session_sim.Decimal.{decimal}
use pdu_session_sim.Database.Driver.{Driver, init_store, smf_conns, kept_in_memory}
use pdu_session_sim.Smf.Db.{new_in_memory_repository}
use pdu_session_sim.Smf.PfcpClient.{new_client}

ℤ-cases : (z : ℤ) → ((n : ℕ) × (z ≡ pos n)) ⊎ ((n : ℕ) × (z ≡ negsuc n))
ℤ-cases (pos n) = inl (n, refl)
ℤ-cases (negsuc n) = inr (n, refl)

module _ {A S C P : Type 0} (unmarshal : Text → Config → Result Config) (env : Environment)
    (file : File) (driver : Driver C P) (sockets : Sockets A S) where
  abbrev pub smf : Boot (RunningSmf A S P)
  smf = smf_main unmarshal env file driver sockets

  -- What the SMF runs with, by its configuration.
  pub record RunsBy (cfg : Config) (s : RunningSmf A S P) : Type 0 where
    pub loaded : load unmarshal env file ≡ ok cfg
    pub bound :
        new_pfcp_client unmarshal env file driver sockets cfg.smf.upf_addr
        ≡ ok (s.upf_addr, s.socket)
    pub store :
        s.store ≡ init_store driver new_in_memory_repository (smf_conns driver) cfg.smf.database_url
    pub queue_size : cfg.smf.queue_size ≡ pos s.queue_size
    pub workers : s.workers ≡ rounds cfg.smf.max_workers
    pub pfcp : s.pfcp ≡ new_client
    pub listen_addr : s.listen_addr ≡ cfg.smf.listen_addr
    pub web_dir : s.web_dir ≡ cfg.smf.web_dir

  serving-RunsBy : (s : RunningSmf A S P) → smf ≡ serving s → (cfg : Config) × RunsBy cfg s
  unfolding smf_main
  serving-RunsBy s serves = elim (Result-cases (load unmarshal env file)) [
    | inl (e, refused) ↦ absurd (ground (arith, serves, refused))
    | inr (cfg, loaded) ↦
        elim (Result-cases (new_pfcp_client unmarshal env file driver sockets cfg.smf.upf_addr)) [
          | inl (e, unbound) ↦ absurd (ground (arith, serves, loaded, unbound))
          | inr ((addr, socket), bound) ↦ elim (ℤ-cases cfg.smf.queue_size) [
            | inl (n, size) ↦
                let ran : RunningSmf A S P = record {
                  store =
                      init_store driver new_in_memory_repository (smf_conns driver)
                        cfg.smf.database_url;
                  upf_addr = addr;
                  socket = socket;
                  pfcp = new_client;
                  queue_size = n;
                  workers = rounds cfg.smf.max_workers;
                  listen_addr = cfg.smf.listen_addr;
                  web_dir = cfg.smf.web_dir;
                } in
                let same : ran ≡ s = ground (arith, serves, loaded, bound, size) in
                (
                  cfg,
                  subst (RunsBy cfg) same (record {
                    loaded = loaded;
                    bound = bound;
                    store = refl;
                    queue_size = size;
                    workers = refl;
                    pfcp = refl;
                    listen_addr = refl;
                    web_dir = refl;
                  }),
                )
            | inr (n, size) ↦ absurd (ground (arith, serves, loaded, bound, size))
          ]
        ]
  ]

  RunsBy-serving : (cfg : Config) (s : RunningSmf A S P) → RunsBy cfg s → smf ≡ serving s
  unfolding smf_main
  RunsBy-serving cfg s r =
      ground (
        arith, r.loaded, r.bound, r.store, r.queue_size, r.workers, r.pfcp, r.listen_addr,
        r.web_dir,
      )

  -- Whatever the file, the database and the network say: the SMF comes to serve exactly if its
  -- configuration loads, its PFCP client is bound and its queue's size is not negative, and then it has
  -- the store, the queue, the workers, the fresh client and the addresses of this configuration.
  smf_main-serving_iff :
      (s : RunningSmf A S P) → (smf ≡ serving s) ↔ ((cfg : Config) × RunsBy cfg s)
  smf_main-serving_iff s = (serving-RunsBy s, λ (cfg, r). RunsBy-serving cfg s r)

  -- An SMF that comes to serve with QUEUE_SIZE and MAX_WORKERS in decimal, below 2^63, and DATABASE_URL as
  -- `memory`: whatever the file and the database say, its queue has that size, it has that number of
  -- workers, its store is the fresh one in memory, and no pool was opened or closed for it.
  pub smf_main-environment :
      (s : RunningSmf A S P) (size workers : ℕ)
      → size < 2 ^ 63
      → workers < 2 ^ 63
      → env (text "QUEUE_SIZE") ≡ decimal size
      → env (text "MAX_WORKERS") ≡ decimal workers
      → env (text "DATABASE_URL") ≡ text "memory"
      → smf ≡ serving s
      → (s.queue_size ≡ size)
        × (s.workers ≡ workers)
        × (s.store.result ≡ kept_in_memory new_in_memory_repository)
        × (s.store.closed ≡ [])
  unfolding init_store text_beq
  smf_main-environment s size workers small few sized staffed in_memory serves =
      let (cfg, r) = serving-RunsBy s serves in
      let url : cfg.smf.database_url ≡ text "memory" =
        load-database_url unmarshal env file cfg (λ e. ground (arith, e, in_memory)) r.loaded
        ∙ in_memory in
      let store =
        r.store ∙ ap (init_store driver new_in_memory_repository (smf_conns driver)) url in
      (
        ground
            (arith, r.queue_size, load-queue_size unmarshal env file size cfg small sized r.loaded),
        ground (
          arith,
          r.workers,
          load-max_workers unmarshal env file workers cfg few staffed r.loaded,
        ),
        ap (λ opened. opened.result) store,
        ap (λ opened. opened.closed) store,
      )
