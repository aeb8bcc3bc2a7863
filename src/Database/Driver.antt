-- ===== src/Database/Driver.antt =====
-- How the stores open their pools (`NewPostgresRepository` and `InitRepository` of internal/smf/db.go,
-- `NewPostgresSubscriberRepository` and `InitSubscriberRepository` of internal/udm/db.go). The driver is a
-- parameter; `closed` lists the pools that were closed.
use pdu_session_sim.Common.{
  ℕ, ◌≡◌, ◌≢◌, List, [], ◌∷◌, ◌++◌, true, ◌||◌, Bool-cases, Option, none, some, Option-cases, Text,
  text, text_eq, text_beq, ==_iff, Result, ok, err, Result-cases, ◌⊎◌, inl, inr, arith, ◌==◌,
  if◌then◌else◌,
}

-- `pgxpool.ParseConfig`, the fields of its configuration, `pgxpool.NewWithConfig` and `Ping`.
pub record Driver (C P : Type 0) : Type 0 where
  pub parse_config : Text → Result C
  pub set_conns : ℕ → ℕ → C → C
  pub new_with_config : C → Result P
  pub ping : P → Option Text

-- A store is in memory, or over a pool.
pub data Store (M P : Type 0) : Type 0 where
  kept_in_memory : M → Store M P
  kept_in_pool : P → Store M P

pub record Opened (A P : Type 0) : Type 0 where
  pub result : A
  pub closed : List P

module _ {C P : Type 0} (driver : Driver C P) where
  abbrev pub open_pool : C → Opened (Result P) P
  open_pool config = elim (driver.new_with_config config) [
    | err e ↦ record { result = err (text "unable to create connection pool: " ++ e); closed = [] }
    | ok pool ↦ elim (driver.ping pool) [
      | some e ↦ record { result = err (text "unable to ping database: " ++ e); closed = pool ∷ [] }
      | none ↦ record { result = ok pool; closed = [] }
    ]
  ]

  unfoldable pub connect_database : (C → C) → Text → Opened (Result P) P
  connect_database configure conn_str = elim (driver.parse_config conn_str) [
    | err e ↦ record { result = err (text "unable to parse connection string: " ++ e); closed = [] }
    | ok config ↦ open_pool (configure config)
  ]

  -- The store in memory for `memory`, for no text, and when the connection fails.
  unfoldable pub init_store : {M : Type 0} → M → (C → C) → Text → Opened (Store M P) P
  unfolding connect_database text_beq
  init_store fresh configure conn_str =
      if conn_str == text "memory" || conn_str == []
      then record { result = kept_in_memory fresh; closed = [] }
      else let tried = connect_database configure conn_str in
        elim tried.result [
          | err e ↦ record { result = kept_in_memory fresh; closed = tried.closed }
          | ok pool ↦ record { result = kept_in_pool pool; closed = tried.closed }
        ]

  abbrev pub smf_conns : C → C
  smf_conns = driver.set_conns 40 10

  abbrev pub udm_conns : C → C
  udm_conns config = config

  -- The pool that a connection text opens, if the driver accepts it.
  abbrev pub Opens : (C → C) → Text → P → Type 0
  Opens configure conn_str pool =
      (config : C) × (driver.parse_config conn_str ≡ ok config)
      × (driver.new_with_config (configure config) ≡ ok pool)

  -- Why no pool was opened for a text.
  abbrev pub Unopened : (C → C) → Text → Type 0
  Unopened configure conn_str =
      (conn_str ≡ text "memory")
      ⊎ (conn_str ≡ [])
      ⊎ ((e : Text) × (driver.parse_config conn_str ≡ err e))
      ⊎ ((config : C) × (e : Text) × (driver.parse_config conn_str ≡ ok config)
          × (driver.new_with_config (configure config) ≡ err e))

  module _ {M : Type 0} (fresh : M) (configure : C → C) (conn_str : Text) where
    abbrev pub store : Opened (Store M P) P
    store = init_store fresh configure conn_str

    unnamed-Unopened :
        (conn_str == text "memory" || conn_str == []) ≡ true → Unopened configure conn_str
    unnamed-Unopened unnamed =
        ground (arith, unnamed, ==_iff conn_str (text "memory"), ==_iff conn_str [])

    -- However the driver answers, a store opens in one of three ways. It is over a pool, if the text is
    -- neither empty nor `memory`, the driver opens a pool for it and the pool answers a ping. It is the
    -- fresh store in memory and the pool is closed, if the driver opens a pool that does not answer. Or it
    -- is the fresh store in memory, and there is no pool. No other pool is closed.
    pub init_store-outcome :
        ((pool : P) × (store.result ≡ kept_in_pool pool)
          × (store.closed ≡ [])
          × (conn_str ≢ text "memory")
          × (conn_str ≢ [])
          × Opens configure conn_str pool
          × (driver.ping pool ≡ none))
        ⊎ ((pool : P) × (e : Text) × (store.result ≡ kept_in_memory fresh)
            × (store.closed ≡ pool ∷ [])
            × Opens configure conn_str pool
            × (driver.ping pool ≡ some e))
        ⊎ ((store.result ≡ kept_in_memory fresh)
            × (store.closed ≡ [])
            × Unopened configure conn_str)
    unfolding init_store connect_database
    init_store-outcome = elim (Bool-cases (conn_str == text "memory" || conn_str == [])) [
      | inl unnamed ↦
          inr (inr (ground (arith, unnamed), ground (arith, unnamed), unnamed-Unopened unnamed))
      | inr named ↦ elim (Result-cases (driver.parse_config conn_str)) [
        | inl (e, unparsed) ↦ inr (
            inr (
              ground (arith, named, unparsed),
              ground (arith, named, unparsed),
              inr (inr (inl (e, unparsed))),
            ))
        | inr (config, parsed) ↦ elim (Result-cases (driver.new_with_config (configure config))) [
          | inl (e, unmade) ↦ inr (
              inr (
                ground (arith, named, parsed, unmade),
                ground (arith, named, parsed, unmade),
                inr (inr (inr (config, e, parsed, unmade))),
              ))
          | inr (pool, made) ↦ elim (Option-cases (driver.ping pool)) [
            | inl answered ↦ inl (
              pool,
              ground (arith, named, parsed, made, answered),
              ground (arith, named, parsed, made, answered),
              ground (arith, named, ==_iff conn_str (text "memory")),
              ground (arith, named, ==_iff conn_str []),
              (config, parsed, made),
              answered,
            )
            | inr (e, silent) ↦ inr (
                inl (
                  pool,
                  e,
                  ground (arith, named, parsed, made, silent),
                  ground (arith, named, parsed, made, silent),
                  (config, parsed, made),
                  silent,
                ))
          ]
        ]
      ]
    ]
