-- ===== src/Database/Tests.antt =====
-- A driver that knows one database.
use pdu_session_sim.Common.{ℕ, ◌≡◌, ◌≢◌, ◌⊎◌, [], ◌∷◌, none, some, Text, text, text_eq, ok}
use pdu_session_sim.Database.Driver.{
  Driver, Store, Opened, kept_in_pool, kept_in_memory, Opens, Unopened, store, smf_conns,
  init_store-outcome,
}
use pdu_session_sim.Smf.Db.{InMemoryRepository, new_in_memory_repository}

abbrev local : Text
local = text "postgres://smf@localhost/smf"

-- Its configurations are texts and bounds, and its pools numbers.
abbrev one_database : Driver (Text × ℕ × ℕ) ℕ
one_database = record {
  parse_config = λ conn_str. ok (conn_str, 4, 0);
  set_conns = λ most least (conn_str, _, _). (conn_str, most, least);
  new_with_config = λ (conn_str, most, _). ok most;
  ping = λ pool. none;
}

abbrev opened : Opened (Store InMemoryRepository ℕ) ℕ
opened = store one_database new_in_memory_repository (smf_conns one_database) local

init_store-outcome_example :
    ((pool : ℕ) × (opened.result ≡ kept_in_pool pool)
      × (opened.closed ≡ [])
      × (local ≢ text "memory")
      × (local ≢ [])
      × Opens one_database (smf_conns one_database) local pool
      × (one_database.ping pool ≡ none))
    ⊎ ((pool : ℕ) × (e : Text) × (opened.result ≡ kept_in_memory new_in_memory_repository)
        × (opened.closed ≡ pool ∷ [])
        × Opens one_database (smf_conns one_database) local pool
        × (one_database.ping pool ≡ some e))
    ⊎ ((opened.result ≡ kept_in_memory new_in_memory_repository)
        × (opened.closed ≡ [])
        × Unopened one_database (smf_conns one_database) local)
init_store-outcome_example =
    init_store-outcome one_database new_in_memory_repository (smf_conns one_database) local
