-- ===== src/Smf/Db/Postgres/Tests.antt =====
-- The store over a database of one table.
use pdu_session_sim.Database.Sample.{micros, table_pool, sample_table}
use pdu_session_sim.Smf.Db.Interface.{IsRepository}
use pdu_session_sim.Smf.Db.Postgres.{sessions_table, key_column, session_columns, postgres}
use pdu_session_sim.Smf.Db.Postgres.Laws.{postgres-IsRepository}

postgres-IsRepository_example :
    IsRepository micros (postgres (table_pool sessions_table key_column))
postgres-IsRepository_example =
    postgres-IsRepository (table_pool sessions_table key_column)
      (sample_table sessions_table key_column session_columns)
