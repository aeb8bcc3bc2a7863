-- ===== src/Smf/Db/Postgres.antt =====
-- `PostgresRepository` and `InitRepository` of internal/smf/db.go, over any pool.
pub mod Laws
mod Tests
use pdu_session_sim.Common.{
  ℕ, ◌+◌, List, [], ◌∷◌, ◌++◌, Bool, true, false, ◌&&◌, ◌||◌, Option, none, some, ℤ, pos, Text,
  text, text_eq, Result, ok, err, Map, insert, ◌==◌, if◌then◌else◌,
}
use pdu_session_sim.Database.{
  Value, null, string, integer, time, Shown, coalesce, plain, Statement, insert_into, update_where,
  select_where, select_newest, select_counts, Rows, no_row, one_row, Pool,
}
use pdu_session_sim.Database.Scan.{is_string, is_integer, is_time, string_of, integer_of, time_of}
use pdu_session_sim.Models.{PduSession}
use pdu_session_sim.Smf.Db.Interface.{SessionRepository, Counts}
use pdu_session_sim.Smf.Db.Status.{active_status, pending_status, creating_status, failed_status}
use pdu_session_sim.Smf.Orchestrator.Task.{prefix_error}

abbrev pub sessions_table : Text
sessions_table = text "pdu_sessions"

abbrev pub key_column : Text
key_column = text "sm_context_ref"

abbrev pub session_columns : List Text
session_columns =
    text "sm_context_ref"
    ∷ text "supi"
    ∷ text "gpsi"
    ∷ text "pdu_session_id"
    ∷ text "dnn"
    ∷ text "sst"
    ∷ text "sd"
    ∷ text "serving_nf_id"
    ∷ text "an_type"
    ∷ text "status"
    ∷ text "ip_address"
    ∷ text "failure_reason"
    ∷ text "created_at"
    ∷ text "updated_at"
    ∷ []

-- `Scan` into the fields of a session, in the order of the columns.
abbrev pub scan_session : (List Value → Text) → List Value → Result PduSession
scan_session scan_error
      (ref ∷ supi ∷ gpsi ∷ id ∷ dnn ∷ sst ∷ sd ∷ nf ∷ an ∷ status ∷ ip ∷ reason ∷ created ∷ updated
        ∷ []) =
    if is_string ref
      && is_string supi
      && is_string gpsi
      && is_integer id
      && is_string dnn
      && is_integer sst
      && is_string sd
      && is_string nf
      && is_string an
      && is_string status
      && is_string ip
      && is_string reason
      && is_time created
      && is_time updated
    then ok (record {
      sm_context_ref = string_of ref;
      supi = string_of supi;
      gpsi = string_of gpsi;
      pdu_session_id = integer_of id;
      dnn = string_of dnn;
      sst = integer_of sst;
      sd = string_of sd;
      serving_nf_id = string_of nf;
      an_type = string_of an;
      status = string_of status;
      ip_address = string_of ip;
      failure_reason = string_of reason;
      created_at = time_of created;
      updated_at = time_of updated;
    })
    else err (
        scan_error (
          ref ∷ supi ∷ gpsi ∷ id ∷ dnn ∷ sst ∷ sd ∷ nf ∷ an ∷ status ∷ ip ∷ reason ∷ created
          ∷ updated ∷ []))
scan_session scan_error values = err (scan_error values)

-- The loop of `GetAllSessions`: a `Scan` that fails ends it with its error.
unfoldable pub scan_sessions : (List Value → Text) → Rows → Result (List PduSession)
scan_sessions scan_error no_row = ok []
scan_sessions scan_error (one_row values scanned failed) =
    let rest = scan_sessions scan_error scanned in
    elim (scan_session scan_error values) [
      | err e ↦ err e
      | ok s ↦ elim rest [ err e ↦ err e | ok list ↦ ok (s ∷ list) ]
    ]

-- `Scan` into a `string` and an `int64` of a count, which is never negative.
abbrev pub scan_count : List Value → Option (Text × ℕ)
scan_count (string s ∷ integer (pos n) ∷ []) = some (s, n)
scan_count values = none

-- The loop of `CountByFailureReason`: a row that does not scan is left out.
unfoldable pub scan_reasons : Rows → Map Text ℕ → Map Text ℕ
unfolding insert
scan_reasons no_row counts = counts
scan_reasons (one_row values scanned failed) counts = elim (scan_count values) [
  | none ↦ scan_reasons failed counts
  | some (s, n) ↦ scan_reasons scanned (insert s n counts)
]

-- The `switch` of `CountByStatus`.
abbrev pub add_status : Text → ℕ → Counts → Counts
add_status status n c =
    if status == active_status
    then record c { active = c.active + n }
    else if status == pending_status || status == creating_status
    then record c { pending = c.pending + n }
    else if status == failed_status
    then record c { failed = c.failed + n }
    else c

unfoldable pub scan_statuses : Rows → Counts → Counts
scan_statuses no_row c = c
scan_statuses (one_row values scanned failed) c = elim (scan_count values) [
  | none ↦ scan_statuses failed c
  | some (s, n) ↦ scan_statuses scanned (add_status s n c)
]

module _ {D : Type 0} (pool : Pool D) where
  unfoldable pub save_session : ℕ → PduSession → D → D × Option Text
  save_session now s = pool.exec (insert_into sessions_table session_columns) (
      string s.sm_context_ref
      ∷ string s.supi
      ∷ string s.gpsi
      ∷ integer s.pdu_session_id
      ∷ string s.dnn
      ∷ integer s.sst
      ∷ string s.sd
      ∷ string s.serving_nf_id
      ∷ string s.an_type
      ∷ string s.status
      ∷ string s.ip_address
      ∷ string s.failure_reason
      ∷ time now
      ∷ time now
      ∷ [])

  unfoldable pub get_session : Text → D → Result PduSession
  get_session ref d =
      elim (pool.query_row (select_where session_columns sessions_table key_column)
        (string ref ∷ []) d) [ err e ↦ err e | ok values ↦ scan_session pool.scan_error values ]

  unfoldable pub update_session_status : Text → Text → ℕ → D → D × Option Text
  update_session_status ref status now =
      pool.exec (update_where sessions_table (text "status" ∷ text "updated_at" ∷ []) key_column)
        (string status ∷ time now ∷ string ref ∷ [])

  unfoldable pub update_session_status_with_reason : Text → Text → Text → ℕ → D → D × Option Text
  update_session_status_with_reason ref status reason now =
      pool.exec
        (update_where sessions_table
          (text "status" ∷ text "failure_reason" ∷ text "updated_at" ∷ []) key_column)
        (string status ∷ string reason ∷ time now ∷ string ref ∷ [])

  unfoldable pub update_session_status_and_ip : Text → Text → Text → ℕ → D → D × Option Text
  update_session_status_and_ip ref status ip now =
      pool.exec
        (update_where sessions_table (text "status" ∷ text "ip_address" ∷ text "updated_at" ∷ [])
          key_column)
        (string status ∷ string ip ∷ time now ∷ string ref ∷ [])

  unfoldable pub get_all_sessions : D → Result (List PduSession)
  unfolding scan_sessions
  get_all_sessions d =
      elim (pool.query (select_newest session_columns sessions_table (text "created_at") 100) []
        d) [ err e ↦ err e | ok rows ↦ scan_sessions pool.scan_error rows ]

  unfoldable pub count_by_failure_reason : D → Map Text ℕ
  unfolding scan_reasons
  count_by_failure_reason d =
      elim (pool.query
        (select_counts (coalesce (text "failure_reason") (text "UNKNOWN")) sessions_table
          (text "status") (failed_status ∷ []) (text "failure_reason"))
        [] d) [ err e ↦ [] | ok rows ↦ scan_reasons rows [] ]

  unfoldable pub count_by_status : D → Counts
  unfolding scan_statuses
  count_by_status d =
      let zeros : Counts = record { active = 0; pending = 0; failed = 0 } in
      elim (pool.query
        (select_counts (plain (text "status")) sessions_table (text "status")
          (active_status ∷ pending_status ∷ creating_status ∷ failed_status ∷ []) (text "status"))
        [] d) [ err e ↦ zeros | ok rows ↦ scan_statuses rows zeros ]

  -- The methods as an implementation of the interface.
  abbrev pub postgres : SessionRepository D
  postgres = record {
    save = save_session;
    get = get_session;
    update_status = update_session_status;
    update_status_with_reason = update_session_status_with_reason;
    update_status_and_ip = update_session_status_and_ip;
    all = get_all_sessions;
    by_status = count_by_status;
    by_failure_reason = count_by_failure_reason;
  }
