-- ===== src/Smf/Db.antt =====
-- The SMF's session store in memory (internal/smf/db.go). `now` is what `time.Now` yields; each method
-- holds the lock throughout, so it is one step.
pub mod Interface
pub mod Status
pub mod Laws
pub mod Counting
pub mod Postgres
mod Tests
use pdu_session_sim.Common.{
  ℕ, suc, ◌+◌, List, [], ◌∷◌, Option, none, some, Text, text, Result, ok, err, Bool, Map, lookup,
  insert, map, not, ◌&&◌, ◌||◌, ◌==◌, if◌then◌else◌, text_eq, text_beq,
}
use pdu_session_sim.Models.{PduSession}
use Interface.{SessionRepository, Counts}
use Status.{active_status, pending_status, creating_status, failed_status}

pub record InMemoryRepository : Type 0 where
  pub sessions : Map Text PduSession

unfoldable pub new_in_memory_repository : InMemoryRepository
new_in_memory_repository = record { sessions = [] }

abbrev pub stamp : ℕ → PduSession → PduSession
stamp now s = record s { created_at = now; updated_at = now }

unfoldable pub save_session : ℕ → PduSession → InMemoryRepository → InMemoryRepository × Option Text
unfolding insert
save_session now s r =
    (record r { sessions = insert s.sm_context_ref (stamp now s) r.sessions }, none)

unfoldable pub get_session : Text → InMemoryRepository → Result PduSession
unfolding lookup
get_session ref r = elim (lookup ref r.sessions) [
  | none ↦ err (text "session not found")
  | some s ↦ ok s
]

-- The three updates change the found session in place, or report that there is none.
unfoldable pub update_found :
    (PduSession → PduSession) → Text → InMemoryRepository → InMemoryRepository × Option Text
unfolding lookup insert
update_found change ref r = elim (lookup ref r.sessions) [
  | none ↦ (r, some (text "session not found"))
  | some s ↦ (record r { sessions = insert ref (change s) r.sessions }, none)
]

abbrev pub with_status : Text → ℕ → PduSession → PduSession
with_status status now s = record s { status = status; updated_at = now }

abbrev pub with_reason : Text → Text → ℕ → PduSession → PduSession
with_reason status reason now s = record s {
  status = status;
  failure_reason = reason;
  updated_at = now;
}

abbrev pub with_ip : Text → Text → ℕ → PduSession → PduSession
with_ip status ip now s = record s { status = status; ip_address = ip; updated_at = now }

unfoldable pub update_session_status :
    Text → Text → ℕ → InMemoryRepository → InMemoryRepository × Option Text
unfolding update_found
update_session_status ref status now = update_found (with_status status now) ref

unfoldable pub update_session_status_with_reason :
    Text → Text → Text → ℕ → InMemoryRepository → InMemoryRepository × Option Text
unfolding update_found
update_session_status_with_reason ref status reason now =
    update_found (with_reason status reason now) ref

unfoldable pub update_session_status_and_ip :
    Text → Text → Text → ℕ → InMemoryRepository → InMemoryRepository × Option Text
unfolding update_found
update_session_status_and_ip ref status ip now = update_found (with_ip status ip now) ref

-- The sessions in the order of the map's iteration.
unfoldable pub get_all_sessions : InMemoryRepository → Result (List PduSession)
get_all_sessions r = ok (map (λ e. e.1) r.sessions)

-- One round of the loop of `CountByStatus`.
abbrev pub count_status : PduSession → Counts → Counts
count_status s c =
    if s.status == active_status
    then record c { active = c.active + 1 }
    else if s.status == pending_status || s.status == creating_status
    then record c { pending = c.pending + 1 }
    else if s.status == failed_status
    then record c { failed = c.failed + 1 }
    else c

unfoldable pub count_statuses : Map Text PduSession → Counts → Counts
unfolding text_beq
count_statuses [] c = c
count_statuses ((_, s) ∷ m) c = count_statuses m (count_status s c)

unfoldable pub count_by_status : InMemoryRepository → Counts
unfolding count_statuses
count_by_status r = count_statuses r.sessions (record { active = 0; pending = 0; failed = 0 })

-- `counts[reason]++`: a missing key counts from 0.
unfoldable pub increment : Text → Map Text ℕ → Map Text ℕ
unfolding lookup insert
increment reason counts = elim (lookup reason counts) [
  | none ↦ insert reason 1 counts
  | some n ↦ insert reason (n + 1) counts
]

abbrev pub counts_reason : PduSession → Bool
counts_reason s = s.status == failed_status && not (s.failure_reason == [])

unfoldable pub count_reasons : Map Text PduSession → Map Text ℕ → Map Text ℕ
unfolding increment text_beq
count_reasons [] counts = counts
count_reasons ((_, s) ∷ m) counts =
    count_reasons m (if counts_reason s then increment s.failure_reason counts else counts)

unfoldable pub count_by_failure_reason : InMemoryRepository → Map Text ℕ
unfolding count_reasons
count_by_failure_reason r = count_reasons r.sessions []

-- The methods as an implementation of the interface.
abbrev pub in_memory : SessionRepository InMemoryRepository
in_memory = record {
  save = save_session;
  get = get_session;
  update_status = update_session_status;
  update_status_with_reason = update_session_status_with_reason;
  update_status_and_ip = update_session_status_and_ip;
  all = get_all_sessions;
  by_status = count_by_status;
  by_failure_reason = count_by_failure_reason;
}
