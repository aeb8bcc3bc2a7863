-- ===== src/Smf/Concurrent/Holds.antt =====
-- What the store holds of a job's session at each stage, and what a stage leaves alone
-- (internal/smf/service.go).
use pdu_session_sim.Common.{
  ℕ, ◌≡◌, ◌≢◌, ◌⊎◌, inl, inr, refl, [], Text, Option-cases, Result, ok, err, Result-cases, arith,
}
use pdu_session_sim.Models.{PduSession}
use pdu_session_sim.Pfcp.{encode_request}
use pdu_session_sim.Smf.Concurrent.Stages.{
  Stage, saving, validating, establishing, activating, transferring, succeeding, finished, waiting,
  failing, marking, notifying, after_outcome, pfcp_error, begin_call, end_call, advance,
}
use pdu_session_sim.Smf.Db.Interface.{SessionRepository, IsRepository, IsReliable}
use pdu_session_sim.Smf.Db.Status.{active_status, creating_status, failed_status}
use pdu_session_sim.Smf.Orchestrator.Establishment.{
  session_of, validate_subscription, transfer_active,
}
use pdu_session_sim.Smf.Orchestrator.Establishment.Laws.{
  validate_subscription-store, transfer_active-store,
}
use pdu_session_sim.Smf.Orchestrator.Notify.{notify_amf_session_failure}
use pdu_session_sim.Smf.Orchestrator.Reason.{reason_of}
use pdu_session_sim.Smf.Orchestrator.Reason.Laws.{reason_of-ne-nil}
use pdu_session_sim.Smf.Orchestrator.Task.{prefix_error}
use pdu_session_sim.Smf.Orchestrator.State.{Job, Metrics, World, Surroundings}
use pdu_session_sim.Smf.PfcpClient.{next_seq, await, rejected, timed_out}

-- The store has a session under the reference, with a property.
abbrev pub Has : {R : Type 0} → SessionRepository R → R → Text → (PduSession → Type 0) → Type 0
Has repo store ref P = (s : PduSession) × (repo.get ref store ≡ ok s) × P s

abbrev pub IsThere : PduSession → Type 0
IsThere s = Unit

abbrev pub IsCreating : PduSession → Type 0
IsCreating s = s.status ≡ creating_status

abbrev pub IsActive : Job → PduSession → Type 0
IsActive job s = (s.status ≡ active_status) × (s.ip_address ≡ job.ip_address)

abbrev pub IsFailed : PduSession → Type 0
IsFailed s = (s.status ≡ failed_status) × (s.failure_reason ≢ [])

-- Nothing, before the session is saved; afterwards the session with its status.
abbrev pub Expected : Job → Stage → PduSession → Type 0
Expected job transferring s = IsActive job s
Expected job succeeding s = IsActive job s
Expected job (failing e) s = IsThere s
Expected job (marking e) s = IsThere s
Expected job (notifying reason e) s = IsFailed s
Expected job finished s = IsActive job s ⊎ IsFailed s
Expected job _ s = IsCreating s

abbrev pub Holds : {R : Type 0} → SessionRepository R → R → Job → Stage → Type 0
Holds repo store job saving = Unit
Holds repo store job stage = Has repo store job.sm_context_ref (Expected job stage)

module _ {R : Type 0} {kept : ℕ → ℕ} (repo : SessionRepository R) (lawful : IsRepository kept repo)
    (reliable : IsReliable repo) (env : Surroundings) (job : Job) (w : World R) (m : Metrics) where
  -- A stage touches no session under another reference.
  pub advance-get_other :
      (stage : Stage) (other : Text)
      → job.sm_context_ref ≢ other
      → repo.get other (advance repo env job stage w m).0.store ≡ repo.get other w.store
  unfolding advance notify_amf_session_failure
  advance-get_other saving other ne =
      lawful.saved_other env.saved_at (session_of job.sm_context_ref job) w.store other ne
  advance-get_other validating other ne =
      ground (arith, validate_subscription-store repo env job.supi job w)
  advance-get_other establishing other ne = refl
  advance-get_other (waiting bytes seq ch) other ne = refl
  advance-get_other activating other ne =
      (lawful.ip_updates job.sm_context_ref active_status job.ip_address env.activated_at).kept
        w.store other ne
  advance-get_other transferring other ne =
      ground (arith, transfer_active-store repo env job.sm_context_ref job.supi job w)
  advance-get_other succeeding other ne = refl
  advance-get_other (failing e) other ne = refl
  advance-get_other (marking e) other ne =
      (lawful.reason_updates job.sm_context_ref failed_status (reason_of e) env.failed_at).kept
        w.store other ne
  advance-get_other (notifying reason e) other ne = ground arith
  advance-get_other finished other ne = refl

  -- A stage that ends with an error leaves the session there.
  after_outcome-Holds :
      {A : Type 0} (store : R) (following : Stage) (r : Result A)
      → Has repo store job.sm_context_ref IsThere
      → Holds repo store job following
      → Holds repo store job (after_outcome following r)
  after_outcome-Holds store following (err e) there holds = there
  after_outcome-Holds store following (ok _) there holds = holds

  -- A call that begins goes to its wait or to an error.
  begin_call-Holds :
      (s : PduSession)
      → repo.get job.sm_context_ref w.store ≡ ok s
      → IsCreating s
      → Holds repo w.store job (begin_call env job.ip_address w.pfcp).1
  unfolding begin_call
  begin_call-Holds s at creating =
      elim (Result-cases (encode_request 50 (next_seq w.pfcp).seq_counter job.ip_address)) [
        | inl (e, refused) ↦ rw (refused, begin_call) (s, at, tt)
        | inr (bytes, encoded) ↦ elim (Option-cases (env.exchange bytes).write_error) [
          | inl written ↦ rw (encoded, written, begin_call) (s, at, creating)
          | inr (e, unwritten) ↦ rw (encoded, unwritten, begin_call) (s, at, tt)
        ]
      ]

  -- After a stage the store holds what the next one expects.
  pub advance-Holds :
      (stage : Stage)
      → Holds repo w.store job stage
      → (let (w', _, following) = advance repo env job stage w m in
          Holds repo w'.store job following)
  unfolding advance notify_amf_session_failure end_call
  advance-Holds saving holds =
      let saved = reliable.saves env.saved_at (session_of job.sm_context_ref job) w.store in
      rw saved
        (_, lawful.saved env.saved_at (session_of job.sm_context_ref job) w.store saved, refl)
  advance-Holds validating (s, at, creating) =
      let (w', r) = validate_subscription repo env job.supi job w in
      let at' : repo.get job.sm_context_ref w'.store ≡ ok s =
        ground (arith, at, validate_subscription-store repo env job.supi job w) in
      after_outcome-Holds w'.store establishing r (s, at', tt) (s, at', creating)
  advance-Holds establishing (s, at, creating) = begin_call-Holds s at creating
  advance-Holds (waiting bytes seq ch) (s, at, creating) =
      after_outcome-Holds w.store activating
        (prefix_error pfcp_error (await rejected timed_out (env.exchange bytes).expired ch w.pfcp))
        (s, at, tt) (s, at, creating)
  advance-Holds activating (s, at, creating) = (
    _,
    (lawful.ip_updates job.sm_context_ref active_status job.ip_address env.activated_at).changed
        w.store s at
        (reliable.updates_ip job.sm_context_ref active_status job.ip_address env.activated_at
          w.store s at),
    (refl, refl),
  )
  advance-Holds transferring (s, at, active) =
      let (w', r) = transfer_active repo env job.sm_context_ref job.supi job w in
      let at' : repo.get job.sm_context_ref w'.store ≡ ok s =
        ground (arith, at, transfer_active-store repo env job.sm_context_ref job.supi job w) in
      after_outcome-Holds w'.store succeeding r (s, at', tt) (s, at', active)
  advance-Holds succeeding (s, at, active) = (s, at, inl active)
  advance-Holds (failing e) (s, at, _) = (s, at, tt)
  advance-Holds (marking e) (s, at, _) = (
    _,
    (lawful.reason_updates job.sm_context_ref failed_status (reason_of e) env.failed_at).changed
        w.store s at
        (reliable.updates_reason job.sm_context_ref failed_status (reason_of e) env.failed_at
          w.store s at),
    (refl, reason_of-ne-nil e),
  )
  advance-Holds (notifying reason e) (s, at, failed) = (s, ground (arith, at), inr failed)
  advance-Holds finished holds = holds
