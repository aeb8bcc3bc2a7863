-- ===== src/Smf/Orchestrator/Worker/PfcpFailure.antt =====
-- A job that fails at its PFCP stage (`processJob` and `processEstablishment` of internal/smf/service.go).
use pdu_session_sim.Common.{ℕ, ◌≡◌, ◌∙◌, ◌++◌, Text, text, ok, err}
use pdu_session_sim.Models.{PduSession}
use pdu_session_sim.Smf.Db.Interface.{SessionRepository, IsRepository, IsReliable}
use pdu_session_sim.Smf.Db.Status.{failed_status}
use pdu_session_sim.Smf.Orchestrator.Establishment.{session_of}
use pdu_session_sim.Smf.Orchestrator.Establishment.Stages.{Validates}
use pdu_session_sim.Smf.Orchestrator.Establishment.Success.{process_of_pfcp_failure}
use pdu_session_sim.Smf.Orchestrator.Reason.{pfcp_timeout}
use pdu_session_sim.Smf.Orchestrator.Reason.Laws.{reason_of-pfcp}
use pdu_session_sim.Smf.Orchestrator.State.{Job, job_establish, Metrics, World, Surroundings}
use pdu_session_sim.Smf.Orchestrator.Worker.{process_job}
use pdu_session_sim.Smf.Orchestrator.Worker.Laws.{process_job-failed}
use pdu_session_sim.Smf.PfcpClient.{send_session_establishment_request}

module _ {R : Type 0} {kept : ℕ → ℕ} (repo : SessionRepository R) (lawful : IsRepository kept repo)
    (reliable : IsReliable repo) where
  -- Over a store with the laws of a store that never fails: an establishment job that the UDM validates,
  -- and whose PFCP request ends with an error, leaves its session failed for PFCP_TIMEOUT, whatever the
  -- error is: an address that is refused, a request that is not written, no answer in time, or an answer
  -- that rejects the session.
  pub process_job-pfcp_failed :
      (env : Surroundings) (job : Job) (w : World R) (m : Metrics) (e : Text)
      → job.type ≡ job_establish
      → Validates env job.supi job
      → (send_session_establishment_request env.exchange job.ip_address w.pfcp).1 ≡ err e
      → (s : PduSession) × (repo.get job.sm_context_ref (process_job repo env job w m).0.store
          ≡ ok s)
        × (s.status ≡ failed_status)
        × (s.failure_reason ≡ pfcp_timeout)
  process_job-pfcp_failed env job w m e kind validates failed =
      let run =
        process_of_pfcp_failure repo env job.sm_context_ref job.supi job.ip_address job w e
          (reliable.saves env.saved_at (session_of job.sm_context_ref job) w.store) validates
          failed in
      let (s, at, status, reason, _) =
        process_job-failed repo lawful reliable env job w m kind
          (text "PFCP Establishment Request failed: " ++ e) run in
      (s, at, status, reason ∙ reason_of-pfcp e)
