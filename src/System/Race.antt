-- ===== src/System/Race.antt =====
-- The SMF's worker against an AMF that has not stored the session yet: `TriggerEstablishment` stores the
-- reference only after the SMF's 201 has come back, and the job is in the queue before that
-- (internal/amf/handler.go, internal/smf/handler.go, internal/smf/service.go).
use pdu_session_sim.Common.{
  ℕ, ◌<◌, ◌≡◌, refl, ◌∙◌, ap, none, Text, text, ok, err, lookup, arith, text_eq,
}
use pdu_session_sim.Amf
use pdu_session_sim.Amf.{receive_n1n2_callback}
use pdu_session_sim.Amf.Laws.{receive_n1n2_callback-active}
use pdu_session_sim.Decimal.{decimal}
use pdu_session_sim.Http.{Reply, http_error}
use pdu_session_sim.Ip.{print_ipv4}
use pdu_session_sim.Models.{SubscriptionData, PduSession}
use pdu_session_sim.Smf.Db.Interface.{SessionRepository, IsRepository, IsReliable}
use pdu_session_sim.Smf.Db.Status.{failed_status}
use pdu_session_sim.Smf.Orchestrator.Establishment.{
  session_of, active_message, transfer_active, process_establishment,
}
use pdu_session_sim.Smf.Orchestrator.Establishment.Stages.{transfer_of_refusal}
use pdu_session_sim.Smf.Orchestrator.Establishment.Success.{process_of_transfer}
use pdu_session_sim.Smf.Orchestrator.Reason.{n1n2_failed, reason_of, contains}
use pdu_session_sim.Smf.Orchestrator.State.{Job, job_establish, Metrics, World}
use pdu_session_sim.Smf.Orchestrator.Worker.{process_job}
use pdu_session_sim.Smf.Orchestrator.Worker.Laws.{process_job-failed}
use pdu_session_sim.Smf.PfcpClient.Laws.{IsFresh}
use pdu_session_sim.Routes.Laws.{IsSegment}
use pdu_session_sim.System.{response_of, status_line, Outside, BuildsRequests}
use pdu_session_sim.System.Establishment.{core, Allows, core-Validates, core-responds}
use pdu_session_sim.System.Pfcp.{send-upf_accepts}
use pdu_session_sim.Udm.{SubscriberRepository}
use pdu_session_sim.Upf

abbrev not_found_message : Text
not_found_message = text "AMF responded with error: 404 404 Not Found"

not_found_reason : reason_of not_found_message ≡ n1n2_failed
unfolding reason_of contains
not_found_reason = refl

abbrev not_found_reply : Reply
not_found_reply = http_error (text "session context not found for IMSI") 404

module _ (udm : SubscriberRepository) (amf : Amf.Handler) (upf : Upf.Server) (outside : Outside)
    (now : ℕ) (job : Job) (segment : IsSegment job.supi) (builds : BuildsRequests outside)
    (unmapped : lookup job.supi amf.sessions ≡ none) {R : Type 0} (repo : SessionRepository R)
    (w : World R) where
  callback-not_found :
      (receive_n1n2_callback job.supi (ok (active_message job.sm_context_ref job)) amf).1
      ≡ not_found_reply
  callback-not_found = ground (
    arith,
    unmapped,
    receive_n1n2_callback-active job.supi (active_message job.sm_context_ref job) amf segment.given,
  )

  transfer-not_found :
      (w' : World R)
      → (transfer_active repo (core udm amf upf outside now) job.sm_context_ref job.supi job w').1
        ≡ err not_found_message
  unfolding decimal status_line
  transfer-not_found w' =
      transfer_of_refusal repo (core udm amf upf outside now) job.supi job w' job.sm_context_ref
        (response_of not_found_reply) (builds.amf_request job.supi segment)
        (core-responds udm amf upf outside job.supi now job segment builds job.sm_context_ref
          ∙ ap (λ r. ok (response_of r)) callback-not_found)
        (omega arith)

  module _ {kept : ℕ → ℕ} (lawful : IsRepository kept repo) (reliable : IsReliable repo)
      (fresh : IsFresh w.pfcp) (i₀ i₁ i₂ i₃ : ℕ) (h₀ : i₀ < 256) (h₁ : i₁ < 256) (h₂ : i₂ < 256)
      (h₃ : i₃ < 256) (address : job.ip_address ≡ print_ipv4 i₀ i₁ i₂ i₃)
      (kind : job.type ≡ job_establish) (sub : SubscriptionData)
      (found : udm.get_subscriber job.supi ≡ ok sub) (allowed : Allows sub job) where
    run-not_found :
        (process_establishment repo
          (core udm amf upf outside now)
          job.sm_context_ref
          job.supi
          job.ip_address
          job
          w).1
        ≡ err not_found_message
    run-not_found =
        let (res, done, _, _) = send-upf_accepts w.pfcp upf i₀ i₁ i₂ i₃ h₀ h₁ h₂ h₃ fresh in
        let (w', last) =
          process_of_transfer repo (core udm amf upf outside now) job.sm_context_ref job.supi
            job.ip_address job w (reliable.saves now (session_of job.sm_context_ref job) w.store)
            (core-Validates udm amf upf outside job.supi now job segment builds sub found allowed)
            (res, rw address done) in
        last ∙ transfer-not_found w'

    -- The AMF has no reference for the subscriber yet. Then an establishment job of a subscriber whose
    -- identity is a segment of a path, with an address in dotted decimal, whose subscription allows it and
    -- to which the UPF's answer arrives alone and in time, leaves the session failed for N1N2_FAILED, with
    -- HTTP requests that are built, over a store with the laws of a store that never fails and a PFCP
    -- client whose pending channels are ones that it made.
    pub process_job-race :
        (m : Metrics)
        → (s : PduSession) × (repo.get job.sm_context_ref
              (process_job repo (core udm amf upf outside now) job w m).0.store
            ≡ ok s)
          × (s.status ≡ failed_status)
          × (s.failure_reason ≡ n1n2_failed)
    process_job-race m =
        let (s, at, status, reason, _) =
          process_job-failed repo lawful reliable (core udm amf upf outside now) job w m kind
            not_found_message run-not_found in
        (s, at, status, reason ∙ not_found_reason)
