-- ===== src/Smf/Orchestrator/Notify.antt =====
-- The failure notifications to the AMF (internal/smf/service.go): what becomes of a notification is
-- only logged.
use pdu_session_sim.Common.{none, some, Text, ok, err, ◌∷◌}
use pdu_session_sim.Http.{post_method, n1n2_body}
use pdu_session_sim.Models.{PduSession, N1N2MessageTransfer}
use pdu_session_sim.Smf.Db.Interface.{SessionRepository}
use pdu_session_sim.Smf.Db.Status.{failed_status}
use pdu_session_sim.Smf.Orchestrator.Establishment.{amf_url}
use pdu_session_sim.Smf.Orchestrator.State.{Job, World}
use pdu_session_sim.Http.{Network}

abbrev pub failed_message : Text → Text → Text → PduSession → N1N2MessageTransfer
failed_message ref cause message session = record {
  pdu_session_id = session.pdu_session_id;
  s_nssai = record { sst = session.sst; sd = session.sd };
  dnn = session.dnn;
  sm_context_ref = ref;
  status = failed_status;
  cause = cause;
  message = message;
}

abbrev pub failed_job_message : Text → Text → Job → N1N2MessageTransfer
failed_job_message cause message job = record {
  pdu_session_id = job.pdu_session_id;
  s_nssai = record { sst = job.sst; sd = job.sd };
  dnn = job.dnn;
  sm_context_ref = job.sm_context_ref;
  status = failed_status;
  cause = cause;
  message = message;
}

module _ {R : Type 0} (net : Network) where
  -- A message to the AMF, where the request can be built.
  abbrev pub post_to_amf : Text → N1N2MessageTransfer → World R → World R
  post_to_amf supi n1n2 w = elim (net.request_error post_method (amf_url supi)) [
    | some _ ↦ w
    | none ↦ record w {
      requests =
          (record { method = post_method; url = amf_url supi; body = n1n2_body n1n2 }) ∷ w.requests;
    }
  ]

  unfoldable pub notify_amf_session_failure :
      SessionRepository R → Text → Text → Text → Text → World R → World R
  notify_amf_session_failure repo ref supi cause message w = elim (repo.get ref w.store) [
    | err _ ↦ w
    | ok session ↦ post_to_amf supi (failed_message ref cause message session) w
  ]

  unfoldable pub notify_amf_job_failure : Job → Text → Text → World R → World R
  notify_amf_job_failure job cause message w =
      post_to_amf job.supi (failed_job_message cause message job) w
