-- ===== src/Smf/Orchestrator/Establishment.antt =====
-- `processEstablishment` of internal/smf/service.go.
pub mod Laws
pub mod Stages
pub mod Success
use pdu_session_sim.Common.{
  ℕ, List, [], ◌++◌, Bool, not, ◌||◌, Text, text, text_beq, text_eq, int_beq, int_eq, nat_eq, ◌==◌,
  Result,
}
use pdu_session_sim.Decimal.{decimal}
use pdu_session_sim.Http.{
  HttpRequest, HttpResponse, Network, get_method, post_method, no_body, n1n2_body,
}
use pdu_session_sim.Models.{PduSession, SubscriptionData, N1N2MessageTransfer}
use pdu_session_sim.Smf.Db.Interface.{SessionRepository}
use pdu_session_sim.Smf.Db.Status.{active_status, creating_status}
use pdu_session_sim.Smf.Orchestrator.State.{Job, Surroundings}
use pdu_session_sim.Smf.Orchestrator.Task.{
  Task, ◌>>=◌, ◌>>◌, wrap, refuse, pure, in_store, in_store_ignored, new_request, send, send_pfcp,
}

-- The session that is saved first.
abbrev pub session_of : Text → Job → PduSession
session_of ref job = record {
  sm_context_ref = ref;
  supi = job.supi;
  gpsi = job.gpsi;
  pdu_session_id = job.pdu_session_id;
  dnn = job.dnn;
  sst = job.sst;
  sd = job.sd;
  serving_nf_id = job.serving_nf_id;
  an_type = job.an_type;
  status = creating_status;
  ip_address = [];
  failure_reason = [];
  created_at = 0;
  updated_at = 0;
}

abbrev pub udm_url : Text → Text
udm_url supi = text "http://udm:8082/nudm-sdm/v2/" ++ (supi ++ text "/sm-data")

abbrev pub amf_url : Text → Text
amf_url supi = text "http://amf:8080/namf-comm/v1/ue-context/" ++ (supi ++ text "/n1-n2-messages")

-- The subscription does not allow what the job asks for.
abbrev pub mismatch : SubscriptionData → Job → Bool
mismatch sub job =
    not (sub.dnn == job.dnn) || not (sub.s_nssai.sst == job.sst) || not (sub.s_nssai.sd == job.sd)

abbrev pub active_message : Text → Job → N1N2MessageTransfer
active_message ref job = record {
  pdu_session_id = job.pdu_session_id;
  s_nssai = record { sst = job.sst; sd = job.sd };
  dnn = job.dnn;
  sm_context_ref = ref;
  status = active_status;
  cause = text "REQUEST_ACCEPTED";
  message = [];
}

-- The two requests of an establishment.
abbrev pub udm_query : Text → HttpRequest
udm_query supi = record { method = get_method; url = udm_url supi; body = no_body }

abbrev pub amf_post : Text → Text → Job → HttpRequest
amf_post ref supi job = record {
  method = post_method;
  url = amf_url supi;
  body = n1n2_body (active_message ref job);
}

module _ {R : Type 0} (repo : SessionRepository R) (env : Surroundings) where
  -- Async step 2: the UDM knows the subscriber, and its subscription allows the session.
  unfoldable pub validate_subscription : Text → Job → Task R (Unit {0})
  validate_subscription supi job = do
    req ←
        wrap (text "UDM request creation failed: ")
          (new_request env.network get_method (udm_url supi) no_body)
    resp ← wrap (text "UDM communication failed: ") (send env.network req)
    refuse (resp.status_code == 404) (text "UDM returned subscriber not found (404)")
    refuse (not (resp.status_code == 200))
        (text "UDM returned unexpected status: " ++ decimal resp.status_code)
    sub ← wrap (text "UDM response decode failed: ") (pure resp.body.as_subscription)
    refuse (mismatch sub job) (text "UDM validation failed: subscription mismatch")

  -- Step 11: the AMF is told of the session.
  unfoldable pub transfer_active : Text → Text → Job → Task R (Unit {0})
  transfer_active ref supi job = do
    req ← new_request env.network post_method (amf_url supi) (n1n2_body (active_message ref job))
    resp ← wrap (text "N1N2 HTTP request failed: ") (send env.network req)
    refuse (not (resp.status_code == 200)) (
        text "AMF responded with error: "
        ++ (decimal resp.status_code ++ (text " " ++ resp.status)))

  unfoldable pub process_establishment : Text → Text → Text → Job → Task R (Unit {0})
  process_establishment ref supi ip job = do
    wrap (text "database error: ") (in_store (repo.save env.saved_at (session_of ref job)))
    validate_subscription supi job
    wrap (text "PFCP Establishment Request failed: ") (send_pfcp env.exchange ip)
    in_store_ignored (repo.update_status_and_ip ref active_status ip env.activated_at)
    transfer_active ref supi job
