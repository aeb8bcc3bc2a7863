-- ===== src/Smf/Handler.antt =====
-- The SMF's HTTP handlers (internal/smf/handler.go). A request body is what decoding it yields.
pub mod Laws
pub mod Refs
mod Tests
use pdu_session_sim.Common.{
  ℕ, ◌+◌, ◌%◌, ◌^◌, List, [], ◌∷◌, ◌++◌, Bool, true, false, Option, none, some, Text, text, text_eq,
  text_beq, Result, ok, err, ◌==◌, if◌then◌else◌,
}
use pdu_session_sim.Decimal.{decimal}
use pdu_session_sim.Http.{
  HttpRequest, HttpResponse, Network, Reply, http_error, ok_reply, post_method, raw_body,
  created_json, updated_json, sessions_json, stats_json, copied,
}
use pdu_session_sim.Models.{
  PduSession, CreateSmContextRequest, CreateSmContextResponse, UpdateSmContextRequest,
  UpdateSmContextResponse,
}
use pdu_session_sim.Smf.Db.Interface.{SessionRepository}
use pdu_session_sim.Smf.Db.Status.{failed_status}
use pdu_session_sim.Smf.Orchestrator.State.{Job, job_establish}
use pdu_session_sim.Smf.Orchestrator.Worker.{Orchestrator, allocate_ip, enqueue_job}

-- The orchestrator and `smContextCounter`, which the handlers share.
pub record Smf (R : Type 0) : Type 0 where
  pub orc : Orchestrator R
  pub sm_context_counter : ℕ

-- The reference of a context: the time in nanoseconds and the counter.
unfoldable pub context_ref : ℕ → ℕ → Text
unfolding decimal
context_ref nanos counter = text "smctx-" ++ (decimal nanos ++ (b'-' ∷ decimal counter))

abbrev pub job_of : Text → Text → CreateSmContextRequest → Job
job_of ref ip req = record {
  type = job_establish;
  sm_context_ref = ref;
  supi = req.supi;
  ip_address = ip;
  pdu_session_id = req.pdu_session_id;
  dnn = req.dnn;
  sst = req.s_nssai.sst;
  sd = req.s_nssai.sd;
  gpsi = req.gpsi;
  serving_nf_id = req.serving_nf_id;
  an_type = req.an_type;
}

abbrev pub congestion_reply : Reply
congestion_reply = record {
  status_code = 503;
  body = created_json (record { sm_context_ref = []; cause = text "SMF_CONGESTION" });
}

abbrev pub accepted_reply : Text → Reply
accepted_reply ref = record {
  status_code = 201;
  body = created_json (record { sm_context_ref = ref; cause = text "REQUEST_ACCEPTED" });
}

module _ {R : Type 0} where
  -- A request that decodes: the counter, the address, the queue, and the reply at once.
  unfoldable pub accept_context : ℕ → CreateSmContextRequest → Smf R → Smf R × Reply
  unfolding context_ref allocate_ip enqueue_job
  accept_context nanos req s =
      let counter = (s.sm_context_counter + 1) % 2 ^ 64 in
      let ref = context_ref nanos counter in
      let (o, ip) = allocate_ip s.orc in
      let (o', enqueued) = enqueue_job (job_of ref ip req) o in
      (
        record { orc = o'; sm_context_counter = counter },
        if enqueued then accepted_reply ref else congestion_reply,
      )

  unfoldable pub create_sm_context : ℕ → Result CreateSmContextRequest → Smf R → Smf R × Reply
  unfolding accept_context
  create_sm_context nanos (err _) s = (s, http_error (text "invalid request body") 400)
  create_sm_context nanos (ok req) s = accept_context nanos req s

  module _ (repo : SessionRepository R) where
    unfoldable pub get_sessions : R → Reply
    get_sessions r = elim (repo.all r) [
      | err e ↦ http_error e 500
      | ok list ↦ record { status_code = 200; body = sessions_json list }
    ]

    unfoldable pub get_stats : R → Reply
    get_stats r = record {
      status_code = 200;
      body = stats_json (repo.by_status r) (repo.by_failure_reason r);
    }

    -- `failSession`: the store, the session for the dashboard if it has a hub, and the reply.
    unfoldable pub fail_session : Text → Text → ℕ → ℕ → Bool → R → R × Option PduSession × Reply
    fail_session ref cause http_code now has_hub r =
        let (r', _) = repo.update_status_with_reason ref failed_status cause now r in
        (
          r',
          if has_hub then (elim (repo.get ref r') [ err _ ↦ none | ok sess ↦ some sess ]) else none,
          record {
            status_code = http_code;
            body = created_json (record { sm_context_ref = ref; cause = cause });
          },
        )

-- The update is acknowledged and does nothing.
unfoldable pub update_sm_context : Text → Result UpdateSmContextRequest → Reply
unfolding text_beq
update_sm_context ref body =
    if ref == [] then http_error (text "smContextRef is required") 400 else elim body [
      | err _ ↦ http_error (text "invalid request body") 400
      | ok req ↦ record {
        status_code = 200;
        body =
            updated_json
              (record { up_cnx_state = req.up_cnx_state; cause = text "REQUEST_ACCEPTED" });
      }
    ]

abbrev pub trigger_url : Text
trigger_url = text "http://amf:8080/trigger"

-- The proxy passes the payload on to the AMF, and the answer back.
unfoldable pub trigger_proxy : Network → Result Text → Option HttpRequest × Reply
trigger_proxy net (err e) = (none, http_error e 500)
trigger_proxy net (ok payload) = elim (net.request_error post_method trigger_url) [
  | some e ↦ (none, http_error e 500)
  | none ↦
      let req : HttpRequest = record {
        method = post_method;
        url = trigger_url;
        body = raw_body payload;
      } in
      elim (net.respond req) [
        | err e ↦ (some req, http_error (text "AMF is unreachable: " ++ e) 503)
        | ok resp ↦ (some req, record { status_code = resp.status_code; body = copied resp.body })
      ]
]
