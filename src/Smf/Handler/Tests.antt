-- ===== src/Smf/Handler/Tests.antt =====
-- Requests to create a context, with a queue of one place.
use pdu_session_sim.Common.{
  ◌+◌, ◌%◌, ◌^◌, ◌<◌, ◌≤◌, ◌≡◌, ◌≢◌, ◌⊎◌, refl, [], ◌∷◌, ◌++◌, text, ok, length, pos, arith,
}
use pdu_session_sim.Decimal.{decimal}
use pdu_session_sim.Models.{CreateSmContextRequest}
use pdu_session_sim.Smf.Db.{InMemoryRepository}
use pdu_session_sim.Smf.Handler.{
  Smf, context_ref, job_of, accepted_reply, congestion_reply, create_sm_context,
}
use pdu_session_sim.Smf.Handler.Laws.{create_sm_context-outcome}
use pdu_session_sim.Smf.Handler.Refs.{next_ref, contexts, next_ref-distinct}
use pdu_session_sim.Smf.Orchestrator.Worker.{allocate_ip, init_orchestrator, count_failure}
use pdu_session_sim.Smf.Orchestrator.Worker.Addresses.{next_value}
use pdu_session_sim.System.Samples.{sample_world}

abbrev request : CreateSmContextRequest
request = record {
  supi = text "imsi-452040000000001";
  gpsi = text "msisdn-84900000001";
  pdu_session_id = pos 1;
  dnn = text "v-internet";
  s_nssai = record { sst = pos 1; sd = text "000001" };
  serving_nf_id = text "2ab2b5a9-68e8-4ee6-b939-024c109b520c";
  an_type = text "3GPP_ACCESS";
}

abbrev started : Smf InMemoryRepository
started = record { orc = init_orchestrator sample_world 1; sm_context_counter = 0 }

-- The second of two requests at the same time finds the queue full.
second_refused :
    (create_sm_context 7 (ok request) (create_sm_context 7 (ok request) started).0).1
    ≡ congestion_reply
unfolding create_sm_context init_orchestrator
second_refused = refl

first_accepted : (create_sm_context 7 (ok request) started).1 ≡ accepted_reply (text "smctx-7-1")
unfolding create_sm_context init_orchestrator context_ref decimal
first_accepted = refl

next_ref-distinct_example :
    next_ref 7 started ≢ next_ref 7 (contexts ((7, request) ∷ (7, request) ∷ []) started)
next_ref-distinct_example =
    next_ref-distinct ((7, request) ∷ (7, request) ∷ []) started 7 7 (omega arith) (omega arith)
      (omega arith)

started_buffered : 0 < started.orc.queue_size
unfolding init_orchestrator
started_buffered = let size : started.orc.queue_size ≡ 1 = refl in omega (arith, size)

create_sm_context-outcome_example :
    let (s', reply) = create_sm_context 7 (ok request) started in
    let ref = next_ref 7 started in
    let ip = (allocate_ip started.orc).1 in
    (s'.orc.world ≡ started.orc.world)
    × (s'.sm_context_counter ≡ (started.sm_context_counter + 1) % 2 ^ 64)
    × (s'.orc.ip_counter ≡ next_value started.orc)
    × (((length started.orc.job_queue < started.orc.queue_size)
          × (reply ≡ accepted_reply ref)
          × (s'.orc.job_queue ≡ started.orc.job_queue ++ job_of ref ip request ∷ [])
          × (s'.orc.metrics ≡ started.orc.metrics))
        ⊎ ((0 < length started.orc.job_queue)
            × (started.orc.queue_size ≤ length started.orc.job_queue)
            × (reply ≡ congestion_reply)
            × (s'.orc.job_queue ≡ started.orc.job_queue)
            × (s'.orc.metrics ≡ count_failure started.orc.metrics)))
create_sm_context-outcome_example = create_sm_context-outcome 7 request started started_buffered
