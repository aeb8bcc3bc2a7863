-- ===== src/Smf/Orchestrator/Tests.antt =====
-- The stages and the worker on the sample job, with an AMF that knows the session and one that does not.
use pdu_session_sim.Common.{
  ◌+◌, ◌<◌, ◌≤◌, ◌≡◌, ◌≢◌, ◌↔◌, ◌⊎◌, refl, [], ◌∷◌, ◌++◌, true, false, none, text, text_eq, ok, err,
  length, arith, ◌^◌,
}
use pdu_session_sim.Models.{PduSession}
use pdu_session_sim.Ip.{parse_ip4, print_ipv4, print_octet}
use pdu_session_sim.Pfcp.{PfcpSessionResponse, encode_request}
use pdu_session_sim.Smf.Db.{in_memory, get_session, InMemoryRepository}
use pdu_session_sim.Smf.Db.Laws.{in_memory-IsRepository, in_memory-IsReliable}
use pdu_session_sim.Smf.Orchestrator.Establishment.{amf_post, udm_query, process_establishment}
use pdu_session_sim.Smf.Orchestrator.Establishment.Laws.{
  activated_session, saved_session, process_establishment-get,
}
use pdu_session_sim.Smf.Orchestrator.Establishment.Stages.{Validates}
use pdu_session_sim.Smf.Orchestrator.Establishment.Success.{
  Succeeds, process_establishment-ok_iff, process_establishment-tells_active,
}
use pdu_session_sim.Smf.Orchestrator.Reason.{contains, pfcp_timeout}
use pdu_session_sim.Smf.Orchestrator.Reason.Laws.{Occurs, contains_iff}
use pdu_session_sim.Smf.Orchestrator.Worker.{
  Orchestrator, init_orchestrator, process_job, allocate_ip,
}
use pdu_session_sim.Smf.Orchestrator.Worker.Addresses.{allocations, allocate_ip-distinct}
use pdu_session_sim.Smf.Orchestrator.Worker.Counters.{finished}
use pdu_session_sim.Smf.Orchestrator.Worker.Laws.{EndsWell, EndsBadly, process_job-ends}
use pdu_session_sim.Smf.PfcpClient.{send_session_establishment_request, transact, await, timed_out}
use pdu_session_sim.Smf.Db.Status.{failed_status}
use pdu_session_sim.Smf.Orchestrator.State.{Surroundings}
use pdu_session_sim.Smf.Orchestrator.Worker.PfcpFailure.{process_job-pfcp_failed}
use pdu_session_sim.System.Establishment.{core-Validates}
use pdu_session_sim.System.Samples.{
  sample_udm, knowing_amf, sample_upf, sample_outside, imsi_1-IsSegment, sample-BuildsRequests,
  sample_subscription, sample_found, sample-Allows, sample_ref, sample_address, sample_job,
  sample_world, sample_metrics, sample_core, early_core,
}
use pdu_session_sim.Udm.{imsi_1}

process_establishment-ok_iff_example :
    ((process_establishment in_memory sample_core sample_ref imsi_1 sample_address sample_job
        sample_world).1
      ≡ ok tt)
    ↔ Succeeds in_memory sample_core sample_ref imsi_1 sample_address sample_job sample_world
process_establishment-ok_iff_example =
    process_establishment-ok_iff in_memory sample_core sample_ref imsi_1 sample_address sample_job
      sample_world

process_establishment-tells_active_example :
    ((process_establishment in_memory early_core sample_ref imsi_1 sample_address sample_job
        sample_world).0.requests
      ≡ [])
    ⊎ ((process_establishment in_memory early_core sample_ref imsi_1 sample_address sample_job
          sample_world).0.requests
        ≡ udm_query imsi_1 ∷ [])
    ⊎ (((process_establishment in_memory early_core sample_ref imsi_1 sample_address sample_job
            sample_world).0.requests
          ≡ amf_post sample_ref imsi_1 sample_job ∷ udm_query imsi_1 ∷ [])
        × Validates early_core imsi_1 sample_job
        × ((res : PfcpSessionResponse) × ((send_session_establishment_request early_core.exchange
                sample_address sample_world.pfcp).1
              ≡ ok res)))
process_establishment-tells_active_example =
    process_establishment-tells_active in_memory early_core sample_ref imsi_1 sample_address
      sample_job sample_world

process_establishment-get_example :
    (((process_establishment in_memory early_core sample_ref imsi_1 sample_address sample_job
          sample_world).1
        ≡ ok tt)
      × (get_session sample_ref
            (process_establishment in_memory early_core sample_ref imsi_1 sample_address sample_job
              sample_world).0.store
          ≡ ok (activated_session (λ now. now) early_core sample_ref sample_address sample_job)))
    ⊎ (((process_establishment in_memory early_core sample_ref imsi_1 sample_address sample_job
            sample_world).1
          ≢ ok tt)
        × ((get_session sample_ref
                (process_establishment in_memory early_core sample_ref imsi_1 sample_address
                  sample_job sample_world).0.store
              ≡ ok (saved_session (λ now. now) early_core sample_ref sample_job))
            ⊎ (get_session sample_ref
                  (process_establishment in_memory early_core sample_ref imsi_1 sample_address
                    sample_job sample_world).0.store
                ≡ ok (
                    activated_session
                      (λ now. now)
                      early_core
                      sample_ref
                      sample_address
                      sample_job))))
process_establishment-get_example =
    process_establishment-get in_memory in_memory-IsRepository in_memory-IsReliable early_core
      sample_ref imsi_1 sample_address sample_job sample_world

process_job-ends_example :
    (s : PduSession) × (get_session sample_ref
        (process_job in_memory early_core sample_job sample_world sample_metrics).0.store
      ≡ ok s)
    × (EndsWell early_core sample_job sample_metrics s
          (process_job in_memory early_core sample_job sample_world sample_metrics).1
        ⊎ EndsBadly early_core sample_metrics s
            (process_job in_memory early_core sample_job sample_world sample_metrics).1)
process_job-ends_example =
    process_job-ends in_memory in_memory-IsRepository in_memory-IsReliable early_core sample_job
      sample_world sample_metrics refl

contains_iff_example :
    (contains (text "timeout waiting for PFCP") (text "PFCP") ≡ true)
    ↔ Occurs (text "PFCP") (text "timeout waiting for PFCP")
contains_iff_example = contains_iff (text "timeout waiting for PFCP") (text "PFCP")

-- The UPF does not answer.
abbrev silent_core : Surroundings
silent_core = record sample_core {
  exchange = λ bytes. record { write_error = none; arrived = []; expired = true };
}

silent_core-Validates : Validates silent_core imsi_1 sample_job
silent_core-Validates =
    let v =
      core-Validates sample_udm knowing_amf sample_upf sample_outside imsi_1 7 sample_job
        imsi_1-IsSegment sample-BuildsRequests sample_subscription sample_found sample-Allows in
    record {
      response = v.response;
      subscription = v.subscription;
      built = v.built;
      responds = v.responds;
      accepted = v.accepted;
      decoded = v.decoded;
      same_dnn = v.same_dnn;
      same_sst = v.same_sst;
      same_sd = v.same_sd;
    }

silent_call :
    (send_session_establishment_request silent_core.exchange sample_address sample_world.pfcp).1
    ≡ err timed_out
unfolding send_session_establishment_request transact await encode_request parse_ip4 print_ipv4
    print_octet
silent_call = refl

process_job-pfcp_failed_example :
    (s : PduSession) × (get_session sample_ref
        (process_job in_memory silent_core sample_job sample_world sample_metrics).0.store
      ≡ ok s)
    × (s.status ≡ failed_status)
    × (s.failure_reason ≡ pfcp_timeout)
process_job-pfcp_failed_example =
    process_job-pfcp_failed in_memory in_memory-IsRepository in_memory-IsReliable silent_core
      sample_job sample_world sample_metrics timed_out refl silent_core-Validates silent_call

not_pfcp :
    contains (text "AMF responded with error: " ++ text "404 Not Found") (text "PFCP") ≡ false
unfolding contains
not_pfcp = refl

-- The state after the SMF has started, with one place in the queue.
abbrev started : Orchestrator InMemoryRepository
started = init_orchestrator sample_world 1

started_state :
    (started.ip_counter ≡ 0x0a0b1601)
    × (started.queue_size ≡ 1)
    × (started.job_queue ≡ [])
    × (started.metrics ≡ sample_metrics)
unfolding init_orchestrator
started_state = (refl, refl, refl, refl)

started_empty : length started.job_queue ≤ started.queue_size
unfolding init_orchestrator
started_empty = omega arith

started_counter : started.ip_counter < 2 ^ 32
unfolding init_orchestrator
started_counter = omega arith

allocate_ip-distinct_example : (allocate_ip started).1 ≢ (allocate_ip (allocations 3 started)).1
allocate_ip-distinct_example =
    allocate_ip-distinct started 3 started_counter (omega arith) (omega arith)

started_small : (finished started.metrics + 2 < 2 ^ 64) × (started.metrics.tps_counter + 2 < 2 ^ 64)
unfolding init_orchestrator
started_small = (omega arith, omega arith)
