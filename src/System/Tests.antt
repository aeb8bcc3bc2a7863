-- ===== src/System/Tests.antt =====
-- The sample subscriber's establishment, with each AMF.
use pdu_session_sim.Common.{◌≡◌, refl, none, some, ok, lookup, text_eq, text_beq, nat_eq, arith}
use pdu_session_sim.Ip.{print_ipv4}
use pdu_session_sim.Models.{PduSession}
use pdu_session_sim.Pfcp.{PfcpSessionResponse}
use pdu_session_sim.Smf.Db.{in_memory, get_session}
use pdu_session_sim.Smf.Db.Laws.{in_memory-IsRepository, in_memory-IsReliable}
use pdu_session_sim.Smf.Db.Status.{failed_status}
use pdu_session_sim.Smf.Orchestrator.Establishment.{session_of, process_establishment}
use pdu_session_sim.Smf.Orchestrator.Reason.{n1n2_failed}
use pdu_session_sim.Smf.Orchestrator.Worker.{process_job}
use pdu_session_sim.Smf.PfcpClient.{new_client, send_session_establishment_request, next_seq}
use pdu_session_sim.System.{upf_exchange}
use pdu_session_sim.System.Establishment.{process_establishment-core}
use pdu_session_sim.System.Pfcp.{send-upf_accepts}
use pdu_session_sim.System.Race.{process_job-race}
use pdu_session_sim.System.Samples.{
  sample_udm, sample_ref, knowing_amf, unknowing_amf, sample_upf, sample_address, sample_job,
  sample_subscription, sample_world, sample_metrics, sample_core, early_core, new_client-IsFresh,
  sample_found, sample-Allows, imsi_1-IsSegment, sample_outside, sample-BuildsRequests,
}
use pdu_session_sim.Udm.{imsi_1}
use pdu_session_sim.Upf.{new_server}
use pdu_session_sim.Upf.Spec.{IsKeyed}

new_server-IsKeyed : IsKeyed new_server
unfolding new_server lookup
new_server-IsKeyed seq sess h = ground (arith, h)

send-upf_accepts_example :
    (res : PfcpSessionResponse) × ((send_session_establishment_request
        (upf_exchange new_server)
        (print_ipv4 10 11 22 2)
        new_client).1
      ≡ ok res)
    × (res.cause ≡ 1)
    × (res.header.sequence_number ≡ (next_seq new_client).seq_counter)
send-upf_accepts_example =
    send-upf_accepts new_client new_server 10 11 22 2 (omega arith) (omega arith) (omega arith)
      (omega arith) new_client-IsFresh

sample_mapped : lookup imsi_1 knowing_amf.sessions ≡ some sample_ref
unfolding lookup text_beq
sample_mapped = refl

sample_unmapped : lookup imsi_1 unknowing_amf.sessions ≡ none
unfolding lookup text_beq
sample_unmapped = refl

process_establishment-core_example :
    (process_establishment in_memory sample_core sample_ref imsi_1 sample_address sample_job
      sample_world).1
    ≡ ok tt
process_establishment-core_example =
    process_establishment-core sample_udm knowing_amf sample_upf sample_outside imsi_1 7 sample_job
      imsi_1-IsSegment sample-BuildsRequests in_memory sample_world new_client-IsFresh 10 11 22 2
      (omega arith) (omega arith) (omega arith) (omega arith) sample_ref sample_ref
      sample_subscription
      (in_memory-IsReliable.saves 7 (session_of sample_ref sample_job) sample_world.store)
      sample_found sample-Allows sample_mapped

process_job-race_example :
    (s : PduSession) × (get_session sample_ref
        (process_job in_memory early_core sample_job sample_world sample_metrics).0.store
      ≡ ok s)
    × (s.status ≡ failed_status)
    × (s.failure_reason ≡ n1n2_failed)
process_job-race_example =
    process_job-race sample_udm unknowing_amf sample_upf sample_outside 7 sample_job
      imsi_1-IsSegment sample-BuildsRequests sample_unmapped in_memory sample_world
      in_memory-IsRepository in_memory-IsReliable new_client-IsFresh 10 11 22 2 (omega arith)
      (omega arith) (omega arith) (omega arith) refl refl sample_subscription sample_found
      sample-Allows sample_metrics
