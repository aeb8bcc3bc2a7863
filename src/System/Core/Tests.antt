-- ===== src/System/Core/Tests.antt =====
-- The SMF and the UPF over a run of one job.
use pdu_session_sim.Common.{
  int_beq, lookup, insert, ℕ, ◌+◌, ◌≡◌, ◌≢◌, ◌<◌, ◌^◌, inl, refl, sym, subst, List, [], ◌∷◌, ok,
  Text, some, none, arith, nat_eq, text_eq, text_beq,
}
use pdu_session_sim.Models.{PduSession}
use pdu_session_sim.Smf.Concurrent.Service.{take_job, receive, busy}
use pdu_session_sim.Smf.Concurrent.Stages.{
  Stage, saving, validating, establishing, activating, waiting, advance, begin_call, end_call,
}
use pdu_session_sim.Smf.Db.{
  InMemoryRepository, in_memory, new_in_memory_repository, save_session, get_session,
  update_session_status_and_ip,
}
use pdu_session_sim.Smf.Db.Laws.{in_memory-IsRepository, in_memory-IsReliable}
use pdu_session_sim.Smf.Db.Status.{active_status}
use pdu_session_sim.Smf.Handler.{job_of, create_sm_context}
use pdu_session_sim.Smf.Handler.Refs.{next_ref}
use pdu_session_sim.Smf.Orchestrator.Establishment.{session_of, validate_subscription}
use pdu_session_sim.Smf.Orchestrator.State.{Job}
use pdu_session_sim.Smf.Orchestrator.Worker.{init_orchestrator, allocate_ip}
use pdu_session_sim.Smf.PfcpClient.{
  new_client, next_seq, register, offer, unregister, handle_response, await, accept,
}
use pdu_session_sim.Udm.{get_subscription_data, get_subscriber, new_in_memory_subscriber_repository}
use pdu_session_sim.Upf.{handle_packet, establish}
use pdu_session_sim.Ip.{parse_ip4, print_octet}
use pdu_session_sim.Pfcp.{encode_request, decode_request, encode_response, decode_response}
use pdu_session_sim.Routes.{dispatch, path_of}
use pdu_session_sim.System.{host_of}
use pdu_session_sim.System.Core.{
  Core, WasSent, move_core, serve_packet, requested, taken, moved, served, received, Reach, here,
  next,
}
use pdu_session_sim.System.Core.Backed.{Reach-smf, Reach-Backed}
use pdu_session_sim.Smf.Concurrent.Bounds.{Bounded, Reach-Bounded}
use pdu_session_sim.Smf.Concurrent.Pending.{WaitsAt, Reach-Awaited}
use pdu_session_sim.System.Core.Datagrams.{start_core}
use pdu_session_sim.System.Core.Table.{Stored}
use pdu_session_sim.System.Samples.{sample_request, sample_core}

abbrev started : Core InMemoryRepository
started = start_core new_in_memory_repository 4

abbrev asked : Core InMemoryRepository
asked = record started {
  smf = record started.smf { smf = (create_sm_context 7 (ok sample_request) started.smf.smf).0 };
}

abbrev asked_job : Job
asked_job = job_of (next_ref 7 started.smf.smf) (allocate_ip started.smf.smf.orc).1 sample_request

abbrev begun : Core InMemoryRepository
begun = record asked { smf = take_job 0 asked_job [] asked.smf }

abbrev step : Stage → Core InMemoryRepository → Core InMemoryRepository
step = move_core in_memory sample_core 0 asked_job

abbrev called : Core InMemoryRepository
called = step establishing (step validating (step saving begun))

abbrev request_bytes : List ℕ
request_bytes = 32 ∷ 50 ∷ 0 ∷ 5 ∷ 0 ∷ 0 ∷ 0 ∷ 1 ∷ 1 ∷ 10 ∷ 11 ∷ 22 ∷ 2 ∷ []

abbrev answer_bytes : List ℕ
answer_bytes = 32 ∷ 51 ∷ 0 ∷ 1 ∷ 0 ∷ 0 ∷ 0 ∷ 1 ∷ 1 ∷ []

abbrev answered : Core InMemoryRepository
answered = serve_packet request_bytes called

abbrev told : Core InMemoryRepository
told = record answered { smf = receive answer_bytes answered.smf }

abbrev waited : Core InMemoryRepository
waited = step (waiting request_bytes 1 0) told

abbrev activated : Core InMemoryRepository
activated = step activating waited

in_queue : asked.smf.smf.orc.job_queue ≡ asked_job ∷ []
unfolding create_sm_context init_orchestrator
in_queue = refl

is_validating : (step saving begun).smf.workers 0 ≡ busy asked_job validating
unfolding advance save_session
is_validating = refl

is_establishing : (step validating (step saving begun)).smf.workers 0 ≡ busy asked_job establishing
unfolding advance validate_subscription text_beq host_of dispatch path_of get_subscription_data
    get_subscriber new_in_memory_subscriber_repository int_beq
is_establishing = refl

called_waits : called.smf.workers 0 ≡ busy asked_job (waiting request_bytes 1 0)
unfolding advance begin_call encode_request parse_ip4 allocate_ip print_octet init_orchestrator
    next_seq validate_subscription text_beq host_of dispatch path_of get_subscription_data
    get_subscriber new_in_memory_subscriber_repository int_beq create_sm_context save_session
    new_client
called_waits = refl

called_sent : called.to_upf ≡ request_bytes ∷ []
unfolding advance begin_call encode_request parse_ip4 allocate_ip print_octet init_orchestrator
    next_seq validate_subscription text_beq host_of dispatch path_of get_subscription_data
    get_subscriber new_in_memory_subscriber_repository int_beq create_sm_context save_session
    new_client
called_sent = refl

answered_sent : answered.to_smf ≡ answer_bytes ∷ []
unfolding advance handle_packet establish decode_request encode_response
answered_sent = refl

waited_activates : waited.smf.workers 0 ≡ busy asked_job activating
unfolding advance end_call await accept handle_response offer register lookup insert decode_response
    handle_packet establish decode_request encode_response begin_call encode_request parse_ip4
    allocate_ip print_octet init_orchestrator next_seq validate_subscription text_beq host_of
    dispatch path_of get_subscription_data get_subscriber new_in_memory_subscriber_repository
    int_beq create_sm_context save_session new_client
waited_activates = refl

abbrev active_session : PduSession
active_session = record (session_of asked_job.sm_context_ref asked_job) {
  status = active_status;
  ip_address = asked_job.ip_address;
  created_at = 7;
  updated_at = 7;
}

is_stored :
    in_memory.get asked_job.sm_context_ref activated.smf.smf.orc.world.store ≡ ok active_session
unfolding advance get_session update_session_status_and_ip create_sm_context init_orchestrator
    new_in_memory_repository save_session validate_subscription text_beq host_of dispatch path_of
    get_subscription_data get_subscriber new_in_memory_subscriber_repository int_beq
is_stored = refl

saving_counter : begun.smf.smf.orc.world.pfcp.seq_counter + 1 < 2 ^ 32
unfolding create_sm_context init_orchestrator new_client
saving_counter = omega arith

validating_counter : (step saving begun).smf.smf.orc.world.pfcp.seq_counter + 1 < 2 ^ 32
unfolding advance create_sm_context init_orchestrator new_client
validating_counter = omega arith

establishing_counter :
    (step validating (step saving begun)).smf.smf.orc.world.pfcp.seq_counter + 1 < 2 ^ 32
unfolding advance validate_subscription text_beq host_of dispatch path_of get_subscription_data
    get_subscriber new_in_memory_subscriber_repository int_beq create_sm_context init_orchestrator
    new_client
establishing_counter = omega arith

waiting_counter : told.smf.smf.orc.world.pfcp.seq_counter + 1 < 2 ^ 32
unfolding advance handle_response offer register lookup insert decode_response handle_packet
    establish decode_request encode_response begin_call encode_request parse_ip4 allocate_ip
    print_octet init_orchestrator next_seq validate_subscription text_beq host_of dispatch path_of
    get_subscription_data get_subscriber new_in_memory_subscriber_repository int_beq
    create_sm_context save_session new_client
waiting_counter = omega arith

activating_counter : waited.smf.smf.orc.world.pfcp.seq_counter + 1 < 2 ^ 32
unfolding advance end_call unregister handle_response offer register lookup insert decode_response
    handle_packet establish decode_request encode_response begin_call encode_request parse_ip4
    allocate_ip print_octet init_orchestrator next_seq validate_subscription text_beq host_of
    dispatch path_of get_subscription_data get_subscriber new_in_memory_subscriber_repository
    int_beq create_sm_context save_session new_client
activating_counter = omega arith

told_waits : told.smf.workers 0 ≡ busy asked_job (waiting request_bytes 1 0)
told_waits = called_waits

request_sent : WasSent request_bytes called.to_upf
request_sent = subst (WasSent request_bytes) (sym called_sent) (inl refl)

answer_sent : WasSent answer_bytes answered.to_smf
answer_sent = subst (WasSent answer_bytes) (sym answered_sent) (inl refl)

called-Reach : Reach in_memory 2 started called
called-Reach =
    next
      (next
        (next
          (next (next here (requested 7 sample_request (omega arith)))
            (taken 0 asked_job [] (omega arith) refl in_queue))
          (moved 0 sample_core asked_job saving refl saving_counter))
        (moved 0 sample_core asked_job validating is_validating validating_counter))
      (moved 0 sample_core asked_job establishing is_establishing establishing_counter)

activated-Reach : Reach in_memory 2 started activated
activated-Reach =
    next
      (next
        (next (next called-Reach (served request_bytes request_sent))
          (received answer_bytes answer_sent))
        (moved 0 sample_core asked_job (waiting request_bytes 1 0) told_waits waiting_counter))
      (moved 0 sample_core asked_job activating waited_activates activating_counter)

none_active :
    (other : Text) (old : PduSession)
    → in_memory.get other new_in_memory_repository ≡ ok old
    → old.status ≢ active_status
unfolding get_session new_in_memory_repository lookup
none_active other old at = ground (arith, at)

Reach-Backed_example : (seq : ℕ) × Stored activated.upf seq asked_job.ip_address
Reach-Backed_example =
    Reach-Backed in_memory in_memory-IsRepository in_memory-IsReliable 2 4 new_in_memory_repository
      activated asked_job.sm_context_ref active_session none_active activated-Reach is_stored refl

called_pending : lookup 1 called.smf.smf.orc.world.pfcp.pending ≡ some 0
unfolding advance begin_call encode_request parse_ip4 allocate_ip print_octet init_orchestrator
    next_seq validate_subscription text_beq host_of dispatch path_of get_subscription_data
    get_subscriber new_in_memory_subscriber_repository int_beq create_sm_context save_session
    new_client register lookup insert
called_pending = refl

none_pending : (k : ℕ) → lookup k new_client.pending ≡ none
unfolding new_client lookup
none_pending k = refl

Reach-Awaited_example : (i : ℕ) × (i < 2) × WaitsAt called.smf.workers i 1 0
Reach-Awaited_example =
    Reach-Awaited in_memory 2 4
      (record { store = new_in_memory_repository; pfcp = new_client; requests = [] }) called.smf 1 0
      none_pending (Reach-smf in_memory called-Reach) called_pending

small_start : new_client.seq_counter < 2 ^ 32
unfolding new_client
small_start = omega arith

Reach-Bounded_example : Bounded 4 activated.smf
Reach-Bounded_example =
    Reach-Bounded in_memory 2 4
      (record { store = new_in_memory_repository; pfcp = new_client; requests = [] }) activated.smf
      small_start (Reach-smf in_memory activated-Reach)
