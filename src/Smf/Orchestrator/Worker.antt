-- ===== src/Smf/Orchestrator/Worker.antt =====
-- The queue, the address counter and the workers (internal/smf/service.go). Each job is worked on in
-- one piece, in the order of the queue.
pub mod Laws
pub mod PfcpFailure
pub mod Counters
pub mod Addresses
use pdu_session_sim.Common.{
  ℕ, suc, ◌+◌, ◌%◌, ◌^◌, ◌/◌, List, [], ◌∷◌, ◌++◌, Bool, true, false, Text, Option, none, some,
  Result, ok, err, ltb, if◌then◌else◌, length,
}
use pdu_session_sim.Ip.{print_ipv4}
use pdu_session_sim.Smf.Db.Interface.{SessionRepository}
use pdu_session_sim.Smf.Db.Status.{failed_status}
use pdu_session_sim.Smf.Orchestrator.Establishment.{process_establishment}
use pdu_session_sim.Smf.Orchestrator.Notify.{notify_amf_session_failure}
use pdu_session_sim.Smf.Orchestrator.Reason.{reason_of}
use pdu_session_sim.Smf.Orchestrator.State.{
  Job, job_establish, other_job, Metrics, World, Surroundings, add_uint64,
}

pub record Orchestrator (R : Type 0) : Type 0 where
  pub world : World R
  pub job_queue : List Job
  pub queue_size : ℕ
  pub ip_counter : ℕ
  pub metrics : Metrics

-- The state that `InitOrchestrator` sets up, around a store and a client.
unfoldable pub init_orchestrator : {R : Type 0} → World R → ℕ → Orchestrator R
init_orchestrator w queue_size = record {
  world = w;
  job_queue = [];
  queue_size = queue_size;
  ip_counter = 0x0a0b1601;
  metrics = record { tps_counter = 0; success_counter = 0; fail_counter = 0; latency_sum = 0 };
}

-- What `metricsReporter` sends to the dashboard each second; the average latency in milliseconds is
-- `latency_sum` over `tps` over 1000, and 0 where `tps` is 0.
pub record Report : Type 0 where
  pub tps : ℕ
  pub success_count : ℕ
  pub fail_count : ℕ
  pub latency_sum : ℕ

-- One tick: two counters are swapped for 0, two are read.
unfoldable pub report_metrics : Metrics → Metrics × Report
report_metrics m = (
  record m { tps_counter = 0; latency_sum = 0 },
  record {
    tps = m.tps_counter;
    success_count = m.success_counter;
    fail_count = m.fail_counter;
    latency_sum = m.latency_sum;
  },
)

-- A finished job in the counters.
abbrev pub count_finished : ℕ → Metrics → Metrics
count_finished duration m = record m {
  latency_sum = add_uint64 m.latency_sum duration;
  tps_counter = add_uint64 m.tps_counter 1;
}

abbrev pub count_success : Metrics → Metrics
count_success m = record m { success_counter = add_uint64 m.success_counter 1 }

abbrev pub count_failure : Metrics → Metrics
count_failure m = record m { fail_counter = add_uint64 m.fail_counter 1 }

module _ {R : Type 0} where
  -- The next address, by the counter's four bytes.
  unfoldable pub allocate_ip : Orchestrator R → Orchestrator R × Text
  unfolding print_ipv4
  allocate_ip o =
      let val = (o.ip_counter + 1) % 2 ^ 32 in
      (
        record o { ip_counter = val },
        print_ipv4 (val / 2 ^ 24 % 2 ^ 8) (val / 2 ^ 16 % 2 ^ 8) (val / 2 ^ 8 % 2 ^ 8)
            (val % 2 ^ 8),
      )

  -- A full queue refuses the job, and counts a failure. The queue is a buffered channel: at a queue of
  -- size 0, where Go hands the job to a worker that waits, the model refuses.
  unfoldable pub enqueue_job : Job → Orchestrator R → Orchestrator R × Bool
  enqueue_job job o =
      if ltb (length o.job_queue) o.queue_size
      then (record o { job_queue = o.job_queue ++ job ∷ [] }, true)
      else (record o { metrics = count_failure o.metrics }, false)

  module _ (repo : SessionRepository R) where
    -- The error branch of a worker: the session is marked, then the AMF is told.
    unfoldable pub fail_job : Surroundings → Job → Text → World R → World R
    fail_job env job err_msg w =
        let reason = reason_of err_msg in
        let (store, _) =
          repo.update_status_with_reason job.sm_context_ref failed_status reason env.failed_at
            w.store in
        notify_amf_session_failure env.network repo job.sm_context_ref job.supi reason err_msg
          (record w { store = store })

    -- What a worker does after `processEstablishment` has returned.
    unfoldable pub settle :
        Surroundings → Job → Metrics → World R × Result (Unit {0}) → World R × Metrics
    unfolding fail_job
    settle env job m (w, ok _) = (w, count_success (count_finished env.duration m))
    settle env job m (w, err e) =
        (fail_job env job e w, count_failure (count_finished env.duration m))

    -- The body of a worker's loop; it passes over jobs of another type.
    unfoldable pub process_job : Surroundings → Job → World R → Metrics → World R × Metrics
    unfolding settle
    process_job env job w m = elim job.type [
      | other_job _ ↦ (w, m)
      | job_establish ↦
          settle env job m
            (process_establishment repo env job.sm_context_ref job.supi job.ip_address job w)
    ]

    -- The workers' loop, until the queue or the given surroundings are used up.
    unfoldable pub work : List Surroundings → Orchestrator R → Orchestrator R
    unfolding process_job
    work [] o = o
    work (env ∷ envs) o = elim o.job_queue [
      | [] ↦ o
      | job ∷ rest ↦
          let (w, m) = process_job env job o.world o.metrics in
          work envs (record o { world = w; metrics = m; job_queue = rest })
    ]
