-- ===== src/Smf/Orchestrator/Worker/Counters.antt =====
-- The counters and the queue over many jobs.
use pdu_session_sim.Common.{
  ℕ, ◌+◌, ◌^◌, ◌<◌, ◌≤◌, ◌≡◌, ◌⊎◌, inl, inr, List, [], ◌∷◌, ◌++◌, true, false, Result-cases, arith,
  length, length-append, All,
}
use pdu_session_sim.Smf.Db.Interface.{SessionRepository}
use pdu_session_sim.Smf.Orchestrator.Establishment.{process_establishment}
use pdu_session_sim.Smf.Orchestrator.State.{Job, job_establish, Metrics, World, Surroundings}
use pdu_session_sim.Smf.Orchestrator.Worker.{
  Orchestrator, count_finished, count_success, count_failure, process_job, work, enqueue_job,
}

-- A queue that is within its size stays within it. A job is refused exactly if the queue is full, and then the queue
-- is as it was and a failure is counted; otherwise the job is last in the queue.
pub enqueue_job-bounded :
    {R : Type 0} (job : Job) (o : Orchestrator R)
    → length o.job_queue ≤ o.queue_size
    → (length (enqueue_job job o).0.job_queue ≤ o.queue_size)
      × ((((enqueue_job job o).1 ≡ true)
            × (length o.job_queue < o.queue_size)
            × ((enqueue_job job o).0.job_queue ≡ o.job_queue ++ job ∷ [])
            × ((enqueue_job job o).0.metrics ≡ o.metrics))
          ⊎ (((enqueue_job job o).1 ≡ false)
              × (length o.job_queue ≡ o.queue_size)
              × ((enqueue_job job o).0.job_queue ≡ o.job_queue)
              × ((enqueue_job job o).0.metrics ≡ count_failure o.metrics)))
unfolding enqueue_job
enqueue_job-bounded job o h = ground (arith, length-append o.job_queue (job ∷ []))

abbrev pub finished : Metrics → ℕ
finished m = m.success_counter + m.fail_counter

module _ {R : Type 0} (repo : SessionRepository R) where
  process_job-metrics :
      (env : Surroundings) (job : Job) (w : World R) (m : Metrics)
      → job.type ≡ job_establish
      → ((process_job repo env job w m).1 ≡ count_success (count_finished env.duration m))
        ⊎ ((process_job repo env job w m).1 ≡ count_failure (count_finished env.duration m))
  unfolding process_job
  process_job-metrics env job w m kind =
      elim (Result-cases
        (process_establishment repo env job.sm_context_ref job.supi job.ip_address job w).1) [
          | inr (_, done) ↦ inl (ground (arith, kind))
          | inl (e, failed) ↦ inr (ground (arith, kind))
        ]

  process_job-counted :
      (env : Surroundings) (job : Job) (w : World R) (m : Metrics)
      → job.type ≡ job_establish
      → finished m + 1 < 2 ^ 64
      → m.tps_counter + 1 < 2 ^ 64
      → (finished (process_job repo env job w m).1 ≡ finished m + 1)
        × ((process_job repo env job w m).1.tps_counter ≡ m.tps_counter + 1)
  process_job-counted env job w m kind small small' =
      ground (arith, process_job-metrics env job w m kind)

  -- Workers that are given enough rounds empty the queue. Every establishment job is then counted as
  -- one success or one failure, and once in the throughput, where no counter wraps.
  pub work_queue :
      (jobs : List Job) (envs : List Surroundings) (o : Orchestrator R)
      → All (λ job. job.type ≡ job_establish) jobs
      → length jobs ≤ length envs
      → finished o.metrics + length jobs < 2 ^ 64
      → o.metrics.tps_counter + length jobs < 2 ^ 64
      → let o' = work repo envs (record o { job_queue = jobs }) in
        (o'.job_queue ≡ [])
        × (finished o'.metrics ≡ finished o.metrics + length jobs)
        × (o'.metrics.tps_counter ≡ o.metrics.tps_counter + length jobs)
  unfolding work
  work_queue [] [] o kinds enough small small' = ground arith
  work_queue [] (env ∷ envs) o kinds enough small small' = ground arith
  work_queue (job ∷ jobs) [] o kinds enough small small' = absurd (omega arith)
  work_queue (job ∷ jobs) (env ∷ envs) o kinds enough small small' =
      let (w, m) = process_job repo env job o.world o.metrics in
      let (one, one') =
        process_job-counted env job o.world o.metrics kinds.0 (omega arith) (omega arith) in
      let (empty, all, all') =
        work_queue jobs envs (record o { world = w; metrics = m }) kinds.1 (omega arith)
          (omega arith) (omega arith) in
      (empty, omega arith, omega arith)
