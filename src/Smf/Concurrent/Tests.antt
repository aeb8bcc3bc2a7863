-- ===== src/Smf/Concurrent/Tests.antt =====
-- The sample job on one of two workers.
use pdu_session_sim.Common.{inl, inr, ◌⊎◌, ℕ, ◌<◌, ◌≤◌, ◌+◌, ◌≡◌, refl, [], ◌∷◌, All, arith, ok}
use pdu_session_sim.Smf.Concurrent.Drain.{Work, steps_left, Works, Stuck}
use pdu_session_sim.Smf.Concurrent.Stop.{Works-total, Reach-drained}
use pdu_session_sim.Smf.Concurrent.Ends.{start, Reach-Ended}
use pdu_session_sim.Smf.Concurrent.Kept.{IsIn, IsKnown, Works-kept}
use pdu_session_sim.Smf.Concurrent.Places.{Ended}
use pdu_session_sim.Smf.Concurrent.Progress.{Reach-returned}
use pdu_session_sim.Smf.Concurrent.Service.{
  Service, idle, take_job, requested, taken, Reach, here, next,
}
use pdu_session_sim.Smf.Concurrent.Stages.{saving}
use pdu_session_sim.Smf.Db.{InMemoryRepository, in_memory}
use pdu_session_sim.Smf.Db.Laws.{in_memory-IsRepository, in_memory-IsReliable}
use pdu_session_sim.Smf.Handler.{job_of, create_sm_context}
use pdu_session_sim.Smf.Handler.Refs.{next_ref}
use pdu_session_sim.Smf.Orchestrator.State.{Job}
use pdu_session_sim.Smf.Orchestrator.Worker.{init_orchestrator, allocate_ip}
use pdu_session_sim.System.Samples.{sample_request, sample_world, early_core}

abbrev started : Service InMemoryRepository
started = start sample_world 4

abbrev asked : Service InMemoryRepository
asked = record started { smf = (create_sm_context 7 (ok sample_request) started.smf).0 }

abbrev asked_job : Job
asked_job = job_of (next_ref 7 started.smf) (allocate_ip started.smf.orc).1 sample_request

abbrev begun : Service InMemoryRepository
begun = take_job 0 asked_job [] asked

in_queue : asked.smf.orc.job_queue ≡ asked_job ∷ []
unfolding create_sm_context init_orchestrator
in_queue = refl

begun-Reach : Reach in_memory 2 started begun
begun-Reach =
    next (next here (requested 7 sample_request (omega arith)))
      (taken 0 asked_job [] (omega arith) refl in_queue)

abbrev run_on :
    (t : Service InMemoryRepository) × Reach in_memory 2 begun t × (t.jobs_done ≡ asked_job ∷ [])
run_on = Reach-returned in_memory asked_job 2 early_core 0 saving begun refl

abbrev ended : Service InMemoryRepository
ended = run_on.0

Reach-trans :
    {s t u : Service InMemoryRepository}
    → Reach in_memory 2 s t
    → Reach in_memory 2 t u
    → Reach in_memory 2 s u
Reach-trans r here = r
Reach-trans r (next r' st) = next (Reach-trans r r') st

ended-Reach : Reach in_memory 2 started ended
ended-Reach = Reach-trans begun-Reach run_on.1

Reach-Ended_example : All (λ job. Ended in_memory ended.smf.orc.world.store job) ended.jobs_done
Reach-Ended_example =
    Reach-Ended in_memory in_memory-IsRepository in_memory-IsReliable 2 4 sample_world ended
      ended-Reach

abbrev some_workers : 0 < 2
some_workers = omega arith

abbrev stopped :
    (n : ℕ) × (t : Service InMemoryRepository) × Works in_memory 2 begun n t × Stuck in_memory 2 t
stopped = Works-total in_memory 2 begun some_workers

Reach-drained_example :
    (stopped.0 ≤ steps_left 2 begun)
    × (((u : Service InMemoryRepository) × Work in_memory 2 stopped.1 u)
        ⊎ ((stopped.1.smf.orc.job_queue ≡ [])
            × ((i : ℕ) → i < 2 → stopped.1.workers i ≡ idle)
            × (stopped.1.smf.sm_context_counter
                ≡ stopped.1.smf.orc.metrics.success_counter
                  + stopped.1.smf.orc.metrics.fail_counter)))
Reach-drained_example =
    Reach-drained in_memory 2 4 sample_world begun stopped.1 stopped.0 some_workers begun-Reach
      stopped.2

asked-IsKnown : IsKnown 2 asked_job begun
asked-IsKnown = inr (inl (0, some_workers, (saving, refl)))

Works-kept_example :
    (stopped.0 ≤ steps_left 2 begun)
    × (((u : Service InMemoryRepository) × Work in_memory 2 stopped.1 u)
        ⊎ (IsIn asked_job stopped.1.jobs_done
            × Ended in_memory stopped.1.smf.orc.world.store asked_job))
Works-kept_example =
    Works-kept in_memory in_memory-IsRepository in_memory-IsReliable 2 4 sample_world begun
      stopped.1 stopped.0 asked_job some_workers begun-Reach asked-IsKnown stopped.2
