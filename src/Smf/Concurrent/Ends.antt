-- ===== src/Smf/Concurrent/Ends.antt =====
-- How jobs end when workers, requests and datagrams interleave (internal/smf).
use pdu_session_sim.Common.{
  ℕ, ◌+◌, ◌^◌, ◌<◌, ◌≡◌, inl, inr, refl, ap, [], ok, All, All-map_imp, arith,
}
use pdu_session_sim.Models.{CreateSmContextRequest}
use pdu_session_sim.Smf.Concurrent.Holds.{advance-get_other, advance-Holds}
use pdu_session_sim.Smf.Concurrent.Invariant.{
  IsConsistent, refused-Consistent, accepted-Consistent, taken-Consistent, moved-Consistent,
  returned-Consistent,
}
use pdu_session_sim.Smf.Concurrent.Places.{nowhere, Ended}
use pdu_session_sim.Smf.Concurrent.Service.{
  Service, idle, Step, requested, taken, moved, returned, received, Reach, here, next,
}
use pdu_session_sim.Smf.Concurrent.Stages.{advance}
use pdu_session_sim.Smf.Db.Interface.{SessionRepository, IsRepository, IsReliable}
use pdu_session_sim.Smf.Handler.{context_ref, job_of, create_sm_context}
use pdu_session_sim.Smf.Handler.Laws.{create_sm_context-Outcome}
use pdu_session_sim.Smf.Handler.Refs.{next_ref}
use pdu_session_sim.Smf.Orchestrator.State.{World}
use pdu_session_sim.Smf.Orchestrator.Worker.{init_orchestrator, allocate_ip}

-- The SMF as it starts.
abbrev pub start : {R : Type 0} → World R → ℕ → Service R
start w queue_size = record {
  smf = record { orc = init_orchestrator w queue_size; sm_context_counter = 0 };
  workers = λ i. idle;
  jobs_done = [];
}

module _ {R : Type 0} {kept : ℕ → ℕ} (repo : SessionRepository R) (lawful : IsRepository kept repo)
    (reliable : IsReliable repo) where
  pub start-IsConsistent : (w : World R) (queue_size : ℕ) → IsConsistent repo (start w queue_size)
  unfolding init_orchestrator
  start-IsConsistent w queue_size = record {
    place = λ c. nowhere;
    unknown = λ c above. refl;
    in_queue = tt;
    at_work = λ i. tt;
    at_end = tt;
  }

  requested-IsConsistent :
      (nanos : ℕ) (req : CreateSmContextRequest) (s : Service R)
      → s.smf.sm_context_counter + 1 < 2 ^ 64
      → IsConsistent repo s
      → IsConsistent repo (record s { smf = (create_sm_context nanos (ok req) s.smf).0 })
  requested-IsConsistent nanos req s small sound =
      let smf' = (create_sm_context nanos (ok req) s.smf).0 in
      let (same, counted, ips, cases) = create_sm_context-Outcome nanos req s.smf in
      let numbered : next_ref nanos s.smf ≡ context_ref nanos (s.smf.sm_context_counter + 1) =
        ap (context_ref nanos) (omega arith) in
      let counter : smf'.sm_context_counter ≡ s.smf.sm_context_counter + 1 =
        omega (arith, counted) in
      elim cases [
        | inl (room, reply, appended, metrics) ↦
            rw (same, counter, appended)
              (accepted-Consistent repo _ _ _ _ _ sound
                (job_of (next_ref nanos s.smf) (allocate_ip s.smf.orc).1 req)
                (refl, nanos, numbered))
        | inr (full, reply, kept_queue, metrics) ↦
            rw (same, counter, kept_queue) (refused-Consistent repo _ _ _ _ _ sound)
      ]

  Step-IsConsistent :
      {max_workers : ℕ} {s t : Service R}
      → Step repo max_workers s t
      → IsConsistent repo s
      → IsConsistent repo t
  Step-IsConsistent {s = s} (requested nanos req small) sound =
      requested-IsConsistent nanos req s small sound
  Step-IsConsistent {s = s} (taken i job rest below free first) sound =
      taken-Consistent repo _ _ _ _ _ sound i job rest free first
  Step-IsConsistent {s = s} (moved i env job stage at) sound =
      let w = s.smf.orc.world in
      let m = s.smf.orc.metrics in
      let (w', _, following) = advance repo env job stage w m in
      moved-Consistent repo _ _ _ _ _ sound i job stage following w'.store at
        (advance-get_other repo lawful reliable env job w m stage)
        (advance-Holds repo lawful reliable env job w m stage)
  Step-IsConsistent {s = s} (returned i job at) sound =
      returned-Consistent repo _ _ _ _ _ sound i job at
  Step-IsConsistent {s = s} (received bytes) sound = sound

  pub Reach-IsConsistent :
      {max_workers : ℕ} {s t : Service R}
      → Reach repo max_workers s t
      → IsConsistent repo s
      → IsConsistent repo t
  Reach-IsConsistent here sound = sound
  Reach-IsConsistent (next r st) sound = Step-IsConsistent st (Reach-IsConsistent r sound)

  -- Over a store with the laws of a store that never fails, as long as the counter of contexts does not
  -- wrap, and however the requests that decode, any number of workers and the datagrams interleave from
  -- the start on: every job that a worker has finished has its session in the store, active with the
  -- job's address or failed with a reason.
  pub Reach-Ended :
      (max_workers queue_size : ℕ) (w : World R) (s : Service R)
      → Reach repo max_workers (start w queue_size) s
      → All (λ job. Ended repo s.smf.orc.world.store job) s.jobs_done
  Reach-Ended max_workers queue_size w s r =
      let sound = Reach-IsConsistent r (start-IsConsistent w queue_size) in
      All-map_imp s.jobs_done (λ job (_, _, _, ends). ends) sound.at_end
