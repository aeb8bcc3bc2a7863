-- ===== src/Smf/Concurrent/Kept.antt =====
-- No job is lost while the SMF stops (`Stop` and `worker` of internal/smf/service.go).
use pdu_session_sim.Common.{
  ℕ, ◌<◌, ◌≤◌, ◌≡◌, ◌≢◌, ◌⊎◌, inl, inr, ap, subst, ◌∙◌, List, [], ◌∷◌, All, Bool-cases, nat_beq,
  nat_beq_iff, arith,
}
use pdu_session_sim.Smf.Concurrent.Drain.{
  Work, takes, moves, returns, Works, none_yet, one_more, datagram, Stuck, Stuck-idle, Works-Reach,
  steps_left, Works-steps_left,
}
use pdu_session_sim.Smf.Concurrent.Ends.{start, Reach-Ended}
use pdu_session_sim.Smf.Concurrent.Places.{Ended, set_self, set_other}
use pdu_session_sim.Smf.Concurrent.Service.{
  Service, Worker, idle, busy, set, first_stage, take_job, move_on, Reach,
}
use pdu_session_sim.Smf.Concurrent.Stages.{Stage, finished, advance}
use pdu_session_sim.Smf.Concurrent.Stop.{Stuck-empty, progress}
use pdu_session_sim.Smf.Db.Interface.{SessionRepository, IsRepository, IsReliable}
use pdu_session_sim.Smf.Orchestrator.State.{Job, World, Surroundings}

-- A job is one of a list.
abbrev pub IsIn : Job → List Job → Type 0
IsIn job [] = ⊥
IsIn job (first ∷ rest) = (first ≡ job) ⊎ IsIn job rest

-- A job is with a worker.
abbrev pub AtWork : Job → (ℕ → Worker) → ℕ → Type 0
AtWork job workers i = (stage : Stage) × (workers i ≡ busy job stage)

-- A job that the SMF has accepted: it waits in the queue, is with one of the workers, or is done.
abbrev pub IsKnown : {R : Type 0} → ℕ → Job → Service R → Type 0
IsKnown max_workers job s =
    IsIn job s.smf.orc.job_queue
    ⊎ ((i : ℕ) × (i < max_workers) × AtWork job s.workers i)
    ⊎ IsIn job s.jobs_done

-- Another worker's change leaves a job where it is.
AtWork-set :
    (job : Job) (workers : ℕ → Worker) (i j : ℕ) (worker : Worker)
    → AtWork job workers j
    → i ≢ j
    → AtWork job (set workers i worker) j
AtWork-set job workers i j worker (stage, at) other =
    (stage, set_other workers i j worker other ∙ at)

IsIn-All : (P : Job → Type 0) (job : Job) (jobs : List Job) → IsIn job jobs → All P jobs → P job
IsIn-All P job [] i all = absurd i
IsIn-All P job (first ∷ rest) (inl same) (p, all) = subst P same p
IsIn-All P job (first ∷ rest) (inr i) (p, all) = IsIn-All P job rest i all

module _ {R : Type 0} (repo : SessionRepository R) (max_workers : ℕ) (job : Job) where
  takes-IsKnown :
      (s : Service R) (i : ℕ) (first : Job) (rest : List Job)
      → i < max_workers
      → s.workers i ≡ idle
      → s.smf.orc.job_queue ≡ first ∷ rest
      → IsKnown max_workers job s
      → IsKnown max_workers job (take_job i first rest s)
  takes-IsKnown s i first rest below free queue (inl waits) = elim (subst (IsIn job) queue waits) [
    | inl same ↦
        let mine : set s.workers i (busy first (first_stage first)) i
            ≡ busy job (first_stage first) =
          set_self s.workers i (busy first (first_stage first))
          ∙ ap (λ j. busy j (first_stage first)) same in
        inr (inl (i, below, (first_stage first, mine)))
    | inr later ↦ inl later
  ]
  takes-IsKnown s i first rest below free queue (inr (inr done)) = inr (inr done)
  takes-IsKnown s i first rest below free queue (inr (inl (j, under, (stage, at)))) = inr (
      inl (
        j,
        under,
        AtWork-set job s.workers i j (busy first (first_stage first)) (stage, at)
            (λ same. ground (arith, free, at, same)),
      ))

  moves-IsKnown :
      (s : Service R) (i : ℕ) (env : Surroundings) (mover : Job) (stage : Stage)
      → s.workers i ≡ busy mover stage
      → IsKnown max_workers job s
      → IsKnown max_workers job (move_on repo env i mover stage s)
  moves-IsKnown s i env mover stage at (inl waits) = inl waits
  moves-IsKnown s i env mover stage at (inr (inr done)) = inr (inr done)
  moves-IsKnown s i env mover stage at (inr (inl (j, under, (other_stage, at')))) =
      let (_, _, following) = advance repo env mover stage s.smf.orc.world s.smf.orc.metrics in
      elim (Bool-cases (nat_beq i j)) [
        | inl eq ↦
            let same : i ≡ j = (nat_beq_iff i j).0 eq in
            let mine : mover ≡ job = ground (arith, same, at, at') in
            inr (inl (j, under, (following, ground (arith, same, eq, mine))))
        | inr ne ↦ inr (
            inl (
              j,
              under,
              AtWork-set job s.workers i j (busy mover following) (other_stage, at')
                  (λ same. ground (arith, ne, nat_beq_iff i j, same)),
            ))
      ]

  returns-IsKnown :
      (s : Service R) (i : ℕ) (ready : Job)
      → s.workers i ≡ busy ready finished
      → IsKnown max_workers job s
      → IsKnown max_workers job
          (record s { workers = set s.workers i idle; jobs_done = ready ∷ s.jobs_done })
  returns-IsKnown s i ready at (inl waits) = inl waits
  returns-IsKnown s i ready at (inr (inr done)) = inr (inr (inr done))
  returns-IsKnown s i ready at (inr (inl (j, under, (stage, at')))) =
      elim (Bool-cases (nat_beq i j)) [
        | inl eq ↦
            let same : i ≡ j = (nat_beq_iff i j).0 eq in
            inr (inr (inl (ground (arith, same, at, at'))))
        | inr ne ↦ inr (
            inl (
              j,
              under,
              AtWork-set job s.workers i j idle (stage, at')
                  (λ same. ground (arith, ne, nat_beq_iff i j, same)),
            ))
      ]

  Work-IsKnown :
      {s t : Service R}
      → Work repo max_workers s t
      → IsKnown max_workers job s
      → IsKnown max_workers job t
  Work-IsKnown {s = s} (takes i first rest below free queue) known =
      takes-IsKnown s i first rest below free queue known
  Work-IsKnown {s = s} (moves i env mover stage below at some_left) known =
      moves-IsKnown s i env mover stage at known
  Work-IsKnown {s = s} (returns i ready below at) known = returns-IsKnown s i ready at known

  Works-IsKnown :
      {s : Service R} {n : ℕ} {t : Service R}
      → Works repo max_workers s n t
      → IsKnown max_workers job s
      → IsKnown max_workers job t
  Works-IsKnown none_yet known = known
  Works-IsKnown (datagram bytes steps) known = Works-IsKnown steps known
  Works-IsKnown (one_more steps step) known = Work-IsKnown step (Works-IsKnown steps known)

  Stuck-done :
      (t : Service R)
      → 0 < max_workers
      → Stuck repo max_workers t
      → IsKnown max_workers job t
      → IsIn job t.jobs_done
  Stuck-done t staffed stuck (inl waits) =
      absurd (subst (IsIn job) (Stuck-empty repo max_workers t staffed stuck) waits)
  Stuck-done t staffed stuck (inr (inl (i, under, (stage, at)))) =
      absurd (ground (arith, at, Stuck-idle repo max_workers t stuck i under))
  Stuck-done t staffed stuck (inr (inr done)) = done

module _ {R : Type 0} {kept : ℕ → ℕ} (repo : SessionRepository R) (lawful : IsRepository kept repo)
    (reliable : IsReliable repo) where
  -- Over a store with the laws of a store that never fails, an SMF with one worker or more stops, in a
  -- state that is reachable from the start without the counter of contexts wrapping, with no handler at
  -- work then or later. Whatever steps its workers take, with datagrams in between, they are no more than the
  -- state bounds. After each of them a worker can take another, or else no job is lost that was in the
  -- queue, with a worker or finished at the stop: it is finished, and its session is in the store, active
  -- with the job's address or failed with a reason.
  pub Works-kept :
      (max_workers queue_size : ℕ) (w : World R) (s t : Service R) (n : ℕ) (job : Job)
      → 0 < max_workers
      → Reach repo max_workers (start w queue_size) s
      → IsKnown max_workers job s
      → Works repo max_workers s n t
      → (n ≤ steps_left max_workers s)
        × (((u : Service R) × Work repo max_workers t u)
            ⊎ (IsIn job t.jobs_done × Ended repo t.smf.orc.world.store job))
  Works-kept max_workers queue_size w s t n job staffed r known steps =
      let bound : n ≤ steps_left max_workers s =
        omega (arith, Works-steps_left repo max_workers steps) in
      elim (progress repo max_workers t staffed) [
        | inr next ↦ (bound, inl next)
        | inl stuck ↦
            let done =
              Stuck-done repo max_workers job t staffed stuck
                (Works-IsKnown repo max_workers job steps known) in
            let ended = IsIn-All (Ended repo t.smf.orc.world.store) job t.jobs_done done (
              Reach-Ended repo lawful reliable max_workers queue_size w t
                (Works-Reach repo max_workers r steps)) in
            (bound, inr (done, ended))
      ]
