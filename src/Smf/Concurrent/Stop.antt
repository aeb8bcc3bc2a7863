-- ===== src/Smf/Concurrent/Stop.antt =====
-- The stop of the SMF (`Stop` of internal/smf/service.go): the workers run until the queue is empty and
-- they are idle. No handler runs meanwhile: the server is shut down first.
use pdu_session_sim.Common.{
  ℕ, zero, suc, ◌+◌, ◌<◌, ◌≤◌, ◌≡◌, ◌⊎◌, inl, inr, refl, ap, ◌∙◌, List, [], ◌∷◌, arith,
}
use native.Mathlib.Decide.{dec_lt}
use pdu_session_sim.Smf.Concurrent.Accounts.{start-Accounted, Reach-Accounted}
use pdu_session_sim.Smf.Concurrent.Counted.{uncounted}
use pdu_session_sim.Smf.Concurrent.Ends.{start}
use pdu_session_sim.Smf.Concurrent.Service.{Service, idle, Reach}
use pdu_session_sim.Smf.Concurrent.Total.{total-idle}
use pdu_session_sim.Smf.Db.Interface.{SessionRepository}
use pdu_session_sim.Smf.Orchestrator.State.{Job, World}
use pdu_session_sim.Smf.Concurrent.Drain.{
  steps_left, Work, takes, moves, returns, Works, none_yet, one_more, Stuck, Worker-cases, silence,
  Work-steps_left, Works-steps_left, Works-Reach, Stuck-idle,
}

List-cases :
    (jobs : List Job) → (jobs ≡ []) ⊎ ((job : Job) × (rest : List Job) × (jobs ≡ job ∷ rest))
List-cases [] = inl refl
List-cases (job ∷ rest) = inr (job, rest, refl)

module _ {R : Type 0} (repo : SessionRepository R) (max_workers : ℕ) where
  idle-Stuck :
      (s : Service R)
      → s.smf.orc.job_queue ≡ []
      → ((i : ℕ) → i < max_workers → s.workers i ≡ idle)
      → Stuck repo max_workers s
  unfolding Stuck
  idle-Stuck s empty idles t (takes i job rest below free first) = ground (arith, empty, first)
  idle-Stuck s empty idles t (moves i env job stage below at some_left) =
      ground (arith, at, idles i below)
  idle-Stuck s empty idles t (returns i job below at) = ground (arith, at, idles i below)

  -- The first workers are idle, or one of them can take a step.
  find_busy :
      (n : ℕ) (s : Service R)
      → n ≤ max_workers
      → ((i : ℕ) → i < n → s.workers i ≡ idle) ⊎ ((t : Service R) × Work repo max_workers s t)
  find_busy zero s within = inl (λ i below. absurd (omega (arith, below)))
  find_busy (suc n) s within = elim (Worker-cases (s.workers n)) [
    | inr (inl (job, stage, at, some_left)) ↦
        inr (_, moves n silence job stage (omega (arith, within)) at some_left)
    | inr (inr (job, at)) ↦ inr (_, returns n job (omega (arith, within)) at)
    | inl free ↦ elim (find_busy n s (omega (arith, within))) [
      | inr step ↦ inr step
      | inl idles ↦ inl (λ i below. elim (dec_lt i n) [
        | yes lower ↦ idles i lower
        | no upper ↦ let last : i ≡ n = omega (arith, below, upper) in ap s.workers last ∙ free
      ])
    ]
  ]

  pub Stuck-empty :
      (s : Service R) → 0 < max_workers → Stuck repo max_workers s → s.smf.orc.job_queue ≡ []
  unfolding Stuck
  Stuck-empty s staffed stuck = elim (List-cases s.smf.orc.job_queue) [
    | inl empty ↦ empty
    | inr (job, rest, first) ↦
        absurd
          (stuck _ (takes 0 job rest staffed (Stuck-idle repo max_workers s stuck 0 staffed) first))
  ]

  pub progress :
      (s : Service R)
      → 0 < max_workers
      → Stuck repo max_workers s ⊎ ((t : Service R) × Work repo max_workers s t)
  progress s staffed = elim (find_busy max_workers s (omega arith)) [
    | inr step ↦ inr step
    | inl idles ↦ elim (List-cases s.smf.orc.job_queue) [
      | inl empty ↦ inl (idle-Stuck s empty idles)
      | inr (job, rest, first) ↦ inr (_, takes 0 job rest staffed (idles 0 staffed) first)
    ]
  ]

  run_on :
      (rounds : ℕ) {r s : Service R} {n : ℕ}
      → 0 < max_workers
      → Works repo max_workers r n s
      → steps_left max_workers s < rounds
      → (m : ℕ) × (t : Service R) × Works repo max_workers r m t × Stuck repo max_workers t
  run_on zero staffed steps enough = absurd (omega (arith, enough))
  run_on (suc rounds) {s = s} staffed steps enough = elim (progress s staffed) [
    | inl stuck ↦ (_, s, steps, stuck)
    | inr (t, step) ↦
        run_on rounds staffed (one_more steps step)
          (omega (arith, enough, Work-steps_left repo max_workers step))
  ]

  -- From every state some steps of the workers lead to one in which none can take another.
  pub Works-total :
      (s : Service R)
      → 0 < max_workers
      → (n : ℕ) × (t : Service R) × Works repo max_workers s n t × Stuck repo max_workers t
  Works-total s staffed = run_on (suc (steps_left max_workers s)) staffed none_yet (omega arith)

  -- An SMF with one worker or more stops, in a state that is reachable from the start without the
  -- counter of contexts wrapping, with no handler at work then or later. Whatever steps its workers take,
  -- with datagrams in between, they are no more than the state bounds. After each of them a worker can
  -- take another, or else the queue is empty, all workers are idle, and the counter of contexts is the
  -- sum of the successes and the failures.
  pub Reach-drained :
      (queue_size : ℕ) (w : World R) (s t : Service R) (n : ℕ)
      → 0 < max_workers
      → Reach repo max_workers (start w queue_size) s
      → Works repo max_workers s n t
      → (n ≤ steps_left max_workers s)
        × (((u : Service R) × Work repo max_workers t u)
            ⊎ ((t.smf.orc.job_queue ≡ [])
                × ((i : ℕ) → i < max_workers → t.workers i ≡ idle)
                × (t.smf.sm_context_counter
                    ≡ t.smf.orc.metrics.success_counter + t.smf.orc.metrics.fail_counter)))
  Reach-drained queue_size w s t n staffed r steps =
      let bound : n ≤ steps_left max_workers s =
        omega (arith, Works-steps_left repo max_workers steps) in
      elim (progress t staffed) [
        | inr next ↦ (bound, inl next)
        | inl stuck ↦
            let idles = Stuck-idle repo max_workers t stuck in
            let empty = Stuck-empty t staffed stuck in
            let a =
              Reach-Accounted repo max_workers (Works-Reach repo max_workers r steps)
                (start-Accounted repo max_workers w queue_size) in
            let sum : t.smf.sm_context_counter
                ≡ t.smf.orc.metrics.success_counter + t.smf.orc.metrics.fail_counter =
              ground (arith, a.sum, empty, total-idle uncounted max_workers t.workers refl idles) in
            (bound, inr (empty, idles, sum))
      ]
