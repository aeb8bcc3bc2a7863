-- ===== src/Smf/Concurrent/Drain.antt =====
-- How the SMF stops (`Stop` of internal/smf/service.go): the queue is closed, so that no request comes in,
-- and the workers run until it is empty and they are idle.
use pdu_session_sim.Common.{
  true, ℕ, zero, suc, ◌+◌, ◌*◌, ◌<◌, ◌≤◌, ◌≡◌, none, some, err, text, ◌⊎◌, inl, inr, refl, ap, List,
  [], ◌∷◌, arith, length,
}
use native.Mathlib.Decide.{dec_lt}
use pdu_session_sim.Smf.Concurrent.Progress.{left, advance-left, stage-left, left-finished}
use pdu_session_sim.Smf.Concurrent.Service.{
  Service, Worker, idle, busy, set, first_stage, take_job, move_on, Step, taken, moved, returned,
  received, receive, Reach, next,
}
use pdu_session_sim.Smf.Concurrent.Stages.{Stage, finished, advance}
use pdu_session_sim.Smf.Concurrent.Total.{total, total-set}
use pdu_session_sim.Smf.Db.Interface.{SessionRepository}
use pdu_session_sim.Smf.Orchestrator.State.{Job, Surroundings}

-- A worker waits for a job, is within one, or is done with one.
pub Worker-cases :
    (worker : Worker)
    → (worker ≡ idle)
      ⊎ ((job : Job) × (stage : Stage) × (worker ≡ busy job stage) × (0 < left stage))
      ⊎ ((job : Job) × (worker ≡ busy job finished))
Worker-cases idle = inl refl
Worker-cases (busy job stage) = elim (dec_lt 0 (left stage)) [
  | yes some_left ↦ inr (inl (job, stage, refl, some_left))
  | no none_left ↦ inr (inr (job, ap (busy job) (left-finished stage (omega (arith, none_left)))))
]

predecessor : (n : ℕ) → 0 < n → (m : ℕ) × (n ≡ m + 1)
predecessor zero h = absurd (omega arith)
predecessor (suc m) h = (m, omega arith)

-- No request can be built, and no datagram comes.
abbrev pub silence : Surroundings
silence = record {
  network = record {
    request_error = λ method url. some (text "no request");
    respond = λ req. err (text "no answer");
  };
  exchange = λ bytes. record { write_error = none; arrived = []; expired = true };
  saved_at = 0;
  activated_at = 0;
  failed_at = 0;
  duration = 0;
}

-- What a worker has left to do: its stages, and to come back for the next job.
abbrev pub cost : Worker → ℕ
cost idle = 0
cost (busy job stage) = left stage + 1

-- The jobs in the queue, each with eleven steps at most, and those at work.
abbrev pub steps_left : {R : Type 0} → ℕ → Service R → ℕ
steps_left max_workers s = 11 * length s.smf.orc.job_queue + total cost max_workers s.workers

module _ {R : Type 0} (repo : SessionRepository R) (max_workers : ℕ) where
  -- The steps of workers.
  pub data Work (s : Service R) : Service R → Type 0 where
    takes :
        (i : ℕ) (job : Job) (rest : List Job)
        → i < max_workers
        → s.workers i ≡ idle
        → s.smf.orc.job_queue ≡ job ∷ rest
        → Work s (take_job i job rest s)
    moves :
        (i : ℕ) (env : Surroundings) (job : Job) (stage : Stage)
        → i < max_workers
        → s.workers i ≡ busy job stage
        → 0 < left stage
        → Work s (move_on repo env i job stage s)
    returns :
        (i : ℕ) (job : Job)
        → i < max_workers
        → s.workers i ≡ busy job finished
        → Work s (record s { workers = set s.workers i idle; jobs_done = job ∷ s.jobs_done })

  pub Work-steps_left :
      {s t : Service R} → Work s t → steps_left max_workers t < steps_left max_workers s
  Work-steps_left {s} (takes i job rest below free first) =
      let sum = total-set cost max_workers i s.workers (busy job (first_stage job)) below in
      let few = stage-left (first_stage job) in ground (arith, sum, few, free, first)
  Work-steps_left {s} (moves i env job stage below at some_left) =
      let (_, _, following) = advance repo env job stage s.smf.orc.world s.smf.orc.metrics in
      let sum = total-set cost max_workers i s.workers (busy job following) below in
      let (n, one) = predecessor (left stage) some_left in
      let less =
        advance-left repo job n env stage s.smf.orc.world s.smf.orc.metrics (omega (arith, one)) in
      let old : cost (s.workers i) ≡ left stage + 1 = ap cost at in
      omega (arith, sum, less, one, old)
  Work-steps_left {s} (returns i job below at) =
      let sum = total-set cost max_workers i s.workers idle below in ground (arith, sum, at)

  -- A number of steps of workers, with datagrams in between: the client still receives.
  pub data Works (s : Service R) : ℕ → Service R → Type 0 where
    none_yet : Works s 0 s
    one_more : {n : ℕ} {t u : Service R} → Works s n t → Work t u → Works s (suc n) u
    datagram : {n : ℕ} {t : Service R} (bytes : List ℕ) → Works s n t → Works s n (receive bytes t)

  pub Works-steps_left :
      {s : Service R} {n : ℕ} {t : Service R}
      → Works s n t
      → n + steps_left max_workers t ≤ steps_left max_workers s
  Works-steps_left none_yet = omega arith
  Works-steps_left (datagram bytes steps) = omega (arith, Works-steps_left steps)
  Works-steps_left (one_more steps step) =
      omega (arith, Works-steps_left steps, Work-steps_left step)

  Work-Step : {s t : Service R} → Work s t → Step repo max_workers s t
  Work-Step (takes i job rest below free first) = taken i job rest below free first
  Work-Step (moves i env job stage below at some_left) = moved i env job stage at
  Work-Step (returns i job below at) = returned i job at

  pub Works-Reach :
      {r s : Service R} {n : ℕ} {t : Service R}
      → Reach repo max_workers r s
      → Works s n t
      → Reach repo max_workers r t
  Works-Reach r none_yet = r
  Works-Reach r (datagram bytes steps) = next (Works-Reach r steps) (received bytes)
  Works-Reach r (one_more steps step) = next (Works-Reach r steps) (Work-Step step)

  -- No worker can take a step.
  unfoldable pub Stuck : Service R → Type 0
  Stuck s = (t : Service R) → ¬ Work s t

  pub Stuck-idle : (s : Service R) → Stuck s → (i : ℕ) → i < max_workers → s.workers i ≡ idle
  unfolding Stuck
  Stuck-idle s stuck i below = elim (Worker-cases (s.workers i)) [
    | inl free ↦ free
    | inr (inl (job, stage, at, some_left)) ↦
        absurd (stuck _ (moves i silence job stage below at some_left))
    | inr (inr (job, at)) ↦ absurd (stuck _ (returns i job below at))
  ]
