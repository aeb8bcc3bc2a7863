-- ===== src/Smf/Concurrent/Accounts.antt =====
-- The SMF's counters against its queue and its workers (internal/smf/service.go, handler.go).
use pdu_session_sim.Common.{
  ℕ, ◌+◌, ◌^◌, ◌<◌, ◌≤◌, ◌≡◌, inl, inr, refl, sym, ap, subst, ◌∙◌, [], ◌∷◌, ok, All, All-append_iff,
  arith, length, length-append,
}
use native.Mathlib.Decide.{dec_lt}
use pdu_session_sim.Models.{CreateSmContextRequest}
use pdu_session_sim.Smf.Concurrent.Ends.{start}
use pdu_session_sim.Smf.Concurrent.Places.{set_other}
use pdu_session_sim.Smf.Concurrent.Service.{
  Service, Worker, idle, busy, set, first_stage, Step, requested, taken, moved, returned, received,
  Reach, here, next,
}
use pdu_session_sim.Smf.Concurrent.Total.{total-set, total-idle}
use pdu_session_sim.Smf.Concurrent.Stages.{Stage, finished, advance}
use pdu_session_sim.Smf.Db.Interface.{SessionRepository}
use pdu_session_sim.Smf.Handler.{job_of, create_sm_context}
use pdu_session_sim.Smf.Handler.Laws.{create_sm_context-Outcome}
use pdu_session_sim.Smf.Handler.Refs.{next_ref}
use pdu_session_sim.Smf.Orchestrator.State.{Job, job_establish, World}
use pdu_session_sim.Smf.Orchestrator.Worker.{init_orchestrator, allocate_ip}
use pdu_session_sim.Smf.Orchestrator.Worker.Counters.{finished as counted}
use pdu_session_sim.Smf.Concurrent.Counted.{uncounted_stage, uncounted, at_work, advance-counted}

-- Each request is counted once: as a success, as a failure, in the queue, or at work and uncounted.
pub record Accounted {R : Type 0} (max_workers : ℕ) (s : Service R) : Type 0 where
  pub small : s.smf.sm_context_counter < 2 ^ 64
  pub sum :
      s.smf.sm_context_counter
      ≡ counted s.smf.orc.metrics + length s.smf.orc.job_queue + at_work max_workers s.workers
  pub kinds : All (λ job. job.type ≡ job_establish) s.smf.orc.job_queue
  pub beyond : (i : ℕ) → max_workers ≤ i → s.workers i ≡ idle

module _ {R : Type 0} (repo : SessionRepository R) (max_workers : ℕ) where
  pub start-Accounted : (w : World R) (queue_size : ℕ) → Accounted max_workers (start w queue_size)
  unfolding init_orchestrator
  start-Accounted w queue_size = record {
    small = omega arith;
    sum = omega (arith, total-idle uncounted max_workers (λ i. idle) refl (λ i h. refl));
    kinds = tt;
    beyond = λ i h. refl;
  }

  requested-Accounted :
      (nanos : ℕ) (req : CreateSmContextRequest) (s : Service R)
      → s.smf.sm_context_counter + 1 < 2 ^ 64
      → Accounted max_workers s
      → Accounted max_workers (record s { smf = (create_sm_context nanos (ok req) s.smf).0 })
  requested-Accounted nanos req s fits a =
      let (same, counter, ips, cases) = create_sm_context-Outcome nanos req s.smf in
      let job : Job = job_of (next_ref nanos s.smf) (allocate_ip s.smf.orc).1 req in
      elim cases [
        | inl (room, reply, appended, metrics) ↦ record {
          small = omega (arith, counter);
          sum = ground (
            arith,
            counter,
            appended,
            metrics,
            a.sum,
            length-append s.smf.orc.job_queue (job ∷ []),
          );
          kinds = subst (All (λ j. j.type ≡ job_establish)) (sym appended) (
              (All-append_iff (λ j. j.type ≡ job_establish) s.smf.orc.job_queue (job ∷ [])).1
                (a.kinds, (refl, tt)));
          beyond = a.beyond;
        }
        | inr (full, reply, unchanged, metrics) ↦ record {
          small = omega (arith, counter);
          sum = ground (arith, counter, unchanged, metrics, a.sum);
          kinds = subst (All (λ j. j.type ≡ job_establish)) (sym unchanged) a.kinds;
          beyond = a.beyond;
        }
      ]

  -- A worker above the bound is never set.
  beyond-set :
      (workers : ℕ → Worker) (i : ℕ) (worker : Worker)
      → i < max_workers
      → ((j : ℕ) → max_workers ≤ j → workers j ≡ idle)
      → (j : ℕ) → max_workers ≤ j
      → set workers i worker j ≡ idle
  beyond-set workers i worker below all j h =
      set_other workers i j worker (λ e. omega (arith, e)) ∙ all j h

  pub below-busy :
      (s : Service R) (i : ℕ) (job : Job) (stage : Stage)
      → Accounted max_workers s
      → s.workers i ≡ busy job stage
      → i < max_workers
  below-busy s i job stage a at = elim (dec_lt i max_workers) [
    | yes below ↦ below
    | no above ↦ absurd (ground (arith, at, a.beyond i))
  ]

  Step-Accounted :
      {s t : Service R}
      → Step repo max_workers s t
      → Accounted max_workers s
      → Accounted max_workers t
  Step-Accounted {s = s} (requested nanos req fits) a = requested-Accounted nanos req s fits a
  Step-Accounted {s = s} (taken i job rest below free first) a =
      let all = subst (All (λ j. j.type ≡ job_establish)) first a.kinds in
      record {
        small = a.small;
        sum = ground (
          arith,
          a.sum,
          first,
          free,
          all.0,
          total-set uncounted max_workers i s.workers (busy job (first_stage job)) below,
        );
        kinds = all.1;
        beyond = beyond-set s.workers i (busy job (first_stage job)) below a.beyond;
      }
  Step-Accounted {s = s} (moved i env job stage at) a =
      let below = below-busy s i job stage a at in
      let (_, m', following) = advance repo env job stage s.smf.orc.world s.smf.orc.metrics in
      let set' = total-set uncounted max_workers i s.workers (busy job following) below in
      let old = total-set uncounted max_workers i s.workers idle below in
      let stage_of : uncounted (s.workers i) ≡ uncounted_stage stage = ap uncounted at in
      let fits : counted s.smf.orc.metrics + uncounted_stage stage < 2 ^ 64 =
        omega (arith, a.sum, a.small, old, stage_of) in
      let kept = advance-counted repo env job stage s.smf.orc.world s.smf.orc.metrics fits in
      record {
        small = a.small;
        sum = omega (arith, a.sum, a.small, set', stage_of, kept);
        kinds = a.kinds;
        beyond = beyond-set s.workers i (busy job following) below a.beyond;
      }
  Step-Accounted {s = s} (returned i job at) a =
      let below = below-busy s i job finished a at in
      record {
        small = a.small;
        sum = ground (arith, a.sum, at, total-set uncounted max_workers i s.workers idle below);
        kinds = a.kinds;
        beyond = beyond-set s.workers i idle below a.beyond;
      }
  Step-Accounted {s = s} (received bytes) a = record {
    small = a.small;
    sum = a.sum;
    kinds = a.kinds;
    beyond = a.beyond;
  }

  pub Reach-Accounted :
      {s t : Service R}
      → Reach repo max_workers s t
      → Accounted max_workers s
      → Accounted max_workers t
  Reach-Accounted here a = a
  Reach-Accounted (next r st) a = Step-Accounted st (Reach-Accounted r a)

  -- However the requests that decode, the workers and the datagrams interleave from the start on, as
  -- long as the counter of contexts does not wrap: that counter is the sum of the successes, the
  -- failures, the jobs in the queue, and the jobs that are at work and in neither count yet.
  Reach-counted :
      (queue_size : ℕ) (w : World R) (s : Service R)
      → Reach repo max_workers (start w queue_size) s
      → s.smf.sm_context_counter
        ≡ s.smf.orc.metrics.success_counter
          + s.smf.orc.metrics.fail_counter
          + length s.smf.orc.job_queue
          + at_work max_workers s.workers
  Reach-counted queue_size w s r = (Reach-Accounted r (start-Accounted w queue_size)).sum
