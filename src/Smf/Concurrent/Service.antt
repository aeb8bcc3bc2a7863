-- ===== src/Smf/Concurrent/Service.antt =====
-- The SMF as a whole: handler calls, workers and datagrams, in any order (internal/smf).
-- A handler's call is one step: its additions to the counter of contexts and to the address counter, and the
-- job that it puts into the queue, are not split. No worker and no datagram reads either counter; that
-- two calls at once can pair references with addresses in another order is left out.
use pdu_session_sim.Common.{ℕ, ◌+◌, ◌<◌, ◌≡◌, ◌^◌, List, ◌∷◌, ok, nat_beq, if◌then◌else◌}
use pdu_session_sim.Models.{CreateSmContextRequest}
use pdu_session_sim.Smf.Concurrent.Stages.{Stage, saving, finished, advance}
use pdu_session_sim.Smf.Db.Interface.{SessionRepository}
use pdu_session_sim.Smf.Handler.{Smf, create_sm_context}
use pdu_session_sim.Smf.Orchestrator.State.{Job, job_establish, other_job, Surroundings}
use pdu_session_sim.Smf.PfcpClient.{handle_response}

pub data Worker : Type 0 where
  idle : Worker
  busy : Job → Stage → Worker

-- The workers by number, and the jobs that they have finished.
pub record Service (R : Type 0) : Type 0 where
  pub smf : Smf R
  pub workers : ℕ → Worker
  pub jobs_done : List Job

-- One worker in place of another.
abbrev pub set : {A : Type 0} → (ℕ → A) → ℕ → A → ℕ → A
set f i a j = if nat_beq i j then a else f j

-- A worker passes over jobs of another type.
abbrev pub first_stage : Job → Stage
first_stage job = elim job.type [ job_establish ↦ saving | other_job _ ↦ finished ]

module _ {R : Type 0} where
  abbrev pub take_job : ℕ → Job → List Job → Service R → Service R
  take_job i job rest s = record s {
    smf = record s.smf { orc = record s.smf.orc { job_queue = rest } };
    workers = set s.workers i (busy job (first_stage job));
  }

  abbrev pub move_on : SessionRepository R → Surroundings → ℕ → Job → Stage → Service R → Service R
  move_on repo env i job stage s =
      let (w, m, next) = advance repo env job stage s.smf.orc.world s.smf.orc.metrics in
      record s {
        smf = record s.smf { orc = record s.smf.orc { world = w; metrics = m } };
        workers = set s.workers i (busy job next);
      }

  abbrev pub receive : List ℕ → Service R → Service R
  receive bytes s = record s {
    smf = record s.smf {
      orc = record s.smf.orc {
        world = record s.smf.orc.world { pfcp = handle_response bytes s.smf.orc.world.pfcp };
      };
    };
  }

  -- A step of some goroutine, with `max_workers` workers. The counter of contexts does not wrap.
  pub data Step (repo : SessionRepository R) (max_workers : ℕ) (s : Service R)
      : Service R → Type 0 where
    requested :
        (nanos : ℕ) (req : CreateSmContextRequest)
        → s.smf.sm_context_counter + 1 < 2 ^ 64
        → Step repo max_workers s (record s { smf = (create_sm_context nanos (ok req) s.smf).0 })
    taken :
        (i : ℕ) (job : Job) (rest : List Job)
        → i < max_workers
        → s.workers i ≡ idle
        → s.smf.orc.job_queue ≡ job ∷ rest
        → Step repo max_workers s (take_job i job rest s)
    moved :
        (i : ℕ) (env : Surroundings) (job : Job) (stage : Stage)
        → s.workers i ≡ busy job stage
        → Step repo max_workers s (move_on repo env i job stage s)
    returned :
        (i : ℕ) (job : Job)
        → s.workers i ≡ busy job finished
        → Step repo max_workers s
            (record s { workers = set s.workers i idle; jobs_done = job ∷ s.jobs_done })
    received : (bytes : List ℕ) → Step repo max_workers s (receive bytes s)

  pub data Reach (repo : SessionRepository R) (max_workers : ℕ) (s : Service R)
      : Service R → Type 0 where
    here : Reach repo max_workers s s
    next :
        {t u : Service R}
        → Reach repo max_workers s t
        → Step repo max_workers t u
        → Reach repo max_workers s u
