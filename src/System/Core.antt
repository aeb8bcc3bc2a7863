-- ===== src/System/Core.antt =====
-- The SMF and the UPF with a network between them (internal/smf, internal/upf): datagrams may be lost,
-- doubled and reordered, and the SMF's workers, its requests and both receive loops interleave.
pub mod Client
pub mod Table
pub mod Sound
pub mod Moves
pub mod Calls
pub mod Advance
pub mod Datagrams
pub mod Backed
mod Tests
use pdu_session_sim.Common.{ℕ, ◌+◌, ◌<◌, ◌≡◌, ◌^◌, ◌⊎◌, List, [], ◌∷◌, ◌++◌, Option, none, some, ok}
use pdu_session_sim.Models.{CreateSmContextRequest}
use pdu_session_sim.Smf.Concurrent.Service.{
  Service, Worker, idle, busy, set, take_job, move_on, receive,
}
use pdu_session_sim.Smf.Concurrent.Stages.{Stage, finished, waiting, advance}
use pdu_session_sim.Smf.Db.Interface.{SessionRepository}
use pdu_session_sim.Smf.Handler.{create_sm_context}
use pdu_session_sim.Smf.Orchestrator.State.{Job, Surroundings}
use pdu_session_sim.System.{answers}
use pdu_session_sim.Upf.{Server, handle_packet}

-- The two functions, and every datagram that was sent from one to the other.
pub record Core (R : Type 0) : Type 0 where
  pub smf : Service R
  pub upf : Server
  pub to_upf : List (List ℕ)
  pub to_smf : List (List ℕ)

-- A datagram was sent.
abbrev pub WasSent : List ℕ → List (List ℕ) → Type 0
WasSent bytes [] = ⊥
WasSent bytes (first ∷ rest) = (first ≡ bytes) ⊎ WasSent bytes rest

-- A worker that begins to wait has written its request.
abbrev pub written : Stage → List (List ℕ)
written (waiting bytes seq ch) = bytes ∷ []
written _ = []

module _ {R : Type 0} where
  abbrev pub move_core : SessionRepository R → Surroundings → ℕ → Job → Stage → Core R → Core R
  move_core repo env i job stage s =
      let (_, _, following) =
        advance repo env job stage s.smf.smf.orc.world s.smf.smf.orc.metrics in
      record s { smf = move_on repo env i job stage s.smf; to_upf = written following ++ s.to_upf }

  abbrev pub serve_packet : List ℕ → Core R → Core R
  serve_packet bytes s =
      let (upf, answer) = handle_packet s.upf bytes in
      record s { upf = upf; to_smf = answers answer ++ s.to_smf }

  -- A step of some goroutine of the SMF or of the UPF. A datagram that was sent may come at any time, or
  -- never, or again. The counters of contexts and of sequence numbers do not wrap.
  pub data Step (repo : SessionRepository R) (max_workers : ℕ) (s : Core R) : Core R → Type 0 where
    requested :
        (nanos : ℕ) (req : CreateSmContextRequest)
        → s.smf.smf.sm_context_counter + 1 < 2 ^ 64
        → Step repo max_workers s (record s {
          smf = record s.smf { smf = (create_sm_context nanos (ok req) s.smf.smf).0 };
        })
    taken :
        (i : ℕ) (job : Job) (rest : List Job)
        → i < max_workers
        → s.smf.workers i ≡ idle
        → s.smf.smf.orc.job_queue ≡ job ∷ rest
        → Step repo max_workers s (record s { smf = take_job i job rest s.smf })
    moved :
        (i : ℕ) (env : Surroundings) (job : Job) (stage : Stage)
        → s.smf.workers i ≡ busy job stage
        → s.smf.smf.orc.world.pfcp.seq_counter + 1 < 2 ^ 32
        → Step repo max_workers s (move_core repo env i job stage s)
    returned :
        (i : ℕ) (job : Job)
        → s.smf.workers i ≡ busy job finished
        → Step repo max_workers s (record s {
          smf = record s.smf {
            workers = set s.smf.workers i idle;
            jobs_done = job ∷ s.smf.jobs_done;
          };
        })
    served :
        (bytes : List ℕ) → WasSent bytes s.to_upf → Step repo max_workers s (serve_packet bytes s)
    received :
        (bytes : List ℕ)
        → WasSent bytes s.to_smf
        → Step repo max_workers s (record s { smf = receive bytes s.smf })

  pub data Reach (repo : SessionRepository R) (max_workers : ℕ) (s : Core R) : Core R → Type 0 where
    here : Reach repo max_workers s s
    next :
        {t u : Core R}
        → Reach repo max_workers s t
        → Step repo max_workers t u
        → Reach repo max_workers s u
