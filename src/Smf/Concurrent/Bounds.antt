-- ===== src/Smf/Concurrent/Bounds.antt =====
-- The machine-width counters and the queue of an SMF at work (internal/smf/service.go, handler.go and
-- pfcp_client.go).
use pdu_session_sim.Common.{
  ℕ, ◌^◌, ◌<◌, ◌≤◌, ◌≡◌, inl, inr, refl, ◌∙◌, Option-cases, ok, Result-cases, arith, length,
  length-append, [], ◌∷◌, Text,
}
use pdu_session_sim.Models.{CreateSmContextRequest}
use pdu_session_sim.Pfcp.{encode_request}
use pdu_session_sim.Smf.Concurrent.Ends.{start}
use pdu_session_sim.Smf.Concurrent.Service.{
  Service, Step, requested, taken, moved, returned, received, Reach, here, next,
}
use pdu_session_sim.Smf.Concurrent.Stages.{
  Stage, saving, validating, establishing, activating, transferring, succeeding, finished, waiting,
  failing, marking, notifying, advance, begin_call, end_call,
}
use pdu_session_sim.Smf.Db.Interface.{SessionRepository}
use pdu_session_sim.Smf.Handler.{Smf, job_of, accept_context, create_sm_context}
use pdu_session_sim.Smf.Handler.Laws.{create_sm_context-Outcome}
use pdu_session_sim.Smf.Handler.Refs.{next_ref}
use pdu_session_sim.Smf.Orchestrator.Establishment.Laws.{
  validate_subscription-store, transfer_active-store,
}
use pdu_session_sim.Smf.Orchestrator.Notify.{notify_amf_session_failure}
use pdu_session_sim.Smf.Orchestrator.State.{Job, Metrics, World, Surroundings}
use pdu_session_sim.Smf.Orchestrator.Worker.{
  init_orchestrator, allocate_ip, enqueue_job, count_failure,
}
use pdu_session_sim.Smf.PfcpClient.{
  PfcpClient, next_seq, register, unregister, handle_response, offer,
}

-- 64-bit counters.
pub record Fit (m : Metrics) : Type 0 where
  pub tps : m.tps_counter < 2 ^ 64
  pub success : m.success_counter < 2 ^ 64
  pub fail : m.fail_counter < 2 ^ 64
  pub latency : m.latency_sum < 2 ^ 64

pub record Bounded {R : Type 0} (queue_size : ℕ) (s : Service R) : Type 0 where
  pub room : length s.smf.orc.job_queue ≤ queue_size
  pub size : s.smf.orc.queue_size ≡ queue_size
  pub seq : s.smf.orc.world.pfcp.seq_counter < 2 ^ 32
  pub ip : s.smf.orc.ip_counter < 2 ^ 32
  pub context : s.smf.sm_context_counter < 2 ^ 64
  pub metrics : Fit s.smf.orc.metrics

begin_call-seq :
    (env : Surroundings) (ip : Text) (c : PfcpClient) → (begin_call env ip c).0.seq_counter < 2 ^ 32
unfolding begin_call next_seq register unregister
begin_call-seq env ip c = elim (Result-cases (encode_request 50 (next_seq c).seq_counter ip)) [
  | inl (e, refused) ↦ rw (refused, begin_call) (omega arith)
  | inr (bytes, encoded) ↦ elim (Option-cases (env.exchange bytes).write_error) [
    | inl written ↦ rw (encoded, written, begin_call) (omega arith)
    | inr (e, unwritten) ↦ rw (encoded, unwritten, begin_call) (omega arith)
  ]
]

module _ {R : Type 0} (repo : SessionRepository R) (env : Surroundings) (job : Job) (w : World R)
    (m : Metrics) where
  advance-seq :
      (stage : Stage)
      → w.pfcp.seq_counter < 2 ^ 32
      → (advance repo env job stage w m).0.pfcp.seq_counter < 2 ^ 32
  unfolding advance end_call unregister notify_amf_session_failure
  advance-seq saving fits = fits
  advance-seq validating fits =
      ground (arith, validate_subscription-store repo env job.supi job w, fits)
  advance-seq establishing fits = begin_call-seq env job.ip_address w.pfcp
  advance-seq (waiting bytes seq ch) fits = fits
  advance-seq activating fits = fits
  advance-seq transferring fits =
      ground (arith, transfer_active-store repo env job.sm_context_ref job.supi job w, fits)
  advance-seq succeeding fits = fits
  advance-seq (failing e) fits = fits
  advance-seq (marking e) fits = fits
  advance-seq (notifying reason e) fits = ground (arith, fits)
  advance-seq finished fits = fits

  advance-Fit : (stage : Stage) → Fit m → Fit (advance repo env job stage w m).1
  unfolding advance
  advance-Fit succeeding fit = record {
    tps = omega arith;
    success = omega arith;
    fail = fit.fail;
    latency = omega arith;
  }
  advance-Fit (failing e) fit = record {
    tps = omega arith;
    success = fit.success;
    fail = omega arith;
    latency = omega arith;
  }
  advance-Fit saving fit = fit
  advance-Fit validating fit = fit
  advance-Fit establishing fit = fit
  advance-Fit (waiting bytes seq ch) fit = fit
  advance-Fit activating fit = fit
  advance-Fit transferring fit = fit
  advance-Fit (marking e) fit = fit
  advance-Fit (notifying reason e) fit = fit
  advance-Fit finished fit = fit

queue_size-create_sm_context :
    {R : Type 0} (nanos : ℕ) (req : CreateSmContextRequest) (smf : Smf R)
    → (create_sm_context nanos (ok req) smf).0.orc.queue_size ≡ smf.orc.queue_size
unfolding create_sm_context accept_context allocate_ip enqueue_job
queue_size-create_sm_context nanos req smf = ground arith

Fit-count_failure : (m : Metrics) → Fit m → Fit (count_failure m)
Fit-count_failure m fit = record {
  tps = fit.tps;
  success = fit.success;
  fail = omega arith;
  latency = fit.latency;
}

requested-Bounded :
    {R : Type 0} (queue_size nanos : ℕ) (req : CreateSmContextRequest) (s : Service R)
    → Bounded queue_size s
    → Bounded queue_size (record s { smf = (create_sm_context nanos (ok req) s.smf).0 })
requested-Bounded queue_size nanos req s b =
    let size : (create_sm_context nanos (ok req) s.smf).0.orc.queue_size ≡ queue_size =
      queue_size-create_sm_context nanos req s.smf ∙ b.size in
    let (world, context, ip, cases) = create_sm_context-Outcome nanos req s.smf in
    let seq : (create_sm_context nanos (ok req) s.smf).0.orc.world.pfcp.seq_counter < 2 ^ 32 =
      rw world b.seq in
    elim cases [
      | inl (room, reply, appended, metrics) ↦ record {
        room = rw appended (
            omega (
              arith,
              room,
              b.size,
              length-append s.smf.orc.job_queue
                  (job_of (next_ref nanos s.smf) (allocate_ip s.smf.orc).1 req ∷ []),
            ));
        size = size;
        seq = seq;
        ip = omega (arith, ip);
        context = omega (arith, context);
        metrics = rw metrics b.metrics;
      }
      | inr (full, reply, kept, metrics) ↦ record {
        room = rw kept b.room;
        size = size;
        seq = seq;
        ip = omega (arith, ip);
        context = omega (arith, context);
        metrics = rw metrics (Fit-count_failure s.smf.orc.metrics b.metrics);
      }
    ]

module _ {R : Type 0} (repo : SessionRepository R) (max_workers queue_size : ℕ) where
  Step-Bounded :
      {s t : Service R} → Step repo max_workers s t → Bounded queue_size s → Bounded queue_size t
  unfolding handle_response offer
  Step-Bounded {s = s} (requested nanos req small) b = requested-Bounded queue_size nanos req s b
  Step-Bounded {s = s} (taken i job rest below free first) b = record {
    room = ground (arith, b.room, first);
    size = b.size;
    seq = b.seq;
    ip = b.ip;
    context = b.context;
    metrics = b.metrics;
  }
  Step-Bounded {s = s} (moved i env job stage at) b = record {
    room = b.room;
    size = b.size;
    seq = advance-seq repo env job s.smf.orc.world s.smf.orc.metrics stage b.seq;
    ip = b.ip;
    context = b.context;
    metrics = advance-Fit repo env job s.smf.orc.world s.smf.orc.metrics stage b.metrics;
  }
  Step-Bounded {s = s} (returned i job at) b = record {
    room = b.room;
    size = b.size;
    seq = b.seq;
    ip = b.ip;
    context = b.context;
    metrics = b.metrics;
  }
  Step-Bounded {s = s} (received bytes) b = record {
    room = b.room;
    size = b.size;
    seq = ground (arith, b.seq);
    ip = b.ip;
    context = b.context;
    metrics = b.metrics;
  }

  Reach-from :
      {s t : Service R} → Reach repo max_workers s t → Bounded queue_size s → Bounded queue_size t
  Reach-from here b = b
  Reach-from (next r st) b = Step-Bounded st (Reach-from r b)

  start-Bounded :
      (w : World R) → w.pfcp.seq_counter < 2 ^ 32 → Bounded queue_size (start w queue_size)
  unfolding init_orchestrator
  start-Bounded w small = record {
    room = omega arith;
    size = refl;
    seq = small;
    ip = omega arith;
    context = omega arith;
    metrics = record {
      tps = omega arith;
      success = omega arith;
      fail = omega arith;
      latency = omega arith;
    };
  }

  -- However requests that decode, workers and datagrams interleave from the start on, as long as
  -- the counter of contexts does not wrap and with a 32-bit sequence number at the start: the
  -- queue holds no more jobs than its size, which stays the one it was made with, the sequence
  -- number and the address counter stay below 2 ^ 32, and the counter of contexts and all four
  -- counters of the metrics below 2 ^ 64.
  pub Reach-Bounded :
      (w : World R) (s : Service R)
      → w.pfcp.seq_counter < 2 ^ 32
      → Reach repo max_workers (start w queue_size) s
      → Bounded queue_size s
  Reach-Bounded w s small r = Reach-from r (start-Bounded w small)
