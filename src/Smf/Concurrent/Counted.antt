-- ===== src/Smf/Concurrent/Counted.antt =====
-- Which of the SMF's jobs no counter has counted yet (internal/smf/service.go).
use pdu_session_sim.Common.{
  ℕ, ◌+◌, ◌^◌, ◌<◌, ◌≡◌, inl, inr, refl, ap, Option-cases, Result, ok, err, Result-cases, arith,
}
use pdu_session_sim.Pfcp.{encode_request}
use pdu_session_sim.Smf.Concurrent.Total.{total}
use pdu_session_sim.Smf.Concurrent.Service.{Worker, idle, busy}
use pdu_session_sim.Smf.Concurrent.Stages.{
  Stage, saving, validating, establishing, activating, transferring, succeeding, finished, waiting,
  failing, marking, notifying, after_outcome, begin_call, end_call, advance,
}
use pdu_session_sim.Smf.Db.Interface.{SessionRepository}
use pdu_session_sim.Smf.Orchestrator.State.{Job, Metrics, World, Surroundings}
use pdu_session_sim.Smf.Orchestrator.Worker.Counters.{finished as counted}
use pdu_session_sim.Smf.PfcpClient.{next_seq}

-- A job at work that neither of the two counters has counted.
abbrev pub uncounted_stage : Stage → ℕ
uncounted_stage (marking e) = 0
uncounted_stage (notifying reason e) = 0
uncounted_stage finished = 0
uncounted_stage _ = 1

abbrev pub uncounted : Worker → ℕ
uncounted idle = 0
uncounted (busy job stage) = uncounted_stage stage

-- How many of the first workers are at such a job.
abbrev pub at_work : ℕ → (ℕ → Worker) → ℕ
at_work = total uncounted

module _ {R : Type 0} (repo : SessionRepository R) (env : Surroundings) (job : Job) where
  after_outcome-uncounted :
      {A : Type 0} (following : Stage) (r : Result A)
      → uncounted_stage following ≡ 1
      → uncounted_stage (after_outcome following r) ≡ 1
  after_outcome-uncounted following (ok _) h = h
  after_outcome-uncounted following (err e) h = refl

  begin_call-uncounted :
      (w : World R) → uncounted_stage (begin_call env job.ip_address w.pfcp).1 ≡ 1
  unfolding begin_call
  begin_call-uncounted w =
      elim (Result-cases (encode_request 50 (next_seq w.pfcp).seq_counter job.ip_address)) [
        | inl (e, refused) ↦ rw (refused, begin_call)
        | inr (bytes, encoded) ↦ elim (Option-cases (env.exchange bytes).write_error) [
          | inl written ↦ rw (encoded, written, begin_call)
          | inr (e, unwritten) ↦ rw (encoded, unwritten, begin_call)
        ]
      ]

  -- A stage counts its job once, where no counter wraps.
  pub advance-counted :
      (stage : Stage) (w : World R) (m : Metrics)
      → counted m + uncounted_stage stage < 2 ^ 64
      → (let (_, m', following) = advance repo env job stage w m in
          counted m' + uncounted_stage following ≡ counted m + uncounted_stage stage)
  unfolding advance end_call
  advance-counted saving w m small =
      ap (◌+◌ (counted m)) (after_outcome-uncounted validating _ refl)
  advance-counted validating w m small =
      ap (◌+◌ (counted m)) (after_outcome-uncounted establishing _ refl)
  advance-counted establishing w m small = omega (arith, begin_call-uncounted w)
  advance-counted (waiting bytes seq ch) w m small =
      ap (◌+◌ (counted m)) (after_outcome-uncounted activating _ refl)
  advance-counted activating w m small = refl
  advance-counted transferring w m small =
      ap (◌+◌ (counted m)) (after_outcome-uncounted succeeding _ refl)
  advance-counted succeeding w m small = omega arith
  advance-counted (failing e) w m small = omega arith
  advance-counted (marking e) w m small = refl
  advance-counted (notifying reason e) w m small = refl
  advance-counted finished w m small = refl
