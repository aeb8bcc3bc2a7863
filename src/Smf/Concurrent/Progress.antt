-- ===== src/Smf/Concurrent/Progress.antt =====
-- How many stages a job takes (internal/smf/service.go).
use pdu_session_sim.Common.{
  ℕ, zero, suc, ◌+◌, ◌≤◌, ◌≡◌, refl, ap, ◌∙◌, List, [], ◌∷◌, Option-cases, Result, ok, err,
  Result-cases, inl, inr, arith, length,
}
use pdu_session_sim.Pfcp.{encode_request}
use pdu_session_sim.Smf.Concurrent.Stages.{
  Stage, saving, validating, establishing, activating, transferring, succeeding, finished, waiting,
  failing, marking, notifying, after_outcome, begin_call, end_call, advance,
}
use pdu_session_sim.Smf.Concurrent.Service.{
  Service, idle, busy, set, move_on, moved, returned, Reach, here, next,
}
use pdu_session_sim.Smf.Concurrent.Places.{set_self}
use pdu_session_sim.Smf.Db.Interface.{SessionRepository}
use pdu_session_sim.Smf.Orchestrator.State.{Job, Metrics, World, Surroundings}
use pdu_session_sim.Smf.PfcpClient.{PfcpClient, next_seq}

-- How many stages are left at most.
abbrev pub left : Stage → ℕ
left saving = 9
left validating = 8
left establishing = 7
left (waiting bytes seq ch) = 6
left activating = 5
left transferring = 4
left succeeding = 1
left (failing e) = 3
left (marking e) = 2
left (notifying reason e) = 1
left finished = 0

pub left-finished : (stage : Stage) → left stage ≤ 0 → stage ≡ finished
left-finished finished h = refl
left-finished saving h = absurd (omega arith)
left-finished validating h = absurd (omega arith)
left-finished establishing h = absurd (omega arith)
left-finished activating h = absurd (omega arith)
left-finished transferring h = absurd (omega arith)
left-finished succeeding h = absurd (omega arith)
left-finished (waiting bytes seq ch) h = absurd (omega arith)
left-finished (failing e) h = absurd (omega arith)
left-finished (marking e) h = absurd (omega arith)
left-finished (notifying reason e) h = absurd (omega arith)

pub stage-left : (stage : Stage) → left stage ≤ 9
stage-left saving = omega arith
stage-left validating = omega arith
stage-left establishing = omega arith
stage-left activating = omega arith
stage-left transferring = omega arith
stage-left succeeding = omega arith
stage-left finished = omega arith
stage-left (waiting bytes seq ch) = omega arith
stage-left (failing e) = omega arith
stage-left (marking e) = omega arith
stage-left (notifying reason e) = omega arith

module _ {R : Type 0} (repo : SessionRepository R) (job : Job) where
  after_outcome-left :
      {A : Type 0} (n : ℕ) (following : Stage) (r : Result A)
      → left following ≤ n
      → 3 ≤ n
      → left (after_outcome following r) ≤ n
  after_outcome-left n following (ok _) h three = h
  after_outcome-left n following (err e) h three = three

  begin_call-left :
      (env : Surroundings) (c : PfcpClient) → left (begin_call env job.ip_address c).1 ≤ 6
  unfolding begin_call
  begin_call-left env c =
      elim (Result-cases (encode_request 50 (next_seq c).seq_counter job.ip_address)) [
        | inl (e, refused) ↦ ground (arith, refused)
        | inr (bytes, encoded) ↦ elim (Option-cases (env.exchange bytes).write_error) [
          | inl written ↦ ground (arith, encoded, written)
          | inr (e, unwritten) ↦ ground (arith, encoded, unwritten)
        ]
      ]

  pub advance-left :
      (n : ℕ) (env : Surroundings) (stage : Stage) (w : World R) (m : Metrics)
      → left stage ≤ n + 1
      → (let (_, _, following) = advance repo env job stage w m in left following ≤ n)
  unfolding advance end_call
  advance-left n env saving w m h = after_outcome-left n validating _ (omega arith) (omega arith)
  advance-left n env validating w m h =
      after_outcome-left n establishing _ (omega arith) (omega arith)
  advance-left n env establishing w m h = omega (arith, begin_call-left env w.pfcp)
  advance-left n env (waiting bytes seq ch) w m h =
      after_outcome-left n activating _ (omega arith) (omega arith)
  advance-left n env activating w m h = omega arith
  advance-left n env transferring w m h =
      after_outcome-left n succeeding _ (omega arith) (omega arith)
  advance-left n env succeeding w m h = omega arith
  advance-left n env (failing e) w m h = omega arith
  advance-left n env (marking e) w m h = omega arith
  advance-left n env (notifying reason e) w m h = omega arith
  advance-left n env finished w m h = omega arith

  -- A job's stages one after the other, each in the surroundings, the world and the counters that the
  -- other workers and the network have left.
  abbrev pub stages : List (Surroundings × World R × Metrics) → Stage → Stage
  stages [] stage = stage
  stages ((env, w, m) ∷ found) stage =
      let (_, _, following) = advance repo env job stage w m in stages found following

  stages-left :
      (found : List (Surroundings × World R × Metrics)) (stage : Stage) (n : ℕ)
      → left stage ≤ length found + n
      → left (stages found stage) ≤ n
  stages-left [] stage n h = omega (arith, h)
  stages-left ((env, w, m) ∷ found) stage n h =
      stages-left found _ n (advance-left (length found + n) env stage w m (omega (arith, h)))

  -- Whatever each of its stages finds, a job is finished after nine of them, from whichever stage on.
  pub stages-finished :
      (found : List (Surroundings × World R × Metrics)) (stage : Stage)
      → 9 ≤ length found
      → stages found stage ≡ finished
  stages-finished found stage nine =
      left-finished _ (stages-left found stage 0 (omega (arith, nine, stage-left stage)))

  module _ (max_workers : ℕ) (env : Surroundings) (i : ℕ) where
    -- What a number of moves of one worker leads to.
    record Moved (n : ℕ) (stage : Stage) (s : Service R) : Type 0 where
      after : Service R
      ran : List (Surroundings × World R × Metrics)
      long : length ran ≡ n
      at : after.workers i ≡ busy job (stages ran stage)
      done : after.jobs_done ≡ s.jobs_done
      reach : {u : Service R} → Reach repo max_workers u s → Reach repo max_workers u after

    moves : (n : ℕ) (stage : Stage) (s : Service R) → s.workers i ≡ busy job stage → Moved n stage s
    moves zero stage s at = record {
      after = s;
      ran = [];
      long = refl;
      at = at;
      done = refl;
      reach = λ r. r;
    }
    moves (suc n) stage s at =
        let (w, m, following) = advance repo env job stage s.smf.orc.world s.smf.orc.metrics in
        let later =
          moves n following (move_on repo env i job stage s)
            (set_self s.workers i (busy job following)) in
        record {
          after = later.after;
          ran = (env, s.smf.orc.world, s.smf.orc.metrics) ∷ later.ran;
          long = omega (arith, later.long);
          at = later.at;
          done = later.done;
          reach = λ r. later.reach (next r (moved i env job stage at));
        }

    -- From every state in which a worker is busy with a job, at whichever stage, steps of this worker
    -- lead to a state in which the job is finished, with those that were before.
    pub Reach-returned :
        (stage : Stage) (s : Service R)
        → s.workers i ≡ busy job stage
        → (t : Service R) × Reach repo max_workers s t × (t.jobs_done ≡ job ∷ s.jobs_done)
    Reach-returned stage s at =
        let later = moves 9 stage s at in
        let over : later.after.workers i ≡ busy job finished =
          later.at ∙ ap (busy job) (stages-finished later.ran stage (omega (arith, later.long))) in
        (
          record later.after {
            workers = set later.after.workers i idle;
            jobs_done = job ∷ later.after.jobs_done;
          },
          next (later.reach here) (returned i job over),
          ap (◌∷◌ job) later.done,
        )
