-- ===== src/Smf/Orchestrator/Worker/Laws.antt =====
-- How a job ends: its session, the other sessions, and the counters.
use pdu_session_sim.Common.{
  ℕ, ◌≡◌, ◌≢◌, ◌⊎◌, inl, inr, refl, ◌∙◌, [], Text, Result, ok, err, Result-cases, arith,
}
use pdu_session_sim.Models.{PduSession}
use pdu_session_sim.Smf.Db.Interface.{SessionRepository, IsRepository, IsReliable}
use pdu_session_sim.Smf.Db.Status.{active_status, failed_status}
use pdu_session_sim.Smf.Orchestrator.Establishment.{process_establishment}
use pdu_session_sim.Smf.Orchestrator.Establishment.Laws.{
  saved_session, activated_session, process_establishment-get, process_establishment-get_other,
}
use pdu_session_sim.Smf.Orchestrator.Notify.{notify_amf_session_failure}
use pdu_session_sim.Smf.Orchestrator.Reason.{reason_of}
use pdu_session_sim.Smf.Orchestrator.Reason.Laws.{reason_of-ne-nil}
use pdu_session_sim.Smf.Orchestrator.State.{Job, job_establish, Metrics, World, Surroundings}
use pdu_session_sim.Smf.Orchestrator.Worker.{
  count_finished, count_success, count_failure, fail_job, process_job,
}

-- A job ends well, with its session active under its address and a success counted, or badly, with
-- its session failed for a reason and a failure counted.
abbrev pub EndsWell : Surroundings → Job → Metrics → PduSession → Metrics → Type 0
EndsWell env job m s m' =
    (s.status ≡ active_status)
    × (s.ip_address ≡ job.ip_address)
    × (m' ≡ count_success (count_finished env.duration m))

abbrev pub EndsBadly : Surroundings → Metrics → PduSession → Metrics → Type 0
EndsBadly env m s m' =
    (s.status ≡ failed_status)
    × (s.failure_reason ≢ [])
    × (m' ≡ count_failure (count_finished env.duration m))

module _ {R : Type 0} {kept : ℕ → ℕ} (repo : SessionRepository R) (lawful : IsRepository kept repo)
    (reliable : IsReliable repo) (env : Surroundings) (job : Job) where
  notify_amf_session_failure-store :
      (ref supi cause message : Text) (w : World R)
      → (notify_amf_session_failure env.network repo ref supi cause message w).store ≡ w.store
  unfolding notify_amf_session_failure
  notify_amf_session_failure-store ref supi cause message w = ground arith

  -- The error branch marks the session that is there.
  fail_job-get :
      (e : Text) (w : World R) (s : PduSession)
      → repo.get job.sm_context_ref w.store ≡ ok s
      → repo.get job.sm_context_ref (fail_job repo env job e w).store
        ≡ ok (record s {
          status = failed_status;
          failure_reason = reason_of e;
          updated_at = kept env.failed_at;
        })
  unfolding fail_job
  fail_job-get e w s found =
      rw (notify_amf_session_failure-store job.sm_context_ref job.supi (reason_of e) e _) (
        (lawful.reason_updates job.sm_context_ref failed_status (reason_of e) env.failed_at).changed
          w.store s found
          (reliable.updates_reason job.sm_context_ref failed_status (reason_of e) env.failed_at
            w.store s found))

  fail_job-get_other :
      (e other : Text) (w : World R)
      → job.sm_context_ref ≢ other
      → repo.get other (fail_job repo env job e w).store ≡ repo.get other w.store
  unfolding fail_job
  fail_job-get_other e other w ne =
      rw (notify_amf_session_failure-store job.sm_context_ref job.supi (reason_of e) e _) (
        (lawful.reason_updates job.sm_context_ref failed_status (reason_of e) env.failed_at).kept
          w.store other ne)

  module _ (w : World R) (m : Metrics) (kind : job.type ≡ job_establish) where
    abbrev run : World R × Result (Unit {0})
    run = process_establishment repo env job.sm_context_ref job.supi job.ip_address job w

    process_job_of_ok :
        run.1 ≡ ok tt
        → process_job repo env job w m ≡ (run.0, count_success (count_finished env.duration m))
    unfolding process_job
    process_job_of_ok done = ground (arith, kind)

    process_job_of_err :
        (e : Text)
        → run.1 ≡ err e
        → process_job repo env job w m
          ≡ (fail_job repo env job e run.0, count_failure (count_finished env.duration m))
    unfolding process_job
    process_job_of_err e failed = ground (arith, kind)

    -- The session that the run leaves, active or not.
    run-get : (s : PduSession) × (repo.get job.sm_context_ref run.0.store ≡ ok s)
    run-get =
        elim (process_establishment-get repo lawful reliable env job.sm_context_ref job.supi
          job.ip_address job w) [
            | inl (_, active) ↦
                (activated_session kept env job.sm_context_ref job.ip_address job, active)
            | inr (_, inl saved) ↦ (saved_session kept env job.sm_context_ref job, saved)
            | inr (_, inr active) ↦
                (activated_session kept env job.sm_context_ref job.ip_address job, active)
          ]

    run-get_ok :
        run.1 ≡ ok tt
        → repo.get job.sm_context_ref run.0.store
          ≡ ok (activated_session kept env job.sm_context_ref job.ip_address job)
    run-get_ok done = ground (
      arith,
      process_establishment-get repo lawful reliable env job.sm_context_ref job.supi job.ip_address
          job w,
    )

    -- Over a store with the laws of a store that never fails, every establishment job leaves its session
    -- active with its address and counts a success, or leaves it failed with a reason and counts a
    -- failure: none stays in creation.
    pub process_job-ends :
        (s : PduSession) × (repo.get job.sm_context_ref (process_job repo env job w m).0.store
          ≡ ok s)
        × (EndsWell env job m s (process_job repo env job w m).1
            ⊎ EndsBadly env m s (process_job repo env job w m).1)
    process_job-ends = elim (Result-cases run.1) [
      | inr (_, done) ↦ rw (process_job_of_ok done) (
        activated_session kept env job.sm_context_ref job.ip_address job,
        run-get_ok done,
        inl (refl, refl, refl),
      )
      | inl (e, failed) ↦
          let (s, found) = run-get in
          rw (process_job_of_err e failed) (
            record s {
              status = failed_status;
              failure_reason = reason_of e;
              updated_at = kept env.failed_at;
            },
            fail_job-get e run.0 s found,
            inr (refl, reason_of-ne-nil e, refl),
          )
    ]

    -- Over a store with the laws of a store that never fails, an establishment job touches no session
    -- under another reference.
    pub process_job-get_other :
        (other : Text)
        → job.sm_context_ref ≢ other
        → repo.get other (process_job repo env job w m).0.store ≡ repo.get other w.store
    process_job-get_other other ne =
        let kept =
          process_establishment-get_other repo lawful reliable env job.sm_context_ref job.supi
            job.ip_address job w other ne in
        elim (Result-cases run.1) [
          | inr (_, done) ↦ rw (process_job_of_ok done) kept
          | inl (e, failed) ↦
              rw (process_job_of_err e failed) (fail_job-get_other e other run.0 ne ∙ kept)
        ]

    -- A run that fails with an error leaves the session failed for the error's reason.
    pub process_job-failed :
        (e : Text)
        → run.1 ≡ err e
        → (s : PduSession) × (repo.get job.sm_context_ref (process_job repo env job w m).0.store
            ≡ ok s)
          × (s.status ≡ failed_status)
          × (s.failure_reason ≡ reason_of e)
          × ((process_job repo env job w m).1 ≡ count_failure (count_finished env.duration m))
    process_job-failed e failed =
        let (s, found) = run-get in
        rw (process_job_of_err e failed) (
          record s {
            status = failed_status;
            failure_reason = reason_of e;
            updated_at = kept env.failed_at;
          },
          fail_job-get e run.0 s found,
          refl,
          refl,
          refl,
        )
