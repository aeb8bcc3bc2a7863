-- ===== src/System/Core/Advance.antt =====
-- Each stage of a worker leaves the active sessions backed by the UPF (`worker` and
-- `processEstablishment` of internal/smf/service.go).
use pdu_session_sim.Common.{
  ℕ, ◌+◌, ◌<◌, ◌≡◌, ◌≢◌, ◌^◌, refl, sym, subst, List, [], ◌++◌, Text, Result, ok, arith,
}
use pdu_session_sim.Models.{PduSession}
use pdu_session_sim.Smf.Concurrent.Holds.{Holds}
use pdu_session_sim.Smf.Concurrent.Service.{Worker, busy, set}
use pdu_session_sim.Smf.Concurrent.Stages.{
  Stage, saving, validating, establishing, activating, transferring, succeeding, finished, waiting,
  failing, marking, notifying, after_outcome, advance,
}
use pdu_session_sim.Smf.Db.Interface.{SessionRepository, IsRepository, IsReliable}
use pdu_session_sim.Smf.Db.Status.{active_status, failed_status}
use pdu_session_sim.Smf.Orchestrator.Establishment.{
  session_of, validate_subscription, transfer_active,
}
use pdu_session_sim.Smf.Orchestrator.Establishment.Laws.{
  validate_subscription-store, transfer_active-store,
}
use pdu_session_sim.Smf.Orchestrator.Notify.{notify_amf_session_failure}
use pdu_session_sim.Smf.Orchestrator.Reason.{reason_of}
use pdu_session_sim.Smf.Orchestrator.State.{Job, Metrics, World, Surroundings}
use pdu_session_sim.System.Core.{written}
use pdu_session_sim.System.Core.Calls.{begin_call-Sound, end_call-Sound}
use pdu_session_sim.System.Core.Moves.{
  written-after_outcome, AtStage-after_outcome, AreBacked-written, quiet-Sound,
}
use pdu_session_sim.System.Core.Sound.{Log, HasBacking, AtStage, AtWork, AreBacked, Sound}
use pdu_session_sim.Upf.{Server}

module _ {R : Type 0} {kept : ℕ → ℕ} (repo : SessionRepository R) (lawful : IsRepository kept repo)
    (reliable : IsReliable repo) (log : Log) (upf : Server) (to_upf to_smf : List (List ℕ))
    (workers : ℕ → Worker) (w : World R)
    (sound : Sound repo log w.pfcp upf to_upf to_smf workers w.store) (env : Surroundings) (i : ℕ)
    (job : Job) (m : Metrics) where
  -- What holds of all after a stage.
  abbrev pub SoundAfter : World R × Metrics × Stage → Type 0
  SoundAfter (w', _, following) =
      (log' : Log) × Sound repo log' w'.pfcp upf (written following ++ to_upf) to_smf
        (set workers i (busy job following)) w'.store

  -- A stage that needs no PFCP, and goes on to such a stage.
  quiet :
      (w' : World R) (following : Stage)
      → w'.pfcp ≡ w.pfcp
      → written following ≡ []
      → AtStage log w.pfcp upf job following
      → AreBacked log w.pfcp repo upf w'.store
      → SoundAfter (w', m, following)
  quiet w' following same nothing at backed = (
    log,
    quiet-Sound repo log w.pfcp upf to_upf to_smf workers w.store sound i job w'.pfcp w'.store
        following same nothing at backed,
  )

  -- The outcome decides on the next stage.
  branching :
      {A : Type 0} (w' : World R) (following : Stage) (r : Result A)
      → w'.pfcp ≡ w.pfcp
      → written following ≡ []
      → AtStage log w.pfcp upf job following
      → AreBacked log w.pfcp repo upf w'.store
      → SoundAfter (w', m, after_outcome following r)
  branching w' following r same nothing at backed =
      quiet w' (after_outcome following r) same (written-after_outcome following r nothing)
        (AtStage-after_outcome repo log w.pfcp upf job following r at) backed

  notify_amf_session_failure-store :
      (reason e : Text)
      → (let w' =
            notify_amf_session_failure env.network repo job.sm_context_ref job.supi reason e w in
          (w'.store ≡ w.store) × (w'.pfcp ≡ w.pfcp))
  unfolding notify_amf_session_failure
  notify_amf_session_failure-store reason e = ground arith

  -- A stage that writes the job's session, backed where it is active.
  writing :
      {A : Type 0} (store' : R) (sess : PduSession) (following : Stage) (r : Result A)
      → ((other : Text)
          → job.sm_context_ref ≢ other
          → repo.get other store' ≡ repo.get other w.store)
      → repo.get job.sm_context_ref store' ≡ ok sess
      → (sess.status ≡ active_status → HasBacking log w.pfcp upf sess.ip_address)
      → written following ≡ []
      → AtStage log w.pfcp upf job following
      → SoundAfter (record w { store = store' }, m, after_outcome following r)
  writing store' sess following r others at held nothing stage =
      branching (record w { store = store' }) following r refl nothing stage
        (AreBacked-written repo log w.pfcp upf w.store store' job.sm_context_ref sess others at held
          sound.backed)

  mine : (stage : Stage) → workers i ≡ busy job stage → AtStage log w.pfcp upf job stage
  mine stage at = subst (AtWork log w.pfcp upf) at (sound.at_work i)

  -- After a stage every active session is backed.
  pub advance-Sound :
      (stage : Stage)
      → workers i ≡ busy job stage
      → Holds repo w.store job stage
      → w.pfcp.seq_counter + 1 < 2 ^ 32
      → SoundAfter (advance repo env job stage w m)
  unfolding advance
  advance-Sound saving at holds small =
      let s = session_of job.sm_context_ref job in
      let saved = reliable.saves env.saved_at s w.store in
      writing (repo.save env.saved_at s w.store).0 _ validating _
        (lawful.saved_other env.saved_at s w.store) (lawful.saved env.saved_at s w.store saved)
        (λ active. ground (arith, active)) refl tt
  advance-Sound validating at holds small =
      let (w', r) = validate_subscription repo env job.supi job w in
      let (store, pfcp) = validate_subscription-store repo env job.supi job w in
      branching w' establishing r pfcp refl tt
        (subst (AreBacked log w.pfcp repo upf) (sym store) sound.backed)
  advance-Sound establishing at holds small =
      begin_call-Sound repo log upf to_upf to_smf workers w.pfcp w.store sound env i job small
  advance-Sound (waiting bytes seq ch) at holds small =
      end_call-Sound repo log upf to_upf to_smf workers w.pfcp w.store sound env i job bytes seq ch
        (mine (waiting bytes seq ch) at)
  advance-Sound activating at (s, found, _) small =
      let update =
        lawful.ip_updates job.sm_context_ref active_status job.ip_address env.activated_at in
      writing _ _ transferring (ok tt) (update.kept w.store)
        (update.changed w.store s found (
          reliable.updates_ip job.sm_context_ref active_status job.ip_address env.activated_at
            w.store s found))
        (λ active. mine activating at) refl tt
  advance-Sound transferring at holds small =
      let (w', r) = transfer_active repo env job.sm_context_ref job.supi job w in
      let (store, pfcp) = transfer_active-store repo env job.sm_context_ref job.supi job w in
      branching w' succeeding r pfcp refl tt
        (subst (AreBacked log w.pfcp repo upf) (sym store) sound.backed)
  advance-Sound succeeding at holds small = quiet w finished refl refl tt sound.backed
  advance-Sound (failing e) at holds small = quiet w (marking e) refl refl tt sound.backed
  advance-Sound (marking e) at (s, found, _) small =
      let update =
        lawful.reason_updates job.sm_context_ref failed_status (reason_of e) env.failed_at in
      writing _ _ (notifying (reason_of e) e) (ok tt) (update.kept w.store)
        (update.changed w.store s found (
          reliable.updates_reason job.sm_context_ref failed_status (reason_of e) env.failed_at
            w.store s found))
        (λ active. ground (arith, active)) refl tt
  advance-Sound (notifying reason e) at holds small =
      let w' = notify_amf_session_failure env.network repo job.sm_context_ref job.supi reason e w in
      let (store, pfcp) = notify_amf_session_failure-store reason e in
      quiet w' finished pfcp refl tt
        (subst (AreBacked log w.pfcp repo upf) (sym store) sound.backed)
  advance-Sound finished at holds small = quiet w finished refl refl tt sound.backed
