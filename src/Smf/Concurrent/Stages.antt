-- ===== src/Smf/Concurrent/Stages.antt =====
-- The stages of a job in a worker (`worker` and `processEstablishment` of internal/smf/service.go,
-- `SendSessionEstablishmentRequest` of internal/smf/pfcp_client.go).
use pdu_session_sim.Common.{ℕ, List, Text, text, ◌++◌, none, some, Result, ok, err}
use pdu_session_sim.Pfcp.{encode_request}
use pdu_session_sim.Smf.Db.Interface.{SessionRepository}
use pdu_session_sim.Smf.Db.Status.{active_status, failed_status}
use pdu_session_sim.Smf.Orchestrator.Establishment.{
  session_of, validate_subscription, transfer_active,
}
use pdu_session_sim.Smf.Orchestrator.Notify.{notify_amf_session_failure}
use pdu_session_sim.Smf.Orchestrator.Reason.{reason_of}
use pdu_session_sim.Smf.Orchestrator.State.{Job, Metrics, World, Surroundings}
use pdu_session_sim.Smf.Orchestrator.Task.{Task, wrap, in_store, in_store_ignored, prefix_error}
use pdu_session_sim.Smf.Orchestrator.Worker.{count_finished, count_success, count_failure}
use pdu_session_sim.Smf.PfcpClient.{
  PfcpClient, next_seq, register, unregister, await, rejected, timed_out,
}

-- What a worker does next. `waiting` keeps the call's locals: its request, its sequence number and its
-- channel. An error is first counted, then marked in the store under its reason, then told to the AMF.
pub data Stage : Type 0 where
  saving validating establishing activating transferring succeeding finished : Stage
  waiting : List ℕ → ℕ → ℕ → Stage
  failing marking : Text → Stage
  notifying : Text → Text → Stage

-- Where a stage goes by its outcome.
abbrev pub after_outcome : {A : Type 0} → Stage → Result A → Stage
after_outcome next (ok _) = next
after_outcome next (err e) = failing e

abbrev pub pfcp_error : Text
pfcp_error = text "PFCP Establishment Request failed: "

-- A call up to its wait: the sequence number, the request, the channel, and the write.
unfoldable pub begin_call : Surroundings → Text → PfcpClient → PfcpClient × Stage
begin_call env ip c =
    let c' = next_seq c in
    elim (encode_request 50 c'.seq_counter ip) [
      | err e ↦ (c', failing (pfcp_error ++ e))
      | ok bytes ↦
          let registered = register c'.seq_counter c' in
          elim (env.exchange bytes).write_error [
            | some e ↦ (unregister c'.seq_counter registered, failing (pfcp_error ++ e))
            | none ↦ (registered, waiting bytes c'.seq_counter c'.next_channel)
          ]
    ]

-- The `select` of a call and its deferred removal.
unfoldable pub end_call : Surroundings → List ℕ → ℕ → ℕ → PfcpClient → PfcpClient × Stage
end_call env bytes seq ch c = (
  unregister seq c,
  after_outcome activating
      (prefix_error pfcp_error (await rejected timed_out (env.exchange bytes).expired ch c)),
)

abbrev pub with_pfcp :
    {R : Type 0} → World R → Metrics → PfcpClient × Stage → World R × Metrics × Stage
with_pfcp w m (c, next) = (record w { pfcp = c }, m, next)

module _ {R : Type 0} (repo : SessionRepository R) (env : Surroundings) (job : Job) where
  abbrev pub via : Task R (Unit {0}) → Stage → World R → Metrics → World R × Metrics × Stage
  via task next w m = let (w', r) = task w in (w', m, after_outcome next r)

  -- One stage.
  unfoldable pub advance : Stage → World R → Metrics → World R × Metrics × Stage
  advance saving w m =
      via
        (wrap (text "database error: ")
          (in_store (repo.save env.saved_at (session_of job.sm_context_ref job))))
        validating w m
  advance validating w m = via (validate_subscription repo env job.supi job) establishing w m
  advance establishing w m = with_pfcp w m (begin_call env job.ip_address w.pfcp)
  advance (waiting bytes seq ch) w m = with_pfcp w m (end_call env bytes seq ch w.pfcp)
  advance activating w m =
      via
        (in_store_ignored (
          repo.update_status_and_ip job.sm_context_ref active_status job.ip_address
            env.activated_at))
        transferring w m
  advance transferring w m =
      via (transfer_active repo env job.sm_context_ref job.supi job) succeeding w m
  advance succeeding w m = (w, count_success (count_finished env.duration m), finished)
  advance (failing e) w m = (w, count_failure (count_finished env.duration m), marking e)
  advance (marking e) w m =
      let (store, _) =
        repo.update_status_with_reason job.sm_context_ref failed_status (reason_of e) env.failed_at
          w.store in
      (record w { store = store }, m, notifying (reason_of e) e)
  advance (notifying reason e) w m = (
    notify_amf_session_failure env.network repo job.sm_context_ref job.supi reason e w,
    m,
    finished,
  )
  advance finished w m = (w, m, finished)
