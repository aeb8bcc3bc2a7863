-- ===== src/Smf/Concurrent/Alone.antt =====
-- A worker that is alone does, stage by stage, what a job does in one piece (internal/smf/service.go).
use pdu_session_sim.Common.{
  ℕ, zero, suc, ◌≡◌, refl, ap, ◌∙◌, List, none, Option-cases, Text, text, ◌++◌, Result, ok, err,
  Result-cases, inl, inr, arith,
}
use pdu_session_sim.Pfcp.{PfcpSessionResponse, encode_request}
use pdu_session_sim.Smf.Concurrent.Stages.{
  Stage, saving, validating, establishing, activating, transferring, succeeding, finished, waiting,
  failing, after_outcome, pfcp_error, begin_call, end_call, advance,
}
use pdu_session_sim.Smf.Db.Interface.{SessionRepository}
use pdu_session_sim.Smf.Db.Status.{active_status}
use pdu_session_sim.Smf.Orchestrator.Establishment.{
  session_of, validate_subscription, transfer_active, process_establishment,
}
use pdu_session_sim.Smf.Orchestrator.State.{Job, job_establish, Metrics, World, Surroundings}
use pdu_session_sim.Smf.Orchestrator.Task.{
  Task, prefix_error, ◌>>◌, wrap, in_store, in_store_ignored, send_pfcp,
}
use pdu_session_sim.Smf.Orchestrator.Worker.{settle, process_job}
use pdu_session_sim.Smf.PfcpClient.{
  PfcpClient, await, register, unregister, next_seq, transact, deliver,
  send_session_establishment_request, rejected, timed_out,
}

-- The datagrams that arrive while the worker waits.
abbrev pub arrivals : {R : Type 0} → Surroundings → Stage → World R → World R
arrivals env (waiting bytes seq ch) w = record w {
  pfcp = deliver (env.exchange bytes).arrived w.pfcp;
}
arrivals env _ w = w

abbrev and_finished : {R : Type 0} → World R × Metrics → World R × Metrics × Stage
and_finished (w, m) = (w, m, finished)

module _ {R : Type 0} (repo : SessionRepository R) (env : Surroundings) (job : Job) where
  -- A number of stages, with nothing between them but what a call waits for.
  unfoldable alone : ℕ → Stage → World R → Metrics → World R × Metrics × Stage
  alone zero stage w m = (w, m, stage)
  alone (suc n) stage w m =
      let (w', m', following) = advance repo env job stage (arrivals env stage w) m in
      alone n following w' m'

  alone-finished : (n : ℕ) (w : World R) (m : Metrics) → alone n finished w m ≡ (w, m, finished)
  unfolding alone advance
  alone-finished zero w m = refl
  alone-finished (suc n) w m = alone-finished n w m

  alone-failing :
      (n : ℕ) (e : Text) (w : World R) (m : Metrics)
      → alone (suc (suc (suc n))) (failing e) w m ≡ and_finished (settle repo env job m (w, err e))
  unfolding alone advance settle
  alone-failing n e w m = alone-finished n _ _

  -- The stages from one on, within a number, do what a task does.
  abbrev Does : ℕ → Stage → Task R (Unit {0}) → Type 0
  Does n stage task =
      (w : World R) (m : Metrics)
      → alone n stage w m ≡ and_finished (settle repo env job m (task w))

  -- A stage is left with an error or for the next one.
  alone-after_outcome :
      {A : Type 0} (n : ℕ) (following : Stage) (rest : Task R (Unit {0})) (r : Result A)
      (w : World R) (m : Metrics)
      → Does (suc (suc (suc n))) following rest
      → alone (suc (suc (suc n))) (after_outcome following r) w m
        ≡ and_finished (settle repo env job m (elim r [ err e ↦ (w, err e) | ok a ↦ rest w ]))
  alone-after_outcome n following rest (err e) w m does = alone-failing n e w m
  alone-after_outcome n following rest (ok _) w m does = does w m

  succeeding-Does : (n : ℕ) → Does (suc n) succeeding (λ w. (w, ok tt))
  unfolding alone advance settle
  succeeding-Does n w m = alone-finished n _ _

  abbrev transfer : Task R (Unit {0})
  transfer = transfer_active repo env job.sm_context_ref job.supi job

  transferring-Does : (n : ℕ) → Does (suc (suc (suc (suc n)))) transferring transfer
  unfolding alone advance
  transferring-Does n w m =
      alone-after_outcome n succeeding (λ w'. (w', ok tt)) (transfer w).1 (transfer w).0 m
        (succeeding-Does (suc (suc n)))
      ∙ ap (λ x. and_finished (settle repo env job m x)) (ground arith)

  abbrev activate : Task R (Unit {0})
  activate =
      in_store_ignored
        (repo.update_status_and_ip job.sm_context_ref active_status job.ip_address env.activated_at)
      >> transfer

  activating-Does : (n : ℕ) → Does (suc (suc (suc (suc (suc n))))) activating activate
  unfolding alone advance
  activating-Does n w m = transferring-Does n _ m

  abbrev establishment : Task R (Unit {0})
  establishment = wrap pfcp_error (send_pfcp env.exchange job.ip_address) >> activate

  module _ (w : World R) (m : Metrics) where
    abbrev client : PfcpClient
    client = next_seq w.pfcp

    abbrev seq : ℕ
    seq = client.seq_counter

    begun :
        (n : ℕ) (c : PfcpClient) (stage : Stage)
        → begin_call env job.ip_address w.pfcp ≡ (c, stage)
        → alone (suc n) establishing w m ≡ alone n stage (record w { pfcp = c }) m
    unfolding alone advance
    begun n c stage e = ap (λ x. alone n x.1 (record w { pfcp = x.0 }) m) e

    waited :
        (n : ℕ) (bytes : List ℕ) (ch : ℕ) (c : PfcpClient)
        → alone (suc n) (waiting bytes seq ch) (record w { pfcp = c }) m ≡ (
            let (c', stage) = end_call env bytes seq ch (deliver (env.exchange bytes).arrived c) in
            alone n stage (record w { pfcp = c' }) m)
    unfolding alone advance
    waited n bytes ch c = refl

    establishing_of_error :
        (n : ℕ) (e : Text) (c : PfcpClient)
        → begin_call env job.ip_address w.pfcp ≡ (c, failing (pfcp_error ++ e))
        → send_session_establishment_request env.exchange job.ip_address w.pfcp ≡ (c, err e)
        → alone (suc (suc (suc (suc n)))) establishing w m
          ≡ and_finished (settle repo env job m (establishment w))
    establishing_of_error n e c started failed =
        begun (suc (suc (suc n))) c (failing (pfcp_error ++ e)) started
        ∙ alone-failing n (pfcp_error ++ e) (record w { pfcp = c }) m
        ∙ ap (λ x. and_finished (settle repo env job m x)) (ground (arith, failed))

    -- The client once the datagrams of the wait are in, and what the call returns by it.
    abbrev delivered : List ℕ → PfcpClient
    delivered bytes = deliver (env.exchange bytes).arrived (register seq client)

    abbrev received : List ℕ → Result PfcpSessionResponse
    received bytes = prefix_error pfcp_error (
        await rejected timed_out (env.exchange bytes).expired client.next_channel (delivered bytes))

    answered :
        (bytes : List ℕ)
        → encode_request 50 seq job.ip_address ≡ ok bytes
        → (env.exchange bytes).write_error ≡ none
        → (elim (received bytes) [
          | err e ↦ (record w { pfcp = unregister seq (delivered bytes) }, err e)
          | ok _ ↦ activate (record w { pfcp = unregister seq (delivered bytes) })
        ])
          ≡ establishment w
    unfolding send_session_establishment_request transact
    answered bytes encoded written = ground (arith, encoded, written)

    -- A call that waits.
    establishing_of_wait :
        (n : ℕ) (bytes : List ℕ)
        → encode_request 50 seq job.ip_address ≡ ok bytes
        → (env.exchange bytes).write_error ≡ none
        → alone (suc (suc (suc (suc (suc (suc (suc n))))))) establishing w m
          ≡ and_finished (settle repo env job m (establishment w))
    unfolding begin_call end_call send_session_establishment_request
    establishing_of_wait n bytes encoded written =
        begun (suc (suc (suc (suc (suc (suc n)))))) (register seq client)
          (waiting bytes seq client.next_channel) (ground (arith, encoded, written))
        ∙ waited (suc (suc (suc (suc (suc n))))) bytes client.next_channel (register seq client)
        ∙ alone-after_outcome (suc (suc n)) activating activate (received bytes)
            (record w { pfcp = unregister seq (delivered bytes) }) m (activating-Does n)
        ∙ ap (λ x. and_finished (settle repo env job m x)) (answered bytes encoded written)

  establishing-Does :
      (n : ℕ) → Does (suc (suc (suc (suc (suc (suc (suc n))))))) establishing establishment
  unfolding begin_call send_session_establishment_request transact
  establishing-Does n w m =
      elim (Result-cases (encode_request 50 (next_seq w.pfcp).seq_counter job.ip_address)) [
        | inl (e, refused) ↦
            establishing_of_error w m (suc (suc (suc n))) e (next_seq w.pfcp)
              (ground (arith, refused)) (ground (arith, refused))
        | inr (bytes, encoded) ↦ elim (Option-cases (env.exchange bytes).write_error) [
          | inl written ↦ establishing_of_wait w m n bytes encoded written
          | inr (e, unwritten) ↦
              establishing_of_error w m (suc (suc (suc n))) e
                (unregister (next_seq w.pfcp).seq_counter
                  (register (next_seq w.pfcp).seq_counter (next_seq w.pfcp)))
                (ground (arith, encoded, unwritten)) (ground (arith, encoded, unwritten))
        ]
      ]

  abbrev validate : Task R (Unit {0})
  validate = validate_subscription repo env job.supi job >> establishment

  validating-Does :
      (n : ℕ) → Does (suc (suc (suc (suc (suc (suc (suc (suc n)))))))) validating validate
  unfolding alone advance
  validating-Does n w m =
      let (w', r) = validate_subscription repo env job.supi job w in
      alone-after_outcome (suc (suc (suc (suc n)))) establishing establishment r w' m
        (establishing-Does n)

  saving-Does :
      (n : ℕ)
      → Does
          (suc (suc (suc (suc (suc (suc (suc (suc (suc n)))))))))
          saving
          (process_establishment repo env job.sm_context_ref job.supi job.ip_address job)
  unfolding alone advance process_establishment
  saving-Does n w m =
      let (w', r) =
        wrap (text "database error: ")
          (in_store (repo.save env.saved_at (session_of job.sm_context_ref job))) w in
      alone-after_outcome (suc (suc (suc (suc (suc n))))) validating validate r w' m
        (validating-Does n)

  process_job_of_kind :
      (w : World R) (m : Metrics)
      → job.type ≡ job_establish
      → settle repo env job m
          (process_establishment repo env job.sm_context_ref job.supi job.ip_address job w)
        ≡ process_job repo env job w m
  unfolding process_job
  process_job_of_kind w m kind = ground (arith, kind)

  -- A worker that is alone in the SMF, stage by stage and with nothing between two stages but the
  -- datagrams that its call waits for, does what an establishment job does in one piece: the same
  -- world, the same counters, and the job is finished.
  alone-process_job :
      (w : World R) (m : Metrics)
      → job.type ≡ job_establish
      → alone 9 saving w m ≡ and_finished (process_job repo env job w m)
  alone-process_job w m kind = saving-Does 0 w m ∙ ap and_finished (process_job_of_kind w m kind)
