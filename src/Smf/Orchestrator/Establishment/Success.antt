-- ===== src/Smf/Orchestrator/Establishment/Success.antt =====
-- When `processEstablishment` succeeds, stage by stage, and what it has sent then.
use pdu_session_sim.Common.{
  ◌≡◌, ◌↔◌, ◌⊎◌, inl, inr, ◌∷◌, Text, text_eq, none, Option-cases, ok, Result-cases, arith, int_eq,
  err, text, Text, ◌++◌,
}
use pdu_session_sim.Pfcp.{PfcpSessionResponse}
use pdu_session_sim.Smf.Db.Interface.{SessionRepository}
use pdu_session_sim.Smf.Db.Status.{active_status}
use pdu_session_sim.Smf.PfcpClient.{send_session_establishment_request}
use pdu_session_sim.Smf.Orchestrator.Establishment.Laws.{validate_subscription-store}
use pdu_session_sim.Smf.Orchestrator.State.{Job, World, Surroundings}
use pdu_session_sim.Smf.Orchestrator.Task.{send_pfcp, in_store_ignored}
use pdu_session_sim.Smf.Orchestrator.Establishment.{
  udm_query, amf_post, session_of, validate_subscription, transfer_active, process_establishment,
}
use pdu_session_sim.Smf.Orchestrator.Establishment.Stages.{
  Validates, Transfers, validate_complete, validate_sound, transfer_complete, transfer_sound,
  validate-requests, transfer-requests,
}

-- Every stage of an establishment goes right: the save, the validation, the PFCP exchange and the
-- message to the AMF.
pub record Succeeds {R : Type 0} (repo : SessionRepository R) (env : Surroundings)
    (ref supi ip : Text) (job : Job) (w : World R) : Type 0 where
  pub saves : (repo.save env.saved_at (session_of ref job) w.store).1 ≡ none
  pub validates : Validates env supi job
  pub establishes :
      (res : PfcpSessionResponse) × ((send_session_establishment_request env.exchange ip w.pfcp).1
        ≡ ok res)
  pub transfers : Transfers env ref supi job

module _ {R : Type 0} (repo : SessionRepository R) (env : Surroundings) (ref supi ip : Text)
    (job : Job) (w : World R) where
  abbrev saved_world : World R
  saved_world = record w { store = (repo.save env.saved_at (session_of ref job) w.store).0 }

  abbrev active_world : World R
  active_world =
      let v = (validate_subscription repo env supi job saved_world).0 in
      let p = (send_pfcp env.exchange ip v).0 in
      (in_store_ignored (repo.update_status_and_ip ref active_status ip env.activated_at) p).0

  process_establishment_complete :
      Succeeds repo env ref supi ip job w
      → ((process_establishment repo env ref supi ip job w).1 ≡ ok tt)
        × ((process_establishment repo env ref supi ip job w).0.requests
            ≡ amf_post ref supi job ∷ udm_query supi ∷ w.requests)
  unfolding process_establishment
  process_establishment_complete s = ground (
    arith,
    s.saves,
    s.establishes,
    validate_complete repo env supi job saved_world s.validates,
    transfer_complete repo env supi job active_world ref s.transfers,
  )

  -- Once the UPF has accepted the session, what comes of the run is what comes of its last stage.
  pub process_of_transfer :
      (repo.save env.saved_at (session_of ref job) w.store).1 ≡ none
      → Validates env supi job
      → ((res : PfcpSessionResponse) × ((send_session_establishment_request env.exchange ip
              w.pfcp).1
            ≡ ok res))
      → (w' : World R) × ((process_establishment repo env ref supi ip job w).1
          ≡ (transfer_active repo env ref supi job w').1)
  unfolding process_establishment
  process_of_transfer saved v done =
      (active_world, ground (arith, saved, done, validate_complete repo env supi job saved_world v))

  -- A refusal by the UPF, or no answer in time, ends the run with an error that names the stage.
  pub process_of_pfcp_failure :
      (e : Text)
      → (repo.save env.saved_at (session_of ref job) w.store).1 ≡ none
      → Validates env supi job
      → (send_session_establishment_request env.exchange ip w.pfcp).1 ≡ err e
      → (process_establishment repo env ref supi ip job w).1
        ≡ err (text "PFCP Establishment Request failed: " ++ e)
  unfolding process_establishment
  process_of_pfcp_failure e saved v failed =
      ground (arith, saved, failed, validate_complete repo env supi job saved_world v)

  abbrev validated_world : World R
  validated_world = (validate_subscription repo env supi job saved_world).0

  -- A stage that fails ends the run with an error.
  stages_of_ok :
      (process_establishment repo env ref supi ip job w).1 ≡ ok tt
      → ((repo.save env.saved_at (session_of ref job) w.store).1 ≡ none)
        × ((validate_subscription repo env supi job saved_world).1 ≡ ok tt)
        × ((transfer_active repo env ref supi job active_world).1 ≡ ok tt)
  unfolding process_establishment
  stages_of_ok e = ground arith

  pfcp_of_ok :
      (process_establishment repo env ref supi ip job w).1 ≡ ok tt
      → (res : PfcpSessionResponse) × ((send_session_establishment_request env.exchange ip
            validated_world.pfcp).1
          ≡ ok res)
  unfolding process_establishment
  pfcp_of_ok e =
      elim (Result-cases
        (send_session_establishment_request env.exchange ip validated_world.pfcp).1) [
          | inl (x, failed) ↦ ground (arith, failed, stages_of_ok e)
          | inr (res, done) ↦ (res, done)
        ]

  process_establishment_sound :
      (process_establishment repo env ref supi ip job w).1 ≡ ok tt
      → Succeeds repo env ref supi ip job w
  process_establishment_sound e =
      let (saved, validated, transferred) = stages_of_ok e in
      let (res, done) = pfcp_of_ok e in
      let same : validated_world.pfcp ≡ w.pfcp =
        (validate_subscription-store repo env supi job saved_world).1 in
      record {
        saves = saved;
        validates = validate_sound repo env supi job saved_world validated;
        establishes = (res, rw same at done);
        transfers = transfer_sound repo env supi job active_world ref transferred;
      }

  -- `processEstablishment` returns no error exactly if every stage goes right.
  pub process_establishment-ok_iff :
      ((process_establishment repo env ref supi ip job w).1 ≡ ok tt)
      ↔ Succeeds repo env ref supi ip job w
  process_establishment-ok_iff =
      (process_establishment_sound, λ s. (process_establishment_complete s).0)

  -- An establishment without error has asked the UDM and then told the AMF, and sent nothing else.
  pub process_establishment-requests :
      (process_establishment repo env ref supi ip job w).1 ≡ ok tt
      → (process_establishment repo env ref supi ip job w).0.requests
        ≡ amf_post ref supi job ∷ udm_query supi ∷ w.requests
  process_establishment-requests e =
      (process_establishment_complete (process_establishment_sound e)).1

  after_validation :
      (repo.save env.saved_at (session_of ref job) w.store).1 ≡ none
      → (validate_subscription repo env supi job saved_world).1 ≡ ok tt
      → Validates env supi job
      → ((process_establishment repo env ref supi ip job w).0.requests ≡ w.requests)
        ⊎ ((process_establishment repo env ref supi ip job w).0.requests
            ≡ udm_query supi ∷ w.requests)
        ⊎ (((process_establishment repo env ref supi ip job w).0.requests
              ≡ amf_post ref supi job ∷ udm_query supi ∷ w.requests)
            × Validates env supi job
            × ((res : PfcpSessionResponse) × ((send_session_establishment_request env.exchange ip
                    w.pfcp).1
                  ≡ ok res)))
  unfolding process_establishment
  after_validation saved valid v =
      let world = validate_complete repo env supi job saved_world v in
      elim (Result-cases (send_session_establishment_request env.exchange ip w.pfcp).1) [
        | inl (x, failed) ↦ inr (inl (ground (arith, saved, world, failed)))
        | inr (res, done) ↦ elim (transfer-requests repo env supi job active_world ref) [
          | inl same ↦ inr (inl (ground (arith, saved, world, done, same)))
          | inr more ↦ inr (inr (ground (arith, saved, world, done, more), v, (res, done)))
        ]
      ]

  -- The AMF is told that the session is active only after the UDM has validated the subscription and
  -- the UPF has accepted the session, and only in the last request of a run.
  pub process_establishment-tells_active :
      ((process_establishment repo env ref supi ip job w).0.requests ≡ w.requests)
      ⊎ ((process_establishment repo env ref supi ip job w).0.requests
          ≡ udm_query supi ∷ w.requests)
      ⊎ (((process_establishment repo env ref supi ip job w).0.requests
            ≡ amf_post ref supi job ∷ udm_query supi ∷ w.requests)
          × Validates env supi job
          × ((res : PfcpSessionResponse) × ((send_session_establishment_request env.exchange ip
                  w.pfcp).1
                ≡ ok res)))
  unfolding process_establishment
  process_establishment-tells_active =
      elim (Option-cases (repo.save env.saved_at (session_of ref job) w.store).1) [
        | inr (x, unsaved) ↦ inl (ground (arith, unsaved))
        | inl saved ↦ elim (Result-cases (validate_subscription repo env supi job saved_world).1) [
          | inl (x, invalid) ↦
              ground (arith, saved, invalid, validate-requests repo env supi job saved_world)
          | inr (_, valid) ↦
              after_validation saved valid (validate_sound repo env supi job saved_world valid)
        ]
      ]
