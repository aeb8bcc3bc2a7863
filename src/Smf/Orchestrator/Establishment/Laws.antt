-- ===== src/Smf/Orchestrator/Establishment/Laws.antt =====
-- What `processEstablishment` leaves in the store, on success and on each error.
use pdu_session_sim.Common.{ℕ, ◌≡◌, ◌≢◌, ◌⊎◌, Text, text_eq, none, ok, arith, int_eq}
use pdu_session_sim.Models.{PduSession}
use pdu_session_sim.Smf.Db.Interface.{SessionRepository, IsRepository, IsReliable}
use pdu_session_sim.Smf.Db.Status.{active_status}
use pdu_session_sim.Smf.Orchestrator.State.{Job, World, Surroundings}
use pdu_session_sim.Smf.Orchestrator.Task.{in_store_ignored, send_pfcp}
use pdu_session_sim.Smf.Orchestrator.Establishment.{
  session_of, validate_subscription, transfer_active, process_establishment,
}

module _ {R : Type 0} (repo : SessionRepository R) (env : Surroundings) where
  -- Validating and notifying do not touch the store or the PFCP client.
  pub validate_subscription-store :
      (supi : Text) (job : Job) (w : World R)
      → ((validate_subscription repo env supi job w).0.store ≡ w.store)
        × ((validate_subscription repo env supi job w).0.pfcp ≡ w.pfcp)
  unfolding validate_subscription
  validate_subscription-store supi job w = ground arith

  pub transfer_active-store :
      (ref supi : Text) (job : Job) (w : World R)
      → ((transfer_active repo env ref supi job w).0.store ≡ w.store)
        × ((transfer_active repo env ref supi job w).0.pfcp ≡ w.pfcp)
  unfolding transfer_active
  transfer_active-store ref supi job w = ground arith

-- The session once it is saved, and once it is active.
abbrev pub saved_session : (ℕ → ℕ) → Surroundings → Text → Job → PduSession
saved_session kept env ref job = record (session_of ref job) {
  created_at = kept env.saved_at;
  updated_at = kept env.saved_at;
}

abbrev pub activated_session : (ℕ → ℕ) → Surroundings → Text → Text → Job → PduSession
activated_session kept env ref ip job = record (saved_session kept env ref job) {
  status = active_status;
  ip_address = ip;
  updated_at = kept env.activated_at;
}

module _ {R : Type 0} {kept : ℕ → ℕ} (repo : SessionRepository R) (lawful : IsRepository kept repo)
    (reliable : IsReliable repo) (env : Surroundings) (ref supi ip : Text) (job : Job)
    (w : World R) where
  abbrev after : World R
  after = (process_establishment repo env ref supi ip job w).0

  abbrev stored : R
  stored = (repo.save env.saved_at (session_of ref job) w.store).0

  stored-saved : repo.get ref stored ≡ ok (saved_session kept env ref job)
  stored-saved =
      lawful.saved env.saved_at (session_of ref job) w.store
        (reliable.saves env.saved_at (session_of ref job) w.store)

  abbrev activated : R
  activated = (repo.update_status_and_ip ref active_status ip env.activated_at stored).0

  activated-active : repo.get ref activated ≡ ok (activated_session kept env ref ip job)
  activated-active =
      (lawful.ip_updates ref active_status ip env.activated_at).changed stored
        (saved_session kept env ref job) stored-saved
        (reliable.updates_ip ref active_status ip env.activated_at stored
          (saved_session kept env ref job) stored-saved)

  -- The world before each of the later stages.
  abbrev saved_world : World R
  saved_world = record w { store = stored }

  abbrev validated_world : World R
  validated_world = (validate_subscription repo env supi job saved_world).0

  abbrev accepted_world : World R
  accepted_world = (send_pfcp env.exchange ip validated_world).0

  abbrev active_world : World R
  active_world =
      (in_store_ignored (repo.update_status_and_ip ref active_status ip env.activated_at)
        accepted_world).0

  abbrev save_reliable : (repo.save env.saved_at (session_of ref job) w.store).1 ≡ none
  save_reliable = reliable.saves env.saved_at (session_of ref job) w.store

  -- The store is left as saved, or as activated after that, and as activated if no error comes.
  process_establishment-store :
      ((after.store ≡ stored) × ((process_establishment repo env ref supi ip job w).1 ≢ ok tt))
      ⊎ (after.store ≡ activated)
  unfolding process_establishment
  process_establishment-store = ground (
    arith,
    save_reliable,
    validate_subscription-store repo env supi job saved_world,
    transfer_active-store repo env ref supi job active_world,
  )

  -- Over a store with the laws of a store that never fails: where `processEstablishment` returns no
  -- error the session is active with its address; where it returns one the session is there still,
  -- as it was saved or already active.
  pub process_establishment-get :
      (((process_establishment repo env ref supi ip job w).1 ≡ ok tt)
        × (repo.get ref (process_establishment repo env ref supi ip job w).0.store
            ≡ ok (activated_session kept env ref ip job)))
      ⊎ (((process_establishment repo env ref supi ip job w).1 ≢ ok tt)
          × ((repo.get ref (process_establishment repo env ref supi ip job w).0.store
                ≡ ok (saved_session kept env ref job))
              ⊎ (repo.get ref (process_establishment repo env ref supi ip job w).0.store
                  ≡ ok (activated_session kept env ref ip job))))
  process_establishment-get =
      ground (arith, process_establishment-store, stored-saved, activated-active)

  -- No session under another reference is touched.
  pub process_establishment-get_other :
      (other : Text)
      → ref ≢ other
      → repo.get other (process_establishment repo env ref supi ip job w).0.store
        ≡ repo.get other w.store
  process_establishment-get_other other ne =
      let save_kept = lawful.saved_other env.saved_at (session_of ref job) w.store other ne in
      let ip_kept =
        (lawful.ip_updates ref active_status ip env.activated_at).kept stored other ne in
      ground (arith, process_establishment-store, save_kept, ip_kept)
