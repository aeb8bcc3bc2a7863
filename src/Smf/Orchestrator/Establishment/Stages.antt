-- ===== src/Smf/Orchestrator/Establishment/Stages.antt =====
-- The two HTTP stages of `processEstablishment`, when they go right and what they send
-- (internal/smf/service.go).
use pdu_session_sim.Common.{
  ◌≡◌, ◌≢◌, ◌↔◌, ◌⊎◌, inl, inr, ◌∷◌, ◌++◌, false, Text, text, text_eq, ==_iff, none, Option-cases,
  ok, err, Result-cases, arith, int_eq,
}
use pdu_session_sim.Decimal.{decimal}
use pdu_session_sim.Http.{HttpResponse, get_method, post_method}
use pdu_session_sim.Models.{SubscriptionData}
use pdu_session_sim.Smf.Db.Interface.{SessionRepository}
use pdu_session_sim.Smf.Orchestrator.State.{Job, World, Surroundings}
use pdu_session_sim.Smf.Orchestrator.Establishment.{
  udm_query, amf_post, udm_url, amf_url, mismatch, validate_subscription, transfer_active,
}

-- The UDM answers 200 with a subscription for the data network and the slice of the job.
pub record Validates (env : Surroundings) (supi : Text) (job : Job) : Type 0 where
  pub response : HttpResponse
  pub subscription : SubscriptionData
  pub built : env.network.request_error get_method (udm_url supi) ≡ none
  pub responds : env.network.respond (udm_query supi) ≡ ok response
  pub accepted : response.status_code ≡ 200
  pub decoded : response.body.as_subscription ≡ ok subscription
  pub same_dnn : subscription.dnn ≡ job.dnn
  pub same_sst : subscription.s_nssai.sst ≡ job.sst
  pub same_sd : subscription.s_nssai.sd ≡ job.sd

-- The AMF answers 200 to the message that the session is active.
pub record Transfers (env : Surroundings) (ref supi : Text) (job : Job) : Type 0 where
  pub response : HttpResponse
  pub built : env.network.request_error post_method (amf_url supi) ≡ none
  pub responds : env.network.respond (amf_post ref supi job) ≡ ok response
  pub accepted : response.status_code ≡ 200

mismatch_iff :
    (sub : SubscriptionData) (job : Job)
    → (mismatch sub job ≡ false)
      ↔ ((sub.dnn ≡ job.dnn) × (sub.s_nssai.sst ≡ job.sst) × (sub.s_nssai.sd ≡ job.sd))
mismatch_iff sub job =
    ground
      (arith, ==_iff sub.dnn job.dnn, ==_iff sub.s_nssai.sst job.sst, ==_iff sub.s_nssai.sd job.sd)

module _ {R : Type 0} (repo : SessionRepository R) (env : Surroundings) (supi : Text) (job : Job)
    (w : World R) where
  pub validate_complete :
      Validates env supi job
      → validate_subscription repo env supi job w
        ≡ (record w { requests = udm_query supi ∷ w.requests }, ok tt)
  unfolding validate_subscription
  validate_complete v = ground (
    arith,
    mismatch_iff v.subscription job,
    v.built,
    v.responds,
    v.accepted,
    v.decoded,
    v.same_dnn,
    v.same_sst,
    v.same_sd,
  )

  pub validate_sound :
      (validate_subscription repo env supi job w).1 ≡ ok tt → Validates env supi job
  unfolding validate_subscription
  validate_sound e = elim (Option-cases (env.network.request_error get_method (udm_url supi))) [
    | inr (x, refused) ↦ ground (arith, refused)
    | inl built ↦ elim (Result-cases (env.network.respond (udm_query supi))) [
      | inl (x, unreached) ↦ ground (arith, built, unreached)
      | inr (resp, responds) ↦ elim (Result-cases resp.body.as_subscription) [
        | inl (x, garbled) ↦ ground (arith, built, responds, garbled)
        | inr (sub, decoded) ↦
            let fits : mismatch sub job ≡ false = ground arith in
            let (dnn, sst, sd) = (mismatch_iff sub job).0 fits in
            record {
              response = resp;
              subscription = sub;
              built = built;
              responds = responds;
              accepted = ground arith;
              decoded = decoded;
              same_dnn = dnn;
              same_sst = sst;
              same_sd = sd;
            }
      ]
    ]
  ]

  pub transfer_complete :
      (ref : Text)
      → Transfers env ref supi job
      → transfer_active repo env ref supi job w
        ≡ (record w { requests = amf_post ref supi job ∷ w.requests }, ok tt)
  unfolding transfer_active
  transfer_complete ref t = ground (arith, t.built, t.responds, t.accepted)

  -- An answer of the AMF other than 200 is an error with its code and status.
  pub transfer_of_refusal :
      (ref : Text) (resp : HttpResponse)
      → env.network.request_error post_method (amf_url supi) ≡ none
      → env.network.respond (amf_post ref supi job) ≡ ok resp
      → resp.status_code ≢ 200
      → (transfer_active repo env ref supi job w).1
        ≡ err (
            text "AMF responded with error: "
            ++ (decimal resp.status_code ++ (text " " ++ resp.status)))
  unfolding transfer_active
  transfer_of_refusal ref resp built responds refused = ground arith

  pub validate-requests :
      ((validate_subscription repo env supi job w).0.requests ≡ w.requests)
      ⊎ ((validate_subscription repo env supi job w).0.requests ≡ udm_query supi ∷ w.requests)
  unfolding validate_subscription
  validate-requests = ground arith

  pub transfer-requests :
      (ref : Text)
      → ((transfer_active repo env ref supi job w).0.requests ≡ w.requests)
        ⊎ ((transfer_active repo env ref supi job w).0.requests
            ≡ amf_post ref supi job ∷ w.requests)
  unfolding transfer_active
  transfer-requests ref = ground arith

  pub transfer_sound :
      (ref : Text)
      → (transfer_active repo env ref supi job w).1 ≡ ok tt
      → Transfers env ref supi job
  unfolding transfer_active
  transfer_sound ref e =
      elim (Option-cases (env.network.request_error post_method (amf_url supi))) [
        | inr (x, refused) ↦ ground (arith, refused)
        | inl built ↦ elim (Result-cases (env.network.respond (amf_post ref supi job))) [
          | inl (x, unreached) ↦ ground (arith, built, unreached)
          | inr (resp, responds) ↦ record {
            response = resp;
            built = built;
            responds = responds;
            accepted = ground arith;
          }
        ]
      ]
